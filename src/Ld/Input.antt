-- ===== src/Ld/Input.antt =====
-- ld/io.c and ld/readobj.c: reading from the current input file, which is the list of the bytes
-- that are still to come. `none` is `prematureeof`.
use mc6801_tools.Base.{ℕ, zero, suc, Option, none, some, List, [], ◌∷◌, get_or, ◌==◌, if◌then◌else◌}
use mc6801_tools.TypeConv.{cnu2}
use mc6801_tools.As.Const.{byte_order}

abbrev pub Read : Type 0 → Type 0
Read A = List ℕ → Option (A × List ℕ)

infixl 5 ◌>>=◌
abbrev pub ◌>>=◌ : {A B : Type 0} → Read A → (A → Read B) → Read B
◌>>=◌ m f input = elim (m input) [ none ↦ none | some (a, rest) ↦ f a rest ]

abbrev pub return : {A : Type 0} → A → Read A
return a input = some (a, input)

unfoldable pub readchar : Read ℕ
readchar [] = none
readchar (c ∷ rest) = some (c, rest)

unfoldable pub readin : ℕ → Read (List ℕ)
unfolding readchar
readin zero = return []
readin (suc n) = do c ← readchar; cs ← readin n; return (c ∷ cs)

-- The bytes of a count that is not 1, 2 or 4 give the warning of `cnu2`, and 0.
unfoldable pub readsize : ℕ → Read ℕ
unfolding readin
readsize count =
    if count == 0
    then return 0
    else do buf ← readin count; return (elim (cnu2 byte_order buf count) [ none ↦ 0 | some v ↦ v ])

unfoldable pub convertsize : ℕ → ℕ
convertsize index = get_or (0 ∷ 1 ∷ 2 ∷ 4 ∷ []) index 0

unfoldable pub readconvsize : ℕ → Read ℕ
unfolding readsize convertsize
readconvsize countindex = readsize (convertsize countindex)
