-- ===== src/As/Table/Chains.antt =====
-- The chains of the hash table: what the first loop of `lookup` finds in them.
use mc6801_tools.Base.{
  ℕ, zero, suc, ◌<◌, ◌≡◌, refl, sym, ap, ap₂, ◌∙◌, true, Option, none, some, List, [], ◌∷◌, ◌++◌,
  length, get_elem?, All, ==→eq, Bool-cases, inl, inr, if◌then◌else◌, arith,
}
use mc6801_tools.As.Asm.{Asm, Symbol}
use mc6801_tools.As.Table.{hash, same_name, is_named, find_in_chain, chain, sptsiz}

-- Every chain holds symbols of the table.
abbrev pub AreSymbols : ℕ → List ℕ → Type 0
AreSymbols n ids = All (λ (id : ℕ). id < n) ids

abbrev pub IsTable : Asm → Type 0
IsTable s = (length s.spt ≡ sptsiz) × All (AreSymbols (length s.symbols)) s.spt

-- The symbol of a name.
unfoldable pub find : List ℕ → Asm → Option ℕ
find name s = find_in_chain s.symbols name (chain name s)

pub hash-lt : (name : List ℕ) → hash name < sptsiz
unfolding hash
hash-lt name = omega arith

pub same_name_self : (name : List ℕ) → same_name name name ≡ true
unfolding same_name
same_name_self [] = refl
same_name_self (b ∷ bs) = ground (arith, same_name_self bs)

pub same_name-eq : (xs ys : List ℕ) → same_name xs ys ≡ true → xs ≡ ys
unfolding same_name
same_name-eq [] [] h = refl
same_name-eq [] (y ∷ ys) h = ground arith
same_name-eq (x ∷ xs) [] h = ground arith
same_name-eq (x ∷ xs) (y ∷ ys) h = ground (arith, same_name-eq xs ys, ==→eq x y)

module _ {ℓ} {A : Type ℓ} where
  pub get_elem?-append :
      (xs ys : List A) (i : ℕ) → i < length xs → get_elem? (xs ++ ys) i ≡ get_elem? xs i
  get_elem?-append [] ys i h = absurd (omega arith)
  get_elem?-append (x ∷ xs) ys zero h = refl
  get_elem?-append (x ∷ xs) ys (suc i) h = get_elem?-append xs ys i (omega arith)

  pub get_elem?-end : (xs : List A) (y : A) → get_elem? (xs ++ y ∷ []) (length xs) ≡ some y
  get_elem?-end [] y = refl
  get_elem?-end (x ∷ xs) y = get_elem?-end xs y

-- More symbols do not change what a chain finds.
pub find_in_chain-append :
    (symbols more : List Symbol) (name ids : List ℕ)
    → AreSymbols (length symbols) ids
    → find_in_chain (symbols ++ more) name ids ≡ find_in_chain symbols name ids
unfolding find_in_chain
find_in_chain-append symbols more name [] h = refl
find_in_chain-append symbols more name (id ∷ ids) (lt, h) =
    ap₂ step (get_elem?-append symbols more id lt) (find_in_chain-append symbols more name ids h)
  where
    step : Option Symbol → Option ℕ → Option ℕ
    step o rest = elim o [
      | none ↦ rest
      | some symbol ↦ if is_named name symbol then some id else rest
    ]

-- A longer chain finds what it found before.
pub find_in_chain-found :
    (symbols : List Symbol) (name ids more : List ℕ) (id : ℕ)
    → find_in_chain symbols name ids ≡ some id
    → find_in_chain symbols name (ids ++ more) ≡ some id
unfolding find_in_chain
find_in_chain-found symbols name [] more id h = ground arith
find_in_chain-found symbols name (i ∷ ids) more id h =
    go (get_elem? symbols i) h (find_in_chain-found symbols name ids more id)
  where
    step : Option Symbol → Option ℕ → Option ℕ
    step o rest = elim o [
      | none ↦ rest
      | some symbol ↦ if is_named name symbol then some i else rest
    ]

    go :
        (o : Option Symbol)
        → step o (find_in_chain symbols name ids) ≡ some id
        → (find_in_chain symbols name ids ≡ some id
            → find_in_chain symbols name (ids ++ more) ≡ some id)
        → step o (find_in_chain symbols name (ids ++ more)) ≡ some id
    go none h k = k h
    go (some symbol) h k = ground (arith, h, k)

-- A symbol of the name at the end of the chain is found where none was before it.
pub find_in_chain-end :
    (symbols : List Symbol) (name ids : List ℕ) (id : ℕ) (symbol : Symbol)
    → find_in_chain symbols name ids ≡ none
    → get_elem? symbols id ≡ some symbol
    → is_named name symbol ≡ true
    → find_in_chain symbols name (ids ++ id ∷ []) ≡ some id
unfolding find_in_chain
find_in_chain-end symbols name [] id symbol h e n = lone
  where
    lone : find_in_chain symbols name (id ∷ []) ≡ some id
    lone = ground (arith, e, n)
find_in_chain-end symbols name (i ∷ ids) id symbol h e n =
    go (get_elem? symbols i) h (λ k. find_in_chain-end symbols name ids id symbol k e n)
  where
    step : Option Symbol → Option ℕ → Option ℕ
    step o rest = elim o [
      | none ↦ rest
      | some symbol ↦ if is_named name symbol then some i else rest
    ]

    go :
        (o : Option Symbol)
        → step o (find_in_chain symbols name ids) ≡ none
        → (find_in_chain symbols name ids ≡ none
            → find_in_chain symbols name (ids ++ id ∷ []) ≡ some id)
        → step o (find_in_chain symbols name (ids ++ id ∷ [])) ≡ some id
    go none h k = k h
    go (some symbol) h k = ground (arith, h, k)

-- What is found has the name.
pub find_in_chain-name :
    (symbols : List Symbol) (name ids : List ℕ) (id : ℕ)
    → find_in_chain symbols name ids ≡ some id
    → (symbol : Symbol) × (get_elem? symbols id ≡ some symbol) × (symbol.name ≡ name)
unfolding find_in_chain
find_in_chain-name symbols name [] id h = absurd (ground arith)
find_in_chain-name symbols name (i ∷ ids) id h =
    go (get_elem? symbols i) refl h (find_in_chain-name symbols name ids id)
  where
    step : Option Symbol → Option ℕ → Option ℕ
    step o rest = elim o [
      | none ↦ rest
      | some symbol ↦ if is_named name symbol then some i else rest
    ]

    Found : Type 0
    Found = (symbol : Symbol) × (get_elem? symbols id ≡ some symbol) × (symbol.name ≡ name)

    here :
        (symbol : Symbol)
        → get_elem? symbols i ≡ some symbol
        → is_named name symbol ≡ true
        → i ≡ id
        → Found
    here symbol e n k = (
      symbol,
      ap (get_elem? symbols) (sym k) ∙ e,
      same_name-eq symbol.name name (unfold is_named in ground arith),
    )

    go :
        (o : Option Symbol)
        → get_elem? symbols i ≡ o
        → step o (find_in_chain symbols name ids) ≡ some id
        → (find_in_chain symbols name ids ≡ some id → Found)
        → Found
    go none e h k = k h
    go (some symbol) e h k = elim (Bool-cases (is_named name symbol)) [
      | inl n ↦ here symbol e n (ground (arith, n, h))
      | inr n ↦ k (ground (arith, n, h))
    ]
