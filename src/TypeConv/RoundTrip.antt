-- ===== src/TypeConv/RoundTrip.antt =====
-- Storing and reading back in the four byte orders that `typeconv_init` gives.
use mc6801_tools.Base.{
  ℕ, ◌/◌, ◌%◌, ◌^◌, ◌<◌, ◌≡◌, refl, Bool, true, false, some, List, ◌∷◌, drop, ap, arith, ◌⊎◌, inl,
  inr,
}
use mc6801_tools.TypeConv.{typeconv_init, char_of, c4u4, u4c4, c2u2, u2c2, u4cn, u2cn, cnu4}

pub c4u4-u4c4 :
    (big long : Bool) (a b c d v : ℕ) (rest : List ℕ)
    → v < 2 ^ 32
    → c4u4 (typeconv_init big long) (u4c4 (typeconv_init big long) (a ∷ b ∷ c ∷ d ∷ rest) v) ≡ v
unfolding typeconv_init c4u4 u4c4
c4u4-u4c4 true true a b c d v rest h = omega arith
c4u4-u4c4 true false a b c d v rest h = omega arith
c4u4-u4c4 false true a b c d v rest h = omega arith
c4u4-u4c4 false false a b c d v rest h = omega arith

pub c2u2-u2c2 :
    (big long : Bool) (a b v : ℕ) (rest : List ℕ)
    → v < 2 ^ 16
    → c2u2 (typeconv_init big long) (u2c2 (typeconv_init big long) (a ∷ b ∷ rest) v) ≡ v
unfolding typeconv_init c2u2 u2c2
c2u2-u2c2 true long a b v rest h = omega arith
c2u2-u2c2 false long a b v rest h = omega arith

-- The counts that the functions accept, less the 0 of the readers.
abbrev pub IsCount : ℕ → Type 0
IsCount n = (n ≡ 1) ⊎ (n ≡ 2) ⊎ (n ≡ 4)

-- What a store leaves: the bytes read back as the value, and nothing behind them is touched.
abbrev pub Stores : Bool → Bool → List ℕ → ℕ → ℕ → Type 0
Stores big long buf v count =
    (buf' : List ℕ) × (u4cn (typeconv_init big long) buf v count ≡ some buf')
    × (cnu4 (typeconv_init big long) buf' count ≡ some v)
    × (drop count buf' ≡ drop count buf)

drop-u4c4 :
    (big long : Bool) (a b c d v : ℕ) (rest : List ℕ)
    → drop 4 (u4c4 (typeconv_init big long) (a ∷ b ∷ c ∷ d ∷ rest) v) ≡ rest
unfolding typeconv_init u4c4
drop-u4c4 true true a b c d v rest = refl
drop-u4c4 true false a b c d v rest = refl
drop-u4c4 false true a b c d v rest = refl
drop-u4c4 false false a b c d v rest = refl

drop-u2c2 :
    (big long : Bool) (a b v : ℕ) (rest : List ℕ)
    → drop 2 (u2c2 (typeconv_init big long) (a ∷ b ∷ rest) v) ≡ rest
unfolding typeconv_init u2c2
drop-u2c2 true long a b v rest = refl
drop-u2c2 false long a b v rest = refl

module _ (big long : Bool) (a b c d : ℕ) (rest : List ℕ) (v : ℕ) where
  abbrev buf : List ℕ
  buf = a ∷ b ∷ c ∷ d ∷ rest

  Stores-1 : v < 256 ^ 1 → Stores big long buf v 1
  unfolding u4cn cnu4
  Stores-1 h = (char_of v ∷ b ∷ c ∷ d ∷ rest, refl, ap some (omega arith), refl)

  Stores-2 : v < 256 ^ 2 → Stores big long buf v 2
  unfolding u4cn cnu4
  Stores-2 h =
      let e : v % 2 ^ 32 ≡ v = omega arith in
      (
        u2c2 (typeconv_init big long) buf v,
        rw e refl,
        ap some (c2u2-u2c2 big long a b v (c ∷ d ∷ rest) (omega arith)),
        drop-u2c2 big long a b v (c ∷ d ∷ rest),
      )

  Stores-4 : v < 256 ^ 4 → Stores big long buf v 4
  unfolding u4cn cnu4
  Stores-4 h = (
    u4c4 (typeconv_init big long) buf v,
    refl,
    ap some (c4u4-u4c4 big long a b c d v rest (omega arith)),
    drop-u4c4 big long a b c d v rest,
  )

  -- For each byte order of `typeconv_init` and each count of 1, 2 or 4: in a buffer of four bytes
  -- or more, `u4cn` stores a value below 256 ^ count without its warning, `cnu4` reads that value
  -- back, and the bytes behind the first `count` are as before.
  pub cnu4-u4cn : (count : ℕ) → IsCount count → v < 256 ^ count → Stores big long buf v count
  cnu4-u4cn count (inl e) lt = rw e (Stores-1 (rw e at lt))
  cnu4-u4cn count (inr (inl e)) lt = rw e (Stores-2 (rw e at lt))
  cnu4-u4cn count (inr (inr e)) lt = rw e (Stores-4 (rw e at lt))

-- The order of both programs, `typeconv_init(1, 1)`: the highest byte comes first. `u2cn` is
-- `u4cn` on values of 32 bits.
pub u2cn-big_endian :
    (a b c d : ℕ) (rest : List ℕ) (v : ℕ)
    → v < 2 ^ 32
    → (u2cn (typeconv_init true true) (a ∷ b ∷ c ∷ d ∷ rest) v 2
        ≡ some (v / 256 % 256 ∷ v % 256 ∷ c ∷ d ∷ rest))
      × (u2cn (typeconv_init true true) (a ∷ b ∷ c ∷ d ∷ rest) v 4
          ≡ some (v / 2 ^ 24 % 256 ∷ v / 2 ^ 16 % 256 ∷ v / 256 % 256 ∷ v % 256 ∷ rest))
unfolding typeconv_init u2cn
u2cn-big_endian a b c d rest v h = (refl, ground arith)
