-- ===== src/Base/Bits.antt =====
-- `&`, `|` and `^` of C as arithmetic: one digit at a time, and at the masks that the sources use.
use Prim.Native.Nat.{
  ℕ, zero, suc, ◌+◌, ◌*◌, ◌/◌, ◌%◌, ◌^◌, ◌≤◌, ◌<◌, min, max, bit_and, bit_or, bit_xor, digits,
  bitwise, differ, bit_and-bitwise, bit_or-bitwise, bit_xor-bitwise,
}
use mathlib.Core.Path.{◌≡◌, refl}
use mathlib.Core.Bool.{Bool, true, not, ◌&&◌}
use native.Mathlib.Nat.{le_refl}
use native.Mathlib.Omega.{arith}
use mc6801_tools.Base.Tests.{◌==◌, ==→eq}

-- The fuel of the library's recursion on digits does not matter.
module _ (z : ℕ → ℕ) (f : ℕ → ℕ → ℕ) where
  digits-fuel : (x y i j : ℕ) → x ≤ i → x ≤ j → digits z f i x y ≡ digits z f j x y
  digits-fuel zero y zero zero hi hj = refl
  digits-fuel zero y zero (suc j) hi hj = refl
  digits-fuel zero y (suc i) zero hi hj = refl
  digits-fuel zero y (suc i) (suc j) hi hj =
      omega (arith, digits-fuel zero (y / 2) i j (omega arith) (omega arith))
  digits-fuel (suc x) y zero j hi hj = absurd (omega arith)
  digits-fuel (suc x) y (suc i) zero hi hj = absurd (omega arith)
  digits-fuel (suc x) y (suc i) (suc j) hi hj =
      omega (arith, digits-fuel (suc x / 2) (y / 2) i j (omega arith) (omega arith))

  bitwise-digit :
      (m n : ℕ)
      → bitwise z f (suc m) n ≡ f (suc m % 2) (n % 2) + bitwise z f (suc m / 2) (n / 2) * 2
  bitwise-digit m n =
      omega (arith, digits-fuel (suc m / 2) (n / 2) m (suc m / 2) (omega arith) (le_refl _))

differ-digit : (x y : ℕ) → x < 2 → y < 2 → differ x y ≡ (x + y) % 2
differ-digit zero y p q = omega arith
differ-digit (suc zero) zero p q = refl
differ-digit (suc zero) (suc zero) p q = refl
differ-digit (suc zero) (suc (suc y)) p q = absurd (omega arith)
differ-digit (suc (suc x)) y p q = absurd (omega arith)

pub bit_and-digit : (a b : ℕ) → bit_and a b ≡ bit_and (a / 2) (b / 2) * 2 + min (a % 2) (b % 2)
bit_and-digit zero b = simp bit_and-bitwise (omega arith)
bit_and-digit (suc a) b = simp bit_and-bitwise (omega (arith, bitwise-digit (λ y. 0) min a b))

pub bit_or-digit : (a b : ℕ) → bit_or a b ≡ bit_or (a / 2) (b / 2) * 2 + max (a % 2) (b % 2)
bit_or-digit zero b = simp bit_or-bitwise (omega arith)
bit_or-digit (suc a) b = simp bit_or-bitwise (omega (arith, bitwise-digit (λ y. y) max a b))

pub bit_xor-digit : (a b : ℕ) → bit_xor a b ≡ bit_xor (a / 2) (b / 2) * 2 + (a + b) % 2
bit_xor-digit zero b = simp bit_xor-bitwise (omega arith)
bit_xor-digit (suc a) b = simp bit_xor-bitwise (
    omega (
      arith,
      bitwise-digit (λ y. y) differ a b,
      differ-digit (suc a % 2) (b % 2) (omega arith) (omega arith),
    ))

-- The digit above and the lowest digit, as rewriting from a number to its digits.
pub bit_or-half : (a b : ℕ) → bit_or a b / 2 ≡ bit_or (a / 2) (b / 2)
bit_or-half a b = omega (arith, bit_or-digit a b)

pub bit_xor-half : (a b : ℕ) → bit_xor a b / 2 ≡ bit_xor (a / 2) (b / 2)
bit_xor-half a b = omega (arith, bit_xor-digit a b)

pub bit_and-half : (a b : ℕ) → bit_and a b / 2 ≡ bit_and (a / 2) (b / 2)
bit_and-half a b = omega (arith, bit_and-digit a b)

-- The bounds of a result of `k` digits.
pub bit_or-lt : (k a b : ℕ) → a < 2 ^ k → b < 2 ^ k → bit_or a b < 2 ^ k
bit_or-lt zero zero zero p q = omega arith
bit_or-lt zero zero (suc b) p q = absurd (omega arith)
bit_or-lt zero (suc a) b p q = absurd (omega arith)
bit_or-lt (suc k) a b p q =
    omega (arith, bit_or-digit a b, bit_or-lt k (a / 2) (b / 2) (omega arith) (omega arith))

pub bit_xor-lt : (k a b : ℕ) → a < 2 ^ k → b < 2 ^ k → bit_xor a b < 2 ^ k
bit_xor-lt zero zero zero p q = omega arith
bit_xor-lt zero zero (suc b) p q = absurd (omega arith)
bit_xor-lt zero (suc a) b p q = absurd (omega arith)
bit_xor-lt (suc k) a b p q =
    omega (arith, bit_xor-digit a b, bit_xor-lt k (a / 2) (b / 2) (omega arith) (omega arith))

bit_and-le_fuel : (k a b : ℕ) → a ≤ k → bit_and a b ≤ a
bit_and-le_fuel k zero b p = simp bit_and-bitwise (omega arith)
bit_and-le_fuel zero (suc a) b p = absurd (omega arith)
bit_and-le_fuel (suc k) (suc a) b p =
    omega (arith, bit_and-digit (suc a) b, bit_and-le_fuel k (suc a / 2) (b / 2) (omega arith))

pub bit_and-le : (a b : ℕ) → bit_and a b ≤ a
bit_and-le a b = bit_and-le_fuel a a b (le_refl a)

pub bit_and-zero : (a : ℕ) → bit_and a 0 ≡ 0
bit_and-zero a = omega (arith, go a a (le_refl a))
  where
    go : (k a : ℕ) → a ≤ k → bit_and a 0 ≡ 0
    go k zero p = simp bit_and-bitwise
    go zero (suc a) p = absurd (omega arith)
    go (suc k) (suc a) p = omega (arith, bit_and-digit (suc a) 0, go k (suc a / 2) (omega arith))

pub bit_or-zero : (a : ℕ) → bit_or a 0 ≡ a
bit_or-zero a = go a a (le_refl a)
  where
    go : (k a : ℕ) → a ≤ k → bit_or a 0 ≡ a
    go k zero p = simp bit_or-bitwise
    go zero (suc a) p = absurd (omega arith)
    go (suc k) (suc a) p = omega (arith, bit_or-digit (suc a) 0, go k (suc a / 2) (omega arith))

-- A mask of one digit.
pub and_1 : (a : ℕ) → bit_and a 1 ≡ a % 2
and_1 a = omega (arith, bit_and-digit a 1, bit_and-zero (a / 2))

pub and_2 : (a : ℕ) → bit_and a 2 ≡ a / 2 % 2 * 2
and_2 a = omega (arith, bit_and-digit a 2, and_1 (a / 2))

pub and_4 : (a : ℕ) → bit_and a 4 ≡ a / 4 % 2 * 4
and_4 a = omega (arith, bit_and-digit a 4, and_2 (a / 2))

pub and_8 : (a : ℕ) → bit_and a 8 ≡ a / 8 % 2 * 8
and_8 a = omega (arith, bit_and-digit a 8, and_4 (a / 2))

pub and_16 : (a : ℕ) → bit_and a 16 ≡ a / 16 % 2 * 16
and_16 a = omega (arith, bit_and-digit a 16, and_8 (a / 2))

pub and_32 : (a : ℕ) → bit_and a 32 ≡ a / 32 % 2 * 32
and_32 a = omega (arith, bit_and-digit a 32, and_16 (a / 2))

pub and_64 : (a : ℕ) → bit_and a 64 ≡ a / 64 % 2 * 64
and_64 a = omega (arith, bit_and-digit a 64, and_32 (a / 2))

pub and_128 : (a : ℕ) → bit_and a 128 ≡ a / 128 % 2 * 128
and_128 a = omega (arith, bit_and-digit a 128, and_64 (a / 2))

-- Masks of low digits, and of the digits above them in a byte.
pub and_3 : (a : ℕ) → bit_and a 3 ≡ a % 4
and_3 a = omega (arith, bit_and-digit a 3, and_1 (a / 2))

pub and_7 : (a : ℕ) → bit_and a 7 ≡ a % 8
and_7 a = omega (arith, bit_and-digit a 7, and_3 (a / 2))

pub and_0f : (a : ℕ) → bit_and a 0x0f ≡ a % 16
and_0f a = omega (arith, bit_and-digit a 15, and_7 (a / 2))

pub and_1f : (a : ℕ) → bit_and a 0x1f ≡ a % 32
and_1f a = omega (arith, bit_and-digit a 31, and_0f (a / 2))

pub and_3f : (a : ℕ) → bit_and a 0x3f ≡ a % 64
and_3f a = omega (arith, bit_and-digit a 63, and_1f (a / 2))

and_6 : (a : ℕ) → bit_and a 6 ≡ a / 2 % 4 * 2
and_6 a = omega (arith, bit_and-digit a 6, and_3 (a / 2))

and_12 : (a : ℕ) → bit_and a 12 ≡ a / 4 % 4 * 4
and_12 a = omega (arith, bit_and-digit a 12, and_6 (a / 2))

and_24 : (a : ℕ) → bit_and a 24 ≡ a / 8 % 4 * 8
and_24 a = omega (arith, bit_and-digit a 24, and_12 (a / 2))

and_48 : (a : ℕ) → bit_and a 48 ≡ a / 16 % 4 * 16
and_48 a = omega (arith, bit_and-digit a 48, and_24 (a / 2))

and_96 : (a : ℕ) → bit_and a 96 ≡ a / 32 % 4 * 32
and_96 a = omega (arith, bit_and-digit a 96, and_48 (a / 2))

pub and_c0 : (a : ℕ) → bit_and a 192 ≡ a / 64 % 4 * 64
and_c0 a = omega (arith, bit_and-digit a 192, and_96 (a / 2))

-- The flag test of C, `x & m`, and the same as a digit.
abbrev pub has : ℕ → ℕ → Bool
has x m = not (bit_and x m == 0)

-- A property of the numbers below a bound, by evaluation.
unfoldable pub checked : ℕ → (ℕ → Bool) → Bool
checked zero test = true
checked (suc i) test = test i && checked i test

pub checked_at :
    (bound : ℕ) (test : ℕ → Bool) (i : ℕ) → checked bound test ≡ true → i < bound → test i ≡ true
unfolding checked
checked_at zero test i all lt = absurd (omega arith)
checked_at (suc bound) test i all lt = ground (arith, checked_at bound test i)

-- `n | 0x40` for the count of a chunk of absolute code.
or_40-table : checked 65 (λ n. bit_or n 0x40 == 64 + n % 64) ≡ true
unfolding checked
or_40-table = refl

pub or_40 : (n : ℕ) → n < 65 → bit_or n 0x40 ≡ 64 + n % 64
or_40 n h = ==→eq _ _ (checked_at 65 _ n or_40-table h)

-- `seg | 0x20`, and the flags of an offset relocation.
or_20-table : checked 16 (λ n. bit_or n 0x20 == n + 0x20) ≡ true
unfolding checked
or_20-table = refl

pub or_20 : (n : ℕ) → n < 16 → bit_or n 0x20 ≡ n + 0x20
or_20 n h = ==→eq _ _ (checked_at 16 _ n or_20-table h)

or_80-table :
    checked 16 (λ n.
      (bit_or (bit_or n 0x80) 0 == 0x80 + n) && (bit_or (bit_or n 0x80) 0x20 == 0x80 + n + 0x20))
    ≡ true
unfolding checked
or_80-table = refl

pub or_80 :
    (n : ℕ)
    → n < 16
    → (bit_or (bit_or n 0x80) 0 ≡ 0x80 + n) × (bit_or (bit_or n 0x80) 0x20 ≡ 0x80 + n + 0x20)
or_80 n h = ground (
  arith,
  checked_at 16 _ n or_80-table h,
  ==→eq (bit_or (bit_or n 0x80) 0) (0x80 + n),
  ==→eq (bit_or (bit_or n 0x80) 0x20) (0x80 + n + 0x20),
)
