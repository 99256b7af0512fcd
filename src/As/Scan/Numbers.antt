-- ===== src/As/Scan/Numbers.antt =====
-- The value of a number that `intconst` reads, in the four bases of the scanner.
use mc6801_tools.Base.{ℕ, ◌+◌, ◌-◌, ◌*◌, ◌≡◌, List, [], ◌∷◌, ltb, ◌⊎◌, if◌then◌else◌}

abbrev pub IsBase : ℕ → Type 0
IsBase base = (base ≡ 2) ⊎ ((base ≡ 8) ⊎ ((base ≡ 10) ⊎ (base ≡ 16)))

-- A digit, in upper or in lower case, and its character.
pub data Digit : Type 0 where
  upper : ℕ → Digit
  lower : ℕ → Digit

abbrev pub amount : Digit → ℕ
amount (upper d) = d
amount (lower d) = d

abbrev pub digit_char : Digit → ℕ
digit_char (upper d) = if ltb d 10 then 0x30 + d else 0x41 + (d - 10)
digit_char (lower d) = if ltb d 10 then 0x30 + d else 0x61 + (d - 10)

-- The number that digits stand for, behind the number `n`.
abbrev pub value : ℕ → ℕ → List Digit → ℕ
value base n [] = n
value base n (d ∷ ds) = value base (base * n + amount d) ds
