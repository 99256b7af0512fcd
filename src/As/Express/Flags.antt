-- ===== src/As/Express/Flags.antt =====
-- The flags of sums and differences, over all pairs of bytes.
use mc6801_tools.Base.{
  ℕ, ◌+◌, ◌≡◌, refl, Bool, true, false, not, ◌&&◌, ◌||◌, ◌==◌, bit_and, bit_or, bit_xor, ◌<◌, arith,
}
use mc6801_tools.Base.Bits.{has, checked, checked_at}
use mc6801_tools.As.Const.{relbit, impbit}
use mc6801_tools.As.Express.Combine.{relseg, not_relseg, sub_is_bad}

-- The segment or the imported symbol that a relocatable value counts from.
abbrev pub place_mask : ℕ
place_mask = 0x4f

-- A value that is not relocatable counts from nowhere.
abbrev pub is_placed : ℕ → Bool
is_placed d = has d relbit || (bit_and d place_mask == 0)

-- `d` is at the place of one of the two operands, if any.
unfoldable add_fits : ℕ → ℕ → Bool
add_fits l r =
    not (is_placed l && is_placed r && not (has (bit_and l r) relbit))
    || (is_placed (bit_or r l)
        && (bit_and (bit_or r l) relbit == bit_and l relbit + bit_and r relbit)
        && (bit_and (bit_or r l) place_mask == bit_and l place_mask + bit_and r place_mask))

add_table : checked 256 (λ l. checked 256 (λ r. add_fits l r)) ≡ true
unfolding checked add_fits
add_table = refl

pub add_flags :
    (l r : ℕ)
    → l < 256
    → r < 256
    → is_placed l ≡ true
    → is_placed r ≡ true
    → has (bit_and l r) relbit ≡ false
    → (is_placed (bit_or r l) ≡ true)
      × (bit_and (bit_or r l) relbit ≡ bit_and l relbit + bit_and r relbit)
      × (bit_and (bit_or r l) place_mask ≡ bit_and l place_mask + bit_and r place_mask)
unfolding add_fits
add_flags l r hl hr pl pr n =
    ground (arith, checked_at 256 (add_fits l) r (checked_at 256 _ l add_table hl) hr)

-- The place says whether it is imported.
imported_table : checked 256 (λ d. not (has (bit_and d place_mask) impbit) || has d impbit) ≡ true
unfolding checked
imported_table = refl

pub is_imported : (d : ℕ) → d < 256 → has (bit_and d place_mask) impbit ≡ true → has d impbit ≡ true
is_imported d h k = ground (arith, k, checked_at 256 _ d imported_table h)

-- The flags of a difference.
abbrev pub sub_flags : ℕ → ℕ → ℕ
sub_flags l r = bit_or (bit_and (bit_or l r) not_relseg) (bit_and (bit_xor l r) relseg)

unfoldable sub_fits : ℕ → ℕ → Bool
unfolding sub_is_bad
sub_fits l r =
    let d = sub_flags l r in
    not (is_placed l && is_placed r && not (sub_is_bad l r))
    || (is_placed d
        && (bit_and d relbit + bit_and r relbit == bit_and l relbit)
        && (bit_and d place_mask + bit_and r place_mask == bit_and l place_mask))

sub_table : checked 256 (λ l. checked 256 (λ r. sub_fits l r)) ≡ true
unfolding checked sub_fits
sub_table = refl

pub sub_flags_lem :
    (l r : ℕ)
    → l < 256
    → r < 256
    → is_placed l ≡ true
    → is_placed r ≡ true
    → sub_is_bad l r ≡ false
    → (is_placed (sub_flags l r) ≡ true)
      × (bit_and (sub_flags l r) relbit + bit_and r relbit ≡ bit_and l relbit)
      × (bit_and (sub_flags l r) place_mask + bit_and r place_mask ≡ bit_and l place_mask)
unfolding sub_fits
sub_flags_lem l r hl hr pl pr n =
    ground (arith, checked_at 256 (sub_fits l) r (checked_at 256 _ l sub_table hl) hr)

-- Operands are refused where one is imported, or where they are not both in one segment or both absolute.
abbrev pub cannot_compare : ℕ → ℕ → Bool
cannot_compare l r = has (bit_or l r) impbit || has (bit_xor l r) relseg

unfoldable compare_fits : ℕ → ℕ → Bool
compare_fits l r =
    cannot_compare l r
    || ((bit_and l relbit == bit_and r relbit)
        && (bit_and l place_mask == bit_and r place_mask)
        && not (has (bit_and (bit_and l r) not_relseg) relbit)
        && not (has (bit_and l place_mask) impbit))

compare_table : checked 256 (λ l. checked 256 (λ r. compare_fits l r)) ≡ true
unfolding checked compare_fits
compare_table = refl

pub compare_flags :
    (l r : ℕ)
    → l < 256
    → r < 256
    → cannot_compare l r ≡ false
    → (bit_and l relbit ≡ bit_and r relbit)
      × (bit_and l place_mask ≡ bit_and r place_mask)
      × (has (bit_and (bit_and l r) not_relseg) relbit ≡ false)
      × (has (bit_and l place_mask) impbit ≡ false)
unfolding compare_fits
compare_flags l r hl hr n =
    ground (arith, checked_at 256 (compare_fits l) r (checked_at 256 _ l compare_table hl) hr)
