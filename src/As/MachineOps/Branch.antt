-- ===== src/As/MachineOps/Branch.antt =====
-- Short branches: the displacement that `mshort2` leaves reaches the target, or none would.
use mc6801_tools.Base.{
  ℕ, ◌+◌, ◌-◌, ◌%◌, ◌<◌, ◌≡◌, ◌≢◌, ◌⊎◌, inl, inr, refl, ◌∙◌, Bool, true, false, not, ◌||◌, [], ◌∷◌,
  ◌++◌, ltb, if◌then◌else◌, bit_and, bit_or, bit_xor, arith, Bool-cases, ◌&&◌,
}
use mc6801_tools.Base.Bits.{has, checked, checked_at}
use mc6801_tools.As.Const.{relbit, impbit, undbit, segm}
use mc6801_tools.As.Asm.{Asm, word, at_last_pass, abounds}
use mc6801_tools.As.MachineOps.{sub_word, is8bitsignedoffset}
use mc6801_tools.As.MachineOps.Simple.{mshort2, reldata}

-- A byte as a displacement.
abbrev pub sign_extend : ℕ → ℕ
sign_extend b = if ltb b 0x80 then b else b + (word - 0x100)

abbrev elsewhere : ℕ
elsewhere = bit_or impbit (bit_or relbit segm)

abbrev flags_fit : ℕ → ℕ → Bool
flags_fit d l =
    not (not (has (bit_xor d l) elsewhere) && not (has (bit_or d l) undbit))
    || (not (has (bit_and (bit_or d l) 0xe0) relbit)
        && not (has (bit_and (bit_or d l) 0xe0) undbit))

flags_table : checked 256 (λ d. checked 256 (λ l. flags_fit d l)) ≡ true
unfolding checked
flags_table = refl

same_place :
    (d l : ℕ)
    → d < 256
    → l < 256
    → has (bit_xor d l) elsewhere ≡ false
    → has (bit_or d l) undbit ≡ false
    → (has (bit_and (bit_or d l) 0xe0) relbit ≡ false)
      × (has (bit_and (bit_or d l) 0xe0) undbit ≡ false)
same_place d l hd hl e u =
    ground (arith, checked_at 256 (flags_fit d) l (checked_at 256 _ d flags_table hd) hl)

-- A displacement that fits is its lowest byte, extended.
fits-reaches :
    (target from : ℕ)
    → is8bitsignedoffset (sub_word target from) ≡ true
    → (from + sign_extend (sub_word target from % 256)) % word ≡ target % word
fits-reaches target from h = ground arith

misfits-misses :
    (target from b : ℕ)
    → is8bitsignedoffset (sub_word target from) ≡ false
    → b < 256
    → (from + sign_extend b) % word ≢ target % word
misfits-misses target from b h hb e = ground arith

sub_word-sub_word : (a b c : ℕ) → sub_word (sub_word a b) c ≡ sub_word a (b + c)
sub_word-sub_word a b c = omega arith

abbrev pub after_operand : Asm → ℕ
after_operand s = s.lc + (s.mcount + 2) % word

-- The displacement and its check, for a target at the place of the location counter.
mshort2-same_place :
    (s : Asm)
    → at_last_pass s ≡ true
    → s.lastexp.flags < 256
    → s.lcdata < 256
    → has (bit_xor s.lastexp.flags s.lcdata) elsewhere ≡ false
    → has (bit_or s.lastexp.flags s.lcdata) undbit ≡ false
    → ((mshort2 s).lastexp.offset ≡ sub_word s.lastexp.offset (after_operand s))
      × ((mshort2 s).errors ≡ (
          if is8bitsignedoffset (sub_word s.lastexp.offset (after_operand s))
          then s.errors
          else s.errors ++ abounds ∷ []))
unfolding mshort2 reldata
mshort2-same_place s p hd hl e u =
    let (r, u') = same_place s.lastexp.flags s.lcdata hd hl e u in
    let d = sub_word-sub_word s.lastexp.offset s.lc ((s.mcount + 2) % word) in
    elim (Bool-cases (is8bitsignedoffset (sub_word s.lastexp.offset (after_operand s)))) [
      | inl b ↦ rw (p, e, r, u', d, b) (refl, refl)
      | inr b ↦ rw (p, e, r, u', d, b) (refl, refl)
    ]

-- In the last pass, for a target and a location counter that agree in relocation, import and segment,
-- neither undefined, with flags that are bytes: either `mshort2` gives no error and the byte that it
-- leaves, extended by its sign and added to the address behind the instruction, is the target, modulo
-- 2 ^ 64; or it gives the one error `abounds`, and no byte would reach the target.
pub mshort2-reaches :
    (s : Asm)
    → at_last_pass s ≡ true
    → s.lastexp.flags < 256
    → s.lcdata < 256
    → has (bit_xor s.lastexp.flags s.lcdata) elsewhere ≡ false
    → has (bit_or s.lastexp.flags s.lcdata) undbit ≡ false
    → (((mshort2 s).errors ≡ s.errors)
        × ((after_operand s + sign_extend ((mshort2 s).lastexp.offset % 256)) % word
            ≡ s.lastexp.offset % word))
      ⊎ (((mshort2 s).errors ≡ s.errors ++ abounds ∷ [])
          × ((b : ℕ)
              → b < 256
              → (after_operand s + sign_extend b) % word ≢ s.lastexp.offset % word))
mshort2-reaches s p hd hl e u =
    let (o, x) = mshort2-same_place s p hd hl e u in
    elim (Bool-cases (is8bitsignedoffset (sub_word s.lastexp.offset (after_operand s)))) [
      | inl b ↦ inl (x ∙ rw b refl, rw o (fits-reaches s.lastexp.offset (after_operand s) b))
      | inr b ↦
          inr (x ∙ rw b refl, λ k hk. misfits-misses s.lastexp.offset (after_operand s) k b hk)
    ]
