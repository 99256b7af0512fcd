-- ===== src/As/Express/Combine.antt =====
-- as/express.c: what each operator makes of its two operands, and the checks on relocation.
use mc6801_tools.Base.{
  ℕ, ◌+◌, ◌-◌, ◌*◌, ◌/◌, ◌%◌, ◌^◌, Bool, not, ◌&&◌, ◌||◌, Option, none, some, ltb, leb, ◌==◌,
  if◌then◌else◌, bit_and, bit_or, bit_xor,
}
use mc6801_tools.Base.Bits.{has}
use mc6801_tools.As.Const.{relbit, forbit, impbit, undbit}
use mc6801_tools.As.Line.{Address}
use mc6801_tools.As.Asm.{
  Asm, Routine, ErrorCode, error, at_last_pass, word, set_data, set_offset, absreq, relbad,
}

-- RELBIT | SEGM, and its complement in a byte.
abbrev pub relseg : ℕ
relseg = 0x1f

abbrev pub not_relseg : ℕ
not_relseg = 0xe0

unfoldable pub expundefined : Asm → Asm
expundefined s = set_data (if s.last_pass == 1 then bit_or forbit undbit else undbit) s

unfoldable pub experror : ErrorCode → Asm → Asm
unfolding expundefined
experror e s = expundefined (error e s)

abbrev pub in_last_pass : ErrorCode → Asm → Asm
in_last_pass e s = if at_last_pass s then error e s else s

unfoldable pub chkabs : Asm → Asm
unfolding expundefined
chkabs s = if has s.lastexp.flags relbit then expundefined (in_last_pass absreq s) else s

unfoldable pub showrelbad : Asm → Asm
unfolding expundefined
showrelbad s = expundefined (in_last_pass relbad s)

-- Addition; `left` is the operand before it. Two relocatable operands are refused.
unfoldable pub add_right : Address → Asm → Asm
unfolding showrelbad
add_right left s =
    let t =
      if has (bit_and left.flags s.lastexp.flags) relbit
      then showrelbad s
      else set_data (bit_or s.lastexp.flags left.flags) s in
    set_offset ((t.lastexp.offset + left.offset) % word) t

-- Subtraction. A relocatable operand on the right wants one of the same segment on the left.
unfoldable pub sub_is_bad : ℕ → ℕ → Bool
sub_is_bad l r =
    has r relbit && (not (has l relbit) || has (bit_or l r) impbit || has (bit_xor l r) relseg)

unfoldable pub sub_right : Address → Asm → Asm
unfolding showrelbad sub_is_bad
sub_right left s =
    let l = left.flags in
    let r = s.lastexp.flags in
    let t =
      if sub_is_bad l r
      then showrelbad s
      else set_data (bit_or (bit_and (bit_or l r) not_relseg) (bit_and (bit_xor l r) relseg)) s in
    set_offset ((left.offset + (word - t.lastexp.offset % word)) % word) t

unfoldable pub or_right : Address → Asm → Asm
unfolding chkabs
or_right left s =
    let t = chkabs (set_data (bit_or s.lastexp.flags left.flags) s) in
    set_offset (bit_or t.lastexp.offset left.offset) t

unfoldable pub factor2_data : ℕ → Asm → Asm
unfolding chkabs
factor2_data leftdata s = chkabs (set_data (bit_or s.lastexp.flags leftdata) s)

-- The operators of a term. A divisor 0 and a shift by 64 or more have no result in C.
pub data Operator : Type 0 where
  times : Operator
  over : Operator
  both : Operator
  left_by : Operator
  right_by : Operator

unfoldable pub operator_value : Operator → ℕ → ℕ → Option ℕ
operator_value times l r = some ((r * l) % word)
operator_value over l r = if r == 0 then none else some (l / r)
operator_value both l r = some (bit_and r l)
operator_value left_by l r = if leb 64 r then none else some ((l * 2 ^ r) % word)
operator_value right_by l r = if leb 64 r then none else some (l / 2 ^ r)

unfoldable pub operate : Operator → ℕ → Routine
unfolding operator_value
operate op leftoffset s = elim (operator_value op leftoffset s.lastexp.offset) [
  | none ↦ none
  | some v ↦ some (set_offset v s)
]

-- The comparisons: both operands relocatable in one segment, or both absolute.
pub data Relation : Type 0 where
  equal : Relation
  less : Relation
  greater : Relation

unfoldable pub compare_data : ℕ → Asm → Asm
unfolding showrelbad
compare_data l s =
    let r = s.lastexp.flags in
    if has (bit_or l r) impbit || has (bit_xor l r) relseg
    then showrelbad s
    else set_data (bit_and (bit_and l r) not_relseg) s

unfoldable pub relation_holds : Relation → ℕ → ℕ → Bool
relation_holds equal l r = l == r
relation_holds less l r = ltb l r
relation_holds greater l r = ltb r l

unfoldable pub compare_result : Relation → ℕ → Asm → Asm
unfolding relation_holds
compare_result relation leftoffset s =
    set_offset (if relation_holds relation leftoffset s.lastexp.offset then word - 1 else 0) s

unfoldable pub complement : Asm → Asm
unfolding chkabs
complement s = let t = chkabs s in set_offset (word - 1 - t.lastexp.offset) t

unfoldable pub negate : Asm → Asm
unfolding chkabs
negate s = let t = chkabs s in set_offset ((word - t.lastexp.offset % word) % word) t
