-- ===== src/As/MachineOps/Simple.antt =====
-- as/mops.c: immediate and inherent operations and short branches, with `checkdatabounds` of
-- as/pops.c.
use mc6801_tools.Base.{
  ℕ, ◌+◌, ◌%◌, Bool, not, ◌&&◌, ◌||◌, Option, some, leb, ◌==◌, if◌then◌else◌, bit_and, bit_or,
  bit_xor,
}
use mc6801_tools.Base.Bits.{has}
use mc6801_tools.As.Const.{relbit, impbit, undbit, segm, obj_r_mask}
use mc6801_tools.As.Asm.{
  Asm, Routine, ◌>>◌, error, at_last_pass, word, set_data, set_offset, comma, immediate, illmod,
  abounds, dbounds, comexp,
}
use mc6801_tools.As.Scan.{getsym}
use mc6801_tools.As.Express.{symexpres, nonimpexpres}
use mc6801_tools.As.Express.Combine.{chkabs, showrelbad}
use mc6801_tools.As.MachineOps.{add_mcount, sub_word, is8bitsignedoffset, malter}

-- `checkdatabounds`: 8 bits, signed or unsigned.
unfoldable pub checkdatabounds : Asm → Asm
checkdatabounds s =
    if not (has s.lastexp.flags undbit) && leb 0x180 ((s.lastexp.offset + 0x80) % word)
    then error dbounds s
    else s

-- The operations with a long immediate operand.
unfoldable pub is_long : ℕ → Bool
is_long opcode =
    let nybble = bit_and opcode 0xf in
    leb 0x80 opcode && ((nybble == 0x3) || (nybble == 0xc) || leb 0xe nybble)

abbrev immediate_checks : Asm → Asm
immediate_checks s = if at_last_pass s && leb s.mcount 2 then checkdatabounds (chkabs s) else s

unfoldable pub mimmed : Routine
unfolding is_long checkdatabounds
mimmed s =
    let t = add_mcount 2 s in
    elim (t.sym) as (λ _. Option Asm) [
      | immediate ↦
          (symexpres >> (λ u. some (immediate_checks u)))
            (if is_long t.opcode then add_mcount 1 t else t)
      | _ ↦ some (error illmod t)
    ]

unfoldable pub mall : Routine
unfolding mimmed malter
mall s = elim (s.sym) as (λ _. Option Asm) [ immediate ↦ mimmed s | _ ↦ malter s ]

unfoldable pub getcomma : Routine
getcomma s = elim (s.sym) as (λ _. Option Asm) [ comma ↦ getsym s | _ ↦ some (error comexp s) ]

unfoldable pub minher : Asm → Asm
minher s = add_mcount 1 s

-- The flags of `lastexp` for an operand relative to the location counter.
unfoldable pub reldata : Asm → Asm
reldata s =
    let d = s.lastexp.flags in
    let differ = bit_xor d s.lcdata in
    if has differ (bit_or impbit (bit_or relbit segm))
    then (if has differ relbit
        then showrelbad s
        else set_data (bit_or (bit_or (bit_and s.lcdata 0xf0) d) relbit)
            (record s { pcrflag = obj_r_mask }))
    else set_data (bit_and (bit_or d s.lcdata) 0xe0) s

unfoldable pub mshort2 : Asm → Asm
unfolding reldata
mshort2 s =
    let t = add_mcount 2 s in
    if at_last_pass t
    then (let u = reldata t in
        if has u.lastexp.flags relbit
        then showrelbad u
        else if has u.lastexp.flags undbit
        then u
        else (let v = set_offset (sub_word (sub_word u.lastexp.offset u.lc) u.mcount) u in
            if is8bitsignedoffset v.lastexp.offset then v else error abounds v))
    else t

unfoldable pub mshort : Routine
unfolding mshort2
mshort = nonimpexpres >> (λ s. some (mshort2 s))
