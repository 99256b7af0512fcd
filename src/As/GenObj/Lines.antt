-- ===== src/As/GenObj/Lines.antt =====
-- as/genobj.c: `genobjadr` and `genobj`, the object code of an address and of a line.
use mc6801_tools.Base.{
  ℕ, zero, suc, ◌+◌, ◌-◌, ◌/◌, ◌%◌, ◌^◌, Bool, not, ◌&&◌, none, some, List, [], ◌∷◌, get_or,
  replicate, ltb, leb, ◌==◌, if◌then◌else◌, bit_and, bit_or,
}
use mc6801_tools.Base.Bits.{has}
use mc6801_tools.TypeConv.{u2cn}
use mc6801_tools.As.Const.{
  segm, relbit, impbit, obj_offset_rel, obj_symbol_rel, obj_s_mask, byte_order,
}
use mc6801_tools.As.Line.{Address, Line}
use mc6801_tools.As.GenObj.{Step, ◌>>◌, skip, putobj1, putobjoffset, putobjword, putabs, putobj}

-- The search through `arrext`: the place of the symbol, or the length of the array.
unfoldable pub symbol_number : ℕ → List ℕ → ℕ
symbol_number sym [] = 0
symbol_number sym (x ∷ xs) = if x == sym then 0 else suc (symbol_number sym xs)

-- The size code for the offset of a symbol relocation: how many bytes it takes.
unfoldable pub offset_size : ℕ → ℕ
offset_size offset = if leb 0x100 offset then 2 else if offset == 0 then 0 else 1

-- The unsigned char `remaining` of the loops, which counts down to 0 after the body: 256 rounds
-- where it starts at 0.
unfoldable pub rounds : ℕ → ℕ
rounds count = if count % 256 == 0 then 256 else count % 256

module _ (accepts : List ℕ → List ℕ → Bool) where
  -- The absolute address. `u2cn` fills nothing for a size other than 1, 2 and 4.
  unfoldable pub put_absolute : ℕ → ℕ → Step
  put_absolute offset size s = elim (u2cn byte_order (replicate 8 0) (offset % 2 ^ 32) size) [
    | none ↦ none
    | some buf ↦
        (putabs accepts (get_or buf 0 0)
            >> (if ltb 1 size then putabs accepts (get_or buf 1 0) else skip)
            >> (if ltb 2 size
                then putabs accepts (get_or buf 2 0) >> putabs accepts (get_or buf 3 0)
                else skip))
          s
  ]

  -- Set the relocation size if it is another than before.
  unfoldable pub set_relsize : ℕ → Step
  set_relsize size s =
      if size == s.relsize
      then some s
      else putobj accepts (if size == 4 then 3 else size) (record s { relsize = size })

  -- Symbol relocation: an imported symbol and an offset.
  unfoldable pub put_symbol : ℕ → Address → Step
  unfolding symbol_number offset_size
  put_symbol pcrflag adr s =
      let symnum = symbol_number adr.sym s.arrext in
      let size = offset_size adr.offset in
      let byte = if leb 0x100 symnum then bit_or obj_symbol_rel obj_s_mask else obj_symbol_rel in
      (putobj accepts (bit_or (bit_or byte size) pcrflag)
          >> (if leb 0x100 symnum then putobjword accepts symnum else putobj1 accepts symnum)
          >> (if adr.offset == 0 then skip else putobjoffset accepts adr.offset size))
        s

  unfoldable pub genobjadr : ℕ → Address → ℕ → Step
  unfolding put_absolute set_relsize put_symbol
  genobjadr pcrflag adr size =
      if has adr.flags relbit
      then set_relsize size
        >> (if has adr.flags impbit
            then put_symbol pcrflag adr
            else putobj accepts (bit_or (bit_or (bit_and adr.flags segm) obj_offset_rel) pcrflag)
              >> putobjoffset accepts adr.offset size)
      else put_absolute adr.offset size

  -- The loops over `databuf`. To read behind what the line stored is `none`.
  unfoldable pub put_fcbuf : ℕ → List ℕ → Step
  put_fcbuf zero bs = skip
  put_fcbuf (suc n) [] = λ s. none
  put_fcbuf (suc n) (b ∷ bs) = putabs accepts b >> put_fcbuf n bs

  unfoldable pub put_fdbuf : ℕ → ℕ → List Address → Step
  put_fdbuf pcrflag zero adrs = skip
  put_fdbuf pcrflag (suc n) [] = λ s. none
  put_fdbuf pcrflag (suc n) (a ∷ adrs) = genobjadr pcrflag a 2 >> put_fdbuf pcrflag n adrs

  -- The code of a machine instruction: page and opcode, postbyte, then the operand.
  unfoldable pub put_instruction : Line → Step
  put_instruction l =
      let page = not (l.page == 0) in
      let start = (l.mcount - 1) % 256 in
      let after_page = if page then (start + 255) % 256 else start in
      let postb = not (after_page == 0) && not (l.postb == 0) in
      let remaining = after_page - (if postb then 1 else 0) in
      (if page then putabs accepts l.page else skip)
      >> putabs accepts l.opcode
      >> (if postb then putabs accepts l.postb else skip)
      >> (if remaining == 0 then skip else genobjadr l.pcrflag l.lastexp remaining)

  -- `mcount` is even where `fdflag` is set, so the second loop takes half as many rounds.
  unfoldable pub genobj : Line → Step
  unfolding rounds put_fcbuf put_fdbuf put_instruction genobjadr
  genobj l s =
      if s.objectc && not (l.mcount == 0)
      then (if l.popflags == 0
            then put_instruction l
            else (if l.fcflag then put_fcbuf (rounds l.mcount) l.fcbuf else skip)
              >> (if l.fdflag then put_fdbuf l.pcrflag (rounds l.mcount / 2) l.fdbuf else skip))
          s
      else some s
