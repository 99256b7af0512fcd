-- ===== src/As/GenBin.antt =====
-- as/genbin.c: the raw binary file. Pass 1 records the limits of the image, the last pass writes it.
pub mod Image
use mc6801_tools.Base.{
  ℕ, zero, suc, ◌+◌, ◌-◌, ◌/◌, ◌%◌, ◌^◌, Bool, true, false, not, ◌&&◌, Option, none, some, List, [],
  ◌∷◌, ◌++◌, length, get_or, take, drop, replicate, ltb, leb, ◌==◌, if◌then◌else◌,
}
use mc6801_tools.TypeConv.{u2cn, char_of}
use mc6801_tools.As.Const.{byte_order}
use mc6801_tools.As.Line.{Address, Line}
use mc6801_tools.As.Asm.{word}
use mc6801_tools.As.GenObj.Lines.{rounds}

-- `file` and `pos` are the contents and the place of the file `binfil`, and `bwraps` counts the
-- messages BWRAP.
pub record Bin : Type 0 where
  pub binfil : Bool
  pub binaryc : Bool
  pub binaryg : Bool
  pub binmbuf : ℕ
  pub binmbuf_set : Bool
  pub binfbuf : ℕ
  pub binmin : ℕ
  pub binmax : ℕ
  pub file : List ℕ
  pub pos : ℕ
  pub bwraps : ℕ

-- A write of a byte, which fills a gap in front of it with zeros, as files do.
unfoldable pub write_at : ℕ → ℕ → List ℕ → List ℕ
write_at zero b [] = b ∷ []
write_at zero b (c ∷ cs) = b ∷ cs
write_at (suc i) b [] = 0 ∷ write_at i b []
write_at (suc i) b (c ∷ cs) = c ∷ write_at i b cs

unfoldable pub initbin : Bin → Bin
initbin s = record s { binmin = word - 1 }

-- The image starts at the lowest address.
unfoldable pub binheader : Bin → Bin
binheader s = if s.binmbuf_set && leb s.binmin s.binmax then record s { binfbuf = s.binmin } else s

abbrev pub record_limits : Bin → Bin
record_limits s =
    let t = if ltb s.binmbuf s.binmin then record s { binmin = s.binmbuf } else s in
    let u = record t { binmbuf = (t.binmbuf + 1) % word } in
    if ltb u.binmax u.binmbuf then record u { binmax = u.binmbuf } else u

-- `lseek` by a difference: a place in front of the file is refused, and the place stays.
abbrev pub seek : Bin → Bin
seek s =
    if s.binfbuf == s.binmbuf
    then s
    else let place = (s.pos + (s.binmbuf + (word - s.binfbuf))) % word in
      if leb (2 ^ 63) place then record s { bwraps = suc s.bwraps } else record s { pos = place }

abbrev pub write_byte : ℕ → Bin → Bin
write_byte ch s =
    let next = (s.binmbuf + 1) % word in
    record s {
      file = write_at s.pos (char_of ch) s.file;
      pos = suc s.pos;
      binfbuf = next;
      binmbuf = next;
    }

unfoldable pub putbin : ℕ → Bin → Bin
unfolding write_at
putbin ch s =
    if not s.binfil then s else if not s.binaryc then record_limits s else write_byte ch (seek s)

unfoldable pub putbins : List ℕ → Bin → Bin
unfolding putbin
putbins [] s = s
putbins (b ∷ bs) s = putbins bs (putbin b s)

-- The first bytes of what `u2cn` makes of the offset.
unfoldable pub putbinoffset : ℕ → ℕ → Bin → Option Bin
unfolding putbins
putbinoffset offset size s = elim (u2cn byte_order (replicate 8 0) (offset % 2 ^ 32) size) [
  | none ↦ none
  | some buf ↦ some (putbins (take (if ltb 2 size then 4 else if ltb 1 size then 2 else 1) buf) s)
]

-- The loops over `databuf`. To read behind what the line stored is `none`.
unfoldable pub bin_fcbuf : ℕ → List ℕ → Bin → Option Bin
unfolding putbin
bin_fcbuf zero bs s = some s
bin_fcbuf (suc n) [] s = none
bin_fcbuf (suc n) (b ∷ bs) s = bin_fcbuf n bs (putbin b s)

unfoldable pub bin_fdbuf : ℕ → List Address → Bin → Option Bin
unfolding putbinoffset
bin_fdbuf zero adrs s = some s
bin_fdbuf (suc n) [] s = none
bin_fdbuf (suc n) (a ∷ adrs) s = elim (putbinoffset a.offset 2 s) [
  | none ↦ none
  | some t ↦ bin_fdbuf n adrs t
]

-- Page and opcode, postbyte, then the operand.
unfoldable pub bin_instruction : Line → Bin → Option Bin
unfolding putbin putbinoffset
bin_instruction l s =
    let page = not (l.page == 0) in
    let start = (l.mcount - 1) % 256 in
    let after_page = if page then (start + 255) % 256 else start in
    let postb = not (after_page == 0) && not (l.postb == 0) in
    let remaining = after_page - (if postb then 1 else 0) in
    let t = putbin l.opcode (if page then putbin l.page s else s) in
    let u = if postb then putbin l.postb t else t in
    if remaining == 0 then some u else putbinoffset l.lastexp.offset remaining u

unfoldable pub bin_data : Line → Bin → Option Bin
unfolding rounds bin_fcbuf bin_fdbuf
bin_data l s = elim (if l.fcflag then bin_fcbuf (rounds l.mcount) l.fcbuf s else some s) [
  | none ↦ none
  | some t ↦ if l.fdflag then bin_fdbuf (rounds l.mcount / 2) l.fdbuf t else some t
]

unfoldable pub genbin : Line → Bin → Option Bin
unfolding bin_data bin_instruction
genbin l s =
    if s.binaryg && not (l.mcount == 0)
    then (if l.popflags == 0 then bin_instruction l s else bin_data l s)
    else some s
