-- ===== src/As/Pseudo/Blocks.antt =====
-- as/pops.c: location counters (LOC, .TEXT, .DATA, .BSS, .SECT), ORG, BLOCK, ENDB and ENTER.
pub mod Counters
pub mod Nesting
use mc6801_tools.Base.{
  ℕ, zero, suc, ◌+◌, ◌-◌, ◌%◌, Bool, true, false, not, ◌&&◌, Option, none, some, List, [], ◌∷◌,
  length, get_elem?, set, ltb, leb, ◌==◌, if◌then◌else◌, bit_and, bit_or,
}
use mc6801_tools.Base.Bits.{has}
use mc6801_tools.As.Const.{mnregbit, segm, undbit}
use mc6801_tools.As.Line.{segment, rmb}
use mc6801_tools.As.Asm.{
  Asm, Symbol, Sym, ident, comma, error, at_last_pass, word, illab, dbounds, ill_section, blockov,
  endbbad, reenter,
}
use mc6801_tools.As.Scan.{getsym}
use mc6801_tools.As.Express.{absexpres}
use mc6801_tools.As.Pseudo.{
  State, BlockFrame, Location, Pop, ◌>>◌, call, on_asm, complain, ask, set_binmbuf, pop_lc,
  refuse_label,
}

abbrev pub maxblock : ℕ
maxblock = 8

abbrev pub nloc : ℕ
nloc = 16

abbrev pub textloc : ℕ
textloc = 0

abbrev pub dataloc : ℕ
dataloc = 3

abbrev pub bssloc : ℕ
bssloc = 3

-- Subtraction of `offset_t`.
abbrev pub minus : ℕ → ℕ → ℕ
minus a b = (a + (word - b % word)) % word

abbrev pub set_lc : ℕ → ℕ → State → State
set_lc lcdata lc s = on_asm (λ a. record a { lcdata = lcdata; lc = lc }) s

-- The location counter in use goes back to its place in the table.
abbrev pub leave_location : State → State
leave_location s =
    let here : Location = record { flags = s.lcdata; lc = s.lc } in
    record s { lctab = set s.lctab s.lcptr here }

-- What the table holds at a segment comes into use.
abbrev pub entered : ℕ → Location → State → State
entered i l s = record (set_binmbuf l.lc (set_lc (bit_or (bit_and l.flags 0xf0) i) l.lc s)) {
  lcptr = i;
  popflags = pop_lc;
}

abbrev pub located : ℕ → State → Option Location → Option State
located i s none = none
located i s (some l) = some (entered i l s)

abbrev pub enter_location : ℕ → Pop
enter_location seg s = located (seg % 256) s (get_elem? s.lctab (seg % 256))

-- The object code of the last pass says where the segment changes.
abbrev pub announce : ℕ → State → State
announce seg s =
    if at_last_pass s.asm && not (seg == bit_and s.lcdata segm) then ask (segment seg) s else s

unfoldable pub setloc : ℕ → Pop
setloc seg s = enter_location seg (leave_location (announce seg s))

unfoldable pub pbss : Pop
unfolding setloc
pbss = setloc bssloc

unfoldable pub pdata : Pop
unfolding setloc
pdata = setloc dataloc

-- `textseg` is 0 where the int is not positive.
unfoldable pub ptext : Pop
unfolding setloc
ptext s = if s.textseg == 0 then setloc textloc s else setloc s.textseg s

unfoldable pub ploc : Pop
unfolding setloc absexpres refuse_label
ploc = refuse_label illab >> call absexpres >> (λ s.
    if has s.lastexp.flags undbit
    then some s
    else if leb nloc s.lastexp.offset
    then some (complain dbounds s)
    else setloc s.lastexp.offset s)

-- Numbers of the routines in as/opcode.h.
abbrev pub bssop : ℕ
bssop = 10

abbrev pub dataop : ℕ
dataop = 13

abbrev pub textop : ℕ
textop = 40

abbrev pub section : Symbol → Pop
section symbol s =
    if not (has symbol.kind mnregbit)
    then some (complain ill_section s)
    else let op = symbol.value % 256 in
      if op == bssop
      then pbss s
      else if op == dataop
      then pdata s
      else if op == textop
      then ptext s
      else some (complain ill_section s)

abbrev pub named_section : Pop
named_section s = elim (s.gsymptr) [
  | none ↦ none
  | some id ↦ elim (get_elem? s.symbols id) [ none ↦ none | some symbol ↦ section symbol s ]
]

abbrev pub skip_comma : Pop
skip_comma s = elim (s.sym) as (λ _. Option State) [ comma ↦ call getsym s | _ ↦ some s ]

-- `while (sym == IDENT)`, which takes a symbol of the line in every round.
unfoldable pub sections : ℕ → Pop
unfolding getsym
sections zero s = elim (s.sym) as (λ _. Option State) [ ident ↦ none | _ ↦ some s ]
sections (suc n) s = elim (s.sym) as (λ _. Option State) [
  | ident ↦ (named_section >> call getsym >> skip_comma >> sections n) s
  | _ ↦ some s
]

unfoldable pub psect : Pop
unfolding sections refuse_label
psect = refuse_label illab >> (λ s. sections (suc (length s.lineptr)) s)

abbrev pub origin : Pop
origin s =
    let t = on_asm (λ a. record a { lcdata = a.lastexp.flags }) s in
    if has t.lcdata undbit
    then some t
    else let u = ask (rmb (minus t.lastexp.offset t.lc)) t in
      some (record (set_lc u.lcdata u.lastexp.offset u) {
        bin = record u.bin { binmbuf = u.lastexp.offset; binmbuf_set = true };
        popflags = pop_lc;
      })

unfoldable pub porg : Pop
unfolding absexpres refuse_label
porg = refuse_label illab >> call absexpres >> origin

abbrev pub push_block : State → State
push_block s =
    let frame : BlockFrame = record { flags = s.lcdata; dp = s.dirpag; lc = s.lc } in
    record s { blocklevel = suc s.blocklevel; blockstak = frame ∷ s.blockstak }

unfoldable pub pblock : Pop
unfolding porg
pblock s = if leb maxblock s.blocklevel then some (complain blockov s) else porg (push_block s)

abbrev pub pop_block : Pop
pop_block s = elim (s.blockstak) [
  | [] ↦ none
  | frame ∷ rest ↦
      let t = ask (rmb (minus frame.lc s.lc)) (on_asm (λ a. record a { dirpag = frame.dp }) s) in
      some
        (record (set_lc frame.flags frame.lc t) { blocklevel = s.blocklevel - 1; blockstak = rest })
]

unfoldable pub pendb : Pop
unfolding refuse_label
pendb =
    refuse_label illab
    >> (λ s. if s.blocklevel == 0 then some (complain endbbad s) else pop_block s)

unfoldable pub penter : State → State
penter s =
    if not (has s.pedata undbit)
    then complain reenter s
    else let t = record s { pedata = bit_or (bit_and s.pedata 0x7f) s.lcdata } in
      if has t.pedata undbit then t else record t { progent = t.lc; popflags = pop_lc }
