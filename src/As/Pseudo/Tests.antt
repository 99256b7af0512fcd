-- ===== src/As/Pseudo/Tests.antt =====
-- Pseudo-operations of as/pops.c on concrete lines, and the raw binary file.
use mc6801_tools.Base.{
  ℕ, ◌+◌, ◌<◌, inr, ◌⊎◌, ◌≡◌, refl, true, false, Option, none, some, List, [], ◌∷◌, ◌++◌, ◌-◌,
  replicate, length, drop, arith, ◌%◌,
}
use mc6801_tools.Base.Bits.{has}
use mc6801_tools.As.Const.{undbit}
use mc6801_tools.As.Line.{rmb}
use mc6801_tools.As.Asm.{Asm, eolsym, intconst, word}
use mc6801_tools.As.Scan.{getsym}
use mc6801_tools.As.Express.{absexpres}
use mc6801_tools.As.Express.Combine.{chkabs}
use mc6801_tools.As.Scan.Frame.{frame}
use mc6801_tools.As.Scan.Returns.{IsEnded, getsym-returns}
use mc6801_tools.As.GenBin.{Bin, putbins}
use mc6801_tools.As.GenBin.Image.{IsWritten, IsLimited, putbins-image, putbins-limits}
use mc6801_tools.As.Pseudo.{State, Flags, requested}
use mc6801_tools.As.Pseudo.Conditionals.{doif, pelse, pendif, skip_to_eol}
use mc6801_tools.As.Pseudo.Conditionals.Lines.{skip_to_eol-ends}
use mc6801_tools.As.Pseudo.Conditionals.Chain.{
  Chain, start, otherwise, is_first, expression, test_routine, Chain-first,
}
use mc6801_tools.As.Pseudo.Conditionals.Nesting.{
  here, SameStack, IsIfStack, Refused, Closed, opens, run_op, if-endif, pendif-IsIfStack,
  run_op-IsIfStack,
}
use mc6801_tools.As.Pseudo.Blocks.{setloc, pblock, pendb, minus}
use mc6801_tools.As.Pseudo.Blocks.Counters.{counter, IsLocated, setloc-counter}
use mc6801_tools.As.Pseudo.Blocks.Nesting.{InBlock, SameBlocks, block-endb}
use mc6801_tools.As.Pseudo.Strings.{dofcc}
use mc6801_tools.As.Pseudo.Strings.RoundTrip.{quote, dofcc-quote}
use mc6801_tools.As.Pseudo.Values.{palign}
use mc6801_tools.As.Pseudo.Values.Counts.{IsCounted, new_count-sum, palign-multiple}

-- Behind a symbol that was scanned, in the last pass, at 0x1002 of the text.
abbrev at_number : ℕ → List ℕ → Asm
at_number n line = record {
  lineptr = line;
  symname = line;
  sym = intconst;
  number = n;
  numbase = 10;
  gsymptr = none;
  symbols = [];
  spt = replicate 1024 [];
  ifflag = true;
  inidata = 0x90;
  lastexp = record { offset = 0; flags = 0; sym = 0 };
  errors = [];
  pass = 2;
  last_pass = 2;
  lc = 0x1002;
  lcdata = 0x10;
  dirpag = 0;
  mcount = 0;
  opcode = 0;
  postb = 0;
  pcrflag = 0;
}

abbrev counts : Flags
counts = record { global = true; current = true; semaphore = 0x7fff }

abbrev no_binary : Bin
no_binary = record {
  binfil = false;
  binaryc = false;
  binaryg = false;
  binmbuf = 0;
  binmbuf_set = false;
  binfbuf = 0;
  binmin = word - 1;
  binmax = 0;
  file = [];
  pos = 0;
  bwraps = 0;
}

abbrev state : Asm → State
state a = record {
  asm = a;
  label = none;
  popflags = 0;
  elseflag = false;
  iflevel = 0;
  ifstak = [];
  lcommflag = false;
  blocklevel = 0;
  blockstak = [];
  lctab = replicate 16 (record { flags = 0; lc = 0x20 });
  lcptr = 0;
  list = counts;
  maclist = counts;
  as_warn = counts;
  mapnum = 0;
  pedata = 0x80;
  progent = 0;
  oldlabel = 0;
  dirty_pass = false;
  bin = no_binary;
  textseg = 0;
  fcbuf = [];
  fdbuf = [];
  fcflag = false;
  fdflag = false;
  linebuf = 0 ∷ [];
  output = [];
  page = 0;
  mnsize = 0;
  immcount = 0;
  nocolonlabel = false;
  list_force = false;
}

abbrev result : State → Option State → State
result s o = elim o [ none ↦ s | some t ↦ t ]

-- `2+3`, where the 2 was scanned.
abbrev sum_line : Asm
sum_line = at_number 2 (0x2b ∷ 0x33 ∷ 10 ∷ 0 ∷ [])

getsym-returns_example :
    (t : Asm) × (getsym sum_line ≡ some t)
    × ((t.sym ≡ eolsym) ⊎ IsEnded t.lineptr)
    × (frame t ≡ frame sum_line)
    × (length t.lineptr < 4)
getsym-returns_example = getsym-returns sum_line (inr (0x2b ∷ 0x33 ∷ [], refl))

skip_to_eol-ends_example :
    (t : Asm) × (skip_to_eol sum_line ≡ some t) × (t.sym ≡ eolsym) × (frame t ≡ frame sum_line)
skip_to_eol-ends_example = skip_to_eol-ends sum_line (inr (inr (0x2b ∷ 0x33 ∷ [], refl)))

-- `IF 0` and ELSE.
abbrev at_if : State
at_if = state (at_number 0 (0 ∷ []))

abbrev in_if : State
in_if = result at_if (doif (test_routine expression) at_if)

abbrev in_else : State
in_else = result in_if (pelse in_if)

if_then_else : Chain true (true ∷ false ∷ []) in_else
unfolding doif pelse test_routine absexpres getsym chkabs
if_then_else =
    otherwise true (false ∷ []) in_if in_else (start expression at_if in_if refl refl) refl refl

Chain-first_example : in_else.ifflag ≡ is_first true (true ∷ false ∷ [])
Chain-first_example = Chain-first true (true ∷ false ∷ []) in_else if_then_else

opened : doif (test_routine expression) at_if ≡ some in_if
unfolding doif test_routine absexpres getsym chkabs
opened = refl

if-endif_example :
    (v : State) × (pendif in_if ≡ some v)
    × (v.ifflag ≡ at_if.ifflag)
    × (v.elseflag ≡ at_if.elseflag)
    × SameStack at_if v
if-endif_example = if-endif expression at_if in_if in_if refl opened (here in_if)

run_op-IsIfStack_example : IsIfStack in_if
unfolding run_op
run_op-IsIfStack_example =
    run_op-IsIfStack (opens expression) at_if in_if (refl, omega arith) opened

in_if_stack : IsIfStack in_if
unfolding doif test_routine absexpres getsym chkabs
in_if_stack = (refl, omega arith)

pendif-IsIfStack_example :
    (t : State) × (pendif in_if ≡ some t) × IsIfStack t × (Refused in_if t ⊎ Closed in_if t)
pendif-IsIfStack_example = pendif-IsIfStack in_if in_if_stack

-- The text is at 0x1002, and the table has 0x20 for the other segments.
setloc-counter_example :
    (t : State) × (setloc 3 at_if ≡ some t)
    × IsLocated t
    × (t.lcptr ≡ 3)
    × (t.lc ≡ counter at_if 3)
    × ((j : ℕ) → counter t j ≡ counter at_if j)
setloc-counter_example = setloc-counter 3 at_if (omega arith) (omega arith) (omega arith)

-- `BLOCK 5`.
abbrev at_block : State
at_block = state (at_number 5 (0 ∷ []))

abbrev in_block : State
in_block = result at_block (pblock at_block)

block-endb_example :
    (v : State) × (pendb in_block ≡ some v)
    × (v.lc ≡ at_block.lc)
    × (v.lcdata ≡ at_block.lcdata)
    × (v.dirpag ≡ at_block.dirpag)
    × SameBlocks at_block v
    × (v.output ≡ in_block.output ++ requested (rmb (minus at_block.lc in_block.lc)) ∷ [])
unfolding pblock absexpres getsym chkabs
block-endb_example = block-endb at_block in_block in_block refl refl (InBlock.here in_block) refl

-- A string with its delimiter, a backslash and a control character.
abbrev text : List ℕ
text = 0x41 ∷ 0x22 ∷ 0x5c ∷ 7 ∷ []

abbrev string_line : List ℕ
string_line = 0x22 ∷ 0x41 ∷ 0x22 ∷ 0x22 ∷ 0x5c ∷ 0x5c ∷ 0x5c ∷ 0x30 ∷ 0x30 ∷ 0x37 ∷ 0x22 ∷ 10 ∷ []

abbrev at_string : State
at_string = state (at_number 0 string_line)

abbrev behind : Asm
behind = record at_string.asm { lineptr = []; symname = 10 ∷ []; sym = eolsym }

scanned_end : getsym (record at_string.asm { lineptr = 10 ∷ [] }) ≡ some behind
unfolding getsym
scanned_end = refl

quoted : string_line ≡ 0x22 ∷ (quote 0x22 text ++ (0x22 ∷ 10 ∷ []))
unfolding quote
quoted = refl

dofcc-quote_example :
    (t : State) × (dofcc at_string ≡ some t)
    × (t.fcbuf ≡ text ++ drop (length text) at_string.fcbuf)
    × (t.mcount ≡ length text)
    × (t.lineptr ≡ behind.lineptr)
    × (t.errors ≡ behind.errors)
dofcc-quote_example =
    dofcc-quote 0x22 text 10 [] at_string behind (omega arith, λ e. absurd (omega (arith, e)))
      (λ e. absurd (omega (arith, e))) (omega arith) quoted scanned_end

-- A file from 0x100 on, and code at 0x105.
abbrev writing : Bin
writing = record no_binary {
  binfil = true;
  binaryc = true;
  binmbuf = 0x105;
  binfbuf = 0x100;
  binmin = 0x100;
}

putbins-image_example : IsWritten writing (1 ∷ 2 ∷ []) (putbins (1 ∷ 2 ∷ []) writing)
putbins-image_example =
    putbins-image (1 ∷ 2 ∷ []) writing (refl, refl, refl, omega arith) (omega arith) (omega arith)

abbrev first_pass : Bin
first_pass = record no_binary { binfil = true; binmbuf = 0x105 }

putbins-limits_example : IsLimited first_pass 2 (putbins (1 ∷ 2 ∷ []) first_pass)
putbins-limits_example = putbins-limits (1 ∷ 2 ∷ []) first_pass refl refl (omega arith)

new_count-sum_example : IsCounted 1 counts at_string.asm
new_count-sum_example = new_count-sum 1 counts at_string.asm

-- `.ALIGN 16` at 0x1002.
abbrev at_align : State
at_align = state (at_number 16 (0 ∷ []))

abbrev aligned : State
aligned = result at_align (palign at_align)

align_result : palign at_align ≡ some aligned
unfolding palign absexpres getsym chkabs
align_result = refl

align_flags : has aligned.lcdata undbit ≡ false
unfolding palign absexpres getsym chkabs
align_flags = refl

align_offset : aligned.lastexp.offset ≡ 16
unfolding palign absexpres getsym chkabs
align_offset = refl

palign-multiple_example :
    ((aligned.lc + aligned.mcount) % aligned.lastexp.offset ≡ 0)
    × (aligned.mcount < aligned.lastexp.offset)
palign-multiple_example =
    palign-multiple at_align aligned align_result align_flags
      (λ e. absurd (omega (arith, e, align_offset)))
