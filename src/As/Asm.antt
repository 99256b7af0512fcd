-- ===== src/As/Asm.antt =====
-- The assembler's global variables (as/globvar.h, as/scan.h, as/address.h) that the scanner, the
-- expression handler and the machine operations share, and the sequence of their calls.
-- A routine returns the state that it leaves, or `none` where the C program has no defined result:
-- a division by zero, a shift by 64 or more, a read behind the line, or a null pointer.
use mc6801_tools.Base.{ℕ, ◌^◌, Bool, Option, none, some, List, [], ◌∷◌, ◌++◌, ◌==◌}
use mc6801_tools.As.Line.{Address}

-- The symbols of the scanner, `enum` in as/const.h.
pub data Sym : Type 0 where
  ident : Sym
  intconst : Sym
  addop : Sym
  andop : Sym
  binconst : Sym
  charconst : Sym
  colon : Sym
  comma : Sym
  eolsym : Sym
  eqop : Sym
  greaterthan : Sym
  hexconst : Sym
  immediate : Sym
  indirect : Sym
  lbracket : Sym
  lessthan : Sym
  lparen : Sym
  macroarg : Sym
  notop : Sym
  orop : Sym
  othersym : Sym
  postincop : Sym
  predecop : Sym
  rbracket : Sym
  rparen : Sym
  slash : Sym
  slop : Sym
  srop : Sym
  star : Sym
  stringconst : Sym
  subop : Sym
  whitespace : Sym

-- The messages of as/errors.c that these files give.
pub data ErrorCode : Type 0 where
  absreq : ErrorCode
  nonimpreq : ErrorCode
  relbad : ErrorCode
  facexp : ErrorCode
  rpexp : ErrorCode
  comexp : ErrorCode
  iregexp : ErrorCode
  macuid : ErrorCode
  reguid : ErrorCode
  mnuid : ErrorCode
  unblab : ErrorCode
  illmod : ErrorCode
  illreg : ErrorCode
  abounds : ErrorCode
  dbounds : ErrorCode
  shortb : ErrorCode
  lpexp : ErrorCode
  delexp : ErrorCode
  labexp : ErrorCode
  opexp : ErrorCode
  illab : ErrorCode
  mislab : ErrorCode
  relab : ErrorCode
  unlab : ErrorCode
  varlab : ErrorCode
  elsebad : ErrorCode
  elseifbad : ErrorCode
  endifbad : ErrorCode
  endbbad : ErrorCode
  failerr : ErrorCode
  blockov : ErrorCode
  countov : ErrorCode
  countun : ErrorCode
  ifov : ErrorCode
  ctlins : ErrorCode
  noimport : ErrorCode
  reenter : ErrorCode
  segrel : ErrorCode
  ill_section : ErrorCode
  unknown_escape_sequence : ErrorCode
  junk_after_operands : ErrorCode
  already : ErrorCode
  unstable_label : ErrorCode

-- `struct sym_s`: `kind` is its `type` and `flags` its `data`. The register of a register is the low
-- byte of the union.
pub record Symbol : Type 0 where
  pub name : List ℕ
  pub length : ℕ
  pub kind : ℕ
  pub flags : ℕ
  pub value : ℕ

-- `lineptr` and `symname` are what the line holds from there on, its terminating 0 included.
-- A symbol is its index in `symbols`, and `spt` holds the chains of the hash table.
pub record Asm : Type 0 where
  pub lineptr : List ℕ
  pub symname : List ℕ
  pub sym : Sym
  pub number : ℕ
  pub numbase : ℕ
  pub gsymptr : Option ℕ
  pub symbols : List Symbol
  pub spt : List (List ℕ)
  pub ifflag : Bool
  pub inidata : ℕ
  pub lastexp : Address
  pub errors : List ErrorCode
  pub pass : ℕ
  pub last_pass : ℕ
  pub lc : ℕ
  pub lcdata : ℕ
  pub dirpag : ℕ
  pub mcount : ℕ
  pub opcode : ℕ
  pub postb : ℕ
  pub pcrflag : ℕ

abbrev pub Routine : Type 0
Routine = Asm → Option Asm

infixr 5 ◌>>◌
abbrev pub ◌>>◌ : Routine → Routine → Routine
◌>>◌ m k s = elim (m s) [ none ↦ none | some s' ↦ k s' ]

abbrev pub nothing : Routine
nothing s = some s

-- `error` and `warning` of as/genlist.c: here the calls are logged.
abbrev pub error : ErrorCode → Asm → Asm
error e s = record s { errors = s.errors ++ e ∷ [] }

abbrev pub at_last_pass : Asm → Bool
at_last_pass s = s.pass == s.last_pass

-- `offset_t` is a size_t of 64 bits.
abbrev pub word : ℕ
word = 2 ^ 64

abbrev pub set_data : ℕ → Asm → Asm
set_data d s = record s { lastexp = record s.lastexp { flags = d } }

abbrev pub set_offset : ℕ → Asm → Asm
set_offset n s = record s { lastexp = record s.lastexp { offset = n } }
