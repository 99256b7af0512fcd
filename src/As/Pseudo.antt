-- ===== src/As/Pseudo.antt =====
-- as/pops.c: the pseudo-operations. Here their state, the sequence of their calls, and the message
-- at the start of a line. A pointer in the C program is an index, and a null pointer `none`.
pub mod Conditionals
pub mod Blocks
pub mod Labels
pub mod Strings
pub mod Values
mod Tests
use mc6801_tools.Base.{
  ℕ, Bool, true, false, Option, none, some, List, [], ◌∷◌, ◌++◌, get_elem?, set,
}
use mc6801_tools.As.Line.{Address, Request, Output, requested}
use mc6801_tools.As.Asm.{Asm, Routine, Symbol, ErrorCode, error}
use mc6801_tools.As.Scan.{getsym}
use mc6801_tools.As.GenBin.{Bin}

-- `struct if_s`, `struct block_s` and `struct lc_s`.
pub record IfFrame : Type 0 where
  pub ifflag : Bool
  pub elseflag : Bool

pub record BlockFrame : Type 0 where
  pub flags : ℕ
  pub dp : ℕ
  pub lc : ℕ

pub record Location : Type 0 where
  pub flags : ℕ
  pub lc : ℕ

-- `struct flags_s`; the semaphore is the bit pattern of an int of 32 bits.
pub record Flags : Type 0 where
  pub global : Bool
  pub current : Bool
  pub semaphore : ℕ

-- The stacks grow down from the ends of their arrays; here the top is the head of a list. `lcptr` is
-- an index in `lctab`, and `output` what goes to as/genobj.c.
pub record State : Type 0 where
  pub asm : Asm
  pub open asm use *
  pub label : Option ℕ
  pub popflags : ℕ
  pub elseflag : Bool
  pub iflevel : ℕ
  pub ifstak : List IfFrame
  pub lcommflag : Bool
  pub blocklevel : ℕ
  pub blockstak : List BlockFrame
  pub lctab : List Location
  pub lcptr : ℕ
  pub list : Flags
  pub maclist : Flags
  pub as_warn : Flags
  pub mapnum : ℕ
  pub pedata : ℕ
  pub progent : ℕ
  pub oldlabel : ℕ
  pub dirty_pass : Bool
  pub bin : Bin
  pub textseg : ℕ
  pub fcbuf : List ℕ
  pub fdbuf : List Address
  pub fcflag : Bool
  pub fdflag : Bool
  pub linebuf : List ℕ
  pub output : List Output
  pub page : ℕ
  pub mnsize : ℕ
  pub immcount : ℕ
  pub nocolonlabel : Bool
  pub list_force : Bool

abbrev pub Pop : Type 0
Pop = State → Option State

infixr 5 ◌>>◌
abbrev pub ◌>>◌ : Pop → Pop → Pop
◌>>◌ m k s = elim (m s) [ none ↦ none | some s' ↦ k s' ]

abbrev pub done : Pop
done s = some s

-- A routine of the scanner or of the expression handler.
abbrev pub call : Routine → Pop
call r s = elim (r s.asm) [ none ↦ none | some a ↦ some (record s { asm = a }) ]

abbrev pub on_asm : (Asm → Asm) → State → State
on_asm f s = record s { asm = f s.asm }

abbrev pub complain : ErrorCode → State → State
complain e s = on_asm (error e) s

-- The calls of as/genobj.c are logged: the model of that file reads the log.
abbrev pub ask : Request → State → State
ask r s = record s { output = s.output ++ requested r ∷ [] }

abbrev pub set_binmbuf : ℕ → State → State
set_binmbuf n s = record s { bin = record s.bin { binmbuf = n } }

-- The flags in `popflags`.
abbrev pub pop_lc : ℕ
pop_lc = 4

abbrev pub pop_lo : ℕ
pop_lo = 2

abbrev pub pop_hi : ℕ
pop_hi = 1

abbrev pub pop_long : ℕ
pop_long = 8

abbrev pub pop_all : ℕ
pop_all = 15

abbrev pub put_symbol : ℕ → Symbol → State → State
put_symbol id symbol s = on_asm (λ a. record a { symbols = set a.symbols id symbol }) s

-- `labptr = label`, and what the code does with it.
abbrev pub with_label : (ℕ → Symbol → Pop) → Pop
with_label f s = elim (s.label) [
  | none ↦ none
  | some id ↦ elim (get_elem? s.symbols id) [ none ↦ none | some symbol ↦ f id symbol s ]
]

abbrev pub has_label : State → Bool
has_label s = elim (s.label) [ none ↦ false | some id ↦ true ]

-- `labelerror`: the first symbol of the line is scanned again, for the place of the message.
unfoldable pub labelerror : ErrorCode → Pop
labelerror e s = elim (getsym (record s.asm { lineptr = s.linebuf })) [
  | none ↦ none
  | some a ↦ some (record s {
    asm = record (error e a) {
      gsymptr = s.gsymptr;
      lineptr = s.lineptr;
      sym = s.sym;
      symname = s.symname;
    };
    label = none;
  })
]

-- `if (label != NUL_PTR) labelerror(ILLAB)`.
unfoldable pub refuse_label : ErrorCode → Pop
unfolding labelerror
refuse_label e s = elim (s.label) [ none ↦ some s | some id ↦ labelerror e s ]
