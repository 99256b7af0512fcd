-- ===== src/As/Tests.antt =====
-- Lines of source through the scanner, the expression handler and the machine operations.
use mc6801_tools.Base.{
  ℕ, zero, suc, length-replicate, ◌+◌, ◌%◌, ◌<◌, ◌≡◌, ◌≢◌, ◌⊎◌, refl, true, Option, none, some,
  List, [], ◌∷◌, ◌++◌, replicate, get_elem?, All, arith,
}
use mc6801_tools.As.Line.{Address}
use mc6801_tools.As.Asm.{Asm, eolsym, Symbol, abounds, word}
use mc6801_tools.As.Table.{lookup_name}
use mc6801_tools.As.Table.Chains.{IsTable, find}
use mc6801_tools.As.Table.Lookup.{lookup_name-finds, lookup_name-keeps}
use mc6801_tools.As.Scan.{getsym}
use mc6801_tools.As.Express.{symexpres}
use mc6801_tools.As.Express.Combine.{factor2_data, operate, add_right, sub_right}
use mc6801_tools.As.MachineOps.Simple.{mshort2}
use mc6801_tools.As.MachineOps.Branch.{after_operand, sign_extend, mshort2-reaches}

-- In the last pass, at 0x1000 of the text.
abbrev start : List ℕ → Asm
start line = record {
  lineptr = line;
  symname = line;
  sym = eolsym;
  number = 0;
  numbase = 10;
  gsymptr = none;
  symbols = [];
  spt = replicate 1024 [];
  ifflag = true;
  inidata = 0x90;
  lastexp = record { offset = 0; flags = 0; sym = 0 };
  errors = [];
  pass = 2;
  last_pass = 2;
  lc = 0x1000;
  lcdata = 0x10;
  dirpag = 0;
  mcount = 0;
  opcode = 0x86;
  postb = 0;
  pcrflag = 0;
}

abbrev value_of : Option Asm → Option Address
value_of r = elim r [ none ↦ none | some s ↦ some s.lastexp ]

-- `2+3*(4-1)`: a term has no precedence over a factor in parentheses.
expression :
    value_of
      (symexpres (start (0x32 ∷ 0x2b ∷ 0x33 ∷ 0x2a ∷ 0x28 ∷ 0x34 ∷ 0x2d ∷ 0x31 ∷ 0x29 ∷ 0 ∷ [])))
    ≡ some (record { offset = 11; flags = 0; sym = 0 })
unfolding symexpres getsym sub_right operate factor2_data add_right
expression = refl

-- `1/0`: the division has no result.
division_by_zero : symexpres (start (0x31 ∷ 0x2f ∷ 0x30 ∷ 0 ∷ [])) ≡ none
unfolding symexpres getsym operate factor2_data
division_by_zero = refl

abbrev at_data : ℕ → Asm
at_data n = record (start []) { lastexp = record { offset = n; flags = 0x13; sym = 0 } }

abbrev bases : ℕ → ℕ
bases place = 0x100 + place

abbrev values : ℕ → ℕ
values symbol = 0x2000 + symbol

-- The imported symbol 7, and a constant behind it.
abbrev imported : Address
imported = record { offset = 4; flags = 0x5f; sym = 7 }

abbrev behind_7 : ℕ → Asm
behind_7 n = record (start []) { lastexp = record { offset = n; flags = 0; sym = 7 } }

-- A branch from 0x1000 to 0x1010.
abbrev branch : Asm
branch = record (start []) { lastexp = record { offset = 0x1010; flags = 0x10; sym = 0 } }

mshort2-reaches_example :
    (((mshort2 branch).errors ≡ [])
      × ((after_operand branch + sign_extend ((mshort2 branch).lastexp.offset % 256)) % word
          ≡ 0x1010 % word))
    ⊎ (((mshort2 branch).errors ≡ [] ++ abounds ∷ [])
        × ((b : ℕ) → b < 256 → (after_operand branch + sign_extend b) % word ≢ 0x1010 % word))
mshort2-reaches_example = mshort2-reaches branch refl (omega arith) (omega arith) refl refl

-- The empty table, and then the names `a1` and `b`.
All-empty : (n m : ℕ) → All (λ (ids : List ℕ). All (λ (id : ℕ). id < m) ids) (replicate n [])
All-empty zero m = tt
All-empty (suc n) m = (tt, All-empty n m)

empty-IsTable : IsTable (start [])
empty-IsTable = (length-replicate {A = List ℕ} 1024 [], All-empty 1024 0)

abbrev name_a1 : List ℕ
name_a1 = 0x61 ∷ 0x31 ∷ []

abbrev name_b : List ℕ
name_b = 0x62 ∷ []

abbrev with_a1 : Asm
with_a1 = lookup_name name_a1 (start [])

lookup_name-finds_example :
    (id : ℕ) × (symbol : Symbol) × ((lookup_name name_a1 (start [])).gsymptr ≡ some id)
    × (get_elem? (lookup_name name_a1 (start [])).symbols id ≡ some symbol)
    × (symbol.name ≡ name_a1)
    × (find name_a1 (lookup_name name_a1 (start [])) ≡ some id)
    × IsTable (lookup_name name_a1 (start []))
lookup_name-finds_example = lookup_name-finds name_a1 (start []) refl empty-IsTable

with_a1-IsTable : IsTable with_a1
with_a1-IsTable =
    let (id, symbol, g, e, n, f, t) = lookup_name-finds name_a1 (start []) refl empty-IsTable in t

with_a1-ifflag : with_a1.ifflag ≡ true
unfolding lookup_name
with_a1-ifflag = refl

with_a1-find : find name_a1 with_a1 ≡ some 0
unfolding find lookup_name
with_a1-find = refl

lookup_name-keeps_example : find name_a1 (lookup_name name_b with_a1) ≡ some 0
lookup_name-keeps_example =
    lookup_name-keeps name_b name_a1 with_a1 0 with_a1-ifflag with_a1-IsTable with_a1-find
