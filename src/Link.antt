-- ===== src/Link.antt =====
-- The object code between the two programs: what as/genobj.c writes, ld/writex86.c reads back.
pub mod Pending
pub mod Simulation
pub mod Waiting
pub mod Steps
pub mod RoundTrip
pub mod Lines
mod Tests
use mc6801_tools.Base.{
  ℕ, ◌+◌, ◌*◌, ◌%◌, ◌^◌, ◌<◌, ◌≡◌, Bool, true, false, Option, none, some, List, [], ◌∷◌, ◌++◌,
  length, get_elem?, get_or, replicate, ◌⊎◌, if◌then◌else◌, bit_and, bit_or,
}
use mc6801_tools.Base.Bytes.{value_bytes}
use mc6801_tools.Base.Bits.{has}
use mc6801_tools.TypeConv.{char_of}
use mc6801_tools.As.Const.{relbit, impbit, segm, obj_set_seg, obj_r_mask}
use mc6801_tools.As.Line.{Address}
pub use mc6801_tools.As.Line.{Request, code, rmb, address, segment}
use mc6801_tools.As.GenObj.{Step, ◌>>◌, skip, putabs, accumulate_rmb, putobj}
use mc6801_tools.As.GenObj.Lines.{symbol_number, genobjadr}
use mc6801_tools.Ld.LinkMod.{ModStruct, SymStruct, LinkState, setseg}
use mc6801_tools.Ld.LinkMod.Commands.{emit, reloc_value, IsSize}

unfoldable pub request : (List ℕ → List ℕ → Bool) → Request → Step
request accepts (code b) = putabs accepts b
request accepts (rmb n) = accumulate_rmb accepts n
request accepts (address pcrflag adr size) = genobjadr accepts pcrflag adr size
request accepts (segment seg) = putobj accepts (bit_or seg obj_set_seg)

unfoldable pub requests : (List ℕ → List ℕ → Bool) → List Request → Step
unfolding request
requests accepts [] = skip
requests accepts (r ∷ rs) = request accepts r >> requests accepts rs

module _ (header : ℕ) (m : ModStruct) (arrext : List ℕ) where
  abbrev pub symbol_of : Address → Option SymStruct
  symbol_of adr = get_elem? m.symparray (symbol_number adr.sym arrext)

  -- The base of a relocation: the address of the symbol or of the segment.
  unfoldable pub base_of : Address → ℕ
  base_of adr =
      if has adr.flags impbit
      then elim (symbol_of adr) [ none ↦ 0 | some symbol ↦ symbol.value ]
      else get_or m.segaddr (bit_and adr.flags segm) 0

  -- The bytes that an operand stands for, where the linker has come to `s`.
  unfoldable pub operand_value : ℕ → Address → ℕ → LinkState → ℕ
  unfolding base_of
  operand_value pcrflag adr size s =
      if has adr.flags relbit
      then reloc_value (has pcrflag obj_r_mask) (s.spos + size) (base_of adr) adr.offset
      else adr.offset

  -- What a request means to the linker.
  unfoldable pub effect : Request → LinkState → LinkState
  unfolding operand_value
  effect (code b) s = emit m (char_of b ∷ []) s
  effect (rmb n) s = emit m (replicate n 0) s
  effect (address pcrflag adr size) s =
      emit m (value_bytes size (operand_value pcrflag adr size s))
        (if has adr.flags relbit then record s { relocsize = size } else s)
  effect (segment seg) s = setseg header m seg s

  unfoldable pub effects : List Request → LinkState → LinkState
  unfolding effect
  effects [] s = s
  effects (r ∷ rs) s = effects rs (effect r s)

  -- The linker knows the symbol of an operand that needs one.
  abbrev pub IsKnown : Address → Type 0
  IsKnown adr =
      has adr.flags relbit ≡ true
      → has adr.flags impbit ≡ true
      → (symbol : SymStruct) × (symbol_of adr ≡ some symbol)
        × (symbol_number adr.sym arrext < 2 ^ 16)

  abbrev pub IsAllowed : Request → Type 0
  IsAllowed (code b) = Unit
  IsAllowed (rmb n) = Unit
  IsAllowed (address pcrflag adr size) =
      IsSize size × ((pcrflag ≡ 0) ⊎ (pcrflag ≡ obj_r_mask)) × IsKnown adr
  IsAllowed (segment seg) = seg < 16

-- The reserved bytes that wait after a request, and that no wait reaches 64K.
abbrev pub waiting : Request → ℕ → ℕ
waiting (rmb n) k = k + n
waiting (code b) k = 0
waiting (address pcrflag adr size) k = 0
waiting (segment seg) k = 0

abbrev pub FitsFrom : ℕ → List Request → Type 0
FitsFrom k [] = Unit
FitsFrom k (r ∷ rs) = (waiting r k < 2 ^ 16) × FitsFrom (waiting r k) rs
