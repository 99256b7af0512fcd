-- ===== src/As/Express/Relocation.antt =====
-- What an expression stands for once its segments and symbols have addresses.
use mc6801_tools.Base.{ℕ, ◌+◌, ◌<◌, ◌≡◌, sym, true, if◌then◌else◌, bit_and}
use mc6801_tools.Base.Bits.{has}
use mc6801_tools.As.Const.{relbit, impbit, segm}
use mc6801_tools.As.Line.{Address}
use mc6801_tools.As.Asm.{Asm}
use mc6801_tools.As.Express.Flags.{place_mask, is_placed}

-- The address of a segment, or the value of an imported symbol.
unfoldable pub at_place : (ℕ → ℕ) → (ℕ → ℕ) → ℕ → ℕ → ℕ
at_place segments symbols place symbol =
    if has place impbit then symbols symbol else segments (bit_and place segm)

-- What an operand with flags and a symbol counts from.
unfoldable pub place_base : (ℕ → ℕ) → (ℕ → ℕ) → ℕ → ℕ → ℕ
unfolding at_place
place_base segments symbols d symbol =
    if has d relbit then at_place segments symbols (bit_and d place_mask) symbol else 0

-- The value, given addresses of segments and values of imported symbols.
unfoldable pub meaning : (ℕ → ℕ) → (ℕ → ℕ) → Address → ℕ
unfolding place_base
meaning segments symbols a = a.offset + place_base segments symbols a.flags a.sym

-- An operand whose flags are a byte, and say no place unless it is relocatable.
abbrev pub IsOperand : Address → Type 0
IsOperand a = (a.flags < 256) × (is_placed a.flags ≡ true)

-- `lastexp.sym` is kept behind an imported left operand: the right operand does not set it, or sets it to the same
-- symbol.
abbrev pub KeepsSymbol : Address → Asm → Type 0
KeepsSymbol left s = has left.flags impbit ≡ true → s.lastexp.sym ≡ left.sym
