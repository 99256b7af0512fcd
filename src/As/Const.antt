-- ===== src/As/Const.antt =====
-- as/const.h and as/opcode.h: flag bits, object code commands, limits.
use mc6801_tools.Base.{ℕ, true}
use mc6801_tools.TypeConv.{ByteOrder, typeconv_init}

-- Bits of a symbol's `type`.
abbrev pub entbit : ℕ
entbit = 1

abbrev pub commbit : ℕ
commbit = 2

abbrev pub labit : ℕ
labit = 4

abbrev pub mnregbit : ℕ
mnregbit = 8

abbrev pub macbit : ℕ
macbit = 16

abbrev pub redbit : ℕ
redbit = 32

abbrev pub varbit : ℕ
varbit = 64

abbrev pub expbit : ℕ
expbit = 128

-- Bits of `data`, in symbols and expressions.
abbrev pub regbit : ℕ
regbit = 4

abbrev pub segm : ℕ
segm = 0x0f

abbrev pub relbit : ℕ
relbit = 16

abbrev pub forbit : ℕ
forbit = 32

abbrev pub impbit : ℕ
impbit = 64

abbrev pub undbit : ℕ
undbit = 128

-- Commands of the object code.
abbrev pub obj_max_abs_len : ℕ
obj_max_abs_len = 64

abbrev pub obj_abs : ℕ
obj_abs = 0x40

abbrev pub obj_offset_rel : ℕ
obj_offset_rel = 0x80

abbrev pub obj_set_seg : ℕ
obj_set_seg = 0x20

abbrev pub obj_skip_1 : ℕ
obj_skip_1 = 0x11

abbrev pub obj_skip_2 : ℕ
obj_skip_2 = 0x12

abbrev pub obj_symbol_rel : ℕ
obj_symbol_rel = 0xc0

abbrev pub obj_r_mask : ℕ
obj_r_mask = 0x20

abbrev pub obj_s_mask : ℕ
obj_s_mask = 0x04

-- The byte order that `main` chooses in as/as.c and in ld/ld.c.
abbrev pub byte_order : ByteOrder
byte_order = typeconv_init true true
