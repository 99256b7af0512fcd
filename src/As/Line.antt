-- ===== src/As/Line.antt =====
-- as/type.h, as/address.h and as/globvar.h: an address, and what the code generators read of the
-- current line.
use mc6801_tools.Base.{ℕ, Bool, List}

-- `struct address_s`. A symbol is named by a number, in place of its pointer.
pub record Address : Type 0 where
  pub offset : ℕ
  pub flags : ℕ
  pub sym : ℕ

-- `databuf` is a union, and `fcflag` or `fdflag` says which member is meant.
pub record Line : Type 0 where
  pub mcount : ℕ
  pub popflags : ℕ
  pub fcflag : Bool
  pub fdflag : Bool
  pub fcbuf : List ℕ
  pub fdbuf : List Address
  pub page : ℕ
  pub opcode : ℕ
  pub postb : ℕ
  pub lastexp : Address
  pub pcrflag : ℕ

-- The calls by which the assembler gives out object code: a byte of code, reserved bytes, an
-- operand with its relocation, and the segment that follows.
pub data Request : Type 0 where
  code : ℕ → Request
  rmb : ℕ → Request
  address : ℕ → Address → ℕ → Request
  segment : ℕ → Request

-- What the assembler gives to as/genobj.c, in order: single requests, and the lines for `genobj`.
pub data Output : Type 0 where
  requested : Request → Output
  object_line : Line → Output
