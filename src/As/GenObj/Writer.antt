-- ===== src/As/GenObj/Writer.antt =====
-- The object code writer without its buffer in front of the file: the specification that
-- as/genobj.c implements. Here a byte that is put reaches the stream at once.
use mc6801_tools.Base.{
  ℕ, ◌+◌, ◌%◌, Bool, List, [], ◌∷◌, ◌++◌, length, map, leb, ◌==◌, if◌then◌else◌, bit_or,
}
use mc6801_tools.Base.Bytes.{value_bytes}
use mc6801_tools.TypeConv.{char_of}
use mc6801_tools.As.GenObj.{ObjState, offset_mod}

-- What is observable: the bytes so far, the code and the reserved bytes that wait, the relocation
-- size last announced.
pub record Writer : Type 0 where
  pub objectc : Bool
  pub absbuf : List ℕ
  pub stream : List ℕ
  pub relsize : ℕ
  pub rmbcount : ℕ
  pub arrext : List ℕ

unfoldable pub view : ObjState → Writer
view s = record {
  objectc = s.objectc;
  absbuf = s.absbuf;
  stream = s.objfil ++ s.objbuf;
  relsize = s.relsize;
  rmbcount = s.rmbcount;
  arrext = s.arrext;
}

unfoldable pub put : List ℕ → Writer → Writer
put bs w = record w { stream = w.stream ++ bs }

-- A chunk of absolute code: its count, which shares a byte with the command, and its bytes.
unfoldable pub abs_chunk : List ℕ → List ℕ
abs_chunk [] = []
abs_chunk (b ∷ bs) = char_of (bit_or (length (b ∷ bs)) 0x40) ∷ map char_of (b ∷ bs)

-- Reserved bytes: a command and their count, in one byte or in two.
unfoldable pub skip_bytes : ℕ → List ℕ
skip_bytes n = if leb 0x100 n then 0x12 ∷ value_bytes 2 n else 0x11 ∷ value_bytes 1 n

unfoldable pub rmb_chunk : ℕ → List ℕ
unfolding skip_bytes
rmb_chunk n = if n == 0 then [] else skip_bytes n

unfoldable pub drop_abs : Writer → Writer
drop_abs w = record w { stream = w.stream ++ abs_chunk w.absbuf; absbuf = [] }

unfoldable pub drop_rmb : Writer → Writer
drop_rmb w = record w { stream = w.stream ++ rmb_chunk w.rmbcount; rmbcount = 0 }

unfoldable pub reserve : ℕ → Writer → Writer
unfolding drop_abs
reserve n w = let w' = drop_abs w in record w' { rmbcount = (w'.rmbcount + n) % offset_mod }

unfoldable pub absolute : ℕ → Writer → Writer
unfolding drop_abs drop_rmb
absolute b w =
    let w' = drop_rmb w in
    let w'' = if leb 64 (length w'.absbuf) then drop_abs w' else w' in
    record w'' { absbuf = w''.absbuf ++ char_of b ∷ [] }

unfoldable pub special : List ℕ → Writer → Writer
unfolding drop_abs drop_rmb put
special bs w = put bs (drop_rmb (drop_abs w))

-- Nothing happens where no object code is wanted.
unfoldable pub when_on : (Writer → Writer) → Writer → Writer
when_on f w = if w.objectc then f w else w
