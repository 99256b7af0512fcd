-- ===== src/As/GenObj.antt =====
-- as/genobj.c: object code, through a buffer of absolute code, a count of reserved bytes and a
-- buffer in front of the file.
-- A call returns the state that it leaves, or `none` where the program stops at a write that fails
-- or would send bytes that it never stored.
pub mod Lines
pub mod Writer
pub mod Buffers
pub mod Requests
pub mod Addresses
use mc6801_tools.Base.{
  ℕ, zero, suc, ◌+◌, ◌-◌, ◌/◌, ◌%◌, ◌^◌, Bool, true, false, not, ◌&&◌, Option, none, some, List, [],
  ◌∷◌, ◌++◌, length, get_or, replicate, ltb, leb, ◌==◌, if◌then◌else◌, bit_and, bit_or,
}
use mc6801_tools.Base.Bits.{has}
use mc6801_tools.TypeConv.{char_of, u2cn, u2c2}
use mc6801_tools.As.Const.{
  segm, relbit, impbit, obj_max_abs_len, obj_abs, obj_offset_rel, obj_skip_1, obj_skip_2,
  obj_symbol_rel, obj_s_mask, byte_order,
}
use mc6801_tools.As.Line.{Address, Line}

-- The private variables. A buffer is what lies between its start and its current location;
-- `objfil` is what the file holds.
pub record ObjState : Type 0 where
  pub objectc : Bool
  pub absbuf : List ℕ
  pub objbuf : List ℕ
  pub objfil : List ℕ
  pub relsize : ℕ
  pub rmbcount : ℕ
  pub arrext : List ℕ

abbrev pub Step : Type 0
Step = ObjState → Option ObjState

infixr 5 ◌>>◌
abbrev pub ◌>>◌ : Step → Step → Step
◌>>◌ m k s = elim (m s) [ none ↦ none | some s' ↦ k s' ]

abbrev pub skip : Step
skip s = some s

abbrev pub objbufsize : ℕ
objbufsize = 512

-- `offset_t` is a size_t of 64 bits.
abbrev pub offset_mod : ℕ
offset_mod = 2 ^ 64

abbrev pub clear_abs : Step
clear_abs s = some (record s { absbuf = [] })

abbrev pub clear_rmb : Step
clear_rmb s = some (record s { rmbcount = 0 })

-- `accepts file chunk`: `write` takes the whole chunk, where the file holds `file`.
module _ (accepts : List ℕ → List ℕ → Bool) where
  unfoldable pub flushobj : Step
  flushobj s = elim (s.objbuf) [
    | [] ↦ some s
    | b ∷ bs ↦
        if accepts s.objfil s.objbuf
        then some (record s { objfil = s.objfil ++ s.objbuf; objbuf = [] })
        else none
  ]

  abbrev store_obj : ℕ → Step
  store_obj ch s = some (record s { objbuf = s.objbuf ++ char_of ch ∷ [] })

  unfoldable pub putobj1 : ℕ → Step
  unfolding flushobj
  putobj1 ch s =
      ((λ t. if leb objbufsize (length t.objbuf) then flushobj t else some t) >> store_obj ch) s

  -- The loop of `flushabs`, and of `writeobj`.
  unfoldable pub putobj1_all : List ℕ → Step
  putobj1_all [] = skip
  putobj1_all (b ∷ bs) = putobj1 b >> putobj1_all bs

  -- A chunk of absolute code, for a buffer that is not empty.
  unfoldable pub put_chunk : List ℕ → Step
  unfolding putobj1_all
  put_chunk bs = putobj1 (bit_or (length bs) obj_abs) >> putobj1_all bs >> clear_abs

  unfoldable pub flushabs : Step
  unfolding put_chunk
  flushabs s = elim (s.absbuf) [ [] ↦ some s | b ∷ bs ↦ put_chunk (b ∷ bs) s ]

  -- `sizeof offset` bytes, of which `u2cn` fills `size`. The sizes are 1 and 2; for another `u2cn`
  -- fills nothing.
  unfoldable pub putobjoffset : ℕ → ℕ → Step
  putobjoffset offset size s = elim (u2cn byte_order (replicate 8 0) (offset % 2 ^ 32) size) [
    | none ↦ none
    | some buf ↦
        (putobj1 (get_or buf 0 0)
            >> (if ltb 1 size then putobj1 (get_or buf 1 0) else skip)
            >> (if ltb 2 size then putobj1 (get_or buf 2 0) >> putobj1 (get_or buf 3 0) else skip))
          s
  ]

  unfoldable pub putobjword : ℕ → Step
  putobjword word =
      let buf = u2c2 byte_order (replicate 4 0) word in
      putobj1 (get_or buf 0 0) >> putobj1 (get_or buf 1 0)

  -- A command and the count, in two bytes or in one.
  unfoldable pub put_skip : ℕ → Step
  unfolding putobjoffset
  put_skip n =
      if leb 0x100 n
      then putobj1 obj_skip_2 >> putobjoffset n 2 >> clear_rmb
      else putobj1 obj_skip_1 >> putobjoffset n 1 >> clear_rmb

  unfoldable pub flushrmb : Step
  unfolding put_skip
  flushrmb s = if s.rmbcount == 0 then some s else put_skip s.rmbcount s

  -- So requests in either direction cancel.
  unfoldable pub accumulate_rmb : ℕ → Step
  unfolding flushabs
  accumulate_rmb offset s =
      if s.objectc
      then (flushabs >> (λ t. some (record t { rmbcount = (t.rmbcount + offset) % offset_mod }))) s
      else some s

  unfoldable pub putabs : ℕ → Step
  unfolding flushrmb flushabs
  putabs ch s =
      if s.objectc
      then ((λ t. if t.rmbcount == 0 then some t else flushrmb t)
            >> (λ t. if leb obj_max_abs_len (length t.absbuf) then flushabs t else some t)
            >> (λ t. some (record t { absbuf = t.absbuf ++ char_of ch ∷ [] })))
          s
      else some s

  unfoldable pub putobj : ℕ → Step
  unfolding flushabs flushrmb
  putobj ch s = if s.objectc then (flushabs >> flushrmb >> putobj1 ch) s else some s

  unfoldable pub objtrailer : Step
  unfolding putobj flushobj
  objtrailer s = if s.objectc then (putobj 0 >> flushobj) s else some s
