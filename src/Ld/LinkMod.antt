-- ===== src/Ld/LinkMod.antt =====
-- ld/writex86.c: `linkmod`, which reads the object code of one module and writes its bytes, with
-- `setseg`, `skip`, `segwrite` and `writenulls`.
-- `bin_off_t` is an int of 32 bits, kept as its bit pattern.
pub mod Commands
pub mod Relocs
use mc6801_tools.Base.{
  ℕ, zero, suc, ◌+◌, ◌-◌, ◌*◌, ◌%◌, ◌^◌, Bool, true, false, Option, none, some, List, [], ◌∷◌, ◌++◌,
  map, length, get_elem?, get_or, set, take, replicate, ltb, leb, ◌==◌, if◌then◌else◌, bit_and,
}
use mc6801_tools.Base.Bits.{has}
use mc6801_tools.TypeConv.{u2cn}
use mc6801_tools.As.Const.{byte_order}
use mc6801_tools.Ld.Input.{Read, ◌>>=◌, return, readchar, readin, readsize, readconvsize}

-- What the function reads of a `struct modstruct` and of a `struct symstruct`.
pub record SymStruct : Type 0 where
  pub value : ℕ
  pub flags : ℕ

pub record ModStruct : Type 0 where
  pub segaddr : List ℕ
  pub segfadj : List ℕ
  pub segnoload : List Bool
  pub symparray : List SymStruct

-- What reaches the output file: a position to go on from, or one byte.
pub data OutEvent : Type 0 where
  seek : ℕ → OutEvent
  byte : ℕ → OutEvent

-- The variables that change: `segadj` and `segdiscard` are copies of the module's.
pub record LinkState : Type 0 where
  pub curseg : ℕ
  pub segpos : List ℕ
  pub spos : ℕ
  pub relocsize : ℕ
  pub out : List OutEvent

pub data Fault : Type 0 where
  premature_eof : Fault
  long_offsets : Fault
  bad_data : Fault
  reverse_seek : Fault
  no_symbol : Fault

-- After one command: the end of the module, or more to come.
pub data Next : Type 0 where
  finished : LinkState → List ℕ → Next
  more : LinkState → List ℕ → Next
  failed : Fault → Next
  stuck : Next

abbrev pub int_mod : ℕ
int_mod = 2 ^ 32

abbrev pub nseg : ℕ
nseg = 16

abbrev pub r_mask : ℕ
r_mask = 0x20

abbrev pub s_mask : ℕ
s_mask = 0x04

abbrev pub of_mask : ℕ
of_mask = 0x03

abbrev pub segm_mask : ℕ
segm_mask = 0x0f

-- An int as an unsigned long.
abbrev pub widen : ℕ → ℕ
widen n = if ltb n (2 ^ 31) then n else n + (2 ^ 64 - 2 ^ 32)

abbrev pub sub_int : ℕ → ℕ → ℕ
sub_int a b = (a + int_mod - b % int_mod) % int_mod

-- `spos += n`.
abbrev pub advance : ℕ → LinkState → LinkState
advance n s = record s { spos = (s.spos + n) % int_mod }

-- `prematureeof` does not return.
abbrev pub from_read : {A : Type 0} → Option (A × List ℕ) → (A → List ℕ → Next) → Next
from_read r k = elim r [ none ↦ failed premature_eof | some (a, rest) ↦ k a rest ]

-- A count of 0 stands for `ABS_TEXT_MAX`.
abbrev pub abs_count : ℕ → ℕ
abs_count modify = if modify == 0 then 64 else modify

-- `offset -= (spos + relocsize)` where the relocation is relative.
abbrev pub relative : ℕ → LinkState → ℕ → ℕ
relative modify s offset =
    if has modify r_mask then sub_int offset (s.spos + s.relocsize) else offset

-- The `relocsize` bytes of `buf` that `offtocn` fills.
unfoldable pub operand_bytes : ℕ → ℕ → List ℕ
operand_bytes size offset = elim (u2cn byte_order (0 ∷ 0 ∷ 0 ∷ 0 ∷ []) offset size) [
  | none ↦ []
  | some buf ↦ take size buf
]

module _ (m : ModStruct) where
  abbrev pub discards : LinkState → Bool
  discards s = get_or m.segnoload s.curseg false

  unfoldable pub segwrite : List ℕ → LinkState → LinkState
  segwrite buf s = if discards s then s else record s { out = s.out ++ map byte buf }

  -- `none` is the fatal error. The count is an int.
  unfoldable pub writenulls : ℕ → LinkState → Option LinkState
  writenulls count s =
      let s' = advance count s in
      if discards s
      then some s'
      else if leb (2 ^ 31) count
      then none
      else some (record s' { out = s.out ++ map byte (replicate count 0) })

  unfoldable pub skip_bytes : ℕ → LinkState → List ℕ → Next
  unfolding writenulls
  skip_bytes countsize s input = from_read (readsize countsize input) (λ count rest.
      elim (writenulls count s) [ none ↦ failed reverse_seek | some s' ↦ more s' rest ])

  -- The last lines of both relocations: `offtocn`, `segwrite`, `spos += relocsize`.
  unfoldable pub put_reloc : ℕ → LinkState → LinkState
  unfolding segwrite
  put_reloc offset s = advance s.relocsize (segwrite (operand_bytes s.relocsize offset) s)

  unfoldable pub offset_reloc : ℕ → LinkState → List ℕ → Next
  unfolding put_reloc
  offset_reloc modify s input = from_read (readsize s.relocsize input) (λ offset rest.
      let base = get_or m.segaddr (bit_and modify segm_mask) 0 in
      more (put_reloc ((base + relative modify s offset) % int_mod) s) rest)

  unfoldable pub symbol_reloc : ℕ → LinkState → List ℕ → Next
  unfolding put_reloc
  symbol_reloc modify s input =
      from_read (readconvsize (if has modify s_mask then 2 else 1) input) (λ number after.
        elim (get_elem? m.symparray number) [
          | none ↦ failed no_symbol
          | some symbol ↦ from_read (readconvsize (bit_and modify of_mask) after) (λ offset rest.
              more (put_reloc ((relative modify s offset + symbol.value) % int_mod) s) rest)
        ])

-- `header` is FILEHEADERLENGTH.
module _ (header : ℕ) (m : ModStruct) where
  unfoldable pub seek_to_spos : LinkState → LinkState
  seek_to_spos s = if discards m s then s else record s {
    out =
        s.out ++ seek ((header + widen s.spos + widen (get_or m.segfadj s.curseg 0)) % 2 ^ 64) ∷ [];
  }

  unfoldable pub setseg : ℕ → LinkState → LinkState
  unfolding seek_to_spos
  setseg newseg s =
      if newseg == s.curseg
      then s
      else let segpos = set s.segpos s.curseg s.spos in
        seek_to_spos (record s { curseg = newseg; segpos = segpos; spos = get_or segpos newseg 0 })

  -- `case CM_SPECIAL`. `modify` is an unsigned char, so it wraps where 32 is taken from it.
  unfoldable pub special : ℕ → LinkState → List ℕ → Next
  unfolding skip_bytes setseg
  special modify s rest =
      if modify == 0
      then finished (record s { segpos = set s.segpos s.curseg s.spos }) rest
      else if modify == 1
      then more (record s { relocsize = 1 }) rest
      else if modify == 2
      then more (record s { relocsize = 2 }) rest
      else if modify == 3
      then failed long_offsets
      else if modify == 17
      then skip_bytes m 1 s rest
      else if modify == 18
      then skip_bytes m 2 s rest
      else if modify == 19
      then skip_bytes m 4 s rest
      else let seg = (modify + 256 - 32) % 256 in
        if leb nseg seg then failed bad_data else more (setseg seg s) rest

  -- One round of the loop.
  unfoldable pub command : LinkState → List ℕ → Next
  unfolding special segwrite offset_reloc symbol_reloc
  command s input = from_read (readchar input) (λ c rest.
      let modify = bit_and c 0x3f in
      let kind = bit_and c 0xc0 in
      if kind == 0
      then special modify s rest
      else if kind == 0x40
      then from_read (readin (abs_count modify) rest)
          (λ buf after. more (advance (abs_count modify) (segwrite m buf s)) after)
      else if kind == 0x80
      then offset_reloc m modify s rest
      else symbol_reloc m modify s rest)

  -- The loop on fuel: a round reads a byte at least.
  unfoldable pub linkmod_loop : ℕ → LinkState → List ℕ → Next
  unfolding command
  linkmod_loop zero s input = stuck
  linkmod_loop (suc fuel) s input = elim (command s input) [
    | more s' rest ↦ linkmod_loop fuel s' rest
    | finished s' rest ↦ finished s' rest
    | failed e ↦ failed e
    | stuck ↦ stuck
  ]

  unfoldable pub linkmod_start : List OutEvent → LinkState
  unfolding seek_to_spos
  linkmod_start out = seek_to_spos (record {
    curseg = 0;
    segpos = m.segaddr;
    spos = get_or m.segaddr 0 0;
    relocsize = 2;
    out = out;
  })

  unfoldable pub linkmod : List OutEvent → List ℕ → Next
  unfolding linkmod_loop linkmod_start
  linkmod out input = linkmod_loop (suc (length input)) (linkmod_start out) input
