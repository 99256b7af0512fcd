-- ===== src/TypeConv.antt =====
-- as/typeconv.c and ld/typeconv.c: integers to and from bytes, in a byte order that is chosen at
-- run time. A buffer is a list of bytes, and a call returns the buffer that it leaves.
pub mod RoundTrip
mod Tests
use mc6801_tools.Base.{
  ℕ, zero, suc, ◌+◌, ◌*◌, ◌/◌, ◌%◌, ◌^◌, Bool, Option, none, some, List, [], ◌∷◌, get_or, set, ◌==◌,
  if◌then◌else◌,
}

-- `long_off` and `int_off`: where the bytes of a value go, the lowest byte first.
pub record ByteOrder : Type 0 where
  pub long_off : List ℕ
  pub int_off : List ℕ

abbrev swap : List ℕ → ℕ → ℕ → List ℕ
swap xs i j = set (set xs i (get_or xs j 0)) j (get_or xs i 0)

-- The two tests of `typeconv_init`, one after the other. `no_swap`, which ld alone keeps, is set
-- there and read nowhere.
unfoldable pub typeconv_init : Bool → Bool → ByteOrder
typeconv_init big_endian long_big_endian =
    let start : List ℕ = 0 ∷ 1 ∷ 2 ∷ 3 ∷ [] in
    let ints : List ℕ = 0 ∷ 1 ∷ [] in
    let long = if long_big_endian then swap (swap start 0 2) 1 3 else start in
    if big_endian
    then record { long_off = swap (swap long 2 3) 0 1; int_off = swap ints 0 1 }
    else record { long_off = long; int_off = ints }

-- `char` keeps the low eight bits of what is stored.
abbrev pub char_of : ℕ → ℕ
char_of n = n % 256

unfoldable pub u2c2 : ByteOrder → List ℕ → ℕ → List ℕ
u2c2 o buf offset =
    set (set buf (get_or o.int_off 0 0) (char_of offset)) (get_or o.int_off 1 0)
      (char_of (offset / 2 ^ 8))

-- The loop of `u4c4`, over the offsets that are left.
unfoldable pub u4c4_loop : List ℕ → List ℕ → ℕ → List ℕ
u4c4_loop [] buf offset = buf
u4c4_loop (i ∷ is) buf offset = u4c4_loop is (set buf i (char_of offset)) (offset / 2 ^ 8)

unfoldable pub u4c4 : ByteOrder → List ℕ → ℕ → List ℕ
unfolding u4c4_loop
u4c4 o buf offset = u4c4_loop o.long_off buf offset

unfoldable pub c2u2 : ByteOrder → List ℕ → ℕ
c2u2 o buf = get_or buf (get_or o.int_off 0 0) 0 + get_or buf (get_or o.int_off 1 0) 0 * 2 ^ 8

-- The loop of `c4u4` counts down, so the last offset is read first. `u4_t` is an unsigned long of
-- 64 bits.
unfoldable pub c4u4_loop : List ℕ → List ℕ → ℕ → ℕ
c4u4_loop buf [] res = res
c4u4_loop buf (i ∷ is) res = (c4u4_loop buf is res * 2 ^ 8 + get_or buf i 0) % 2 ^ 64

unfoldable pub c4u4 : ByteOrder → List ℕ → ℕ
unfolding c4u4_loop
c4u4 o buf = c4u4_loop buf o.long_off 0

-- The functions on 1, 2 or 4 bytes. `none` is the warning for another count, which leaves the
-- buffer as it is.
unfoldable pub u4cn : ByteOrder → List ℕ → ℕ → ℕ → Option (List ℕ)
unfolding u2c2 u4c4
u4cn o buf offset count =
    if count == 1
    then some (set buf 0 (char_of offset))
    else if count == 2
    then some (u2c2 o buf (offset % 2 ^ 32))
    else if count == 4
    then some (u4c4 o buf offset)
    else none

-- `u2_pt` is an unsigned of 32 bits.
unfoldable pub u2cn : ByteOrder → List ℕ → ℕ → ℕ → Option (List ℕ)
unfolding u2c2 u4c4
u2cn o buf offset count =
    if count == 1
    then some (set buf 0 (char_of offset))
    else if count == 2
    then some (u2c2 o buf offset)
    else if count == 4
    then some (u4c4 o buf offset)
    else none

-- `none` is the warning; the C functions return 0 after it.
unfoldable pub cnu4 : ByteOrder → List ℕ → ℕ → Option ℕ
unfolding c2u2 c4u4
cnu4 o buf count =
    if count == 0
    then some 0
    else if count == 1
    then some (get_or buf 0 0 % 256)
    else if count == 2
    then some (c2u2 o buf)
    else if count == 4
    then some (c4u4 o buf)
    else none

unfoldable pub cnu2 : ByteOrder → List ℕ → ℕ → Option ℕ
unfolding c2u2 c4u4
cnu2 o buf count =
    if count == 0
    then some 0
    else if count == 1
    then some (get_or buf 0 0 % 256)
    else if count == 2
    then some (c2u2 o buf)
    else if count == 4
    then some (c4u4 o buf % 2 ^ 32)
    else none
