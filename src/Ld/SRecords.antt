-- ===== src/Ld/SRecords.antt =====
-- ld/srec.c: Motorola S-records and Intel hex. A file is the list of its characters.
pub mod Reader
pub mod Image
pub mod IntelHex
pub mod Header
use mc6801_tools.Base.{
  ℕ, zero, suc, ◌+◌, ◌-◌, ◌*◌, ◌/◌, ◌%◌, ◌^◌, Bool, true, false, List, [], ◌∷◌, ◌++◌, length, take,
  drop, ltb, leb, ◌==◌, if◌then◌else◌, bit_xor,
}

abbrev pub linesize : ℕ
linesize = 16

unfoldable pub hexdigit : ℕ → ℕ
hexdigit d = if ltb d 10 then 0x30 + d else 0x41 + (d - 10)

-- `%02X` of a byte, and `%04X` of a number of 16 bits.
unfoldable pub put_02 : ℕ → List ℕ
unfolding hexdigit
put_02 b = hexdigit (b / 16) ∷ hexdigit (b % 16) ∷ []

unfoldable pub put_04 : ℕ → List ℕ
unfolding put_02
put_04 w = put_02 (w / 256) ++ put_02 (w % 256)

unfoldable pub put_bytes : List ℕ → List ℕ
unfolding put_02
put_bytes [] = []
put_bytes (b ∷ bs) = put_02 b ++ put_bytes bs

-- `csum += byte`, an unsigned char.
unfoldable pub add_bytes : ℕ → List ℕ → ℕ
add_bytes csum [] = csum
add_bytes csum (b ∷ bs) = add_bytes ((csum + b) % 256) bs

-- A record: type, count, address, bytes, and the checksum.
unfoldable pub put_record : ℕ → ℕ → List ℕ → List ℕ
unfolding put_02 put_04 put_bytes add_bytes
put_record kind address bytes =
    let n = length bytes in
    let start = (n + 3 + address / 2 ^ 8 % 256 + address % 256) % 256 in
    0x53 ∷ kind ∷ put_02 (n + 3)
    ++ put_04 (address % 2 ^ 16)
    ++ put_bytes bytes
    ++ put_02 (bit_xor (add_bytes start bytes) 0xff)
    ++ 10 ∷ []

-- The loop of `srec_data`, a round for each record: there are no more than bytes.
unfoldable pub srec_data : ℕ → List ℕ → ℕ → List ℕ × ℕ
unfolding put_record
srec_data zero buf address = ([], 0)
srec_data (suc fuel) [] address = ([], 0)
srec_data (suc fuel) (b ∷ buf) address =
    let n = take linesize (b ∷ buf) in
    let rest = srec_data fuel (drop linesize (b ∷ buf)) ((address + length n) % 2 ^ 32) in
    (put_record 0x31 address n ++ rest.0, suc rest.1)

-- `srec_end`: how many data records there are, and the entry point.
unfoldable pub srec_end : ℕ → ℕ → List ℕ
unfolding put_record
srec_end records entry = put_record 0x35 records [] ++ put_record 0x39 entry []

-- `%02X` of an unsigned number, which may take more digits.
unfoldable pub more_digits : ℕ → ℕ → List ℕ
unfolding hexdigit
more_digits zero n = []
more_digits (suc fuel) n =
    let front = more_digits fuel (n / 16) in if n == 0 then [] else front ++ hexdigit (n % 16) ∷ []

unfoldable pub put_02_more : ℕ → List ℕ
unfolding more_digits put_02
put_02_more n = more_digits 6 (n / 256) ++ put_02 (n % 256)

-- `srec_header`: the bytes of a name.
unfoldable pub srec_header : List ℕ → List ℕ
unfolding put_02 put_04 put_bytes add_bytes put_02_more
srec_header name =
    let len = (length name + 3) % 2 ^ 32 in
    0x53 ∷ 0x30 ∷ put_02_more len
    ++ put_04 0
    ++ put_bytes name
    ++ put_02 (bit_xor (add_bytes (len % 256) name) 0xff)
    ++ 10 ∷ []

-- `(csum ^ 0xff) + 1`, an unsigned char, and the line end.
unfoldable pub ihex_sum : ℕ → List ℕ
unfolding put_02
ihex_sum csum = put_02 ((bit_xor csum 0xff + 1) % 256) ++ 13 ∷ 10 ∷ []

-- A data record of Intel hex.
unfoldable pub ihex_record : ℕ → List ℕ → List ℕ
unfolding put_02 put_04 put_bytes add_bytes ihex_sum
ihex_record address bytes =
    let n = length bytes in
    let start = (n + address / 2 ^ 8 % 256 + address % 256) % 256 in
    0x3a ∷ put_02 n
    ++ put_04 (address % 2 ^ 16)
    ++ put_02 0
    ++ put_bytes bytes
    ++ ihex_sum (add_bytes start bytes)

unfoldable pub ihex_data : ℕ → List ℕ → ℕ → List ℕ
unfolding ihex_record
ihex_data zero buf address = []
ihex_data (suc fuel) [] address = []
ihex_data (suc fuel) (b ∷ buf) address =
    let n = take linesize (b ∷ buf) in
    ihex_record address n
    ++ ihex_data fuel (drop linesize (b ∷ buf)) ((address + length n) % 2 ^ 32)

unfoldable pub ihex_end : ℕ → List ℕ
unfolding put_02 put_04 ihex_sum
ihex_end entry =
    let csum = (1 + entry / 2 ^ 8 % 256 + entry % 256) % 256 in
    0x3a ∷ put_02 0 ++ put_04 (entry % 2 ^ 16) ++ put_02 1 ++ ihex_sum csum
