-- ===== src/Ld/SRecords/Header.antt =====
-- The header record of a name.
use mc6801_tools.Base.{
  ℕ, ◌+◌, ◌/◌, ◌%◌, ◌^◌, ◌<◌, ◌≤◌, ◌≡◌, ap, ◌∙◌, some, List, [], ◌∷◌, ◌++◌, length, bit_xor, arith,
}
use mc6801_tools.Ld.SRecords.{
  put_02, put_04, put_bytes, add_bytes, put_record, more_digits, put_02_more, srec_header,
}
use mc6801_tools.Ld.SRecords.Reader.{AreBytes, payload, read_record, read_record-put_record}

put_02_more-two : (n : ℕ) → n < 256 → put_02_more n ≡ put_02 n
unfolding put_02_more more_digits
put_02_more-two n h =
    let front : n / 256 ≡ 0 = omega arith in
    let back : n % 256 ≡ n = omega arith in
    ap (λ (k : ℕ). more_digits 6 k ++ put_02 (n % 256)) front ∙ ap put_02 back

header_of : List ℕ → List ℕ → ℕ → List ℕ
header_of name count start =
    0x53 ∷ 0x30 ∷ count
    ++ put_04 0
    ++ put_bytes name
    ++ put_02 (bit_xor (add_bytes start name) 0xff)
    ++ 10 ∷ []

header-record : (name : List ℕ) → length name ≤ 252 → srec_header name ≡ put_record 0x30 0 name
unfolding srec_header put_record header_of
header-record name le =
    let n = length name + 3 in
    let whole : n % 2 ^ 32 ≡ n = omega arith in
    let start : n % 2 ^ 32 % 256 ≡ (n + 0 + 0) % 256 = omega arith in
    ap (λ (k : ℕ). header_of name (put_02_more k) (n % 2 ^ 32 % 256)) whole
    ∙ ap (λ (t : List ℕ). header_of name t (n % 2 ^ 32 % 256)) (put_02_more-two n (omega arith))
    ∙ ap (header_of name (put_02 n)) start

-- For a name of up to 252 bytes, the reader of records reads `srec_header` back: the type is `0`, the
-- address 0, and the bytes are the name.
pub read_record-srec_header :
    (name rest : List ℕ)
    → length name ≤ 252
    → AreBytes name
    → read_record (srec_header name ++ rest) ≡ some (0x30, payload 0 name, rest)
read_record-srec_header name rest le h =
    ap (λ (t : List ℕ). read_record (t ++ rest)) (header-record name le)
    ∙ read_record-put_record 0x30 0 name rest le h
