-- ===== src/Ld/SRecords/IntelHex.antt =====
-- A reader of Intel hex, which checks counts and checksums, and what it makes of a file.
use mc6801_tools.Base.{
  ℕ, zero, suc, ◌+◌, ◌-◌, ◌*◌, ◌/◌, ◌%◌, ◌^◌, ◌<◌, ◌≤◌, ◌≡◌, refl, sym, ap, ◌∙◌, Option, none, some,
  List, [], ◌∷◌, ◌++◌, append_assoc, All-append, length, length-append, length-take, length-drop,
  take, drop, take-append-drop, get_or, ◌==◌, if◌then◌else◌, bit_xor, arith, ◌&&◌,
}
use mc6801_tools.Ld.SRecords.{
  linesize, hexdigit, put_02, put_04, put_bytes, add_bytes, ihex_sum, ihex_record, ihex_data,
  ihex_end,
}
use mc6801_tools.Ld.SRecords.Reader.{
  digit_of, digit_of-put, get_bytes, get_bytes-put_bytes, put_bytes-append, add_bytes-append,
  add_bytes-lt, complement-sum, AreBytes,
}
use mc6801_tools.Ld.SRecords.Image.{
  place, place-mod, place-append, take-front, AreBytes-take, AreBytes-drop,
}

-- The bytes of a record behind its count: the address, the type, the data and the checksum.
abbrev hex_sum : ℕ → ℕ → List ℕ → ℕ
hex_sum kind address bytes =
    (bit_xor (add_bytes ((kind + length bytes + address / 2 ^ 8 % 256 + address % 256) % 256) bytes)
        0xff
      + 1)
    % 256

abbrev hex_payload : ℕ → ℕ → List ℕ → List ℕ
hex_payload kind address bytes =
    address / 2 ^ 8 % 256 ∷ address % 256 ∷ kind ∷ bytes ++ hex_sum kind address bytes ∷ []

-- One line: count, bytes that add up to 0 with it, and a line end.
unfoldable pub check_hex : ℕ → List ℕ → List ℕ → Option (List ℕ × List ℕ)
check_hex count bytes (c ∷ d ∷ rest) =
    if (add_bytes count bytes == 0) && ((c == 13) && (d == 10)) then some (bytes, rest) else none
check_hex count bytes (c ∷ []) = none
check_hex count bytes [] = none

unfoldable pub read_hex_record : List ℕ → Option (List ℕ × List ℕ)
unfolding get_bytes check_hex
read_hex_record (s ∷ a ∷ b ∷ text) =
    let count = digit_of a * 16 + digit_of b in
    if s == 0x3a
    then elim (get_bytes (count + 4) text) [
      | none ↦ none
      | some (bs, rest) ↦ check_hex count bs rest
    ]
    else none
read_hex_record (s ∷ a ∷ []) = none
read_hex_record (s ∷ []) = none
read_hex_record [] = none

-- What a data record puts into memory.
abbrev pub hex_image : List ℕ → List (ℕ × ℕ)
hex_image p = place (get_or p 0 0 * 256 + get_or p 1 0) (take (length p - 4) (drop 3 p))

-- Data records up to the end record, which has the entry point.
unfoldable pub read_hex : ℕ → List ℕ → Option (List (ℕ × ℕ) × ℕ)
unfolding read_hex_record
read_hex zero text = none
read_hex (suc fuel) text = elim (read_hex_record text) [
  | none ↦ none
  | some (p, rest) ↦
      let later = read_hex fuel rest in
      if get_or p 2 0 == 1
      then some ([], get_or p 0 0 * 256 + get_or p 1 0)
      else elim later [ none ↦ none | some (image, entry) ↦ some (hex_image p ++ image, entry) ]
]

hex_line : ℕ → ℕ → List ℕ → List ℕ
hex_line kind address bytes =
    0x3a ∷ put_bytes (length bytes ∷ hex_payload kind address bytes) ++ 13 ∷ 10 ∷ []

hex_payload-sum :
    (kind address : ℕ) (bytes : List ℕ)
    → add_bytes (length bytes) (hex_payload kind address bytes) ≡ 0
unfolding add_bytes
hex_payload-sum kind address bytes =
    let hi = address / 2 ^ 8 % 256 in
    let lo = address % 256 in
    let start = (kind + length bytes + hi + lo) % 256 in
    let thrice : (((length bytes + hi) % 256 + lo) % 256 + kind) % 256 ≡ start = omega arith in
    add_bytes-append ((((length bytes + hi) % 256 + lo) % 256 + kind) % 256) bytes
      (hex_sum kind address bytes ∷ [])
    ∙ ap (λ (c : ℕ). (add_bytes c bytes + hex_sum kind address bytes) % 256) thrice
    ∙ omega (arith, complement-sum (add_bytes start bytes) (add_bytes-lt start bytes (omega arith)))

length-hex_payload :
    (kind address : ℕ) (bytes : List ℕ) → length (hex_payload kind address bytes) ≡ length bytes + 4
length-hex_payload kind address bytes =
    omega (arith, length-append bytes (hex_sum kind address bytes ∷ []))

hex_payload-AreBytes :
    (kind address : ℕ) (bytes : List ℕ)
    → kind < 256
    → AreBytes bytes
    → AreBytes (hex_payload kind address bytes)
hex_payload-AreBytes kind address bytes k h = (
  omega arith,
  (
    omega arith,
    (
      k,
      All-append (λ (b : ℕ). b < 256) bytes (hex_sum kind address bytes ∷ []) h (omega arith, tt),
    ),
  ),
)

check_hex-payload :
    (kind address : ℕ) (bytes rest : List ℕ)
    → check_hex (length bytes) (hex_payload kind address bytes) (13 ∷ 10 ∷ rest)
      ≡ some (hex_payload kind address bytes, rest)
unfolding check_hex
check_hex-payload kind address bytes rest = simp (hex_payload-sum kind address bytes)

read_hex_record-line :
    (kind address : ℕ) (bytes rest : List ℕ)
    → length bytes < 256
    → kind < 256
    → AreBytes bytes
    → read_hex_record (hex_line kind address bytes ++ rest)
      ≡ some (hex_payload kind address bytes, rest)
unfolding read_hex_record put_bytes put_02 hex_line
read_hex_record-line kind address bytes rest le k h =
    ap (λ (t : List ℕ). counted (digits (length bytes)) t)
      (append_assoc (put_bytes p) (13 ∷ 10 ∷ []) rest)
    ∙ ap (λ (n : ℕ). counted n (put_bytes p ++ 13 ∷ 10 ∷ rest)) (digit_of-put (length bytes) le)
    ∙ ap (λ (n : ℕ). got (get_bytes n (put_bytes p ++ 13 ∷ 10 ∷ rest)))
        (sym (length-hex_payload kind address bytes))
    ∙ ap got (get_bytes-put_bytes p (13 ∷ 10 ∷ rest) (hex_payload-AreBytes kind address bytes k h))
    ∙ check_hex-payload kind address bytes rest
  where
    p : List ℕ
    p = hex_payload kind address bytes

    digits : ℕ → ℕ
    digits n = digit_of (hexdigit (n / 16)) * 16 + digit_of (hexdigit (n % 16))

    counted : ℕ → List ℕ → Option (List ℕ × List ℕ)
    counted count text = elim (get_bytes (count + 4) text) [
      | none ↦ none
      | some (bs, t) ↦ check_hex count bs t
    ]

    got : Option (List ℕ × List ℕ) → Option (List ℕ × List ℕ)
    got o = elim o [ none ↦ none | some (bs, t) ↦ check_hex (length bytes) bs t ]

hex_tail :
    (bytes : List ℕ) (c : ℕ)
    → put_bytes bytes ++ (put_02 c ++ 13 ∷ 10 ∷ []) ≡ put_bytes (bytes ++ c ∷ []) ++ 13 ∷ 10 ∷ []
unfolding put_bytes put_02
hex_tail bytes c =
    sym (append_assoc (put_bytes bytes) (put_02 c) (13 ∷ 10 ∷ []))
    ∙ ap (λ (t : List ℕ). t ++ 13 ∷ 10 ∷ []) (sym (put_bytes-append bytes (c ∷ [])))

hex_front : ℕ → ℕ → ℕ → ℕ → List ℕ → List ℕ
hex_front count hi lo kind text =
    0x3a ∷ put_02 count ++ put_02 hi ++ put_02 lo ++ put_02 kind ++ text

hex_front-line :
    (kind address : ℕ) (bytes : List ℕ)
    → hex_front (length bytes) (address % 2 ^ 16 / 256) (address % 2 ^ 16 % 256) kind (
        put_bytes bytes
        ++ ihex_sum
            (add_bytes ((kind + length bytes + address / 2 ^ 8 % 256 + address % 256) % 256) bytes))
      ≡ hex_line kind address bytes
unfolding put_bytes put_02 hex_front hex_line ihex_sum
hex_front-line kind address bytes =
    let n = length bytes in
    let c = hex_sum kind address bytes in
    let tail = put_bytes bytes ++ (put_02 c ++ 13 ∷ 10 ∷ []) in
    let hi : address % 2 ^ 16 / 256 ≡ address / 2 ^ 8 % 256 = omega arith in
    let lo : address % 2 ^ 16 % 256 ≡ address % 256 = omega arith in
    ap (λ (b : ℕ). hex_front n b (address % 2 ^ 16 % 256) kind tail) hi
    ∙ ap (λ (b : ℕ). hex_front n (address / 2 ^ 8 % 256) b kind tail) lo
    ∙ ap (hex_front n (address / 2 ^ 8 % 256) (address % 256) kind) (hex_tail bytes c)

ihex_record-line :
    (address : ℕ) (bytes : List ℕ) → ihex_record address bytes ≡ hex_line 0 address bytes
unfolding ihex_record hex_front put_04 put_02
ihex_record-line address bytes =
    ap
      (λ (k : ℕ). hex_front (length bytes) (address % 2 ^ 16 / 256) (address % 2 ^ 16 % 256) 0 (
        put_bytes bytes
        ++ ihex_sum (add_bytes ((k + address / 2 ^ 8 % 256 + address % 256) % 256) bytes)))
      (omega arith)
    ∙ hex_front-line 0 address bytes

ihex_end-line : (entry : ℕ) → ihex_end entry ≡ hex_line 1 entry []
unfolding ihex_end hex_front put_04 put_02 put_bytes add_bytes
ihex_end-line entry = hex_front-line 1 entry []

hex_image-payload : (a : ℕ) (bs : List ℕ) → hex_image (hex_payload 0 a bs) ≡ place a bs
hex_image-payload a bs =
    ap (λ (n : ℕ). place (a / 2 ^ 8 % 256 * 256 + a % 256) (take n (drop 3 (hex_payload 0 a bs))))
      size
    ∙ ap (place (a / 2 ^ 8 % 256 * 256 + a % 256)) (take-front bs _)
    ∙ place-mod (a / 2 ^ 8 % 256 * 256 + a % 256) a bs (omega arith)
  where
    size : length (hex_payload 0 a bs) - 4 ≡ length bs
    size = omega (arith, length-hex_payload 0 a bs)

-- What is done with the first record.
abbrev hex_step : ℕ → Option (List ℕ × List ℕ) → Option (List (ℕ × ℕ) × ℕ)
hex_step fuel o = elim o [
  | none ↦ none
  | some (p, rest) ↦
      let later = read_hex fuel rest in
      if get_or p 2 0 == 1
      then some ([], get_or p 0 0 * 256 + get_or p 1 0)
      else elim later [ none ↦ none | some (image, entry) ↦ some (hex_image p ++ image, entry) ]
]

read_hex-end : (fuel entry : ℕ) → read_hex (suc fuel) (ihex_end entry) ≡ some ([], entry % 2 ^ 16)
unfolding read_hex hex_line put_bytes
read_hex-end fuel entry =
    ap (λ (t : List ℕ). hex_step fuel (read_hex_record t)) (ihex_end-line entry)
    ∙ ap (hex_step fuel) (read_hex_record-line 1 entry [] [] (omega arith) (omega arith) tt)
    ∙ ap (λ (e : ℕ). some ([], e)) (omega arith)

read_hex-record :
    (fuel a entry : ℕ) (bs rest : List ℕ) (image : List (ℕ × ℕ))
    → length bs < 256
    → AreBytes bs
    → read_hex fuel rest ≡ some (image, entry)
    → read_hex (suc fuel) (ihex_record a bs ++ rest) ≡ some (place a bs ++ image, entry)
unfolding read_hex
read_hex-record fuel a entry bs rest image le h e =
    ap (λ (t : List ℕ). hex_step fuel (read_hex_record (t ++ rest))) (ihex_record-line a bs)
    ∙ ap (hex_step fuel) (read_hex_record-line 0 a bs rest le (omega arith) h)
    ∙ ap second e
    ∙ ap (λ (ps : List (ℕ × ℕ)). some (ps ++ image, entry)) (hex_image-payload a bs)
  where
    second : Option (List (ℕ × ℕ) × ℕ) → Option (List (ℕ × ℕ) × ℕ)
    second o = elim o [ none ↦ none | some (i, n) ↦ some (hex_image (hex_payload 0 a bs) ++ i, n) ]

-- For a buffer of bytes, at most as many as the rounds of the loop: a reader with a round more reads what
-- `ihex_data` and `ihex_end` write. It finds each byte of the buffer at its address, modulo 2 ^ 16, in the order
-- of the buffer and nothing else, and the entry point modulo 2 ^ 16.
pub read_hex-ihex_data :
    (fuel : ℕ) (buf : List ℕ) (address entry : ℕ)
    → length buf ≤ fuel
    → AreBytes buf
    → read_hex (suc fuel) (ihex_data fuel buf address ++ ihex_end entry)
      ≡ some (place address buf, entry % 2 ^ 16)
unfolding ihex_data
read_hex-ihex_data zero [] address entry le h = read_hex-end zero entry ∙ unfold place in refl
read_hex-ihex_data zero (b ∷ buf) address entry le h = absurd (omega arith)
read_hex-ihex_data (suc fuel) [] address entry le h =
    read_hex-end (suc fuel) entry ∙ unfold place in refl
read_hex-ihex_data (suc fuel) (b ∷ buf) address entry le h =
    let chunk = take linesize (b ∷ buf) in
    let others = drop linesize (b ∷ buf) in
    let next = (address + length chunk) % 2 ^ 32 in
    let later =
      read_hex-ihex_data fuel others next entry (omega (arith, length-drop linesize (b ∷ buf)))
        (AreBytes-drop linesize (b ∷ buf) h) in
    ap (read_hex (suc (suc fuel)))
      (append_assoc (ihex_record address chunk) (ihex_data fuel others next) (ihex_end entry))
    ∙ read_hex-record (suc fuel) address (entry % 2 ^ 16) chunk
        (ihex_data fuel others next ++ ihex_end entry) (place next others)
        (omega (arith, length-take linesize (b ∷ buf))) (AreBytes-take linesize (b ∷ buf) h) later
    ∙ ap (λ (ps : List (ℕ × ℕ)). some (place address chunk ++ ps, entry % 2 ^ 16))
        (place-mod next (address + length chunk) others (omega arith))
    ∙ ap (λ (ps : List (ℕ × ℕ)). some (ps, entry % 2 ^ 16))
        (sym (place-append address chunk others))
    ∙ ap (λ (bs : List ℕ). some (place address bs, entry % 2 ^ 16))
        (take-append-drop linesize (b ∷ buf))
