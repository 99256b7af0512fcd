-- ===== src/Ld/SRecords/Reader.antt =====
-- A reader of S-records, which checks counts and checksums, and what it makes of `srec_data`.
use mc6801_tools.Base.{
  ℕ, zero, suc, ◌+◌, ◌-◌, ◌*◌, ◌/◌, ◌%◌, ◌^◌, ◌<◌, ◌≤◌, ◌≡◌, refl, sym, ap, ◌∙◌, true, Option, none,
  some, List, [], ◌∷◌, ◌++◌, append_assoc, All-append, length, length-append, ltb, ◌==◌, ==→eq,
  if◌then◌else◌, bit_xor, arith, All, ◌&&◌,
}
use mc6801_tools.Base.Bits.{checked, checked_at}
use mc6801_tools.Ld.SRecords.{hexdigit, put_02, put_04, put_bytes, add_bytes, put_record}

unfoldable pub digit_of : ℕ → ℕ
digit_of c = if ltb c 0x41 then c - 0x30 else c - 0x41 + 10

-- Pairs of digits as bytes.
unfoldable pub get_bytes : ℕ → List ℕ → Option (List ℕ × List ℕ)
get_bytes zero text = some ([], text)
get_bytes (suc n) (a ∷ b ∷ text) = elim (get_bytes n text) [
  | none ↦ none
  | some (bs, rest) ↦ some ((digit_of a * 16 + digit_of b) ∷ bs, rest)
]
get_bytes (suc n) (a ∷ []) = none
get_bytes (suc n) [] = none

byte_table :
    checked 256 (λ b. digit_of (hexdigit (b / 16)) * 16 + digit_of (hexdigit (b % 16)) == b) ≡ true
unfolding checked digit_of hexdigit
byte_table = refl

pub digit_of-put :
    (b : ℕ) → b < 256 → digit_of (hexdigit (b / 16)) * 16 + digit_of (hexdigit (b % 16)) ≡ b
digit_of-put b h = ==→eq _ _ (checked_at 256 _ b byte_table h)

abbrev pub AreBytes : List ℕ → Type 0
AreBytes bs = All (λ (b : ℕ). b < 256) bs

pub get_bytes-put_bytes :
    (bs rest : List ℕ)
    → AreBytes bs
    → get_bytes (length bs) (put_bytes bs ++ rest) ≡ some (bs, rest)
unfolding get_bytes put_bytes put_02
get_bytes-put_bytes [] rest h = refl
get_bytes-put_bytes (b ∷ bs) rest (hb, h) =
    rw (get_bytes-put_bytes bs rest h, digit_of-put b hb) refl

pub put_bytes-append : (xs ys : List ℕ) → put_bytes (xs ++ ys) ≡ put_bytes xs ++ put_bytes ys
unfolding put_bytes
put_bytes-append [] ys = refl
put_bytes-append (x ∷ xs) ys =
    ap (λ (zs : List ℕ). put_02 x ++ zs) (put_bytes-append xs ys)
    ∙ sym (append_assoc (put_02 x) (put_bytes xs) (put_bytes ys))

pub add_bytes-append :
    (c : ℕ) (xs ys : List ℕ) → add_bytes c (xs ++ ys) ≡ add_bytes (add_bytes c xs) ys
unfolding add_bytes
add_bytes-append c [] ys = refl
add_bytes-append c (x ∷ xs) ys = add_bytes-append ((c + x) % 256) xs ys

pub add_bytes-lt : (c : ℕ) (xs : List ℕ) → c < 256 → add_bytes c xs < 256
unfolding add_bytes
add_bytes-lt c [] h = h
add_bytes-lt c (x ∷ xs) h = add_bytes-lt ((c + x) % 256) xs (omega arith)

complement_table : checked 256 (λ b. bit_xor b 0xff + b == 0xff) ≡ true
unfolding checked
complement_table = refl

pub complement-sum : (b : ℕ) → b < 256 → bit_xor b 0xff + b ≡ 0xff
complement-sum b h = ==→eq _ _ (checked_at 256 _ b complement_table h)

-- The bytes of a record behind its count.
abbrev checksum : ℕ → List ℕ → ℕ
checksum address bytes =
    bit_xor (add_bytes ((length bytes + 3 + address / 2 ^ 8 % 256 + address % 256) % 256) bytes)
      0xff

abbrev pub payload : ℕ → List ℕ → List ℕ
payload address bytes = address / 2 ^ 8 % 256 ∷ address % 256 ∷ bytes ++ checksum address bytes ∷ []

-- The count and the bytes of a record add up to 0xff.
payload-sum :
    (address : ℕ) (bytes : List ℕ) → add_bytes (length bytes + 3) (payload address bytes) ≡ 0xff
unfolding add_bytes
payload-sum address bytes =
    let hi = address / 2 ^ 8 % 256 in
    let lo = address % 256 in
    let start = (length bytes + 3 + hi + lo) % 256 in
    let twice : ((length bytes + 3 + hi) % 256 + lo) % 256 ≡ start = omega arith in
    add_bytes-append (((length bytes + 3 + hi) % 256 + lo) % 256) bytes
      (checksum address bytes ∷ [])
    ∙ ap (λ (c : ℕ). (add_bytes c bytes + checksum address bytes) % 256) twice
    ∙ omega (arith, complement-sum (add_bytes start bytes) (add_bytes-lt start bytes (omega arith)))

pub length-payload :
    (address : ℕ) (bytes : List ℕ) → length (payload address bytes) ≡ length bytes + 3
length-payload address bytes = omega (arith, length-append bytes (checksum address bytes ∷ []))

record_front : ℕ → ℕ → ℕ → ℕ → List ℕ → List ℕ
record_front kind count hi lo text = 0x53 ∷ kind ∷ put_02 count ++ put_02 hi ++ put_02 lo ++ text

record-tail :
    (bytes rest : List ℕ) (c : ℕ)
    → (put_bytes bytes ++ put_02 c ++ 10 ∷ []) ++ rest ≡ put_bytes (bytes ++ c ∷ []) ++ 10 ∷ rest
unfolding put_bytes put_02
record-tail bytes rest c =
    append_assoc (put_bytes bytes ++ put_02 c) (10 ∷ []) rest
    ∙ ap (λ (t : List ℕ). t ++ 10 ∷ rest) (sym (put_bytes-append bytes (c ∷ [])))

put_record-payload :
    (kind address : ℕ) (bytes rest : List ℕ)
    → put_record kind address bytes ++ rest
      ≡ 0x53 ∷ kind ∷ put_bytes ((length bytes + 3) ∷ payload address bytes) ++ 10 ∷ rest
unfolding put_record put_bytes put_04 put_02 record_front
put_record-payload kind address bytes rest =
    let n = length bytes + 3 in
    let c = checksum address bytes in
    let tail = (put_bytes bytes ++ put_02 c ++ 10 ∷ []) ++ rest in
    let hi : address % 2 ^ 16 / 256 ≡ address / 2 ^ 8 % 256 = omega arith in
    let lo : address % 2 ^ 16 % 256 ≡ address % 256 = omega arith in
    ap (λ (b : ℕ). record_front kind n b (address % 2 ^ 16 % 256) tail) hi
    ∙ ap (λ (b : ℕ). record_front kind n (address / 2 ^ 8 % 256) b tail) lo
    ∙ ap (record_front kind n (address / 2 ^ 8 % 256) (address % 256)) (record-tail bytes rest c)

-- One record: its kind, the bytes behind its count if they add up, and what follows.
unfoldable pub check_sum : ℕ → ℕ → List ℕ → List ℕ → Option (ℕ × List ℕ × List ℕ)
check_sum kind count bytes [] = none
check_sum kind count bytes (c ∷ rest) =
    if (add_bytes count bytes == 0xff) && (c == 10) then some (kind, bytes, rest) else none

unfoldable pub read_record : List ℕ → Option (ℕ × List ℕ × List ℕ)
unfolding get_bytes check_sum
read_record (s ∷ kind ∷ a ∷ b ∷ text) =
    let count = digit_of a * 16 + digit_of b in
    if s == 0x53
    then elim (get_bytes count text) [
      | none ↦ none
      | some (bs, rest) ↦ check_sum kind count bs rest
    ]
    else none
read_record (s ∷ kind ∷ a ∷ []) = none
read_record (s ∷ kind ∷ []) = none
read_record (s ∷ []) = none
read_record [] = none

payload-AreBytes :
    (address : ℕ) (bytes : List ℕ) → AreBytes bytes → AreBytes (payload address bytes)
payload-AreBytes address bytes h =
    let start = (length bytes + 3 + address / 2 ^ 8 % 256 + address % 256) % 256 in
    (
      omega arith,
      (
        omega arith,
        All-append (λ (b : ℕ). b < 256) bytes (checksum address bytes ∷ []) h
            (
              omega (
                arith,
                complement-sum (add_bytes start bytes) (add_bytes-lt start bytes (omega arith)),
              ),
              tt,
            ),
      ),
    )

check_sum-payload :
    (kind address : ℕ) (bytes rest : List ℕ)
    → check_sum kind (length bytes + 3) (payload address bytes) (10 ∷ rest)
      ≡ some (kind, payload address bytes, rest)
unfolding check_sum
check_sum-payload kind address bytes rest = simp (payload-sum address bytes)

-- For up to 252 bytes at any address: a reader that takes as many bytes as the count says, and wants
-- them and the count to add up to 0xff and a line end behind them, reads a record back. It finds
-- the kind, the two bytes of the address modulo 2 ^ 16, the bytes and a checksum, and what follows.
pub read_record-put_record :
    (kind address : ℕ) (bytes rest : List ℕ)
    → length bytes ≤ 252
    → AreBytes bytes
    → read_record (put_record kind address bytes ++ rest) ≡ some (kind, payload address bytes, rest)
unfolding read_record put_bytes put_02
read_record-put_record kind address bytes rest le h =
    ap read_record (put_record-payload kind address bytes rest)
    ∙ ap counted
        (digit_of-put (length bytes + 3) (omega arith) ∙ sym (length-payload address bytes))
    ∙ ap got (get_bytes-put_bytes p (10 ∷ rest) (payload-AreBytes address bytes h))
    ∙ ap (λ (n : ℕ). check_sum kind n p (10 ∷ rest)) (length-payload address bytes)
    ∙ check_sum-payload kind address bytes rest
  where
    p : List ℕ
    p = payload address bytes

    counted : ℕ → Option (ℕ × List ℕ × List ℕ)
    counted count = elim (get_bytes count (put_bytes p ++ 10 ∷ rest)) [
      | none ↦ none
      | some (bs, t) ↦ check_sum kind count bs t
    ]

    got : Option (List ℕ × List ℕ) → Option (ℕ × List ℕ × List ℕ)
    got o = elim o [ none ↦ none | some (bs, t) ↦ check_sum kind (length p) bs t ]
