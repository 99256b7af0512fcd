-- ===== src/Ld/SRecords/Image.antt =====
-- The memory that the records of `srec_data` describe.
use mc6801_tools.Base.{
  ℕ, zero, suc, ◌+◌, ◌-◌, ◌*◌, ◌/◌, ◌%◌, ◌^◌, ◌≤◌, ◌≡◌, refl, sym, ap, ◌∙◌, Option, none, some,
  List, [], ◌∷◌, ◌++◌, length, length-take, length-drop, take, drop, take-append-drop, get_or,
  arith,
}
use mc6801_tools.Ld.SRecords.{put_record, srec_data, linesize}
use mc6801_tools.Ld.SRecords.Reader.{
  payload, length-payload, read_record, read_record-put_record, AreBytes,
}

-- Bytes at their addresses of 16 bits.
unfoldable pub place : ℕ → List ℕ → List (ℕ × ℕ)
place a [] = []
place a (b ∷ bs) = (a % 2 ^ 16, b) ∷ place (a + 1) bs

-- The bytes of a record between its address and its checksum, at their addresses.
unfoldable pub record_image : List ℕ → List (ℕ × ℕ)
unfolding place
record_image p = place (get_or p 0 0 * 256 + get_or p 1 0) (take (length p - 3) (drop 2 p))

-- The images of `n` records.
unfoldable pub read_image : ℕ → List ℕ → Option (List (ℕ × ℕ))
unfolding record_image read_record
read_image zero text = some []
read_image (suc n) text = elim (read_record text) [
  | none ↦ none
  | some (kind, p, rest) ↦ elim (read_image n rest) [
    | none ↦ none
    | some image ↦ some (record_image p ++ image)
  ]
]

pub place-mod : (a b : ℕ) (bs : List ℕ) → a % 2 ^ 16 ≡ b % 2 ^ 16 → place a bs ≡ place b bs
unfolding place
place-mod a b [] h = refl
place-mod a b (c ∷ bs) h =
    ap (λ (k : ℕ). (k, c) ∷ place (a + 1) bs) h
    ∙ ap (λ (ps : List (ℕ × ℕ)). (b % 2 ^ 16, c) ∷ ps) (place-mod (a + 1) (b + 1) bs (omega arith))

pub place-append :
    (a : ℕ) (xs ys : List ℕ) → place a (xs ++ ys) ≡ place a xs ++ place (a + length xs) ys
unfolding place
place-append a [] ys = place-mod a (a + 0) ys (omega arith)
place-append a (x ∷ xs) ys =
    ap (λ (ps : List (ℕ × ℕ)). (a % 2 ^ 16, x) ∷ ps)
      (place-append (a + 1) xs ys
        ∙ ap (λ (ps : List (ℕ × ℕ)). place (a + 1) xs ++ ps)
            (place-mod (a + 1 + length xs) (a + suc (length xs)) ys (omega arith)))

pub take-front : (xs ys : List ℕ) → take (length xs) (xs ++ ys) ≡ xs
take-front [] ys = refl
take-front (x ∷ xs) ys = ap (λ (zs : List ℕ). x ∷ zs) (take-front xs ys)

record_image-payload : (a : ℕ) (bs : List ℕ) → record_image (payload a bs) ≡ place a bs
unfolding record_image
record_image-payload a bs =
    ap (λ (n : ℕ). place (a / 2 ^ 8 % 256 * 256 + a % 256) (take n (drop 2 (payload a bs)))) size
    ∙ ap (place (a / 2 ^ 8 % 256 * 256 + a % 256)) (take-front bs _)
    ∙ place-mod (a / 2 ^ 8 % 256 * 256 + a % 256) a bs (omega arith)
  where
    size : length (payload a bs) - 3 ≡ length bs
    size = omega (arith, length-payload a bs)

pub AreBytes-take : (n : ℕ) (bs : List ℕ) → AreBytes bs → AreBytes (take n bs)
AreBytes-take zero bs h = tt
AreBytes-take (suc n) [] h = tt
AreBytes-take (suc n) (b ∷ bs) (hb, h) = (hb, AreBytes-take n bs h)

pub AreBytes-drop : (n : ℕ) (bs : List ℕ) → AreBytes bs → AreBytes (drop n bs)
AreBytes-drop zero bs h = h
AreBytes-drop (suc n) [] h = tt
AreBytes-drop (suc n) (b ∷ bs) (hb, h) = AreBytes-drop n bs h

-- One record in front of others.
read_image-record :
    (n a : ℕ) (bs rest : List ℕ) (image : List (ℕ × ℕ))
    → length bs ≤ 252
    → AreBytes bs
    → read_image n rest ≡ some image
    → read_image (suc n) (put_record 0x31 a bs ++ rest) ≡ some (place a bs ++ image)
unfolding read_image
read_image-record n a bs rest image le h e =
    ap first (read_record-put_record 0x31 a bs rest le h)
    ∙ ap second e
    ∙ ap (λ (ps : List (ℕ × ℕ)). some (ps ++ image)) (record_image-payload a bs)
  where
    first : Option (ℕ × List ℕ × List ℕ) → Option (List (ℕ × ℕ))
    first o = elim o [
      | none ↦ none
      | some (kind, p, t) ↦ elim (read_image n t) [
        | none ↦ none
        | some i ↦ some (record_image p ++ i)
      ]
    ]

    second : Option (List (ℕ × ℕ)) → Option (List (ℕ × ℕ))
    second o = elim o [ none ↦ none | some i ↦ some (record_image (payload a bs) ++ i) ]

-- For a buffer of bytes, at most as many as the rounds of the loop: as many records as `srec_data`
-- counts are read from what it writes, and they put each byte of the buffer at its address,
-- modulo 2 ^ 16, in the order of the buffer and nothing else.
pub read_image-srec_data :
    (fuel : ℕ) (buf : List ℕ) (address : ℕ)
    → length buf ≤ fuel
    → AreBytes buf
    → read_image (srec_data fuel buf address).1 (srec_data fuel buf address).0
      ≡ some (place address buf)
unfolding srec_data
read_image-srec_data zero [] address le h = unfold read_image place in refl
read_image-srec_data zero (b ∷ buf) address le h = absurd (omega arith)
read_image-srec_data (suc fuel) [] address le h = unfold read_image place in refl
read_image-srec_data (suc fuel) (b ∷ buf) address le h =
    let chunk = take linesize (b ∷ buf) in
    let others = drop linesize (b ∷ buf) in
    let next = (address + length chunk) % 2 ^ 32 in
    let later =
      read_image-srec_data fuel others next (omega (arith, length-drop linesize (b ∷ buf)))
        (AreBytes-drop linesize (b ∷ buf) h) in
    read_image-record (srec_data fuel others next).1 address chunk (srec_data fuel others next).0
      (place next others) (omega (arith, length-take linesize (b ∷ buf)))
      (AreBytes-take linesize (b ∷ buf) h) later
    ∙ ap (λ (ps : List (ℕ × ℕ)). some (place address chunk ++ ps))
        (place-mod next (address + length chunk) others (omega arith))
    ∙ ap some (sym (place-append address chunk others))
    ∙ ap (λ (bs : List ℕ). some (place address bs)) (take-append-drop linesize (b ∷ buf))
