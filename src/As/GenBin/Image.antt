-- ===== src/As/GenBin/Image.antt =====
-- as/genbin.c: the two passes. The first finds the limits of the image, and the last writes a file that
-- holds, from the lowest address on, what a memory would hold.
use mc6801_tools.Base.{
  ℕ, zero, suc, ◌+◌, ◌-◌, ◌%◌, ◌^◌, ◌≤◌, ◌<◌, ◌≡◌, refl, sym, ap, ◌∙◌, true, false, List, [], ◌∷◌,
  length, get_or, leb, ◌==◌, if◌then◌else◌, arith, Bool-cases, inl, inr, ==→eq, ==_ne, if_true,
  if_false, suc-==, leb_gt, not,
}
use mathlib.Core.Path.{subst}
use mc6801_tools.TypeConv.{char_of}
use mc6801_tools.As.Asm.{word}
use mc6801_tools.As.GenBin.{Bin, write_at, record_limits, seek, write_byte, putbin, putbins}

get_or-write_at :
    (i b : ℕ) (xs : List ℕ) (j : ℕ)
    → get_or (write_at i b xs) j 0 ≡ (if j == i then b else get_or xs j 0)
unfolding write_at
get_or-write_at zero b [] zero = refl
get_or-write_at zero b [] (suc j) = rw (==_ne (suc j) 0 (λ h. absurd (omega (arith, h)))) refl
get_or-write_at zero b (c ∷ cs) zero = refl
get_or-write_at zero b (c ∷ cs) (suc j) = rw (==_ne (suc j) 0 (λ h. absurd (omega (arith, h)))) refl
get_or-write_at (suc i) b [] zero = rw (==_ne 0 (suc i) (λ h. absurd (omega (arith, h)))) refl
get_or-write_at (suc i) b [] (suc j) =
    get_or-write_at i b [] j ∙ ap (λ t. if t then b else 0) (suc-== j i)
get_or-write_at (suc i) b (c ∷ cs) zero = rw (==_ne 0 (suc i) (λ h. absurd (omega (arith, h)))) refl
get_or-write_at (suc i) b (c ∷ cs) (suc j) =
    get_or-write_at i b cs j ∙ ap (λ t. if t then b else get_or cs j 0) (suc-== j i)

-- The last pass, with the file open: its start is the lowest address.
abbrev pub IsWriting : Bin → Type 0
IsWriting s =
    (s.binfil ≡ true) × (s.binaryc ≡ true) × (s.pos + s.binmin ≡ s.binfbuf) × (s.binfbuf < 2 ^ 63)

-- What the file holds for an address.
abbrev pub image : Bin → ℕ → ℕ
image s a = get_or s.file (a - s.binmin) 0

-- Bytes that are stored in a memory, from an address on.
unfoldable pub stores : ℕ → List ℕ → (ℕ → ℕ) → ℕ → ℕ
stores at [] memory a = memory a
stores at (b ∷ bs) memory a = stores (suc at) bs (λ x. if x == at then char_of b else memory x) a

seek-pos :
    (s : Bin)
    → IsWriting s
    → s.binmin ≤ s.binmbuf
    → s.binmbuf < 2 ^ 63
    → seek s ≡ record s { pos = s.binmbuf - s.binmin }
seek-pos s (o, c, p, small) lo hi = elim (Bool-cases (s.binfbuf == s.binmbuf)) [
  | inl e ↦
      let same : s.binfbuf ≡ s.binmbuf = ==→eq s.binfbuf s.binmbuf e in
      if_true (s.binfbuf == s.binmbuf) _ _ e
      ∙ ap (λ k. record s { pos = k }) (omega (arith, p, same))
  | inr e ↦
      let place : (s.pos + (s.binmbuf + (word - s.binfbuf))) % word ≡ s.binmbuf - s.binmin =
        omega (arith, p) in
      if_false (s.binfbuf == s.binmbuf) _ _ e
      ∙ if_false _ _ _
          (ap (leb (2 ^ 63)) place ∙ leb_gt (2 ^ 63) (s.binmbuf - s.binmin) (omega arith))
      ∙ ap (λ k. record s { pos = k }) place
]

putbin-writes :
    (ch : ℕ) (s : Bin)
    → IsWriting s
    → s.binmin ≤ s.binmbuf
    → s.binmbuf < 2 ^ 63
    → putbin ch s ≡ write_byte ch (record s { pos = s.binmbuf - s.binmin })
unfolding putbin
putbin-writes ch s w lo hi =
    if_false (not s.binfil) _ _ (ap not w.0)
    ∙ if_false (not s.binaryc) _ _ (ap not w.1)
    ∙ ap (write_byte ch) (seek-pos s w lo hi)

same_place : (a b lo : ℕ) → lo ≤ a → lo ≤ b → (a - lo == b - lo) ≡ (a == b)
same_place a b lo h k = ground arith

write_byte-image :
    (ch : ℕ) (s : Bin) (a : ℕ)
    → s.binmin ≤ s.binmbuf
    → s.binmin ≤ a
    → image (write_byte ch (record s { pos = s.binmbuf - s.binmin })) a
      ≡ (if a == s.binmbuf then char_of ch else image s a)
write_byte-image ch s a lo h =
    get_or-write_at (s.binmbuf - s.binmin) (char_of ch) s.file (a - s.binmin)
    ∙ ap (λ t. if t then char_of ch else image s a) (same_place a s.binmbuf s.binmin h lo)

stores-cong :
    (bs : List ℕ) (at lo : ℕ) (m m' : ℕ → ℕ)
    → ((x : ℕ) → lo ≤ x → m x ≡ m' x)
    → (a : ℕ) → lo ≤ a
    → stores at bs m a ≡ stores at bs m' a
unfolding stores
stores-cong [] at lo m m' h a k = h a k
stores-cong (b ∷ bs) at lo m m' h a k =
    stores-cong bs (suc at) lo _ _ (λ x l. ap (λ v. if x == at then char_of b else v) (h x l)) a k

-- `u` is in step, and the file has become the image of the memory in which the bytes are stored.
abbrev pub IsWritten : Bin → List ℕ → Bin → Type 0
IsWritten s bs u =
    IsWriting u
    × (u.binmbuf ≡ s.binmbuf + length bs)
    × (u.bwraps ≡ s.bwraps)
    × ((a : ℕ) → s.binmin ≤ a → image u a ≡ stores s.binmbuf bs (image s) a)

-- The file is an image of a memory: writing bytes in the last pass changes what it holds for the addresses
-- from the lowest one on as storing them would, however the addresses moved before. The place in the file
-- stays in step, and no seek is refused.
pub putbins-image :
    (bs : List ℕ) (s : Bin)
    → IsWriting s
    → s.binmin ≤ s.binmbuf
    → s.binmbuf + length bs < 2 ^ 63
    → IsWritten s bs (putbins bs s)
unfolding putbins stores
putbins-image [] s w lo hi = (w, omega arith, refl, λ a h. refl)
putbins-image (b ∷ bs) s w lo hi =
    let t : Bin = write_byte b (record s { pos = s.binmbuf - s.binmin }) in
    let e : putbin b s ≡ t = putbin-writes b s w lo (omega arith) in
    let n : t.binmbuf ≡ suc s.binmbuf = omega arith in
    let (w', p, q, r) =
      putbins-image bs t (w.0, w.1, omega arith, omega arith) (omega (arith, n))
        (omega (arith, n)) in
    subst (λ v. IsWritten s (b ∷ bs) (putbins bs v)) (sym e)
      (
        w',
        p ∙ omega (arith, n),
        q,
        λ a h.
            r a h
            ∙ ap (λ k. stores k bs (image t) a) n
            ∙ stores-cong bs (suc s.binmbuf) s.binmin (image t) _
                (λ x l. write_byte-image b s x lo l) a h,
      )

record_limits-bounds :
    (s : Bin)
    → s.binmbuf + 1 < word
    → ((record_limits s).binmbuf ≡ s.binmbuf + 1)
      × ((record_limits s).binmin ≤ s.binmin)
      × ((record_limits s).binmin ≤ s.binmbuf)
      × (s.binmax ≤ (record_limits s).binmax)
      × (s.binmbuf < (record_limits s).binmax)
      × ((record_limits s).binfil ≡ s.binfil)
      × ((record_limits s).binaryc ≡ s.binaryc)
record_limits-bounds s h = ground arith

putbin-records :
    (ch : ℕ) (s : Bin) → s.binfil ≡ true → s.binaryc ≡ false → putbin ch s ≡ record_limits s
unfolding putbin
putbin-records ch s o c =
    if_false (not s.binfil) _ _ (ap not o) ∙ if_true (not s.binaryc) _ _ (ap not c)

-- The limits that pass 1 has found when it has come from `s` to `t`.
abbrev pub IsLimited : Bin → ℕ → Bin → Type 0
IsLimited s n t =
    (t.binmbuf ≡ s.binmbuf + n)
    × (t.binmin ≤ s.binmin)
    × (s.binmax ≤ t.binmax)
    × ((x : ℕ) → s.binmbuf ≤ x → x < s.binmbuf + n → (t.binmin ≤ x) × (x < t.binmax))

-- The first pass: the limits grow, and the addresses of all bytes lie between them.
pub putbins-limits :
    (bs : List ℕ) (s : Bin)
    → s.binfil ≡ true
    → s.binaryc ≡ false
    → s.binmbuf + length bs < word
    → IsLimited s (length bs) (putbins bs s)
unfolding putbins
putbins-limits [] s o c hi = (omega arith, omega arith, omega arith, λ x h k. absurd (omega arith))
putbins-limits (b ∷ bs) s o c hi =
    let t : Bin = record_limits s in
    let (m, l, l', g, g', f, f') = record_limits-bounds s (omega arith) in
    let (m', k, n, all) = putbins-limits bs t (f ∙ o) (f' ∙ c) (omega (arith, m)) in
    subst (λ v. IsLimited s (suc (length bs)) (putbins bs v)) (sym (putbin-records b s o c))
      (
        omega (arith, m', m),
        omega (arith, k, l),
        omega (arith, n, g),
        λ x h i. within t x (putbins bs t) l' g' k n h i m all,
      )
  where
    within :
        (t : Bin) (x : ℕ) (u : Bin)
        → t.binmin ≤ s.binmbuf
        → s.binmbuf < t.binmax
        → u.binmin ≤ t.binmin
        → t.binmax ≤ u.binmax
        → s.binmbuf ≤ x
        → x < s.binmbuf + suc (length bs)
        → t.binmbuf ≡ s.binmbuf + 1
        → ((y : ℕ) → t.binmbuf ≤ y → y < t.binmbuf + length bs → (u.binmin ≤ y) × (y < u.binmax))
        → (u.binmin ≤ x) × (x < u.binmax)
    within t x u l g k n h i m all = elim (Bool-cases (x == s.binmbuf)) [
      | inl e ↦ let y : x ≡ s.binmbuf = ==→eq x s.binmbuf e in (omega (arith, y), omega (arith, y))
      | inr e ↦ let ne : s.binmbuf < x = ground arith in all x (omega (arith, m)) (omega (arith, m))
    ]
