-- ===== src/As/Pseudo/Strings/RoundTrip.antt =====
-- as/pops.c: how a string of bytes is written between delimiters, and that FCC reads it back.
use mc6801_tools.Base.{
  ℕ, zero, suc, ◌+◌, ◌/◌, ◌%◌, ◌≤◌, ◌<◌, ◌≡◌, ◌≢◌, refl, sym, ap, ◌∙◌, true, false, Option, none,
  some, List, [], ◌∷◌, ◌++◌, append-nil, append_assoc, length, drop, ltb, leb, ◌==◌, if◌then◌else◌,
  arith, ==→eq, ==_refl, ==_ne, Bool-cases, inl, inr, if_true, if_false, length-append,
}
use mc6801_tools.As.Asm.{Asm}
use mc6801_tools.As.Pseudo.Strings.{
  eolchar, Round, byte, stop, octal, is_octal, byte_and_rest, simple_escape, escape, at_delimiter,
  fcc_round, fcc_on, fcc, dofcc, fcbuf_size, fill_fcbuf, show_first, set_mcount, shown, string_read,
}
use mc6801_tools.As.Pseudo.{State}
use mc6801_tools.As.Scan.{getsym}

-- A byte as the line holds it: the delimiter and a backslash are doubled, and a control character is
-- given by three octal digits.
unfoldable pub quote_byte : ℕ → ℕ → List ℕ
quote_byte delimiter b =
    if b == delimiter
    then b ∷ b ∷ []
    else if b == 0x5c
    then 0x5c ∷ 0x5c ∷ []
    else if ltb b 0x20
    then 0x5c ∷ 0x30 ∷ (0x30 + b / 8) ∷ (0x30 + b % 8) ∷ []
    else b ∷ []

unfoldable pub quote : ℕ → List ℕ → List ℕ
unfolding quote_byte
quote delimiter [] = []
quote delimiter (b ∷ bs) = quote_byte delimiter b ++ quote delimiter bs

-- A delimiter that is no backslash and no control character.
abbrev pub IsDelimiter : ℕ → Type 0
IsDelimiter d = (0x20 ≤ d) × (d ≢ 0x5c)

octal_char : (k : ℕ) → k < 8 → is_octal (0x30 + k) ≡ true
octal_char k h = ground arith

octal-reads :
    (b : ℕ) (rest : List ℕ)
    → b < 32
    → octal 0 ((0x30 + b / 8) ∷ (0x30 + b % 8) ∷ rest) ≡ some (b, rest)
unfolding octal
octal-reads b rest h =
    rw (octal_char (b / 8) (omega arith), octal_char (b % 8) (omega arith))
      (ap (λ (x : ℕ). some (x, rest)) (omega arith))

module _ (d : ℕ) (ok : IsDelimiter d) where
  delimiter-reads :
      (b : ℕ) (rest : List ℕ) (s : Asm)
      → b ≡ d
      → fcc_round d (b ∷ b ∷ rest) s ≡ some (byte b rest s)
  unfolding fcc_round at_delimiter
  delimiter-reads b rest s e =
      if_false (b == eolchar) _ _ (==_ne b eolchar (λ h. absurd (omega (arith, ok.0))))
      ∙ if_true (b == d) _ _ (rw e (==_refl d))
      ∙ if_true (b == d) _ _ (rw e (==_refl d))

  backslash-reads : (rest : List ℕ) (s : Asm) → fcc_round d (0x5c ∷ rest) s ≡ escape rest s
  unfolding fcc_round
  backslash-reads rest s = if_false (0x5c == d) _ _ (==_ne 0x5c d (λ h. ok.1 (sym h)))

  control-reads :
      (b : ℕ) (rest : List ℕ) (s : Asm)
      → b < 32
      → fcc_round d (0x5c ∷ 0x30 ∷ (0x30 + b / 8) ∷ (0x30 + b % 8) ∷ rest) s ≡ some (byte b rest s)
  unfolding escape
  control-reads b rest s h =
      backslash-reads (0x30 ∷ (0x30 + b / 8) ∷ (0x30 + b % 8) ∷ rest) s
      ∙ ap (λ o. byte_and_rest o s) (octal-reads b rest h)

  plain-reads :
      (b : ℕ) (rest : List ℕ) (s : Asm)
      → (b == d) ≡ false
      → (b == 0x5c) ≡ false
      → ltb b 0x20 ≡ false
      → fcc_round d (b ∷ rest) s ≡ some (byte b rest s)
  unfolding fcc_round
  plain-reads b rest s h k l =
      if_false (b == eolchar) _ _ (ground (arith, l))
      ∙ if_false (b == d) _ _ h
      ∙ if_false (b == 0x5c) _ _ k
      ∙ if_false (ltb b 0x20) _ _ l

  quote_byte-reads :
      (b : ℕ) (rest : List ℕ) (s : Asm)
      → fcc_round d (quote_byte d b ++ rest) s ≡ some (byte b rest s)
  unfolding quote_byte escape simple_escape
  quote_byte-reads b rest s = elim (Bool-cases (b == d)) [
    | inl h ↦ rw h (delimiter-reads b rest s (==→eq b d h))
    | inr h ↦ elim (Bool-cases (b == 0x5c)) [
      | inl k ↦
          rw (h, k)
            (backslash-reads (0x5c ∷ rest) s
              ∙ ap (λ (x : ℕ). some (byte x rest s)) (sym (==→eq b 0x5c k)))
      | inr k ↦ elim (Bool-cases (ltb b 0x20)) [
        | inl l ↦ rw (h, k, l) (control-reads b rest s (ground (arith, l)))
        | inr l ↦ rw (h, k, l) (plain-reads b rest s h k l)
      ]
    ]
  ]

  end-reads :
      (c : ℕ) (rest : List ℕ) (s : Asm)
      → c ≢ d
      → fcc_round d (d ∷ c ∷ rest) s ≡ some (stop (c ∷ rest) s)
  unfolding fcc_round at_delimiter
  end-reads c rest s h =
      if_false (d == eolchar) _ _ (==_ne d eolchar (λ e. absurd (omega (arith, ok.0))))
      ∙ if_true (d == d) _ _ (==_refl d)
      ∙ if_false (c == d) _ _ (==_ne c d h)

  next : ℕ → List ℕ → Option Round → Option (List ℕ × (List ℕ × Asm))
  next k bytes none = none
  next k bytes (some (stop rest t)) = some (bytes, (rest, t))
  next k bytes (some (byte b rest t)) = fcc_on k d (bytes ++ b ∷ []) rest t

  fcc_on-quote :
      (n : ℕ) (bytes bs : List ℕ) (c : ℕ) (rest : List ℕ) (s : Asm)
      → length bs < n
      → c ≢ d
      → fcc_on n d bytes (quote d bs ++ (d ∷ c ∷ rest)) s ≡ some (bytes ++ bs, (c ∷ rest, s))
  unfolding fcc_on quote next
  fcc_on-quote zero bytes bs c rest s lt h = absurd (omega arith)
  fcc_on-quote (suc n) bytes [] c rest s lt h =
      ap (next n bytes) (end-reads c rest s h)
      ∙ ap (λ (x : List ℕ). some (x, (c ∷ rest, s))) (sym (append-nil bytes))
  fcc_on-quote (suc n) bytes (b ∷ bs) c rest s lt h =
      ap (next n bytes) (
        ap (λ line. fcc_round d line s) (append_assoc (quote_byte d b) (quote d bs) (d ∷ c ∷ rest))
        ∙ quote_byte-reads b (quote d bs ++ (d ∷ c ∷ rest)) s)
      ∙ fcc_on-quote n (bytes ++ b ∷ []) bs c rest s (omega arith) h
      ∙ ap (λ (x : List ℕ). some (x, (c ∷ rest, s))) (append_assoc bytes (b ∷ []) bs)

length-quote_byte : (d b : ℕ) → 1 ≤ length (quote_byte d b)
unfolding quote_byte
length-quote_byte d b = ground arith

length-quote : (d : ℕ) (bs : List ℕ) → length bs ≤ length (quote d bs)
unfolding quote
length-quote d [] = omega arith
length-quote d (b ∷ bs) =
    omega
      (arith, length-append (quote_byte d b) (quote d bs), length-quote_byte d b, length-quote d bs)

fcc-quote :
    (d : ℕ) (bs : List ℕ) (c : ℕ) (rest : List ℕ) (s : Asm)
    → IsDelimiter d
    → c ≢ d
    → fcc (d ∷ (quote d bs ++ (d ∷ c ∷ rest))) s ≡ some (bs, (c ∷ rest, s))
unfolding fcc
fcc-quote d bs c rest s ok h =
    if_false (d == eolchar) _ _ (==_ne d eolchar (λ e. absurd (omega (arith, ok.0))))
    ∙ fcc_on-quote d ok _ [] bs c rest s
        (omega (arith, length-append (quote d bs) (d ∷ c ∷ rest), length-quote d bs)) h

-- FCC reads up to 250 bytes that stand between delimiters back, whatever bytes they are, without a message: they
-- are at the start of the buffer with their number in `mcount`, and the scanner goes on behind the
-- string, where it finds a symbol. The delimiter is no control character and no backslash.
pub dofcc-quote :
    (d : ℕ) (bs : List ℕ) (c : ℕ) (rest : List ℕ) (s : State) (u : Asm)
    → IsDelimiter d
    → c ≢ d
    → length bs ≤ 250
    → s.symname ≡ d ∷ (quote d bs ++ (d ∷ c ∷ rest))
    → getsym (record s.asm { lineptr = c ∷ rest }) ≡ some u
    → (t : State) × (dofcc s ≡ some t)
      × (t.fcbuf ≡ bs ++ drop (length bs) s.fcbuf)
      × (t.mcount ≡ length bs)
      × (t.lineptr ≡ u.lineptr)
      × (t.errors ≡ u.errors)
unfolding dofcc string_read shown
dofcc-quote d bs c rest s u ok h le e f = (
  set_mcount (length bs) (show_first (record (fill_fcbuf bs s) { asm = u })),
  ap (λ line. string_read s (fcc line s.asm)) e
      ∙ ap (string_read s) (fcc-quote d bs c rest s.asm ok h)
      ∙ if_true (leb (length bs) fcbuf_size) _ _ (ground (arith, le))
      ∙ ap (shown (length bs) (fill_fcbuf bs s)) f,
  refl,
  refl,
  refl,
  refl,
)
