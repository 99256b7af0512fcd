-- ===== src/As/Scan/Returns.antt =====
-- as/scan.c: on a line that ends as a line does, the scanner always returns.
use mc6801_tools.Base.{
  ℕ, ◌+◌, ◌*◌, ◌%◌, ◌≡◌, ◌⊎◌, inl, inr, refl, ap, ◌∙◌, Bool, true, false, ◌||◌, Option, none, some,
  List, [], ◌∷◌, ◌++◌, ◌==◌, if◌then◌else◌, arith, length, take, ◌-◌, ◌<◌,
}
use mc6801_tools.As.Asm.{
  Asm, Sym, word, addop, postincop, binconst, charconst, eolsym, greaterthan, srop, hexconst, ident,
  intconst, lessthan, slop, subop, predecop,
}
use mc6801_tools.As.Table.{lookup, lookup_name, lookup_result, find_in_chain, chain, install_symbol}
use mathlib.Core.Path.{subst}
use mc6801_tools.As.Scan.Frame.{frame, Within, getsym-Within}
use mc6801_tools.As.Scan.{
  symofchar, digit, digits, skip_long, read_intconst, base_const, in_ident, end_of_ident,
  one_or_two, char_const, char_number, is_charconst, past_char, int_const, named, identifier,
  symbol_at, is_whitespace, getsym_from, getsym, token,
}

-- The end of a line: a line feed and the terminating 0.
abbrev pub line_end : List ℕ
line_end = 10 ∷ 0 ∷ []

-- What is left of such a line, where at least the 0 is.
abbrev pub IsEnded : List ℕ → Type 0
IsEnded line = (line ≡ 0 ∷ []) ⊎ ((front : List ℕ) × (line ≡ front ++ line_end))

-- A routine returns, and not behind the line.
abbrev pub Returns : Option Asm → Type 0
Returns o = (t : Asm) × (o ≡ some t) × IsEnded t.lineptr

if-Returns : (b : Bool) (o o' : Option Asm) → Returns o → Returns o' → Returns (if b then o else o')
if-Returns true o o' h k = h
if-Returns false o o' h k = k

no_digit : (base : ℕ) → digit base 10 ≡ none
unfolding digit
no_digit base = ground arith

digits-ended :
    (base n : ℕ) (front : List ℕ)
    → (k : ℕ) × (left : List ℕ) × (digits base n (front ++ line_end) ≡ some (k, left ++ line_end))
unfolding digits
digits-ended base n [] = (n, [], ap step (no_digit base))
  where
    step : Option ℕ → Option (ℕ × List ℕ)
    step o = elim o [
      | none ↦ some (n, line_end)
      | some d ↦ digits base (if n == 0 then d else (base * n + d) % word) (0 ∷ [])
    ]
digits-ended base n (c ∷ front) =
    elim (digit base c)
      as (λ o.
        (k : ℕ) × (left : List ℕ) × ((elim o as (λ _. Option (ℕ × List ℕ)) [
          | none ↦ some (n, c ∷ (front ++ line_end))
          | some d ↦ digits base (if n == 0 then d else (base * n + d) % word) (front ++ line_end)
        ])
          ≡ some (k, left ++ line_end))) [
            | none ↦ (n, c ∷ front, refl)
            | some d ↦ digits-ended base (if n == 0 then d else (base * n + d) % word) front
          ]

skip_long-IsEnded : (front : List ℕ) → IsEnded (skip_long (front ++ line_end))
unfolding skip_long
skip_long-IsEnded [] = inr ([], refl)
skip_long-IsEnded (c ∷ front) =
    elim ((c == 0x4c) || (c == 0x6c))
      as (λ b. IsEnded (if b then front ++ line_end else c ∷ (front ++ line_end))) [
        | true ↦ inr (front, refl)
        | false ↦ inr (c ∷ front, refl)
      ]

pub base_const-Returns :
    (base : ℕ) (front : List ℕ) (s : Asm) → Returns (base_const base (front ++ line_end) s)
unfolding base_const read_intconst
base_const-Returns base front s =
    let (k, left, e) = digits-ended base 0 front in (_, ap step e, skip_long-IsEnded left)
  where
    step : Option (ℕ × List ℕ) → Option Asm
    step o = elim o [
      | none ↦ none
      | some (n, rest) ↦ some (record (record s { numbase = base; lineptr = front ++ line_end }) {
        number = n;
        lineptr = skip_long rest;
        sym = intconst;
      })
    ]

end_of_ident-ended :
    (front : List ℕ)
    → (left : List ℕ) × (end_of_ident (front ++ line_end) ≡ some (left ++ line_end))
unfolding end_of_ident in_ident symofchar
end_of_ident-ended [] = ([], refl)
end_of_ident-ended (c ∷ front) =
    elim (in_ident c)
      as (λ b.
        (left : List ℕ) × ((if b
            then end_of_ident (front ++ line_end)
            else some (c ∷ (front ++ line_end)))
          ≡ some (left ++ line_end))) [
            | true ↦ end_of_ident-ended front
            | false ↦ (c ∷ front, refl)
          ]

lookup_result-lineptr :
    (name : List ℕ) (s : Asm) (o : Option ℕ) → (lookup_result name s o).lineptr ≡ s.lineptr
unfolding lookup_result install_symbol
lookup_result-lineptr name s (some id) = refl
lookup_result-lineptr name s none =
    elim (s.ifflag)
      as (λ b.
        (if b
          then record (install_symbol name s) { gsymptr = some (length s.symbols) }
          else record s { gsymptr = none }).lineptr
        ≡ s.lineptr) [ true ↦ refl | false ↦ refl ]

identifier-Returns :
    (name front : List ℕ) (s : Asm) → Returns (identifier name (front ++ line_end) s)
unfolding identifier lookup lookup_name
identifier-Returns name front s =
    let (left, e) = end_of_ident-ended front in
    let t : Asm = record s { sym = ident; symname = name; lineptr = left ++ line_end } in
    let n = take (length name - length (left ++ line_end)) name in
    (_, ap step e, inr (left, lookup_result-lineptr n t (find_in_chain t.symbols n (chain n t))))
  where
    step : Option (List ℕ) → Option Asm
    step o = elim o [
      | none ↦ none
      | some behind ↦ some (lookup (record s { sym = ident; symname = name; lineptr = behind }))
    ]

one_or_two-Returns :
    (one two : Sym) (second : ℕ) (name front : List ℕ) (s : Asm)
    → Returns (one_or_two one two second name (front ++ line_end) s)
unfolding one_or_two
one_or_two-Returns one two second name [] s =
    if-Returns (10 == second) _ _ (_, refl, inl refl) (_, refl, inr ([], refl))
one_or_two-Returns one two second name (c ∷ front) s =
    if-Returns (c == second) _ _ (_, refl, inr (front, refl)) (_, refl, inr (c ∷ front, refl))

-- Behind a character constant.
past_char-IsEnded :
    (c : ℕ) (front : List ℕ)
    → IsEnded (if c == 0 then c ∷ (front ++ line_end) else front ++ line_end)
past_char-IsEnded c front =
    elim (c == 0) as (λ b. IsEnded (if b then c ∷ (front ++ line_end) else front ++ line_end)) [
      | true ↦ inr (c ∷ front, refl)
      | false ↦ inr (front, refl)
    ]

char_const-Returns :
    (name front : List ℕ) (s : Asm) → Returns (char_const name (front ++ line_end) s)
unfolding char_const symofchar
char_const-Returns name [] s = (_, refl, inl refl)
char_const-Returns name (c ∷ []) s = (_, refl, past_char-IsEnded c [])
char_const-Returns name (c ∷ c' ∷ front) s =
    elim (is_charconst c')
      as (λ b.
        Returns
          (elim (past_char (if b then c' ∷ (front ++ line_end) else c ∷ c' ∷ (front ++ line_end))) [
            | none ↦ none
            | some rest ↦ token intconst name rest (record s { number = char_number c })
          ])) [
            | true ↦ (_, refl, past_char-IsEnded c' front)
            | false ↦ (_, refl, past_char-IsEnded c (c' ∷ front))
          ]

int_const-Returns :
    (c : ℕ) (front : List ℕ) (s : Asm)
    → Returns (int_const c (c ∷ (front ++ line_end)) (front ++ line_end) s)
unfolding int_const
int_const-Returns c [] s =
    if-Returns (c == 0x30) _ _ (base_const-Returns 8 [] (named (c ∷ line_end) s))
      (base_const-Returns 10 (c ∷ []) (named (c ∷ line_end) s))
int_const-Returns c (c' ∷ front) s =
    let t : Asm = named (c ∷ c' ∷ (front ++ line_end)) s in
    if-Returns (c == 0x30) _ _
      (if-Returns ((c' == 0x78) || (c' == 0x58)) _ _ (base_const-Returns 16 front t)
        (base_const-Returns 8 (c' ∷ front) t))
      (base_const-Returns 10 (c ∷ c' ∷ front) t)

symbol_at-Returns : (c : ℕ) (front : List ℕ) (s : Asm) → Returns (symbol_at c (front ++ line_end) s)
unfolding symbol_at
symbol_at-Returns c front s =
    let rest = front ++ line_end in
    let name = c ∷ rest in
    elim (symofchar c)
      as (λ y. Returns (elim y as (λ _. Option Asm) [
        | addop ↦ one_or_two addop postincop 0x2b name rest s
        | binconst ↦ base_const 2 rest (named name s)
        | charconst ↦ char_const name rest s
        | greaterthan ↦ one_or_two greaterthan srop 0x3e name rest s
        | hexconst ↦ base_const 16 rest (named name s)
        | ident ↦ identifier name rest s
        | intconst ↦ int_const c name rest s
        | lessthan ↦ one_or_two lessthan slop 0x3c name rest s
        | subop ↦ one_or_two subop predecop 0x2d name rest s
        | t ↦ token t name rest s
      ])) [
        | addop ↦ one_or_two-Returns addop postincop 0x2b name front s
        | binconst ↦ base_const-Returns 2 front (named name s)
        | charconst ↦ char_const-Returns name front s
        | greaterthan ↦ one_or_two-Returns greaterthan srop 0x3e name front s
        | hexconst ↦ base_const-Returns 16 front (named name s)
        | ident ↦ identifier-Returns name front s
        | intconst ↦ int_const-Returns c front s
        | lessthan ↦ one_or_two-Returns lessthan slop 0x3c name front s
        | subop ↦ one_or_two-Returns subop predecop 0x2d name front s
        | t ↦ (_, refl, inr (front, refl))
      ]

-- A symbol: the end of the line, or one with more of the line behind it.
abbrev pub Scans : Option Asm → Type 0
Scans o = (t : Asm) × (o ≡ some t) × ((t.sym ≡ eolsym) ⊎ IsEnded t.lineptr)

Returns-Scans : (o : Option Asm) → Returns o → Scans o
Returns-Scans o (t, e, h) = (t, e, inr h)

getsym_from-Scans : (front : List ℕ) (s : Asm) → Scans (getsym_from (front ++ line_end) s)
unfolding getsym_from symbol_at symofchar
getsym_from-Scans [] s = (_, refl, inl refl)
getsym_from-Scans (c ∷ front) s =
    elim (is_whitespace c)
      as (λ b.
        Scans
          (if b then getsym_from (front ++ line_end) s else symbol_at c (front ++ line_end) s)) [
            | true ↦ getsym_from-Scans front s
            | false ↦ Returns-Scans _ (symbol_at-Returns c front s)
          ]

nul-Scans : (s : Asm) → Scans (getsym_from (0 ∷ []) s)
unfolding getsym_from symbol_at symofchar
nul-Scans s = (_, refl, inl refl)

pub getsym-Scans : (s : Asm) → IsEnded s.lineptr → Scans (getsym s)
unfolding getsym
getsym-Scans s (inl e) =
    let (t, f, h) = nul-Scans s in (t, ap (λ line. getsym_from line s) e ∙ f, h)
getsym-Scans s (inr (front, e)) =
    let (t, f, h) = getsym_from-Scans front s in (t, ap (λ line. getsym_from line s) e ∙ f, h)

-- On what is left of a line that ends with a line feed and a 0, the scanner returns. It takes at least one character,
-- and stops at an end of the line or leaves a rest that ends so or is the 0; what it only reads stays as it is.
pub getsym-returns :
    (s : Asm)
    → IsEnded s.lineptr
    → (t : Asm) × (getsym s ≡ some t)
      × ((t.sym ≡ eolsym) ⊎ IsEnded t.lineptr)
      × (frame t ≡ frame s)
      × (length t.lineptr < length s.lineptr)
getsym-returns s h =
    let (t, e, k) = getsym-Scans s h in
    let w : Within (length s.lineptr) s (some t) =
      subst (Within (length s.lineptr) s) e (getsym-Within s) in
    (t, e, k, w.0, w.1)
