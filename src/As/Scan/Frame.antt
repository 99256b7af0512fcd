-- ===== src/As/Scan/Frame.antt =====
-- as/scan.c: what a symbol leaves alone, and how much of the line it takes.
use mc6801_tools.Base.{
  ℕ, suc, ◌+◌, ◌-◌, ◌*◌, ◌%◌, ◌≤◌, ◌<◌, ◌≡◌, refl, Bool, true, false, not, ◌||◌, Option, none, some,
  List, [], ◌∷◌, length, take, ◌==◌, leb, if◌then◌else◌, arith, ◌&&◌, ap, inl, inr, lt-or-le,
}
use mc6801_tools.Base.Bits.{checked, checked_at}
use mc6801_tools.As.Asm.{
  Asm, Sym, word, addop, postincop, binconst, charconst, greaterthan, srop, hexconst, ident,
  intconst, lessthan, slop, subop, predecop, whitespace,
}
use mc6801_tools.As.Table.{lookup, lookup_name, lookup_result, find_in_chain, chain, install_symbol}
use mc6801_tools.As.Scan.{
  symofchar, digit, digits, skip_long, read_intconst, base_const, in_ident, end_of_ident,
  one_or_two, char_const, char_number, is_charconst, past_char, int_const, named, identifier,
  symbol_at, is_whitespace, getsym_from, getsym, token,
}

-- What the scanner and the expression handler only read.
pub record Frame : Type 0 where
  pub ifflag : Bool
  pub inidata : ℕ
  pub pass : ℕ
  pub last_pass : ℕ
  pub lc : ℕ
  pub lcdata : ℕ
  pub dirpag : ℕ
  pub mcount : ℕ
  pub opcode : ℕ
  pub postb : ℕ
  pub pcrflag : ℕ

abbrev pub frame : Asm → Frame
frame s = record {
  ifflag = s.ifflag;
  inidata = s.inidata;
  pass = s.pass;
  last_pass = s.last_pass;
  lc = s.lc;
  lcdata = s.lcdata;
  dirpag = s.dirpag;
  mcount = s.mcount;
  opcode = s.opcode;
  postb = s.postb;
  pcrflag = s.pcrflag;
}

-- A result, if there is one, has the frame of `s`, and less than `n` characters of the line.
abbrev pub Within : ℕ → Asm → Option Asm → Type 0
Within n s none = Unit
Within n s (some t) = (frame t ≡ frame s) × (length t.lineptr < n)

abbrev RestWithin {ℓ} : {A : Type ℓ} → ℕ → Option (A × List ℕ) → Type 0
RestWithin n none = Unit
RestWithin n (some (a, rest)) = length rest ≤ n

abbrev LineWithin : ℕ → Option (List ℕ) → Type 0
LineWithin n none = Unit
LineWithin n (some rest) = length rest ≤ n

RestWithin-mono : (n m : ℕ) (o : Option (ℕ × List ℕ)) → n ≤ m → RestWithin n o → RestWithin m o
RestWithin-mono n m none h k = tt
RestWithin-mono n m (some (a, rest)) h k = omega arith

LineWithin-mono : (n m : ℕ) (o : Option (List ℕ)) → n ≤ m → LineWithin n o → LineWithin m o
LineWithin-mono n m none h k = tt
LineWithin-mono n m (some rest) h k = omega arith

pub Within-mono : (n m : ℕ) (s : Asm) (o : Option Asm) → n ≤ m → Within n s o → Within m s o
Within-mono n m s none h k = tt
Within-mono n m s (some t) h k = (k.0, omega arith)

if-Within :
    (n : ℕ) (s : Asm) (b : Bool) (o o' : Option Asm)
    → Within n s o
    → Within n s o'
    → Within n s (if b then o else o')
if-Within n s true o o' h h' = h
if-Within n s false o o' h h' = h'

digits-RestWithin :
    (cs : List ℕ) (numbase number : ℕ) → RestWithin (length cs) (digits numbase number cs)
unfolding digits
digits-RestWithin [] numbase number = tt
digits-RestWithin (c ∷ cs) numbase number =
    elim (digit numbase c)
      as (λ o. RestWithin (suc (length cs)) (elim o [
        | none ↦ some (number, c ∷ cs)
        | some d ↦ digits numbase (if number == 0 then d else (numbase * number + d) % word) cs
      ])) [
        | none ↦ omega arith
        | some d ↦ RestWithin-mono (length cs) (suc (length cs)) _ (omega arith) (
            digits-RestWithin cs numbase (if number == 0 then d else (numbase * number + d) % word))
      ]

length-skip_long : (cs : List ℕ) → length (skip_long cs) ≤ length cs
unfolding skip_long
length-skip_long [] = omega arith
length-skip_long (c ∷ cs) = ground arith

pub read_intconst-Within : (s : Asm) → Within (suc (length s.lineptr)) s (read_intconst s)
unfolding read_intconst
read_intconst-Within s = go _ (digits-RestWithin s.lineptr s.numbase 0)
  where
    go :
        (o : Option (ℕ × List ℕ))
        → RestWithin (length s.lineptr) o
        → Within (suc (length s.lineptr)) s (elim o [
          | none ↦ none
          | some (n, rest) ↦
              some (record s { number = n; lineptr = skip_long rest; sym = intconst })
        ])
    go none h = tt
    go (some (n, rest)) h = (refl, omega (arith, length-skip_long rest))

base_const-Within :
    (numbase : ℕ) (line : List ℕ) (s : Asm)
    → Within (suc (length line)) s (base_const numbase line s)
unfolding base_const
base_const-Within numbase line s =
    read_intconst-Within (record s { numbase = numbase; lineptr = line })

end_of_ident-LineWithin : (cs : List ℕ) → LineWithin (length cs) (end_of_ident cs)
unfolding end_of_ident
end_of_ident-LineWithin [] = tt
end_of_ident-LineWithin (c ∷ cs) =
    elim (in_ident c)
      as (λ b. LineWithin (suc (length cs)) (if b then end_of_ident cs else some (c ∷ cs))) [
        | true ↦ LineWithin-mono (length cs) _ _ (omega arith) (end_of_ident-LineWithin cs)
        | false ↦ omega arith
      ]

lookup_result-frame :
    (name : List ℕ) (s : Asm) (o : Option ℕ)
    → (frame (lookup_result name s o) ≡ frame s)
      × (length (lookup_result name s o).lineptr ≡ length s.lineptr)
unfolding lookup_result install_symbol
lookup_result-frame name s (some id) = (refl, refl)
lookup_result-frame name s none =
    elim (s.ifflag)
      as (λ b.
        (frame (
            if b
            then record (install_symbol name s) { gsymptr = some (length s.symbols) }
            else record s { gsymptr = none })
          ≡ frame s)
        × (length
              (if b
                then record (install_symbol name s) { gsymptr = some (length s.symbols) }
                else record s { gsymptr = none }).lineptr
            ≡ length s.lineptr)) [ true ↦ (refl, refl) | false ↦ (refl, refl) ]

identifier-Within :
    (name rest : List ℕ) (s : Asm) → Within (suc (length rest)) s (identifier name rest s)
unfolding identifier lookup lookup_name
identifier-Within name rest s = go _ (end_of_ident-LineWithin rest)
  where
    go :
        (o : Option (List ℕ))
        → LineWithin (length rest) o
        → Within (suc (length rest)) s (elim o [
          | none ↦ none
          | some behind ↦ some (lookup (record s { sym = ident; symname = name; lineptr = behind }))
        ])
    go none h = tt
    go (some behind) h =
        let t : Asm = record s { sym = ident; symname = name; lineptr = behind } in
        let n = take (length name - length behind) name in
        let (e, f) = lookup_result-frame n t (find_in_chain t.symbols n (chain n t)) in
        (e, omega arith)

one_or_two-Within :
    (one two : Sym) (second : ℕ) (name rest : List ℕ) (s : Asm)
    → Within (suc (length rest)) s (one_or_two one two second name rest s)
unfolding one_or_two
one_or_two-Within one two second name [] s = tt
one_or_two-Within one two second name (c ∷ cs) s =
    if-Within _ s (c == second) _ _ (refl, omega arith) (refl, omega arith)

past_char-LineWithin : (cs : List ℕ) → LineWithin (length cs) (past_char cs)
past_char-LineWithin [] = tt
past_char-LineWithin (c ∷ cs) = ground arith

char_const-Within :
    (name rest : List ℕ) (s : Asm) → Within (suc (length rest)) s (char_const name rest s)
unfolding char_const
char_const-Within name [] s = tt
char_const-Within name (c ∷ []) s = tt
char_const-Within name (c ∷ c' ∷ cs) s =
    go (past_char (if is_charconst c' then c' ∷ cs else c ∷ c' ∷ cs)) (places (is_charconst c'))
  where
    places :
        (b : Bool)
        → LineWithin (suc (suc (length cs))) (past_char (if b then c' ∷ cs else c ∷ c' ∷ cs))
    places true =
        LineWithin-mono (suc (length cs)) (suc (suc (length cs))) (past_char (c' ∷ cs))
          (omega arith) (past_char-LineWithin (c' ∷ cs))
    places false = past_char-LineWithin (c ∷ c' ∷ cs)

    go :
        (o : Option (List ℕ))
        → LineWithin (suc (suc (length cs))) o
        → Within (suc (suc (suc (length cs)))) s (elim o [
          | none ↦ none
          | some line ↦ some (record (record s { number = char_number c }) {
            sym = intconst;
            symname = name;
            lineptr = line;
          })
        ])
    go none h = tt
    go (some line) h = (refl, omega arith)

-- A digit is taken.
abbrev is_int : Sym → Bool
is_int y = elim y as (λ _. Bool) [ intconst ↦ true | _ ↦ false ]

int_char-table : checked 128 (λ c. not (is_int (symofchar c)) || (leb 0x30 c && leb c 0x39)) ≡ true
unfolding checked symofchar
int_char-table = refl

high-whitespace : (c : ℕ) → 128 ≤ c → symofchar c ≡ whitespace
unfolding symofchar
high-whitespace c h = ground arith

int_char : (c : ℕ) → is_int (symofchar c) ≡ true → (leb 0x30 c && leb c 0x39) ≡ true
int_char c h = elim (lt-or-le c 128) [
  | inl lt ↦ ground (arith, checked_at 128 _ c int_char-table lt)
  | inr ge ↦ ground (arith, high-whitespace c ge)
]

digit_10 : (c : ℕ) → (leb 0x30 c && leb c 0x39) ≡ true → digit 10 c ≡ some (c - 0x30)
unfolding digit
digit_10 c h = rw h

decimal-Within :
    (c : ℕ) (rest : List ℕ) (s : Asm)
    → is_int (symofchar c) ≡ true
    → Within (suc (length rest)) s (base_const 10 (c ∷ rest) s)
unfolding base_const read_intconst digits
decimal-Within c rest s h =
    rw (digit_10 c (int_char c h), Within) (go _ (digits-RestWithin rest 10 (c - 0x30)))
  where
    go :
        (o : Option (ℕ × List ℕ))
        → RestWithin (length rest) o
        → Within (suc (length rest)) s (elim o [
          | none ↦ none
          | some (n, rest) ↦ some (record (record s { numbase = 10; lineptr = c ∷ rest }) {
            number = n;
            lineptr = skip_long rest;
            sym = intconst;
          })
        ])
    go none h = tt
    go (some (n, rest)) h = (refl, omega (arith, length-skip_long rest))

int_const-Within :
    (c : ℕ) (rest : List ℕ) (s : Asm)
    → is_int (symofchar c) ≡ true
    → Within (suc (length rest)) s (int_const c (c ∷ rest) rest s)
unfolding int_const
int_const-Within c [] s h = tt
int_const-Within c (c' ∷ cs) s h =
    if-Within _ s (c == 0x30) _ _
      (if-Within _ s ((c' == 0x78) || (c' == 0x58)) _ _
        (Within-mono (suc (length cs)) _ s _ (omega arith)
          (base_const-Within 16 cs (named (c ∷ c' ∷ cs) s)))
        (base_const-Within 8 (c' ∷ cs) (named (c ∷ c' ∷ cs) s)))
      (decimal-Within c (c' ∷ cs) (named (c ∷ c' ∷ cs) s) h)

symbol_at-Within :
    (c : ℕ) (rest : List ℕ) (s : Asm) → Within (suc (length rest)) s (symbol_at c rest s)
unfolding symbol_at
symbol_at-Within c rest s =
    let name = c ∷ rest in
    (elim (symofchar c)
        as (λ y.
          symofchar c ≡ y
          → Within (suc (length rest)) s (elim y as (λ _. Option Asm) [
            | addop ↦ one_or_two addop postincop 0x2b name rest s
            | binconst ↦ base_const 2 rest (named name s)
            | charconst ↦ char_const name rest s
            | greaterthan ↦ one_or_two greaterthan srop 0x3e name rest s
            | hexconst ↦ base_const 16 rest (named name s)
            | ident ↦ identifier name rest s
            | intconst ↦ int_const c name rest s
            | lessthan ↦ one_or_two lessthan slop 0x3c name rest s
            | subop ↦ one_or_two subop predecop 0x2d name rest s
            | t ↦ token t name rest s
          ])) [
            | addop ↦ λ e. one_or_two-Within addop postincop 0x2b name rest s
            | binconst ↦ λ e. base_const-Within 2 rest (named name s)
            | charconst ↦ λ e. char_const-Within name rest s
            | greaterthan ↦ λ e. one_or_two-Within greaterthan srop 0x3e name rest s
            | hexconst ↦ λ e. base_const-Within 16 rest (named name s)
            | ident ↦ λ e. identifier-Within name rest s
            | intconst ↦ λ e. int_const-Within c rest s (ap is_int e)
            | lessthan ↦ λ e. one_or_two-Within lessthan slop 0x3c name rest s
            | subop ↦ λ e. one_or_two-Within subop predecop 0x2d name rest s
            | t ↦ λ e. (refl, omega arith)
          ])
      refl

getsym_from-Within : (line : List ℕ) (s : Asm) → Within (length line) s (getsym_from line s)
unfolding getsym_from
getsym_from-Within [] s = tt
getsym_from-Within (c ∷ rest) s =
    if-Within _ s (is_whitespace c) _ _
      (Within-mono (length rest) _ s _ (omega arith) (getsym_from-Within rest s))
      (symbol_at-Within c rest s)

-- A symbol takes at least one character of the line, and the frame stays.
pub getsym-Within : (s : Asm) → Within (length s.lineptr) s (getsym s)
unfolding getsym
getsym-Within s = getsym_from-Within s.lineptr s
