-- ===== src/As/Scan.antt =====
-- as/scan.c: the lexical analyser. A char is signed, so that a byte of 128 or more compares below
-- every character of the ASCII range.
pub mod Numbers
pub mod Frame
pub mod Returns
use mc6801_tools.Base.{
  ℕ, ◌+◌, ◌-◌, ◌*◌, ◌%◌, Bool, true, false, not, ◌&&◌, ◌||◌, Option, none, some, List, [], ◌∷◌,
  get_elem?, ltb, leb, ◌==◌, if◌then◌else◌,
}
use mc6801_tools.As.Asm.{
  Asm, Routine, Sym, ident, intconst, addop, andop, binconst, charconst, colon, comma, eolsym, eqop,
  greaterthan, hexconst, immediate, indirect, lbracket, lessthan, lparen, macroarg, notop, orop,
  othersym, postincop, predecop, rbracket, rparen, slash, slop, srop, star, stringconst, subop,
  whitespace, word,
}
use mc6801_tools.As.Table.{lookup}

abbrev between : ℕ → ℕ → ℕ → Bool
between lo hi c = leb lo c && leb c hi

-- The rows of `symofchar` that are not white space.
abbrev punctuation_1 : List Sym
punctuation_1 =
    eolsym ∷ stringconst ∷ immediate ∷ hexconst ∷ binconst ∷ andop ∷ charconst ∷ lparen ∷ rparen
    ∷ star ∷ addop ∷ comma ∷ subop ∷ ident ∷ slash ∷ []

abbrev punctuation_2 : List Sym
punctuation_2 = colon ∷ eolsym ∷ lessthan ∷ eqop ∷ greaterthan ∷ macroarg ∷ indirect ∷ []

abbrev punctuation_3 : List Sym
punctuation_3 = lbracket ∷ othersym ∷ rbracket ∷ othersym ∷ ident ∷ othersym ∷ []

abbrev punctuation_4 : List Sym
punctuation_4 = othersym ∷ orop ∷ othersym ∷ notop ∷ othersym ∷ []

abbrev nth_sym : List Sym → ℕ → Sym
nth_sym table i = elim (get_elem? table i) [ none ↦ whitespace | some s ↦ s ]

-- The table `symofchar`.
unfoldable pub symofchar : ℕ → Sym
symofchar c =
    if (c == 0) || (c == 10)
    then eolsym
    else if leb c 0x20
    then whitespace
    else if leb c 0x2f
    then nth_sym punctuation_1 (c - 0x21)
    else if leb c 0x39
    then intconst
    else if leb c 0x40
    then nth_sym punctuation_2 (c - 0x3a)
    else if leb c 0x5a
    then ident
    else if leb c 0x60
    then nth_sym punctuation_3 (c - 0x5b)
    else if leb c 0x7a
    then ident
    else if leb c 0x7f
    then nth_sym punctuation_4 (c - 0x7b)
    else whitespace

-- The value of a digit, or `none` at a character that ends the number.
unfoldable pub digit : ℕ → ℕ → Option ℕ
digit numbase c =
    if between 0x30 0x39 c
    then some (c - 0x30)
    else if not (numbase == 16)
    then none
    else if between 0x61 0x66 c
    then some (c - 0x61 + 10)
    else if between 0x41 0x46 c
    then some (c - 0x41 + 10)
    else none

-- The loop of `intconst`, which stops at the terminating 0 at the latest. `none` is a read behind
-- the line.
unfoldable pub digits : ℕ → ℕ → List ℕ → Option (ℕ × List ℕ)
unfolding digit
digits numbase number [] = none
digits numbase number (c ∷ cs) = elim (digit numbase c) [
  | none ↦ some (number, c ∷ cs)
  | some d ↦ digits numbase (if number == 0 then d else (numbase * number + d) % word) cs
]

-- An L behind the number is skipped.
unfoldable pub skip_long : List ℕ → List ℕ
skip_long [] = []
skip_long (c ∷ cs) = if (c == 0x4c) || (c == 0x6c) then cs else c ∷ cs

unfoldable pub read_intconst : Routine
unfolding digits skip_long
read_intconst s = elim (digits s.numbase 0 s.lineptr) [
  | none ↦ none
  | some (n, rest) ↦ some (record s { number = n; lineptr = skip_long rest; sym = intconst })
]

unfoldable pub context_hexconst : Routine
unfolding read_intconst
context_hexconst s = read_intconst (record s { numbase = 16 })

-- A constant in a base, from a place on the line.
unfoldable pub base_const : ℕ → List ℕ → Routine
unfolding read_intconst
base_const numbase line s = read_intconst (record s { numbase = numbase; lineptr = line })

unfoldable pub in_ident : ℕ → Bool
unfolding symofchar
in_ident c = elim (symofchar c) as (λ _. Bool) [ ident ↦ true | intconst ↦ true | _ ↦ false ]

unfoldable pub end_of_ident : List ℕ → Option (List ℕ)
unfolding in_ident
end_of_ident [] = none
end_of_ident (c ∷ cs) = let rest = end_of_ident cs in if in_ident c then rest else some (c ∷ cs)

abbrev pub token : Sym → List ℕ → List ℕ → Routine
token t name rest s = some (record s { sym = t; symname = name; lineptr = rest })

-- A symbol of one character, or of two.
unfoldable pub one_or_two : Sym → Sym → ℕ → List ℕ → List ℕ → Routine
one_or_two one two second name [] s = none
one_or_two one two second name (c ∷ cs) s =
    if c == second then token two name cs s else token one name (c ∷ cs) s

-- The character as a `number`: a negative char converts to an offset of 64 bits.
unfoldable pub char_number : ℕ → ℕ
char_number c = if leb 128 c then c + (word - 256) else if ltb c 0x20 then 0x20 else c

abbrev pub is_charconst : ℕ → Bool
is_charconst c = elim (symofchar c) as (λ _. Bool) [ charconst ↦ true | _ ↦ false ]

abbrev pub past_char : List ℕ → Option (List ℕ)
past_char [] = none
past_char (c ∷ cs) = some (if c == 0 then c ∷ cs else cs)

-- `case CHARCONST`: a closing quote is optional. The character behind is read.
unfoldable pub char_const : List ℕ → List ℕ → Routine
unfolding char_number
char_const name (c ∷ c' ∷ cs) s =
    elim (past_char (if is_charconst c' then c' ∷ cs else c ∷ c' ∷ cs)) [
      | none ↦ none
      | some rest ↦ token intconst name rest (record s { number = char_number c })
    ]
char_const name (c ∷ []) s = none
char_const name [] s = none

abbrev pub named : List ℕ → Asm → Asm
named name s = record s { symname = name }

-- `case INTCONST`: a leading 0 makes it octal, and 0x hexadecimal.
unfoldable pub int_const : ℕ → List ℕ → List ℕ → Routine
unfolding base_const
int_const c name [] s = none
int_const c name (c' ∷ cs) s =
    if c == 0x30
    then (if (c' == 0x78) || (c' == 0x58)
        then base_const 16 cs (named name s)
        else base_const 8 (c' ∷ cs) (named name s))
    else base_const 10 name (named name s)

unfoldable pub identifier : List ℕ → List ℕ → Routine
unfolding end_of_ident
identifier name rest s = elim (end_of_ident rest) [
  | none ↦ none
  | some behind ↦ some (lookup (record s { sym = ident; symname = name; lineptr = behind }))
]

-- What stands at `c`, which is not white space.
unfoldable pub symbol_at : ℕ → List ℕ → Routine
unfolding one_or_two base_const char_const int_const identifier
symbol_at c rest s =
    let name = c ∷ rest in
    elim (symofchar c) as (λ _. Option Asm) [
      | addop ↦ one_or_two addop postincop 0x2b name rest s
      | binconst ↦ base_const 2 rest (named name s)
      | charconst ↦ char_const name rest s
      | greaterthan ↦ one_or_two greaterthan srop 0x3e name rest s
      | hexconst ↦ base_const 16 rest (named name s)
      | ident ↦ identifier name rest s
      | intconst ↦ int_const c name rest s
      | lessthan ↦ one_or_two lessthan slop 0x3c name rest s
      | subop ↦ one_or_two subop predecop 0x2d name rest s
      | t ↦ token t name rest s
    ]

abbrev pub is_whitespace : ℕ → Bool
is_whitespace c = elim (symofchar c) as (λ _. Bool) [ whitespace ↦ true | _ ↦ false ]

-- `getsym` from a place on the line.
unfoldable pub getsym_from : List ℕ → Routine
unfolding symbol_at
getsym_from [] s = none
getsym_from (c ∷ rest) s =
    let behind = getsym_from rest s in if is_whitespace c then behind else symbol_at c rest s

unfoldable pub getsym : Routine
unfolding getsym_from
getsym s = getsym_from s.lineptr s
