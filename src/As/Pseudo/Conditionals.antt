-- ===== src/As/Pseudo/Conditionals.antt =====
-- as/pops.c: IF, IFC, ELSEIF, ELSEIFC, ELSE and ENDIF; `scompare` of as/express.c. The stack grows
-- down from the end of its array: here the top is the head of a list.
pub mod Lines
pub mod Chain
pub mod Nesting
use mc6801_tools.Base.{
  ℕ, zero, suc, ◌-◌, Bool, true, false, not, ◌&&◌, ◌||◌, Option, none, some, List, [], ◌∷◌, length,
  leb, ◌==◌, if◌then◌else◌,
}
use mc6801_tools.Base.Bits.{has}
use mc6801_tools.As.Const.{undbit}
use mc6801_tools.As.Asm.{
  Asm, Routine, Sym, eolsym, lparen, set_data, set_offset, lpexp, comexp, rpexp, elsebad, elseifbad,
  endifbad, ifov,
}
use mc6801_tools.As.Scan.{getsym}
use mc6801_tools.As.Express.{absexpres}
use mc6801_tools.As.Express.Combine.{experror}
use mc6801_tools.As.Pseudo.{State, IfFrame, Pop, ◌>>◌, call, complain}

abbrev pub maxif : ℕ
maxif = 8

-- The first comma, and what stands behind it; or the place of the character that ends the search.
pub data Search : Type 0 where
  found : List ℕ → Search
  missing : List ℕ → Search

unfoldable pub find_comma : List ℕ → Option Search
find_comma [] = none
find_comma (c ∷ cs) =
    let rest = find_comma cs in
    if c == 0x2c
    then some (found cs)
    else if (c == 0) || (c == 0x29)
    then some (missing (c ∷ cs))
    else rest

-- `while (*string1++ == *string2++)`: the characters that differ, and the rest of the second string.
unfoldable pub compare_strings : List ℕ → List ℕ → Option (ℕ × (ℕ × List ℕ))
compare_strings (a ∷ as1) (b ∷ bs) =
    let rest = compare_strings as1 bs in if a == b then rest else some (a, (b, bs))
compare_strings [] bs = none
compare_strings (a ∷ as1) [] = none

-- The search for the parenthesis, which does not stop at the end of the line.
unfoldable pub close_string : List ℕ → Routine
unfolding experror
close_string [] s = none
close_string (c ∷ cs) s =
    let t = if (c == 0) || (c == 0x2c) then experror rpexp (record s { symname = c ∷ cs }) else s in
    let rest = close_string cs t in if c == 0x29 then some (record s { lineptr = cs }) else rest

-- The characters that end the comparison are `a` and `b`.
unfoldable pub compared : ℕ → ℕ → List ℕ → Routine
unfolding close_string
compared a b rest s =
    if b == 0x29
    then some (record (if a == 0x2c then set_offset 1 s else s) { lineptr = rest })
    else close_string rest s

unfoldable pub scompare : Routine
unfolding find_comma compare_strings compared experror
scompare s =
    let t = set_data 0 (set_offset 0 s) in
    elim (t.sym) as (λ _. Option Asm) [
      | lparen ↦ elim (find_comma t.lineptr) [
        | none ↦ none
        | some (missing at) ↦ some (experror comexp (record t { symname = at }))
        | some (found string2) ↦ elim (compare_strings t.lineptr string2) [
          | none ↦ none
          | some (a, (b, rest)) ↦ elim (compared a b rest t) [ none ↦ none | some u ↦ getsym u ]
        ]
      ]
      | _ ↦ some (experror lpexp t)
    ]

-- `while (sym != EOLSYM) getsym();`. A symbol takes at least a character of the line.
unfoldable pub skip_on : ℕ → Routine
unfolding getsym
skip_on zero s = elim (s.sym) as (λ _. Option Asm) [ eolsym ↦ some s | _ ↦ none ]
skip_on (suc n) s = elim (s.sym) as (λ _. Option Asm) [
  | eolsym ↦ some s
  | _ ↦ elim (getsym s) [ none ↦ none | some t ↦ skip_on n t ]
]

unfoldable pub skip_to_eol : Routine
unfolding skip_on
skip_to_eol s = skip_on (length s.lineptr) s

abbrev pub is_true : State → Bool
is_true s = not (has s.lastexp.flags undbit) && not (s.lastexp.offset == 0)

abbrev pub is_false : State → Bool
is_false s = not (has s.lastexp.flags undbit) && (s.lastexp.offset == 0)

abbrev pub set_ifflag : Bool → State → State
set_ifflag b s = record s { asm = record s.asm { ifflag = b } }

-- What the value of the expression decides.
abbrev pub if_decision : State → State
if_decision s = if is_false s then record (set_ifflag false s) { elseflag = true } else s

abbrev pub elseif_decision : State → State
elseif_decision s = if is_true s then record (set_ifflag true s) { elseflag = false } else s

abbrev pub push_if : State → State
push_if s =
    let frame : IfFrame = record { ifflag = s.ifflag; elseflag = s.elseflag } in
    record s { iflevel = suc s.iflevel; ifstak = frame ∷ s.ifstak; elseflag = false }

unfoldable pub doif : Routine → Pop
unfolding skip_to_eol
doif func s =
    if leb maxif s.iflevel
    then some (complain ifov s)
    else if s.ifflag
    then (call func >> (λ t. some (if_decision t))) (push_if s)
    else call skip_to_eol (push_if s)

unfoldable pub doelseif : Routine → Pop
unfolding skip_to_eol
doelseif func s =
    if s.iflevel == 0
    then some (complain elseifbad s)
    else if s.elseflag
    then (call func >> (λ t. some (elseif_decision t))) (set_ifflag false s)
    else call skip_to_eol (set_ifflag false s)

unfoldable pub pif : Pop
unfolding doif absexpres
pif = doif absexpres

unfoldable pub pifc : Pop
unfolding doif scompare
pifc = doif scompare

unfoldable pub pelseif : Pop
unfolding doelseif absexpres
pelseif = doelseif absexpres

unfoldable pub pelsifc : Pop
unfolding doelseif scompare
pelsifc = doelseif scompare

unfoldable pub pelse : Pop
pelse s =
    if s.iflevel == 0
    then some (complain elsebad s)
    else some (record (set_ifflag s.elseflag s) { elseflag = false })

-- A frame that is missing is a read behind the array.
abbrev pub pop_if : Pop
pop_if s = elim (s.ifstak) [
  | [] ↦ none
  | frame ∷ rest ↦ some (record (set_ifflag frame.ifflag s) {
    elseflag = frame.elseflag;
    ifstak = rest;
    iflevel = s.iflevel - 1;
  })
]

unfoldable pub pendif : Pop
pendif s = if s.iflevel == 0 then some (complain endifbad s) else pop_if s
