-- ===== src/As/Express.antt =====
-- as/express.c: the expression handler, with the value of an expression in `lastexp`.
pub mod Combine
pub mod Frame
pub mod Flags
pub mod Relocation
use mc6801_tools.Base.{
  ℕ, zero, suc, ◌+◌, ◌*◌, Bool, true, false, not, ◌&&◌, Option, none, some, length, get_elem?, set,
  ◌==◌, if◌then◌else◌, bit_and, bit_or,
}
use mc6801_tools.Base.Bits.{has}
use mc6801_tools.As.Const.{
  labit, varbit, macbit, mnregbit, regbit, relbit, forbit, impbit, undbit, segm,
}
use mc6801_tools.As.Line.{Address}
use mc6801_tools.As.Asm.{
  Asm, Routine, ◌>>◌, nothing, error, at_last_pass, set_data, set_offset, Symbol, Sym, ident,
  intconst, addop, subop, orop, star, slash, andop, slop, srop, eqop, lessthan, greaterthan, lparen,
  rparen, notop, macuid, reguid, mnuid, unblab, rpexp, facexp, nonimpreq,
}
use mc6801_tools.As.Scan.{getsym, context_hexconst}
use mc6801_tools.As.Express.Combine.{
  expundefined, chkabs, showrelbad, experror, add_right, sub_right, or_right, factor2_data,
  Operator, times, over, both, left_by, right_by, operate, compare_data, compare_result, Relation,
  equal, less, greater, complement, negate,
}

-- A symbol whose label is not known yet.
abbrev pub is_bound : Symbol → Bool
is_bound symbol = has symbol.kind (bit_or labit varbit)

abbrev pub put_symbol : ℕ → Symbol → Asm → Asm
put_symbol id symbol s = record s { symbols = set s.symbols id symbol }

-- Flags and value of an identifier. `lastexp.sym` names it unless it is a label or a variable.
unfoldable pub symbol_value : ℕ → Symbol → Asm → Asm
unfolding experror
symbol_value id symbol s =
    let early = s.last_pass == 1 in
    let seen =
      if not (is_bound symbol) && early
      then record symbol { flags = bit_or symbol.flags forbit }
      else symbol in
    let t = put_symbol id seen s in
    let u = if is_bound symbol then t else record t { lastexp = record t.lastexp { sym = id } } in
    if not (at_last_pass s)
    then (let mask =
          if early
          then bit_or (bit_or forbit relbit) (bit_or undbit segm)
          else bit_or relbit (bit_or undbit segm) in
        set_offset seen.value (set_data (bit_and seen.flags mask) u))
    else if has seen.flags impbit
    then set_offset 0 (set_data seen.flags u)
    else (let v = set_offset seen.value (set_data seen.flags u) in
        if has seen.flags undbit then experror unblab v else v)

unfoldable pub ident_factor : Asm → Option Asm
unfolding symbol_value experror
ident_factor s = elim (s.gsymptr) [
  | none ↦ none
  | some id ↦ elim (get_elem? s.symbols id) [
    | none ↦ none
    | some symbol ↦
        if has symbol.kind (bit_or mnregbit macbit)
        then some (
            experror
              (if has symbol.kind macbit
                then macuid
                else if has symbol.flags regbit
                then reguid
                else mnuid)
              s)
        else some (symbol_value id symbol s)
  ]
]

abbrev pub const_factor : Routine
const_factor s = getsym (set_offset s.number (set_data 0 s))

abbrev pub lc_factor : Routine
lc_factor s =
    let t = set_data s.lcdata (set_offset s.lc s) in
    getsym (if has s.lcdata undbit && at_last_pass s then experror unblab t else t)

abbrev pub close_paren : Routine
close_paren s = elim (s.sym) as (λ _. Option Asm) [ rparen ↦ getsym s | _ ↦ some (error rpexp s) ]

-- The four levels of an expression, on fuel: every level takes one.
unfoldable mutual
  pub expres_on : ℕ → Routine
  expres_on zero s = none
  expres_on (suc n) s = (simple_on n >> comparison n) s

  pub comparison : ℕ → Routine
  comparison zero s = none
  comparison (suc n) s = elim (s.sym) as (λ _. Option Asm) [
    | eqop ↦ (simple2 n >> (λ t. some (compare_result equal s.lastexp.offset t))) s
    | lessthan ↦ (simple2 n >> (λ t. some (compare_result less s.lastexp.offset t))) s
    | greaterthan ↦ (simple2 n >> (λ t. some (compare_result greater s.lastexp.offset t))) s
    | _ ↦ some s
  ]

  pub simple2 : ℕ → Routine
  simple2 zero s = none
  simple2 (suc n) s = (getsym >> simple_on n >> (λ t. some (compare_data s.lastexp.flags t))) s

  pub simple_on : ℕ → Routine
  simple_on zero s = none
  simple_on (suc n) s = elim (s.sym) as (λ _. Option Asm) [
    | addop ↦ simple_rest n (set_data 0 (set_offset 0 s))
    | subop ↦ simple_rest n (set_data 0 (set_offset 0 s))
    | _ ↦ (term_on n >> simple_rest n) s
  ]

  pub simple_rest : ℕ → Routine
  simple_rest zero s = none
  simple_rest (suc n) s = elim (s.sym) as (λ _. Option Asm) [
    | addop ↦ (getsym >> term_on n >> (λ t. some (add_right s.lastexp t)) >> simple_rest n) s
    | subop ↦ (getsym >> term_on n >> (λ t. some (sub_right s.lastexp t)) >> simple_rest n) s
    | orop ↦ (getsym >> term_on n >> (λ t. some (or_right s.lastexp t)) >> simple_rest n) s
    | _ ↦ some s
  ]

  pub term_on : ℕ → Routine
  term_on zero s = none
  term_on (suc n) s = (factor_on n >> term_rest n) s

  pub term_rest : ℕ → Routine
  term_rest zero s = none
  term_rest (suc n) s = elim (s.sym) as (λ _. Option Asm) [
    | star ↦ (factor2 n >> operate times s.lastexp.offset >> term_rest n) s
    | slash ↦ (factor2 n >> operate over s.lastexp.offset >> term_rest n) s
    | andop ↦ (factor2 n >> operate both s.lastexp.offset >> term_rest n) s
    | slop ↦ (factor2 n >> operate left_by s.lastexp.offset >> term_rest n) s
    | srop ↦ (factor2 n >> operate right_by s.lastexp.offset >> term_rest n) s
    | _ ↦ some s
  ]

  pub factor2 : ℕ → Routine
  factor2 zero s = none
  factor2 (suc n) s = (getsym >> factor_on n >> (λ t. some (factor2_data s.lastexp.flags t))) s

  pub factor_on : ℕ → Routine
  factor_on zero s = none
  factor_on (suc n) s = elim (s.sym) as (λ _. Option Asm) [
    | slash ↦ (context_hexconst >> const_factor) s
    | intconst ↦ const_factor s
    | ident ↦ (ident_factor >> getsym) s
    | lparen ↦ (getsym >> expres_on n >> close_paren) s
    | notop ↦ (getsym >> factor_on n >> (λ t. some (complement t))) s
    | addop ↦ (getsym >> factor_on n) s
    | subop ↦ (getsym >> factor_on n >> (λ t. some (negate t))) s
    | star ↦ lc_factor s
    | _ ↦ some (experror facexp s)
  ]

-- There are fewer than 16 calls from one character that is read to the next.
abbrev pub expression_fuel : Asm → ℕ
expression_fuel s = 16 * suc (length s.lineptr)

unfoldable pub expres : Routine
unfolding expres_on
expres s = expres_on (expression_fuel s) s

unfoldable pub symexpres : Routine
unfolding expres
symexpres = getsym >> expres

unfoldable pub absexpres : Routine
unfolding expres
absexpres = expres >> (λ s. some (chkabs s))

unfoldable pub symabsexpres : Routine
unfolding absexpres
symabsexpres = getsym >> absexpres

unfoldable pub nonimpexpres : Routine
unfolding expres experror
nonimpexpres =
    expres >> (λ s. some (if has s.lastexp.flags impbit then experror nonimpreq s else s))
