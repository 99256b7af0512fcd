-- ===== src/As/Express/Frame/Levels.antt =====
-- as/express.c: all levels of the expression handler, by recursion on their fuel.
use mc6801_tools.Base.{ℕ, zero, suc, refl, Option, some, if◌then◌else◌, arith}
use mc6801_tools.Base.Bits.{has}
use mc6801_tools.As.Const.{impbit}
use mc6801_tools.As.Line.{Address}
use mc6801_tools.As.Asm.{
  Asm, ◌>>◌, set_data, set_offset, facexp, nonimpreq, eqop, lessthan, greaterthan, addop, subop,
  orop, star, slash, andop, slop, srop, intconst, ident, lparen, notop,
}
use mc6801_tools.As.Scan.{getsym, context_hexconst}
use mc6801_tools.As.Scan.Frame.{read_intconst-Within}
use mc6801_tools.As.Express.{
  ident_factor, const_factor, lc_factor, close_paren, expres_on, comparison, simple2, simple_on,
  simple_rest, term_on, term_rest, factor2, factor_on, expres, absexpres, symexpres, symabsexpres,
  nonimpexpres, expression_fuel,
}
use mc6801_tools.As.Express.Combine.{
  experror, chkabs, add_right, sub_right, or_right, factor2_data, Operator, operate, compare_data,
  compare_result, Relation, complement, negate, times, over, both, left_by, right_by, equal, less,
  greater,
}
use mc6801_tools.As.Express.Frame.{
  Same, Kept, if-Same, Same-Kept, Kept-after, then-Kept, getsym-Kept, chkabs-Same, experror-Same,
  add_right-Same, sub_right-Same, or_right-Same, factor2_data-Same, compare_data-Same, operate-Kept,
  ident_factor-Kept, const_factor-Kept, lc_factor-Kept, close_paren-Kept,
}

-- The levels, with the fuel that they have.
record Levels (n : ℕ) : Type 0 where
  expres_on-Kept : (s : Asm) → Kept s (expres_on n s)
  comparison-Kept : (s : Asm) → Kept s (comparison n s)
  simple2-Kept : (s : Asm) → Kept s (simple2 n s)
  simple_on-Kept : (s : Asm) → Kept s (simple_on n s)
  simple_rest-Kept : (s : Asm) → Kept s (simple_rest n s)
  term_on-Kept : (s : Asm) → Kept s (term_on n s)
  term_rest-Kept : (s : Asm) → Kept s (term_rest n s)
  factor2-Kept : (s : Asm) → Kept s (factor2 n s)
  factor_on-Kept : (s : Asm) → Kept s (factor_on n s)

no_level : Levels 0
unfolding expres_on
no_level = record {
  expres_on-Kept = λ s. tt;
  comparison-Kept = λ s. tt;
  simple2-Kept = λ s. tt;
  simple_on-Kept = λ s. tt;
  simple_rest-Kept = λ s. tt;
  term_on-Kept = λ s. tt;
  term_rest-Kept = λ s. tt;
  factor2-Kept = λ s. tt;
  factor_on-Kept = λ s. tt;
}

module _ (n : ℕ) (below : Levels n) where
  compared-Kept :
      (relation : Relation) (s : Asm)
      → Kept s ((simple2 n >> (λ t. some (compare_result relation s.lastexp.offset t))) s)
  unfolding compare_result
  compared-Kept relation s =
      then-Kept (simple2 n) _ s (below.simple2-Kept s) (λ t. (refl, omega arith))

  next_expres : (s : Asm) → Kept s (expres_on (suc n) s)
  unfolding expres_on
  next_expres s = then-Kept (simple_on n) _ s (below.simple_on-Kept s) below.comparison-Kept

  next_comparison : (s : Asm) → Kept s (comparison (suc n) s)
  unfolding comparison
  next_comparison s =
      elim (s.sym)
        as (λ y. Kept s (elim y as (λ _. Option Asm) [
          | eqop ↦ (simple2 n >> (λ t. some (compare_result equal s.lastexp.offset t))) s
          | lessthan ↦ (simple2 n >> (λ t. some (compare_result less s.lastexp.offset t))) s
          | greaterthan ↦ (simple2 n >> (λ t. some (compare_result greater s.lastexp.offset t))) s
          | _ ↦ some s
        ])) [
          | eqop ↦ compared-Kept equal s
          | lessthan ↦ compared-Kept less s
          | greaterthan ↦ compared-Kept greater s
          | _ ↦ (refl, omega arith)
        ]

  next_simple2 : (s : Asm) → Kept s (simple2 (suc n) s)
  unfolding simple2
  next_simple2 s = then-Kept getsym _ s (getsym-Kept s) (λ t.
      then-Kept (simple_on n) _ t (below.simple_on-Kept t)
        (λ u. Same-Kept u (compare_data s.lastexp.flags u) (compare_data-Same s.lastexp.flags u)))

  next_simple : (s : Asm) → Kept s (simple_on (suc n) s)
  unfolding simple_on
  next_simple s =
      elim (s.sym)
        as (λ y. Kept s (elim y as (λ _. Option Asm) [
          | addop ↦ simple_rest n (set_data 0 (set_offset 0 s))
          | subop ↦ simple_rest n (set_data 0 (set_offset 0 s))
          | _ ↦ (term_on n >> simple_rest n) s
        ])) [
          | addop ↦ below.simple_rest-Kept (set_data 0 (set_offset 0 s))
          | subop ↦ below.simple_rest-Kept (set_data 0 (set_offset 0 s))
          | _ ↦ then-Kept (term_on n) _ s (below.term_on-Kept s) below.simple_rest-Kept
        ]

  summand-Kept :
      (f : Address → Asm → Asm) (s : Asm)
      → ((a : Address) (t : Asm) → Same t (f a t))
      → Kept s ((getsym >> term_on n >> (λ t. some (f s.lastexp t)) >> simple_rest n) s)
  summand-Kept f s h = then-Kept getsym _ s (getsym-Kept s) (λ t.
      then-Kept (term_on n) _ t (below.term_on-Kept t) (λ u.
        Kept-after u (f s.lastexp u) (simple_rest n (f s.lastexp u)) (h s.lastexp u)
          (below.simple_rest-Kept (f s.lastexp u))))

  next_simple_rest : (s : Asm) → Kept s (simple_rest (suc n) s)
  unfolding simple_rest
  next_simple_rest s =
      elim (s.sym)
        as (λ y. Kept s (elim y as (λ _. Option Asm) [
          | addop ↦ (getsym >> term_on n >> (λ t. some (add_right s.lastexp t)) >> simple_rest n) s
          | subop ↦ (getsym >> term_on n >> (λ t. some (sub_right s.lastexp t)) >> simple_rest n) s
          | orop ↦ (getsym >> term_on n >> (λ t. some (or_right s.lastexp t)) >> simple_rest n) s
          | _ ↦ some s
        ])) [
          | addop ↦ summand-Kept add_right s add_right-Same
          | subop ↦ summand-Kept sub_right s sub_right-Same
          | orop ↦ summand-Kept or_right s or_right-Same
          | _ ↦ (refl, omega arith)
        ]

  next_term : (s : Asm) → Kept s (term_on (suc n) s)
  unfolding term_on
  next_term s = then-Kept (factor_on n) _ s (below.factor_on-Kept s) below.term_rest-Kept

  operand-Kept :
      (op : Operator) (s : Asm)
      → Kept s ((factor2 n >> operate op s.lastexp.offset >> term_rest n) s)
  operand-Kept op s = then-Kept (factor2 n) _ s (below.factor2-Kept s) (λ t.
      then-Kept (operate op s.lastexp.offset) _ t (operate-Kept op s.lastexp.offset t)
        below.term_rest-Kept)

  next_term_rest : (s : Asm) → Kept s (term_rest (suc n) s)
  unfolding term_rest
  next_term_rest s =
      elim (s.sym)
        as (λ y. Kept s (elim y as (λ _. Option Asm) [
          | star ↦ (factor2 n >> operate times s.lastexp.offset >> term_rest n) s
          | slash ↦ (factor2 n >> operate over s.lastexp.offset >> term_rest n) s
          | andop ↦ (factor2 n >> operate both s.lastexp.offset >> term_rest n) s
          | slop ↦ (factor2 n >> operate left_by s.lastexp.offset >> term_rest n) s
          | srop ↦ (factor2 n >> operate right_by s.lastexp.offset >> term_rest n) s
          | _ ↦ some s
        ])) [
          | star ↦ operand-Kept times s
          | slash ↦ operand-Kept over s
          | andop ↦ operand-Kept both s
          | slop ↦ operand-Kept left_by s
          | srop ↦ operand-Kept right_by s
          | _ ↦ (refl, omega arith)
        ]

  next_factor2 : (s : Asm) → Kept s (factor2 (suc n) s)
  unfolding factor2
  next_factor2 s = then-Kept getsym _ s (getsym-Kept s) (λ t.
      then-Kept (factor_on n) _ t (below.factor_on-Kept t)
        (λ u. Same-Kept u (factor2_data s.lastexp.flags u) (factor2_data-Same s.lastexp.flags u)))

  unary-Kept :
      (f : Asm → Asm) (s : Asm)
      → ((t : Asm) → Same t (f t))
      → Kept s ((getsym >> factor_on n >> (λ t. some (f t))) s)
  unary-Kept f s h =
      then-Kept getsym _ s (getsym-Kept s)
        (λ t. then-Kept (factor_on n) _ t (below.factor_on-Kept t) (λ u. Same-Kept u (f u) (h u)))

  next_factor : (s : Asm) → Kept s (factor_on (suc n) s)
  unfolding factor_on context_hexconst complement negate
  next_factor s =
      elim (s.sym)
        as (λ y. Kept s (elim y as (λ _. Option Asm) [
          | slash ↦ (context_hexconst >> const_factor) s
          | intconst ↦ const_factor s
          | ident ↦ (ident_factor >> getsym) s
          | lparen ↦ (getsym >> expres_on n >> close_paren) s
          | notop ↦ (getsym >> factor_on n >> (λ t. some (complement t))) s
          | addop ↦ (getsym >> factor_on n) s
          | subop ↦ (getsym >> factor_on n >> (λ t. some (negate t))) s
          | star ↦ lc_factor s
          | _ ↦ some (experror facexp s)
        ])) [
          | slash ↦
              then-Kept context_hexconst _ s (read_intconst-Within (record s { numbase = 16 }))
                const_factor-Kept
          | intconst ↦ const_factor-Kept s
          | ident ↦ then-Kept ident_factor _ s (ident_factor-Kept s) getsym-Kept
          | lparen ↦
              then-Kept getsym _ s (getsym-Kept s)
                (λ t. then-Kept (expres_on n) _ t (below.expres_on-Kept t) close_paren-Kept)
          | notop ↦ unary-Kept complement s chkabs-Same
          | addop ↦ then-Kept getsym _ s (getsym-Kept s) below.factor_on-Kept
          | subop ↦ unary-Kept negate s chkabs-Same
          | star ↦ lc_factor-Kept s
          | _ ↦ Same-Kept s (experror facexp s) (experror-Same facexp s)
        ]

  next_level : Levels (suc n)
  next_level = record {
    expres_on-Kept = next_expres;
    comparison-Kept = next_comparison;
    simple2-Kept = next_simple2;
    simple_on-Kept = next_simple;
    simple_rest-Kept = next_simple_rest;
    term_on-Kept = next_term;
    term_rest-Kept = next_term_rest;
    factor2-Kept = next_factor2;
    factor_on-Kept = next_factor;
  }

levels : (n : ℕ) → Levels n
levels zero = no_level
levels (suc n) = next_level n (levels n)

pub expres-Kept : (s : Asm) → Kept s (expres s)
unfolding expres
expres-Kept s = (levels (expression_fuel s)).expres_on-Kept s

-- Where the evaluation of an expression has a result, it leaves what the scanner and the expressions only read as
-- it is, the location counter and the passes among it, and does not go back on the line.
pub absexpres-Kept : (s : Asm) → Kept s (absexpres s)
unfolding absexpres
absexpres-Kept s =
    then-Kept expres _ s (expres-Kept s) (λ t. Same-Kept t (chkabs t) (chkabs-Same t))

pub symexpres-Kept : (s : Asm) → Kept s (symexpres s)
unfolding symexpres
symexpres-Kept s = then-Kept getsym _ s (getsym-Kept s) expres-Kept

pub symabsexpres-Kept : (s : Asm) → Kept s (symabsexpres s)
unfolding symabsexpres
symabsexpres-Kept s = then-Kept getsym _ s (getsym-Kept s) absexpres-Kept

pub nonimpexpres-Kept : (s : Asm) → Kept s (nonimpexpres s)
unfolding nonimpexpres
nonimpexpres-Kept s = then-Kept expres _ s (expres-Kept s) (λ t.
    Same-Kept t (if has t.lastexp.flags impbit then experror nonimpreq t else t)
      (if-Same t (has t.lastexp.flags impbit) _ _ (experror-Same nonimpreq t) (refl, refl)))
