-- ===== src/As/Express/Frame.antt =====
-- as/express.c: an expression leaves the frame of as/scan.c alone and does not go back on the line.
pub mod Levels
use mc6801_tools.Base.{
  ℕ, zero, suc, ◌<◌, ◌≤◌, ◌≡◌, refl, sym, ap, ◌∙◌, Bool, true, false, not, ◌&&◌, Option, none, some,
  length, get_elem?, ◌==◌, if◌then◌else◌, arith, bit_and, bit_or,
}
use mc6801_tools.Base.Bits.{has}
use mc6801_tools.As.Const.{macbit, mnregbit, regbit, relbit, forbit, undbit, segm, impbit}
use mc6801_tools.As.Line.{Address}
use mc6801_tools.As.Asm.{
  Asm, Routine, ◌>>◌, Symbol, error, at_last_pass, set_data, set_offset, macuid, reguid, mnuid,
  unblab, rpexp, facexp, nonimpreq, ErrorCode, eqop, lessthan, greaterthan, addop, subop, orop,
  star, slash, andop, slop, srop, intconst, ident, lparen, notop, rparen,
}
use mc6801_tools.As.Scan.{getsym, context_hexconst}
use mc6801_tools.As.Scan.Frame.{
  Frame, frame, Within, Within-mono, getsym-Within, read_intconst-Within,
}
use mc6801_tools.As.Express.{
  is_bound, put_symbol, symbol_value, ident_factor, const_factor, lc_factor, close_paren, expres_on,
  comparison, simple2, simple_on, simple_rest, term_on, term_rest, factor2, factor_on, expres,
  absexpres, symexpres, symabsexpres, nonimpexpres, expression_fuel,
}
use mc6801_tools.As.Express.Combine.{
  expundefined, experror, chkabs, showrelbad, add_right, sub_is_bad, sub_right, or_right,
  factor2_data, Operator, operate, operator_value, compare_data, compare_result, Relation,
  complement, negate, relseg, not_relseg, in_last_pass, times, over, both, left_by, right_by, equal,
  less, greater,
}

-- A change that leaves the frame and the line alone.
abbrev pub Same : Asm → Asm → Type 0
Same s t = (frame t ≡ frame s) × (t.lineptr ≡ s.lineptr)

abbrev pub Kept : Asm → Option Asm → Type 0
Kept s o = Within (suc (length s.lineptr)) s o

pub if-Same : (s : Asm) (b : Bool) (t u : Asm) → Same s t → Same s u → Same s (if b then t else u)
if-Same s true t u h k = h
if-Same s false t u h k = k

pub Same-Kept : (s t : Asm) → Same s t → Kept s (some t)
Same-Kept s t h = (h.0, simp h.1 (omega arith))

pub Kept-after : (s t : Asm) (o : Option Asm) → Same s t → Kept t o → Kept s o
Kept-after s t none h k = tt
Kept-after s t (some u) h k = (k.0 ∙ h.0, simp (sym h.1) k.1)

pub then-Kept :
    (m k : Routine) (s : Asm) → Kept s (m s) → ((t : Asm) → Kept t (k t)) → Kept s ((m >> k) s)
then-Kept m k s h f = go (m s) h
  where
    go : (o : Option Asm) → Kept s o → Kept s (elim o [ none ↦ none | some t ↦ k t ])
    go none h = tt
    go (some t) h = after (k t) (f t)
      where
        after : (o : Option Asm) → Kept t o → Kept s o
        after none h' = tt
        after (some u) h' = (h'.0 ∙ h.0, omega arith)

pub getsym-Kept : (s : Asm) → Kept s (getsym s)
getsym-Kept s =
    Within-mono (length s.lineptr) (suc (length s.lineptr)) s (getsym s) (omega arith)
      (getsym-Within s)

-- The computations on the value.
pub chkabs-Same : (s : Asm) → Same s (chkabs s)
unfolding chkabs expundefined
chkabs-Same s =
    if-Same s (has s.lastexp.flags relbit) _ _
      (if-Same s (at_last_pass s) _ _ (refl, refl) (refl, refl)) (refl, refl)

pub experror-Same : (e : ErrorCode) (s : Asm) → Same s (experror e s)
unfolding experror expundefined
experror-Same e s = (refl, refl)

pub showrelbad-Same : (s : Asm) → Same s (showrelbad s)
unfolding showrelbad expundefined
showrelbad-Same s = if-Same s (at_last_pass s) _ _ (refl, refl) (refl, refl)

pub add_right-Same : (left : Address) (s : Asm) → Same s (add_right left s)
unfolding add_right
add_right-Same left s =
    if-Same s (has (bit_and left.flags s.lastexp.flags) relbit) _ _ (showrelbad-Same s) (refl, refl)

pub sub_right-Same : (left : Address) (s : Asm) → Same s (sub_right left s)
unfolding sub_right
sub_right-Same left s =
    if-Same s (sub_is_bad left.flags s.lastexp.flags) _ _ (showrelbad-Same s) (refl, refl)

pub or_right-Same : (left : Address) (s : Asm) → Same s (or_right left s)
unfolding or_right
or_right-Same left s = chkabs-Same (set_data (bit_or s.lastexp.flags left.flags) s)

pub factor2_data-Same : (l : ℕ) (s : Asm) → Same s (factor2_data l s)
unfolding factor2_data
factor2_data-Same l s = chkabs-Same (set_data (bit_or s.lastexp.flags l) s)

pub compare_data-Same : (l : ℕ) (s : Asm) → Same s (compare_data l s)
unfolding compare_data
compare_data-Same l s = if-Same s _ _ _ (showrelbad-Same s) (refl, refl)

pub operate-Kept : (op : Operator) (l : ℕ) (s : Asm) → Kept s (operate op l s)
unfolding operate
operate-Kept op l s =
    elim (operator_value op l s.lastexp.offset)
      as (λ o. Kept s (elim o [ none ↦ none | some v ↦ some (set_offset v s) ])) [
        | none ↦ tt
        | some v ↦ (refl, omega arith)
      ]

pub symbol_value-Same : (id : ℕ) (symbol : Symbol) (s : Asm) → Same s (symbol_value id symbol s)
unfolding symbol_value experror expundefined
symbol_value-Same id symbol s = if-Same s (not (at_last_pass s)) early late kept (
    if-Same s (has seen.flags impbit) (set_offset 0 (set_data seen.flags u)) known kept
      (if-Same s (has seen.flags undbit) (experror unblab v) v kept kept))
  where
    seen : Symbol
    seen =
        if not (is_bound symbol) && (s.last_pass == 1)
        then record symbol { flags = bit_or symbol.flags forbit }
        else symbol

    t : Asm
    t = put_symbol id seen s

    named : Asm
    named = record t { lastexp = record t.lastexp { sym = id } }

    u : Asm
    u = if is_bound symbol then t else named

    v : Asm
    v = set_offset seen.value (set_data seen.flags u)

    known : Asm
    known = if has seen.flags undbit then experror unblab v else v

    late : Asm
    late = if has seen.flags impbit then set_offset 0 (set_data seen.flags u) else known

    mask : ℕ
    mask =
        if s.last_pass == 1
        then bit_or (bit_or forbit relbit) (bit_or undbit segm)
        else bit_or relbit (bit_or undbit segm)

    early : Asm
    early = set_offset seen.value (set_data (bit_and seen.flags mask) u)

    kept : Same s u
    kept = if-Same s (is_bound symbol) t named (refl, refl) (refl, refl)

pub ident_factor-Kept : (s : Asm) → Kept s (ident_factor s)
unfolding ident_factor
ident_factor-Kept s =
    elim (s.gsymptr)
      as (λ o. Kept s (elim o [
        | none ↦ none
        | some id ↦ elim (get_elem? s.symbols id) [ none ↦ none | some symbol ↦ decided id symbol ]
      ])) [
        | none ↦ tt
        | some id ↦
            elim (get_elem? s.symbols id)
              as (λ o. Kept s (elim o [ none ↦ none | some symbol ↦ decided id symbol ])) [
                | none ↦ tt
                | some symbol ↦ decided-Kept id symbol (has symbol.kind (bit_or mnregbit macbit))
              ]
      ]
  where
    refused : Symbol → ErrorCode
    refused symbol =
        if has symbol.kind macbit then macuid else if has symbol.flags regbit then reguid else mnuid

    decided : ℕ → Symbol → Option Asm
    decided id symbol =
        if has symbol.kind (bit_or mnregbit macbit)
        then some (experror (refused symbol) s)
        else some (symbol_value id symbol s)

    decided-Kept :
        (id : ℕ) (symbol : Symbol) (b : Bool)
        → Kept s (if b then some (experror (refused symbol) s) else some (symbol_value id symbol s))
    decided-Kept id symbol true =
        Same-Kept s (experror (refused symbol) s) (experror-Same (refused symbol) s)
    decided-Kept id symbol false =
        Same-Kept s (symbol_value id symbol s) (symbol_value-Same id symbol s)

pub const_factor-Kept : (s : Asm) → Kept s (const_factor s)
const_factor-Kept s = getsym-Kept (set_offset s.number (set_data 0 s))

pub lc_factor-Kept : (s : Asm) → Kept s (lc_factor s)
lc_factor-Kept s =
    let t : Asm = set_data s.lcdata (set_offset s.lc s) in
    let u : Asm = if has s.lcdata undbit && at_last_pass s then experror unblab t else t in
    Kept-after s u (getsym u)
      (if-Same s (has s.lcdata undbit && at_last_pass s) _ _ (experror-Same unblab t) (refl, refl))
      (getsym-Kept u)

pub close_paren-Kept : (s : Asm) → Kept s (close_paren s)
close_paren-Kept s =
    elim (s.sym)
      as (λ y.
        Kept s (elim y as (λ _. Option Asm) [ rparen ↦ getsym s | _ ↦ some (error rpexp s) ])) [
          | rparen ↦ getsym-Kept s
          | _ ↦ (refl, omega arith)
        ]
