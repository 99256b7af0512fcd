-- ===== src/Ld/LinkSyms/Ranks.antt =====
-- ld/linksyms.c: a walk along the list of redefinitions raises the classes of symbols only.
use mc6801_tools.Base.{
  ℕ, ◌+◌, ◌%◌, ◌≤◌, ◌≡◌, refl, sym, ap, ◌∙◌, Bool, true, false, Option, none, some, List, [], ◌∷◌,
  length, get_elem?, ltb, if◌then◌else◌, arith,
}
use mc6801_tools.Ld.LinkSyms.{
  LinkModule, LinkSymbol, Redefinition, Links, compare_classes, better_symbol, better_flag,
  is_better,
}
use mc6801_tools.Ld.LinkSyms.Reach.{SameGraph}
use mc6801_tools.Ld.LinkSyms.Termination.{Leads}

-- The class of a module, as the comparison sees it.
unfoldable pub rank_of : Option LinkModule → ℕ
rank_of none = 0
rank_of (some found) = (found.class + 128) % 256

abbrev pub module_rank : ℕ → Links → ℕ
module_rank m s = rank_of (get_elem? s.modules m)

unfoldable pub symbol_rank_of : Links → Option LinkSymbol → ℕ
symbol_rank_of s none = 0
symbol_rank_of s (some symbol) = module_rank symbol.modptr s

abbrev pub symbol_rank : ℕ → Links → ℕ
symbol_rank id s = symbol_rank_of s (get_elem? s.symbols id)

pub symbol_rank-same : (s t : Links) (id : ℕ) → SameGraph s t → symbol_rank id t ≡ symbol_rank id s
unfolding symbol_rank_of
symbol_rank-same s t id h =
    ap (λ ss. symbol_rank_of t (get_elem? ss id)) h.1 ∙ same (get_elem? s.symbols id)
  where
    same : (o : Option LinkSymbol) → symbol_rank_of t o ≡ symbol_rank_of s o
    same none = refl
    same (some symbol) = ap (λ ms. rank_of (get_elem? ms symbol.modptr)) h.0

pub symbol_rank-Leads :
    (s : Links) (id : ℕ) (l : Leads s id) → symbol_rank id s ≡ (l.found.class + 128) % 256
unfolding rank_of symbol_rank_of
symbol_rank-Leads s id l = ap (symbol_rank_of s) l.names ∙ ap rank_of l.at

-- A redefinition of a symbol that leads to a module, in a module.
pub record IsMade (s : Links) (r : Redefinition) : Type 0 where
  pub target : LinkModule
  pub target_at : get_elem? s.modules r.rlmodptr ≡ some target
  pub leads : Leads s r.rlsymptr

-- A redefinition that a walk can follow.
pub record IsSound (s : Links) (r : Redefinition) : Type 0 where
  pub flag : Bool
  pub flagged : get_elem? s.loadflags r.rlmodptr ≡ some flag
  pub target : LinkModule
  pub target_at : get_elem? s.modules r.rlmodptr ≡ some target
  pub leads : Leads s r.rlsymptr

pub IsSound-IsMade : (s : Links) (r : Redefinition) → IsSound s r → IsMade s r
IsSound-IsMade s r o = record { target = o.target; target_at = o.target_at; leads = o.leads }

pub module_rank-IsSound :
    (s : Links) (r : Redefinition) (o : IsSound s r)
    → module_rank r.rlmodptr s ≡ (o.target.class + 128) % 256
unfolding rank_of
module_rank-IsSound s r o = ap rank_of o.target_at

-- What the test decides.
pub is_better-ranks :
    (s : Links) (r : Redefinition) (o : IsSound s r)
    → is_better r s ≡ (
        if o.flag
        then some (ltb (symbol_rank r.rlsymptr s) (module_rank r.rlmodptr s))
        else some false)
unfolding is_better better_flag better_symbol compare_classes
is_better-ranks s r o = ap (better_flag r s) o.flagged ∙ go o.flag
  where
    go :
        (b : Bool)
        → better_flag r s (some b) ≡ (
            if b
            then some (ltb (symbol_rank r.rlsymptr s) (module_rank r.rlmodptr s))
            else some false)
    go false = refl
    go true =
        ap (better_symbol r s) o.leads.names
        ∙ ap (λ t. compare_classes t (get_elem? s.modules o.leads.symbol.modptr)) o.target_at
        ∙ ap (compare_classes (some o.target)) o.leads.at
        ∙ ap (λ k. some (ltb k ((o.target.class + 128) % 256)))
            (sym (symbol_rank-Leads s r.rlsymptr o.leads))
        ∙ ap (λ k. some (ltb (symbol_rank r.rlsymptr s) k)) (sym (module_rank-IsSound s r o))

-- A redefinition that would raise the class of its symbol, counted.
abbrev pub gain : Links → Redefinition → ℕ
gain s r = if ltb (symbol_rank r.rlsymptr s) (module_rank r.rlmodptr s) then 1 else 0

unfoldable pub gains : Links → List Redefinition → ℕ
gains s [] = 0
gains s (r ∷ rs) = gain s r + gains s rs

-- All but the symbols stays, and no class of a symbol falls.
pub record Raises (s t : Links) : Type 0 where
  pub modules : t.modules ≡ s.modules
  pub ranks : (id : ℕ) → symbol_rank id s ≤ symbol_rank id t

pub Raises-self : (s : Links) → Raises s s
Raises-self s = record { modules = refl; ranks = λ id. omega arith }

pub Raises-trans : (s t u : Links) → Raises s t → Raises t u → Raises s u
Raises-trans s t u p q = record {
  modules = q.modules ∙ p.modules;
  ranks = λ id. omega (arith, p.ranks id, q.ranks id);
}

pub gain_falls : (s t : Links) (r : Redefinition) → Raises s t → gain t r ≤ gain s r
gain_falls s t r p =
    less (p.ranks r.rlsymptr) (ap (λ ms. rank_of (get_elem? ms r.rlmodptr)) p.modules)
  where
    less : {a b c d : ℕ} → a ≤ b → d ≡ c → (if ltb b d then 1 else 0) ≤ (if ltb a c then 1 else 0)
    less h k = ground (arith, h, k)

pub gains_fall : (s t : Links) (rs : List Redefinition) → Raises s t → gains t rs ≤ gains s rs
unfolding gains
gains_fall s t [] p = omega arith
gains_fall s t (r ∷ rs) p = omega (arith, gain_falls s t r p, gains_fall s t rs p)

pub gains_bound : (s : Links) (rs : List Redefinition) → gains s rs ≤ length rs
unfolding gains
gains_bound s [] = omega arith
gains_bound s (r ∷ rs) =
    omega (arith, gains_bound s rs, one (ltb (symbol_rank r.rlsymptr s) (module_rank r.rlmodptr s)))
  where
    one : (b : Bool) → (if b then 1 else 0) ≤ 1
    one true = omega arith
    one false = omega arith
