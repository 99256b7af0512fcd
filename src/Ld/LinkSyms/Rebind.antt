-- ===== src/Ld/LinkSyms/Rebind.antt =====
-- ld/linksyms.c: a symbol takes another definition.
use mc6801_tools.Base.{
  ℕ, zero, suc, ◌≤◌, ◌<◌, ◌≡◌, ◌≢◌, refl, sym, ap, ◌∙◌, true, false, Option, none, some, List, [],
  ◌∷◌, get_elem?, set, ◌==◌, ==→eq, arith, Bool-cases, inl, inr,
}
use mathlib.Core.Path.{subst}
use mc6801_tools.Ld.LinkSyms.{LinkSymbol, Redefinition, Links, rebind}
use mc6801_tools.Ld.LinkSyms.Reach.{get_elem-set_self}
use mc6801_tools.Ld.LinkSyms.Termination.{Leads}
use mc6801_tools.Ld.LinkSyms.Ranks.{
  module_rank, symbol_rank_of, symbol_rank, IsMade, IsSound, Raises,
}

module _ {ℓ} {A : Type ℓ} where
  get_elem-set_ne :
      (xs : List A) (i j : ℕ) (v : A) → (j == i) ≡ false → get_elem? (set xs i v) j ≡ get_elem? xs j
  get_elem-set_ne [] i j v h = refl
  get_elem-set_ne (x ∷ xs) zero zero v h = absurd (no_path h)
    where
      no_path : true ≢ false
      no_path e = cc
  get_elem-set_ne (x ∷ xs) zero (suc j) v h = refl
  get_elem-set_ne (x ∷ xs) (suc i) zero v h = refl
  get_elem-set_ne (x ∷ xs) (suc i) (suc j) v h = get_elem-set_ne xs i j v (ground (arith, h))

abbrev bound_symbol : Redefinition → LinkSymbol
bound_symbol r = record { modptr = r.rlmodptr; value = r.rlvalue }

module _ (r : Redefinition) (s : Links) (o : IsMade s r) where
  rebound : get_elem? (rebind r s).symbols r.rlsymptr ≡ some (bound_symbol r)
  rebound = get_elem-set_self s.symbols r.rlsymptr (bound_symbol r) o.leads.symbol o.leads.names

  pub rank-rebind : symbol_rank r.rlsymptr (rebind r s) ≡ module_rank r.rlmodptr s
  unfolding symbol_rank_of
  rank-rebind = ap (symbol_rank_of (rebind r s)) rebound

  rank-others :
      (id : ℕ) → (id == r.rlsymptr) ≡ false → symbol_rank id (rebind r s) ≡ symbol_rank id s
  unfolding symbol_rank_of
  rank-others id h =
      ap (symbol_rank_of (rebind r s)) (get_elem-set_ne s.symbols r.rlsymptr id (bound_symbol r) h)
      ∙ same (get_elem? s.symbols id)
    where
      same : (p : Option LinkSymbol) → symbol_rank_of (rebind r s) p ≡ symbol_rank_of s p
      same none = refl
      same (some symbol) = refl

  pub rebind-Raises : symbol_rank r.rlsymptr s < module_rank r.rlmodptr s → Raises s (rebind r s)
  rebind-Raises lt = record {
    modules = refl;
    ranks = λ id. elim (Bool-cases (id == r.rlsymptr)) [
      | inl e ↦
          subst (λ k. symbol_rank k s ≤ symbol_rank k (rebind r s)) (sym (==→eq id r.rlsymptr e))
            (omega (arith, rank-rebind, lt))
      | inr e ↦ omega (arith, rank-others id e)
    ];
  }

  pub rebind-Leads : (id : ℕ) → Leads s id → Leads (rebind r s) id
  rebind-Leads id l = elim (Bool-cases (id == r.rlsymptr)) [
    | inl e ↦ record {
      symbol = bound_symbol r;
      names =
          subst (λ k. get_elem? (rebind r s).symbols k ≡ some (bound_symbol r))
            (sym (==→eq id r.rlsymptr e)) rebound;
      found = o.target;
      at = o.target_at;
    }
    | inr e ↦ record {
      symbol = l.symbol;
      names = get_elem-set_ne s.symbols r.rlsymptr id (bound_symbol r) e ∙ l.names;
      found = l.found;
      at = l.at;
    }
  ]

  pub rebind-IsSound : (q : Redefinition) → IsSound s q → IsSound (rebind r s) q
  rebind-IsSound q p = record {
    flag = p.flag;
    flagged = p.flagged;
    target = p.target;
    target_at = p.target_at;
    leads = rebind-Leads q.rlsymptr p.leads;
  }
