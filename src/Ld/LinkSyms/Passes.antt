-- ===== src/Ld/LinkSyms/Passes.antt =====
-- ld/linksyms.c: the passes come to an end.
use mc6801_tools.Base.{
  ℕ, zero, suc, ◌<◌, ◌≡◌, ◌↔◌, refl, sym, ap, ◌∙◌, Bool, true, false, Option, none, some, List, [],
  ◌∷◌, length, get_elem?, All, arith,
}
use mc6801_tools.Ld.LinkSyms.{
  Redefinition, Links, ScriptRoot, keeps, asserts, Linking, then_link, all_modules, is_better,
  walk_redlist, linksyms_on, linksyms, enter_main,
}
use mc6801_tools.Ld.LinkSyms.Reach.{Loaded, SameGraph, IsFlagged, same_places}
use mc6801_tools.Ld.LinkSyms.Termination.{Leads, Leads-same}
use mc6801_tools.Ld.LinkSyms.Roots.{FromSymbol-same, IsRoot, FromRoot-same}
use mc6801_tools.Ld.LinkSyms.Pass.{
  IsReady, IsReached, by_entry, by_script, by_start, link_roots-loads,
}
use mc6801_tools.Ld.LinkSyms.Ranks.{
  IsMade, IsSound, gains, gains_fall, gains_bound, symbol_rank-same, Raises, Raises-trans,
}
use mc6801_tools.Ld.LinkSyms.Walk.{Walked, walk_redlist-Walked}
use mc6801_tools.Ld.LinkSyms.Frame.{link_roots-OnlyFlags}

-- The modules, the roots and what symbols lead to.
record Follows (s t : Links) : Type 0 where
  modules : t.modules ≡ s.modules
  entries : t.entries ≡ s.entries
  script_roots : t.script_roots ≡ s.script_roots
  start : t.start ≡ s.start
  leads : (id : ℕ) → Leads s id → Leads t id

Follows-IsRoot : (s t : Links) → Follows s t → (root : ScriptRoot) → IsRoot s root → IsRoot t root
Follows-IsRoot s t f (keeps m) v = (v.0, ap (λ ms. get_elem? ms m) f.modules ∙ v.1)
Follows-IsRoot s t f (asserts id) v = f.leads id v

Follows-IsReady : (s t : Links) → Follows s t → IsReady s → IsReady t
Follows-IsReady s t f r = record {
  entry = r.entry;
  others = r.others;
  entries = f.entries ∙ r.entries;
  entries_lead =
      λ i id a. f.leads id (r.entries_lead i id (sym (ap (λ xs. get_elem? xs i) f.entries) ∙ a));
  script_leads = λ i root a.
      Follows-IsRoot s t f root
        (r.script_leads i root (sym (ap (λ xs. get_elem? xs i) f.script_roots) ∙ a));
  start_leads = λ id a. f.leads id (r.start_leads id (sym f.start ∙ a));
  leads = λ m found i id a b.
      f.leads id (r.leads m found i id (sym (ap (λ ms. get_elem? ms m) f.modules) ∙ a) b);
}

IsReached-same :
    (s t : Links) (x : ℕ)
    → SameGraph t s
    → t.entries ≡ s.entries
    → t.script_roots ≡ s.script_roots
    → t.start ≡ s.start
    → IsReached s x
    → IsReached t x
IsReached-same s t x h a b c (by_entry i id e f) =
    by_entry i id (ap (λ xs. get_elem? xs i) a ∙ e) (FromSymbol-same t s id x h f)
IsReached-same s t x h a b c (by_script i root e f) =
    by_script i root (ap (λ xs. get_elem? xs i) b ∙ e) (FromRoot-same t s root x h f)
IsReached-same s t x h a b c (by_start id e f) = by_start id (c ∙ e) (FromSymbol-same t s id x h f)

SameGraph-Raises : (s t : Links) → SameGraph s t → Raises s t
SameGraph-Raises s t h = record {
  modules = h.0;
  ranks = λ id. omega (arith, symbol_rank-same s t id h);
}

made-IsSound :
    (s t : Links) (rs : List Redefinition)
    → SameGraph s t
    → IsFlagged t
    → All (IsMade s) rs
    → All (IsSound t) rs
made-IsSound s t [] h f a = a
made-IsSound s t (r ∷ rs) h f (o, a) =
    let at = ap (λ ms. get_elem? ms r.rlmodptr) h.0 ∙ o.target_at in
    let (b, e) = same_places t.modules t.loadflags r.rlmodptr o.target f at in
    (
      record {
        flag = b;
        flagged = e;
        target = o.target;
        target_at = at;
        leads = Leads-same s t r.rlsymptr h o.leads;
      },
      made-IsSound s t rs h f a,
    )

sound-IsMade :
    (s t : Links) (rs : List Redefinition) → SameGraph s t → All (IsSound s) rs → All (IsMade t) rs
sound-IsMade s t [] h a = a
sound-IsMade s t (r ∷ rs) h (o, a) = (
  record {
    target = o.target;
    target_at = ap (λ ms. get_elem? ms r.rlmodptr) h.0 ∙ o.target_at;
    leads = Leads-same s t r.rlsymptr h o.leads;
  },
  sound-IsMade s t rs h a,
)

-- What the passes leave: exactly the modules that roots reach are loaded, no redefinition in a loaded module has
-- a higher class than the definition that counts, and no symbol's class fell.
pub record Settled (s t : Links) : Type 0 where
  pub loaded : (x : ℕ) → Loaded t x ↔ IsReached t x
  pub best : All (λ r. is_better r t ≡ some false) t.redlist
  pub raises : Raises s t

abbrev Settles : Linking → Links → Type 0
Settles f s = (t : Links) × (f s ≡ some t) × Settled s t

-- The end of a pass.
abbrev next_pass : Linking → Option (List Redefinition × (Links × Bool)) → Option Links
next_pass f o = elim o [
  | none ↦ none
  | some (left, (u, false)) ↦ some (record u { redlist = left })
  | some (left, (u, true)) ↦ f (record u { redlist = left })
]

abbrev MoreSettle : ℕ → Type 0
MoreSettle n =
    (s : Links)
    → IsReady s
    → All (IsMade s) s.redlist
    → gains s s.redlist < n
    → Settles (linksyms_on n) s

module _ (n : ℕ) (s : Links) (fl : List Bool) (ready : IsReady s) where
  abbrev flagged : Links
  flagged = record s { loadflags = fl }

  -- A pass that changes nothing.
  Settled-last :
      (left : List Redefinition) (u : Links)
      → ((x : ℕ) → Loaded flagged x ↔ IsReached s x)
      → Walked flagged s.redlist left u false
      → (next_pass (linksyms_on n) (some (left, (u, false))) ≡ some flagged) × Settled s flagged
  Settled-last left u loads w =
      let (a, b, c) = w.steady refl in
      (
        ap (λ (v : Links). some (record v { redlist = left })) b
            ∙ ap (λ l. some (record flagged { redlist = l })) a,
        record {
          loaded = λ x. (
            λ l. IsReached-same s flagged x (refl, refl) refl refl refl ((loads x).0 l),
            λ k. (loads x).1 (IsReached-same flagged s x (refl, refl) refl refl refl k),
          );
          best = c;
          raises = SameGraph-Raises s flagged (refl, refl);
        },
      )

  -- A pass that changes something.
  Settled-again :
      (left : List Redefinition) (u : Links)
      → MoreSettle n
      → gains s s.redlist < suc n
      → Walked flagged s.redlist left u true
      → (t : Links) × (next_pass (linksyms_on n) (some (left, (u, true))) ≡ some t) × Settled s t
  Settled-again left u more few w =
      let v : Links = record u { redlist = left } in
      let shown = SameGraph-Raises u v (refl, refl) in
      let (t, e, p) =
        more v
          (Follows-IsReady s v
            (record {
              modules = w.raises.modules;
              entries = ap (λ (q : Links). q.entries) w.others;
              script_roots = ap (λ (q : Links). q.script_roots) w.others;
              start = ap (λ (q : Links). q.start) w.others;
              leads = λ id l.
                  Leads-same u v id (refl, refl)
                    (w.leads id (Leads-same s flagged id (refl, refl) l));
            })
            ready)
          (sound-IsMade u v left (refl, refl) w.sound)
          (omega (
            arith,
            few,
            gains_fall s flagged s.redlist (SameGraph-Raises s flagged (refl, refl)),
            w.falls refl,
            gains_fall u v left shown,
          )) in
      (
        t,
        e,
        record {
          loaded = p.loaded;
          best = p.best;
          raises =
              Raises-trans s flagged t (SameGraph-Raises s flagged (refl, refl))
                (Raises-trans flagged u t w.raises (Raises-trans u v t shown p.raises));
        },
      )

  Settled-walk :
      (left : List Redefinition) (u : Links) (needlink : Bool)
      → MoreSettle n
      → gains s s.redlist < suc n
      → ((x : ℕ) → Loaded flagged x ↔ IsReached s x)
      → Walked flagged s.redlist left u needlink
      → (t : Links) × (next_pass (linksyms_on n) (some (left, (u, needlink))) ≡ some t)
        × Settled s t
  Settled-walk left u false more few loads w =
      let (e, p) = Settled-last left u loads w in (flagged, e, p)
  Settled-walk left u true more few loads w = Settled-again left u more few w

passes-Settles : (n : ℕ) → MoreSettle n
unfolding linksyms_on
passes-Settles zero s ready made few = absurd (omega (arith, few))
passes-Settles (suc n) s ready made few =
    let (t, e, same, every, loads) = link_roots-loads s ready in
    let v : Links = record s { loadflags = t.loadflags } in
    let only = link_roots-OnlyFlags (all_modules s) s t e in
    let pass = λ (u : Links). next_pass (linksyms_on n) (walk_redlist true true u.redlist u) in
    let (left, u, needlink, f, w) =
      walk_redlist-Walked true true s.redlist v
        (made-IsSound s v s.redlist (refl, refl) (every ∙ ap length same.0) made) in
    let (z, g, p) =
      Settled-walk n s t.loadflags ready left u needlink (passes-Settles n) few loads w in
    (z, ap (λ o. then_link o pass) e ∙ ap pass only ∙ ap (next_pass (linksyms_on n)) f ∙ g, p)

-- With `_main` entered, let there be an entry symbol, and let all roots, symbols and redefinitions lead to
-- modules. Then `linksyms` returns, for output that is not relocatable: one pass more than there are redefinitions
-- is enough. Exactly the modules that the roots reach are loaded then, no redefinition in a loaded module that
-- is left in the list has a higher class than the definition that counts, and no symbol has a lower class than
-- before.
pub linksyms-Settles :
    (s : Links)
    → IsReady (enter_main s.main s)
    → All (IsMade (enter_main s.main s)) (enter_main s.main s).redlist
    → (t : Links) × (linksyms false s ≡ some t) × Settled (enter_main s.main s) t
unfolding linksyms
linksyms-Settles s ready made =
    let t = enter_main s.main s in
    passes-Settles (suc (length t.redlist)) t ready made (omega (arith, gains_bound t t.redlist))
