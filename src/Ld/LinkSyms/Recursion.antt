-- ===== src/Ld/LinkSyms/Recursion.antt =====
-- ld/linksyms.c: `linkrefs` loads what a module reaches.
use mc6801_tools.Base.{
  ℕ, zero, suc, ◌≡◌, inl, inr, refl, sym, ap, ◌∙◌, true, Option, none, some, length, get_elem?,
  some_inj, length-set,
}
use mathlib.Core.Path.{subst}
use mc6801_tools.Ld.LinkSyms.{
  LinkModule, Links, Linking, set_loadflag, visit, each, references, linkrefs,
}
use mc6801_tools.Ld.LinkSyms.Reach.{
  Loaded, Refers, Reaches, here, onward, Spread, Spreads, Lead, IsFlagged, Refers-same,
  Reaches-same, same_places, get_elem-set_self, get_elem-set_same, get_elem-set_cases, each-Spread,
}

-- A module that is found: its own flag, then its references.
references-Spread :
    (f : ℕ → Linking) (m : ℕ) (found : LinkModule) (s t : Links)
    → Spreads f
    → IsFlagged s
    → get_elem? s.modules m ≡ some found
    → each (visit f) found.symparray (set_loadflag m s) ≡ some t
    → Loaded t m × Spread (λ x. Reaches s m x) s t
references-Spread f m found s t p flagged at e =
    let u : Links = set_loadflag m s in
    let (w, flag) = same_places s.modules s.loadflags m found flagged at in
    let (q, l) =
      each-Spread f (λ x. Reaches s m x) found.symparray u t p
        (length-set s.loadflags m true ∙ flagged)
        (λ i id symbol a b x r.
          onward m symbol.modptr x
            (record {
              found = found;
              at = at;
              i = i;
              id = id;
              lists = a;
              symbol = symbol;
              names = b;
              leads = refl;
            })
            (Reaches-same s u symbol.modptr x (refl, refl) r))
        e in
    (q.grows m (get_elem-set_self s.loadflags m true w flag), whole u q l refl)
  where
    referred :
        (u : Links)
        → Lead (Loaded t) found.symparray u
        → u ≡ set_loadflag m s
        → (y : ℕ) → Refers s m y
        → Loaded t y
    referred u l e y r =
        let same : r.found ≡ found = some_inj r.found found (sym r.at ∙ at) in
        subst (Loaded t) r.leads (
          l r.i r.id r.symbol (subst (λ k. get_elem? k.symparray r.i ≡ some r.id) same r.lists)
            (ap (λ v. get_elem? v.symbols r.id) e ∙ r.names))

    whole :
        (u : Links)
        → Spread (λ x. Reaches s m x) u t
        → Lead (Loaded t) found.symparray u
        → u ≡ set_loadflag m s
        → Spread (λ x. Reaches s m x) s t
    whole u q l e = record {
      same = (q.same.0 ∙ ap (λ v. v.modules) e, q.same.1 ∙ ap (λ v. v.symbols) e);
      size = q.size ∙ ap (λ v. length v.loadflags) e ∙ length-set s.loadflags m true;
      grows = λ x h.
          q.grows x (subst (λ v. Loaded v x) (sym e) (get_elem-set_same s.loadflags m x true h));
      sound = λ x h. elim (q.sound x h) [
        | inl k ↦
            elim (get_elem-set_cases s.loadflags m x true true (subst (λ v. Loaded v x) e k)) [
              | inl same ↦ inr (subst (λ y. Reaches s m y) (sym same) (here m))
              | inr old ↦ inl old
            ]
        | inr k ↦ inr k
      ];
      closed = λ x h. elim (q.closed x h) [
        | inl k ↦
            elim (get_elem-set_cases s.loadflags m x true true (subst (λ v. Loaded v x) e k)) [
              | inl same ↦ inr (λ y r. referred u l e y (subst (λ z. Refers s z y) same r))
              | inr old ↦ inl old
            ]
        | inr k ↦ inr (λ y r.
            k y (Refers-same u s x y (sym (ap (λ v. v.modules) e), sym (ap (λ v. v.symbols) e)) r))
      ];
    }

pub linkrefs-Spreads : (n : ℕ) → Spreads (linkrefs n)
unfolding linkrefs references
linkrefs-Spreads zero m s t flagged e = absurd (cc)
linkrefs-Spreads (suc n) m s t flagged e = go (linkrefs-Spreads n) (get_elem? s.modules m) refl e
  where
    go :
        Spreads (linkrefs n)
        → (o : Option LinkModule) → get_elem? s.modules m ≡ o
        → references (linkrefs n) m s o ≡ some t
        → Loaded t m × Spread (λ x. Reaches s m x) s t
    go p none h e' = absurd (cc)
    go p (some found) h e' = references-Spread (linkrefs n) m found s t p flagged h e'
