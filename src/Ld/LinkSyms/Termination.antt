-- ===== src/Ld/LinkSyms/Termination.antt =====
-- ld/linksyms.c: `linkrefs` comes to an end: every call loads a module that was not loaded.
use mc6801_tools.Base.{
  ℕ, zero, suc, ◌≤◌, ◌<◌, ◌≡◌, ◌≢◌, ◌⊎◌, inl, inr, refl, sym, ap, ◌∙◌, Bool, true, false, Option,
  none, some, List, [], ◌∷◌, length, get_elem?, set, arith, some_inj, length-set,
}
use mc6801_tools.Ld.LinkSyms.{
  LinkModule, LinkSymbol, Links, set_loadflag, visit_flag, visit_symbol, visit, each, references,
  linkrefs,
}
use mc6801_tools.Ld.LinkSyms.Reach.{
  Loaded, Refers, Reaches, here, onward, SameGraph, Spread, IsFlagged, Refers-same, Reaches-same,
  same_back, same_places, Spread-IsFlagged, visit-Visited,
}
use mc6801_tools.Ld.LinkSyms.Recursion.{linkrefs-Spreads}

-- The number of modules that are not loaded.
unfoldable pub waiting : List Bool → ℕ
waiting [] = 0
waiting (true ∷ bs) = waiting bs
waiting (false ∷ bs) = suc (waiting bs)

waiting-set :
    (bs : List Bool) (i : ℕ)
    → get_elem? bs i ≡ some false
    → suc (waiting (set bs i true)) ≡ waiting bs
unfolding waiting
waiting-set [] i h = absurd (cc)
waiting-set (true ∷ bs) zero h = absurd (no_path (some_inj true false h))
  where
    no_path : true ≢ false
    no_path e = cc
waiting-set (false ∷ bs) zero h = refl
waiting-set (true ∷ bs) (suc i) h = waiting-set bs i h
waiting-set (false ∷ bs) (suc i) h = omega (arith, waiting-set bs i h)

waiting-grows :
    (bs cs : List Bool)
    → length cs ≡ length bs
    → ((i : ℕ) → get_elem? bs i ≡ some true → get_elem? cs i ≡ some true)
    → waiting cs ≤ waiting bs
unfolding waiting
waiting-grows [] [] h k = omega arith
waiting-grows [] (c ∷ cs) h k = absurd (omega (arith, h))
waiting-grows (b ∷ bs) [] h k = absurd (omega (arith, h))
waiting-grows (false ∷ bs) (true ∷ cs) h k =
    omega (arith, waiting-grows bs cs (omega (arith, h)) (λ i. k (suc i)))
waiting-grows (false ∷ bs) (false ∷ cs) h k =
    omega (arith, waiting-grows bs cs (omega (arith, h)) (λ i. k (suc i)))
waiting-grows (true ∷ bs) (true ∷ cs) h k = waiting-grows bs cs (omega (arith, h)) (λ i. k (suc i))
waiting-grows (true ∷ bs) (false ∷ cs) h k = absurd (no_path (some_inj false true (k 0 refl)))
  where
    no_path : false ≢ true
    no_path e = cc

-- A symbol leads to a module.
pub record Leads (s : Links) (id : ℕ) : Type 0 where
  pub symbol : LinkSymbol
  pub names : get_elem? s.symbols id ≡ some symbol
  pub found : LinkModule
  pub at : get_elem? s.modules symbol.modptr ≡ some found

-- Every module has a flag, and all symbols that it lists lead to modules.
pub record IsLinked (s : Links) : Type 0 where
  pub flagged : IsFlagged s
  pub leads :
      (m : ℕ) (found : LinkModule) (i id : ℕ)
      → get_elem? s.modules m ≡ some found
      → get_elem? found.symparray i ≡ some id
      → Leads s id

pub Leads-same : (s t : Links) (id : ℕ) → SameGraph s t → Leads s id → Leads t id
Leads-same s t id h l = record {
  symbol = l.symbol;
  names = ap (λ ss. get_elem? ss id) h.1 ∙ l.names;
  found = l.found;
  at = ap (λ ms. get_elem? ms l.symbol.modptr) h.0 ∙ l.at;
}

pub IsLinked-same : (s t : Links) → SameGraph s t → IsFlagged t → IsLinked s → IsLinked t
IsLinked-same s t h f l = record {
  flagged = f;
  leads = λ m found i id a b.
      Leads-same s t id h (l.leads m found i id (sym (ap (λ ms. get_elem? ms m) h.0) ∙ a) b);
}

-- With fuel for the modules that wait, the routine returns.
abbrev pub IsTotal : ℕ → Type 0
IsTotal n =
    (m : ℕ) (found : LinkModule) (s : Links)
    → IsLinked s
    → get_elem? s.modules m ≡ some found
    → waiting (set s.loadflags m true) < n
    → (t : Links) × (linkrefs n m s ≡ some t)

visit-total :
    (n id : ℕ) (s : Links)
    → IsTotal n
    → IsLinked s
    → waiting s.loadflags ≤ n
    → Leads s id
    → (t : Links) × (visit (linkrefs n) id s ≡ some t)
unfolding visit_symbol visit_flag
visit-total n id s total ok few l =
    let (b, e) = same_places s.modules s.loadflags l.symbol.modptr l.found ok.flagged l.at in
    let (t, f) = at_flag b e in
    (
      t,
      ap (visit_symbol (linkrefs n) s) l.names
          ∙ ap (visit_flag (linkrefs n) l.symbol.modptr s) e
          ∙ f,
    )
  where
    at_flag :
        (b : Bool)
        → get_elem? s.loadflags l.symbol.modptr ≡ some b
        → (t : Links) × (visit_flag (linkrefs n) l.symbol.modptr s (some b) ≡ some t)
    at_flag true e = (s, refl)
    at_flag false e =
        total l.symbol.modptr l.found s ok l.at
          (omega (arith, waiting-set s.loadflags l.symbol.modptr e))

each-total :
    (n : ℕ) (ids : List ℕ) (s : Links)
    → IsTotal n
    → IsLinked s
    → waiting s.loadflags ≤ n
    → ((i id : ℕ) → get_elem? ids i ≡ some id → Leads s id)
    → (t : Links) × (each (visit (linkrefs n)) ids s ≡ some t)
unfolding each
each-total n [] s total ok few l = (s, refl)
each-total n (id ∷ ids) s total ok few l =
    let (u, e) = visit-total n id s total ok few (l 0 id refl) in
    let q = (visit-Visited (linkrefs n) id s u (linkrefs-Spreads n) ok.flagged e).spread in
    let flagged = Spread-IsFlagged _ s u q ok.flagged in
    let (t, f) =
      each-total n ids u total (IsLinked-same s u q.same flagged ok)
        (omega (arith, waiting-grows s.loadflags u.loadflags q.size q.grows, few))
        (λ i id' a. Leads-same s u id' q.same (l (suc i) id' a)) in
    (
      t,
      ap
            (λ o. elim o as (λ _. Option Links) [
              | none ↦ none
              | some v ↦ each (visit (linkrefs n)) ids v
            ])
            e
          ∙ f,
    )

pub linkrefs-IsTotal : (n : ℕ) → IsTotal n
unfolding linkrefs references
linkrefs-IsTotal zero m found s ok at lt = absurd (omega arith)
linkrefs-IsTotal (suc n) m found s ok at lt =
    let u : Links = set_loadflag m s in
    let flagged : IsFlagged u = length-set s.loadflags m true ∙ ok.flagged in
    let (t, e) =
      each-total n found.symparray u (linkrefs-IsTotal n)
        (IsLinked-same s u (refl, refl) flagged ok) (omega (arith, lt))
        (λ i id a. Leads-same s u id (refl, refl) (ok.leads m found i id at a)) in
    (t, ap (references (linkrefs n) m s) at ∙ e)

waiting_bound : (bs : List Bool) → waiting bs ≤ length bs
unfolding waiting
waiting_bound [] = omega arith
waiting_bound (true ∷ bs) = omega (arith, waiting_bound bs)
waiting_bound (false ∷ bs) = omega (arith, waiting_bound bs)

-- A module that is loaded has all that it refers to loaded.
abbrev pub IsClosed : Links → Type 0
IsClosed s = (x y : ℕ) → Loaded s x → Refers s x y → Loaded s y

pub reached : (s : Links) (x y : ℕ) → IsClosed s → Reaches s x y → Loaded s x → Loaded s y
reached s _ _ c (here m) l = l
reached s _ _ c (onward m y x r p) l = reached s y x c p (c m y l r)

Spread-IsClosed :
    (allowed : ℕ → Type 0) (s t : Links) → Spread allowed s t → IsClosed s → IsClosed t
Spread-IsClosed allowed s t p c x y l r =
    let r' : Refers s x y = Refers-same s t x y p.same r in
    elim (p.closed x l) [ inl k ↦ p.grows y (c x y k r') | inr k ↦ k y r' ]

-- What was loaded, and what a module reaches.
pub record Covers (roots : ℕ → Type 0) (s t : Links) : Type 0 where
  pub same : SameGraph s t
  pub linked : IsLinked t
  pub closed : IsClosed t
  pub only : (x : ℕ) → Loaded t x → Loaded s x ⊎ roots x
  pub before : (x : ℕ) → Loaded s x → Loaded t x
  pub reaches : (x : ℕ) → roots x → Loaded t x

-- A call of `linkrefs` with fuel for all modules and one more returns: exactly what was loaded and what the
-- module reaches over the symbols of modules is loaded then, and whoever is loaded has all that it refers to.
pub linkrefs-Covers :
    (n m : ℕ) (found : LinkModule) (s : Links)
    → IsLinked s
    → IsClosed s
    → get_elem? s.modules m ≡ some found
    → length s.modules < n
    → (t : Links) × (linkrefs n m s ≡ some t) × Covers (λ x. Reaches s m x) s t
linkrefs-Covers n m found s ok c at lt =
    let (t, e) = linkrefs-IsTotal n m found s ok at (
      omega (
        arith,
        waiting_bound (set s.loadflags m true),
        length-set s.loadflags m true,
        ok.flagged,
      )) in
    let (l, p) = linkrefs-Spreads n m s t ok.flagged e in
    let closed = Spread-IsClosed _ s t p c in
    (
      t,
      e,
      record {
        same = p.same;
        linked = IsLinked-same s t p.same (Spread-IsFlagged _ s t p ok.flagged) ok;
        closed = closed;
        only = p.sound;
        before = p.grows;
        reaches = λ x r. reached t m x closed (Reaches-same t s m x (same_back s t p.same) r) l;
      },
    )
