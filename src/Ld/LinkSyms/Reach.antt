-- ===== src/Ld/LinkSyms/Reach.antt =====
-- ld/linksyms.c: what a call of `linkrefs` loads.
use mc6801_tools.Base.{
  ℕ, zero, suc, ◌≡◌, ◌⊎◌, inl, inr, refl, sym, ap, ◌∙◌, Bool, true, false, Option, none, some, List,
  [], ◌∷◌, length, get_elem?, set, arith, some_inj, then-some,
}
use mathlib.Core.Path.{subst}
use mc6801_tools.Ld.LinkSyms.{
  LinkModule, LinkSymbol, Links, Linking, visit_flag, visit_symbol, visit, each,
}

-- A flag that is set, and a module that another one refers to.
abbrev pub Loaded : Links → ℕ → Type 0
Loaded s m = get_elem? s.loadflags m ≡ some true

pub record Refers (s : Links) (m y : ℕ) : Type 0 where
  pub found : LinkModule
  pub at : get_elem? s.modules m ≡ some found
  pub i : ℕ
  pub id : ℕ
  pub lists : get_elem? found.symparray i ≡ some id
  pub symbol : LinkSymbol
  pub names : get_elem? s.symbols id ≡ some symbol
  pub leads : symbol.modptr ≡ y

pub data Reaches (s : Links) : ℕ → ℕ → Type 0 where
  here : (m : ℕ) → Reaches s m m
  onward : (m y x : ℕ) → Refers s m y → Reaches s y x → Reaches s m x

abbrev pub SameGraph : Links → Links → Type 0
SameGraph s t = (t.modules ≡ s.modules) × (t.symbols ≡ s.symbols)

module _ {ℓ} {A : Type ℓ} where
  pub get_elem-set_self :
      (xs : List A) (i : ℕ) (v w : A) → get_elem? xs i ≡ some w → get_elem? (set xs i v) i ≡ some v
  get_elem-set_self [] i v w h = absurd (cc)
  get_elem-set_self (x ∷ xs) zero v w h = refl
  get_elem-set_self (x ∷ xs) (suc i) v w h = get_elem-set_self xs i v w h

  pub get_elem-set_same :
      (xs : List A) (i j : ℕ) (v : A) → get_elem? xs j ≡ some v → get_elem? (set xs i v) j ≡ some v
  get_elem-set_same [] i j v h = h
  get_elem-set_same (x ∷ xs) zero zero v h = refl
  get_elem-set_same (x ∷ xs) zero (suc j) v h = h
  get_elem-set_same (x ∷ xs) (suc i) zero v h = h
  get_elem-set_same (x ∷ xs) (suc i) (suc j) v h = get_elem-set_same xs i j v h

  pub get_elem-set_cases :
      (xs : List A) (i j : ℕ) (v w : A)
      → get_elem? (set xs i v) j ≡ some w
      → (j ≡ i) ⊎ (get_elem? xs j ≡ some w)
  get_elem-set_cases [] i j v w h = inr h
  get_elem-set_cases (x ∷ xs) zero zero v w h = inl refl
  get_elem-set_cases (x ∷ xs) zero (suc j) v w h = inr h
  get_elem-set_cases (x ∷ xs) (suc i) zero v w h = inr h
  get_elem-set_cases (x ∷ xs) (suc i) (suc j) v w h = elim (get_elem-set_cases xs i j v w h) [
    | inl e ↦ inl (ap suc e)
    | inr e ↦ inr e
  ]

-- Between `s` and `t`, modules were loaded that are allowed, with all that they refer to.
pub record Spread (allowed : ℕ → Type 0) (s t : Links) : Type 0 where
  pub same : SameGraph s t
  pub size : length t.loadflags ≡ length s.loadflags
  pub grows : (x : ℕ) → Loaded s x → Loaded t x
  pub sound : (x : ℕ) → Loaded t x → Loaded s x ⊎ allowed x
  pub closed : (x : ℕ) → Loaded t x → Loaded s x ⊎ ((y : ℕ) → Refers s x y → Loaded t y)

pub no-Spread : (allowed : ℕ → Type 0) (s : Links) → Spread allowed s s
no-Spread allowed s = record {
  same = (refl, refl);
  size = refl;
  grows = λ x h. h;
  sound = λ x h. inl h;
  closed = λ x h. inl h;
}

pub Refers-same : (s t : Links) (m y : ℕ) → SameGraph s t → Refers t m y → Refers s m y
Refers-same s t m y h r = record {
  found = r.found;
  at = sym (ap (λ ms. get_elem? ms m) h.0) ∙ r.at;
  i = r.i;
  id = r.id;
  lists = r.lists;
  symbol = r.symbol;
  names = sym (ap (λ ss. get_elem? ss r.id) h.1) ∙ r.names;
  leads = r.leads;
}

pub Reaches-same : (s t : Links) (m y : ℕ) → SameGraph s t → Reaches t m y → Reaches s m y
Reaches-same s t _ _ h (here m) = here m
Reaches-same s t _ _ h (onward m y x r p) =
    onward m y x (Refers-same s t m y h r) (Reaches-same s t y x h p)

pub same_back : (s t : Links) → SameGraph s t → SameGraph t s
same_back s t h = (sym h.0, sym h.1)

-- One after the other.
pub Spread-trans :
    (allowed : ℕ → Type 0) (s t u : Links)
    → Spread allowed s t
    → Spread allowed t u
    → Spread allowed s u
Spread-trans allowed s t u p q = record {
  same = (q.same.0 ∙ p.same.0, q.same.1 ∙ p.same.1);
  size = q.size ∙ p.size;
  grows = λ x h. q.grows x (p.grows x h);
  sound = λ x h. elim (q.sound x h) [ inl k ↦ p.sound x k | inr k ↦ inr k ];
  closed = λ x h. elim (q.closed x h) [
    | inl k ↦ elim (p.closed x k) [ inl l ↦ inl l | inr l ↦ inr (λ y r. q.grows y (l y r)) ]
    | inr k ↦ inr (λ y r. k y (Refers-same t s x y (same_back s t p.same) r))
  ];
}

pub Spread-weaken :
    (allowed allowed' : ℕ → Type 0) (s t : Links)
    → ((x : ℕ) → allowed x → allowed' x)
    → Spread allowed s t
    → Spread allowed' s t
Spread-weaken allowed allowed' s t f p = record {
  same = p.same;
  size = p.size;
  grows = p.grows;
  sound = λ x h. elim (p.sound x h) [ inl k ↦ inl k | inr k ↦ inr (f x k) ];
  closed = p.closed;
}

-- Every module has a flag.
abbrev pub IsFlagged : Links → Type 0
IsFlagged s = length s.loadflags ≡ length s.modules

pub Spread-IsFlagged :
    (allowed : ℕ → Type 0) (s t : Links) → Spread allowed s t → IsFlagged s → IsFlagged t
Spread-IsFlagged allowed s t p h = p.size ∙ h ∙ ap length (sym p.same.0)

module _ {ℓ κ} {A : Type ℓ} {B : Type κ} where
  pub same_places :
      (xs : List A) (ys : List B) (i : ℕ) (a : A)
      → length ys ≡ length xs
      → get_elem? xs i ≡ some a
      → (b : B) × (get_elem? ys i ≡ some b)
  same_places [] ys i a h k = absurd (cc)
  same_places (x ∷ xs) [] i a h k = absurd (omega (arith, h))
  same_places (x ∷ xs) (y ∷ ys) zero a h k = (y, refl)
  same_places (x ∷ xs) (y ∷ ys) (suc i) a h k = same_places xs ys i a (omega (arith, h)) k

-- What a routine for one module promises.
abbrev pub Spreads : (ℕ → Linking) → Type 0
Spreads f =
    (m : ℕ) (s t : Links)
    → IsFlagged s
    → f m s ≡ some t
    → Loaded t m × Spread (λ x. Reaches s m x) s t

-- A symbol that was visited.
pub record Visited (id : ℕ) (s t : Links) : Type 0 where
  pub symbol : LinkSymbol
  pub names : get_elem? s.symbols id ≡ some symbol
  pub loads : Loaded t symbol.modptr
  pub spread : Spread (λ x. Reaches s symbol.modptr x) s t

pub visit-Visited :
    (f : ℕ → Linking) (id : ℕ) (s t : Links)
    → Spreads f
    → IsFlagged s
    → visit f id s ≡ some t
    → Visited id s t
unfolding visit_symbol visit_flag
visit-Visited f id s t p flagged e = at_symbol (get_elem? s.symbols id) refl e
  where
    at_flag :
        (symbol : LinkSymbol) (o : Option Bool)
        → get_elem? s.symbols id ≡ some symbol
        → get_elem? s.loadflags symbol.modptr ≡ o
        → visit_flag f symbol.modptr s o ≡ some t
        → Visited id s t
    at_flag symbol none h k e' = absurd (cc)
    at_flag symbol (some true) h k e' = record {
      symbol = symbol;
      names = h;
      loads = rw (← some_inj s t e') k;
      spread = rw (← some_inj s t e') (no-Spread (λ x. Reaches s symbol.modptr x) s);
    }
    at_flag symbol (some false) h k e' =
        let (l, q) = p symbol.modptr s t flagged e' in
        record { symbol = symbol; names = h; loads = l; spread = q }

    at_symbol :
        (o : Option LinkSymbol)
        → get_elem? s.symbols id ≡ o
        → visit_symbol f s o ≡ some t
        → Visited id s t
    at_symbol none h e' = absurd (cc)
    at_symbol (some symbol) h e' = at_flag symbol (get_elem? s.loadflags symbol.modptr) h refl e'

-- The symbols of a list lead to allowed modules only, and to loaded ones.
abbrev pub Lead : (ℕ → Type 0) → List ℕ → Links → Type 0
Lead allowed ids s =
    (i id : ℕ) (symbol : LinkSymbol)
    → get_elem? ids i ≡ some id
    → get_elem? s.symbols id ≡ some symbol
    → allowed symbol.modptr

Lead-same :
    (allowed : ℕ → Type 0) (ids : List ℕ) (s t : Links)
    → SameGraph s t
    → Lead allowed ids s
    → Lead allowed ids t
Lead-same allowed ids s t h l i id symbol e f =
    l i id symbol e (sym (ap (λ ss. get_elem? ss id) h.1) ∙ f)

pub each-Spread :
    (f : ℕ → Linking) (allowed : ℕ → Type 0) (ids : List ℕ) (s t : Links)
    → Spreads f
    → IsFlagged s
    → Lead (λ y. (x : ℕ) → Reaches s y x → allowed x) ids s
    → each (visit f) ids s ≡ some t
    → Spread allowed s t × Lead (Loaded t) ids s
unfolding each
each-Spread f allowed [] s t p flagged lead e = (
  subst (Spread allowed s) (some_inj s t e) (no-Spread allowed s),
  λ i id symbol h k. absurd (cc),
)
each-Spread f allowed (id ∷ ids) s t p flagged lead e =
    let (u, g, h) = then-some (visit f id s) (each (visit f) ids) t e in
    let v = visit-Visited f id s u p flagged g in
    let q = Spread-weaken _ allowed s u (lead 0 id v.symbol refl v.names) v.spread in
    let (r, l) =
      each-Spread f allowed ids u t p (Spread-IsFlagged allowed s u q flagged)
        (λ i id' symbol a b x c.
          lead (suc i) id' symbol a (sym (ap (λ ss. get_elem? ss id') q.same.1) ∙ b) x
            (Reaches-same s u symbol.modptr x q.same c))
        h in
    (Spread-trans allowed s u t q r, all u q r l v)
  where
    all :
        (u : Links)
        → Spread allowed s u
        → Spread allowed u t
        → Lead (Loaded t) ids u
        → Visited id s u
        → Lead (Loaded t) (id ∷ ids) s
    all u q r l v zero id' symbol a b =
        let same_id : id ≡ id' = some_inj id id' a in
        let same_symbol : v.symbol ≡ symbol =
          some_inj v.symbol symbol (sym v.names ∙ ap (λ k. get_elem? s.symbols k) same_id ∙ b) in
        r.grows symbol.modptr (subst (λ y. Loaded u y.modptr) same_symbol v.loads)
    all u q r l v (suc i) id' symbol a b =
        l i id' symbol a (ap (λ ss. get_elem? ss id') q.same.1 ∙ b)
