-- ===== src/Ld/LinkSyms/Loading.antt =====
-- ld/linksyms.c: a loop over roots loads what one of them reaches.
use mc6801_tools.Base.{
  ℕ, zero, suc, ◌≡◌, ◌≢◌, ◌⊎◌, inl, inr, refl, sym, ap, ◌∙◌, none, some, List, [], ◌∷◌, length,
  get_elem?, some_inj,
}
use mathlib.Core.Path.{subst}
use mc6801_tools.Ld.LinkSyms.{Links, Linking, each, then_link}
use mc6801_tools.Ld.LinkSyms.Reach.{Loaded, SameGraph, same_back}
use mc6801_tools.Ld.LinkSyms.Termination.{IsLinked, IsClosed, Covers}

pub SameGraph-trans : (s t u : Links) → SameGraph s t → SameGraph t u → SameGraph s u
SameGraph-trans s t u h k = (k.0 ∙ h.0, k.1 ∙ h.1)

-- One root after another.
Covers-trans :
    (p q r : ℕ → Type 0) (s t u : Links)
    → ((x : ℕ) → p x → r x)
    → ((x : ℕ) → q x → r x)
    → ((x : ℕ) → r x → p x ⊎ q x)
    → Covers p s t
    → Covers q t u
    → Covers r s u
Covers-trans p q r s t u f g h c d = record {
  same = SameGraph-trans s t u c.same d.same;
  linked = d.linked;
  closed = d.closed;
  only = λ x l. elim (d.only x l) [
    | inl k ↦ elim (c.only x k) [ inl m ↦ inl m | inr m ↦ inr (f x m) ]
    | inr k ↦ inr (g x k)
  ];
  before = λ x l. d.before x (c.before x l);
  reaches = λ x k. elim (h x k) [ inl m ↦ d.before x (c.reaches x m) | inr m ↦ d.reaches x m ];
}

-- A kind of root: whether it is valid, what it reaches, and a routine that loads it.
pub record Kind (A : Type 0) (f : A → Linking) (size : ℕ) : Type 1 where
  pub IsValid : Links → A → Type 0
  pub From : Links → A → ℕ → Type 0
  pub valid_same : (s t : Links) (a : A) → SameGraph s t → IsValid s a → IsValid t a
  pub from_same : (s t : Links) (a : A) (x : ℕ) → SameGraph s t → From t a x → From s a x
  pub loads :
      (a : A) (s : Links)
      → IsLinked s
      → IsClosed s
      → length s.modules ≡ size
      → IsValid s a
      → (t : Links) × (f a s ≡ some t) × Covers (From s a) s t

module _ (A : Type 0) (f : A → Linking) (size : ℕ) (kind : Kind A f size) where
  -- What a list of roots reaches.
  pub record FromList (s : Links) (as1 : List A) (x : ℕ) : Type 0 where
    pub i : ℕ
    pub a : A
    pub lists : get_elem? as1 i ≡ some a
    pub from : kind.From s a x

  from_head : (a : A) (as1 : List A) (s : Links) (x : ℕ) → kind.From s a x → FromList s (a ∷ as1) x
  from_head a as1 s x h = record { i = 0; a = a; lists = refl; from = h }

  from_tail :
      (a : A) (as1 : List A) (s t : Links) (x : ℕ)
      → SameGraph s t
      → FromList t as1 x
      → FromList s (a ∷ as1) x
  from_tail a as1 s t x h k = record {
    i = suc k.i;
    a = k.a;
    lists = k.lists;
    from = kind.from_same s t k.a x h k.from;
  }

  from_cases :
      (a : A) (as1 : List A) (s t : Links) (x : ℕ)
      → SameGraph s t
      → FromList s (a ∷ as1) x
      → kind.From s a x ⊎ FromList t as1 x
  from_cases a as1 s t x h k = go k.i k.lists
    where
      go : (i : ℕ) → get_elem? (a ∷ as1) i ≡ some k.a → kind.From s a x ⊎ FromList t as1 x
      go zero l = inl (subst (λ b. kind.From s b x) (sym (some_inj a k.a l)) k.from)
      go (suc i) l = inr (record {
        i = i;
        a = k.a;
        lists = l;
        from = kind.from_same t s k.a x (same_back s t h) k.from;
      })

  from_nothing : (s : Links) (x : ℕ) → FromList s [] x → Loaded s x
  from_nothing s x k = absurd (nothing k.lists)
    where
      nothing : none ≢ some k.a
      nothing h = cc

  pub each-Covers :
      (as1 : List A) (s : Links)
      → IsLinked s
      → IsClosed s
      → length s.modules ≡ size
      → ((i : ℕ) (a : A) → get_elem? as1 i ≡ some a → kind.IsValid s a)
      → (t : Links) × (each f as1 s ≡ some t) × Covers (FromList s as1) s t
  unfolding each
  each-Covers [] s ok c n v = (
    s,
    refl,
    record {
      same = (refl, refl);
      linked = ok;
      closed = c;
      only = λ x l. inl l;
      before = λ x l. l;
      reaches = from_nothing s;
    },
  )
  each-Covers (a ∷ as1) s ok c n v =
      let (t, e, p) = kind.loads a s ok c n (v 0 a refl) in
      let (u, e', q) =
        each-Covers as1 t p.linked p.closed (ap length p.same.0 ∙ n)
          (λ i b g. kind.valid_same s t b p.same (v (suc i) b g)) in
      (
        u,
        ap (λ o. then_link o (each f as1)) e ∙ e',
        Covers-trans (kind.From s a) (FromList t as1) (FromList s (a ∷ as1)) s t u
            (from_head a as1 s) (λ x. from_tail a as1 s t x p.same)
            (λ x. from_cases a as1 s t x p.same) p q,
      )

pub Covers-same :
    (p q : ℕ → Type 0) (s t : Links)
    → ((x : ℕ) → p x → q x)
    → ((x : ℕ) → q x → p x)
    → Covers p s t
    → Covers q s t
Covers-same p q s t f g c = record {
  same = c.same;
  linked = c.linked;
  closed = c.closed;
  only = λ x l. elim (c.only x l) [ inl k ↦ inl k | inr k ↦ inr (f x k) ];
  before = c.before;
  reaches = λ x k. c.reaches x (g x k);
}
