-- ===== src/Ld/LinkSyms/Listed.antt =====
-- ld/readobj.c: the loop of `redsym`, which looks for a redefinition in a module of the same class.
use mc6801_tools.Base.{
  ℕ, zero, suc, ◌+◌, ◌%◌, ◌≡◌, ◌≢◌, ◌⊎◌, inl, inr, refl, sym, ap, ◌∙◌, Bool, true, false, Option,
  none, some, List, [], ◌∷◌, All, get_elem?, set, ◌==◌, ==→eq, if◌then◌else◌, arith, some_inj,
}
use mc6801_tools.Ld.LinkSyms.{LinkModule, Redefinition, Links}
use mc6801_tools.Ld.LinkSyms.Ranks.{rank_of, module_rank, IsMade}

-- Two signed chars.
abbrev pub same_class : ℕ → ℕ → Bool
same_class a b = (a + 128) % 256 == (b + 128) % 256

unfoldable pub is_listed_at : ℕ → Option LinkModule → Option Bool
is_listed_at class none = none
is_listed_at class (some found) = some (same_class class found.class)

-- The search for a redefinition of the symbol in a module of the class.
unfoldable pub is_listed : List LinkModule → ℕ → ℕ → List Redefinition → Option Bool
unfolding is_listed_at
is_listed modules id class [] = some false
is_listed modules id class (r ∷ rs) =
    let rest = is_listed modules id class rs in
    let found = is_listed_at class (get_elem? modules r.rlmodptr) in
    if id == r.rlsymptr
    then elim found [ none ↦ none | some true ↦ some true | some false ↦ rest ]
    else rest

module _ {ℓ} {A : Type ℓ} where
  pub set_same : (xs : List A) (i : ℕ) (x : A) → get_elem? xs i ≡ some x → set xs i x ≡ xs
  set_same [] i x h = refl
  set_same (y ∷ xs) zero x h = ap (λ z. z ∷ xs) (sym (some_inj y x h))
  set_same (y ∷ xs) (suc i) x h = ap (λ zs. y ∷ zs) (set_same xs i x h)

-- The list has a definition of the symbol in a module of the class.
pub record Again (id rank : ℕ) (s : Links) (rs : List Redefinition) : Type 0 where
  pub i : ℕ
  pub r : Redefinition
  pub lists : get_elem? rs i ≡ some r
  pub redefines : r.rlsymptr ≡ id
  pub class : module_rank r.rlmodptr s ≡ rank

abbrev pub Answer : ℕ → ℕ → Links → List Redefinition → Bool → Type 0
Answer id rank s rs b = (b ≡ true → Again id rank s rs) × (b ≡ false → ¬ (Again id rank s rs))

module _ (id rank : ℕ) (s : Links) (r : Redefinition) (rs : List Redefinition) where
  Again-tail : Again id rank s rs → Again id rank s (r ∷ rs)
  Again-tail g = record {
    i = suc g.i;
    r = g.r;
    lists = g.lists;
    redefines = g.redefines;
    class = g.class;
  }

  Again-cases :
      Again id rank s (r ∷ rs)
      → ((r.rlsymptr ≡ id) × (module_rank r.rlmodptr s ≡ rank)) ⊎ Again id rank s rs
  Again-cases g = go g.i g.lists
    where
      go :
          (i : ℕ)
          → get_elem? (r ∷ rs) i ≡ some g.r
          → ((r.rlsymptr ≡ id) × (module_rank r.rlmodptr s ≡ rank)) ⊎ Again id rank s rs
      go zero h =
          let e = some_inj r g.r h in
          inl (ap (λ q. q.rlsymptr) e ∙ g.redefines, ap (λ q. module_rank q.rlmodptr s) e ∙ g.class)
      go (suc i) h =
          inr (record { i = i; r = g.r; lists = h; redefines = g.redefines; class = g.class })

  -- A node that is not the one looked for.
  Answer-tail :
      (b : Bool)
      → ¬ ((r.rlsymptr ≡ id) × (module_rank r.rlmodptr s ≡ rank))
      → Answer id rank s rs b
      → Answer id rank s (r ∷ rs) b
  Answer-tail b n w =
      (λ h. Again-tail (w.0 h), λ h g. elim (Again-cases g) [ inl k ↦ n k | inr k ↦ w.1 h k ])

pub is_listed-answers :
    (s : Links) (id class : ℕ) (rs : List Redefinition)
    → All (IsMade s) rs
    → (b : Bool) × (is_listed s.modules id class rs ≡ some b)
      × Answer id ((class + 128) % 256) s rs b
unfolding is_listed is_listed_at rank_of
is_listed-answers s id class [] a = (false, refl, (λ h. absurd (cc), λ h g. nothing g.r g.lists))
  where
    nothing : (r : Redefinition) → none ≢ some r
    nothing r h = cc
is_listed-answers s id class (r ∷ rs) (o, a) =
    let (b, e, w) = is_listed-answers s id class rs a in
    let (c, f, v) = go (id == r.rlsymptr) refl (same_class class o.target.class) refl b w in
    (
      c,
      ap (chosen (is_listed s.modules id class rs)) (ap (is_listed_at class) o.target_at)
          ∙ ap (λ p. chosen p (some (same_class class o.target.class))) e
          ∙ f,
      v,
    )
  where
    rank : module_rank r.rlmodptr s ≡ (o.target.class + 128) % 256
    rank = ap rank_of o.target_at

    chosen : (rest found : Option Bool) → Option Bool
    chosen rest found =
        if id == r.rlsymptr
        then elim found [ none ↦ none | some true ↦ some true | some false ↦ rest ]
        else rest

    go :
        (here : Bool)
        → (id == r.rlsymptr) ≡ here
        → (listed : Bool) → same_class class o.target.class ≡ listed
        → (b : Bool) → Answer id ((class + 128) % 256) s rs b
        → (c : Bool) × ((if here
              then elim (some listed) as (λ _. Option Bool) [
                | none ↦ none
                | some true ↦ some true
                | some false ↦ some b
              ]
              else some b)
            ≡ some c)
          × Answer id ((class + 128) % 256) s (r ∷ rs) c
    go true h true k b w = (
      true,
      refl,
      (
        λ g. record {
          i = 0;
          r = r;
          lists = refl;
          redefines = sym (==→eq id r.rlsymptr h);
          class = rank ∙ sym (==→eq _ _ k);
        },
        λ g. absurd (cc),
      ),
    )
    go true h false k b w =
        (b, refl, Answer-tail id _ s r rs b (λ g. absurd (ground (arith, k, sym rank ∙ g.1))) w)
    go false h l k b w =
        (b, refl, Answer-tail id _ s r rs b (λ g. absurd (ground (arith, h, g.0))) w)
