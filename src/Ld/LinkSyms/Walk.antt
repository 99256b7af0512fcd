-- ===== src/Ld/LinkSyms/Walk.antt =====
-- ld/linksyms.c: the walk along the list of redefinitions returns, and a walk that changes something leaves
-- fewer redefinitions that could.
use mc6801_tools.Base.{
  ℕ, zero, suc, ◌≤◌, ◌<◌, ◌≡◌, ◌≢◌, refl, ap, ◌∙◌, Bool, true, false, not, ◌||◌, Option, none, some,
  List, [], ◌∷◌, get_elem?, All, ltb, ltb→lt, if◌then◌else◌, arith,
}
use mc6801_tools.Ld.LinkSyms.{Redefinition, Links, is_better, rebind, keep, walk_redlist}
use mc6801_tools.Ld.LinkSyms.Termination.{Leads}
use mc6801_tools.Ld.LinkSyms.Ranks.{
  rank_of, module_rank, symbol_rank, IsSound, IsSound-IsMade, is_better-ranks, gain, gains,
  gain_falls, Raises, Raises-self, Raises-trans, gains_fall,
}
use mc6801_tools.Ld.LinkSyms.Rebind.{rank-rebind, rebind-Raises, rebind-Leads, rebind-IsSound}

-- What a walk decides about one redefinition.
pub decided :
    (r : Redefinition) (s : Links)
    → IsSound s r
    → (b : Bool) × (is_better r s ≡ some b)
      × (b ≡ true → symbol_rank r.rlsymptr s < module_rank r.rlmodptr s)
decided r s o =
    go o.flag (ltb (symbol_rank r.rlsymptr s) (module_rank r.rlmodptr s)) refl
      (is_better-ranks s r o)
  where
    go :
        (f higher : Bool)
        → ltb (symbol_rank r.rlsymptr s) (module_rank r.rlmodptr s) ≡ higher
        → is_better r s ≡ (if f then some higher else some false)
        → (b : Bool) × (is_better r s ≡ some b)
          × (b ≡ true → symbol_rank r.rlsymptr s < module_rank r.rlmodptr s)
    go true higher k e = (higher, e, λ h. ltb→lt _ _ (k ∙ h))
    go false higher k e = (false, e, λ h. absurd (no_path h))
      where
        no_path : false ≢ true
        no_path h = cc

-- A walk changes symbols only. One that changes none keeps the list, and finds no better definition; one that
-- does leaves fewer that could be better.
pub record Walked (s : Links) (rs left : List Redefinition) (t : Links) (needlink : Bool)
    : Type 0 where
  pub others : t ≡ record s { symbols = t.symbols }
  pub raises : Raises s t
  pub leads : (id : ℕ) → Leads s id → Leads t id
  pub sound : All (IsSound t) left
  pub steady : needlink ≡ false → (left ≡ rs) × (t ≡ s) × All (λ r. is_better r s ≡ some false) rs
  pub fewer : gains t left ≤ gains s rs
  pub falls : needlink ≡ true → gains t left < gains s rs

abbrev pub WalkReturns : Bool → Bool → List Redefinition → Links → Type 0
WalkReturns first linked rs s =
    (left : List Redefinition) × (t : Links) × (needlink : Bool) × (walk_redlist first linked rs s
      ≡ some (left, (t, needlink)))
    × Walked s rs left t needlink

IsSound-after :
    (s t : Links) (r : Redefinition)
    → t ≡ record s { symbols = t.symbols }
    → Raises s t
    → ((id : ℕ) → Leads s id → Leads t id)
    → IsSound s r
    → IsSound t r
IsSound-after s t r e p l o = record {
  flag = o.flag;
  flagged = ap (λ (v : Links). get_elem? v.loadflags r.rlmodptr) e ∙ o.flagged;
  target = o.target;
  target_at = ap (λ ms. get_elem? ms r.rlmodptr) p.modules ∙ o.target_at;
  leads = l r.rlsymptr o.leads;
}

no_gain : {a b c : ℕ} → b ≤ a → c ≡ b → (if ltb a c then suc zero else zero) ≡ zero
no_gain h k = ground (arith, h, k)

one_gain : {a b : ℕ} → a < b → (if ltb a b then suc zero else zero) ≡ suc zero
one_gain h = ground (arith, h)

IsSound-rebind :
    (r : Redefinition) (s : Links) (o : IsSound s r) (rs : List Redefinition)
    → All (IsSound s) rs
    → All (IsSound (rebind r s)) rs
IsSound-rebind r s o [] a = a
IsSound-rebind r s o (q ∷ rs) a =
    (rebind-IsSound r s (IsSound-IsMade s r o) q a.0, IsSound-rebind r s o rs a.1)

abbrev choose :
    Bool
    → Redefinition
    → (passed taken : Option (List Redefinition × (Links × Bool))) → Option Bool
    → Option (List Redefinition × (Links × Bool))
choose kept r passed taken o = elim o [
  | none ↦ none
  | some false ↦ keep true r false passed
  | some true ↦ keep kept r true taken
]

passed-Walked :
    (r : Redefinition) (s : Links) (rs left : List Redefinition) (t : Links) (needlink : Bool)
    → IsSound s r
    → is_better r s ≡ some false
    → Walked s rs left t needlink
    → Walked s (r ∷ rs) (r ∷ left) t (false || needlink)
unfolding gains
passed-Walked r s rs left t needlink o e w = record {
  others = w.others;
  raises = w.raises;
  leads = w.leads;
  sound = (IsSound-after s t r w.others w.raises w.leads o, w.sound);
  steady = λ h. let (a, b, c) = w.steady h in (ap (λ l. r ∷ l) a, b, (e, c));
  fewer = omega (arith, gain_falls s t r w.raises, w.fewer);
  falls = λ h. omega (arith, gain_falls s t r w.raises, w.falls h);
}

taken-Walked :
    (r : Redefinition) (s : Links) (rs left : List Redefinition) (t : Links) (kept needlink : Bool)
    → IsSound s r
    → symbol_rank r.rlsymptr s < module_rank r.rlmodptr s
    → Walked (rebind r s) rs left t needlink
    → Walked s (r ∷ rs) (if kept then r ∷ left else left) t (true || needlink)
unfolding gains
taken-Walked r s rs left t kept needlink o lt w = record {
  others = w.others;
  raises = raised;
  leads = leads;
  sound = both kept;
  steady = λ h. absurd (no_path h);
  fewer = omega (arith, counted);
  falls = λ h. counted;
}
  where
    no_path : true ≢ false
    no_path e = cc

    raised : Raises s t
    raised = Raises-trans s (rebind r s) t (rebind-Raises r s (IsSound-IsMade s r o) lt) w.raises

    leads : (id : ℕ) → Leads s id → Leads t id
    leads id l = w.leads id (rebind-Leads r s (IsSound-IsMade s r o) id l)

    both : (b : Bool) → All (IsSound t) (if b then r ∷ left else left)
    both true = (IsSound-after s t r w.others raised leads o, w.sound)
    both false = w.sound

    spent : gain t r ≡ 0
    spent =
        no_gain (omega (arith, w.raises.ranks r.rlsymptr, rank-rebind r s (IsSound-IsMade s r o)))
          (ap (λ ms. rank_of (get_elem? ms r.rlmodptr)) raised.modules)

    gained : gain s r ≡ 1
    gained = one_gain lt

    counts : (b : Bool) → gains t (if b then r ∷ left else left) ≤ gains t left
    counts true = omega (arith, spent)
    counts false = omega arith

    counted : gains t (if kept then r ∷ left else left) < gains s (r ∷ rs)
    counted = omega (
      arith,
      counts kept,
      gained,
      w.fewer,
      gains_fall s (rebind r s) rs (rebind-Raises r s (IsSound-IsMade s r o) lt),
    )

-- A walk returns.
pub walk_redlist-Walked :
    (first linked : Bool) (rs : List Redefinition) (s : Links)
    → All (IsSound s) rs
    → WalkReturns first linked rs s
unfolding walk_redlist
walk_redlist-Walked first linked [] s a = (
  [],
  s,
  false,
  refl,
  record {
    others = refl;
    raises = Raises-self s;
    leads = λ id l. l;
    sound = a;
    steady = λ h. (refl, refl, a);
    fewer = omega arith;
    falls = λ h. absurd (cc);
  },
)
walk_redlist-Walked first linked (r ∷ rs) s (o, a) =
    let (b, e, lt) = decided r s o in
    go b e lt (walk_redlist-Walked false true rs s a) (
      walk_redlist-Walked first (not (first || linked)) rs (rebind r s) (IsSound-rebind r s o rs a))
  where
    go :
        (b : Bool)
        → is_better r s ≡ some b
        → (b ≡ true → symbol_rank r.rlsymptr s < module_rank r.rlmodptr s)
        → WalkReturns false true rs s
        → WalkReturns first (not (first || linked)) rs (rebind r s)
        → WalkReturns first linked (r ∷ rs) s
    go false e lt (left, t, n, f, w) taken = (
      r ∷ left,
      t,
      false || n,
      ap (choose (not (first || linked)) r _ _) e ∙ ap (keep true r false) f,
      passed-Walked r s rs left t n o e w,
    )
    go true e lt passed (left, t, n, f, w) = (
      _,
      t,
      true || n,
      ap (choose (not (first || linked)) r _ _) e ∙ ap (keep (not (first || linked)) r true) f,
      taken-Walked r s rs left t (not (first || linked)) n o (lt refl) w,
    )
