-- ===== src/Ld/LinkSyms/Pass.antt =====
-- ld/linksyms.c: a pass loads exactly the modules that the roots reach.
use mc6801_tools.Base.{
  ℕ, zero, suc, ◌≡◌, ◌≢◌, ◌↔◌, inl, inr, refl, sym, ap, ◌∙◌, true, false, Option, none, some, List,
  ◌∷◌, length, get_elem?, replicate, length-replicate, some_inj,
}
use mathlib.Core.Path.{subst}
use mc6801_tools.Ld.LinkSyms.{
  LinkModule, Links, each, link_entry, then_link, link_start, clear_loadflags, ScriptRoot,
  link_script, link_from, link_roots, all_modules,
}
use mc6801_tools.Ld.LinkSyms.Reach.{Loaded, SameGraph, IsFlagged, same_back}
use mc6801_tools.Ld.LinkSyms.Termination.{IsLinked, IsClosed, Leads, Leads-same, Covers}
use mc6801_tools.Ld.LinkSyms.Loading.{SameGraph-trans, Covers-same, each-Covers}
use mc6801_tools.Ld.LinkSyms.Roots.{
  FromSymbol, FromSymbol-same, IsRoot, FromRoot, IsRoot-same, FromRoot-same, entry-Covers,
  entry_kind, script_kind,
}

-- What the roots of a pass reach: the entry symbols, what the script links, and `start`.
pub data IsReached (s : Links) (x : ℕ) : Type 0 where
  by_entry : (i id : ℕ) → get_elem? s.entries i ≡ some id → FromSymbol s id x → IsReached s x
  by_script :
      (i : ℕ) (root : ScriptRoot)
      → get_elem? s.script_roots i ≡ some root
      → FromRoot s root x
      → IsReached s x
  by_start : (id : ℕ) → s.start ≡ some id → FromSymbol s id x → IsReached s x

-- There is an entry symbol, and all roots and all symbols of modules lead to modules.
pub record IsReady (s : Links) : Type 0 where
  pub entry : ℕ
  pub others : List ℕ
  pub entries : s.entries ≡ entry ∷ others
  pub entries_lead : (i id : ℕ) → get_elem? s.entries i ≡ some id → Leads s id
  pub script_leads :
      (i : ℕ) (root : ScriptRoot) → get_elem? s.script_roots i ≡ some root → IsRoot s root
  pub start_leads : (id : ℕ) → s.start ≡ some id → Leads s id
  pub leads :
      (m : ℕ) (found : LinkModule) (i id : ℕ)
      → get_elem? s.modules m ≡ some found
      → get_elem? found.symparray i ≡ some id
      → Leads s id

not_loaded : (n x : ℕ) → get_elem? (replicate n false) x ≢ some true
not_loaded zero x h = cc
not_loaded (suc n) zero h = no_path (some_inj false true h)
  where
    no_path : false ≢ true
    no_path e = cc
not_loaded (suc n) (suc x) h = not_loaded n x h

cleared-IsLinked : (s : Links) → IsReady s → IsLinked (clear_loadflags s)
cleared-IsLinked s r = record {
  flagged = length-replicate (length s.modules) false;
  leads = λ m found i id a b.
      Leads-same s (clear_loadflags s) id (refl, refl) (r.leads m found i id a b);
}

-- Nothing more to do without the symbol.
start-Covers :
    (size : ℕ) (o : Option ℕ) (s : Links)
    → IsLinked s
    → IsClosed s
    → length s.modules ≡ size
    → ((id : ℕ) → o ≡ some id → Leads s id)
    → (t : Links) × (link_start (suc size) o s ≡ some t)
      × Covers (λ x. (id : ℕ) × (o ≡ some id) × FromSymbol s id x) s t
start-Covers size none s ok c n l = (
  s,
  refl,
  record {
    same = (refl, refl);
    linked = ok;
    closed = c;
    only = λ x k. inl k;
    before = λ x k. k;
    reaches = λ x k. absurd (nothing k.0 k.1);
  },
)
  where
    nothing : (id : ℕ) → none ≢ some id
    nothing id h = cc
start-Covers size (some id) s ok c n l =
    let (t, e, p) = entry-Covers size id s ok c n (l id refl) in
    (
      t,
      e,
      Covers-same (FromSymbol s id) _ s t (λ x k. (id, refl, k))
          (λ x k. subst (λ i. FromSymbol s i x) (sym (some_inj id k.0 k.1)) k.2) p,
    )

-- A pass over the roots returns, with the modules and symbols as they were and a flag for every module, and a
-- module is loaded then exactly if a root reaches it.
pub link_roots-loads :
    (s : Links)
    → IsReady s
    → (t : Links) × (link_roots (all_modules s) s ≡ some t)
      × SameGraph s t
      × IsFlagged t
      × ((x : ℕ) → Loaded t x ↔ IsReached s x)
unfolding link_roots link_from entry_kind script_kind
link_roots-loads s r =
    let n = length s.modules in
    let z : Links = clear_loadflags s in
    let (t, e, p) =
      each-Covers ℕ (link_entry (suc n)) n (entry_kind n) s.entries z (cleared-IsLinked s r)
        (λ x y l. absurd (not_loaded n x l)) refl
        (λ i id a. Leads-same s z id (refl, refl) (r.entries_lead i id a)) in
    let (u, f, q) =
      each-Covers ScriptRoot (link_script (suc n)) n (script_kind n) s.script_roots t p.linked
        p.closed (ap length p.same.0)
        (λ i root a. IsRoot-same s t root p.same (r.script_leads i root a)) in
    let all = SameGraph-trans z t u p.same q.same in
    let (v, g, w) =
      start-Covers n s.start u q.linked q.closed (ap length all.0)
        (λ id a. Leads-same s u id all (r.start_leads id a)) in
    let next = λ (o : Option Links).
      then_link o (λ b.
        then_link (each (link_script (suc n)) s.script_roots b) (link_start (suc n) s.start)) in
    (
      v,
      ap (link_from (suc n) s) r.entries
          ∙ ap (λ as1. next (each (link_entry (suc n)) as1 z)) (sym r.entries)
          ∙ ap next e
          ∙ ap (λ o. then_link o (link_start (suc n) s.start)) f
          ∙ g,
      SameGraph-trans s u v all w.same,
      w.linked.flagged,
      λ x. (
        λ l. elim (w.only x l) [
          | inr k ↦ by_start k.0 k.1 (FromSymbol-same s u k.0 x all k.2)
          | inl l' ↦ elim (q.only x l') [
            | inr k ↦ by_script k.i k.a k.lists (FromRoot-same s t k.a x p.same k.from)
            | inl l'' ↦ elim (p.only x l'') [
              | inr k ↦ by_entry k.i k.a k.lists (FromSymbol-same s z k.a x (refl, refl) k.from)
              | inl k ↦ absurd (not_loaded n x k)
            ]
          ]
        ],
        λ k. elim k [
          | by_entry i id a b ↦ w.before x (
              q.before x (
                p.reaches x (record {
                  i = i;
                  a = id;
                  lists = a;
                  from = FromSymbol-same z s id x (refl, refl) b;
                })))
          | by_script i m a b ↦ w.before x (
              q.reaches x (record {
                i = i;
                a = m;
                lists = a;
                from = FromRoot-same t s m x (same_back s t p.same) b;
              }))
          | by_start id a b ↦ w.reaches x (id, a, FromSymbol-same u s id x (same_back s u all) b)
        ],
      ),
    )
