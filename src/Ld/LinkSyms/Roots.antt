-- ===== src/Ld/LinkSyms/Roots.antt =====
-- ld/linksyms.c, ld/script.c: the kinds of roots of a pass.
use mc6801_tools.Base.{
  ℕ, suc, ◌<◌, ◌≡◌, inl, refl, sym, ap, ◌∙◌, Bool, true, false, some, length, get_elem?, arith,
  some_inj,
}
use mathlib.Core.Path.{subst}
use mc6801_tools.Ld.LinkSyms.{
  LinkModule, LinkSymbol, Links, linkrefs, link_symbol, link_entry, ScriptRoot, keeps, asserts,
  link_script, visit_flag, visit_symbol,
}
use mc6801_tools.Ld.LinkSyms.Reach.{Reaches, SameGraph, Reaches-same, same_places}
use mc6801_tools.Ld.LinkSyms.Termination.{
  IsLinked, IsClosed, Leads, Leads-same, Covers, linkrefs-Covers, reached,
}
use mc6801_tools.Ld.LinkSyms.Loading.{Covers-same, Kind}

-- The modules of the entry symbols.
pub record FromSymbol (s : Links) (id x : ℕ) : Type 0 where
  pub symbol : LinkSymbol
  pub names : get_elem? s.symbols id ≡ some symbol
  pub reaches : Reaches s symbol.modptr x

pub FromSymbol-same :
    (s t : Links) (id x : ℕ) → SameGraph s t → FromSymbol t id x → FromSymbol s id x
FromSymbol-same s t id x h k = record {
  symbol = k.symbol;
  names = sym (ap (λ ss. get_elem? ss id) h.1) ∙ k.names;
  reaches = Reaches-same s t k.symbol.modptr x h k.reaches;
}

-- The module of a symbol.
Covers-symbol :
    (s t : Links) (id : ℕ) (l : Leads s id)
    → Covers (λ x. Reaches s l.symbol.modptr x) s t
    → Covers (FromSymbol s id) s t
Covers-symbol s t id l =
    Covers-same (λ x. Reaches s l.symbol.modptr x) (FromSymbol s id) s t
      (λ x r. record { symbol = l.symbol; names = l.names; reaches = r })
      (λ x k.
        subst (λ y. Reaches s y.modptr x) (some_inj k.symbol l.symbol (sym k.names ∙ l.names))
          k.reaches)

pub entry-Covers :
    (size id : ℕ) (s : Links)
    → IsLinked s
    → IsClosed s
    → length s.modules ≡ size
    → Leads s id
    → (t : Links) × (link_entry (suc size) id s ≡ some t) × Covers (FromSymbol s id) s t
unfolding link_symbol
entry-Covers size id s ok c n l =
    let (t, e, p) =
      linkrefs-Covers (suc size) l.symbol.modptr l.found s ok c l.at (omega (arith, n)) in
    (t, ap (link_symbol (suc size) s) l.names ∙ e, Covers-symbol s t id l p)

unfoldable pub entry_kind : (size : ℕ) → Kind ℕ (link_entry (suc size)) size
entry_kind size = record {
  IsValid = Leads;
  From = FromSymbol;
  valid_same = λ s t id h l. Leads-same s t id h l;
  from_same = λ s t id x h k. FromSymbol-same s t id x h k;
  loads = λ id s ok c n l. entry-Covers size id s ok c n l;
}

-- What the script links.
abbrev pub IsRoot : Links → ScriptRoot → Type 0
IsRoot s (keeps m) = (found : LinkModule) × (get_elem? s.modules m ≡ some found)
IsRoot s (asserts id) = Leads s id

abbrev pub FromRoot : Links → ScriptRoot → ℕ → Type 0
FromRoot s (keeps m) x = Reaches s m x
FromRoot s (asserts id) x = FromSymbol s id x

pub IsRoot-same : (s t : Links) (root : ScriptRoot) → SameGraph s t → IsRoot s root → IsRoot t root
IsRoot-same s t (keeps m) h v = (v.0, ap (λ ms. get_elem? ms m) h.0 ∙ v.1)
IsRoot-same s t (asserts id) h v = Leads-same s t id h v

pub FromRoot-same :
    (s t : Links) (root : ScriptRoot) (x : ℕ)
    → SameGraph s t
    → FromRoot t root x
    → FromRoot s root x
FromRoot-same s t (keeps m) x h k = Reaches-same s t m x h k
FromRoot-same s t (asserts id) x h k = FromSymbol-same s t id x h k

-- A module is linked if it is not loaded.
flag-Covers :
    (n m : ℕ) (found : LinkModule) (s : Links)
    → IsLinked s
    → IsClosed s
    → get_elem? s.modules m ≡ some found
    → length s.modules < n
    → (t : Links) × (visit_flag (linkrefs n) m s (get_elem? s.loadflags m) ≡ some t)
      × Covers (λ x. Reaches s m x) s t
unfolding visit_flag
flag-Covers n m found s ok c at lt =
    let (b, e) = same_places s.modules s.loadflags m found ok.flagged at in
    let (t, f, p) = go b e in (t, ap (visit_flag (linkrefs n) m s) e ∙ f, p)
  where
    go :
        (b : Bool)
        → get_elem? s.loadflags m ≡ some b
        → (t : Links) × (visit_flag (linkrefs n) m s (some b) ≡ some t)
          × Covers (λ x. Reaches s m x) s t
    go true e = (
      s,
      refl,
      record {
        same = (refl, refl);
        linked = ok;
        closed = c;
        only = λ x l. inl l;
        before = λ x l. l;
        reaches = λ x r. reached s m x c r e;
      },
    )
    go false e = linkrefs-Covers n m found s ok c at lt

module _ (size : ℕ) (s : Links) (ok : IsLinked s) (c : IsClosed s)
    (all : length s.modules ≡ size) where
  pub root-Covers :
      (root : ScriptRoot)
      → IsRoot s root
      → (t : Links) × (link_script (suc size) root s ≡ some t) × Covers (FromRoot s root) s t
  unfolding visit_symbol
  root-Covers (keeps m) v = flag-Covers (suc size) m v.0 s ok c v.1 (omega (arith, all))
  root-Covers (asserts id) l =
      let (t, e, p) =
        flag-Covers (suc size) l.symbol.modptr l.found s ok c l.at (omega (arith, all)) in
      (t, ap (visit_symbol (linkrefs (suc size)) s) l.names ∙ e, Covers-symbol s t id l p)

unfoldable pub script_kind : (size : ℕ) → Kind ScriptRoot (link_script (suc size)) size
script_kind size = record {
  IsValid = IsRoot;
  From = FromRoot;
  valid_same = λ s t root h v. IsRoot-same s t root h v;
  from_same = λ s t root x h k. FromRoot-same s t root x h k;
  loads = λ root s ok c n v. root-Covers size s ok c n root v;
}
