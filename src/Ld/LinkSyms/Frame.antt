-- ===== src/Ld/LinkSyms/Frame.antt =====
-- ld/linksyms.c: loading modules changes flags only.
use mc6801_tools.Base.{
  ℕ, zero, suc, ◌≡◌, refl, ap, ◌∙◌, Bool, true, false, Option, none, some, List, [], ◌∷◌, get_elem?,
  some_inj, then-some,
}
use mathlib.Core.Path.{subst}
use mc6801_tools.Ld.LinkSyms.{
  LinkModule, LinkSymbol, Links, Linking, set_loadflag, visit_flag, visit_symbol, visit, each,
  references, linkrefs, link_symbol, link_entry, then_link, link_start, clear_loadflags, ScriptRoot,
  keeps, asserts, link_script, link_from, link_roots,
}

abbrev pub OnlyFlags : Links → Links → Type 0
OnlyFlags s t = t ≡ record s { loadflags = t.loadflags }

only_trans : (s t u : Links) → OnlyFlags s t → OnlyFlags t u → OnlyFlags s u
only_trans s t u p q = q ∙ ap (λ (v : Links). record v { loadflags = u.loadflags }) p

abbrev KeepsRest : Linking → Type 0
KeepsRest f = (s t : Links) → f s ≡ some t → OnlyFlags s t

same-KeepsRest : (s t : Links) → some s ≡ some t → OnlyFlags s t
same-KeepsRest s t e = subst (OnlyFlags s) (some_inj s t e) refl

each-KeepsRest :
    {A : Type 0} (f : A → Linking)
    → ((x : A) → KeepsRest (f x))
    → (xs : List A) → KeepsRest (each f xs)
unfolding each
each-KeepsRest f k [] s t e = same-KeepsRest s t e
each-KeepsRest f k (x ∷ xs) s t e =
    let (u, g, h) = then-some (f x s) (each f xs) t e in
    only_trans s u t (k x s u g) (each-KeepsRest f k xs u t h)

flag-KeepsRest :
    (f : ℕ → Linking)
    → ((x : ℕ) → KeepsRest (f x))
    → (m : ℕ) (s t : Links) (o : Option Bool) → visit_flag f m s o ≡ some t
    → OnlyFlags s t
unfolding visit_flag
flag-KeepsRest f k m s t none h = absurd (cc)
flag-KeepsRest f k m s t (some true) h = same-KeepsRest s t h
flag-KeepsRest f k m s t (some false) h = k m s t h

visit-KeepsRest :
    (f : ℕ → Linking) → ((x : ℕ) → KeepsRest (f x)) → (id : ℕ) → KeepsRest (visit f id)
unfolding visit_symbol visit_flag
visit-KeepsRest f k id s t e = at_symbol (get_elem? s.symbols id) e
  where
    at_symbol : (o : Option LinkSymbol) → visit_symbol f s o ≡ some t → OnlyFlags s t
    at_symbol none h = absurd (cc)
    at_symbol (some symbol) h =
        flag-KeepsRest f k symbol.modptr s t (get_elem? s.loadflags symbol.modptr) h

references-KeepsRest :
    (f : ℕ → Linking)
    → ((x : ℕ) → KeepsRest (f x))
    → (m : ℕ) (o : Option LinkModule) → KeepsRest (λ s. references f m s o)
unfolding references
references-KeepsRest f k m none s t h = absurd (cc)
references-KeepsRest f k m (some found) s t h =
    only_trans s (set_loadflag m s) t refl
      (each-KeepsRest (visit f) (visit-KeepsRest f k) found.symparray (set_loadflag m s) t h)

linkrefs-KeepsRest : (n m : ℕ) → KeepsRest (linkrefs n m)
unfolding linkrefs
linkrefs-KeepsRest zero m s t e = absurd (cc)
linkrefs-KeepsRest (suc n) m s t e =
    references-KeepsRest (linkrefs n) (linkrefs-KeepsRest n) m (get_elem? s.modules m) s t e

entry-KeepsRest : (n id : ℕ) → KeepsRest (link_entry n id)
unfolding link_symbol
entry-KeepsRest n id s t e = go (get_elem? s.symbols id) e
  where
    go : (o : Option LinkSymbol) → link_symbol n s o ≡ some t → OnlyFlags s t
    go none h = absurd (cc)
    go (some symbol) h = linkrefs-KeepsRest n symbol.modptr s t h

script-KeepsRest : (n : ℕ) (root : ScriptRoot) → KeepsRest (link_script n root)
script-KeepsRest n (keeps m) s t e =
    flag-KeepsRest (linkrefs n) (linkrefs-KeepsRest n) m s t (get_elem? s.loadflags m) e
script-KeepsRest n (asserts id) s t e = visit-KeepsRest (linkrefs n) (linkrefs-KeepsRest n) id s t e

start-KeepsRest : (n : ℕ) (o : Option ℕ) → KeepsRest (link_start n o)
start-KeepsRest n none s t e = same-KeepsRest s t e
start-KeepsRest n (some id) s t e = entry-KeepsRest n id s t e

pub link_roots-OnlyFlags : (n : ℕ) (s t : Links) → link_roots n s ≡ some t → OnlyFlags s t
unfolding link_roots link_from
link_roots-OnlyFlags n s t e = go s.entries e
  where
    go : (as1 : List ℕ) → link_from n s as1 ≡ some t → OnlyFlags s t
    go [] h = absurd (cc)
    go (a ∷ as1) h =
        let z : Links = clear_loadflags s in
        let (u, g, h') =
          then-some (each (link_entry n) (a ∷ as1) z)
            (λ v. then_link (each (link_script n) s.script_roots v) (link_start n s.start)) t h in
        let (v, g', h'') =
          then-some (each (link_script n) s.script_roots u) (link_start n s.start) t h' in
        only_trans s z t refl (
          only_trans z u t (each-KeepsRest (link_entry n) (entry-KeepsRest n) (a ∷ as1) z u g) (
            only_trans u v t
              (each-KeepsRest (link_script n) (script-KeepsRest n) s.script_roots u v g')
              (start-KeepsRest n s.start v t h'')))
