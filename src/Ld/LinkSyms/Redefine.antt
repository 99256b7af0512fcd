-- ===== src/Ld/LinkSyms/Redefine.antt =====
-- ld/readobj.c: `redsym`, for a second definition of a symbol, in the module that was read last.
use mc6801_tools.Base.{
  set, ==→eq, ℕ, ◌+◌, ◌%◌, ◌<◌, ◌≡◌, ◌⊎◌, inl, inr, refl, sym, ap, ◌∙◌, Bool, true, false, Option,
  none, some, List, [], ◌∷◌, ◌++◌, All, All-append, get_elem?, ltb→lt, if◌then◌else◌, arith,
}
use mathlib.Core.Path.{subst}
use mc6801_tools.Ld.LinkSyms.{LinkModule, LinkSymbol, Redefinition, Links, class_less, rebind}
use mc6801_tools.Ld.LinkSyms.Termination.{Leads, Leads-same}
use mc6801_tools.Ld.LinkSyms.Ranks.{rank_of, module_rank, IsMade}
use mc6801_tools.Ld.LinkSyms.Listed.{
  same_class, is_listed, Again, Answer, is_listed-answers, set_same,
}
use mc6801_tools.Ld.LinkSyms.Rebind.{rebind-Leads}

abbrev add_redefinition : Redefinition → Links → Links
add_redefinition r s = record s { redlist = s.redlist ++ r ∷ [] }

-- The definition in the module of the higher class goes to the list.
abbrev prefer_lower : Bool → ℕ → ℕ → ℕ → LinkSymbol → Links → Links
prefer_lower lower modlast id value symbol s =
    let new : Redefinition = record { rlsymptr = id; rlmodptr = modlast; rlvalue = value } in
    let old : Redefinition = record {
      rlsymptr = id;
      rlmodptr = symbol.modptr;
      rlvalue = symbol.value;
    } in
    if lower then add_redefinition new s else add_redefinition old (rebind new s)

abbrev settle_listed : Option Bool → Bool → ℕ → ℕ → ℕ → LinkSymbol → Links → Option (Bool × Links)
settle_listed listed lower modlast id value symbol s = elim listed [
  | none ↦ none
  | some true ↦ some (true, s)
  | some false ↦ some (false, prefer_lower lower modlast id value symbol s)
]

unfoldable redsym_classes :
    ℕ → ℕ → ℕ → Links → LinkSymbol → (old last : Option LinkModule) → Option (Bool × Links)
unfolding is_listed
redsym_classes modlast id value s symbol none last = none
redsym_classes modlast id value s symbol (some old) none = none
redsym_classes modlast id value s symbol (some old) (some last) =
    if same_class old.class last.class
    then some (true, s)
    else settle_listed (is_listed s.modules id last.class s.redlist)
        (class_less old.class last.class) modlast id value symbol s

unfoldable redsym_symbol : ℕ → ℕ → ℕ → Links → Option LinkSymbol → Option (Bool × Links)
unfolding redsym_classes
redsym_symbol modlast id value s none = none
redsym_symbol modlast id value s (some symbol) =
    redsym_classes modlast id value s symbol (get_elem? s.modules symbol.modptr)
      (get_elem? s.modules modlast)

-- Whether the definition is one too many.
unfoldable pub redsym : ℕ → ℕ → ℕ → Links → Option (Bool × Links)
unfolding redsym_symbol
redsym modlast id value s = redsym_symbol modlast id value s (get_elem? s.symbols id)

-- The definition of the lower class counts, and the other one is listed.
abbrev pub as_redefinition : ℕ → LinkSymbol → Redefinition
as_redefinition id d = record { rlsymptr = id; rlmodptr = d.modptr; rlvalue = d.value }

pub record Preferred (id : ℕ) (old new : LinkSymbol) (s t : Links) : Type 0 where
  pub counts : LinkSymbol
  pub other : LinkSymbol
  pub which : ((counts ≡ old) × (other ≡ new)) ⊎ ((counts ≡ new) × (other ≡ old))
  pub lower : module_rank counts.modptr s < module_rank other.modptr s
  pub symbols : t.symbols ≡ set s.symbols id counts
  pub listed : t.redlist ≡ s.redlist ++ as_redefinition id other ∷ []

-- The new definition is one too many: the two modules have the same class, or the list has a definition of the
-- symbol in a module of its class.
abbrev pub Clash : ℕ → LinkSymbol → LinkSymbol → Links → Type 0
Clash id old new s =
    (module_rank old.modptr s ≡ module_rank new.modptr s)
    ⊎ Again id (module_rank new.modptr s) s s.redlist

pub record Redefined (id : ℕ) (old new : LinkSymbol) (s t : Links) (refused : Bool) : Type 0 where
  pub modules : t.modules ≡ s.modules
  pub leads : (other : ℕ) → Leads s other → Leads t other
  pub made : All (IsMade t) t.redlist
  pub clash : refused ≡ true → Clash id old new s
  pub no_clash : refused ≡ false → ¬ (Clash id old new s)
  pub refuses : refused ≡ true → t ≡ s
  pub prefers : refused ≡ false → Preferred id old new s t

IsMade-after :
    (s t : Links) (rs : List Redefinition)
    → t.modules ≡ s.modules
    → ((other : ℕ) → Leads s other → Leads t other)
    → All (IsMade s) rs
    → All (IsMade t) rs
IsMade-after s t [] e l a = a
IsMade-after s t (r ∷ rs) e l (o, a) = (
  record {
    target = o.target;
    target_at = ap (λ ms. get_elem? ms r.rlmodptr) e ∙ o.target_at;
    leads = l r.rlsymptr o.leads;
  },
  IsMade-after s t rs e l a,
)

module _ (modlast id value : ℕ) (last : LinkModule) (s : Links) (l : Leads s id)
    (at : get_elem? s.modules modlast ≡ some last) (a : All (IsMade s) s.redlist) where
  abbrev new : LinkSymbol
  new = record { modptr = modlast; value = value }

  old_rank : module_rank l.symbol.modptr s ≡ (l.found.class + 128) % 256
  unfolding rank_of
  old_rank = ap rank_of l.at

  new_rank : module_rank modlast s ≡ (last.class + 128) % 256
  unfolding rank_of
  new_rank = ap rank_of at

  -- The redefinition is put on the list, and the symbol keeps its definition.
  listed-Redefined :
      ¬ (Clash id l.symbol new s)
      → (l.found.class + 128) % 256 < (last.class + 128) % 256
      → Redefined id l.symbol new s (prefer_lower true modlast id value l.symbol s) false
  listed-Redefined n lt = record {
    modules = refl;
    leads = leads;
    made =
        All-append (IsMade t) s.redlist (as_redefinition id new ∷ [])
          (IsMade-after s t s.redlist refl leads a)
          (record { target = last; target_at = at; leads = leads id l }, tt);
    clash = λ h. absurd (cc);
    no_clash = λ h. n;
    refuses = λ h. absurd (cc);
    prefers = λ h. record {
      counts = l.symbol;
      other = new;
      which = inl (refl, refl);
      lower = omega (arith, lt, old_rank, new_rank);
      symbols = sym (set_same s.symbols id l.symbol l.names);
      listed = refl;
    };
  }
    where
      t : Links
      t = add_redefinition (as_redefinition id new) s

      leads : (other : ℕ) → Leads s other → Leads t other
      leads other k = Leads-same s t other (refl, refl) k

  -- The symbol takes the new definition, and the old one is put on the list.
  taken-Redefined :
      ¬ (Clash id l.symbol new s)
      → (last.class + 128) % 256 < (l.found.class + 128) % 256
      → Redefined id l.symbol new s (prefer_lower false modlast id value l.symbol s) false
  taken-Redefined n lt = record {
    modules = refl;
    leads = leads;
    made =
        All-append (IsMade t) s.redlist (as_redefinition id l.symbol ∷ [])
          (IsMade-after s t s.redlist refl leads a)
          (record { target = l.found; target_at = l.at; leads = leads id l }, tt);
    clash = λ h. absurd (cc);
    no_clash = λ h. n;
    refuses = λ h. absurd (cc);
    prefers = λ h. record {
      counts = new;
      other = l.symbol;
      which = inr (refl, refl);
      lower = omega (arith, lt, old_rank, new_rank);
      symbols = refl;
      listed = refl;
    };
  }
    where
      bound : IsMade s (as_redefinition id new)
      bound = record { target = last; target_at = at; leads = l }

      u : Links
      u = rebind (as_redefinition id new) s

      t : Links
      t = add_redefinition (as_redefinition id l.symbol) u

      leads : (other : ℕ) → Leads s other → Leads t other
      leads other k =
          Leads-same u t other (refl, refl) (rebind-Leads (as_redefinition id new) s bound other k)

  unchanged : Clash id l.symbol new s → Redefined id l.symbol new s s true
  unchanged c = record {
    modules = refl;
    leads = λ other k. k;
    made = a;
    clash = λ h. c;
    no_clash = λ h. absurd (cc);
    refuses = λ h. refl;
    prefers = λ h. absurd (cc);
  }

  abbrev decide : Bool → Bool → Option Bool → Option (Bool × Links)
  decide same less o =
      if same then some (true, s) else settle_listed o less modlast id value l.symbol s

  decided :
      (same : Bool)
      → same_class l.found.class last.class ≡ same
      → (b : Bool) → Answer id ((last.class + 128) % 256) s s.redlist b
      → (less : Bool) → class_less l.found.class last.class ≡ less
      → (refused : Bool) × (t : Links) × (decide same less (some b) ≡ some (refused, t))
        × Redefined id l.symbol new s t refused
  decided true h b w less k =
      (true, s, refl, unchanged (inl (old_rank ∙ ==→eq _ _ h ∙ sym new_rank)))
  decided false h true w less k = (
    true,
    s,
    refl,
    unchanged (inr (subst (λ n. Again id n s s.redlist) (sym new_rank) (w.0 refl))),
  )
  decided false h false w less k = go less k
    where
      free : ¬ (Clash id l.symbol new s)
      free (inl e) = absurd (ground (arith, h, sym old_rank ∙ e ∙ new_rank))
      free (inr g) = w.1 refl (subst (λ n. Again id n s s.redlist) new_rank g)

      go :
          (b : Bool)
          → class_less l.found.class last.class ≡ b
          → (refused : Bool) × (t : Links) × (decide false b (some false) ≡ some (refused, t))
            × Redefined id l.symbol new s t refused
      go true e = (false, _, refl, listed-Redefined free (ltb→lt _ _ e))
      go false e = (false, _, refl, taken-Redefined free (ground (arith, h, e)))

-- For a symbol, a module that was read last and a list of redefinitions that all lead to modules, `redsym`
-- returns. It refuses the new definition exactly if the two modules have the same class or the list has a
-- definition of the symbol in a module of the class of the new one, and then changes nothing. Otherwise the one
-- of the two definitions in the module of the lower class counts, with its value, the other one comes behind the
-- list with its value, and the list still leads to modules.
pub redsym-Redefined :
    (modlast id value : ℕ) (last : LinkModule) (s : Links) (l : Leads s id)
    → get_elem? s.modules modlast ≡ some last
    → All (IsMade s) s.redlist
    → (refused : Bool) × (t : Links) × (redsym modlast id value s ≡ some (refused, t))
      × Redefined id l.symbol (record { modptr = modlast; value = value }) s t refused
unfolding redsym redsym_symbol redsym_classes
redsym-Redefined modlast id value last s l at a =
    let same = same_class l.found.class last.class in
    let less = class_less l.found.class last.class in
    let (b, e, w) = is_listed-answers s id last.class s.redlist a in
    let (refused, t, f, p) = decided modlast id value last s l at a same refl b w less refl in
    (
      refused,
      t,
      ap (redsym_symbol modlast id value s) l.names
          ∙ ap (λ o. redsym_classes modlast id value s l.symbol o (get_elem? s.modules modlast))
              l.at
          ∙ ap (redsym_classes modlast id value s l.symbol (some l.found)) at
          ∙ ap (decide modlast id value last s l at a same less) e
          ∙ f,
      p,
    )
