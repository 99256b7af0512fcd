-- ===== src/Ld/LinkSyms.antt =====
-- ld/linksyms.c: which modules are loaded, and which of several definitions of a symbol counts. Modules
-- and symbols are named by their places in lists; a place that does not exist is a null pointer.
pub mod Reach
pub mod Recursion
pub mod Termination
pub mod Loading
pub mod Roots
pub mod Pass
pub mod Ranks
pub mod Rebind
pub mod Walk
pub mod Frame
pub mod Passes
pub mod Listed
pub mod Redefine
use mc6801_tools.Base.{
  ℕ, zero, suc, ◌+◌, ◌%◌, Bool, true, false, not, ◌&&◌, Option, none, some, List, [], ◌∷◌, map,
  length, get_elem?, set, replicate, ltb, ◌==◌, if◌then◌else◌, ◌||◌,
}

pub record LinkModule : Type 0 where
  pub class : ℕ
  pub symparray : List ℕ

pub record LinkSymbol : Type 0 where
  pub modptr : ℕ
  pub value : ℕ

-- `struct redlist`: another definition of a symbol.
pub record Redefinition : Type 0 where
  pub rlsymptr : ℕ
  pub rlmodptr : ℕ
  pub rlvalue : ℕ

-- What the linker script links: the modules that match a KEEP pattern, and the modules of the symbols that an
-- ASSERT names.
pub data ScriptRoot : Type 0 where
  keeps : (m : ℕ) → ScriptRoot
  asserts : (id : ℕ) → ScriptRoot

-- `entries` are the entry symbols, `script_roots` what the script links, in its order, and `start` and
-- `main` are what `findsym` finds for `start` and `_main`.
pub record Links : Type 0 where
  pub modules : List LinkModule
  pub symbols : List LinkSymbol
  pub loadflags : List Bool
  pub redlist : List Redefinition
  pub entries : List ℕ
  pub script_roots : List ScriptRoot
  pub start : Option ℕ
  pub main : Option ℕ

abbrev pub Linking : Type 0
Linking = Links → Option Links

abbrev pub set_loadflag : ℕ → Links → Links
set_loadflag m s = record s { loadflags = set s.loadflags m true }

-- A module that a symbol refers to, unless its flag is set.
unfoldable pub visit_flag : (ℕ → Linking) → ℕ → Links → Option Bool → Option Links
visit_flag f m s none = none
visit_flag f m s (some true) = some s
visit_flag f m s (some false) = f m s

unfoldable pub visit_symbol : (ℕ → Linking) → Links → Option LinkSymbol → Option Links
unfolding visit_flag
visit_symbol f s none = none
visit_symbol f s (some symbol) = visit_flag f symbol.modptr s (get_elem? s.loadflags symbol.modptr)

abbrev pub visit : (ℕ → Linking) → ℕ → Linking
visit f id s = visit_symbol f s (get_elem? s.symbols id)

-- A loop, which ends where a call does not return.
unfoldable pub each {ℓ} : {A : Type ℓ} → (A → Linking) → List A → Linking
each f [] s = some s
each f (x ∷ xs) s = elim (f x s) [ none ↦ none | some t ↦ each f xs t ]

unfoldable pub references : (ℕ → Linking) → ℕ → Links → Option LinkModule → Option Links
unfolding each visit_symbol
references f m s none = none
references f m s (some found) = each (visit f) found.symparray (set_loadflag m s)

-- The recursion, on fuel.
unfoldable pub linkrefs : ℕ → ℕ → Linking
unfolding references
linkrefs zero m s = none
linkrefs (suc n) m s = references (linkrefs n) m s (get_elem? s.modules m)

-- `linkrefs` of the module of an entry symbol.
unfoldable pub link_symbol : ℕ → Links → Option LinkSymbol → Option Links
unfolding linkrefs
link_symbol n s none = none
link_symbol n s (some symbol) = linkrefs n symbol.modptr s

abbrev pub link_entry : ℕ → ℕ → Linking
link_entry n id s = link_symbol n s (get_elem? s.symbols id)

-- `exprroots` and `stmtroots`: a module that is not loaded.
abbrev pub link_script : ℕ → ScriptRoot → Linking
link_script n (keeps m) s = visit_flag (linkrefs n) m s (get_elem? s.loadflags m)
link_script n (asserts id) s = visit (linkrefs n) id s

abbrev pub then_link : Option Links → Linking → Option Links
then_link o k = elim o [ none ↦ none | some t ↦ k t ]

abbrev pub link_start : ℕ → Option ℕ → Linking
link_start n none s = some s
link_start n (some id) s = link_entry n id s

abbrev pub clear_loadflags : Links → Links
clear_loadflags s = record s { loadflags = replicate (length s.modules) false }

-- The modules of the entry symbols, those that the script links, and the one of the symbol `start`. Without an
-- entry symbol the program stops.
unfoldable pub link_from : ℕ → Links → List ℕ → Option Links
unfolding each link_symbol
link_from n s [] = none
link_from n s (entry ∷ entries) =
    then_link (each (link_entry n) (entry ∷ entries) (clear_loadflags s))
      (λ t. then_link (each (link_script n) s.script_roots t) (link_start n s.start))

unfoldable pub link_roots : ℕ → Linking
unfolding link_from
link_roots n s = link_from n s s.entries

abbrev pub all_modules : Links → ℕ
all_modules s = suc (length s.modules)

-- The class of a module is a signed char.
abbrev pub class_less : ℕ → ℕ → Bool
class_less a b = ltb ((a + 128) % 256) ((b + 128) % 256)

-- Whether a loaded module has a definition of a higher class. `none` is a null pointer.
unfoldable pub compare_classes : Option LinkModule → Option LinkModule → Option Bool
compare_classes none current = none
compare_classes (some target) none = none
compare_classes (some target) (some current) = some (class_less current.class target.class)

unfoldable pub better_symbol : Redefinition → Links → Option LinkSymbol → Option Bool
unfolding compare_classes
better_symbol r s none = none
better_symbol r s (some symbol) =
    compare_classes (get_elem? s.modules r.rlmodptr) (get_elem? s.modules symbol.modptr)

unfoldable pub better_flag : Redefinition → Links → Option Bool → Option Bool
unfolding better_symbol
better_flag r s none = none
better_flag r s (some false) = some false
better_flag r s (some true) = better_symbol r s (get_elem? s.symbols r.rlsymptr)

unfoldable pub is_better : Redefinition → Links → Option Bool
unfolding better_flag
is_better r s = better_flag r s (get_elem? s.loadflags r.rlmodptr)

abbrev pub rebind : Redefinition → Links → Links
rebind r s =
    let symbol : LinkSymbol = record { modptr = r.rlmodptr; value = r.rlvalue } in
    record s { symbols = set s.symbols r.rlsymptr symbol }

-- The walk along the list. A node is taken out if it is the first or if the one in front of it is in the list; a
-- node behind one that was taken out of the middle stays in it. The result has the list that stays, the
-- symbols, and `needlink`.
unfoldable pub keep :
    Bool
    → Redefinition
    → Bool
    → Option (List Redefinition × (Links × Bool))
    → Option (List Redefinition × (Links × Bool))
keep kept r taken none = none
keep kept r taken (some (left, (t, needlink))) =
    some (if kept then r ∷ left else left, (t, taken || needlink))

unfoldable pub walk_redlist :
    Bool → Bool → List Redefinition → Links → Option (List Redefinition × (Links × Bool))
unfolding is_better keep
walk_redlist first linked [] s = some ([], (s, false))
walk_redlist first linked (r ∷ rs) s =
    let passed = walk_redlist false true rs s in
    let taken = walk_redlist first (not (first || linked)) rs (rebind r s) in
    elim (is_better r s) [
      | none ↦ none
      | some false ↦ keep true r false passed
      | some true ↦ keep (not (first || linked)) r true taken
    ]

-- `do ... while (needlink)`, on fuel.
unfoldable pub linksyms_on : ℕ → Linking
unfolding link_roots walk_redlist
linksyms_on zero s = none
linksyms_on (suc n) s = then_link (link_roots (all_modules s) s) (λ t.
    elim (walk_redlist true true t.redlist t) [
      | none ↦ none
      | some (left, (u, false)) ↦ some (record u { redlist = left })
      | some (left, (u, true)) ↦ linksyms_on n (record u { redlist = left })
    ])

-- A symbol is put on the list of entry symbols if it is not there.
unfoldable pub add_entry : ℕ → List ℕ → List ℕ
add_entry id [] = id ∷ []
add_entry id (entry ∷ entries) =
    let rest = add_entry id entries in if id == entry then entry ∷ entries else entry ∷ rest

abbrev pub entrysym : ℕ → Links → Links
entrysym id s = record s { entries = add_entry id s.entries }

-- `_main` is an entry symbol, where there is such a symbol.
unfoldable pub enter_main : Option ℕ → Links → Links
unfolding add_entry
enter_main none s = s
enter_main (some id) s = entrysym id s

-- Relocatable output is made of one module, which is loaded.
abbrev pub link_relocatable : Linking
link_relocatable s =
    if length s.modules == 1 then some (record s { loadflags = true ∷ [] }) else none

unfoldable pub linksyms : Bool → Linking
unfolding linksyms_on enter_main
linksyms argreloc_output s =
    let t = enter_main s.main s in
    if argreloc_output then link_relocatable s else linksyms_on (suc (length t.redlist)) t
