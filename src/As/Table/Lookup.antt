-- ===== src/As/Table/Lookup.antt =====
-- The symbol table as a map from names: what `lookup` finds, and what a new name leaves alone.
use mc6801_tools.Base.{
  ℕ, zero, suc, ◌%◌, ◌≤◌, ◌≡◌, ◌≢◌, refl, sym, ap, ◌∙◌, true, Option, none, some, List, [], ◌∷◌,
  ◌++◌, length, length-append, length-set, get_elem?, get_or, get_or-set_self, get_or-set_ne, set,
  All, All-append, ◌==◌, ==→eq, Bool-cases, inl, inr, ◌⊎◌, arith,
}
use mc6801_tools.As.Asm.{Asm, Symbol}
use mc6801_tools.As.Table.{
  hash, is_named, find_in_chain, chain, install_symbol, lookup_name, lookup_result,
}
use mc6801_tools.As.Table.Chains.{
  AreSymbols, IsTable, find, hash-lt, same_name_self, get_elem?-end, find_in_chain-append,
  find_in_chain-found, find_in_chain-end, find_in_chain-name,
}

-- A name that `lookup` installs.
new_symbol : List ℕ → Asm → Symbol
new_symbol name s = record {
  name = name;
  length = length name % 256;
  kind = 0;
  flags = s.inidata;
  value = 0;
}

new_symbol-is_named : (name : List ℕ) (s : Asm) → is_named name (new_symbol name s) ≡ true
unfolding is_named new_symbol
new_symbol-is_named name s = ground (arith, same_name_self name)

All-get_or :
    (n : ℕ) (spt : List (List ℕ)) (i : ℕ) → All (AreSymbols n) spt → AreSymbols n (get_or spt i [])
All-get_or n [] i h = tt
All-get_or n (ids ∷ spt) zero h = h.0
All-get_or n (ids ∷ spt) (suc i) h = All-get_or n spt i h.1

All-set :
    (n : ℕ) (spt : List (List ℕ)) (i : ℕ) (ids : List ℕ)
    → All (AreSymbols n) spt
    → AreSymbols n ids
    → All (AreSymbols n) (set spt i ids)
All-set n [] i ids h k = h
All-set n (js ∷ spt) zero ids h k = (k, h.1)
All-set n (js ∷ spt) (suc i) ids h k = (h.0, All-set n spt i ids h.1 k)

AreSymbols-mono : (n m : ℕ) (ids : List ℕ) → n ≤ m → AreSymbols n ids → AreSymbols m ids
AreSymbols-mono n m [] le h = h
AreSymbols-mono n m (id ∷ ids) le h = (omega (arith, h.0), AreSymbols-mono n m ids le h.1)

All-mono : (n m : ℕ) (spt : List (List ℕ)) → n ≤ m → All (AreSymbols n) spt → All (AreSymbols m) spt
All-mono n m [] le h = h
All-mono n m (ids ∷ spt) le h = (AreSymbols-mono n m ids le h.0, All-mono n m spt le h.1)

install_symbol-IsTable : (name : List ℕ) (s : Asm) → IsTable s → IsTable (install_symbol name s)
unfolding install_symbol
install_symbol-IsTable name s (len, h) =
    let n = length s.symbols in
    let new = new_symbol name s in
    let up : length s.symbols ≤ length (s.symbols ++ new ∷ []) =
      omega (arith, length-append s.symbols (new ∷ [])) in
    let more = All-mono n (length (s.symbols ++ new ∷ [])) s.spt up h in
    (
      length-set s.spt (hash name) _ ∙ len,
      unfold new_symbol in
          All-set _ s.spt (hash name) _ more (
            All-append _ (chain name s) (n ∷ []) (All-get_or _ s.spt (hash name) more)
              (omega (arith, length-append s.symbols (new ∷ [])), tt)),
    )

install_symbol-find :
    (name : List ℕ) (s : Asm)
    → IsTable s
    → find name s ≡ none
    → find name (install_symbol name s) ≡ some (length s.symbols)
unfolding find install_symbol
install_symbol-find name s (len, h) e =
    let new = new_symbol name s in
    rw
      (get_or-set_self s.spt (hash name) (chain name s ++ length s.symbols ∷ []) []
        (omega (arith, hash-lt name)))
      (unfold new_symbol in
        find_in_chain-end (s.symbols ++ new ∷ []) name (chain name s) (length s.symbols) new
          (find_in_chain-append s.symbols (new ∷ []) name (chain name s)
              (All-get_or _ s.spt (hash name) h)
            ∙ e)
          (get_elem?-end s.symbols new) (new_symbol-is_named name s))

-- The names of other symbols are found where they were.
install_symbol-keeps :
    (name other : List ℕ) (s : Asm) (id : ℕ)
    → IsTable s
    → find other s ≡ some id
    → find other (install_symbol name s) ≡ some id
unfolding find install_symbol new_symbol
install_symbol-keeps name other s id (len, h) e = elim (Bool-cases (hash name == hash other)) [
  | inl same ↦ in_chain (==→eq (hash name) (hash other) same)
  | inr apart ↦ beside (λ (k : hash name ≡ hash other). ground (arith, k))
]
  where
    symbols : List Symbol
    symbols = s.symbols ++ new_symbol name s ∷ []

    there : find_in_chain symbols other (chain other s) ≡ some id
    there =
        find_in_chain-append s.symbols (new_symbol name s ∷ []) other (chain other s)
          (All-get_or _ s.spt (hash other) h)
        ∙ e

    spt : List (List ℕ)
    spt = set s.spt (hash name) (chain name s ++ length s.symbols ∷ [])

    goal : Type 0
    goal = find_in_chain symbols other (get_or spt (hash other) []) ≡ some id

    beside : hash name ≢ hash other → goal
    beside k = rw (get_or-set_ne s.spt (hash name) (hash other) _ [] k) there

    in_chain : hash name ≡ hash other → goal
    in_chain k =
        ap (λ (i : ℕ). find_in_chain symbols other (get_or spt i [])) (sym k)
        ∙ ap (find_in_chain symbols other) (
            get_or-set_self s.spt (hash name) (chain name s ++ length s.symbols ∷ []) []
              (omega (arith, hash-lt name)))
        ∙ ap (λ (i : ℕ). find_in_chain symbols other (get_or s.spt i [] ++ length s.symbols ∷ [])) k
        ∙ find_in_chain-found symbols other (chain other s) (length s.symbols ∷ []) id there

-- `lookup` may install.
lookup_name-found :
    (name : List ℕ) (s : Asm) (id : ℕ)
    → find name s ≡ some id
    → lookup_name name s ≡ record s { gsymptr = some id }
unfolding find lookup_name lookup_result
lookup_name-found name s id e = ap (lookup_result name s) e

lookup_name-new :
    (name : List ℕ) (s : Asm)
    → s.ifflag ≡ true
    → find name s ≡ none
    → lookup_name name s ≡ record (install_symbol name s) { gsymptr = some (length s.symbols) }
unfolding find lookup_name lookup_result
lookup_name-new name s on e = ap (lookup_result name s) e ∙ rw on refl

found_or_not : (o : Option ℕ) → (o ≡ none) ⊎ ((id : ℕ) × (o ≡ some id))
found_or_not none = inl refl
found_or_not (some id) = inr (id, refl)

find-name :
    (name : List ℕ) (s : Asm) (id : ℕ)
    → find name s ≡ some id
    → (symbol : Symbol) × (get_elem? s.symbols id ≡ some symbol) × (symbol.name ≡ name)
unfolding find
find-name name s id e = find_in_chain-name s.symbols name (chain name s) id e

lookup_name-id :
    (name : List ℕ) (s : Asm)
    → s.ifflag ≡ true
    → IsTable s
    → (id : ℕ) × ((lookup_name name s).gsymptr ≡ some id)
      × (find name (lookup_name name s) ≡ some id)
      × IsTable (lookup_name name s)
lookup_name-id name s on h = elim (found_or_not (find name s)) [
  | inr (id, e) ↦ rw (lookup_name-found name s id e) (id, refl, unfold find in e, h)
  | inl e ↦ rw (lookup_name-new name s on e) (
    length s.symbols,
    refl,
    unfold find in install_symbol-find name s h e,
    install_symbol-IsTable name s h,
  )
]

-- With `ifflag` set and well-formed chains, `lookup` leaves in `gsymptr` the index of a symbol that has
-- the name, at which the name is found from then on, and it leaves well-formed chains.
pub lookup_name-finds :
    (name : List ℕ) (s : Asm)
    → s.ifflag ≡ true
    → IsTable s
    → (id : ℕ) × (symbol : Symbol) × ((lookup_name name s).gsymptr ≡ some id)
      × (get_elem? (lookup_name name s).symbols id ≡ some symbol)
      × (symbol.name ≡ name)
      × (find name (lookup_name name s) ≡ some id)
      × IsTable (lookup_name name s)
lookup_name-finds name s on h =
    let (id, g, f, t) = lookup_name-id name s on h in
    let (symbol, e, n) = find-name name (lookup_name name s) id f in (id, symbol, g, e, n, f, t)

-- With `ifflag` set and well-formed chains, `lookup` of any name leaves every name at the index at
-- which it was found.
pub lookup_name-keeps :
    (name other : List ℕ) (s : Asm) (id : ℕ)
    → s.ifflag ≡ true
    → IsTable s
    → find other s ≡ some id
    → find other (lookup_name name s) ≡ some id
lookup_name-keeps name other s id on h e = elim (found_or_not (find name s)) [
  | inr (i, f) ↦ rw (lookup_name-found name s i f) (unfold find in e)
  | inl f ↦
      rw (lookup_name-new name s on f) (unfold find in install_symbol-keeps name other s id h e)
]
