-- ===== src/As/Table.antt =====
-- as/table.c: the symbol table, a hash table of 1024 chains.
pub mod Chains
pub mod Lookup
use mc6801_tools.Base.{
  ℕ, zero, suc, ◌+◌, ◌-◌, ◌*◌, ◌/◌, ◌%◌, ◌^◌, Bool, true, false, not, ◌&&◌, Option, none, some,
  List, [], ◌∷◌, ◌++◌, length, get_elem?, get_or, set, take, leb, ◌==◌, if◌then◌else◌, bit_xor,
}
use mc6801_tools.As.Asm.{Asm, Routine, Symbol}

abbrev pub sptsiz : ℕ
sptsiz = 1024

-- An unsigned of 32 bits.
abbrev uint : ℕ
uint = 2 ^ 32

-- `(unsigned char)ch - 0x41`, negative below 'A'.
unfoldable pub hconv : ℕ → ℕ
hconv ch = (ch % 256 + uint - 0x41) % uint

abbrev multiplier : ℕ
multiplier = 16

abbrev char_at : List ℕ → ℕ → ℕ
char_at name i = get_or name i 0

-- A weighted xor of one to four characters, for a name that is not empty.
unfoldable pub hash : List ℕ → ℕ
unfolding hconv
hash name =
    let n = length name in
    let last = hconv (char_at name (n - 1)) in
    let hashval =
      if leb n 2
      then last * multiplier % uint
      else if n == 3
      then bit_xor (hconv (char_at name (n - 2)) * multiplier % uint) last
      else bit_xor
          (bit_xor (hconv (char_at name (n - n / 2)) * multiplier % uint)
            (hconv (char_at name (n - 2)) * 4 % uint))
          last in
    bit_xor hashval (hconv (char_at name 0) * 2 % uint) % sptsiz

-- `memcmp(symptr->name, nameptr, length) == 0`.
unfoldable pub same_name : List ℕ → List ℕ → Bool
same_name [] [] = true
same_name [] (b ∷ bs) = false
same_name (a ∷ xs) [] = false
same_name (a ∷ xs) (b ∷ bs) = (a == b) && same_name xs bs

unfoldable pub is_named : List ℕ → Symbol → Bool
unfolding same_name
is_named name symbol = (length name % 256 == symbol.length) && same_name symbol.name name

-- The first loop, over one chain.
unfoldable pub find_in_chain : List Symbol → List ℕ → List ℕ → Option ℕ
unfolding is_named
find_in_chain symbols name [] = none
find_in_chain symbols name (id ∷ ids) =
    let rest = find_in_chain symbols name ids in
    elim (get_elem? symbols id) [
      | none ↦ rest
      | some symbol ↦ if is_named name symbol then some id else rest
    ]

abbrev pub chain : List ℕ → Asm → List ℕ
chain name s = get_or s.spt (hash name) []

-- A new symbol at the end of its chain.
unfoldable pub install_symbol : List ℕ → Asm → Asm
unfolding hash
install_symbol name s = record s {
  symbols =
      s.symbols
      ++ record { name = name; length = length name % 256; kind = 0; flags = s.inidata; value = 0 }
        ∷ [];
  spt = set s.spt (hash name) (chain name s ++ length s.symbols ∷ []);
}

-- Behind the first loop: the symbol that it found, or a new one.
unfoldable pub lookup_result : List ℕ → Asm → Option ℕ → Asm
unfolding install_symbol
lookup_result name s (some id) = record s { gsymptr = some id }
lookup_result name s none =
    if s.ifflag
    then record (install_symbol name s) { gsymptr = some (length s.symbols) }
    else record s { gsymptr = none }

-- `lookup`, for the characters from `symname` to `lineptr`; the result goes to `gsymptr`, where
-- every caller of as/scan.c puts it.
unfoldable pub lookup_name : List ℕ → Asm → Asm
unfolding find_in_chain lookup_result
lookup_name name s = lookup_result name s (find_in_chain s.symbols name (chain name s))

unfoldable pub lookup : Asm → Asm
unfolding lookup_name
lookup s = lookup_name (take (length s.symname - length s.lineptr) s.symname) s
