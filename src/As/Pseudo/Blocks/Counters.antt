-- ===== src/As/Pseudo/Blocks/Counters.antt =====
-- as/pops.c: `setloc` and the table of location counters. Every segment keeps its own counter.
use mc6801_tools.Base.{
  ℕ, zero, suc, ◌%◌, ◌<◌, ◌≡◌, refl, sym, ap, ◌∙◌, Bool, true, false, not, ◌&&◌, some, List, [],
  ◌∷◌, length, get_elem?, get_or, ◌==◌, if◌then◌else◌, arith, Bool-cases, inl, inr, ==→eq,
  length-set, get_or-set_self, get_or-set_ne, bit_and,
}
use mc6801_tools.As.Const.{segm}
use mc6801_tools.As.Line.{segment}
use mc6801_tools.As.Asm.{at_last_pass}
use mc6801_tools.As.Pseudo.{State, Location, ask}
use mc6801_tools.As.Pseudo.Blocks.{leave_location, entered, located, announce, setloc}

abbrev nowhere : Location
nowhere = record { flags = 0; lc = 0 }

-- The location counter of a segment: the one in use is not in the table.
unfoldable pub counter : State → ℕ → ℕ
counter s j = if j == s.lcptr then s.lc else (get_or s.lctab j nowhere).lc

-- `lcptr` points into the table.
abbrev pub IsLocated : State → Type 0
IsLocated s = s.lcptr < length s.lctab

-- An entry of the table.
found : (xs : List Location) (i : ℕ) → i < length xs → get_elem? xs i ≡ some (get_or xs i nowhere)
found [] i h = absurd (omega arith)
found (x ∷ xs) zero h = refl
found (x ∷ xs) (suc i) h = found xs i (omega arith)

-- The table holds all counters once the one in use is put back.
counter-leave :
    (s : State) (j : ℕ) → IsLocated s → counter s j ≡ (get_or (leave_location s).lctab j nowhere).lc
unfolding counter
counter-leave s j lt = elim (Bool-cases (j == s.lcptr)) [
  | inl e ↦ rw (e, ==→eq j s.lcptr e, get_or-set_self s.lctab s.lcptr here nowhere lt) refl
  | inr e ↦
      rw (e, get_or-set_ne s.lctab s.lcptr j here nowhere (λ h. absurd (ground (arith, e, h)))) refl
]
  where
    here : Location
    here = record { flags = s.lcdata; lc = s.lc }

announce-counter :
    (seg : ℕ) (s : State)
    → IsLocated s
    → IsLocated (announce seg s)
      × ((j : ℕ) → counter (announce seg s) j ≡ counter s j)
      × (length (announce seg s).lctab ≡ length s.lctab)
unfolding counter
announce-counter seg s lt = go (at_last_pass s.asm && not (seg == bit_and s.lcdata segm))
  where
    go :
        (b : Bool)
        → IsLocated (if b then ask (segment seg) s else s)
          × ((j : ℕ) → counter (if b then ask (segment seg) s else s) j ≡ counter s j)
          × (length (if b then ask (segment seg) s else s).lctab ≡ length s.lctab)
    go true = (lt, λ j. refl, refl)
    go false = (lt, λ j. refl, refl)

entered-counter :
    (i : ℕ) (s : State) (j : ℕ)
    → counter (entered i (get_or s.lctab i nowhere) s) j ≡ (get_or s.lctab j nowhere).lc
unfolding counter
entered-counter i s j = elim (Bool-cases (j == i)) [
  | inl e ↦ rw (e, ==→eq j i e) refl
  | inr e ↦ rw e refl
]

-- `setloc` with a segment of the table returns, and then the location counter is that of the segment;
-- every segment keeps its counter, the one that is left among them.
pub setloc-counter :
    (seg : ℕ) (s : State)
    → IsLocated s
    → seg < 256
    → seg < length s.lctab
    → (t : State) × (setloc seg s ≡ some t)
      × IsLocated t
      × (t.lcptr ≡ seg)
      × (t.lc ≡ counter s seg)
      × ((j : ℕ) → counter t j ≡ counter s j)
unfolding setloc
setloc-counter seg s lt small here =
    let (lt', same, len) = announce-counter seg s lt in
    let u : State = leave_location (announce seg s) in
    let i : seg % 256 ≡ seg = omega arith in
    let inside : seg % 256 < length u.lctab =
      omega (arith, length-set (announce seg s).lctab (announce seg s).lcptr (left seg s)) in
    let l : Location = get_or u.lctab (seg % 256) nowhere in
    (
      entered (seg % 256) l u,
      ap (located (seg % 256) u) (found u.lctab (seg % 256) inside),
      inside,
      i,
      sym (counter-leave (announce seg s) (seg % 256) lt') ∙ same (seg % 256) ∙ ap (counter s) i,
      λ j. entered-counter (seg % 256) u j ∙ sym (counter-leave (announce seg s) j lt') ∙ same j,
    )
  where
    left : ℕ → State → Location
    left seg s = record { flags = (announce seg s).lcdata; lc = (announce seg s).lc }
