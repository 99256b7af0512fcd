-- ===== src/As/Pseudo/Values/Counts.antt =====
-- as/pops.c: the listing flags count without overflow, and .ALIGN goes to the next multiple.
use mc6801_tools.Base.{
  ℕ, ◌+◌, ◌-◌, ◌%◌, ◌^◌, ◌≤◌, ◌<◌, ◌≡◌, ◌≢◌, refl, sym, ap, ◌∙◌, Bool, true, false, not, some, ◌==◌,
  if◌then◌else◌, arith, Bool-cases, inl, inr, then-some, some_inj, if_true, if_false, ==_ne, ==→eq,
  leb_gt, lt-or-le, ltb_lt, ltb_ge,
}
use native.Mathlib.Nat.{mod-lt, mod-add-mod, mod_self}
use mc6801_tools.Base.Bits.{has}
use mc6801_tools.As.Const.{undbit}
use mc6801_tools.As.Asm.{Asm, error, countov, countun}
use mc6801_tools.As.Express.{absexpres}
use mc6801_tools.As.Pseudo.{State, Flags, call}
use mc6801_tools.As.Pseudo.Values.{
  int_mod, is_negative, int_less, wrapped, new_count, align, palign, join_lcdata,
}

-- The number that a pattern of 32 bits stands for, plus 2^31.
abbrev pub excess : ℕ → ℕ
excess n = (n + 2 ^ 31) % int_mod

is_negative-excess : (n : ℕ) → excess n < 2 ^ 31 → is_negative n ≡ true
is_negative-excess n h = ground arith

not_negative-excess : (n : ℕ) → 2 ^ 31 ≤ excess n → is_negative n ≡ false
not_negative-excess n h = leb_gt (2 ^ 31) (n % int_mod) (omega arith)

module _ (offset : ℕ) (f : Flags) (s : Asm) where
  abbrev sum : ℕ
  sum = excess f.semaphore + excess offset

  up_fits :
      2 ^ 31 ≤ excess offset
      → sum < 2 ^ 31 + int_mod
      → int_less (wrapped offset f) f.semaphore ≡ false
  up_fits h k = ltb_ge _ _ (omega arith)

  up_overflows :
      2 ^ 31 ≤ excess offset
      → 2 ^ 31 + int_mod ≤ sum
      → int_less (wrapped offset f) f.semaphore ≡ true
  up_overflows h k = ltb_lt _ _ (omega arith)

  down_fits : excess offset < 2 ^ 31 → 2 ^ 31 ≤ sum → int_less (wrapped offset f) f.semaphore ≡ true
  down_fits h k = ltb_lt _ _ (omega arith)

  down_overflows :
      excess offset < 2 ^ 31 → sum < 2 ^ 31 → int_less (wrapped offset f) f.semaphore ≡ false
  down_overflows h k = ltb_ge _ _ (omega arith)

  counted :
      (b c : Bool)
      → is_negative offset ≡ b
      → int_less (wrapped offset f) f.semaphore ≡ c
      → new_count offset f s ≡ (
          if not b
          then (if c then (0x7fff, error countov s) else (wrapped offset f, s))
          else if c
          then (wrapped offset f, s)
          else (int_mod - 0x8000, error countun s))
  unfolding new_count
  counted b c h k = rw (h, k) refl

-- The sum of an int and a step, with 2^31 added to each, decides: the new count is the sum where that
-- is an int, 0x7fff with the message COUNTOV above, and -0x8000 with COUNTUN below.
abbrev pub IsCounted : ℕ → Flags → Asm → Type 0
IsCounted offset f s =
    let sum = excess f.semaphore + excess offset in
    (2 ^ 31 ≤ sum
      → sum < 2 ^ 31 + int_mod
      → (new_count offset f s ≡ (wrapped offset f, s)) × (excess (wrapped offset f) + 2 ^ 31 ≡ sum))
    × (2 ^ 31 + int_mod ≤ sum → new_count offset f s ≡ (0x7fff, error countov s))
    × (sum < 2 ^ 31 → new_count offset f s ≡ (int_mod - 0x8000, error countun s))

-- The count of a listing flag is the sum of the old count and the step where that is an int; else it is
-- 0x7fff or -0x8000, and there is a message.
pub new_count-sum : (offset : ℕ) (f : Flags) (s : Asm) → IsCounted offset f s
new_count-sum offset f s = (
  λ lo hi. elim (lt-or-le (excess offset) (2 ^ 31)) [
    | inl d ↦ (
      counted offset f s true true (is_negative-excess offset d) (down_fits offset f s d lo),
      omega arith,
    )
    | inr u ↦ (
      counted offset f s false false (not_negative-excess offset u) (up_fits offset f s u hi),
      omega arith,
    )
  ],
  λ hi.
      counted offset f s false true (not_negative-excess offset (omega arith))
        (up_overflows offset f s (omega arith) hi),
  λ lo.
      counted offset f s true false (is_negative-excess offset (omega arith))
        (down_overflows offset f s (omega arith) lo),
)

next_multiple : (lc n : ℕ) → n ≢ 0 → (lc + (n - lc % n)) % n ≡ 0
next_multiple lc n h =
    let r : lc % n < n = mod-lt lc (omega (arith, h)) in
    let whole : lc % n + (n - lc % n) ≡ n = omega (arith, r) in
    sym (mod-add-mod lc n (n - lc % n)) ∙ ap (λ k. k % n) whole ∙ mod_self n

-- The jump of `align` from a location counter.
abbrev pub jump : ℕ → ℕ → ℕ
jump lc n = if lc % n == 0 then 0 else n - lc % n

jump-multiple : (lc n : ℕ) → n ≢ 0 → ((lc + jump lc n) % n ≡ 0) × (jump lc n < n)
jump-multiple lc n h =
    let r : lc % n < n = mod-lt lc (omega (arith, h)) in
    elim (Bool-cases (lc % n == 0)) [
      | inl e ↦ rw e (ap (λ k. k % n) (omega arith) ∙ ==→eq (lc % n) 0 e, omega (arith, h))
      | inr e ↦
          let positive : lc % n ≢ 0 = λ z. absurd (ground (arith, e, z)) in
          rw e (next_multiple lc n h, omega (arith, r, positive))
    ]

align-jump :
    (s : State)
    → s.lastexp.offset ≢ 0
    → ((align s).mcount ≡ jump s.lc s.lastexp.offset) × ((align s).lc ≡ s.lc)
unfolding align
align-jump s h = rw (==_ne s.lastexp.offset 0 h) (elim (Bool-cases (s.lc % s.lastexp.offset == 0)) [
  | inl e ↦ rw e (==→eq (s.lc % s.lastexp.offset) 0 e, refl)
  | inr e ↦ rw e (refl, refl)
])

align-offset : (s : State) → (align s).lastexp.offset ≡ s.lastexp.offset
unfolding align
align-offset s = elim (Bool-cases (s.lastexp.offset == 0)) [
  | inl z ↦ rw z refl
  | inr z ↦ elim (Bool-cases (s.lc % s.lastexp.offset == 0)) [
    | inl e ↦ rw (z, e) refl
    | inr e ↦ rw (z, e) refl
  ]
]

abbrev IsAligned : State → Type 0
IsAligned t = ((t.lc + t.mcount) % t.lastexp.offset ≡ 0) × (t.mcount < t.lastexp.offset)

align-IsAligned : (s t : State) → align s ≡ t → t.lastexp.offset ≢ 0 → IsAligned t
align-IsAligned s t e h =
    let same : t.lastexp.offset ≡ s.lastexp.offset = rw (← e) (align-offset s) in
    let n : s.lastexp.offset ≢ 0 = λ z. h (same ∙ z) in
    let (j, l) = align-jump s n in
    let j' : t.mcount ≡ jump s.lc s.lastexp.offset = rw (← e) j in
    let l' : t.lc ≡ s.lc = rw (← e) l in rw (j', l', same) (jump-multiple s.lc s.lastexp.offset n)

no_path : false ≢ true
no_path h = cc

-- .ALIGN with an operand that is defined and not 0: behind the jump the location counter is a multiple of
-- the operand, and no nearer one was left out.
pub palign-multiple :
    (s t : State)
    → palign s ≡ some t
    → has t.lcdata undbit ≡ false
    → t.lastexp.offset ≢ 0
    → ((t.lc + t.mcount) % t.lastexp.offset ≡ 0) × (t.mcount < t.lastexp.offset)
unfolding palign
palign-multiple s t e defined h =
    let (u, f, g) = then-some (call absexpres s) _ t e in go u (some_inj _ _ g)
  where
    go :
        (u : State)
        → (if has (join_lcdata u).lcdata undbit then join_lcdata u else align (join_lcdata u)) ≡ t
        → ((t.lc + t.mcount) % t.lastexp.offset ≡ 0) × (t.mcount < t.lastexp.offset)
    go u g = elim (Bool-cases (has (join_lcdata u).lcdata undbit)) [
      | inl b ↦
          let same : join_lcdata u ≡ t = sym (if_true _ _ _ b) ∙ g in
          absurd (no_path (sym (ap (λ v. has v.lcdata undbit) same ∙ defined) ∙ b))
      | inr b ↦ align-IsAligned (join_lcdata u) t (sym (if_false _ _ _ b) ∙ g) h
    ]
