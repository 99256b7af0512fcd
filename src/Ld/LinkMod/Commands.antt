-- ===== src/Ld/LinkMod/Commands.antt =====
-- What `linkmod` makes of each command of the object code, stated over the bytes that follow.
use mc6801_tools.Base.{
  ℕ, suc, ◌+◌, ◌-◌, ◌/◌, ◌%◌, ◌^◌, ◌≤◌, ◌<◌, ◌≡◌, refl, ap, ◌∙◌, Bool, some, List, [], ◌∷◌, ◌++◌,
  map, length, replicate, append-nil, append_assoc, if◌then◌else◌, ◌==◌, arith, length-append,
  length-replicate, ◌⊎◌,
}
use mathlib.Core.List.{map-append}
use mc6801_tools.Base.Bits.{and_3f, and_c0}
use mc6801_tools.TypeConv.{cnu2, typeconv_init, c2u2}
use mc6801_tools.Ld.Input.{readchar, readin, readsize}
use mc6801_tools.Ld.LinkMod.{
  ModStruct, LinkState, byte, more, discards, segwrite, writenulls, setseg, skip_bytes, special,
  command, linkmod_loop, int_mod,
}

-- The value of a relocation: base and offset, less the place behind the operand if it is relative.
abbrev pub reloc_value : Bool → ℕ → ℕ → ℕ → ℕ
reloc_value pcr pc base offset = base + offset + (if pcr then int_mod - pc % int_mod else 0)

-- The sizes that the 6801 has.
abbrev pub IsSize : ℕ → Type 0
IsSize n = (n ≡ 1) ⊎ (n ≡ 2)

module _ (m : ModStruct) where
  -- The bytes `bs` go to the current place, unless the part of the segment is not written.
  unfoldable pub emit : List ℕ → LinkState → LinkState
  emit bs s = record s {
    spos = if length bs == 0 then s.spos else (s.spos + length bs) % int_mod;
    out = if discards m s then s.out else s.out ++ map byte bs;
  }

  pub emit-append : (xs ys : List ℕ) (s : LinkState) → emit (xs ++ ys) s ≡ emit ys (emit xs s)
  unfolding emit
  emit-append xs ys s = ground (
    arith,
    length-append xs ys,
    map-append byte xs ys,
    append_assoc s.out (map byte xs) (map byte ys),
  )

  pub emit-nil : (s : LinkState) → emit [] s ≡ s
  unfolding emit
  emit-nil s = ground (arith, append-nil s.out)

  -- A command that was read whole goes on behind it.
  abbrev pub Runs : ℕ → ℕ → LinkState → List ℕ → LinkState → Type 0
  Runs header k s bs s' =
      (fuel : ℕ) (rest : List ℕ)
      → linkmod_loop header m (k + fuel) s (bs ++ rest) ≡ linkmod_loop header m fuel s' rest

  -- `linkmod` reads the bytes `bs` as whole commands and gets from `s` to `s'`, in no more rounds
  -- than there are bytes.
  abbrev pub Decodes : ℕ → LinkState → List ℕ → LinkState → Type 0
  Decodes header s bs s' = (k : ℕ) × (k ≤ length bs) × Runs header k s bs s'

  module _ (header : ℕ) where
    pub Decodes-refl : (s : LinkState) → Decodes header s [] s
    Decodes-refl s =
        (0, omega arith, λ fuel rest. ap (λ (n : ℕ). linkmod_loop header m n s rest) (omega arith))

    pub Decodes-trans :
        (s t u : LinkState) (xs ys : List ℕ)
        → Decodes header s xs t
        → Decodes header t ys u
        → Decodes header s (xs ++ ys) u
    Decodes-trans s t u xs ys (j, jl, f) (k, kl, g) = (
      j + k,
      omega (arith, length-append xs ys),
      λ fuel rest.
          ap (λ (n : ℕ). linkmod_loop header m n s ((xs ++ ys) ++ rest)) (regroup fuel)
          ∙ ap (linkmod_loop header m (j + (k + fuel)) s) (append_assoc xs ys rest)
          ∙ f (k + fuel) (ys ++ rest)
          ∙ g fuel rest,
    )
      where
        regroup : (n : ℕ) → j + k + n ≡ j + (k + n)
        regroup n = omega arith

    pub Decodes-command :
        (s t : LinkState) (c : ℕ) (bs : List ℕ)
        → ((rest : List ℕ) → command header m s (c ∷ bs ++ rest) ≡ more t rest)
        → Decodes header s (c ∷ bs) t
    unfolding linkmod_loop
    Decodes-command s t c bs h = (
      1,
      omega arith,
      λ fuel rest.
          ap (λ (n : ℕ). linkmod_loop header m n s (c ∷ bs ++ rest)) (one fuel)
          ∙ rw (h rest, linkmod_loop),
    )
      where
        one : (n : ℕ) → 1 + n ≡ suc n
        one n = omega arith

-- The command bytes that the assembler writes, taken apart.
module _ (header : ℕ) (m : ModStruct) where
  readin-append : (bs rest : List ℕ) → readin (length bs) (bs ++ rest) ≡ some (bs, rest)
  unfolding readin readchar
  readin-append [] rest = refl
  readin-append (b ∷ bs) rest = ground (arith, readin-append bs rest)

  -- Absolute code: 1 to 64 bytes, whose count is the low digits of the command.
  pub Decodes-absolute :
      (s : LinkState) (c n : ℕ) (bs : List ℕ)
      → length bs ≡ n
      → 1 ≤ n
      → n ≤ 64
      → c ≡ 64 + n % 64
      → Decodes m header s (c ∷ bs) (emit m bs s)
  unfolding emit command segwrite readchar
  Decodes-absolute s c n bs e lo hi ec =
      Decodes-command m header s (emit m bs s) c bs
        (λ rest. ground (arith, and_3f c, and_c0 c, readin-append bs rest))

  -- Reserved bytes, counted in one byte or in two.
  pub Decodes-skip_1 :
      (s : LinkState) (n : ℕ)
      → 1 ≤ n
      → n < 256
      → Decodes m header s (0x11 ∷ n ∷ []) (emit m (replicate n 0) s)
  unfolding emit command special skip_bytes writenulls readchar readin readsize cnu2
  Decodes-skip_1 s n pos lt =
      Decodes-command m header s (emit m (replicate n 0) s) 0x11 (n ∷ [])
        (λ rest. ground (arith, length-replicate {A = ℕ} n 0))

  pub Decodes-skip_2 :
      (s : LinkState) (n : ℕ)
      → 1 ≤ n
      → n < 2 ^ 16
      → Decodes m header s (0x12 ∷ n / 256 ∷ n % 256 ∷ []) (emit m (replicate n 0) s)
  unfolding emit command special skip_bytes writenulls readchar readin readsize cnu2 c2u2
      typeconv_init
  Decodes-skip_2 s n pos lt =
      Decodes-command m header s (emit m (replicate n 0) s) 0x12 (n / 256 ∷ n % 256 ∷ [])
        (λ rest. ground (arith, length-replicate {A = ℕ} n 0))

  -- The relocation size, 1 or 2, and a new segment.
  pub Decodes-relocsize :
      (s : LinkState) (n : ℕ) → IsSize n → Decodes m header s (n ∷ []) (record s { relocsize = n })
  unfolding command special readchar
  Decodes-relocsize s n h =
      Decodes-command m header s (record s { relocsize = n }) n []
        (λ rest. ground (arith, and_3f n, and_c0 n))

  pub Decodes-segment :
      (s : LinkState) (n : ℕ) → n < 16 → Decodes m header s ((n + 0x20) ∷ []) (setseg header m n s)
  unfolding command special readchar
  Decodes-segment s n h =
      Decodes-command m header s (setseg header m n s) (n + 0x20) []
        (λ rest. ground (arith, and_3f (n + 0x20), and_c0 (n + 0x20)))
