-- ===== src/As/GenObj/Buffers.antt =====
-- The buffered writer implements the specification, as long as `write` takes what it is given.
use mc6801_tools.Base.{
  ℕ, ◌/◌, ◌%◌, ◌^◌, ◌≡◌, refl, sym, ap, ◌∙◌, Bool, true, some, List, [], ◌∷◌, ◌++◌, append-nil,
  append_assoc, length, map, leb, inl, inr, Bool-cases, if◌then◌else◌, arith,
}
use mc6801_tools.Base.Bytes.{value_bytes}
use mc6801_tools.TypeConv.{char_of, u2cn, u2c2, typeconv_init}
use mc6801_tools.As.GenObj.{
  ObjState, Step, ◌>>◌, skip, objbufsize, flushobj, putobj1, putobj1_all, putobjoffset, putobjword,
}
use mc6801_tools.As.GenObj.Writer.{Writer, view, put}

-- `m` returns, and does to what is observable what `f` says.
pub record Refines (m : Step) (f : Writer → Writer) : Type 0 where
  pub run : (s : ObjState) → (s' : ObjState) × (m s ≡ some s') × (view s' ≡ f (view s))

pub Refines-then :
    {m k : Step} {f g : Writer → Writer}
    → Refines m f
    → Refines k g
    → Refines (m >> k) (λ w. g (f w))
Refines-then {g} hm hk = record {
  run = λ s.
      let (t, e, v) = hm.run s in let (u, e', v') = hk.run t in (u, rw (e, ◌>>◌) e', v' ∙ ap g v);
}

-- Equal descriptions.
pub Refines-to :
    {m : Step} {f : Writer → Writer} (g : Writer → Writer)
    → Refines m f
    → ((w : Writer) → f w ≡ g w)
    → Refines m g
Refines-to g h e = record { run = λ s. let (t, r, v) = h.run s in (t, r, v ∙ e (view s)) }

-- A choice by what is observable.
pub Refines-if :
    (b : Writer → Bool) {m k : Step} {f g : Writer → Writer}
    → Refines m f
    → Refines k g
    → Refines (λ s. if b (view s) then m s else k s) (λ w. if b w then f w else g w)
Refines-if b hm hk = record {
  run = λ s. elim (Bool-cases (b (view s))) [ inl e ↦ rw e (hm.run s) | inr e ↦ rw e (hk.run s) ];
}

pub skip-Refines : Refines skip (λ w. w)
skip-Refines = record { run = λ s. (s, refl, refl) }

pub put-nil : (w : Writer) → put [] w ≡ w
unfolding put
put-nil w = ground (arith, append-nil w.stream)

pub put-put : (xs ys : List ℕ) (w : Writer) → put ys (put xs w) ≡ put (xs ++ ys) w
unfolding put
put-put xs ys w = ground (arith, append_assoc w.stream xs ys)

module _ (accepts : List ℕ → List ℕ → Bool) (ok : (f c : List ℕ) → accepts f c ≡ true) where
  pub flushobj-run :
      (s : ObjState) (b : List ℕ)
      → s.objbuf ≡ b
      → (s' : ObjState) × (flushobj accepts s ≡ some s') × (view s' ≡ view s) × (s'.objbuf ≡ [])
  unfolding flushobj view
  flushobj-run s [] e = (s, ground arith, refl, e)
  flushobj-run s (b ∷ bs) e = (
    record s { objfil = s.objfil ++ s.objbuf; objbuf = [] },
    ground (arith, ok s.objfil s.objbuf),
    ground (arith, append-nil (s.objfil ++ s.objbuf)),
    refl,
  )

  pub flushobj-Refines : Refines (flushobj accepts) (λ w. w)
  flushobj-Refines = record {
    run = λ s. let (t, r, v, z) = flushobj-run s s.objbuf refl in (t, r, v);
  }

  full : Step
  unfolding flushobj
  full t = if leb objbufsize (length t.objbuf) then flushobj accepts t else some t

  full-run : (s : ObjState) → (s' : ObjState) × (full s ≡ some s') × (view s' ≡ view s)
  unfolding full
  full-run s = elim (Bool-cases (leb objbufsize (length s.objbuf))) [
    | inl e ↦ rw e (flushobj-Refines.run s)
    | inr e ↦ rw e (skip-Refines.run s)
  ]

  pub putobj1-Refines : (ch : ℕ) → Refines (putobj1 accepts ch) (put (char_of ch ∷ []))
  unfolding putobj1 view put full
  putobj1-Refines ch = record {
    run = λ s.
        let (t, e, v) = full-run s in
        (
          record t { objbuf = t.objbuf ++ char_of ch ∷ [] },
          rw (e, ◌>>◌),
          ground (arith, v, append_assoc t.objfil t.objbuf (char_of ch ∷ [])),
        );
  }

  pub putobj1_all-Refines : (bs : List ℕ) → Refines (putobj1_all accepts bs) (put (map char_of bs))
  unfolding putobj1_all
  putobj1_all-Refines [] = Refines-to (put []) skip-Refines (λ w. sym (put-nil w))
  putobj1_all-Refines (b ∷ bs) =
      Refines-to (put (map char_of (b ∷ bs)))
        (Refines-then (putobj1-Refines b) (putobj1_all-Refines bs))
        (put-put (char_of b ∷ []) (map char_of bs))

  two-Refines :
      (a b : ℕ)
      → Refines (putobj1 accepts a >> putobj1 accepts b) (put (char_of a ∷ char_of b ∷ []))
  two-Refines a b =
      Refines-to (put (char_of a ∷ char_of b ∷ []))
        (Refines-then (putobj1-Refines a) (putobj1-Refines b))
        (put-put (char_of a ∷ []) (char_of b ∷ []))

  pub putobjword-Refines : (n : ℕ) → Refines (putobjword accepts n) (put (value_bytes 2 n))
  unfolding putobjword value_bytes u2c2 typeconv_init
  putobjword-Refines n =
      Refines-to (put (value_bytes 2 n)) (two-Refines (n / 256 % 256) (n % 256)) (λ w. ground arith)

  pub putobjoffset_1 : (n : ℕ) → Refines (putobjoffset accepts n 1) (put (value_bytes 1 n))
  unfolding putobjoffset value_bytes u2cn
  putobjoffset_1 n =
      Refines-to (put (value_bytes 1 n))
        (Refines-then (putobj1-Refines (n % 2 ^ 32 % 256)) (Refines-then skip-Refines skip-Refines))
        (λ w. ground arith)

  pub putobjoffset_2 : (n : ℕ) → Refines (putobjoffset accepts n 2) (put (value_bytes 2 n))
  unfolding putobjoffset value_bytes u2cn u2c2 typeconv_init
  putobjoffset_2 n =
      Refines-to (put (value_bytes 2 n))
        (Refines-then (putobj1-Refines (n % 2 ^ 32 / 256 % 256))
          (Refines-then (putobj1-Refines (n % 2 ^ 32 % 256)) skip-Refines))
        (λ w.
          put-put (n % 2 ^ 32 / 256 % 256 % 256 ∷ []) (n % 2 ^ 32 % 256 % 256 ∷ []) w
          ∙ ground arith)
