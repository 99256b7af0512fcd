-- ===== src/As/GenObj/Requests.antt =====
-- The flushes, `accumulate_rmb`, `putabs` and `putobj` implement the specification.
use mc6801_tools.Base.{
  ℕ, ◌+◌, ◌%◌, ◌≡◌, refl, ap, ◌∙◌, Bool, true, some, List, [], ◌∷◌, ◌++◌, append-nil, append_assoc,
  length, map, leb, ◌==◌, inl, inr, Bool-cases, if◌then◌else◌, bit_or, arith,
}
use mc6801_tools.Base.Bytes.{value_bytes}
use mc6801_tools.TypeConv.{char_of}
use mc6801_tools.As.Const.{obj_abs, obj_skip_1, obj_skip_2}
use mc6801_tools.As.GenObj.{
  clear_abs, clear_rmb, ObjState, Step, ◌>>◌, offset_mod, putobj1, flushabs, put_chunk, put_skip,
  putobjoffset, flushrmb, accumulate_rmb, putabs, putobj, objtrailer,
}
use mc6801_tools.As.GenObj.Writer.{
  Writer, view, put, abs_chunk, skip_bytes, rmb_chunk, drop_abs, drop_rmb, when_on, reserve,
  absolute, special,
}
use mc6801_tools.As.GenObj.Buffers.{
  Refines, Refines-then, Refines-to, Refines-if, skip-Refines, put-put, flushobj-Refines,
  putobj1-Refines, putobj1_all-Refines, putobjoffset_1, putobjoffset_2,
}

abbrev no_abs : Writer → Writer
no_abs w = record w { absbuf = [] }

abbrev no_rmb : Writer → Writer
no_rmb w = record w { rmbcount = 0 }

clear_abs-Refines : Refines clear_abs no_abs
unfolding view
clear_abs-Refines = record { run = λ s. (record s { absbuf = [] }, refl, refl) }

clear_rmb-Refines : Refines clear_rmb no_rmb
unfolding view
clear_rmb-Refines = record { run = λ s. (record s { rmbcount = 0 }, refl, refl) }

module _ (accepts : List ℕ → List ℕ → Bool) (ok : (f c : List ℕ) → accepts f c ≡ true) where
  put_chunk-Refines :
      (bs : List ℕ)
      → Refines
          (put_chunk accepts bs)
          (λ w. no_abs (put (map char_of bs) (put (char_of (bit_or (length bs) obj_abs) ∷ []) w)))
  unfolding put_chunk view
  put_chunk-Refines bs =
      Refines-then (putobj1-Refines accepts ok (bit_or (length bs) obj_abs))
        (Refines-then (putobj1_all-Refines accepts ok bs) clear_abs-Refines)

  flushabs-run :
      (s : ObjState) (bs : List ℕ)
      → s.absbuf ≡ bs
      → (s' : ObjState) × (flushabs accepts s ≡ some s') × (view s' ≡ drop_abs (view s))
  unfolding flushabs view drop_abs abs_chunk put
  flushabs-run s [] e = (s, ground arith, ground (arith, append-nil (s.objfil ++ s.objbuf)))
  flushabs-run s (b ∷ bs) e =
      let (t, r, v) = (put_chunk-Refines (b ∷ bs)).run s in
      let c : List ℕ = char_of (bit_or (length (b ∷ bs)) obj_abs) ∷ [] in
      (
        t,
        ground (arith, r),
        v ∙ ground (arith, append_assoc (s.objfil ++ s.objbuf) c (map char_of (b ∷ bs))),
      )

  pub flushabs-Refines : Refines (flushabs accepts) drop_abs
  flushabs-Refines = record { run = λ s. flushabs-run s s.absbuf refl }

  put_command :
      (c n size : ℕ)
      → Refines (putobjoffset accepts n size) (put (value_bytes size n))
      → Refines
          (putobj1 accepts c >> putobjoffset accepts n size >> clear_rmb)
          (λ w. no_rmb (put (char_of c ∷ value_bytes size n) w))
  unfolding view
  put_command c n size h =
      Refines-to _ (Refines-then (putobj1-Refines accepts ok c) (Refines-then h clear_rmb-Refines))
        (λ w. ap no_rmb (put-put (char_of c ∷ []) (value_bytes size n) w))

  put_skip-Refines : (n : ℕ) → Refines (put_skip accepts n) (λ w. no_rmb (put (skip_bytes n) w))
  unfolding put_skip view skip_bytes
  put_skip-Refines n = elim (Bool-cases (leb 0x100 n)) [
    | inl e ↦ rw e (put_command obj_skip_2 n 2 (putobjoffset_2 accepts ok n))
    | inr e ↦ rw e (put_command obj_skip_1 n 1 (putobjoffset_1 accepts ok n))
  ]

  pub flushrmb-Refines : Refines (flushrmb accepts) drop_rmb
  unfolding flushrmb drop_rmb rmb_chunk view put
  flushrmb-Refines = record {
    run = λ s. elim (Bool-cases (s.rmbcount == 0)) [
      | inl e ↦ (s, ground arith, ground (arith, append-nil (s.objfil ++ s.objbuf)))
      | inr e ↦
          let (t, r, v) = (put_skip-Refines s.rmbcount).run s in
          (t, ground (arith, r), v ∙ ground arith)
    ];
  }

  on-Refines :
      {m : Step} {f : Writer → Writer}
      → Refines m f
      → Refines (λ s. if s.objectc then m s else some s) (when_on f)
  unfolding when_on view
  on-Refines h = Refines-if (λ w. w.objectc) h skip-Refines

  pub accumulate_rmb-Refines : (n : ℕ) → Refines (accumulate_rmb accepts n) (when_on (reserve n))
  unfolding accumulate_rmb reserve view
  accumulate_rmb-Refines n = on-Refines (Refines-then flushabs-Refines (add-Refines))
    where
      add-Refines :
          Refines
            (λ t. some (record t { rmbcount = (t.rmbcount + n) % offset_mod }))
            (λ w. record w { rmbcount = (w.rmbcount + n) % offset_mod })
      add-Refines = record { run = λ s. (record s { rmbcount = _ }, refl, refl) }

  -- `putabs` tests the count before it flushes, and `flushrmb` tests it again.
  skip_rmb-Refines : Refines (λ t. if t.rmbcount == 0 then some t else flushrmb accepts t) drop_rmb
  unfolding drop_rmb rmb_chunk view put
  skip_rmb-Refines =
      Refines-to drop_rmb (Refines-if (λ w. w.rmbcount == 0) skip-Refines flushrmb-Refines)
        (λ w. ground (arith, append-nil w.stream))

  pub putabs-Refines : (b : ℕ) → Refines (putabs accepts b) (when_on (absolute b))
  unfolding putabs absolute view
  putabs-Refines b = on-Refines (
      Refines-then skip_rmb-Refines (
        Refines-then (Refines-if (λ w. leb 64 (length w.absbuf)) flushabs-Refines skip-Refines)
          add-Refines))
    where
      add-Refines :
          Refines
            (λ t. some (record t { absbuf = t.absbuf ++ char_of b ∷ [] }))
            (λ w. record w { absbuf = w.absbuf ++ char_of b ∷ [] })
      add-Refines = record { run = λ s. (record s { absbuf = _ }, refl, refl) }

  pub putobj-Refines : (c : ℕ) → Refines (putobj accepts c) (when_on (special (char_of c ∷ [])))
  unfolding putobj special
  putobj-Refines c =
      on-Refines (
        Refines-then flushabs-Refines
          (Refines-then flushrmb-Refines (putobj1-Refines accepts ok c)))

  pub objtrailer-Refines : Refines (objtrailer accepts) (when_on (when_on (special (0 ∷ []))))
  unfolding objtrailer
  objtrailer-Refines = on-Refines (Refines-then (putobj-Refines 0) (flushobj-Refines accepts ok))
