-- ===== src/Link/RoundTrip.antt =====
-- The object code of a list of requests, read back by `linkmod`.
use mc6801_tools.Base.{
  ℕ, suc, ◌+◌, ◌-◌, ◌≡◌, refl, sym, ap, ◌∙◌, Bool, true, some, List, [], ◌∷◌, ◌++◌, append-nil,
  append_assoc, length, length-append, All, inl, arith, set,
}
use mc6801_tools.As.GenObj.{ObjState, Step, ◌>>◌, flushobj, putobj, objtrailer}
use mc6801_tools.As.GenObj.Writer.{
  Writer, view, put, special, when_on, drop_abs, drop_rmb, abs_chunk, rmb_chunk,
}
use mc6801_tools.As.GenObj.Buffers.{flushobj-run}
use mc6801_tools.As.GenObj.Requests.{putobj-Refines}
use mc6801_tools.Ld.Input.{readchar}
use mc6801_tools.Ld.LinkMod.{
  ModStruct, LinkState, OutEvent, finished, linkmod, linkmod_start, linkmod_loop, command,
  special as command_special,
}
use mc6801_tools.Ld.LinkMod.Commands.{emit-nil, Decodes, Decodes-refl}
use mc6801_tools.Link.Pending.{Agrees, flushed_text, flushed_behind, flushed}
use mc6801_tools.Link.Steps.{requests-Refines, requests-Agrees}
use mc6801_tools.Link.{Request, requests, effects, IsAllowed, FitsFrom}

-- The linker where the module ends: the position in the last segment is kept.
abbrev pub close : LinkState → LinkState
close s = record s { segpos = set s.segpos s.curseg s.spos }

-- The end of the module.
linkmod_loop-end :
    (header : ℕ) (m : ModStruct) (fuel : ℕ) (s : LinkState)
    → linkmod_loop header m (suc fuel) s (0 ∷ []) ≡ finished (close s) []
unfolding linkmod_loop command command_special readchar
linkmod_loop-end header m fuel s = refl

Decodes-end :
    (header : ℕ) (m : ModStruct) (s t : LinkState) (text : List ℕ)
    → Decodes m header s text t
    → linkmod_loop header m (suc (length (text ++ 0 ∷ []))) s (text ++ 0 ∷ [])
      ≡ finished (close t) []
Decodes-end header m s t text (k, le, run) =
    ap (λ (n : ℕ). linkmod_loop header m n s (text ++ 0 ∷ [])) enough
    ∙ run (suc (suc (length text) - k)) (0 ∷ [])
    ∙ linkmod_loop-end header m (suc (length text) - k) t
  where
    enough : suc (length (text ++ 0 ∷ [])) ≡ k + suc (suc (length text) - k)
    enough = omega (arith, length-append text (0 ∷ []))

-- The last byte goes behind the flushes, and the buffer in front of the file is empty.
module _ (accepts : List ℕ → List ℕ → Bool) (ok : (f c : List ℕ) → accepts f c ≡ true) where
  objtrailer-on :
      (s : ObjState)
      → s.objectc ≡ true
      → objtrailer accepts s ≡ (putobj accepts 0 >> flushobj accepts) s
  unfolding objtrailer
  objtrailer-on s on = simp on

  then-run : (m k : Step) (s t : ObjState) → m s ≡ some t → (m >> k) s ≡ k t
  then-run m k s t e = rw (e, ◌>>◌) refl

  objtrailer-run :
      (s : ObjState)
      → s.objectc ≡ true
      → (s' : ObjState) × (objtrailer accepts s ≡ some s')
        × (s'.objfil
            ≡ (((view s).stream ++ abs_chunk (view s).absbuf) ++ rmb_chunk (view s).rmbcount)
              ++ 0 ∷ [])
  unfolding view when_on special drop_abs drop_rmb put
  objtrailer-run s on =
      let (t, r, v) = (putobj-Refines accepts ok 0).run s in
      let (u, r', v', z) = flushobj-run accepts ok t t.objbuf refl in
      (
        u,
        objtrailer-on s on ∙ then-run (putobj accepts 0) (flushobj accepts) s t r ∙ r',
        sym (ap (λ (bs : List ℕ). u.objfil ++ bs) z ∙ append-nil u.objfil)
            ∙ ap (λ (w : Writer). w.stream) (v' ∙ v)
            ∙ rw on refl,
      )

  -- As long as `write` takes what it is given: from a state of the writer with object code switched on,
  -- nothing pending and no relocation size announced, a list of requests and then `objtrailer` return.
  -- Each request is allowed: sizes are 1 or 2, the flag of a relative operand is OBJ_R_MASK or 0, a
  -- segment is below 16, and the linker's module holds each imported symbol at the number that the
  -- assembler gives it, below 2 ^ 16. And the reserved bytes that wait never reach 2 ^ 16. Then the file
  -- grows by what was in the buffer and by a text, from which `linkmod` reads all the bytes and ends the
  -- module, in the state that the meanings of the requests lead to, one after another.
  pub linkmod-requests :
      (header : ℕ) (m : ModStruct) (out : List OutEvent) (s : ObjState) (rs : List Request)
      → s.objectc ≡ true
      → s.absbuf ≡ []
      → s.rmbcount ≡ 0
      → s.relsize ≡ 0
      → All (IsAllowed header m s.arrext) rs
      → FitsFrom 0 rs
      → (s' : ObjState) × (text : List ℕ) × ((requests accepts rs >> objtrailer accepts) s
          ≡ some s')
        × (s'.objfil ≡ (s.objfil ++ s.objbuf) ++ text)
        × (linkmod header m out text
            ≡ finished (close (effects header m s.arrext rs (linkmod_start header m out))) [])
  unfolding view linkmod
  linkmod-requests header m out s rs on ea ez er ok_rs fits =
      let front = s.objfil ++ s.objbuf in
      let l = linkmod_start header m out in
      let start : Agrees header m front l (view s) l = record {
        text = [];
        behind = sym (append-nil front);
        current = l;
        decodes = Decodes-refl m header l;
        pending = sym (rw (ea, ez, emit-nil m l) (emit-nil m l));
        size = inl er;
        full = rw ea (omega arith);
        small = rw ez (omega arith);
        apart = inl ez;
        on = on;
      } in
      let (t, r, v) = (requests-Refines accepts ok header m s.arrext rs ok_rs).run s in
      let a =
        requests-Agrees header m front l s.arrext rs 0 (view s) l refl (omega (arith, ez)) ok_rs
          fits start in
      let (u, r', e) = objtrailer-run t (ap (λ (w : Writer). w.objectc) v ∙ a.on) in
      (
        u,
        flushed_text header m front l _ _ a ++ 0 ∷ [],
        then-run (requests accepts rs) (objtrailer accepts) s t r ∙ r',
        e
            ∙ ap
                (λ (w : Writer).
                  ((w.stream ++ abs_chunk w.absbuf) ++ rmb_chunk w.rmbcount) ++ 0 ∷ [])
                v
            ∙ ap (λ (bs : List ℕ). bs ++ 0 ∷ []) (flushed_behind header m front l _ _ a)
            ∙ append_assoc front (flushed_text header m front l _ _ a) (0 ∷ []),
        Decodes-end header m l _ _ (flushed header m front l _ _ a),
      )
