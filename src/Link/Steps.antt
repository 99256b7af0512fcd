-- ===== src/Link/Steps.antt =====
-- Requests, one after another: the writer refines its specification, and the linker follows.
use mc6801_tools.Base.{
  ℕ, ◌+◌, ◌^◌, ◌≤◌, ◌<◌, ◌≡◌, refl, ◌∙◌, Bool, true, List, [], ◌∷◌, map, All, ◌⊎◌, inl, inr,
  Bool-cases, bit_or, arith,
}
use mc6801_tools.Base.Bytes.{value_bytes}
use mc6801_tools.Base.Bits.{has, or_20}
use mc6801_tools.TypeConv.{char_of}
use mc6801_tools.As.Const.{relbit, impbit, obj_set_seg, obj_r_mask}
use mc6801_tools.As.Line.{Address}
use mc6801_tools.As.GenObj.Lines.{symbol_number}
use mc6801_tools.As.GenObj.Writer.{Writer, special, when_on}
use mc6801_tools.As.GenObj.Buffers.{Refines, Refines-then, skip-Refines}
use mc6801_tools.As.GenObj.Requests.{putabs-Refines, accumulate_rmb-Refines, putobj-Refines}
use mc6801_tools.As.GenObj.Addresses.{absolutes, operand, genobjadr-Refines}
use mc6801_tools.Ld.LinkMod.{ModStruct, LinkState, setseg, seek_to_spos}
use mc6801_tools.Ld.LinkMod.Commands.{emit, Decodes-segment, IsSize}
use mc6801_tools.Link.Pending.{Agrees, special-Agrees, reserve-Agrees, absolute-Agrees, size_now}
use mc6801_tools.Link.Simulation.{absolutes-Agrees, offset-Agrees, symbol-Agrees, chars-value_bytes}
use mc6801_tools.Link.{
  Request, code, rmb, address, segment, request, requests, effect, effects, operand_value, base_of,
  IsKnown, IsAllowed, FitsFrom, waiting,
}
use mc6801_tools.Link.Waiting.{
  write_request, write_requests, write_request-arrext, write_request-waiting,
}

module _ (accepts : List ℕ → List ℕ → Bool) (ok : (f c : List ℕ) → accepts f c ≡ true) where
  request-Refines :
      (header : ℕ) (m : ModStruct) (arrext : List ℕ) (r : Request)
      → IsAllowed header m arrext r
      → Refines (request accepts r) (write_request r)
  unfolding request write_request
  request-Refines header m arrext (code b) h = putabs-Refines accepts ok b
  request-Refines header m arrext (rmb n) h = accumulate_rmb-Refines accepts ok n
  request-Refines header m arrext (segment seg) h =
      putobj-Refines accepts ok (bit_or seg obj_set_seg)
  request-Refines header m arrext (address pcrflag adr size) (h, p, known) =
      genobjadr-Refines accepts ok pcrflag adr size h

  -- As long as `write` takes what it is given: each list of allowed requests returns from every state,
  -- and what is observable is then as the writer without a buffer in front of the file leaves it.
  pub requests-Refines :
      (header : ℕ) (m : ModStruct) (arrext : List ℕ) (rs : List Request)
      → All (IsAllowed header m arrext) rs
      → Refines (requests accepts rs) (write_requests rs)
  unfolding requests write_requests
  requests-Refines header m arrext [] h = skip-Refines
  requests-Refines header m arrext (r ∷ rs) (h, hs) =
      Refines-then (request-Refines header m arrext r h) (requests-Refines header m arrext rs hs)

module _ (header : ℕ) (m : ModStruct) (front : List ℕ) (s₀ : LinkState) where
  absolute_bytes-Agrees :
      (bs cs : List ℕ) (w : Writer) (s : LinkState)
      → map char_of bs ≡ cs
      → Agrees header m front s₀ w s
      → Agrees header m front s₀ (absolutes bs w) (emit m cs s)
  absolute_bytes-Agrees bs cs w s e a = rw (← e) (absolutes-Agrees header m front s₀ bs w s a)

  -- An operand that is relocated, or not.
  address-Agrees :
      (pcrflag : ℕ) (adr : Address) (size : ℕ) (w : Writer) (s : LinkState)
      → IsSize size
      → (pcrflag ≡ 0) ⊎ (pcrflag ≡ obj_r_mask)
      → IsKnown header m w.arrext adr
      → Agrees header m front s₀ w s
      → Agrees header m front s₀
          (operand pcrflag adr size w)
          (effect header m w.arrext (address pcrflag adr size) s)
  unfolding operand effect operand_value base_of
  address-Agrees pcrflag adr size w s h p known a = elim (Bool-cases (has adr.flags relbit)) [
    | inr e ↦ rw e (
        absolute_bytes-Agrees (value_bytes size adr.offset) _ w s
          (chars-value_bytes size adr.offset) a)
    | inl e ↦ elim (Bool-cases (has adr.flags impbit)) [
      | inr i ↦ rw (e, i) (offset-Agrees header m front s₀ pcrflag adr size w s h p a)
      | inl i ↦
          let (symbol, found, small) = known e i in
          rw (e, i, found)
            (symbol-Agrees header m front s₀ pcrflag adr size (symbol_number adr.sym w.arrext) w s
              symbol h p refl small found a)
    ]
  ]

  char-segment : (seg : ℕ) → seg < 16 → char_of (bit_or seg obj_set_seg) ≡ seg + 0x20
  char-segment seg h = omega (arith, or_20 seg h)

  segment-Agrees :
      (seg : ℕ) (w : Writer) (s : LinkState)
      → seg < 16
      → Agrees header m front s₀ w s
      → Agrees header m front s₀
          (when_on (special (char_of (bit_or seg obj_set_seg) ∷ [])) w)
          (setseg header m seg s)
  segment-Agrees seg w s h a = rw (char-segment seg h) (
      special-Agrees header m front s₀ w s a ((seg + 0x20) ∷ []) (setseg header m seg s) w.relsize
        (Decodes-segment header m s seg h) (segment_size (size_now header m front s₀ w s a)))
    where
      segment_size :
          (w.relsize ≡ 0) ⊎ (s.relocsize ≡ w.relsize)
          → (w.relsize ≡ 0) ⊎ ((setseg header m seg s).relocsize ≡ w.relsize)
      segment_size h = unfold setseg seek_to_spos in ground (arith, h)

  request-Agrees :
      (r : Request) (w : Writer) (s : LinkState)
      → IsAllowed header m w.arrext r
      → waiting r w.rmbcount < 2 ^ 16
      → Agrees header m front s₀ w s
      → Agrees header m front s₀ (write_request r w) (effect header m w.arrext r s)
  unfolding write_request effect
  request-Agrees (code b) w s h fits a = absolute-Agrees header m front s₀ w s a b
  request-Agrees (rmb n) w s h fits a = reserve-Agrees header m front s₀ w s a n fits
  request-Agrees (segment seg) w s h fits a = segment-Agrees seg w s h a
  request-Agrees (address pcrflag adr size) w s (h, p, known) fits a =
      address-Agrees pcrflag adr size w s h p known a

  waiting_mono : (r : Request) (j k : ℕ) → j ≤ k → waiting r j ≤ waiting r k
  waiting_mono (code b) j k h = omega arith
  waiting_mono (rmb n) j k h = omega arith
  waiting_mono (address pcrflag adr size) j k h = omega arith
  waiting_mono (segment seg) j k h = omega arith

  pub requests-Agrees :
      (arrext : List ℕ) (rs : List Request) (k : ℕ) (w : Writer) (s : LinkState)
      → w.arrext ≡ arrext
      → w.rmbcount ≤ k
      → All (IsAllowed header m arrext) rs
      → FitsFrom k rs
      → Agrees header m front s₀ w s
      → Agrees header m front s₀ (write_requests rs w) (effects header m arrext rs s)
  unfolding write_requests effects
  requests-Agrees arrext [] k w s e le h fits a = a
  requests-Agrees arrext (r ∷ rs) k w s e le (h, hs) (fit, fits) a =
      requests-Agrees arrext rs (waiting r k) (write_request r w) (effect header m arrext r s)
        (write_request-arrext r w ∙ e)
        (omega
          (arith, write_request-waiting header m arrext r w a.on h, waiting_mono r w.rmbcount k le))
        hs fits
        (rw (← e) (request-Agrees r w s (rw e h) (omega (arith, waiting_mono r w.rmbcount k le)) a))
