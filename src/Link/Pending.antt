-- ===== src/Link/Pending.antt =====
-- What waits in the assembler's buffers, and what the linker makes of it once it is flushed.
use mc6801_tools.Base.{
  ℕ, suc, ◌+◌, ◌/◌, ◌%◌, ◌^◌, ◌≤◌, ◌<◌, ◌≡◌, refl, sym, ap, ◌∙◌, true, List, [], ◌∷◌, ◌++◌, map,
  append-nil, append_assoc, length, replicate, replicate-append, ◌⊎◌, inl, inr, arith,
  length-append,
}
use mathlib.Core.List.{map-append}
use native.Mathlib.Decide.{dec_lt}
use mc6801_tools.Base.Bytes.{value_bytes}
use mc6801_tools.Base.Bits.{or_40}
use mc6801_tools.TypeConv.{char_of}
use mc6801_tools.As.GenObj.{offset_mod}
use mc6801_tools.As.GenObj.Writer.{
  Writer, put, abs_chunk, rmb_chunk, drop_abs, drop_rmb, reserve, absolute, special, when_on,
}
use mc6801_tools.Ld.LinkMod.{ModStruct, LinkState}
use mc6801_tools.Ld.LinkMod.Commands.{
  emit, emit-nil, emit-append, Decodes, Decodes-refl, Decodes-trans, Decodes-absolute,
  Decodes-skip_1, Decodes-skip_2,
}

length-map_char : (bs : List ℕ) → length (map char_of bs) ≡ length bs
length-map_char [] = refl
length-map_char (b ∷ bs) = ap suc (length-map_char bs)

rmb_chunk_1 : (n : ℕ) → 1 ≤ n → n < 256 → rmb_chunk n ≡ 0x11 ∷ n ∷ []
unfolding rmb_chunk value_bytes
rmb_chunk_1 n h k = ground arith

rmb_chunk_2 : (n : ℕ) → 256 ≤ n → n < 2 ^ 16 → rmb_chunk n ≡ 0x12 ∷ n / 256 ∷ n % 256 ∷ []
unfolding rmb_chunk value_bytes
rmb_chunk_2 n h k = ground arith

module _ (header : ℕ) (m : ModStruct) where
  -- A chunk of up to 64 bytes is read as these bytes.
  Decodes-abs_chunk :
      (s : LinkState) (bs : List ℕ)
      → length bs ≤ 64
      → Decodes m header s (abs_chunk bs) (emit m (map char_of bs) s)
  Decodes-abs_chunk s [] h = rw (emit-nil m s) (unfold abs_chunk in Decodes-refl m header s)
  Decodes-abs_chunk s (b ∷ bs) h =
      unfold abs_chunk in
      Decodes-absolute header m s _ (length (b ∷ bs)) (map char_of (b ∷ bs))
        (length-map_char (b ∷ bs)) (omega arith) h
        (omega (arith, or_40 (length (b ∷ bs)) (omega arith)))

  Decodes-rmb_chunk :
      (s : LinkState) (n : ℕ)
      → n < 2 ^ 16
      → Decodes m header s (rmb_chunk n) (emit m (replicate n 0) s)
  Decodes-rmb_chunk s n h = elim (dec_lt n 256) [
    | no big ↦ rw (rmb_chunk_2 n (omega arith) h) (Decodes-skip_2 header m s n (omega arith) h)
    | yes small ↦ elim (dec_lt 0 n) [
      | yes pos ↦ rw (rmb_chunk_1 n pos small) (Decodes-skip_1 header m s n pos small)
      | no zero_rmb ↦ nothing n (omega arith)
    ]
  ]
    where
      nothing : (k : ℕ) → k ≡ 0 → Decodes m header s (rmb_chunk k) (emit m (replicate k 0) s)
      nothing k e = rw (e, emit-nil m s) (unfold rmb_chunk in Decodes-refl m header s)

  pub relocsize-emit : (bs : List ℕ) (s : LinkState) → (emit m bs s).relocsize ≡ s.relocsize
  unfolding emit
  relocsize-emit bs s = refl

  -- The assembler's state `w` and the linker's state `s` agree. Behind the bytes `front` the stream
  -- holds a text that takes the linker from `s₀` to `current`, and what waits in the buffers leads
  -- from there to `s`.
  pub record Agrees (front : List ℕ) (s₀ : LinkState) (w : Writer) (s : LinkState) : Type 0 where
    pub text : List ℕ
    pub behind : w.stream ≡ front ++ text
    pub current : LinkState
    pub decodes : Decodes m header s₀ text current
    pub pending : s ≡ emit m (replicate w.rmbcount 0) (emit m (map char_of w.absbuf) current)
    pub size : (w.relsize ≡ 0) ⊎ (current.relocsize ≡ w.relsize)
    pub full : length w.absbuf ≤ 64
    pub small : w.rmbcount < 2 ^ 16
    pub apart : (w.rmbcount ≡ 0) ⊎ (w.absbuf ≡ [])
    pub on : w.objectc ≡ true

  module _ (front : List ℕ) (s₀ : LinkState) (w : Writer) (s : LinkState)
      (a : Agrees front s₀ w s) where
    -- The text after a flush of both buffers, which brings the linker to `s`.
    abbrev pub flushed_text : List ℕ
    flushed_text = (a.text ++ abs_chunk w.absbuf) ++ rmb_chunk w.rmbcount

    pub flushed_behind :
        (w.stream ++ abs_chunk w.absbuf) ++ rmb_chunk w.rmbcount ≡ front ++ flushed_text
    flushed_behind =
        rw (a.behind, append_assoc front a.text (abs_chunk w.absbuf))
          (append_assoc front (a.text ++ abs_chunk w.absbuf) (rmb_chunk w.rmbcount))

    pub flushed : Decodes m header s₀ flushed_text s
    flushed =
        let c = a.current in
        let t = emit m (map char_of w.absbuf) c in
        rw a.pending (
          Decodes-trans m header s₀ t _ (a.text ++ abs_chunk w.absbuf) (rmb_chunk w.rmbcount)
            (Decodes-trans m header s₀ c t a.text (abs_chunk w.absbuf) a.decodes
              (Decodes-abs_chunk c w.absbuf a.full))
            (Decodes-rmb_chunk t w.rmbcount a.small))

    pub size_now : (w.relsize ≡ 0) ⊎ (s.relocsize ≡ w.relsize)
    size_now = elim (a.size) [
      | inl e ↦ inl e
      | inr e ↦ inr (rw a.pending (relocsize-emit _ _ ∙ relocsize-emit _ _ ∙ e))
    ]

    -- A command that is put behind the flushes.
    pub special-Agrees :
        (bs : List ℕ) (t : LinkState) (r : ℕ)
        → Decodes m header s bs t
        → (r ≡ 0) ⊎ (t.relocsize ≡ r)
        → Agrees front s₀ (when_on (special bs) (record w { relsize = r })) t
    unfolding when_on special drop_abs drop_rmb put
    special-Agrees bs t r d h = rw a.on (record {
      text = flushed_text ++ bs;
      behind = ap (λ (ys : List ℕ). ys ++ bs) flushed_behind ∙ append_assoc front flushed_text bs;
      current = t;
      decodes = Decodes-trans m header s₀ s t flushed_text bs flushed d;
      pending = sym (rw (emit-nil m t) (emit-nil m t));
      size = h;
      full = omega arith;
      small = omega arith;
      apart = inl refl;
      on = refl;
    })

    -- Reserved bytes join those that wait.
    pub reserve-Agrees :
        (n : ℕ)
        → w.rmbcount + n < 2 ^ 16
        → Agrees front s₀ (when_on (reserve n) w) (emit m (replicate n 0) s)
    unfolding when_on reserve drop_abs
    reserve-Agrees n h =
        let c = a.current in
        let t = emit m (map char_of w.absbuf) c in
        let k : (w.rmbcount + n) % offset_mod ≡ w.rmbcount + n = omega arith in
        rw a.on (record {
          text = a.text ++ abs_chunk w.absbuf;
          behind =
              ap (λ (ys : List ℕ). ys ++ abs_chunk w.absbuf) a.behind
              ∙ append_assoc front a.text (abs_chunk w.absbuf);
          current = t;
          decodes =
              Decodes-trans m header s₀ c t a.text (abs_chunk w.absbuf) a.decodes
                (Decodes-abs_chunk c w.absbuf a.full);
          pending =
              ap (emit m (replicate n 0)) a.pending
              ∙ sym (emit-append m (replicate w.rmbcount 0) (replicate n 0) t)
              ∙ ap (λ (bs : List ℕ). emit m bs t) (replicate-append w.rmbcount n 0)
              ∙ rw (k, emit-nil m t) refl;
          size = elim (a.size) [ inl e ↦ inl e | inr e ↦ inr (relocsize-emit _ _ ∙ e) ];
          full = omega arith;
          small = rw k h;
          apart = inr refl;
          on = refl;
        })

    char_of_char : (b : ℕ) → char_of (char_of b) ∷ [] ≡ char_of b ∷ []
    char_of_char b = ap (λ (c : ℕ). c ∷ []) (omega arith)

    nothing_reserved : w.rmbcount ≡ 0 → s ≡ emit m (map char_of w.absbuf) a.current
    nothing_reserved z = a.pending ∙ rw z (emit-nil m (emit m (map char_of w.absbuf) a.current))

    -- A byte of code joins the chunk that waits, or starts a new one behind the flushes.
    joined :
        (b : ℕ)
        → w.rmbcount ≡ 0
        → length w.absbuf < 64
        → Agrees front s₀
            (record w { absbuf = w.absbuf ++ char_of b ∷ [] })
            (emit m (char_of b ∷ []) s)
    joined b z h =
        let c = a.current in
        let bs = w.absbuf ++ char_of b ∷ [] in
        let chars : map char_of bs ≡ map char_of w.absbuf ++ char_of b ∷ [] =
          map-append char_of w.absbuf (char_of b ∷ [])
          ∙ ap (λ (ys : List ℕ). map char_of w.absbuf ++ ys) (char_of_char b) in
        record {
          text = a.text;
          behind = a.behind;
          current = c;
          decodes = a.decodes;
          pending =
              ap (emit m (char_of b ∷ [])) (nothing_reserved z)
              ∙ sym (emit-append m (map char_of w.absbuf) (char_of b ∷ []) c)
              ∙ ap (λ (ys : List ℕ). emit m ys c) (sym chars)
              ∙ sym (rw z (emit-nil m (emit m (map char_of bs) c)));
          size = a.size;
          full = omega (arith, length-append w.absbuf (char_of b ∷ []));
          small = a.small;
          apart = inl z;
          on = a.on;
        }

    started :
        (b : ℕ) (u : Writer)
        → u.stream ≡ (w.stream ++ abs_chunk w.absbuf) ++ rmb_chunk w.rmbcount
        → u.absbuf ≡ char_of b ∷ []
        → u.rmbcount ≡ 0
        → u.relsize ≡ w.relsize
        → u.objectc ≡ true
        → Agrees front s₀ u (emit m (char_of b ∷ []) s)
    started b u es ea ez er eo = record {
      text = flushed_text;
      behind = es ∙ flushed_behind;
      current = s;
      decodes = flushed;
      pending = sym (rw (ez, ea, char_of_char b) (emit-nil m (emit m (char_of b ∷ []) s)));
      size = rw er size_now;
      full = rw ea (omega arith);
      small = rw ez (omega arith);
      apart = inl ez;
      on = eo;
    }

    pub absolute-Agrees :
        (b : ℕ) → Agrees front s₀ (when_on (absolute b) w) (emit m (char_of b ∷ []) s)
    absolute-Agrees b = elim (a.apart) [
      | inl z ↦ elim (dec_lt (length w.absbuf) 64) [
        | yes room ↦ rw (same z room) (joined b z room)
        | no filled ↦
            started b (when_on (absolute b) w) (at_64 z filled) (new_64 z filled) zero_w size_w on_w
      ]
      | inr e ↦ started b (when_on (absolute b) w) (at_0 e) (new_0 e) zero_w size_w on_w
    ]
      where
        same :
            w.rmbcount ≡ 0
            → length w.absbuf < 64
            → when_on (absolute b) w ≡ record w { absbuf = w.absbuf ++ char_of b ∷ [] }
        same z h =
            unfold when_on absolute drop_rmb rmb_chunk in ground (arith, a.on, append-nil w.stream)

        at_64 :
            w.rmbcount ≡ 0
            → ¬ (length w.absbuf < 64)
            → (when_on (absolute b) w).stream
              ≡ (w.stream ++ abs_chunk w.absbuf) ++ rmb_chunk w.rmbcount
        at_64 z h =
            unfold when_on absolute drop_rmb drop_abs rmb_chunk in
            ground (arith, a.on, append-nil w.stream, append-nil (w.stream ++ abs_chunk w.absbuf))

        new_64 :
            w.rmbcount ≡ 0
            → ¬ (length w.absbuf < 64)
            → (when_on (absolute b) w).absbuf ≡ char_of b ∷ []
        new_64 z h = unfold when_on absolute drop_rmb drop_abs in ground (arith, a.on)

        at_0 :
            w.absbuf ≡ []
            → (when_on (absolute b) w).stream
              ≡ (w.stream ++ abs_chunk w.absbuf) ++ rmb_chunk w.rmbcount
        at_0 e =
            unfold when_on absolute drop_rmb drop_abs abs_chunk in
            ground (arith, a.on, e, append-nil w.stream)

        new_0 : w.absbuf ≡ [] → (when_on (absolute b) w).absbuf ≡ char_of b ∷ []
        new_0 e = unfold when_on absolute drop_rmb drop_abs in ground (arith, a.on, e)

        zero_w : (when_on (absolute b) w).rmbcount ≡ 0
        zero_w = unfold when_on absolute drop_rmb drop_abs in ground (arith, a.on)

        size_w : (when_on (absolute b) w).relsize ≡ w.relsize
        size_w = unfold when_on absolute drop_rmb drop_abs in ground (arith, a.on)

        on_w : (when_on (absolute b) w).objectc ≡ true
        on_w = unfold when_on absolute drop_rmb drop_abs in ground (arith, a.on)
