-- ===== src/Link/Simulation.antt =====
-- Each request keeps the assembler and the linker in agreement.
use mc6801_tools.Base.{
  ℕ, zero, suc, ◌+◌, ◌%◌, ◌^◌, ◌≤◌, ◌<◌, ◌≡◌, refl, sym, ap, ap₂, ◌∙◌, Bool, true, some, List, [],
  ◌∷◌, ◌++◌, map, leb, ◌==◌, ==→eq, ◌⊎◌, inl, inr, Bool-cases, if◌then◌else◌, bit_and, arith,
  get_or, get_elem?,
}
use mc6801_tools.Base.Bytes.{value_bytes}
use mc6801_tools.Base.Bits.{has, or_80, and_0f}
use mc6801_tools.TypeConv.{char_of}
use mc6801_tools.As.Const.{segm, obj_r_mask}
use mc6801_tools.As.Line.{Address}
use mc6801_tools.As.GenObj.Lines.{symbol_number, offset_size}
use mc6801_tools.As.GenObj.Writer.{Writer, put, special, absolute, when_on, drop_abs, drop_rmb}
use mc6801_tools.As.GenObj.Buffers.{put-put}
use mc6801_tools.As.GenObj.Addresses.{
  absolutes, announce, offset_code, offset_operand, symbol_code, symbol_operand,
}
use mc6801_tools.Ld.LinkMod.{ModStruct, LinkState, SymStruct}
use mc6801_tools.Ld.LinkMod.Commands.{
  emit, emit-nil, emit-append, Decodes, Decodes-relocsize, IsSize, reloc_value,
}
use mc6801_tools.Ld.LinkMod.Relocs.{
  Decodes-offset_reloc, Decodes-symbol_reloc, offset_command, symbol_bits, value_bytes_mod,
}
use mc6801_tools.Link.Pending.{Agrees, size_now, special-Agrees, absolute-Agrees, relocsize-emit}

pub chars-value_bytes : (n v : ℕ) → map char_of (value_bytes n v) ≡ value_bytes n v
unfolding value_bytes
chars-value_bytes zero v = refl
chars-value_bytes (suc n) v =
    ap₂ (λ (b : ℕ) (bs : List ℕ). b ∷ bs) (omega arith) (chars-value_bytes n v)

seg_lt : (adr : Address) → bit_and adr.flags segm < 16
seg_lt adr = omega (arith, and_0f adr.flags)

-- The command bytes of the two relocations.
offset_code-command :
    (pcrflag : ℕ) (adr : Address)
    → (pcrflag ≡ 0) ⊎ (pcrflag ≡ obj_r_mask)
    → char_of (offset_code pcrflag adr)
      ≡ offset_command (bit_and adr.flags segm) (has pcrflag obj_r_mask)
offset_code-command pcrflag adr (inl e) =
    rw e (ground (arith, seg_lt adr, or_80 (bit_and adr.flags segm)))
offset_code-command pcrflag adr (inr e) =
    rw e (ground (arith, seg_lt adr, or_80 (bit_and adr.flags segm)))

symbol_code-command :
    (pcrflag number offset : ℕ)
    → (pcrflag ≡ 0) ⊎ (pcrflag ≡ obj_r_mask)
    → char_of (symbol_code pcrflag offset number)
      ≡ 0xc0 + symbol_bits (leb 0x100 number) (offset_size offset) (has pcrflag obj_r_mask)
unfolding offset_size
symbol_code-command pcrflag number offset h = ground arith

put-special :
    (xs ys : List ℕ) (w : Writer)
    → w.objectc ≡ true
    → put ys (when_on (special xs) w) ≡ when_on (special (xs ++ ys)) w
unfolding when_on special
put-special xs ys w h = rw h (put-put xs ys _)

module _ (header : ℕ) (m : ModStruct) (front : List ℕ) (s₀ : LinkState) where
  pub absolutes-Agrees :
      (bs : List ℕ) (w : Writer) (s : LinkState)
      → Agrees header m front s₀ w s
      → Agrees header m front s₀ (absolutes bs w) (emit m (map char_of bs) s)
  unfolding absolutes
  absolutes-Agrees [] w s a = rw (emit-nil m s) a
  absolutes-Agrees (b ∷ bs) w s a = rw (emit-append m (char_of b ∷ []) (map char_of bs) s) (
      absolutes-Agrees bs (when_on (absolute b) w) (emit m (char_of b ∷ []) s)
        (absolute-Agrees header m front s₀ w s a b))

  abbrev sized : ℕ → LinkState → LinkState
  sized size s = record s { relocsize = size }

  announce-relsize : (size : ℕ) (w : Writer) → (announce size w).relsize ≡ size
  unfolding announce when_on special drop_abs drop_rmb put
  announce-relsize size w = ground arith

  announce-on : (size : ℕ) (w : Writer) → w.objectc ≡ true → (announce size w).objectc ≡ true
  unfolding announce when_on special drop_abs drop_rmb put
  announce-on size w h = ground arith

  announce-arrext : (size : ℕ) (w : Writer) → (announce size w).arrext ≡ w.arrext
  unfolding announce when_on special drop_abs drop_rmb put
  announce-arrext size w = ground arith

  char_of-size : (size : ℕ) → IsSize size → char_of size ∷ [] ≡ size ∷ []
  char_of-size size h = ap (λ (b : ℕ). b ∷ []) (omega arith)

  -- The size is announced, unless it is that of the last relocation.
  pub announce-Agrees :
      (size : ℕ) (w : Writer) (s : LinkState)
      → IsSize size
      → Agrees header m front s₀ w s
      → Agrees header m front s₀ (announce size w) (sized size s)
  unfolding announce
  announce-Agrees size w s h a = elim (Bool-cases (size == w.relsize)) [
    | inl e ↦
        let same : s ≡ sized size s =
          ground (arith, size_now header m front s₀ w s a, ==→eq size w.relsize e) in
        rw (e, ← same) a
    | inr e ↦
        rw (e, char_of-size size h)
          (special-Agrees header m front s₀ w s a (size ∷ []) (sized size s) size
            (Decodes-relocsize header m s size h) (inr refl))
  ]

  -- A command with its operand, behind an announcement.
  command-Agrees :
      (xs ys : List ℕ) (size : ℕ) (w : Writer) (s t : LinkState)
      → IsSize size
      → Agrees header m front s₀ w s
      → Decodes m header (sized size s) (xs ++ ys) t
      → t.relocsize ≡ size
      → Agrees header m front s₀ (put ys (when_on (special xs) (announce size w))) t
  command-Agrees xs ys size w s t h a d e =
      rw (put-special xs ys (announce size w) (announce-on size w a.on)) (
        special-Agrees header m front s₀ (announce size w) (sized size s)
          (announce-Agrees size w s h a) (xs ++ ys) t (announce size w).relsize d
          (inr (e ∙ sym (announce-relsize size w))))

  -- An operand relocated by the address of a segment.
  pub offset-Agrees :
      (pcrflag : ℕ) (adr : Address) (size : ℕ) (w : Writer) (s : LinkState)
      → IsSize size
      → (pcrflag ≡ 0) ⊎ (pcrflag ≡ obj_r_mask)
      → Agrees header m front s₀ w s
      → Agrees header m front s₀ (offset_operand pcrflag adr size (announce size w)) (
          emit m
            (value_bytes size (
              reloc_value
                (has pcrflag obj_r_mask)
                (s.spos + size)
                (get_or m.segaddr (bit_and adr.flags segm) 0)
                adr.offset))
            (sized size s))
  unfolding offset_operand
  offset-Agrees pcrflag adr size w s h p a =
      command-Agrees (char_of (offset_code pcrflag adr) ∷ []) (value_bytes size adr.offset) size w s
        _ h a
        (Decodes-offset_reloc header m (sized size s) _ adr.offset (bit_and adr.flags segm)
          (has pcrflag obj_r_mask) h (seg_lt adr) (offset_code-command pcrflag adr p))
        (relocsize-emit header m _ (sized size s))

  symbol_operand-command :
      (pcrflag : ℕ) (adr : Address) (size : ℕ) (w : Writer) (number : ℕ)
      → w.objectc ≡ true
      → number ≡ symbol_number adr.sym w.arrext
      → symbol_operand pcrflag adr (announce size w)
        ≡ put
            (value_bytes (if leb 0x100 number then 2 else 1) number
              ++ value_bytes (offset_size adr.offset) adr.offset)
            (when_on
              (special (char_of (symbol_code pcrflag adr.offset number) ∷ []))
              (announce size w))
  unfolding symbol_operand
  symbol_operand-command pcrflag adr size w number h e =
      rw (announce-arrext size w, ← e) (put-put _ _ _)

  -- The offset of a symbol relocation may have lost its high bytes, which the operand lacks too.
  symbol_value_mod :
      (size pc base offset : ℕ) (pcr : Bool)
      → IsSize size
      → reloc_value pcr pc base (offset % 256 ^ offset_size offset) % 256 ^ size
        ≡ reloc_value pcr pc base offset % 256 ^ size
  unfolding offset_size
  symbol_value_mod size pc base offset pcr (inl e) = rw e (ground arith)
  symbol_value_mod size pc base offset pcr (inr e) = rw e (ground arith)

  offset_size-le : (offset : ℕ) → offset_size offset ≤ 2
  unfolding offset_size
  offset_size-le offset = ground arith

  number_fits : (n : ℕ) → n < 2 ^ 16 → n < (if leb 0x100 n then 2 ^ 16 else 256)
  number_fits n h = ground arith

  -- An operand relocated by the value of a symbol.
  pub symbol-Agrees :
      (pcrflag : ℕ) (adr : Address) (size number : ℕ) (w : Writer) (s : LinkState)
      (symbol : SymStruct)
      → IsSize size
      → (pcrflag ≡ 0) ⊎ (pcrflag ≡ obj_r_mask)
      → number ≡ symbol_number adr.sym w.arrext
      → number < 2 ^ 16
      → get_elem? m.symparray number ≡ some symbol
      → Agrees header m front s₀ w s
      → Agrees header m front s₀ (symbol_operand pcrflag adr (announce size w)) (
          emit m
            (value_bytes size
              (reloc_value (has pcrflag obj_r_mask) (s.spos + size) symbol.value adr.offset))
            (sized size s))
  symbol-Agrees pcrflag adr size number w s symbol h p en small found a =
      rw
        (
          symbol_operand-command pcrflag adr size w number a.on en,
          ← value_bytes_mod size _ _ h (
              symbol_value_mod size (s.spos + size) symbol.value adr.offset (has pcrflag obj_r_mask)
                h),
        )
        (command-Agrees (char_of (symbol_code pcrflag adr.offset number) ∷ []) _ size w s _ h a
          (Decodes-symbol_reloc header m (sized size s) _ number (offset_size adr.offset) adr.offset
            (leb 0x100 number) (has pcrflag obj_r_mask) symbol h (number_fits number small)
            (offset_size-le adr.offset) found (symbol_code-command pcrflag number adr.offset p))
          (relocsize-emit header m _ (sized size s)))
