-- ===== src/Ld/LinkMod/Relocs.antt =====
-- `linkmod` on the relocations: by the address of a segment, and by the value of a symbol.
use mc6801_tools.Base.{
  ℕ, zero, suc, ◌+◌, ◌%◌, ◌^◌, ◌≤◌, ◌<◌, ◌≡◌, refl, ap, ◌∙◌, Bool, true, false, some, List, ◌∷◌,
  ◌++◌, length, get_elem?, get_or, append_assoc, if◌then◌else◌, bit_and, arith, inl, inr,
}
use native.Mathlib.Nat.{mod-eq_of_lt}
use mc6801_tools.Base.Bytes.{value_bytes}
use mc6801_tools.Base.Bits.{has, and_3, and_4, and_3f, and_c0, and_0f, and_32}
use mc6801_tools.TypeConv.{u2cn, cnu2, typeconv_init, u2c2, c2u2}
use mc6801_tools.Ld.Input.{readchar, readin, readsize, readconvsize, convertsize}
use mc6801_tools.Ld.LinkMod.{
  SymStruct, ModStruct, LinkState, more, segwrite, put_reloc, operand_bytes, offset_reloc,
  symbol_reloc, command, int_mod, sub_int, from_read,
}
use mc6801_tools.Ld.LinkMod.Commands.{reloc_value, IsSize, emit, Decodes, Decodes-command}

value_bytes_1 : (v w : ℕ) → v % 256 ≡ w % 256 → value_bytes 1 v ≡ value_bytes 1 w
unfolding value_bytes
value_bytes_1 v w h = ground arith

value_bytes_2 : (v w : ℕ) → v % 2 ^ 16 ≡ w % 2 ^ 16 → value_bytes 2 v ≡ value_bytes 2 w
unfolding value_bytes
value_bytes_2 v w h = ground arith

pub value_bytes_mod :
    (n v w : ℕ) → IsSize n → v % 256 ^ n ≡ w % 256 ^ n → value_bytes n v ≡ value_bytes n w
value_bytes_mod n v w (inl e) h = rw e (value_bytes_1 v w (rw e at h))
value_bytes_mod n v w (inr e) h = rw e (value_bytes_2 v w (rw e at h))

-- The command byte of a relocation by offset.
abbrev pub offset_command : ℕ → Bool → ℕ
offset_command seg pcr = 0x80 + seg + (if pcr then 0x20 else 0)

-- The low bits of the command byte of a relocation by symbol: a wide symbol number, the size of
-- the offset, and whether it is relative.
abbrev pub symbol_bits : Bool → ℕ → Bool → ℕ
symbol_bits wide k pcr = (if wide then 4 else 0) + k + (if pcr then 0x20 else 0)

module _ (header : ℕ) (m : ModStruct) where
  operand_bytes-value : (n v : ℕ) → IsSize n → operand_bytes n v ≡ value_bytes n v
  operand_bytes-value n v (inl e) = rw e (unfold operand_bytes value_bytes u2cn in ground arith)
  operand_bytes-value n v (inr e) =
      rw e (unfold operand_bytes value_bytes u2cn u2c2 typeconv_init in ground arith)

  length-value_bytes : (n v : ℕ) → length (value_bytes n v) ≡ n
  unfolding value_bytes
  length-value_bytes zero v = refl
  length-value_bytes (suc n) v = ap suc (length-value_bytes n v)

  put_reloc-emit :
      (s : LinkState) (v : ℕ)
      → IsSize s.relocsize
      → put_reloc m v s ≡ emit m (value_bytes s.relocsize v) s
  unfolding put_reloc emit segwrite
  put_reloc-emit s v h =
      rw (operand_bytes-value s.relocsize v h) (ground (arith, length-value_bytes s.relocsize v))

  readsize-value_bytes :
      (n v : ℕ) (rest : List ℕ)
      → IsSize n
      → readsize n (value_bytes n v ++ rest) ≡ some (v % 256 ^ n, rest)
  readsize-value_bytes n v rest (inl e) =
      rw e (unfold readsize readin readchar cnu2 value_bytes in ground arith)
  readsize-value_bytes n v rest (inr e) =
      rw e (unfold readsize readin readchar cnu2 c2u2 typeconv_init value_bytes in ground arith)

  relative_mod :
      (n v base pc : ℕ) (pcr : Bool)
      → IsSize n
      → (base + (if pcr then sub_int (v % 256 ^ n) pc else v % 256 ^ n)) % int_mod % 256 ^ n
        ≡ reloc_value pcr pc base v % 256 ^ n
  relative_mod n v base pc true (inl e) = rw e (omega arith)
  relative_mod n v base pc false (inl e) = rw e (omega arith)
  relative_mod n v base pc true (inr e) = rw e (omega arith)
  relative_mod n v base pc false (inr e) = rw e (omega arith)

  command-offset_reloc :
      (s : LinkState) (c modify : ℕ) (input : List ℕ)
      → c ≡ 0x80 + modify
      → modify < 64
      → command header m s (c ∷ input) ≡ offset_reloc m modify s input
  unfolding command readchar
  command-offset_reloc s c modify input e h = ground (arith, and_3f c, and_c0 c)

  has-r_mask : (seg : ℕ) (pcr : Bool) → seg < 16 → has (seg + (if pcr then 0x20 else 0)) 0x20 ≡ pcr
  has-r_mask seg pcr h = ground (arith, and_32 (seg + (if pcr then 0x20 else 0)))

  has-segm :
      (seg : ℕ) (pcr : Bool) → seg < 16 → bit_and (seg + (if pcr then 0x20 else 0)) 0x0f ≡ seg
  has-segm seg pcr h = ground (arith, and_0f (seg + (if pcr then 0x20 else 0)))

  -- The value that is written, by what was read of the operand.
  put_relative :
      (s : LinkState) (v base : ℕ) (pcr : Bool)
      → IsSize s.relocsize
      → put_reloc m
          ((base
              + (if pcr
                  then sub_int (v % 256 ^ s.relocsize) (s.spos + s.relocsize)
                  else v % 256 ^ s.relocsize))
            % int_mod)
          s
        ≡ emit m (value_bytes s.relocsize (reloc_value pcr (s.spos + s.relocsize) base v)) s
  put_relative s v base pcr h =
      put_reloc-emit s _ h
      ∙ ap (λ (bs : List ℕ). emit m bs s)
          (value_bytes_mod s.relocsize _ _ h
            (relative_mod s.relocsize v base (s.spos + s.relocsize) pcr h))

  -- Relocation by the address of a segment.
  pub Decodes-offset_reloc :
      (s : LinkState) (c v seg : ℕ) (pcr : Bool)
      → IsSize s.relocsize
      → seg < 16
      → c ≡ offset_command seg pcr
      → Decodes m header s (c ∷ value_bytes s.relocsize v) (
          emit m
            (value_bytes s.relocsize
              (reloc_value pcr (s.spos + s.relocsize) (get_or m.segaddr seg 0) v))
            s)
  Decodes-offset_reloc s c v seg pcr h lt ec =
      let modify = seg + (if pcr then 0x20 else 0) in
      let base = get_or m.segaddr seg 0 in
      Decodes-command m header s _ c (value_bytes s.relocsize v) (λ rest.
        command-offset_reloc s c modify (value_bytes s.relocsize v ++ rest) (omega arith)
          (ground arith)
        ∙ (unfold offset_reloc in
            rw
              (
                readsize-value_bytes s.relocsize v rest h,
                has-segm seg pcr lt,
                has-r_mask seg pcr lt,
              )
              (ap (λ t. more t rest) (put_relative s v base pcr h))))

  command-symbol_reloc :
      (s : LinkState) (c modify : ℕ) (input : List ℕ)
      → c ≡ 0xc0 + modify
      → modify < 64
      → command header m s (c ∷ input) ≡ symbol_reloc m modify s input
  unfolding command readchar
  command-symbol_reloc s c modify input e h = ground (arith, and_3f c, and_c0 c)

  symbol_bits_fields :
      (wide : Bool) (k : ℕ) (pcr : Bool)
      → k < 4
      → (has (symbol_bits wide k pcr) 4 ≡ wide)
        × (bit_and (symbol_bits wide k pcr) 3 ≡ k)
        × (has (symbol_bits wide k pcr) 0x20 ≡ pcr)
  symbol_bits_fields wide k pcr h = ground (
    arith,
    and_4 (symbol_bits wide k pcr),
    and_3 (symbol_bits wide k pcr),
    and_32 (symbol_bits wide k pcr),
  )

  mod_small : (k n : ℕ) → n < 256 ^ k → n % 256 ^ k ≡ n
  mod_small k n h = mod-eq_of_lt h

  readconvsize-number :
      (wide : Bool) (n : ℕ) (rest : List ℕ)
      → n < (if wide then 2 ^ 16 else 256)
      → readconvsize (if wide then 2 else 1) (value_bytes (if wide then 2 else 1) n ++ rest)
        ≡ some (n, rest)
  unfolding readconvsize convertsize
  readconvsize-number true n rest h =
      readsize-value_bytes 2 n rest (inr refl) ∙ rw (mod_small 2 n (omega arith))
  readconvsize-number false n rest h =
      readsize-value_bytes 1 n rest (inl refl) ∙ rw (mod_small 1 n (omega arith))

  readconvsize-offset :
      (k v : ℕ) (rest : List ℕ)
      → k ≤ 2
      → readconvsize k (value_bytes k v ++ rest) ≡ some (v % 256 ^ k, rest)
  unfolding readconvsize convertsize
  readconvsize-offset zero v rest h = unfold readsize value_bytes in ground arith
  readconvsize-offset (suc zero) v rest h = readsize-value_bytes 1 v rest (inl refl)
  readconvsize-offset (suc (suc zero)) v rest h = readsize-value_bytes 2 v rest (inr refl)
  readconvsize-offset (suc (suc (suc k))) v rest h = absurd (omega arith)

  symbol_value :
      (s : LinkState) (v base : ℕ) (pcr : Bool)
      → IsSize s.relocsize
      → put_reloc m (((if pcr then sub_int v (s.spos + s.relocsize) else v) + base) % int_mod) s
        ≡ emit m (value_bytes s.relocsize (reloc_value pcr (s.spos + s.relocsize) base v)) s
  symbol_value s v base pcr h =
      put_reloc-emit s _ h
      ∙ ap (λ (bs : List ℕ). emit m bs s)
          (value_bytes_mod s.relocsize _ _ h (same s.relocsize pcr h))
    where
      same :
          (n : ℕ) (r : Bool)
          → IsSize n
          → ((if r then sub_int v (s.spos + s.relocsize) else v) + base) % int_mod % 256 ^ n
            ≡ reloc_value r (s.spos + s.relocsize) base v % 256 ^ n
      same n true (inl e) = rw e (omega arith)
      same n false (inl e) = rw e (omega arith)
      same n true (inr e) = rw e (omega arith)
      same n false (inr e) = rw e (omega arith)

  -- Relocation by the value of the symbol `number`, with an offset of `k` bytes.
  pub Decodes-symbol_reloc :
      (s : LinkState) (c number k v : ℕ) (wide pcr : Bool) (symbol : SymStruct)
      → IsSize s.relocsize
      → number < (if wide then 2 ^ 16 else 256)
      → k ≤ 2
      → get_elem? m.symparray number ≡ some symbol
      → c ≡ 0xc0 + symbol_bits wide k pcr
      → Decodes m header s (c ∷ value_bytes (if wide then 2 else 1) number ++ value_bytes k v) (
          emit m
            (value_bytes s.relocsize
              (reloc_value pcr (s.spos + s.relocsize) symbol.value (v % 256 ^ k)))
            s)
  Decodes-symbol_reloc s c number k v wide pcr symbol h fits small found ec =
      let (w, o, r) = symbol_bits_fields wide k pcr (omega arith) in
      let num = value_bytes (if wide then 2 else 1) number in
      Decodes-command m header s _ c (num ++ value_bytes k v) (λ rest.
        command-symbol_reloc s c (symbol_bits wide k pcr) ((num ++ value_bytes k v) ++ rest)
          (omega arith) (ground arith)
        ∙ ap (symbol_reloc m (symbol_bits wide k pcr) s) (append_assoc num (value_bytes k v) rest)
        ∙ (unfold symbol_reloc in
            rw
              (
                w,
                readconvsize-number wide number (value_bytes k v ++ rest) fits,
                from_read,
                found,
                o,
                readconvsize-offset k v rest small,
                r,
              )
              (ap (λ t. more t rest) (symbol_value s (v % 256 ^ k) symbol.value pcr h))))
