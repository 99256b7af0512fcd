-- ===== src/As/GenObj/Addresses.antt =====
-- `genobjadr` implements the specification of an operand: absolute, relocated by the address of a
-- segment, or by the value of a symbol.
use mc6801_tools.Base.{
  ℕ, zero, suc, ◌/◌, ◌%◌, ◌^◌, ◌≡◌, sym, ap, ap₂, Bool, true, false, List, [], ◌∷◌, leb, ◌==◌, ◌⊎◌,
  inl, inr, Bool-cases, if◌then◌else◌, bit_and, bit_or, arith,
}
use mc6801_tools.Base.Bytes.{value_bytes}
use mc6801_tools.Base.Bits.{has}
use mc6801_tools.TypeConv.{char_of, u2cn, u2c2, typeconv_init}
use mc6801_tools.As.Const.{relbit, impbit, segm, obj_offset_rel, obj_symbol_rel, obj_s_mask}
use mc6801_tools.As.Line.{Address}
use mc6801_tools.As.GenObj.{skip, putobjoffset, putobj1, putobjword}
use mc6801_tools.As.GenObj.Lines.{
  symbol_number, offset_size, put_absolute, set_relsize, put_symbol, genobjadr,
}
use mc6801_tools.As.GenObj.Writer.{Writer, view, put, absolute, special, when_on}
use mc6801_tools.As.GenObj.Buffers.{
  Refines, Refines-then, Refines-to, skip-Refines, put-nil, putobj1-Refines, putobjword-Refines,
  putobjoffset_1, putobjoffset_2,
}
use mc6801_tools.As.GenObj.Requests.{putabs-Refines, putobj-Refines}

-- The sizes of an operand.
abbrev pub IsSize : ℕ → Type 0
IsSize n = (n ≡ 1) ⊎ (n ≡ 2)

unfoldable pub absolutes : List ℕ → Writer → Writer
absolutes [] w = w
absolutes (b ∷ bs) w = absolutes bs (when_on (absolute b) w)

unfoldable pub announce : ℕ → Writer → Writer
announce size w =
    if size == w.relsize
    then w
    else when_on (special (char_of size ∷ [])) (record w { relsize = size })

abbrev pub offset_code : ℕ → Address → ℕ
offset_code pcrflag adr = bit_or (bit_or (bit_and adr.flags segm) obj_offset_rel) pcrflag

unfoldable pub offset_operand : ℕ → Address → ℕ → Writer → Writer
offset_operand pcrflag adr size w =
    put (value_bytes size adr.offset) (when_on (special (char_of (offset_code pcrflag adr) ∷ [])) w)

abbrev pub symbol_code : ℕ → ℕ → ℕ → ℕ
symbol_code pcrflag offset number =
    bit_or
      (bit_or (if leb 0x100 number then bit_or obj_symbol_rel obj_s_mask else obj_symbol_rel)
        (offset_size offset))
      pcrflag

unfoldable pub symbol_operand : ℕ → Address → Writer → Writer
symbol_operand pcrflag adr w =
    let number = symbol_number adr.sym w.arrext in
    put (value_bytes (offset_size adr.offset) adr.offset) (
      put (value_bytes (if leb 0x100 number then 2 else 1) number)
        (when_on (special (char_of (symbol_code pcrflag adr.offset number) ∷ [])) w))

unfoldable pub operand : ℕ → Address → ℕ → Writer → Writer
operand pcrflag adr size w =
    if has adr.flags relbit
    then (if has adr.flags impbit
        then symbol_operand pcrflag adr (announce size w)
        else offset_operand pcrflag adr size (announce size w))
    else absolutes (value_bytes size adr.offset) w

offset_size-IsSize : (n : ℕ) → IsSize (offset_size (suc n))
unfolding offset_size
offset_size-IsSize n = ground arith

suc_not_zero : (n : ℕ) → (suc n == 0) ≡ false
suc_not_zero n = ground arith

put-none : (w : Writer) → w ≡ put (value_bytes (offset_size 0) 0) w
unfolding offset_size value_bytes
put-none w = sym (put-nil w)

module _ (accepts : List ℕ → List ℕ → Bool) (ok : (f c : List ℕ) → accepts f c ≡ true) where
  putobjoffset-Refines :
      (n size : ℕ) → IsSize size → Refines (putobjoffset accepts n size) (put (value_bytes size n))
  putobjoffset-Refines n size (inl e) = rw e (putobjoffset_1 accepts ok n)
  putobjoffset-Refines n size (inr e) = rw e (putobjoffset_2 accepts ok n)

  put_absolute-Refines :
      (n size : ℕ)
      → IsSize size
      → Refines (put_absolute accepts n size) (absolutes (value_bytes size n))
  put_absolute-Refines n size (inl e) = rw e (
      unfold put_absolute u2cn absolutes value_bytes in
      Refines-to (absolutes (n / 256 ^ 0 % 256 ∷ []))
        (Refines-then (putabs-Refines accepts ok (n % 2 ^ 32 % 256))
          (Refines-then skip-Refines skip-Refines))
        (λ w. ap (λ (b : ℕ). when_on (absolute b) w) (omega arith)))
  put_absolute-Refines n size (inr e) = rw e (
      unfold put_absolute u2cn u2c2 typeconv_init absolutes value_bytes in
      Refines-to (absolutes (n / 256 ^ 1 % 256 ∷ n / 256 ^ 0 % 256 ∷ []))
        (Refines-then (putabs-Refines accepts ok (n % 2 ^ 32 / 256 % 256))
          (Refines-then (putabs-Refines accepts ok (n % 2 ^ 32 % 256)) skip-Refines))
        (λ w.
          ap₂ (λ (a b : ℕ). when_on (absolute b) (when_on (absolute a) w)) (omega arith)
            (omega arith)))

  set_relsize-Refines :
      (size : ℕ) → IsSize size → Refines (set_relsize accepts size) (announce size)
  unfolding set_relsize announce view
  set_relsize-Refines size h = record {
    run = λ s. elim (Bool-cases (size == s.relsize)) [
      | inl e ↦ (s, rw e, rw e)
      | inr e ↦
          let (t, r, v) = (putobj-Refines accepts ok size).run (record s { relsize = size }) in
          (t, ground (arith, r), rw e v)
    ];
  }

  number-Refines :
      (n : ℕ)
      → Refines
          (if leb 0x100 n then putobjword accepts n else putobj1 accepts n)
          (put (value_bytes (if leb 0x100 n then 2 else 1) n))
  number-Refines n = elim (Bool-cases (leb 0x100 n)) [
    | inl e ↦ rw e (putobjword-Refines accepts ok n)
    | inr e ↦ rw e (Refines-to _ (putobj1-Refines accepts ok n) (λ w. one w))
  ]
    where
      one : (w : Writer) → put (char_of n ∷ []) w ≡ put (value_bytes 1 n) w
      one w = unfold value_bytes in ap (λ (b : ℕ). put (b ∷ []) w) (omega arith)

  offset-Refines :
      (n : ℕ)
      → Refines
          (if n == 0 then skip else putobjoffset accepts n (offset_size n))
          (put (value_bytes (offset_size n) n))
  offset-Refines zero = Refines-to (put (value_bytes (offset_size 0) 0)) skip-Refines put-none
  offset-Refines (suc n) =
      rw (suc_not_zero n)
        (putobjoffset-Refines (suc n) (offset_size (suc n)) (offset_size-IsSize n))

  put_symbol-Refines :
      (pcrflag : ℕ) (adr : Address)
      → Refines (put_symbol accepts pcrflag adr) (symbol_operand pcrflag adr)
  unfolding put_symbol symbol_operand view
  put_symbol-Refines pcrflag adr = record {
    run = λ s.
        (Refines-then
            (putobj-Refines accepts ok
              (symbol_code pcrflag adr.offset (symbol_number adr.sym s.arrext)))
            (Refines-then (number-Refines (symbol_number adr.sym s.arrext))
              (offset-Refines adr.offset))).run
          s;
  }

  -- `genobjadr`, for an operand of one or two bytes.
  pub genobjadr-Refines :
      (pcrflag : ℕ) (adr : Address) (size : ℕ)
      → IsSize size
      → Refines (genobjadr accepts pcrflag adr size) (operand pcrflag adr size)
  unfolding genobjadr offset_operand
  genobjadr-Refines pcrflag adr size h = elim (Bool-cases (has adr.flags relbit)) [
    | inr e ↦ rw e (Refines-to _ (put_absolute-Refines adr.offset size h) (λ w. by_absolute w e))
    | inl e ↦ elim (Bool-cases (has adr.flags impbit)) [
      | inl i ↦
          rw (e, i)
            (Refines-to _
              (Refines-then (set_relsize-Refines size h) (put_symbol-Refines pcrflag adr))
              (λ w. by_symbol w e i))
      | inr i ↦
          rw (e, i)
            (Refines-to _
              (Refines-then (set_relsize-Refines size h) (
                Refines-then (putobj-Refines accepts ok (offset_code pcrflag adr))
                  (putobjoffset-Refines adr.offset size h)))
              (λ w. by_offset w e i))
    ]
  ]
    where
      by_absolute :
          (w : Writer)
          → has adr.flags relbit ≡ false
          → absolutes (value_bytes size adr.offset) w ≡ operand pcrflag adr size w
      by_absolute w e = unfold operand in ground arith

      by_symbol :
          (w : Writer)
          → has adr.flags relbit ≡ true
          → has adr.flags impbit ≡ true
          → symbol_operand pcrflag adr (announce size w) ≡ operand pcrflag adr size w
      by_symbol w e i = unfold operand in ground arith

      by_offset :
          (w : Writer)
          → has adr.flags relbit ≡ true
          → has adr.flags impbit ≡ false
          → offset_operand pcrflag adr size (announce size w) ≡ operand pcrflag adr size w
      by_offset w e i = unfold operand in ground arith
