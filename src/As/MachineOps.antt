-- ===== src/As/MachineOps.antt =====
-- as/mops.c: the addressing modes of the machine operations. Simple has the other routines.
-- The only index register is X, whose number is 0 and whose postbyte is 0.
pub mod Simple
pub mod Branch
use mc6801_tools.Base.{
  ℕ, ◌+◌, ◌-◌, ◌*◌, ◌/◌, ◌%◌, ◌^◌, Bool, true, false, not, ◌&&◌, ◌||◌, Option, none, some,
  get_elem?, set, ltb, leb, ◌==◌, if◌then◌else◌, bit_and, bit_or, bit_xor,
}
use mc6801_tools.Base.Bits.{has}
use mc6801_tools.As.Const.{
  labit, macbit, varbit, mnregbit, regbit, forbit, relbit, impbit, undbit, segm, obj_r_mask,
}
use mc6801_tools.As.Asm.{
  Asm, Routine, ◌>>◌, nothing, Sym, ErrorCode, Symbol, error, at_last_pass, word, set_data,
  set_offset, ident, comma, subop, predecop, lessthan, greaterthan, rbracket, immediate, illmod,
  iregexp, illreg, abounds, dbounds, comexp, shortb,
}
use mc6801_tools.As.Scan.{getsym}
use mc6801_tools.As.Express.{expres, symexpres, nonimpexpres}
use mc6801_tools.As.Express.Combine.{chkabs, showrelbad}

abbrev indirectbit : ℕ
indirectbit = 0x10

abbrev indexbit : ℕ
indexbit = 0x80

abbrev xreg : ℕ
xreg = 0

abbrev is8bitadr : ℕ → Bool
is8bitadr offset = ltb offset 0x100

abbrev pub is8bitsignedoffset : ℕ → Bool
is8bitsignedoffset offset = ltb ((offset + 0x80) % word) 0x100

-- `a - b` on offsets.
abbrev pub sub_word : ℕ → ℕ → ℕ
sub_word a b = (a + (word - b % word)) % word

abbrev pub add_mcount : ℕ → Asm → Asm
add_mcount n s = record s { mcount = (s.mcount + n) % word }

-- The number of the register that the current symbol is, or `none` for NOREG. On the way an unknown
-- identifier is marked as seen.
abbrev reg_of : Symbol → ℕ
reg_of symbol = symbol.value % 256

unfoldable pub regchk_ident : Asm → Option (Option ℕ × Asm)
regchk_ident s = elim (s.gsymptr) [
  | none ↦ none
  | some id ↦ elim (get_elem? s.symbols id) [
    | none ↦ none
    | some symbol ↦
        if has symbol.kind mnregbit
        then some (if has symbol.flags regbit then some (reg_of symbol) else none, s)
        else if (s.last_pass == 1) && not (has symbol.kind (bit_or labit (bit_or macbit varbit)))
        then some (
          none,
          record s {
            symbols = set s.symbols id (record symbol { flags = bit_or symbol.flags forbit });
          },
        )
        else some (none, s)
  ]
]

unfoldable pub regchk : Asm → Option (Option ℕ × Asm)
unfolding regchk_ident
regchk s = elim (s.sym) as (λ _. Option (Option ℕ × Asm)) [
  | ident ↦ regchk_ident s
  | _ ↦ some (none, s)
]

unfoldable pub fixupind : Asm → Asm
fixupind s =
    if bit_and s.opcode 0x30 == 0
    then record s { opcode = bit_or s.opcode (if ltb s.opcode 0x80 then 0x60 else 0x20) }
    else s

unfoldable pub inderror : ErrorCode → Asm → Asm
unfolding fixupind
inderror e s =
    let t = error e s in
    fixupind (if has t.postb indirectbit then record t { sym = rbracket } else t)

-- `indreg(MAXINDREG)`: an index register, and the symbol behind it.
unfoldable pub indreg : Asm → Option (Option ℕ × Asm)
unfolding regchk inderror
indreg s = elim (regchk s) [
  | none ↦ none
  | some (reg, t) ↦ elim reg [
    | none ↦ some (none, inderror iregexp t)
    | some r ↦
        if ltb xreg r
        then some (none, inderror illreg t)
        else elim (getsym t) [ none ↦ none | some u ↦ some (some r, u) ]
  ]
]

-- What follows, by whether `indreg` found a register.
abbrev if_indreg : Routine → Routine → Routine
if_indreg found missing s = elim (indreg s) [
  | none ↦ none
  | some (reg, t) ↦ elim reg [ none ↦ missing t | some r ↦ found t ]
]

unfoldable pub getindexnopost : Routine
unfolding indreg fixupind
getindexnopost = getsym >> if_indreg (λ t. some (fixupind t)) nothing

-- The warning where a branch would reach the target of a JSR or a JMP.
unfoldable pub branch_would_do : Asm → Bool
branch_would_do s =
    at_last_pass s
    && ((s.opcode == 0xbd) || (s.opcode == 0x7e))
    && not (has s.lastexp.flags (bit_or impbit undbit))
    && not (has (bit_xor s.lastexp.flags s.lcdata) (bit_or relbit segm))
    && is8bitsignedoffset (sub_word s.lastexp.offset ((s.lc + 2) % word))

unfoldable pub extended : Asm → Asm
unfolding branch_would_do
extended s =
    let t =
      add_mcount 1
        (record s { opcode = bit_or s.opcode (if ltb s.opcode 0x80 then 0x70 else 0x30) }) in
    if branch_would_do t then error shortb t else t

-- Direct addressing, or extended addressing: the operations below 0x80 have no direct mode.
unfoldable pub direct_or_extended : Bool → Bool → Asm → Asm
unfolding extended
direct_or_extended byteflag wordflag s =
    let memory_op = ltb s.opcode 0x80 in
    let t = if memory_op && byteflag then error illmod s else s in
    let byte = byteflag && not memory_op in
    let wide = wordflag || memory_op in
    if byte
      || (not wide
          && not (has s.lastexp.flags (bit_or forbit relbit))
          && (s.lastexp.offset / 256 == s.dirpag))
    then (if leb 0x80 t.opcode then record t { opcode = bit_or t.opcode 0x10 } else t)
    else extended t

-- Behind the expression of an operand.
unfoldable pub after_expression : Bool → Bool → Routine
unfolding indreg inderror fixupind direct_or_extended
after_expression byteflag wordflag s = elim (s.sym) as (λ _. Option Asm) [
  | comma ↦
      (getsym
          >> if_indreg
              (λ t. some (
                fixupind
                  (if wordflag || not (is8bitadr t.lastexp.offset) then inderror illmod t else t)))
              nothing)
        s
  | _ ↦ some (
      if has s.postb indirectbit
      then fixupind (add_mcount 2 (record s { postb = 0x9f }))
      else if has s.postb indexbit
      then inderror illmod s
      else direct_or_extended byteflag wordflag s)
]

unfoldable pub sized_expression : Routine
unfolding after_expression
sized_expression s = elim (s.sym) as (λ _. Option Asm) [
  | lessthan ↦ (getsym >> expres >> after_expression true false) s
  | greaterthan ↦ (getsym >> expres >> after_expression false true) s
  | _ ↦ (expres >> after_expression false false) s
]

unfoldable pub operand : Routine
unfolding sized_expression getindexnopost
operand s = elim (s.sym) as (λ _. Option Asm) [
  | predecop ↦ getindexnopost (error illmod s)
  | _ ↦ sized_expression s
]

-- A leading minus: `-R` is refused, anything else starts an expression.
unfoldable pub after_minus : Routine
unfolding regchk getindexnopost operand
after_minus s = elim (getsym s) [
  | none ↦ none
  | some t ↦ elim (regchk t) [
    | none ↦ none
    | some (reg, u) ↦
        let back = record u { lineptr = s.lineptr; symname = s.symname } in
        elim reg [
          | some r ↦ getindexnopost (error illmod back)
          | none ↦ operand (record back { sym = subop })
        ]
  ]
]

unfoldable pub doaltind : Routine
unfolding after_minus indreg fixupind operand
doaltind s =
    let t = add_mcount 2 s in
    elim (t.sym) as (λ _. Option Asm) [
      | subop ↦ after_minus t
      | comma ↦ (getsym >> if_indreg (λ u. some (fixupind u)) operand) (set_offset 0 t)
      | _ ↦ operand t
    ]

unfoldable pub malter : Routine
unfolding doaltind
malter s = doaltind (record s { postb = 0 })
