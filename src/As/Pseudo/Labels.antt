-- ===== src/As/Pseudo/Labels.antt =====
-- as/pops.c: the pseudo-operations that declare symbols: COMM, EQU, SET, ENTRY, EXPORT, .GLOBL and
-- IMPORT; with `getsym_nolookup` of as/scan.c.
use mc6801_tools.Base.{
  ℕ, zero, suc, ◌-◌, Bool, true, false, not, ◌&&◌, ◌||◌, Option, none, some, length, get_elem?, ltb,
  ◌==◌, if◌then◌else◌, bit_and, bit_or, bit_xor,
}
use mc6801_tools.Base.Bits.{has}
use mc6801_tools.As.Const.{
  entbit, commbit, labit, mnregbit, macbit, redbit, varbit, expbit, segm, relbit, forbit, impbit,
  undbit,
}
use mc6801_tools.As.Asm.{
  Routine, Symbol, ident, comma, at_last_pass, labexp, segrel, relab, already, illab, mislab,
  varlab, unlab, noimport, unstable_label,
}
use mc6801_tools.As.Scan.{getsym}
use mc6801_tools.As.Express.{absexpres, nonimpexpres}
use mc6801_tools.As.MachineOps.Simple.{getcomma}
use mc6801_tools.As.Pseudo.{
  State, Pop, ◌>>◌, call, on_asm, complain, pop_long, pop_hi, pop_lo, put_symbol, with_label,
  has_label, labelerror, refuse_label,
}
use mc6801_tools.As.Pseudo.Blocks.{setloc, bssloc}

abbrev pub at_symbol : ℕ → (ℕ → Symbol → Pop) → Pop
at_symbol id f s = elim (get_elem? s.symbols id) [ none ↦ none | some symbol ↦ f id symbol s ]

-- Whether a symbol is undefined, or has the segment and relocatability of `lc`.
abbrev pub same_segment : Symbol → ℕ → Bool
same_segment symbol lcdata = not (
    (has symbol.kind labit || (has symbol.flags impbit && not (has symbol.flags undbit)))
    && has (bit_xor symbol.flags lcdata) (bit_or relbit segm))

-- `if (checksegrel(symbol))`, and what follows.
unfoldable pub checksegrel : Symbol → Pop → Pop
checksegrel symbol body s =
    if same_segment symbol s.lcdata then body s else some (complain segrel s)

-- The symbol that stands at the name, if it may be a label.
unfoldable pub needlabel : State → Option (Option ℕ × State)
needlabel s = elim (s.sym) as (λ _. Option (Option ℕ × State)) [
  | ident ↦ elim (s.gsymptr) [
    | none ↦ none
    | some id ↦ elim (get_elem? s.symbols id) [
      | none ↦ none
      | some symbol ↦
          if has symbol.kind (bit_or macbit (bit_or mnregbit varbit))
          then some (none, complain labexp s)
          else some (some id, s)
    ]
  ]
  | _ ↦ some (none, complain labexp s)
]

abbrev pub if_label : (ℕ → Symbol → Pop) → Pop
if_label f s = elim (needlabel s) [
  | none ↦ none
  | some (none, t) ↦ some t
  | some (some id, t) ↦ at_symbol id f t
]

unfoldable pub showlabel : Pop
showlabel = with_label (λ id symbol s.
    some
      (record (on_asm
        (λ a. record a {
          lastexp = record a.lastexp { flags = symbol.flags; offset = symbol.value };
        })
        s) { popflags = bit_or pop_long (bit_or pop_hi pop_lo); label = none }))

-- `showlabel` clears `label`, and the code keeps its own pointer.
unfoldable pub showredefinedlabel : Pop
unfolding showlabel labelerror
showredefinedlabel = with_label (λ id symbol. showlabel >> (λ s.
    if has symbol.kind redbit
    then some s
    else labelerror relab (put_symbol id (record symbol { kind = bit_or symbol.kind redbit }) s)))

abbrev pub imported : State → ℕ
imported s = if s.last_pass == 1 then bit_or forbit (bit_or impbit relbit) else bit_or impbit relbit

abbrev pub comm_symbol : State → Symbol → Symbol
comm_symbol s symbol = record symbol {
  value =
      if not (has symbol.kind commbit) || ltb symbol.value s.lastexp.offset
      then s.lastexp.offset
      else symbol.value;
  kind = bit_or (bit_or symbol.kind commbit) (if s.lcommflag then redbit else 0);
  flags = bit_or (bit_and s.lcdata segm) (imported s);
}

unfoldable pub declare_comm : Pop
unfolding checksegrel labelerror showlabel
declare_comm = with_label (λ id symbol. checksegrel symbol (λ t.
    if has symbol.kind (bit_or expbit labit)
    then labelerror already t
    else showlabel (put_symbol id (comm_symbol t symbol) t)))

unfoldable pub docomm : Pop
unfolding absexpres declare_comm
docomm = call absexpres >> declare_comm >> (λ s. some (record s { lcommflag = false }))

unfoldable pub pcomm : Pop
unfolding docomm labelerror
pcomm s =
    if not (has_label s)
    then labelerror mislab s
    else with_label (λ id symbol. if has symbol.kind varbit then labelerror varlab else docomm) s

-- Like IMPORT.
abbrev pub import_symbol : ℕ → ℕ → Symbol → State → State
import_symbol declared id symbol s =
    if has symbol.kind declared
    then complain already s
    else put_symbol id (record symbol { flags = bit_or s.lcdata (imported s) }) s

unfoldable pub comm_operand : Pop
unfolding getsym getcomma absexpres docomm
comm_operand =
    with_label (λ id symbol s. some (import_symbol (bit_or expbit labit) id symbol s))
    >> call getsym
    >> call getcomma
    >> with_label
        (λ id symbol. if has symbol.kind (bit_or expbit labit) then call absexpres else docomm)

unfoldable pub comm_named : Pop
unfolding needlabel checksegrel comm_operand
comm_named s = elim (needlabel s) [
  | none ↦ none
  | some (none, t) ↦ some (record t { label = none })
  | some (some id, t) ↦
      at_symbol id (λ id symbol. checksegrel symbol comm_operand) (record t { label = some id })
]

unfoldable pub pcomm1 : Pop
unfolding comm_named setloc refuse_label
pcomm1 =
    refuse_label illab
    >> (λ s. let oldseg = bit_and s.lcdata segm in (setloc bssloc >> comm_named >> setloc oldseg) s)

unfoldable pub plcomm : Pop
unfolding pcomm
plcomm s = pcomm (record s { lcommflag = true })

unfoldable pub plcomm1 : Pop
unfolding pcomm1
plcomm1 s = pcomm1 (record s { lcommflag = true })

-- A label that moved makes another pass necessary.
abbrev pub check_moved : ℕ → Symbol → State → State
check_moved labits symbol s =
    if not (s.pass == 0) && (not (has labits varbit) && not (symbol.value == s.oldlabel))
    then (let t = record s { dirty_pass = true } in
        if at_last_pass t.asm then complain unstable_label t else t)
    else s

abbrev pub is_redefined : Symbol → Symbol → State → Bool
is_redefined old symbol s =
    (has old.kind labit && (not (has old.flags undbit) && (s.pass == 0)))
    && (has (bit_xor old.flags s.lastexp.flags) (bit_or relbit undbit)
        || not (symbol.value == s.lastexp.offset))

-- `old` is the symbol before its new flags.
abbrev pub define_label : ℕ → ℕ → Symbol → Pop
define_label labits id old s =
    at_symbol id
      (λ id symbol t.
        if is_redefined old symbol t
        then showredefinedlabel t
        else let new = record symbol { flags = t.lastexp.flags; value = t.lastexp.offset } in
          (showlabel >> (λ u. some (check_moved labits new u))) (put_symbol id new t))
      s

abbrev pub take_forbit : ℕ → State → State
take_forbit flags s =
    on_asm
      (λ a. record a {
        lastexp = record a.lastexp { flags = bit_or a.lastexp.flags (bit_and flags forbit) };
      })
      s

unfoldable pub doequset : ℕ → Pop
unfolding nonimpexpres
doequset labits = with_label (λ id old s.
    let early = record old {
      kind = bit_or old.kind labits;
      flags = bit_and old.flags (0xff - impbit);
    } in
    (call nonimpexpres >> (λ t. define_label labits id old (take_forbit old.flags t)))
      (put_symbol id early s))

unfoldable pub pequ : Pop
unfolding doequset labelerror showredefinedlabel
pequ s =
    if not (has_label s)
    then labelerror mislab s
    else with_label
        (λ id symbol.
          if has symbol.kind commbit
          then showredefinedlabel
          else if has symbol.kind varbit
          then labelerror varlab
          else doequset labit)
        s

unfoldable pub pset : Pop
unfolding doequset labelerror
pset s =
    if not (has_label s)
    then labelerror mislab s
    else with_label
        (λ id symbol.
          if has symbol.kind commbit
          then labelerror relab
          else doequset (if has symbol.kind labit then 0 else varbit))
        s

abbrev pub global_symbol : Symbol → Symbol
global_symbol symbol =
    if has symbol.kind (bit_or expbit labit)
    then record symbol { kind = bit_or symbol.kind expbit }
    else if has symbol.flags impbit
    then record symbol { kind = bit_or symbol.kind redbit }
    else record symbol {
      kind = bit_or symbol.kind redbit;
      flags = bit_or symbol.flags (bit_or impbit segm);
    }

abbrev pub entry_symbol : ℕ → Symbol → Symbol
entry_symbol entbits symbol = record symbol {
  kind = bit_or symbol.kind (bit_or entbits expbit);
  flags = bit_and symbol.flags (0xff - impbit);
}

abbrev pub export_symbol : ℕ → ℕ → ℕ → Symbol → State → State
export_symbol entbits impbits id symbol s =
    if has symbol.kind commbit
    then complain already s
    else if not (impbits == 0)
    then (if at_last_pass s.asm then s else put_symbol id (global_symbol symbol) s)
    else if at_last_pass s.asm
    then (if has symbol.kind labit then s else complain unlab s)
    else put_symbol id (entry_symbol entbits symbol) s

-- `while (TRUE)` over names with commas between them; a round takes a symbol of the line.
unfoldable pub names_on : (ℕ → Symbol → Pop) → ℕ → Pop
unfolding getsym needlabel
names_on each zero s = none
names_on each (suc n) s =
    (if_label each >> call getsym >> (λ t. elim (t.sym) as (λ _. Option State) [
      | comma ↦ (call getsym >> names_on each n) t
      | _ ↦ some t
    ]))
      s

unfoldable pub names : (ℕ → Symbol → Pop) → Pop
unfolding names_on
names each s = names_on each (suc (length s.lineptr)) s

unfoldable pub doentexp : ℕ → ℕ → Pop
unfolding names
doentexp entbits impbits = names (λ id symbol s. some (export_symbol entbits impbits id symbol s))

unfoldable pub pentry : Pop
unfolding doentexp
pentry = doentexp entbit 0

unfoldable pub pexport : Pop
unfolding doentexp
pexport = doentexp 0 0

abbrev pub refuse_binary : State → State
refuse_binary s = if s.bin.binaryg then complain noimport s else s

unfoldable pub pglobl : Pop
unfolding doentexp
pglobl s = doentexp 0 impbit (refuse_binary s)

abbrev pub import_name : ℕ → Symbol → Pop
import_name id symbol =
    checksegrel symbol
      (λ t. some (import_symbol (bit_or commbit (bit_or expbit labit)) id symbol t))

unfoldable pub pimport : Pop
unfolding names checksegrel
pimport s = names import_name (refuse_binary s)

unfoldable pub getsym_nolookup : Routine
unfolding getsym
getsym_nolookup s = elim (getsym (record s { ifflag = false })) [
  | none ↦ none
  | some t ↦ some (record t { ifflag = s.ifflag })
]

unfoldable pub pident : Pop
unfolding getsym_nolookup
pident s = elim (s.sym) as (λ _. Option State) [
  | ident ↦ call getsym_nolookup s
  | _ ↦ some (complain labexp s)
]
