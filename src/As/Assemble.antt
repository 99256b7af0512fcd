-- ===== src/As/Assemble.antt =====
-- as/assemble.c: a line of the source, and what follows it.
use mc6801_tools.Base.{
  ℕ, zero, suc, ◌+◌, ◌-◌, ◌/◌, ◌%◌, Bool, true, false, not, ◌&&◌, ◌||◌, Option, none, some, List,
  [], ◌∷◌, ◌++◌, get_elem?, leb, ◌==◌, if◌then◌else◌, bit_and, bit_or,
}
use mc6801_tools.Base.Bits.{has}
use mc6801_tools.As.Const.{mnregbit, macbit, regbit, labit, varbit, redbit, commbit, expbit, forbit}
use mc6801_tools.As.Line.{Line, object_line}
use mc6801_tools.As.Asm.{
  Symbol, ident, colon, eolsym, eqop, immediate, at_last_pass, set_data, word, opexp, relab, reguid,
  junk_after_operands, unstable_label,
}
use mc6801_tools.As.Scan.{getsym}
use mc6801_tools.As.MachineOps.{malter}
use mc6801_tools.As.MachineOps.Simple.{mall, mimmed, minher, mshort}
use mc6801_tools.As.GenBin.{genbin}
use mc6801_tools.As.Pseudo.{
  State, Pop, ◌>>◌, done, call, on_asm, complain, put_symbol, labelerror, set_binmbuf,
}
use mc6801_tools.As.Pseudo.Conditionals.{pelse, pelseif, pelsifc, pendif, pif, pifc}
use mc6801_tools.As.Pseudo.Blocks.{pbss, pdata, ptext, ploc, psect, porg, pblock, pendb, penter}
use mc6801_tools.As.Pseudo.Labels.{
  checksegrel, showlabel, pcomm, pcomm1, plcomm, plcomm1, pentry, pexport, pequ, pset, pglobl,
  pimport, pident,
}
use mc6801_tools.As.Pseudo.Strings.{pasciz, pfcc}
use mc6801_tools.As.Pseudo.Values.{
  palign, pblkw, peven, pfail, pfcb, pfdb, plist, pmaclist, pmap, prmb, pwarn,
}

-- What the line reader, the macros and the listing (as/readsrc.c, as/macro.c, as/genlist.c) do.
pub record Source : Type 0 where
  pub readline : Pop
  pub skipline : Pop
  pub listline : Pop
  pub entermac : ℕ → Pop
  pub pget : Pop
  pub pmacro : Pop
  pub pproceof : Pop

abbrev pub total : (State → State) → Pop
total f s = some (f s)

abbrev conditionals : List Pop
conditionals = pelse ∷ pelseif ∷ pelsifc ∷ pendif ∷ pif ∷ pifc ∷ []

abbrev pub min_noncond : ℕ
min_noncond = 6

abbrev machine_ops : List Pop
machine_ops = call mall ∷ call malter ∷ call mimmed ∷ total (on_asm minher) ∷ call mshort ∷ []

abbrev pub line_of : State → Line
line_of s = record {
  mcount = s.mcount;
  popflags = s.popflags;
  fcflag = s.fcflag;
  fdflag = s.fdflag;
  fcbuf = s.fcbuf;
  fdbuf = s.fdbuf;
  page = s.page;
  opcode = s.opcode;
  postb = s.postb;
  lastexp = s.lastexp;
  pcrflag = s.pcrflag;
}

-- The variables that are cleared for a line.
unfoldable pub start_line : State → State
start_line s = record s {
  asm = set_data 0 (record s.asm { postb = 0; pcrflag = 0; mcount = 0 });
  popflags = 0;
  immcount = 0;
  fdflag = false;
  fcflag = false;
}

abbrev pub moved : State → State
moved s =
    let t = record s { dirty_pass = true } in
    if at_last_pass t.asm then complain unstable_label t else t

-- A label of an earlier line, or of an earlier pass.
abbrev pub known_label : ℕ → Pop
known_label id s = elim (get_elem? s.symbols id) [
  | none ↦ none
  | some symbol ↦
      let t = record s { label = some id } in
      some (
        if not (t.pass == 0) && not (has symbol.kind varbit)
        then put_symbol id
            (record symbol { flags = bit_or (bit_and symbol.flags forbit) t.lcdata; value = t.lc })
            t
        else t)
]

abbrev pub new_label : ℕ → Symbol → Pop
new_label id symbol s =
    let t =
      put_symbol id
        (record symbol {
          kind = bit_and symbol.kind (0xff - commbit);
          flags = bit_or (bit_and symbol.flags forbit) s.lcdata;
          value = s.lc;
        })
        s in
    some (record t { label = some id })

unfoldable pub set_label : ℕ → Symbol → Pop
unfolding labelerror checksegrel
set_label id symbol =
    if has symbol.kind (bit_or labit varbit)
    then (if has symbol.kind redbit then labelerror relab else done) >> known_label id
    else checksegrel symbol (new_label id symbol)

module _ (source : Source) where
  abbrev pub rout_table : List Pop
  rout_table =
      conditionals
      ++ (palign
          ∷ pasciz
          ∷ pblkw
          ∷ pblock
          ∷ pbss
          ∷ pcomm
          ∷ pcomm1
          ∷ pdata
          ∷ pendb
          ∷ total penter
          ∷ [])
      ++ (pentry
          ∷ pequ
          ∷ total peven
          ∷ pexport
          ∷ total pfail
          ∷ pfcb
          ∷ pfcc
          ∷ pfdb
          ∷ source.pget
          ∷ [])
      ++ (pglobl ∷ pident ∷ pimport ∷ plcomm ∷ plcomm1 ∷ plist ∷ ploc ∷ pmaclist ∷ source.pmacro
          ∷ [])
      ++ (pmap ∷ porg ∷ source.pproceof ∷ prmb ∷ psect ∷ pset ∷ ptext ∷ pwarn ∷ [])
      ++ machine_ops

  abbrev pub check_junk : Pop
  check_junk s = elim (s.sym) as (λ _. Option State) [
    | eolsym ↦ some s
    | _ ↦ some (complain junk_after_operands s)
  ]

  -- The routine and the opcode are the first and the second byte of the symbol's value.
  unfoldable pub operation : Symbol → Pop
  unfolding getsym
  operation symbol s = elim (get_elem? rout_table (symbol.value % 256)) [
    | none ↦ none
    | some routine ↦
        (call getsym >> routine >> check_junk)
          (record s { asm = record s.asm { opcode = symbol.value / 256 % 256 }; mnsize = 0 })
  ]

  unfoldable pub statement : ℕ → Symbol → Pop
  unfolding operation
  statement id symbol s =
      if has symbol.kind macbit
      then source.entermac id s
      else if not (has symbol.kind mnregbit)
      then some (complain opexp s)
      else if has symbol.flags regbit
      then some (complain reguid s)
      else operation symbol s

  abbrev pub statement_at : Pop
  statement_at s = elim (s.gsymptr) [
    | none ↦ none
    | some id ↦ elim (get_elem? s.symbols id) [ none ↦ none | some symbol ↦ statement id symbol s ]
  ]

  -- What stands behind a label.
  unfoldable pub after_label : Pop
  unfolding statement getsym pequ
  after_label s = elim (s.sym) as (λ _. Option State) [
    | ident ↦ statement_at s
    | eqop ↦ (call getsym >> pequ) s
    | eolsym ↦ some s
    | _ ↦ some (complain opexp s)
  ]

  -- A label without a colon starts in the first column.
  unfoldable pub label_line : Bool → ℕ → Symbol → Pop
  unfolding set_label after_label getsym
  label_line indented id symbol s = elim (s.lineptr) [
    | [] ↦ none
    | c ∷ cs ↦
        let colonlabel = c == 0x3a in
        let t = record s { oldlabel = symbol.value; nocolonlabel = not colonlabel } in
        let u =
          if colonlabel then record t { asm = record t.asm { sym = colon; lineptr = cs } } else t in
        if indented && not colonlabel
        then some (complain opexp u)
        else (set_label id symbol >> call getsym >> after_label) u
  ]

  -- Not assembling: the line is left alone unless it holds a conditional.
  unfoldable pub skipped_line : Pop
  unfolding statement
  skipped_line s = elim (s.gsymptr) [
    | none ↦ some s
    | some id ↦ elim (get_elem? s.symbols id) [
      | none ↦ none
      | some symbol ↦
          if not (has symbol.kind mnregbit)
            || (has symbol.flags regbit || leb min_noncond (symbol.value % 256))
          then some s
          else statement id symbol s
    ]
  ]

  unfoldable pub assembled_line : Bool → Pop
  unfolding statement label_line
  assembled_line indented s = elim (s.gsymptr) [
    | none ↦ none
    | some id ↦ elim (get_elem? s.symbols id) [
      | none ↦ none
      | some symbol ↦
          if has symbol.kind (bit_or macbit mnregbit)
          then statement id symbol s
          else label_line indented id symbol s
    ]
  ]

  -- A line that starts with no name is a comment.
  unfoldable pub scanned_line : Bool → Pop
  unfolding skipped_line assembled_line
  scanned_line indented s = elim (s.sym) as (λ _. Option State) [
    | ident ↦ if s.ifflag then assembled_line indented s else skipped_line s
    | eolsym ↦ some s
    | immediate ↦ some s
    | _ ↦ some (record s { list_force = true })
  ]

  unfoldable pub asline : Pop
  unfolding start_line getsym scanned_line
  asline = total start_line >> source.readline >> (λ s. elim (s.lineptr) [
    | [] ↦ none
    | c ∷ cs ↦ (call getsym >> scanned_line ((c == 0x20) || (c == 9))) s
  ])

  abbrev pub confirmed : Symbol → Symbol
  confirmed symbol =
      let kind = bit_or symbol.kind labit in
      record symbol {
        kind = if has kind redbit then bit_and (bit_or kind expbit) (0xff - redbit) else kind;
      }

  -- A label that is still set belongs to the line.
  unfoldable pub confirm_label : Pop
  unfolding showlabel
  confirm_label s = elim (s.label) [
    | none ↦ some s
    | some id ↦ elim (get_elem? s.symbols id) [
      | none ↦ none
      | some symbol ↦
          let t =
            put_symbol id (confirmed symbol)
              (if not (s.pass == 0) && not (symbol.value == s.oldlabel) then moved s else s) in
          ((if bit_or t.mcount t.popflags == 0 then showlabel else done)
              >> total (λ u. record u { label = none }))
            t
    ]
  ]

  abbrev pub gen_binary : Pop
  gen_binary s = elim (genbin (line_of s) s.bin) [
    | none ↦ none
    | some b ↦ some (record s { bin = b })
  ]

  abbrev pub gen_object : State → State
  gen_object s = record s { output = s.output ++ object_line (line_of s) ∷ [] }

  -- `binmbuf = lc += lcjump`.
  abbrev pub advance : State → State
  advance s =
      let lc = (s.lc + s.mcount) % word in set_binmbuf lc (on_asm (λ a. record a { lc = lc }) s)

  -- A round of the loop in `assemble`.
  unfoldable pub assemble_line : Pop
  unfolding asline confirm_label genbin
  assemble_line =
      asline
      >> confirm_label
      >> source.skipline
      >> source.listline
      >> gen_binary
      >> total (λ s. advance (gen_object s))

  unfoldable pub assemble : ℕ → Pop
  unfolding assemble_line
  assemble zero = done
  assemble (suc n) = assemble_line >> assemble n
