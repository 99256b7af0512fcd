-- ===== src/As/Pseudo/Values.antt =====
-- as/pops.c: pseudo-operations with values: RMB, .BLKW, FCB, FDB, .ALIGN, .EVEN, .MAP, FAIL, and the
-- listing flags .LIST, .NOLIST, .MACLIST and .WARN.
pub mod Counts
use mc6801_tools.Base.{
  ℕ, zero, suc, ◌+◌, ◌-◌, ◌*◌, ◌%◌, ◌^◌, Bool, true, false, not, ◌&&◌, Option, none, some, List, [],
  ◌∷◌, ◌++◌, length, drop, map, replicate, ltb, leb, ◌==◌, if◌then◌else◌, bit_and, bit_or,
}
use mc6801_tools.Base.Bits.{has}
use mc6801_tools.As.Const.{undbit}
use mc6801_tools.As.Line.{Address, Request, code, rmb}
use mc6801_tools.As.Asm.{
  Asm, Sym, eolsym, comma, error, at_last_pass, set_offset, set_data, word, countov, countun,
  dbounds, failerr,
}
use mc6801_tools.As.GenBin.{putbin}
use mc6801_tools.As.Express.{expres, symexpres, absexpres, symabsexpres}
use mc6801_tools.As.MachineOps.Simple.{checkdatabounds}
use mc6801_tools.As.Pseudo.{
  State, Flags, Pop, ◌>>◌, call, on_asm, complain, ask, pop_lc, pop_lo, pop_hi, pop_all,
}
use mc6801_tools.As.Pseudo.Strings.{in_fcbuf, fill_fcbuf, set_mcount}

-- An int is its pattern of 32 bits, and additions wrap around: the tests for an overflow rely on it.
abbrev pub int_mod : ℕ
int_mod = 2 ^ 32

abbrev pub is_negative : ℕ → Bool
is_negative n = leb (2 ^ 31) (n % int_mod)

abbrev pub int_less : ℕ → ℕ → Bool
int_less a b = ltb ((a + 2 ^ 31) % int_mod) ((b + 2 ^ 31) % int_mod)

abbrev pub wrapped : ℕ → Flags → ℕ
wrapped offset f = (offset % int_mod + f.semaphore) % int_mod

-- The new count: at an overflow 0x7fff, and -0x8000 at an underflow.
unfoldable pub new_count : ℕ → Flags → Asm → ℕ × Asm
new_count offset f s =
    let sum = wrapped offset f in
    if not (is_negative offset)
    then (if int_less sum f.semaphore then (0x7fff, error countov s) else (sum, s))
    else if int_less sum f.semaphore
    then (sum, s)
    else (int_mod - 0x8000, error countun s)

unfoldable pub bump : Flags → Asm → Flags × Asm
unfolding new_count
bump f s =
    if f.global && at_last_pass s
    then (let (count, t) = new_count s.lastexp.offset f s in
        (record f { semaphore = count; current = not (is_negative count) }, t))
    else (f, s)

-- The count is read in every pass. A default -1 converts to an `offset_t`.
unfoldable pub count_operand : ℕ → Pop
unfolding absexpres
count_operand defval s = elim (s.sym) as (λ _. Option State) [
  | eolsym ↦ some (on_asm (set_offset defval) s)
  | _ ↦ call absexpres s
]

abbrev pub at_eol : State → Bool
at_eol s = elim (s.sym) as (λ _. Bool) [ eolsym ↦ true | _ ↦ false ]

-- An undefined count changes nothing; `put` stores the flags.
unfoldable pub bumpsem : (State → Flags) → (Flags → State → State) → ℕ → Pop
unfolding count_operand bump
bumpsem of put defval s =
    let given = not (at_eol s) in
    (count_operand defval >> (λ t.
        if given && has t.lastexp.flags undbit
        then some t
        else let (f, a) = bump (of t) t.asm in some (put f (record t { asm = a }))))
      s

abbrev minus_1 : ℕ
minus_1 = word - 1

unfoldable pub plist : Pop
unfolding bumpsem
plist = bumpsem (λ s. s.list) (λ f s. record s { list = f }) 1

unfoldable pub pnolist : Pop
unfolding bumpsem
pnolist = bumpsem (λ s. s.list) (λ f s. record s { list = f }) minus_1

unfoldable pub pmaclist : Pop
unfolding bumpsem
pmaclist = bumpsem (λ s. s.maclist) (λ f s. record s { maclist = f }) 1

unfoldable pub pwarn : Pop
unfolding bumpsem
pwarn = bumpsem (λ s. s.as_warn) (λ f s. record s { as_warn = f }) minus_1

-- `lcdata |= lastexp.data`.
abbrev pub join_lcdata : State → State
join_lcdata s = on_asm (λ a. record a { lcdata = bit_or a.lcdata a.lastexp.flags }) s

abbrev pub set_popflags : ℕ → State → State
set_popflags n s = record s { popflags = n }

abbrev pub check_bounds : State → State
check_bounds s = on_asm checkdatabounds s

-- Bytes with a value, for the binary and for the object file.
unfoldable pub fill_on : ℕ → State → State
unfolding putbin
fill_on zero s = s
fill_on (suc remaining) s =
    let t = record s { bin = putbin s.lastexp.offset s.bin } in
    fill_on remaining (ask (code t.lastexp.offset) t)

unfoldable pub fill : State → State
unfolding fill_on
fill s = on_asm (set_offset s.mcount) (fill_on s.mcount s)

abbrev pub is_comma : State → Bool
is_comma s = elim (s.sym) as (λ _. Bool) [ comma ↦ true | _ ↦ false ]

unfoldable pub reserve : ℕ → Pop
unfolding symabsexpres checkdatabounds fill
reserve size s =
    let t = set_popflags pop_all (set_mcount (s.lastexp.offset * size % word) s) in
    if (size == 1) && is_comma t
    then (call symabsexpres >> (λ u. some (fill (check_bounds u)))) t
    else some (ask (rmb (t.lastexp.offset * size % word)) t)

unfoldable pub constdata : ℕ → Pop
unfolding absexpres reserve
constdata size =
    call absexpres
    >> (λ s. let t = join_lcdata s in if has t.lcdata undbit then some t else reserve size t)

unfoldable pub prmb : Pop
unfolding constdata
prmb = constdata 1

unfoldable pub pblkw : Pop
unfolding constdata
pblkw = constdata 2

-- The jump to the next multiple; `lcjump` holds the remainder first.
unfoldable pub align : State → State
align s =
    let t = set_popflags pop_all s in
    let n = t.lastexp.offset in
    if n == 0
    then t
    else let u = set_mcount (t.lc % n) t in
      if u.mcount == 0 then u else let v = set_mcount (n - u.mcount) u in ask (rmb v.mcount) v

unfoldable pub palign : Pop
unfolding absexpres align
palign =
    call absexpres
    >> (λ s. let t = join_lcdata s in some (if has t.lcdata undbit then t else align t))

unfoldable pub peven : State → State
peven s =
    let odd = bit_and s.lc 1 in
    ask (rmb odd) (set_mcount odd (on_asm (set_data odd) (set_popflags pop_all s)))

unfoldable pub pmap : Pop
unfolding absexpres
pmap = call absexpres >> (λ s.
    if has s.lastexp.flags undbit
    then some s
    else let t = set_popflags pop_lo (record s { mapnum = s.lastexp.offset % 256 }) in
      some (if leb 0x100 t.lastexp.offset then complain dbounds t else t))

unfoldable pub pfail : State → State
pfail s = if at_last_pass s.asm then complain failerr s else s

-- FCB: `bytes` is what is in the buffer, from its start.
unfoldable pub fcb_on : ℕ → List ℕ → State → Option (List ℕ × State)
unfolding symabsexpres checkdatabounds
fcb_on zero bytes s = none
fcb_on (suc n) bytes s =
    let t = check_bounds s in
    let u = set_mcount ((t.mcount + 1) % word) t in
    let more = bytes ++ t.lastexp.offset % 256 ∷ [] in
    elim (u.sym) as (λ _. Option (List ℕ × State)) [
      | comma ↦ elim (call symabsexpres u) [ none ↦ none | some v ↦ fcb_on n more v ]
      | _ ↦ some (more, u)
    ]

abbrev pub finish_fcb : ℕ → List ℕ → State → State
finish_fcb first bytes s = record (fill_fcbuf bytes (on_asm (set_offset first) s)) {
  popflags = bit_or pop_lo pop_lc;
  fcflag = true;
}

unfoldable pub pfcb : Pop
unfolding fcb_on absexpres
pfcb = call absexpres >> (λ s. elim (fcb_on (suc (length s.lineptr)) [] s) [
  | none ↦ none
  | some (bytes, t) ↦ in_fcbuf bytes (some (finish_fcb s.lastexp.offset bytes t))
])

-- FDB.
unfoldable pub fdb_on : ℕ → List Address → State → Option (List Address × State)
unfolding symexpres
fdb_on zero addresses s = none
fdb_on (suc n) addresses s =
    let u = set_mcount ((s.mcount + 2) % word) s in
    let more = addresses ++ s.lastexp ∷ [] in
    elim (u.sym) as (λ _. Option (List Address × State)) [
      | comma ↦ elim (call symexpres u) [ none ↦ none | some v ↦ fdb_on n more v ]
      | _ ↦ some (more, u)
    ]

abbrev pub finish_fdb : Address → List Address → State → State
finish_fdb first addresses s =
    record (on_asm (λ a. set_data first.flags (set_offset first.offset a)) s) {
      fdbuf = addresses ++ drop (length addresses) s.fdbuf;
      popflags = bit_or pop_hi (bit_or pop_lo pop_lc);
      fdflag = true;
    }

-- `databuf.fdbuf` has (LINLEN - 4) / 2 places.
abbrev fdbuf_size : ℕ
fdbuf_size = 126

unfoldable pub pfdb : Pop
unfolding fdb_on expres
pfdb = call expres >> (λ s. elim (fdb_on (suc (length s.lineptr)) [] s) [
  | none ↦ none
  | some (addresses, t) ↦
      if leb (length addresses) fdbuf_size then some (finish_fdb s.lastexp addresses t) else none
])
