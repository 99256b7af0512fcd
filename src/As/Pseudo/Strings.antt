-- ===== src/As/Pseudo/Strings.antt =====
-- as/pops.c: FCC, .ASCII and .ASCIZ. A char is signed: a byte of 128 or more is negative.
pub mod RoundTrip
use mc6801_tools.Base.{
  ℕ, zero, suc, ◌+◌, ◌-◌, ◌*◌, ◌%◌, ◌^◌, Bool, true, false, not, ◌&&◌, ◌||◌, Option, none, some,
  List, [], ◌∷◌, ◌++◌, length, get_elem?, get_or, take, drop, ltb, leb, ◌==◌, if◌then◌else◌, bit_or,
}
use mc6801_tools.As.Asm.{Asm, error, set_offset, word, delexp, unknown_escape_sequence, ctlins}
use mc6801_tools.As.Scan.{getsym}
use mc6801_tools.As.Pseudo.{State, Pop, ◌>>◌, call, on_asm, pop_lc, pop_lo}

abbrev pub eolchar : ℕ
eolchar = 10

abbrev between : ℕ → ℕ → ℕ → Bool
between lo hi c = leb lo c && leb c hi

abbrev pub byte_of : ℕ → ℕ
byte_of n = n % 256

-- What one round of the loop leaves: a byte and the rest of the line, or the end of the string.
pub data Round : Type 0 where
  byte : ℕ → List ℕ → Asm → Round
  stop : List ℕ → Asm → Round

abbrev pub is_octal : ℕ → Bool
is_octal c = between 0x30 0x37 c

-- Up to two digits behind the first one.
unfoldable pub octal : ℕ → List ℕ → Option (ℕ × List ℕ)
octal b (c ∷ []) = if is_octal c then none else some (b, c ∷ [])
octal b (c ∷ d ∷ rest) =
    let once = byte_of (8 * b + (c - 0x30)) in
    if not (is_octal c)
    then some (b, c ∷ d ∷ rest)
    else if is_octal d
    then some (byte_of (8 * once + (d - 0x30)), rest)
    else some (once, d ∷ rest)
octal b [] = none

-- The digit that a character adds to 16 times the byte, as the code has it.
unfoldable pub hex_digit : ℕ → Option ℕ
hex_digit c =
    if between 0x30 0x39 c
    then some (c - 0x30)
    else if between 0x46 0x46 c
    then some (c - 0x41)
    else if between 0x61 0x66 c
    then some (c - 0x46)
    else none

unfoldable pub hex : ℕ → List ℕ → Option (ℕ × List ℕ)
unfolding hex_digit
hex b [] = none
hex b (c ∷ cs) = elim (hex_digit c) [
  | none ↦ some (b, c ∷ cs)
  | some digit ↦ hex (byte_of (16 * b + digit)) cs
]

-- The escapes of one character.
unfoldable pub simple_escape : ℕ → Option ℕ
simple_escape c =
    if (c == 0x22) || ((c == 0x27) || ((c == 0x5c) || (c == 0x3f)))
    then some c
    else if c == 0x61
    then some 7
    else if c == 0x62
    then some 8
    else if c == 0x66
    then some 12
    else if c == 0x6e
    then some 10
    else if c == 0x72
    then some 13
    else if c == 0x74
    then some 9
    else if c == 0x76
    then some 11
    else none

abbrev pub byte_and_rest : Option (ℕ × List ℕ) → Asm → Option Round
byte_and_rest o s = elim o [ none ↦ none | some (b, rest) ↦ some (byte b rest s) ]

-- What stands behind a backslash.
unfoldable pub escape : List ℕ → Asm → Option Round
unfolding octal hex simple_escape
escape [] s = none
escape (c ∷ cs) s =
    if is_octal c
    then byte_and_rest (octal (c - 0x30) cs) s
    else if c == 0x78
    then byte_and_rest (hex 0x30 cs) s
    else elim (simple_escape c) [
      | some b ↦ some (byte b cs s)
      | none ↦ some (byte c cs (error unknown_escape_sequence (record s { symname = c ∷ cs })))
    ]

-- At a delimiter: another one stands for the delimiter itself.
unfoldable pub at_delimiter : ℕ → List ℕ → Asm → Option Round
at_delimiter delimiter [] s = none
at_delimiter delimiter (c ∷ cs) s =
    if c == delimiter then some (byte c cs s) else some (stop (c ∷ cs) s)

unfoldable pub fcc_round : ℕ → List ℕ → Asm → Option Round
unfolding escape at_delimiter
fcc_round delimiter [] s = none
fcc_round delimiter (c ∷ cs) s =
    if c == eolchar
    then some (stop (c ∷ cs) (error delexp (record s { symname = c ∷ cs })))
    else if c == delimiter
    then at_delimiter delimiter cs s
    else if c == 0x5c
    then escape cs s
    else if ltb c 0x20
    then some (byte 0x20 cs (error ctlins (record s { symname = c ∷ cs })))
    else some (byte c cs s)

-- `while (TRUE)`, which takes a character of the line in every round.
unfoldable pub fcc_on : ℕ → ℕ → List ℕ → List ℕ → Asm → Option (List ℕ × (List ℕ × Asm))
unfolding fcc_round
fcc_on zero delimiter bytes line s = none
fcc_on (suc n) delimiter bytes line s = elim (fcc_round delimiter line s) [
  | none ↦ none
  | some (stop rest t) ↦ some (bytes, (rest, t))
  | some (byte b rest t) ↦ fcc_on n delimiter (bytes ++ b ∷ []) rest t
]

-- The first character is the delimiter, unless the line ends there.
unfoldable pub fcc : List ℕ → Asm → Option (List ℕ × (List ℕ × Asm))
unfolding fcc_on
fcc [] s = none
fcc (c ∷ cs) s =
    if c == eolchar then fcc_on (suc (length cs)) c [] (c ∷ cs) s else fcc_on (length cs) c [] cs s

-- A char as an `offset_t`.
abbrev pub char_offset : ℕ → ℕ
char_offset c = if leb 128 c then c + (word - 256) else c

-- `databuf.fcbuf` has LINLEN - 6 bytes. The code stores without a test, so that more bytes have no result in C.
abbrev pub fcbuf_size : ℕ
fcbuf_size = 250

abbrev pub in_fcbuf : List ℕ → Option State → Option State
in_fcbuf bytes o = if leb (length bytes) fcbuf_size then o else none

-- What was in the buffer stays behind the bytes that are written.
abbrev pub fill_fcbuf : List ℕ → State → State
fill_fcbuf bytes s = record s { fcbuf = bytes ++ drop (length bytes) s.fcbuf }

abbrev pub show_first : State → State
show_first s = on_asm (set_offset (char_offset (get_or s.fcbuf 0 0))) s

abbrev pub set_mcount : ℕ → State → State
set_mcount n s = on_asm (λ a. record a { mcount = n }) s

-- Behind `getsym`.
unfoldable pub shown : ℕ → State → Option Asm → Option State
shown n s none = none
shown n s (some a) = some (set_mcount n (show_first (record s { asm = a })))

-- Behind the loop.
unfoldable pub string_read : State → Option (List ℕ × (List ℕ × Asm)) → Option State
unfolding getsym shown
string_read s none = none
string_read s (some (bytes, (rest, t))) =
    in_fcbuf bytes
      (shown (length bytes) (fill_fcbuf bytes s) (getsym (record t { lineptr = rest })))

unfoldable pub dofcc : Pop
unfolding fcc string_read
dofcc s = string_read s (fcc s.symname s.asm)

abbrev pub fcc_flags : State → State
fcc_flags s = record s { fcflag = true; popflags = bit_or pop_lo pop_lc }

abbrev pub end_with_0 : State → State
end_with_0 s =
    let n = s.mcount in
    set_mcount (suc n) (record s { fcbuf = take n s.fcbuf ++ 0 ∷ drop (suc n) s.fcbuf })

unfoldable pub pasciz : Pop
unfolding dofcc
pasciz = dofcc >> (λ s. if ltb s.mcount fcbuf_size then some (fcc_flags (end_with_0 s)) else none)

unfoldable pub pfcc : Pop
unfolding dofcc
pfcc = dofcc >> (λ s. some (if s.mcount == 0 then s else fcc_flags s))
