-- ===== src/Link/Lines.antt =====
-- The requests that `genobj` makes for the line that was assembled.
use mc6801_tools.Base.{
  ℕ, zero, suc, ◌-◌, ◌*◌, ◌/◌, ◌≤◌, ◌<◌, ◌≡◌, refl, sym, ap, ◌∙◌, Bool, true, false, Option, none,
  some, List, [], ◌∷◌, map, length, ◌==◌, ◌⊎◌, inl, inr, if◌then◌else◌, arith,
}
use mc6801_tools.As.Line.{Address, Line}
use mc6801_tools.As.GenObj.{ObjState, Step, ◌>>◌, skip, putabs}
use mc6801_tools.As.GenObj.Lines.{rounds, put_fcbuf, put_fdbuf, put_instruction, genobjadr, genobj}
use mc6801_tools.Link.{Request, code, address, request, requests}

-- A machine instruction, without page and postbyte, which the 6801 does not have.
abbrev IsInstruction : Line → Type 0
IsInstruction l = (l.popflags ≡ 0) × (l.page ≡ 0) × (l.postb ≡ 0) × (1 ≤ l.mcount) × (l.mcount ≤ 3)

-- The characters of a string, and a list of words.
abbrev IsString : Line → Type 0
IsString l =
    (1 ≤ l.popflags)
    × (l.fcflag ≡ true)
    × (l.fdflag ≡ false)
    × (1 ≤ l.mcount)
    × (l.mcount ≡ length l.fcbuf)
    × (l.mcount < 256)

abbrev IsWords : Line → Type 0
IsWords l =
    (1 ≤ l.popflags)
    × (l.fcflag ≡ false)
    × (l.fdflag ≡ true)
    × (1 ≤ l.mcount)
    × (l.mcount ≡ 2 * length l.fdbuf)
    × (l.mcount < 256)

abbrev pub IsLine : Line → Type 0
IsLine l = IsInstruction l ⊎ (IsString l ⊎ IsWords l)

abbrev operand_request : ℕ → Address → ℕ → List Request
operand_request pcrflag adr zero = []
operand_request pcrflag adr (suc n) = address pcrflag adr (suc n) ∷ []

unfoldable pub line_requests : Line → List Request
line_requests l =
    if l.popflags == 0
    then code l.opcode ∷ operand_request l.pcrflag l.lastexp (l.mcount - 1)
    else if l.fcflag
    then map code l.fcbuf
    else map (λ (a : Address). address l.pcrflag a 2) l.fdbuf

then-skip : (m : Step) (s : ObjState) → (m >> skip) s ≡ m s
then-skip m s = go (m s) refl
  where
    go : (o : Option ObjState) → m s ≡ o → (m >> skip) s ≡ m s
    go none e = rw (e, ◌>>◌) refl
    go (some t) e = rw (e, ◌>>◌) refl

then-same :
    (m k k' : Step) (s : ObjState) → ((t : ObjState) → k t ≡ k' t) → (m >> k) s ≡ (m >> k') s
then-same m k k' s h = go (m s) refl
  where
    go : (o : Option ObjState) → m s ≡ o → (m >> k) s ≡ (m >> k') s
    go none e = rw (e, ◌>>◌) refl
    go (some t) e = rw (e, ◌>>◌) (h t)

positive : (n : ℕ) → 1 ≤ n → (n == 0) ≡ false
positive n h = ground arith

rounds_lem : (n : ℕ) → 1 ≤ n → n < 256 → rounds n ≡ n
unfolding rounds
rounds_lem n lo hi = ground arith

module _ (accepts : List ℕ → List ℕ → Bool) where
  put_fcbuf-requests :
      (bs : List ℕ) (s : ObjState)
      → put_fcbuf accepts (length bs) bs s ≡ requests accepts (map code bs) s
  unfolding put_fcbuf requests request
  put_fcbuf-requests [] s = refl
  put_fcbuf-requests (b ∷ bs) s =
      then-same (putabs accepts b) (put_fcbuf accepts (length bs) bs)
        (requests accepts (map code bs)) s (put_fcbuf-requests bs)

  put_fdbuf-requests :
      (pcrflag : ℕ) (adrs : List Address) (s : ObjState)
      → put_fdbuf accepts pcrflag (length adrs) adrs s
        ≡ requests accepts (map (λ (a : Address). address pcrflag a 2) adrs) s
  unfolding put_fdbuf requests request
  put_fdbuf-requests pcrflag [] s = refl
  put_fdbuf-requests pcrflag (a ∷ adrs) s =
      then-same (genobjadr accepts pcrflag a 2) (put_fdbuf accepts pcrflag (length adrs) adrs)
        (requests accepts (map (λ (a : Address). address pcrflag a 2) adrs)) s
        (put_fdbuf-requests pcrflag adrs)

  operand-requests :
      (pcrflag : ℕ) (adr : Address) (n : ℕ) (s : ObjState)
      → (if n == 0 then skip else genobjadr accepts pcrflag adr n) s
        ≡ requests accepts (operand_request pcrflag adr n) s
  unfolding requests request
  operand-requests pcrflag adr zero s = refl
  operand-requests pcrflag adr (suc n) s =
      rw (suc_not_zero n) (sym (then-skip (genobjadr accepts pcrflag adr (suc n)) s))
    where
      suc_not_zero : (k : ℕ) → (suc k == 0) ≡ false
      suc_not_zero k = ground arith

  put_instruction-requests :
      (l : Line) (s : ObjState)
      → IsInstruction l
      → put_instruction accepts l s ≡ requests accepts (line_requests l) s
  unfolding put_instruction requests request line_requests
  put_instruction-requests l s (ep, eg, eb, lo, hi) = elim (size l.mcount lo hi) [
    | inl e ↦
        rw (ep, eg, eb, e) (then-same (putabs accepts l.opcode) (skip >> skip) skip s (λ t. refl))
    | inr (inl e) ↦
        rw (ep, eg, eb, e)
          (then-same (putabs accepts l.opcode) (skip >> genobjadr accepts l.pcrflag l.lastexp 1)
            (requests accepts (operand_request l.pcrflag l.lastexp 1)) s
            (operand-requests l.pcrflag l.lastexp 1))
    | inr (inr e) ↦
        rw (ep, eg, eb, e)
          (then-same (putabs accepts l.opcode) (skip >> genobjadr accepts l.pcrflag l.lastexp 2)
            (requests accepts (operand_request l.pcrflag l.lastexp 2)) s
            (operand-requests l.pcrflag l.lastexp 2))
  ]
    where
      size : (n : ℕ) → 1 ≤ n → n ≤ 3 → (n ≡ 1) ⊎ ((n ≡ 2) ⊎ (n ≡ 3))
      size n a b = ground arith

  genobj-instruction :
      (l : Line) (s : ObjState)
      → s.objectc ≡ true
      → 1 ≤ l.mcount
      → l.popflags ≡ 0
      → genobj accepts l s ≡ put_instruction accepts l s
  unfolding genobj
  genobj-instruction l s on lo e = simp (on, e, positive l.mcount lo)

  genobj-string :
      (l : Line) (s : ObjState)
      → s.objectc ≡ true
      → IsString l
      → genobj accepts l s ≡ (put_fcbuf accepts (rounds l.mcount) l.fcbuf >> skip) s
  unfolding genobj
  genobj-string l s on (ep, ef, ed, lo, el, hi) =
      simp (on, ef, ed, positive l.popflags ep, positive l.mcount lo)

  genobj-words :
      (l : Line) (s : ObjState)
      → s.objectc ≡ true
      → IsWords l
      → genobj accepts l s ≡ put_fdbuf accepts l.pcrflag (rounds l.mcount / 2) l.fdbuf s
  unfolding genobj
  genobj-words l s on (ep, ef, ed, lo, el, hi) =
      simp (on, ef, ed, positive l.popflags ep, positive l.mcount lo)

  string-line : (l : Line) → IsString l → line_requests l ≡ map code l.fcbuf
  unfolding line_requests
  string-line l (ep, ef, ed, lo, el, hi) = simp (ef, positive l.popflags ep)

  words-line :
      (l : Line)
      → IsWords l
      → line_requests l ≡ map (λ (a : Address). address l.pcrflag a 2) l.fdbuf
  unfolding line_requests
  words-line l (ep, ef, ed, lo, el, hi) = simp (ef, positive l.popflags ep)

  -- With object code switched on, for a machine instruction of 1 to 3 bytes without page and postbyte,
  -- a string whose length is `mcount`, or a list of words with twice its length in `mcount`, the last
  -- two of 1 to 255 bytes: `genobj` does what the requests of the line do, one after another.
  pub genobj-requests :
      (l : Line) (s : ObjState)
      → IsLine l
      → s.objectc ≡ true
      → genobj accepts l s ≡ requests accepts (line_requests l) s
  genobj-requests l s (inl (ep, eg, eb, lo, hi)) on =
      genobj-instruction l s on lo ep ∙ put_instruction-requests l s (ep, eg, eb, lo, hi)
  genobj-requests l s (inr (inl h)) on =
      let (ep, ef, ed, lo, el, hi) = h in
      genobj-string l s on h
      ∙ then-skip (put_fcbuf accepts (rounds l.mcount) l.fcbuf) s
      ∙ ap (λ (n : ℕ). put_fcbuf accepts n l.fcbuf s) (rounds_lem l.mcount lo hi ∙ el)
      ∙ put_fcbuf-requests l.fcbuf s
      ∙ ap (λ (rs : List Request). requests accepts rs s) (sym (string-line l h))
  genobj-requests l s (inr (inr h)) on =
      let (ep, ef, ed, lo, el, hi) = h in
      genobj-words l s on h
      ∙ ap (λ (n : ℕ). put_fdbuf accepts l.pcrflag n l.fdbuf s)
          (half l.mcount (length l.fdbuf) (rounds_lem l.mcount lo hi ∙ el))
      ∙ put_fdbuf-requests l.pcrflag l.fdbuf s
      ∙ ap (λ (rs : List Request). requests accepts rs s) (sym (words-line l h))
    where
      half : (m n : ℕ) → rounds m ≡ 2 * n → rounds m / 2 ≡ n
      half m n e = omega (arith, e)
