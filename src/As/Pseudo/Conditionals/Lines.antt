-- ===== src/As/Pseudo/Conditionals/Lines.antt =====
-- as/pops.c, as/express.c: what the tests of IF and IFC leave alone, and the rest of a line that is
-- skipped.
use mc6801_tools.Base.{
  ℕ, zero, suc, ◌≤◌, ◌≡◌, refl, ◌∙◌, Bool, true, false, ◌||◌, Option, none, some, List, [], ◌∷◌,
  length, ◌==◌, ◌⊎◌, inl, inr, ap, length-append, if◌then◌else◌, arith,
}
use mc6801_tools.As.Asm.{
  Asm, Routine, ◌>>◌, eolsym, lparen, set_data, set_offset, lpexp, comexp, rpexp,
}
use mathlib.Core.Path.{subst}
use mc6801_tools.As.Scan.{getsym}
use mc6801_tools.As.Scan.Returns.{IsEnded, line_end, getsym-Scans}
use mc6801_tools.As.Scan.Frame.{frame, Within, getsym-Within}
use mc6801_tools.As.Express.Combine.{experror, expundefined}
use mc6801_tools.As.Express.Frame.{Kept, then-Kept, getsym-Kept}
use mc6801_tools.As.Pseudo.Conditionals.{
  skip_on, skip_to_eol, Search, found, missing, find_comma, compare_strings, close_string, compared,
  scompare,
}

-- A loop over symbols that stops at the end of the line.
abbrev Ends : Option Asm → Type 0
Ends o = (t : Asm) × (o ≡ some t) × (t.sym ≡ eolsym)

-- One symbol, and the rest of the loop.
after_symbol :
    (n : ℕ) (s : Asm)
    → length s.lineptr ≤ suc n
    → IsEnded s.lineptr
    → ((u : Asm) → length u.lineptr ≤ n → (u.sym ≡ eolsym) ⊎ IsEnded u.lineptr → Ends (skip_on n u))
    → Ends (elim (getsym s) as (λ _. Option Asm) [ none ↦ none | some t ↦ skip_on n t ])
after_symbol n s le h below =
    let (u, e, k) = getsym-Scans s h in
    let taken : Within (length s.lineptr) s (some u) =
      subst (Within (length s.lineptr) s) e (getsym-Within s) in
    let (t, f, z) = below u (omega (arith, taken.1, le)) k in
    (t, ap (λ o. elim o as (λ _. Option Asm) [ none ↦ none | some v ↦ skip_on n v ]) e ∙ f, z)

-- The loop over the symbols of a line that ends as lines do.
skip_on-Ends :
    (n : ℕ) (s : Asm)
    → length s.lineptr ≤ n
    → (s.sym ≡ eolsym) ⊎ IsEnded s.lineptr
    → Ends (skip_on n s)
unfolding skip_on
skip_on-Ends zero s le (inl h) = (s, rw h refl, h)
skip_on-Ends zero s le (inr h) = absurd (omega (arith, not_empty h, le))
  where
    not_empty : IsEnded s.lineptr → 1 ≤ length s.lineptr
    not_empty (inl e) = omega (arith, ap length e)
    not_empty (inr (front, e)) = omega (arith, ap length e, length-append front line_end)
skip_on-Ends (suc n) s le (inl h) = (s, rw h refl, h)
skip_on-Ends (suc n) s le (inr h) =
    elim (s.sym)
        as (λ y.
          s.sym ≡ y
          → Ends (elim y as (λ _. Option Asm) [
            | eolsym ↦ some s
            | _ ↦ elim (getsym s) as (λ _. Option Asm) [ none ↦ none | some t ↦ skip_on n t ]
          ])) [ eolsym ↦ λ e. (s, refl, e) | _ ↦ λ e. after_symbol n s le h (skip_on-Ends n) ]
      refl

skip_on-Kept : (n : ℕ) (s : Asm) → Kept s (skip_on n s)
unfolding skip_on
skip_on-Kept zero s =
    elim (s.sym) as (λ y. Kept s (elim y as (λ _. Option Asm) [ eolsym ↦ some s | _ ↦ none ])) [
      | eolsym ↦ (refl, omega arith)
      | _ ↦ tt
    ]
skip_on-Kept (suc n) s =
    elim (s.sym)
      as (λ y.
        Kept s (elim y as (λ _. Option Asm) [ eolsym ↦ some s | _ ↦ (getsym >> skip_on n) s ])) [
          | eolsym ↦ (refl, omega arith)
          | _ ↦ then-Kept getsym (skip_on n) s (getsym-Kept s) (skip_on-Kept n)
        ]

-- Skipping to the end of a line returns, where the line is at its end or what is left of it has a line feed and a
-- 0 at its end: it stops at an end of the line, and leaves alone what the scanner only reads, the location counter
-- and the passes among it.
pub skip_to_eol-ends :
    (s : Asm)
    → (s.sym ≡ eolsym) ⊎ IsEnded s.lineptr
    → (t : Asm) × (skip_to_eol s ≡ some t) × (t.sym ≡ eolsym) × (frame t ≡ frame s)
unfolding skip_to_eol
skip_to_eol-ends s h =
    let (t, e, z) = skip_on-Ends (length s.lineptr) s (omega arith) h in
    let k : Kept s (some t) = subst (Kept s) e (skip_on-Kept (length s.lineptr) s) in (t, e, z, k.0)

pub skip_to_eol-Kept : (s : Asm) → Kept s (skip_to_eol s)
unfolding skip_to_eol
skip_to_eol-Kept s = skip_on-Kept (length s.lineptr) s

-- What a comparison leaves: the frame stays, wherever on the line it ends.
abbrev pub Framed : Asm → Option Asm → Type 0
Framed s none = Unit
Framed s (some t) = frame t ≡ frame s

pub Kept-Framed : (s : Asm) (o : Option Asm) → Kept s o → Framed s o
Kept-Framed s none h = tt
Kept-Framed s (some t) h = h.0

if-Framed :
    (s : Asm) (b : Bool) (o o' : Option Asm)
    → Framed s o
    → Framed s o'
    → Framed s (if b then o else o')
if-Framed s true o o' h k = h
if-Framed s false o o' h k = k

then-Framed :
    (m k : Routine) (s : Asm)
    → Framed s (m s)
    → ((t : Asm) → Framed t (k t))
    → Framed s ((m >> k) s)
then-Framed m k s h f = go (m s) h
  where
    go : (o : Option Asm) → Framed s o → Framed s (elim o [ none ↦ none | some t ↦ k t ])
    go none h = tt
    go (some t) h = after (k t) (f t)
      where
        after : (o : Option Asm) → Framed t o → Framed s o
        after none h' = tt
        after (some u) h' = h' ∙ h

close_string-Framed : (rest : List ℕ) (s : Asm) → Framed s (close_string rest s)
unfolding close_string experror expundefined
close_string-Framed [] s = tt
close_string-Framed (c ∷ cs) s =
    let e : Asm = experror rpexp (record s { symname = c ∷ cs }) in
    if-Framed s (c == 0x29) _ _ refl
      (elim ((c == 0) || (c == 0x2c)) as (λ b. Framed s (close_string cs (if b then e else s))) [
        | true ↦ close_string-Framed cs e
        | false ↦ close_string-Framed cs s
      ])

compared-Framed : (a b : ℕ) (rest : List ℕ) (s : Asm) → Framed s (compared a b rest s)
unfolding compared
compared-Framed a b rest s =
    if-Framed s (b == 0x29) _ _ (decided (a == 0x2c)) (close_string-Framed rest s)
  where
    decided : (c : Bool) → frame (if c then set_offset 1 s else s) ≡ frame s
    decided true = refl
    decided false = refl

pub scompare-Framed : (s : Asm) → Framed s (scompare s)
unfolding scompare experror expundefined
scompare-Framed s =
    elim (s.sym)
      as (λ y. Framed s (elim y as (λ _. Option Asm) [
        | lparen ↦ searched (find_comma s.lineptr)
        | _ ↦ some (experror lpexp t)
      ])) [ lparen ↦ searched-Framed (find_comma s.lineptr) | _ ↦ refl ]
  where
    t : Asm
    t = set_data 0 (set_offset 0 s)

    ended : Option (ℕ × (ℕ × List ℕ)) → Option Asm
    ended none = none
    ended (some (a, (b, rest))) = (compared a b rest >> getsym) t

    ended-Framed : (o : Option (ℕ × (ℕ × List ℕ))) → Framed s (ended o)
    ended-Framed none = tt
    ended-Framed (some (a, (b, rest))) =
        then-Framed (compared a b rest) getsym t (compared-Framed a b rest t)
          (λ u. Kept-Framed u (getsym u) (getsym-Kept u))

    searched : Option Search → Option Asm
    searched none = none
    searched (some (missing at)) = some (experror comexp (record t { symname = at }))
    searched (some (found string2)) = ended (compare_strings t.lineptr string2)

    searched-Framed : (o : Option Search) → Framed s (searched o)
    searched-Framed none = tt
    searched-Framed (some (missing at)) = refl
    searched-Framed (some (found string2)) = ended-Framed (compare_strings t.lineptr string2)
