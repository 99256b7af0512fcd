-- ===== src/As/Pseudo/Conditionals/Chain.antt =====
-- as/pops.c: a chain of IF, ELSEIF and ELSE. A line is assembled if the condition in front of it is the
-- first one that holds.
use mc6801_tools.Base.{
  ◌≡◌, refl, sym, ap, ◌∙◌, Bool, true, false, not, ◌&&◌, ◌||◌, Option, none, some, List, [], ◌∷◌,
  leb, ◌==◌, if◌then◌else◌, then-some, some_inj, if_false,
}
use mc6801_tools.As.Asm.{Asm, Routine}
use mc6801_tools.As.Scan.Frame.{Frame}
use mc6801_tools.As.Express.{absexpres}
use mc6801_tools.As.Express.Frame.Levels.{absexpres-Kept}
use mc6801_tools.As.Pseudo.{State, ◌>>◌, call}
use mc6801_tools.As.Pseudo.Conditionals.{
  maxif, scompare, skip_to_eol, is_true, is_false, set_ifflag, if_decision, elseif_decision,
  push_if, doif, doelseif, pelse,
}
use mc6801_tools.As.Pseudo.Conditionals.Lines.{
  Framed, Kept-Framed, scompare-Framed, skip_to_eol-Kept,
}

-- The two kinds of test.
pub data Test : Type 0 where
  expression : Test
  strings : Test

unfoldable pub test_routine : Test → Routine
test_routine expression = absexpres
test_routine strings = scompare

test-Framed : (test : Test) (s : Asm) → Framed s (test_routine test s)
unfolding test_routine
test-Framed expression s = Kept-Framed s (absexpres s) (absexpres-Kept s)
test-Framed strings s = scompare-Framed s

-- What a test, or the skipping of a line, leaves of the state around `asm`.
abbrev pub Beside : State → State → Type 0
Beside s t =
    (t.ifflag ≡ s.ifflag)
    × (t.elseflag ≡ s.elseflag)
    × (t.iflevel ≡ s.iflevel)
    × (t.ifstak ≡ s.ifstak)

Beside-result :
    (s t : State) (o : Option Asm)
    → Framed s.asm o
    → elim o as (λ _. Option State) [ none ↦ none | some a ↦ some (record s { asm = a }) ] ≡ some t
    → Beside s t
Beside-result s t none h e = absurd (cc)
Beside-result s t (some a) h e =
    let g : record s { asm = a } ≡ t = some_inj _ _ e in
    rw (← g) (ap (λ (f : Frame). f.ifflag) h, refl, refl, refl)

pub test-Beside : (test : Test) (s t : State) → call (test_routine test) s ≡ some t → Beside s t
test-Beside test s t e = Beside-result s t (test_routine test s.asm) (test-Framed test s.asm) e

pub skip-Beside : (s t : State) → call skip_to_eol s ≡ some t → Beside s t
skip-Beside s t e =
    Beside-result s t (skip_to_eol s.asm)
      (Kept-Framed s.asm (skip_to_eol s.asm) (skip_to_eol-Kept s.asm)) e

-- Whether one of the conditions holds.
abbrev pub any : List Bool → Bool
any [] = false
any (c ∷ cs) = c || any cs

-- The first condition of the list is the last one in the source.
abbrev pub is_first : Bool → List Bool → Bool
is_first outer [] = false
is_first outer (c ∷ cs) = outer && (c && not (any cs))

abbrev pub IsChain : Bool → List Bool → State → Type 0
IsChain outer cs s = (s.ifflag ≡ is_first outer cs) × (s.elseflag ≡ (outer && not (any cs)))

IsChain-condition :
    (outer c c' : Bool) (cs : List Bool) (s : State)
    → c ≡ c'
    → IsChain outer (c' ∷ cs) s
    → IsChain outer (c ∷ cs) s
IsChain-condition outer c c' cs s e h = rw e h

if_decision-IsChain :
    (s u : State)
    → Beside (push_if s) u
    → s.ifflag ≡ true
    → IsChain s.ifflag (not (is_false (if_decision u)) ∷ []) (if_decision u)
if_decision-IsChain s u b h = go (is_false u) refl
  where
    decided : Bool → State
    decided c = if c then record (set_ifflag false u) { elseflag = true } else u

    go :
        (c : Bool) → is_false u ≡ c → IsChain s.ifflag (not (is_false (decided c)) ∷ []) (decided c)
    go true e = IsChain-condition s.ifflag _ false [] (decided true) (ap not e) (rw h (refl, refl))
    go false e =
        IsChain-condition s.ifflag _ true [] (decided false) (ap not e) (rw h (b.0 ∙ h, b.1))

doif-IsChain :
    (test : Test) (s t : State)
    → leb maxif s.iflevel ≡ false
    → doif (test_routine test) s ≡ some t
    → IsChain s.ifflag (not (is_false t) ∷ []) t
unfolding doif
doif-IsChain test s t room e = go s.ifflag refl (sym (if_false (leb maxif s.iflevel) _ _ room) ∙ e)
  where
    go :
        (b : Bool)
        → s.ifflag ≡ b
        → (if b
            then (call (test_routine test) >> (λ u. some (if_decision u))) (push_if s)
            else call skip_to_eol (push_if s))
          ≡ some t
        → IsChain s.ifflag (not (is_false t) ∷ []) t
    go true h e' =
        let (u, f, g) =
          then-some (call (test_routine test) (push_if s)) (λ v. some (if_decision v)) t e' in
        rw (← some_inj _ _ g) (if_decision-IsChain s u (test-Beside test (push_if s) u f) h)
    go false h e' =
        let b : Beside (push_if s) t = skip-Beside (push_if s) t e' in rw h (b.0 ∙ h, b.1)

-- A condition that holds, one that does not, and one behind the first that holds.
taken :
    (outer earlier : Bool)
    → (outer && not earlier) ≡ true
    → (true ≡ (outer && (true && not earlier))) × (false ≡ (outer && not (true || earlier)))
taken true true h = cc
taken true false h = (refl, refl)
taken false earlier h = cc

not_taken :
    (outer earlier : Bool)
    → (false ≡ (outer && (false && not earlier)))
      × ((outer && not earlier) ≡ (outer && not (false || earlier)))
not_taken true earlier = (refl, refl)
not_taken false earlier = (refl, refl)

too_late :
    (outer earlier c : Bool)
    → (outer && not earlier) ≡ false
    → (false ≡ (outer && (c && not earlier))) × (false ≡ (outer && not (c || earlier)))
too_late true true true h = (refl, refl)
too_late true true false h = (refl, refl)
too_late true false c h = cc
too_late false earlier c h = (refl, refl)

-- The same for ELSEIF, where a condition that is not defined does not hold.
elseif_decision-IsChain :
    (outer : Bool) (cs : List Bool) (s u : State)
    → Beside (set_ifflag false s) u
    → (outer && not (any cs)) ≡ true
    → s.elseflag ≡ true
    → IsChain outer (is_true (elseif_decision u) ∷ cs) (elseif_decision u)
elseif_decision-IsChain outer cs s u b h k = go (is_true u) refl
  where
    decided : Bool → State
    decided c = if c then record (set_ifflag true u) { elseflag = false } else u

    go : (c : Bool) → is_true u ≡ c → IsChain outer (is_true (decided c) ∷ cs) (decided c)
    go true e = IsChain-condition outer _ true cs (decided true) e (taken outer (any cs) h)
    go false e =
        IsChain-condition outer _ false cs (decided false) e
          (b.0 ∙ (not_taken outer (any cs)).0, b.1 ∙ k ∙ sym h ∙ (not_taken outer (any cs)).1)

doelseif-IsChain :
    (test : Test) (outer : Bool) (cs : List Bool) (s t : State)
    → (s.iflevel == 0) ≡ false
    → IsChain outer cs s
    → doelseif (test_routine test) s ≡ some t
    → IsChain outer (is_true t ∷ cs) t
unfolding doelseif
doelseif-IsChain test outer cs s t open_if (h, k) e =
    go s.elseflag refl (sym (if_false (s.iflevel == 0) _ _ open_if) ∙ e)
  where
    start : State
    start = set_ifflag false s

    go :
        (b : Bool)
        → s.elseflag ≡ b
        → (if b
            then (call (test_routine test) >> (λ u. some (elseif_decision u))) start
            else call skip_to_eol start)
          ≡ some t
        → IsChain outer (is_true t ∷ cs) t
    go true f e' =
        let (u, g, i) =
          then-some (call (test_routine test) start) (λ v. some (elseif_decision v)) t e' in
        rw (← some_inj _ _ i)
          (elseif_decision-IsChain outer cs s u (test-Beside test start u g) (sym k ∙ f) f)
    go false f e' =
        let b : Beside start t = skip-Beside start t e' in
        let late = too_late outer (any cs) (is_true t) (sym k ∙ f) in
        (b.0 ∙ late.0, b.1 ∙ f ∙ late.1)

else_taken :
    (outer earlier c : Bool)
    → c ≡ (outer && not earlier)
    → (c ≡ (outer && (true && not earlier))) × (false ≡ (outer && not (true || earlier)))
else_taken true earlier c h = (h, refl)
else_taken false earlier c h = (h, refl)

pelse-IsChain :
    (outer : Bool) (cs : List Bool) (s t : State)
    → (s.iflevel == 0) ≡ false
    → IsChain outer cs s
    → pelse s ≡ some t
    → IsChain outer (true ∷ cs) t
unfolding pelse
pelse-IsChain outer cs s t open_if (h, k) e =
    let g : record (set_ifflag s.elseflag s) { elseflag = false } ≡ t =
      some_inj _ _ (sym (if_false (s.iflevel == 0) _ _ open_if) ∙ e) in
    rw (← g) (else_taken outer (any cs) s.elseflag k)

-- The lines of a chain, the conditions so far with it: the one of IF, those of ELSEIF, and ELSE, which
-- always holds. Lines between them may change all but the flags.
pub data Chain : Bool → List Bool → State → Type 0 where
  start :
      (test : Test) (s t : State)
      → leb maxif s.iflevel ≡ false
      → doif (test_routine test) s ≡ some t
      → Chain s.ifflag (not (is_false t) ∷ []) t
  line :
      (outer : Bool) (cs : List Bool) (s t : State)
      → Chain outer cs s
      → t.ifflag ≡ s.ifflag
      → t.elseflag ≡ s.elseflag
      → Chain outer cs t
  else_if :
      (test : Test) (outer : Bool) (cs : List Bool) (s t : State)
      → Chain outer cs s
      → (s.iflevel == 0) ≡ false
      → doelseif (test_routine test) s ≡ some t
      → Chain outer (is_true t ∷ cs) t
  otherwise :
      (outer : Bool) (cs : List Bool) (s t : State)
      → Chain outer cs s
      → (s.iflevel == 0) ≡ false
      → pelse s ≡ some t
      → Chain outer (true ∷ cs) t

Chain-IsChain : (outer : Bool) (cs : List Bool) (s : State) → Chain outer cs s → IsChain outer cs s
Chain-IsChain _ _ _ (start test s t room e) = doif-IsChain test s t room e
Chain-IsChain _ _ _ (line outer cs s t c h k) =
    let (f, g) = Chain-IsChain outer cs s c in (h ∙ f, k ∙ g)
Chain-IsChain _ _ _ (else_if test outer cs s t c open_if e) =
    doelseif-IsChain test outer cs s t open_if (Chain-IsChain outer cs s c) e
Chain-IsChain _ _ _ (otherwise outer cs s t c open_if e) =
    pelse-IsChain outer cs s t open_if (Chain-IsChain outer cs s c) e

-- Lines of a chain are assembled exactly where the code around it is, the latest condition holds and
-- none before it does. An IF whose condition is not defined counts as one that holds.
pub Chain-first :
    (outer : Bool) (cs : List Bool) (s : State) → Chain outer cs s → s.ifflag ≡ is_first outer cs
Chain-first outer cs s c = (Chain-IsChain outer cs s c).0
