-- ===== src/As/Pseudo/Conditionals/Nesting.antt =====
-- as/pops.c: the IF stack. It never overflows, and ENDIF gives back what IF found.
use mc6801_tools.Base.{
  ℕ, zero, suc, ◌-◌, ◌≤◌, ◌≡◌, refl, sym, ap, ◌∙◌, Bool, true, false, some, List, [], ◌∷◌, ◌++◌,
  ◌⊎◌, length, leb, ◌==◌, if◌then◌else◌, arith, then-some, some_inj, Bool-cases, inl, inr, if_true,
  if_false, suc-==_0,
}
use mc6801_tools.As.Asm.{endifbad}
use mc6801_tools.As.Pseudo.{State, IfFrame, Pop, ◌>>◌, call, complain}
use mc6801_tools.As.Pseudo.Conditionals.{
  maxif, skip_to_eol, is_true, is_false, set_ifflag, if_decision, elseif_decision, push_if, doif,
  doelseif, pelse, pop_if, pendif,
}
use mc6801_tools.As.Pseudo.Conditionals.Chain.{Test, test_routine, Beside, test-Beside, skip-Beside}

-- The stack of two states is the same.
abbrev pub SameStack : State → State → Type 0
SameStack s t = (t.iflevel ≡ s.iflevel) × (t.ifstak ≡ s.ifstak)

decide-SameStack :
    (s u : State) (c : Bool) (f e : Bool)
    → SameStack s u
    → SameStack s (if c then record (set_ifflag f u) { elseflag = e } else u)
decide-SameStack s u true f e h = h
decide-SameStack s u false f e h = h

-- A test and what it decides, or the skipping of the line.
tested-SameStack :
    (test : Test) (decide : State → State) (s t : State) (b : Bool)
    → ((u : State) → SameStack s u → SameStack s (decide u))
    → (if b then (call (test_routine test) >> (λ u. some (decide u))) s else call skip_to_eol s)
      ≡ some t
    → SameStack s t
tested-SameStack test decide s t false h e = let b : Beside s t = skip-Beside s t e in (b.2, b.3)
tested-SameStack test decide s t true h e =
    let (u, f, g) = then-some (call (test_routine test) s) (λ v. some (decide v)) t e in
    let b : Beside s u = test-Beside test s u f in rw (← some_inj _ _ g) (h u (b.2, b.3))

doif-stack :
    (test : Test) (s t : State)
    → leb maxif s.iflevel ≡ false
    → doif (test_routine test) s ≡ some t
    → SameStack (push_if s) t
unfolding doif
doif-stack test s t room e =
    tested-SameStack test if_decision (push_if s) t s.ifflag
      (λ u h. decide-SameStack (push_if s) u (is_false u) false true h)
      (sym (if_false (leb maxif s.iflevel) _ _ room) ∙ e)

doelseif-stack :
    (test : Test) (s t : State) → doelseif (test_routine test) s ≡ some t → SameStack s t
unfolding doelseif
doelseif-stack test s t e = elim (Bool-cases (s.iflevel == 0)) [
  | inl h ↦ rw (← some_inj _ _ (sym (if_true (s.iflevel == 0) _ _ h) ∙ e)) (refl, refl)
  | inr h ↦
      tested-SameStack test elseif_decision (set_ifflag false s) t s.elseflag
        (λ u k. decide-SameStack s u (is_true u) true false k)
        (sym (if_false (s.iflevel == 0) _ _ h) ∙ e)
]

pelse-stack : (s t : State) → pelse s ≡ some t → SameStack s t
unfolding pelse
pelse-stack s t e = elim (Bool-cases (s.iflevel == 0)) [
  | inl h ↦ rw (← some_inj _ _ (sym (if_true (s.iflevel == 0) _ _ h) ∙ e)) (refl, refl)
  | inr h ↦ rw (← some_inj _ _ (sym (if_false (s.iflevel == 0) _ _ h) ∙ e)) (refl, refl)
]

-- What ENDIF makes of the frame on top.
abbrev pub closed : IfFrame → List IfFrame → ℕ → State → State
closed f rest n s = record (set_ifflag f.ifflag s) {
  elseflag = f.elseflag;
  ifstak = rest;
  iflevel = n;
}

pendif-closed :
    (f : IfFrame) (rest : List IfFrame) (n : ℕ) (s : State)
    → s.iflevel ≡ suc n
    → s.ifstak ≡ f ∷ rest
    → pendif s ≡ some (closed f rest n s)
unfolding pendif
pendif-closed f rest n s h k =
    if_false (s.iflevel == 0) _ _ (ap (λ m. m == 0) h ∙ suc-==_0 n)
    ∙ popped
    ∙ ap (λ m. some (closed f rest m s)) (omega (arith, h))
  where
    popped : pop_if s ≡ some (closed f rest (s.iflevel - 1) s)
    popped = rw k refl

-- The lines between an IF and its ENDIF, with whole conditionals among them. A line that is no
-- conditional does not touch the stack.
pub data Inside : State → State → Type 0 where
  here : (s : State) → Inside s s
  line : (s t u : State) → Inside s t → SameStack t u → Inside s u
  else_if :
      (test : Test) (s t u : State)
      → Inside s t
      → doelseif (test_routine test) t ≡ some u
      → Inside s u
  otherwise : (s t u : State) → Inside s t → pelse t ≡ some u → Inside s u
  conditional :
      (test : Test) (s t u v w : State)
      → Inside s t
      → leb maxif t.iflevel ≡ false
      → doif (test_routine test) t ≡ some u
      → Inside u v
      → pendif v ≡ some w
      → Inside s w

SameStack-trans : (s t u : State) → SameStack s t → SameStack t u → SameStack s u
SameStack-trans s t u h k = (k.0 ∙ h.0, k.1 ∙ h.1)

abbrev frame_of : State → IfFrame
frame_of s = record { ifflag = s.ifflag; elseflag = s.elseflag }

-- An ENDIF where the frame of `s` is on top.
closes :
    (s v : State)
    → SameStack (push_if s) v
    → pendif v ≡ some (closed (frame_of s) s.ifstak s.iflevel v)
closes s v h = pendif-closed (frame_of s) s.ifstak s.iflevel v h.0 h.1

Inside-SameStack : (s t : State) → Inside s t → SameStack s t
Inside-SameStack _ _ (here s) = (refl, refl)
Inside-SameStack _ _ (line s t u i h) = SameStack-trans s t u (Inside-SameStack s t i) h
Inside-SameStack _ _ (else_if test s t u i e) =
    SameStack-trans s t u (Inside-SameStack s t i) (doelseif-stack test t u e)
Inside-SameStack _ _ (otherwise s t u i e) =
    SameStack-trans s t u (Inside-SameStack s t i) (pelse-stack t u e)
Inside-SameStack _ _ (conditional test s t u v w i room e j f) =
    let opened = doif-stack test t u room e in
    let top = SameStack-trans (push_if t) u v opened (Inside-SameStack u v j) in
    let g : closed (frame_of t) t.ifstak t.iflevel v ≡ w =
      some_inj _ _ (sym (closes t v top) ∙ f) in
    SameStack-trans s t w (Inside-SameStack s t i) (rw (← g) (refl, refl))

-- An IF that finds room, the lines behind it, and ENDIF: it never fails, and the flags and the stack are
-- those in front of the IF.
pub if-endif :
    (test : Test) (s t u : State)
    → leb maxif s.iflevel ≡ false
    → doif (test_routine test) s ≡ some t
    → Inside t u
    → (v : State) × (pendif u ≡ some v)
      × (v.ifflag ≡ s.ifflag)
      × (v.elseflag ≡ s.elseflag)
      × SameStack s v
if-endif test s t u room e i =
    let top =
      SameStack-trans (push_if s) t u (doif-stack test s t room e) (Inside-SameStack t u i) in
    (closed (frame_of s) s.ifstak s.iflevel u, closes s u top, refl, refl, (refl, refl))

-- The height of the stack is `iflevel`, and it fits in the array.
abbrev pub IsIfStack : State → Type 0
IsIfStack s = (s.iflevel ≡ length s.ifstak) × (s.iflevel ≤ maxif)

pub data Op : Type 0 where
  opens : Test → Op
  retests : Test → Op
  turns : Op
  closes_it : Op

unfoldable pub run_op : Op → Pop
unfolding test_routine doif doelseif pelse pendif
run_op (opens test) = doif (test_routine test)
run_op (retests test) = doelseif (test_routine test)
run_op turns = pelse
run_op closes_it = pendif

SameStack-IsIfStack : (s t : State) → SameStack s t → IsIfStack s → IsIfStack t
SameStack-IsIfStack s t h k = rw (h.0, h.1) k

doif-IsIfStack :
    (test : Test) (s t : State) → IsIfStack s → doif (test_routine test) s ≡ some t → IsIfStack t
unfolding doif
doif-IsIfStack test s t k e = elim (Bool-cases (leb maxif s.iflevel)) [
  | inl full ↦ rw (← some_inj _ _ (sym (if_true (leb maxif s.iflevel) _ _ full) ∙ e)) k
  | inr room ↦
      SameStack-IsIfStack (push_if s) t (doif-stack test s t room e)
        (ap suc k.0, ground (arith, room))
]

-- An ENDIF without an IF: a message, and nothing else changes.
abbrev pub Refused : State → State → Type 0
Refused s t =
    (s.iflevel ≡ 0) × (t ≡ record s { asm = record s.asm { errors = s.errors ++ endifbad ∷ [] } })

-- An ENDIF with an IF: the frame on top is taken off, and the flags are those that it holds.
pub record Closed (s t : State) : Type 0 where
  pub top : IfFrame
  pub rest : List IfFrame
  pub stack : s.ifstak ≡ top ∷ rest
  pub closes : t ≡ closed top rest (length rest) s

-- ENDIF always returns, where the height of the stack is `iflevel` and fits in the array, and keeps that. With
-- `iflevel` 0 it adds the message ENDIFBAD and changes nothing else; otherwise the frame on top is taken off, and
-- the flags are those that it holds.
pub pendif-IsIfStack :
    (s : State)
    → IsIfStack s
    → (t : State) × (pendif s ≡ some t) × IsIfStack t × (Refused s t ⊎ Closed s t)
unfolding pendif
pendif-IsIfStack s k = go s.iflevel s.ifstak refl refl
  where
    go :
        (n : ℕ) (stack : List IfFrame)
        → s.iflevel ≡ n
        → s.ifstak ≡ stack
        → (t : State) × (pendif s ≡ some t) × IsIfStack t × (Refused s t ⊎ Closed s t)
    go zero stack h i = (complain endifbad s, rw h refl, k, inl (h, refl))
    go (suc n) [] h i = absurd (omega (arith, sym h ∙ k.0 ∙ ap length i))
    go (suc n) (f ∷ rest) h i =
        let e : suc n ≡ length (f ∷ rest) = sym h ∙ k.0 ∙ ap length i in
        let b : suc n ≤ maxif = rw (← h) k.1 in
        (
          closed f rest n s,
          pendif-closed f rest n s h i,
          (omega (arith, e), omega (arith, b)),
          inr (record {
            top = f;
            rest = rest;
            stack = i;
            closes = ap (λ m. closed f rest m s) (omega (arith, e));
          }),
        )

-- No conditional pseudo-operation overflows the stack of 8 frames or loses count of its frames.
pub run_op-IsIfStack : (op : Op) (s t : State) → IsIfStack s → run_op op s ≡ some t → IsIfStack t
unfolding run_op
run_op-IsIfStack (opens test) s t k e = doif-IsIfStack test s t k e
run_op-IsIfStack (retests test) s t k e = SameStack-IsIfStack s t (doelseif-stack test s t e) k
run_op-IsIfStack turns s t k e = SameStack-IsIfStack s t (pelse-stack s t e) k
run_op-IsIfStack closes_it s t k e =
    let (u, f, i, c) = pendif-IsIfStack s k in rw (← some_inj _ _ (sym f ∙ e)) i
