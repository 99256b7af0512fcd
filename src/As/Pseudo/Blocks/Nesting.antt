-- ===== src/As/Pseudo/Blocks/Nesting.antt =====
-- as/pops.c: BLOCK and ENDB. The location counter, its flags and the direct page come back.
use mc6801_tools.Base.{
  ℕ, suc, ◌-◌, ◌≡◌, refl, sym, ap, ◌∙◌, false, Option, none, some, List, [], ◌∷◌, ◌++◌, leb, ◌==◌,
  if◌then◌else◌, arith, then-some, some_inj, Bool-cases, inl, inr, if_true, if_false, suc-==_0,
}
use mc6801_tools.Base.Bits.{has}
use mc6801_tools.As.Const.{undbit}
use mc6801_tools.As.Line.{rmb}
use mc6801_tools.As.Asm.{Asm, ErrorCode, illab, endbbad}
use mc6801_tools.As.Scan.{getsym}
use mc6801_tools.As.Express.{absexpres}
use mc6801_tools.As.Pseudo.{
  State, BlockFrame, requested, call, complain, ask, on_asm, refuse_label, labelerror,
}
use mc6801_tools.As.Pseudo.Blocks.{
  maxblock, minus, set_lc, origin, porg, push_block, pblock, pop_block, pendb,
}

-- The stack of blocks of two states is the same.
abbrev pub SameBlocks : State → State → Type 0
SameBlocks s t = (t.blocklevel ≡ s.blocklevel) × (t.blockstak ≡ s.blockstak)

SameBlocks-trans : (s t u : State) → SameBlocks s t → SameBlocks t u → SameBlocks s u
SameBlocks-trans s t u h k = (k.0 ∙ h.0, k.1 ∙ h.1)

call-SameBlocks :
    (s t : State) (o : Option Asm)
    → elim o as (λ _. Option State) [ none ↦ none | some a ↦ some (record s { asm = a }) ] ≡ some t
    → SameBlocks s t
call-SameBlocks s t none e = absurd (cc)
call-SameBlocks s t (some a) e =
    let g : record s { asm = a } ≡ t = some_inj _ _ e in rw (← g) (refl, refl)

labelerror-SameBlocks : (e : ErrorCode) (s t : State) → labelerror e s ≡ some t → SameBlocks s t
unfolding labelerror
labelerror-SameBlocks e s t h =
    let (a, f, g) = then-some (getsym (record s.asm { lineptr = s.linebuf })) _ t h in
    rw (← some_inj _ _ g) (refl, refl)

refuse_label-SameBlocks : (e : ErrorCode) (s t : State) → refuse_label e s ≡ some t → SameBlocks s t
unfolding refuse_label
refuse_label-SameBlocks e s t h = go s.label h
  where
    go :
        (o : Option ℕ)
        → elim o as (λ _. Option State) [ none ↦ some s | some id ↦ labelerror e s ] ≡ some t
        → SameBlocks s t
    go none h' = rw (← some_inj _ _ h') (refl, refl)
    go (some id) h' = labelerror-SameBlocks e s t h'

origin-SameBlocks : (s t : State) → origin s ≡ some t → SameBlocks s t
origin-SameBlocks s t h = elim (Bool-cases (has s.lastexp.flags undbit)) [
  | inl e ↦ rw (← some_inj _ _ (sym (if_true (has s.lastexp.flags undbit) _ _ e) ∙ h)) (refl, refl)
  | inr e ↦ rw (← some_inj _ _ (sym (if_false (has s.lastexp.flags undbit) _ _ e) ∙ h)) (refl, refl)
]

-- ORG leaves the stack alone.
porg-SameBlocks : (s t : State) → porg s ≡ some t → SameBlocks s t
unfolding porg
porg-SameBlocks s t h =
    let (u, e, f) = then-some (refuse_label illab s) _ t h in
    let (v, g, i) = then-some (call absexpres u) _ t f in
    SameBlocks-trans s u t (refuse_label-SameBlocks illab s u e)
      (SameBlocks-trans u v t (call-SameBlocks u v (absexpres u.asm) g) (origin-SameBlocks v t i))

pblock-SameBlocks :
    (s t : State)
    → leb maxblock s.blocklevel ≡ false
    → pblock s ≡ some t
    → SameBlocks (push_block s) t
unfolding pblock
pblock-SameBlocks s t room h =
    porg-SameBlocks (push_block s) t (sym (if_false (leb maxblock s.blocklevel) _ _ room) ∙ h)

-- What ENDB makes of the frame on top.
abbrev pub unblocked : BlockFrame → List BlockFrame → ℕ → State → State
unblocked f rest n s =
    record (set_lc f.flags f.lc
      (ask (rmb (minus f.lc s.lc)) (on_asm (λ a. record a { dirpag = f.dp }) s))) {
        blocklevel = n;
        blockstak = rest;
      }

popped :
    (f : BlockFrame) (rest : List BlockFrame) (n : ℕ) (s : State)
    → s.blocklevel ≡ suc n
    → s.blockstak ≡ f ∷ rest
    → pop_block s ≡ some (unblocked f rest n s)
popped f rest n s h k = top k ∙ ap (λ m. some (unblocked f rest m s)) (omega (arith, h))
  where
    top : s.blockstak ≡ f ∷ rest → pop_block s ≡ some (unblocked f rest (s.blocklevel - 1) s)
    top e = rw e refl

-- The label in front of ENDB is refused first.
pendb-unblocked :
    (f : BlockFrame) (rest : List BlockFrame) (n : ℕ) (s t : State)
    → refuse_label illab s ≡ some t
    → s.blocklevel ≡ suc n
    → s.blockstak ≡ f ∷ rest
    → pendb s ≡ some (unblocked f rest n t)
unfolding pendb
pendb-unblocked f rest n s t e h k =
    let (h', k') = refuse_label-SameBlocks illab s t e in
    ap next e
    ∙ if_false (t.blocklevel == 0) _ _ (ap (λ m. m == 0) (h' ∙ h) ∙ suc-==_0 n)
    ∙ popped f rest n t (h' ∙ h) (k' ∙ k)
  where
    next : Option State → Option State
    next o = elim o [
      | none ↦ none
      | some u ↦ if u.blocklevel == 0 then some (complain endbbad u) else pop_block u
    ]

-- The lines between BLOCK and ENDB, with whole blocks among them.
pub data InBlock : State → State → Type 0 where
  here : (s : State) → InBlock s s
  line : (s t u : State) → InBlock s t → SameBlocks t u → InBlock s u
  block :
      (s t u v w : State)
      → InBlock s t
      → leb maxblock t.blocklevel ≡ false
      → pblock t ≡ some u
      → InBlock u v
      → pendb v ≡ some w
      → InBlock s w

abbrev frame_of : State → BlockFrame
frame_of s = record { flags = s.lcdata; dp = s.dirpag; lc = s.lc }

closes :
    (s v w : State)
    → SameBlocks (push_block s) v
    → refuse_label illab v ≡ some w
    → pendb v ≡ some (unblocked (frame_of s) s.blockstak s.blocklevel w)
closes s v w h e = pendb-unblocked (frame_of s) s.blockstak s.blocklevel v w e h.0 h.1

refused : (v w : State) → pendb v ≡ some w → (x : State) × (refuse_label illab v ≡ some x)
unfolding pendb
refused v w f = let (x, g, r) = then-some (refuse_label illab v) _ w f in (x, g)

InBlock-SameBlocks : (s t : State) → InBlock s t → SameBlocks s t
InBlock-SameBlocks _ _ (here s) = (refl, refl)
InBlock-SameBlocks _ _ (line s t u i h) = SameBlocks-trans s t u (InBlock-SameBlocks s t i) h
InBlock-SameBlocks _ _ (block s t u v w i room e j f) =
    let top =
      SameBlocks-trans (push_block t) u v (pblock-SameBlocks t u room e)
        (InBlock-SameBlocks u v j) in
    let (x, g) = refused v w f in
    SameBlocks-trans s t w (InBlock-SameBlocks s t i)
      (rw (← some_inj _ _ (sym (closes t v x top g) ∙ f)) (refl, refl))

-- A BLOCK that finds room, lines behind it that leave the stack of blocks alone or are whole blocks that find
-- room, and an ENDB without a label: it returns, and the location counter, its flags, the direct page and the
-- stack are those in front of the BLOCK. The object code is asked to reserve the difference of the two location
-- counters; no change of the segment is asked for.
pub block-endb :
    (s t u : State)
    → leb maxblock s.blocklevel ≡ false
    → pblock s ≡ some t
    → InBlock t u
    → u.label ≡ none
    → (v : State) × (pendb u ≡ some v)
      × (v.lc ≡ s.lc)
      × (v.lcdata ≡ s.lcdata)
      × (v.dirpag ≡ s.dirpag)
      × SameBlocks s v
      × (v.output ≡ u.output ++ requested (rmb (minus s.lc u.lc)) ∷ [])
unfolding refuse_label
block-endb s t u room e i none_set =
    let top =
      SameBlocks-trans (push_block s) t u (pblock-SameBlocks s t room e)
        (InBlock-SameBlocks t u i) in
    let free : refuse_label illab u ≡ some u = rw none_set refl in
    (
      unblocked (frame_of s) s.blockstak s.blocklevel u,
      closes s u u top free,
      refl,
      refl,
      refl,
      (refl, refl),
      refl,
    )
