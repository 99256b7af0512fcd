-- ===== src/Link/Tests.antt =====
-- An object file of one module, written and linked.
use mc6801_tools.Base.{
  ℕ, ◌≡◌, refl, inl, inr, Bool, true, false, some, List, [], ◌∷◌, ◌++◌, replicate, All, arith,
}
use mc6801_tools.TypeConv.{u2cn, typeconv_init}
use mc6801_tools.As.GenObj.{ObjState, ◌>>◌, objtrailer, putabs, putobj, putobj1, accumulate_rmb}
use mc6801_tools.As.Line.{Line}
use mc6801_tools.As.GenObj.Lines.{symbol_number, genobjadr, genobj}
use mc6801_tools.As.GenObj.Buffers.{Refines}
use mc6801_tools.Ld.LinkMod.{ModStruct, linkmod, linkmod_start, finished}
use mc6801_tools.Link.{Request, code, rmb, address, segment, requests, effects, IsAllowed, FitsFrom}
use mc6801_tools.Link.Lines.{line_requests, genobj-requests}
use mc6801_tools.Link.Waiting.{write_requests}
use mc6801_tools.Link.Steps.{requests-Refines}
use mc6801_tools.Link.RoundTrip.{close, linkmod-requests}

abbrev always : List ℕ → List ℕ → Bool
always file chunk = true

always-ok : (f c : List ℕ) → always f c ≡ true
always-ok f c = refl

-- Text at 0x100 and data at 0x200; symbol 1 is at 0x1234.
abbrev module_1 : ModStruct
module_1 = record {
  segaddr = 0x100 ∷ 0 ∷ 0 ∷ 0x200 ∷ replicate 12 0;
  segfadj = replicate 16 0;
  segnoload = replicate 16 false;
  symparray = record { value = 0x100; flags = 0 } ∷ record { value = 0x1234; flags = 0 } ∷ [];
}

-- The symbols 7 and 9 of the assembler are numbered 0 and 1.
abbrev state_1 : ObjState
state_1 = record {
  objectc = true;
  absbuf = [];
  objbuf = 0x20 ∷ [];
  objfil = [];
  relsize = 0;
  rmbcount = 0;
  arrext = 7 ∷ 9 ∷ [];
}

-- LDAA #5; JSR symbol+1; RMB 3; LDX data; BRA to the start of the text; then a byte of data.
abbrev requests_1 : List Request
requests_1 =
    code 0x86
    ∷ code 5
    ∷ code 0xbd
    ∷ address 0 (record { offset = 1; flags = 0x50; sym = 9 }) 2
    ∷ rmb 3
    ∷ code 0xfe
    ∷ address 0 (record { offset = 4; flags = 0x13; sym = 0 }) 2
    ∷ code 0x20
    ∷ address 0x20 (record { offset = 0; flags = 0x10; sym = 0 }) 1
    ∷ segment 3
    ∷ address 0 (record { offset = 0x42; flags = 0; sym = 0 }) 1
    ∷ []

imported :
    IsAllowed 32 module_1 state_1.arrext
      (address 0 (record { offset = 1; flags = 0x50; sym = 9 }) 2)
unfolding symbol_number
imported = (inr refl, inl refl, λ e i. (record { value = 0x1234; flags = 0 }, refl, omega arith))

requests_1-IsAllowed : All (IsAllowed 32 module_1 state_1.arrext) requests_1
requests_1-IsAllowed = (
  tt,
  (
    tt,
    (
      tt,
      (
        imported,
        (
          tt,
          (
            tt,
            (
              (inr refl, inl refl, λ e i. ground arith),
              (
                tt,
                (
                  (inl refl, inr refl, λ e i. ground arith),
                  (omega arith, ((inl refl, inl refl, λ e i. ground arith), tt)),
                ),
              ),
            ),
          ),
        ),
      ),
    ),
  ),
)

requests_1-FitsFrom : FitsFrom 0 requests_1
requests_1-FitsFrom = ground arith

requests-Refines_example : Refines (requests always requests_1) (write_requests requests_1)
requests-Refines_example =
    requests-Refines always always-ok 32 module_1 (7 ∷ 9 ∷ []) requests_1 requests_1-IsAllowed

linkmod-requests_example :
    (s' : ObjState) × (text : List ℕ) × ((requests always requests_1 >> objtrailer always) state_1
      ≡ some s')
    × (s'.objfil ≡ ([] ++ 0x20 ∷ []) ++ text)
    × (linkmod 32 module_1 [] text
        ≡ finished
            (close (effects 32 module_1 (7 ∷ 9 ∷ []) requests_1 (linkmod_start 32 module_1 [])))
            [])
linkmod-requests_example =
    linkmod-requests always always-ok 32 module_1 [] state_1 requests_1 refl refl refl refl
      requests_1-IsAllowed requests_1-FitsFrom

-- The same by evaluation: the file that the writer leaves.
object_code :
    (requests always requests_1 >> objtrailer always) state_1
    ≡ some (record state_1 {
      relsize = 1;
      objbuf = [];
      objfil =
          0x20 ∷ 0x43 ∷ 0x86 ∷ 5 ∷ 0xbd ∷ 2 ∷ 0xc1 ∷ 1 ∷ 1 ∷ 0x11 ∷ 3 ∷ 0x41 ∷ 0xfe ∷ 0x83 ∷ 0 ∷ 4
          ∷ 0x41 ∷ 0x20 ∷ 1 ∷ 0xa0 ∷ 0 ∷ 0x23 ∷ 0x41 ∷ 0x42 ∷ 0 ∷ [];
    })
unfolding requests putabs genobjadr putobj putobj1 u2cn accumulate_rmb objtrailer typeconv_init
object_code = refl

-- LDX #symbol+1, of three bytes.
abbrev line_1 : Line
line_1 = record {
  mcount = 3;
  popflags = 0;
  fcflag = false;
  fdflag = false;
  fcbuf = [];
  fdbuf = [];
  page = 0;
  opcode = 0xce;
  postb = 0;
  lastexp = record { offset = 1; flags = 0x50; sym = 9 };
  pcrflag = 0;
}

genobj-requests_example :
    genobj always line_1 state_1 ≡ requests always (line_requests line_1) state_1
genobj-requests_example =
    genobj-requests always line_1 state_1 (inl (refl, refl, refl, omega arith, omega arith)) refl
