-- ===== src/Ld/Tests.antt =====
-- S-records and Intel hex of a few bytes, and the links of three modules.
use mc6801_tools.Base.{
  ℕ, zero, suc, Bool, true, false, List, ◌≡◌, ◌≢◌, ◌↔◌, refl, none, some, [], ◌∷◌, ◌++◌, ◌%◌, ◌^◌,
  arith, All, get_elem?, some_inj,
}
use mathlib.Core.Path.{subst}
use mc6801_tools.Ld.SRecords.{put_record, srec_data, srec_header, ihex_data, ihex_end}
use mc6801_tools.Ld.SRecords.IntelHex.{read_hex, read_hex-ihex_data}
use mc6801_tools.Ld.SRecords.Header.{read_record-srec_header}
use mc6801_tools.Ld.SRecords.Image.{place, read_image, read_image-srec_data}
use mc6801_tools.Ld.SRecords.Reader.{AreBytes, payload, read_record, read_record-put_record}
use mc6801_tools.Ld.LinkSyms.{
  LinkModule, Links, keeps, linkrefs, link_roots, all_modules, linksyms, enter_main,
}
use mc6801_tools.Ld.LinkSyms.Reach.{Loaded, Reaches, SameGraph, IsFlagged}
use mc6801_tools.Ld.LinkSyms.Termination.{Leads, IsLinked, Covers, linkrefs-Covers}
use mc6801_tools.Ld.LinkSyms.Roots.{IsRoot}
use mc6801_tools.Ld.LinkSyms.Pass.{IsReady, IsReached, link_roots-loads}
use mc6801_tools.Ld.LinkSyms.Redefine.{redsym, Redefined, redsym-Redefined}
use mc6801_tools.Ld.LinkSyms.Passes.{Settled, linksyms-Settles}

-- `S10501008605 6E`: LDAA #5 at 0x100.
one_record : srec_data 2 (0x86 ∷ 5 ∷ []) 0x100 ≡ (
  0x53 ∷ 0x31 ∷ 0x30 ∷ 0x35 ∷ 0x30 ∷ 0x31 ∷ 0x30 ∷ 0x30 ∷ 0x38 ∷ 0x36 ∷ 0x30 ∷ 0x35 ∷ 0x36 ∷ 0x45
      ∷ 10 ∷ [],
  1,
)
unfolding srec_data
one_record = refl

read_record-put_record_example :
    read_record (put_record 0x31 0x100 (0x86 ∷ 5 ∷ []) ++ 0x53 ∷ [])
    ≡ some (0x31, payload 0x100 (0x86 ∷ 5 ∷ []), 0x53 ∷ [])
read_record-put_record_example =
    read_record-put_record 0x31 0x100 (0x86 ∷ 5 ∷ []) (0x53 ∷ []) (omega arith)
      (omega arith, (omega arith, tt))

-- Eighteen bytes, in two records.
abbrev eighteen : List ℕ
eighteen = 0 ∷ 1 ∷ 2 ∷ 3 ∷ 4 ∷ 5 ∷ 6 ∷ 7 ∷ 8 ∷ 9 ∷ 10 ∷ 11 ∷ 12 ∷ 13 ∷ 14 ∷ 15 ∷ 16 ∷ 255 ∷ []

two_records : (srec_data 18 eighteen 0xfff8).1 ≡ 2
unfolding srec_data
two_records = refl

eighteen-AreBytes : AreBytes eighteen
eighteen-AreBytes = ground arith

read_image-srec_data_example :
    read_image (srec_data 18 eighteen 0xfff8).1 (srec_data 18 eighteen 0xfff8).0
    ≡ some (place 0xfff8 eighteen)
read_image-srec_data_example =
    read_image-srec_data 18 eighteen 0xfff8 (omega arith) eighteen-AreBytes

-- `:02010000860572`, an LDAA #5, to be called at 0x100.
one_line :
    ihex_data 2 (0x86 ∷ 5 ∷ []) 0x100
    ≡ 0x3a ∷ 0x30 ∷ 0x32 ∷ 0x30 ∷ 0x31 ∷ 0x30 ∷ 0x30 ∷ 0x30 ∷ 0x30 ∷ 0x38 ∷ 0x36 ∷ 0x30 ∷ 0x35
      ∷ 0x37 ∷ 0x32 ∷ 13 ∷ 10 ∷ []
unfolding ihex_data
one_line = refl

read_hex-ihex_data_example :
    read_hex 19 (ihex_data 18 eighteen 0xfff8 ++ ihex_end 0x10100)
    ≡ some (place 0xfff8 eighteen, 0x10100 % 2 ^ 16)
read_hex-ihex_data_example =
    read_hex-ihex_data 18 eighteen 0xfff8 0x10100 (omega arith) eighteen-AreBytes

read_record-srec_header_example :
    read_record (srec_header (0x61 ∷ 0x62 ∷ []) ++ 0x53 ∷ [])
    ≡ some (0x30, payload 0 (0x61 ∷ 0x62 ∷ []), 0x53 ∷ [])
read_record-srec_header_example =
    read_record-srec_header (0x61 ∷ 0x62 ∷ []) (0x53 ∷ []) (omega arith)
      (omega arith, (omega arith, tt))

-- The symbols 0 and 1 in the modules 0 and 1; module 0 refers to both, the script keeps module 2, which has a
-- definition of symbol 1 of a higher class.
abbrev small : Links
small = record {
  modules =
      record { class = 0; symparray = 0 ∷ 1 ∷ [] }
      ∷ record { class = 0; symparray = 1 ∷ [] }
      ∷ record { class = 1; symparray = 1 ∷ [] }
      ∷ [];
  symbols = record { modptr = 0; value = 0 } ∷ record { modptr = 1; value = 4 } ∷ [];
  loadflags = false ∷ false ∷ false ∷ [];
  redlist = record { rlsymptr = 1; rlmodptr = 2; rlvalue = 8 } ∷ [];
  entries = [];
  script_roots = keeps 2 ∷ [];
  start = none;
  main = some 0;
}

-- The second definition counts, and the module of the first one is not loaded.
small_links :
    linksyms false small
    ≡ some (record small {
      entries = 0 ∷ [];
      symbols = record { modptr = 0; value = 0 } ∷ record { modptr = 2; value = 8 } ∷ [];
      loadflags = true ∷ false ∷ true ∷ [];
      redlist = [];
    })
unfolding linksyms
small_links = refl

-- With the symbol `_main` entered.
abbrev entered : Links
entered = record small { entries = 0 ∷ [] }

lead_0 : Leads entered 0
lead_0 = record { symbol = _; names = refl; found = _; at = refl }

lead_1 : Leads entered 1
lead_1 = record { symbol = _; names = refl; found = _; at = refl }

module _ {ℓ κ} {A : Type ℓ} where
  -- What holds of all elements holds of one.
  All-get_elem :
      (p : A → Type κ) (xs : List A) (i : ℕ) (x : A) → All p xs → get_elem? xs i ≡ some x → p x
  All-get_elem p [] i x a h = absurd (cc)
  All-get_elem p (y ∷ xs) zero x a h = subst p (some_inj y x h) a.0
  All-get_elem p (y ∷ xs) (suc i) x a h = All-get_elem p xs i x a.1 h

entered-Leads :
    (m : ℕ) (found : LinkModule) (i id : ℕ)
    → get_elem? entered.modules m ≡ some found
    → get_elem? found.symparray i ≡ some id
    → Leads entered id
entered-Leads m found i id a b =
    All-get_elem (Leads entered) found.symparray i id
      (All-get_elem (λ (k : LinkModule). All (Leads entered) k.symparray) entered.modules m found
        ((lead_0, (lead_1, tt)), ((lead_1, tt), ((lead_1, tt), tt))) a)
      b

no_start : (id : ℕ) → none ≢ some id
no_start id h = cc

entered-IsReady : IsReady entered
entered-IsReady = record {
  entry = 0;
  others = [];
  entries = refl;
  entries_lead = λ i id a. All-get_elem (Leads entered) (0 ∷ []) i id (lead_0, tt) a;
  script_leads = λ i root a. All-get_elem (IsRoot entered) (keeps 2 ∷ []) i root ((_, refl), tt) a;
  start_leads = λ id a. absurd (no_start id a);
  leads = entered-Leads;
}

linksyms-Settles_example :
    (t : Links) × (linksyms false small ≡ some t) × Settled (enter_main small.main small) t
unfolding enter_main
linksyms-Settles_example =
    linksyms-Settles small entered-IsReady
      (record { target = _; target_at = refl; leads = lead_1 }, tt)

link_roots-loads_example :
    (t : Links) × (link_roots (all_modules entered) entered ≡ some t)
    × SameGraph entered t
    × IsFlagged t
    × ((x : ℕ) → Loaded t x ↔ IsReached entered x)
link_roots-loads_example = link_roots-loads entered entered-IsReady

entered-IsLinked : IsLinked entered
entered-IsLinked = record { flagged = refl; leads = entered-Leads }

not_loaded : (x : ℕ) → get_elem? (false ∷ false ∷ false ∷ []) x ≢ some true
not_loaded zero h = absurd (cc)
not_loaded (suc zero) h = absurd (cc)
not_loaded (suc (suc zero)) h = absurd (cc)
not_loaded (suc (suc (suc x))) h = absurd (cc)

linkrefs-Covers_example :
    (t : Links) × (linkrefs 4 0 entered ≡ some t) × Covers (λ x. Reaches entered 0 x) entered t
linkrefs-Covers_example =
    linkrefs-Covers 4 0 (record { class = 0; symparray = 0 ∷ 1 ∷ [] }) entered entered-IsLinked
      (λ x y l. absurd (not_loaded x l)) refl (omega arith)

-- A second definition of the symbol 0, in module 2.
redsym-Redefined_example :
    (refused : Bool) × (t : Links) × (redsym 2 0 9 entered ≡ some (refused, t))
    × Redefined 0
        (record { modptr = 0; value = 0 })
        (record { modptr = 2; value = 9 })
        entered
        t
        refused
redsym-Redefined_example =
    redsym-Redefined 2 0 9 (record { class = 1; symparray = 1 ∷ [] }) entered
      (record { symbol = record { modptr = 0; value = 0 }; names = refl; found = _; at = refl })
      refl (record { target = _; target_at = refl; leads = lead_1 }, tt)
