-- ===== src/Tests/Bytes.antt =====
-- Bytes of a process that has just started.
use simple_operating_system.Common.{
  ℕ, ◌%◌, ◌^◌, ◌≡◌, sym, ap, ◌∙◌, Option, false, some, arith, get_or-replicate, ℤ, success,
}
use simple_operating_system.Mm.{Krnl, table_entries}
use simple_operating_system.Pte.{pte_present}
use simple_operating_system.Pte.Fields.{zero-present}
use simple_operating_system.Pte.Address.{pgn_digits, paging_pgn-lem}
use simple_operating_system.Vmap.{init_mm}
use simple_operating_system.Paging.{root, read_slot, pte_get_entry}
use simple_operating_system.Paging.Ensure.{walk_absent}
use simple_operating_system.Paging.Map.{page_root, pte_get_entry-walk}
use simple_operating_system.Libmem.{pg_getpage, pg_getval, pg_setval}
use simple_operating_system.Libmem.Pages.{present, Pages, Resident, pg_getpage-Resident}
use simple_operating_system.Libmem.Bytes.{
  as_int, page_of, page_of_bound, getpage-succeeds, setval_present-Written, pg_setval-pg_getval,
  pg_setval-succeeds, pg_setval-others,
}
use simple_operating_system.Tests.Device.{device, device-MemphyLaws, started}
use simple_operating_system.Tests.Memory.{no_table, started-Tree}

clear : (i : ℕ) → pte_present (read_slot started (root i)) ≡ false
unfolding read_slot init_mm
clear i = ap pte_present (get_or-replicate table_entries i 0) ∙ zero-present

nothing_mapped : (p : ℕ) → pte_get_entry started p ≡ 0
nothing_mapped p =
    pte_get_entry-walk started p
    ∙ ap (λ (x : ℕ). x % 2 ^ 32)
        (walk_absent started (page_root p) (pgn_digits p).p4d _ (clear (pgn_digits p).pgd))

started-absent : (p : ℕ) → present started p ≡ false
started-absent p = ap pte_present (nothing_mapped p) ∙ zero-present

pub started-Pages : Pages no_table started
started-Pages = record {
  tree = started-Tree;
  random = λ e. omega (arith, e);
  data_frame = λ p h c. cc (c, started-absent p);
  apart = λ p q hp hq n a b e. cc (a, started-absent p);
}

-- The byte 77 at address 5000.
abbrev written : Krnl
written = (pg_setval device started 5000 77).0

written-success : pg_setval device started 5000 77 ≡ (written, success)
written-success =
    ap (λ (z : ℤ). (written, z))
      (pg_setval-succeeds device device-MemphyLaws no_table started 5000 77 started-Pages
        (omega arith))

pg_setval-pg_getval_example : pg_getval device written 5000 ≡ (written, some 77)
pg_setval-pg_getval_example =
    pg_setval-pg_getval device device-MemphyLaws no_table started written 5000 77 started-Pages
      written-success

-- The same process after a page fault at address 5000.
abbrev pub faulted : Krnl
faulted = (pg_getpage device started (page_of 5000)).0

pub lookup : (f : ℕ) × ((pg_getpage device started (page_of 5000)).1 ≡ some f)
lookup =
    getpage-succeeds device device-MemphyLaws started (page_of 5000) (page_of_bound 5000)
      (omega arith)

faulted-lookup : pg_getpage device started (page_of 5000) ≡ (faulted, some lookup.0)
faulted-lookup = ap (λ (x : Option ℕ). (faulted, x)) (lookup.1)

pub faulted-Resident : Resident faulted (page_of 5000) lookup.0
faulted-Resident =
    pg_getpage-Resident device device-MemphyLaws no_table started faulted (page_of 5000) lookup.0
      started-Pages faulted-lookup

pg_getpage-Resident_example : Resident faulted (page_of 5000) lookup.0
pg_getpage-Resident_example =
    pg_getpage-Resident device device-MemphyLaws no_table started faulted (page_of 5000) lookup.0
      started-Pages faulted-lookup

same_page : page_of 5000 ≡ page_of 5001
same_page = omega (arith, paging_pgn-lem (as_int 5000), paging_pgn-lem (as_int 5001))

abbrev rewritten : Krnl
rewritten = (pg_setval device faulted 5000 77).0

rewritten-success : pg_setval device faulted 5000 77 ≡ (rewritten, success)
rewritten-success =
    let (o, s, p, e) = faulted-Resident in
    ap (λ (z : ℤ). (rewritten, z))
      ((setval_present-Written device device-MemphyLaws o faulted 5000 lookup.0 77 s p e).0)

pg_setval-others_example : (pg_getval device rewritten 5001).1 ≡ (pg_getval device faulted 5001).1
pg_setval-others_example =
    pg_setval-others device device-MemphyLaws faulted-Resident.0 faulted rewritten 5000 5001 77
      faulted-Resident.1 faulted-Resident.2
      (ap (present faulted) (sym same_page) ∙ faulted-Resident.2) (λ e. omega (arith, e))
      rewritten-success
