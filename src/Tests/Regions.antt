-- ===== src/Tests/Regions.antt =====
-- Two regions of a process whose page 1 is present.
use simple_operating_system.Common.{
  ℕ, zero, suc, ◌≤◌, ◌<◌, ◌≡◌, ◌≢◌, refl, ap, ◌∙◌, inl, inr, true, Option, some, List, [], ◌∷◌,
  arith, replicate, get_or-replicate, ℤ, success,
}
use simple_operating_system.Mm.{Krnl, Area, Region, no_region}
use simple_operating_system.Vmap.{init_area}
use simple_operating_system.Pte.{pte_present}
use simple_operating_system.Pte.Address.{paging_pgn-lem}
use simple_operating_system.Paging.Congruence.{get_same}
use simple_operating_system.Paging.Tree.{Owner}
use simple_operating_system.Libmem.{region, write_at, read_region, write_region}
use simple_operating_system.Libmem.Regions.{Placed, Apart, Layout}
use simple_operating_system.Libmem.Pages.{present, Pages}
use simple_operating_system.Libmem.Bytes.{as_int, page_of, setval_present-Written}
use simple_operating_system.Libmem.Symbols.{memory-Pages}
use simple_operating_system.Libmem.Access.{
  inside-Located, Located-region_address, write_region-read_region, write_region-succeeds,
  write_region-others,
}
use simple_operating_system.Tests.Device.{device, device-MemphyLaws, started}
use simple_operating_system.Tests.Bytes.{faulted, faulted-Resident, started-Pages}

abbrev first_region : Region
first_region = record no_region { rg_start = 4096; rg_end = 4396 }

abbrev second_region : Region
second_region = record no_region { rg_start = 4396; rg_end = 4696 }

abbrev regions : List Region
regions = first_region ∷ second_region ∷ replicate 28 no_region

abbrev area : Area
area = record (init_area []) { sbrk = 4696 }

abbrev divided : Krnl → Krnl
divided k = record k { mm = record k.mm { mmap = area ∷ []; symrgtbl = regions } }

placed : (k : Krnl) (i : ℕ) → Placed 4696 (region (divided k) i)
placed k zero = inr (omega arith)
placed k (suc zero) = inr (omega arith)
placed k (suc (suc i)) = inl (rw (get_or-replicate 28 i no_region) refl)

apart : (k : Krnl) (i j : ℕ) → i ≢ j → Apart (region (divided k) i) (region (divided k) j)
apart k zero zero n = absurd (n refl)
apart k zero (suc zero) n = inr (inr (inl (omega arith)))
apart k (suc zero) zero n = inr (inr (inr (omega arith)))
apart k (suc zero) (suc zero) n = absurd (n refl)
apart k (suc (suc i)) j n = inl (rw (get_or-replicate 28 i no_region) refl)
apart k zero (suc (suc j)) n = inr (inl (rw (get_or-replicate 28 j no_region) refl))
apart k (suc zero) (suc (suc j)) n = inr (inl (rw (get_or-replicate 28 j no_region) refl))

divided-Layout : (k : Krnl) → Layout (divided k)
unfolding init_area
divided-Layout k = record {
  area = area;
  rest = [];
  first = refl;
  low = omega arith;
  limit = omega arith;
  word_sized = omega arith;
  symbols = refl;
  placed = placed k;
  apart = apart k;
}

pub divided-Pages : (o : Owner) (k : Krnl) → Pages o k → Pages o (divided k)
divided-Pages o k s = memory-Pages device o (divided k) k refl s

-- Before any page is present.
abbrev pub fresh : Krnl
fresh = divided started

abbrev pub written : Krnl
written = (write_region device fresh 0 0 7 77).0

write_region-succeeds_example : (write_region device fresh 0 0 7 77).1 ≡ success
write_region-succeeds_example =
    write_region-succeeds device device-MemphyLaws (λ f. []) fresh 0 0 7 77
      (divided-Pages (λ f. []) started started-Pages) (omega arith) (omega arith) (omega arith)

pub written-success : write_region device fresh 0 0 7 77 ≡ (written, success)
written-success =
    ap (λ (z : ℤ). (written, z))
      (write_region-succeeds device device-MemphyLaws (λ f. []) fresh 0 0 7 77
        (divided-Pages (λ f. []) started started-Pages) (omega arith) (omega arith) (omega arith))

write_region-read_region_example : read_region device written 0 0 7 ≡ (written, some 77)
write_region-read_region_example =
    write_region-read_region device device-MemphyLaws (λ f. []) fresh written 0 0 7 77
      (divided-Pages (λ f. []) started started-Pages) written-success

-- After a page fault on page 1.
abbrev mapped : Krnl
mapped = divided faulted

same_page : (a : ℕ) → 4096 ≤ a → a < 8192 → page_of a ≡ page_of 5000
same_page a l h = omega (arith, paging_pgn-lem (as_int a), paging_pgn-lem (as_int 5000))

mapped-Pages : Pages (faulted-Resident.0) mapped
mapped-Pages = divided-Pages (faulted-Resident.0) faulted (faulted-Resident.1)

mapped-present : (a : ℕ) → 4096 ≤ a → a < 8192 → present mapped (page_of a) ≡ true
mapped-present a l h =
    ap (present mapped) (same_page a l h)
    ∙ ap pte_present (get_same mapped faulted refl refl refl (page_of 5000))
    ∙ faulted-Resident.2

abbrev overwritten : Krnl
overwritten = (write_region device mapped 0 0 7 77).0

overwritten-success : write_region device mapped 0 0 7 77 ≡ (overwritten, success)
unfolding write_region write_at
overwritten-success =
    let l = inside-Located mapped 0 7 (omega arith) (omega arith) (omega arith) in
    let stored : (write_region device mapped 0 0 7 77).1 ≡ success =
      ap (λ (r : Krnl × Option ℕ). (write_at device 77 r).1)
        (Located-region_address device mapped 0 0 7 4103 l)
      ∙ (setval_present-Written device device-MemphyLaws (faulted-Resident.0) mapped 4103 _ 77
          mapped-Pages (mapped-present 4103 (omega arith) (omega arith)) refl).0 in
    ap (λ (z : ℤ). (overwritten, z)) stored

write_region-others_example :
    (read_region device overwritten 0 1 3).1 ≡ (read_region device mapped 0 1 3).1
unfolding divided-Layout
write_region-others_example =
    write_region-others device device-MemphyLaws (faulted-Resident.0) mapped overwritten
      (divided-Layout faulted) 0 1 7 3 77 mapped-Pages (omega arith) (inl (λ e. omega (arith, e)))
      (omega arith) (omega arith) (omega arith) (omega arith)
      (mapped-present 4103 (omega arith) (omega arith))
      (mapped-present 4399 (omega arith) (omega arith)) overwritten-success
