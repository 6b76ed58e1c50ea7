-- ===== src/Tests/Memory.antt =====
-- A process that has just started: its page tables and its regions.
use simple_operating_system.Common.{
  ℕ, ◌*◌, ◌%◌, ◌≤◌, ◌<◌, ◌≡◌, refl, ap, inl, true, false, none, some, [], ◌∷◌, if◌then◌else◌, arith,
  length, ◌∙◌, length-replicate, get_or-replicate, ℤ, success,
}
use simple_operating_system.Mm.{
  Krnl, Area, no_region, table_entries, paging_max_symtbl_sz, paging_pagesz,
}
use simple_operating_system.Pte.{pte_present, pte_swapped, pte_fpn}
use simple_operating_system.Pte.Fields.{zero-present}
use simple_operating_system.Pte.Address.{
  get_pd_from_pagenum, pgn_digits, get_pd_from_pagenum-digits,
}
use simple_operating_system.Vmap.{init_mm, init_area}
use simple_operating_system.Paging.{Slot, root, entry, read_slot, pte_get_entry, pte_set_fpn}
use simple_operating_system.Paging.Tree.{Owner, Live, path, Tree}
use simple_operating_system.Paging.Map.{pte_set_fpn-Tree, pte_set_fpn-others, pte_set_fpn-get}
use simple_operating_system.Paging.Progress.{
  EachInside, ensure_places, pte_set_fpn-frames, pte_set_fpn-succeeds,
}
use simple_operating_system.Libmem.{region, unused, alloc_region, free_region}
use simple_operating_system.Libmem.Regions.{
  Layout, can_alloc, after_alloc, alloc_region-cases, alloc_region-Layout,
}
use simple_operating_system.Libmem.Release.{alloc-free}
use simple_operating_system.Tests.Device.{device, device-MemphyLaws, started}

abbrev pub no_table : Owner
no_table f = []

pub started-Tree : Tree no_table started
unfolding init_mm
started-Tree = record {
  width = length-replicate {A = ℕ} table_entries 0;
  depth = λ f. omega arith;
  tables = absent;
  free = (
    (refl, omega arith, omega arith, omega arith, refl),
    (
      (refl, omega arith, omega arith, omega arith, refl),
      (
        (refl, omega arith, omega arith, omega arith, refl),
        (
          (refl, omega arith, omega arith, omega arith, refl),
          (
            (refl, omega arith, omega arith, omega arith, refl),
            (
              (refl, omega arith, omega arith, omega arith, refl),
              (
                (refl, omega arith, omega arith, omega arith, refl),
                ((refl, omega arith, omega arith, omega arith, refl), tt),
              ),
            ),
          ),
        ),
      ),
    ),
  );
}
  where
    absent :
        (s : Slot)
        → Live no_table s
        → length (path no_table s) ≤ 4
        → pte_present (read_slot started s) ≡ true
        → (no_table (pte_fpn (read_slot started s)) ≡ path no_table s)
          × (pte_fpn (read_slot started s) * paging_pagesz < started.mram.maxsz)
    absent (root i) l a p =
        unfold read_slot in
        cc (p, ap pte_present (get_or-replicate table_entries i 0), zero-present)
    absent (entry f i) l a p = absurd (l.0 refl)

-- Page 5 in frame 9.
abbrev mapped : Krnl
mapped = (pte_set_fpn device started 5 9).0

mapped-success : pte_set_fpn device started 5 9 ≡ (mapped, success)
mapped-success =
    ap (λ (z : ℤ). (mapped, z))
      (pte_set_fpn-frames device device-MemphyLaws started 5 9 (omega arith))

pte_set_fpn-get_example :
    (pte_present (pte_get_entry mapped 5) ≡ true)
    × (pte_swapped (pte_get_entry mapped 5) ≡ false)
    × (pte_fpn (pte_get_entry mapped 5) ≡ 9 % 8192)
pte_set_fpn-get_example =
    pte_set_fpn-get device device-MemphyLaws started-Tree 5 9 mapped mapped-success

pte_set_fpn-others_example : pte_get_entry mapped 6 ≡ pte_get_entry started 6
pte_set_fpn-others_example =
    pte_set_fpn-others device device-MemphyLaws started-Tree 5 9 6 (omega arith) (omega arith)
      (λ e. omega (arith, e))

pte_set_fpn-Tree_example : (o : Owner) × Tree o mapped
pte_set_fpn-Tree_example = pte_set_fpn-Tree device device-MemphyLaws started-Tree 5 9

pte_set_fpn-succeeds_example :
    ((pte_set_fpn device started 5 9).1 ≡ success)
    × EachInside started.mram.maxsz (ensure_places device started (root 0) (0 ∷ 0 ∷ 0 ∷ 5 ∷ []))
pte_set_fpn-succeeds_example =
    pte_set_fpn-succeeds device device-MemphyLaws no_table started 5 9 started-Tree refl
      (omega arith)

-- The regions of the process.
started-Layout : Layout started
unfolding init_mm init_area
started-Layout = record {
  area = init_area [];
  rest = [];
  first = refl;
  low = omega arith;
  limit = omega arith;
  word_sized = omega arith;
  symbols = length-replicate paging_max_symtbl_sz no_region;
  placed = λ i. inl (free i);
  apart = λ i j h. inl (free i);
}
  where
    free : (i : ℕ) → unused (region started i) ≡ true
    free i = rw (get_or-replicate paging_max_symtbl_sz i no_region)

started-area : started-Layout.area ≡ init_area []
unfolding init_mm
started-area = cc (started-Layout.first)

started-end : started-Layout.area.vm_end ≡ 0x10_0000
started-end = ap (λ (a : Area). a.vm_end) started-area ∙ (unfold init_area in refl)

started-free : can_alloc started 2 ≡ true
unfolding init_mm
started-free = refl

-- Region 2 of 300 bytes.
alloc_region-cases_example : alloc_region device started 0 2 300 ≡ (
    if can_alloc started 2
    then (
      after_alloc started started-Layout.area started-Layout.rest 2 300,
      some started-Layout.area.sbrk,
    )
    else (started, none))
alloc_region-cases_example =
    alloc_region-cases device started-Layout 2 300 (omega (arith, started-end))

alloc_region-Layout_example : Layout (alloc_region device started 0 2 300).0
alloc_region-Layout_example =
    alloc_region-Layout device started-Layout 2 300 (omega (arith, started-end))

alloc-free_example :
    ((free_region (alloc_region device started 0 2 300).0 2).1 ≡ success)
    × (can_alloc (free_region (alloc_region device started 0 2 300).0 2).0 2 ≡ true)
alloc-free_example =
    alloc-free device started-Layout 2 300 (omega (arith, started-end)) started-free (omega arith)

get_pd_from_pagenum-digits_example : get_pd_from_pagenum 0x1234_5678 ≡ some (pgn_digits 0x1234_5678)
get_pd_from_pagenum-digits_example = get_pd_from_pagenum-digits 0x1234_5678
