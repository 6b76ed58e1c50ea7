-- ===== src/Libmem/Symbols.antt =====
-- The accesses of src/libmem.c to bytes leave the regions alone, and allocation the page tables.
use simple_operating_system.Common.{
  ℕ, ◌+◌, ◌-◌, ◌%◌, ◌^◌, ◌≡◌, refl, ap, ◌∙◌, inl, inr, Option, none, some, List, ltb, leb,
  Bool-cases, Option-cases, ℤ, is_zero,
}
use simple_operating_system.Mm.{Krnl, Memphy, Area, word, paging_max_symtbl_sz, paging_max_pgn}
use simple_operating_system.Phy.{MemphyOps}
use simple_operating_system.Phy.Laws.{MemphyLaws}
use simple_operating_system.Paging.{Slot, root, entry, write_slot, pte_set_fpn}
use simple_operating_system.Paging.Tree.{Owner}
use simple_operating_system.Paging.Steady.{view-pte_set_fpn}
use simple_operating_system.Paging.Congruence.{get_same, Tree-same}
use simple_operating_system.Vm.{get_vma_by_num, inc_vma_limit}
use simple_operating_system.Vm.Limits.{vm_map_ram-same}
use simple_operating_system.Libmem.{
  region, unused, place_region, place_raised, alloc_in, alloc_region, fault_page, pg_getpage,
  pg_setval, write_byte,
}
use simple_operating_system.Libmem.Pages.{present, Pages}
use simple_operating_system.Libmem.Bytes.{page_of}

module _ (phy : MemphyOps) (laws : MemphyLaws phy) where
  symbols-write_slot :
      (k : Krnl) (s : Slot) (v : ℕ) → (write_slot k s v).mm.symrgtbl ≡ k.mm.symrgtbl
  unfolding write_slot
  symbols-write_slot k (root i) v = refl
  symbols-write_slot k (entry f i) v = refl

  symbols-pte_set_fpn :
      (k : Krnl) (pgn fpn : ℕ) → (pte_set_fpn phy k pgn fpn).0.mm.symrgtbl ≡ k.mm.symrgtbl
  symbols-pte_set_fpn =
      view-pte_set_fpn phy laws (λ k. k.mm.symrgtbl) symbols-write_slot (λ k f m e. refl)
        (λ k f. refl)

  symbols-fault_page : (k : Krnl) (pgn : ℕ) → (fault_page phy k pgn).0.mm.symrgtbl ≡ k.mm.symrgtbl
  unfolding fault_page
  symbols-fault_page k pgn = elim (Option-cases (phy.get_freefp k.mram)) [
    | inl e ↦ rw (e, fault_page) refl
    | inr ((f, m), e) ↦
        let k0 : Krnl = record k { mram = m } in
        elim (Bool-cases (is_zero (pte_set_fpn phy k0 pgn f).1)) [
          | inl z ↦ rw (e, fault_page, z) (symbols-pte_set_fpn k0 pgn f)
          | inr z ↦ rw (e, fault_page, z) (symbols-pte_set_fpn k0 pgn f)
        ]
  ]

  symbols-pg_getpage : (k : Krnl) (pgn : ℕ) → (pg_getpage phy k pgn).0.mm.symrgtbl ≡ k.mm.symrgtbl
  unfolding pg_getpage
  symbols-pg_getpage k pgn = elim (Bool-cases (leb paging_max_pgn pgn)) [
    | inl e ↦ rw (e, pg_getpage) refl
    | inr e ↦ elim (Bool-cases (present k pgn)) [
      | inl p ↦ rw (e, p, pg_getpage) refl
      | inr p ↦ rw (e, p, pg_getpage) (symbols-fault_page k pgn)
    ]
  ]

  -- Writing a byte moves no region.
  pub symbols-pg_setval :
      (k : Krnl) (addr v : ℕ) → (pg_setval phy k addr v).0.mm.symrgtbl ≡ k.mm.symrgtbl
  unfolding pg_setval
  symbols-pg_setval k addr v =
      go (pg_getpage phy k (page_of addr)) ∙ symbols-pg_getpage k (page_of addr)
    where
      go :
          (r : Krnl × Option ℕ)
          → (write_byte phy (addr % 2 ^ 32) v r).0.mm.symrgtbl ≡ r.0.mm.symrgtbl
      go (k', none) = unfold write_byte in refl
      go (k', some f) = unfold write_byte in refl

-- What page tables and frames are made of.
abbrev pub memory : Krnl → List ℕ × Memphy
memory k = (k.mm.pgd, k.mram)

module _ (phy : MemphyOps) where
  memory-inc_vma_limit :
      (k : Krnl) (vmaid size : ℕ) → memory (inc_vma_limit phy k vmaid size).0 ≡ memory k
  unfolding inc_vma_limit
  memory-inc_vma_limit k vmaid size = elim (Option-cases (get_vma_by_num k.mm vmaid)) [
    | inl e ↦ rw (e, inc_vma_limit) refl
    | inr (a, e) ↦ rw (e, inc_vma_limit, vm_map_ram-same) refl
  ]

  memory-place_raised :
      (vmaid rgid size : ℕ) (r : Krnl × ℤ) → memory (place_raised vmaid rgid size r).0 ≡ memory r.0
  unfolding place_raised place_region
  memory-place_raised vmaid rgid size (k, st) = elim (Bool-cases (is_zero st)) [
    | inl e ↦ elim (Option-cases (get_vma_by_num k.mm vmaid)) [
      | inl g ↦ rw (e, g) refl
      | inr (a, g) ↦ rw (e, g) refl
    ]
    | inr e ↦ rw e refl
  ]

  memory-alloc_in :
      (k : Krnl) (vmaid rgid size : ℕ) (a : Area)
      → memory (alloc_in phy k vmaid rgid size a).0 ≡ memory k
  unfolding alloc_in place_region
  memory-alloc_in k vmaid rgid size a = elim (Bool-cases (ltb a.vm_end ((a.sbrk + size) % word))) [
    | inl e ↦ rw e (
        memory-place_raised vmaid rgid size _
        ∙ memory-inc_vma_limit k vmaid (((a.sbrk + size) % word + word - a.sbrk) % word))
    | inr e ↦ rw e refl
  ]

  memory-alloc_region :
      (k : Krnl) (vmaid rgid size : ℕ) → memory (alloc_region phy k vmaid rgid size).0 ≡ memory k
  unfolding alloc_region
  memory-alloc_region k vmaid rgid size = elim (Bool-cases (leb paging_max_symtbl_sz rgid)) [
    | inl e ↦ rw e refl
    | inr e ↦ elim (Option-cases (get_vma_by_num k.mm vmaid)) [
      | inl g ↦ rw (e, g, alloc_region) refl
      | inr (a, g) ↦ elim (Bool-cases (unused (region k rgid))) [
        | inl u ↦ rw (e, g, alloc_region, u) (memory-alloc_in k vmaid rgid size a)
        | inr u ↦ rw (e, g, alloc_region, u) refl
      ]
    ]
  ]

  pub memory-Pages : (o : Owner) (k l : Krnl) → memory k ≡ memory l → Pages o l → Pages o k
  memory-Pages o k l e s =
      let pgd = ap (λ (x : List ℕ × Memphy). x.0) e in
      let ram = ap (λ (x : List ℕ × Memphy). x.1) e in
      let storage = ap (λ (m : Memphy). m.storage) ram in
      let maxsz = ap (λ (m : Memphy). m.maxsz) ram in
      let g = get_same k l pgd storage maxsz in
      record {
        tree = Tree-same k l pgd storage maxsz o (ap (λ (m : Memphy). m.free_fp_list) ram) s.tree;
        random = rw ram s.random;
        data_frame = λ p h c. rw (g p, ram) (s.data_frame p h (rw (g p) at c));
        apart =
            λ p q hp hq n b c. rw (g p, g q) (s.apart p q hp hq n (rw (g p) at b) (rw (g q) at c));
      }

  -- Allocating a region leaves the pages and their frames as they are.
  pub alloc_region-Pages :
      (o : Owner) (k : Krnl) (vmaid rgid size : ℕ)
      → Pages o k
      → Pages o (alloc_region phy k vmaid rgid size).0
  alloc_region-Pages o k vmaid rgid size =
      memory-Pages o (alloc_region phy k vmaid rgid size).0 k
        (memory-alloc_region k vmaid rgid size)
