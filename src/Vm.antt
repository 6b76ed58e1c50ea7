-- ===== src/Vm.antt =====
-- src/mm-vm.c: areas and their limits. The pointers that the functions test for NULL are never NULL
-- for a loaded process. `vmaid` is an `int` that is not negative.
pub mod Limits
use simple_operating_system.Common.{
  ℕ, suc, ◌+◌, ◌-◌, ◌/◌, ◌%◌, Bool, true, false, ◌&&◌, not, Option, none, some, List, [], ◌∷◌, ◌==◌,
  ltb, leb, if◌then◌else◌, ℤ, success, failure, get_elem?, set, bit_and,
}
use simple_operating_system.Mm.{Mm, Krnl, Region, Area, paging_pagesz, word}
use simple_operating_system.Phy.{MemphyOps}
use simple_operating_system.Vmap.{vm_map_ram, swap_cp_page, int_rounds}

unfoldable pub get_vma_by_num : Mm → (vmaid : ℕ) → Option Area
get_vma_by_num mm vmaid = get_elem? mm.mmap vmaid

-- The fields of area `vmaid` are written through its pointer.
abbrev pub set_vma : Krnl → (vmaid : ℕ) → Area → Krnl
set_vma k vmaid a = record k { mm = record k.mm { mmap = set k.mm.mmap vmaid a } }

unfoldable pub get_vm_area_node_at_brk : Krnl → (vmaid size alignedsz : ℕ) → Option Region
get_vm_area_node_at_brk k vmaid size alignedsz = elim (get_vma_by_num k.mm vmaid) [
  | none ↦ none
  | some a ↦
      if ltb a.vm_end ((a.sbrk + size) % word)
      then none
      else some (record { rg_start = a.sbrk; rg_end = (a.sbrk + size) % word })
]

-- OVERLAP of include/mm.h.
abbrev pub overlap : (x1 x2 y1 y2 : ℕ) → Bool
overlap x1 x2 y1 y2 = false

-- The loop over the areas, from index i on; an area is not compared with itself.
unfoldable pub overlaps_any : (i vmaid : ℕ) → Area → List Area → Bool
overlaps_any i vmaid cur [] = false
overlaps_any i vmaid cur (a ∷ as') =
    let rest = overlaps_any (suc i) vmaid cur as' in
    if not (i == vmaid) && overlap cur.vm_start cur.vm_end a.vm_start a.vm_end then true else rest

unfoldable pub validate_overlap_vm_area : Krnl → (vmaid vmastart vmaend : ℕ) → ℤ
unfolding overlaps_any
validate_overlap_vm_area k vmaid vmastart vmaend =
    if leb vmaend vmastart then failure else elim (get_vma_by_num k.mm vmaid) [
      | none ↦ failure
      | some cur ↦ if overlaps_any 0 vmaid cur k.mm.mmap then failure else success
    ]

-- (inc_sz + PAGING_PAGESZ - 1) & ~(PAGING_PAGESZ - 1), on 64 bits.
unfoldable pub align_up : ℕ → ℕ
align_up inc_sz = bit_and ((inc_sz + (paging_pagesz - 1)) % word) (word - paging_pagesz)

module _ (phy : MemphyOps) where
  -- The status of `vm_map_ram` is unsigned, so it is never negative.
  unfoldable pub inc_vma_limit : Krnl → (vmaid inc_sz : ℕ) → Krnl × ℤ
  inc_vma_limit k vmaid inc_sz = elim (get_vma_by_num k.mm vmaid) [
    | none ↦ (k, failure)
    | some a ↦
        let new_limit = (a.vm_end + align_up inc_sz) % word in
        let (k', _, _) =
          vm_map_ram phy k a.vm_end new_limit a.vm_end
            (int_rounds (align_up inc_sz / paging_pagesz)) in
        (set_vma k' vmaid (record a { vm_end = new_limit }), success)
  ]

  unfoldable pub mm_swap_page : (stale : ℕ) → Krnl → (vicfpn swpfpn : ℕ) → Krnl × ℤ
  mm_swap_page stale k vicfpn swpfpn =
      let (src, dst, status) = swap_cp_page phy stale k.mram vicfpn k.active_mswp swpfpn in
      (record k { mram = src; active_mswp = dst }, status)
