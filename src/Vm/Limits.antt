-- ===== src/Vm/Limits.antt =====
-- `inc_vma_limit` of src/mm-vm.c moves the end of an area and maps nothing.
use simple_operating_system.Common.{
  ℕ, zero, suc, ◌+◌, ◌*◌, ◌/◌, ◌%◌, ◌<◌, ◌≡◌, refl, some, [], success, arith,
}
use simple_operating_system.Common.Bits.{bit_and-field}
use simple_operating_system.Mm.{Krnl, Area, word}
use simple_operating_system.Phy.{MemphyOps}
use simple_operating_system.Vmap.{vm_map_ram, vmap_page_range, range_rounds}
use simple_operating_system.Vm.{get_vma_by_num, set_vma, align_up, inc_vma_limit}

-- Sizes are rounded up to whole pages.
pub align_up-pages : (n : ℕ) → n + 4095 < word → align_up n ≡ (n + 4095) / 4096 * 4096
unfolding align_up
align_up-pages n h = omega (arith, bit_and-field 52 12 ((n + 4095) % word))

module _ (phy : MemphyOps) (k : Krnl) where
  range_rounds-nil : (n pgit addr : ℕ) → range_rounds phy n pgit addr [] k ≡ k
  unfolding range_rounds
  range_rounds-nil zero pgit addr = refl
  range_rounds-nil (suc n) pgit addr = refl

  pub vm_map_ram-same : (a b c n : ℕ) → (vm_map_ram phy k a b c n).0 ≡ k
  unfolding vm_map_ram vmap_page_range
  vm_map_ram-same a b c n = range_rounds-nil n 0 c

  -- Raising the limit of an area always succeeds and sets the new end of that area, the old one plus
  -- the size in whole pages. It maps no page and takes no frame: nothing else changes.
  pub inc_vma_limit-area :
      (vmaid inc_sz : ℕ) (a : Area)
      → get_vma_by_num k.mm vmaid ≡ some a
      → inc_sz + 4095 < word
      → inc_vma_limit phy k vmaid inc_sz ≡ (
        set_vma k vmaid (record a { vm_end = (a.vm_end + (inc_sz + 4095) / 4096 * 4096) % word }),
        success,
      )
  unfolding inc_vma_limit
  inc_vma_limit-area vmaid inc_sz a e h =
      rw (e, inc_vma_limit, vm_map_ram-same, align_up-pages inc_sz h)
