-- ===== src/Tests/Frames.antt =====
-- Frames taken from a device with eight free ones, and a page copied between two devices.
use simple_operating_system.Common.{
  ℕ, ◌+◌, ◌-◌, ◌*◌, ◌≡◌, List, ◌++◌, leb, if◌then◌else◌, arith, length, ℤ, success,
}
use simple_operating_system.Mm.{Memphy, Krnl, paging_pagesz}
use simple_operating_system.Vmap.{alloc_pages_range, swap_cp_page}
use simple_operating_system.Vmap.Frames.{
  lesser, inside, alloc_pages_range_prefix, swap_cp_page_copy,
}
use simple_operating_system.Tests.Device.{device, device-MemphyLaws, ram, started}

-- Ten frames are asked for.
abbrev ten : Krnl × List ℕ × ℕ
ten = alloc_pages_range device started 10

alloc_pages_range_prefix_example :
    (started.mram.free_fp_list ≡ ten.1 ++ ten.0.mram.free_fp_list)
    × (length ten.1 ≡ lesser 10 (length started.mram.free_fp_list))
    × (ten.2 ≡ (
        if leb 10 (length started.mram.free_fp_list) then 0 else length started.mram.free_fp_list))
alloc_pages_range_prefix_example = alloc_pages_range_prefix device device-MemphyLaws started 10

-- A device whose bytes are not 0.
abbrev swap : Memphy
swap = record ram { storage = λ a. 255 }

-- Page 2 of the RAM copied over page 3 of the other.
abbrev copied : Memphy × Memphy × ℤ
copied = swap_cp_page device 0 ram 2 swap 3

swap_cp_page_copy_example :
    (copied.2 ≡ success)
    × (copied.0 ≡ ram)
    × (copied.1.storage 12300 ≡ (
        if inside (3 * paging_pagesz) paging_pagesz 12300
        then ram.storage (2 * paging_pagesz + (12300 - 3 * paging_pagesz))
        else swap.storage 12300))
swap_cp_page_copy_example =
    swap_cp_page_copy device device-MemphyLaws 0 2 3 ram swap 12300 (λ e. omega (arith, e))
      (λ e. omega (arith, e)) (omega arith) (omega arith) (omega arith) (omega arith)
