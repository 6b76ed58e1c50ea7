-- ===== src/Mm.antt =====
-- The data of include/os-mm.h: regions, areas, the memory of a process, and physical devices. A
-- linked list is a list. An `addr_t` is a number below 2 ^ 64, a `BYTE` its bit pattern below 256.
use simple_operating_system.Common.{ℕ, List, ◌^◌}

-- struct vm_rg_struct.
pub record Region : Type 0 where
  pub rg_start : ℕ
  pub rg_end : ℕ

-- A symbol that is not in use.
abbrev pub no_region : Region
no_region = record { rg_start = 0; rg_end = 0 }

-- struct vm_area_struct; `vm_next` is the rest of the list, and `vm_mm` its owner.
pub record Area : Type 0 where
  pub vm_id : ℕ
  pub vm_start : ℕ
  pub vm_end : ℕ
  pub sbrk : ℕ
  pub vm_freerg_list : List Region

-- struct mm_struct. The arrays p4d, pud, pmd and pt are allocated and never read by the walks.
pub record Mm : Type 0 where
  pub pgd : List ℕ
  pub p4d : List ℕ
  pub pud : List ℕ
  pub pmd : List ℕ
  pub pt : List ℕ
  pub mmap : List Area
  pub symrgtbl : List Region
  pub fifo_pgn : List ℕ

-- struct memphy_struct; `storage` is indexed by byte, the frame lists hold frame numbers.
pub record Memphy : Type 0 where
  pub storage : ℕ → ℕ
  pub maxsz : ℕ
  pub rdmflg : ℕ
  pub cursor : ℕ
  pub free_fp_list : List ℕ
  pub used_fp_list : List ℕ

-- What a process reaches through `krnl`: its own memory map, the RAM that all share, and the
-- active swap device.
pub record Krnl : Type 0 where
  pub mm : Mm
  pub mram : Memphy
  pub active_mswp : Memphy

-- The constants of include/mm.h, include/mm64.h and include/os-mm.h.
abbrev pub paging_pagesz : ℕ
paging_pagesz = 4096

abbrev pub paging_max_pgn : ℕ
paging_max_pgn = 1024

abbrev pub paging_max_symtbl_sz : ℕ
paging_max_symtbl_sz = 30

abbrev pub table_entries : ℕ
table_entries = 512

abbrev pub word : ℕ
word = 2 ^ 64
