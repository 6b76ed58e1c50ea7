-- ===== src/Libmem.antt =====
-- src/libmem.c: the regions of a process, its pages and its bytes, and `pgalloc` and `pgfree` of
-- src/mm-vm.c, which call it. A region identifier is an `int` that is not negative; the messages and
-- the dump under IODUMP are not modelled. Each function is one critical section.
pub mod Regions
pub mod Pages
pub mod Bytes
pub mod Symbols
pub mod Access
pub mod Release
use simple_operating_system.Common.{
  ℕ, zero, suc, ◌+◌, ◌-◌, ◌*◌, ◌%◌, ◌^◌, Bool, true, false, ◌&&◌, ◌||◌, not, Option, none, some,
  List, [], ◌∷◌, ◌==◌, ltb, leb, if◌then◌else◌, ℤ, is_zero, success, failure, get_or, set,
}
use simple_operating_system.Mm.{
  Mm, Krnl, Memphy, Region, Area, no_region, paging_pagesz, paging_max_pgn, paging_max_symtbl_sz,
  word,
}
use simple_operating_system.Phy.{MemphyOps}
use simple_operating_system.Pte.{pte_present, pte_fpn}
use simple_operating_system.Pte.Address.{paging_pgn, paging_offst}
use simple_operating_system.Paging.{pte_get_entry, pte_set_fpn}
use simple_operating_system.Vm.{get_vma_by_num, set_vma, inc_vma_limit}

-- `mm->mmap` is not NULL.
unfoldable pub enlist_vm_freerg_list : Area → Region → Option Area
enlist_vm_freerg_list a rg_elmt =
    if leb rg_elmt.rg_end rg_elmt.rg_start
    then none
    else some (record a { vm_freerg_list = rg_elmt ∷ a.vm_freerg_list })

unfoldable pub get_symrg_byid : Mm → (rgid : ℕ) → Option Region
get_symrg_byid mm rgid =
    if leb paging_max_symtbl_sz rgid then none else some (get_or mm.symrgtbl rgid no_region)

-- The region of an identifier, and a write to it.
abbrev pub region : Krnl → ℕ → Region
region k rgid = get_or k.mm.symrgtbl rgid no_region

abbrev pub set_region : Krnl → ℕ → Region → Krnl
set_region k rgid r = record k { mm = record k.mm { symrgtbl = set k.mm.symrgtbl rgid r } }

-- A region that is not allocated.
abbrev pub unused : Region → Bool
unused r = (r.rg_start == 0) && (r.rg_end == 0)

-- The end of `__alloc`: the region begins at `sbrk`, or at the second page if that is 0.
unfoldable pub place_region : Krnl → (vmaid rgid size : ℕ) → Area → Krnl × Option ℕ
place_region k vmaid rgid size a =
    let start : ℕ = if a.sbrk == 0 then paging_pagesz else a.sbrk in
    let end = (start + size) % word in
    (
      set_vma (set_region k rgid (record { rg_start = start; rg_end = end })) vmaid
          (record a { sbrk = end }),
      some start,
    )

-- The same after an attempt to raise the limit, by its status.
unfoldable pub place_raised : (vmaid rgid size : ℕ) → Krnl × ℤ → Krnl × Option ℕ
place_raised vmaid rgid size (k, status) =
    if is_zero status
    then elim (get_vma_by_num k.mm vmaid) [
      | none ↦ (k, none)
      | some a ↦ place_region k vmaid rgid size a
    ]
    else (k, none)

-- The first region with room for `size` is cut at its start.
unfoldable pub cut_region : (size : ℕ) → List Region → Option (Region × List Region)
cut_region size [] = none
cut_region size (r ∷ rs) =
    let rest : Option (Region × List Region) = elim (cut_region size rs) [
      | none ↦ none
      | some (g, rs') ↦ some (g, r ∷ rs')
    ] in
    let end = (r.rg_start + size) % word in
    if leb end r.rg_end
    then some (
      record { rg_start = r.rg_start; rg_end = end },
      (if ltb end r.rg_end
          then record r { rg_start = end } ∷ rs
          else elim rs [ [] ↦ record r { rg_start = r.rg_end } ∷ [] | next ∷ rs' ↦ next ∷ rs' ]),
    )
    else rest

-- `none` is the status -1.
unfoldable pub get_free_vmrg_area : Krnl → (vmaid size : ℕ) → Option (Region × Krnl)
get_free_vmrg_area k vmaid size = elim (get_vma_by_num k.mm vmaid) [
  | none ↦ none
  | some a ↦ elim (cut_region size a.vm_freerg_list) [
    | none ↦ none
    | some (g, rs) ↦ some (g, set_vma k vmaid (record a { vm_freerg_list = rs }))
  ]
]

-- The page at the head of the list.
unfoldable pub find_victim_page : Mm → Option (ℕ × Mm)
find_victim_page mm = elim mm.fifo_pgn [
  | [] ↦ none
  | pgn ∷ rest ↦ some (pgn, record mm { fifo_pgn = rest })
]

unfoldable pub free_region : Krnl → (rgid : ℕ) → Krnl × ℤ
free_region k rgid =
    if leb paging_max_symtbl_sz rgid
    then (k, failure)
    else if unused (region k rgid) || leb (region k rgid).rg_end (region k rgid).rg_start
    then (k, failure)
    else (set_region k rgid no_region, success)

-- `pgfree` of src/mm-vm.c.
unfoldable pub pgfree : Krnl → (reg_index : ℕ) → Krnl × ℤ
pgfree k reg_index = free_region k reg_index

module _ (phy : MemphyOps) where
  -- The second part of `__alloc`, with the area at hand.
  unfoldable pub alloc_in : Krnl → (vmaid rgid size : ℕ) → Area → Krnl × Option ℕ
  alloc_in k vmaid rgid size a =
      let end = (a.sbrk + size) % word in
      if ltb a.vm_end end
      then place_raised vmaid rgid size (inc_vma_limit phy k vmaid ((end + word - a.sbrk) % word))
      else place_region k vmaid rgid size a

  -- `__alloc`: the address of the new region, or `none` for the status -1.
  unfoldable pub alloc_region : Krnl → (vmaid rgid size : ℕ) → Krnl × Option ℕ
  alloc_region k vmaid rgid size =
      if leb paging_max_symtbl_sz rgid then (k, none) else elim (get_vma_by_num k.mm vmaid) [
        | none ↦ (k, none)
        | some a ↦ if unused (region k rgid) then alloc_in k vmaid rgid size a else (k, none)
      ]

  -- `pgalloc` of src/mm-vm.c.
  unfoldable pub pgalloc : Krnl → (size reg_index : ℕ) → Krnl × Option ℕ
  pgalloc k size reg_index = alloc_region k 0 reg_index size

  -- A page that is not present gets a frame, and joins the list of pages to replace.
  unfoldable pub fault_page : Krnl → (pgn : ℕ) → Krnl × Option ℕ
  fault_page k pgn = elim (phy.get_freefp k.mram) [
    | none ↦ (k, none)
    | some (new_fpn, mram) ↦
        let (k', status) = pte_set_fpn phy (record k { mram = mram }) pgn new_fpn in
        if is_zero status
        then (record k' { mm = record k'.mm { fifo_pgn = pgn ∷ k'.mm.fifo_pgn } }, some new_fpn)
        else (record k' { mram = phy.put_freefp k'.mram new_fpn }, none)
  ]

  -- The frame of a page; `none` is the status -1.
  unfoldable pub pg_getpage : Krnl → (pgn : ℕ) → Krnl × Option ℕ
  pg_getpage k pgn =
      let pte = pte_get_entry k pgn in
      if leb paging_max_pgn pgn
      then (k, none)
      else if pte_present pte
      then (k, some (pte_fpn pte))
      else fault_page k pgn

  abbrev pub phyaddr : (fpn addr : ℕ) → ℕ
  phyaddr fpn addr = fpn * paging_pagesz + paging_offst addr

  -- The rest of `pg_getval` and of `pg_setval`, with the frame of the page; `none` is the status -1.
  unfoldable pub read_byte : (a : ℕ) → Krnl × Option ℕ → Krnl × Option ℕ
  read_byte a (k, none) = (k, none)
  read_byte a (k, some fpn) =
      let r = phy.read k.mram (phyaddr fpn a) in (record k { mram = r.1 }, r.0)

  unfoldable pub write_byte : (a value : ℕ) → Krnl × Option ℕ → Krnl × ℤ
  write_byte a value (k, none) = (k, failure)
  write_byte a value (k, some fpn) =
      let r = phy.write k.mram (phyaddr fpn a) value in
      (record k { mram = r.1 }, if r.0 then success else failure)

  -- An address is taken as an `int`.
  unfoldable pub pg_getval : Krnl → (addr : ℕ) → Krnl × Option ℕ
  pg_getval k addr = read_byte (addr % 2 ^ 32) (pg_getpage k (paging_pgn (addr % 2 ^ 32)))

  unfoldable pub pg_setval : Krnl → (addr value : ℕ) → Krnl × ℤ
  pg_setval k addr value =
      write_byte (addr % 2 ^ 32) value (pg_getpage k (paging_pgn (addr % 2 ^ 32)))

  -- The checks of `__read` and `__write` on the region, once it is allocated, and the address.
  unfoldable pub address_after : (rgid offset : ℕ) → Krnl × Option ℕ → Krnl × Option ℕ
  address_after rgid offset (k, none) = (k, none)
  address_after rgid offset (k, some start) =
      let r = region k rgid in
      if leb r.rg_end r.rg_start || leb (r.rg_end - r.rg_start) offset
      then (k, none)
      else (k, some ((r.rg_start + offset) % word))

  -- What `__read` and `__write` do first: a region that is not allocated is given 100 bytes, and
  -- the offset is checked. The result is the address, or `none` for the status -1.
  unfoldable pub region_address : Krnl → (vmaid rgid offset : ℕ) → Krnl × Option ℕ
  region_address k vmaid rgid offset =
      if leb paging_max_symtbl_sz rgid
      then (k, none)
      else address_after rgid offset (
          if unused (region k rgid)
          then alloc_region k vmaid rgid 100
          else (k, some (region k rgid).rg_start))

  unfoldable pub read_at : Krnl × Option ℕ → Krnl × Option ℕ
  read_at (k, none) = (k, none)
  read_at (k, some addr) = pg_getval k addr

  unfoldable pub write_at : (value : ℕ) → Krnl × Option ℕ → Krnl × ℤ
  write_at value (k, none) = (k, failure)
  write_at value (k, some addr) = pg_setval k addr value

  -- `__read` and `__write`.
  unfoldable pub read_region : Krnl → (vmaid rgid offset : ℕ) → Krnl × Option ℕ
  read_region k vmaid rgid offset = read_at (region_address k vmaid rgid offset)

  unfoldable pub write_region : Krnl → (vmaid rgid offset value : ℕ) → Krnl × ℤ
  write_region k vmaid rgid offset value = write_at value (region_address k vmaid rgid offset)
