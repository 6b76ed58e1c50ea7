-- ===== src/Vmap.antt =====
-- The other functions of src/mm64.c: mapping ranges of pages, taking frames, copying a page to swap,
-- and the start of a memory map. A failure of `malloc` and `calloc` is not modelled. A C `int` that
-- counts rounds is its value, and 0 if it is negative.
pub mod Frames
use simple_operating_system.Common.{
  ℕ, zero, suc, ◌+◌, ◌*◌, ◌%◌, ◌^◌, Option, none, some, List, [], ◌∷◌, ◌==◌, ltb, leb,
  if◌then◌else◌, ℤ, success, length, replicate, bit_and,
}
use simple_operating_system.Mm.{
  Mm, Memphy, Krnl, Region, Area, no_region, paging_pagesz, paging_max_symtbl_sz, table_entries,
  word,
}
use simple_operating_system.Phy.{MemphyOps}
use simple_operating_system.Pte.Address.{paging_pgn}
use simple_operating_system.Paging.{pte_set_fpn}

-- The number of rounds that an `addr_t` gives when it is converted to `int`.
abbrev pub int_rounds : ℕ → ℕ
int_rounds a = let w = a % 2 ^ 32 in if ltb w (2 ^ 31) then w else 0

-- The newest page stands first.
unfoldable pub enlist_pgn_node : List ℕ → ℕ → List ℕ
enlist_pgn_node plist pgn = pgn ∷ plist

unfoldable pub init_vm_rg : ℕ → ℕ → Region
init_vm_rg rg_start rg_end = record { rg_start = rg_start; rg_end = rg_end }

unfoldable pub enlist_vm_rg_node : List Region → Region → List Region
enlist_vm_rg_node rglist rgnode = rgnode ∷ rglist

-- The page at `addr + pgit * PAGING_PAGESZ`.
abbrev pub page_at : (addr pgit : ℕ) → ℕ
page_at addr pgit = paging_pgn ((addr + pgit * paging_pagesz) % word)

abbrev pub enlist_fifo : Krnl → ℕ → Krnl
enlist_fifo k pgn = record k { mm = record k.mm { fifo_pgn = enlist_pgn_node k.mm.fifo_pgn pgn } }

-- `stale` is what `malloc` left in `vm_freerg_list`, which is linked behind the first region.
unfoldable pub init_area : (stale : List Region) → Area
unfolding init_vm_rg enlist_vm_rg_node
init_area stale = record {
  vm_id = 0;
  vm_start = 0;
  vm_end = 0x10_0000;
  sbrk = paging_pagesz;
  vm_freerg_list = enlist_vm_rg_node stale (init_vm_rg 0 0x10_0000);
}

unfoldable pub init_mm : (stale : List Region) → Mm
unfolding init_area
init_mm stale = record {
  pgd = replicate table_entries 0;
  p4d = replicate table_entries 0;
  pud = replicate table_entries 0;
  pmd = replicate table_entries 0;
  pt = replicate table_entries 0;
  mmap = init_area stale ∷ [];
  symrgtbl = replicate paging_max_symtbl_sz no_region;
  fifo_pgn = [];
}

-- Whether the frame's address can be taken.
unfoldable pub fpn_to_ptr : Memphy → (fpn : ℕ) → Option ℕ
fpn_to_ptr mp fpn = if leb mp.maxsz (fpn * paging_pagesz) then none else some (fpn * paging_pagesz)

module _ (phy : MemphyOps) where
  -- n rounds from `pgit` on; a status that is not 0 is not looked at.
  unfoldable pub memset_rounds : (n pgit addr : ℕ) → Krnl → Krnl
  memset_rounds zero pgit addr k = k
  memset_rounds (suc n) pgit addr k =
      let (k', _) =
        pte_set_fpn phy k (page_at addr pgit) (bit_and ((0xdead_beef + pgit) % word) 0xf_ffff) in
      memset_rounds n (suc pgit) addr k'

  unfoldable pub vmap_pgd_memset : Krnl → (addr pgnum : ℕ) → Krnl × ℤ
  vmap_pgd_memset k addr pgnum = (memset_rounds pgnum 0 addr k, success)

  -- The rounds end with the frames, or with `pgnum`.
  unfoldable pub range_rounds : (n pgit addr : ℕ) → (frames : List ℕ) → Krnl → Krnl
  range_rounds zero pgit addr frames k = k
  range_rounds (suc n) pgit addr [] k = k
  range_rounds (suc n) pgit addr (fpn ∷ frames) k =
      let (k', _) = pte_set_fpn phy k (page_at addr pgit) fpn in
      range_rounds n (suc pgit) addr frames (enlist_fifo k' (page_at addr pgit))

  -- Also gives the mapped region.
  unfoldable pub vmap_page_range : Krnl → (addr pgnum : ℕ) → (frames : List ℕ) → Krnl × Region × ℕ
  vmap_page_range k addr pgnum frames = (
    range_rounds pgnum 0 addr frames k,
    record { rg_start = addr; rg_end = (addr + pgnum * paging_pagesz) % word },
    0,
  )

  -- The frames, oldest first.
  unfoldable pub take_frames : (n : ℕ) → Memphy → List ℕ × Memphy
  take_frames zero m = ([], m)
  take_frames (suc n) m = elim (phy.get_freefp m) [
    | none ↦ ([], m)
    | some (fpn, m') ↦ let (fs, m'') = take_frames n m' in (fpn ∷ fs, m'')
  ]

  unfoldable pub alloc_pages_range : Krnl → (req_pgnum : ℕ) → Krnl × List ℕ × ℕ
  unfolding take_frames
  alloc_pages_range k req_pgnum =
      let (fs, m) = take_frames req_pgnum k.mram in
      (record k { mram = m }, fs, if length fs == req_pgnum then 0 else length fs)

  -- `ret_alloc` is 0, so both early returns are dead; the list of frames is empty.
  unfoldable pub vm_map_ram : Krnl → (astart aend mapstart incpgnum : ℕ) → Krnl × Region × ℕ
  vm_map_ram k astart aend mapstart incpgnum =
      let (k', rg, _) = vmap_page_range k mapstart incpgnum [] in (k', rg, 0)

  -- The two devices are different. `stale` is what a byte holds whose read failed.
  unfoldable pub copy_cells :
      (stale srcfpn dstfpn n cellidx : ℕ) → Memphy × Memphy → Memphy × Memphy
  copy_cells stale srcfpn dstfpn zero cellidx d = d
  copy_cells stale srcfpn dstfpn (suc n) cellidx (src, dst) =
      let (o, src') = phy.read src ((srcfpn * paging_pagesz + cellidx) % word) in
      let byte : ℕ = elim o [ none ↦ stale | some b ↦ b ] in
      let (_, dst') = phy.write dst ((dstfpn * paging_pagesz + cellidx) % word) byte in
      copy_cells stale srcfpn dstfpn n (suc cellidx) (src', dst')

  unfoldable pub swap_cp_page :
      (stale : ℕ) → Memphy → (srcfpn : ℕ) → Memphy → (dstfpn : ℕ) → Memphy × Memphy × ℤ
  swap_cp_page stale mpsrc srcfpn mpdst dstfpn =
      let (src, dst) = copy_cells stale srcfpn dstfpn paging_pagesz 0 (mpsrc, mpdst) in
      (src, dst, success)
