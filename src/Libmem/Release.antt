-- ===== src/Libmem/Release.antt =====
-- `__free` of src/libmem.c.
use simple_operating_system.Common.{
  ℕ, ◌+◌, ◌≤◌, ◌<◌, ◌≡◌, inl, inr, refl, ap, ◌∙◌, true, false, ◌&&◌, ◌||◌, ltb, leb, if◌then◌else◌,
  ℤ, success, failure, arith, Bool-cases, length, length-set, get_or-set_self, leb→lt,
}
use simple_operating_system.Mm.{Krnl, Region, no_region, paging_max_symtbl_sz, word}
use simple_operating_system.Phy.{MemphyOps}
use simple_operating_system.Libmem.{region, set_region, unused, free_region, alloc_region}
use simple_operating_system.Libmem.Regions.{
  Layout, can_alloc, set-Placed, set-Apart, after_alloc, alloc_region-cases,
}

-- Freeing succeeds exactly for an identifier of the table whose region is not empty. It marks the
-- region as not allocated; otherwise nothing changes.
pub free_region-cases :
    (k : Krnl) (rgid : ℕ)
    → free_region k rgid ≡ (
        if ltb rgid paging_max_symtbl_sz && ltb (region k rgid).rg_start (region k rgid).rg_end
        then (set_region k rgid no_region, success)
        else (k, failure))
unfolding free_region
free_region-cases k rgid = ground arith

free_used :
    (k : Krnl) (rgid : ℕ)
    → rgid < paging_max_symtbl_sz
    → (region k rgid).rg_start < (region k rgid).rg_end
    → free_region k rgid ≡ (set_region k rgid no_region, success)
free_used k rgid h l = free_region-cases k rgid ∙ ground arith

free_empty :
    (k : Krnl) (rgid : ℕ)
    → (region k rgid).rg_end ≤ (region k rgid).rg_start
    → free_region k rgid ≡ (k, failure)
free_empty k rgid h = free_region-cases k rgid ∙ ground arith

reusable :
    (k : Krnl) (rgid : ℕ)
    → rgid < paging_max_symtbl_sz
    → rgid < length k.mm.symrgtbl
    → can_alloc (set_region k rgid no_region) rgid ≡ true
reusable k rgid h b = ground (arith, get_or-set_self k.mm.symrgtbl rgid no_region no_region b)

module _ {k : Krnl} (l : Layout k) (rgid : ℕ) where
  freed-Layout : rgid < paging_max_symtbl_sz → Layout (set_region k rgid no_region)
  freed-Layout fits = record {
    area = l.area;
    rest = l.rest;
    first = l.first;
    low = l.low;
    limit = l.limit;
    word_sized = l.word_sized;
    symbols = length-set k.mm.symrgtbl rgid no_region ∙ l.symbols;
    placed = set-Placed k l rgid fits no_region l.area.sbrk (omega arith) (inl refl);
    apart = set-Apart k l rgid fits no_region l.area.sbrk (λ i. inr (inl refl));
  }

  -- Freeing keeps the layout.
  pub free_region-Layout : Layout (free_region k rgid).0
  unfolding free_region
  free_region-Layout = elim (Bool-cases (leb paging_max_symtbl_sz rgid)) [
    | inl e ↦ rw e l
    | inr e ↦
        elim (Bool-cases
          (unused (region k rgid) || leb (region k rgid).rg_end (region k rgid).rg_start)) [
            | inl f ↦ rw (e, f) l
            | inr f ↦ rw (e, f) (freed-Layout (leb→lt paging_max_symtbl_sz rgid e))
          ]
  ]

module _ (phy : MemphyOps) {k : Krnl} (l : Layout k) (rgid size : ℕ)
    (room : l.area.vm_end + size + 4095 < word) (free : can_alloc k rgid ≡ true) where
  abbrev k' : Krnl
  k' = after_alloc k l.area l.rest rgid size

  allocated : (alloc_region phy k 0 rgid size).0 ≡ k'
  allocated = rw (alloc_region-cases phy l rgid size room, free)

  fits : rgid < paging_max_symtbl_sz
  fits = ground arith

  its_region : region k' rgid ≡ record { rg_start = l.area.sbrk; rg_end = l.area.sbrk + size }
  its_region = get_or-set_self k.mm.symrgtbl rgid _ no_region (omega (arith, l.symbols, fits))

  starts : (region k' rgid).rg_start ≡ l.area.sbrk
  starts = ap (λ (r : Region). r.rg_start) its_region

  ends : (region k' rgid).rg_end ≡ l.area.sbrk + size
  ends = ap (λ (r : Region). r.rg_end) its_region

  in_table : rgid < length k'.mm.symrgtbl
  in_table = omega (
    arith,
    fits,
    l.symbols,
    length-set k.mm.symrgtbl rgid (record { rg_start = l.area.sbrk; rg_end = l.area.sbrk + size }),
  )

  -- A region of at least one byte that has been allocated can be freed, and then its identifier can
  -- be allocated again.
  pub alloc-free :
      0 < size
      → ((free_region (alloc_region phy k 0 rgid size).0 rgid).1 ≡ success)
        × (can_alloc (free_region (alloc_region phy k 0 rgid size).0 rgid).0 rgid ≡ true)
  alloc-free h = rw allocated (
    ap (λ (r : Krnl × ℤ). r.1) freed,
    ap (λ (r : Krnl × ℤ). can_alloc r.0 rgid) freed ∙ reusable k' rgid fits in_table,
  )
    where
      freed : free_region k' rgid ≡ (set_region k' rgid no_region, success)
      freed = free_used k' rgid fits (omega (arith, starts, ends))

  -- A region of no bytes can be allocated but not freed, and its identifier is lost.
  pub alloc_zero-stuck :
      size ≡ 0
      → (free_region (alloc_region phy k 0 rgid size).0 rgid
          ≡ ((alloc_region phy k 0 rgid size).0, failure))
        × (can_alloc (alloc_region phy k 0 rgid size).0 rgid ≡ false)
  alloc_zero-stuck h =
      rw allocated
        (free_empty k' rgid (omega (arith, starts, ends)), ground (arith, starts, ends, l.low))
