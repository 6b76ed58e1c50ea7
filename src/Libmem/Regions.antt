-- ===== src/Libmem/Regions.antt =====
-- The layout of the regions of a process, and that allocation and release in src/libmem.c keep it.
use simple_operating_system.Common.{
  ℕ, ◌+◌, ◌-◌, ◌*◌, ◌/◌, ◌%◌, ◌≤◌, ◌<◌, ◌≡◌, ◌≢◌, ◌⊎◌, inl, inr, refl, sym, ap, subst, ◌∙◌, Bool,
  true, false, ◌&&◌, not, Option, none, some, List, ◌∷◌, ◌==◌, ltb, leb, if◌then◌else◌, success,
  get_or, get_elem?, set, arith, Bool-cases, length, length-set, get_or-set_self, get_or-set_ne,
  leb→lt, lt→leb,
}
use native.Mathlib.Decide.{ℕ_discrete}
use simple_operating_system.Mm.{
  Krnl, Region, Area, no_region, paging_pagesz, paging_max_symtbl_sz, word,
}
use simple_operating_system.Phy.{MemphyOps}
use simple_operating_system.Vm.{get_vma_by_num, set_vma, inc_vma_limit}
use simple_operating_system.Vm.Limits.{inc_vma_limit-area}
use simple_operating_system.Libmem.{
  region, unused, place_region, alloc_in, place_raised, alloc_region,
}

-- A region is unused, or lies above the first page and below the break.
abbrev pub Placed : ℕ → Region → Type 0
Placed brk r =
    (unused r ≡ true) ⊎ ((paging_pagesz ≤ r.rg_start) × (r.rg_start ≤ r.rg_end) × (r.rg_end ≤ brk))

-- One of the two ends before the other begins.
abbrev pub Apart : Region → Region → Type 0
Apart r s =
    (unused r ≡ true) ⊎ ((unused s ≡ true) ⊎ ((r.rg_end ≤ s.rg_start) ⊎ (s.rg_end ≤ r.rg_start)))

-- The regions lie below the break of the first area, within its limit, and do not overlap.
pub record Layout (k : Krnl) : Type 0 where
  pub area : Area
  pub rest : List Area
  pub first : k.mm.mmap ≡ area ∷ rest
  pub low : paging_pagesz ≤ area.sbrk
  pub limit : area.sbrk ≤ area.vm_end
  pub word_sized : area.vm_end < word
  pub symbols : length k.mm.symrgtbl ≡ paging_max_symtbl_sz
  pub placed : (i : ℕ) → Placed area.sbrk (region k i)
  pub apart : (i j : ℕ) → i ≢ j → Apart (region k i) (region k j)

Placed-mono : (b c : ℕ) (r : Region) → b ≤ c → Placed b r → Placed c r
Placed-mono b c r h (inl e) = inl e
Placed-mono b c r h (inr p) = inr (omega arith)

-- A region above everything that is placed is apart from it.
Apart-above : (b : ℕ) (r s : Region) → Placed b r → b ≤ s.rg_start → Apart r s
Apart-above b r s (inl e) h = inl e
Apart-above b r s (inr p) h = inr (inr (inl (omega arith)))

Apart-sym : (r s : Region) → Apart r s → Apart s r
Apart-sym r s (inl e) = inr (inl e)
Apart-sym r s (inr (inl e)) = inl e
Apart-sym r s (inr (inr (inl e))) = inr (inr (inr e))
Apart-sym r s (inr (inr (inr e))) = inr (inr (inl e))

-- A table with one symbol written.
module _ (k : Krnl) (l : Layout k) (rgid : ℕ) (fits : rgid < paging_max_symtbl_sz) (r : Region)
    (b : ℕ) where
  region-set_self : get_or (set k.mm.symrgtbl rgid r) rgid no_region ≡ r
  region-set_self = get_or-set_self k.mm.symrgtbl rgid r no_region (omega (arith, l.symbols))

  region-set_ne : (i : ℕ) → rgid ≢ i → get_or (set k.mm.symrgtbl rgid r) i no_region ≡ region k i
  region-set_ne i h = get_or-set_ne k.mm.symrgtbl rgid i r no_region h

  pub set-Placed :
      l.area.sbrk ≤ b
      → Placed b r
      → (i : ℕ) → Placed b (get_or (set k.mm.symrgtbl rgid r) i no_region)
  set-Placed h p i = elim (ℕ_discrete rgid i) [
    | yes e ↦
        subst (λ (x : ℕ). Placed b (get_or (set k.mm.symrgtbl rgid r) x no_region)) e
          (rw region-set_self p)
    | no n ↦
        subst (Placed b) (sym (region-set_ne i n))
          (Placed-mono l.area.sbrk b (region k i) h (l.placed i))
  ]

  pub set-Apart :
      ((i : ℕ) → Apart (region k i) r)
      → (i j : ℕ) → i ≢ j
      → Apart
          (get_or (set k.mm.symrgtbl rgid r) i no_region)
          (get_or (set k.mm.symrgtbl rgid r) j no_region)
  set-Apart h i j n = elim (ℕ_discrete rgid i) [
    | yes e ↦
        let m : rgid ≢ j = λ z. n (sym e ∙ z) in
        subst (λ (x : Region). Apart x (get_or (set k.mm.symrgtbl rgid r) j no_region))
          (sym region-set_self ∙ ap (λ (x : ℕ). get_or (set k.mm.symrgtbl rgid r) x no_region) e)
          (subst (Apart r) (sym (region-set_ne j m)) (Apart-sym (region k j) r (h j)))
    | no a ↦ elim (ℕ_discrete rgid j) [
      | yes e ↦
          subst (Apart (get_or (set k.mm.symrgtbl rgid r) i no_region))
            (sym region-set_self ∙ ap (λ (x : ℕ). get_or (set k.mm.symrgtbl rgid r) x no_region) e)
            (subst (λ (x : Region). Apart x r) (sym (region-set_ne i a)) (h i))
      | no c ↦
          subst (λ (x : Region). Apart x (get_or (set k.mm.symrgtbl rgid r) j no_region))
            (sym (region-set_ne i a))
            (subst (Apart (region k i)) (sym (region-set_ne j c)) (l.apart i j n))
    ]
  ]

-- The first area after an allocation of `size` bytes, and the memory of the process.
abbrev pub grown_area : Area → ℕ → Area
grown_area a size = record a {
  vm_end =
      if ltb a.vm_end (a.sbrk + size) then a.vm_end + (size + 4095) / 4096 * 4096 else a.vm_end;
  sbrk = a.sbrk + size;
}

abbrev pub after_alloc : Krnl → Area → List Area → (rgid size : ℕ) → Krnl
after_alloc k a rest rgid size = record k {
  mm = record k.mm {
    symrgtbl = set k.mm.symrgtbl rgid (record { rg_start = a.sbrk; rg_end = a.sbrk + size });
    mmap = grown_area a size ∷ rest;
  };
}

module _ (phy : MemphyOps) (k : Krnl) (l : Layout k) (rgid size : ℕ)
    (room : l.area.vm_end + size + 4095 < word) where
  abbrev a : Area
  a = l.area

  first_area : get_vma_by_num k.mm 0 ≡ some a
  unfolding get_vma_by_num
  first_area = ap (λ (m : List Area). get_elem? m 0) l.first

  abbrev placed_at : (vm_end : ℕ) → Krnl
  placed_at vm_end = record k {
    mm = record k.mm {
      symrgtbl = set k.mm.symrgtbl rgid (record { rg_start = a.sbrk; rg_end = a.sbrk + size });
      mmap = record a { vm_end = vm_end; sbrk = a.sbrk + size } ∷ l.rest;
    };
  }

  no_wrap : (a.sbrk + size) % word ≡ a.sbrk + size
  no_wrap = omega (arith, l.limit)

  place_region-lem :
      (vm_end : ℕ) (mmap : List Area)
      → mmap ≡ record a { vm_end = vm_end } ∷ l.rest
      → place_region
          (record k { mm = record k.mm { mmap = mmap } })
          0
          rgid
          size
          (record a { vm_end = vm_end })
        ≡ (placed_at vm_end, some a.sbrk)
  unfolding place_region
  place_region-lem vm_end mmap e =
      let z : (a.sbrk == 0) ≡ false = ground (arith, l.low) in rw (z, no_wrap, e)

  set-first : (x : Area) → set k.mm.mmap 0 x ≡ x ∷ l.rest
  set-first x = ap (λ (m : List Area). set m 0 x) l.first

  raised_end : ℕ
  raised_end = a.vm_end + (size + 4095) / 4096 * 4096

  raised : inc_vma_limit phy k 0 (((a.sbrk + size) % word + word - a.sbrk) % word) ≡ (
    record k { mm = record k.mm { mmap = record a { vm_end = raised_end } ∷ l.rest } },
    success,
  )
  unfolding raised_end
  raised =
      ap (λ (n : ℕ). inc_vma_limit phy k 0 n) asked
      ∙ inc_vma_limit-area phy k 0 size a first_area (omega arith)
      ∙ ap (λ (m : ℕ). (set_vma k 0 (record a { vm_end = m }), success)) whole
      ∙ ap (λ (m : List Area). (record k { mm = record k.mm { mmap = m } }, success))
          (set-first (record a { vm_end = a.vm_end + (size + 4095) / 4096 * 4096 }))
    where
      asked : ((a.sbrk + size) % word + word - a.sbrk) % word ≡ size
      asked = omega (arith, l.limit)

      whole :
          (a.vm_end + (size + 4095) / 4096 * 4096) % word ≡ a.vm_end + (size + 4095) / 4096 * 4096
      whole = omega arith

  alloc_in-lem : alloc_in phy k 0 rgid size a ≡ (after_alloc k a l.rest rgid size, some a.sbrk)
  unfolding alloc_in place_raised get_vma_by_num raised_end
  alloc_in-lem = elim (Bool-cases (ltb a.vm_end (a.sbrk + size))) [
    | inr e ↦ rw (no_wrap, e) (place_region-lem a.vm_end k.mm.mmap l.first)
    | inl e ↦
        let over : ltb a.vm_end ((a.sbrk + size) % word) ≡ true = rw no_wrap e in
        rw (over, e)
          (ap (place_raised 0 rgid size) raised
            ∙ place_region-lem raised_end (record a { vm_end = raised_end } ∷ l.rest) refl)
  ]

  pub alloc_region-lem :
      rgid < paging_max_symtbl_sz
      → unused (region k rgid) ≡ true
      → alloc_region phy k 0 rgid size ≡ (after_alloc k a l.rest rgid size, some a.sbrk)
  unfolding alloc_region
  alloc_region-lem fits free =
      rw (lt→leb paging_max_symtbl_sz rgid fits, first_area, alloc_region, free) alloc_in-lem

-- When the three guards of `__alloc` let an allocation through.
abbrev pub can_alloc : Krnl → ℕ → Bool
can_alloc k rgid = not (leb paging_max_symtbl_sz rgid) && unused (region k rgid)

module _ (phy : MemphyOps) {k : Krnl} (l : Layout k) (rgid size : ℕ)
    (room : l.area.vm_end + size + 4095 < word) where
  -- In a layout with room for `size` more bytes, an allocation succeeds exactly if the identifier is
  -- in the table and not in use. It then gives the region of `size` bytes from the break on,
  -- moves the break behind it and raises the limit where it must; otherwise nothing changes.
  pub alloc_region-cases : alloc_region phy k 0 rgid size ≡ (
      if can_alloc k rgid
      then (after_alloc k l.area l.rest rgid size, some l.area.sbrk)
      else (k, none))
  unfolding alloc_region
  alloc_region-cases = elim (Bool-cases (leb paging_max_symtbl_sz rgid)) [
    | inl e ↦ rw e
    | inr e ↦ elim (Bool-cases (unused (region k rgid))) [
      | inl f ↦
          alloc_region-lem phy k l rgid size room (leb→lt paging_max_symtbl_sz rgid e) f
          ∙ rw (e, f) refl
      | inr f ↦ rw (e, f, first_area phy k l rgid size room, alloc_region, f)
    ]
  ]

  after_alloc-Layout : rgid < paging_max_symtbl_sz → Layout (after_alloc k l.area l.rest rgid size)
  after_alloc-Layout fits = record {
    area = grown_area l.area size;
    rest = l.rest;
    first = refl;
    low = omega (arith, l.low);
    limit = ground (arith, l.limit);
    word_sized = ground (arith, l.word_sized);
    symbols = length-set k.mm.symrgtbl rgid _ ∙ l.symbols;
    placed =
        set-Placed k l rgid fits new (l.area.sbrk + size) (omega arith)
          (inr (omega (arith, l.low)));
    apart =
        set-Apart k l rgid fits new (l.area.sbrk + size)
          (λ i. Apart-above l.area.sbrk (region k i) new (l.placed i) (omega arith));
  }
    where
      new : Region
      new = record { rg_start = l.area.sbrk; rg_end = l.area.sbrk + size }

  -- Allocation keeps the layout: in particular no two regions overlap.
  pub alloc_region-Layout : Layout (alloc_region phy k 0 rgid size).0
  alloc_region-Layout = rw alloc_region-cases (go (Bool-cases (can_alloc k rgid)))
    where
      go :
          (can_alloc k rgid ≡ true) ⊎ (can_alloc k rgid ≡ false)
          → Layout
              (if◌then◌else◌ {A = Krnl × Option ℕ}
                (can_alloc k rgid)
                (after_alloc k l.area l.rest rgid size, some l.area.sbrk)
                (k, none)).0
      go (inl e) = rw e (after_alloc-Layout (ground arith))
      go (inr e) = rw e l
