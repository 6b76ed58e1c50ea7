-- ===== src/Vmap/Frames.antt =====
-- `alloc_pages_range` and `__swap_cp_page` of src/mm64.c: frames taken and a page copied.
use simple_operating_system.Common.{
  ℕ, zero, suc, ◌+◌, ◌-◌, ◌*◌, ◌%◌, ◌≤◌, ◌<◌, ◌≡◌, ◌≢◌, refl, ap, ◌∙◌, inl, inr, Bool, true, false,
  ◌&&◌, none, some, List, [], ◌∷◌, ◌++◌, ◌==◌, ltb, leb, if◌then◌else◌, arith, Bool-cases,
  Option-cases, success, length,
}
use simple_operating_system.Mm.{Krnl, Memphy, paging_pagesz, word}
use simple_operating_system.Phy.{MemphyOps, update}
use simple_operating_system.Phy.Laws.{MemphyLaws}
use simple_operating_system.Vmap.{take_frames, alloc_pages_range, copy_cells, swap_cp_page}

-- The smaller of two numbers.
abbrev pub lesser : ℕ → ℕ → ℕ
lesser m n = if ltb m n then m else n

-- Whether an address is among the n from start on.
abbrev pub inside : (start n a : ℕ) → Bool
inside start n a = leb start a && ltb a (start + n)

module _ (phy : MemphyOps) (laws : MemphyLaws phy) where
  -- What a number of frames taken from a device leaves.
  abbrev Taken : ℕ → Memphy → List ℕ × Memphy → Type 0
  Taken n m (fs, m') =
      (m.free_fp_list ≡ fs ++ m'.free_fp_list) × (length fs ≡ lesser n (length m.free_fp_list))

  free_none : (m : Memphy) → phy.get_freefp m ≡ none → m.free_fp_list ≡ []
  free_none m e = go m.free_fp_list refl
    where
      go : (fs : List ℕ) → m.free_fp_list ≡ fs → fs ≡ []
      go [] h = refl
      go (f ∷ fs) h = let (m', g) = laws.gives m f fs h in cc (e, g)

  take_frames-Taken : (n : ℕ) (m : Memphy) → Taken n m (take_frames phy n m)
  unfolding take_frames
  take_frames-Taken zero m = (refl, ground arith)
  take_frames-Taken (suc n) m = elim (Option-cases (phy.get_freefp m)) [
    | inl e ↦
        let empty = free_none m e in rw (e, take_frames) (refl, ground (arith, ap length empty))
    | inr ((f, m'), e) ↦
        let (p, q) = take_frames-Taken n m' in
        let (l, a, b, c) = laws.taken m m' f e in
        rw (e, take_frames) (l ∙ ap (λ (x : List ℕ). f ∷ x) p, ground (arith, q, ap length l))
  ]

  wraps : (a b : ℕ) → b ≤ word → a < b → a % word ≡ a
  wraps a b h l = omega arith

  copy_cells-block :
      (stale s d n i : ℕ) (src dst : Memphy)
      → src.rdmflg ≢ 0
      → dst.rdmflg ≢ 0
      → src.maxsz ≤ word
      → dst.maxsz ≤ word
      → s * paging_pagesz + i + n ≤ src.maxsz
      → d * paging_pagesz + i + n ≤ dst.maxsz
      → let r = copy_cells phy stale s d n i (src, dst) in
        (r.0 ≡ src)
        × ((a : ℕ)
            → r.1.storage a ≡ (
                if inside (d * paging_pagesz + i) n a
                then src.storage (s * paging_pagesz + (a - d * paging_pagesz))
                else dst.storage a))
  unfolding copy_cells
  copy_cells-block stale s d zero i src dst rs rd ws wd bs bd = (refl, λ a. ground arith)
  copy_cells-block stale s d (suc n) i src dst rs rd ws wd bs bd =
      let x = s * paging_pagesz + i in
      let y = d * paging_pagesz + i in
      let dst' : Memphy = record dst { storage = update dst.storage y (src.storage x) } in
      let (p, q) =
        copy_cells-block stale s d n (suc i) src dst' rs rd ws wd (omega arith) (omega arith) in
      let got : phy.read src (x % word) ≡ (some (src.storage x), src) =
        rw (wraps x src.maxsz ws (omega arith)) (laws.reads src x rs (omega arith)) in
      let put : phy.write dst (y % word) (src.storage x) ≡ (true, dst') =
        rw (wraps y dst.maxsz wd (omega arith))
          (laws.writes dst y (src.storage x) rd (omega arith)) in
      rw (got, copy_cells, put) (p, λ a. q a ∙ stepped a)
    where
      stepped :
          (a : ℕ)
          → (if inside (d * paging_pagesz + suc i) n a
              then src.storage (s * paging_pagesz + (a - d * paging_pagesz))
              else update dst.storage
                  (d * paging_pagesz + i)
                  (src.storage (s * paging_pagesz + i))
                  a)
            ≡ (if inside (d * paging_pagesz + i) (suc n) a
                then src.storage (s * paging_pagesz + (a - d * paging_pagesz))
                else dst.storage a)
      stepped a = elim (Bool-cases (a == d * paging_pagesz + i)) [
        | inl e ↦
            let here : a - d * paging_pagesz ≡ i = ground (arith, e) in
            let before : inside (d * paging_pagesz + suc i) n a ≡ false = ground (arith, e) in
            let within : inside (d * paging_pagesz + i) (suc n) a ≡ true = ground (arith, e) in
            rw (before, e, within, here) refl
        | inr e ↦ ground arith
      ]

  -- As many frames as are asked for, or as are free, come off the head of the free list, in order. The
  -- result is 0 when there are enough, and otherwise the number of frames: when none is free, that is
  -- 0 as well.
  pub alloc_pages_range_prefix :
      (k : Krnl) (n : ℕ)
      → let (k', fs, r) = alloc_pages_range phy k n in
        (k.mram.free_fp_list ≡ fs ++ k'.mram.free_fp_list)
        × (length fs ≡ lesser n (length k.mram.free_fp_list))
        × (r ≡ (if leb n (length k.mram.free_fp_list) then 0 else length k.mram.free_fp_list))
  unfolding alloc_pages_range
  alloc_pages_range_prefix k n =
      let (p, q) = take_frames-Taken n k.mram in (p, q, ground (arith, q))

  -- Between two different random access devices of at most 2^64 bytes, a copy makes the page of the
  -- destination the page of the source and changes no other byte; the source stays as it is.
  pub swap_cp_page_copy :
      (stale s d : ℕ) (src dst : Memphy) (a : ℕ)
      → src.rdmflg ≢ 0
      → dst.rdmflg ≢ 0
      → src.maxsz ≤ word
      → dst.maxsz ≤ word
      → s * paging_pagesz + paging_pagesz ≤ src.maxsz
      → d * paging_pagesz + paging_pagesz ≤ dst.maxsz
      → let (src', dst', status) = swap_cp_page phy stale src s dst d in
        (status ≡ success)
        × (src' ≡ src)
        × (dst'.storage a ≡ (
            if inside (d * paging_pagesz) paging_pagesz a
            then src.storage (s * paging_pagesz + (a - d * paging_pagesz))
            else dst.storage a))
  unfolding swap_cp_page
  swap_cp_page_copy stale s d src dst a rs rd ws wd bs bd =
      let (p, q) =
        copy_cells-block stale s d paging_pagesz 0 src dst rs rd ws wd (omega arith)
          (omega arith) in
      let start : d * paging_pagesz + 0 ≡ d * paging_pagesz = omega arith in
      (refl, p, rw start at q a)
