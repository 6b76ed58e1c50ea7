-- ===== src/Paging/Progress.antt =====
-- With enough free frames the mapping functions of src/mm64.c succeed.
use simple_operating_system.Common.{
  ℕ, suc, ◌+◌, ◌*◌, ◌%◌, ◌<◌, none, ◌≤◌, ◌≡◌, refl, sym, ap, ◌∙◌, inl, inr, true, Option, some,
  List, [], ◌∷◌, arith, length, Bool-cases, success,
}
use simple_operating_system.Mm.{Krnl, paging_pagesz, table_entries}
use simple_operating_system.Phy.{entry_addr}
use simple_operating_system.Paging.Tree.{Owner, path, path-ne-nil, Live, Tree}
use simple_operating_system.Paging.Ensure.{Small, Live-Grown, path-Grown}
use simple_operating_system.Paging.Outcome.{TableOutcome, ensure_table-outcome}
use simple_operating_system.Phy.{MemphyOps}
use simple_operating_system.Phy.Laws.{MemphyLaws}
use simple_operating_system.Pte.{pte_present, pte_fpn}
use simple_operating_system.Pte.Address.{pgn_digits, get_pd_from_pagenum-digits}
use simple_operating_system.Paging.{
  Slot, root, entry, read_slot, lower, fill_slot, ensure_table, ensure_walk, ensure_pte_mapping,
  pte_set_fpn,
}
use simple_operating_system.Paging.Fill.{link_table-free}

-- A step that gives a table and leaves n free frames.
abbrev Gives : ℕ → Krnl × Option ℕ → Type 0
Gives n (k, o) = (f : ℕ) × (o ≡ some f) × (n ≤ length k.mram.free_fp_list)

-- A walk that reaches a place.
abbrev Reaches : Krnl × Option Slot → Type 0
Reaches (k, o) = (s : Slot) × (o ≡ some s)

-- An entry inside the first table, or inside a RAM of m bytes.
abbrev pub Inside : ℕ → Slot → Type 0
Inside m (root i) = i < table_entries
Inside m (entry f i) = entry_addr f i + 8 ≤ m

abbrev pub EachInside : ℕ → List Slot → Type 0
EachInside m [] = Unit
EachInside m (s ∷ ss) = Inside m s × EachInside m ss

module _ (phy : MemphyOps) where
  -- The entries that `ensure_walk` reads and writes.
  unfoldable pub ensure_places : Krnl → Slot → List ℕ → List Slot
  ensure_places k s [] = s ∷ []
  ensure_places k s (i ∷ is) =
      let (k', t) = ensure_table phy true k s in
      s ∷ elim t [ none ↦ [] | some f ↦ ensure_places k' (entry f i) is ]

module _ (phy : MemphyOps) (laws : MemphyLaws phy) where
  fill_slot-Gives :
      (k : Krnl) (s : Slot) (n : ℕ)
      → suc n ≤ length k.mram.free_fp_list
      → ((fill_slot phy true k s).1 ≡ true)
        × (n ≤ length (fill_slot phy true k s).0.mram.free_fp_list)
  unfolding fill_slot
  fill_slot-Gives k s n h = go k.mram.free_fp_list refl h
    where
      go :
          (fs : List ℕ)
          → k.mram.free_fp_list ≡ fs
          → suc n ≤ length fs
          → ((fill_slot phy true k s).1 ≡ true)
            × (n ≤ length (fill_slot phy true k s).0.mram.free_fp_list)
      go [] e l = absurd (omega arith)
      go (f ∷ fs) e l =
          let (m, g) = laws.gives k.mram f fs e in
          let taken = (laws.taken k.mram m f g).0 in
          rw (g, fill_slot)
            (
              refl,
              rw (link_table-free (record k { mram = m }) s f)
                  (omega (arith, ap length (sym e ∙ taken))),
            )

  ensure_table-Gives :
      (k : Krnl) (s : Slot) (n : ℕ)
      → suc n ≤ length k.mram.free_fp_list
      → Gives n (ensure_table phy true k s)
  unfolding ensure_table
  ensure_table-Gives k s n h = elim (Bool-cases (pte_present (read_slot k s))) [
    | inl p ↦ rw p (pte_fpn (read_slot k s), refl, omega arith)
    | inr p ↦
        let (a, b) = fill_slot-Gives k s n h in
        rw (p, a) (pte_fpn (read_slot (fill_slot phy true k s).0 s), refl, b)
  ]

  ensure_walk-Reaches :
      (is : List ℕ) (k : Krnl) (s : Slot)
      → length is ≤ length k.mram.free_fp_list
      → Reaches (ensure_walk phy true k s is)
  unfolding ensure_walk
  ensure_walk-Reaches [] k s h = (s, refl)
  ensure_walk-Reaches (i ∷ is) k s h =
      let (f, e, l) = ensure_table-Gives k s (length is) (omega arith) in
      rw (e, ensure_walk) (ensure_walk-Reaches is (ensure_table phy true k s).0 (entry f i) l)

  -- The status of a mapping with four free frames, one for each level below the first.
  pub pte_set_fpn-frames :
      (k : Krnl) (pgn fpn : ℕ)
      → 4 ≤ length k.mram.free_fp_list
      → (pte_set_fpn phy k pgn fpn).1 ≡ success
  unfolding pte_set_fpn ensure_pte_mapping
  pte_set_fpn-frames k pgn fpn h =
      let (s, e) = ensure_walk-Reaches (lower (pgn_digits pgn)) k (root (pgn_digits pgn).pgd) h in
      rw (get_pd_from_pagenum-digits pgn, pte_set_fpn, e)

  -- The tables that the walk goes through lie in the RAM, so that C defines each of its accesses.
  ensure_places-Inside :
      (is : List ℕ) (o : Owner) (k : Krnl) (s : Slot) (m : ℕ)
      → Tree o k
      → Live o s
      → length (path o s) + length is ≡ 5
      → Small is
      → k.mram.maxsz ≡ m
      → m % paging_pagesz ≡ 0
      → Inside m s
      → EachInside m (ensure_places phy k s is)
  unfolding ensure_places
  ensure_places-Inside [] o k s m t l e c q d h = (h, tt)
  ensure_places-Inside (i ∷ is) o k s m t l e c q d h = (
    h,
    go (ensure_table phy true k s) (ensure_table-outcome phy laws o k s t l (omega arith))
        (λ o' k' f t' l' e' q'. ensure_places-Inside is o' k' (entry f i) m t' l' e' c.1 q' d),
  )
    where
      go :
          (r : Krnl × Option ℕ)
          → TableOutcome o k s r
          → ((o' : Owner) (k' : Krnl) (f : ℕ)
              → Tree o' k'
              → Live o' (entry f i)
              → length (path o' (entry f i)) + length is ≡ 5
              → k'.mram.maxsz ≡ m
              → Inside m (entry f i)
              → EachInside m (ensure_places phy k' (entry f i) is))
          → EachInside m (
              let (k', u) = r in
              elim u [ none ↦ [] | some f ↦ ensure_places phy k' (entry f i) is ])
      go (k', none) g ih = tt
      go (k', some f) (o', g, a, p, b) ih =
          let above : length (path o' s) ≤ 4 = rw (path-Grown g s l) (omega (arith, e)) in
          let (w, inside) = g.tree.tables s (Live-Grown g s l) above p in
          let same : k'.mram.maxsz ≡ m = g.maxsz ∙ q in
          let low : f * paging_pagesz < m = rw (b, same) at inside in
          ih o' k' f g.tree ((λ z. path-ne-nil o s (sym a ∙ z)), c.0)
            (omega (arith, ap length a, e)) same (omega (arith, low, d, c.0))

  -- When the tables form a tree in a RAM of whole pages and four frames are free, one for each level
  -- below the first, mapping a page succeeds, and every entry that the walk reads or writes lies in
  -- the first table or in the RAM.
  pub pte_set_fpn-succeeds :
      (o : Owner) (k : Krnl) (pgn fpn : ℕ)
      → Tree o k
      → k.mram.maxsz % paging_pagesz ≡ 0
      → 4 ≤ length k.mram.free_fp_list
      → ((pte_set_fpn phy k pgn fpn).1 ≡ success)
        × EachInside k.mram.maxsz
            (ensure_places phy k (root (pgn_digits pgn).pgd) (lower (pgn_digits pgn)))
  pte_set_fpn-succeeds o k pgn fpn t d h = (
    pte_set_fpn-frames k pgn fpn h,
    ensure_places-Inside (lower (pgn_digits pgn)) o k (root (pgn_digits pgn).pgd) k.mram.maxsz t
        (omega arith) refl (omega arith, (omega arith, (omega arith, (omega arith, tt)))) refl d
        (omega arith),
  )
