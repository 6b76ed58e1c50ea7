-- ===== src/Libmem/Pages.antt =====
-- The pages of a process in src/libmem.c: which frames they lie in, and what a page fault does.
use simple_operating_system.Common.{
  ℕ, ◌+◌, ◌*◌, ◌^◌, ◌≤◌, ◌<◌, ◌≡◌, ◌≢◌, inl, inr, refl, sym, ap, subst, ◌∙◌, Bool, true, false,
  Option, some, [], ◌∷◌, leb, arith, contains, Bool-cases, Option-cases, ℤ, pos, negsuc, is_zero,
  success,
}
use mathlib.Core.Option.{some-injective}
use native.Mathlib.Decide.{ℕ_discrete}
use simple_operating_system.Mm.{Krnl, Memphy, paging_pagesz, paging_max_pgn}
use simple_operating_system.Phy.{MemphyOps}
use simple_operating_system.Phy.Laws.{MemphyLaws}
use simple_operating_system.Pte.{pte_present, pte_fpn}
use simple_operating_system.Paging.{pte_get_entry, pte_set_fpn}
use simple_operating_system.Paging.Tree.{Owner, Tree, FreeFrames}
use simple_operating_system.Paging.Outcome.{Tree-less, free-taken}
use simple_operating_system.Paging.Map.{pte_set_fpn-others, pte_set_fpn-get}
use simple_operating_system.Paging.Owned.{Keeps, pte_set_fpn-Keeps, rdmflg-pte_set_fpn}
use simple_operating_system.Paging.Congruence.{get_same, Tree-same}
use simple_operating_system.Libmem.{fault_page, pg_getpage}

-- Whether a page is present, and the frame that its entry names.
abbrev pub present : Krnl → ℕ → Bool
present k p = pte_present (pte_get_entry k p)

abbrev pub frame : Krnl → ℕ → ℕ
frame k p = pte_fpn (pte_get_entry k p)

-- The frame of a page holds no table, is not free, and lies inside the RAM; no two pages share one.
pub record Pages (o : Owner) (k : Krnl) : Type 0 where
  pub tree : Tree o k
  pub random : k.mram.rdmflg ≢ 0
  pub data_frame :
      (p : ℕ)
      → p < 2 ^ 45
      → present k p ≡ true
      → (o (frame k p) ≡ [])
        × (contains (frame k p) k.mram.free_fp_list ≡ false)
        × (frame k p * paging_pagesz + paging_pagesz ≤ k.mram.maxsz)
  pub apart :
      (p q : ℕ)
      → p < 2 ^ 45
      → q < 2 ^ 45
      → p ≢ q
      → present k p ≡ true
      → present k q ≡ true
      → frame k p ≢ frame k q

-- A page that was absent has been given a frame.
abbrev pub Resident : Krnl → ℕ → ℕ → Type 0
Resident k pgn f = (o : Owner) × Pages o k × (present k pgn ≡ true) × (frame k pgn ≡ f)

is_zero→success : (z : ℤ) → is_zero z ≡ true → z ≡ success
is_zero→success (pos n) h = let e : n ≡ 0 = ground arith in ap pos e
is_zero→success (negsuc n) h = cc

-- Mapping page pgn to frame f, which has just come off the free list.
module _ (phy : MemphyOps) (laws : MemphyLaws phy) (o : Owner) (k : Krnl) (s : Pages o k)
    (pgn f : ℕ) (m : Memphy) (bound : pgn < 2 ^ 45)
    (took : phy.get_freefp k.mram ≡ some (f, m)) where
  abbrev k0 : Krnl
  k0 = record k { mram = m }

  abbrev k1 : Krnl
  k1 = (pte_set_fpn phy k0 pgn f).0

  abbrev k2 : Krnl
  k2 = record k1 { mm = record k1.mm { fifo_pgn = pgn ∷ k1.mm.fifo_pgn } }

  taken :
      (k.mram.free_fp_list ≡ f ∷ m.free_fp_list)
      × (m.storage ≡ k.mram.storage)
      × (m.maxsz ≡ k.mram.maxsz)
      × (m.rdmflg ≡ k.mram.rdmflg)
  taken = laws.taken k.mram m f took

  tree0 : Tree o k0
  tree0 = Tree-less o k m f s.tree taken

  fresh : FreeFrames o k.mram.maxsz (f ∷ m.free_fp_list)
  fresh = free-taken o k m f s.tree taken

  -- A page other than pgn reads as before.
  other : (p : ℕ) → p < 2 ^ 45 → pgn ≢ p → pte_get_entry k2 p ≡ pte_get_entry k p
  other p h n =
      get_same k2 k1 refl refl refl p
      ∙ pte_set_fpn-others phy laws tree0 pgn f p bound h n
      ∙ get_same k0 k refl (taken.1) (taken.2) p

  -- A frame that is in use is neither f nor free.
  in_use :
      (g : ℕ)
      → contains g k.mram.free_fp_list ≡ false
      → (g ≢ f) × (contains g m.free_fp_list ≡ false)
  in_use g h = split (ap (contains g) (sym taken.0) ∙ h)
    where
      split :
          contains g (f ∷ m.free_fp_list) ≡ false → (g ≢ f) × (contains g m.free_fp_list ≡ false)
      split e = ground arith

  mapped :
      (status : (pte_set_fpn phy k0 pgn f).1 ≡ success)
      → (present k2 pgn ≡ true) × (frame k2 pgn ≡ f)
  mapped status =
      let (a, b, c) = pte_set_fpn-get phy laws tree0 pgn f k1 (ap (λ (z : ℤ). (k1, z)) status) in
      let e = get_same k2 k1 refl refl refl pgn in
      (ap pte_present e ∙ a, ap pte_fpn e ∙ c ∙ omega (arith, fresh))

  -- Page p before, if it is not pgn and is present now.
  before : (p : ℕ) → p < 2 ^ 45 → pgn ≢ p → present k2 p ≡ true → present k p ≡ true
  before p h n c = sym (ap pte_present (other p h n)) ∙ c

  module _ (o' : Owner) (g : Keeps o k0 o' k1) where
    abbrev OwnFrame : ℕ → Type 0
    OwnFrame x =
        (o' x ≡ [])
        × (contains x k2.mram.free_fp_list ≡ false)
        × (x * paging_pagesz + paging_pagesz ≤ k2.mram.maxsz)

    new_data : OwnFrame f
    new_data = (
      g.owner f fresh.0.4 ∙ fresh.0.0,
      g.listed f fresh.0.4,
      omega (arith, fresh.0.3, g.maxsz, taken.2),
    )

    old_data : (p : ℕ) → p < 2 ^ 45 → present k p ≡ true → OwnFrame (frame k p)
    old_data p h c =
        let (a, b, d) = s.data_frame p h c in
        let (_, u) = in_use (frame k p) b in
        (g.owner (frame k p) u ∙ a, g.listed (frame k p) u, omega (arith, d, g.maxsz, taken.2))

    all_data : frame k2 pgn ≡ f → (p : ℕ) → p < 2 ^ 45 → present k2 p ≡ true → OwnFrame (frame k2 p)
    all_data fr p h c = elim (ℕ_discrete pgn p) [
      | yes e ↦ subst OwnFrame (sym fr ∙ ap (frame k2) e) new_data
      | no n ↦ subst OwnFrame (sym (ap pte_fpn (other p h n))) (old_data p h (before p h n c))
    ]

  -- The new frame is that of no other page.
  new_apart :
      frame k2 pgn ≡ f
      → (p : ℕ) → p < 2 ^ 45
      → pgn ≢ p
      → present k2 p ≡ true
      → frame k2 p ≢ frame k2 pgn
  new_apart fr p h n c e =
      (in_use (frame k p) ((s.data_frame p h (before p h n c)).1)).0
        (sym (ap pte_fpn (other p h n)) ∙ e ∙ fr)

  all_apart :
      frame k2 pgn ≡ f
      → (p q : ℕ) → p < 2 ^ 45
      → q < 2 ^ 45
      → p ≢ q
      → present k2 p ≡ true
      → present k2 q ≡ true
      → frame k2 p ≢ frame k2 q
  all_apart fr p q hp hq n a b e = elim (ℕ_discrete pgn p) [
    | yes z ↦ new_apart fr q hq (λ w. n (sym z ∙ w)) b (sym e ∙ ap (frame k2) (sym z))
    | no y ↦ elim (ℕ_discrete pgn q) [
      | yes z ↦ new_apart fr p hp y a (e ∙ ap (frame k2) (sym z))
      | no w ↦
          s.apart p q hp hq n (before p hp y a) (before q hq w b)
            (sym (ap pte_fpn (other p hp y)) ∙ e ∙ ap pte_fpn (other q hq w))
    ]
  ]

  pub fault-Resident : (pte_set_fpn phy k0 pgn f).1 ≡ success → Resident k2 pgn f
  fault-Resident status = build (pte_set_fpn-Keeps phy laws tree0 pgn f)
    where
      build : (o' : Owner) × Keeps o k0 o' k1 → Resident k2 pgn f
      build (o', g) =
          let (pres, fr) = mapped status in
          (
            o',
            record {
              tree = Tree-same k2 k1 refl refl refl o' refl g.tree;
              random = λ e. s.random (sym taken.3 ∙ sym (rdmflg-pte_set_fpn phy laws k0 pgn f) ∙ e);
              data_frame = all_data o' g fr;
              apart = all_apart fr;
            },
            pres,
            fr,
          )

module _ (phy : MemphyOps) (laws : MemphyLaws phy) where
  fault_page-Resident :
      (o : Owner) (k k' : Krnl) (pgn f : ℕ)
      → Pages o k
      → pgn < 2 ^ 45
      → fault_page phy k pgn ≡ (k', some f)
      → Resident k' pgn f
  unfolding fault_page
  fault_page-Resident o k k' pgn f s bound r = elim (Option-cases (phy.get_freefp k.mram)) [
    | inl e ↦ cc (ap (λ (x : Krnl × Option ℕ). x.1) (rw (e, fault_page) at r))
    | inr ((g, m), e) ↦
        elim (Bool-cases (is_zero (pte_set_fpn phy (record k { mram = m }) pgn g).1)) [
          | inl z ↦
              let r' = rw (e, fault_page, z) at r in
              let status = is_zero→success (pte_set_fpn phy (record k { mram = m }) pgn g).1 z in
              let same : g ≡ f = some-injective g f (ap (λ (x : Krnl × Option ℕ). x.1) r') in
              subst (λ (x : Krnl). Resident x pgn f) (ap (λ (x : Krnl × Option ℕ). x.0) r')
                (subst (λ (x : ℕ). Resident (k2 phy laws o k s pgn g m bound e) pgn x) same
                  (fault-Resident phy laws o k s pgn g m bound e status))
          | inr z ↦ cc (ap (λ (x : Krnl × Option ℕ). x.1) (rw (e, fault_page, z) at r))
        ]
  ]

  -- A page that is looked up is present afterwards in the frame that the lookup gives, and the
  -- pages keep frames of their own that are neither free nor tables, whether it was present before
  -- or a fault gave it a frame.
  pub pg_getpage-Resident :
      (o : Owner) (k k' : Krnl) (pgn f : ℕ)
      → Pages o k
      → pg_getpage phy k pgn ≡ (k', some f)
      → Resident k' pgn f
  unfolding pg_getpage
  pg_getpage-Resident o k k' pgn f s r = elim (Bool-cases (leb paging_max_pgn pgn)) [
    | inl e ↦ cc (ap (λ (x : Krnl × Option ℕ). x.1) (rw (e, pg_getpage) at r))
    | inr e ↦
        let bound : pgn < 2 ^ 45 = ground arith in
        elim (Bool-cases (present k pgn)) [
          | inl p ↦
              let r' = rw (e, p, pg_getpage) at r in
              let same : frame k pgn ≡ f =
                some-injective (frame k pgn) f (ap (λ (x : Krnl × Option ℕ). x.1) r') in
              subst (λ (x : Krnl). Resident x pgn f) (ap (λ (x : Krnl × Option ℕ). x.0) r')
                (o, s, p, same)
          | inr p ↦ fault_page-Resident o k k' pgn f s bound (rw (e, p, pg_getpage) at r)
        ]
  ]
