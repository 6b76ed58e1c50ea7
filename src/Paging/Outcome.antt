-- ===== src/Paging/Outcome.antt =====
-- What the allocation of tables along a walk of src/mm64.c comes to.
use simple_operating_system.Common.{
  ℕ, ◌+◌, ◌≤◌, ◌≡◌, inl, inr, refl, sym, ap, subst, ◌∙◌, true, false, Option, none, some, List, [],
  ◌∷◌, arith, length, Bool-cases, Option-cases,
}
use simple_operating_system.Mm.{Memphy, Krnl}
use simple_operating_system.Phy.{MemphyOps, load64, entry_addr}
use simple_operating_system.Phy.Laws.{MemphyLaws}
use simple_operating_system.Pte.{pte_present, pte_fpn}
use simple_operating_system.Paging.{
  Slot, root, entry, read_slot, fill_slot, link_table, ensure_table, ensure_walk,
}
use simple_operating_system.Paging.Tree.{Owner, path, path-ne-nil, Live, FreeFrames, Tree}
use simple_operating_system.Paging.Fill.{
  grant, Filled, link_table-Filled, link_table-free, owner_self,
}
use simple_operating_system.Paging.Ensure.{
  Small, Grown, Grown-refl, Grown-trans, Live-Grown, Filled-Grown,
}

-- Taking a frame off the free list changes no entry.
module _ (o : Owner) (k : Krnl) (m : Memphy) (f : ℕ) (t : Tree o k)
    (taken : (k.mram.free_fp_list ≡ f ∷ m.free_fp_list)
      × (m.storage ≡ k.mram.storage)
      × (m.maxsz ≡ k.mram.maxsz)
      × (m.rdmflg ≡ k.mram.rdmflg)) where
  abbrev pub less : Krnl
  less = record k { mram = m }

  read-less : (u : Slot) → read_slot less u ≡ read_slot k u
  unfolding read_slot
  read-less (root i) = refl
  read-less (entry g i) = ap (λ (st : ℕ → ℕ). load64 st (entry_addr g i)) taken.1

  pub free-taken : FreeFrames o k.mram.maxsz (f ∷ m.free_fp_list)
  free-taken = subst (FreeFrames o k.mram.maxsz) taken.0 t.free

  pub Tree-less : Tree o less
  Tree-less = record {
    width = t.width;
    depth = t.depth;
    tables = λ u l a p. rw (read-less u, taken.2) (t.tables u l a (rw (read-less u) at p));
    free = rw taken.2 (free-taken.1);
  }

  pub Filled-less : (s : Slot) (k' : Krnl) → Filled o s f less k' → Filled o s f k k'
  Filled-less s k' d = record {
    fresh = d.fresh;
    width = d.width;
    maxsz = d.maxsz ∙ taken.2;
    present = d.present;
    leads = d.leads;
    inside = rw taken.2 at d.inside;
    cleared = d.cleared;
    kept = λ u l h. d.kept u l h ∙ read-less u;
    free =
        subst (λ (z : ℕ). FreeFrames (grant o f (path o s)) z k'.mram.free_fp_list) taken.2 d.free;
    unlisted = d.unlisted;
  }

-- The outcome of a step that ends at frame f, the table under the entry at s.
abbrev pub Leads : Owner → Krnl → Slot → Krnl → ℕ → Type 0
Leads o k s k' f =
    (o' : Owner) × Grown o k o' k'
    × (o' f ≡ path o s)
    × (pte_present (read_slot k' s) ≡ true)
    × (pte_fpn (read_slot k' s) ≡ f)

-- Without a free frame nothing has changed.
abbrev pub TableOutcome : Owner → Krnl → Slot → Krnl × Option ℕ → Type 0
TableOutcome o k s (k', none) = Grown o k o k'
TableOutcome o k s (k', some f) = Leads o k s k' f

module _ (phy : MemphyOps) (laws : MemphyLaws phy) where
  fill_slot-Leads :
      (o : Owner) (k : Krnl) (s : Slot) (f : ℕ) (m : Memphy)
      → Tree o k
      → Live o s
      → length (path o s) ≤ 4
      → pte_present (read_slot k s) ≡ false
      → phy.get_freefp k.mram ≡ some (f, m)
      → Leads o k s
          (link_table true (record k { mram = m }) s f)
          (pte_fpn (read_slot (link_table true (record k { mram = m }) s f) s))
  fill_slot-Leads o k s f m t l a p e =
      let w = laws.taken k.mram m f e in
      let t' = Tree-less o k m f t w in
      let d' =
        link_table-Filled o (record k { mram = m }) s f m.free_fp_list t' l
          (subst (λ (z : ℕ). FreeFrames o z (f ∷ m.free_fp_list)) (sym w.2)
            (free-taken o k m f t w))
          refl in
      let k' = link_table true (record k { mram = m }) s f in
      let d = Filled-less o k m f t w s k' d' in
      let left = link_table-free (record k { mram = m }) s f in
      (
        grant o f (path o s),
        Filled-Grown o s f k k' l a p t d (w.0 ∙ ap (◌∷◌ f) (sym left)),
        ap (grant o f (path o s)) d.leads ∙ owner_self o s f k k' l a t d,
        d.present,
        refl,
      )

  pub ensure_table-outcome :
      (o : Owner) (k : Krnl) (s : Slot)
      → Tree o k
      → Live o s
      → length (path o s) ≤ 4
      → TableOutcome o k s (ensure_table phy true k s)
  unfolding ensure_table fill_slot
  ensure_table-outcome o k s t l a = elim (Bool-cases (pte_present (read_slot k s))) [
    | inl p ↦ rw p (o, Grown-refl t, (t.tables s l a p).0, p, refl)
    | inr p ↦ elim (Option-cases (phy.get_freefp k.mram)) [
      | inl e ↦ rw (p, e, fill_slot) (Grown-refl t)
      | inr ((f, m), e) ↦ rw (p, e, fill_slot) (fill_slot-Leads o k s f m t l a p e)
    ]
  ]

-- A walk through entries that are present, from a place to the place of the page's own entry.
abbrev pub Descends : Krnl → Slot → List ℕ → Slot → Type 0
Descends k s [] t = s ≡ t
Descends k s (i ∷ is) t =
    (pte_present (read_slot k s) ≡ true) × Descends k (entry (pte_fpn (read_slot k s)) i) is t

-- The path of the place where a walk ends.
abbrev pub extend : List ℕ → List ℕ → List ℕ
extend [] p = p
extend (i ∷ is) p = extend is (i ∷ p)

-- A mapping that succeeds leads to a place of the tree; one that fails has still kept the tree
-- and every translation.
abbrev pub WalkOutcome : Owner → Krnl → Slot → List ℕ → Krnl × Option Slot → Type 0
WalkOutcome o k s is (k', none) = (o' : Owner) × Grown o k o' k'
WalkOutcome o k s is (k', some t) =
    (o' : Owner) × Grown o k o' k'
    × Live o' t
    × (path o' t ≡ extend is (path o s))
    × Descends k' s is t

prepend-outcome :
    (o o' : Owner) (k k' : Krnl) (s : Slot) (i f : ℕ) (is : List ℕ) (r : Krnl × Option Slot)
    → Grown o k o' k'
    → Live o s
    → o' f ≡ path o s
    → pte_present (read_slot k' s) ≡ true
    → pte_fpn (read_slot k' s) ≡ f
    → WalkOutcome o' k' (entry f i) is r
    → WalkOutcome o k s (i ∷ is) r
prepend-outcome o o' k k' s i f is (k'', none) g l a p q (o'', h) = (o'', Grown-trans g h)
prepend-outcome o o' k k' s i f is (k'', some t) g l a p q (o'', h, m, b, d) =
    let same : read_slot k'' s ≡ read_slot k' s = h.kept s (Live-Grown g s l) (inr p) in
    (
      o'',
      Grown-trans g h,
      m,
      b ∙ ap (λ (x : List ℕ). extend is (i ∷ x)) a,
      (rw same p, subst (λ (x : ℕ). Descends k'' (entry x i) is t) (sym (ap pte_fpn same ∙ q)) d),
    )

module _ (phy : MemphyOps) (laws : MemphyLaws phy) where
  pub ensure_walk-outcome :
      (is : List ℕ) (o : Owner) (k : Krnl) (s : Slot)
      → Tree o k
      → Live o s
      → length (path o s) + length is ≡ 5
      → Small is
      → WalkOutcome o k s is (ensure_walk phy true k s is)
  unfolding ensure_walk
  ensure_walk-outcome [] o k s t l e c = (o, Grown-refl t, l, refl, refl)
  ensure_walk-outcome (i ∷ is) o k s t l e c =
      go (ensure_table phy true k s) (ensure_table-outcome phy laws o k s t l (omega arith))
        (λ o' k' f. ensure_walk-outcome is o' k' (entry f i))
    where
      go :
          (r : Krnl × Option ℕ)
          → TableOutcome o k s r
          → ((o' : Owner) (k' : Krnl) (f : ℕ)
              → Tree o' k'
              → Live o' (entry f i)
              → length (path o' (entry f i)) + length is ≡ 5
              → Small is
              → WalkOutcome o' k' (entry f i) is (ensure_walk phy true k' (entry f i) is))
          → WalkOutcome o k s (i ∷ is) (
              let (k', u) = r in
              elim u [ none ↦ (k', none) | some f ↦ ensure_walk phy true k' (entry f i) is ])
      go (k', none) g ih = (o, g)
      go (k', some f) (o', g, a, p, q) ih =
          prepend-outcome o o' k k' s i f is (ensure_walk phy true k' (entry f i) is) g l a p q (
            ih o' k' f g.tree ((λ z. path-ne-nil o s (sym a ∙ z)), c.0) (omega (arith, ap length a))
              c.1)
