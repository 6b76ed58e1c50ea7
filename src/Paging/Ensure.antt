-- ===== src/Paging/Ensure.antt =====
-- What one more table of `ensure_pte_mapping` of src/mm64.c keeps: the tree, the entries that are
-- present and every translation.
use simple_operating_system.Common.{
  ℕ, suc, ◌+◌, ◌*◌, ◌≤◌, ◌<◌, ◌≡◌, ◌≢◌, ◌⊎◌, inl, inr, refl, sym, ap, subst, ◌∙◌, true, false, List,
  [], ◌∷◌, lt→leb, arith, length, contains, Bool-cases,
}
use simple_operating_system.Mm.{Krnl, paging_pagesz, table_entries}
use simple_operating_system.Pte.{pte_present, pte_fpn}
use simple_operating_system.Pte.Fields.{zero-present}
use simple_operating_system.Paging.{Slot, root, entry, read_slot, walk}
use simple_operating_system.Paging.Tree.{Slot-discrete, Owner, path, path-ne-nil, Live, Tree}
use simple_operating_system.Paging.Fill.{grant, Filled, Tree-grant, owner_ne, Live-cases}

abbrev pub Small : List ℕ → Type 0
Small [] = Unit {0}
Small (i ∷ is) = (i < table_entries) × Small is

-- What the allocation of tables keeps: the tables there are, the entries that are present, the
-- entries of the last level, and every translation. Only frames of the free list become tables, and
-- no new entry of the last level is present.
pub record Grown (o : Owner) (k : Krnl) (o' : Owner) (k' : Krnl) : Type 0 where
  pub tree : Tree o' k'
  pub extends : (f : ℕ) → o f ≢ [] → o' f ≡ o f
  pub kept :
      (s : Slot)
      → Live o s
      → (length (path o s) ≡ 5) ⊎ (pte_present (read_slot k s) ≡ true)
      → read_slot k' s ≡ read_slot k s
  pub walks :
      (s : Slot) (is : List ℕ)
      → Live o s
      → length (path o s) + length is ≡ 5
      → Small is
      → walk k' s is ≡ walk k s is
  pub maxsz : k'.mram.maxsz ≡ k.mram.maxsz
  pub taken_only :
      (g : ℕ)
      → contains g k.mram.free_fp_list ≡ false
      → (contains g k'.mram.free_fp_list ≡ false) × (o' g ≡ o g)
  pub leaves :
      (s : Slot)
      → Live o' s
      → length (path o' s) ≡ 5
      → pte_present (read_slot k' s) ≡ true
      → Live o s

pub Grown-refl : {o : Owner} {k : Krnl} → Tree o k → Grown o k o k
Grown-refl t = record {
  tree = t;
  extends = λ f h. refl;
  kept = λ s l h. refl;
  walks = λ s is l e h. refl;
  maxsz = refl;
  taken_only = λ g h. (h, refl);
  leaves = λ s l e h. l;
}

module _ {o o' : Owner} {k k' : Krnl} (g : Grown o k o' k') where
  pub Live-Grown : (s : Slot) → Live o s → Live o' s
  Live-Grown (root i) l = l
  Live-Grown (entry f i) l = ((λ h. l.0 (sym (g.extends f l.0) ∙ h)), l.1)

  pub path-Grown : (s : Slot) → Live o s → path o' s ≡ path o s
  path-Grown (root i) l = refl
  path-Grown (entry f i) l = ap (◌∷◌ i) (g.extends f l.0)

  pub Grown-trans : {o'' : Owner} {k'' : Krnl} → Grown o' k' o'' k'' → Grown o k o'' k''
  Grown-trans {o''} {k''} h = record {
    tree = h.tree;
    extends = λ f e. h.extends f (λ z. e (sym (g.extends f e) ∙ z)) ∙ g.extends f e;
    kept = λ s l c. h.kept s (Live-Grown s l) (still s l c) ∙ g.kept s l c;
    walks =
        λ s is l e c. h.walks s is (Live-Grown s l) (rw (path-Grown s l) e) c ∙ g.walks s is l e c;
    maxsz = h.maxsz ∙ g.maxsz;
    taken_only =
        λ f e. let (a, b) = g.taken_only f e in let (c, d) = h.taken_only f a in (c, d ∙ b);
    leaves = λ s l e p. old s (h.leaves s l e p) e p;
  }
    where
      later : (s : Slot) → Live o' s → path o'' s ≡ path o' s
      later (root i) l = refl
      later (entry f i) l = ap (◌∷◌ i) (h.extends f l.0)

      old :
          (s : Slot)
          → Live o' s
          → length (path o'' s) ≡ 5
          → pte_present (read_slot k'' s) ≡ true
          → Live o s
      old s l e p =
          let five : length (path o' s) ≡ 5 = rw (later s l) at e in
          g.leaves s l five (rw (h.kept s l (inl five)) at p)

      still :
          (s : Slot)
          → Live o s
          → (length (path o s) ≡ 5) ⊎ (pte_present (read_slot k s) ≡ true)
          → (length (path o' s) ≡ 5) ⊎ (pte_present (read_slot k' s) ≡ true)
      still s l (inl e) = inl (rw (path-Grown s l) e)
      still s l (inr e) = inr (rw (g.kept s l (inr e)) e)

-- A walk that starts at a cleared entry finds nothing.
walk_zero : (k : Krnl) (s : Slot) (is : List ℕ) → read_slot k s ≡ 0 → walk k s is ≡ 0
unfolding walk
walk_zero k s [] e = e
walk_zero k s (i ∷ is) e = rw (e, zero-present)

pub walk_absent :
    (k : Krnl) (s : Slot) (i : ℕ) (is : List ℕ)
    → pte_present (read_slot k s) ≡ false
    → walk k s (i ∷ is) ≡ 0
unfolding walk
walk_absent k s i is e = rw e

pub walk_present :
    (k : Krnl) (s : Slot) (i : ℕ) (is : List ℕ)
    → pte_present (read_slot k s) ≡ true
    → pte_fpn (read_slot k s) * paging_pagesz < k.mram.maxsz
    → walk k s (i ∷ is) ≡ walk k (entry (pte_fpn (read_slot k s)) i) is
unfolding walk
walk_present k s i is e h = rw (e, lt→leb k.mram.maxsz (pte_fpn (read_slot k s) * paging_pagesz) h)

-- The next place of a walk through an entry that is present.
module _ {o : Owner} {k : Krnl} (t : Tree o k) (u : Slot) (l : Live o u) (a : length (path o u) ≤ 4)
    (p : pte_present (read_slot k u) ≡ true) where
  abbrev pub next_slot : ℕ → Slot
  next_slot i = entry (pte_fpn (read_slot k u)) i

  pub next-Live : (i : ℕ) → i < table_entries → Live o (next_slot i)
  next-Live i h = ((λ z. path-ne-nil o u (sym (t.tables u l a p).0 ∙ z)), h)

  pub next-path : (i : ℕ) → path o (next_slot i) ≡ i ∷ path o u
  next-path i = ap (◌∷◌ i) ((t.tables u l a p).0)

  pub next-length : (i : ℕ) → length (path o (next_slot i)) ≡ suc (length (path o u))
  next-length i = ap length (next-path i)

  pub walk_next : (i : ℕ) (is : List ℕ) → walk k u (i ∷ is) ≡ walk k (next_slot i) is
  walk_next i is = walk_present k u i is p ((t.tables u l a p).1)

-- One new table changes no translation.
module _ (o : Owner) (s : Slot) (f : ℕ) (k k' : Krnl) (t : Tree o k) (d : Filled o s f k k')
    (absent : pte_present (read_slot k s) ≡ false) (above : length (path o s) ≤ 4) where
  walk-Filled_self :
      (i : ℕ) (is : List ℕ) → i < table_entries → walk k' s (i ∷ is) ≡ walk k s (i ∷ is)
  walk-Filled_self i is h =
      walk_present k' s i is d.present (rw (d.leads, d.maxsz) d.inside)
      ∙ ap (λ (g : ℕ). walk k' (entry g i) is) d.leads
      ∙ walk_zero k' (entry f i) is (d.cleared i h)
      ∙ sym (walk_absent k s i is absent)

  pub walk-Filled :
      (is : List ℕ) (u : Slot)
      → Live o u
      → length (path o u) + length is ≡ 5
      → Small is
      → walk k' u is ≡ walk k u is
  unfolding walk
  walk-Filled [] u l e c =
      d.kept u l (λ z. omega (arith, above, ap (λ (x : Slot). length (path o x)) z))
  walk-Filled (i ∷ is) u l e c = elim (Slot-discrete s u) [
    | yes z ↦
        subst (λ (x : Slot). walk k' x (i ∷ is) ≡ walk k x (i ∷ is)) z (walk-Filled_self i is c.0)
    | no n ↦
        let r = d.kept u l n in
        elim (Bool-cases (pte_present (read_slot k u))) [
          | inl p ↦
              let a : length (path o u) ≤ 4 = omega arith in
              let ih =
                walk-Filled is (next_slot t u l a p i) (next-Live t u l a p i c.0)
                  (omega (arith, next-length t u l a p i)) c.1 in
              walk_present k' u i is (rw r p) (rw (r, d.maxsz) ((t.tables u l a p).1))
              ∙ ap (λ (x : ℕ). walk k' (entry (pte_fpn x) i) is) r
              ∙ ih
              ∙ sym (walk_next t u l a p i is)
          | inr p ↦ walk_absent k' u i is (rw r p) ∙ sym (walk_absent k u i is p)
        ]
  ]

pub Filled-Grown :
    (o : Owner) (s : Slot) (f : ℕ) (k k' : Krnl)
    → Live o s
    → length (path o s) ≤ 4
    → pte_present (read_slot k s) ≡ false
    → Tree o k
    → Filled o s f k k'
    → k.mram.free_fp_list ≡ f ∷ k'.mram.free_fp_list
    → Grown o k (grant o f (path o s)) k'
Filled-Grown o s f k k' l a p t d taken = record {
  tree = Tree-grant o s f k k' l a t d;
  extends = owner_ne o s f k k' l a t d;
  kept = λ u m c. d.kept u m (apart u c);
  walks = λ u is m e c. walk-Filled o s f k k' t d p a is u m e c;
  maxsz = d.maxsz;
  taken_only = λ g h. other g (ap (contains g) (sym taken) ∙ h);
  leaves = λ u m e q. elim (Live-cases o s f k k' l a t d u m) [
    | inl n ↦ n
    | inr (i, z, b) ↦ cc (
      q,
      ap (λ (x : Slot). pte_present (read_slot k' x)) z,
      ap pte_present (d.cleared i b),
      zero-present,
    )
  ];
}
  where
    other :
        (g : ℕ)
        → contains g (f ∷ k'.mram.free_fp_list) ≡ false
        → (contains g k'.mram.free_fp_list ≡ false) × (grant o f (path o s) g ≡ o g)
    other g h = ground arith

    apart : (u : Slot) → (length (path o u) ≡ 5) ⊎ (pte_present (read_slot k u) ≡ true) → s ≢ u
    apart u (inl e) z = omega (arith, a, ap (λ (x : Slot). length (path o x)) z)
    apart u (inr e) z = cc (e, p, ap (λ (x : Slot). pte_present (read_slot k x)) z)
