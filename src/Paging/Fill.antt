-- ===== src/Paging/Fill.antt =====
-- What `fill_slot`, the allocation of one table in src/mm64.c, does to the tree.
use simple_operating_system.Common.{
  ℕ, ◌*◌, ◌≤◌, ◌<◌, ◌≡◌, ◌≢◌, ◌⊎◌, inl, inr, refl, sym, ap, subst, ◌∙◌, true, false, List, [], ◌∷◌,
  ◌==◌, if◌then◌else◌, arith, length, contains, Bool-cases,
}
use simple_operating_system.Mm.{Krnl, paging_pagesz, table_entries}
use simple_operating_system.Phy.{clear_table}
use simple_operating_system.Pte.{pte_present, pte_fpn, init_pte, online_entry}
use simple_operating_system.Pte.Fields.{online_entry-fields, online_entry-word, zero-present}
use simple_operating_system.Paging.{Slot, root, entry, read_slot, write_slot, link_table}
use simple_operating_system.Paging.Tree.{
  Slot-discrete, Owner, path, Live, FreeFrames, Tree, read-write_slot_self, read-write_slot_ne,
  width-write_slot, maxsz-write_slot, free-write_slot, read-clear_self, read-clear_ne, with_cleared,
  path-ne-nil,
}

-- Frame f becomes the table under the entry with this path.
abbrev pub grant : Owner → ℕ → List ℕ → Owner
grant o f p g = if g == f then p else o g

-- The effect on the entries: one entry now leads to a cleared table in a frame that held none.
pub record Filled (o : Owner) (s : Slot) (f : ℕ) (k k' : Krnl) : Type 0 where
  pub fresh : o f ≡ []
  pub width : length k'.mm.pgd ≡ length k.mm.pgd
  pub maxsz : k'.mram.maxsz ≡ k.mram.maxsz
  pub present : pte_present (read_slot k' s) ≡ true
  pub leads : pte_fpn (read_slot k' s) ≡ f
  pub inside : f * paging_pagesz < k.mram.maxsz
  pub cleared : (i : ℕ) → i < table_entries → read_slot k' (entry f i) ≡ 0
  pub kept : (t : Slot) → Live o t → s ≢ t → read_slot k' t ≡ read_slot k t
  pub free : FreeFrames (grant o f (path o s)) k.mram.maxsz k'.mram.free_fp_list
  pub unlisted : contains f k'.mram.free_fp_list ≡ false

-- Frames other than f are free under the new ownership too.
FreeFrames-grant :
    (o : Owner) (f maxsz : ℕ) (p fs : List ℕ)
    → contains f fs ≡ false
    → FreeFrames o maxsz fs
    → FreeFrames (grant o f p) maxsz fs
FreeFrames-grant o f maxsz p [] h v = tt
FreeFrames-grant o f maxsz p (g ∷ fs) h v =
    (ground arith, FreeFrames-grant o f maxsz p fs (ground arith) v.1)

pub link_table-free :
    (k : Krnl) (s : Slot) (f : ℕ) → (link_table true k s f).mram.free_fp_list ≡ k.mram.free_fp_list
unfolding link_table clear_table
link_table-free k s f = free-write_slot k s ((init_pte (read_slot k s) 1 f 0 0 0 0).1)

-- Linking a free frame under an entry of the tree that is not present.
module _ (o : Owner) (k : Krnl) (s : Slot) (f : ℕ) (fs : List ℕ) (t : Tree o k) (live : Live o s)
    (taken : FreeFrames o k.mram.maxsz (f ∷ fs)) (left : k.mram.free_fp_list ≡ fs) where
  written : Krnl
  written = write_slot k s (online_entry (read_slot k s) f)

  fresh : o f ≡ []
  fresh = taken.0.0

  link_table-eq : link_table true k s f ≡ with_cleared written f
  unfolding link_table init_pte written
  link_table-eq = let z : (f == 0) ≡ false = ground arith in rw z

  read_link_self : read_slot (with_cleared written f) s ≡ online_entry (read_slot k s) f
  unfolding written
  read_link_self =
      read-clear_ne written f o s live fresh
      ∙ read-write_slot_self k s _ o t.width live (online_entry-word (read_slot k s) f)

  pub link_table-Filled : Filled o s f k (link_table true k s f)
  unfolding written clear_table
  link_table-Filled = rw link_table-eq (record {
    fresh = fresh;
    width = width-write_slot k s _;
    maxsz = maxsz-write_slot k s (online_entry (read_slot k s) f);
    present = rw read_link_self ((online_entry-fields (read_slot k s) f).0);
    leads = rw read_link_self ((online_entry-fields (read_slot k s) f).2 ∙ omega arith);
    inside = omega (arith, taken.0.3);
    cleared = read-clear_self written f;
    kept = λ u l h. read-clear_ne written f o u l fresh ∙ read-write_slot_ne k s u _ o live l h;
    free =
        rw (free-write_slot k s (online_entry (read_slot k s) f), left)
          (FreeFrames-grant o f k.mram.maxsz (path o s) fs taken.0.4 taken.1);
    unlisted = rw (free-write_slot k s (online_entry (read_slot k s) f), left) taken.0.4;
  })

-- The tree with one more table.
module _ (o : Owner) (s : Slot) (f : ℕ) (k k' : Krnl) (live : Live o s)
    (above : length (path o s) ≤ 4) (t : Tree o k) (d : Filled o s f k k') where
  abbrev pub owner : Owner
  owner = grant o f (path o s)

  pub owner_ne : (g : ℕ) → o g ≢ [] → owner g ≡ o g
  owner_ne g h = elim (Bool-cases (g == f)) [
    | inl e ↦ let e' : g ≡ f = ground arith in absurd (h (ap o e' ∙ d.fresh))
    | inr e ↦ rw e
  ]

  pub owner_self : owner f ≡ path o s
  owner_self = let e : (f == f) ≡ true = ground arith in rw e

  -- A place of the new tree is one of the old, or in the new table.
  pub Live-cases :
      (u : Slot) → Live owner u → Live o u ⊎ ((i : ℕ) × (u ≡ entry f i) × (i < table_entries))
  Live-cases (root i) l = inl l
  Live-cases (entry g i) l = elim (Bool-cases (g == f)) [
    | inl e ↦ let e' : g ≡ f = ground arith in inr (i, ap (λ (x : ℕ). entry x i) e', l.1)
    | inr e ↦ inl ((λ h. l.0 (rw (e, h))), l.1)
  ]

  pub path_kept : (u : Slot) → Live o u → path owner u ≡ path o u
  path_kept (root i) l = refl
  path_kept (entry g i) l = ap (◌∷◌ i) (owner_ne g l.0)

  pub Live-grant : (u : Slot) → Live o u → Live owner u
  Live-grant (root i) l = l
  Live-grant (entry g i) l = ((λ h. l.0 (sym (owner_ne g l.0) ∙ h)), l.1)

  Leads : Slot → Type 0
  Leads u =
      (owner (pte_fpn (read_slot k' u)) ≡ path owner u)
      × (pte_fpn (read_slot k' u) * paging_pagesz < k'.mram.maxsz)

  Leads-same : Leads s
  unfolding Leads
  Leads-same = rw d.leads (owner_self ∙ sym (path_kept s live), omega (arith, d.inside, d.maxsz))

  Leads-old :
      (u : Slot)
      → Live o u
      → s ≢ u
      → length (path owner u) ≤ 4
      → pte_present (read_slot k' u) ≡ true
      → Leads u
  unfolding Leads
  Leads-old u m n h p =
      let e = d.kept u m n in
      let (a, b) = t.tables u m (rw (path_kept u m) at h) (rw e at p) in
      rw e (
        owner_ne (pte_fpn (read_slot k u)) (λ z. path-ne-nil o u (sym a ∙ z))
            ∙ a
            ∙ sym (path_kept u m),
        omega (arith, b, d.maxsz),
      )

  tables' :
      (u : Slot)
      → Live owner u
      → length (path owner u) ≤ 4
      → pte_present (read_slot k' u) ≡ true
      → Leads u
  tables' u l h p = elim (Live-cases u l) [
    | inr (i, e, b) ↦ cc (
      p,
      ap (λ (x : Slot). pte_present (read_slot k' x)) e,
      ap pte_present (d.cleared i b),
      zero-present,
    )
    | inl m ↦ elim (Slot-discrete s u) [
      | yes e ↦ subst Leads e Leads-same
      | no n ↦ Leads-old u m n h p
    ]
  ]

  depth' : (g : ℕ) → length (owner g) ≤ 4
  depth' g = elim (Bool-cases (g == f)) [ inl e ↦ rw e above | inr e ↦ rw e (t.depth g) ]

  pub Tree-grant : Tree (grant o f (path o s)) k'
  unfolding Leads
  Tree-grant = record {
    width = d.width ∙ t.width;
    depth = depth';
    tables = tables';
    free = rw d.maxsz d.free;
  }
