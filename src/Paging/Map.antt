-- ===== src/Paging/Map.antt =====
-- `pte_set_fpn` against `pte_get_entry`: a mapped page reads back, and no other page changes.
use simple_operating_system.Common.{
  ℕ, ◌+◌, ◌%◌, ◌^◌, ◌≤◌, ◌<◌, ◌≡◌, ◌≢◌, inl, inr, refl, sym, ap, ◌∙◌, true, false, Option, none,
  some, List, [], ◌∷◌, arith, length, Bool-cases, ℤ, success, failure,
}
use simple_operating_system.Mm.{Krnl}
use simple_operating_system.Phy.{MemphyOps}
use simple_operating_system.Phy.Laws.{MemphyLaws}
use simple_operating_system.Pte.{pte_present, pte_swapped, pte_fpn, mapped_entry}
use simple_operating_system.Pte.Fields.{truncated-fields, mapped_entry-fields, mapped_entry-word}
use simple_operating_system.Pte.Address.{get_pd_from_pagenum-digits, pgn_digits, digits-injective}
use simple_operating_system.Paging.{
  Slot, root, entry, read_slot, write_slot, walk, lower, ensure_walk, ensure_pte_mapping,
  pte_set_fpn, pte_get_entry,
}
use simple_operating_system.Paging.Tree.{
  Owner, path, Live, Tree, read-write_slot_self, read-write_slot_ne, width-write_slot,
  maxsz-write_slot, free-write_slot,
}
use simple_operating_system.Paging.Ensure.{
  Small, walk_absent, walk_next, next-Live, next-length, next-path, next_slot,
}
use simple_operating_system.Paging.Outcome.{Descends, extend, WalkOutcome, ensure_walk-outcome}

-- Writing an entry of the last level.
module _ (o : Owner) (k : Krnl) (u : Slot) (v : ℕ) (t : Tree o k) (live : Live o u)
    (last : length (path o u) ≡ 5) (small : v < 2 ^ 64) where
  abbrev pub changed : Krnl
  changed = write_slot k u v

  pub read-changed :
      (s : Slot) → Live o s → length (path o s) ≤ 4 → read_slot changed s ≡ read_slot k s
  read-changed s l a =
      read-write_slot_ne k u s v o live l
        (λ z. omega (arith, last, ap (λ (x : Slot). length (path o x)) z))

  pub Tree-changed : Tree o changed
  Tree-changed = record {
    width = width-write_slot k u v ∙ t.width;
    depth = t.depth;
    tables = λ s l a p.
        let e = read-changed s l a in rw (e, maxsz-write_slot k u v) (t.tables s l a (rw e at p));
    free = rw (maxsz-write_slot k u v, free-write_slot k u v) t.free;
  }

  pub walk-changed_self :
      (is : List ℕ) (s : Slot)
      → Live o s
      → length (path o s) + length is ≡ 5
      → Small is
      → Descends k s is u
      → walk changed s is ≡ v
  unfolding walk
  walk-changed_self [] s l e c d =
      ap (read_slot changed) d ∙ read-write_slot_self k u v o t.width live small
  walk-changed_self (i ∷ is) s l e c (p, d) =
      let a : length (path o s) ≤ 4 = omega arith in
      let r = read-changed s l a in
      walk_next Tree-changed s l a (rw r p) i is
      ∙ ap (λ (x : ℕ). walk changed (entry (pte_fpn x) i) is) r
      ∙ walk-changed_self is (next_slot t s l a p i) (next-Live t s l a p i c.0)
          (omega (arith, next-length t s l a p i)) c.1 d

  pub walk-changed_other :
      (is : List ℕ) (s : Slot)
      → Live o s
      → length (path o s) + length is ≡ 5
      → Small is
      → extend is (path o s) ≢ path o u
      → walk changed s is ≡ walk k s is
  unfolding walk
  walk-changed_other [] s l e c h =
      read-write_slot_ne k u s v o live l (λ z. h (ap (path o) (sym z)))
  walk-changed_other (i ∷ is) s l e c h =
      let a : length (path o s) ≤ 4 = omega arith in
      let r = read-changed s l a in
      elim (Bool-cases (pte_present (read_slot k s))) [
        | inl p ↦
            walk_next Tree-changed s l a (rw r p) i is
            ∙ ap (λ (x : ℕ). walk changed (entry (pte_fpn x) i) is) r
            ∙ walk-changed_other is (next_slot t s l a p i) (next-Live t s l a p i c.0)
                (omega (arith, next-length t s l a p i)) c.1
                (λ z. h (ap (extend is) (sym (next-path t s l a p i)) ∙ z))
            ∙ sym (walk_next t s l a p i is)
        | inr p ↦ walk_absent changed s i is (rw r p) ∙ sym (walk_absent k s i is p)
      ]

-- The walk of a page number.
abbrev pub page_root : ℕ → Slot
page_root pgn = root (pgn_digits pgn).pgd

abbrev pub page_lower : ℕ → List ℕ
page_lower pgn = lower (pgn_digits pgn)

pub page-Small : (pgn : ℕ) → Small (page_lower pgn)
page-Small pgn = omega arith

pub page-Live : (o : Owner) (pgn : ℕ) → Live o (page_root pgn)
page-Live o pgn = omega arith

-- Different pages have different places.
page-apart :
    (p q : ℕ)
    → p < 2 ^ 45
    → q < 2 ^ 45
    → p ≢ q
    → extend (page_lower p) ((pgn_digits p).pgd ∷ [])
      ≢ extend (page_lower q) ((pgn_digits q).pgd ∷ [])
page-apart p q hp hq h e = h (digits-injective p q hp hq (cc e))

pub pte_get_entry-walk :
    (k : Krnl) (pgn : ℕ) → pte_get_entry k pgn ≡ walk k (page_root pgn) (page_lower pgn) % 2 ^ 32
unfolding pte_get_entry
pte_get_entry-walk k pgn = rw (get_pd_from_pagenum-digits pgn, pte_get_entry)

module _ (phy : MemphyOps) (laws : MemphyLaws phy) where
  -- The last write of `pte_set_fpn`.
  abbrev pub finish : Krnl × Option Slot → ℕ → Krnl × ℤ
  finish (k, none) fpn = (k, failure)
  finish (k, some s) fpn = (write_slot k s (mapped_entry fpn), success)

  pub pte_set_fpn-finish :
      (k : Krnl) (pgn fpn : ℕ)
      → pte_set_fpn phy k pgn fpn
        ≡ finish (ensure_walk phy true k (page_root pgn) (page_lower pgn)) fpn
  unfolding pte_set_fpn ensure_pte_mapping
  pte_set_fpn-finish k pgn fpn =
      rw (get_pd_from_pagenum-digits pgn, pte_set_fpn)
        (split (ensure_walk phy true k (page_root pgn) (page_lower pgn)))
    where
      split :
          (r : Krnl × Option Slot)
          → ◌≡◌ {A = Krnl × ℤ}
              (elim r.1 [
                | none ↦ (r.0, failure)
                | some s ↦ (write_slot r.0 s (mapped_entry fpn), success)
              ])
              (finish r fpn)
      split (k', none) = refl
      split (k', some s) = refl

  module _ {o : Owner} {k : Krnl} (t : Tree o k) (pgn fpn : ℕ) where
    walked : Krnl × Option Slot
    walked = ensure_walk phy true k (page_root pgn) (page_lower pgn)

    outcome : WalkOutcome o k (page_root pgn) (page_lower pgn) walked
    unfolding walked
    outcome =
        ensure_walk-outcome phy laws (page_lower pgn) o k (page_root pgn) t (page-Live o pgn) refl
          (page-Small pgn)

    -- Mapping a page keeps the page tables a tree, whether it succeeds or not.
    pub pte_set_fpn-Tree : (o' : Owner) × Tree o' (pte_set_fpn phy k pgn fpn).0
    unfolding walked
    pte_set_fpn-Tree = rw (pte_set_fpn-finish k pgn fpn) (go walked outcome)
      where
        go :
            (r : Krnl × Option Slot)
            → WalkOutcome o k (page_root pgn) (page_lower pgn) r
            → (o' : Owner) × Tree o' (finish r fpn).0
        go (k', none) (o', g) = (o', g.tree)
        go (k', some s) (o', g, l, e, d) = (
          o',
          Tree-changed o' k' s (mapped_entry fpn) g.tree l (ap length e) (mapped_entry-word fpn),
        )

    -- On a tree, mapping a page leaves the entry of every other page as it is, whether it succeeds
    -- or not. Both page numbers lie in the 57-bit address space.
    pub pte_set_fpn-others :
        (q : ℕ)
        → pgn < 2 ^ 45
        → q < 2 ^ 45
        → pgn ≢ q
        → pte_get_entry (pte_set_fpn phy k pgn fpn).0 q ≡ pte_get_entry k q
    unfolding walked
    pte_set_fpn-others q hp hq h =
        rw (pte_set_fpn-finish k pgn fpn, pte_get_entry-walk)
          (rw (pte_get_entry-walk k q) (ap (λ (x : ℕ). x % 2 ^ 32) (go walked outcome)))
      where
        go :
            (r : Krnl × Option Slot)
            → WalkOutcome o k (page_root pgn) (page_lower pgn) r
            → walk (finish r fpn).0 (page_root q) (page_lower q)
              ≡ walk k (page_root q) (page_lower q)
        go (k', none) (o', g) =
            g.walks (page_root q) (page_lower q) (page-Live o q) refl (page-Small q)
        go (k', some s) (o', g, l, e, d) =
            walk-changed_other o' k' s (mapped_entry fpn) g.tree l (ap length e)
              (mapped_entry-word fpn) (page_lower q) (page_root q) (page-Live o' q) refl
              (page-Small q) (λ z. page-apart q pgn hq hp (λ w. h (sym w)) (z ∙ e))
            ∙ g.walks (page_root q) (page_lower q) (page-Live o q) refl (page-Small q)

    -- On a tree, a page that is mapped reads back as present, not swapped, with the lowest 13
    -- digits of its frame number.
    pub pte_set_fpn-get :
        (k' : Krnl)
        → pte_set_fpn phy k pgn fpn ≡ (k', success)
        → (pte_present (pte_get_entry k' pgn) ≡ true)
          × (pte_swapped (pte_get_entry k' pgn) ≡ false)
          × (pte_fpn (pte_get_entry k' pgn) ≡ fpn % 8192)
    unfolding walked
    pte_set_fpn-get k' h =
        rw (entry_is walked outcome (sym (pte_set_fpn-finish k pgn fpn) ∙ h)) mapped_entry-read
      where
        entry_is :
            (r : Krnl × Option Slot)
            → WalkOutcome o k (page_root pgn) (page_lower pgn) r
            → finish r fpn ≡ (k', success)
            → pte_get_entry k' pgn ≡ mapped_entry fpn % 2 ^ 32
        entry_is (k1, none) g e = cc
        entry_is (k1, some s) (o', g, l, b, d) e =
            let same : write_slot k1 s (mapped_entry fpn) ≡ k' = ap (λ (x : Krnl × ℤ). x.0) e in
            pte_get_entry-walk k' pgn
            ∙ ap (λ (x : Krnl). walk x (page_root pgn) (page_lower pgn) % 2 ^ 32) (sym same)
            ∙ ap (λ (x : ℕ). x % 2 ^ 32)
                (walk-changed_self o' k1 s (mapped_entry fpn) g.tree l (ap length b)
                  (mapped_entry-word fpn) (page_lower pgn) (page_root pgn) (page-Live o' pgn) refl
                  (page-Small pgn) d)

        mapped_entry-read :
            (pte_present (mapped_entry fpn % 2 ^ 32) ≡ true)
            × (pte_swapped (mapped_entry fpn % 2 ^ 32) ≡ false)
            × (pte_fpn (mapped_entry fpn % 2 ^ 32) ≡ fpn % 8192)
        mapped_entry-read =
            let (a, b, c) = mapped_entry-fields fpn in
            let (a', b', c') = truncated-fields (mapped_entry fpn) in (a' ∙ a, b' ∙ b, c' ∙ c)
