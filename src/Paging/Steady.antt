-- ===== src/Paging/Steady.antt =====
-- What no step of `pte_set_fpn` of src/mm64.c changes, the whole does not change.
use simple_operating_system.Common.{
  ℕ, ◌≡◌, refl, ap, ◌∙◌, inl, inr, true, Option, none, some, List, [], ◌∷◌, Bool-cases,
  Option-cases, ℤ,
}
use simple_operating_system.Mm.{Krnl, Memphy}
use simple_operating_system.Phy.{MemphyOps, clear_table}
use simple_operating_system.Phy.Laws.{MemphyLaws}
use simple_operating_system.Pte.{pte_present, init_pte, mapped_entry}
use simple_operating_system.Paging.{
  Slot, entry, read_slot, write_slot, link_table, fill_slot, ensure_table, ensure_walk, pte_set_fpn,
}
use simple_operating_system.Paging.Map.{page_root, page_lower, finish, pte_set_fpn-finish}

module _ {ℓ} {B : Type ℓ} (phy : MemphyOps) (laws : MemphyLaws phy) (view : Krnl → B)
    (written : (k : Krnl) (s : Slot) (v : ℕ) → view (write_slot k s v) ≡ view k)
    (taken : (k : Krnl) (f : ℕ) (m : Memphy)
      → phy.get_freefp k.mram ≡ some (f, m)
      → view (record k { mram = m }) ≡ view k)
    (cleared : (k : Krnl) (f : ℕ) → view (record k { mram = clear_table k.mram f }) ≡ view k) where
  view-link_table : (k : Krnl) (s : Slot) (f : ℕ) → view (link_table true k s f) ≡ view k
  unfolding link_table
  view-link_table k s f =
      let e = (init_pte (read_slot k s) 1 f 0 0 0 0).1 in
      cleared (write_slot k s e) f ∙ written k s e

  view-ensure_table : (k : Krnl) (s : Slot) → view (ensure_table phy true k s).0 ≡ view k
  unfolding ensure_table fill_slot
  view-ensure_table k s = elim (Bool-cases (pte_present (read_slot k s))) [
    | inl p ↦ rw p refl
    | inr p ↦ elim (Option-cases (phy.get_freefp k.mram)) [
      | inl e ↦ rw (p, e, fill_slot) refl
      | inr ((f, m), e) ↦
          rw (p, e, fill_slot) (view-link_table (record k { mram = m }) s f ∙ taken k f m e)
    ]
  ]

  view-ensure_walk :
      (is : List ℕ) (k : Krnl) (s : Slot) → view (ensure_walk phy true k s is).0 ≡ view k
  unfolding ensure_walk
  view-ensure_walk [] k s = refl
  view-ensure_walk (i ∷ is) k s =
      go (ensure_table phy true k s) (view-ensure_table k s)
        (λ k' f. view-ensure_walk is k' (entry f i))
    where
      go :
          (r : Krnl × Option ℕ)
          → view r.0 ≡ view k
          → ((k' : Krnl) (f : ℕ) → view (ensure_walk phy true k' (entry f i) is).0 ≡ view k')
          → let q : Krnl × Option Slot = elim r.1 [
            | none ↦ (r.0, none)
            | some f ↦ ensure_walk phy true r.0 (entry f i) is
          ] in
            view q.0 ≡ view k
      go (k', none) e ih = e
      go (k', some f) e ih = ih k' f ∙ e

  pub view-pte_set_fpn : (k : Krnl) (pgn fpn : ℕ) → view (pte_set_fpn phy k pgn fpn).0 ≡ view k
  view-pte_set_fpn k pgn fpn =
      ap (λ (r : Krnl × ℤ). view r.0) (pte_set_fpn-finish phy laws k pgn fpn)
      ∙ go (ensure_walk phy true k (page_root pgn) (page_lower pgn))
      ∙ view-ensure_walk (page_lower pgn) k (page_root pgn)
    where
      go : (r : Krnl × Option Slot) → view (finish phy laws r fpn).0 ≡ view r.0
      go (k', none) = refl
      go (k', some s) = written k' s (mapped_entry fpn)
