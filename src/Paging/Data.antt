-- ===== src/Paging/Data.antt =====
-- A byte written into a frame that holds no table of src/mm64.c changes no translation.
use simple_operating_system.Common.{
  ℕ, ◌+◌, ◌*◌, ◌%◌, ◌^◌, ◌≤◌, ◌<◌, ◌≡◌, ◌≢◌, inl, inr, refl, sym, ap, ◌∙◌, List, [], ◌∷◌, arith,
  length, Bool-cases,
}
use native.Mathlib.Decide.{dec_lt}
use simple_operating_system.Mm.{Krnl, paging_pagesz}
use simple_operating_system.Phy.{entry_addr, update}
use simple_operating_system.Phy.Words.{load64-congr}
use simple_operating_system.Pte.{pte_present, pte_fpn}
use simple_operating_system.Paging.{Slot, root, entry, read_slot, walk, pte_get_entry}
use simple_operating_system.Paging.Tree.{Owner, path, Live, Tree}
use simple_operating_system.Paging.Ensure.{
  Small, walk_absent, walk_next, next-Live, next-length, next_slot,
}
use simple_operating_system.Paging.Map.{
  page_root, page_lower, page-Small, page-Live, pte_get_entry-walk,
}

module _ (o : Owner) (k : Krnl) (f a v : ℕ) (t : Tree o k) (data_frame : o f ≡ [])
    (low : f * paging_pagesz ≤ a) (high : a < f * paging_pagesz + paging_pagesz) where
  abbrev pub poked : Krnl
  poked = record k { mram = record k.mram { storage = update k.mram.storage a v } }

  read-poked : (s : Slot) → Live o s → read_slot poked s ≡ read_slot k s
  unfolding read_slot
  read-poked (root i) l = refl
  read-poked (entry g i) l =
      load64-congr (update k.mram.storage a v) k.mram.storage (entry_addr g i) outside
    where
      apart : g ≢ f
      apart e = l.0 (ap o e ∙ data_frame)

      other : (x : ℕ) → entry_addr g i ≤ x → x < entry_addr g i + 8 → x ≢ a
      other x p q e = elim (dec_lt g f) [
        | yes h ↦ omega (arith, l.1)
        | no h ↦ elim (dec_lt f g) [
          | yes h' ↦ omega (arith, l.1)
          | no h' ↦ let same : g ≡ f = omega arith in absurd (apart same)
        ]
      ]

      outside :
          (x : ℕ)
          → entry_addr g i ≤ x
          → x < entry_addr g i + 8
          → update k.mram.storage a v x ≡ k.mram.storage x
      outside x p q = ground (arith, other x p q)

  pub Tree-poked : Tree o poked
  Tree-poked = record {
    width = t.width;
    depth = t.depth;
    tables = λ s l b p. let e = read-poked s l in rw e (t.tables s l b (rw e at p));
    free = t.free;
  }

  walk-poked :
      (is : List ℕ) (s : Slot)
      → Live o s
      → length (path o s) + length is ≡ 5
      → Small is
      → walk poked s is ≡ walk k s is
  unfolding walk
  walk-poked [] s l e c = read-poked s l
  walk-poked (i ∷ is) s l e c =
      let b : length (path o s) ≤ 4 = omega arith in
      let r = read-poked s l in
      elim (Bool-cases (pte_present (read_slot k s))) [
        | inl p ↦
            walk_next Tree-poked s l b (rw r p) i is
            ∙ ap (λ (x : ℕ). walk poked (entry (pte_fpn x) i) is) r
            ∙ walk-poked is (next_slot t s l b p i) (next-Live t s l b p i c.0)
                (omega (arith, next-length t s l b p i)) c.1
            ∙ sym (walk_next t s l b p i is)
        | inr p ↦ walk_absent poked s i is (rw r p) ∙ sym (walk_absent k s i is p)
      ]

  pub get-poked : (q : ℕ) → pte_get_entry poked q ≡ pte_get_entry k q
  get-poked q =
      pte_get_entry-walk poked q
      ∙ ap (λ (x : ℕ). x % 2 ^ 32)
          (walk-poked (page_lower q) (page_root q) (page-Live o q) refl (page-Small q))
      ∙ sym (pte_get_entry-walk k q)
