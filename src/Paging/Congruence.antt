-- ===== src/Paging/Congruence.antt =====
-- The walks of src/mm64.c read `pgd`, the storage and the size of the RAM, and nothing else.
use simple_operating_system.Common.{
  ℕ, ◌%◌, ◌^◌, ◌≡◌, refl, sym, ap, ◌∙◌, List, [], ◌∷◌, get_or, length,
}
use simple_operating_system.Mm.{Krnl}
use simple_operating_system.Phy.{load64, entry_addr}
use simple_operating_system.Pte.{pte_fpn}
use simple_operating_system.Paging.{Slot, root, entry, read_slot, walk, pte_get_entry}
use simple_operating_system.Paging.Tree.{Owner, Tree}
use simple_operating_system.Paging.Map.{page_root, page_lower, pte_get_entry-walk}

module _ (k l : Krnl) (same_pgd : k.mm.pgd ≡ l.mm.pgd)
    (same_storage : k.mram.storage ≡ l.mram.storage)
    (same_maxsz : k.mram.maxsz ≡ l.mram.maxsz) where
  read_same : (s : Slot) → read_slot k s ≡ read_slot l s
  unfolding read_slot
  read_same (root i) = ap (λ (a : List ℕ). get_or a i 0) same_pgd
  read_same (entry f i) = ap (λ (st : ℕ → ℕ). load64 st (entry_addr f i)) same_storage

  walk_same : (is : List ℕ) (s : Slot) → walk k s is ≡ walk l s is
  unfolding walk
  walk_same [] s = read_same s
  walk_same (i ∷ is) s =
      rw (read_same s, same_maxsz, walk_same is (entry (pte_fpn (read_slot l s)) i)) refl

  pub get_same : (q : ℕ) → pte_get_entry k q ≡ pte_get_entry l q
  get_same q =
      pte_get_entry-walk k q
      ∙ ap (λ (x : ℕ). x % 2 ^ 32) (walk_same (page_lower q) (page_root q))
      ∙ sym (pte_get_entry-walk l q)

  pub Tree-same : (o : Owner) → k.mram.free_fp_list ≡ l.mram.free_fp_list → Tree o l → Tree o k
  Tree-same o e t = record {
    width = ap length same_pgd ∙ t.width;
    depth = t.depth;
    tables = λ s a b p. rw (read_same s, same_maxsz) (t.tables s a b (rw (read_same s) at p));
    free = rw (e, same_maxsz) t.free;
  }
