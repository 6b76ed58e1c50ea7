-- ===== src/Paging/Owned.antt =====
-- What `pte_set_fpn` leaves of the devices: frames that were not free keep their owner.
use simple_operating_system.Common.{
  ℕ, ◌≡◌, refl, ap, ◌∙◌, true, false, Option, none, some, length, contains,
}
use simple_operating_system.Mm.{Krnl}
use simple_operating_system.Phy.{MemphyOps, clear_table}
use simple_operating_system.Phy.Laws.{MemphyLaws}
use simple_operating_system.Pte.{mapped_entry}
use simple_operating_system.Pte.Fields.{mapped_entry-word}
use simple_operating_system.Paging.{Slot, root, entry, write_slot, ensure_walk, pte_set_fpn}
use simple_operating_system.Paging.Tree.{Owner, Tree, maxsz-write_slot, free-write_slot}
use simple_operating_system.Paging.Outcome.{WalkOutcome, ensure_walk-outcome}
use simple_operating_system.Paging.Steady.{view-pte_set_fpn}
use simple_operating_system.Paging.Map.{
  page_root, page_lower, page-Small, page-Live, Tree-changed, finish, pte_set_fpn-finish,
}

rdmflg-write_slot : (k : Krnl) (s : Slot) (v : ℕ) → (write_slot k s v).mram.rdmflg ≡ k.mram.rdmflg
unfolding write_slot
rdmflg-write_slot k (root i) v = refl
rdmflg-write_slot k (entry f i) v = refl

-- A frame that is not free before is not free after, and keeps its owner.
pub record Keeps (o : Owner) (k : Krnl) (o' : Owner) (k' : Krnl) : Type 0 where
  pub tree : Tree o' k'
  pub owner : (g : ℕ) → contains g k.mram.free_fp_list ≡ false → o' g ≡ o g
  pub listed :
      (g : ℕ) → contains g k.mram.free_fp_list ≡ false → contains g k'.mram.free_fp_list ≡ false
  pub maxsz : k'.mram.maxsz ≡ k.mram.maxsz

module _ (phy : MemphyOps) (laws : MemphyLaws phy) where
  pub rdmflg-pte_set_fpn :
      (k : Krnl) (pgn fpn : ℕ) → (pte_set_fpn phy k pgn fpn).0.mram.rdmflg ≡ k.mram.rdmflg
  unfolding clear_table
  rdmflg-pte_set_fpn =
      view-pte_set_fpn phy laws (λ k. k.mram.rdmflg) rdmflg-write_slot
        (λ k f m e. (laws.taken k.mram m f e).3) (λ k f. refl)

  pub pte_set_fpn-Keeps :
      {o : Owner} {k : Krnl}
      → Tree o k
      → (pgn fpn : ℕ) → (o' : Owner) × Keeps o k o' (pte_set_fpn phy k pgn fpn).0
  pte_set_fpn-Keeps {o} {k} t pgn fpn = rw (pte_set_fpn-finish phy laws k pgn fpn) (
      go (ensure_walk phy true k (page_root pgn) (page_lower pgn)) (
        ensure_walk-outcome phy laws (page_lower pgn) o k (page_root pgn) t (page-Live o pgn) refl
          (page-Small pgn)))
    where
      go :
          (r : Krnl × Option Slot)
          → WalkOutcome o k (page_root pgn) (page_lower pgn) r
          → (o' : Owner) × Keeps o k o' (finish phy laws r fpn).0
      go (k', none) (o', g) = (
        o',
        record {
          tree = g.tree;
          owner = λ f h. (g.taken_only f h).1;
          listed = λ f h. (g.taken_only f h).0;
          maxsz = g.maxsz;
        },
      )
      go (k', some s) (o', g, l, e, d) = (
        o',
        record {
          tree =
              Tree-changed o' k' s (mapped_entry fpn) g.tree l (ap length e)
                (mapped_entry-word fpn);
          owner = λ f h. (g.taken_only f h).1;
          listed = λ f h. rw (free-write_slot k' s (mapped_entry fpn)) ((g.taken_only f h).0);
          maxsz = maxsz-write_slot k' s (mapped_entry fpn) ∙ g.maxsz;
        },
      )
