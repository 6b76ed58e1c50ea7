-- ===== src/Paging/Tree.antt =====
-- The tables of src/mm64.c form a tree: what that means, and what a write of one entry changes.
use simple_operating_system.Common.{
  ℕ, ◌+◌, ◌*◌, ◌^◌, ◌≤◌, ◌<◌, ◌≡◌, ◌≢◌, ◌⊎◌, inl, inr, refl, sym, ap, ◌∙◌, true, false, List, [],
  ◌∷◌, arith, length, contains, length-set, get_or-set_self, get_or-set_ne,
}
use native.Mathlib.Decide.{ℕ_discrete, dec_lt}
use simple_operating_system.Mm.{Krnl, paging_pagesz, table_entries}
use simple_operating_system.Phy.{entry_addr, clear_table, zero_words}
use simple_operating_system.Phy.Words.{
  load64-store64_self, load64-store64_ne, load64-zero_words, zero_words-outside, load64-congr,
}
use simple_operating_system.Pte.{pte_present, pte_fpn}
use simple_operating_system.Paging.{Slot, root, entry, read_slot, write_slot}

pub Slot-discrete : Discrete Slot
Slot-discrete = hlevel ℕ_discrete

-- Which entry of the tree a frame holds the table of: the indices that lead to it, the last first;
-- none for a frame that holds no table.
abbrev pub Owner : Type 0
Owner = ℕ → List ℕ

abbrev pub path : Owner → Slot → List ℕ
path o (root i) = i ∷ []
path o (entry f i) = i ∷ o f

-- A place inside `mm->pgd` or inside a table.
abbrev pub Live : Owner → Slot → Type 0
Live o (root i) = i < table_entries
Live o (entry f i) = (o f ≢ []) × (i < table_entries)

-- The free frames hold no table, are distinct, and can be named by an entry.
abbrev pub FreeFrames : Owner → ℕ → List ℕ → Type 0
FreeFrames o maxsz [] = Unit {0}
FreeFrames o maxsz (f ∷ fs) =
    ((o f ≡ [])
      × (0 < f)
      × (f < 8192)
      × (f * paging_pagesz + paging_pagesz ≤ maxsz)
      × (contains f fs ≡ false))
    × FreeFrames o maxsz fs

-- An entry above the last level leads to the table that the frame belongs to.
pub record Tree (o : Owner) (k : Krnl) : Type 0 where
  pub width : length k.mm.pgd ≡ table_entries
  pub depth : (f : ℕ) → length (o f) ≤ 4
  pub tables :
      (s : Slot)
      → Live o s
      → length (path o s) ≤ 4
      → pte_present (read_slot k s) ≡ true
      → (o (pte_fpn (read_slot k s)) ≡ path o s)
        × (pte_fpn (read_slot k s) * paging_pagesz < k.mram.maxsz)
  pub free : FreeFrames o k.mram.maxsz k.mram.free_fp_list

pub path-ne-nil : (o : Owner) (s : Slot) → path o s ≢ []
path-ne-nil o (root i) = λ e. cc
path-ne-nil o (entry f i) = λ e. cc

entry_addr-apart :
    (f i g j : ℕ)
    → i < table_entries
    → j < table_entries
    → entry f i ≢ entry g j
    → (entry_addr g j + 8 ≤ entry_addr f i) ⊎ (entry_addr f i + 8 ≤ entry_addr g j)
entry_addr-apart f i g j hi hj h = elim (dec_lt f g) [
  | yes p ↦ inr (omega arith)
  | no p ↦ elim (dec_lt g f) [
    | yes q ↦ inl (omega arith)
    | no q ↦ elim (dec_lt i j) [
      | yes r ↦ inr (omega arith)
      | no r ↦ elim (dec_lt j i) [
        | yes t ↦ inl (omega arith)
        | no t ↦
            let e : f ≡ g = omega arith in let e' : i ≡ j = omega arith in absurd (h (cc (e, e')))
      ]
    ]
  ]
]

-- A written entry reads back, and every other entry of the tree stays.
pub read-write_slot_self :
    (k : Krnl) (s : Slot) (v : ℕ) (o : Owner)
    → length k.mm.pgd ≡ table_entries
    → Live o s
    → v < 2 ^ 64
    → read_slot (write_slot k s v) s ≡ v
unfolding read_slot write_slot
read-write_slot_self k (root i) v o w l h = get_or-set_self k.mm.pgd i v 0 (omega arith)
read-write_slot_self k (entry f i) v o w l h =
    load64-store64_self k.mram.storage (entry_addr f i) v h

pub read-write_slot_ne :
    (k : Krnl) (s t : Slot) (v : ℕ) (o : Owner)
    → Live o s
    → Live o t
    → s ≢ t
    → read_slot (write_slot k s v) t ≡ read_slot k t
unfolding read_slot write_slot
read-write_slot_ne k (root i) (root j) v o l m h =
    get_or-set_ne k.mm.pgd i j v 0 (λ e. h (ap root e))
read-write_slot_ne k (root i) (entry g j) v o l m h = refl
read-write_slot_ne k (entry f i) (root j) v o l m h = refl
read-write_slot_ne k (entry f i) (entry g j) v o l m h =
    load64-store64_ne k.mram.storage (entry_addr f i) (entry_addr g j) v
      (entry_addr-apart f i g j l.1 m.1 h)

pub width-write_slot :
    (k : Krnl) (s : Slot) (v : ℕ) → length (write_slot k s v).mm.pgd ≡ length k.mm.pgd
unfolding write_slot
width-write_slot k (root i) v = length-set k.mm.pgd i v
width-write_slot k (entry f i) v = refl

pub maxsz-write_slot : (k : Krnl) (s : Slot) (v : ℕ) → (write_slot k s v).mram.maxsz ≡ k.mram.maxsz
unfolding write_slot
maxsz-write_slot k (root i) v = refl
maxsz-write_slot k (entry f i) v = refl

pub free-write_slot :
    (k : Krnl) (s : Slot) (v : ℕ) → (write_slot k s v).mram.free_fp_list ≡ k.mram.free_fp_list
unfolding write_slot
free-write_slot k (root i) v = refl
free-write_slot k (entry f i) v = refl

-- Clearing the table of a frame clears its entries and no other table.
module _ (k : Krnl) (f : ℕ) where
  abbrev pub with_cleared : Krnl
  with_cleared = record k { mram = clear_table k.mram f }

  pub read-clear_self : (i : ℕ) → i < table_entries → read_slot with_cleared (entry f i) ≡ 0
  unfolding read_slot clear_table
  read-clear_self i h = load64-zero_words table_entries k.mram.storage (f * paging_pagesz) i h

  pub read-clear_ne :
      (o : Owner) (s : Slot) → Live o s → o f ≡ [] → read_slot with_cleared s ≡ read_slot k s
  unfolding read_slot clear_table
  read-clear_ne o (root i) l e = refl
  read-clear_ne o (entry g i) l e = load64-congr _ k.mram.storage (entry_addr g i) outside
    where
      apart : f ≢ g
      apart h = l.0 (ap o (sym h) ∙ e)

      outside :
          (x : ℕ)
          → entry_addr g i ≤ x
          → x < entry_addr g i + 8
          → zero_words table_entries k.mram.storage (f * paging_pagesz) x ≡ k.mram.storage x
      outside x a b = elim (dec_lt g f) [
        | yes p ↦
            zero_words-outside table_entries k.mram.storage (f * paging_pagesz) x
              (inl (omega (arith, l.1)))
        | no p ↦
            zero_words-outside table_entries k.mram.storage (f * paging_pagesz) x
              (inr (omega (arith, apart, l.1)))
      ]
