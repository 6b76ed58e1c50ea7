-- ===== src/Paging.antt =====
-- The five-level page tables of src/mm64.c. The first level is the array `mm->pgd`; the tables of
-- the others lie in frames of the RAM. The unrolled code for each level is one function over the
-- place of an entry, applied along the list of the lower indices. They are given tables that lie in the
-- RAM, as those of a tree do (Progress): behind it, where C is undefined, the storage goes on.
pub mod Fill
pub mod Ensure
pub mod Outcome
pub mod Map
pub mod Progress
pub mod Data
pub mod Congruence
pub mod Owned
pub mod Steady
pub mod Tree
use simple_operating_system.Common.{
  ℕ, zero, suc, ◌+◌, ◌*◌, ◌%◌, ◌^◌, ◌<◌, Bool, true, false, Option, none, some, List, [], ◌∷◌, ◌==◌,
  leb, if◌then◌else◌, ℤ, pos, success, failure, get_or, set,
}
use simple_operating_system.Mm.{Mm, Memphy, Krnl, paging_pagesz}
use simple_operating_system.Phy.{MemphyOps, load64, store64, entry_addr, clear_table}
use simple_operating_system.Pte.{pte_present, pte_fpn, init_pte, mapped_entry, swap_entry}
use simple_operating_system.Pte.Address.{Indices, get_pd_from_pagenum}

-- Where an entry stands: in `mm->pgd`, or in the table of frame f.
pub data Slot : Type 0 where
  root : ℕ → Slot
  entry : (f i : ℕ) → Slot

unfoldable pub read_slot : Krnl → Slot → ℕ
read_slot k (root i) = get_or k.mm.pgd i 0
read_slot k (entry f i) = load64 k.mram.storage (entry_addr f i)

unfoldable pub write_slot : Krnl → Slot → ℕ → Krnl
write_slot k (root i) v = record k { mm = record k.mm { pgd = set k.mm.pgd i v } }
write_slot k (entry f i) v = record k {
  mram = record k.mram { storage = store64 k.mram.storage (entry_addr f i) v };
}

-- The lower indices, in the order of the walk.
abbrev pub lower : Indices → List ℕ
lower ix = ix.p4d ∷ ix.pud ∷ ix.pmd ∷ ix.pt ∷ []

-- The walk of `pte_get_entry`: 0 at an entry that is not present, and at a frame outside the RAM.
unfoldable pub walk : Krnl → Slot → List ℕ → ℕ
walk k s [] = read_slot k s
walk k s (i ∷ is) =
    let e = read_slot k s in
    let rest = walk k (entry (pte_fpn e) i) is in
    if pte_present e then (if leb k.mram.maxsz (pte_fpn e * paging_pagesz) then 0 else rest) else 0

-- The result is a `uint32_t`.
unfoldable pub pte_get_entry : Krnl → (pgn : ℕ) → ℕ
pte_get_entry k pgn = elim (get_pd_from_pagenum pgn) [
  | none ↦ 0
  | some ix ↦ walk k (root ix.pgd) (lower ix) % 2 ^ 32
]

-- A `pgd` entry is written under the number of a page; `none` is a write past the array.
unfoldable pub pte_set_entry : Krnl → (pgn pte_val : ℕ) → Option (Krnl × ℤ)
unfolding write_slot
pte_set_entry k pgn pte_val =
    if leb 512 pgn then none else some (write_slot k (root pgn) pte_val, success)

-- The entry is set to lead to a frame; `clear` says whether the table there is set to zero.
unfoldable pub link_table : (clear : Bool) → Krnl → Slot → (fpn : ℕ) → Krnl
link_table clear k s fpn =
    let (_, e) = init_pte (read_slot k s) 1 fpn 0 0 0 0 in
    let k' = write_slot k s e in if clear then record k' { mram = clear_table k'.mram fpn } else k'

module _ (phy : MemphyOps) where
  open phy use {get_freefp}

  -- An entry that is not present gets a frame. Without a free frame nothing changes.
  unfoldable pub fill_slot : (clear : Bool) → Krnl → Slot → Krnl × Bool
  fill_slot clear k s = elim (get_freefp k.mram) [
    | none ↦ (k, false)
    | some (fpn, mram) ↦ (link_table clear (record k { mram = mram }) s fpn, true)
  ]

  -- One level: the table that an entry leads to.
  unfoldable pub ensure_table : Bool → Krnl → Slot → Krnl × Option ℕ
  ensure_table clear k s =
      if pte_present (read_slot k s)
      then (k, some (pte_fpn (read_slot k s)))
      else let (k', done) = fill_slot clear k s in
        (k', if done then some (pte_fpn (read_slot k' s)) else none)

  -- The levels below an entry; the last place is that of the page's own entry.
  unfoldable pub ensure_walk : Bool → Krnl → Slot → List ℕ → Krnl × Option Slot
  ensure_walk clear k s [] = (k, some s)
  ensure_walk clear k s (i ∷ is) =
      let (k', t) = ensure_table clear k s in
      elim t [ none ↦ (k', none) | some f ↦ ensure_walk clear k' (entry f i) is ]

  unfoldable pub ensure_pte_mapping : Krnl → Indices → Krnl × Option Slot
  ensure_pte_mapping k ix = ensure_walk true k (root ix.pgd) (lower ix)

  unfoldable pub pte_set_fpn : Krnl → (pgn fpn : ℕ) → Krnl × ℤ
  pte_set_fpn k pgn fpn = elim (get_pd_from_pagenum pgn) [
    | none ↦ (k, failure)
    | some ix ↦
        let (k', t) = ensure_pte_mapping k ix in
        elim t [ none ↦ (k', failure) | some s ↦ (write_slot k' s (mapped_entry fpn), success) ]
  ]

  -- The same walk, but new tables keep what their frames hold.
  unfoldable pub pte_set_swap : Krnl → (pgn swptyp swpoff : ℕ) → Krnl × ℤ
  pte_set_swap k pgn swptyp swpoff = elim (get_pd_from_pagenum pgn) [
    | none ↦ (k, failure)
    | some ix ↦
        let (k', t) = ensure_walk false k (root ix.pgd) (lower ix) in
        elim t [
          | none ↦ (k', failure)
          | some s ↦ (write_slot k' s (swap_entry (read_slot k' s) swptyp swpoff), success)
        ]
  ]
