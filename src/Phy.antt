-- ===== src/Phy.antt =====
-- The physical devices. The functions of src/mm-memphy.c are not in the repository, whose file of
-- that name is empty, so they are a parameter: `MemphyOps`, by the prototypes of include/mm.h.
-- Page tables are `addr_t` arrays inside the storage, read and written here as little-endian words.
pub mod Words
pub mod Laws
use simple_operating_system.Common.{
  ℕ, zero, suc, ◌+◌, ◌*◌, ◌/◌, ◌%◌, Bool, Option, ◌==◌, if◌then◌else◌,
}
use simple_operating_system.Mm.{Memphy, paging_pagesz, table_entries}

-- `none`, and `false` of `write`, stand for a status that is not 0. `write` is given the byte as
-- its bit pattern.
pub record MemphyOps : Type 0 where
  pub get_freefp : Memphy → Option (ℕ × Memphy)
  pub put_freefp : Memphy → (fpn : ℕ) → Memphy
  pub read : Memphy → (addr : ℕ) → Option ℕ × Memphy
  pub write : Memphy → (addr value : ℕ) → Bool × Memphy

abbrev pub Storage : Type 0
Storage = ℕ → ℕ

abbrev pub update : Storage → ℕ → ℕ → Storage
update st a v x = if x == a then v else st x

-- The n bytes from a on, the least significant first.
unfoldable pub load_le : ℕ → Storage → ℕ → ℕ
load_le zero st a = 0
load_le (suc n) st a = st a + 256 * load_le n st (suc a)

unfoldable pub store_le : ℕ → Storage → ℕ → ℕ → Storage
store_le zero st a v = st
store_le (suc n) st a v = update (store_le n st (suc a) (v / 256)) a (v % 256)

-- An `addr_t` in the storage.
unfoldable pub load64 : Storage → ℕ → ℕ
load64 st a = load_le 8 st a

unfoldable pub store64 : Storage → ℕ → ℕ → Storage
store64 st a v = store_le 8 st a v

-- The address of entry i of the table in frame f.
abbrev pub entry_addr : (f i : ℕ) → ℕ
entry_addr f i = f * paging_pagesz + i * 8

-- `for (i = 0; i < n; i++) table[i] = 0;`
unfoldable pub zero_words : ℕ → Storage → ℕ → Storage
zero_words zero st a = st
zero_words (suc n) st a = zero_words n (store64 st a 0) (a + 8)

-- A new table is set to zero.
unfoldable pub clear_table : Memphy → ℕ → Memphy
clear_table m f = record m { storage = zero_words table_entries m.storage (f * paging_pagesz) }
