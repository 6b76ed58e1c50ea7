-- ===== src/Phy/Laws.antt =====
-- What src/mm64.c and src/libmem.c rely on of the functions of the physical devices.
use simple_operating_system.Common.{ℕ, ◌≡◌, ◌≢◌, ◌<◌, true, some, List, ◌∷◌}
use simple_operating_system.Mm.{Memphy}
use simple_operating_system.Phy.{MemphyOps, update}

-- A frame comes off the free list, if there is one, and nothing else changes. On a random access device, reading and
-- writing inside the size succeed, and are those of an array.
pub record MemphyLaws (phy : MemphyOps) : Type 0 where
  pub taken :
      (m m' : Memphy) (f : ℕ)
      → phy.get_freefp m ≡ some (f, m')
      → (m.free_fp_list ≡ f ∷ m'.free_fp_list)
        × (m'.storage ≡ m.storage)
        × (m'.maxsz ≡ m.maxsz)
        × (m'.rdmflg ≡ m.rdmflg)
  pub gives :
      (m : Memphy) (f : ℕ) (fs : List ℕ)
      → m.free_fp_list ≡ f ∷ fs
      → (m' : Memphy) × (phy.get_freefp m ≡ some (f, m'))
  pub reads :
      (m : Memphy) (a : ℕ) → m.rdmflg ≢ 0 → a < m.maxsz → phy.read m a ≡ (some (m.storage a), m)
  pub writes :
      (m : Memphy) (a v : ℕ)
      → m.rdmflg ≢ 0
      → a < m.maxsz
      → phy.write m a v ≡ (true, record m { storage = update m.storage a v })
