-- ===== src/Calls/Roundtrip.antt =====
-- What an instruction writes to memory, a later one reads.
use simple_operating_system.Common.{ℕ, ◌≡◌, refl, ap, some, ℤ, success}
use simple_operating_system.Phy.{MemphyOps}
use simple_operating_system.Phy.Laws.{MemphyLaws}
use simple_operating_system.Process.{Caller}
use simple_operating_system.Paging.Tree.{Owner}
use simple_operating_system.Libmem.{write_region}
use simple_operating_system.Libmem.Pages.{Pages}
use simple_operating_system.Libmem.Access.{write_region-read_region}
use simple_operating_system.Calls.{extend_byte, libread, libwrite}

module _ (phy : MemphyOps) (laws : MemphyLaws phy) where
  -- When the pages of a process have frames of their own and `libwrite` succeeds, `libread` of the
  -- same region and offset gives the byte, with its sign extended to 32 bits.
  pub libwrite-libread :
      (o : Owner) (c c' : Caller) (byte rgid offset : ℕ)
      → Pages o c.krnl
      → libwrite phy c byte rgid offset ≡ (c', success)
      → libread phy c' rgid offset ≡ (c', some (extend_byte byte))
  unfolding libwrite libread
  libwrite-libread o c c' byte rgid offset s h =
      let r = write_region phy c.krnl 0 rgid offset byte in
      let k : r.0 ≡ c'.krnl = ap (λ (x : Caller × ℤ). x.0.krnl) h in
      let st : r.1 ≡ success = ap (λ (x : Caller × ℤ). x.1) h in
      let w : write_region phy c.krnl 0 rgid offset byte ≡ (c'.krnl, success) = λ i. (k i, st i) in
      let q = write_region-read_region phy laws o c.krnl c'.krnl 0 rgid offset byte s w in rw q refl
