-- ===== src/Calls.antt =====
-- The calls of src/libmem.c that instructions make: `__alloc`, `__free`, `__read` and `__write` with
-- the registers of the process. `none` is what C leaves undefined: a register past the ten of the
-- control block. The dumps under IODUMP are not modelled. A register index is its bit pattern, which
-- as an `int` is negative only where it is past every table.
pub mod Roundtrip
use simple_operating_system.Common.{
  ℕ, ◌+◌, ◌-◌, ◌^◌, Option, none, some, ◌==◌, ltb, leb, if◌then◌else◌, ℤ, success, failure, get_or,
  set,
}
use simple_operating_system.Mm.{Krnl}
use simple_operating_system.Phy.{MemphyOps}
use simple_operating_system.Process.{Pcb, Caller, num_regs}
use simple_operating_system.Libmem.{alloc_region, free_region, read_region, write_region}

-- A `char`, which is signed, as a `uint32_t`.
unfoldable pub extend_byte : ℕ → ℕ
extend_byte b = if ltb b 128 then b else b + (2 ^ 32 - 256)

-- A write to a register.
unfoldable pub set_reg : Pcb → (i v : ℕ) → Option Pcb
set_reg p i v = if ltb i num_regs then some (record p { regs = set p.regs i v }) else none

-- `liballoc` after `__alloc`.
unfoldable pub keep_address : (proc : Pcb) (reg_index : ℕ) → Krnl × Option ℕ → Option (Caller × ℤ)
keep_address proc reg_index (k, none) = some (record { proc = proc; krnl = k }, failure)
keep_address proc reg_index (k, some addr) = elim (set_reg proc reg_index addr) [
  | none ↦ none
  | some p ↦ some (record { proc = p; krnl = k }, success)
]

unfoldable pub libfree : Caller → (reg_index : ℕ) → Option (Caller × ℤ)
libfree c reg_index =
    if leb num_regs reg_index
    then none
    else if get_or c.proc.regs reg_index 0 == 0
    then some (c, failure)
    else let r = free_region c.krnl reg_index in some (record c { krnl = r.0 }, r.1)

module _ (phy : MemphyOps) where
  unfoldable pub liballoc : Caller → (size reg_index : ℕ) → Option (Caller × ℤ)
  liballoc c size reg_index =
      keep_address c.proc reg_index (alloc_region phy c.krnl 0 reg_index size)

  -- The value for `*destination`; `none` is the status -1.
  unfoldable pub libread : Caller → (source offset : ℕ) → Caller × Option ℕ
  libread c source offset =
      let r = read_region phy c.krnl 0 source offset in
      (record c { krnl = r.0 }, elim r.1 [ none ↦ none | some byte ↦ some (extend_byte byte) ])

  unfoldable pub libwrite : Caller → (byte destination offset : ℕ) → Caller × ℤ
  libwrite c byte destination offset =
      let r = write_region phy c.krnl 0 destination offset byte in (record c { krnl = r.0 }, r.1)
