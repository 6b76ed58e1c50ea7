-- ===== src/Cpu.antt =====
-- src/cpu.c: `run`, one instruction of a process. The functions before it, which `run` does not call
-- under MM_PAGING, are in Legacy. `none` is what C leaves undefined.
pub mod Counter
pub mod Memory
pub mod Finish
use simple_operating_system.Common.{
  ℕ, suc, ◌+◌, ◌%◌, ◌^◌, Option, none, some, ◌==◌, if◌then◌else◌, ℤ, pos, success, failure,
  get_elem?,
}
use simple_operating_system.Phy.{MemphyOps}
use simple_operating_system.Process.{
  Opcode, calc, alloc, free, read, write, syscall, Inst, Pcb, Caller,
}
use simple_operating_system.Queue.{Ptr}
use simple_operating_system.World.{World, caller_of, store_caller, deref}
use simple_operating_system.Calls.{set_reg, liballoc, libfree, libread, libwrite}
use simple_operating_system.Syscall.{libsyscall}

-- A step of one process put back into the world.
unfoldable pub stored : World → Ptr → Option (Caller × ℤ) → Option (World × ℤ)
stored w p none = none
stored w p (some (c, status)) = some (store_caller w p c, status)

-- What `run` does with the value that `libread` gives, or without one.
unfoldable pub keep_value : (i : ℕ) → Caller × Option ℕ → Option (Caller × ℤ)
keep_value i (c, none) = some (c, failure)
keep_value i (c, some v) = elim (set_reg c.proc i v) [
  | none ↦ none
  | some b ↦ some (record c { proc = b }, success)
]

-- `proc->pc++`.
unfoldable pub advance : World → Ptr → World
advance w p =
    let c = caller_of w p in
    store_caller w p (record c { proc = record c.proc { pc = suc c.proc.pc % 2 ^ 32 } })

module _ (phy : MemphyOps) (stale : ℕ) where
  -- The `switch` of `run`. Arguments for a `uint32_t` are cut to 32 bits, for a `BYTE` to 8.
  unfoldable pub execute : World → Ptr → Inst → Option (World × ℤ)
  execute w p ins =
      let c = caller_of w p in
      elim ins.opcode [
        | calc ↦ some (w, success)
        | alloc ↦ stored w p (liballoc phy c ins.arg_0 (ins.arg_1 % 2 ^ 32))
        | free ↦ stored w p (libfree c (ins.arg_0 % 2 ^ 32))
        | read ↦ stored w p (keep_value ins.arg_2 (libread phy c (ins.arg_0 % 2 ^ 32) ins.arg_1))
        | write ↦
            stored w p (some (libwrite phy c (ins.arg_0 % 256) (ins.arg_1 % 2 ^ 32) ins.arg_2))
        | syscall ↦ libsyscall phy stale w c.proc ins.arg_0 ins.arg_1 ins.arg_2 ins.arg_3
      ]

  -- The status is 1 past the last instruction.
  unfoldable pub run : World → Ptr → Option (World × ℤ)
  run w p = elim (deref w p) [
    | none ↦ none
    | some b ↦ elim (get_elem? b.code b.pc) [
      | none ↦ some (w, pos 1)
      | some ins ↦ execute (advance w p) p ins
    ]
  ]
