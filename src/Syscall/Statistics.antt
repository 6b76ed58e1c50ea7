-- ===== src/Syscall/Statistics.antt =====
-- `__sys_mmstats` of src/sys_mmstats.c.
use simple_operating_system.Common.{
  ℕ, zero, suc, ◌+◌, ◌%◌, ◌^◌, ◌≤◌, ◌<◌, ◌≡◌, refl, inl, inr, none, some, List, get_elem?,
  below-get_elem?, length, arith, Option-cases,
}
use simple_operating_system.Queue.{Ptr, to_list}
use simple_operating_system.World.{World}
use simple_operating_system.Syscall.{ScRegs, find_target, count_entries, sys_mmstats}

-- The count leaves an array that is shorter than its rounds.
count_entries-past :
    (n i : ℕ) (xs : List ℕ) → i ≤ length xs → length xs < i + n → count_entries n i xs ≡ none
unfolding count_entries
count_entries-past zero i xs h l = absurd (omega arith)
count_entries-past (suc n) i xs h l = elim (Option-cases (get_elem? xs i)) [
  | inl e ↦ rw (e, count_entries) refl
  | inr (x, e) ↦
      let rest = count_entries-past n (suc i) xs (below-get_elem? xs i x e) (omega arith) in
      rw (e, count_entries, rest) refl
]

-- For a process whose page directory has the 512 entries that `init_mm` gives it, the system call
-- reads past the directory, which is undefined.
pub sys_mmstats-undefined :
    (w : World) (regs : ScRegs) (p : Ptr)
    → find_target w (regs.a1 % 2 ^ 32) (to_list w.sched.running_list) ≡ some (some p)
    → length (w.mms p).pgd ≡ 512
    → sys_mmstats w regs ≡ none
unfolding sys_mmstats
sys_mmstats-undefined w regs p e h =
    rw (e, sys_mmstats, count_entries-past 1024 0 (w.mms p).pgd (omega arith) (omega arith)) refl
