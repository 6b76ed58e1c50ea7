-- ===== src/Syscall.antt =====
-- src/libstd.c, src/syscall.c and the calls of src/syscalltbl.lst: sys_listsyscall (0), sys_memmap
-- (17) and sys_mmstats (440). The messages are not modelled. `none` is what C leaves undefined.
pub mod Statistics
pub mod Memmap
use simple_operating_system.Common.{
  ℕ, zero, suc, ◌+◌, ◌-◌, ◌%◌, ◌^◌, Option, none, some, List, [], ◌∷◌, ◌==◌, ltb, if◌then◌else◌, ℤ,
  pos, success, failure, get_elem?,
}
use simple_operating_system.Mm.{Mm, Krnl, word}
use simple_operating_system.Phy.{MemphyOps}
use simple_operating_system.Process.{Pcb, Caller}
use simple_operating_system.Queue.{Ptr, null, to_list}
use simple_operating_system.Vmap.{int_rounds, vmap_pgd_memset}
use simple_operating_system.Vm.{inc_vma_limit, mm_swap_page}
use simple_operating_system.World.{World, caller_of, store_caller, deref}

-- struct sc_regs; only these fields are written or read.
pub record ScRegs : Type 0 where
  pub a1 : ℕ
  pub a2 : ℕ
  pub a3 : ℕ

-- The first process of the running list with the identifier, if there is one.
unfoldable pub find_caller : World → (pid : ℕ) → List Ptr → Option (Option Ptr)
find_caller w pid [] = some none
find_caller w pid (p ∷ ps) =
    let rest = find_caller w pid ps in
    elim (deref w p) [ none ↦ none | some b ↦ if b.pid == pid then some (some p) else rest ]

-- The same without the entries that are NULL.
unfoldable pub find_target : World → (pid : ℕ) → List Ptr → Option (Option Ptr)
find_target w pid [] = some none
find_target w pid (p ∷ ps) =
    let rest = find_target w pid ps in
    if p == null
    then rest
    else elim (deref w p) [ none ↦ none | some b ↦ if b.pid == pid then some (some p) else rest ]

-- The number of the entries that are not 0, n rounds from i on; `none` past the array.
unfoldable pub count_entries : (n i : ℕ) → List ℕ → Option ℕ
count_entries zero i pgd = some 0
count_entries (suc n) i pgd =
    let rest = count_entries n (suc i) pgd in
    elim (get_elem? pgd i) [
      | none ↦ none
      | some e ↦ elim rest [ none ↦ none | some c ↦ some (if e == 0 then c else suc c) ]
    ]

-- `__sys_mmstats`: the pages counted, or -1.
unfoldable pub sys_mmstats : World → ScRegs → Option ℤ
unfolding count_entries
sys_mmstats w regs = elim (find_target w (regs.a1 % 2 ^ 32) (to_list w.sched.running_list)) [
  | none ↦ none
  | some none ↦ some failure
  | some (some p) ↦ elim (count_entries 1024 0 (w.mms p).pgd) [
    | none ↦ none
    | some c ↦ some (pos c)
  ]
]

module _ (phy : MemphyOps) (stale : ℕ) where
  -- The operations of `__sys_memmap` on the caller that it has found, by `regs->a1` as an `int`.
  -- src/sys_mem.c includes os-mm.h before MM64 is defined, so that its `addr_t` has 32 bits. The
  -- addresses and sizes that it passes on are cut to these, and what it takes for `caller->krnl` is
  -- `regs[6]`, which is no pointer: operations 4 and 5, which follow it, are undefined.
  unfoldable pub memmap_op : Krnl → ScRegs → Option Krnl
  memmap_op k regs =
      let op = regs.a1 % 2 ^ 32 in
      if op == 1
      then some (vmap_pgd_memset phy k (regs.a2 % 2 ^ 32) (int_rounds regs.a3)).0
      else if op == 2
      then some (inc_vma_limit phy k (int_rounds regs.a2) (regs.a3 % 2 ^ 32)).0
      else if op == 3
      then some (mm_swap_page phy stale k (regs.a2 % 2 ^ 32) (regs.a3 % 2 ^ 32)).0
      else if op == 4
      then none
      else if op == 5
      then none
      else some k

  unfoldable pub sys_memmap : World → (pid : ℕ) → ScRegs → Option (World × ScRegs × ℤ)
  sys_memmap w pid regs = elim (find_caller w pid (to_list w.sched.running_list)) [
    | none ↦ none
    | some none ↦ some (w, regs, failure)
    | some (some p) ↦
        let c = caller_of w p in
        elim (memmap_op c.krnl regs) [
          | none ↦ none
          | some k ↦ some (store_caller w p (record c { krnl = k }), regs, success)
        ]
  ]

  unfoldable pub syscall : World → (pid nr : ℕ) → ScRegs → Option (World × ScRegs × ℤ)
  syscall w pid nr regs =
      if nr == 0
      then some (w, regs, success)
      else if nr == 17
      then sys_memmap w pid regs
      else if nr == 440
      then elim (sys_mmstats w regs) [ none ↦ none | some c ↦ some (w, regs, c) ]
      else some (w, regs, success)

  -- The registers of the call are local, so that what it leaves in them is lost.
  unfoldable pub libsyscall : World → Pcb → (syscall_idx a1 a2 a3 : ℕ) → Option (World × ℤ)
  libsyscall w proc syscall_idx a1 a2 a3 =
      elim (syscall w proc.pid (syscall_idx % 2 ^ 32) (record { a1 = a1; a2 = a2; a3 = a3 })) [
        | none ↦ none
        | some (w', regs, status) ↦ some (w', status)
      ]
