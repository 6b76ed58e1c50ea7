-- ===== src/World.antt =====
-- The state that the threads of src/os.c share: the scheduler, the control blocks, the memory maps
-- and the devices. A process is the address of its control block. Freed control blocks are marked:
-- a use of one, like every other access that C leaves undefined, is `none`.
use simple_operating_system.Common.{ℕ, Option, none, some, List, ◌∷◌, ◌==◌, if◌then◌else◌, contains}
use simple_operating_system.Mm.{Mm, Memphy}
use simple_operating_system.Process.{Pcb, Caller}
use simple_operating_system.Queue.{Ptr}
use simple_operating_system.Sched.{Sched}

pub record World : Type 0 where
  pub sched : Sched
  pub procs : Ptr → Pcb
  pub mms : Ptr → Mm
  pub freed : List Ptr
  pub mram : Memphy
  pub active_mswp : Memphy
  pub done : ℕ

-- A process as the functions of libmem.c are given it.
abbrev pub caller_of : World → Ptr → Caller
caller_of w p = record {
  proc = w.procs p;
  krnl = record { mm = w.mms p; mram = w.mram; active_mswp = w.active_mswp };
}

-- What a function has left of it.
unfoldable pub store_caller : World → Ptr → Caller → World
store_caller w p c = record w {
  procs = λ q. if q == p then c.proc else w.procs q;
  mms = λ q. if q == p then c.krnl.mm else w.mms q;
  mram = c.krnl.mram;
  active_mswp = c.krnl.active_mswp;
}

-- A control block is used: its address is not NULL and it has not been freed.
unfoldable pub deref : World → Ptr → Option Pcb
deref w p = if p == 0 then none else if contains p w.freed then none else some (w.procs p)

unfoldable pub free_pcb : World → Ptr → World
free_pcb w p = record w { freed = p ∷ w.freed }
