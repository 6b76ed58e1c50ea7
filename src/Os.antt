-- ===== src/Os.antt =====
-- src/os.c: the threads of the processors and of the loader. A step of `cpu_routine` or of
-- `ld_routine` is an iteration of its loop, from the top to the call of `next_slot` or to the end of
-- the thread. The messages and `usleep` are left out. `read_config` is in Os/Config, `main` in Os/Boot.
pub mod Iteration
pub mod System
pub mod Threads
pub mod Exclusive
pub mod Alone
pub mod Machine
pub mod Processor
pub mod Config
pub mod Boot
use simple_operating_system.Common.{
  ℕ, suc, ◌+◌, ◌-◌, ◌%◌, ◌^◌, Option, none, some, List, [], ◌∷◌, ◌==◌, ltb, if◌then◌else◌, ℤ,
  length, erase,
}
use simple_operating_system.Mm.{Region}
use simple_operating_system.Phy.{MemphyOps}
use simple_operating_system.Process.{Pcb}
use simple_operating_system.Queue.{Ptr, null}
use simple_operating_system.Sched.{Sched, get_proc, put_proc, add_proc}
use simple_operating_system.Vmap.{init_mm}
use simple_operating_system.World.{World, deref, free_pcb}
use simple_operating_system.Cpu.{run}

-- The local variables of `cpu_routine`; `time_left` is the bit pattern of an `int`.
pub record Cpu : Type 0 where
  pub proc : Ptr
  pub time_left : ℕ

-- How an iteration ends: in `next_slot`, or in `detach_event` and `pthread_exit`.
pub data Act : Type 0 where
  slept stopped : Act

-- `proc = get_proc()`.
unfoldable pub fetch : World → Cpu → World × Cpu
fetch w c = let r = get_proc w.sched in (record w { sched = r.1 }, record c { proc = r.0 })

module _ (phy : MemphyOps) (stale time_slot : ℕ) where
  -- The process runs, and the processor waits for the next slot.
  unfoldable pub run_slot : World → Cpu → Option (World × Cpu × Act)
  run_slot w c = elim (run phy stale w c.proc) [
    | none ↦ none
    | some (w', status) ↦
        some (w', record c { time_left = (c.time_left + (2 ^ 32 - 1)) % 2 ^ 32 }, slept)
  ]

  -- The second half of an iteration, after a process has been chosen.
  unfoldable pub dispatch : World × Cpu → Option (World × Cpu × Act)
  dispatch (w, c) =
      if c.proc == null
      then some (w, c, if w.done == 0 then slept else stopped)
      else run_slot w (if c.time_left == 0 then record c { time_left = time_slot } else c)

  -- A processor that had no process, and has looked for one, skips the slot without one.
  unfoldable pub skip_or_dispatch : World × Cpu → Option (World × Cpu × Act)
  skip_or_dispatch (w, c) = if c.proc == null then some (w, c, slept) else dispatch (w, c)

  unfoldable pub cpu_routine : World → Cpu → Option (World × Cpu × Act)
  cpu_routine w c = if c.proc == null then skip_or_dispatch (fetch w c) else elim (deref w c.proc) [
    | none ↦ none
    | some b ↦
        if b.pc == length b.code
        then dispatch (fetch (free_pcb w c.proc) (record c { time_left = 0 }))
        else if c.time_left == 0
        then dispatch (fetch (record w { sched = put_proc w.procs w.sched c.proc }) c)
        else dispatch (w, c)
  ]

-- An entry of `ld_processes`, with what `load` makes of its path and where the control block lies.
pub record Job : Type 0 where
  pub address : Ptr
  pub loaded : Pcb
  pub start_time : ℕ
  pub prio : ℕ

-- A loaded process gets its memory map, whose first area `malloc` has left `stale_list` in, and
-- joins the scheduler.
unfoldable pub admit : (stale_list : List Region) → World → Job → World
admit stale_list w job =
    let pcb = record job.loaded { prio = job.prio % 2 ^ 32 } in
    let procs : Ptr → Pcb = λ q. if q == job.address then pcb else w.procs q in
    record w {
      procs = procs;
      mms = λ q. if q == job.address then init_mm stale_list else w.mms q;
      freed = erase job.address w.freed;
      sched = add_proc procs w.sched job.address;
    }

-- The jobs that are left, from the loop of `ld_routine` on, at a time. The wait for the start time is
-- part of the iteration.
unfoldable pub ld_routine :
    (stale_list : List Region) → World → (time : ℕ) → List Job → World × List Job × Act
ld_routine stale_list w time [] = (record w { done = 1 }, [], stopped)
ld_routine stale_list w time (job ∷ jobs) =
    if ltb time job.start_time
    then (w, job ∷ jobs, slept)
    else (admit stale_list w job, jobs, slept)
