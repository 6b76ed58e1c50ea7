-- ===== src/Os/Threads.antt =====
-- The threads of src/os.c together, in smaller steps than iterations: an iteration of `cpu_routine` has
-- at most three, one up to its `get_proc`, one for `get_proc`, and one for the rest. So other
-- threads come between a `put_proc` and the `get_proc` after it, and between that and `run`. A call
-- of the scheduler is one step, so that no two of them overlap. The locks of src/sched.c keep
-- `put_proc` and `add_proc` apart, and `get_proc` from itself, but not these two from that one: the runs
-- here are those where they happen not to overlap. Queue/Race is about one where they do.
pub mod Whole
use simple_operating_system.Common.{
  ℕ, ◌+◌, ◌≡◌, ◌≢◌, Option, none, some, List, [], ◌∷◌, ◌==◌, if◌then◌else◌, replicate, get_elem?,
  set, count, length,
}
use simple_operating_system.Mm.{Region}
use simple_operating_system.Phy.{MemphyOps}
use simple_operating_system.Queue.{Ptr, null}
use simple_operating_system.Sched.{zeroed, init_scheduler, put_proc}
use simple_operating_system.Sched.Levels.{waiting}
use simple_operating_system.Sched.Conserve.{once}
use simple_operating_system.World.{World, deref, free_pcb}
use simple_operating_system.Os.{Cpu, Act, fetch, dispatch, Job, ld_routine}
use simple_operating_system.Os.System.{new_cpu, kept}

-- Where a processor stands in an iteration: at its top; before a `get_proc`, with NULL or with a
-- process that it has given up in `proc`; or behind that.
pub data Point : Type 0 where
  at_top looking refilling chosen : Point

pub record Core : Type 0 where
  pub cpu : Cpu
  pub point : Point

-- From the top to `get_proc`, or past it if there is none.
unfoldable pub enter : World → Cpu → Option (World × Core)
enter w c =
    if c.proc == null
    then some (w, record { cpu = c; point = looking })
    else elim (deref w c.proc) [
      | none ↦ none
      | some b ↦
          if b.pc == length b.code
          then some
              (free_pcb w c.proc, record { cpu = record c { time_left = 0 }; point = refilling })
          else if c.time_left == 0
          then some (
            record w { sched = put_proc w.procs w.sched c.proc },
            record { cpu = c; point = refilling },
          )
          else some (w, record { cpu = c; point = chosen })
    ]

-- Behind `get_proc`: a processor that had no process and gets none sleeps until the next slot.
unfoldable pub after_get : Point → Cpu → Point
after_get looking c = if c.proc == null then at_top else chosen
after_get at_top c = at_top
after_get refilling c = chosen
after_get chosen c = chosen

-- The threads; one that has ended is `none`.
pub record Threads : Type 0 where
  pub world : World
  pub cores : List (Option Core)
  pub jobs : Option (List Job)

-- The process that a processor has: none before `get_proc`, whatever `proc` still holds.
abbrev pub held_at : Point → Ptr → Ptr
held_at at_top p = p
held_at looking p = null
held_at refilling p = null
held_at chosen p = p

abbrev pub owned : Core → Ptr
owned k = held_at k.point k.cpu.proc

abbrev pub owners_of : Ptr → Option Core → ℕ
owners_of p none = 0
owners_of p (some k) = once (owned k) p

-- How many processors have a process.
abbrev pub owners : Ptr → List (Option Core) → ℕ
owners p [] = 0
owners p (x ∷ xs) = owners_of p x + owners p xs

-- What `malloc` promises of the address of the next job: it is not NULL, and no process that waits
-- or runs has it.
abbrev pub Unused : Threads → List Job → Type 0
Unused s [] = Unit
Unused s (job ∷ jobs) =
    (job.address ≢ null)
    × (count job.address (waiting s.world.sched.mlq_ready_queue) ≡ 0)
    × (owners job.address s.cores ≡ 0)

-- The top of the next iteration.
abbrev pub again : Cpu → Core
again c = record { cpu = c; point = at_top }

module _ (phy : MemphyOps) (stale time_slot : ℕ) where
  pub data Step (s t : Threads) : Type 0 where
    enters :
        (i : ℕ) (c : Cpu) (w' : World) (k : Core)
        → get_elem? s.cores i ≡ some (some (again c))
        → enter s.world c ≡ some (w', k)
        → t ≡ record s { world = w'; cores = set s.cores i (some k) }
        → Step s t
    takes :
        (i : ℕ) (k : Core)
        → get_elem? s.cores i ≡ some (some k)
        → k.point ≢ at_top
        → k.point ≢ chosen
        → (let (w', c) = fetch s.world k.cpu in
            t ≡ record s {
              world = w';
              cores = set s.cores i (some (record { cpu = c; point = after_get k.point c }));
            })
        → Step s t
    ends :
        (i : ℕ) (c : Cpu) (w' : World) (c' : Cpu) (a : Act)
        → get_elem? s.cores i ≡ some (some (record { cpu = c; point = chosen }))
        → dispatch phy stale time_slot (s.world, c) ≡ some (w', c', a)
        → t ≡ record s { world = w'; cores = set s.cores i (kept (again c') a) }
        → Step s t
    loads :
        (stale_list : List Region) (time : ℕ) (jobs : List Job) (w' : World) (jobs' : List Job)
        (a : Act)
        → s.jobs ≡ some jobs
        → Unused s jobs
        → ld_routine stale_list s.world time jobs ≡ (w', jobs', a)
        → t ≡ record s { world = w'; jobs = kept jobs' a }
        → Step s t

  -- What the threads make of the program with a number of processors, after `main` has initialised
  -- the scheduler.
  pub data Reach (num_cpus : ℕ) : Threads → Type 0 where
    boots :
        (w : World) (jobs : List Job)
        → w.sched ≡ init_scheduler zeroed
        → Reach num_cpus (record {
          world = w;
          cores = replicate num_cpus (some (again new_cpu));
          jobs = some jobs;
        })
    next : {s t : Threads} → Reach num_cpus s → Step s t → Reach num_cpus t
