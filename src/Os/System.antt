-- ===== src/Os/System.antt =====
-- The threads of src/os.c together, between their iterations.
use simple_operating_system.Common.{Option, none, ℕ, ◌+◌, ◌≡◌, ◌≢◌, some, List, [], ◌∷◌, set, count}
use simple_operating_system.Queue.{Ptr, null}
use simple_operating_system.Sched.Levels.{waiting}
use simple_operating_system.Sched.Conserve.{once}
use simple_operating_system.World.{World}
use simple_operating_system.Os.{Cpu, Act, slept, stopped, Job}

-- A thread that has ended is `none`.
pub record System : Type 0 where
  pub world : World
  pub cpus : List (Option Cpu)
  pub jobs : Option (List Job)

-- A processor before its first iteration.
abbrev pub new_cpu : Cpu
new_cpu = record { proc = null; time_left = 0 }

-- What an iteration leaves of the variables of its thread.
unfoldable pub kept : {A : Type 0} → A → Act → Option A
kept x slept = some x
kept x stopped = none

-- The processors after an iteration of processor i.
abbrev pub put_back : List (Option Cpu) → ℕ → Cpu → Act → List (Option Cpu)
put_back cs i c a = set cs i (kept c a)

-- How many processors have a process.
abbrev pub holders : Ptr → List (Option Cpu) → ℕ
holders p [] = 0
holders p (none ∷ cs) = holders p cs
holders p (some c ∷ cs) = once c.proc p + holders p cs

-- What `malloc` promises of the address of the next job: it is not NULL, and no process that waits
-- or runs has it.
abbrev pub Fresh : System → List Job → Type 0
Fresh s [] = Unit
Fresh s (job ∷ jobs) =
    (job.address ≢ null)
    × (count job.address (waiting s.world.sched.mlq_ready_queue) ≡ 0)
    × (holders job.address s.cpus ≡ 0)
