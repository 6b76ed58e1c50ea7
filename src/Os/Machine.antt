-- ===== src/Os/Machine.antt =====
-- The threads of src/os.c at the timer of src/timer.c, from the loop that starts them in `main` until
-- it has joined them. An iteration of a thread and what it does to its device in the end, a call of
-- `next_slot` or of `detach_event`, is one step, and so is each step of the timer, and a return from
-- `next_slot`. Iterations do not overlap; the calls of the scheduler in them might (Queue/Race).
pub mod Clock
pub mod Linked
pub mod Progress
use simple_operating_system.Common.{
  ℕ, suc, ◌-◌, ◌<◌, ◌≡◌, Option, some, List, get_elem?, set, replicate,
}
use simple_operating_system.Mm.{Region}
use simple_operating_system.Phy.{MemphyOps}
use simple_operating_system.Sched.{zeroed, init_scheduler}
use simple_operating_system.World.{World}
use simple_operating_system.Timer.{
  Device, working, waiting, Timer, timer_next, next_slot_tell, next_slot_wait, detach_event,
  current_time, started,
}
use simple_operating_system.Os.{Cpu, Act, slept, stopped, cpu_routine, Job, ld_routine}
use simple_operating_system.Os.System.{System, new_cpu, kept, put_back, Fresh}

pub record Machine : Type 0 where
  pub timer : Timer
  pub system : System

-- What a thread does to its device at the end of an iteration.
unfoldable pub signal : Act → Device → Device
signal slept d = next_slot_tell d
signal stopped d = detach_event d

-- `attach_event` puts a device in front of the others, and the loader's is the last attached: among n
-- processors, the device of processor i is at n - i, and the loader's at 0.
abbrev pub cpu_event : (n i : ℕ) → ℕ
cpu_event n i = n - i

abbrev pub ld_event : ℕ
ld_event = 0

-- A device replaced.
abbrev pub with_device : Timer → ℕ → Device → Timer
with_device t j d = record t { dev_list = set t.dev_list j d }

module _ (phy : MemphyOps) (stale time_slot n : ℕ) where
  pub data Step (m u : Machine) : Type 0 where
    times : (t : Timer) → timer_next m.timer ≡ some t → u ≡ record m { timer = t } → Step m u
    wakes :
        (j : ℕ) (d d' : Device)
        → get_elem? m.timer.dev_list j ≡ some d
        → d.mode ≡ waiting
        → next_slot_wait d ≡ some d'
        → u ≡ record m { timer = with_device m.timer j d' }
        → Step m u
    runs :
        (i : ℕ) (c : Cpu) (d : Device) (w' : World) (c' : Cpu) (a : Act)
        → i < n
        → get_elem? m.system.cpus i ≡ some (some c)
        → get_elem? m.timer.dev_list (cpu_event n i) ≡ some d
        → d.mode ≡ working
        → cpu_routine phy stale time_slot m.system.world c ≡ some (w', c', a)
        → u ≡ record {
          timer = with_device m.timer (cpu_event n i) (signal a d);
          system = record m.system { world = w'; cpus = put_back m.system.cpus i c' a };
        }
        → Step m u
    loads :
        (stale_list : List Region) (jobs : List Job) (d : Device) (w' : World) (jobs' : List Job)
        (a : Act)
        → m.system.jobs ≡ some jobs
        → Fresh m.system jobs
        → get_elem? m.timer.dev_list ld_event ≡ some d
        → d.mode ≡ working
        → ld_routine stale_list m.system.world (current_time m.timer) jobs ≡ (w', jobs', a)
        → u ≡ record {
          timer = with_device m.timer ld_event (signal a d);
          system = record m.system { world = w'; jobs = kept jobs' a };
        }
        → Step m u

  -- What `main` and the threads come to with n processors.
  pub data Reach : Machine → Type 0 where
    boots :
        (w : World) (jobs : List Job)
        → w.sched ≡ init_scheduler zeroed
        → Reach (record {
          timer = started (suc n);
          system = record { world = w; cpus = replicate n (some new_cpu); jobs = some jobs };
        })
    next : {m u : Machine} → Reach m → Step m u → Reach u
