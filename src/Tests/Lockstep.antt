-- ===== src/Tests/Lockstep.antt =====
-- Two processors and the loader through a whole time slot.
use simple_operating_system.Common.{
  ℕ, ◌≡◌, ◌⊎◌, refl, subst, false, true, some, List, [], ◌∷◌, arith,
}
use mathlib.Core.Option.{some-injective}
use simple_operating_system.Queue.{to_list}
use simple_operating_system.Sched.{init_scheduler, clear_sizes, get_mlq_proc}
use simple_operating_system.World.{World}
use simple_operating_system.Cpu.{advance}
use simple_operating_system.Timer
use simple_operating_system.Timer.{
  Device, working, Phase, top, ended, halted, idle, collect, Timer, timer_next, attached,
  start_timer,
}
use simple_operating_system.Os.{Cpu, Job, admit}
use simple_operating_system.Os.System.{System, new_cpu, Fresh}
use simple_operating_system.Os.Machine.{Machine, Step, times, Reach, boots, next}
use simple_operating_system.Os.Machine.Linked.{Linked}
use simple_operating_system.Os.Machine.Progress.{Stuck, Reach-moves}
use simple_operating_system.Tests.Device.{device}
use simple_operating_system.Tests.Scheduling.{booted}
use simple_operating_system.Tests.Machine.{world}
use simple_operating_system.Tests.Threads.{job, ran}

-- A device that works, that has called `next_slot`, and that has been released.
abbrev at_work : ℕ → Device
at_work s = record { done = false; fsh = false; mode = working; slot = s }

abbrev told : ℕ → Device
told s = record { done = true; fsh = false; mode = Timer.waiting; slot = s }

abbrev let_go : ℕ → Device
let_go s = record { done = false; fsh = false; mode = Timer.waiting; slot = s }

-- The loader, processor 1 and processor 0.
abbrev clock : Device → Device → Device → ℕ → Phase → Timer
clock l c1 c0 t p = record { dev_list = l ∷ c1 ∷ c0 ∷ []; time = t; timer_stop = false; phase = p }

abbrev threads : World → Cpu → Cpu → List Job → System
threads w c0 c1 js = record { world = w; cpus = some c0 ∷ some c1 ∷ []; jobs = some js }

abbrev machine : Timer → System → Machine
machine t s = record { timer = t; system = s }

abbrev one_job : List Job
one_job = job 5 ∷ []

abbrev begun : Machine
begun =
    machine (clock (at_work 0) (at_work 0) (at_work 0) 0 top)
      (threads (world booted 0) new_cpu new_cpu one_job)

begun-Reach : Reach device 0 2 2 begun
unfolding attached start_timer
begun-Reach = boots (world booted 0) one_job refl

-- The loader admits process 5, processor 0 runs it, and processor 1 finds none.
abbrev admitted : World
admitted = admit [] (world booted 0) (job 5)

abbrev taken : World
taken = advance (record admitted { sched = (get_mlq_proc admitted.sched).1 }) 5

abbrev reset : World
reset = record taken { sched = (get_mlq_proc taken.sched).1 }

-- The threads at the end of the slot, and then.
abbrev busy : System
busy = threads reset (ran 5) new_cpu []

abbrev told_all : Machine
told_all = machine (clock (told 0) (told 0) (told 0) 0 top) busy

abbrev opened : Machine
opened = machine (clock (let_go 0) (let_go 0) (let_go 0) 1 top) busy

abbrev woken : Machine
woken = machine (clock (let_go 0) (at_work 1) (at_work 1) 1 top) busy

-- The timer waits for the loader, which has work to do.
abbrev scanning : Machine
scanning = record begun { timer = record begun.timer { phase = collect 0 0 0 } }

scanning-Reach : Reach device 0 2 2 scanning
unfolding timer_next
scanning-Reach = next begun-Reach (times scanning.timer refl refl)

fresh : (jobs : List Job) → scanning.system.jobs ≡ some jobs → Fresh scanning.system jobs
unfolding init_scheduler clear_sizes to_list
fresh jobs e =
    subst (Fresh scanning.system) (some-injective one_job jobs e)
      ((λ z. omega (arith, z)), refl, refl)

Reach-moves_example : ((u : Machine) × Step device 0 2 2 scanning u) ⊎ Stuck device 0 2 2 scanning
Reach-moves_example =
    Reach-moves device 0 2 2 scanning scanning-Reach (λ e. cc e) (λ e. cc e) (λ e. cc e) fresh
