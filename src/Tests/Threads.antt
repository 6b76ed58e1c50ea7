-- ===== src/Tests/Threads.antt =====
-- Two processors and the loader.
use simple_operating_system.Common.{◌≡◌, ◌≢◌, refl, some, List, [], ◌∷◌, arith, count}
use simple_operating_system.Queue.{Ptr, enqueue, dequeue, empty, to_list}
use simple_operating_system.Sched.{
  first_ready, note_running, take_level, init_scheduler, clear_sizes, get_mlq_proc, enqueue_ready,
  get_proc, add_proc, add_mlq_proc,
}
use simple_operating_system.Sched.Levels.{waiting}
use simple_operating_system.World.{World, deref}
use simple_operating_system.Cpu.{advance, execute, run}
use simple_operating_system.Os.{Cpu, slept, fetch, run_slot, dispatch, Job, admit, ld_routine}
use simple_operating_system.Os.System.{new_cpu, kept}
use simple_operating_system.Os.Threads.{
  Point, looking, chosen, Core, again, after_get, enter, Threads, owned, Step, enters, takes, ends,
  loads, Reach, boots, next,
}
use simple_operating_system.Os.Alone.{Reach-alone}
use simple_operating_system.Tests.Device.{device}
use simple_operating_system.Tests.Scheduling.{booted}
use simple_operating_system.Tests.Machine.{program, world}

abbrev pub job : Ptr → Job
job p = record { address = p; loaded = program p; start_time = 0; prio = 1 }

-- A processor that has run one slot of a process.
abbrev pub ran : Ptr → Cpu
ran p = record { proc = p; time_left = 1 }

abbrev threads : World → Core → Core → List Job → Threads
threads w k0 k1 js = record { world = w; cores = some k0 ∷ some k1 ∷ []; jobs = some js }

abbrev at : Point → Ptr → Core
at x p = record { cpu = record { proc = p; time_left = 0 }; point = x }

abbrev loaded_5 : World
loaded_5 = admit [] (world booted 0) (job 5)

abbrev loaded_6 : World
loaded_6 = admit [] loaded_5 (job 6)

abbrev got_5 : World
got_5 = record loaded_6 { sched = (get_mlq_proc loaded_6.sched).1 }

abbrev got_6 : World
got_6 = record got_5 { sched = (get_mlq_proc got_5.sched).1 }

abbrev ran_5 : World
ran_5 = advance got_6 5

runs_5 : dispatch device 0 2 (got_6, (at chosen 5).cpu) ≡ some (ran_5, ran 5, slept)
unfolding dispatch run_slot run deref execute admit
runs_5 = refl

-- Both processors look for a process, then both get one, before the first runs its own.
both_run : Reach device 0 2 2 (threads ran_5 (again (ran 5)) (at chosen 6) [])
unfolding ld_routine kept to_list init_scheduler clear_sizes admit add_proc add_mlq_proc
    enqueue_ready enqueue enter after_get fetch get_proc get_mlq_proc note_running take_level
    first_ready dequeue empty
both_run =
    let load_5 : Step device 0 2
        (threads (world booted 0) (again new_cpu) (again new_cpu) (job 5 ∷ job 6 ∷ []))
        (threads loaded_5 (again new_cpu) (again new_cpu) (job 6 ∷ [])) =
      loads [] 0 _ _ _ slept refl ((λ e. omega (arith, e)), refl, refl) refl refl in
    let load_6 : Step device 0 2 (threads loaded_5 (again new_cpu) (again new_cpu) (job 6 ∷ []))
        (threads loaded_6 (again new_cpu) (again new_cpu) []) =
      loads [] 0 _ _ _ slept refl ((λ e. omega (arith, e)), refl, refl) refl refl in
    let look_0 : Step device 0 2 (threads loaded_6 (again new_cpu) (again new_cpu) [])
        (threads loaded_6 (at looking 0) (again new_cpu) []) =
      enters 0 new_cpu loaded_6 (at looking 0) refl refl refl in
    let look_1 : Step device 0 2 (threads loaded_6 (at looking 0) (again new_cpu) [])
        (threads loaded_6 (at looking 0) (at looking 0) []) =
      enters 1 new_cpu loaded_6 (at looking 0) refl refl refl in
    let take_5 : Step device 0 2 (threads loaded_6 (at looking 0) (at looking 0) [])
        (threads got_5 (at chosen 5) (at looking 0) []) =
      takes 0 (at looking 0) refl (λ e. cc e) (λ e. cc e) refl in
    let take_6 : Step device 0 2 (threads got_5 (at chosen 5) (at looking 0) [])
        (threads got_6 (at chosen 5) (at chosen 6) []) =
      takes 1 (at looking 0) refl (λ e. cc e) (λ e. cc e) refl in
    let run_5 : Step device 0 2 (threads got_6 (at chosen 5) (at chosen 6) [])
        (threads ran_5 (again (ran 5)) (at chosen 6) []) =
      ends 0 (at chosen 5).cpu ran_5 (ran 5) slept refl runs_5 refl in
    let begun = boots (world booted 0) (job 5 ∷ job 6 ∷ []) refl in
    next (next (next (next (next (next (next begun load_5) load_6) look_0) look_1) take_5) take_6)
      run_5

Reach-alone_example :
    (owned (again (ran 5)) ≢ owned (at chosen 6))
    × (count 5 (waiting ran_5.sched.mlq_ready_queue) ≡ 0)
Reach-alone_example =
    Reach-alone device 0 2 2 (threads ran_5 (again (ran 5)) (at chosen 6) []) 0 1 (again (ran 5))
      (at chosen 6) both_run (λ e. omega (arith, e)) refl refl (λ e. omega (arith, e))
