-- ===== src/Tests/Machine.antt =====
-- Processors that run two processes.
use simple_operating_system.Common.{
  length, erase, ltb, get_or, ℕ, suc, ◌%◌, ◌^◌, ◌≡◌, ◌≢◌, refl, none, some, [], ◌∷◌, ◌==◌,
  if◌then◌else◌, arith, length-replicate, success,
}
use simple_operating_system.Mm.{table_entries}
use simple_operating_system.Process.{calc, Inst, Pcb}
use simple_operating_system.Queue.{
  Ptr, null, enqueue, dequeue, find_proc, purgequeue, empty, to_list,
}
use simple_operating_system.Vmap.{init_mm}
use simple_operating_system.Sched.Policy.{level, joined}
use simple_operating_system.Queue.{cleared}
use simple_operating_system.Sched.{
  max_prio, Sched, zeroed, init_scheduler, clear_sizes, first_ready, note_running, take_level,
  get_mlq_proc, put_mlq_proc, add_mlq_proc, enqueue_ready, get_proc, put_proc,
}
use simple_operating_system.Sched.Levels.{waiting}
use simple_operating_system.Sched.Invariant.{init_scheduler-IsValid, zeroed-IsValid}
use simple_operating_system.World.{World, deref, free_pcb, store_caller}
use simple_operating_system.Syscall.{ScRegs, find_target, sys_mmstats}
use simple_operating_system.Syscall.Statistics.{sys_mmstats-undefined}
use simple_operating_system.Cpu.{advance, execute, run}
use simple_operating_system.Cpu.Counter.{run-pc}
use simple_operating_system.Cpu.Finish.{over, once_more, Runs-finish}
use simple_operating_system.Os.{Cpu, Act, slept, stopped, fetch, run_slot, dispatch, cpu_routine}
use simple_operating_system.Os.Processor.{cpu_routine-idle, cpu_routine-preempts, cpu_routine-stops}
use simple_operating_system.Tests.Device.{device, ram}
use simple_operating_system.Tests.Scheduling.{pcb, booted, booted-IsValid, loaded, loaded-IsValid}

abbrev nothing : Inst
nothing = record { opcode = calc; arg_0 = 0; arg_1 = 0; arg_2 = 0; arg_3 = 0 }

-- Process 1 has no instructions, the others have two.
abbrev pub program : Ptr → Pcb
program p = record (pcb p) { code = if p == 1 then [] else nothing ∷ nothing ∷ [] }

abbrev pub world : Sched → ℕ → World
world s done = record {
  sched = s;
  procs = program;
  mms = λ p. init_mm [];
  freed = [];
  mram = ram;
  active_mswp = ram;
  done = done;
}

-- Process 2 runs, process 1 waits.
abbrev running : World
running = world (get_mlq_proc loaded).1 0

abbrev about : ScRegs
about = record { a1 = 2; a2 = 0; a3 = 0 }

found : find_target running (2 % 2 ^ 32) (to_list running.sched.running_list) ≡ some (some 2)
unfolding find_target deref get_mlq_proc note_running take_level first_ready add_mlq_proc
    init_scheduler enqueue enqueue_ready empty dequeue to_list
found = refl

sys_mmstats-undefined_example : sys_mmstats running about ≡ none
unfolding init_mm
sys_mmstats-undefined_example =
    sys_mmstats-undefined running about 2 found (length-replicate {A = ℕ} table_entries 0)

abbrev counted : World
counted = advance (world booted 0) 3

ran : run device 0 (world booted 0) 3 ≡ some (counted, success)
unfolding run deref execute
ran = refl

run-pc_example :
    ((counted.procs 3).pc ≡ 1 % 2 ^ 32)
    × ((counted.procs 3).code ≡ nothing ∷ nothing ∷ [])
    × ((q : Ptr) → q ≢ 3 → (counted.procs q).pc ≡ 0)
unfolding deref
run-pc_example =
    run-pc device 0 (world booted 0) 3 (program 3) nothing (counted, success) refl refl ran

abbrev unused : Cpu
unused = record { proc = null; time_left = 0 }

cpu_routine-idle_example :
    cpu_routine device 0 2 (world booted 1) unused
    ≡ some (world (record booted { current_prio = 0; current_slot = 0 }) 1, unused, slept)
cpu_routine-idle_example =
    cpu_routine-idle device 0 2 (world booted 1) unused booted-IsValid
      ((init_scheduler-IsValid zeroed zeroed-IsValid).1) refl

-- A processor of process 3 with one slot left.
abbrev busy : ℕ → Cpu
busy left = record { proc = 3; time_left = left }

abbrev after : World × Cpu × Act
after = (counted, busy 0, slept)

-- Process 1, which has finished, while nothing waits and the loader is done.
abbrev last : Cpu
last = record { proc = 1; time_left = 1 }

abbrev halted : World × Cpu × Act
halted = (
  record (free_pcb (world booted 1) 1) {
    sched = record booted { current_prio = 0; current_slot = 0 };
  },
  unused,
  stopped,
)

halts : cpu_routine device 0 2 (world booted 1) last ≡ some halted
unfolding cpu_routine deref dispatch fetch get_proc get_mlq_proc note_running first_ready
    init_scheduler clear_sizes empty free_pcb
halts = refl

cpu_routine-stops_example :
    ((world booted 1).done ≢ 0)
    × (unused.proc ≡ null)
    × (waiting halted.0.sched.mlq_ready_queue ≡ [])
cpu_routine-stops_example =
    cpu_routine-stops device 0 2 (world booted 1) last halted booted-IsValid halts refl

-- Process 3 has used its slice and goes behind process 2, which has the same priority.
abbrev requeued : Sched
requeued = put_proc program loaded 3

abbrev switched : World × Cpu × Act
switched = (
  advance (record (world loaded 0) { sched = (get_mlq_proc requeued).1 }) 2,
  record { proc = 2; time_left = 1 },
  slept,
)

in_line : waiting requeued.mlq_ready_queue ≡ 2 ∷ 3 ∷ 1 ∷ []
unfolding put_proc put_mlq_proc purgequeue find_proc enqueue_ready add_mlq_proc init_scheduler
    enqueue to_list
in_line = refl

switches : cpu_routine device 0 2 (world loaded 0) (busy 0) ≡ some switched
unfolding cpu_routine deref dispatch fetch get_proc put_proc put_mlq_proc purgequeue find_proc
    get_mlq_proc note_running take_level first_ready enqueue_ready add_mlq_proc init_scheduler
    enqueue dequeue empty run_slot run execute
switches = refl

cpu_routine-preempts_example :
    (to_list requeued.running_list ≡ erase 3 (to_list loaded.running_list))
    × (level requeued 1 ≡ (
        if ltb (program 3).prio max_prio
        then (if 1 == (program 3).prio
            then joined (get_or loaded.mlq_ready_queue 1 cleared) 3
            else level loaded 1)
        else level loaded 1))
    × (waiting switched.0.sched.mlq_ready_queue ≡ 3 ∷ 1 ∷ [])
    × (to_list switched.0.sched.running_list ≡ joined requeued.running_list 2)
    × (switched.1.proc ≡ 2)
    × (suc switched.1.time_left ≡ 2)
    × (slept ≡ slept)
unfolding deref
cpu_routine-preempts_example =
    cpu_routine-preempts device 0 2 (world loaded 0) (busy 0) (program 3) 2 (3 ∷ 1 ∷ []) switched 1
      loaded-IsValid refl (λ e. omega (arith, e)) refl (omega arith) (omega arith) in_line switches

-- Process 3 run twice.
abbrev finished : World
finished = advance counted 3

ran_again : run device 0 counted 3 ≡ some (finished, success)
unfolding run deref execute advance store_caller
ran_again = refl

Runs-finish_example :
    ((finished.procs 3).pc ≡ length (finished.procs 3).code)
    × ((finished.procs 3).code ≡ (program 3).code)
Runs-finish_example =
    Runs-finish device 0 3 2 (world booted 0) finished
      (once_more success ran (once_more success ran_again over)) refl (omega arith)
