-- ===== src/Tests/Scheduling.antt =====
-- Two processes in the scheduler of src/sched.c, and a queue of src/queue.c.
use simple_operating_system.Common.{
  ◌≡◌, ◌≢◌, refl, [], ◌∷◌, ◌==◌, ltb, if◌then◌else◌, arith, get_or, erase, contains,
}
use simple_operating_system.Process.{Pcb}
use simple_operating_system.Queue.{Ptr, null, Queue, cleared, enqueue, dequeue, purgequeue, to_list}
use simple_operating_system.Queue.Valid
use simple_operating_system.Queue.Valid.{enqueue-IsValid, dequeue-IsValid, purgequeue-IsValid}
use simple_operating_system.Queue.Purge.{to_list-purgequeue}
use simple_operating_system.Sched.{
  Sched, zeroed, max_prio, init_scheduler, get_mlq_proc, enqueue_ready, put_mlq_proc, add_mlq_proc,
}
use simple_operating_system.Sched.Levels.{waiting}
use simple_operating_system.Sched.Invariant.{
  IsValid, zeroed-IsValid, init_scheduler-IsValid, get_mlq_proc-IsValid, add_mlq_proc-IsValid,
}
use simple_operating_system.Sched.Reach.{Reach, starts, Reach-IsValid}
use simple_operating_system.Sched.Simple
use simple_operating_system.Sched.Simple.{over, gets, adds, put_proc-lost}
use simple_operating_system.Queue.Race.{enqueue_store, enqueue_count, to_list-race}
use simple_operating_system.Sched.Policy.{level, joined, get_mlq_proc-highest, put_mlq_proc-level}

-- A static queue.
cleared-IsValid : Valid.IsValid cleared
cleared-IsValid = record { capacity = refl; bounded = omega arith }

abbrev pub two : Queue
two = enqueue (enqueue cleared 7) 9

two-IsValid : Valid.IsValid two
two-IsValid = enqueue-IsValid (enqueue cleared 7) 9 (enqueue-IsValid cleared 7 cleared-IsValid)

pub two-list : to_list two ≡ 7 ∷ 9 ∷ []
unfolding to_list enqueue
two-list = refl

to_list-purgequeue_example :
    (to_list (purgequeue two 9).1 ≡ erase 9 (to_list two))
    × ((purgequeue two 9).0 ≡ (if contains 9 (to_list two) then 9 else null))
to_list-purgequeue_example = to_list-purgequeue two 9 two-IsValid (λ e. omega (arith, e))

to_list-race_example :
    ((dequeue (enqueue_store two 4)).0 ≡ 7)
    × (to_list (enqueue_count (dequeue (enqueue_store two 4)).1) ≡ 9 ∷ 9 ∷ [])
unfolding enqueue
to_list-race_example = to_list-race two 4 7 (9 ∷ []) two-IsValid (omega arith) two-list

-- Process 1 has priority 3, the others 1.
abbrev pub pcb : Ptr → Pcb
pcb p = record {
  pid = p;
  priority = 0;
  code = [];
  regs = [];
  pc = 0;
  prio = if p == 1 then 3 else 1;
  bp = 0;
}

abbrev pub booted : Sched
booted = init_scheduler zeroed

abbrev pub loaded : Sched
loaded = add_mlq_proc pcb (add_mlq_proc pcb booted 1) 2

pub booted-IsValid : IsValid booted
booted-IsValid = (init_scheduler-IsValid zeroed zeroed-IsValid).0

pub loaded-IsValid : IsValid loaded
loaded-IsValid =
    add_mlq_proc-IsValid pcb (add_mlq_proc pcb booted 1) 2
      (add_mlq_proc-IsValid pcb booted 1 booted-IsValid)

-- The later process has the better priority and comes first.
pub loaded-waiting : waiting loaded.mlq_ready_queue ≡ 2 ∷ 1 ∷ []
unfolding add_mlq_proc init_scheduler enqueue to_list enqueue_ready
loaded-waiting = refl

get_mlq_proc-highest_example :
    ((get_mlq_proc loaded).0 ≡ 2)
    × (waiting (get_mlq_proc loaded).1.mlq_ready_queue ≡ 1 ∷ [])
    × (to_list (get_mlq_proc loaded).1.running_list ≡ joined loaded.running_list 2)
get_mlq_proc-highest_example = get_mlq_proc-highest loaded 2 (1 ∷ []) loaded-IsValid loaded-waiting

abbrev taken : Sched
taken = (get_mlq_proc loaded).1

taken-IsValid : IsValid taken
taken-IsValid = get_mlq_proc-IsValid loaded loaded-IsValid

put_mlq_proc-level_example :
    (to_list (put_mlq_proc pcb taken 2).running_list ≡ erase 2 (to_list taken.running_list))
    × (level (put_mlq_proc pcb taken 2) 1 ≡ (
        if ltb (pcb 2).prio max_prio
        then (if 1 == (pcb 2).prio
            then joined (get_or taken.mlq_ready_queue 1 cleared) 2
            else level taken 1)
        else level taken 1))
put_mlq_proc-level_example = put_mlq_proc-level pcb taken 2 1 taken-IsValid (λ e. omega (arith, e))

Reach-IsValid_example : IsValid (put_mlq_proc pcb taken 2)
Reach-IsValid_example =
    Reach-IsValid (put_mlq_proc pcb taken 2)
      (Reach.puts pcb 2 (Reach.gets (Reach.adds pcb 2 (Reach.adds pcb 1 starts))))

-- Without priorities: process 5 is put back, and process 7 added.
abbrev without_5 : Sched
without_5 = (Simple.get_proc (Simple.add_proc (Simple.put_proc zeroed 5) 7)).1

put_proc-lost_example : (Simple.get_proc without_5).0 ≢ 5
unfolding to_list
put_proc-lost_example =
    put_proc-lost 5 zeroed without_5 (λ e. omega (arith, e)) cleared-IsValid refl
      (adds 7 (λ e. omega (arith, e)) (λ e. omega (arith, e)) (gets over))
