-- ===== src/Sched.antt =====
-- src/sched.c under MLQ_SCHED, the configured policy. Each function is one critical section.
pub mod Levels
pub mod Invariant
pub mod Policy
pub mod Conserve
pub mod Reach
pub mod Simple
use simple_operating_system.Common.{
  ℕ, zero, suc, ◌-◌, Bool, true, false, ◌&&◌, Option, none, some, List, [], ◌∷◌, ◌==◌, ltb, ℤ, pos,
  failure, if◌then◌else◌, get_or, set, replicate,
}
use simple_operating_system.Process.{Pcb}
use simple_operating_system.Queue.{Ptr, null, Queue, cleared, empty, enqueue, dequeue, purgequeue}

abbrev pub max_prio : ℕ
max_prio = 140

-- The static variables of the module.
pub record Sched : Type 0 where
  pub ready_queue : Queue
  pub run_queue : Queue
  pub running_list : Queue
  pub mlq_ready_queue : List Queue
  pub slot : List ℕ
  pub current_prio : ℕ
  pub current_slot : ℕ

-- The static variables before `init_scheduler`.
abbrev pub zeroed : Sched
zeroed = record {
  ready_queue = cleared;
  run_queue = cleared;
  running_list = cleared;
  mlq_ready_queue = replicate max_prio cleared;
  slot = replicate max_prio 0;
  current_prio = 0;
  current_slot = 0;
}

-- The first level from `prio` on whose queue is not empty.
unfoldable pub first_ready : (prio : ℕ) → List Queue → Option ℕ
unfolding empty
first_ready prio [] = none
first_ready prio (q ∷ qs) =
    let rest = first_ready (suc prio) qs in if empty q then rest else some prio

unfoldable pub queue_empty : Sched → ℤ
unfolding first_ready empty
queue_empty s = elim (first_ready 0 s.mlq_ready_queue) [
  | some prio ↦ failure
  | none ↦ if empty s.ready_queue && empty s.run_queue then pos 1 else pos 0
]

-- `slot[i] = MAX_PRIO - i`, n rounds from i on.
unfoldable pub slots_from : (n i : ℕ) → List ℕ
slots_from zero i = []
slots_from (suc n) i = (max_prio - i) ∷ slots_from n (suc i)

unfoldable pub clear_sizes : List Queue → List Queue
clear_sizes [] = []
clear_sizes (q ∷ qs) = record q { size = 0 } ∷ clear_sizes qs

unfoldable pub init_scheduler : Sched → Sched
unfolding slots_from clear_sizes
init_scheduler s = record s {
  mlq_ready_queue = clear_sizes s.mlq_ready_queue;
  slot = slots_from max_prio 0;
  ready_queue = record s.ready_queue { size = 0 };
  run_queue = record s.run_queue { size = 0 };
  running_list = record s.running_list { size = 0 };
}

-- The body of the scan at the level that it stops at.
unfoldable pub take_level : Sched → ℕ → Ptr × Sched
take_level s prio =
    let (proc, q) = dequeue (get_or s.mlq_ready_queue prio cleared) in
    (
      proc,
      record s {
        mlq_ready_queue = set s.mlq_ready_queue prio q;
        current_prio = prio;
        current_slot = 1;
      },
    )

-- The process that runs next joins the running list; without one the position is reset.
unfoldable pub note_running : Ptr × Sched → Ptr × Sched
note_running (proc, s) =
    if proc == null
    then (proc, record s { current_prio = 0; current_slot = 0 })
    else (proc, record s { running_list = enqueue s.running_list proc })

unfoldable pub get_mlq_proc : Sched → Ptr × Sched
get_mlq_proc s =
    note_running
      (elim (first_ready 0 s.mlq_ready_queue) [ none ↦ (null, s) | some prio ↦ take_level s prio ])

-- The guarded `enqueue` of `put_mlq_proc` and `add_mlq_proc`. A `prio` is unsigned.
unfoldable pub enqueue_ready : (Ptr → Pcb) → Sched → Ptr → Sched
enqueue_ready pcb s proc =
    let prio = (pcb proc).prio in
    if ltb prio max_prio
    then record s {
      mlq_ready_queue =
          set s.mlq_ready_queue prio (enqueue (get_or s.mlq_ready_queue prio cleared) proc);
    }
    else s

unfoldable pub put_mlq_proc : (Ptr → Pcb) → Sched → Ptr → Sched
put_mlq_proc pcb s proc =
    if proc == null
    then s
    else enqueue_ready pcb (record s { running_list = (purgequeue s.running_list proc).1 }) proc

-- The pointers that it stores in `proc->krnl` lead to the variables of this module.
unfoldable pub add_mlq_proc : (Ptr → Pcb) → Sched → Ptr → Sched
add_mlq_proc pcb s proc = enqueue_ready pcb s proc

unfoldable pub get_proc : Sched → Ptr × Sched
get_proc s = get_mlq_proc s

unfoldable pub put_proc : (Ptr → Pcb) → Sched → Ptr → Sched
put_proc pcb s proc = put_mlq_proc pcb s proc

unfoldable pub add_proc : (Ptr → Pcb) → Sched → Ptr → Sched
add_proc pcb s proc = add_mlq_proc pcb s proc
