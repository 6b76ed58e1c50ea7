-- ===== src/Sched/Reach.antt =====
-- Sequences of calls to the functions of src/sched.c.
use simple_operating_system.Process.{Pcb}
use simple_operating_system.Queue.{Ptr}
use simple_operating_system.Sched.{
  Sched, zeroed, init_scheduler, get_mlq_proc, put_mlq_proc, add_mlq_proc,
}
use simple_operating_system.Sched.Invariant.{
  IsValid, zeroed-IsValid, init_scheduler-IsValid, get_mlq_proc-IsValid, put_mlq_proc-IsValid,
  add_mlq_proc-IsValid,
}

-- What the program can make of the static variables. The control blocks may change between calls.
pub data Reach : Sched → Type 0 where
  starts : Reach (init_scheduler zeroed)
  gets : {s : Sched} → Reach s → Reach (get_mlq_proc s).1
  puts : {s : Sched} → (pcb : Ptr → Pcb) → (p : Ptr) → Reach s → Reach (put_mlq_proc pcb s p)
  adds : {s : Sched} → (pcb : Ptr → Pcb) → (p : Ptr) → Reach s → Reach (add_mlq_proc pcb s p)

-- After any sequence of calls, of whatever arguments, the scheduler is valid: it has its 140 levels,
-- each a queue of at most 50 entries in its array, the running list is such a queue, and no NULL
-- waits.
pub Reach-IsValid : (s : Sched) → Reach s → IsValid s
Reach-IsValid s starts = (init_scheduler-IsValid zeroed zeroed-IsValid).0
Reach-IsValid s (gets {s = t} r) = get_mlq_proc-IsValid t (Reach-IsValid t r)
Reach-IsValid s (puts {s = t} pcb p r) = put_mlq_proc-IsValid pcb t p (Reach-IsValid t r)
Reach-IsValid s (adds {s = t} pcb p r) = add_mlq_proc-IsValid pcb t p (Reach-IsValid t r)
