-- ===== src/Sched/Invariant.antt =====
-- The invariant of src/sched.c.
use simple_operating_system.Common.{
  ℕ, zero, suc, ◌≡◌, refl, ap, ◌∙◌, inl, inr, Option, none, some, List, [], ◌∷◌, ◌==◌, arith,
  Bool-cases, length, get_or, count, count-append, length-set, length-replicate, replicate, ltb,
  ltb→lt,
}
use simple_operating_system.Process.{Pcb}
use simple_operating_system.Queue.{Ptr, null, Queue, cleared, enqueue, purgequeue, to_list}
use simple_operating_system.Queue.Valid
use simple_operating_system.Queue.Valid.{enqueue-IsValid, dequeue-IsValid, purgequeue-IsValid}
use simple_operating_system.Queue.Refine.{to_list-enqueue}
use simple_operating_system.Sched.{
  Sched, max_prio, zeroed, first_ready, take_level, note_running, get_mlq_proc, put_mlq_proc,
  add_mlq_proc, enqueue_ready, init_scheduler, clear_sizes,
}
use simple_operating_system.Sched.Levels.{
  AllValid, AllValid-get_or, AllValid-set, waiting, Scan, first_ready-Scan, count-waiting-set,
}

-- There are MAX_PRIO levels, every queue is valid, and no NULL waits.
pub record IsValid (s : Sched) : Type 0 where
  pub levels : length s.mlq_ready_queue ≡ max_prio
  pub ready : AllValid s.mlq_ready_queue
  pub running : Valid.IsValid s.running_list
  pub proper : count null (waiting s.mlq_ready_queue) ≡ 0

note_running-IsValid : (r : Ptr × Sched) → IsValid r.1 → IsValid (note_running r).1
unfolding note_running
note_running-IsValid (p, s) v = ground (arith, enqueue-IsValid s.running_list p)

-- Taking the next process keeps the scheduler valid.
pub get_mlq_proc-IsValid : (s : Sched) → IsValid s → IsValid (get_mlq_proc s).1
unfolding get_mlq_proc
get_mlq_proc-IsValid s v =
    go (first_ready 0 s.mlq_ready_queue) (first_ready-Scan s.mlq_ready_queue v.ready)
  where
    go :
        (o : Option ℕ)
        → Scan s.mlq_ready_queue o
        → IsValid (note_running (elim o [ none ↦ (null, s) | some prio ↦ take_level s prio ])).1
    go none h = note_running-IsValid (null, s) v
    go (some i) h = note_running-IsValid (take_level s i) (
        unfold take_level in
        record {
          levels = length-set s.mlq_ready_queue i _ ∙ v.levels;
          ready = AllValid-set s.mlq_ready_queue i _ v.ready (
              dequeue-IsValid (get_or s.mlq_ready_queue i cleared)
                (AllValid-get_or s.mlq_ready_queue i v.ready h.0));
          running = v.running;
          proper = omega (arith, ap (count null) h.1, v.proper);
        })

count-null-enqueue :
    (q : Queue) (p : Ptr)
    → Valid.IsValid q
    → count null (to_list (enqueue q p)) ≡ count null (to_list q)
count-null-enqueue q p v = elim (Bool-cases (p == null)) [
  | inl e ↦ unfold enqueue in rw e
  | inr e ↦
      ground (arith, to_list-enqueue q p v (ground arith), count-append null (to_list q) (p ∷ []))
]

enqueue_ready-IsValid :
    (pcb : Ptr → Pcb) (s : Sched) (p : Ptr) → IsValid s → IsValid (enqueue_ready pcb s p)
unfolding enqueue_ready
enqueue_ready-IsValid pcb s p v = elim (Bool-cases (ltb (pcb p).prio max_prio)) [
  | inl e ↦ rw e (record {
    levels = length-set s.mlq_ready_queue _ _ ∙ v.levels;
    ready = AllValid-set s.mlq_ready_queue _ _ v.ready (
        enqueue-IsValid _ p
          (AllValid-get_or s.mlq_ready_queue _ v.ready (omega (arith, v.levels, ltb→lt _ _ e))));
    running = v.running;
    proper = omega (
      arith,
      v.proper,
      count-waiting-set null s.mlq_ready_queue (pcb p).prio
          (enqueue (get_or s.mlq_ready_queue (pcb p).prio cleared) p)
          (omega (arith, v.levels, ltb→lt _ _ e)),
      count-null-enqueue (get_or s.mlq_ready_queue (pcb p).prio cleared) p
          (AllValid-get_or s.mlq_ready_queue _ v.ready (omega (arith, v.levels, ltb→lt _ _ e))),
    );
  })
  | inr e ↦ rw e v
]

-- Putting back a process keeps the scheduler valid.
pub put_mlq_proc-IsValid :
    (pcb : Ptr → Pcb) (s : Sched) (p : Ptr) → IsValid s → IsValid (put_mlq_proc pcb s p)
unfolding put_mlq_proc
put_mlq_proc-IsValid pcb s p v = elim (Bool-cases (p == null)) [
  | inl e ↦ rw e v
  | inr e ↦ rw e (
      enqueue_ready-IsValid pcb (record s { running_list = (purgequeue s.running_list p).1 }) p
        (record {
          levels = v.levels;
          ready = v.ready;
          running = purgequeue-IsValid s.running_list p v.running;
          proper = v.proper;
        }))
]

-- Adding a process keeps the scheduler valid.
pub add_mlq_proc-IsValid :
    (pcb : Ptr → Pcb) (s : Sched) (p : Ptr) → IsValid s → IsValid (add_mlq_proc pcb s p)
unfolding add_mlq_proc
add_mlq_proc-IsValid pcb s p v = enqueue_ready-IsValid pcb s p v

slots_length-levels : (qs : List Queue) → length (clear_sizes qs) ≡ length qs
unfolding clear_sizes
slots_length-levels [] = refl
slots_length-levels (q ∷ qs) = ap suc (slots_length-levels qs)

cleared-levels :
    (qs : List Queue) → AllValid qs → AllValid (clear_sizes qs) × (waiting (clear_sizes qs) ≡ [])
unfolding clear_sizes to_list
cleared-levels [] v = (tt, refl)
cleared-levels (q ∷ qs) v =
    let (a, b) = cleared-levels qs v.1 in
    ((record { capacity = v.0.capacity; bounded = omega arith }, a), b)

-- `init_scheduler` empties a valid scheduler: no process waits at any level, the slots are set and
-- the invariant holds.
pub init_scheduler-IsValid :
    (s : Sched)
    → IsValid s
    → IsValid (init_scheduler s) × (waiting (init_scheduler s).mlq_ready_queue ≡ [])
unfolding init_scheduler
init_scheduler-IsValid s v =
    let (a, b) = cleared-levels s.mlq_ready_queue v.ready in
    (
      record {
        levels = slots_length-levels s.mlq_ready_queue ∙ v.levels;
        ready = a;
        running = record { capacity = v.running.capacity; bounded = omega arith };
        proper = rw b;
      },
      b,
    )

-- The static variables before the first call.
AllValid-replicate : (n : ℕ) → AllValid (replicate n cleared) × (waiting (replicate n cleared) ≡ [])
unfolding to_list
AllValid-replicate zero = (tt, refl)
AllValid-replicate (suc n) =
    let (a, b) = AllValid-replicate n in ((record { capacity = refl; bounded = omega arith }, a), b)

pub zeroed-IsValid : IsValid zeroed
zeroed-IsValid =
    let (a, b) = AllValid-replicate max_prio in
    record {
      levels = length-replicate max_prio cleared;
      ready = a;
      running = record { capacity = refl; bounded = omega arith };
      proper = rw b;
    }
