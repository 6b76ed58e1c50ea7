-- ===== src/Sched/Policy.antt =====
-- What src/sched.c promises: the highest priority first, and in each level the oldest first.
use simple_operating_system.Common.{
  ℕ, ◌<◌, ◌≡◌, ◌≢◌, refl, ap, inl, inr, false, Option, none, some, List, [], ◌∷◌, ◌++◌, ◌==◌, leb,
  if◌then◌else◌, arith, Bool-cases, length, get_or, set, count, ltb, ltb→lt, erase, get_or-set_self,
  get_or-set_ne,
}
use simple_operating_system.Process.{Pcb}
use simple_operating_system.Queue.{
  Ptr, null, max_queue_size, Queue, cleared, dequeue, purgequeue, to_list,
}
use simple_operating_system.Queue.Valid.{purgequeue-IsValid}
use simple_operating_system.Queue.Refine.{to_list-enqueue}
use simple_operating_system.Queue.Purge.{to_list-purgequeue}
use simple_operating_system.Sched.{
  Sched, max_prio, first_ready, take_level, note_running, get_mlq_proc, put_mlq_proc, enqueue_ready,
}
use simple_operating_system.Sched.Levels.{AllValid-get_or, waiting, Scan, first_ready-Scan}
use simple_operating_system.Sched.Invariant.{IsValid}

abbrev pub level : Sched → ℕ → List Ptr
level s i = to_list (get_or s.mlq_ready_queue i cleared)

-- A queue after `enqueue`, as a list: a full one keeps what it has.
abbrev pub joined : Queue → Ptr → List Ptr
joined q p = if leb max_queue_size q.size then to_list q else to_list q ++ p ∷ []

-- What a call of `get_mlq_proc` does to a valid scheduler whose waiting processes are p and then ps.
abbrev Chosen : Sched → Ptr → List Ptr → Ptr × Sched → Type 0
Chosen s p ps (q, s') =
    (q ≡ p)
    × (waiting s'.mlq_ready_queue ≡ ps)
    × (to_list s'.running_list ≡ joined s.running_list p)
    × ((j : ℕ) → j < s'.current_prio → level s j ≡ [])

get_mlq_proc-Chosen :
    (s : Sched) (p : Ptr) (ps : List Ptr)
    → IsValid s
    → waiting s.mlq_ready_queue ≡ p ∷ ps
    → Chosen s p ps (get_mlq_proc s)
unfolding get_mlq_proc note_running take_level
get_mlq_proc-Chosen s p ps v w =
    go (first_ready 0 s.mlq_ready_queue) (first_ready-Scan s.mlq_ready_queue v.ready)
  where
    present : p ≢ null
    present e = omega (arith, v.proper, ap (count null) w, ap (λ x. count null (x ∷ ps)) e)

    go :
        (o : Option ℕ)
        → Scan s.mlq_ready_queue o
        → Chosen s p ps (note_running (elim o [ none ↦ (null, s) | some prio ↦ take_level s prio ]))
    go none h = cc
    go (some i) h =
        let d = dequeue (get_or s.mlq_ready_queue i cleared) in
        let first : d.0 ≡ p = cc (h.1, w) in
        let rest : waiting (set s.mlq_ready_queue i d.1) ≡ ps = cc (h.1, w) in
        let e : (d.0 == null) ≡ false = ground (arith, present) in
        rw e (first, rest, rw first (to_list-enqueue s.running_list p v.running present), h.2)

-- In a valid scheduler where some process waits, `get_mlq_proc` answers the first in order of
-- priority and age and takes it alone out of the ready queues. It adds the process to the running
-- list if that has room.
pub get_mlq_proc-highest :
    (s : Sched) (p : Ptr) (ps : List Ptr)
    → IsValid s
    → waiting s.mlq_ready_queue ≡ p ∷ ps
    → ((get_mlq_proc s).0 ≡ p)
      × (waiting (get_mlq_proc s).1.mlq_ready_queue ≡ ps)
      × (to_list (get_mlq_proc s).1.running_list ≡ joined s.running_list p)
get_mlq_proc-highest s p ps v w = let (a, b, c, d) = get_mlq_proc-Chosen s p ps v w in (a, b, c)

-- In a valid scheduler where some process waits, `get_mlq_proc` leaves `current_prio` at a level
-- such that every level before it was empty.
pub get_mlq_proc-before :
    (s : Sched) (p : Ptr) (ps : List Ptr) (j : ℕ)
    → IsValid s
    → waiting s.mlq_ready_queue ≡ p ∷ ps
    → j < (get_mlq_proc s).1.current_prio
    → level s j ≡ []
get_mlq_proc-before s p ps j v w h = let (a, b, c, d) = get_mlq_proc-Chosen s p ps v w in d j h

-- In a valid scheduler where no process waits, `get_mlq_proc` answers NULL and changes nothing but
-- the position, which it resets.
pub get_mlq_proc-idle :
    (s : Sched)
    → IsValid s
    → waiting s.mlq_ready_queue ≡ []
    → get_mlq_proc s ≡ (null, record s { current_prio = 0; current_slot = 0 })
unfolding get_mlq_proc note_running
get_mlq_proc-idle s v w =
    go (first_ready 0 s.mlq_ready_queue) (first_ready-Scan s.mlq_ready_queue v.ready)
  where
    go :
        (o : Option ℕ)
        → Scan s.mlq_ready_queue o
        → note_running (elim o [ none ↦ (null, s) | some prio ↦ take_level s prio ])
          ≡ (null, record s { current_prio = 0; current_slot = 0 })
    go none h = refl
    go (some i) h = cc (h.1, w)

pub running-enqueue_ready :
    (pcb : Ptr → Pcb) (s : Sched) (p : Ptr) → (enqueue_ready pcb s p).running_list ≡ s.running_list
unfolding enqueue_ready
running-enqueue_ready pcb s p = ground arith

-- What joins, and where, in a valid scheduler.
pub enqueue_ready-level :
    (pcb : Ptr → Pcb) (s : Sched) (p : Ptr) (i : ℕ)
    → IsValid s
    → p ≢ null
    → level (enqueue_ready pcb s p) i ≡ (
        if ltb (pcb p).prio max_prio
        then (if i == (pcb p).prio
            then joined (get_or s.mlq_ready_queue i cleared) p
            else level s i)
        else level s i)
unfolding enqueue_ready
enqueue_ready-level pcb s p i v h = elim (Bool-cases (ltb (pcb p).prio max_prio)) [
  | inr out ↦ rw out
  | inl fits ↦
      let bound : (pcb p).prio < length s.mlq_ready_queue =
        omega (arith, v.levels, ltb→lt _ _ fits) in
      elim (Bool-cases (i == (pcb p).prio)) [
        | inl e ↦
            let same : i ≡ (pcb p).prio = ground arith in
            rw (fits, e, same, get_or-set_self s.mlq_ready_queue (pcb p).prio _ cleared bound)
              (to_list-enqueue _ p (AllValid-get_or s.mlq_ready_queue _ v.ready bound) h)
        | inr e ↦ rw (
          fits,
          e,
          get_or-set_ne s.mlq_ready_queue (pcb p).prio i _ cleared (λ same. ground arith),
        )
      ]
]

-- In a valid scheduler, putting back a process that is not NULL takes its first entry off the
-- running list. If its priority is a level, it joins that level at the end (unless the level is
-- full); every other level stays as it is, and all do if its priority is none.
pub put_mlq_proc-level :
    (pcb : Ptr → Pcb) (s : Sched) (p : Ptr) (i : ℕ)
    → IsValid s
    → p ≢ null
    → let s' = put_mlq_proc pcb s p in
      (to_list s'.running_list ≡ erase p (to_list s.running_list))
      × (level s' i ≡ (
          if ltb (pcb p).prio max_prio
          then (if i == (pcb p).prio
              then joined (get_or s.mlq_ready_queue i cleared) p
              else level s i)
          else level s i))
unfolding put_mlq_proc
put_mlq_proc-level pcb s p i v h =
    let e : (p == null) ≡ false = ground arith in
    let purged : Sched = record s { running_list = (purgequeue s.running_list p).1 } in
    rw e (
      rw (running-enqueue_ready pcb purged p) ((to_list-purgequeue s.running_list p v.running h).0),
      enqueue_ready-level pcb purged p i
          (record {
            levels = v.levels;
            ready = v.ready;
            running = purgequeue-IsValid s.running_list p v.running;
            proper = v.proper;
          })
          h,
    )
