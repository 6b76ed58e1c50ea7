-- ===== src/Sched/Simple.antt =====
-- src/sched.c without MLQ_SCHED: one ready queue, and a queue of processes that were put back.
use simple_operating_system.Common.{
  ◌≡◌, ◌≢◌, refl, sym, ap, ◌∙◌, inl, inr, List, [], ◌∷◌, ◌==◌, leb, arith, if◌then◌else◌,
  Bool-cases, count, count-append,
}
use simple_operating_system.Queue.{
  Ptr, null, max_queue_size, Queue, enqueue, dequeue, purgequeue, to_list,
}
use simple_operating_system.Queue.Valid
use simple_operating_system.Queue.Valid.{enqueue-IsValid, dequeue-IsValid, purgequeue-IsValid}
use simple_operating_system.Queue.Refine.{to_list-enqueue, to_list-dequeue, dequeue-empty}
use simple_operating_system.Sched.{Sched}
use simple_operating_system.Sched.Conserve.{once}

unfoldable pub get_proc : Sched → Ptr × Sched
get_proc s =
    let (proc, q) = dequeue s.ready_queue in
    if proc == null
    then (proc, record s { ready_queue = q })
    else (proc, record s { ready_queue = q; running_list = enqueue s.running_list proc })

unfoldable pub put_proc : Sched → Ptr → Sched
put_proc s proc = record s {
  running_list = (purgequeue s.running_list proc).1;
  run_queue = enqueue s.run_queue proc;
}

unfoldable pub add_proc : Sched → Ptr → Sched
add_proc s proc = record s { ready_queue = enqueue s.ready_queue proc }

-- Calls of the functions, none of which adds process p.
pub data Calls (p : Ptr) : Sched → Sched → Type 0 where
  over : {s : Sched} → Calls p s s
  gets : {s t : Sched} → Calls p (get_proc s).1 t → Calls p s t
  puts : {s t : Sched} → (q : Ptr) → Calls p (put_proc s q) t → Calls p s t
  adds : {s t : Sched} → (q : Ptr) → q ≢ null → q ≢ p → Calls p (add_proc s q) t → Calls p s t

-- Process p does not wait for a processor, and the ready queue is one.
abbrev Absent : Ptr → Sched → Type 0
Absent p s = Valid.IsValid s.ready_queue × (count p (to_list s.ready_queue) ≡ 0)

-- What a `dequeue` leaves of a queue without p, and that it does not answer p.
dequeue-absent :
    (p : Ptr) (q : Queue)
    → p ≢ null
    → Valid.IsValid q
    → count p (to_list q) ≡ 0
    → ((dequeue q).0 ≢ p) × (count p (to_list (dequeue q).1) ≡ 0)
dequeue-absent p q n v h = go (to_list q) refl
  where
    go :
        (xs : List Ptr)
        → to_list q ≡ xs
        → ((dequeue q).0 ≢ p) × (count p (to_list (dequeue q).1) ≡ 0)
    go [] e =
        let same = dequeue-empty q v e in
        ((λ z. n (sym z ∙ ap (λ (r : Ptr × Queue). r.0) same)), rw same h)
    go (x ∷ xs) e =
        let (a, b) = to_list-dequeue q x xs v e in
        (
          (λ z. ground (arith, h, ap (count p) e, sym a ∙ z)),
          ap (count p) b ∙ omega (arith, h, ap (count p) e),
        )

get_proc-Absent :
    (p : Ptr) (s : Sched) → p ≢ null → Absent p s → ((get_proc s).0 ≢ p) × Absent p (get_proc s).1
unfolding get_proc
get_proc-Absent p s n (v, h) =
    let (a, b) = dequeue-absent p s.ready_queue n v h in
    let w = dequeue-IsValid s.ready_queue v in
    elim (Bool-cases ((dequeue s.ready_queue).0 == null)) [
      | inl e ↦ rw e (a, (w, b))
      | inr e ↦ rw e (a, (w, b))
    ]

add_proc-Absent : (p q : Ptr) (s : Sched) → q ≢ null → q ≢ p → Absent p s → Absent p (add_proc s q)
unfolding add_proc
add_proc-Absent p q s n d (v, h) = (
  enqueue-IsValid s.ready_queue q v,
  elim (Bool-cases (leb max_queue_size s.ready_queue.size)) [
    | inl e ↦ ap (count p) (to_list-enqueue s.ready_queue q v n) ∙ rw e h
    | inr e ↦
        let other : once q p ≡ 0 = ground (arith, d) in
        ap (count p) (to_list-enqueue s.ready_queue q v n)
        ∙ rw e (omega (arith, h, other, count-append p (to_list s.ready_queue) (q ∷ [])))
  ],
)

Calls-Absent : (p : Ptr) (s t : Sched) → p ≢ null → Calls p s t → Absent p s → Absent p t
unfolding put_proc
Calls-Absent p s t n over h = h
Calls-Absent p s t n (gets c) h = Calls-Absent p (get_proc s).1 t n c ((get_proc-Absent p s n h).1)
Calls-Absent p s t n (puts q c) h = Calls-Absent p (put_proc s q) t n c h
Calls-Absent p s t n (adds q a b c) h =
    Calls-Absent p (add_proc s q) t n c (add_proc-Absent p q s a b h)

-- Without MLQ_SCHED a process that is put back never runs again: whatever is called afterwards, as
-- long as the process is not added anew, `get_proc` does not answer it. It must not wait in the ready
-- queue when it is put back, and that queue must be valid.
pub put_proc-lost :
    (p : Ptr) (s t : Sched)
    → p ≢ null
    → Valid.IsValid s.ready_queue
    → count p (to_list s.ready_queue) ≡ 0
    → Calls p (put_proc s p) t
    → (get_proc t).0 ≢ p
unfolding put_proc
put_proc-lost p s t n v h c = (get_proc-Absent p t n (Calls-Absent p (put_proc s p) t n c (v, h))).0
