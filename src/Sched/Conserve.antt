-- ===== src/Sched/Conserve.antt =====
-- The functions of src/sched.c lose and duplicate no process.
use simple_operating_system.Common.{
  ℕ, ◌+◌, ◌≤◌, sym, inl, inr, ltb, ltb→lt, Bool-cases, ◌<◌, ◌≡◌, ◌≢◌, refl, ap, ◌∙◌, Bool, true,
  false, List, [], ◌∷◌, ◌++◌, ◌==◌, leb, if◌then◌else◌, arith, get_or, length, count, count-append,
  erase, contains, lt→ltb, lt→leb,
}
use simple_operating_system.Process.{Pcb}
use simple_operating_system.Queue.{Ptr, null, max_queue_size, cleared, enqueue, to_list}
use simple_operating_system.Queue.Valid.{purgequeue-IsValid}
use simple_operating_system.Queue.Refine.{to_list-enqueue}
use simple_operating_system.Queue.Purge.{to_list-purgequeue}
use simple_operating_system.Queue.{purgequeue}
use simple_operating_system.Sched.{Sched, max_prio, get_mlq_proc, enqueue_ready, put_mlq_proc}
use simple_operating_system.Sched.Levels.{waiting, AllValid-get_or, count-waiting-set}
use simple_operating_system.Sched.Invariant.{IsValid}
use simple_operating_system.Sched.Policy.{
  running-enqueue_ready, get_mlq_proc-highest, get_mlq_proc-idle,
}

-- How often a process waits or runs.
abbrev pub population : Ptr → Sched → ℕ
population a s = count a (waiting s.mlq_ready_queue) + count a (to_list s.running_list)

count-erase :
    (a p : Ptr) (xs : List Ptr)
    → contains p xs ≡ true
    → count a xs ≡ count a (erase p xs) + (if p == a then 1 else 0)
count-erase a p [] h = cc h
count-erase a p (x ∷ xs) h = ground (arith, count-erase a p xs)

-- While the running list has room, `get_mlq_proc` moves a process from the ready queues to the
-- running list at most: every process waits or runs as often as before.
pub get_mlq_proc-population :
    (s : Sched) (a : Ptr)
    → IsValid s
    → s.running_list.size < max_queue_size
    → population a (get_mlq_proc s).1 ≡ population a s
get_mlq_proc-population s a v room = go (waiting s.mlq_ready_queue) refl
  where
    go :
        (ps : List Ptr)
        → waiting s.mlq_ready_queue ≡ ps
        → population a (get_mlq_proc s).1 ≡ population a s
    go [] e = ap (λ (r : Ptr × Sched). population a r.1) (get_mlq_proc-idle s v e)
    go (p ∷ ps) e =
        let (x, y, z) = get_mlq_proc-highest s p ps v e in
        let full : leb max_queue_size s.running_list.size ≡ false =
          lt→leb max_queue_size s.running_list.size room in
        let z' : to_list (get_mlq_proc s).1.running_list ≡ to_list s.running_list ++ p ∷ [] =
          z
          ∙ ap
              (λ (b : Bool). if b then to_list s.running_list else to_list s.running_list ++ p ∷ [])
              full in
        omega (
          arith,
          ap (count a) y,
          ap (count a) z',
          ap (count a) e,
          count-append a (to_list s.running_list) (p ∷ []),
        )

-- `enqueue_ready` adds one process to the ready queues when its level has room.
waiting-enqueue_ready :
    (pcb : Ptr → Pcb) (s : Sched) (p a : Ptr)
    → IsValid s
    → p ≢ null
    → (pcb p).prio < max_prio
    → (get_or s.mlq_ready_queue (pcb p).prio cleared).size < max_queue_size
    → count a (waiting (enqueue_ready pcb s p).mlq_ready_queue)
      ≡ count a (waiting s.mlq_ready_queue) + (if p == a then 1 else 0)
unfolding enqueue_ready
waiting-enqueue_ready pcb s p a v n b room =
    let q = get_or s.mlq_ready_queue (pcb p).prio cleared in
    let inside : (pcb p).prio < length s.mlq_ready_queue = omega (arith, v.levels) in
    let w = AllValid-get_or s.mlq_ready_queue (pcb p).prio v.ready inside in
    let full : leb max_queue_size q.size ≡ false = lt→leb max_queue_size q.size room in
    let joins : to_list (enqueue q p) ≡ to_list q ++ p ∷ [] =
      to_list-enqueue q p w n
      ∙ ap (λ (t : Bool). if t then to_list q else to_list q ++ p ∷ []) full in
    rw (lt→ltb (pcb p).prio max_prio b) (
      omega (
        arith,
        count-waiting-set a s.mlq_ready_queue (pcb p).prio (enqueue q p) inside,
        ap (count a) joins,
        count-append a (to_list q) (p ∷ []),
      ))

-- A scheduler without a process in its running list.
abbrev purged : Sched → Ptr → Sched
purged s p = record s { running_list = (purgequeue s.running_list p).1 }

purged-IsValid : (s : Sched) (p : Ptr) → IsValid s → IsValid (purged s p)
purged-IsValid s p v = record {
  levels = v.levels;
  ready = v.ready;
  running = purgequeue-IsValid s.running_list p v.running;
  proper = v.proper;
}

-- Putting back a process that runs, whose priority is a level with room, moves it from the running
-- list to the ready queues: every process waits or runs as often as before.
pub put_mlq_proc-population :
    (pcb : Ptr → Pcb) (s : Sched) (p a : Ptr)
    → IsValid s
    → p ≢ null
    → contains p (to_list s.running_list) ≡ true
    → (pcb p).prio < max_prio
    → (get_or s.mlq_ready_queue (pcb p).prio cleared).size < max_queue_size
    → population a (put_mlq_proc pcb s p) ≡ population a s
unfolding put_mlq_proc
put_mlq_proc-population pcb s p a v n c b room =
    let e : (p == null) ≡ false = ground arith in
    let kept = purged-IsValid s p v in
    let leaves : to_list (purgequeue s.running_list p).1 ≡ erase p (to_list s.running_list) =
      (to_list-purgequeue s.running_list p v.running n).0 in
    rw (e, running-enqueue_ready pcb (purged s p) p)
      (omega (
        arith,
        waiting-enqueue_ready pcb (purged s p) p a kept n b room,
        ap (count a) leaves,
        count-erase a p (to_list s.running_list) c,
      ))

-- One for p itself, none for another process.
abbrev pub once : (p a : Ptr) → ℕ
once p a = if p == a then 1 else 0

-- A process that is taken waits once less; every other process as before.
pub get_mlq_proc-waiting :
    (s : Sched) (a : Ptr)
    → IsValid s
    → a ≢ null
    → count a (waiting (get_mlq_proc s).1.mlq_ready_queue) + once (get_mlq_proc s).0 a
      ≡ count a (waiting s.mlq_ready_queue)
get_mlq_proc-waiting s a v n = go (waiting s.mlq_ready_queue) refl
  where
    go :
        (ps : List Ptr)
        → waiting s.mlq_ready_queue ≡ ps
        → count a (waiting (get_mlq_proc s).1.mlq_ready_queue) + once (get_mlq_proc s).0 a
          ≡ count a (waiting s.mlq_ready_queue)
    go [] e =
        let same : null ≢ a = λ z. n (sym z) in
        rw (get_mlq_proc-idle s v e, e) (ground (arith, same))
    go (p ∷ ps) e = let (x, y, z) = get_mlq_proc-highest s p ps v e in rw (x, y, e) (omega arith)

-- A process that joins waits at most once more; every other process as before.
pub enqueue_ready-waiting :
    (pcb : Ptr → Pcb) (s : Sched) (p a : Ptr)
    → IsValid s
    → p ≢ null
    → count a (waiting (enqueue_ready pcb s p).mlq_ready_queue)
      ≤ count a (waiting s.mlq_ready_queue) + once p a
unfolding enqueue_ready
enqueue_ready-waiting pcb s p a v n = elim (Bool-cases (ltb (pcb p).prio max_prio)) [
  | inr e ↦ rw e (omega arith)
  | inl e ↦
      let q = get_or s.mlq_ready_queue (pcb p).prio cleared in
      let inside : (pcb p).prio < length s.mlq_ready_queue =
        omega (arith, v.levels, ltb→lt _ _ e) in
      let w = AllValid-get_or s.mlq_ready_queue (pcb p).prio v.ready inside in
      let moved = count-waiting-set a s.mlq_ready_queue (pcb p).prio (enqueue q p) inside in
      elim (Bool-cases (leb max_queue_size q.size)) [
        | inl f ↦
            let stays : to_list (enqueue q p) ≡ to_list q =
              to_list-enqueue q p w n
              ∙ ap (λ (t : Bool). if t then to_list q else to_list q ++ p ∷ []) f in
            rw e (omega (arith, moved, ap (count a) stays))
        | inr f ↦
            let joins : to_list (enqueue q p) ≡ to_list q ++ p ∷ [] =
              to_list-enqueue q p w n
              ∙ ap (λ (t : Bool). if t then to_list q else to_list q ++ p ∷ []) f in
            rw e (omega (arith, moved, ap (count a) joins, count-append a (to_list q) (p ∷ [])))
      ]
]

pub put_mlq_proc-waiting :
    (pcb : Ptr → Pcb) (s : Sched) (p a : Ptr)
    → IsValid s
    → p ≢ null
    → count a (waiting (put_mlq_proc pcb s p).mlq_ready_queue)
      ≤ count a (waiting s.mlq_ready_queue) + once p a
unfolding put_mlq_proc
put_mlq_proc-waiting pcb s p a v n =
    let e : (p == null) ≡ false = ground arith in
    rw e (enqueue_ready-waiting pcb (purged s p) p a (purged-IsValid s p v) n)
