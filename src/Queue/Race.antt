-- ===== src/Queue/Race.antt =====
-- `enqueue` and `dequeue` of src/queue.c at once, as src/sched.c allows: `get_mlq_proc` holds another
-- lock than `put_mlq_proc` and `add_mlq_proc`.
use simple_operating_system.Common.{
  ℕ, zero, suc, ◌+◌, ◌-◌, ◌≤◌, ◌<◌, ◌≡◌, ◌≢◌, refl, ap, ◌∙◌, false, List, [], ◌∷◌, ◌++◌, ◌==◌, leb,
  arith, get_or, get_or-set_ne, set, take, length, length-set, length-take,
}
use simple_operating_system.Queue.{
  Ptr, null, max_queue_size, Queue, empty, enqueue, shift, dequeue, to_list,
}
use simple_operating_system.Queue.Valid.{IsValid}
use simple_operating_system.Queue.Refine.{shift-cons}

-- The two statements that `enqueue` ends with: `q->proc[q->size] = proc;` and `q->size++;`.
unfoldable pub enqueue_store : Queue → Ptr → Queue
enqueue_store q p = record q { proc = set q.proc q.size p }

unfoldable pub enqueue_count : Queue → Queue
enqueue_count q = record q { size = q.size + 1 }

-- One after the other they are `enqueue`, when the process is not NULL and the queue has room.
pub enqueue_count-enqueue_store :
    (q : Queue) (p : Ptr)
    → p ≢ null
    → q.size < max_queue_size
    → enqueue_count (enqueue_store q p) ≡ enqueue q p
unfolding enqueue_count enqueue_store enqueue
enqueue_count-enqueue_store q p n h =
    let e : (p == null) ≡ false = ground arith in
    let f : leb max_queue_size q.size ≡ false = ground arith in rw (e, f) refl

-- The last entry of a list with a first one.
abbrev pub last_of : Ptr → List Ptr → Ptr
last_of x [] = x
last_of x (y ∷ ys) = last_of y ys

-- After the shift of `dequeue`, the entry behind those that were moved is as before.
stale_end :
    (n : ℕ) (x : Ptr) (a : List Ptr)
    → n ≤ length a
    → take (suc n) (shift n 0 (x ∷ a)) ≡ take n a ++ get_or (x ∷ a) n null ∷ []
unfolding shift
stale_end zero x a h = refl
stale_end (suc n) x [] h = absurd (omega arith)
stale_end (suc n) x (y ∷ a) h =
    rw (shift-cons n 0 y (y ∷ a)) (ap (◌∷◌ y) (stale_end n y a (omega arith)))

take-set_end : (n : ℕ) (xs : List Ptr) (p : Ptr) → take n (set xs n p) ≡ take n xs
take-set_end zero xs p = refl
take-set_end (suc n) [] p = refl
take-set_end (suc n) (x ∷ xs) p = ap (◌∷◌ x) (take-set_end n xs p)

last_entry :
    (n : ℕ) (x : Ptr) (a : List Ptr) → n ≤ length a → get_or (x ∷ a) n null ≡ last_of x (take n a)
last_entry zero x a h = refl
last_entry (suc n) x [] h = absurd (omega arith)
last_entry (suc n) x (y ∷ a) h = last_entry n y a (omega arith)

first_entry :
    (n : ℕ) (a : List Ptr) (x : Ptr) (xs : List Ptr) → take n a ≡ x ∷ xs → get_or a 0 null ≡ x
first_entry zero a x xs e = cc e
first_entry (suc n) [] x xs e = cc e
first_entry (suc n) (y ∷ a) x xs e = cc e

raced_at :
    (n : ℕ) (a : List Ptr) (p x : Ptr) (xs : List Ptr)
    → n < length a
    → take n a ≡ x ∷ xs
    → take n (shift (n - 1) 0 (set a n p)) ≡ xs ++ last_of x xs ∷ []
raced_at zero a p x xs h e = cc e
raced_at (suc n) [] p x xs h e = absurd (omega arith)
raced_at (suc n) (y ∷ a) p x xs h e =
    let rounds : suc n - 1 ≡ n = omega arith in
    let fits : n ≤ length (set a n p) = omega (arith, length-set a n p) in
    let tail : take n a ≡ xs = cc e in
    let head : y ≡ x = cc e in
    rw rounds (
      stale_end n y (set a n p) fits
      ∙ rw
          (
            take-set_end n a p,
            get_or-set_ne (y ∷ a) (suc n) n p null (λ z. omega (arith, z)),
            last_entry n y a (omega arith),
            tail,
            head,
          )
          refl)

-- A `dequeue` between the two statements of an `enqueue`, on a valid queue that is not empty and has
-- room: the process that joins is lost, and the last of the others is in the queue twice; if there
-- are no others, the process that `dequeue` answers is still in the queue.
pub to_list-race :
    (q : Queue) (p x : Ptr) (xs : List Ptr)
    → IsValid q
    → q.size < max_queue_size
    → to_list q ≡ x ∷ xs
    → let r = dequeue (enqueue_store q p) in
      (r.0 ≡ x) × (to_list (enqueue_count r.1) ≡ xs ++ last_of x xs ∷ [])
unfolding dequeue to_list empty enqueue_store enqueue_count
to_list-race q p x xs v h e =
    let full : q.size ≤ length q.proc = omega (arith, v.capacity, h) in
    let some_left : q.size ≢ 0 =
      λ z. omega (arith, z, length-take q.size q.proc full, ap length e) in
    let has_some : (q.size == 0) ≡ false = ground (arith, some_left) in
    let same : q.size - 1 + 1 ≡ q.size = omega (arith, some_left) in
    rw (has_some, same)
      (
        get_or-set_ne q.proc q.size 0 p null some_left ∙ first_entry q.size q.proc x xs e,
        raced_at q.size q.proc p x xs (omega (arith, v.capacity, h)) e,
      )
