-- ===== src/Queue/Valid.antt =====
-- The representation invariant of src/queue.c, and that every operation keeps it.
use simple_operating_system.Common.{
  ℕ, zero, suc, ◌-◌, ◌≤◌, ◌≡◌, refl, ◌∙◌, inl, inr, List, arith, Option-cases, length, length-set,
  get_or, set,
}
use simple_operating_system.Queue.{
  Ptr, null, max_queue_size, Queue, enqueue, shift, dequeue, find_proc, remove_at, purgequeue,
}

-- The array has its declared length, and the size stays within it.
pub record IsValid (q : Queue) : Type 0 where
  pub capacity : length q.proc ≡ max_queue_size
  pub bounded : q.size ≤ max_queue_size

pub length-shift : (n i : ℕ) (a : List Ptr) → length (shift n i a) ≡ length a
unfolding shift
length-shift zero i a = refl
length-shift (suc n) i a =
    length-shift n (suc i) (set a i (get_or a (suc i) null)) ∙ length-set a i _

pub enqueue-IsValid : (q : Queue) (p : Ptr) → IsValid q → IsValid (enqueue q p)
unfolding enqueue
enqueue-IsValid q p v = ground (arith, length-set q.proc q.size p)

pub dequeue-IsValid : (q : Queue) → IsValid q → IsValid (dequeue q).1
unfolding dequeue
dequeue-IsValid q v = ground (arith, length-shift (q.size - 1) 0 q.proc)

remove_at-IsValid : (q : Queue) (i : ℕ) → IsValid q → IsValid (remove_at q i).1
unfolding remove_at
remove_at-IsValid q i v = ground (
  arith,
  length-shift (q.size - 1 - i) i q.proc,
  length-set (shift (q.size - 1 - i) i q.proc) (q.size - 1) null,
)

-- A purge keeps the queue valid.
pub purgequeue-IsValid : (q : Queue) (p : Ptr) → IsValid q → IsValid (purgequeue q p).1
unfolding purgequeue
purgequeue-IsValid q p v = elim (Option-cases (find_proc q.size 0 q.proc p)) [
  | inl e ↦ ground arith
  | inr (i, e) ↦ ground (arith, remove_at-IsValid q i)
]
