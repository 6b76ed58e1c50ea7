-- ===== src/Queue/Refine.antt =====
-- The array operations of src/queue.c against the list of the processes that wait.
use simple_operating_system.Common.{
  ℕ, zero, suc, ◌+◌, ◌-◌, ◌≤◌, ◌<◌, ◌≡◌, ◌≢◌, refl, ap, List, [], ◌∷◌, ◌++◌, leb, if◌then◌else◌,
  arith, length, get_or, set, take, length-take,
}
use simple_operating_system.Queue.{
  Ptr, null, max_queue_size, Queue, empty, enqueue, shift, dequeue, to_list,
}
use simple_operating_system.Queue.Valid.{IsValid}

take-set_end :
    (n : ℕ) (xs : List Ptr) (p : Ptr)
    → n < length xs
    → take (n + 1) (set xs n p) ≡ take n xs ++ p ∷ []
take-set_end n [] p h = elim h [ ]
take-set_end zero (x ∷ xs) p h = refl
take-set_end (suc n) (x ∷ xs) p h = ground (arith, take-set_end n xs p)

-- A process joins a queue that has room at its end; a full queue keeps what it has.
pub to_list-enqueue :
    (q : Queue) (p : Ptr)
    → IsValid q
    → p ≢ null
    → to_list (enqueue q p) ≡ (if leb max_queue_size q.size then to_list q else to_list q ++ p ∷ [])
unfolding enqueue to_list
to_list-enqueue q p v h = ground (arith, take-set_end q.size q.proc p)

-- Past the shift, the array reads as if its element i had been taken out.
pub shift-cons : (n i : ℕ) (x : Ptr) (a : List Ptr) → shift n (suc i) (x ∷ a) ≡ x ∷ shift n i a
unfolding shift
shift-cons zero i x a = refl
shift-cons (suc n) i x a = shift-cons n (suc i) x (set a i (get_or a (suc i) null))

pub take-shift :
    (n : ℕ) (x : Ptr) (a : List Ptr) → n ≤ length a → take n (shift n 0 (x ∷ a)) ≡ take n a
unfolding shift
take-shift zero x a h = refl
take-shift (suc n) x [] h = absurd (omega arith)
take-shift (suc n) x (y ∷ a) h =
    rw (shift-cons n 0 y (y ∷ a)) (ap (◌∷◌ y) (take-shift n y a (omega arith)))

dequeue_size :
    (n : ℕ) (a : List Ptr) (x : Ptr) (xs : List Ptr)
    → take n a ≡ x ∷ xs
    → n ≤ length a
    → (get_or a 0 null ≡ x) × (take (n - 1) (shift (n - 1) 0 a) ≡ xs) × (0 < n)
dequeue_size zero a x xs e h = cc
dequeue_size (suc n) [] x xs e h = cc
dequeue_size (suc n) (y ∷ a) x xs e h =
    let back : suc n - 1 ≡ n = omega arith in rw back (ground (arith, take-shift n y a))

-- A queue gives up its oldest process and keeps the others in order.
pub to_list-dequeue :
    (q : Queue) (x : Ptr) (xs : List Ptr)
    → IsValid q
    → to_list q ≡ x ∷ xs
    → ((dequeue q).0 ≡ x) × (to_list (dequeue q).1 ≡ xs)
unfolding dequeue to_list empty
to_list-dequeue q x xs v e = ground (arith, dequeue_size q.size q.proc x xs e)

-- An empty queue answers NULL and stays as it is.
pub dequeue-empty : (q : Queue) → IsValid q → to_list q ≡ [] → dequeue q ≡ (null, q)
unfolding dequeue to_list empty
dequeue-empty q v e = ground (arith, size-zero)
  where
    size-zero : q.size ≡ 0
    size-zero = omega (arith, length-take q.size q.proc, ap length e)
