-- ===== src/Queue/Purge.antt =====
-- `purgequeue` of src/queue.c against taking the first occurrence out of a list.
use mathlib.Core.Option
use simple_operating_system.Common.{
  ℕ, zero, suc, ◌-◌, ◌≤◌, ◌<◌, ◌≡◌, ◌≢◌, refl, ap, inl, inr, true, false, Option, none, some, List,
  [], ◌∷◌, ◌==◌, if◌then◌else◌, arith, Bool-cases, length, get_or, set, take, erase, contains,
}
use simple_operating_system.Queue.{
  Ptr, null, Queue, empty, shift, find_proc, remove_at, purgequeue, to_list,
}
use simple_operating_system.Queue.Valid.{IsValid, length-shift}
use simple_operating_system.Queue.Refine.{shift-cons, take-shift}

find_proc-cons :
    (n k : ℕ) (x : Ptr) (a : List Ptr) (p : Ptr)
    → find_proc n (suc k) (x ∷ a) p ≡ Option.map suc (find_proc n k a p)
unfolding find_proc
find_proc-cons zero k x a p = refl
find_proc-cons (suc n) k x a p = ground (arith, find_proc-cons n (suc k) x a p)

-- What a search for `p` among the first n elements has found.
abbrev Found : ℕ → List Ptr → Ptr → Option ℕ → Type 0
Found n a p none = contains p (take n a) ≡ false
Found n a p (some i) =
    (i < n)
    × (get_or a i null ≡ p)
    × (contains p (take n a) ≡ true)
    × (take (n - 1) (shift (n - 1 - i) i a) ≡ erase p (take n a))

Found-cons :
    (n : ℕ) (x : Ptr) (a : List Ptr) (p : Ptr) (o : Option ℕ)
    → (x == p) ≡ false
    → Found n a p o
    → Found (suc n) (x ∷ a) p (Option.map suc o)
Found-cons n x a p none h f = rw (h, f)
Found-cons zero x a p (some i) h f = absurd (omega arith)
Found-cons (suc n) x a p (some i) h f =
    let e : suc (suc n) - 1 ≡ suc n = omega arith in
    let e' : suc (suc n) - 1 - suc i ≡ n - i = omega arith in
    let e'' : suc n - 1 ≡ n = omega arith in
    (omega arith, f.1, rw (h, f.2), rw (e', e, h, shift-cons) (ap (◌∷◌ x) (rw e'' at f.3)))

Found-here :
    (n : ℕ) (x : Ptr) (a : List Ptr) (p : Ptr)
    → (x == p) ≡ true
    → n ≤ length a
    → Found (suc n) (x ∷ a) p (some 0)
Found-here n x a p h l =
    let e : suc n - 1 - 0 ≡ n = omega arith in
    let e' : suc n - 1 ≡ n = omega arith in
    (omega arith, ground arith, rw h, rw (e, e', h) (take-shift n x a l))

find_proc-Found : (n : ℕ) (a : List Ptr) (p : Ptr) → n ≤ length a → Found n a p (find_proc n 0 a p)
unfolding find_proc
find_proc-Found zero a p h = refl
find_proc-Found (suc n) [] p h = absurd (omega arith)
find_proc-Found (suc n) (x ∷ a) p h = elim (Bool-cases (x == p)) [
  | inl e ↦ rw e (Found-here n x a p e (omega arith))
  | inr e ↦
      rw (e, find_proc-cons n 0 x a p)
        (Found-cons n x a p _ e (find_proc-Found n a p (omega arith)))
]

take-set_beyond : (n : ℕ) (xs : List Ptr) (p : Ptr) → take n (set xs n p) ≡ take n xs
take-set_beyond n [] p = refl
take-set_beyond zero (x ∷ xs) p = refl
take-set_beyond (suc n) (x ∷ xs) p = ap (◌∷◌ x) (take-set_beyond n xs p)

remove_at-refines :
    (q : Queue) (p : Ptr) (i : ℕ)
    → IsValid q
    → Found q.size q.proc p (some i)
    → (remove_at q i).0 ≡ p × (to_list (remove_at q i).1 ≡ erase p (to_list q))
unfolding remove_at to_list
remove_at-refines q p i v f = ground (
  arith,
  length-shift (q.size - 1 - i) i q.proc,
  take-set_beyond (q.size - 1) (shift (q.size - 1 - i) i q.proc) null,
)

pub erase-absent : (p : Ptr) (xs : List Ptr) → contains p xs ≡ false → erase p xs ≡ xs
erase-absent p [] h = refl
erase-absent p (x ∷ xs) h = ground (arith, erase-absent p xs)

purge_cases :
    (q : Queue) (p : Ptr) (o : Option ℕ)
    → IsValid q
    → p ≢ null
    → find_proc q.size 0 q.proc p ≡ o
    → Found q.size q.proc p o
    → (to_list (purgequeue q p).1 ≡ erase p (to_list q))
      × ((purgequeue q p).0 ≡ (if contains p (to_list q) then p else null))
unfolding purgequeue to_list empty
purge_cases q p none v h e f = ground (arith, erase-absent p (take q.size q.proc))
purge_cases q p (some i) v h e f = ground (arith, remove_at-refines q p i v f)

-- A purge of a process that is not NULL takes its first occurrence out of the queue and keeps the
-- order of the others; it answers the process if it was there, and NULL if not.
pub to_list-purgequeue :
    (q : Queue) (p : Ptr)
    → IsValid q
    → p ≢ null
    → (to_list (purgequeue q p).1 ≡ erase p (to_list q))
      × ((purgequeue q p).0 ≡ (if contains p (to_list q) then p else null))
unfolding purgequeue
to_list-purgequeue q p v h =
    purge_cases q p (find_proc q.size 0 q.proc p) v h refl
      (find_proc-Found q.size q.proc p (omega arith))
