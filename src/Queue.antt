-- ===== src/Queue.antt =====
-- src/queue.c and include/queue.h. A queue is the C struct: an array of MAX_QUEUE_SIZE pointers and
-- the number of those in use. A pointer to a PCB is its address, and 0 is NULL. The functions are
-- called on the addresses of static queues only, so their test `q == NULL` never holds.
pub mod Purge
pub mod Race
pub mod Refine
pub mod Valid
use simple_operating_system.Common.{
  ℕ, zero, suc, ◌+◌, ◌-◌, Bool, true, false, ◌||◌, Option, none, some, List, [], ◌∷◌, leb, ◌==◌,
  if◌then◌else◌, get_or, set, take, replicate,
}

abbrev pub Ptr : Type 0
Ptr = ℕ

abbrev pub null : Ptr
null = 0

abbrev pub max_queue_size : ℕ
max_queue_size = 50

pub record Queue : Type 0 where
  pub proc : List Ptr
  pub size : ℕ

-- A static queue before the first call: all zero.
abbrev pub cleared : Queue
cleared = record { proc = replicate max_queue_size null; size = 0 }

unfoldable pub empty : Queue → Bool
empty q = q.size == 0

-- A full queue refuses the process; the message is not modelled.
unfoldable pub enqueue : Queue → Ptr → Queue
enqueue q p =
    if p == null
    then q
    else if leb max_queue_size q.size
    then q
    else record { proc = set q.proc q.size p; size = q.size + 1 }

-- `for (; n rounds; i++) proc[i] = proc[i + 1];`
unfoldable pub shift : (n i : ℕ) → List Ptr → List Ptr
shift zero i a = a
shift (suc n) i a = shift n (suc i) (set a i (get_or a (suc i) null))

unfoldable pub dequeue : Queue → Ptr × Queue
unfolding empty shift
dequeue q =
    if empty q
    then (null, q)
    else (get_or q.proc 0 null, record { proc = shift (q.size - 1) 0 q.proc; size = q.size - 1 })

-- The outer loop of `purgequeue`: the first index that holds the process, n rounds from i on.
unfoldable pub find_proc : (n i : ℕ) → List Ptr → Ptr → Option ℕ
find_proc zero i a p = none
find_proc (suc n) i a p =
    let rest = find_proc n (suc i) a p in if get_or a i null == p then some i else rest

-- What the loop does at the index that it finds.
unfoldable pub remove_at : Queue → ℕ → Ptr × Queue
unfolding shift
remove_at q i =
    let a = shift (q.size - 1 - i) i q.proc in
    (get_or q.proc i null, record { proc = set a (q.size - 1) null; size = q.size - 1 })

unfoldable pub purgequeue : Queue → Ptr → Ptr × Queue
purgequeue q p =
    if empty q || p == null
    then (null, q)
    else elim (find_proc q.size 0 q.proc p) [ none ↦ (null, q) | some i ↦ remove_at q i ]

-- The processes that wait, in order.
unfoldable pub to_list : Queue → List Ptr
to_list q = take q.size q.proc
