-- ===== src/Sched/Levels.antt =====
-- The level queues of src/sched.c seen as one sequence: the processes by priority, and in each
-- level by age.
use mathlib.Core.Option
use simple_operating_system.Common.{
  ℕ, zero, suc, ◌+◌, ◌≤◌, ◌<◌, ◌≡◌, refl, inl, inr, true, false, Option, none, some, List, [], ◌∷◌,
  ◌++◌, arith, Bool-cases, length, get_or, set, take, count, count-append,
}
use simple_operating_system.Queue.{Ptr, Queue, cleared, empty, dequeue, to_list}
use simple_operating_system.Queue.Valid.{IsValid}
use simple_operating_system.Queue.Refine.{to_list-dequeue}
use simple_operating_system.Sched.{first_ready}

abbrev pub waiting : List Queue → List Ptr
waiting [] = []
waiting (q ∷ qs) = to_list q ++ waiting qs

abbrev pub AllValid : List Queue → Type 0
AllValid [] = Unit {0}
AllValid (q ∷ qs) = IsValid q × AllValid qs

empty-to_list : (q : Queue) → IsValid q → empty q ≡ true → to_list q ≡ []
unfolding empty to_list
empty-to_list q v e = let z : q.size ≡ 0 = ground arith in rw z

nonempty-to_list :
    (q : Queue) → IsValid q → empty q ≡ false → (x : Ptr) × (xs : List Ptr) × (to_list q ≡ x ∷ xs)
unfolding empty to_list
nonempty-to_list q v e = go q.size q.proc (ground arith) (ground arith)
  where
    go :
        (n : ℕ) (a : List Ptr)
        → 0 < n
        → n ≤ length a
        → (x : Ptr) × (xs : List Ptr) × (take n a ≡ x ∷ xs)
    go zero a h l = elim h [ ]
    go (suc n) [] h l = absurd (omega arith)
    go (suc n) (x ∷ a) h l = (x, take n a, refl)

first_ready-suc :
    (k : ℕ) (qs : List Queue) → first_ready (suc k) qs ≡ Option.map suc (first_ready k qs)
unfolding first_ready
first_ready-suc k [] = refl
first_ready-suc k (q ∷ qs) = ground (arith, first_ready-suc (suc k) qs)

-- What the scan of the levels has found: nothing waits, or the first waiting process is the oldest
-- of level i and all levels before i are empty.
abbrev pub Scan : List Queue → Option ℕ → Type 0
Scan qs none = waiting qs ≡ []
Scan qs (some i) =
    (i < length qs)
    × (waiting qs
        ≡ (dequeue (get_or qs i cleared)).0 ∷ waiting (set qs i (dequeue (get_or qs i cleared)).1))
    × ((j : ℕ) → j < i → to_list (get_or qs j cleared) ≡ [])

Scan-cons :
    (q : Queue) (qs : List Queue) (o : Option ℕ)
    → to_list q ≡ []
    → Scan qs o
    → Scan (q ∷ qs) (Option.map suc o)
Scan-cons q qs none e s = rw (e, s)
Scan-cons q qs (some i) e s = (omega arith, rw e s.1, before)
  where
    before : (j : ℕ) → j < suc i → to_list (get_or (q ∷ qs) j cleared) ≡ []
    before zero h = e
    before (suc j) h = s.2 j (omega arith)

pub first_ready-Scan : (qs : List Queue) → AllValid qs → Scan qs (first_ready 0 qs)
unfolding first_ready
first_ready-Scan [] v = refl
first_ready-Scan (q ∷ qs) v = elim (Bool-cases (empty q)) [
  | inl e ↦
      rw (e, first_ready-suc 0 qs)
        (Scan-cons q qs (first_ready 0 qs) (empty-to_list q v.0 e) (first_ready-Scan qs v.1))
  | inr e ↦ rw e (here (nonempty-to_list q v.0 e))
]
  where
    here : (x : Ptr) × (xs : List Ptr) × (to_list q ≡ x ∷ xs) → Scan (q ∷ qs) (some 0)
    here (x, xs, h) =
        let (a, b) = to_list-dequeue q x xs v.0 h in (omega arith, rw (h, a, b), λ j l. elim l [ ])

pub AllValid-get_or :
    (qs : List Queue) (i : ℕ) → AllValid qs → i < length qs → IsValid (get_or qs i cleared)
AllValid-get_or [] i v h = elim h [ ]
AllValid-get_or (q ∷ qs) zero v h = v.0
AllValid-get_or (q ∷ qs) (suc i) v h = AllValid-get_or qs i v.1 (omega arith)

pub AllValid-set :
    (qs : List Queue) (i : ℕ) (q : Queue) → AllValid qs → IsValid q → AllValid (set qs i q)
AllValid-set [] i q v w = tt
AllValid-set (x ∷ qs) zero q v w = (w, v.1)
AllValid-set (x ∷ qs) (suc i) q v w = (v.0, AllValid-set qs i q v.1 w)

-- Putting another queue at level i changes what waits by the difference of the two.
pub count-waiting-set :
    (a : ℕ) (qs : List Queue) (i : ℕ) (q : Queue)
    → i < length qs
    → count a (waiting (set qs i q)) + count a (to_list (get_or qs i cleared))
      ≡ count a (waiting qs) + count a (to_list q)
count-waiting-set a [] i q h = elim h [ ]
count-waiting-set a (x ∷ qs) zero q h =
    omega (arith, count-append a (to_list q) (waiting qs), count-append a (to_list x) (waiting qs))
count-waiting-set a (x ∷ qs) (suc i) q h = omega (
  arith,
  count-append a (to_list x) (waiting qs),
  count-append a (to_list x) (waiting (set qs i q)),
  count-waiting-set a qs i q (omega arith),
)
