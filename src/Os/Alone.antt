-- ===== src/Os/Alone.antt =====
-- No process is run by two processors of src/os.c, nor waits while one runs it.
use simple_operating_system.Common.{
  ℕ, zero, suc, ◌+◌, ◌%◌, ◌^◌, ◌≤◌, ◌≡◌, ◌≢◌, refl, sym, ap, subst, ◌∙◌, inl, inr, some, List, [],
  ◌∷◌, ◌==◌, if◌then◌else◌, arith, Bool-cases, Option, replicate, get_elem?, count, ltb, set,
}
use mathlib.Core.Option.{some-injective}
use simple_operating_system.Mm.{Region}
use simple_operating_system.Phy.{MemphyOps}
use simple_operating_system.Process.{Pcb}
use simple_operating_system.Queue.{Ptr, null}
use simple_operating_system.Sched.{Sched, zeroed, add_proc, add_mlq_proc}
use simple_operating_system.Sched.Levels.{waiting}
use simple_operating_system.Sched.Invariant.{
  IsValid, zeroed-IsValid, init_scheduler-IsValid, add_mlq_proc-IsValid,
}
use simple_operating_system.Sched.Conserve.{once, enqueue_ready-waiting}
use simple_operating_system.World.{World}
use simple_operating_system.Os.{Cpu, Act, slept, stopped, fetch, Job, admit, ld_routine}
use simple_operating_system.Os.System.{new_cpu, kept}
use simple_operating_system.Os.Threads.{
  chosen, Core, again, after_get, Threads, owned, owners_of, owners, Unused, Step, enters, takes,
  ends, loads, Reach, boots, next,
}
use simple_operating_system.Os.Exclusive.{null-once, enter-Fair, takes-Fair, dispatch-Fair}

owners-set :
    (p : Ptr) (xs : List (Option Core)) (i : ℕ) (x y : Option Core)
    → get_elem? xs i ≡ some x
    → owners p (set xs i y) + owners_of p x ≡ owners p xs + owners_of p y
owners-set p [] i x y e = cc e
owners-set p (z ∷ xs) zero x y e = omega (arith, ap (owners_of p) (some-injective z x e))
owners-set p (z ∷ xs) (suc i) x y e = omega (arith, owners-set p xs i x y e)

owner_at :
    (p : Ptr) (xs : List (Option Core)) (i : ℕ) (x : Option Core)
    → get_elem? xs i ≡ some x
    → owners_of p x ≤ owners p xs
owner_at p [] i x e = cc e
owner_at p (z ∷ xs) zero x e = omega (arith, ap (owners_of p) (some-injective z x e))
owner_at p (z ∷ xs) (suc i) x e = omega (arith, owner_at p xs i x e)

owners-both :
    (p : Ptr) (xs : List (Option Core)) (i j : ℕ) (x y : Option Core)
    → i ≢ j
    → get_elem? xs i ≡ some x
    → get_elem? xs j ≡ some y
    → owners_of p x + owners_of p y ≤ owners p xs
owners-both p [] i j x y n e f = cc e
owners-both p (z ∷ xs) zero zero x y n e f = absurd (n refl)
owners-both p (z ∷ xs) zero (suc j) x y n e f =
    omega (arith, ap (owners_of p) (some-injective z x e), owner_at p xs j y f)
owners-both p (z ∷ xs) (suc i) zero x y n e f =
    omega (arith, ap (owners_of p) (some-injective z y f), owner_at p xs i x e)
owners-both p (z ∷ xs) (suc i) (suc j) x y n e f =
    omega (arith, owners-both p xs i j x y (λ z. n (ap suc z)) e f)

owners-new : (p : Ptr) (n : ℕ) → p ≢ null → owners p (replicate n (some (again new_cpu))) ≡ 0
owners-new p zero h = refl
owners-new p (suc n) h = omega (arith, owners-new p n h, null-once null p refl h)

-- What a thread keeps, it has.
kept-owners : (p : Ptr) (c : Cpu) (a : Act) → owners_of p (kept (again c) a) ≤ once c.proc p
unfolding kept
kept-owners p c slept = omega arith
kept-owners p c stopped = omega arith

once_bound : (p a : Ptr) → once p a ≤ 1
once_bound p a = ground arith

-- The scheduler is valid, and a process waits once or one processor has it, or neither.
abbrev pub Alone : Threads → Type 0
Alone s =
    IsValid s.world.sched
    × ((p : Ptr)
        → p ≢ null
        → count p (waiting s.world.sched.mlq_ready_queue) + owners p s.cores ≤ 1)

admit-Alone :
    (stale_list : List Region) (s : Threads) (job : Job) (jobs : List Job)
    (left : Option (List Job))
    → Unused s (job ∷ jobs)
    → Alone s
    → Alone (record s { world = admit stale_list s.world job; jobs = left })
unfolding admit add_proc add_mlq_proc
admit-Alone stale_list s job jobs left (n, w, h) (v, f) = (
  add_mlq_proc-IsValid _ s.world.sched job.address v,
  λ p l.
      let procs : Ptr → Pcb = λ q.
        if q == job.address
        then record job.loaded { prio = job.prio % 2 ^ 32 }
        else s.world.procs q in
      let joins = enqueue_ready-waiting procs s.world.sched job.address p v n in
      elim (Bool-cases (job.address == p)) [
        | inl e ↦
            let same : job.address ≡ p = ground (arith, e) in
            let w' : count p (waiting s.world.sched.mlq_ready_queue) ≡ 0 = rw same at w in
            let h' : owners p s.cores ≡ 0 = rw same at h in
            omega (arith, joins, w', h', once_bound job.address p)
        | inr e ↦
            let none_new : once job.address p ≡ 0 = rw e refl in
            omega (arith, joins, f p l, none_new)
      ],
)

ld_routine-Alone :
    (stale_list : List Region) (time : ℕ) (s : Threads) (jobs : List Job) (left : Option (List Job))
    → Unused s jobs
    → Alone s
    → Alone (record s { world = (ld_routine stale_list s.world time jobs).0; jobs = left })
unfolding ld_routine
ld_routine-Alone stale_list time s [] left h a = a
ld_routine-Alone stale_list time s (job ∷ jobs) left h a =
    elim (Bool-cases (ltb time job.start_time)) [
      | inl e ↦ rw e a
      | inr e ↦ rw e (admit-Alone stale_list s job jobs left h a)
    ]

module _ (phy : MemphyOps) (stale time_slot : ℕ) where
  Step-Alone : (s t : Threads) → Step phy stale time_slot s t → Alone s → Alone t
  Step-Alone s t (enters i c w' k at e q) (v, f) =
      let (v', g) = enter-Fair s.world c w' k v e in
      subst Alone (sym q) (
        v',
        λ p n. omega (arith, f p n, g p n, owners-set p s.cores i (some (again c)) (some k) at),
      )
  Step-Alone s t (takes i k at n m q) (v, f) =
      let r = fetch s.world k.cpu in
      let k' : Core = record { cpu = r.1; point = after_get k.point r.1 } in
      let (v', g) = takes-Fair s.world k v n m in
      subst Alone (sym q)
        (v', λ p h. omega (arith, f p h, g p h, owners-set p s.cores i (some k) (some k') at))
  Step-Alone s t (ends i c w' c' a at e q) (v, f) =
      let (v', g) =
        dispatch-Fair phy stale time_slot s.world c.proc s.world c (w', c', a)
          (v, (λ a l. omega arith)) e in
      let k : Core = record { cpu = c; point = chosen } in
      subst Alone (sym q) (
        v',
        λ p n. omega (
          arith,
          f p n,
          g p n,
          owners-set p s.cores i (some k) (kept (again c') a) at,
          kept-owners p c' a,
        ),
      )
  Step-Alone s t (loads stale_list time jobs w' jobs' a j h e q) al = subst Alone (sym q) (
      subst (λ (w : World). Alone (record s { world = w; jobs = kept jobs' a }))
        (ap (λ (r : World × List Job × Act). r.0) e)
        (ld_routine-Alone stale_list time s jobs (kept jobs' a) h al))

  pub Reach-Alone : (n : ℕ) (s : Threads) → Reach phy stale time_slot n s → Alone s
  Reach-Alone n s (boots w jobs e) =
      let (v, idle) = init_scheduler-IsValid zeroed zeroed-IsValid in
      (
        subst IsValid (sym e) v,
        λ p h.
            let none_waits : count p (waiting w.sched.mlq_ready_queue) ≡ 0 =
              ap (λ (x : Sched). count p (waiting x.mlq_ready_queue)) e ∙ ap (count p) idle in
            omega (arith, none_waits, owners-new p n h),
      )
  Reach-Alone n s (next {s = r} p st) = Step-Alone r s st (Reach-Alone n r p)

  -- As long as no two calls of the scheduler overlap, which its locks do not ensure (Queue/Race), and
  -- the rest of an iteration and the loader's are undisturbed, the threads may come in any
  -- order, also between the `put_proc` and the `get_proc` of one of them: no two processors have the
  -- same process, and the process of a processor does not wait in a ready queue.
  pub Reach-alone :
      (n : ℕ) (s : Threads) (i j : ℕ) (k l : Core)
      → Reach phy stale time_slot n s
      → i ≢ j
      → get_elem? s.cores i ≡ some (some k)
      → get_elem? s.cores j ≡ some (some l)
      → owned k ≢ null
      → (owned k ≢ owned l) × (count (owned k) (waiting s.world.sched.mlq_ready_queue) ≡ 0)
  Reach-alone n s i j k l r m e f h =
      let both = owners-both (owned k) s.cores i j (some k) (some l) m e f in
      let bound = (Reach-Alone n s r).1 (owned k) h in
      let own : once (owned k) (owned k) ≡ 1 = ground arith in
      (
        (λ z. omega (arith, both, bound, own, ap (λ (x : Ptr). once x (owned k)) (sym z))),
        omega (arith, both, bound, own),
      )
