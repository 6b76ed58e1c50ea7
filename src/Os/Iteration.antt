-- ===== src/Os/Iteration.antt =====
-- The two halves of an iteration of `cpu_routine` of src/os.c.
use simple_operating_system.Common.{
  ℕ, suc, ◌+◌, ◌-◌, ◌%◌, ◌^◌, ◌<◌, ◌≡◌, ◌≢◌, ◌⊎◌, refl, sym, ap, subst, ◌∙◌, inl, inr, false, some,
  List, [], ◌∷◌, ◌==◌, if◌then◌else◌, arith, Bool-cases, Option-cases, length, count,
}
use mathlib.Core.Option.{some-injective}
use simple_operating_system.Phy.{MemphyOps}
use simple_operating_system.Process.{Pcb}
use simple_operating_system.Queue.{Ptr, null}
use simple_operating_system.Sched.{Sched, get_mlq_proc, get_proc, put_proc, put_mlq_proc}
use simple_operating_system.Sched.Levels.{waiting}
use simple_operating_system.Sched.Invariant.{IsValid, put_mlq_proc-IsValid}
use simple_operating_system.Sched.Policy.{get_mlq_proc-highest, get_mlq_proc-idle}
use simple_operating_system.World.{World, deref, free_pcb}
use simple_operating_system.Cpu.{run}
use simple_operating_system.Os.{
  Cpu, Act, slept, stopped, fetch, run_slot, dispatch, skip_or_dispatch, cpu_routine,
}

abbrev pub Iteration : Type 0
Iteration = World × Cpu × Act

pub result_out : (P : Iteration → Type 0) (r r' : Iteration) → some r ≡ some r' → P r → P r'
result_out P r r' e h = subst P (some-injective r r' e) h

pub some_process : {p : Ptr} → (p == null) ≡ false → p ≢ null
some_process h n = ground arith

-- The process that a valid scheduler gives when some process waits.
pub highest :
    (s : Sched) (p : Ptr) (ps : List Ptr)
    → IsValid s
    → waiting s.mlq_ready_queue ≡ p ∷ ps
    → (get_mlq_proc s).0 ≡ p
highest s p ps v e = let (a, b, d) = get_mlq_proc-highest s p ps v e in a

pub proper :
    (s : Sched) (p : Ptr) (ps : List Ptr)
    → IsValid s
    → waiting s.mlq_ready_queue ≡ p ∷ ps
    → p ≢ null
proper s p ps v e z = omega (arith, v.proper, ap (count null) e, ap (λ x. count null (x ∷ ps)) z)

-- A valid scheduler gives NULL only when no process waits, and then still none does.
pub idle_waiting :
    (s : Sched)
    → IsValid s
    → (get_mlq_proc s).0 ≡ null
    → waiting (get_mlq_proc s).1.mlq_ready_queue ≡ []
idle_waiting s v h = go (waiting s.mlq_ready_queue) refl
  where
    go :
        (ps : List Ptr)
        → waiting s.mlq_ready_queue ≡ ps
        → waiting (get_mlq_proc s).1.mlq_ready_queue ≡ []
    go [] e = ap (λ (r : Ptr × Sched). waiting r.1.mlq_ready_queue) (get_mlq_proc-idle s v e) ∙ e
    go (p ∷ ps) e = absurd (proper s p ps v e (sym (highest s p ps v e) ∙ h))

pub used : (w : World) (p : Ptr) (b : Pcb) → deref w p ≡ some b → (p == null) ≡ false
unfolding deref
used w p b e = elim (Bool-cases (p == null)) [ inl h ↦ cc (rw h at e) | inr h ↦ h ]

-- `time_left--` above 0.
pub wraps : (t x : ℕ) → t < 2 ^ 32 → t ≢ 0 → x ≡ (t + (2 ^ 32 - 1)) % 2 ^ 32 → suc x ≡ t
wraps t x u n e = omega (arith, e, n, u)

module _ (phy : MemphyOps) (stale time_slot : ℕ) where
  -- What an iteration that runs the process of c leaves.
  abbrev pub Ran : Cpu → Iteration → Type 0
  Ran c (w, c', a) =
      (c'.proc ≡ c.proc) × (c'.time_left ≡ (c.time_left + (2 ^ 32 - 1)) % 2 ^ 32) × (a ≡ slept)

  pub run_slot-Ran :
      (w : World) (c : Cpu) (r : Iteration) → run_slot phy stale time_slot w c ≡ some r → Ran c r
  unfolding run_slot
  run_slot-Ran w c r e = elim (Option-cases (run phy stale w c.proc)) [
    | inl n ↦ cc (rw (n, run_slot) at e)
    | inr (x, n) ↦ result_out (Ran c) _ r (rw (n, run_slot) at e) (refl, refl, refl)
  ]

  -- What the second half of an iteration leaves, from processor c.
  abbrev pub Dispatched : World → Cpu → Iteration → Type 0
  Dispatched w c (w', c', a) =
      (c'.proc ≡ c.proc)
      × (c.proc ≡ null → (w' ≡ w) × (c' ≡ c) × (a ≡ stopped → w.done ≢ 0))
      × (c.proc ≢ null
          → (c'.time_left
              ≡ ((if c.time_left == 0 then time_slot else c.time_left) + (2 ^ 32 - 1)) % 2 ^ 32)
            × (a ≡ slept))

  pub dispatch-Dispatched :
      (w : World) (c : Cpu) (r : Iteration)
      → dispatch phy stale time_slot (w, c) ≡ some r
      → Dispatched w c r
  unfolding dispatch
  dispatch-Dispatched w c r e = elim (Bool-cases (c.proc == null)) [
    | inl h ↦
        result_out (Dispatched w c) _ r (rw h at e)
          (refl, (λ n. (refl, refl, (λ q z. ground arith))), (λ n. absurd (n (ground arith))))
    | inr h ↦ elim (Bool-cases (c.time_left == 0)) [
      | inl z ↦
          let (a, b, d) = run_slot-Ran w (record c { time_left = time_slot }) r (rw (h, z) at e) in
          (a, (λ n. absurd (some_process h n)), (λ n. (rw z b, d)))
      | inr z ↦
          let (a, b, d) = run_slot-Ran w c r (rw (h, z) at e) in
          (a, (λ n. absurd (some_process h n)), (λ n. (rw z b, d)))
    ]
  ]

  -- How an iteration of c gets to its second half, or ends without one.
  abbrev pub Chosen : World → Cpu → Iteration → Type 0
  Chosen w c r =
      ((r.1.time_left ≡ c.time_left) × (r.2 ≡ slept))
      ⊎ ((w' : World) × (c' : Cpu) × (dispatch phy stale time_slot (w', c') ≡ some r)
          × ((c'.time_left ≡ c.time_left) ⊎ (c'.time_left ≡ 0))
          × (w'.done ≡ w.done)
          × (c'.proc ≡ null → waiting w'.sched.mlq_ready_queue ≡ []))

  pub cpu_routine-Chosen :
      (w : World) (c : Cpu) (r : Iteration)
      → IsValid w.sched
      → cpu_routine phy stale time_slot w c ≡ some r
      → Chosen w c r
  unfolding cpu_routine skip_or_dispatch fetch get_proc put_proc free_pcb
  cpu_routine-Chosen w c r v e = elim (Bool-cases (c.proc == null)) [
    | inl n ↦ elim (Bool-cases ((get_mlq_proc w.sched).0 == null)) [
      | inl z ↦ inl (
          result_out (λ r. (r.1.time_left ≡ c.time_left) × (r.2 ≡ slept)) _ r (rw (n, z) at e)
            (refl, refl))
      | inr z ↦ inr (_, _, (rw (n, z) at e), inl refl, refl, idle_waiting w.sched v)
    ]
    | inr n ↦ elim (Option-cases (deref w c.proc)) [
      | inl d ↦ cc (rw (n, cpu_routine, d) at e)
      | inr (b, d) ↦ elim (Bool-cases (b.pc == length b.code)) [
        | inl m ↦
            inr (_, _, (rw (n, cpu_routine, d, m) at e), inr refl, refl, idle_waiting w.sched v)
        | inr m ↦ elim (Bool-cases (c.time_left == 0)) [
          | inl z ↦ inr (
            _,
            _,
            (rw (n, cpu_routine, d, m, z) at e),
            inl refl,
            refl,
            idle_waiting (put_mlq_proc w.procs w.sched c.proc)
                (put_mlq_proc-IsValid w.procs w.sched c.proc v),
          )
          | inr z ↦ inr (
            w,
            c,
            (rw (n, cpu_routine, d, m, z) at e),
            inl refl,
            refl,
            (λ q. absurd (some_process n q)),
          )
        ]
      ]
    ]
  ]
