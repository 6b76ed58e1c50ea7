-- ===== src/Os/Processor.antt =====
-- `cpu_routine` of src/os.c.
use simple_operating_system.Common.{
  ℕ, suc, ◌^◌, ◌<◌, ◌≡◌, ◌≢◌, refl, ap, ◌∙◌, inl, inr, true, false, some, List, [], ◌∷◌, ◌==◌,
  arith, Bool-cases, length, erase, ltb, get_or, if◌then◌else◌,
}
use simple_operating_system.Phy.{MemphyOps}
use simple_operating_system.Process.{Pcb}
use simple_operating_system.Queue.{Ptr, null, cleared, to_list}
use simple_operating_system.Os.Exclusive.{dispatch-Left}
use simple_operating_system.Sched.{max_prio, Sched, get_mlq_proc, get_proc, put_proc}
use simple_operating_system.Sched.Levels.{waiting}
use simple_operating_system.Sched.Invariant.{IsValid, put_mlq_proc-IsValid}
use simple_operating_system.Sched.Policy.{
  get_mlq_proc-idle, get_mlq_proc-highest, put_mlq_proc-level, level, joined,
}
use simple_operating_system.World.{World, deref}
use simple_operating_system.Os.Iteration.{
  Iteration, some_process, dispatch-Dispatched, proper, used, wraps, Chosen, cpu_routine-Chosen,
}
use simple_operating_system.Os.{Cpu, slept, stopped, fetch, skip_or_dispatch, cpu_routine}

module _ (phy : MemphyOps) (stale time_slot : ℕ) where
  -- A processor without a process, when none waits, looks for one, resets the position of the scan
  -- and sleeps until the next slot, also when `done` is set: it does not stop.
  pub cpu_routine-idle :
      (w : World) (c : Cpu)
      → IsValid w.sched
      → waiting w.sched.mlq_ready_queue ≡ []
      → c.proc ≡ null
      → cpu_routine phy stale time_slot w c
        ≡ some
            (record w { sched = record w.sched { current_prio = 0; current_slot = 0 } }, c, slept)
  unfolding cpu_routine skip_or_dispatch fetch get_proc
  cpu_routine-idle w c v e h = rw (h, get_mlq_proc-idle w.sched v e) refl

  -- A process with instructions left and some of its slice goes on, and its slice shrinks by one.
  pub cpu_routine-continues :
      (w : World) (c : Cpu) (b : Pcb) (r : Iteration)
      → deref w c.proc ≡ some b
      → b.pc ≢ length b.code
      → c.time_left ≢ 0
      → c.time_left < 2 ^ 32
      → cpu_routine phy stale time_slot w c ≡ some r
      → (r.1.proc ≡ c.proc) × (suc r.1.time_left ≡ c.time_left) × (r.2 ≡ slept)
  unfolding cpu_routine
  cpu_routine-continues w c b r d l t u e =
      let n : (c.proc == null) ≡ false = used w c.proc b d in
      let m : (b.pc == length b.code) ≡ false = ground (arith, l) in
      let z : (c.time_left == 0) ≡ false = ground (arith, t) in
      let (a, i, x) =
        dispatch-Dispatched phy stale time_slot w c r (rw (n, cpu_routine, d, m, z) at e) in
      let (y, k) = x (some_process n) in (a, wraps c.time_left r.1.time_left u t (rw z at y), k)

  -- In a valid scheduler, a process whose slice is used up, with instructions left, is given to
  -- `put_proc`, which takes it off the running list and puts it at the end of its level, unless the
  -- level is full or its priority is none. If some process then waits, the processor takes the first
  -- in order of priority and age out of the ready queues, adds it to the running list if that has
  -- room, and gives it a whole slice, of which one slot is used. Nothing else happens to the
  -- ready queues and to the running list.
  pub cpu_routine-preempts :
      (w : World) (c : Cpu) (b : Pcb) (p : Ptr) (ps : List Ptr) (r : Iteration) (i : ℕ)
      → IsValid w.sched
      → deref w c.proc ≡ some b
      → b.pc ≢ length b.code
      → c.time_left ≡ 0
      → 0 < time_slot
      → time_slot < 2 ^ 32
      → waiting (put_proc w.procs w.sched c.proc).mlq_ready_queue ≡ p ∷ ps
      → cpu_routine phy stale time_slot w c ≡ some r
      → let s = put_proc w.procs w.sched c.proc in
        (to_list s.running_list ≡ erase c.proc (to_list w.sched.running_list))
        × (level s i ≡ (
            if ltb (w.procs c.proc).prio max_prio
            then (if i == (w.procs c.proc).prio
                then joined (get_or w.sched.mlq_ready_queue i cleared) c.proc
                else level w.sched i)
            else level w.sched i))
        × (waiting r.0.sched.mlq_ready_queue ≡ ps)
        × (to_list r.0.sched.running_list ≡ joined s.running_list p)
        × (r.1.proc ≡ p)
        × (suc r.1.time_left ≡ time_slot)
        × (r.2 ≡ slept)
  unfolding cpu_routine fetch get_proc put_proc
  cpu_routine-preempts w c b p ps r i v d l t g u h e =
      let n : (c.proc == null) ≡ false = used w c.proc b d in
      let m : (b.pc == length b.code) ≡ false = ground (arith, l) in
      let z : (c.time_left == 0) ≡ true = ground (arith, t) in
      let s : Sched = put_proc w.procs w.sched c.proc in
      let s-valid : IsValid s = put_mlq_proc-IsValid w.procs w.sched c.proc v in
      let (got, rest, runs) = get_mlq_proc-highest s p ps s-valid h in
      let n' : ((get_mlq_proc s).0 == null) ≡ false =
        ground (arith, proper s p ps s-valid h, got) in
      let (off, lev) = put_mlq_proc-level w.procs w.sched c.proc i v (some_process n) in
      let w' : World = record w { sched = (get_mlq_proc s).1 } in
      let c' : Cpu = record c { proc = (get_mlq_proc s).0 } in
      let second = rw (n, cpu_routine, d, m, z) at e in
      let (a, j, x) = dispatch-Dispatched phy stale time_slot w' c' r second in
      let (same, k) = dispatch-Left phy stale time_slot w' c' r second in
      let (y, slept_now) = x (some_process n') in
      (
        off,
        lev,
        ap (λ (q : Sched). waiting q.mlq_ready_queue) same ∙ rest,
        ap (λ (q : Sched). to_list q.running_list) same ∙ runs,
        a ∙ got,
        wraps time_slot r.1.time_left u (λ q. omega (arith, q, g)) (rw t at y),
        slept_now,
      )

  -- While the scheduler is valid, a processor stops only when `done` is set, and then it has no
  -- process and none waits.
  pub cpu_routine-stops :
      (w : World) (c : Cpu) (r : Iteration)
      → IsValid w.sched
      → cpu_routine phy stale time_slot w c ≡ some r
      → r.2 ≡ stopped
      → (w.done ≢ 0) × (r.1.proc ≡ null) × (waiting r.0.sched.mlq_ready_queue ≡ [])
  cpu_routine-stops w c r v e h = go (cpu_routine-Chosen phy stale time_slot w c r v e)
    where
      go :
          Chosen phy stale time_slot w c r
          → (w.done ≢ 0) × (r.1.proc ≡ null) × (waiting r.0.sched.mlq_ready_queue ≡ [])
      go (inl (t, k)) = cc (h, k)
      go (inr (w', c', d, t, o, i)) =
          let (a, x, y) = dispatch-Dispatched phy stale time_slot w' c' r d in
          elim (Bool-cases (c'.proc == null)) [
            | inl n ↦
                let z : c'.proc ≡ null = ground (arith, n) in
                let (p, q, m) = x z in
                (
                  (λ f. m h (o ∙ f)),
                  a ∙ z,
                  ap (λ (u : World). waiting u.sched.mlq_ready_queue) p ∙ i z,
                )
            | inr n ↦ let (l, k) = y (some_process n) in cc (h, k)
          ]

  -- While the scheduler is valid and a slice fits 32 bits, an iteration that starts with less than a
  -- whole slice left ends with less than a whole slice left.
  pub cpu_routine-slice :
      (w : World) (c : Cpu) (r : Iteration)
      → IsValid w.sched
      → time_slot < 2 ^ 32
      → c.time_left < time_slot
      → cpu_routine phy stale time_slot w c ≡ some r
      → r.1.time_left < time_slot
  cpu_routine-slice w c r v u l e = go (cpu_routine-Chosen phy stale time_slot w c r v e)
    where
      go : Chosen phy stale time_slot w c r → r.1.time_left < time_slot
      go (inl (t, k)) = omega (arith, t)
      go (inr (w', c', d, t, o, i)) =
          let below : c'.time_left < time_slot = elim t [
            | inl q ↦ omega (arith, q)
            | inr q ↦ omega (arith, q)
          ] in
          let (a, x, y) = dispatch-Dispatched phy stale time_slot w' c' r d in
          elim (Bool-cases (c'.proc == null)) [
            | inl n ↦
                let (p, q, m) = x (ground (arith, n)) in
                omega (arith, ap (λ (b : Cpu). b.time_left) q)
            | inr n ↦
                let (left, k) = y (some_process n) in
                elim (Bool-cases (c'.time_left == 0)) [
                  | inl z ↦ omega (
                    arith,
                    wraps time_slot r.1.time_left u (λ f. omega (arith, f)) (rw z at left),
                  )
                  | inr z ↦ omega (
                    arith,
                    wraps c'.time_left r.1.time_left (omega arith) (λ f. ground arith)
                        (rw z at left),
                  )
                ]
          ]
