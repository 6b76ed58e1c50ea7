-- ===== src/Os/Machine/Progress.antt =====
-- The threads of src/os.c and the timer of src/timer.c never wait for each other in a circle.
use simple_operating_system.Common.{
  ℕ, zero, suc, ◌%◌, ◌-◌, ◌<◌, ◌≡◌, ◌≢◌, ◌⊎◌, inl, inr, refl, Option, none, some, List, [], arith,
  Option-cases, get_elem?, get_elem?-below, below-get_elem?,
}
use simple_operating_system.Mm.{word}
use simple_operating_system.Phy.{MemphyOps}
use simple_operating_system.Timer.{
  Device, working, idle, ended, halted, timer_next, next_slot_wait, current_time,
}
use simple_operating_system.Timer.Barrier.{Reach-progress}
use simple_operating_system.Os.{Cpu, cpu_routine, Job, ld_routine}
use simple_operating_system.Os.System.{Fresh}
use simple_operating_system.Os.Machine.{
  Machine, cpu_event, ld_event, Step, times, wakes, runs, loads, Reach,
}
use simple_operating_system.Os.Machine.Clock.{Reach-Timed}
use simple_operating_system.Os.Machine.Linked.{Linked, Reach-Linked}

module _ (phy : MemphyOps) (stale time_slot n : ℕ) where
  -- A processor whose next iteration is undefined in C.
  abbrev pub Stuck : Machine → Type 0
  Stuck m =
      (i : ℕ) × (c : Cpu) × (get_elem? m.system.cpus i ≡ some (some c))
      × (cpu_routine phy stale time_slot m.system.world c ≡ none)

  abbrev Moves : Machine → Type 0
  Moves m = ((u : Machine) × Step phy stale time_slot n m u) ⊎ Stuck m

  cpu-Moves :
      (m : Machine) (i : ℕ) (x : Option Cpu) (d : Device)
      → Linked n m
      → i < n
      → get_elem? m.system.cpus i ≡ some x
      → get_elem? m.timer.dev_list (cpu_event n i) ≡ some d
      → d.mode ≡ working
      → Moves m
  cpu-Moves m i none d l h e at w = cc (l.cpu_ended i none d h e at refl, w)
  cpu-Moves m i (some c) d l h e at w =
      elim (Option-cases (cpu_routine phy stale time_slot m.system.world c)) [
        | inl q ↦ inr (i, c, e, q)
        | inr ((w', c', a), q) ↦ inl (_, runs i c d w' c' a h e at w q refl)
      ]

  ld-Moves :
      (m : Machine) (d : Device) (x : Option (List Job))
      → Linked n m
      → m.system.jobs ≡ x
      → ((jobs : List Job) → m.system.jobs ≡ some jobs → Fresh m.system jobs)
      → get_elem? m.timer.dev_list ld_event ≡ some d
      → d.mode ≡ working
      → Moves m
  ld-Moves m d none l e f at w = cc (l.ld_ended d at e, w)
  ld-Moves m d (some jobs) l e f at w =
      let r = ld_routine [] m.system.world (current_time m.timer) jobs in
      inl (_, loads [] jobs d r.0 r.1 r.2 e (f jobs e) at w refl refl)

  working-Moves :
      (m : Machine) (j : ℕ) (d : Device)
      → Linked n m
      → ((jobs : List Job) → m.system.jobs ≡ some jobs → Fresh m.system jobs)
      → get_elem? m.timer.dev_list j ≡ some d
      → d.mode ≡ working
      → Moves m
  working-Moves m zero d l f at w = ld-Moves m d m.system.jobs l refl f at w
  working-Moves m (suc k) d l f at w =
      let b = below-get_elem? m.timer.dev_list (suc k) d at in
      let h : n - suc k < n = omega (arith, b, l.all_devices) in
      let back : cpu_event n (n - suc k) ≡ suc k = omega (arith, b, l.all_devices) in
      let (x, e) = get_elem?-below m.system.cpus (n - suc k) (omega (arith, h, l.all_cpus)) in
      cpu-Moves m (n - suc k) x d l h e (rw back at) w

  -- The program does not deadlock: while the timer is in its loop, the timer or some thread has a
  -- step, or some processor comes to code that C leaves undefined. For the loader, `malloc` is taken
  -- at its word.
  pub Reach-moves :
      (m : Machine)
      → Reach phy stale time_slot n m
      → m.timer.phase ≢ ended
      → m.timer.phase ≢ halted
      → m.timer.phase ≢ idle
      → ((jobs : List Job) → m.system.jobs ≡ some jobs → Fresh m.system jobs)
      → ((u : Machine) × Step phy stale time_slot n m u) ⊎ Stuck m
  unfolding next_slot_wait
  Reach-moves m r a b c f = elim (Option-cases (timer_next m.timer)) [
    | inr (t, e) ↦ inl (_, times t e refl)
    | inl e ↦
        let l = Reach-Linked phy stale time_slot n m r in
        let (j, d, at, state) =
          Reach-progress (suc n) m.timer (Reach-Timed phy stale time_slot n m r) a b c e in
        elim state [
          | inl w ↦ working-Moves m j d l f at w
          | inr (w, q) ↦
              let woken : Device = record d { mode = working; slot = suc d.slot % word } in
              let back : next_slot_wait d ≡ some woken = rw q refl in
              inl (_, wakes j d woken at w back refl)
        ]
  ]
