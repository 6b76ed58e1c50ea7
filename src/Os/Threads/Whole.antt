-- ===== src/Os/Threads/Whole.antt =====
-- The steps of Os/Threads make up the iterations of `cpu_routine`.
use simple_operating_system.Common.{
  ℕ, ◌≡◌, refl, inl, inr, Option, none, some, ◌==◌, length, Bool-cases, Option-cases,
}
use simple_operating_system.Phy.{MemphyOps}
use simple_operating_system.Queue.{null}
use simple_operating_system.World.{World, deref}
use simple_operating_system.Os.{Cpu, Act, slept, fetch, dispatch, skip_or_dispatch, cpu_routine}
use simple_operating_system.Os.Threads.{
  Point, at_top, looking, refilling, chosen, Core, enter, after_get,
}

module _ (phy : MemphyOps) (stale time_slot : ℕ) where
  -- What is left of an iteration behind `get_proc`.
  abbrev pub ended : World → Cpu → Point → Option (World × Cpu × Act)
  ended w c at_top = some (w, c, slept)
  ended w c looking = none
  ended w c refilling = none
  ended w c chosen = dispatch phy stale time_slot (w, c)

  -- What is left of an iteration from a processor on.
  abbrev pub finished : World → Cpu → Point → Option (World × Cpu × Act)
  finished w c at_top = none
  finished w c looking = let (w', c') = fetch w c in ended w' c' (after_get looking c')
  finished w c refilling = let (w', c') = fetch w c in ended w' c' (after_get refilling c')
  finished w c chosen = ended w c chosen

  abbrev pub iteration : Option (World × Core) → Option (World × Cpu × Act)
  iteration none = none
  iteration (some (w, k)) = finished w k.cpu k.point

  -- The steps of a processor one after the other, with nothing between them, are an iteration.
  pub cpu_routine-enter :
      (w : World) (c : Cpu) → cpu_routine phy stale time_slot w c ≡ iteration (enter w c)
  unfolding cpu_routine enter skip_or_dispatch after_get
  cpu_routine-enter w c = elim (Bool-cases (c.proc == null)) [
    | inl n ↦ elim (Bool-cases ((fetch w c).1.proc == null)) [
      | inl m ↦ rw (n, m) refl
      | inr m ↦ rw (n, m) refl
    ]
    | inr n ↦ elim (Option-cases (deref w c.proc)) [
      | inl d ↦ rw (n, cpu_routine, enter, d) refl
      | inr (b, d) ↦ elim (Bool-cases (b.pc == length b.code)) [
        | inl m ↦ rw (n, cpu_routine, enter, d, m) refl
        | inr m ↦ elim (Bool-cases (c.time_left == 0)) [
          | inl z ↦ rw (n, cpu_routine, enter, d, m, z) refl
          | inr z ↦ rw (n, cpu_routine, enter, d, m, z) refl
        ]
      ]
    ]
  ]
