-- ===== src/Os/Machine/Clock.antt =====
-- What the timer of the whole program is put through is what it is put through by itself.
use simple_operating_system.Common.{ℕ, suc, ◌≡◌, refl, sym, subst, some, get_elem?}
use simple_operating_system.Phy.{MemphyOps}
use simple_operating_system.Timer
use simple_operating_system.Timer.{Device, working, Timer, ticks, tells, detaches}
use simple_operating_system.Os.{Act, slept, stopped}
use simple_operating_system.Os.Machine.{
  Machine, signal, cpu_event, ld_event, with_device, Step, times, wakes, runs, loads, Reach, boots,
  next,
}

-- The end of an iteration is a step of the thread's device.
signal-Step :
    (t : Timer) (j : ℕ) (d : Device) (a : Act)
    → get_elem? t.dev_list j ≡ some d
    → d.mode ≡ working
    → Timer.Step t (with_device t j (signal a d))
unfolding signal
signal-Step t j d slept at m = tells j d at m refl
signal-Step t j d stopped at m = detaches j d at m refl

module _ (phy : MemphyOps) (stale time_slot n : ℕ) where
  abbrev Timed : Machine → Type 0
  Timed m = Timer.Reach (suc n) m.timer

  Step-Timed : (m u : Machine) → Step phy stale time_slot n m u → Timed m → Timed u
  Step-Timed m u (times t e q) x = subst Timed (sym q) (Timer.next x (ticks e))
  Step-Timed m u (wakes j d d' at w e q) x =
      subst Timed (sym q) (Timer.next x (Timer.wakes j d d' at w e refl))
  Step-Timed m u (runs i c d w' c' a b at dev w e q) x =
      subst Timed (sym q) (Timer.next x (signal-Step m.timer (cpu_event n i) d a dev w))
  Step-Timed m u (loads stale_list jobs d w' jobs' a j f dev w e q) x =
      subst Timed (sym q) (Timer.next x (signal-Step m.timer ld_event d a dev w))

  -- The timer of every state of the machine is one that a run of the timer reaches, with one device
  -- more than there are processors.
  pub Reach-Timed : (m : Machine) → Reach phy stale time_slot n m → Timer.Reach (suc n) m.timer
  Reach-Timed m (boots w jobs e) = Timer.here
  Reach-Timed m (next {m = p} r st) = Step-Timed p m st (Reach-Timed p r)
