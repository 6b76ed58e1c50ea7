-- ===== src/Timer/Barrier.antt =====
-- The barrier: no thread works in another time slot than the others.
use simple_operating_system.Common.{
  ℕ, ◌≡◌, ◌≢◌, ◌⊎◌, inl, inr, refl, subst, Bool, true, false, ◌||◌, none, some, List, get_elem?,
  arith, Bool-cases, Option-cases,
}
use native.Mathlib.Decide.{dec_lt}
use simple_operating_system.Timer.{
  working, waiting, gone, Device, Phase, idle, top, ended, halted, collect, release, Timer,
  collect_device, timer_next, current_time, Reach,
}
use simple_operating_system.Timer.Sync.{InSlot, Arrived, Sync}
use simple_operating_system.Timer.Loop.{Reach-IsSync}

-- A device in its thread's own slot is in the timer's.
busy_slot : (t : ℕ) (d : Device) → InSlot t d → d.mode ≡ working → d.slot ≡ t
busy_slot t d (inl g) h = cc (h, g.0)
busy_slot t d (inr (inl g)) h = cc
busy_slot t d (inr (inr (inl g))) h = cc (h, g.0)
busy_slot t d (inr (inr (inr g))) h = g.3

not_busy : (t : ℕ) (d : Device) → Arrived t d → d.mode ≡ working → ⊥
not_busy t d (inl g) h = cc (h, g.0)
not_busy t d (inr g) h = cc (h, g.0)

Sync-slot :
    (p : Phase) (t : ℕ) (ds : List Device) (i : ℕ) (d : Device)
    → Sync p t ds
    → get_elem? ds i ≡ some d
    → d.mode ≡ working
    → d.slot ≡ t
Sync-slot idle t ds i d s at h = busy_slot t d (s i d at) h
Sync-slot top t ds i d s at h = busy_slot t d (s i d at) h
Sync-slot halted t ds i d s at h = busy_slot t d (s i d at) h
Sync-slot ended t ds i d s at h = busy_slot t d ((s i d at).0) h
Sync-slot (collect k f e) t ds i d s at h = busy_slot t d ((s.1 i d at).0) h
Sync-slot (release k f e) t ds i d (t0, w, s) at h = elim (dec_lt i k) [
  | yes l ↦ busy_slot t d ((s i d at).0 l) h
  | no l ↦ absurd (not_busy t0 d ((s i d at).1 (omega (arith, l))) h)
]

-- Whatever the threads do, in whatever order: a device that works is in the time slot that
-- `current_time` gives, so that no two devices ever work in different slots.
pub Reach-slot :
    (n : ℕ) (t : Timer) (i : ℕ) (d : Device)
    → Reach n t
    → get_elem? t.dev_list i ≡ some d
    → d.mode ≡ working
    → d.slot ≡ current_time t
unfolding current_time
Reach-slot n t i d r = Sync-slot t.phase t.time t.dev_list i d (Reach-IsSync r)

-- The timer leaves its loop by `break` only when every device has been detached.
pub Reach-ended :
    (n : ℕ) (t : Timer) (i : ℕ) (d : Device)
    → Reach n t
    → t.phase ≡ ended
    → get_elem? t.dev_list i ≡ some d
    → (d.mode ≡ gone) × (d.fsh ≡ true)
Reach-ended n t i d r e at =
    let s : Sync ended t.time t.dev_list =
      subst (λ (p : Phase). Sync p t.time t.dev_list) e (Reach-IsSync r) in
    (s i d at).1

can_move :
    (t : ℕ) (d : Device)
    → InSlot t d
    → (d.done || d.fsh) ≡ false
    → (d.mode ≡ working) ⊎ ((d.mode ≡ waiting) × (d.done ≡ false))
can_move t d (inl g) h = ground arith
can_move t d (inr (inl g)) h = ground arith
can_move t d (inr (inr (inl g))) h = inr (g.0, g.1)
can_move t d (inr (inr (inr g))) h = inl g.0

waits_at :
    (p : Phase) (ds : List Device) (t : ℕ) (stop : Bool)
    → p ≢ ended
    → p ≢ halted
    → p ≢ idle
    → timer_next (record { dev_list = ds; time = t; timer_stop = stop; phase = p }) ≡ none
    → Sync p t ds
    → (i : ℕ) × (d : Device) × (get_elem? ds i ≡ some d)
      × ((d.mode ≡ working) ⊎ ((d.mode ≡ waiting) × (d.done ≡ false)))
unfolding timer_next collect_device
waits_at idle ds t stop a b c e s = absurd (c refl)
waits_at ended ds t stop a b c e s = absurd (a refl)
waits_at halted ds t stop a b c e s = absurd (b refl)
waits_at top ds t stop a b c e s = cc e
waits_at (collect i f ev) ds t stop a b c e s = elim (Option-cases (get_elem? ds i)) [
  | inl n ↦ cc (rw (n, timer_next) at e)
  | inr (d, at) ↦ elim (Bool-cases (d.done || d.fsh)) [
    | inl h ↦ cc (rw (at, timer_next, h) at e)
    | inr h ↦ (i, d, at, can_move t d ((s.1 i d at).0) h)
  ]
]
waits_at (release i f ev) ds t stop a b c e s = elim (Option-cases (get_elem? ds i)) [
  | inl n ↦ cc (rw (n, timer_next) at e)
  | inr (d, at) ↦ cc (rw (at, timer_next) at e)
]

-- The barrier does not deadlock: while the timer is in its loop and has no step, some device works
-- or can return from `next_slot`.
pub Reach-progress :
    (n : ℕ) (t : Timer)
    → Reach n t
    → t.phase ≢ ended
    → t.phase ≢ halted
    → t.phase ≢ idle
    → timer_next t ≡ none
    → (i : ℕ) × (d : Device) × (get_elem? t.dev_list i ≡ some d)
      × ((d.mode ≡ working) ⊎ ((d.mode ≡ waiting) × (d.done ≡ false)))
Reach-progress n t r a b c e =
    waits_at t.phase t.dev_list t.time t.timer_stop a b c e (Reach-IsSync r)
