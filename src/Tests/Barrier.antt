-- ===== src/Tests/Barrier.antt =====
-- Two devices at the timer of src/timer.c.
use simple_operating_system.Common.{
  ℕ, zero, suc, ◌%◌, ◌≡◌, ◌⊎◌, refl, subst, inl, inr, false, [], ◌∷◌,
}
use mathlib.Core.Option.{some-injective}
use simple_operating_system.Mm.{word}
use simple_operating_system.Timer.{
  Device, Phase, top, ended, collect, release, Timer, Step, ticks, tells, detaches, Reach, here,
  next, started, next_slot_tell, detach_event, timer_next, collect_device, release_device,
  current_time, attached, start_timer, new_device,
}
use simple_operating_system.Timer.Sync.{Arrived, Each}
use simple_operating_system.Timer.Barrier.{Reach-slot}
use simple_operating_system.Timer.Rounds.{Ticks, timer_round}

-- The first device has called `next_slot`; the timer waits for the second.
abbrev told : Timer
told = record (started 2) { dev_list = next_slot_tell new_device ∷ new_device ∷ [] }

abbrev scanning : Timer
scanning = record told { phase = collect 0 0 0 }

abbrev held : Timer
held = record told { phase = collect 1 0 1 }

held-Reach : Reach 2 held
unfolding attached start_timer timer_next collect_device next_slot_tell
held-Reach =
    let tell : Step (started 2) told = tells 0 new_device refl refl refl in
    let enter : Step told scanning = ticks refl in
    let collects : Step scanning held = ticks refl in next (next (next here tell) enter) collects

Reach-slot_example : new_device.slot ≡ current_time held
unfolding next_slot_tell
Reach-slot_example = Reach-slot 2 held 1 new_device held-Reach refl refl

-- One device, which detaches itself.
abbrev detached : Phase → ℕ → Device → Timer
detached p t d = record (started 1) { dev_list = d ∷ []; phase = p; time = t }

abbrev left : Device
left = detach_event new_device

abbrev over : Timer
over = detached ended 1 left

over-Reach : Reach 1 over
unfolding attached start_timer timer_next collect_device release_device detach_event
over-Reach =
    let detach : Step (started 1) (detached top 0 left) = detaches 0 new_device refl refl refl in
    let enter : Step (detached top 0 left) (detached (collect 0 0 0) 0 left) = ticks refl in
    let collects : Step (detached (collect 0 0 0) 0 left) (detached (collect 1 1 1) 0 left) =
      ticks refl in
    let counts : Step (detached (collect 1 1 1) 0 left) (detached (release 0 1 1) 1 left) =
      ticks refl in
    let releases : Step (detached (release 0 1 1) 1 left) (detached (release 1 1 1) 1 left) =
      ticks refl in
    let breaks : Step (detached (release 1 1 1) 1 left) over = ticks refl in
    next (next (next (next (next (next here detach) enter) collects) counts) releases) breaks

-- Both devices have arrived.
abbrev both : Timer
both = record (started 2) { dev_list = next_slot_tell new_device ∷ left ∷ [] }

both-Arrived : Each (λ j d. Arrived 0 d) both.dev_list
unfolding next_slot_tell detach_event
both-Arrived zero d e =
    subst (Arrived 0) (some-injective (next_slot_tell new_device) d e)
      (inr (refl, refl, refl, refl))
both-Arrived (suc zero) d e = subst (Arrived 0) (some-injective left d e) (inl (refl, refl))
both-Arrived (suc (suc j)) d e = cc e

timer_round_example :
    (u : Timer) × Ticks both u
    × (u.time ≡ 1 % word)
    × ((u.phase ≡ top) ⊎ (u.phase ≡ ended))
    × Each (λ j d. d.done ≡ false) u.dev_list
unfolding start_timer
timer_round_example = timer_round both refl refl both-Arrived
