-- ===== src/Timer.antt =====
-- src/timer.c: the barrier between the timer and the devices, which are the threads of src/os.c. A
-- step of a thread is what it does under one lock. Waiting on a condition variable is being without
-- a step until the awaited condition holds, so that wake-ups without a reason are covered.
pub mod Sync
pub mod Loop
pub mod Barrier
pub mod Rounds
use simple_operating_system.Common.{
  ℕ, zero, suc, ◌+◌, ◌%◌, ◌≡◌, Bool, true, false, ◌||◌, Option, none, some, List, [], ◌∷◌, ◌==◌,
  if◌then◌else◌, get_elem?, set,
}
use simple_operating_system.Mm.{word}

-- Where the thread of a device is: in its slot, in the second half of `next_slot`, or past
-- `detach_event`.
pub data Mode : Type 0 where
  working waiting gone : Mode

-- struct timer_id_t without its locks, and two things that the program keeps elsewhere: where the
-- thread is, and how often its `next_slot` has returned, on 64 bits.
pub record Device : Type 0 where
  pub done : Bool
  pub fsh : Bool
  pub mode : Mode
  pub slot : ℕ

-- Where the timer's thread is: not started, at the test of its loop, at device i of the first or of
-- the second inner loop, past the `break`, or past the loop by `timer_stop`.
pub data Phase : Type 0 where
  idle top ended halted : Phase
  collect release : (i fsh event : ℕ) → Phase

-- The static variables, and where the timer's thread is, which also says `timer_started`.
pub record Timer : Type 0 where
  pub dev_list : List Device
  pub time : ℕ
  pub timer_stop : Bool
  pub phase : Phase

abbrev pub no_timer : Timer
no_timer = record { dev_list = []; time = 0; timer_stop = false; phase = idle }

abbrev pub new_device : Device
new_device = record { done = false; fsh = false; mode = working; slot = 0 }

-- `none` is NULL.
unfoldable pub attach_event : Timer → Option Timer
attach_event t = elim t.phase [
  | idle ↦ some (record t { dev_list = new_device ∷ t.dev_list })
  | _ ↦ none
]

unfoldable pub start_timer : Timer → Timer
start_timer t = record t { phase = top }

-- The first statement of `stop_timer`.
unfoldable pub stop_timer : Timer → Timer
stop_timer t = record t { timer_stop = true }

-- The rest of it: it waits for the timer's thread to end and frees the devices.
unfoldable pub join_timer : Timer → Option Timer
join_timer t = elim t.phase [
  | ended ↦ some (record t { dev_list = [] })
  | halted ↦ some (record t { dev_list = [] })
  | _ ↦ none
]

-- One iteration of the first inner loop, if the device has done its job or is detached.
unfoldable pub collect_device : Timer → (i fsh event : ℕ) → Device → Option Timer
collect_device t i fsh event d =
    if d.done || d.fsh
    then some (record t { phase = collect (suc i) (if d.fsh then suc fsh else fsh) (suc event) })
    else none

-- One iteration of the second inner loop.
unfoldable pub release_device : Timer → (i fsh event : ℕ) → Device → Timer
release_device t i fsh event d = record t {
  dev_list = set t.dev_list i (record d { done = false });
  phase = release (suc i) fsh event;
}

-- The next step of `timer_routine`, from each point of its loop; `none` while it waits for a device,
-- and past its loop.
unfoldable pub timer_next : Timer → Option Timer
unfolding collect_device release_device
timer_next t = elim t.phase [
  | idle ↦ none
  | top ↦ some (record t { phase = if t.timer_stop then halted else collect 0 0 0 })
  | collect i fsh event ↦ elim (get_elem? t.dev_list i) [
    | none ↦ some (record t { time = suc t.time % word; phase = release 0 fsh event })
    | some d ↦ collect_device t i fsh event d
  ]
  | release i fsh event ↦ elim (get_elem? t.dev_list i) [
    | none ↦ some (record t { phase = if fsh == event then ended else top })
    | some d ↦ some (release_device t i fsh event d)
  ]
  | ended ↦ none
  | halted ↦ none
]

-- The two halves of `next_slot`: the device says that it is done, and goes on when the timer has
-- taken that back.
unfoldable pub next_slot_tell : Device → Device
next_slot_tell d = record d { done = true; mode = waiting }

unfoldable pub next_slot_wait : Device → Option Device
next_slot_wait d =
    if d.done then none else some (record d { mode = working; slot = suc d.slot % word })

unfoldable pub detach_event : Device → Device
detach_event d = record d { fsh = true; mode = gone }

unfoldable pub current_time : Timer → ℕ
current_time t = t.time

-- One step of some thread. A device is in one half of `next_slot`, or detaches itself.
pub data Step (t u : Timer) : Type 0 where
  ticks : timer_next t ≡ some u → Step t u
  tells :
      (i : ℕ) (d : Device)
      → get_elem? t.dev_list i ≡ some d
      → d.mode ≡ working
      → u ≡ record t { dev_list = set t.dev_list i (next_slot_tell d) }
      → Step t u
  wakes :
      (i : ℕ) (d d' : Device)
      → get_elem? t.dev_list i ≡ some d
      → d.mode ≡ waiting
      → next_slot_wait d ≡ some d'
      → u ≡ record t { dev_list = set t.dev_list i d' }
      → Step t u
  detaches :
      (i : ℕ) (d : Device)
      → get_elem? t.dev_list i ≡ some d
      → d.mode ≡ working
      → u ≡ record t { dev_list = set t.dev_list i (detach_event d) }
      → Step t u
  stops : u ≡ stop_timer t → Step t u
  joins : join_timer t ≡ some u → Step t u

-- n devices attached, and the timer started.
unfoldable pub attached : ℕ → List Device
attached zero = []
attached (suc n) = new_device ∷ attached n

abbrev pub started : ℕ → Timer
started n = start_timer (record no_timer { dev_list = attached n })

-- What the threads can do from there.
pub data Reach (n : ℕ) : Timer → Type 0 where
  here : Reach n (started n)
  next : {t u : Timer} → Reach n t → Step t u → Reach n u
