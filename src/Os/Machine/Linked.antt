-- ===== src/Os/Machine/Linked.antt =====
-- Every thread of src/os.c has its device at the timer, until it has ended.
use simple_operating_system.Common.{
  ℕ, zero, suc, ◌<◌, ◌%◌, ◌≡◌, ◌≢◌, ◌⊎◌, inl, inr, refl, sym, ap, subst, ◌∙◌, Bool, false, ◌||◌,
  Option, none, some, List, ◌==◌, if◌then◌else◌, arith, Bool-cases, Option-cases, get_elem?,
  get_elem?-set, set, replicate, length, length-set, length-replicate,
}
use mathlib.Core.Option.{some-injective}
use simple_operating_system.Phy.{MemphyOps}
use simple_operating_system.World.{World}
use simple_operating_system.Mm.{word}
use simple_operating_system.Timer.{
  Device, waiting, gone, Phase, idle, top, ended, halted, collect, release, Timer, timer_next,
  collect_device, release_device, detach_event, attached, start_timer,
}
use simple_operating_system.Os.{Cpu, Act, slept, stopped, Job}
use simple_operating_system.Os.System.{new_cpu, kept, put_back}
use simple_operating_system.Os.Machine.{
  Machine, signal, cpu_event, ld_event, with_device, Step, times, wakes, runs, loads, Reach, boots,
  next,
}

-- A thread that has ended has detached its device.
abbrev pub Ended : {A : Type 0} → Option A → Device → Type 0
Ended x d = x ≡ none → d.mode ≡ gone

-- Every thread has its device.
pub record Linked (n : ℕ) (m : Machine) : Type 0 where
  pub all_cpus : length m.system.cpus ≡ n
  pub all_devices : length m.timer.dev_list ≡ suc n
  pub cpu_ended :
      (i : ℕ) (x : Option Cpu) (d : Device)
      → i < n
      → get_elem? m.system.cpus i ≡ some x
      → get_elem? m.timer.dev_list (cpu_event n i) ≡ some d
      → Ended x d
  pub ld_ended : (d : Device) → get_elem? m.timer.dev_list ld_event ≡ some d → Ended m.system.jobs d

-- The same devices but for what the timer notes in them.
abbrev SameModes : List Device → List Device → Type 0
SameModes ds es =
    (length es ≡ length ds)
    × ((j : ℕ) (d : Device)
        → get_elem? es j ≡ some d
        → (x : Device) × (get_elem? ds j ≡ some x) × (d.mode ≡ x.mode))

-- A device replaced by one in the same place of its thread.
SameModes-set :
    (ds : List Device) (i : ℕ) (d v : Device)
    → get_elem? ds i ≡ some d
    → v.mode ≡ d.mode
    → SameModes ds (set ds i v)
SameModes-set ds i d v at e = (
  length-set ds i v,
  λ j x g. elim (get_elem?-set ds i j v x g) [
    | inl (a, b) ↦
        (d, subst (λ (k : ℕ). get_elem? ds k ≡ some d) a at, ap (λ (y : Device). y.mode) b ∙ e)
    | inr (a, b) ↦ (x, b, refl)
  ],
)

SameModes-refl : (ds : List Device) → SameModes ds ds
SameModes-refl ds = (refl, λ j d g. (d, g, refl))

-- A timer at a point of its loop.
abbrev at_phase : List Device → ℕ → Bool → Phase → Timer
at_phase ds time stop p = record { dev_list = ds; time = time; timer_stop = stop; phase = p }

timer_out :
    (ds : List Device) (t u : Timer)
    → some t ≡ some u
    → SameModes ds t.dev_list
    → SameModes ds u.dev_list
timer_out ds t u e s = subst (λ (x : Timer). SameModes ds x.dev_list) (some-injective t u e) s

timer_next-SameModes :
    (p : Phase) (ds : List Device) (time : ℕ) (stop : Bool) (u : Timer)
    → timer_next (at_phase ds time stop p) ≡ some u
    → SameModes ds u.dev_list
unfolding timer_next collect_device release_device
timer_next-SameModes idle ds time stop u e = cc e
timer_next-SameModes ended ds time stop u e = cc e
timer_next-SameModes halted ds time stop u e = cc e
timer_next-SameModes top ds time stop u e =
    timer_out ds (at_phase ds time stop (if stop then halted else collect 0 0 0)) u e
      (SameModes-refl ds)
timer_next-SameModes (collect i f ev) ds time stop u e = elim (Option-cases (get_elem? ds i)) [
  | inl n ↦
      timer_out ds (at_phase ds (suc time % word) stop (release 0 f ev)) u (rw (n, timer_next) at e)
        (SameModes-refl ds)
  | inr (d, at) ↦ elim (Bool-cases (d.done || d.fsh)) [
    | inl h ↦
        timer_out ds (at_phase ds time stop (collect (suc i) (if d.fsh then suc f else f) (suc ev)))
          u (rw (at, timer_next, h) at e) (SameModes-refl ds)
    | inr h ↦ cc (rw (at, timer_next, h) at e)
  ]
]
timer_next-SameModes (release i f ev) ds time stop u e = elim (Option-cases (get_elem? ds i)) [
  | inl n ↦
      timer_out ds (at_phase ds time stop (if f == ev then ended else top)) u
        (rw (n, timer_next) at e) (SameModes-refl ds)
  | inr (d, at) ↦
      let v : Device = record d { done = false } in
      timer_out ds (at_phase (set ds i v) time stop (release (suc i) f ev)) u
        (rw (at, timer_next) at e) (SameModes-set ds i d v at refl)
]

SameModes-Linked :
    (n : ℕ) (m : Machine) (t : Timer)
    → SameModes m.timer.dev_list t.dev_list
    → Linked n m
    → Linked n (record m { timer = t })
SameModes-Linked n m t (same, mode) l = record {
  all_cpus = l.all_cpus;
  all_devices = same ∙ l.all_devices;
  cpu_ended =
      λ i x d h e f z. let (y, g, q) = mode (cpu_event n i) d f in q ∙ l.cpu_ended i x y h e g z;
  ld_ended = λ d f z. let (y, g, q) = mode ld_event d f in q ∙ l.ld_ended y g z;
}

-- The end of an iteration.
signal-Ended : {A : Type 0} → (x : A) (a : Act) (d : Device) → Ended (kept x a) (signal a d)
unfolding signal kept detach_event
signal-Ended x slept d z = cc z
signal-Ended x stopped d z = refl

-- The machine after a device has been replaced.
abbrev moved : Machine → ℕ → Device → Machine
moved m j v = record m { timer = with_device m.timer j v }

wakes-Linked :
    (n : ℕ) (m : Machine) (j : ℕ) (d v : Device)
    → get_elem? m.timer.dev_list j ≡ some d
    → d.mode ≡ waiting
    → Linked n m
    → Linked n (moved m j v)
wakes-Linked n m j d v at w l = record {
  all_cpus = l.all_cpus;
  all_devices = length-set m.timer.dev_list j v ∙ l.all_devices;
  cpu_ended = λ i x y h e f z. elim (get_elem?-set m.timer.dev_list j (cpu_event n i) v y f) [
    | inl (a, b) ↦ cc (w, l.cpu_ended i x d h e (rw a at at) z)
    | inr (a, b) ↦ l.cpu_ended i x y h e b z
  ];
  ld_ended = λ y f z. elim (get_elem?-set m.timer.dev_list j ld_event v y f) [
    | inl (a, b) ↦ cc (w, l.ld_ended d (rw a at at) z)
    | inr (a, b) ↦ l.ld_ended y b z
  ];
}

runs-Linked :
    (n : ℕ) (m : Machine) (i : ℕ) (d : Device) (w : World) (c : Cpu) (a : Act)
    → i < n
    → Linked n m
    → Linked n (record {
      timer = with_device m.timer (cpu_event n i) (signal a d);
      system = record m.system { world = w; cpus = put_back m.system.cpus i c a };
    })
runs-Linked n m i d w c a b l = record {
  all_cpus = length-set m.system.cpus i (kept c a) ∙ l.all_cpus;
  all_devices = length-set m.timer.dev_list (cpu_event n i) (signal a d) ∙ l.all_devices;
  cpu_ended = λ k x y h e f.
      ended_at k x y h (get_elem?-set m.system.cpus i k (kept c a) x e)
        (get_elem?-set m.timer.dev_list (cpu_event n i) (cpu_event n k) (signal a d) y f);
  ld_ended = λ y f z.
      elim (get_elem?-set m.timer.dev_list (cpu_event n i) ld_event (signal a d) y f) [
        | inl (p, q) ↦ absurd (omega (arith, p, b))
        | inr (p, q) ↦ l.ld_ended y q z
      ];
}
  where
    ended_at :
        (k : ℕ) (x : Option Cpu) (y : Device)
        → k < n
        → ((i ≡ k) × (x ≡ kept c a)) ⊎ ((i ≢ k) × (get_elem? m.system.cpus k ≡ some x))
        → ((cpu_event n i ≡ cpu_event n k) × (y ≡ signal a d))
          ⊎ ((cpu_event n i ≢ cpu_event n k)
              × (get_elem? m.timer.dev_list (cpu_event n k) ≡ some y))
        → Ended x y
    ended_at k x y h (inl (p, q)) (inl (r, s)) z =
        ap (λ (v : Device). v.mode) s ∙ signal-Ended c a d (sym q ∙ z)
    ended_at k x y h (inl (p, q)) (inr (r, s)) z = absurd (r (ap (cpu_event n) p))
    ended_at k x y h (inr (p, q)) (inl (r, s)) z = absurd (p (omega (arith, r, b, h)))
    ended_at k x y h (inr (p, q)) (inr (r, s)) z = l.cpu_ended k x y h q s z

loads-Linked :
    (n : ℕ) (m : Machine) (d : Device) (w : World) (jobs : List Job) (a : Act)
    → Linked n m
    → Linked n (record {
      timer = with_device m.timer ld_event (signal a d);
      system = record m.system { world = w; jobs = kept jobs a };
    })
loads-Linked n m d w jobs a l = record {
  all_cpus = l.all_cpus;
  all_devices = length-set m.timer.dev_list ld_event (signal a d) ∙ l.all_devices;
  cpu_ended = λ k x y h e f z.
      elim (get_elem?-set m.timer.dev_list ld_event (cpu_event n k) (signal a d) y f) [
        | inl (p, q) ↦ absurd (omega (arith, p, h))
        | inr (p, q) ↦ l.cpu_ended k x y h e q z
      ];
  ld_ended = λ y f z. elim (get_elem?-set m.timer.dev_list ld_event ld_event (signal a d) y f) [
    | inl (p, q) ↦ ap (λ (v : Device). v.mode) q ∙ signal-Ended jobs a d z
    | inr (p, q) ↦ absurd (p refl)
  ];
}

length-attached : (n : ℕ) → length (attached n) ≡ n
unfolding attached
length-attached zero = refl
length-attached (suc n) = ap suc (length-attached n)

replicated : {A : Type 0} → (n i : ℕ) (a x : A) → get_elem? (replicate n a) i ≡ some x → a ≡ x
replicated zero i a x e = cc e
replicated (suc n) zero a x e = some-injective a x e
replicated (suc n) (suc i) a x e = replicated n i a x e

module _ (phy : MemphyOps) (stale time_slot n : ℕ) where
  Step-Linked : (m u : Machine) → Step phy stale time_slot n m u → Linked n m → Linked n u
  Step-Linked m u (times t e q) l = subst (Linked n) (sym q) (
      SameModes-Linked n m t
        (timer_next-SameModes m.timer.phase m.timer.dev_list m.timer.time m.timer.timer_stop t e) l)
  Step-Linked m u (wakes j d d' at w e q) l =
      subst (Linked n) (sym q) (wakes-Linked n m j d d' at w l)
  Step-Linked m u (runs i c d w' c' a b at dev w e q) l =
      subst (Linked n) (sym q) (runs-Linked n m i d w' c' a b l)
  Step-Linked m u (loads stale_list jobs d w' jobs' a j f dev w e q) l =
      subst (Linked n) (sym q) (loads-Linked n m d w' jobs' a l)

  pub Reach-Linked : (m : Machine) → Reach phy stale time_slot n m → Linked n m
  unfolding start_timer
  Reach-Linked m (boots w jobs e) = record {
    all_cpus = length-replicate n (some new_cpu);
    all_devices = length-attached (suc n);
    cpu_ended = λ i x d h f g z. cc (replicated n i (some new_cpu) x f, z);
    ld_ended = λ d g z. cc z;
  }
  Reach-Linked m (next {m = p} r st) = Step-Linked p m st (Reach-Linked p r)
