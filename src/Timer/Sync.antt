-- ===== src/Timer/Sync.antt =====
-- Which time slot the device of src/timer.c is in, at each point of the timer's loop, and that the
-- steps of devices keep it.
use simple_operating_system.Common.{
  ℕ, zero, suc, ◌%◌, ◌≤◌, ◌<◌, ◌≡◌, ◌≢◌, ◌⊎◌, inl, inr, refl, sym, subst, true, false, none, some,
  List, [], ◌∷◌, get_elem?, get_elem?-set, set, arith, Bool-cases,
}
use mathlib.Core.Option.{some-injective}
use simple_operating_system.Mm.{word}
use simple_operating_system.Timer.{
  working, waiting, gone, Device, Phase, idle, top, ended, halted, collect, release, next_slot_tell,
  next_slot_wait, detach_event,
}

abbrev pub Gone : Device → Type 0
Gone d = (d.mode ≡ gone) × (d.fsh ≡ true)

-- A device that waits, with its word to the timer or after the timer has taken it back.
abbrev pub Told : ℕ → Device → Type 0
Told t d = (d.mode ≡ waiting) × (d.done ≡ true) × (d.fsh ≡ false) × (d.slot ≡ t)

abbrev pub Released : ℕ → Device → Type 0
Released t d = (d.mode ≡ waiting) × (d.done ≡ false) × (d.fsh ≡ false) × (suc d.slot % word ≡ t)

abbrev pub Busy : ℕ → Device → Type 0
Busy t d = (d.mode ≡ working) × (d.done ≡ false) × (d.fsh ≡ false) × (d.slot ≡ t)

-- A device in slot t, or about to return to it.
abbrev pub InSlot : ℕ → Device → Type 0
InSlot t d = Gone d ⊎ (Told t d ⊎ (Released t d ⊎ Busy t d))

-- A device that keeps nobody waiting.
abbrev pub Arrived : ℕ → Device → Type 0
Arrived t d = Gone d ⊎ Told t d

abbrev pub Each : (ℕ → Device → Type 0) → List Device → Type 0
Each P ds = (j : ℕ) (d : Device) → get_elem? ds j ≡ some d → P j d

abbrev pub Collected : (i fsh event t : ℕ) → ℕ → Device → Type 0
Collected i fsh event t j d = InSlot t d × (j < i → Arrived t d) × (j < i → fsh ≡ event → Gone d)

abbrev pub Freed : (i fsh event t0 t : ℕ) → ℕ → Device → Type 0
Freed i fsh event t0 t j d = (j < i → InSlot t d) × (i ≤ j → Arrived t0 d) × (fsh ≡ event → Gone d)

-- What holds at each point of the timer's loop.
abbrev pub Sync : Phase → ℕ → List Device → Type 0
Sync idle t ds = Each (λ j d. InSlot t d) ds
Sync top t ds = Each (λ j d. InSlot t d) ds
Sync halted t ds = Each (λ j d. InSlot t d) ds
Sync ended t ds = Each (λ j d. InSlot t d × Gone d) ds
Sync (collect i fsh event) t ds = (fsh ≤ event) × Each (Collected i fsh event t) ds
Sync (release i fsh event) t ds = (t0 : ℕ) × (suc t0 % word ≡ t) × Each (Freed i fsh event t0 t) ds

pub get_elem?-none :
    (ds : List Device) (i j : ℕ) (d : Device)
    → get_elem? ds i ≡ none
    → get_elem? ds j ≡ some d
    → j < i
get_elem?-none [] i j d h e = cc
get_elem?-none (x ∷ ds) zero j d h e = cc
get_elem?-none (x ∷ ds) (suc i) zero d h e = omega arith
get_elem?-none (x ∷ ds) (suc i) (suc j) d h e = omega (arith, get_elem?-none ds i j d h e)

-- A property of each device after one of them has been replaced.
pub Each-set :
    (P Q : ℕ → Device → Type 0) (ds : List Device) (i : ℕ) (d v : Device)
    → get_elem? ds i ≡ some d
    → (P i d → Q i v)
    → ((j : ℕ) (x : Device) → i ≢ j → P j x → Q j x)
    → Each P ds
    → Each Q (set ds i v)
Each-set P Q ds i d v at f g h j x e = elim (get_elem?-set ds i j v x e) [
  | inl (a, b) ↦ subst (λ (z : ℕ). Q z x) a (subst (Q i) (sym b) (f (h i d at)))
  | inr (n, b) ↦ g j x n (h j x b)
]

-- What a device may do in its thread for the barrier to stay.
abbrev pub Moves : Device → Device → Type 0
Moves d v = ((t : ℕ) → InSlot t d → InSlot t v) × ((t : ℕ) → Arrived t d → ⊥)

pub Moves-Sync :
    (p : Phase) (t : ℕ) (ds : List Device) (i : ℕ) (d v : Device)
    → get_elem? ds i ≡ some d
    → Moves d v
    → Sync p t ds
    → Sync p t (set ds i v)
Moves-Sync idle t ds i d v at m s =
    Each-set (λ j. InSlot t) (λ j. InSlot t) ds i d v at (m.0 t) (λ j x n h. h) s
Moves-Sync top t ds i d v at m s =
    Each-set (λ j. InSlot t) (λ j. InSlot t) ds i d v at (m.0 t) (λ j x n h. h) s
Moves-Sync halted t ds i d v at m s =
    Each-set (λ j. InSlot t) (λ j. InSlot t) ds i d v at (m.0 t) (λ j x n h. h) s
Moves-Sync ended t ds i d v at m s =
    Each-set (λ j x. InSlot t x × Gone x) (λ j x. InSlot t x × Gone x) ds i d v at
      (λ h. absurd (m.1 t (inl h.1))) (λ j x n h. h) s
Moves-Sync (collect k f e) t ds i d v at m s = (
  s.0,
  Each-set (Collected k f e t) (Collected k f e t) ds i d v at
      (λ h. (m.0 t h.0, (λ l. absurd (m.1 t (h.1 l))), (λ l q. absurd (m.1 t (h.1 l)))))
      (λ j x n h. h) s.1,
)
Moves-Sync (release k f e) t ds i d v at m (t0, w, s) = (
  t0,
  w,
  Each-set (Freed k f e t0 t) (Freed k f e t0 t) ds i d v at
      (λ h.
        ((λ l. m.0 t (h.0 l)), (λ l. absurd (m.1 t0 (h.1 l))), (λ q. absurd (m.1 t (inl (h.2 q))))))
      (λ j x n h. h) s,
)

pub tells-Moves : (d : Device) → d.mode ≡ working → Moves d (next_slot_tell d)
unfolding next_slot_tell
tells-Moves d h = (λ t s. moved t s, λ t a. stuck t a)
  where
    moved : (t : ℕ) → InSlot t d → InSlot t (record d { done = true; mode = waiting })
    moved t (inl g) = cc (h, g.0)
    moved t (inr (inl g)) = cc (h, g.0)
    moved t (inr (inr (inl g))) = cc (h, g.0)
    moved t (inr (inr (inr g))) = inr (inl (refl, refl, g.2, g.3))

    stuck : (t : ℕ) → Arrived t d → ⊥
    stuck t (inl g) = cc (h, g.0)
    stuck t (inr g) = cc (h, g.0)

pub detaches-Moves : (d : Device) → d.mode ≡ working → Moves d (detach_event d)
unfolding detach_event
detaches-Moves d h = (λ t s. inl (refl, refl), λ t a. stuck t a)
  where
    stuck : (t : ℕ) → Arrived t d → ⊥
    stuck t (inl g) = cc (h, g.0)
    stuck t (inr g) = cc (h, g.0)

pub wakes-Moves : (d v : Device) → d.mode ≡ waiting → next_slot_wait d ≡ some v → Moves d v
unfolding next_slot_wait
wakes-Moves d v h w = elim (Bool-cases d.done) [
  | inl e ↦ cc (rw e at w)
  | inr e ↦
      let woken : Device = record d { done = false; mode = working; slot = suc d.slot % word } in
      let same : woken ≡ v = some-injective woken v (rw e at w) in
      (λ t s. subst (InSlot t) same (moved e t s), λ t a. stuck e t a)
]
  where
    moved :
        d.done ≡ false
        → (t : ℕ) → InSlot t d
        → InSlot t (record d { done = false; mode = working; slot = suc d.slot % word })
    moved e t (inl g) = cc (h, g.0)
    moved e t (inr (inl g)) = cc (e, g.1)
    moved e t (inr (inr (inl g))) = inr (inr (inr (refl, refl, g.2, g.3)))
    moved e t (inr (inr (inr g))) = cc (h, g.0)

    stuck : d.done ≡ false → (t : ℕ) → Arrived t d → ⊥
    stuck e t (inl g) = cc (h, g.0)
    stuck e t (inr g) = cc (e, g.1)
