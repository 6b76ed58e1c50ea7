-- ===== src/Timer/Rounds.antt =====
-- A round of the timer: when every device has arrived, it opens the next time slot for all of them.
use simple_operating_system.Common.{
  ℕ, zero, suc, ◌+◌, ◌%◌, ◌<◌, ◌≡◌, ◌⊎◌, inl, inr, refl, sym, subst, Bool, true, false, ◌||◌, none,
  some, List, [], ◌∷◌, ◌==◌, if◌then◌else◌, get_elem?, set, length, arith, Option-cases,
}
use simple_operating_system.Mm.{word}
use simple_operating_system.Timer.{
  Device, Phase, top, ended, collect, release, Timer, collect_device, release_device, timer_next,
}
use simple_operating_system.Timer.Sync.{Arrived, Each, Each-set, get_elem?-none}

-- Steps of the timer's thread alone.
pub data Ticks : Timer → Timer → Type 0 where
  stay : {t : Timer} → Ticks t t
  more : {t u v : Timer} → timer_next t ≡ some u → Ticks u v → Ticks t v

Ticks-trans : {t u v : Timer} → Ticks t u → Ticks u v → Ticks t v
Ticks-trans stay q = q
Ticks-trans (more e p) q = more e (Ticks-trans p q)

abbrev at_phase : List Device → ℕ → Phase → Timer
at_phase ds t p = record { dev_list = ds; time = t; timer_stop = false; phase = p }

has_told : (t : ℕ) (d : Device) → Arrived t d → (d.done || d.fsh) ≡ true
has_told t d (inl g) = ground arith
has_told t d (inr g) = ground arith

get_elem?-length : (ds : List Device) → get_elem? ds (length ds) ≡ none
get_elem?-length [] = refl
get_elem?-length (d ∷ ds) = get_elem?-length ds

none_after_set :
    (ds : List Device) (i j : ℕ) (v : Device)
    → get_elem? ds j ≡ none
    → get_elem? (set ds i v) j ≡ none
none_after_set [] i j v e = refl
none_after_set (d ∷ ds) zero zero v e = cc e
none_after_set (d ∷ ds) zero (suc j) v e = e
none_after_set (d ∷ ds) (suc i) zero v e = cc e
none_after_set (d ∷ ds) (suc i) (suc j) v e = none_after_set ds i j v e

collects :
    (r i f e t : ℕ) (ds : List Device)
    → get_elem? ds (i + r) ≡ none
    → Each (λ j d. Arrived t d) ds
    → (f' : ℕ) × (e' : ℕ) × Ticks
        (at_phase ds t (collect i f e))
        (at_phase ds (suc t % word) (release 0 f' e'))
unfolding timer_next collect_device
collects zero i f e t ds n a =
    let i0 : i + 0 ≡ i = omega arith in
    let n' : get_elem? ds i ≡ none = rw i0 at n in (f, e, more (rw (n', timer_next) refl) stay)
collects (suc r) i f e t ds n a = elim (Option-cases (get_elem? ds i)) [
  | inl n' ↦ (f, e, more (rw (n', timer_next) refl) stay)
  | inr (d, at) ↦
      let step : i + suc r ≡ suc i + r = omega arith in
      let (f', e', p) =
        collects r (suc i) (if d.fsh then suc f else f) (suc e) t ds (rw step at n) a in
      (f', e', more (rw (at, timer_next, has_told t d (a i d at)) refl) p)
]

abbrev pub Open : Phase → Type 0
Open p = (p ≡ top) ⊎ (p ≡ ended)

after : (b : Bool) → Open (if b then ended else top)
after true = inr refl
after false = inl refl

-- What the second loop comes to.
abbrev AllReleased : (i f e t : ℕ) → List Device → Type 0
AllReleased i f e t ds =
    (ds' : List Device) × (p : Phase) × Ticks (at_phase ds t (release i f e)) (at_phase ds' t p)
    × Open p
    × Each (λ j d. d.done ≡ false) ds'

released_end :
    (i f e t : ℕ) (ds : List Device)
    → get_elem? ds i ≡ none
    → Each (λ j d. j < i → d.done ≡ false) ds
    → AllReleased i f e t ds
unfolding timer_next
released_end i f e t ds n a = (
  ds,
  if f == e then ended else top,
  more (rw (n, timer_next) refl) stay,
  after (f == e),
  λ j d g. a j d g (get_elem?-none ds i j d n g),
)

releases :
    (r i f e t : ℕ) (ds : List Device)
    → get_elem? ds (i + r) ≡ none
    → Each (λ j d. j < i → d.done ≡ false) ds
    → AllReleased i f e t ds
unfolding timer_next release_device
releases zero i f e t ds n a =
    let i0 : i + 0 ≡ i = omega arith in released_end i f e t ds (rw i0 at n) a
releases (suc r) i f e t ds n a = elim (Option-cases (get_elem? ds i)) [
  | inl n' ↦ released_end i f e t ds n' a
  | inr (d, at) ↦
      let step : i + suc r ≡ suc i + r = omega arith in
      let v : Device = record d { done = false } in
      let (ds', p, q, o, b) =
        releases r (suc i) f e t (set ds i v) (none_after_set ds i (suc i + r) v (rw step at n)) (
          Each-set (λ j x. j < i → x.done ≡ false) (λ j x. j < suc i → x.done ≡ false) ds i d v at
            (λ h l. refl) (λ j x m h l. h (omega (arith, m))) a) in
      (ds', p, more (rw (at, timer_next) refl) q, o, b)
]

-- When the timer is at the top of its loop, has not been stopped, and every device has called
-- `next_slot` or is detached, it runs through a whole round without waiting: the time grows by one,
-- no device is held any longer, and it is at the top again or, past the `break`, at its end.
pub timer_round :
    (t : Timer)
    → t.phase ≡ top
    → t.timer_stop ≡ false
    → Each (λ j d. Arrived t.time d) t.dev_list
    → (u : Timer) × Ticks t u
      × (u.time ≡ suc t.time % word)
      × ((u.phase ≡ top) ⊎ (u.phase ≡ ended))
      × Each (λ j d. d.done ≡ false) u.dev_list
unfolding timer_next
timer_round t p s a =
    let n = get_elem?-length t.dev_list in
    let (f, e, q) = collects (length t.dev_list) 0 0 0 t.time t.dev_list (rw zero_add n) a in
    let (ds, p', r, o, b) =
      releases (length t.dev_list) 0 f e (suc t.time % word) t.dev_list (rw zero_add n)
        (λ j d g l. absurd (omega (arith, l))) in
    let same : at_phase t.dev_list t.time top ≡ t =
      λ i. record t { phase = sym p i; timer_stop = sym s i } in
    (
      at_phase ds (suc t.time % word) p',
      subst (λ (x : Timer). Ticks x (at_phase ds (suc t.time % word) p')) same
          (more refl (Ticks-trans q r)),
      refl,
      o,
      b,
    )
  where
    zero_add : 0 + length t.dev_list ≡ length t.dev_list
    zero_add = omega arith
