-- ===== src/Timer/Loop.antt =====
-- The steps of the timer of src/timer.c keep every device in its time slot.
use simple_operating_system.Common.{
  ℕ, zero, suc, ◌%◌, ◌≡◌, inl, inr, refl, sym, ap, subst, ◌∙◌, Bool, true, false, ◌||◌, none, some,
  List, ◌==◌, if◌then◌else◌, get_elem?, set, arith, Bool-cases, Option-cases,
}
use mathlib.Core.Option.{some-injective}
use native.Mathlib.Decide.{ℕ_discrete}
use simple_operating_system.Mm.{word}
use simple_operating_system.Timer.{
  Device, Phase, idle, top, ended, halted, collect, release, Timer, new_device, start_timer,
  stop_timer, collect_device, release_device, timer_next, Step, ticks, tells, wakes, detaches,
  stops, joins, join_timer, attached, Reach, here, next,
}
use simple_operating_system.Timer.Sync.{
  Gone, InSlot, Arrived, Each, Collected, Freed, Sync, get_elem?-none, Each-set, Moves-Sync,
  tells-Moves, detaches-Moves, wakes-Moves,
}

-- The steps of the timer's own thread.
ticks-top :
    (t : Timer)
    → Sync top t.time t.dev_list
    → (b : Bool) → Sync (if b then halted else collect 0 0 0) t.time t.dev_list
ticks-top t s true = s
ticks-top t s false = (
  omega arith,
  λ j d e. (s j d e, (λ l. absurd (omega (arith, l))), (λ l. absurd (omega (arith, l)))),
)

ticks-collect :
    (i f e : ℕ) (t : ℕ) (ds : List Device) (d : Device)
    → get_elem? ds i ≡ some d
    → Sync (collect i f e) t ds
    → (d.done || d.fsh) ≡ true
    → Sync (collect (suc i) (if d.fsh then suc f else f) (suc e)) t ds
ticks-collect i f e t ds d at (le, s) h = (ground arith, λ j x g. step j x g (s j x g))
  where
    here_arrived : InSlot t d → Arrived t d
    here_arrived (inl g) = inl g
    here_arrived (inr (inl g)) = inr g
    here_arrived (inr (inr (inl g))) = cc (h, g.1, g.2)
    here_arrived (inr (inr (inr g))) = cc (h, g.1, g.2)

    counted : (if d.fsh then suc f else f) ≡ suc e → (d.fsh ≡ true) × (f ≡ e)
    counted q = ground arith

    here_gone : InSlot t d → d.fsh ≡ true → Gone d
    here_gone (inl g) q = g
    here_gone (inr (inl g)) q = cc (q, g.2)
    here_gone (inr (inr (inl g))) q = cc (q, g.2)
    here_gone (inr (inr (inr g))) q = cc (q, g.2)

    step :
        (j : ℕ) (x : Device)
        → get_elem? ds j ≡ some x
        → Collected i f e t j x
        → Collected (suc i) (if d.fsh then suc f else f) (suc e) t j x
    step j x g (a, b, c) = elim (ℕ_discrete i j) [
      | yes z ↦
          let same : d ≡ x = some-injective d x (sym at ∙ ap (get_elem? ds) z ∙ g) in
          (
            a,
            (λ l. subst (Arrived t) same (here_arrived (subst (InSlot t) (sym same) a))),
            (λ l q. subst Gone same (here_gone (subst (InSlot t) (sym same) a) ((counted q).0))),
          )
      | no n ↦ (a, (λ l. b (omega (arith, n))), (λ l q. c (omega (arith, n)) ((counted q).1)))
    ]

ticks-collected :
    (i f e t : ℕ) (ds : List Device)
    → get_elem? ds i ≡ none
    → Sync (collect i f e) t ds
    → Sync (release 0 f e) (suc t % word) ds
ticks-collected i f e t ds none_left (le, s) = (
  t,
  refl,
  λ j d g.
      let l = get_elem?-none ds i j d none_left g in
      ((λ z. absurd (omega (arith, z))), (λ z. (s j d g).1 l), (λ q. (s j d g).2 l q)),
)

ticks-release :
    (i f e t : ℕ) (ds : List Device) (d : Device)
    → get_elem? ds i ≡ some d
    → Sync (release i f e) t ds
    → Sync (release (suc i) f e) t (set ds i (record d { done = false }))
ticks-release i f e t ds d at (t0, w, s) = (
  t0,
  w,
  Each-set (Freed i f e t0 t) (Freed (suc i) f e t0 t) ds i d (record d { done = false }) at
      (λ h. ((λ l. freed (h.1 (omega arith))), (λ l. absurd (omega (arith, l))), h.2))
      (λ j x n h. ((λ l. h.0 (omega (arith, n))), (λ l. h.1 (omega arith)), h.2)) s,
)
  where
    freed : Arrived t0 d → InSlot t (record d { done = false })
    freed (inl g) = inl g
    freed (inr g) = inr (inr (inl (g.0, refl, g.2, ap (λ (x : ℕ). suc x % word) g.3 ∙ w)))

ticks-released :
    (i f e t : ℕ) (ds : List Device)
    → get_elem? ds i ≡ none
    → Sync (release i f e) t ds
    → (b : Bool) → (f == e) ≡ b
    → Sync (if b then ended else top) t ds
ticks-released i f e t ds none_left (t0, w, s) true h =
    λ j d g. ((s j d g).0 (get_elem?-none ds i j d none_left g), (s j d g).2 (ground arith))
ticks-released i f e t ds none_left (t0, w, s) false h =
    λ j d g. (s j d g).0 (get_elem?-none ds i j d none_left g)

abbrev pub IsSync : Timer → Type 0
IsSync t = Sync t.phase t.time t.dev_list

to_next : (u v : Timer) → some u ≡ some v → IsSync u → IsSync v
to_next u v e s = subst IsSync (some-injective u v e) s

ticks_at :
    (p : Phase) (ds : List Device) (t : ℕ) (stop : Bool) (u : Timer)
    → timer_next (record { dev_list = ds; time = t; timer_stop = stop; phase = p }) ≡ some u
    → Sync p t ds
    → IsSync u
unfolding timer_next collect_device release_device
ticks_at idle ds t stop u e s = cc e
ticks_at ended ds t stop u e s = cc e
ticks_at halted ds t stop u e s = cc e
ticks_at top ds t stop u e s =
    to_next _ u e
      (ticks-top (record { dev_list = ds; time = t; timer_stop = stop; phase = top }) s stop)
ticks_at (collect i f ev) ds t stop u e s = elim (Option-cases (get_elem? ds i)) [
  | inl n ↦ to_next _ u (rw (n, timer_next) at e) (ticks-collected i f ev t ds n s)
  | inr (d, at) ↦ elim (Bool-cases (d.done || d.fsh)) [
    | inl h ↦ to_next _ u (rw (at, timer_next, h) at e) (ticks-collect i f ev t ds d at s h)
    | inr h ↦ cc (rw (at, timer_next, h) at e)
  ]
]
ticks_at (release i f ev) ds t stop u e s = elim (Option-cases (get_elem? ds i)) [
  | inl n ↦ to_next _ u (rw (n, timer_next) at e) (ticks-released i f ev t ds n s (f == ev) refl)
  | inr (d, at) ↦ to_next _ u (rw (at, timer_next) at e) (ticks-release i f ev t ds d at s)
]

joins_at :
    (p : Phase) (ds : List Device) (t : ℕ) (stop : Bool) (u : Timer)
    → join_timer (record { dev_list = ds; time = t; timer_stop = stop; phase = p }) ≡ some u
    → IsSync u
unfolding join_timer
joins_at idle ds t stop u e = cc e
joins_at top ds t stop u e = cc e
joins_at (collect i f ev) ds t stop u e = cc e
joins_at (release i f ev) ds t stop u e = cc e
joins_at ended ds t stop u e = to_next _ u e (λ j d g. cc g)
joins_at halted ds t stop u e = to_next _ u e (λ j d g. cc g)

Step-Sync : {t u : Timer} → Step t u → IsSync t → IsSync u
unfolding stop_timer
Step-Sync {t} {u} (ticks e) s = ticks_at t.phase t.dev_list t.time t.timer_stop u e s
Step-Sync {t} {u} (tells i d at h e) s =
    subst IsSync (sym e) (Moves-Sync t.phase t.time t.dev_list i d _ at (tells-Moves d h) s)
Step-Sync {t} {u} (wakes i d d' at h w e) s =
    subst IsSync (sym e) (Moves-Sync t.phase t.time t.dev_list i d d' at (wakes-Moves d d' h w) s)
Step-Sync {t} {u} (detaches i d at h e) s =
    subst IsSync (sym e) (Moves-Sync t.phase t.time t.dev_list i d _ at (detaches-Moves d h) s)
Step-Sync {t} {u} (stops e) s = subst IsSync (sym e) s
Step-Sync {t} {u} (joins e) s = joins_at t.phase t.dev_list t.time t.timer_stop u e

attached-InSlot : (n : ℕ) → Each (λ j d. InSlot 0 d) (attached n)
unfolding attached
attached-InSlot zero j d e = cc
attached-InSlot (suc n) zero d e =
    subst (InSlot 0) (some-injective new_device d e) (inr (inr (inr (refl, refl, refl, refl))))
attached-InSlot (suc n) (suc j) d e = attached-InSlot n j d e

pub Reach-IsSync : {n : ℕ} {t : Timer} → Reach n t → IsSync t
unfolding start_timer
Reach-IsSync {n} here = attached-InSlot n
Reach-IsSync (next r st) = Step-Sync st (Reach-IsSync r)
