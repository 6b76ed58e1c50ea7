-- ===== src/Os/Exclusive.antt =====
-- No process is run by two processors of src/os.c.
use simple_operating_system.Common.{
  ℕ, ◌+◌, ◌≤◌, ◌≡◌, ◌≢◌, refl, sym, subst, ◌∙◌, inl, inr, some, ◌==◌, arith, Bool-cases,
  Option-cases, count, length,
}
use mathlib.Core.Option.{some-injective}
use simple_operating_system.Phy.{MemphyOps}
use simple_operating_system.Queue.{Ptr, null}
use simple_operating_system.Sched.{get_proc, put_proc}
use simple_operating_system.Sched.Levels.{waiting}
use simple_operating_system.Sched.Invariant.{IsValid, get_mlq_proc-IsValid, put_mlq_proc-IsValid}
use simple_operating_system.Sched.Conserve.{once, get_mlq_proc-waiting, put_mlq_proc-waiting}
use simple_operating_system.World.{World, deref, free_pcb}
use simple_operating_system.Cpu.{run}
use simple_operating_system.Cpu.Counter.{run-sched}
use simple_operating_system.Os.{Cpu, fetch, run_slot, dispatch}
use simple_operating_system.Os.Threads.{
  Point, at_top, looking, refilling, chosen, Core, enter, after_get, held_at, owned,
}
use simple_operating_system.Os.Iteration.{Iteration, result_out, some_process}

-- What an iteration does to the scheduler and the process of a processor: the scheduler stays valid,
-- and no process comes to wait or run more often than before.
abbrev pub Fair : World → Ptr → World → Ptr → Type 0
Fair w p w' p' =
    IsValid w'.sched
    × ((a : Ptr)
        → a ≢ null
        → count a (waiting w'.sched.mlq_ready_queue) + once p' a
          ≤ count a (waiting w.sched.mlq_ready_queue) + once p a)

pub null-once : (p a : Ptr) → p ≡ null → a ≢ null → once p a ≡ 0
null-once p a e n = let d : p ≢ a = λ z. n (sym z ∙ e) in ground (arith, d)

-- A processor whose process is NULL or gone takes the next one.
fetch-Fair : (w : World) (c : Cpu) → IsValid w.sched → Fair w null (fetch w c).0 (fetch w c).1.proc
unfolding fetch get_proc
fetch-Fair w c v =
    (get_mlq_proc-IsValid w.sched v, λ a n. omega (arith, get_mlq_proc-waiting w.sched a v n))

drop-Fair : (w : World) (p : Ptr) → IsValid w.sched → Fair w p w null
drop-Fair w p v = (v, λ a n. omega (arith, null-once null a refl n))

put-Fair :
    (w : World) (p : Ptr)
    → IsValid w.sched
    → p ≢ null
    → Fair w p (record w { sched = put_proc w.procs w.sched p }) null
unfolding put_proc
put-Fair w p v h = (
  put_mlq_proc-IsValid w.procs w.sched p v,
  λ a n. omega (arith, put_mlq_proc-waiting w.procs w.sched p a v h, null-once null a refl n),
)

entered :
    (w : World) (p : Ptr) (r r' : World × Core)
    → some r ≡ some r'
    → Fair w p r.0 (owned r.1)
    → Fair w p r'.0 (owned r'.1)
entered w p r r' e h =
    subst (λ (x : World × Core). Fair w p x.0 (owned x.1)) (some-injective r r' e) h

-- Up to `get_proc`, a processor may give its process up.
pub enter-Fair :
    (w : World) (c : Cpu) (w' : World) (k : Core)
    → IsValid w.sched
    → enter w c ≡ some (w', k)
    → Fair w c.proc w' (owned k)
unfolding enter free_pcb
enter-Fair w c w' k v e = elim (Bool-cases (c.proc == null)) [
  | inl n ↦ entered w c.proc _ (w', k) (rw n at e) (drop-Fair w c.proc v)
  | inr n ↦ elim (Option-cases (deref w c.proc)) [
    | inl d ↦ cc (rw (n, enter, d) at e)
    | inr (b, d) ↦ elim (Bool-cases (b.pc == length b.code)) [
      | inl m ↦ entered w c.proc _ (w', k) (rw (n, enter, d, m) at e) (drop-Fair w c.proc v)
      | inr m ↦ elim (Bool-cases (c.time_left == 0)) [
        | inl z ↦
            entered w c.proc _ (w', k) (rw (n, enter, d, m, z) at e)
              (put-Fair w c.proc v (some_process n))
        | inr z ↦ entered w c.proc _ (w', k) (rw (n, enter, d, m, z) at e) (v, (λ a l. omega arith))
      ]
    ]
  ]
]

after_get-owned :
    (p : Point) (c : Cpu) → p ≢ at_top → p ≢ chosen → held_at (after_get p c) c.proc ≡ c.proc
unfolding after_get
after_get-owned at_top c n m = refl
after_get-owned looking c n m = elim (Bool-cases (c.proc == null)) [
  | inl e ↦ rw e refl
  | inr e ↦ rw e refl
]
after_get-owned refilling c n m = refl
after_get-owned chosen c n m = refl

no_owner : (p : Point) (x : Ptr) → p ≢ at_top → p ≢ chosen → held_at p x ≡ null
no_owner at_top x n m = absurd (n refl)
no_owner looking x n m = refl
no_owner refilling x n m = refl
no_owner chosen x n m = absurd (m refl)

-- `get_proc` gives a processor that has no process the next one.
pub takes-Fair :
    (w : World) (k : Core)
    → IsValid w.sched
    → k.point ≢ at_top
    → k.point ≢ chosen
    → Fair w
        (owned k)
        (fetch w k.cpu).0
        (held_at (after_get k.point (fetch w k.cpu).1) (fetch w k.cpu).1.proc)
takes-Fair w k v n m =
    rw (no_owner k.point k.cpu.proc n m, after_get-owned k.point (fetch w k.cpu).1 n m)
      (fetch-Fair w k.cpu v)

module _ (phy : MemphyOps) (stale time_slot : ℕ) where
  -- An iteration's result that leaves the scheduler and the process as they are.
  abbrev pub Left : World → Cpu → Iteration → Type 0
  Left w c r = (r.0.sched ≡ w.sched) × (r.1.proc ≡ c.proc)

  run_slot-Left :
      (w : World) (c : Cpu) (r : Iteration) → run_slot phy stale time_slot w c ≡ some r → Left w c r
  unfolding run_slot
  run_slot-Left w c r e = elim (Option-cases (run phy stale w c.proc)) [
    | inl n ↦ cc (rw (n, run_slot) at e)
    | inr (x, n) ↦
        result_out (Left w c) _ r (rw (n, run_slot) at e) (run-sched phy stale w c.proc x n, refl)
  ]

  pub dispatch-Left :
      (w : World) (c : Cpu) (r : Iteration)
      → dispatch phy stale time_slot (w, c) ≡ some r
      → Left w c r
  unfolding dispatch
  dispatch-Left w c r e = elim (Bool-cases (c.proc == null)) [
    | inl h ↦ result_out (Left w c) _ r (rw h at e) (refl, refl)
    | inr h ↦ elim (Bool-cases (c.time_left == 0)) [
      | inl z ↦ run_slot-Left w (record c { time_left = time_slot }) r (rw (h, z) at e)
      | inr z ↦ run_slot-Left w c r (rw (h, z) at e)
    ]
  ]

  pub dispatch-Fair :
      (u : World) (p : Ptr) (w : World) (c : Cpu) (r : Iteration)
      → Fair u p w c.proc
      → dispatch phy stale time_slot (w, c) ≡ some r
      → Fair u p r.0 r.1.proc
  dispatch-Fair u p w c r f e =
      let (a, b) = dispatch-Left w c r e in (subst IsValid (sym a) f.0, λ x n. rw (a, b) (f.1 x n))
