-- ===== src/Cpu/Finish.antt =====
-- A process that `run` of src/cpu.c is called for until its end.
use simple_operating_system.Common.{
  ℕ, suc, ◌+◌, ◌^◌, ◌<◌, ◌≡◌, refl, sym, ap, ◌∙◌, inl, inr, some, List, arith, Option-cases, ℤ,
  get_elem?-below, length,
}
use simple_operating_system.Phy.{MemphyOps}
use simple_operating_system.Process.{Inst, Pcb}
use simple_operating_system.Queue.{Ptr}
use simple_operating_system.World.{World, deref}
use simple_operating_system.Cpu.{run}
use simple_operating_system.Cpu.Counter.{run-pc}
use simple_operating_system.Cpu.Memory.{deref-some}

-- The process is run a number of times, with whatever status.
pub data Runs (phy : MemphyOps) (stale : ℕ) (p : Ptr) : ℕ → World → World → Type 0 where
  over : {w : World} → Runs phy stale p 0 w w
  once_more :
      {n : ℕ} {w u v : World} (st : ℤ)
      → run phy stale w p ≡ some (u, st)
      → Runs phy stale p n u v
      → Runs phy stale p (suc n) w v

-- `run` is only defined for a process that is there.
run-deref :
    (phy : MemphyOps) (stale : ℕ) (w : World) (p : Ptr) (r : World × ℤ)
    → run phy stale w p ≡ some r
    → deref w p ≡ some (w.procs p)
unfolding run
run-deref phy stale w p r e = elim (Option-cases (deref w p)) [
  | inl d ↦ cc (rw (d, run) at e)
  | inr (b, d) ↦ d ∙ ap (λ (x : Pcb). some x) (sym (deref-some w p b d).0)
]

-- A process of fewer than 2^32 instructions that is run as often as it has instructions left stands
-- then exactly at the end of its program, whatever the instructions were and whether they succeeded.
pub Runs-finish :
    (phy : MemphyOps) (stale : ℕ) (p : Ptr) (n : ℕ) (w w' : World)
    → Runs phy stale p n w w'
    → (w.procs p).pc + n ≡ length (w.procs p).code
    → length (w.procs p).code < 2 ^ 32
    → ((w'.procs p).pc ≡ length (w'.procs p).code) × ((w'.procs p).code ≡ (w.procs p).code)
Runs-finish phy stale p n w w' over h l = (omega (arith, h), refl)
Runs-finish phy stale p n w w' (once_more {n = m} {u = u} st e rest) h l =
    let b = w.procs p in
    let (ins, g) = get_elem?-below b.code b.pc (omega (arith, h)) in
    let (pc, code, others) =
      run-pc phy stale w p b ins (u, st) (run-deref phy stale w p (u, st) e) g e in
    let long = ap (λ (c : List Inst). length c) code in
    let (ended, same) =
      Runs-finish phy stale p m u w' rest (omega (arith, pc, long, h, l))
        (omega (arith, long, l)) in
    (ended, same ∙ code)
