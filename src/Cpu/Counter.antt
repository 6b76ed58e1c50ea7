-- ===== src/Cpu/Counter.antt =====
-- The program counter under `run` of src/cpu.c.
use simple_operating_system.Common.{
  ℕ, suc, ◌%◌, ◌^◌, ◌≡◌, ◌≢◌, refl, sym, ap, subst, ◌∙◌, inl, inr, true, false, Option, none, some,
  ◌==◌, ltb, leb, arith, Bool-cases, Option-cases, ℤ, get_elem?, get_or,
}
use mathlib.Core.Option.{some-injective}
use simple_operating_system.Mm.{Krnl}
use simple_operating_system.Phy.{MemphyOps}
use simple_operating_system.Process.{
  Opcode, calc, alloc, free, read, write, syscall, Inst, Pcb, Caller, num_regs,
}
use simple_operating_system.Queue.{Ptr, to_list}
use simple_operating_system.World.{World, caller_of, store_caller, deref}
use simple_operating_system.Libmem.{alloc_region}
use simple_operating_system.Calls.{set_reg, keep_address, liballoc, libfree, libread, libwrite}
use simple_operating_system.Syscall.{
  ScRegs, find_caller, sys_mmstats, memmap_op, sys_memmap, libsyscall,
}
use simple_operating_system.Syscall
use simple_operating_system.Cpu.{stored, keep_value, advance, execute, run}

-- Two control blocks at the same place of the same program.
abbrev SamePlace : Pcb → Pcb → Type 0
SamePlace b b' = (b'.pc ≡ b.pc) × (b'.code ≡ b.code)

abbrev Kept : World → World → Type 0
Kept w w' = (w'.sched ≡ w.sched) × ((q : Ptr) → SamePlace (w.procs q) (w'.procs q))

store_caller-Kept :
    (w : World) (p : Ptr) (c : Caller) → SamePlace (w.procs p) c.proc → Kept w (store_caller w p c)
unfolding store_caller
store_caller-Kept w p c s = (refl, places)
  where
    places : (q : Ptr) → SamePlace (w.procs q) ((store_caller w p c).procs q)
    places q = elim (Bool-cases (q == p)) [
      | inl e ↦ let same : q ≡ p = ground arith in rw (e, same) s
      | inr e ↦ rw e (refl, refl)
    ]

stored-Kept :
    (w : World) (p : Ptr) (r : Option (Caller × ℤ)) (t : World × ℤ)
    → ((c : Caller) → (s : ℤ) → r ≡ some (c, s) → SamePlace (w.procs p) c.proc)
    → stored w p r ≡ some t
    → Kept w t.0
unfolding stored
stored-Kept w p none t h e = cc e
stored-Kept w p (some (c, s)) t h e =
    subst (λ (x : World × ℤ). Kept w x.0) (some-injective _ t e)
      (store_caller-Kept w p c (h c s refl))

set_reg-SamePlace : (b : Pcb) (i v : ℕ) (b' : Pcb) → set_reg b i v ≡ some b' → SamePlace b b'
unfolding set_reg
set_reg-SamePlace b i v b' e = elim (Bool-cases (ltb i num_regs)) [
  | inl h ↦ subst (SamePlace b) (some-injective _ _ (rw h at e)) (refl, refl)
  | inr h ↦ cc (rw h at e)
]

-- What a call gives has the place of what it is.
same_out :
    (b : Pcb) (r : Caller × ℤ) (c : Caller) (s : ℤ)
    → some r ≡ some (c, s)
    → SamePlace b r.0.proc
    → SamePlace b c.proc
same_out b r c s e h = subst (λ (x : Caller × ℤ). SamePlace b x.0.proc) (some-injective _ _ e) h

keep_address-SamePlace :
    (b : Pcb) (i : ℕ) (r : Krnl × Option ℕ) (c : Caller) (s : ℤ)
    → keep_address b i r ≡ some (c, s)
    → SamePlace b c.proc
unfolding keep_address
keep_address-SamePlace b i (k, none) c s e = same_out b _ c s e (refl, refl)
keep_address-SamePlace b i (k, some addr) c s e = elim (Option-cases (set_reg b i addr)) [
  | inl n ↦ cc (rw (n, keep_address) at e)
  | inr (b', n) ↦ same_out b _ c s (rw (n, keep_address) at e) (set_reg-SamePlace b i addr b' n)
]

liballoc-SamePlace :
    (phy : MemphyOps) (d : Caller) (size i : ℕ) (c : Caller) (s : ℤ)
    → liballoc phy d size i ≡ some (c, s)
    → SamePlace d.proc c.proc
unfolding liballoc
liballoc-SamePlace phy d size i c s e =
    keep_address-SamePlace d.proc i (alloc_region phy d.krnl 0 i size) c s e

keep_value-SamePlace :
    (i : ℕ) (r : Caller × Option ℕ) (c : Caller) (s : ℤ)
    → keep_value i r ≡ some (c, s)
    → SamePlace r.0.proc c.proc
unfolding keep_value
keep_value-SamePlace i (d, none) c s e = same_out d.proc _ c s e (refl, refl)
keep_value-SamePlace i (d, some v) c s e = elim (Option-cases (set_reg d.proc i v)) [
  | inl n ↦ cc (rw (n, keep_value) at e)
  | inr (b', n) ↦
      same_out d.proc _ c s (rw (n, keep_value) at e) (set_reg-SamePlace d.proc i v b' n)
]

libfree-SamePlace :
    (d : Caller) (i : ℕ) (c : Caller) (s : ℤ) → libfree d i ≡ some (c, s) → SamePlace d.proc c.proc
unfolding libfree
libfree-SamePlace d i c s e = elim (Bool-cases (leb num_regs i)) [
  | inl h ↦ cc (rw h at e)
  | inr h ↦ elim (Bool-cases (get_or d.proc.regs i 0 == 0)) [
    | inl z ↦ same_out d.proc _ c s (rw (h, z) at e) (refl, refl)
    | inr z ↦ same_out d.proc _ c s (rw (h, z) at e) (refl, refl)
  ]
]

-- What a step gives keeps what it is.
step_out : (w : World) (r r' : World × ℤ) → some r ≡ some r' → Kept w r.0 → Kept w r'.0
step_out w r r' e h = subst (λ (x : World × ℤ). Kept w x.0) (some-injective r r' e) h

call_out : (w : World) (r r' : World × ScRegs × ℤ) → some r ≡ some r' → Kept w r.0 → Kept w r'.0
call_out w r r' e h = subst (λ (x : World × ScRegs × ℤ). Kept w x.0) (some-injective r r' e) h

module _ (phy : MemphyOps) (stale : ℕ) where
  sys_memmap-Kept :
      (w : World) (pid : ℕ) (regs : ScRegs) (r : World × ScRegs × ℤ)
      → sys_memmap phy stale w pid regs ≡ some r
      → Kept w r.0
  unfolding sys_memmap
  sys_memmap-Kept w pid regs r e = go (find_caller w pid (to_list w.sched.running_list)) refl
    where
      go :
          (o : Option (Option Ptr))
          → find_caller w pid (to_list w.sched.running_list) ≡ o
          → Kept w r.0
      go none h = cc (rw (h, sys_memmap) at e)
      go (some none) h = call_out w _ r (rw (h, sys_memmap) at e) (refl, (λ q. (refl, refl)))
      go (some (some p)) h = elim (Option-cases (memmap_op phy stale (caller_of w p).krnl regs)) [
        | inl n ↦ cc (rw (h, n, sys_memmap) at e)
        | inr (k, n) ↦
            call_out w _ r (rw (h, n, sys_memmap) at e)
              (store_caller-Kept w p (record { proc = w.procs p; krnl = k }) (refl, refl))
      ]

  syscall-Kept :
      (w : World) (pid nr : ℕ) (regs : ScRegs) (r : World × ScRegs × ℤ)
      → Syscall.syscall phy stale w pid nr regs ≡ some r
      → Kept w r.0
  unfolding Syscall.syscall
  syscall-Kept w pid nr regs r e = elim (Bool-cases (nr == 0)) [
    | inl h ↦ call_out w _ r (rw h at e) (refl, (λ q. (refl, refl)))
    | inr h ↦ elim (Bool-cases (nr == 17)) [
      | inl g ↦ sys_memmap-Kept w pid regs r (rw (h, g) at e)
      | inr g ↦ elim (Bool-cases (nr == 440)) [
        | inl k ↦ elim (Option-cases (sys_mmstats w regs)) [
          | inl n ↦ cc (rw (h, g, k, n, Syscall.syscall) at e)
          | inr (c, n) ↦
              call_out w _ r (rw (h, g, k, n, Syscall.syscall) at e) (refl, (λ q. (refl, refl)))
        ]
        | inr k ↦ call_out w _ r (rw (h, g, k) at e) (refl, (λ q. (refl, refl)))
      ]
    ]
  ]

  libsyscall-Kept :
      (w : World) (b : Pcb) (nr a1 a2 a3 : ℕ) (r : World × ℤ)
      → libsyscall phy stale w b nr a1 a2 a3 ≡ some r
      → Kept w r.0
  unfolding libsyscall
  libsyscall-Kept w b nr a1 a2 a3 r e =
      let regs : ScRegs = record { a1 = a1; a2 = a2; a3 = a3 } in
      elim (Option-cases (Syscall.syscall phy stale w b.pid (nr % 2 ^ 32) regs)) [
        | inl n ↦ cc (rw (n, libsyscall) at e)
        | inr (x, n) ↦
            step_out w _ r (rw (n, libsyscall) at e) (syscall-Kept w b.pid (nr % 2 ^ 32) regs x n)
      ]

  execute-Kept :
      (w : World) (p : Ptr) (op : Opcode) (x y z t : ℕ) (r : World × ℤ)
      → execute phy stale w p (record { opcode = op; arg_0 = x; arg_1 = y; arg_2 = z; arg_3 = t })
        ≡ some r
      → Kept w r.0
  unfolding execute libread libwrite
  execute-Kept w p calc x y z t r e = step_out w _ r e (refl, (λ q. (refl, refl)))
  execute-Kept w p alloc x y z t r e =
      stored-Kept w p _ r (λ c s h. liballoc-SamePlace phy (caller_of w p) x (y % 2 ^ 32) c s h) e
  execute-Kept w p free x y z t r e =
      stored-Kept w p _ r (λ c s h. libfree-SamePlace (caller_of w p) _ c s h) e
  execute-Kept w p read x y z t r e =
      stored-Kept w p _ r (λ c s h. keep_value-SamePlace z _ c s h) e
  execute-Kept w p write x y z t r e =
      stored-Kept w p _ r (λ c s h. same_out (w.procs p) _ c s h (refl, refl)) e
  execute-Kept w p syscall x y z t r e = libsyscall-Kept w (w.procs p) x y z t r e

  -- Running a process leaves the scheduler as it is.
  pub run-sched :
      (w : World) (p : Ptr) (r : World × ℤ) → run phy stale w p ≡ some r → r.0.sched ≡ w.sched
  unfolding run advance store_caller
  run-sched w p r e = elim (Option-cases (deref w p)) [
    | inl d ↦ cc (rw (d, run) at e)
    | inr (b, d) ↦ elim (Option-cases (get_elem? b.code b.pc)) [
      | inl g ↦ ap (λ (x : World × ℤ). x.0.sched) (sym (some-injective _ r (rw (d, run, g) at e)))
      | inr (ins, g) ↦
          (execute-Kept (advance w p) p ins.opcode ins.arg_0 ins.arg_1 ins.arg_2 ins.arg_3 r
            (rw (d, run, g) at e)).0
    ]
  ]

  -- While instructions are left, `run` counts one up on 32 bits and leaves the program as it is, whatever the
  -- instruction does; and it moves no other process.
  pub run-pc :
      (w : World) (p : Ptr) (b : Pcb) (ins : Inst) (r : World × ℤ)
      → deref w p ≡ some b
      → get_elem? b.code b.pc ≡ some ins
      → run phy stale w p ≡ some r
      → ((r.0.procs p).pc ≡ suc (w.procs p).pc % 2 ^ 32)
        × ((r.0.procs p).code ≡ (w.procs p).code)
        × ((q : Ptr) → q ≢ p → (r.0.procs q).pc ≡ (w.procs q).pc)
  unfolding run advance store_caller
  run-pc w p b ins r d g e =
      let k =
        execute-Kept (advance w p) p ins.opcode ins.arg_0 ins.arg_1 ins.arg_2 ins.arg_3 r
          (rw (d, run, g) at e) in
      let here : (p == p) ≡ true = ground arith in
      let moved : (advance w p).procs p ≡ record (w.procs p) { pc = suc (w.procs p).pc % 2 ^ 32 } =
        rw here refl in
      (
        (k.1 p).0 ∙ ap (λ (x : Pcb). x.pc) moved,
        (k.1 p).1 ∙ ap (λ (x : Pcb). x.code) moved,
        λ q n. let e : (q == p) ≡ false = ground (arith, n) in (k.1 q).0 ∙ rw e refl,
      )
