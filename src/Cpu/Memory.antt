-- ===== src/Cpu/Memory.antt =====
-- Two instructions of a process on memory, run by `run` of src/cpu.c one after the other.
use simple_operating_system.Common.{
  ℕ, suc, ◌%◌, ◌^◌, ◌<◌, ◌≡◌, ◌≢◌, refl, sym, ap, ◌∙◌, inl, inr, Bool, true, false, Option, some,
  set, ◌==◌, if◌then◌else◌, arith, Bool-cases, ℤ, success, get_elem?, contains, lt→ltb,
}
use mathlib.Core.Option.{some-injective}
use simple_operating_system.Phy.{MemphyOps}
use simple_operating_system.Phy.Laws.{MemphyLaws}
use simple_operating_system.Process.{Inst, read, write, Pcb, Caller, num_regs}
use simple_operating_system.Queue.{Ptr}
use simple_operating_system.World.{World, caller_of, store_caller, deref}
use simple_operating_system.Paging.Tree.{Owner}
use simple_operating_system.Libmem.{write_region, read_region}
use simple_operating_system.Libmem.Pages.{Pages}
use simple_operating_system.Libmem.Access.{write_region-read_region}
use simple_operating_system.Calls.{extend_byte, set_reg, libread, libwrite}
use simple_operating_system.Cpu.{stored, keep_value, advance, execute, run}
use simple_operating_system.Cpu.Counter.{run-pc}

-- What is put back is found.
caller_of-store_caller : (w : World) (p : Ptr) (c : Caller) → caller_of (store_caller w p c) p ≡ c
unfolding store_caller
caller_of-store_caller w p c =
    let here : (p == p) ≡ true = ground arith in
    λ i. record {
      proc = ap (λ (b : Bool). if b then c.proc else w.procs p) here i;
      krnl = record {
        mm = ap (λ (b : Bool). if b then c.krnl.mm else w.mms p) here i;
        mram = c.krnl.mram;
        active_mswp = c.krnl.active_mswp;
      };
    }

pub deref-some :
    (w : World) (p : Ptr) (b : Pcb)
    → deref w p ≡ some b
    → (w.procs p ≡ b) × (p ≢ 0) × (contains p w.freed ≡ false)
unfolding deref
deref-some w p b e = elim (Bool-cases (p == 0)) [
  | inl h ↦ cc (rw h at e)
  | inr h ↦ elim (Bool-cases (contains p w.freed)) [
    | inl g ↦ cc (rw (h, g) at e)
    | inr g ↦ (some-injective _ _ (rw (h, g) at e), (λ z. ground arith), g)
  ]
]

usable : (w : World) (p : Ptr) → p ≢ 0 → contains p w.freed ≡ false → deref w p ≡ some (w.procs p)
unfolding deref
usable w p n f = let e : (p == 0) ≡ false = ground (arith, n) in rw (e, f) refl

freed-stepped :
    (w : World) (p : Ptr) (c : Caller) → (store_caller (advance w p) p c).freed ≡ w.freed
unfolding store_caller advance
freed-stepped w p c = refl

module _ (phy : MemphyOps) (laws : MemphyLaws phy) (stale : ℕ) where
  -- The process after `proc->pc++`.
  abbrev pub stepped : World → Ptr → Caller
  stepped w p =
      let c = caller_of w p in record c { proc = record c.proc { pc = suc c.proc.pc % 2 ^ 32 } }

  run-fetched :
      (w : World) (p : Ptr) (b : Pcb) (ins : Inst)
      → deref w p ≡ some b
      → get_elem? b.code b.pc ≡ some ins
      → run phy stale w p ≡ execute phy stale (advance w p) p ins
  unfolding run
  run-fetched w p b ins d g = rw (d, run, g) refl

  pub run-write :
      (w : World) (p : Ptr) (b : Pcb) (v r o t : ℕ)
      → deref w p ≡ some b
      → get_elem? b.code b.pc
        ≡ some (record { opcode = write; arg_0 = v; arg_1 = r; arg_2 = o; arg_3 = t })
      → run phy stale w p
        ≡ stored (advance w p) p (some (libwrite phy (stepped w p) (v % 256) (r % 2 ^ 32) o))
  unfolding advance execute
  run-write w p b v r o t d g =
      run-fetched w p b _ d g ∙ rw (caller_of-store_caller w p (stepped w p)) refl

  run-libread :
      (w : World) (p : Ptr) (b : Pcb) (r o i t : ℕ)
      → deref w p ≡ some b
      → get_elem? b.code b.pc
        ≡ some (record { opcode = read; arg_0 = r; arg_1 = o; arg_2 = i; arg_3 = t })
      → run phy stale w p
        ≡ stored (advance w p) p (keep_value i (libread phy (stepped w p) (r % 2 ^ 32) o))
  unfolding advance execute
  run-libread w p b r o i t d g =
      run-fetched w p b _ d g ∙ rw (caller_of-store_caller w p (stepped w p)) refl

  libread-found :
      (c : Caller) (r o x : ℕ)
      → read_region phy c.krnl 0 r o ≡ (c.krnl, some x)
      → libread phy c r o ≡ (c, some (extend_byte x))
  unfolding libread
  libread-found c r o x q = rw q refl

  keep_value-register :
      (c : Caller) (i v : ℕ)
      → i < num_regs
      → keep_value i (c, some v)
        ≡ some (record c { proc = record c.proc { regs = set c.proc.regs i v } }, success)
  unfolding keep_value
  keep_value-register c i v h = rw (kept, keep_value) refl
    where
      kept : set_reg c.proc i v ≡ some (record c.proc { regs = set c.proc.regs i v })
      kept = unfold set_reg in rw (lt→ltb i num_regs h) refl

  run-read :
      (w : World) (p : Ptr) (b : Pcb) (r o i t x : ℕ)
      → deref w p ≡ some b
      → get_elem? b.code b.pc
        ≡ some (record { opcode = read; arg_0 = r; arg_1 = o; arg_2 = i; arg_3 = t })
      → i < num_regs
      → read_region phy (caller_of w p).krnl 0 (r % 2 ^ 32) o ≡ ((caller_of w p).krnl, some x)
      → (w' : World) × (run phy stale w p ≡ some (w', success))
        × ((w'.procs p).regs ≡ set (w.procs p).regs i (extend_byte x))
  unfolding stored
  run-read w p b r o i t x d g h q =
      let c = stepped w p in
      let regs = set c.proc.regs i (extend_byte x) in
      let c' : Caller = record c { proc = record c.proc { regs = regs } } in
      (
        store_caller (advance w p) p c',
        run-libread w p b r o i t d g
            ∙ ap (λ (z : Caller × Option ℕ). stored (advance w p) p (keep_value i z))
                (libread-found c (r % 2 ^ 32) o x q)
            ∙ ap (stored (advance w p) p) (keep_value-register c i (extend_byte x) h),
        ap (λ (z : Caller). z.proc.regs) (caller_of-store_caller (advance w p) p c'),
      )

  -- A WRITE instruction followed by a READ of the same region and offset into a register: when the
  -- pages of the process have frames of their own, both instructions are reached, and the WRITE
  -- succeeds, then the READ succeeds and the register holds the byte, with its sign extended.
  pub run-write_read :
      (own : Owner) (w w' : World) (p : Ptr) (b : Pcb) (v r o i t u : ℕ)
      → Pages own (caller_of w p).krnl
      → deref w p ≡ some b
      → get_elem? b.code b.pc
        ≡ some (record { opcode = write; arg_0 = v; arg_1 = r; arg_2 = o; arg_3 = t })
      → get_elem? b.code (suc b.pc)
        ≡ some (record { opcode = read; arg_0 = r; arg_1 = o; arg_2 = i; arg_3 = u })
      → suc b.pc < 2 ^ 32
      → i < num_regs
      → run phy stale w p ≡ some (w', success)
      → (w'' : World) × (run phy stale w' p ≡ some (w'', success))
        × ((w''.procs p).regs ≡ set (w'.procs p).regs i (extend_byte (v % 256)))
  unfolding libwrite stored
  run-write_read own w w' p b v r o i t u s d g g' small h e =
      let fits : suc b.pc % 2 ^ 32 ≡ suc b.pc = omega arith in
      let l = write_region phy (caller_of w p).krnl 0 (r % 2 ^ 32) o (v % 256) in
      let c' : Caller = record (stepped w p) { krnl = l.0 } in
      let same : (store_caller (advance w p) p c', l.1) ≡ (w', success) =
        some-injective _ _ (sym (run-write w p b v r o t d g) ∙ e) in
      let world_is : store_caller (advance w p) p c' ≡ w' = ap (λ (x : World × ℤ). x.0) same in
      let status_is : l.1 ≡ success = ap (λ (x : World × ℤ). x.1) same in
      let caller_is : caller_of w' p ≡ c' =
        ap (λ (x : World). caller_of x p) (sym world_is)
        ∙ caller_of-store_caller (advance w p) p c' in
      let krnl_is : (caller_of w' p).krnl ≡ l.0 = ap (λ (x : Caller). x.krnl) caller_is in
      let back =
        write_region-read_region phy laws own (caller_of w p).krnl l.0 0 (r % 2 ^ 32) o (v % 256) s
          (λ j. (l.0, status_is j)) in
      let found : read_region phy (caller_of w' p).krnl 0 (r % 2 ^ 32) o
          ≡ ((caller_of w' p).krnl, some (v % 256)) =
        rw krnl_is back in
      let (pc, code, others) = run-pc phy stale w p b _ (w', success) d g e in
      let (is, live, kept) = deref-some w p b d in
      let is' : deref w' p ≡ some (w'.procs p) = usable w' p live (
        ap (λ (x : World). contains p x.freed) (sym world_is)
        ∙ ap (contains p) (freed-stepped w p c')
        ∙ kept) in
      let at : get_elem? (w'.procs p).code (w'.procs p).pc
          ≡ some (record { opcode = read; arg_0 = r; arg_1 = o; arg_2 = i; arg_3 = u }) =
        rw (code, pc, is, fits) g' in
      run-read w' p (w'.procs p) r o i u (v % 256) is' at h found
