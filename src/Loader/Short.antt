-- ===== src/Loader/Short.antt =====
-- `load` of src/loader.c on a description that announces more instructions than it has.
use simple_operating_system.Common.{
  ℕ, zero, suc, ◌+◌, ◌%◌, ◌^◌, ◌<◌, ◌≡◌, ◌≢◌, refl, ap, ◌∙◌, Option, none, some, false, List, [],
  ◌∷◌, ◌++◌, ◌==◌, arith, length, first_eq, second_eq,
}
use simple_operating_system.Process.{Opcode, calc, alloc, free, read, write, syscall, Inst}
use simple_operating_system.Loader.Scan.{
  Bytes, scan_numbers, scan_number, scan_signed, scan_word, store_word, take_word, skip_space,
}
use simple_operating_system.Loader.Numbers.{decimal}
use simple_operating_system.Loader.Print.{Line, opcode_word, print_text, Fits}
use simple_operating_system.Loader.{
  returns, and_then, Reader, set_args, file_args, load_args, read_opcode, load_inst, load_text,
  Stale, load,
}
use simple_operating_system.Loader.Instruction.{
  At, skip_newline, get_opcode-opcode_word, load_inst-Read,
}
use simple_operating_system.Loader.RoundTrip.{code_of, load_head-decimal}

-- The last opcode of a list of lines, the first of which comes after another opcode.
abbrev pub last_opcode : Opcode → List Line → Opcode
last_opcode op [] = op
last_opcode op (l ∷ ls) = last_opcode l.opcode ls

-- n instructions with one opcode, from index i on, whose arguments are what the memory held.
abbrev pub repeated : (ℕ → Inst) → Opcode → (i n : ℕ) → List Inst
repeated stale op i zero = []
repeated stale op i (suc n) = record (stale i) { opcode = op } ∷ repeated stale op (suc i) n

file_args-end :
    (n : ℕ) (r : Reader) (x : Inst)
    → file_args (suc n) (record r { file = [] }) x ≡ (x, record r { file = [] })
unfolding file_args set_args scan_numbers scan_number scan_signed skip_space
file_args-end n r x = let e : (0 == suc n) ≡ false = ground arith in rw e refl

load_args-end :
    (op : Opcode) (r : Reader) (x : Inst)
    → op ≢ syscall
    → load_args op (record r { file = [] }) x ≡ returns (x, record r { file = [] })
unfolding load_args
load_args-end calc r x h = refl
load_args-end alloc r x h = ap returns (file_args-end 1 r x)
load_args-end free r x h = ap returns (file_args-end 0 r x)
load_args-end read r x h = ap returns (file_args-end 2 r x)
load_args-end write r x h = ap returns (file_args-end 2 r x)
load_args-end syscall r x h = absurd (h refl)

no_word : scan_word [] ≡ (none, [])
unfolding scan_word store_word take_word skip_space
no_word = refl

read_opcode-end :
    (r : Reader) (word : Bytes)
    → At r.file []
    → r.opcode ≡ some word
    → read_opcode r ≡ returns (word, record r { file = [] })
unfolding read_opcode
read_opcode-end r word e f =
    let done = e ∙ no_word in
    rw (read_opcode, first_eq done, f, second_eq done)
      (ap (λ o. returns (word, record r { file = []; opcode = o })) f)

load_inst-end :
    (r : Reader) (op : Opcode) (x : Inst)
    → op ≢ syscall
    → At r.file []
    → r.opcode ≡ some (opcode_word op)
    → load_inst r x ≡ returns (record x { opcode = op }, record r { file = [] })
unfolding load_inst and_then
load_inst-end r op x h e f =
    rw (read_opcode-end r (opcode_word op) e f, get_opcode-opcode_word op)
      (load_args-end op r (record x { opcode = op }) h)

load_text-end :
    (stale : ℕ → Inst) (op : Opcode) (n i : ℕ) (r : Reader)
    → op ≢ syscall
    → At r.file []
    → r.opcode ≡ some (opcode_word op)
    → load_text stale n i r ≡ returns (repeated stale op i n)
unfolding load_text and_then
load_text-end stale op zero i r h e f = refl
load_text-end stale op (suc n) i r h e f =
    rw
      (
        load_inst-end r op (stale i) h e f,
        load_text-end stale op n (suc i) (record r { file = [] }) h refl f,
      )
      refl

load_text-short :
    (stale : ℕ → Inst) (n i : ℕ) (r : Reader) (op : Opcode) (ls : List Line)
    → Fits ls
    → At r.file (print_text ls)
    → r.opcode ≡ some (opcode_word op)
    → last_opcode op ls ≢ syscall
    → load_text stale (length ls + n) i r
      ≡ returns (code_of stale i ls ++ repeated stale (last_opcode op ls) (i + length ls) n)
unfolding load_text and_then print_text
load_text-short stale n i r op [] h e f s =
    let a : 0 + n ≡ n = omega arith in
    let b : i + 0 ≡ i = omega arith in rw (a, b) (load_text-end stale op n i r s e f)
load_text-short stale n i r op (l ∷ ls) (h, a, hs) e f s =
    let rounds : suc (length ls) + n ≡ suc (length ls + n) = omega arith in
    let place : suc i + length ls ≡ i + suc (length ls) = omega arith in
    let (r', loaded, word, at) = load_inst-Read r l (print_text ls) (stale i) h a e in
    let rest = load_text-short stale n (suc i) r' l.opcode ls hs at word s in
    rw (rounds, loaded, rest, place) refl

-- A description that announces n instructions more than it has is not refused: the missing ones
-- repeat the last opcode, with what the memory held as arguments. It has an instruction, and the last
-- is no system call.
pub load-short :
    (files : Bytes → Option Bytes) (m : Stale) (pid p n : ℕ) (path : Bytes) (l : Line)
    (ls : List Line)
    → files path
      ≡ some (decimal p (b' ' ∷ decimal (length (l ∷ ls) + n) (b'\n' ∷ print_text (l ∷ ls))))
    → p < 2 ^ 32
    → length (l ∷ ls) + n < 2 ^ 32
    → Fits (l ∷ ls)
    → last_opcode l.opcode ls ≢ syscall
    → load files m pid path
      ≡ returns (
        record m.pcb {
          pid = pid;
          priority = p;
          code =
              code_of m.text 0 (l ∷ ls)
              ++ repeated m.text (last_opcode l.opcode ls) (length (l ∷ ls)) n;
          pc = 0;
          bp = 1024;
        },
        suc pid % 2 ^ 32,
      )
unfolding load and_then load_text print_text
load-short files m pid p n path l ls e h k (w, a, f) s =
    let r : Reader = record { file = b'\n' ∷ print_text (l ∷ ls); opcode = none; buf = none } in
    let head = load_head-decimal m p (length (l ∷ ls) + n) (print_text (l ∷ ls)) h k in
    let rounds : length (l ∷ ls) + n ≡ suc (length ls + n) = omega arith in
    let place : 1 + length ls ≡ length (l ∷ ls) = omega arith in
    let (r', loaded, word, at) =
      load_inst-Read r l (print_text ls) (m.text 0) w a (skip_newline (print_text (l ∷ ls))) in
    let rest = load_text-short m.text n 1 r' l.opcode ls f at word s in
    rw (load, e, head, rounds, loaded, rest, place) refl
