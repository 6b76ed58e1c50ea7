-- ===== src/Loader/RoundTrip.antt =====
-- `load` of src/loader.c reads back the descriptions that Loader/Print prints.
use simple_operating_system.Common.{
  ℕ, suc, ◌%◌, ◌^◌, ◌<◌, ◌≡◌, refl, ap, ◌∙◌, Option, none, some, List, [], ◌∷◌, arith, length,
  first_eq, second_eq,
}
use simple_operating_system.Process.{Inst}
use simple_operating_system.Loader.Scan.{Bytes, scan_numbers}
use simple_operating_system.Loader.Numbers.{decimal, scan_number-decimal, scan_number-space}
use simple_operating_system.Loader.Print.{
  Line, print_text, print_description, Fits, scan_numbers-step,
}
use simple_operating_system.Loader.{returns, and_then, Reader, load_text, Stale, load_head, load}
use simple_operating_system.Loader.Instruction.{inst_of, At, skip_newline, load_inst-Read}

-- The code of the lines, from index i on.
abbrev pub code_of : (ℕ → Inst) → ℕ → List Line → List Inst
code_of stale i [] = []
code_of stale i (l ∷ ls) = inst_of l (stale i) ∷ code_of stale (suc i) ls

pub load_text-print_text :
    (stale : ℕ → Inst) (i : ℕ) (r : Reader) (ls : List Line)
    → Fits ls
    → At r.file (print_text ls)
    → load_text stale (length ls) i r ≡ returns (code_of stale i ls)
unfolding load_text and_then print_text
load_text-print_text stale i r [] h f = refl
load_text-print_text stale i r (l ∷ ls) (h, a, hs) f =
    let (r', loaded, word, at) = load_inst-Read r l (print_text ls) (stale i) h a f in
    rw (loaded, load_text-print_text stale (suc i) r' ls hs at) refl

pub load_head-decimal :
    (m : Stale) (p n : ℕ) (text : Bytes)
    → p < 2 ^ 32
    → n < 2 ^ 32
    → load_head (decimal p (b' ' ∷ decimal n (b'\n' ∷ text))) m
      ≡ (record m.pcb { priority = p }, n, b'\n' ∷ text)
unfolding load_head scan_numbers
load_head-decimal m p n text h k =
    let rest = b' ' ∷ decimal n (b'\n' ∷ text) in
    let size =
      scan_number-space 32 (decimal n (b'\n' ∷ text))
      ∙ scan_number-decimal 32 n (b'\n' ∷ text) (omega (arith, k)) k refl in
    let head =
      scan_numbers-step 32 1 p (decimal p rest) rest
        (scan_number-decimal 32 p rest (omega (arith, h)) h refl)
      ∙ ap (λ (r : List ℕ × Bytes). (p ∷ r.0, r.1))
          (scan_numbers-step 32 0 n rest (b'\n' ∷ text) size) in
    rw (first_eq head, second_eq head) refl

-- `load` of the description of a program gives the program: the process has its priority and its
-- instructions, and starts at the first. It has the next process number, which is then counted up on
-- 32 bits. Arguments that an instruction does not have, and the registers, are what the memory held.
pub load-print_description :
    (files : Bytes → Option Bytes) (m : Stale) (pid p : ℕ) (path : Bytes) (ls : List Line)
    → files path ≡ some (print_description p ls)
    → p < 2 ^ 32
    → length ls < 2 ^ 32
    → Fits ls
    → load files m pid path
      ≡ returns (
        record m.pcb { pid = pid; priority = p; code = code_of m.text 0 ls; pc = 0; bp = 1024 },
        suc pid % 2 ^ 32,
      )
unfolding load and_then
load-print_description files m pid p path ls e h k f =
    let head = load_head-decimal m p (length ls) (print_text ls) h k in
    let text =
      load_text-print_text m.text 0
        (record { file = b'\n' ∷ print_text ls; opcode = none; buf = none }) ls f
        (skip_newline (print_text ls)) in
    rw (load, e, head, text) refl
