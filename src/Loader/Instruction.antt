-- ===== src/Loader/Instruction.antt =====
-- One round of the loop of `load` of src/loader.c, on a line that Loader/Print prints.
use simple_operating_system.Common.{
  ℕ, zero, suc, ◌+◌, ◌-◌, ◌≤◌, ◌≡◌, refl, sym, ap, ◌∙◌, Option, some, true, List, [], ◌∷◌, ◌++◌,
  ◌==◌, ltb, arith, length, get_or, inl, inr, Bool-cases, first_eq, second_eq,
}
use mathlib.Core.List.{append-nil}
use simple_operating_system.Process.{Opcode, calc, alloc, free, read, write, syscall, Inst}
use simple_operating_system.Loader.Scan.{
  Bytes, scan_numbers, scan_number, scan_signed, store_word, scan_word, skip_space, get_line,
  is_space,
}
use simple_operating_system.Loader.Print.{
  Line, opcode_word, print_args, print_line, Arity, Words, Blank, print_args-Blank,
  scan_numbers-print_args, scan_word-opcode_word, get_line-print_args,
}
use simple_operating_system.Loader.{
  Outcome, returns, and_then, same, get_opcode, Reader, set_args, file_args, line_args, read_line,
  load_args, read_opcode, load_inst,
}

-- The instruction of a line in place of what the memory held: arguments that the line does not have
-- stay as they were.
abbrev pub inst_of : Line → Inst → Inst
inst_of l x = record {
  opcode = l.opcode;
  arg_0 = get_or l.args 0 x.arg_0;
  arg_1 = get_or l.args 1 x.arg_1;
  arg_2 = get_or l.args 2 x.arg_2;
  arg_3 = get_or l.args 3 x.arg_3;
}

set_args-inst_of :
    (l : Line) (x : Inst) → set_args l.args (record x { opcode = l.opcode }) ≡ inst_of l x
unfolding set_args
set_args-inst_of l x = go l.args
  where
    go :
        (xs : List ℕ)
        → set_args xs (record x { opcode = l.opcode })
          ≡ inst_of (record { opcode = l.opcode; args = xs }) x
    go [] = refl
    go (a ∷ []) = refl
    go (a ∷ b ∷ []) = refl
    go (a ∷ b ∷ c ∷ []) = refl
    go (a ∷ b ∷ c ∷ d ∷ _) = refl

pub get_opcode-opcode_word : (op : Opcode) → get_opcode (opcode_word op) ≡ returns op
unfolding get_opcode same
get_opcode-opcode_word calc = refl
get_opcode-opcode_word alloc = refl
get_opcode-opcode_word free = refl
get_opcode-opcode_word read = refl
get_opcode-opcode_word write = refl
get_opcode-opcode_word syscall = refl

scan_numbers-all :
    (xs : List ℕ) (f : Bytes)
    → Words xs
    → Blank f
    → scan_numbers 64 (length xs) (print_args xs f) ≡ (xs, f)
unfolding scan_numbers
scan_numbers-all xs f h b =
    let e : length xs + 0 ≡ length xs = omega arith in
    ap (λ n. scan_numbers 64 n (print_args xs f)) (sym e)
    ∙ scan_numbers-print_args 0 xs f h b
    ∙ ap (λ ys. (ys, f)) (append-nil xs)

scan_numbers-none : (n : ℕ) → (scan_numbers 64 n (b'\n' ∷ [])).0 ≡ []
unfolding scan_numbers scan_number scan_signed skip_space
scan_numbers-none zero = refl
scan_numbers-none (suc n) = refl

-- `sscanf` of a line with four arguments at most.
scan_numbers-line :
    (xs : List ℕ)
    → Words xs
    → length xs ≤ 4
    → (scan_numbers 64 4 (print_args xs (b'\n' ∷ []))).0 ≡ xs
scan_numbers-line xs h e =
    let all : length xs + (4 - length xs) ≡ 4 = omega (arith, e) in
    ap (λ n. (scan_numbers 64 n (print_args xs (b'\n' ∷ []))).0) (sym all)
    ∙ first_eq (scan_numbers-print_args (4 - length xs) xs (b'\n' ∷ []) h refl)
    ∙ ap (◌++◌ xs) (scan_numbers-none (4 - length xs))
    ∙ append-nil xs

opcode_word-short : (op : Opcode) → ltb (length (opcode_word op)) 10 ≡ true
opcode_word-short calc = refl
opcode_word-short alloc = refl
opcode_word-short free = refl
opcode_word-short read = refl
opcode_word-short write = refl
opcode_word-short syscall = refl

-- The rest of the file is this text, white space aside.
abbrev pub At : Bytes → Bytes → Type 0
At f text = scan_word f ≡ scan_word text

pub skip_newline : (f : Bytes) → At (b'\n' ∷ f) f
unfolding scan_word skip_space
skip_newline f = refl

skip_space-skip_space : (f : Bytes) → skip_space (skip_space f) ≡ skip_space f
unfolding skip_space
skip_space-skip_space [] = refl
skip_space-skip_space (c ∷ cs) = elim (Bool-cases (is_space c)) [
  | inl e ↦ rw e (skip_space-skip_space cs)
  | inr e ↦ rw e (rw e refl)
]

skip_more : (f : Bytes) → At (skip_space f) f
unfolding scan_word
skip_more f = ap store_word (skip_space-skip_space f)

read_opcode-print_line :
    (r : Reader) (l : Line) (text : Bytes)
    → At r.file (print_line l text)
    → read_opcode r
      ≡ returns (
        opcode_word l.opcode,
        record r { file = print_args l.args (b'\n' ∷ text); opcode = some (opcode_word l.opcode) },
      )
unfolding read_opcode
read_opcode-print_line r l text e =
    let rest = print_args l.args (b'\n' ∷ text) in
    let word =
      e ∙ scan_word-opcode_word l.opcode rest (print_args-Blank l.args (b'\n' ∷ text) refl) in
    rw (read_opcode, first_eq word, second_eq word, opcode_word-short l.opcode) refl

file_args-print_args :
    (r : Reader) (xs : List ℕ) (text : Bytes) (x : Inst)
    → Words xs
    → r.file ≡ print_args xs (b'\n' ∷ text)
    → file_args (length xs) r x ≡ (set_args xs x, record r { file = skip_space text })
unfolding file_args skip_space
file_args-print_args r xs text x h f =
    let args = scan_numbers-all xs (b'\n' ∷ text) h refl in
    let all : (length xs == length xs) ≡ true = ground arith in
    rw (file_args, f, first_eq args, second_eq args, all) refl

-- One instruction has been read: `opcode` has this word, and the file goes on with this text.
abbrev pub Read : Outcome (Inst × Reader) → Inst → Option Bytes → Bytes → Type 0
Read o x word text = (r : Reader) × (o ≡ returns (x, r)) × (r.opcode ≡ word) × At r.file text

file_args-Read :
    (n : ℕ) (r : Reader) (xs : List ℕ) (text : Bytes) (x : Inst)
    → Words xs
    → length xs ≡ n
    → r.file ≡ print_args xs (b'\n' ∷ text)
    → Read (returns (file_args n r x)) (set_args xs x) r.opcode text
file_args-Read n r xs text x h e f = (
  record r { file = skip_space text },
  ap returns (ap (λ m. file_args m r x) (sym e) ∙ file_args-print_args r xs text x h f),
  refl,
  skip_more text,
)

no_args : (xs : List ℕ) → length xs ≡ 0 → xs ≡ []
no_args [] e = refl
no_args (a ∷ xs) e = absurd (omega (arith, e))

calc-Read :
    (r : Reader) (xs : List ℕ) (text : Bytes) (x : Inst)
    → xs ≡ []
    → r.file ≡ print_args xs (b'\n' ∷ text)
    → Read (returns (x, r)) (set_args xs x) r.opcode text
unfolding print_args set_args
calc-Read r xs text x e f = (
  r,
  rw e refl,
  refl,
  ap scan_word (f ∙ ap (λ ys. print_args ys (b'\n' ∷ text)) e) ∙ skip_newline text,
)

read_line-print_args :
    (r : Reader) (xs : List ℕ) (text : Bytes)
    → length xs ≤ 4
    → r.file ≡ print_args xs (b'\n' ∷ text)
    → read_line r ≡ record r { file = text; buf = some (print_args xs (b'\n' ∷ [])) }
unfolding read_line
read_line-print_args r xs text e f =
    let line = ap (get_line 199) f ∙ get_line-print_args xs text e in
    rw (read_line, first_eq line, second_eq line) refl

syscall-Read :
    (r : Reader) (xs : List ℕ) (text : Bytes) (x : Inst)
    → Words xs
    → length xs ≤ 4
    → r.file ≡ print_args xs (b'\n' ∷ text)
    → Read (line_args (read_line r) x) (set_args xs x) r.opcode text
unfolding line_args
syscall-Read r xs text x h e f = (
  record r { file = text; buf = some (print_args xs (b'\n' ∷ [])) },
  rw (read_line-print_args r xs text e f, scan_numbers-line xs h e) refl,
  refl,
  refl,
)

load_args-Read :
    (op : Opcode) (r : Reader) (xs : List ℕ) (text : Bytes) (x : Inst)
    → Words xs
    → Arity op (length xs)
    → r.file ≡ print_args xs (b'\n' ∷ text)
    → Read (load_args op r x) (set_args xs x) r.opcode text
unfolding load_args
load_args-Read calc r xs text x h e f = calc-Read r xs text x (no_args xs e) f
load_args-Read alloc r xs text x h e f = file_args-Read 2 r xs text x h e f
load_args-Read free r xs text x h e f = file_args-Read 1 r xs text x h e f
load_args-Read read r xs text x h e f = file_args-Read 3 r xs text x h e f
load_args-Read write r xs text x h e f = file_args-Read 3 r xs text x h e f
load_args-Read syscall r xs text x h e f = syscall-Read r xs text x h e f

pub load_inst-Read :
    (r : Reader) (l : Line) (text : Bytes) (x : Inst)
    → Words l.args
    → Arity l.opcode (length l.args)
    → At r.file (print_line l text)
    → Read (load_inst r x) (inst_of l x) (some (opcode_word l.opcode)) text
unfolding load_inst and_then
load_inst-Read r l text x h e f =
    let r' : Reader = record r {
      file = print_args l.args (b'\n' ∷ text);
      opcode = some (opcode_word l.opcode);
    } in
    let (end, loaded, word, at) =
      load_args-Read l.opcode r' l.args text (record x { opcode = l.opcode }) h e refl in
    (
      end,
      rw (read_opcode-print_line r l text f, get_opcode-opcode_word l.opcode) loaded
          ∙ ap (λ y. returns (y, end)) (set_args-inst_of l x),
      word,
      at,
    )
