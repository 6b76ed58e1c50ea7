-- ===== src/Loader.antt =====
-- src/loader.c: `load` reads the description of a process from the bytes of its file.
pub mod Scan
pub mod Numbers
pub mod Print
pub mod Instruction
pub mod RoundTrip
pub mod Short
use simple_operating_system.Common.{
  ℕ, zero, suc, ◌+◌, ◌%◌, ◌^◌, Option, none, some, Bool, true, false, List, [], ◌∷◌, ◌==◌, ltb,
  ◌&&◌, if◌then◌else◌, length, get_or,
}
use simple_operating_system.Process.{Opcode, calc, alloc, free, read, write, syscall, Inst, Pcb}
use simple_operating_system.Loader.Scan.{Bytes, scan_numbers, scan_word, get_line, skip_space}

-- How a call ends: in `exit`, in what C leaves undefined, or with a result.
pub data Outcome {ℓ} (A : Type ℓ) : Type ℓ where
  exits undefined : Outcome A
  returns : A → Outcome A

unfoldable pub and_then {ℓ} : {A B : Type ℓ} → Outcome A → (A → Outcome B) → Outcome B
and_then exits f = exits
and_then undefined f = undefined
and_then (returns a) f = f a

-- `strcmp` answers 0.
unfoldable pub same : Bytes → Bytes → Bool
same [] [] = true
same [] (d ∷ ds) = false
same (c ∷ cs) [] = false
same (c ∷ cs) (d ∷ ds) = (c == d) && same cs ds

abbrev pub opt_calc : Bytes
opt_calc = b'c' ∷ b'a' ∷ b'l' ∷ b'c' ∷ []

abbrev pub opt_alloc : Bytes
opt_alloc = b'a' ∷ b'l' ∷ b'l' ∷ b'o' ∷ b'c' ∷ []

abbrev pub opt_free : Bytes
opt_free = b'f' ∷ b'r' ∷ b'e' ∷ b'e' ∷ []

abbrev pub opt_read : Bytes
opt_read = b'r' ∷ b'e' ∷ b'a' ∷ b'd' ∷ []

abbrev pub opt_write : Bytes
opt_write = b'w' ∷ b'r' ∷ b'i' ∷ b't' ∷ b'e' ∷ []

abbrev pub opt_syscall : Bytes
opt_syscall = b's' ∷ b'y' ∷ b's' ∷ b'c' ∷ b'a' ∷ b'l' ∷ b'l' ∷ []

-- Any other word ends the program.
unfoldable pub get_opcode : Bytes → Outcome Opcode
get_opcode opt =
    if same opt opt_calc
    then returns calc
    else if same opt opt_alloc
    then returns alloc
    else if same opt opt_free
    then returns free
    else if same opt opt_read
    then returns read
    else if same opt opt_write
    then returns write
    else if same opt opt_syscall
    then returns syscall
    else exits

-- What the loop of `load` changes: the rest of the file, and the arrays `opcode` and `buf`, which have
-- no contents at first.
pub record Reader : Type 0 where
  pub file : Bytes
  pub opcode : Option Bytes
  pub buf : Option Bytes

-- The arguments that were converted are stored in order; the others stay as `malloc` has left them.
unfoldable pub set_args : List ℕ → Inst → Inst
set_args [] x = x
set_args (a ∷ []) x = record x { arg_0 = a }
set_args (a ∷ b ∷ []) x = record x { arg_0 = a; arg_1 = b }
set_args (a ∷ b ∷ c ∷ []) x = record x { arg_0 = a; arg_1 = b; arg_2 = c }
set_args (a ∷ b ∷ c ∷ d ∷ _) x = record x { arg_0 = a; arg_1 = b; arg_2 = c; arg_3 = d }

-- `fscanf` of n arguments and of the newline behind them.
unfoldable pub file_args : ℕ → Reader → Inst → Inst × Reader
file_args n r x =
    let (args, rest) = scan_numbers 64 n r.file in
    (set_args args x, record r { file = if length args == n then skip_space rest else rest })

-- `sscanf` of the arguments in `buf`.
unfoldable pub line_args : Reader → Inst → Outcome (Inst × Reader)
line_args r x = elim r.buf [
  | none ↦ undefined
  | some line ↦ returns (set_args (scan_numbers 64 4 line).0 x, r)
]

-- `fgets` into the 200 bytes of `buf`, which stays as it is at the end of the file.
unfoldable pub read_line : Reader → Reader
read_line r =
    let (o, rest) = get_line 199 r.file in
    elim o [
      | none ↦ record r { file = rest }
      | some line ↦ record r { file = rest; buf = some line }
    ]

-- The `switch` of `load`.
unfoldable pub load_args : Opcode → Reader → Inst → Outcome (Inst × Reader)
load_args calc r x = returns (x, r)
load_args alloc r x = returns (file_args 2 r x)
load_args free r x = returns (file_args 1 r x)
load_args read r x = returns (file_args 3 r x)
load_args write r x = returns (file_args 3 r x)
load_args syscall r x = line_args (read_line r) x

-- `fscanf` into the 10 bytes of `opcode`, which stays as it is at the end of the file.
unfoldable pub read_opcode : Reader → Outcome (Bytes × Reader)
read_opcode r =
    let (o, rest) = scan_word r.file in
    elim o [
      | none ↦ elim r.opcode [
        | none ↦ undefined
        | some opt ↦ returns (opt, record r { file = rest })
      ]
      | some opt ↦
          if ltb (length opt) 10
          then returns (opt, record r { file = rest; opcode = some opt })
          else undefined
    ]

unfoldable pub load_inst : Reader → Inst → Outcome (Inst × Reader)
load_inst r x =
    and_then (read_opcode r)
      (λ (opt, r'). and_then (get_opcode opt) (λ op. load_args op r' (record x { opcode = op })))

-- n rounds of the loop, from index i on; `stale` is what `malloc` has left in the code segment.
unfoldable pub load_text : (ℕ → Inst) → (n i : ℕ) → Reader → Outcome (List Inst)
load_text stale zero i r = returns []
load_text stale (suc n) i r =
    and_then (load_inst r (stale i))
      (λ (x, r'). and_then (load_text stale n (suc i) r') (λ text. returns (x ∷ text)))

-- What `malloc` has left in the memory of a process.
pub record Stale : Type 0 where
  pub pcb : Pcb
  pub size : ℕ
  pub text : ℕ → Inst

-- `fscanf` of the priority and the size.
unfoldable pub load_head : Bytes → Stale → Pcb × ℕ × Bytes
load_head file m =
    let (head, rest) = scan_numbers 32 2 file in
    (record m.pcb { priority = get_or head 0 m.pcb.priority }, get_or head 1 m.size, rest)

-- `load` of a path, with what the files hold and the next process number. The path that it keeps for
-- the messages is left out.
unfoldable pub load : (Bytes → Option Bytes) → Stale → (avail_pid : ℕ) → Bytes → Outcome (Pcb × ℕ)
load files m avail_pid path = elim (files path) [
  | none ↦ exits
  | some file ↦
      let (proc, size, rest) = load_head file m in
      and_then (load_text m.text size 0 (record { file = rest; opcode = none; buf = none }))
        (λ code.
          returns (
            record proc { pid = avail_pid; bp = 1024; pc = 0; code = code },
            suc avail_pid % 2 ^ 32,
          ))
]
