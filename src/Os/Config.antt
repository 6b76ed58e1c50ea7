-- ===== src/Os/Config.antt =====
-- `read_config` of src/os.c, on the bytes of the file and with MM_FIXED_MEMSZ: the memory sizes are
-- fixed, and a line of sizes in the file is skipped.
pub mod Print
pub mod MemoryLine
pub mod RoundTrip
use simple_operating_system.Common.{
  ℕ, zero, suc, ◌+◌, ◌^◌, Option, none, some, List, [], ◌∷◌, ◌++◌, ◌==◌, ltb, ◌&&◌, if◌then◌else◌,
  length, get_or, replicate,
}
use simple_operating_system.Loader.Scan.{Bytes, skip_space, scan_number, scan_numbers, scan_word}
use simple_operating_system.Loader.{Outcome, exits, undefined, returns, and_then}

-- An entry of the arrays of `ld_processes`.
pub record LdProcess : Type 0 where
  pub path : Bytes
  pub start_time : ℕ
  pub prio : ℕ

-- The static variables that `read_config` sets. The three `int`s are bit patterns.
pub record Config : Type 0 where
  pub time_slot : ℕ
  pub num_cpus : ℕ
  pub num_processes : ℕ
  pub memramsz : ℕ
  pub memswpsz : List ℕ
  pub ld_processes : List LdProcess

-- The rest of the file after the end of the line.
unfoldable pub skip_line : Bytes → Bytes
skip_line [] = []
skip_line (c ∷ cs) = let rest = skip_line cs in if c == b'\n' then cs else rest

-- The line is skipped if it begins with two numbers; if not, the file is put back.
unfoldable pub skip_memory_line : Bytes → Bytes
skip_memory_line file =
    let (sizes, rest) = scan_numbers 32 2 file in if length sizes == 2 then skip_line rest else file

-- `"input/proc/"`.
abbrev pub proc_folder : Bytes
proc_folder = b'i' ∷ b'n' ∷ b'p' ∷ b'u' ∷ b't' ∷ b'/' ∷ b'p' ∷ b'r' ∷ b'o' ∷ b'c' ∷ b'/' ∷ []

-- A priority that is not there stays what `malloc` has left.
unfoldable pub read_prio : (stale : ℕ) → Bytes → ℕ × Bytes
read_prio stale file =
    let (o, rest) = scan_number 64 file in
    elim o [ none ↦ (stale, rest) | some prio ↦ (prio, skip_space rest) ]

-- One round of the last loop. Without a word, `proc` has no contents; a word of 100 bytes overflows
-- it, and a path of 100 bytes overflows its memory.
unfoldable pub read_process : (stale : ℕ) → Bytes → Outcome (LdProcess × Bytes)
read_process stale file =
    let (start, file') = scan_number 64 file in
    let (word, file'') = scan_word file' in
    elim start [
      | none ↦ undefined
      | some start_time ↦ elim word [
        | none ↦ undefined
        | some proc ↦
            let (prio, rest) = read_prio stale file'' in
            if ltb (length proc) 100 && ltb (length (proc_folder ++ proc)) 100
            then returns
                (record { path = proc_folder ++ proc; start_time = start_time; prio = prio }, rest)
            else undefined
      ]
    ]

unfoldable pub read_processes : (stale : ℕ → ℕ) → (n i : ℕ) → Bytes → Outcome (List LdProcess)
read_processes stale zero i file = returns []
read_processes stale (suc n) i file =
    and_then (read_process (stale i) file)
      (λ (p, rest). and_then (read_processes stale n (suc i) rest) (λ ps. returns (p ∷ ps)))

-- The rounds of a loop up to an `int`, none if it is negative.
abbrev pub rounds : ℕ → ℕ
rounds n = if ltb n (2 ^ 31) then n else 0

-- Numbers that are not there leave the static variables at 0.
unfoldable pub read_config :
    (Bytes → Option Bytes) → (stale : ℕ → ℕ) → (path : Bytes) → Outcome Config
read_config files stale path = elim (files path) [
  | none ↦ exits
  | some file ↦
      let (head, rest) = scan_numbers 32 3 file in
      let num_processes = get_or head 2 0 in
      let after = if length head == 3 then skip_space rest else rest in
      and_then (read_processes stale (rounds num_processes) 0 (skip_memory_line after)) (λ ps.
        returns (record {
          time_slot = get_or head 0 0;
          num_cpus = get_or head 1 0;
          num_processes = num_processes;
          memramsz = 0x10_0000;
          memswpsz = 0x100_0000 ∷ replicate 3 0;
          ld_processes = ps;
        }))
]
