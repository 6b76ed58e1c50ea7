-- ===== src/Tests/Loading.antt =====
-- A configuration of input and a process of input/proc, from their files to the threads.
use simple_operating_system.Common.{
  ℕ, suc, ◌+◌, ◌%◌, ◌^◌, ◌≡◌, refl, Option, some, List, [], ◌∷◌, ◌++◌, leb, arith, if◌then◌else◌,
  length, replicate,
}
use simple_operating_system.Mm.{Memphy}
use simple_operating_system.Process.{calc, alloc, write, syscall, Inst}
use simple_operating_system.Vmap.{init_mm}
use simple_operating_system.Loader.Scan.{Bytes}
use simple_operating_system.Loader.Print.{Line, print_description, print_text, Fits}
use simple_operating_system.Loader.{returns, Stale, load}
use simple_operating_system.Loader.RoundTrip.{code_of, load-print_description}
use simple_operating_system.Loader.Numbers.{decimal}
use simple_operating_system.Loader.Short.{repeated, load-short}
use simple_operating_system.Os.System.{new_cpu}
use simple_operating_system.Os.Machine.{Machine, Reach}
use simple_operating_system.Os.Config.{Config, proc_folder, read_config}
use simple_operating_system.Os.Config.Print.{Entry, print_config, IsName, EachEntry}
use simple_operating_system.Os.Config.RoundTrip.{processes_of, read_config-print_config}
use simple_operating_system.Os.Boot.{input_folder, Heap, Program, main, jobs_of, main-Reach}
use simple_operating_system.Tests.Device.{device}
use simple_operating_system.Tests.Scheduling.{pcb}

-- The name of the configuration, and of the process.
abbrev os_sc : Bytes
os_sc = b'o' ∷ b's' ∷ b'_' ∷ b's' ∷ b'c' ∷ []

abbrev m0s : Bytes
m0s = b'm' ∷ b'0' ∷ b's' ∷ []

m0s-IsName : IsName m0s
m0s-IsName = record { named = omega arith; fits = omega arith; solid = (refl, (refl, (refl, tt))) }

abbrev entry : Entry
entry = record { start_time = 9; name = m0s; prio = 15 }

abbrev alloc_line : Line
alloc_line = record { opcode = alloc; args = 300 ∷ 0 ∷ [] }

abbrev lines : List Line
lines =
    alloc_line
    ∷ record { opcode = calc; args = [] }
    ∷ record { opcode = write; args = 102 ∷ 1 ∷ 20 ∷ [] }
    ∷ record { opcode = syscall; args = 17 ∷ 2 ∷ [] }
    ∷ []

lines-Fits : Fits lines
lines-Fits = (
  (omega arith, (omega arith, tt)),
  refl,
  (
    tt,
    refl,
    (
      (omega arith, (omega arith, (omega arith, tt))),
      refl,
      ((omega arith, (omega arith, tt)), omega arith, tt),
    ),
  ),
)

abbrev memory : List ℕ
memory = 2048 ∷ 16777216 ∷ 0 ∷ 0 ∷ 0 ∷ []

-- The only configuration and the only process; their paths differ in length.
abbrev files : Bytes → Option Bytes
files path = some (
    if leb (length path) 12
    then print_config 2 1 memory (entry ∷ [])
    else print_description 1 lines)

abbrev left_inst : ℕ → Inst
left_inst i = record { opcode = calc; arg_0 = i; arg_1 = i; arg_2 = i; arg_3 = i }

abbrev left : Stale
left = record { pcb = pcb 3; size = 7; text = left_inst }

load-print_description_example :
    load files left 1 (proc_folder ++ m0s)
    ≡ returns (
      record left.pcb {
        pid = 1;
        priority = 1;
        code = code_of left_inst 0 lines;
        pc = 0;
        bp = 1024;
      },
      suc 1 % 2 ^ 32,
    )
load-print_description_example =
    load-print_description files left 1 1 (proc_folder ++ m0s) lines refl (omega arith)
      (omega arith) lines-Fits

entry-EachEntry : EachEntry (entry ∷ [])
entry-EachEntry = (omega arith, omega arith, m0s-IsName, tt)

read_config-print_config_example :
    read_config files (λ i. 0) (input_folder ++ os_sc)
    ≡ returns (record {
      time_slot = 2;
      num_cpus = 1;
      num_processes = 1;
      memramsz = 0x10_0000;
      memswpsz = 0x100_0000 ∷ 0 ∷ 0 ∷ 0 ∷ [];
      ld_processes = processes_of (entry ∷ []);
    })
read_config-print_config_example =
    read_config-print_config files (λ i. 0) (input_folder ++ os_sc) 2 1 memory (entry ∷ []) refl
      (omega arith) (omega arith) (omega arith) entry-EachEntry
      (omega arith, (omega arith, (omega arith, (omega arith, (omega arith, (omega arith, tt))))))

abbrev heap : Heap
heap = record {
  address = λ i. 5 + i;
  process = λ i. left;
  prio = λ i. 0;
  procs = pcb;
  mms = λ p. init_mm [];
}

abbrev program : Program
program = record { entry = entry; priority = 1; lines = lines }

abbrev init_memphy : (maxsz rdmflg : ℕ) → Memphy
init_memphy maxsz rdmflg = record {
  storage = λ a. 0;
  maxsz = maxsz;
  rdmflg = rdmflg;
  cursor = 0;
  free_fp_list = 0 ∷ 1 ∷ 2 ∷ [];
  used_fp_list = [];
}

main-Reach_example :
    (c : Config) × (m : Machine) × (main files init_memphy heap os_sc ≡ returns (c, m))
    × (c.time_slot ≡ 2)
    × (m.system.cpus ≡ replicate 1 (some new_cpu))
    × (m.system.jobs ≡ some (jobs_of heap 0 (program ∷ [])))
    × Reach device 0 c.time_slot 1 m
main-Reach_example =
    main-Reach files init_memphy heap device 0 os_sc 2 1 memory (program ∷ []) (omega arith) refl
      (omega arith) (omega arith) (omega arith) entry-EachEntry
      (omega arith, (omega arith, (omega arith, (omega arith, (omega arith, (omega arith, tt))))))
      (refl, omega arith, omega arith, lines-Fits, tt)

-- Three instructions are announced, and one is there.
abbrev short_files : Bytes → Option Bytes
short_files path = some (decimal 1 (b' ' ∷ decimal 3 (b'\n' ∷ print_text (alloc_line ∷ []))))

load-short_example :
    load short_files left 1 m0s
    ≡ returns (
      record left.pcb {
        pid = 1;
        priority = 1;
        code = code_of left_inst 0 (alloc_line ∷ []) ++ repeated left_inst alloc 1 2;
        pc = 0;
        bp = 1024;
      },
      suc 1 % 2 ^ 32,
    )
load-short_example =
    load-short short_files left 1 1 2 m0s alloc_line [] refl (omega arith) (omega arith)
      ((omega arith, (omega arith, tt)), refl, tt) (λ e. cc e)
