-- ===== src/Os/Boot.antt =====
-- `main` of src/os.c up to the threads that it starts, with what `read_config` and `load` make of the
-- files. The loader's thread calls `load` when it comes to a process; since the files stay as they
-- are, the calls stand here at the start, in their order.
use simple_operating_system.Common.{
  ℕ, suc, ◌%◌, ◌^◌, ◌<◌, ◌≡◌, refl, Option, some, true, List, [], ◌∷◌, ◌++◌, ltb, arith,
  if◌then◌else◌, length, get_or, replicate,
}
use simple_operating_system.Mm.{Mm, Memphy}
use simple_operating_system.Phy.{MemphyOps}
use simple_operating_system.Process.{Pcb}
use simple_operating_system.Queue.{Ptr}
use simple_operating_system.Sched.{zeroed, init_scheduler}
use simple_operating_system.World.{World}
use simple_operating_system.Timer.{started}
use simple_operating_system.Loader.Scan.{Bytes}
use simple_operating_system.Loader.Print.{Line, print_description, Fits}
use simple_operating_system.Loader.{Outcome, undefined, returns, and_then, Stale, load}
use simple_operating_system.Loader.RoundTrip.{code_of, load-print_description}
use simple_operating_system.Os.{Job}
use simple_operating_system.Os.System.{new_cpu}
use simple_operating_system.Os.Machine.{Machine, Reach, boots}
use simple_operating_system.Os.Config.{LdProcess, Config, proc_folder, rounds, read_config}
use simple_operating_system.Os.Config.Print.{Entry, print_config, EachEntry, Readable}
use simple_operating_system.Os.Config.RoundTrip.{processes_of, read_config-print_config}

-- `"input/"`.
abbrev pub input_folder : Bytes
input_folder = b'i' ∷ b'n' ∷ b'p' ∷ b'u' ∷ b't' ∷ b'/' ∷ []

-- What `malloc` gives: for process i its address and what its memory holds, and the priorities; and
-- what lies at every address.
pub record Heap : Type 0 where
  pub address : ℕ → Ptr
  pub process : ℕ → Stale
  pub prio : ℕ → ℕ
  pub procs : Ptr → Pcb
  pub mms : Ptr → Mm

-- A process as its files describe it.
pub record Program : Type 0 where
  pub entry : Entry
  pub priority : ℕ
  pub lines : List Line

abbrev pub entries : List Program → List Entry
entries [] = []
entries (p ∷ ps) = p.entry ∷ entries ps

-- The files have the descriptions of the processes.
abbrev pub Described : (Bytes → Option Bytes) → List Program → Type 0
Described files [] = Unit
Described files (p ∷ ps) =
    (files (proc_folder ++ p.entry.name) ≡ some (print_description p.priority p.lines))
    × (p.priority < 2 ^ 32)
    × (length p.lines < 2 ^ 32)
    × Fits p.lines
    × Described files ps

-- The jobs from the i-th on: the number of a process is one more than its place.
abbrev pub jobs_of : Heap → ℕ → List Program → List Job
jobs_of heap i [] = []
jobs_of heap i (p ∷ ps) =
    record {
      address = heap.address i;
      loaded = record (heap.process i).pcb {
        pid = suc i % 2 ^ 32;
        priority = p.priority;
        code = code_of (heap.process i).text 0 p.lines;
        pc = 0;
        bp = 1024;
      };
      start_time = p.entry.start_time;
      prio = p.entry.prio;
    }
    ∷ jobs_of heap (suc i) ps

module _ (files : Bytes → Option Bytes) (init_memphy : (maxsz rdmflg : ℕ) → Memphy)
    (heap : Heap) where
  -- The processes from the i-th on.
  unfoldable pub load_jobs : (avail_pid i : ℕ) → List LdProcess → Outcome (List Job)
  load_jobs avail_pid i [] = returns []
  load_jobs avail_pid i (p ∷ ps) =
      and_then (load files (heap.process i) avail_pid p.path) (λ (pcb, next).
        and_then (load_jobs next (suc i) ps) (λ jobs. returns (
          record {
            address = heap.address i;
            loaded = pcb;
            start_time = p.start_time;
            prio = p.prio;
          }
          ∷ jobs)))

  -- What the threads share when they start. The devices are made by `init_memphy` of
  -- src/mm-memphy.c, for random access.
  abbrev pub boot_world : Config → World
  boot_world c = record {
    sched = init_scheduler zeroed;
    procs = heap.procs;
    mms = heap.mms;
    freed = [];
    mram = init_memphy c.memramsz 1;
    active_mswp = init_memphy (get_or c.memswpsz 0 0) 1;
    done = 0;
  }

  abbrev pub boot : Config → List Job → Machine
  boot c jobs = record {
    timer = started (suc (rounds c.num_cpus));
    system = record {
      world = boot_world c;
      cpus = replicate (rounds c.num_cpus) (some new_cpu);
      jobs = some jobs;
    };
  }

  -- The path has 100 bytes.
  unfoldable pub main : (name : Bytes) → Outcome (Config × Machine)
  main name =
      if ltb (length (input_folder ++ name)) 100
      then and_then (read_config files heap.prio (input_folder ++ name))
          (λ c. and_then (load_jobs 1 0 c.ld_processes) (λ jobs. returns (c, boot c jobs)))
      else undefined

  load_jobs-Described :
      (i : ℕ) (ps : List Program)
      → Described files ps
      → load_jobs (suc i % 2 ^ 32) i (processes_of (entries ps)) ≡ returns (jobs_of heap i ps)
  unfolding load_jobs and_then
  load_jobs-Described i [] d = refl
  load_jobs-Described i (p ∷ ps) (f, h, k, l, d) =
      let one =
        load-print_description files (heap.process i) (suc i % 2 ^ 32) p.priority
          (proc_folder ++ p.entry.name) p.lines f h k l in
      let next : suc (suc i % 2 ^ 32) % 2 ^ 32 ≡ suc (suc i) % 2 ^ 32 = omega arith in
      rw (one, next, load_jobs-Described (suc i) ps d) refl

  -- When the files hold a printed configuration and the printed descriptions of its processes, `main`
  -- starts the threads: as many processors as the configuration says, and a loader whose jobs are the
  -- processes, in order, numbered from 1, each with the program of its description. The state is
  -- one from which the runs of the program begin.
  pub main-Reach :
      (phy : MemphyOps) (stale : ℕ) (name : Bytes) (t n : ℕ) (memory : List ℕ) (ps : List Program)
      → length name < 94
      → files (input_folder ++ name) ≡ some (print_config t n memory (entries ps))
      → t < 2 ^ 32
      → n < 2 ^ 31
      → length (entries ps) < 2 ^ 31
      → EachEntry (entries ps)
      → Readable memory (entries ps)
      → Described files ps
      → (c : Config) × (m : Machine) × (main name ≡ returns (c, m))
        × (c.time_slot ≡ t)
        × (m.system.cpus ≡ replicate n (some new_cpu))
        × (m.system.jobs ≡ some (jobs_of heap 0 ps))
        × Reach phy stale c.time_slot n m
  unfolding main and_then
  main-Reach phy stale name t n memory ps short f ht hn hk v h d =
      let c : Config = record {
        time_slot = t;
        num_cpus = n;
        num_processes = length (entries ps);
        memramsz = 0x10_0000;
        memswpsz = 0x100_0000 ∷ 0 ∷ 0 ∷ 0 ∷ [];
        ld_processes = processes_of (entries ps);
      } in
      let fits : ltb (length (input_folder ++ name)) 100 ≡ true = ground (arith, short) in
      let small : ltb n (2 ^ 31) ≡ true = ground (arith, hn) in
      let read =
        read_config-print_config files heap.prio (input_folder ++ name) t n memory (entries ps) f ht
          (omega (arith, hn)) hk v h in
      (
        c,
        boot c (jobs_of heap 0 ps),
        rw (main, fits, read, load_jobs-Described 0 ps d) refl,
        refl,
        rw small refl,
        refl,
        rw small (boots (boot_world c) (jobs_of heap 0 ps) refl),
      )
