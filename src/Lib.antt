-- ===== src/Lib.antt =====
-- Simple Operating System Simulation: the memory management, the scheduler, the system calls, the
-- threads of the processors and the timer, in the configuration of include/os-cfg.h (MLQ_SCHED,
-- MM_PAGING, MM64).
--
-- The program runs loaded processes on simulated processors. A processor takes a process from the
-- scheduler (src/sched.c, over the queues of src/queue.c), executes some of its instructions, and
-- puts it back. The instructions on memory call src/libmem.c, which keeps the regions of a process
-- within the areas of src/mm-vm.c and reads and writes bytes through the five-level page tables of
-- src/mm64.c. Tables and pages lie in frames of one RAM device. The timer (src/timer.c) holds the
-- threads of the processors and of the loader (src/os.c) together: one time slot at a time.
--
-- Files:
--   Common     Boolean tests, lists and bit operations over the native numbers.
--   Queue      src/queue.c: the struct is the array and its size, and each operation does what the
--              C loop does on the array. Queue/Valid has the bounds, Queue/Refine and Queue/Purge
--              the list that the array stands for.
--              Queue/Race takes the last two statements of enqueue apart: a dequeue may come between.
--   Sched      src/sched.c: the static variables are the record Sched. A process is the address of
--              its control block, and a function from addresses gives the block.
--              Sched/Invariant, Sched/Reach and Sched/Conserve have its invariant, over any sequence of
--              calls, and what is conserved; Sched/Policy which process is next. Sched/Simple is the
--              code without MLQ_SCHED.
--   Mm,Process The structs of include/os-mm.h and include/common.h.
--   Pte        The macros of include/mm.h, include/mm64.h and include/bitops.h on entries and
--              addresses, and init_pte.
--   Phy        The devices. src/mm-memphy.c is empty in the repository, so its functions are the
--              parameter MemphyOps, and MemphyLaws says what the code relies on: a frame comes off
--              the head of the free list, and bytes inside a random access device are those of an
--              array. Words of 8 bytes are little-endian.
--   Paging     The walks of src/mm64.c. The code that the source repeats for each level is one
--              function over the place of an entry, applied along the list of the lower indices;
--              pte_get_entry is walk, ensure_pte_mapping is ensure_walk. Paging/Tree says when the
--              tables form a tree, Paging/Fill and Paging/Ensure what a new table changes,
--              Paging/Outcome what a walk that allocates comes to,
--              Paging/Map what a mapping does, Paging/Progress when it succeeds and stays in
--              the RAM, and Paging/Owned,
--              Paging/Data, Paging/Steady and Paging/Congruence what a mapping and a byte written leave
--              as it was.
--   Vmap       The rest of src/mm64.c: ranges of pages, frames, the copy to swap, init_mm.
--              Vmap/Frames is about frames and the copy.
--   Vm         src/mm-vm.c.
--   Libmem     src/libmem.c: __alloc is alloc_region, __free is free_region, __read and __write are
--              read_region and write_region. Libmem/Regions says when the regions have a layout,
--              Libmem/Pages when the pages have frames of their own, Libmem/Bytes is about bytes at
--              addresses, Libmem/Access about bytes of regions, Libmem/Symbols about what leaves the
--              regions or the pages alone, Libmem/Release about freeing.
--   Calls      liballoc, libfree, libread and libwrite, with the registers of a process.
--   World      What the threads share: the scheduler, control blocks and memory maps by address, the
--              devices. A use of a control block that has been freed, or of NULL, is `none`.
--   Syscall    src/libstd.c, src/syscall.c, src/sys_mem.c and src/sys_mmstats.c. Syscall/Memmap is about
--              the process that system call 17 works on, Syscall/Statistics about call 440.
--   Cpu        run of src/cpu.c; Cpu/Counter is about the program counter, Cpu/Memory about a write and a
--              read, Cpu/Finish about running a process to its end.
--   Os         cpu_routine and ld_routine of src/os.c: one iteration of a thread's loop is a function
--              of the World and of its local variables, which says whether the thread then sleeps
--              in next_slot or stops. Os/Iteration and Os/Processor are about one processor.
--              Os/Threads is the runs of all threads in any order, in steps that take an iteration
--              apart at its call of get_proc; Os/Threads/Whole puts them together again, and
--              Os/Exclusive and Os/Alone are about these runs; what malloc promises of an address is a
--              premise of its steps. Os/System is the threads between their iterations, and Os/Machine
--              puts these and the timer together: an iteration is one step, which ends with what it
--              does to the device of its thread. Os/Machine/Clock is about its timer,
--              Os/Machine/Linked about how devices and threads go together, and Os/Machine/Progress
--              about the step that is left. Os/Config is read_config, Os/Boot main up to the threads.
--   Loader     load of src/loader.c. Loader/Scan is what the files are read with, fscanf, sscanf and
--              fgets on a list of bytes. Loader/Numbers is about decimal numbers, Loader/Print is the
--              text of descriptions, Loader/Instruction and Loader/RoundTrip are about reading it back,
--              and Loader/Short about a text that is too short. Os/Config/Print,
--              Os/Config/MemoryLine and Os/Config/RoundTrip do the same for configurations.
--   Timer      src/timer.c: a step of the timer or of a device is what it does under one lock, and
--              Reach is what the threads can make of the timer in any order. Timer/Sync and Timer/Loop
--              say in which slot each device is at each point of the timer's loop, Timer/Barrier what
--              follows from it, Timer/Rounds what the timer does by itself.
--   Legacy     src/mem.c and the functions of src/cpu.c before run, which MM_PAGING leaves unused.
--   Tests      A device that meets MemphyLaws, a process just started, and concrete runs.
--
-- A struct that C changes through a pointer is passed and returned: Krnl is what a process reaches,
-- its own memory map and the shared devices. A status is an integer, 0 for success and -1 for
-- failure, or Option where a result comes with it. An addr_t is a number below 2 ^ 64 and its sums
-- are taken modulo 2 ^ 64; the masks of entries are 32-bit constants. Every loop is a structural
-- recursion on its number of rounds or on its list, so no fuel is used: 50 entries of a queue, 140
-- levels, 512 entries of a table, 4096 bytes of a page, and the five levels of a walk.
--
-- Not modelled: each function of the scheduler and of the memory is one step, Os/Machine takes whole
-- iterations of the threads one after the other, and Os/Threads parts of them, so that calls that
-- overlap, which the locks do not all exclude, are left out; Queue/Race shows what one of them does.
-- An access to a table outside the RAM, which C leaves undefined, reads and writes a storage without
-- an end; a tree of tables has none (Paging/Progress).
-- Failures of malloc, the messages and dumps, the path that load keeps for messages, what main does
-- after it has started the threads, and the code that the configuration leaves out (src/mm.c,
-- src/paging.c, memory sizes without MM_FIXED_MEMSZ) are not modelled either. Numbers in files that do
-- not fit their variables are taken modulo 2 ^ 32 or 2 ^ 64. From World on, what C leaves undefined is
-- `none`, and in the loader `undefined`. Paging/Tree is about tables made by pte_set_fpn; the tables
-- that pte_set_swap makes are not cleared and need not form a tree.
pub mod Common
pub mod Libmem
pub mod Mm
pub mod Paging
pub mod Phy
pub mod Process
pub mod Pte
pub mod Queue
pub mod Sched
pub mod Tests
pub mod Timer
pub mod Vm
pub mod Vmap
pub mod World
pub mod Syscall
pub mod Cpu
pub mod Os
pub mod Calls
pub mod Loader
pub mod Legacy
