-- ===== src/Tests/Instructions.antt =====
-- A process that writes a byte and reads it back into a register.
use simple_operating_system.Common.{
  ◌%◌, ◌≡◌, ◌∙◌, refl, ap, some, [], ◌∷◌, arith, set, replicate, ℤ, success,
}
use simple_operating_system.Mm.{Krnl}
use simple_operating_system.Process.{read, write, Pcb}
use simple_operating_system.Calls.{extend_byte, libwrite}
use simple_operating_system.World.{World, deref, store_caller}
use simple_operating_system.Cpu.{stored, advance, run}
use simple_operating_system.Cpu.Memory.{stepped, run-write, run-write_read}
use simple_operating_system.Tests.Device.{device, device-MemphyLaws, ram, started}
use simple_operating_system.Tests.Bytes.{started-Pages}
use simple_operating_system.Tests.Regions.{fresh, written, written-success, divided-Pages}
use simple_operating_system.Tests.Scheduling.{booted, pcb}

abbrev process : Pcb
process = record (pcb 1) {
  regs = replicate 10 0;
  code =
      record { opcode = write; arg_0 = 77; arg_1 = 0; arg_2 = 7; arg_3 = 0 }
      ∷ record { opcode = read; arg_0 = 0; arg_1 = 7; arg_2 = 2; arg_3 = 0 }
      ∷ [];
}

abbrev before : World
before = record {
  sched = booted;
  procs = λ p. process;
  mms = λ p. fresh.mm;
  freed = [];
  mram = ram;
  active_mswp = ram;
  done = 0;
}

abbrev between : World
between =
    store_caller (advance before 1) 1
      (record (stepped device device-MemphyLaws 0 before 1) { krnl = written })

wrote : run device 0 before 1 ≡ some (between, success)
unfolding libwrite stored deref
wrote =
    run-write device device-MemphyLaws 0 before 1 process 77 0 7 0 refl refl
    ∙ ap
        (λ (r : Krnl × ℤ).
          stored (advance before 1) 1
            (some (record (stepped device device-MemphyLaws 0 before 1) { krnl = r.0 }, r.1)))
        written-success

run-write_read_example :
    (after : World) × (run device 0 between 1 ≡ some (after, success))
    × ((after.procs 1).regs ≡ set (between.procs 1).regs 2 (extend_byte (77 % 256)))
unfolding deref
run-write_read_example =
    run-write_read device device-MemphyLaws 0 (λ f. []) before between 1 process 77 0 7 2 0 0
      (divided-Pages (λ f. []) started started-Pages) refl refl refl (omega arith) (omega arith)
      wrote
