-- ===== src/Tests/SystemCalls.antt =====
-- Process 7 and process 9 run, and process 9 calls the system.
use simple_operating_system.Sched.{zeroed}
use simple_operating_system.World.{World}
use simple_operating_system.Tests.Scheduling.{pcb, two}
use simple_operating_system.Tests.Machine.{world}

abbrev both_run : World
both_run = record (world (record zeroed { running_list = two }) 0) { procs = pcb }
