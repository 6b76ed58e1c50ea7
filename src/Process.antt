-- ===== src/Process.antt =====
-- The processes of include/common.h: instructions, code and the control block.
use simple_operating_system.Common.{ℕ, List}
use simple_operating_system.Mm.{Krnl}

-- enum ins_opcode_t.
pub data Opcode : Type 0 where
  calc alloc free read write syscall : Opcode

-- struct inst_t.
pub record Inst : Type 0 where
  pub opcode : Opcode
  pub arg_0 : ℕ
  pub arg_1 : ℕ
  pub arg_2 : ℕ
  pub arg_3 : ℕ

-- struct pcb_t. The code segment is its list of instructions, whose length is `code->size`. The
-- pointer `krnl` is not a field: a `Caller` has a process together with what `krnl` leads to.
pub record Pcb : Type 0 where
  pub pid : ℕ
  pub priority : ℕ
  pub code : List Inst
  pub regs : List ℕ
  pub pc : ℕ
  pub prio : ℕ
  pub bp : ℕ

-- The registers of a control block.
abbrev pub num_regs : ℕ
num_regs = 10

pub record Caller : Type 0 where
  pub proc : Pcb
  pub krnl : Krnl
