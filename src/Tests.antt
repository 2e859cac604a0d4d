-- ===== src/Tests.antt =====
-- Processors, registers and memories for the examples of the child modules.
pub mod Util
pub mod State
pub mod Run
pub mod Server
pub mod Requests
pub mod Connection
pub mod Transfer
pub mod Threads
pub mod Programs
use projet_prog.Base.{ℕ, ◌*◌, ◌/◌, ◌%◌, ◌^◌, true, false, [], if◌then◌else◌, ◌==◌}
use projet_prog.Registers.{Registers}
use projet_prog.Memory.{Memory}
use projet_prog.Core.{Core}
use projet_prog.LoadStore.{Unset}
use projet_prog.Gdb.{Gdb}

-- A register file at address 0x100 with the CPSR given; each other register holds three times its
-- number.
abbrev pub registers_with : ℕ → Registers
registers_with status = record {
  reg_number = λ i. if i == 15 then 0x100 else if i == 16 then status else i * 3 % 2 ^ 32;
}

-- A big-endian memory with one word `ins` at 0x100, and zeros elsewhere.
abbrev pub memory_with : ℕ → Memory
memory_with ins = record {
  is_big_endian = true;
  size = 0x200;
  memo = λ i.
      if i == 0x100
      then ins / 2 ^ 24
      else if i == 0x101
      then ins / 2 ^ 16 % 2 ^ 8
      else if i == 0x102
      then ins / 2 ^ 8 % 2 ^ 8
      else if i == 0x103
      then ins % 2 ^ 8
      else 0;
}

abbrev pub little_memory : Memory
little_memory = record { is_big_endian = false; size = 16; memo = λ i. i }

-- A processor in supervisor mode with the instruction `ins` to run.
abbrev pub core_with : ℕ → Core
core_with ins = record { cycle_count = 7; reg = registers_with 0x1d3; mem = memory_with ins }

abbrev pub unset_example : Unset
unset_example = record { ins = 0xea00_0002; val = 0xdead_beef; res = 0; rn = 0x40 }

-- A server for such a processor that has sent nothing.
abbrev pub gdb_with : ℕ → Gdb
gdb_with ins = record { arm = core_with ins; target_exception = 0; packet = []; sent = [] }
