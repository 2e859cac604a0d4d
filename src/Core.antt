-- ===== src/Core.antt =====
-- arm_core.c and arm_exception.c: the state of the processor and the accesses to its registers and
-- its memory. The calls of the trace, which print and do not change that state, are left out.
pub mod Pc
pub mod Print
pub mod Valid
use projet_prog.Base.{
  ℕ, ◌+◌, ◌-◌, ◌*◌, ◌%◌, ◌^◌, Bool, bit_and, if◌then◌else◌, ◌==◌, Outcome, ok, ◌>>=◌,
}
use projet_prog.Word.{Host, add32, sub32, word}
use projet_prog.Constants.{reset}
use projet_prog.Registers
use projet_prog.Registers.{Registers}
use projet_prog.Memory.{
  Memory, Read, Written, memory_read_byte, memory_read_half, memory_read_word, memory_write_byte,
  memory_write_half, memory_write_word,
}

-- `struct arm_core_data`
pub record Core : Type 0 where
  pub cycle_count : ℕ
  pub reg : Registers
  pub mem : Memory

abbrev pub arm_current_mode_has_spsr : Core → Bool
arm_current_mode_has_spsr p = Registers.current_mode_has_spsr p.reg

abbrev pub arm_in_a_privileged_mode : Core → Bool
arm_in_a_privileged_mode p = Registers.in_a_privileged_mode p.reg

abbrev pub arm_get_cycle_count : Core → ℕ
arm_get_cycle_count p = p.cycle_count

-- What is added to a value read from the program counter: `value += 4; value &= 0xFFFFFFFD`.
unfoldable pub pc_adjust : ℕ → ℕ → ℕ
pc_adjust reg value = if reg == 15 then bit_and (add32 value 4) 0xffff_fffd else value

unfoldable pub arm_read_register : Core → ℕ → ℕ
arm_read_register p reg = pc_adjust reg (Registers.read_register p.reg reg)

unfoldable pub arm_read_usr_register : Core → ℕ → ℕ
arm_read_usr_register p reg = pc_adjust reg (Registers.read_usr_register p.reg reg)

abbrev pub arm_read_cpsr : Core → ℕ
arm_read_cpsr p = Registers.read_cpsr p.reg

abbrev pub arm_read_spsr : Core → ℕ
arm_read_spsr p = Registers.read_spsr p.reg

abbrev pub arm_write_register : Core → ℕ → ℕ → Core
arm_write_register p reg value = record p { reg = Registers.write_register p.reg reg value }

abbrev pub arm_write_usr_register : Core → ℕ → ℕ → Core
arm_write_usr_register p reg value = record p { reg = Registers.write_usr_register p.reg reg value }

abbrev pub arm_write_cpsr : Core → ℕ → Core
arm_write_cpsr p value = record p { reg = Registers.write_cpsr p.reg value }

abbrev pub arm_write_spsr : Core → ℕ → Core
arm_write_spsr p value = record p { reg = Registers.write_spsr p.reg value }

-- Only the reset has an effect.
unfoldable pub arm_exception : Core → ℕ → Core
arm_exception p exception =
    if exception == reset then arm_write_usr_register (arm_write_cpsr p 0x1d3) 15 0 else p

-- `arm_create` over the register block that `registers_create` gives. A new block's `cycle_count`
-- has no value before the reset, hence the argument.
unfoldable pub arm_create : ℕ → Registers → Memory → Core
arm_create cycle_count reg mem =
    record (arm_exception (record { cycle_count = cycle_count; reg = reg; mem = mem }) reset) {
      cycle_count = 0;
    }

-- A status, the content of `*value`, and the processor after the call.
pub record Fetched : Type 0 where
  pub status : ℕ
  pub value : ℕ
  pub core : Core

-- A status and the processor after the call.
pub record Stepped : Type 0 where
  pub status : ℕ
  pub core : Core

abbrev pub arm_read_byte : Core → ℕ → ℕ → Outcome Read
arm_read_byte p address value = memory_read_byte p.mem address value

-- The store of a byte, with the conversion of the argument to `uint8_t`.
unfoldable pub arm_write_byte : Core → ℕ → ℕ → Outcome Stepped
arm_write_byte p address value = memory_write_byte p.mem address (value % 2 ^ 8) >>= λ w.
    ok (record { status = w.status; core = record p { mem = w.mem } })

module _ (host : Host) where
  abbrev pub arm_read_half : Core → ℕ → ℕ → Outcome Read
  arm_read_half p address value = memory_read_half host p.mem address value

  abbrev pub arm_read_word : Core → ℕ → ℕ → Outcome Read
  arm_read_word p address value = memory_read_word host p.mem address value

  unfoldable pub arm_write_half : Core → ℕ → ℕ → Outcome Stepped
  arm_write_half p address value = memory_write_half host p.mem address (value % 2 ^ 16) >>= λ w.
      ok (record { status = w.status; core = record p { mem = w.mem } })

  unfoldable pub arm_write_word : Core → ℕ → ℕ → Outcome Stepped
  arm_write_word p address value = memory_write_word host p.mem address value >>= λ w.
      ok (record { status = w.status; core = record p { mem = w.mem } })

  -- The program counter moves on whether or not the read succeeds.
  unfoldable pub arm_fetch : Core → ℕ → Outcome Fetched
  arm_fetch p value = do
    let p1 = record p { cycle_count = add32 p.cycle_count 1 }
    let address = sub32 (arm_read_register p1 15) 4
    r ← memory_read_word host p1.mem address value
    ok (record {
      status = r.status;
      value = r.value;
      core = arm_write_register p1 15 (add32 address 4);
    })
