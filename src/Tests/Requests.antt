-- ===== src/Tests/Requests.antt =====
-- Examples for the requests of the GDB server.
use projet_prog.Base.{◌==◌, ◌||◌, if◌then◌else◌, List, ℕ, ◌≡◌, refl, arith, true, [], ◌∷◌, ◌++◌, ok}
use projet_prog.Word.{x86}
use projet_prog.Memory.{Memory, memory_read, gather, load_cell}
use projet_prog.Registers.{write_register, write_r14, read_cpsr}
use projet_prog.Util.{cond_valid}
use projet_prog.Core.Pc.{advanced}
use projet_prog.Instruction.Step.{arm_step-branch}
use projet_prog.Core.{Core, arm_write_register}
use projet_prog.Instruction.{arm_step}
use projet_prog.Gdb.{Gdb}
use projet_prog.Gdb.Requests.{
  Locals, cont_loop, read_memory, write_memory_binary, scan_address, scan_size,
}
use projet_prog.Gdb.Continue.{IsAt, cont_loop-ComesTo}
use projet_prog.Gdb.Content.{answered, encode, printed, stored, write_memory_binary-read_memory}
use projet_prog.Text.{codes, length, after, digit_value, scan_hex, scan_rest, skip_hex}
use projet_prog.Tests.{core_with, unset_example, gdb_with}

abbrev locals_example : Locals
locals_example = record {
  value = 1;
  address = 2;
  size = 3;
  reg = 4;
  instruction = 5;
  behind = 0 ∷ [];
  overflow = λ n. n;
}

-- The bytes # and 5 at 0x10, and the request to read them.
abbrev write_text : List ℕ
write_text = codes "10,2:" ++ encode (0x23 ∷ 5 ∷ [])

write_memory_binary-read_memory_example :
    let mem' = record (gdb_with 0).arm.mem {
      memo = stored (gdb_with 0).arm.mem.memo 0x10 (0x23 ∷ 5 ∷ []);
    } in
    let gdb1 =
      answered
        (record (gdb_with 0) { arm = record (gdb_with 0).arm { mem = mem' } })
        (codes "OK") in
    (write_memory_binary locals_example (gdb_with 0) write_text ≡ ok gdb1)
    × (read_memory locals_example gdb1 (codes "10,2")
        ≡ ok (answered gdb1 (printed (0x23 ∷ 5 ∷ []))))
unfolding length after encode scan_address scan_hex digit_value scan_rest scan_size skip_hex
write_memory_binary-read_memory_example =
    write_memory_binary-read_memory locals_example locals_example (gdb_with 0) write_text
      (codes "10,2") (0x23 ∷ 5 ∷ []) 0x10 (omega arith, (omega arith, tt)) (omega arith)
      (omega arith) (omega arith) (omega arith) refl refl refl refl refl

-- A branch to the undefined instruction two words after it.
abbrev trap_memory : Memory
trap_memory = record {
  is_big_endian = true;
  size = 0x200;
  memo = λ i.
      if i == 0x100
      then 0xeb
      else if i == 0x108
      then 0xe7
      else if i == 0x109 || i == 0x10b
      then 0xf0
      else 0;
}

abbrev before_trap : Gdb
before_trap = record (gdb_with 0) { arm = record (core_with 0) { mem = trap_memory } }

abbrev at_trap : Core
at_trap = arm_write_register (arm_write_register (advanced before_trap.arm) 14 0x104) 15 0x108

before_trap-IsAt : IsAt x86 (λ _. unset_example) before_trap.arm 0xeb00_0000
unfolding memory_read gather load_cell
before_trap-IsAt = record {
  counter = omega arith;
  aligned = refl;
  is_word = omega arith;
  read = λ old. refl;
}

at_trap-IsAt : IsAt x86 (λ _. unset_example) at_trap 0xe7f0_00f0
unfolding memory_read gather load_cell write_register write_r14
at_trap-IsAt = record {
  counter = omega arith;
  aligned = refl;
  is_word = omega arith;
  read = λ old. refl;
}

to_trap : arm_step x86 unset_example before_trap.arm ≡ ok (record { status = 0; core = at_trap })
unfolding read_cpsr cond_valid memory_read gather load_cell
to_trap =
    arm_step-branch x86 unset_example before_trap.arm 0xeb00_0000 (omega arith) refl refl refl refl

cont_loop-ComesTo_example :
    cont_loop x86 (λ _. unset_example) 3 0 before_trap 5
    ≡ ok (record before_trap { arm = at_trap; target_exception = 0 })
cont_loop-ComesTo_example =
    cont_loop-ComesTo x86 (λ _. unset_example) 1 3 0 before_trap 5
      (record before_trap { arm = at_trap; target_exception = 0 }) (omega arith)
      (
        0xeb00_0000,
        record { status = 0; core = at_trap },
        before_trap-IsAt,
        refl,
        to_trap,
        (0xe7f0_00f0, at_trap-IsAt, refl, refl),
      )
