-- ===== src/Tests/State.antt =====
-- Examples for the registers and the memory.
use projet_prog.Base.{◌≡◌, refl, arith, ok, undefined}
use projet_prog.Word.{x86}
use projet_prog.Registers.{read_register, write_register, write_cpsr, store}
use projet_prog.Registers.Bank.{place, read_register-place, write_register-place}
use projet_prog.Registers.Frame.{read-write_self, read-write_ne}
use projet_prog.Registers.Modes.{write_abt_r13-read_fiq_r9}
use projet_prog.Memory.{memory_read, memory_write}
use projet_prog.Memory.BigEndian.{big_endian_at, memory_write-read}
use projet_prog.Memory.Bounds.{memory_bounds}
use projet_prog.Memory.LittleEndian.{little_endian_at, memory_write-read_little}
use projet_prog.Tests.{registers_with, memory_with, little_memory}

-- r13 of the supervisor mode is at place 17.
read_register-place_example : read_register (registers_with 0x1d3) 13 ≡ 51
unfolding place
read_register-place_example = read_register-place (registers_with 0x1d3) 13

write_register-place_example :
    write_register (registers_with 0x1d7) 14 5 ≡ store (registers_with 0x1d7) 21 5
unfolding place
write_register-place_example = write_register-place (registers_with 0x1d7) 14 5

read-write_self_example : read_register (write_register (registers_with 0x1d3) 13 5) 13 ≡ 5
unfolding place
read-write_self_example =
    read-write_self (registers_with 0x1d3) 13 5 {i = 17} (omega arith) refl refl

read-write_ne_example :
    read_register (write_register (registers_with 0x1d3) 13 5) 14
    ≡ read_register (registers_with 0x1d3) 14
read-write_ne_example = read-write_ne (registers_with 0x1d3) 13 14 5 (omega arith) (omega arith)

write_abt_r13-read_fiq_r9_example :
    read_register (write_cpsr (write_register (registers_with 0x1d7) 13 5) 0x1d1) 9 ≡ 5
write_abt_r13-read_fiq_r9_example =
    write_abt_r13-read_fiq_r9 (registers_with 0x1d7) 5 0x1d1 refl refl

memory_write-read_example :
    let mem' = record (memory_with 0) {
      memo = big_endian_at (memory_with 0).memo 4 0x1fc 0x1234_5678;
    } in
    (memory_write x86 4 (memory_with 0) 0x1fc 0x1234_5678 ≡ ok (record { status = 0; mem = mem' }))
    × (memory_read x86 4 mem' 0x1fc 9 ≡ ok (record { status = 0; value = 0x1234_5678 }))
memory_write-read_example =
    memory_write-read x86 (memory_with 0) 4 0x1fc 0x1234_5678 9 refl (omega arith) (omega arith)
      (omega arith) (omega arith)

-- A word at the last byte of the memory.
memory_bounds_example :
    (memory_read x86 4 (memory_with 0) 0x1ff 9 ≡ undefined)
    × (memory_write x86 4 (memory_with 0) 0x1ff 9 ≡ undefined)
memory_bounds_example = memory_bounds x86 (memory_with 0) 4 0x1ff 9 refl (omega arith)

memory_write-read_little_example :
    let mem' = record little_memory {
      memo = little_endian_at little_memory.memo 4 12 0x1234_5678;
    } in
    (memory_write x86 4 little_memory 3 0x1234_5678 ≡ ok (record { status = 0; mem = mem' }))
    × (memory_read x86 4 mem' 3 9 ≡ ok (record { status = 0; value = 0x1234_5678 }))
memory_write-read_little_example =
    memory_write-read_little x86 little_memory 4 3 0x1234_5678 9 refl refl (omega arith)
      (omega arith) (omega arith)
