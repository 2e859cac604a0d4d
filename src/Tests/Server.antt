-- ===== src/Tests/Server.antt =====
-- Examples for the GDB server.
use projet_prog.Base.{ℕ, refl, ◌≡◌, ◌∷◌, [], false, arith, if◌then◌else◌, ◌==◌}
use projet_prog.Word.{x86, IsWord}
use projet_prog.Gdb.{Gdb, general_registers, write_general_registers, gdb_send_data}
use projet_prog.Gdb.Registers.{write-read_general_registers}
use projet_prog.Registers.{Registers, read_register, read_cpsr}
use projet_prog.Registers.Bank.{place}
use projet_prog.Registers.Copy.{IsKept}
use projet_prog.Tests.{gdb_with, core_with}

registers-IsWord : (i : ℕ) → IsWord ((gdb_with 0).arm.reg.reg_number i)
registers-IsWord i = ground arith

-- A server on another processor in the same mode.
abbrev other : Gdb
other = record (gdb_with 0) {
  arm = record (core_with 0) { reg = record { reg_number = λ i. if i == 16 then 0x1d3 else 8 } };
}

r13-IsKept : IsKept other.arm.reg 13
unfolding place
r13-IsKept = record { kept = refl; index = 17; placed = refl }

write-read_general_registers_example :
    (r : Registers) × (write_general_registers x86 false 7
        (0 ∷ [])
        other
        (general_registers x86 false (core_with 0))
      ≡ gdb_send_data (record other { arm = record other.arm { reg = r } }) (79 ∷ 75 ∷ []))
    × (read_register r 13 ≡ read_register (core_with 0).reg 13)
    × (read_cpsr r ≡ 0x1d3)
unfolding read_cpsr
write-read_general_registers_example =
    write-read_general_registers x86 false 7 (0 ∷ []) (core_with 0) other 13 registers-IsWord refl
      refl (omega arith) r13-IsKept
