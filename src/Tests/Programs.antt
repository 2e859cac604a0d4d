-- ===== src/Tests/Programs.antt =====
-- Examples for the test program of the memory, the listing of the registers and the reads of memory
-- through the server.
use projet_prog.Base.{ℕ, ◌≡◌, arith, true, false, List, [], ◌∷◌, ok, undefined}
use projet_prog.Word.{Host}
use projet_prog.Util.Macros.{reverse_2, reverse_4}
use projet_prog.MemoryTest.{Unread, main}
use projet_prog.MemoryTest.Passes.{main_lem}
use projet_prog.Registers.Bank.{place}
use projet_prog.Core.Print.{with_hidden, IsHidden, arm_print_state, arm_print_state-store}
use projet_prog.Text.{codes, digit_value, length, scan_hex, scan_rest, skip_hex}
use projet_prog.Gdb.Requests.{scan_address, scan_size, Locals, read_memory}
use projet_prog.Gdb.Bounds.{read_memory_bounds}
use projet_prog.Tests.{gdb_with, core_with}

-- A big-endian machine.
abbrev big_host : Host
big_host = record { big_endian = true; overshift = λ x n. 0 }

abbrev unread : Unread
unread = record { word_read = 1; half_read = 2; value = 3 }

-- On it the four tests in the other order fail.
main_lem_example :
    main big_host (λ _. 7) (λ _. 8) unread 0x1122_3344 0x5566
    ≡ ok (true ∷ true ∷ false ∷ false ∷ true ∷ true ∷ false ∷ false ∷ [])
unfolding reverse_2 reverse_4
main_lem_example =
    main_lem big_host (λ _. 7) (λ _. 8) unread 0x1122_3344 0x5566 (λ k. omega arith)
      (λ k. omega arith) (omega arith) (omega arith)

-- r13 of the abort mode, for a processor in supervisor mode.
hidden : IsHidden (core_with 0) 20
unfolding place
hidden = (omega arith, λ reg l. ground arith)

arm_print_state-store_example :
    (text : List ℕ) × (arm_print_state (core_with 0) ≡ ok text)
    × (arm_print_state (with_hidden (core_with 0) 20 5) ≡ ok text)
arm_print_state-store_example = arm_print_state-store (core_with 0) 20 5 hidden

abbrev locals_example : Locals
locals_example = record {
  value = 1;
  address = 2;
  size = 3;
  reg = 4;
  instruction = 5;
  behind = 0 ∷ [];
  overflow = λ n. n;
}

-- The 510 bytes from address 1.
read_memory_bounds_example : read_memory locals_example (gdb_with 0) (codes "1,1fe") ≡ undefined
unfolding length scan_address scan_hex digit_value scan_rest scan_size skip_hex
read_memory_bounds_example =
    read_memory_bounds locals_example (gdb_with 0) (codes "1,1fe") (omega arith) (omega arith)
