-- ===== src/Gdb/Bounds.antt =====
-- How much memory one request may read: its answer in hexadecimal has to fit in the packet.
use projet_prog.Base.{
  ℕ, zero, suc, ◌+◌, ◌*◌, ◌^◌, ◌≤◌, ◌<◌, ◌≡◌, refl, arith, if◌then◌else◌, ltb, List, [], ◌∷◌, ok,
  undefined,
}
use projet_prog.Word.{add32}
use projet_prog.Memory.{Memory}
use projet_prog.Text.{length, print_byte}
use projet_prog.Gdb.{Gdb, framed, gdb_send_buffer, gdb_transmit_packet}
use projet_prog.Gdb.Requests.{Locals, scan_address, scan_size, print_memory, read_memory}
use projet_prog.Gdb.Content.{printed}
use projet_prog.Memory.BigEndian.{memory_read_byte_in}

-- The bytes of the memory from an address on.
unfoldable pub bytes_from : (ℕ → ℕ) → ℕ → ℕ → List ℕ
bytes_from memo zero a = []
bytes_from memo (suc n) a = memo a ∷ bytes_from memo n (a + 1)

length-printed : (memo : ℕ → ℕ) (n a : ℕ) → length (printed (bytes_from memo n a)) ≡ 2 * n
unfolding length printed bytes_from print_byte
length-printed memo zero a = refl
length-printed memo (suc n) a = omega (arith, length-printed memo n (a + 1))

print_memory-bytes_from :
    (mem : Memory) (n a value : ℕ)
    → a + n ≤ mem.size
    → mem.size < 2 ^ 32
    → print_memory n mem a value ≡ ok (printed (bytes_from mem.memo n a))
unfolding print_memory bytes_from printed
print_memory-bytes_from mem zero a value l s = refl
print_memory-bytes_from mem (suc n) a value l s =
    let next : add32 a 1 ≡ a + 1 = omega arith in
    rw (
      memory_read_byte_in mem a value (omega arith),
      next,
      print_memory-bytes_from mem n (a + 1) (mem.memo a) (omega arith) s,
    )

-- A request for bytes that all lie in a memory of less than 2 ^ 32 bytes is answered by all of them,
-- in hexadecimal, if it is for at most 509, and goes past the end of the array with the packet if it is
-- for more.
pub read_memory_bounds :
    (locals : Locals) (gdb : Gdb) (data' : List ℕ)
    → scan_address locals data' + scan_size locals data' ≤ gdb.arm.mem.size
    → gdb.arm.mem.size < 2 ^ 32
    → read_memory locals gdb data' ≡ (
        if ltb (scan_size locals data') 510
        then ok (
            gdb_transmit_packet (record gdb {
              packet = framed (
                  printed (
                    bytes_from gdb.arm.mem.memo
                      (scan_size locals data')
                      (scan_address locals data')));
            }))
        else undefined)
unfolding read_memory gdb_send_buffer
read_memory_bounds locals gdb data' l s =
    rw
      (print_memory-bytes_from gdb.arm.mem (scan_size locals data') (scan_address locals data')
        locals.value l s)
      (rw (length-printed gdb.arm.mem.memo (scan_size locals data') (scan_address locals data'))
        (ground arith))
