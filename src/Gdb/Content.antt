-- ===== src/Gdb/Content.antt =====
-- Memory through the server: the binary request to write it, and the request to read it back.
use projet_prog.Base.{
  ◌*◌, ℕ, ◌+◌, ◌%◌, ◌^◌, ◌≤◌, ◌<◌, ◌≡◌, ◌⊎◌, refl, ap, ◌∙◌, arith, Bool, true, false, ◌||◌,
  if◌then◌else◌, ◌==◌, lt→ltb, Bool-cases, inl, inr, List, [], ◌∷◌, ◌++◌, some, ok, bit_xor,
}
use projet_prog.Word.{add32}
use projet_prog.Memory.{Memory, update}
use projet_prog.Memory.BigEndian.{memory_read_byte_in, memory_write_byte_in}
use projet_prog.Text.{codes, length, print_byte, after}
use projet_prog.Gdb.{Gdb, framed, gdb_send_buffer, gdb_transmit_packet}
use projet_prog.Gdb.Requests.{
  Locals, scan_address, scan_size, print_memory, read_memory, next_escaped, next_byte, write_binary,
  write_content, write_memory_binary,
}

abbrev is_quoted : ℕ → Bool
is_quoted b = b == 0x23 || (b == 0x24 || (b == 0x2a || b == 0x7d))

-- How GDB sends a byte in binary: # $ * and } come as } and the byte with bit 5 flipped.
unfoldable pub encode : List ℕ → List ℕ
encode [] = []
encode (b ∷ bs) =
    let rest = encode bs in if is_quoted b then 0x7d ∷ bit_xor b 0x20 ∷ rest else b ∷ rest

-- The reply to a read of these bytes.
unfoldable pub printed : List ℕ → List ℕ
printed [] = []
printed (b ∷ bs) = print_byte b ++ printed bs

abbrev pub AreBytes : List ℕ → Type 0
AreBytes [] = Unit
AreBytes (b ∷ bs) = (b < 2 ^ 8) × AreBytes bs

-- The content with the bytes stored from an address on.
unfoldable pub stored : (ℕ → ℕ) → ℕ → List ℕ → ℕ → ℕ
stored memo a [] = memo
stored memo a (b ∷ bs) = stored (update memo a b) (a + 1) bs

stored_below : (memo : ℕ → ℕ) (a : ℕ) (bs : List ℕ) (j : ℕ) → j < a → stored memo a bs j ≡ memo j
unfolding stored
stored_below memo a [] j l = refl
stored_below memo a (b ∷ bs) j l =
    stored_below (update memo a b) (a + 1) bs j (omega arith) ∙ ground arith

quoted_cases : (b : ℕ) → is_quoted b ≡ true → (b ≡ 0x23) ⊎ ((b ≡ 0x24) ⊎ ((b ≡ 0x2a) ⊎ (b ≡ 0x7d)))
quoted_cases b h = ground arith

flip_twice : (b : ℕ) → is_quoted b ≡ true → bit_xor (bit_xor b 0x20) 0x20 ≡ b
flip_twice b h = elim (quoted_cases b h) [
  | inl e ↦ rw e refl
  | inr (inl e) ↦ rw e refl
  | inr (inr (inl e)) ↦ rw e refl
  | inr (inr (inr e)) ↦ rw e refl
]

unquoted-ne : (b : ℕ) → is_quoted b ≡ false → (b == 0x7d) ≡ false
unquoted-ne b h = ground arith

next_byte-encode :
    (b : ℕ) (bs rest : List ℕ) → next_byte (encode (b ∷ bs) ++ rest) ≡ ok (b, encode bs ++ rest)
unfolding next_byte next_escaped encode
next_byte-encode b bs rest = elim (Bool-cases (is_quoted b)) [
  | inl e ↦ rw e (ap (λ (t : ℕ). ok (t, encode bs ++ rest)) (flip_twice b e))
  | inr e ↦ rw (e, unquoted-ne b e)
]

write_binary-encode :
    (mem : Memory) (a : ℕ) (bs rest : List ℕ)
    → AreBytes bs
    → a + length bs ≤ mem.size
    → mem.size < 2 ^ 32
    → write_binary (length bs) mem a (encode bs ++ rest)
      ≡ ok (record { write_ok = true; mem = record mem { memo = stored mem.memo a bs } })
unfolding write_binary length stored
write_binary-encode mem a [] rest h l s = refl
write_binary-encode mem a (b ∷ bs) rest h l s =
    let low : b % 2 ^ 8 ≡ b = omega arith in
    let next : add32 a 1 ≡ a + 1 = omega arith in
    rw (next_byte-encode b bs rest, low, memory_write_byte_in mem a b (omega arith), next)
      (write_binary-encode (record mem { memo = update mem.memo a b }) (a + 1) bs rest h.1
        (omega arith) s)

print_memory-stored :
    (mem : Memory) (a : ℕ) (bs : List ℕ) (memo : ℕ → ℕ) (value : ℕ)
    → mem.memo ≡ stored memo a bs
    → a + length bs ≤ mem.size
    → mem.size < 2 ^ 32
    → print_memory (length bs) mem a value ≡ ok (printed bs)
unfolding print_memory length printed
print_memory-stored mem a [] memo value e l s = refl
print_memory-stored mem a (b ∷ bs) memo value e l s =
    let first : mem.memo a ≡ b =
      ap (λ (f : ℕ → ℕ). f a) e
      ∙ unfold stored in stored_below (update memo a b) (a + 1) bs a (omega arith) ∙ ground arith in
    let next : add32 a 1 ≡ a + 1 = omega arith in
    rw (
      memory_read_byte_in mem a value (omega arith),
      first,
      next,
      print_memory-stored mem (a + 1) bs (update memo a b) b (unfold stored in e) (omega arith) s,
    )

length-printed_bytes : (bs : List ℕ) → length (printed bs) ≡ 2 * length bs
unfolding length printed print_byte
length-printed_bytes [] = refl
length-printed_bytes (b ∷ bs) = omega (arith, length-printed_bytes bs)

-- The server after it has answered with a text that fits in its packet.
abbrev pub answered : Gdb → List ℕ → Gdb
answered gdb text = gdb_transmit_packet (record gdb { packet = framed text })

send_printed :
    (gdb : Gdb) (bs : List ℕ)
    → length bs < 510
    → gdb_send_buffer gdb (printed bs) ≡ ok (answered gdb (printed bs))
unfolding gdb_send_buffer
send_printed gdb bs l = rw (length-printed_bytes bs) (ground arith)

-- A binary request that announces the address and the number of at most 509 bytes and holds them the
-- way GDB sends them, where they lie within a memory of less than 2 ^ 32 bytes, stores them and is
-- answered with OK, and a request to the server after that to read as many bytes from that address is
-- answered with them in hexadecimal.
pub write_memory_binary-read_memory :
    (locals locals' : Locals) (gdb : Gdb) (data' asked bs : List ℕ) (address : ℕ)
    → AreBytes bs
    → address < gdb.arm.mem.size
    → address + length bs ≤ gdb.arm.mem.size
    → gdb.arm.mem.size < 2 ^ 32
    → length bs < 510
    → scan_address locals data' ≡ address
    → scan_size locals data' ≡ length bs
    → after b':' data' ≡ some (encode bs)
    → scan_address locals' asked ≡ address
    → scan_size locals' asked ≡ length bs
    → let mem' = record gdb.arm.mem { memo = stored gdb.arm.mem.memo address bs } in
      let gdb1 = answered (record gdb { arm = record gdb.arm { mem = mem' } }) (codes "OK") in
      (write_memory_binary locals gdb data' ≡ ok gdb1)
      × (read_memory locals' gdb1 asked ≡ ok (answered gdb1 (printed bs)))
unfolding write_memory_binary write_content read_memory gdb_send_buffer gdb_transmit_packet length
write_memory_binary-read_memory locals locals' gdb data' asked bs address h i l s few a n c a' n' =
    (
      rw (c, write_memory_binary)
          (rw (
            a,
            n,
            lt→ltb address gdb.arm.mem.size i,
            write_binary-encode gdb.arm.mem address bs locals.behind h l s,
          )),
      rw
          (
            a',
            n',
            print_memory-stored (record gdb.arm.mem { memo = stored gdb.arm.mem.memo address bs })
                address bs gdb.arm.mem.memo locals'.value refl l s,
          )
          (send_printed
            (answered
              (record gdb {
                arm = record gdb.arm {
                  mem = record gdb.arm.mem { memo = stored gdb.arm.mem.memo address bs };
                };
              })
              (codes "OK"))
            bs few),
    )
