-- ===== src/Gdb/Requests.antt =====
-- gdb_protocol.c: the requests on memory and on one register, the other ones, and their table.
use projet_prog.Base.{
  ℕ, zero, suc, ◌+◌, ◌%◌, ◌^◌, bit_and, bit_xor, Bool, true, false, ◌&&◌, ◌||◌, if◌then◌else◌, ◌==◌,
  ltb, List, [], ◌∷◌, ◌++◌, Option, none, some, Outcome, ok, undefined, exited, unfinished, ◌>>=◌,
}
use projet_prog.Word.{Host, add32, sub32, word, minus_one}
use projet_prog.Memory.{Memory, memory_get_size, memory_read_byte, memory_write_byte}
use projet_prog.Core.{arm_read_register, arm_write_register, arm_read_word}
use projet_prog.LoadStore.{Unset}
use projet_prog.Instruction.{arm_step}
use projet_prog.Text.{
  codes, length, take, print_byte, scan_hex, skip_hex, after, c_string, atoi, same_text,
}
use projet_prog.Gdb.{
  Gdb, gdb_send_buffer, gdb_send_data, read_uint32, write_uint32, gdb_send_stop_reason, reason,
  step, read_general_registers, write_general_registers,
}

-- What the variables that a request scans into hold before, and the `instruction` of `cont`; and the
-- bytes in memory behind the request, from the 0 that closes it to the end of the scanner's buffer,
-- which is a 0 too.
pub record Locals : Type 0 where
  pub value : ℕ
  pub address : ℕ
  pub size : ℕ
  pub reg : ℕ
  pub instruction : ℕ
  pub behind : List ℕ
  pub overflow : ℕ → ℕ

-- A number that was scanned: `overflow` gives what `sscanf` makes of one that is too large.
abbrev pub scanned : Locals → ℕ → ℕ
scanned locals n = if ltb n (2 ^ 32) then n else word (locals.overflow n)

-- `sscanf(data, "%x,%x", &address, &size)`: the size is scanned only after a number and a comma.
unfoldable pub scan_address : Locals → List ℕ → ℕ
scan_address locals data' = scanned locals (scan_hex data' locals.address)

abbrev pub size_after : Locals → List ℕ → ℕ
size_after locals [] = locals.size
size_after locals (c ∷ cs) =
    if c == b',' then scanned locals (scan_hex cs locals.size) else locals.size

unfoldable pub scan_size : Locals → List ℕ → ℕ
scan_size locals data' =
    if length (skip_hex data') == length data'
    then locals.size
    else size_after locals (skip_hex data')

-- The loop of `read_memory`, with `size` rounds left: the bytes printed until a read fails.
unfoldable pub print_memory : ℕ → Memory → ℕ → ℕ → Outcome (List ℕ)
print_memory zero mem address value = ok []
print_memory (suc size) mem address value = do
  r ← memory_read_byte mem address value
  elim (r.status == minus_one) [
    | true ↦ ok []
    | false ↦
        (print_memory size mem (add32 address 1) r.value >>= λ rest.
        ok (print_byte r.value ++ rest))
  ]

unfoldable pub read_memory : Locals → Gdb → List ℕ → Outcome Gdb
read_memory locals gdb data' = do
  text ← print_memory (scan_size locals data') gdb.arm.mem (scan_address locals data') locals.value
  gdb_send_buffer gdb text

-- The next byte of binary content, and what follows it: after 0x7d comes a byte with bit 5 flipped.
unfoldable pub next_escaped : List ℕ → Outcome (ℕ × List ℕ)
next_escaped [] = undefined
next_escaped (c ∷ cs) = ok (bit_xor c 0x20, cs)

unfoldable pub next_byte : List ℕ → Outcome (ℕ × List ℕ)
next_byte [] = undefined
next_byte (c ∷ cs) = if c == 0x7d then next_escaped cs else ok (c, cs)

-- `write_ok` and the memory after the loop of `write_memory_binary`.
pub record Accepted : Type 0 where
  pub write_ok : Bool
  pub mem : Memory

unfoldable pub write_binary : ℕ → Memory → ℕ → List ℕ → Outcome Accepted
write_binary zero mem address content = ok (record { write_ok = true; mem = mem })
write_binary (suc size) mem address content = do
  b ← next_byte content
  w ← memory_write_byte mem address (b.0 % 2 ^ 8)
  elim (w.status == 0) [
    | true ↦ write_binary size w.mem (add32 address 1) b.1
    | false ↦ ok (record { write_ok = false; mem = w.mem })
  ]

unfoldable pub write_content : Gdb → ℕ → ℕ → List ℕ → Outcome Gdb
write_content gdb address size content = do
  a ←
      if ltb address (memory_get_size gdb.arm.mem)
      then write_binary size gdb.arm.mem address content
      else ok (record { write_ok = false; mem = gdb.arm.mem })
  let gdb' = record gdb { arm = record gdb.arm { mem = a.mem } }
  if a.write_ok then gdb_send_data gdb' (codes "OK") else gdb_send_data gdb' (codes "E02")

unfoldable pub write_memory_binary : Locals → Gdb → List ℕ → Outcome Gdb
write_memory_binary locals gdb data' = elim (after b':' data') [
  | none ↦ undefined
  | some content ↦
      write_content gdb (scan_address locals data') (scan_size locals data')
        (content ++ locals.behind)
]

-- `read_register` and `write_register` of this file. The assertion is on the register's number. A
-- value that is too short is read on in the bytes behind it, and out of the buffer if it ends before.
unfoldable pub gdb_read_register : Host → Bool → Gdb → List ℕ → Outcome Gdb
gdb_read_register host big gdb data' =
    let reg = atoi data' in
    if ltb reg 16
    then gdb_send_buffer gdb
        (write_uint32 host big (sub32 (arm_read_register gdb.arm reg) (if reg == 15 then 4 else 0)))
    else exited

unfoldable pub gdb_write_register : Host → Bool → Locals → Gdb → List ℕ → Outcome Gdb
gdb_write_register host big locals gdb data' = elim (after b'=' data') [
  | none ↦ undefined
  | some text ↦
      let reg = scanned locals (scan_hex data' locals.reg) in
      let digits = text ++ locals.behind in
      if ltb 6 (length digits)
      then if ltb reg 16
        then gdb_send_data
            (record gdb {
              arm = arm_write_register gdb.arm reg (read_uint32 host big locals.value digits);
            })
            (codes "OK")
        else exited
      else undefined
]

unfoldable pub query : Gdb → List ℕ → Outcome Gdb
query gdb data' =
    let text = c_string data' in
    if same_text text (codes "Offsets")
    then gdb_send_data gdb (codes "Text=0;Data=0;Bss=0")
    else if same_text (take 9 text) (codes "Supported")
    then gdb_send_data gdb (codes "PacketSize=400")
    else if same_text text (codes "TStatus")
    then gdb_send_data gdb (codes "T0;tnotrun:0")
    else if same_text text (codes "Symbol::")
    then gdb_send_data gdb []
    else gdb_send_data gdb []

-- `value < 1 && value > -2`
unfoldable pub set_thread : Gdb → List ℕ → Outcome Gdb
set_thread gdb [] = gdb_send_data gdb (codes "E01")
set_thread gdb (type ∷ rest) =
    let value = atoi rest in
    if (type == b'c' || type == b'g') && (value == 0 || value == 0xffff_ffff)
    then gdb_send_data gdb (codes "OK")
    else gdb_send_data gdb (codes "E01")

-- `shutdown` of the connection's sending side, which is not modelled.
abbrev pub kill_request : Gdb → List ℕ → Outcome Gdb
kill_request gdb data' = ok gdb

-- The instruction that GDB puts at a breakpoint.
abbrev pub is_breakpoint : ℕ → Bool
is_breakpoint instruction = bit_and instruction 0xfff0_00f0 == 0xe7f0_00f0

module _ (host : Host) (unset : ℕ → Unset) where
  -- The loop of `cont` may run for ever, hence the rounds left. A failing read leaves `instruction`
  -- as it was. In each round `k` the unset variables of the step may hold something else.
  unfoldable pub cont_loop : ℕ → ℕ → Gdb → ℕ → Outcome Gdb
  cont_loop zero k gdb instruction = unfinished
  cont_loop (suc rounds) k gdb instruction = do
    r ← arm_read_word host gdb.arm (sub32 (arm_read_register gdb.arm 15) 4) instruction
    elim (is_breakpoint r.value) [
      | true ↦ ok gdb
      | false ↦
          (arm_step host (unset k) gdb.arm >>= λ s.
          cont_loop rounds (k + 1) (record gdb { arm = s.core; target_exception = s.status })
            r.value)
    ]

  unfoldable pub cont : ℕ → Locals → Gdb → List ℕ → Outcome Gdb
  cont rounds locals gdb data' = cont_loop rounds 0 gdb locals.instruction >>= gdb_send_stop_reason

-- The table that `gdb_init` fills.
module _ (host : Host) (big : Bool) (unset : ℕ → Unset) (rounds : ℕ) (locals : Locals) where
  unfoldable pub gdb_init : ℕ → Option (Gdb → List ℕ → Outcome Gdb)
  gdb_init index =
      if index == b'c'
      then some (cont host unset rounds locals)
      else if index == b'k'
      then some kill_request
      else if index == b'q'
      then some query
      else if index == b'g'
      then some (read_general_registers host big)
      else if index == b'm'
      then some (read_memory locals)
      else if index == b'p'
      then some (gdb_read_register host big)
      else if index == b'?'
      then some reason
      else if index == b'H'
      then some set_thread
      else if index == b's'
      then some (step host (unset 0))
      else if index == b'G'
      then some (write_general_registers host big locals.value locals.behind)
      else if index == b'X'
      then some (write_memory_binary locals)
      else if index == b'P'
      then some (gdb_write_register host big locals)
      else none
