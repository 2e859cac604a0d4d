-- ===== src/Gdb.antt =====
-- gdb_protocol.c: packets with a checksum, words in hexadecimal, and the requests on registers.
-- The memory that the server holds is the one of its processor. The trace switch, the lock and the
-- debug output are left out.
pub mod RoundTrip
pub mod Requests
pub mod Valid
pub mod Safety
pub mod Continue
pub mod Content
pub mod Bounds
pub mod Registers
use projet_prog.Base.{
  ℕ, zero, suc, ◌+◌, ◌-◌, ◌*◌, ◌/◌, ◌%◌, ◌^◌, Bool, if◌then◌else◌, ◌==◌, ltb, List, [], ◌∷◌, ◌++◌,
  Option, none, some, Outcome, ok, undefined, ◌>>=◌,
}
use projet_prog.Word.{Host, sub32}
use projet_prog.Constants.{undefined_instruction, prefetch_abort, data_abort}
use projet_prog.Memory.{update}
use projet_prog.Core.{
  Core, Stepped, arm_read_register, arm_read_cpsr, arm_write_register, arm_write_cpsr,
}
use projet_prog.LoadStore.{Unset}
use projet_prog.Instruction.{arm_step}
use projet_prog.Text.{length, take, drop, replicate, sum, print_byte, scan_hex}

-- `struct gdb_protocol_data`. `packet` is the string to transmit, of `len` characters; `sent` is all
-- that has been written to `fd`.
pub record Gdb : Type 0 where
  pub arm : Core
  pub target_exception : ℕ
  pub packet : List ℕ
  pub sent : List ℕ

-- Nothing is to be transmitted at first.
abbrev pub gdb_init_data : Core → Gdb
gdb_init_data arm = record { arm = arm; target_exception = 0; packet = []; sent = [] }

abbrev pub max_packet_size : ℕ
max_packet_size = 1024

abbrev pub gdb_send_ack : Gdb → Gdb
gdb_send_ack gdb = record gdb { sent = gdb.sent ++ (43 ∷ []) }

abbrev pub gdb_require_retransmission : Gdb → Gdb
gdb_require_retransmission gdb = record gdb { sent = gdb.sent ++ (45 ∷ []) }

unfoldable pub gdb_transmit_packet : Gdb → Gdb
gdb_transmit_packet gdb = record gdb { sent = gdb.sent ++ gdb.packet }

-- The packet around `data`: $, the data, # and the sum of the data as an `unsigned char`.
unfoldable pub framed : List ℕ → List ℕ
framed data' = 36 ∷ (data' ++ (35 ∷ print_byte (sum data' % 2 ^ 8)))

-- `data'` is the string in `gdb->buffer`. The packet and its closing 0 have to fit in the array.
unfoldable pub gdb_send_buffer : Gdb → List ℕ → Outcome Gdb
gdb_send_buffer gdb data' =
    if ltb max_packet_size (length data' + 5)
    then undefined
    else ok (gdb_transmit_packet (record gdb { packet = framed data' }))

abbrev pub gdb_send_data : Gdb → List ℕ → Outcome Gdb
gdb_send_data gdb data' = gdb_send_buffer gdb data'

abbrev same : Bool → Bool → Bool
same Bool.true b = b
same Bool.false Bool.true = Bool.false
same Bool.false Bool.false = Bool.true

module _ (host : Host) where
  -- The union: the integer of four bytes, and the byte `i` of an integer.
  abbrev pub integer : (ℕ → ℕ) → ℕ
  integer bytes =
      if host.big_endian
      then bytes 0 * 2 ^ 24 + bytes 1 * 2 ^ 16 + bytes 2 * 2 ^ 8 + bytes 3
      else bytes 3 * 2 ^ 24 + bytes 2 * 2 ^ 16 + bytes 1 * 2 ^ 8 + bytes 0

  abbrev pub byte_of : ℕ → ℕ → ℕ
  byte_of value i =
      if host.big_endian then value / 2 ^ (8 * (3 - i)) % 2 ^ 8 else value / 2 ^ (8 * i) % 2 ^ 8

-- `big` stands for BIG_ENDIAN_SIMULATOR, a switch of the build.
module _ (host : Host) (big : Bool) where
  -- `i` in round `k` of the loops.
  abbrev pub byte_index : ℕ → ℕ
  byte_index k = if same host.big_endian big then k else 3 - k

  -- The loop of `read_uint32` at round `k`, with `n` rounds left.
  unfoldable pub read_bytes : ℕ → ℕ → List ℕ → ℕ → (ℕ → ℕ) → ℕ → ℕ
  read_bytes zero k data' value bytes = bytes
  read_bytes (suc n) k data' value bytes =
      let v = scan_hex (take 2 data') value in
      read_bytes n (k + 1) (drop 2 data') v (update bytes (byte_index k) (v % 2 ^ 8))

  -- `old` is what `value` holds at the start, and the union holds 0.
  unfoldable pub read_uint32 : ℕ → List ℕ → ℕ
  read_uint32 old data' = integer host (read_bytes 4 0 data' old (λ _. 0))

  unfoldable pub write_bytes : ℕ → ℕ → ℕ → List ℕ
  write_bytes zero k value = []
  write_bytes (suc n) k value =
      print_byte (byte_of host value (byte_index k)) ++ write_bytes n (k + 1) value

  unfoldable pub write_uint32 : ℕ → List ℕ
  write_uint32 value = write_bytes 4 0 value

  -- The loop over r0 to r14, at register `i` with `n` rounds left.
  unfoldable pub print_registers : Core → ℕ → ℕ → List ℕ
  print_registers arm zero i = []
  print_registers arm (suc n) i =
      write_uint32 (arm_read_register arm i) ++ print_registers arm n (i + 1)

  -- An x is 120.
  unfoldable pub general_registers : Core → List ℕ
  general_registers arm =
      print_registers arm 15 0
      ++ (write_uint32 (sub32 (arm_read_register arm 15) 4)
          ++ (replicate 192 120 ++ (replicate 8 120 ++ write_uint32 (arm_read_cpsr arm))))

  unfoldable pub read_general_registers : Gdb → List ℕ → Outcome Gdb
  read_general_registers gdb data' = gdb_send_buffer gdb (general_registers gdb.arm)

  unfoldable pub scan_registers : ℕ → ℕ → ℕ → List ℕ → Core → Core
  scan_registers old zero i data' arm = arm
  scan_registers old (suc n) i data' arm =
      scan_registers old n (i + 1) (drop 8 data') (arm_write_register arm i (read_uint32 old data'))

  -- The words that are read and not used are skipped. A request that is too short is read on in the
  -- bytes `behind` it, and out of the buffer if the last of the 336 digits, in twos, is not in there.
  unfoldable pub write_general_registers : ℕ → List ℕ → Gdb → List ℕ → Outcome Gdb
  write_general_registers old behind gdb data' =
      let text = data' ++ behind in
      let arm = scan_registers old 16 0 text gdb.arm in
      if ltb 334 (length text)
      then gdb_send_data (record gdb { arm = arm_write_cpsr arm (read_uint32 old (drop 328 text)) })
          (79 ∷ 75 ∷ [])
      else undefined

-- "S04", "S10" and "S05"
unfoldable pub gdb_send_stop_reason : Gdb → Outcome Gdb
gdb_send_stop_reason gdb =
    if gdb.target_exception == undefined_instruction
    then gdb_send_data gdb (83 ∷ 48 ∷ 52 ∷ [])
    else if gdb.target_exception == prefetch_abort
    then gdb_send_data gdb (83 ∷ 49 ∷ 48 ∷ [])
    else if gdb.target_exception == data_abort
    then gdb_send_data gdb (83 ∷ 49 ∷ 48 ∷ [])
    else gdb_send_data gdb (83 ∷ 48 ∷ 53 ∷ [])

abbrev pub reason : Gdb → List ℕ → Outcome Gdb
reason gdb data' = gdb_send_stop_reason gdb

unfoldable pub step : Host → Unset → Gdb → List ℕ → Outcome Gdb
step host unset gdb data' = do
  r ← arm_step host unset gdb.arm
  gdb_send_stop_reason (record gdb { arm = r.core; target_exception = r.status })

-- The data of a packet (which the scanner has matched, so it has a $ and a # and two digits around
-- them), and whether the two digits are its sum. `given` holds 0 at the start.
unfoldable pub payload : List ℕ → List ℕ
payload packet = take (length packet - 4) (drop 1 packet)

unfoldable pub checksum_ok : List ℕ → Bool
checksum_ok packet = sum (payload packet) % 2 ^ 8 == scan_hex (drop (length packet - 2) packet) 0

-- The request of a packet whose sum is right, by the table of handlers: the first character chooses,
-- and for an empty packet it is the 0 that closes the string, which has no handler.
unfoldable pub run_request : (ℕ → Option (Gdb → List ℕ → Outcome Gdb)) → Gdb → List ℕ → Outcome Gdb
run_request handler gdb [] = gdb_send_data gdb []
run_request handler gdb (index ∷ data') = elim (handler index) [
  | none ↦ gdb_send_data gdb []
  | some h ↦ h gdb data'
]

-- The table of handlers is an argument, as the code looks it up when it runs.
unfoldable pub gdb_packet_analysis :
    (ℕ → Option (Gdb → List ℕ → Outcome Gdb)) → Gdb → List ℕ → Outcome Gdb
gdb_packet_analysis handler gdb packet =
    if checksum_ok packet
    then run_request handler (gdb_send_ack gdb) (payload packet)
    else ok (gdb_require_retransmission gdb)
