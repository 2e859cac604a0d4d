-- ===== src/Gdb/Valid.antt =====
-- Whatever packets come in, the processor stays valid.
pub mod Content
use projet_prog.Base.{
  ◌++◌, ℕ, zero, suc, ◌+◌, ◌-◌, ◌*◌, ◌/◌, ◌%◌, ◌^◌, ◌<◌, ◌≡◌, arith, Bool, true, false,
  if◌then◌else◌, ◌==◌, ltb, Bool-cases, inl, inr, List, [], ◌∷◌, Option, none, some, Outcome, ok,
  undefined, exited, ◌>>=◌, Ensures, Ensures->>=, Ensures-Unit, refl, Option-cases, bit_and, ◌&&◌,
  ◌||◌,
}
use projet_prog.Word.{Host, IsWord, sub32, add32, minus_one, word}
use projet_prog.Memory.{
  Memory, Read, Written, update, memory_read_byte, memory_write_byte, memory_get_size,
}
use projet_prog.Memory.Bytes.{HoldsBytes, Gives, memory_read-lt, memory_write_byte-HoldsBytes}
use projet_prog.Core.{
  Core, Stepped, arm_read_register, arm_write_register, arm_write_cpsr, arm_read_word,
}
use projet_prog.Core.Valid.{
  IsValid, StepsValid, Gives-IsWord, arm_write_register-IsValid, arm_write_cpsr-IsValid,
}
use projet_prog.LoadStore.{Unset}
use projet_prog.LoadStore.Valid.{UnsetWords}
use projet_prog.Instruction.{arm_step}
use projet_prog.Instruction.Valid.{arm_step-IsValid}
use projet_prog.Text.{codes, take, drop, scan_hex, after, atoi, same_text, length}
use projet_prog.Gdb.{
  write_uint32, Gdb, gdb_transmit_packet, gdb_send_buffer, gdb_send_data, gdb_send_ack,
  gdb_require_retransmission, integer, byte_index, read_bytes, read_uint32, scan_registers,
  read_general_registers, write_general_registers, gdb_send_stop_reason, reason, step, run_request,
  gdb_packet_analysis, general_registers, payload, checksum_ok,
}
use projet_prog.Gdb.Requests.{
  scanned, Locals, print_memory, read_memory, next_byte, Accepted, write_binary, write_content,
  write_memory_binary, gdb_read_register, gdb_write_register, query, set_thread, kill_request,
  is_breakpoint, cont_loop, cont, gdb_init, scan_address, scan_size,
}

integer-IsWord :
    (host : Host) (bytes : ℕ → ℕ) → ((i : ℕ) → bytes i < 2 ^ 8) → IsWord (integer host bytes)
integer-IsWord host bytes h = ground (arith, h 0, h 1, h 2, h 3)

read_bytes-lt :
    (host : Host) (big : Bool) (n k : ℕ) (data' : List ℕ) (old : ℕ) (bytes : ℕ → ℕ)
    → ((i : ℕ) → bytes i < 2 ^ 8)
    → (i : ℕ) → read_bytes host big n k data' old bytes i < 2 ^ 8
unfolding read_bytes
read_bytes-lt host big zero k data' old bytes h i = h i
read_bytes-lt host big (suc n) k data' old bytes h i =
    let v = scan_hex (take 2 data') old in
    read_bytes-lt host big n (k + 1) (drop 2 data') v
      (update bytes (byte_index host big k) (v % 2 ^ 8)) (λ j. ground (arith, h j)) i

pub read_uint32-IsWord :
    (host : Host) (big : Bool) (old : ℕ) (data' : List ℕ) → IsWord (read_uint32 host big old data')
unfolding read_uint32
read_uint32-IsWord host big old data' =
    integer-IsWord host _ (read_bytes-lt host big 4 0 data' old (λ _. 0) (λ _. omega arith))

module _ (size : ℕ) (big : Bool) where
  -- The server's processor is valid, if the server goes on.
  abbrev pub ServesValid : Outcome Gdb → Type 0
  ServesValid o = Ensures (λ (gdb : Gdb). IsValid size big gdb.arm) o

  pub gdb_send_buffer-IsValid :
      (gdb : Gdb) (text : List ℕ)
      → IsValid size big gdb.arm
      → ServesValid (gdb_send_buffer gdb text)
  unfolding gdb_send_buffer gdb_transmit_packet
  gdb_send_buffer-IsValid gdb text h = ground (arith, h)

  pub stop_reason-IsValid :
      (gdb : Gdb) → IsValid size big gdb.arm → ServesValid (gdb_send_stop_reason gdb)
  unfolding gdb_send_stop_reason
  stop_reason-IsValid gdb h = ground (
    arith,
    gdb_send_buffer-IsValid gdb (codes "S04") h,
    gdb_send_buffer-IsValid gdb (codes "S10") h,
    gdb_send_buffer-IsValid gdb (codes "S05") h,
  )

  pub read_memory-IsValid :
      (locals : Locals) (gdb : Gdb) (data' : List ℕ)
      → IsValid size big gdb.arm
      → ServesValid (read_memory locals gdb data')
  unfolding read_memory
  read_memory-IsValid locals gdb data' h =
      Ensures->>= (λ (t : List ℕ). Unit {0}) (λ (g : Gdb). IsValid size big g.arm)
        (print_memory (scan_size locals data') gdb.arm.mem (scan_address locals data') locals.value)
        (gdb_send_buffer gdb) (Ensures-Unit _) (λ t _. gdb_send_buffer-IsValid gdb t h)

  pub query-IsValid :
      (gdb : Gdb) (data' : List ℕ) → IsValid size big gdb.arm → ServesValid (query gdb data')
  unfolding query
  query-IsValid gdb data' h =
      let sent = λ (t : List ℕ). gdb_send_buffer-IsValid gdb t h in
      ground (
        arith,
        sent (codes "Text=0;Data=0;Bss=0"),
        sent (codes "PacketSize=400"),
        sent (codes "T0;tnotrun:0"),
        sent [],
      )

  pub set_thread-IsValid :
      (gdb : Gdb) (data' : List ℕ) → IsValid size big gdb.arm → ServesValid (set_thread gdb data')
  unfolding set_thread
  set_thread-IsValid gdb [] h = gdb_send_buffer-IsValid gdb (codes "E01") h
  set_thread-IsValid gdb (type ∷ rest) h = ground (
    arith,
    gdb_send_buffer-IsValid gdb (codes "OK") h,
    gdb_send_buffer-IsValid gdb (codes "E01") h,
  )

  module _ (host : Host) (order : Bool) where
    scan_registers-IsValid :
        (old n i : ℕ) (data' : List ℕ) (arm : Core)
        → IsValid size big arm
        → IsValid size big (scan_registers host order old n i data' arm)
    unfolding scan_registers
    scan_registers-IsValid old zero i data' arm h = h
    scan_registers-IsValid old (suc n) i data' arm h =
        scan_registers-IsValid old n (i + 1) (drop 8 data')
          (arm_write_register arm i (read_uint32 host order old data'))
          (arm_write_register-IsValid size big arm i _ h (read_uint32-IsWord host order old data'))

    pub write_general_registers-IsValid :
        (old : ℕ) (behind : List ℕ) (gdb : Gdb) (data' : List ℕ)
        → IsValid size big gdb.arm
        → ServesValid (write_general_registers host order old behind gdb data')
    unfolding write_general_registers
    write_general_registers-IsValid old behind gdb data' h =
        let text = data' ++ behind in
        let arm = scan_registers host order old 16 0 text gdb.arm in
        let value = read_uint32 host order old (drop 328 text) in
        let sent =
          gdb_send_buffer-IsValid (record gdb { arm = arm_write_cpsr arm value }) (codes "OK")
            (arm_write_cpsr-IsValid size big arm value
              (scan_registers-IsValid old 16 0 text gdb.arm h)
              (read_uint32-IsWord host order old (drop 328 text))) in
        elim (Bool-cases (ltb 334 (length text))) [ inl e ↦ rw e sent | inr e ↦ rw e tt ]

    pub gdb_read_register-IsValid :
        (gdb : Gdb) (data' : List ℕ)
        → IsValid size big gdb.arm
        → ServesValid (gdb_read_register host order gdb data')
    unfolding gdb_read_register
    gdb_read_register-IsValid gdb data' h =
        let reg = atoi data' in
        ground (
          arith,
          gdb_send_buffer-IsValid gdb
              (write_uint32 host order
                (sub32 (arm_read_register gdb.arm reg) (if reg == 15 then 4 else 0)))
              h,
        )

    pub gdb_write_register-IsValid :
        (locals : Locals) (gdb : Gdb) (data' : List ℕ)
        → IsValid size big gdb.arm
        → ServesValid (gdb_write_register host order locals gdb data')
    unfolding gdb_write_register
    gdb_write_register-IsValid locals gdb data' h = elim (Option-cases (after b'=' data')) [
      | inl e ↦ rw (e, gdb_write_register) tt
      | inr (text, e) ↦
          rw (e, gdb_write_register)
            (choose (ltb 6 (length (text ++ locals.behind)))
              (ltb (scanned locals (scan_hex data' locals.reg)) 16) (text ++ locals.behind))
    ]
      where
        reg : ℕ
        reg = scanned locals (scan_hex data' locals.reg)

        choose :
            (inside b : Bool) (text : List ℕ)
            → ServesValid (
                if inside
                then if b
                  then gdb_send_data
                      (record gdb {
                        arm =
                            arm_write_register gdb.arm reg
                              (read_uint32 host order locals.value text);
                      })
                      (codes "OK")
                  else exited
                else undefined)
        choose true true text =
            gdb_send_buffer-IsValid
              (record gdb {
                arm = arm_write_register gdb.arm reg (read_uint32 host order locals.value text);
              })
              (codes "OK")
              (arm_write_register-IsValid size big gdb.arm reg _ h
                (read_uint32-IsWord host order locals.value text))
        choose true false text = tt
        choose false b text = tt
