-- ===== src/Gdb/Safety.antt =====
-- The whole server: its packets, together with the exceptions that come in beside them.
use projet_prog.Base.{
  ℕ, zero, suc, ◌+◌, ◌^◌, ◌<◌, ◌≡◌, refl, Bool, true, false, if◌then◌else◌, ◌==◌, subst, List, [],
  ◌∷◌, Option, none, some, Outcome, ok, ◌>>=◌, Ensures->>=, Ensures-Unit,
}
use projet_prog.Word.{Host, IsWord, sub32}
use projet_prog.Registers.{Registers}
use projet_prog.Registers.Words.{HoldsWords}
use projet_prog.Memory.{Memory, Read}
use projet_prog.Core.{Stepped, arm_read_register, arm_read_word, arm_exception, arm_create}
use projet_prog.Core.Valid.{IsValid, arm_exception-IsValid, arm_create-IsValid}
use projet_prog.LoadStore.{Unset}
use projet_prog.LoadStore.Valid.{UnsetWords}
use projet_prog.Instruction.{arm_step}
use projet_prog.Instruction.Valid.{arm_step-IsValid}
use projet_prog.Gdb.{
  Gdb, gdb_send_ack, gdb_send_data, gdb_require_retransmission, general_registers,
  gdb_send_stop_reason, reason, step, read_general_registers, write_general_registers, run_request,
  payload, checksum_ok, gdb_packet_analysis,
}
use projet_prog.Gdb.Requests.{
  Locals, is_breakpoint, cont_loop, cont, gdb_init, kill_request, query, read_memory,
  gdb_read_register, set_thread, write_memory_binary, gdb_write_register,
}
use projet_prog.Gdb.Valid.Content.{write_memory_binary-IsValid}
use projet_prog.Gdb.Valid.{
  ServesValid, gdb_send_buffer-IsValid, stop_reason-IsValid, read_memory-IsValid, query-IsValid,
  set_thread-IsValid, write_general_registers-IsValid, gdb_read_register-IsValid,
  gdb_write_register-IsValid,
}

module _ (size : ℕ) (order : Bool) (host : Host) (unset : ℕ → Unset)
    (u : (n : ℕ) → UnsetWords (unset n)) where
  step-IsValid :
      (gdb : Gdb) (data' : List ℕ)
      → IsValid size order gdb.arm
      → ServesValid size order (step host (unset 0) gdb data')
  unfolding step
  step-IsValid gdb data' h =
      Ensures->>= (λ (s : Stepped). IsValid size order s.core)
        (λ (g : Gdb). IsValid size order g.arm) (arm_step host (unset 0) gdb.arm)
        (λ r. gdb_send_stop_reason (record gdb { arm = r.core; target_exception = r.status }))
        (arm_step-IsValid size order host (unset 0) (u 0) gdb.arm h)
        (λ r k.
          stop_reason-IsValid size order (record gdb { arm = r.core; target_exception = r.status })
            k)

  cont_loop-IsValid :
      (rounds k : ℕ) (gdb : Gdb) (instruction : ℕ)
      → IsValid size order gdb.arm
      → ServesValid size order (cont_loop host unset rounds k gdb instruction)
  unfolding cont_loop
  cont_loop-IsValid zero k gdb instruction h = tt
  cont_loop-IsValid (suc rounds) k gdb instruction h =
      Ensures->>= (λ (r : Read). Unit {0}) (λ (g : Gdb). IsValid size order g.arm)
        (arm_read_word host gdb.arm (sub32 (arm_read_register gdb.arm 15) 4) instruction)
        (λ r. elim (is_breakpoint r.value) [ true ↦ ok gdb | false ↦ next r ]) (Ensures-Unit _)
        (λ r _.
          (elim (is_breakpoint r.value)
            as (λ t. ServesValid size order (elim t [ true ↦ ok gdb | false ↦ next r ])) [
              | true ↦ h
              | false ↦
                  Ensures->>= (λ (s : Stepped). IsValid size order s.core)
                    (λ (g : Gdb). IsValid size order g.arm) (arm_step host (unset k) gdb.arm)
                    (λ s.
                      cont_loop host unset rounds (k + 1)
                        (record gdb { arm = s.core; target_exception = s.status }) r.value)
                    (arm_step-IsValid size order host (unset k) (u k) gdb.arm h)
                    (λ s h'.
                      cont_loop-IsValid rounds (k + 1)
                        (record gdb { arm = s.core; target_exception = s.status }) r.value h')
            ]))
    where
      next : Read → Outcome Gdb
      next r = arm_step host (unset k) gdb.arm >>= λ s.
          cont_loop host unset rounds (k + 1)
            (record gdb { arm = s.core; target_exception = s.status }) r.value

  -- A handler that keeps the processor valid.
  abbrev KeepsValid : (Gdb → List ℕ → Outcome Gdb) → Type 0
  KeepsValid handler =
      (gdb : Gdb) (data' : List ℕ)
      → IsValid size order gdb.arm
      → ServesValid size order (handler gdb data')

  cont-KeepsValid : (rounds : ℕ) (locals : Locals) → KeepsValid (cont host unset rounds locals)
  unfolding cont
  cont-KeepsValid rounds locals gdb data' h =
      Ensures->>= (λ (g : Gdb). IsValid size order g.arm) (λ (g : Gdb). IsValid size order g.arm)
        (cont_loop host unset rounds 0 gdb locals.instruction) gdb_send_stop_reason
        (cont_loop-IsValid rounds 0 gdb locals.instruction h)
        (λ g k. stop_reason-IsValid size order g k)

  read_general_registers-KeepsValid : (big : Bool) → KeepsValid (read_general_registers host big)
  unfolding read_general_registers
  read_general_registers-KeepsValid big gdb data' h =
      gdb_send_buffer-IsValid size order gdb (general_registers host big gdb.arm) h

  -- Every entry of a table.
  abbrev EntriesValid : Option (Gdb → List ℕ → Outcome Gdb) → Type 0
  EntriesValid none = Unit
  EntriesValid (some handler) = KeepsValid handler

  entry :
      (b : Bool) (handler : Gdb → List ℕ → Outcome Gdb)
      (others : Option (Gdb → List ℕ → Outcome Gdb))
      → KeepsValid handler
      → EntriesValid others
      → EntriesValid (if b then some handler else others)
  entry true handler others h k = h
  entry false handler others h k = k

  module _ (big : Bool) (rounds : ℕ) (locals : Locals) where
    gdb_init-EntriesValid : (index : ℕ) → EntriesValid (gdb_init host big unset rounds locals index)
    unfolding gdb_init
    gdb_init-EntriesValid index =
        entry (index == b'c') (cont host unset rounds locals) _ (cont-KeepsValid rounds locals) (
          entry (index == b'k') kill_request _ (λ gdb data' h. h)
            (entry (index == b'q') query _ (query-IsValid size order) (
              entry (index == b'g') (read_general_registers host big) _
                (read_general_registers-KeepsValid big)
                (entry (index == b'm') (read_memory locals) _
                  (read_memory-IsValid size order locals)
                  (entry (index == b'p') (gdb_read_register host big) _
                    (gdb_read_register-IsValid size order host big)
                    (entry (index == b'?') reason _
                      (λ gdb data' h. stop_reason-IsValid size order gdb h)
                      (entry (index == b'H') set_thread _ (set_thread-IsValid size order) (
                        entry (index == b's') (step host (unset 0)) _ step-IsValid (
                          entry (index == b'G')
                            (write_general_registers host big locals.value locals.behind) _
                            (write_general_registers-IsValid size order host big locals.value
                              locals.behind)
                            (entry (index == b'X') (write_memory_binary locals) _
                              (write_memory_binary-IsValid size order locals)
                              (entry (index == b'P') (gdb_write_register host big locals) none
                                (gdb_write_register-IsValid size order host big locals)
                                tt)))))))))))

    run_request-IsValid :
        (gdb : Gdb) (data' : List ℕ)
        → IsValid size order gdb.arm
        → ServesValid size order (run_request (gdb_init host big unset rounds locals) gdb data')
    unfolding run_request
    run_request-IsValid gdb [] h = gdb_send_buffer-IsValid size order gdb [] h
    run_request-IsValid gdb (index ∷ data') h =
        go (gdb_init host big unset rounds locals index) (gdb_init-EntriesValid index)
      where
        go :
            (o : Option (Gdb → List ℕ → Outcome Gdb))
            → EntriesValid o
            → ServesValid size order
                (elim o [ none ↦ gdb_send_data gdb [] | some handler ↦ handler gdb data' ])
        go none k = gdb_send_buffer-IsValid size order gdb [] h
        go (some handler) k = k gdb data' h

    -- Any packet, with the table that `gdb_init` fills.
    pub gdb_packet_analysis-IsValid :
        (gdb : Gdb) (packet : List ℕ)
        → IsValid size order gdb.arm
        → ServesValid size order
            (gdb_packet_analysis (gdb_init host big unset rounds locals) gdb packet)
    unfolding gdb_packet_analysis
    gdb_packet_analysis-IsValid gdb packet h = choose (checksum_ok packet)
      where
        choose :
            (b : Bool)
            → ServesValid size order (
                if b
                then run_request
                    (gdb_init host big unset rounds locals)
                    (gdb_send_ack gdb)
                    (payload packet)
                else ok (gdb_require_retransmission gdb))
        choose true = run_request-IsValid (gdb_send_ack gdb) (payload packet) h
        choose false = h

-- The states of the server from one on: after packets, with whatever the unset variables hold, and
-- after exceptions from outside. The lock keeps the two apart.
pub data Serves (host : Host) (big : Bool) (gdb : Gdb) : Gdb → Type 0 where
  start : Serves host big gdb gdb
  packet :
      {g g' : Gdb} (unset : ℕ → Unset) (rounds : ℕ) (locals : Locals) (text : List ℕ)
      → Serves host big gdb g
      → ((n : ℕ) → UnsetWords (unset n))
      → gdb_packet_analysis (gdb_init host big unset rounds locals) g text ≡ ok g'
      → Serves host big gdb g'
  raise :
      {g : Gdb} (exception : ℕ)
      → Serves host big gdb g
      → Serves host big gdb (record g { arm = arm_exception g.arm exception })

keeps :
    (size : ℕ) (order : Bool) (host : Host) (big : Bool) {gdb g : Gdb}
    → IsValid size order gdb.arm
    → Serves host big gdb g
    → IsValid size order g.arm
keeps size order host big h start = h
keeps size order host big h (packet {g} unset rounds locals text s u e) =
    subst (λ o. ServesValid size order o) e
      (gdb_packet_analysis-IsValid size order host unset u big rounds locals g text
        (keeps size order host big h s))
keeps size order host big h (raise {g} exception s) =
    arm_exception-IsValid size order g.arm exception (keeps size order host big h s)

-- From a server on a new processor, whatever its registers and memory hold, no sequence of packets,
-- of any bytes, and of exceptions from outside leads to a processor whose registers do not hold
-- words, whose memory does not hold bytes, or whose memory has another size or byte order.
pub Serves-IsValid :
    (host : Host) (big : Bool) (cycles : ℕ) (reg : Registers) (mem : Memory) (gdb g : Gdb)
    → IsWord cycles
    → HoldsWords reg
    → ((i : ℕ) → mem.memo i < 2 ^ 8)
    → gdb.arm ≡ arm_create cycles reg mem
    → Serves host big gdb g
    → IsValid mem.size mem.is_big_endian g.arm
Serves-IsValid host big cycles reg mem gdb g c w b e s =
    keeps mem.size mem.is_big_endian host big
      (rw e (
        arm_create-IsValid mem.size mem.is_big_endian cycles reg mem c w
          (record { bytes = b; same_size = refl; same_order = refl })))
      s
