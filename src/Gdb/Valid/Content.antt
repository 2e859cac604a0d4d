-- ===== src/Gdb/Valid/Content.antt =====
-- The request that writes bytes to the memory keeps the processor valid.
use projet_prog.Base.{
  ℕ, zero, suc, ◌%◌, ◌^◌, arith, Bool, true, false, if◌then◌else◌, ◌==◌, ltb, inl, inr, List, ◌++◌,
  Outcome, ok, ◌>>=◌, Ensures, Ensures->>=, Ensures-Unit, Option-cases,
}
use projet_prog.Word.{add32}
use projet_prog.Memory.{Memory, Written, memory_write_byte, memory_get_size}
use projet_prog.Memory.Bytes.{HoldsBytes, memory_write_byte-HoldsBytes}
use projet_prog.Core.Valid.{IsValid}
use projet_prog.Text.{codes, after}
use projet_prog.Gdb.{Gdb, gdb_send_data}
use projet_prog.Gdb.Requests.{
  Locals, next_byte, Accepted, write_binary, write_content, write_memory_binary, scan_address,
  scan_size,
}
use projet_prog.Gdb.Valid.{ServesValid, gdb_send_buffer-IsValid}

module _ (size : ℕ) (big : Bool) where
  write_binary-HoldsBytes :
      (n : ℕ) (mem : Memory) (address : ℕ) (content : List ℕ)
      → HoldsBytes size big mem
      → Ensures (λ (a : Accepted). HoldsBytes size big a.mem) (write_binary n mem address content)
  unfolding write_binary
  write_binary-HoldsBytes zero mem address content h = h
  write_binary-HoldsBytes (suc n) mem address content h =
      Ensures->>= (λ (b : ℕ × List ℕ). Unit {0}) (λ (a : Accepted). HoldsBytes size big a.mem)
        (next_byte content)
        (λ b. memory_write_byte mem address (b.0 % 2 ^ 8) >>= λ w. elim (w.status == 0) [
          | true ↦ write_binary n w.mem (add32 address 1) b.1
          | false ↦ ok (record { write_ok = false; mem = w.mem })
        ])
        (Ensures-Unit (next_byte content))
        (λ b _.
          Ensures->>= (λ (w : Written). HoldsBytes size big w.mem)
            (λ (a : Accepted). HoldsBytes size big a.mem)
            (memory_write_byte mem address (b.0 % 2 ^ 8))
            (λ w. elim (w.status == 0) [
              | true ↦ write_binary n w.mem (add32 address 1) b.1
              | false ↦ ok (record { write_ok = false; mem = w.mem })
            ])
            (memory_write_byte-HoldsBytes size big mem address (b.0 % 2 ^ 8) h (omega arith))
            (λ w k.
              (elim (w.status == 0)
                as (λ t.
                  Ensures (λ (a : Accepted). HoldsBytes size big a.mem)
                    (elim t [
                      | true ↦ write_binary n w.mem (add32 address 1) b.1
                      | false ↦ ok (record { write_ok = false; mem = w.mem })
                    ])) [
                      | true ↦ write_binary-HoldsBytes n w.mem (add32 address 1) b.1 k
                      | false ↦ k
                    ])))

  with_memory-IsValid :
      (gdb : Gdb) (m : Memory)
      → IsValid size big gdb.arm
      → HoldsBytes size big m
      → IsValid size big (record gdb.arm { mem = m })
  with_memory-IsValid gdb m h b = record { count = h.count; words = h.words; bytes = b }

  write_content-IsValid :
      (gdb : Gdb) (address n : ℕ) (content : List ℕ)
      → IsValid size big gdb.arm
      → ServesValid size big (write_content gdb address n content)
  unfolding write_content
  write_content-IsValid gdb address n content h =
      Ensures->>= (λ (a : Accepted). HoldsBytes size big a.mem)
        (λ (g : Gdb). IsValid size big g.arm) (start (ltb address (memory_get_size gdb.arm.mem)))
        (λ a. answer a a.write_ok) (started (ltb address (memory_get_size gdb.arm.mem)))
        (λ a b. answered a b a.write_ok)
    where
      start : Bool → Outcome Accepted
      start t =
          if t
          then write_binary n gdb.arm.mem address content
          else ok (record { write_ok = false; mem = gdb.arm.mem })

      started : (t : Bool) → Ensures (λ (a : Accepted). HoldsBytes size big a.mem) (start t)
      started true = write_binary-HoldsBytes n gdb.arm.mem address content h.bytes
      started false = h.bytes

      answer : Accepted → Bool → Outcome Gdb
      answer a t =
          let gdb' = record gdb { arm = record gdb.arm { mem = a.mem } } in
          if t then gdb_send_data gdb' (codes "OK") else gdb_send_data gdb' (codes "E02")

      answered :
          (a : Accepted)
          → HoldsBytes size big a.mem
          → (t : Bool) → ServesValid size big (answer a t)
      answered a b true =
          gdb_send_buffer-IsValid size big (record gdb { arm = record gdb.arm { mem = a.mem } })
            (codes "OK") (with_memory-IsValid gdb a.mem h b)
      answered a b false =
          gdb_send_buffer-IsValid size big (record gdb { arm = record gdb.arm { mem = a.mem } })
            (codes "E02") (with_memory-IsValid gdb a.mem h b)

  pub write_memory_binary-IsValid :
      (locals : Locals) (gdb : Gdb) (data' : List ℕ)
      → IsValid size big gdb.arm
      → ServesValid size big (write_memory_binary locals gdb data')
  unfolding write_memory_binary
  write_memory_binary-IsValid locals gdb data' h = elim (Option-cases (after b':' data')) [
    | inl e ↦ rw (e, write_memory_binary) tt
    | inr (content, e) ↦
        rw (e, write_memory_binary)
          (write_content-IsValid gdb (scan_address locals data') (scan_size locals data')
            (content ++ locals.behind) h)
  ]
