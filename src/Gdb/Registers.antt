-- ===== src/Gdb/Registers.antt =====
-- The requests for all registers: what the server prints of one processor, written to another.
use mathlib.Core.List.{append_assoc}
use projet_prog.Base.{
  sym, true, ltb, lt→ltb, ℕ, zero, suc, ◌+◌, ◌*◌, ◌%◌, ◌<◌, ◌≡◌, refl, ap, ◌∙◌, arith, Bool, List,
  [], ◌∷◌, ◌++◌,
}
use projet_prog.Word.{Host, IsWord, sub32}
use projet_prog.Registers.{
  Registers, get_mode, read_register, read_cpsr, write_cpsr, write_register,
}
use projet_prog.Registers.Words.{HoldsWords, read_register-IsWord}
use projet_prog.Registers.Modes.{read-write_cpsr_ne}
use projet_prog.Registers.Copy.{
  copied, IsKept, numbers, numbers-AreNumbers, numbers_complete, mode-copied, read-copied_listed,
}
use projet_prog.Core.{Core, pc_adjust, arm_read_register, arm_read_cpsr, arm_write_register}
use projet_prog.Core.Pc.{arm_read_register-pc}
use projet_prog.Text.{
  length, drop, replicate, print_byte, drop-append, length-append, length-replicate, drop_front,
}
use projet_prog.Gdb.{
  Gdb, gdb_send_data, read_uint32, write_bytes, write_uint32, print_registers, general_registers,
  scan_registers, write_general_registers,
}
use projet_prog.Gdb.RoundTrip.{read_uint32-write_uint32}

module _ (host : Host) (big : Bool) where
  drop-write_uint32 :
      (value : ℕ) (rest : List ℕ) → drop 8 (write_uint32 host big value ++ rest) ≡ rest
  unfolding drop write_uint32 write_bytes print_byte
  drop-write_uint32 value rest = refl

  length-write_uint32 : (value : ℕ) → length (write_uint32 host big value) ≡ 8
  unfolding length write_uint32 write_bytes print_byte
  length-write_uint32 value = refl

  length-print_registers :
      (arm : Core) (n i : ℕ) → length (print_registers host big arm n i) ≡ 8 * n
  unfolding length print_registers
  length-print_registers arm zero i = refl
  length-print_registers arm (suc n) i = omega (
    arith,
    length-append (write_uint32 host big (arm_read_register arm i))
        (print_registers host big arm n (i + 1)),
    length-write_uint32 (arm_read_register arm i),
    length-print_registers arm n (i + 1),
  )

  -- One round on a printed word.
  scan_round :
      (old n i value : ℕ) (rest : List ℕ) (q : Core)
      → IsWord value
      → scan_registers host big old (suc n) i (write_uint32 host big value ++ rest) q
        ≡ scan_registers host big old n (i + 1) rest (arm_write_register q i value)
  unfolding scan_registers
  scan_round old n i value rest q w =
      rw (drop-write_uint32 value rest, read_uint32-write_uint32 host big old value rest w)

  scan_done : (old i : ℕ) (rest : List ℕ) (q : Core) → scan_registers host big old 0 i rest q ≡ q
  unfolding scan_registers
  scan_done old i rest q = refl

  module _ (arm : Core) (w : HoldsWords arm.reg) (pc : arm.reg.reg_number 15 % 4 ≡ 0) where
    last_value : sub32 (arm_read_register arm 15) 4 ≡ read_register arm.reg 15
    unfolding read_register
    last_value = rw (arm_read_register-pc arm (w 15) pc) (omega (arith, w 15))

    adjusted : (i : ℕ) → i < 15 → arm_read_register arm i ≡ read_register arm.reg i
    unfolding arm_read_register pc_adjust
    adjusted i h = ground arith

    -- What the server prints of `arm`, read into another processor.
    scan_all :
        (old n i : ℕ) (rest : List ℕ) (q : Core)
        → i + n ≡ 15
        → scan_registers host big old
            (suc n)
            i
            (print_registers host big arm n i
              ++ (write_uint32 host big (sub32 (arm_read_register arm 15) 4) ++ rest))
            q
          ≡ record q { reg = copied arm.reg (numbers (suc n) i) q.reg }
    unfolding print_registers write_uint32 write_bytes print_byte copied numbers
    scan_all old zero i rest q h =
        let e : i ≡ 15 = omega arith in
        rw e (
          scan_round old 0 15 (sub32 (arm_read_register arm 15) 4) rest q (omega arith)
          ∙ scan_done old 16 rest (arm_write_register q 15 (sub32 (arm_read_register arm 15) 4))
          ∙ ap (arm_write_register q 15) last_value)
    scan_all old (suc n) i rest q h =
        let v = adjusted i (omega arith) in
        scan_round old (suc n) i (arm_read_register arm i)
          (print_registers host big arm n (i + 1)
            ++ (write_uint32 host big (sub32 (arm_read_register arm 15) 4) ++ rest))
          q (rw v (read_register-IsWord arm.reg i w))
        ∙ scan_all old n (i + 1) rest (arm_write_register q i (arm_read_register arm i))
            (omega arith)
        ∙ ap
            (λ (t : ℕ). record q {
              reg = copied arm.reg (numbers (suc n) (i + 1)) (write_register q.reg i t);
            })
            v

    scan_text :
        (old : ℕ) (behind : List ℕ) (q : Core)
        → scan_registers host big old 16 0 (general_registers host big arm ++ behind) q
          ≡ record q { reg = copied arm.reg (numbers 16 0) q.reg }
    unfolding general_registers
    scan_text old behind q =
        ap (λ t. scan_registers host big old 16 0 t q)
          (append_assoc (print_registers host big arm 15 0) _ behind
            ∙ ap (λ t. print_registers host big arm 15 0 ++ t)
                (append_assoc (write_uint32 host big (sub32 (arm_read_register arm 15) 4)) _
                  behind))
        ∙ scan_all old 15 0 _ q refl

    length-general_registers : length (general_registers host big arm) ≡ 336
    unfolding general_registers
    length-general_registers = omega (
      arith,
      length-append (print_registers host big arm 15 0) (
          write_uint32 host big (sub32 (arm_read_register arm 15) 4)
          ++ (replicate 192 120 ++ (replicate 8 120 ++ write_uint32 host big (arm_read_cpsr arm)))),
      length-append (write_uint32 host big (sub32 (arm_read_register arm 15) 4))
          (replicate 192 120 ++ (replicate 8 120 ++ write_uint32 host big (arm_read_cpsr arm))),
      length-append (replicate 192 120)
          (replicate 8 120 ++ write_uint32 host big (arm_read_cpsr arm)),
      length-append (replicate 8 120) (write_uint32 host big (arm_read_cpsr arm)),
      length-print_registers arm 15 0,
      length-write_uint32 (sub32 (arm_read_register arm 15) 4),
      length-replicate 192 120,
      length-replicate 8 120,
      length-write_uint32 (arm_read_cpsr arm),
    )

    status_left :
        drop 328 (general_registers host big arm) ≡ write_uint32 host big (arm_read_cpsr arm)
    unfolding general_registers drop
    status_left =
        drop-append (print_registers host big arm 15 0) _ 208 {j = 328}
          (omega (arith, length-print_registers arm 15 0))
        ∙ drop-append (write_uint32 host big (sub32 (arm_read_register arm 15) 4)) _ 200 {j = 208}
            (omega (arith, length-write_uint32 (sub32 (arm_read_register arm 15) 4)))
        ∙ drop-append (replicate 192 120) _ 8 {j = 200} (omega (arith, length-replicate 192 120))
        ∙ drop-append (replicate 8 120) _ 0 {j = 8} (omega (arith, length-replicate 8 120))

    status_back :
        (old : ℕ) (behind : List ℕ)
        → read_uint32 host big old (drop 328 (general_registers host big arm ++ behind))
          ≡ read_cpsr arm.reg
    unfolding write_uint32 write_bytes print_byte read_cpsr
    status_back old behind =
        ap (read_uint32 host big old) (
          drop_front 328 (general_registers host big arm) behind
            (omega (arith, length-general_registers))
          ∙ ap (λ t. t ++ behind) status_left)
        ∙ read_uint32-write_uint32 host big old (arm_read_cpsr arm) behind (w 16)

    write_lem :
        (old : ℕ) (behind : List ℕ) (gdb : Gdb)
        → write_general_registers host big old behind gdb (general_registers host big arm)
          ≡ gdb_send_data
              (record gdb {
                arm = record gdb.arm {
                  reg = write_cpsr (copied arm.reg (numbers 16 0) gdb.arm.reg) (read_cpsr arm.reg);
                };
              })
              (79 ∷ 75 ∷ [])
    unfolding write_general_registers
    write_lem old behind gdb =
        let text = general_registers host big arm ++ behind in
        let long : ltb 334 (length text) ≡ true = lt→ltb 334 (length text) (
          omega (
            arith,
            length-append (general_registers host big arm) behind,
            length-general_registers,
          )) in
        rw (long, scan_text old behind gdb.arm, status_back old behind)

-- The reply to the request for all registers of one processor, sent to a server on another one in the
-- same mode as the request to write them, whatever is behind it and for any byte orders, is answered
-- with OK and changes registers only: each of r0 to r15 that keeps what is written to it, and the CPSR,
-- then read as on the first processor, whose registers hold words and whose program counter is
-- word-aligned.
pub write-read_general_registers :
    (host : Host) (big : Bool) (old : ℕ) (behind : List ℕ) (p : Core) (gdb : Gdb) (reg : ℕ)
    → HoldsWords p.reg
    → p.reg.reg_number 15 % 4 ≡ 0
    → get_mode gdb.arm.reg ≡ get_mode p.reg
    → reg < 16
    → IsKept gdb.arm.reg reg
    → (r : Registers) × (write_general_registers host big old behind gdb
          (general_registers host big p)
        ≡ gdb_send_data (record gdb { arm = record gdb.arm { reg = r } }) (79 ∷ 75 ∷ []))
      × (read_register r reg ≡ read_register p.reg reg)
      × (read_cpsr r ≡ read_cpsr p.reg)
unfolding read_cpsr write_cpsr
write-read_general_registers host big old behind p gdb reg w pc mode l k =
    let filled = copied p.reg (numbers 16 0) gdb.arm.reg in
    let all = numbers-AreNumbers 16 0 (omega arith) in
    (
      write_cpsr filled (read_cpsr p.reg),
      write_lem host big p w pc old behind gdb,
      read-write_cpsr_ne filled (read_cpsr p.reg) reg
            (sym (mode-copied p.reg (numbers 16 0) gdb.arm.reg all ∙ mode)) (omega arith)
          ∙ read-copied_listed p.reg (numbers 16 0) gdb.arm.reg reg all k
              (numbers_complete 16 0 reg (omega arith) (omega arith)),
      refl,
    )
