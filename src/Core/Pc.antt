-- ===== src/Core/Pc.antt =====
-- The program counter: its reads, the fetch and the reset.
use projet_prog.Base.{ℕ, ◌-◌, ◌%◌, ◌≤◌, ◌<◌, min, ◌≡◌, ◌≢◌, refl, ap, ◌∙◌, arith, bit_and, ok}
use projet_prog.Bits.{
  get_bit, get_bit-bit_and, get_bit-pow, get_bit-complement, eq_of_digits, bit_and-lt,
}
use projet_prog.Word.{Host, IsWord, add32, sub32, not32}
use projet_prog.Constants.{svc}
use projet_prog.Registers.{
  Registers, get_mode, read_register, read_cpsr, write_cpsr, write_usr_register,
}
use projet_prog.Memory.{Memory, Read, memory_read_word}
use projet_prog.Core.{
  Core, pc_adjust, arm_read_register, arm_write_register, arm_exception, arm_create, arm_fetch,
}

-- `& 0xFFFFFFFD` changes nothing where bit 1 is clear.
mask_clear : (x : ℕ) → IsWord x → get_bit x 1 ≡ 0 → bit_and x 0xffff_fffd ≡ x
mask_clear x w h = eq_of_digits 32 (bit_and x 0xffff_fffd) x (bit_and-lt 32 x 0xffff_fffd w) w same
  where
    same : (i : ℕ) → i < 32 → get_bit (bit_and x 0xffff_fffd) i ≡ get_bit x i
    same i l =
        let c : get_bit (not32 2) i ≡ 1 - get_bit 2 i = get_bit-complement 32 i 2 (omega arith) l in
        let m : get_bit (bit_and x (not32 2)) i ≡ min (get_bit x i) (get_bit (not32 2) i) =
          get_bit-bit_and i x (not32 2) in
        let b : get_bit x i ≤ 1 = omega arith in ground (arith, c, m, get_bit-pow 1 i, b)

pc_adjust-pc : (value : ℕ) → IsWord value → value % 4 ≡ 0 → pc_adjust 15 value ≡ add32 value 4
unfolding pc_adjust
pc_adjust-pc value w h = mask_clear (add32 value 4) (omega arith) (omega arith)

-- A word-aligned program counter reads as itself plus 4.
pub arm_read_register-pc :
    (p : Core)
    → IsWord (p.reg.reg_number 15)
    → p.reg.reg_number 15 % 4 ≡ 0
    → arm_read_register p 15 ≡ add32 (p.reg.reg_number 15) 4
unfolding arm_read_register read_register
arm_read_register-pc p w h = pc_adjust-pc (p.reg.reg_number 15) w h

-- Only the program counter reads as something else than it holds.
pub arm_read_register-ne_pc :
    (p : Core) (reg : ℕ) → reg ≢ 15 → arm_read_register p reg ≡ read_register p.reg reg
unfolding arm_read_register pc_adjust
arm_read_register-ne_pc p reg ne = ground arith

-- What a fetch from a word-aligned program counter leaves.
abbrev pub advanced : Core → Core
advanced p =
    arm_write_register (record p { cycle_count = add32 p.cycle_count 1 }) 15
      (add32 (p.reg.reg_number 15) 4)

-- A fetch from a word-aligned program counter reads the word there, counts a cycle and moves the
-- program counter on by 4.
pub arm_fetch_lem :
    (host : Host) (p : Core) (old : ℕ) {r : Read}
    → IsWord (p.reg.reg_number 15)
    → p.reg.reg_number 15 % 4 ≡ 0
    → memory_read_word host p.mem (p.reg.reg_number 15) old ≡ ok r
    → arm_fetch host p old ≡ ok (record { status = r.status; value = r.value; core = advanced p })
unfolding arm_fetch
arm_fetch_lem host p old {r} w h e =
    let p1 = record p { cycle_count = add32 p.cycle_count 1 } in
    let here : sub32 (arm_read_register p1 15) 4 ≡ p.reg.reg_number 15 =
      ap (λ t. sub32 t 4) (arm_read_register-pc p1 w h) ∙ omega arith in
    rw (here, e)

-- A new processor is in supervisor mode with both interrupts masked, is at address 0 (which reads
-- as 4 before the first fetch) and at cycle 0, whatever its registers held before.
pub arm_create_lem :
    (cycles : ℕ) (reg : Registers) (mem : Memory)
    → let p = arm_create cycles reg mem in
      (read_cpsr p.reg ≡ 0x1d3)
      × (get_mode p.reg ≡ svc)
      × (arm_read_register p 15 ≡ 4)
      × (p.cycle_count ≡ 0)
      × (p.mem ≡ mem)
unfolding arm_create arm_exception read_cpsr write_cpsr write_usr_register arm_read_register
    read_register pc_adjust
arm_create_lem cycles reg mem = (refl, refl, refl, refl, refl)
