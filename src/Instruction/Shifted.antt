-- ===== src/Instruction/Shifted.antt =====
-- A step that executes a data-processing instruction on a shifted register.
use projet_prog.Base.{
  zero, suc, ℕ, ◌%◌, ◌≤◌, ◌<◌, ◌≡◌, ◌⊎◌, inl, inr, ◌^◌, sym, ◌∙◌, arith, ◌&&◌, if◌then◌else◌, ◌==◌,
  ok, ==_ne,
}
use projet_prog.Bits.{get_bit}
use projet_prog.Word.{Host, IsWord}
use projet_prog.Util.{get_bits}
use projet_prog.Constants.{c_flag}
use projet_prog.Memory.{memory_read_word}
use projet_prog.Core.{Core, arm_read_cpsr}
use projet_prog.Core.Pc.{advanced}
use projet_prog.DataProcessing.{execute_ins}
use projet_prog.LoadStore.{Unset}
use projet_prog.Instruction.{dispatch, arm_step}
use projet_prog.Instruction.Step.{advanced-cpsr}
use projet_prog.Instruction.Execute.{Executed, HasDestination, IsOther, arm_step-Executed}
use projet_prog.Instruction.Execute.{operand, arm_read_register-operand}
use projet_prog.Util.Shifter.{Shifted, shifted, do_shift, imm, reg}
use projet_prog.Util.Shifter.Places.{
  places, lsl_place, lsr_place, asr_place, ror_place, places-zero,
}
use projet_prog.Util.Shifter.Refine.{
  do_shift-imm, do_shift-imm_zero, do_shift-lsl_reg, do_shift-lsr_reg, do_shift-asr_reg,
}
use projet_prog.DataProcessing.{arm_data_processing_shift}

-- The four kinds of shift, one place at a time.
abbrev pub shift_place : ℕ → Shifted → Shifted
shift_place kind =
    if kind == 0
    then lsl_place
    else if kind == 1
    then lsr_place
    else if kind == 2
    then asr_place
    else ror_place

-- The number of places: the low byte of a register, or an amount where a zero stands for 32 with LSR.
abbrev pub shift_amount : Core → ℕ → ℕ
shift_amount p ins =
    if get_bit ins 4 == 1
    then operand p (get_bits ins 11 8) % 2 ^ 8
    else if get_bits ins 6 5 == 1 && get_bits ins 11 7 == 0
    then 32
    else get_bits ins 11 7

-- The register `rm` and the carry flag, after the shift.
abbrev pub shifter_of : Core → ℕ → Shifted
shifter_of p ins =
    places (shift_place (get_bits ins 6 5)) (shift_amount p ins)
      (shifted (operand p (get_bits ins 3 0)) (get_bit (arm_read_cpsr p) c_flag))

-- A shift by an amount in the instruction, which is not 0 for ASR and ROR.
pub record IsByAmount (ins : ℕ) : Type 0 where
  pub amount : get_bit ins 4 ≡ 0
  pub shifts : (0 < get_bits ins 11 7) ⊎ (get_bits ins 6 5 ≤ 1)

-- A shift by a register: LSL, LSR, or ASR by less than 32 places.
pub record IsByRegister (p : Core) (ins : ℕ) : Type 0 where
  pub by_register : get_bit ins 4 ≡ 1
  pub no_transfer : get_bit ins 7 ≡ 0
  pub kind :
      (get_bits ins 6 5 ≤ 1)
      ⊎ ((get_bits ins 6 5 ≡ 2) × (operand p (get_bits ins 11 8) % 2 ^ 8 < 32))

do_shift-amount :
    (host : Host) (v c n kind : ℕ)
    → IsWord v
    → n < 32
    → kind < 4
    → (0 < n) ⊎ (kind ≤ 1)
    → do_shift host n v kind imm c
      ≡ places (shift_place kind) (if kind == 1 && n == 0 then 32 else n) (shifted v c)
do_shift-amount host v c zero zero w l k s =
    (do_shift-imm_zero host v c w).0 ∙ sym (places-zero lsl_place (shifted v c))
do_shift-amount host v c zero (suc zero) w l k s = (do_shift-imm_zero host v c w).1
do_shift-amount host v c zero (suc (suc kind)) w l k s = absurd (omega arith)
do_shift-amount host v c (suc n) zero w l k s = (do_shift-imm host v c w (suc n) (omega arith) l).0
do_shift-amount host v c (suc n) (suc zero) w l k s =
    rw (==_ne (suc n) 0 (omega arith)) (do_shift-imm host v c w (suc n) (omega arith) l).1
do_shift-amount host v c (suc n) (suc (suc zero)) w l k s =
    (do_shift-imm host v c w (suc n) (omega arith) l).2
do_shift-amount host v c (suc n) (suc (suc (suc zero))) w l k s =
    (do_shift-imm host v c w (suc n) (omega arith) l).3
do_shift-amount host v c (suc n) (suc (suc (suc (suc kind)))) w l k s = absurd (omega arith)

do_shift-register :
    (host : Host) (v c n kind : ℕ)
    → IsWord v
    → (kind ≤ 1) ⊎ ((kind ≡ 2) × (n % 2 ^ 8 < 32))
    → do_shift host n v kind reg c ≡ places (shift_place kind) (n % 2 ^ 8) (shifted v c)
do_shift-register host v c n zero w (inl k) = do_shift-lsl_reg host v c w n
do_shift-register host v c n (suc zero) w (inl k) = do_shift-lsr_reg host v c w n
do_shift-register host v c n (suc (suc kind)) w (inl k) = absurd (omega arith)
do_shift-register host v c n kind w (inr k) = rw k.0 (do_shift-asr_reg host v c w n k.1)

module _ (host : Host) (unset : Unset) (p : Core) (ins : ℕ) (pc : IsWord (p.reg.reg_number 15))
    (aligned : p.reg.reg_number 15 % 4 ≡ 0) (class : get_bits ins 27 25 ≡ 0)
    (v : IsWord (operand p (get_bits ins 3 0))) where
  shifted_by_amount :
      IsByAmount ins
      → dispatch host unset (advanced p) ins
        ≡ ok (execute_ins (advanced p) ins (shifter_of p ins).sop (shifter_of p ins).sco)
  unfolding dispatch arm_data_processing_shift
  shifted_by_amount h = rw (
    class,
    h.amount,
    arm_read_register-operand p (get_bits ins 3 0) pc aligned,
    advanced-cpsr p,
    do_shift-amount host (operand p (get_bits ins 3 0)) (get_bit (arm_read_cpsr p) c_flag)
        (get_bits ins 11 7) (get_bits ins 6 5) v (omega arith) (omega arith) h.shifts,
  )

  shifted_by_register :
      IsByRegister p ins
      → dispatch host unset (advanced p) ins
        ≡ ok (execute_ins (advanced p) ins (shifter_of p ins).sop (shifter_of p ins).sco)
  unfolding dispatch arm_data_processing_shift
  shifted_by_register h = rw (
    class,
    h.by_register,
    h.no_transfer,
    arm_read_register-operand p (get_bits ins 3 0) pc aligned,
    arm_read_register-operand p (get_bits ins 11 8) pc aligned,
    advanced-cpsr p,
    do_shift-register host (operand p (get_bits ins 3 0)) (get_bit (arm_read_cpsr p) c_flag)
        (operand p (get_bits ins 11 8)) (get_bits ins 6 5) v h.kind,
  )

-- A step at a word-aligned address that holds a data-processing instruction with a shifted register
-- and a destination with a place in the mode, but not the program counter, ends well and executes it
-- on the register's word shifted one place at a time, with the last digit that leaves as the carry. The
-- amount is in the instruction, and not 0 for ASR and ROR, or it is the low byte of a register, and
-- then the shift is LSL, LSR, or ASR by less than 32 places.
pub arm_step-shifted :
    (host : Host) (unset : Unset) (p : Core) (ins other : ℕ)
    → IsWord (p.reg.reg_number 15)
    → p.reg.reg_number 15 % 4 ≡ 0
    → memory_read_word host p.mem (p.reg.reg_number 15) unset.ins
      ≡ ok (record { status = 0; value = ins })
    → get_bits ins 27 25 ≡ 0
    → IsByAmount ins ⊎ IsByRegister p ins
    → IsWord (operand p (get_bits ins 3 0))
    → HasDestination p ins
    → IsOther ins other
    → (q : Core) × (arm_step host unset p ≡ ok (record { status = 0; core = q }))
      × Executed p ins (shifter_of p ins).sop (shifter_of p ins).sco other q
arm_step-shifted host unset p ins other w h e class s v d o =
    arm_step-Executed host unset p ins (shifter_of p ins).sop (shifter_of p ins).sco other w h e
      (executes s) d o
  where
    executes :
        IsByAmount ins ⊎ IsByRegister p ins
        → dispatch host unset (advanced p) ins
          ≡ ok (execute_ins (advanced p) ins (shifter_of p ins).sop (shifter_of p ins).sco)
    executes (inl b) = shifted_by_amount host unset p ins w h class v b
    executes (inr b) = shifted_by_register host unset p ins w h class v b
