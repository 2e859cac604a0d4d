-- ===== src/DataProcessing/Valid.antt =====
-- Data-processing instructions keep the processor valid.
use projet_prog.Base.{ℕ, ◌*◌, arith, Bool, true, false, if◌then◌else◌}
use projet_prog.Bits.{get_bit, bit_and-lt, bit_or-lt, bit_xor-lt}
use projet_prog.Word.{Host, IsWord, not32}
use projet_prog.Util.{get_bits, RegFields, extract_data_proc_fields, update_flags}
use projet_prog.Util.Digits.{update_flags-IsWord}
use projet_prog.Util.Shifter.{imm, reg}
use projet_prog.Util.Words.{ror-IsWord, do_shift-IsWord}
use projet_prog.Constants.{c_flag}
use projet_prog.Core.{
  Core, arm_read_register, arm_read_cpsr, arm_write_register, arm_write_cpsr, arm_write_spsr,
}
use projet_prog.Core.Valid.{
  IsValid, arm_read_register-IsWord, arm_read_cpsr-IsWord, arm_write_register-IsValid,
  arm_write_cpsr-IsValid, arm_write_spsr-IsValid,
}
use projet_prog.DataProcessing.{
  is_test, alu, write_result, execute_ins, arm_data_processing_shift,
  arm_data_processing_immediate_msr,
}

alu-IsWord :
    (opcode rn_val sop carry : ℕ)
    → IsWord rn_val
    → IsWord sop
    → IsWord (alu opcode rn_val sop carry)
unfolding alu
alu-IsWord opcode rn_val sop carry p q = ground (
  arith,
  bit_and-lt 32 rn_val sop p,
  bit_xor-lt 32 rn_val sop p q,
  bit_or-lt 32 rn_val sop p q,
  bit_and-lt 32 rn_val (not32 sop) p,
)

module _ (size : ℕ) (big : Bool) where
  written-IsValid :
      (b : Bool) (p : Core) (rd value : ℕ)
      → IsValid size big p
      → IsWord value
      → IsValid size big (if b then p else arm_write_register p rd value)
  written-IsValid true p rd value h w = h
  written-IsValid false p rd value h w = arm_write_register-IsValid size big p rd value h w

  write_result-IsValid :
      (p : Core) (rf : RegFields) (res sco : ℕ)
      → IsValid size big p
      → IsWord res
      → IsValid size big (write_result p rf res sco).core
  unfolding write_result
  write_result-IsValid p rf res sco h w = ground (arith, spsr, cpsr, h1)
    where
      p1 : Core
      p1 = if is_test rf.opcode then p else arm_write_register p rf.rd res

      h1 : IsValid size big p1
      h1 = written-IsValid (is_test rf.opcode) p rf.rd res h w

      spsr : IsValid size big (arm_write_spsr p1 (arm_read_cpsr p1))
      spsr = arm_write_spsr-IsValid size big p1 _ h1 (arm_read_cpsr-IsWord size big p1 h1)

      cpsr : IsValid size big (arm_write_cpsr p1 (update_flags (arm_read_cpsr p1) rf res sco))
      cpsr =
          arm_write_cpsr-IsValid size big p1 _ h1 (
            update_flags-IsWord (arm_read_cpsr p1) rf res sco (arm_read_cpsr-IsWord size big p1 h1))

  pub execute_ins-IsValid :
      (p : Core) (ins sop sco : ℕ)
      → IsValid size big p
      → IsWord sop
      → IsValid size big (execute_ins p ins sop sco).core
  unfolding execute_ins extract_data_proc_fields
  execute_ins-IsValid p ins sop sco h w =
      let rn_val = arm_read_register p (get_bits ins 19 16) in
      let c = get_bit (arm_read_cpsr p) c_flag in
      ground (
        arith,
        h,
        write_result-IsValid p (extract_data_proc_fields ins sop rn_val)
            (alu (get_bits ins 24 21) rn_val sop c) sco h
            (alu-IsWord (get_bits ins 24 21) rn_val sop c
              (arm_read_register-IsWord size big p (get_bits ins 19 16) h) w),
      )

  module _ (host : Host) where
    pub arm_data_processing_shift-IsValid :
        (p : Core) (ins : ℕ)
        → IsValid size big p
        → IsValid size big (arm_data_processing_shift host p ins).core
    unfolding arm_data_processing_shift
    arm_data_processing_shift-IsValid p ins h =
        let v = arm_read_register-IsWord size big p (get_bits ins 3 0) h in
        execute_ins-IsValid p ins _ _ h (
          ground (
            arith,
            do_shift-IsWord host (arm_read_register p (get_bits ins 11 8)) _ (get_bits ins 6 5)
                (get_bit (arm_read_cpsr p) c_flag) v (omega arith) reg,
            do_shift-IsWord host (get_bits ins 11 7) _ (get_bits ins 6 5)
                (get_bit (arm_read_cpsr p) c_flag) v (omega arith) imm,
          ))

    pub arm_data_processing_immediate_msr-IsValid :
        (p : Core) (ins : ℕ)
        → IsValid size big p
        → IsValid size big (arm_data_processing_immediate_msr host p ins).core
    unfolding arm_data_processing_immediate_msr
    arm_data_processing_immediate_msr-IsValid p ins h =
        execute_ins-IsValid p ins _ _ h
          (ror-IsWord host (get_bits ins 7 0) (get_bits ins 11 8 * 2) (omega arith))
