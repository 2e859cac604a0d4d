-- ===== src/DataProcessing.antt =====
-- arm_data_processing.c: the sixteen data-processing operations.
pub mod Results
pub mod Flags
pub mod Valid
pub mod Registers
pub mod Return
use projet_prog.Base.{
  ℕ, ◌+◌, ◌-◌, ◌*◌, ◌/◌, ◌%◌, ◌^◌, bit_and, bit_or, bit_xor, Bool, not, ◌&&◌, ◌||◌, if◌then◌else◌,
  ◌==◌, truthy, to_int,
}
use projet_prog.Bits.{get_bit}
use projet_prog.Word.{Host, add32, sub32, not32, word}
use projet_prog.Constants.{c_flag, undefined_instruction}
use projet_prog.Util.{get_bits, ror, cond_valid, RegFields, extract_data_proc_fields, update_flags}
use projet_prog.Util.Shifter.{imm, reg, shifted, do_shift}
use projet_prog.Core.{
  Core, Stepped, arm_current_mode_has_spsr, arm_read_register, arm_read_cpsr, arm_write_register,
  arm_write_cpsr, arm_write_spsr,
}

-- `x`: TST, TEQ, CMP and CMN write no register.
abbrev pub is_test : ℕ → Bool
is_test opcode = (opcode == 8 || opcode == 9) || (opcode == 10 || opcode == 11)

-- The switch: the result of `opcode` on `rn_val` and `sop`, with the carry flag.
unfoldable pub alu : ℕ → ℕ → ℕ → ℕ → ℕ
alu opcode rn_val sop carry =
    if opcode == 8 || opcode == 0
    then bit_and rn_val sop
    else if opcode == 9 || opcode == 1
    then bit_xor rn_val sop
    else if opcode == 10 || opcode == 2
    then sub32 rn_val sop
    else if opcode == 3
    then sub32 sop rn_val
    else if opcode == 11 || opcode == 4
    then add32 rn_val sop
    else if opcode == 5
    then add32 (add32 rn_val sop) carry
    else if opcode == 6
    then sub32 (sub32 rn_val sop) (to_int (carry == 0))
    else if opcode == 7
    then sub32 (sub32 sop rn_val) (to_int (carry == 0))
    else if opcode == 12
    then bit_or rn_val sop
    else if opcode == 13
    then sop
    else if opcode == 14
    then bit_and rn_val (not32 sop)
    else not32 sop

-- The part of `execute_ins` after the switch.
unfoldable pub write_result : Core → RegFields → ℕ → ℕ → Stepped
write_result p rf res sco =
    let p1 = if is_test rf.opcode then p else arm_write_register p rf.rd res in
    if not (is_test rf.opcode) && (truthy rf.s && rf.rd == 15)
    then if arm_current_mode_has_spsr p1
      then record { status = 0; core = arm_write_spsr p1 (arm_read_cpsr p1) }
      else record { status = undefined_instruction; core = p1 }
    else if truthy rf.s || is_test rf.opcode
    then record {
      status = 0;
      core = arm_write_cpsr p1 (update_flags (arm_read_cpsr p1) rf res sco);
    }
    else record { status = 0; core = p1 }

unfoldable pub execute_ins : Core → ℕ → ℕ → ℕ → Stepped
execute_ins p ins sop sco =
    let rf = extract_data_proc_fields ins sop (arm_read_register p (get_bits ins 19 16)) in
    if truthy (cond_valid rf.cond (arm_read_cpsr p))
    then write_result p rf (alu rf.opcode rf.rn_val rf.sop (get_bit (arm_read_cpsr p) c_flag)) sco
    else record { status = 0; core = p }

module _ (host : Host) where
  unfoldable pub arm_data_processing_shift : Core → ℕ → Stepped
  arm_data_processing_shift p ins =
      let val_rm = arm_read_register p (get_bits ins 3 0) in
      let shift = get_bits ins 6 5 in
      let c = get_bit (arm_read_cpsr p) c_flag in
      let s =
        if truthy (get_bit ins 4)
        then do_shift host (arm_read_register p (get_bits ins 11 8)) val_rm shift reg c
        else do_shift host (get_bits ins 11 7) val_rm shift imm c in
      execute_ins p ins s.sop s.sco

  unfoldable pub arm_data_processing_immediate_msr : Core → ℕ → Stepped
  arm_data_processing_immediate_msr p ins =
      let rot_imm = get_bits ins 11 8 in
      let imm' = get_bits ins 7 0 in
      let sop = ror host imm' (rot_imm * 2) in
      let sco = if truthy imm' then get_bit sop 31 else get_bit (arm_read_cpsr p) c_flag in
      execute_ins p ins sop sco
