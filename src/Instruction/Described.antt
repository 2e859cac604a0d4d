-- ===== src/Instruction/Described.antt =====
-- A data-processing instruction that is executed, against the description of its operation.
use projet_prog.Base.{
  ℕ, ◌+◌, ◌≤◌, ◌≡◌, sym, Bool, true, false, not, ◌&&◌, ◌||◌, if◌then◌else◌, ◌==◌, truthy, to_int,
  refl, subst,
}
use projet_prog.Bits.{get_bit}
use projet_prog.Word.{IsWord, word}
use projet_prog.Constants.{c_flag, n_flag, z_flag, v_flag}
use projet_prog.Util.{get_bits, cond_valid, RegFields, extract_data_proc_fields, update_flags}
use projet_prog.Util.Bit.{get_bit-le}
use projet_prog.Util.Flags.{HasFlags}
use projet_prog.Registers.{read_register}
use projet_prog.Core.{Core, arm_read_cpsr}
use projet_prog.DataProcessing.{is_test, alu}
use projet_prog.DataProcessing.Results.{arm_result, alu-arm_result}
use projet_prog.DataProcessing.Flags.{carry_of, overflow_of, update_flags-result}
use projet_prog.Instruction.Execute.{Executed, operand}

-- Flags for a result that is `value`, if they are written.
abbrev pub Flagged : Bool → ℕ → ℕ → ℕ → ℕ → ℕ → ℕ → ℕ → Type 0
Flagged written before after opcode a sop sco value =
    HasFlags before after (if written then get_bit value 31 else get_bit before n_flag)
      (if written then to_int (value == 0) else get_bit before z_flag)
      (if written then carry_of opcode a sop sco after else get_bit before c_flag)
      (if written then overflow_of opcode a sop before after else get_bit before v_flag)

-- What a step leaves where the instruction is executed as ARM describes it, on the shifter operand
-- `sop` with the shifter's carry `sco`; of the register `reg` too.
abbrev pub Described : Core → ℕ → ℕ → ℕ → ℕ → Core → Type 0
Described p ins sop sco reg q =
    let opcode = get_bits ins 24 21 in
    let rd = get_bits ins 15 12 in
    let rn_val = operand p (get_bits ins 19 16) in
    let test = is_test opcode in
    let holds = truthy (cond_valid (get_bits ins 31 28) (arm_read_cpsr p)) in
    let value = arm_result opcode rn_val sop (get_bit (arm_read_cpsr p) c_flag) in
    (read_register q.reg rd ≡ (if holds && not test then value else read_register p.reg rd))
    × Flagged (holds && (truthy (get_bit ins 20) || test)) (arm_read_cpsr p) (arm_read_cpsr q)
        opcode rn_val sop sco value
    × (read_register q.reg reg ≡ read_register p.reg reg)
    × (read_register q.reg 15 ≡ word (p.reg.reg_number 15 + 4))
    × (q.mem ≡ p.mem)
    × (q.cycle_count ≡ word (p.cycle_count + 1))

unchanged :
    (reg : ℕ) → HasFlags reg reg (get_bit reg 31) (get_bit reg 30) (get_bit reg 29) (get_bit reg 28)
unchanged reg = record {
  n_bit = refl;
  z_bit = refl;
  c_bit = refl;
  v_bit = refl;
  rest = λ i l. refl;
}

flags-Flagged :
    (written : Bool) (before after sco carry : ℕ) (rf : RegFields)
    → sco ≤ 1
    → IsWord rf.rn_val
    → IsWord rf.sop
    → let value = alu rf.opcode rf.rn_val rf.sop carry in
      after ≡ (if written then update_flags before rf value sco else before)
      → Flagged written before after rf.opcode rf.rn_val rf.sop sco value
flags-Flagged true before after sco carry rf l p q e =
    let value = alu rf.opcode rf.rn_val rf.sop carry in
    subst (λ (t : ℕ). Flagged true before t rf.opcode rf.rn_val rf.sop sco value) (sym e)
      (update_flags-result before rf sco carry l p q)
flags-Flagged false before after sco carry rf l p q e =
    subst
      (λ (t : ℕ).
        Flagged false before t rf.opcode rf.rn_val rf.sop sco
          (alu rf.opcode rf.rn_val rf.sop carry))
      (sym e) (unchanged before)

pub Executed-Described :
    (p : Core) (ins sop sco reg : ℕ) (q : Core)
    → sco ≤ 1
    → IsWord (operand p (get_bits ins 19 16))
    → IsWord sop
    → Executed p ins sop sco reg q
    → Described p ins sop sco reg q
unfolding extract_data_proc_fields
Executed-Described p ins sop sco reg q l w s (destination, status, other, counter, memory, cycle) =
    let rn_val = operand p (get_bits ins 19 16) in
    let carry = get_bit (arm_read_cpsr p) c_flag in
    let same =
      alu-arm_result rn_val sop w s (get_bits ins 24 21) carry
        (get_bit-le (arm_read_cpsr p) c_flag) in
    rw (← same) (
      destination,
      flags-Flagged _ (arm_read_cpsr p) (arm_read_cpsr q) sco carry
          (extract_data_proc_fields ins sop rn_val) l w s status,
      other,
      counter,
      memory,
      cycle,
    )
