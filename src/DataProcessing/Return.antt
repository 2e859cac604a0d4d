-- ===== src/DataProcessing/Return.antt =====
-- A data-processing instruction with the S bit that writes the program counter: the return from an
-- exception.
use projet_prog.Base.{ℕ, ◌+◌, ◌≡◌, refl, ap, ◌∙◌, arith, true, false, truthy, some}
use projet_prog.Bits.{get_bit}
use projet_prog.Constants.{c_flag}
use projet_prog.Util.{get_bits, cond_valid, RegFields, extract_data_proc_fields}
use projet_prog.Registers.{
  Registers, get_mode, read_cpsr, read_spsr, read_register, write_register, write_spsr,
  current_mode_has_spsr,
}
use projet_prog.Registers.Bank.{place, own_places}
use projet_prog.Registers.Frame.{get_mode-write_register, read-write_self, read-write_ne}
use projet_prog.Core.{Core, arm_read_cpsr, arm_read_spsr, arm_read_register}
use projet_prog.DataProcessing.{is_test, alu, write_result, execute_ins}
use projet_prog.DataProcessing.Registers.{
  fields, result, execute_ins-holds, read_cpsr-write_register,
}

module _ (r : Registers) (value : ℕ) {b : ℕ} (own : own_places (get_mode r) ≡ some b) where
  has_spsr : current_mode_has_spsr r ≡ true
  unfolding current_mode_has_spsr
  has_spsr = ground arith

  read-write_spsr : read_spsr (write_spsr r value) ≡ value
  unfolding read_register write_register place
  read-write_spsr =
      read-write_self r 17 value {i = b + 2} (omega arith) (ground arith) (ground arith)

  read_cpsr-write_spsr : read_cpsr (write_spsr r value) ≡ read_cpsr r
  unfolding read_register write_register read_cpsr
  read_cpsr-write_spsr = read-write_ne r 17 16 value (omega arith) (omega arith)

  read_pc-write_spsr : read_register (write_spsr r value) 15 ≡ read_register r 15
  unfolding write_register
  read_pc-write_spsr = read-write_ne r 17 15 value (omega arith) (omega arith)

read-write_pc :
    (r : Registers) (reg value : ℕ)
    → reg ≡ 15
    → read_register (write_register r reg value) 15 ≡ value
unfolding place
read-write_pc r reg value e =
    rw e (read-write_self r 15 value {i = 15} (omega arith) (ground arith) refl)

write_result-spsr :
    (p : Core) (rf : RegFields) (res sco : ℕ)
    → is_test rf.opcode ≡ false
    → truthy rf.s ≡ true
    → rf.rd ≡ 15
    → current_mode_has_spsr (write_register p.reg rf.rd res) ≡ true
    → write_result p rf res sco ≡ record {
      status = 0;
      core = record p {
        reg =
            write_spsr
              (write_register p.reg rf.rd res)
              (read_cpsr (write_register p.reg rf.rd res));
      };
    }
unfolding write_result
write_result-spsr p rf res sco t s e has = rw (t, s, has) (ground arith)

-- In a mode with an SPSR such an instruction, if its condition holds and it is no comparison, goes to
-- its result, but it saves the CPSR in the SPSR and leaves the CPSR as it is, so the processor stays in
-- the mode of the exception and the status before it is lost.
pub execute_ins-return :
    (p : Core) (ins sop sco : ℕ) {b : ℕ}
    → truthy (cond_valid (get_bits ins 31 28) (arm_read_cpsr p)) ≡ true
    → is_test (get_bits ins 24 21) ≡ false
    → truthy (get_bit ins 20) ≡ true
    → get_bits ins 15 12 ≡ 15
    → own_places (get_mode p.reg) ≡ some b
    → let q = (execute_ins p ins sop sco).core in
      ((execute_ins p ins sop sco).status ≡ 0)
      × (read_register q.reg 15
          ≡ alu
              (get_bits ins 24 21)
              (arm_read_register p (get_bits ins 19 16))
              sop
              (get_bit (arm_read_cpsr p) c_flag))
      × (arm_read_spsr q ≡ arm_read_cpsr p)
      × (arm_read_cpsr q ≡ arm_read_cpsr p)
unfolding extract_data_proc_fields
execute_ins-return p ins sop sco {b} c t s e own =
    let res = result p ins sop sco in
    let r = write_register p.reg (get_bits ins 15 12) res in
    let mode = get_mode-write_register p.reg (get_bits ins 15 12) res (omega arith) in
    let own' : own_places (get_mode r) ≡ some b = ap own_places mode ∙ own in
    let status = read_cpsr-write_register p.reg (get_bits ins 15 12) res (omega arith) in
    rw
      (
        execute_ins-holds p ins sop sco c,
        write_result-spsr p (fields p ins sop sco) res sco t s e (has_spsr r 0 own'),
      )
      (
        refl,
        read_pc-write_spsr r (read_cpsr r) own' ∙ read-write_pc p.reg (get_bits ins 15 12) res e,
        read-write_spsr r (read_cpsr r) own' ∙ status,
        read_cpsr-write_spsr r (read_cpsr r) own' ∙ status,
      )
