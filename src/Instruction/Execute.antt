-- ===== src/Instruction/Execute.antt =====
-- A step that executes a data-processing instruction, by its shifter operand.
use native.Mathlib.Decide.{ℕ_discrete}
use projet_prog.Base.{
  ℕ, ◌+◌, ◌%◌, ◌^◌, ◌≡◌, ◌≢◌, sym, ap, ◌∙◌, arith, false, not, ◌&&◌, ◌||◌, if◌then◌else◌, ◌==◌,
  truthy, some, ok, ◌>>=◌, ==_ne,
}
use projet_prog.Bits.{get_bit}
use projet_prog.Word.{Host, IsWord, word, add32}
use projet_prog.Util.{extract_data_proc_fields, update_flags, get_bits, cond_valid}
use projet_prog.Constants.{c_flag}
use projet_prog.Registers.{get_mode, read_register}
use projet_prog.Registers.Bank.{place, is_lost}
use projet_prog.Registers.Frame.{read-write_ne, get_mode-write_register}
use projet_prog.Memory.{memory_read_word}
use projet_prog.Core.{Core, Stepped, arm_exception, arm_read_register, arm_read_cpsr}
use projet_prog.Core.Pc.{advanced, arm_read_register-pc, arm_read_register-ne_pc}
use projet_prog.DataProcessing.{is_test, alu, execute_ins}
use projet_prog.DataProcessing.Registers.{
  execute_ins-read_cpsr, execute_ins-read_rd, execute_ins-read_ne, execute_ins_rest,
}
use projet_prog.LoadStore.{Unset}
use projet_prog.Instruction.{dispatch, arm_step}
use projet_prog.Instruction.Step.{after_exception, arm_step_lem, advanced-pc, advanced-cpsr}

-- What an instruction reads from a register: from the program counter its own address plus 8.
abbrev pub operand : Core → ℕ → ℕ
operand p reg = if reg == 15 then word (p.reg.reg_number 15 + 8) else read_register p.reg reg

read-advanced :
    (p : Core) (reg : ℕ) → reg ≢ 15 → read_register (advanced p).reg reg ≡ read_register p.reg reg
read-advanced p reg ne =
    read-write_ne p.reg 15 reg (add32 (p.reg.reg_number 15) 4) (omega arith) (λ e. ne (sym e))

mode-advanced : (p : Core) → get_mode (advanced p).reg ≡ get_mode p.reg
mode-advanced p = get_mode-write_register p.reg 15 (add32 (p.reg.reg_number 15) 4) (omega arith)

pub arm_read_register-operand :
    (p : Core) (reg : ℕ)
    → IsWord (p.reg.reg_number 15)
    → p.reg.reg_number 15 % 4 ≡ 0
    → arm_read_register (advanced p) reg ≡ operand p reg
arm_read_register-operand p reg w h = elim (ℕ_discrete reg 15) [
  | yes e ↦ rw e (
      arm_read_register-pc (advanced p) (rw (advanced-pc p) (omega arith))
        (rw (advanced-pc p) (omega arith))
      ∙ ap (λ t. add32 t 4) (advanced-pc p)
      ∙ omega arith)
  | no ne ↦
      rw (==_ne reg 15 ne) (arm_read_register-ne_pc (advanced p) reg ne ∙ read-advanced p reg ne)
]

well_ended :
    (r : Stepped) → r.status ≡ 0 → after_exception r ≡ ok (record { status = 0; core = r.core })
well_ended r e =
    ap
      (λ n. ok (record {
        status = n;
        core = if truthy n then arm_exception r.core (n % 2 ^ 8) else r.core;
      }))
      e

read-advanced_pc : (p : Core) → read_register (advanced p).reg 15 ≡ word (p.reg.reg_number 15 + 4)
unfolding read_register
read-advanced_pc p = advanced-pc p

-- What a step leaves where it executes a data-processing instruction on the shifter operand `sop` with
-- the shifter's carry `sco`: the next address and cycle, the same memory, the destination and the flags
-- for the result if the condition holds (a comparison has no destination, and without the S bit no
-- other has flags), and the register `reg`.
abbrev pub Executed : Core → ℕ → ℕ → ℕ → ℕ → Core → Type 0
Executed p ins sop sco reg q =
    let rd = get_bits ins 15 12 in
    let rn_val = operand p (get_bits ins 19 16) in
    let test = is_test (get_bits ins 24 21) in
    let holds = truthy (cond_valid (get_bits ins 31 28) (arm_read_cpsr p)) in
    let value = alu (get_bits ins 24 21) rn_val sop (get_bit (arm_read_cpsr p) c_flag) in
    (read_register q.reg rd ≡ (if holds && not test then value else read_register p.reg rd))
    × (arm_read_cpsr q ≡ (
        if holds && (truthy (get_bit ins 20) || test)
        then update_flags (arm_read_cpsr p) (extract_data_proc_fields ins sop rn_val) value sco
        else arm_read_cpsr p))
    × (read_register q.reg reg ≡ read_register p.reg reg)
    × (read_register q.reg 15 ≡ word (p.reg.reg_number 15 + 4))
    × (q.mem ≡ p.mem)
    × (q.cycle_count ≡ word (p.cycle_count + 1))

-- The destination of an instruction: not the program counter, and with a writable place in the mode.
pub record HasDestination (p : Core) (ins : ℕ) : Type 0 where
  pub no_pc : get_bits ins 15 12 ≢ 15
  pub kept : is_lost (get_mode p.reg) (get_bits ins 15 12) ≡ false
  pub index : ℕ
  pub placed : place (get_mode p.reg) (get_bits ins 15 12) ≡ some index

-- A register that no data-processing instruction but one with that destination changes.
pub record IsOther (ins reg : ℕ) : Type 0 where
  pub ne_rd : reg ≢ get_bits ins 15 12
  pub ne_pc : reg ≢ 15
  pub ne_cpsr : reg ≢ 16
  pub ne_spsr : reg ≢ 17

execute_ins-Executed :
    (p : Core) (ins sop sco reg : ℕ)
    → IsWord (p.reg.reg_number 15)
    → p.reg.reg_number 15 % 4 ≡ 0
    → HasDestination p ins
    → IsOther ins reg
    → Executed p ins sop sco reg (execute_ins (advanced p) ins sop sco).core
execute_ins-Executed p ins sop sco reg w h d o =
    let rest = execute_ins_rest (advanced p) ins sop sco d.no_pc in
    (
      execute_ins-read_rd (advanced p) ins sop sco
            (ap (λ m. is_lost m (get_bits ins 15 12)) (mode-advanced p) ∙ d.kept)
            (ap (λ m. place m (get_bits ins 15 12)) (mode-advanced p) ∙ d.placed)
          ∙ rw (
            advanced-cpsr p,
            arm_read_register-operand p (get_bits ins 19 16) w h,
            read-advanced p (get_bits ins 15 12) d.no_pc,
          ),
      execute_ins-read_cpsr (advanced p) ins sop sco d.no_pc
          ∙ rw (advanced-cpsr p, arm_read_register-operand p (get_bits ins 19 16) w h),
      execute_ins-read_ne (advanced p) ins sop sco reg o.ne_rd o.ne_cpsr o.ne_spsr
          ∙ read-advanced p reg o.ne_pc,
      execute_ins-read_ne (advanced p) ins sop sco 15 (λ e. d.no_pc (sym e)) (omega arith)
            (omega arith)
          ∙ read-advanced_pc p,
      rest.1,
      rest.2,
    )

-- The step, by what the class of the instruction hands on.
pub arm_step-Executed :
    (host : Host) (unset : Unset) (p : Core) (ins sop sco reg : ℕ)
    → IsWord (p.reg.reg_number 15)
    → p.reg.reg_number 15 % 4 ≡ 0
    → memory_read_word host p.mem (p.reg.reg_number 15) unset.ins
      ≡ ok (record { status = 0; value = ins })
    → dispatch host unset (advanced p) ins ≡ ok (execute_ins (advanced p) ins sop sco)
    → HasDestination p ins
    → IsOther ins reg
    → (q : Core) × (arm_step host unset p ≡ ok (record { status = 0; core = q }))
      × Executed p ins sop sco reg q
arm_step-Executed host unset p ins sop sco reg w h e class d o = (
  (execute_ins (advanced p) ins sop sco).core,
  arm_step_lem host unset p w h e (omega arith)
      ∙ ap (λ o. o >>= after_exception) class
      ∙ well_ended (execute_ins (advanced p) ins sop sco)
          (execute_ins_rest (advanced p) ins sop sco d.no_pc).0,
  execute_ins-Executed p ins sop sco reg w h d o,
)
