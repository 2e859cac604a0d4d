-- ===== src/DataProcessing/Registers.antt =====
-- What a data-processing instruction does to the registers.
use projet_prog.Base.{
  ℕ, ◌≡◌, ◌≢◌, refl, sym, ◌∙◌, arith, true, false, if◌then◌else◌, truthy, some, Bool, Bool-cases,
  inl, inr, not, ◌&&◌, ◌||◌,
}
use projet_prog.Bits.{get_bit}
use projet_prog.Constants.{c_flag}
use projet_prog.Util.{get_bits, cond_valid, RegFields, extract_data_proc_fields, update_flags}
use projet_prog.Util.Digits.{get_bit-update_flags}
use projet_prog.Registers.{
  Registers, get_mode, read_cpsr, read_register, write_register, write_cpsr, write_spsr,
}
use projet_prog.Registers.Bank.{place, is_lost}
use projet_prog.Registers.Frame.{read-write_self, read-write_ne}
use projet_prog.Registers.Modes.{read-write_cpsr_ne}
use projet_prog.Core.{Core, arm_read_register, arm_read_cpsr}
use projet_prog.DataProcessing.{is_test, alu, write_result, execute_ins}

-- New flags keep the mode.
update_flags-mode :
    (reg : ℕ) (rf : RegFields) (res sco : ℕ)
    → get_bits (update_flags reg rf res sco) 4 0 ≡ get_bits reg 4 0
update_flags-mode reg rf res sco =
    let same = get_bit-update_flags reg rf res sco in
    omega (
      arith,
      same 0 (omega arith),
      same 1 (omega arith),
      same 2 (omega arith),
      same 3 (omega arith),
      same 4 (omega arith),
    )

-- The CPSR's new flags and the SPSR are all that follows the write of the result.
read-new_flags :
    (q : Registers) (rf : RegFields) (res sco reg : ℕ)
    → reg ≢ 16
    → read_register (write_cpsr q (update_flags (read_cpsr q) rf res sco)) reg ≡ read_register q reg
unfolding read_cpsr
read-new_flags q rf res sco reg ne =
    read-write_cpsr_ne q (update_flags (read_cpsr q) rf res sco) reg
      (update_flags-mode (read_cpsr q) rf res sco) ne

read-write_spsr_ne :
    (q : Registers) (value reg : ℕ)
    → reg ≢ 17
    → read_register (write_spsr q value) reg ≡ read_register q reg
unfolding write_register
read-write_spsr_ne q value reg ne = read-write_ne q 17 reg value (omega arith) (omega arith)

read-write_result :
    (p : Core) (rf : RegFields) (res sco reg : ℕ)
    → reg ≢ 16
    → reg ≢ 17
    → read_register (write_result p rf res sco).core.reg reg
      ≡ read_register (if is_test rf.opcode then p.reg else write_register p.reg rf.rd res) reg
unfolding write_result
read-write_result p rf res sco reg ne ne' =
    let written = write_register p.reg rf.rd res in
    ground (
      arith,
      read-new_flags p.reg rf res sco reg,
      read-new_flags written rf res sco reg,
      read-write_spsr_ne written (read_cpsr written) reg,
    )

module _ (p : Core) (ins sop sco : ℕ) where
  -- The fields of the instruction, and its result.
  abbrev pub fields : RegFields
  fields = extract_data_proc_fields ins sop (arm_read_register p (get_bits ins 19 16))

  abbrev pub result : ℕ
  result =
      alu (get_bits ins 24 21) (arm_read_register p (get_bits ins 19 16)) sop
        (get_bit (arm_read_cpsr p) c_flag)

  pub execute_ins-holds :
      truthy (cond_valid (get_bits ins 31 28) (arm_read_cpsr p)) ≡ true
      → execute_ins p ins sop sco ≡ write_result p fields result sco
  unfolding execute_ins extract_data_proc_fields
  execute_ins-holds c = rw c

  execute_ins-fails :
      truthy (cond_valid (get_bits ins 31 28) (arm_read_cpsr p)) ≡ false
      → execute_ins p ins sop sco ≡ record { status = 0; core = p }
  unfolding execute_ins extract_data_proc_fields
  execute_ins-fails c = rw c

-- A data-processing instruction leaves every register but its destination and the status registers
-- as it was, whether its condition holds or not.
pub execute_ins-read_ne :
    (p : Core) (ins sop sco reg : ℕ)
    → reg ≢ get_bits ins 15 12
    → reg ≢ 16
    → reg ≢ 17
    → read_register (execute_ins p ins sop sco).core.reg reg ≡ read_register p.reg reg
unfolding extract_data_proc_fields
execute_ins-read_ne p ins sop sco reg ne a b =
    elim (Bool-cases (truthy (cond_valid (get_bits ins 31 28) (arm_read_cpsr p)))) [
      | inl c ↦ rw (execute_ins-holds p ins sop sco c) (
          read-write_result p (fields p ins sop sco) (result p ins sop sco) sco reg a b
          ∙ kept (is_test (get_bits ins 24 21)))
      | inr c ↦ rw (execute_ins-fails p ins sop sco c)
    ]
  where
    rd : ℕ
    rd = get_bits ins 15 12

    kept :
        (test : Bool)
        → read_register (if test then p.reg else write_register p.reg rd (result p ins sop sco)) reg
          ≡ read_register p.reg reg
    kept true = refl
    kept false = read-write_ne p.reg rd reg (result p ins sop sco) (omega arith) (λ e. ne (sym e))

-- If its condition holds and it is no comparison, the destination of a data-processing instruction
-- then holds the result of its operation on the first operand, the shifter operand and the carry
-- flag, where the mode has a place for that register and the write is not one of r8 to r12 in the
-- FIQ mode.
pub execute_ins-read_self :
    (p : Core) (ins sop sco : ℕ) {i : ℕ}
    → truthy (cond_valid (get_bits ins 31 28) (arm_read_cpsr p)) ≡ true
    → is_test (get_bits ins 24 21) ≡ false
    → is_lost (get_mode p.reg) (get_bits ins 15 12) ≡ false
    → place (get_mode p.reg) (get_bits ins 15 12) ≡ some i
    → read_register (execute_ins p ins sop sco).core.reg (get_bits ins 15 12)
      ≡ alu
          (get_bits ins 24 21)
          (arm_read_register p (get_bits ins 19 16))
          sop
          (get_bit (arm_read_cpsr p) c_flag)
unfolding extract_data_proc_fields
execute_ins-read_self p ins sop sco c test kept h = rw (execute_ins-holds p ins sop sco c) (
    read-write_result p (fields p ins sop sco) (result p ins sop sco) sco (get_bits ins 15 12)
      (omega arith) (omega arith)
    ∙ rw test
        (read-write_self p.reg (get_bits ins 15 12) (result p ins sop sco) (omega arith) kept h))

-- The destination of any data-processing instruction: the result where the condition holds and it is
-- no comparison, and else what it was.
pub execute_ins-read_rd :
    (p : Core) (ins sop sco : ℕ) {i : ℕ}
    → is_lost (get_mode p.reg) (get_bits ins 15 12) ≡ false
    → place (get_mode p.reg) (get_bits ins 15 12) ≡ some i
    → read_register (execute_ins p ins sop sco).core.reg (get_bits ins 15 12) ≡ (
        if truthy (cond_valid (get_bits ins 31 28) (arm_read_cpsr p))
          && not (is_test (get_bits ins 24 21))
        then result p ins sop sco
        else read_register p.reg (get_bits ins 15 12))
unfolding extract_data_proc_fields
execute_ins-read_rd p ins sop sco kept h =
    elim (Bool-cases (truthy (cond_valid (get_bits ins 31 28) (arm_read_cpsr p)))) [
      | inl c ↦ elim (Bool-cases (is_test (get_bits ins 24 21))) [
        | inl t ↦ rw (execute_ins-holds p ins sop sco c) (
            read-write_result p (fields p ins sop sco) (result p ins sop sco) sco
              (get_bits ins 15 12) (omega arith) (omega arith)
            ∙ rw (c, t))
        | inr t ↦ execute_ins-read_self p ins sop sco c t kept h ∙ rw (c, t)
      ]
      | inr c ↦ rw (execute_ins-fails p ins sop sco c, c)
    ]

-- No instruction with another destination than the program counter fails.
pub execute_ins_rest :
    (p : Core) (ins sop sco : ℕ)
    → get_bits ins 15 12 ≢ 15
    → ((execute_ins p ins sop sco).status ≡ 0)
      × ((execute_ins p ins sop sco).core.mem ≡ p.mem)
      × ((execute_ins p ins sop sco).core.cycle_count ≡ p.cycle_count)
unfolding execute_ins write_result extract_data_proc_fields
execute_ins_rest p ins sop sco ne = ground arith

pub read_cpsr-write_register :
    (r : Registers) (reg value : ℕ)
    → reg ≢ 16
    → read_cpsr (write_register r reg value) ≡ read_cpsr r
unfolding read_cpsr read_register
read_cpsr-write_register r reg value ne = read-write_ne r reg 16 value ne ne

read_cpsr-write_cpsr : (r : Registers) (value : ℕ) → read_cpsr (write_cpsr r value) ≡ value
unfolding read_cpsr write_cpsr
read_cpsr-write_cpsr r value = refl

read_cpsr-write_result :
    (p : Core) (rf : RegFields) (res sco : ℕ)
    → rf.rd ≢ 15
    → rf.rd ≢ 16
    → arm_read_cpsr (write_result p rf res sco).core ≡ (
        if truthy rf.s || is_test rf.opcode
        then update_flags (arm_read_cpsr p) rf res sco
        else arm_read_cpsr p)
unfolding write_result
read_cpsr-write_result p rf res sco ne ne' =
    let q = write_register p.reg rf.rd res in
    ground (
      arith,
      read_cpsr-write_register p.reg rf.rd res ne',
      read_cpsr-write_cpsr p.reg (update_flags (read_cpsr p.reg) rf res sco),
      read_cpsr-write_cpsr q (update_flags (read_cpsr q) rf res sco),
    )

-- The flags after any of them: new where the condition holds and the S bit is set or it is a
-- comparison.
pub execute_ins-read_cpsr :
    (p : Core) (ins sop sco : ℕ)
    → get_bits ins 15 12 ≢ 15
    → arm_read_cpsr (execute_ins p ins sop sco).core ≡ (
        if truthy (cond_valid (get_bits ins 31 28) (arm_read_cpsr p))
          && (truthy (get_bit ins 20) || is_test (get_bits ins 24 21))
        then update_flags (arm_read_cpsr p) (fields p ins sop sco) (result p ins sop sco) sco
        else arm_read_cpsr p)
unfolding extract_data_proc_fields
execute_ins-read_cpsr p ins sop sco ne =
    elim (Bool-cases (truthy (cond_valid (get_bits ins 31 28) (arm_read_cpsr p)))) [
      | inl c ↦
          rw (execute_ins-holds p ins sop sco c, c)
            (read_cpsr-write_result p (fields p ins sop sco) (result p ins sop sco) sco ne
              (omega arith))
      | inr c ↦ rw (execute_ins-fails p ins sop sco c, c)
    ]
