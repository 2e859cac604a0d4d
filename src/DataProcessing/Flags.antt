-- ===== src/DataProcessing/Flags.antt =====
-- The flags after the arithmetic operations, results and flags together.
use projet_prog.Base.{
  ◌≤◌, ◌||◌, false, if◌then◌else◌, Bool-cases, inl, inr, ℕ, ◌+◌, ◌^◌, ◌<◌, ◌≡◌, ◌⊎◌, refl, arith,
  ◌==◌, leb, to_int,
}
use projet_prog.Bits.{get_bit}
use projet_prog.Word.{IsWord, word}
use projet_prog.Constants.{c_flag, v_flag}
use projet_prog.Util.{RegFields, is_logical, update_nz, update_flags}
use projet_prog.Util.Flags.{
  HasFlags, add_overflows, update_flags-sum, update_flags_carry, update_flags_logical,
  update_flags_arithmetic,
}
use projet_prog.Util.Digits.{get_bit-update_nz, get_bit-update_cv}
use projet_prog.DataProcessing.{alu}

-- ADD and CMN: N is the sign of the sum, Z is set exactly when it is zero, C exactly when the
-- unsigned sum leaves 32 bits and V exactly when the signed sum does; no other bit changes.
pub update_flags-add :
    (reg : ℕ) (rf : RegFields) (sco carry : ℕ)
    → (rf.opcode ≡ 4) ⊎ (rf.opcode ≡ 11)
    → IsWord rf.rn_val
    → IsWord rf.sop
    → let sum = rf.rn_val + rf.sop in
      HasFlags reg
        (update_flags reg rf (alu rf.opcode rf.rn_val rf.sop carry) sco)
        (get_bit (word sum) 31)
        (to_int (word sum == 0))
        (to_int (leb (2 ^ 32) sum))
        (to_int (add_overflows rf.rn_val rf.sop 0))
update_flags-add reg rf sco carry h p q =
    update_flags-sum reg rf sco 0 (rf.rn_val + rf.sop) _ (ground arith) (ground arith) p q
      (omega arith) (omega arith) (unfold alu in ground arith)

-- ADC: the same for the sum of the operands and the carry flag, unless the first operand is all
-- ones and the carry is set.
pub update_flags-adc :
    (reg : ℕ) (rf : RegFields) (sco : ℕ)
    → rf.opcode ≡ 5
    → IsWord rf.rn_val
    → IsWord rf.sop
    → rf.rn_val + get_bit reg c_flag < 2 ^ 32
    → let sum = rf.rn_val + rf.sop + get_bit reg c_flag in
      HasFlags reg
        (update_flags reg rf (alu rf.opcode rf.rn_val rf.sop (get_bit reg c_flag)) sco)
        (get_bit (word sum) 31)
        (to_int (word sum == 0))
        (to_int (leb (2 ^ 32) sum))
        (to_int (add_overflows rf.rn_val rf.sop (get_bit reg c_flag)))
update_flags-adc reg rf sco op p q r =
    update_flags-sum reg rf sco (get_bit reg c_flag) _ _ (ground arith)
      (ground
        (arith, get_bit-update_nz reg (alu rf.opcode rf.rn_val rf.sop (get_bit reg c_flag)) c_flag))
      p q r refl (unfold alu in ground arith)

-- SUB and CMP: C is the carry of the sum of the operands.
pub update_flags-sub_carry :
    (reg : ℕ) (rf : RegFields) (sco carry : ℕ)
    → (rf.opcode ≡ 2) ⊎ (rf.opcode ≡ 10)
    → IsWord rf.rn_val
    → IsWord rf.sop
    → get_bit (update_flags reg rf (alu rf.opcode rf.rn_val rf.sop carry) sco) c_flag
      ≡ to_int (leb (2 ^ 32) (rf.rn_val + rf.sop))
update_flags-sub_carry reg rf sco carry h p q =
    update_flags_carry reg rf _ sco (ground arith) (ground arith) p q

-- C and V after an operation, where `out` are the flags after it: for AND, EOR, TST, TEQ, ORR, MOV, BIC
-- and MVN the shifter's carry and the V before, for ADD and CMN those of the sum. Of the others nothing
-- is said here.
abbrev pub carry_of : ℕ → ℕ → ℕ → ℕ → ℕ → ℕ
carry_of opcode a b sco out =
    if is_logical opcode
    then sco
    else if opcode == 4 || opcode == 11
    then to_int (leb (2 ^ 32) (a + b))
    else get_bit out c_flag

abbrev pub overflow_of : ℕ → ℕ → ℕ → ℕ → ℕ → ℕ
overflow_of opcode a b before out =
    if is_logical opcode
    then get_bit before v_flag
    else if opcode == 4 || opcode == 11
    then to_int (add_overflows a b 0)
    else get_bit out v_flag

arithmetic_flags :
    (reg : ℕ) (rf : RegFields) (res sco : ℕ)
    → is_logical rf.opcode ≡ false
    → HasFlags reg
        (update_flags reg rf res sco)
        (get_bit res 31)
        (to_int (res == 0))
        (get_bit (update_flags reg rf res sco) c_flag)
        (get_bit (update_flags reg rf res sco) v_flag)
arithmetic_flags reg rf res sco h = rw (update_flags_arithmetic reg rf res sco h) (record {
  n_bit =
      ground (arith, get_bit-update_cv (update_nz reg res) rf res 31, get_bit-update_nz reg res 31);
  z_bit =
      ground (arith, get_bit-update_cv (update_nz reg res) rf res 30, get_bit-update_nz reg res 30);
  c_bit = refl;
  v_bit = refl;
  rest = λ i l.
      ground (arith, get_bit-update_cv (update_nz reg res) rf res i, get_bit-update_nz reg res i);
})

-- N, Z, C and V after any operation: N and Z are those of the result.
pub update_flags-result :
    (reg : ℕ) (rf : RegFields) (sco carry : ℕ)
    → sco ≤ 1
    → IsWord rf.rn_val
    → IsWord rf.sop
    → let res = alu rf.opcode rf.rn_val rf.sop carry in
      let out = update_flags reg rf res sco in
      HasFlags reg out
        (get_bit res 31)
        (to_int (res == 0))
        (carry_of rf.opcode rf.rn_val rf.sop sco out)
        (overflow_of rf.opcode rf.rn_val rf.sop reg out)
update_flags-result reg rf sco carry l p q =
    let res = alu rf.opcode rf.rn_val rf.sop carry in
    elim (Bool-cases (is_logical rf.opcode)) [
      | inl e ↦ rw e (update_flags_logical reg rf res sco e l)
      | inr e ↦
          let flags = arithmetic_flags reg rf res sco e in
          elim (Bool-cases (rf.opcode == 4 || rf.opcode == 11)) [
            | inl a ↦
                let sum = update_flags-add reg rf sco carry (ground arith) p q in
                rw (e, a)
                  (record {
                    n_bit = flags.n_bit;
                    z_bit = flags.z_bit;
                    c_bit = sum.c_bit;
                    v_bit = sum.v_bit;
                    rest = flags.rest;
                  })
            | inr a ↦ rw (e, a) flags
          ]
    ]
