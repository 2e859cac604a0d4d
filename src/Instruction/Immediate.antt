-- ===== src/Instruction/Immediate.antt =====
-- A step that executes a data-processing instruction with an immediate operand.
use projet_prog.Base.{
  subst, zero, suc, ℕ, ◌*◌, ◌/◌, ◌%◌, ◌^◌, ◌≤◌, ◌≡◌, ◌⊎◌, inl, inr, ap, ◌∙◌, arith, if◌then◌else◌,
  truthy, ok, bit_or,
}
use projet_prog.Bits.{get_bit, get_bit-bit_or, get_bit-zero, eq_of_digits, bit_or-lt}
use projet_prog.Word.{Host, IsWord, word, shl}
use projet_prog.Util.{get_bits, ror}
use projet_prog.Util.Shifter.Places.{rotated}
use projet_prog.Util.Shifter.Refine.{ror-eq-rotated}
use projet_prog.Constants.{c_flag}
use projet_prog.Memory.{memory_read_word}
use projet_prog.Core.{Core, arm_read_cpsr}
use projet_prog.Core.Pc.{advanced}
use projet_prog.DataProcessing.{execute_ins, arm_data_processing_immediate_msr}
use projet_prog.LoadStore.{Unset}
use projet_prog.Instruction.{dispatch, arm_step}
use projet_prog.Instruction.Step.{advanced-cpsr}
use projet_prog.Instruction.Execute.{operand, HasDestination, IsOther, arm_step-Executed}
use projet_prog.Instruction.Described.{Described, Executed-Described}
use projet_prog.Util.Words.{ror-IsWord}
use projet_prog.Util.Bit.{get_bit-le}

-- A shift of `x` by 32 places gives `x`, as on a processor that takes the count modulo 32, or 0.
abbrev pub ShiftsOut : Host → ℕ → Type 0
ShiftsOut host x = (word (host.overshift x 32) ≡ x) ⊎ (word (host.overshift x 32) ≡ 0)

bit_or_self : (x : ℕ) → IsWord x → bit_or x x ≡ x
bit_or_self x w =
    eq_of_digits 32 (bit_or x x) x (bit_or-lt 32 x x w w) w
      (λ i l. omega (arith, get_bit-bit_or i x x))

bit_or_zero : (x : ℕ) → IsWord x → bit_or x 0 ≡ x
bit_or_zero x w =
    eq_of_digits 32 (bit_or x 0) x (bit_or-lt 32 x 0 w (omega arith)) w
      (λ i l. omega (arith, get_bit-bit_or i x 0, get_bit-zero i))

-- The rotation by an amount that may be 0, for which the code shifts by 32.
ror_zero : (host : Host) (x : ℕ) → IsWord x → ShiftsOut host x → ror host x 0 ≡ x
unfolding ror shl
ror_zero host x w (inl e) =
    let z : x / 2 ^ 0 ≡ x = omega arith in
    ap (bit_or (x / 2 ^ 0)) e ∙ ap (λ t. bit_or t x) z ∙ bit_or_self x w
ror_zero host x w (inr e) =
    let z : x / 2 ^ 0 ≡ x = omega arith in
    ap (bit_or (x / 2 ^ 0)) e ∙ ap (λ t. bit_or t 0) z ∙ bit_or_zero x w

-- The rotation by an amount that may be 0, for which the code shifts by 32.
ror-rotated :
    (host : Host) (x n : ℕ) → IsWord x → n ≤ 31 → ShiftsOut host x → ror host x n ≡ rotated x n
ror-rotated host x zero w l s = ror_zero host x w s ∙ omega arith
ror-rotated host x (suc n) w l s = ror-eq-rotated host x (suc n) w (omega arith) l

-- The operand written in an instruction: eight bits rotated right by twice the number in four.
abbrev pub immediate : ℕ → ℕ
immediate ins = rotated (get_bits ins 7 0) (get_bits ins 11 8 * 2)

dispatch-immediate :
    (host : Host) (unset : Unset) (p : Core) (ins : ℕ)
    → get_bits ins 27 25 ≡ 1
    → dispatch host unset p ins ≡ ok (arm_data_processing_immediate_msr host p ins)
unfolding dispatch
dispatch-immediate host unset p ins h = rw h

-- The carry that the code takes for such an operand: its top digit, or the carry flag if the eight bits
-- are 0. ARM takes the carry flag where the rotation is by 0 places instead.
abbrev pub immediate_carry : Core → ℕ → ℕ
immediate_carry p ins =
    if truthy (get_bits ins 7 0)
    then get_bit (immediate ins) 31
    else get_bit (arm_read_cpsr p) c_flag

immediate_executed :
    (host : Host) (p : Core) (ins : ℕ)
    → ShiftsOut host (get_bits ins 7 0)
    → arm_data_processing_immediate_msr host (advanced p) ins
      ≡ execute_ins (advanced p) ins (immediate ins) (immediate_carry p ins)
unfolding arm_data_processing_immediate_msr
immediate_executed host p ins s = rw (
  ror-rotated host (get_bits ins 7 0) (get_bits ins 11 8 * 2) (omega arith) (omega arith) s,
  advanced-cpsr p,
)

immediate-IsWord :
    (host : Host) (ins : ℕ) → ShiftsOut host (get_bits ins 7 0) → IsWord (immediate ins)
immediate-IsWord host ins s =
    subst IsWord
      (ror-rotated host (get_bits ins 7 0) (get_bits ins 11 8 * 2) (omega arith) (omega arith) s)
      (ror-IsWord host (get_bits ins 7 0) (get_bits ins 11 8 * 2) (omega arith))

immediate_carry-le : (p : Core) (ins : ℕ) → immediate_carry p ins ≤ 1
immediate_carry-le p ins =
    ground (arith, get_bit-le (immediate ins) 31, get_bit-le (arm_read_cpsr p) c_flag)

-- A step at a word-aligned address that holds a data-processing instruction with an immediate operand
-- and a destination with a place in the mode, but not the program counter, ends well. If the condition
-- holds, the destination (of no comparison) has the result that ARM describes for the operation on the
-- first operand, a word, and the eight bits rotated right by twice the four. With the S bit, or in a
-- comparison, N and Z are those of the result; C is the code's carry of the operand and V is kept after
-- a logical operation; after ADD and CMN they are those of the sum. Of C and V after the other
-- operations nothing is said. The program counter and the cycle count move on, and nothing else changes.
pub arm_step-immediate :
    (host : Host) (unset : Unset) (p : Core) (ins reg : ℕ)
    → IsWord (p.reg.reg_number 15)
    → p.reg.reg_number 15 % 4 ≡ 0
    → memory_read_word host p.mem (p.reg.reg_number 15) unset.ins
      ≡ ok (record { status = 0; value = ins })
    → get_bits ins 27 25 ≡ 1
    → ShiftsOut host (get_bits ins 7 0)
    → IsWord (operand p (get_bits ins 19 16))
    → HasDestination p ins
    → IsOther ins reg
    → (q : Core) × (arm_step host unset p ≡ ok (record { status = 0; core = q }))
      × Described p ins (immediate ins) (immediate_carry p ins) reg q
arm_step-immediate host unset p ins reg w h e class s v d o =
    let run =
      arm_step-Executed host unset p ins (immediate ins) (immediate_carry p ins) reg w h e
        (dispatch-immediate host unset (advanced p) ins class
          ∙ ap ok (immediate_executed host p ins s))
        d o in
    (
      run.0,
      run.1,
      Executed-Described p ins (immediate ins) (immediate_carry p ins) reg run.0
          (immediate_carry-le p ins) v (immediate-IsWord host ins s) run.2,
    )
