-- ===== src/Instruction/Step.antt =====
-- One step of the processor: the fetch, the choice of the class and the execution together.
use projet_prog.Base.{
  ℕ, ◌+◌, ◌%◌, ◌/◌, ◌^◌, ◌≤◌, ◌≡◌, ◌≢◌, refl, ap, ◌∙◌, arith, true, if◌then◌else◌, ==_ne, le→ltb,
  truthy, Outcome, ok, exited, ◌>>=◌,
}
use projet_prog.Bits.{get_bit}
use projet_prog.Word.{Host, IsWord, word, add32, minus_one}
use projet_prog.Util.{get_bits, cond_valid}
use projet_prog.Constants.{lr, pc}
use projet_prog.Registers.{write_register, read_cpsr}
use projet_prog.Memory.{Read, memory_read, memory_read_word}
use projet_prog.Core.{Core, Stepped, arm_read_cpsr, arm_write_register, arm_exception}
use projet_prog.Core.Pc.{advanced, arm_fetch_lem}
use projet_prog.Branch.{arm_branch, arm_coprocessor_others_swi}
use projet_prog.Branch.Target.{displacement, arm_branch_lem}
use projet_prog.LoadStore.{Unset}
use projet_prog.Instruction.{dispatch, arm_execute_instruction, arm_step}

-- The exception raised after an instruction, for its status.
abbrev pub after_exception : Stepped → Outcome Stepped
after_exception r = ok (record {
  status = r.status;
  core = if truthy r.status then arm_exception r.core (r.status % 2 ^ 8) else r.core;
})

-- A step from a word-aligned program counter executes what the read there gave, on the processor
-- after the fetch, and then raises the exception that the status names.
pub arm_step_lem :
    (host : Host) (unset : Unset) (p : Core) {r : Read}
    → IsWord (p.reg.reg_number 15)
    → p.reg.reg_number 15 % 4 ≡ 0
    → memory_read_word host p.mem (p.reg.reg_number 15) unset.ins ≡ ok r
    → r.status ≢ 1
    → arm_step host unset p ≡ (dispatch host unset (advanced p) r.value >>= after_exception)
unfolding arm_step arm_execute_instruction
arm_step_lem host unset p {r} w h e ne =
    rw (arm_fetch_lem host p unset.ins w h e, ==_ne r.status 1 ne)

dispatch-branch :
    (host : Host) (unset : Unset) (p : Core) (ins : ℕ)
    → get_bits ins 27 25 ≡ 5
    → dispatch host unset p ins ≡ ok (arm_branch p ins)
unfolding dispatch
dispatch-branch host unset p ins h = rw h

pub advanced-pc : (p : Core) → (advanced p).reg.reg_number 15 ≡ add32 (p.reg.reg_number 15) 4
unfolding write_register
advanced-pc p = refl

pub advanced-cpsr : (p : Core) → arm_read_cpsr (advanced p) ≡ arm_read_cpsr p
unfolding write_register read_cpsr
advanced-cpsr p = refl

-- A step at a word-aligned address that holds a branch whose condition holds goes to that address
-- plus 8 plus the signed word displacement; with the link bit set r14 gets the address of the next
-- instruction. Nothing else changes but the cycle count.
pub arm_step-branch :
    (host : Host) (unset : Unset) (p : Core) (ins : ℕ)
    → IsWord (p.reg.reg_number 15)
    → p.reg.reg_number 15 % 4 ≡ 0
    → memory_read_word host p.mem (p.reg.reg_number 15) unset.ins
      ≡ ok (record { status = 0; value = ins })
    → get_bits ins 27 25 ≡ 5
    → truthy (cond_valid (get_bits ins 31 28) (arm_read_cpsr p)) ≡ true
    → let here = p.reg.reg_number 15 in
      let linked =
        if truthy (get_bit ins 24)
        then arm_write_register (advanced p) lr (word (here + 4))
        else advanced p in
      arm_step host unset p
      ≡ ok (record {
        status = 0;
        core = arm_write_register linked pc (word (here + 8 + displacement (get_bits ins 23 0)));
      })
arm_step-branch host unset p ins w h e class c =
    arm_step_lem host unset p w h e (omega arith)
    ∙ rw
        (
          dispatch-branch host unset (advanced p) ins class,
          arm_branch_lem (advanced p) ins (rw (advanced-pc p) (omega arith))
              (rw (advanced-pc p) (omega arith)) (rw (advanced-cpsr p) c),
          advanced-pc p,
        )
        (ap (λ t. ok (record { status = 0; core = arm_write_register linked pc t })) joined)
  where
    here : ℕ
    here = p.reg.reg_number 15

    linked : Core
    linked =
        if truthy (get_bit ins 24)
        then arm_write_register (advanced p) lr (word (here + 4))
        else advanced p

    joined :
        word (add32 here 4 + 4 + displacement (get_bits ins 23 0))
        ≡ word (here + 8 + displacement (get_bits ins 23 0))
    joined = omega arith

dispatch-exit :
    (host : Host) (unset : Unset) (p : Core) (ins : ℕ)
    → ins / 2 ^ 24 % 2 ^ 4 ≡ 15
    → ins % 2 ^ 24 ≡ 0x12_3456
    → dispatch host unset p ins ≡ exited
unfolding dispatch arm_coprocessor_others_swi
dispatch-exit host unset p ins top low =
    let class : get_bits ins 27 25 ≡ 7 = omega arith in
    let link : get_bit ins 24 ≡ 1 = omega arith in rw (class, link, low)

-- A step at a word-aligned address that holds the software interrupt 0x123456 ends the simulation,
-- whatever its condition field is.
pub arm_step-exit :
    (host : Host) (unset : Unset) (p : Core) (ins : ℕ)
    → IsWord (p.reg.reg_number 15)
    → p.reg.reg_number 15 % 4 ≡ 0
    → memory_read_word host p.mem (p.reg.reg_number 15) unset.ins
      ≡ ok (record { status = 0; value = ins })
    → ins / 2 ^ 24 % 2 ^ 4 ≡ 15
    → ins % 2 ^ 24 ≡ 0x12_3456
    → arm_step host unset p ≡ exited
arm_step-exit host unset p ins w h e top low =
    arm_step_lem host unset p w h e (omega arith)
    ∙ ap (λ o. o >>= after_exception) (dispatch-exit host unset (advanced p) ins top low)

-- A fetch that fails is not noticed: its status is -1 and the code tests for 1. The step executes
-- whatever the variable for the instruction held before.
pub arm_step_unfetched :
    (host : Host) (unset : Unset) (p : Core)
    → IsWord (p.reg.reg_number 15)
    → p.reg.reg_number 15 % 4 ≡ 0
    → p.mem.size ≤ p.reg.reg_number 15
    → arm_step host unset p ≡ (dispatch host unset (advanced p) unset.ins >>= after_exception)
unfolding memory_read
arm_step_unfetched host unset p w h out =
    arm_step_lem host unset p {r = record { status = minus_one; value = unset.ins }} w h
      (rw (le→ltb (p.reg.reg_number 15) p.mem.size out) refl) (omega arith)
