-- ===== src/Branch/Valid.antt =====
-- Branches keep the processor valid.
use projet_prog.Base.{ℕ, arith, Bool, true, false, if◌then◌else◌, truthy}
use projet_prog.Bits.{get_bit}
use projet_prog.Word.{add32, sub32}
use projet_prog.Constants.{lr, pc}
use projet_prog.Util.{get_bits, jmp_calc}
use projet_prog.Core.{Core, arm_read_register, arm_write_register}
use projet_prog.Core.Valid.{IsValid, StepsValid, arm_write_register-IsValid}
use projet_prog.Branch.{arm_branch, arm_coprocessor_others_swi}

module _ (size : ℕ) (big : Bool) where
  linked-IsValid :
      (p : Core) (b : Bool)
      → IsValid size big p
      → IsValid size big
          (if b then arm_write_register p lr (sub32 (arm_read_register p pc) 4) else p)
  linked-IsValid p true h = arm_write_register-IsValid size big p lr _ h (omega arith)
  linked-IsValid p false h = h

  pub arm_branch-IsValid :
      (p : Core) (ins : ℕ) → IsValid size big p → IsValid size big (arm_branch p ins).core
  unfolding arm_branch
  arm_branch-IsValid p ins h =
      let t = get_bits ins 23 0 in
      ground (
        arith,
        h,
        arm_write_register-IsValid size big linked pc
            (add32 (arm_read_register linked pc) (jmp_calc t (get_bit t 23)))
            (linked-IsValid p (truthy (get_bit ins 24)) h) (omega arith),
      )
    where
      linked : Core
      linked =
          if truthy (get_bit ins 24)
          then arm_write_register p lr (sub32 (arm_read_register p pc) 4)
          else p

  pub arm_coprocessor_others_swi-IsValid :
      (p : Core) (ins : ℕ)
      → IsValid size big p
      → StepsValid size big (arm_coprocessor_others_swi p ins)
  unfolding arm_coprocessor_others_swi
  arm_coprocessor_others_swi-IsValid p ins h = ground (arith, h)
