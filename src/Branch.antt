-- ===== src/Branch.antt =====
-- arm_branch_other.c: branches, the software interrupt and the end of the simulation.
pub mod Target
pub mod Valid
use projet_prog.Base.{
  ℕ, ◌+◌, ◌-◌, ◌*◌, ◌/◌, ◌%◌, ◌^◌, if◌then◌else◌, ◌==◌, truthy, Outcome, ok, exited,
}
use projet_prog.Bits.{get_bit}
use projet_prog.Word.{add32, sub32, word}
use projet_prog.Constants.{lr, pc, undefined_instruction, software_interrupt}
use projet_prog.Util.{get_bits, cond_valid, jmp_calc}
use projet_prog.Core.{Core, Stepped, arm_read_register, arm_read_cpsr, arm_write_register}

unfoldable pub arm_branch : Core → ℕ → Stepped
arm_branch p ins =
    let jmp_target = get_bits ins 23 0 in
    if truthy (cond_valid (get_bits ins 31 28) (arm_read_cpsr p))
    then (let p1 =
          if truthy (get_bit ins 24)
          then arm_write_register p lr (sub32 (arm_read_register p pc) 4)
          else p in
        record {
          status = 0;
          core =
              arm_write_register p1 pc
                (add32 (arm_read_register p1 pc) (jmp_calc jmp_target (get_bit jmp_target 23)));
        })
    else record { status = undefined_instruction; core = p }

-- `exit(0)` ends the simulator.
unfoldable pub arm_coprocessor_others_swi : Core → ℕ → Outcome Stepped
arm_coprocessor_others_swi p ins =
    if truthy (get_bit ins 24)
    then if ins % 2 ^ 24 == 0x12_3456
      then exited
      else ok (record { status = software_interrupt; core = p })
    else ok (record { status = undefined_instruction; core = p })

unfoldable pub arm_miscellaneous : Core → ℕ → Stepped
arm_miscellaneous p ins = record { status = undefined_instruction; core = p }
