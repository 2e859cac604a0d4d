-- ===== src/Tests/Run.antt =====
-- Examples for the fetch, the branch and the step.
use projet_prog.Base.{inr, inl, exited, ◌≡◌, refl, arith, ok, ◌>>=◌, true, truthy}
use projet_prog.Word.{x86}
use projet_prog.Util.{cond_valid}
use projet_prog.DataProcessing.{execute_ins, alu}
use projet_prog.Registers.Bank.{place}
use projet_prog.Registers.{read_register, read_cpsr, read_spsr}
use projet_prog.Memory.{memory_read, memory_read_word, gather, load_cell}
use projet_prog.Core.{pc_adjust, Core, arm_read_register, arm_write_register}
use projet_prog.Core.Pc.{advanced}
use projet_prog.Instruction.{dispatch, arm_step}
use projet_prog.DataProcessing.Return.{execute_ins-return}
use projet_prog.Instruction.Described.{Described}
use projet_prog.Instruction.Execute.{Executed, HasDestination, IsOther}
use projet_prog.Instruction.Immediate.{arm_step-immediate}
use projet_prog.Instruction.Shifted.{IsByRegister, arm_step-shifted}
use projet_prog.Util.Shifter.Places.{places, lsl_place}
use projet_prog.Instruction.Step.{
  after_exception, arm_step-branch, arm_step-exit, arm_step_unfetched,
}
use projet_prog.Tests.{memory_with, core_with, unset_example}

read_ins :
    memory_read_word x86 (memory_with 0xeb00_0002) 0x100 0xea00_0002
    ≡ ok (record { status = 0; value = 0xeb00_0002 })
unfolding memory_read gather load_cell
read_ins = refl

read_sum :
    memory_read_word x86 (memory_with 0xe292_1005) 0x100 0xea00_0002
    ≡ ok (record { status = 0; value = 0xe292_1005 })
unfolding memory_read gather load_cell
read_sum = refl

always : truthy (cond_valid 14 0x1d3) ≡ true
unfolding cond_valid
always = refl

-- `BL` two words on.
arm_step-branch_example :
    arm_step x86 unset_example (core_with 0xeb00_0002)
    ≡ ok (record {
      status = 0;
      core =
          arm_write_register
            (arm_write_register (advanced (core_with 0xeb00_0002)) 14 0x104)
            15
            0x110;
    })
unfolding read_cpsr
arm_step-branch_example =
    arm_step-branch x86 unset_example (core_with 0xeb00_0002) 0xeb00_0002 (omega arith) refl
      read_ins refl always

-- A processor at the end of its memory.
abbrev ended : Core
ended = record (core_with 0) { mem = record (memory_with 0) { size = 0x100 } }

arm_step_unfetched_example :
    arm_step x86 unset_example ended
    ≡ (dispatch x86 unset_example (advanced ended) 0xea00_0002 >>= after_exception)
arm_step_unfetched_example =
    arm_step_unfetched x86 unset_example ended (omega arith) refl (omega arith)

read_swi :
    memory_read_word x86 (memory_with 0xef12_3456) 0x100 0xea00_0002
    ≡ ok (record { status = 0; value = 0xef12_3456 })
unfolding memory_read gather load_cell
read_swi = refl

arm_step-exit_example : arm_step x86 unset_example (core_with 0xef12_3456) ≡ exited
arm_step-exit_example =
    arm_step-exit x86 unset_example (core_with 0xef12_3456) 0xef12_3456 (omega arith) refl read_swi
      refl refl

-- ADDS r1, r2, #5; r2 holds 6.
sum-HasDestination : HasDestination (core_with 0xe292_1005) 0xe292_1005
unfolding place
sum-HasDestination = record { no_pc = omega arith; kept = refl; index = 1; placed = refl }

sum-IsOther : IsOther 0xe292_1005 3
sum-IsOther = record {
  ne_rd = omega arith;
  ne_pc = omega arith;
  ne_cpsr = omega arith;
  ne_spsr = omega arith;
}

arm_step-immediate_example :
    (q : Core) × (arm_step x86 unset_example (core_with 0xe292_1005)
      ≡ ok (record { status = 0; core = q }))
    × Described (core_with 0xe292_1005) 0xe292_1005 5 0 3 q
unfolding read_register
arm_step-immediate_example =
    arm_step-immediate x86 unset_example (core_with 0xe292_1005) 0xe292_1005 3 (omega arith) refl
      read_sum refl (inl refl) (omega arith) sum-HasDestination sum-IsOther

-- ADDS r1, r2, r4, LSL r5; r4 holds 12, and r5 holds 15.
read_adds :
    memory_read_word x86 (memory_with 0xe092_1514) 0x100 0xea00_0002
    ≡ ok (record { status = 0; value = 0xe092_1514 })
unfolding memory_read gather load_cell
read_adds = refl

adds-HasDestination : HasDestination (core_with 0xe092_1514) 0xe092_1514
unfolding place
adds-HasDestination = record { no_pc = omega arith; kept = refl; index = 1; placed = refl }

adds-IsOther : IsOther 0xe092_1514 3
adds-IsOther = record {
  ne_rd = omega arith;
  ne_pc = omega arith;
  ne_cpsr = omega arith;
  ne_spsr = omega arith;
}

adds-IsByRegister : IsByRegister (core_with 0xe092_1514) 0xe092_1514
adds-IsByRegister = record { by_register = refl; no_transfer = refl; kind = inl (omega arith) }

arm_step-shifted_example :
    (q : Core) × (arm_step x86 unset_example (core_with 0xe092_1514)
      ≡ ok (record { status = 0; core = q }))
    × Executed (core_with 0xe092_1514) 0xe092_1514 0x6_0000 0 3 q
unfolding places lsl_place read_register read_cpsr
arm_step-shifted_example =
    arm_step-shifted x86 unset_example (core_with 0xe092_1514) 0xe092_1514 3 (omega arith) refl
      read_adds refl (inr adds-IsByRegister) (omega arith) adds-HasDestination adds-IsOther

-- `SUBS pc, r4, #4` in the supervisor mode; r4 holds 12.
execute_ins-return_example :
    let q = (execute_ins (core_with 0) 0xe254_f004 4 0).core in
    ((execute_ins (core_with 0) 0xe254_f004 4 0).status ≡ 0)
    × (read_register q.reg 15 ≡ 8)
    × (read_spsr q.reg ≡ 0x1d3)
    × (read_cpsr q.reg ≡ 0x1d3)
unfolding alu read_cpsr arm_read_register pc_adjust read_register
execute_ins-return_example =
    execute_ins-return (core_with 0) 0xe254_f004 4 0 {b = 17} always refl refl refl refl
