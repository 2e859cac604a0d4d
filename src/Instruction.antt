-- ===== src/Instruction.antt =====
-- arm_instruction.c: the fetch of an instruction, the choice of its class and its execution.
pub mod Step
pub mod Valid
pub mod Execute
pub mod Described
pub mod Immediate
pub mod Shifted
use projet_prog.Base.{
  ℕ, ◌+◌, ◌-◌, ◌*◌, ◌/◌, ◌%◌, ◌^◌, ◌&&◌, if◌then◌else◌, ◌==◌, truthy, Outcome, ok, ◌>>=◌,
}
use projet_prog.Bits.{get_bit}
use projet_prog.Word.{Host}
use projet_prog.Util.{get_bits}
use projet_prog.Core.{Core, Stepped, arm_exception, arm_fetch}
use projet_prog.DataProcessing.{arm_data_processing_shift, arm_data_processing_immediate_msr}
use projet_prog.LoadStore.{Unset, arm_load_store, arm_coprocessor_load_store}
use projet_prog.LoadStore.Multiple.{arm_load_store_multiple}
use projet_prog.Branch.{arm_branch, arm_coprocessor_others_swi}

module _ (host : Host) (unset : Unset) where
  -- The switch on the class of the instruction, bits 27 to 25.
  unfoldable pub dispatch : Core → ℕ → Outcome Stepped
  dispatch p ins =
      let class = get_bits ins 27 25 in
      if class == 0
      then if get_bit ins 4 == 1 && get_bit ins 7 == 1
        then arm_load_store host unset p ins
        else ok (arm_data_processing_shift host p ins)
      else if class == 1
      then ok (arm_data_processing_immediate_msr host p ins)
      else if class == 2
      then arm_load_store host unset p ins
      else if class == 3
      then arm_load_store host unset p ins
      else if class == 4
      then arm_load_store_multiple host unset.rn unset.val p ins
      else if class == 5
      then ok (arm_branch p ins)
      else if class == 6
      then ok (arm_coprocessor_load_store p ins)
      else if class == 7
      then arm_coprocessor_others_swi p ins
      else ok (record { status = 1; core = p })

  unfoldable pub arm_execute_instruction : Core → Outcome Stepped
  arm_execute_instruction p = do
    f ← arm_fetch host p unset.ins
    if f.status == 1 then ok (record { status = 0; core = f.core }) else dispatch f.core f.value

  -- The exception's number is passed as an `unsigned char`.
  unfoldable pub arm_step : Core → Outcome Stepped
  arm_step p = do
    r ← arm_execute_instruction p
    ok (record {
      status = r.status;
      core = if truthy r.status then arm_exception r.core (r.status % 2 ^ 8) else r.core;
    })
