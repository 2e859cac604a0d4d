-- ===== src/Instruction/Valid.antt =====
-- Every step keeps the processor valid.
use projet_prog.Base.{
  ℕ, ◌%◌, ◌^◌, arith, Bool, true, false, if◌then◌else◌, ◌==◌, truthy, ok, Ensures->>=,
}
use projet_prog.Word.{Host, IsWord}
use projet_prog.Core.{Core, Fetched, Stepped, arm_exception, arm_fetch}
use projet_prog.Core.Valid.{IsValid, StepsValid, arm_exception-IsValid, arm_fetch-IsValid}
use projet_prog.DataProcessing.Valid.{
  arm_data_processing_shift-IsValid, arm_data_processing_immediate_msr-IsValid,
}
use projet_prog.Branch.Valid.{arm_branch-IsValid, arm_coprocessor_others_swi-IsValid}
use projet_prog.LoadStore.{Unset}
use projet_prog.LoadStore.Valid.{
  UnsetWords, arm_load_store-IsValid, arm_coprocessor_load_store-IsValid,
}
use projet_prog.LoadStore.Multiple.Valid.{arm_load_store_multiple-IsValid}
use projet_prog.Instruction.{dispatch, arm_execute_instruction, arm_step}

module _ (size : ℕ) (big : Bool) (host : Host) (unset : Unset) (u : UnsetWords unset) where
  dispatch-IsValid :
      (p : Core) (ins : ℕ) → IsValid size big p → StepsValid size big (dispatch host unset p ins)
  unfolding dispatch
  dispatch-IsValid p ins h = ground (
    arith,
    h,
    arm_load_store-IsValid size big host unset u p ins h,
    arm_data_processing_shift-IsValid size big host p ins h,
    arm_data_processing_immediate_msr-IsValid size big host p ins h,
    arm_load_store_multiple-IsValid size big host unset.rn unset.val p ins h u.val,
    arm_branch-IsValid size big p ins h,
    arm_coprocessor_load_store-IsValid size big p ins h,
    arm_coprocessor_others_swi-IsValid size big p ins h,
  )

  arm_execute_instruction-IsValid :
      (p : Core) → IsValid size big p → StepsValid size big (arm_execute_instruction host unset p)
  unfolding arm_execute_instruction
  arm_execute_instruction-IsValid p h =
      Ensures->>= (λ (f : Fetched). IsValid size big f.core × IsWord f.value)
        (λ (s : Stepped). IsValid size big s.core) (arm_fetch host p unset.ins)
        (λ f.
          if f.status == 1
          then ok (record { status = 0; core = f.core })
          else dispatch host unset f.core f.value)
        (arm_fetch-IsValid size big host p unset.ins h u.ins) (λ f k. choose (f.status == 1) f k.0)
    where
      choose :
          (b : Bool) (f : Fetched)
          → IsValid size big f.core
          → StepsValid size big (
              if b
              then ok (record { status = 0; core = f.core })
              else dispatch host unset f.core f.value)
      choose true f k = k
      choose false f k = dispatch-IsValid f.core f.value k

  -- A step from a valid processor, if it ends with one, ends with a valid one, whose memory has the
  -- same size and byte order.
  pub arm_step-IsValid :
      (p : Core) → IsValid size big p → StepsValid size big (arm_step host unset p)
  unfolding arm_step
  arm_step-IsValid p h =
      Ensures->>= (λ (s : Stepped). IsValid size big s.core)
        (λ (s : Stepped). IsValid size big s.core) (arm_execute_instruction host unset p)
        (λ r. ok (record {
          status = r.status;
          core = if truthy r.status then arm_exception r.core (r.status % 2 ^ 8) else r.core;
        }))
        (arm_execute_instruction-IsValid p h) (λ r k. after (truthy r.status) r k)
    where
      after :
          (b : Bool) (r : Stepped)
          → IsValid size big r.core
          → IsValid size big (if b then arm_exception r.core (r.status % 2 ^ 8) else r.core)
      after true r k = arm_exception-IsValid size big r.core (r.status % 2 ^ 8) k
      after false r k = k
