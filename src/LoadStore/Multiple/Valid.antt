-- ===== src/LoadStore/Multiple/Valid.antt =====
-- Multiple transfers keep the processor valid.
use projet_prog.Base.{
  ℕ, ◌*◌, arith, Bool, true, false, ◌&&◌, if◌then◌else◌, truthy, List, [], ◌∷◌, Outcome, ok,
  Ensures, Ensures->>=,
}
use projet_prog.Bits.{get_bit}
use projet_prog.Word.{Host, IsWord, add32}
use projet_prog.Util.{get_bits, cond_valid}
use projet_prog.Memory.{memory_read}
use projet_prog.Memory.Bytes.{Gives, memory_read-lt}
use projet_prog.Core.{Core, Stepped, arm_read_register, arm_write_register, arm_write_word}
use projet_prog.Core.Valid.{
  IsValid, StepsValid, Gives-IsWord, arm_write_register-IsValid, arm_write_word-IsValid,
}
use projet_prog.LoadStore.Multiple.{
  creer_reglist, nb_reg, next_address, Swept, load_each, store_each, transfer_each,
  arm_load_store_multiple,
}

module _ (size : ℕ) (big : Bool) (host : Host) where
  abbrev SweepsValid : Outcome Swept → Type 0
  SweepsValid o = Ensures (λ (s : Swept). IsValid size big s.core) o

  load_each-IsValid :
      (up before : Bool) (regs : List ℕ) (p : Core) (rn val : ℕ)
      → IsValid size big p
      → IsWord val
      → SweepsValid (load_each host up before regs p rn val)
  unfolding load_each
  load_each-IsValid up before [] p rn val h w = h
  load_each-IsValid up before (reg ∷ regs) p rn val h w =
      let here = if before then next_address up rn else rn in
      Ensures->>= (Gives 32 val) (λ (s : Swept). IsValid size big s.core)
        (memory_read host 4 p.mem here val)
        (λ r.
          load_each host up before regs (arm_write_register p reg r.value) (next_address up rn)
            r.value)
        (memory_read-lt size big host p.mem 4 here val h.bytes)
        (λ r g.
          let v = Gives-IsWord val r g w in
          load_each-IsValid up before regs (arm_write_register p reg r.value) (next_address up rn)
            r.value (arm_write_register-IsValid size big p reg r.value h v) v)

  store_each-IsValid :
      (up before : Bool) (regs : List ℕ) (p : Core) (rn : ℕ)
      → IsValid size big p
      → SweepsValid (store_each host up before regs p rn)
  unfolding store_each
  store_each-IsValid up before [] p rn h = h
  store_each-IsValid up before (reg ∷ regs) p rn h =
      let here = if before then next_address up rn else rn in
      Ensures->>= (λ (s : Stepped). IsValid size big s.core)
        (λ (s : Swept). IsValid size big s.core)
        (arm_write_word host p here (arm_read_register p reg))
        (λ w. store_each host up before regs w.core (next_address up rn))
        (arm_write_word-IsValid size big host p here (arm_read_register p reg) h)
        (λ w k. store_each-IsValid up before regs w.core (next_address up rn) k)

  transfer_each-IsValid :
      (rn val : ℕ) (up before : Bool) (p : Core) (ins : ℕ)
      → IsValid size big p
      → IsWord val
      → StepsValid size big (transfer_each host rn val up before p ins)
  unfolding transfer_each
  transfer_each-IsValid rn val up before p ins h w =
      Ensures->>= (λ (s : Swept). IsValid size big s.core)
        (λ (s : Stepped). IsValid size big s.core)
        (if truthy (get_bit ins 20)
          then load_each host up before regs p (arm_read_register p rn_num) val
          else store_each host up before regs p rn)
        (λ s. ok (record {
          status = 0;
          core =
              if cond_v
              then arm_write_register s.core rn_num (add32 s.rn (nb_reg regs * 4))
              else s.core;
        }))
        (sweep (truthy (get_bit ins 20))) (λ s k. after cond_v s k)
    where
      rn_num : ℕ
      rn_num = get_bits ins 19 16

      regs : List ℕ
      regs = creer_reglist ins

      cond_v : Bool
      cond_v = truthy (cond_valid (get_bits ins 31 28) ins) && truthy (get_bit ins 21)

      sweep :
          (b : Bool)
          → SweepsValid (
              if b
              then load_each host up before regs p (arm_read_register p rn_num) val
              else store_each host up before regs p rn)
      sweep true = load_each-IsValid up before regs p (arm_read_register p rn_num) val h w
      sweep false = store_each-IsValid up before regs p rn h

      after :
          (b : Bool) (s : Swept)
          → IsValid size big s.core
          → IsValid size big (
              if b then arm_write_register s.core rn_num (add32 s.rn (nb_reg regs * 4)) else s.core)
      after true s k = arm_write_register-IsValid size big s.core rn_num _ k (omega arith)
      after false s k = k

  pub arm_load_store_multiple-IsValid :
      (rn val : ℕ) (p : Core) (ins : ℕ)
      → IsValid size big p
      → IsWord val
      → StepsValid size big (arm_load_store_multiple host rn val p ins)
  unfolding arm_load_store_multiple
  arm_load_store_multiple-IsValid rn val p ins h w = ground (
    arith,
    h,
    transfer_each-IsValid rn val false false p ins h w,
    transfer_each-IsValid rn val true false p ins h w,
    transfer_each-IsValid rn val false true p ins h w,
    transfer_each-IsValid rn val true true p ins h w,
  )
