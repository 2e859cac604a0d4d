-- ===== src/LoadStore/Multiple.antt =====
-- The multiple transfers of arm_load_store.c.
pub mod Reglist
pub mod Valid
pub mod Words
use projet_prog.Base.{
  ℕ, zero, suc, ◌+◌, ◌*◌, Bool, true, false, not, ◌&&◌, ◌||◌, if◌then◌else◌, ◌==◌, ltb, truthy,
  List, [], ◌∷◌, Outcome, ok, ◌>>=◌,
}
use projet_prog.Bits.{get_bit}
use projet_prog.Word.{Host, add32, sub32}
use projet_prog.Constants.{undefined_instruction}
use projet_prog.Util.{get_bits, cond_valid}
use projet_prog.Core.{
  Core, Stepped, arm_read_register, arm_write_register, arm_read_word, arm_write_word,
}

-- The loop of `creer_reglist` at `i`, with `n` rounds left.
unfoldable pub reglist_from : ℕ → ℕ → ℕ → List ℕ
reglist_from ins zero i = []
reglist_from ins (suc n) i =
    let rest = reglist_from ins n (i + 1) in if truthy (get_bit ins i) then i ∷ rest else rest

-- The filled part of `reg_tab`; its length is the result `n`.
unfoldable pub creer_reglist : ℕ → List ℕ
creer_reglist ins = reglist_from ins 16 0

unfoldable pub nb_reg : List ℕ → ℕ
nb_reg [] = 0
nb_reg (r ∷ rs) = suc (nb_reg rs)

-- The three variables that the loop of `check_reg_plag` sets where the list has the register.
pub record Plagued : Type 0 where
  pub var_pc : Bool
  pub var_sp : Bool
  pub var_lr : Bool

abbrev pub mark : Plagued → ℕ → Plagued
mark v reg = record {
  var_pc = reg == 15 || v.var_pc;
  var_sp = reg == 13 || v.var_sp;
  var_lr = reg == 14 || v.var_lr;
}

unfoldable pub mark_each : Plagued → List ℕ → Plagued
mark_each v [] = v
mark_each v (reg ∷ regs) = mark_each (mark v reg) regs

-- The variables are not set before the loop, so what they hold is an argument. Nothing calls this.
unfoldable pub check_reg_plag : Plagued → List ℕ → ℕ → ℕ
check_reg_plag unset reg_tab ins =
    let v = mark_each unset reg_tab in
    let var_l = truthy (get_bit ins 20) in
    if ((v.var_pc && not var_l) || v.var_sp)
      || ((v.var_pc && (v.var_lr && var_l)) || ltb 1 (nb_reg reg_tab))
    then 1
    else 0

-- `Rn+=4` or `Rn-=4`
abbrev pub next_address : Bool → ℕ → ℕ
next_address up rn = if up then add32 rn 4 else sub32 rn 4

-- The processor and `Rn` after a loop.
pub record Swept : Type 0 where
  pub core : Core
  pub rn : ℕ

-- `up` and `before` tell the four cases apart: DA, IA, DB and IB.
module _ (host : Host) (up before : Bool) where
  -- A read that fails leaves `val` as it is, and the register gets that.
  unfoldable pub load_each : List ℕ → Core → ℕ → ℕ → Outcome Swept
  load_each [] p rn val = ok (record { core = p; rn = rn })
  load_each (reg ∷ regs) p rn val = do
    let here = if before then next_address up rn else rn
    r ← arm_read_word host p here val
    load_each regs (arm_write_register p reg r.value) (next_address up rn) r.value

  unfoldable pub store_each : List ℕ → Core → ℕ → Outcome Swept
  store_each [] p rn = ok (record { core = p; rn = rn })
  store_each (reg ∷ regs) p rn = do
    let here = if before then next_address up rn else rn
    w ← arm_write_word host p here (arm_read_register p reg)
    store_each regs w.core (next_address up rn)

-- One case of the switch. `rn` and `val` are the contents of the two variables at its start: a
-- load sets `Rn` first, a store does not.
unfoldable pub transfer_each : Host → ℕ → ℕ → Bool → Bool → Core → ℕ → Outcome Stepped
transfer_each host rn val up before p ins = do
  let rn_num = get_bits ins 19 16
  let regs = creer_reglist ins
  s ←
      if truthy (get_bit ins 20)
      then load_each host up before regs p (arm_read_register p rn_num) val
      else store_each host up before regs p rn
  ok (record {
    status = 0;
    core =
        if truthy (cond_valid (get_bits ins 31 28) ins) && truthy (get_bit ins 21)
        then arm_write_register s.core rn_num (add32 s.rn (nb_reg regs * 4))
        else s.core;
  })

unfoldable pub arm_load_store_multiple : Host → ℕ → ℕ → Core → ℕ → Outcome Stepped
arm_load_store_multiple host rn val p ins =
    let kind = get_bits ins 27 23 in
    let undefined_ins = ok (record { status = undefined_instruction; core = p }) in
    if ltb 7 (get_bits ins 19 16)
    then undefined_ins
    else if kind == 16
    then transfer_each host rn val false false p ins
    else if kind == 17
    then transfer_each host rn val true false p ins
    else if kind == 18
    then transfer_each host rn val false true p ins
    else if kind == 19
    then transfer_each host rn val true true p ins
    else undefined_ins
