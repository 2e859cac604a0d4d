-- ===== src/LoadStore.antt =====
-- arm_load_store.c: the transfers of one register. `LoadStore/Multiple` has those of several.
pub mod Multiple
pub mod Valid
pub mod Words
pub mod HalfWords
pub mod Stack
pub mod PushPop
use projet_prog.Base.{
  ℕ, ◌+◌, ◌-◌, ◌*◌, ◌/◌, ◌%◌, ◌^◌, bit_and, bit_or, Bool, not, ◌&&◌, ◌||◌, if◌then◌else◌, ◌==◌,
  truthy, Outcome, ok, ◌>>=◌,
}
use projet_prog.Bits.{get_bit}
use projet_prog.Word.{Host, add32, sub32, not32, shl32, sar32, word}
use projet_prog.Constants.{
  undefined_instruction, c_flag, i_bit, p_bit, u_bit, b_bit, w_bit, l_bit, h_bit,
}
use projet_prog.Util.{get_bits, cond_valid}
use projet_prog.Core.{
  Core, Stepped, arm_read_register, arm_read_cpsr, arm_read_spsr, arm_write_register, arm_read_byte,
  arm_read_half, arm_read_word, arm_write_byte, arm_write_half, arm_write_word,
}

-- The contents of the local variables that the code may read before it has set them: `ins` of
-- `arm_execute_instruction`, `val` and `res` of the transfers, and `Rn` of the multiple store.
pub record Unset : Type 0 where
  pub ins : ℕ
  pub val : ℕ
  pub res : ℕ
  pub rn : ℕ

-- What `val` holds after a byte, or a half-word, has been stored at its address.
abbrev pub put_byte : Host → ℕ → ℕ → ℕ
put_byte host old v = if host.big_endian then v * 2 ^ 24 + old % 2 ^ 24 else old / 2 ^ 8 * 2 ^ 8 + v

abbrev pub put_half : Host → ℕ → ℕ → ℕ
put_half host old v =
    if host.big_endian then v * 2 ^ 16 + old % 2 ^ 16 else old / 2 ^ 16 * 2 ^ 16 + v

-- `res` and, for a read that succeeded, the write of the register.
abbrev pub load_into : Core → ℕ → ℕ → ℕ → Stepped
load_into p reg status val = record {
  status = status;
  core = if status == 0 then arm_write_register p reg val else p;
}

-- The offset of a byte or word transfer. Shifts of `Rm` are those of an `int32_t`.
unfoldable pub est_immediate : ℕ → Core → ℕ
est_immediate ins p =
    let shift_code = get_bits ins 6 5 in
    let shift_imm = get_bits ins 11 7 in
    let rm = arm_read_register p (get_bits ins 3 0) in
    if truthy (get_bit ins i_bit)
    then if shift_code == 0
      then shl32 rm shift_imm
      else if shift_code == 1
      then sar32 rm shift_imm
      else if shift_code == 2
      then bit_and (sar32 rm shift_imm) (get_bit ins 31)
      else if shift_imm == 0
      then bit_or (shl32 (get_bit (arm_read_cpsr p) c_flag) 31) (sar32 rm 1)
      else bit_and (sar32 rm shift_imm) (get_bits ins 30 shift_imm)
    else get_bits ins 11 0

-- The offset of a half-word transfer.
unfoldable pub half_immediate : ℕ → Core → ℕ
half_immediate ins p =
    if truthy (get_bit ins b_bit)
    then bit_or (shl32 (get_bits ins 11 8) 4) (get_bits ins 3 0)
    else arm_read_register p (get_bits ins 3 0)

-- The common part of `half_word` and `byte_word`, which have it each: the address by the bits P, U
-- and W, the transfer, and the write of the base register. The condition is tested on `ins`. With
-- P clear and W set no transfer is made and `res` is returned as it is.
unfoldable pub indexed : (Core → ℕ → ℕ → Outcome Stepped) → ℕ → Core → ℕ → ℕ → Outcome Stepped
indexed transfer res p ins ind =
    let cond_v = truthy (cond_valid (get_bits ins 31 28) ins) in
    let n_rn = get_bits ins 19 16 in
    let n_rd = get_bits ins 15 12 in
    let rn = arm_read_register p n_rn in
    let moved = if truthy (get_bit ins u_bit) then add32 rn ind else sub32 rn ind in
    if truthy (get_bit ins p_bit)
    then if truthy (get_bit ins w_bit)
      then if cond_v
        then (let p1 = arm_write_register p n_rn moved in
            transfer p1 n_rd (arm_read_register p1 n_rn))
        else transfer p n_rd rn
      else transfer p n_rd moved
    else if truthy (get_bit ins w_bit)
    then ok (record { status = res; core = p })
    else if truthy (get_bit ins u_bit)
    then (transfer p n_rd rn >>= λ t. ok (record {
      status = t.status;
      core = if cond_v then arm_write_register t.core n_rn moved else t.core;
    }))
    else transfer p n_rd rn

module _ (host : Host) (unset : Unset) where
  unfoldable pub laod_stot_byte_word : ℕ → Core → ℕ → ℕ → Outcome Stepped
  laod_stot_byte_word ins p reg add =
      if truthy (get_bit ins l_bit)
      then if truthy (get_bit ins b_bit)
        then (arm_read_byte p add 0 >>= λ r.
            ok (load_into p reg r.status (put_byte host unset.val r.value)))
        else (arm_read_word host p add unset.val >>= λ r. ok (load_into p reg r.status r.value))
      else if truthy (get_bit ins b_bit)
      then arm_write_byte p add (arm_read_register p reg)
      else arm_write_word host p add (arm_read_register p reg)

  unfoldable pub laod_stot_halfword : ℕ → Core → ℕ → ℕ → Outcome Stepped
  laod_stot_halfword ins p reg add =
      if get_bit ins 6 == 0 && truthy (get_bit ins h_bit)
      then if truthy (get_bit ins l_bit)
        then (arm_read_half host p add 0 >>= λ r.
            ok (load_into p reg r.status (put_half host unset.val r.value)))
        else arm_write_half host p add (arm_read_register p reg)
      else ok (record { status = undefined_instruction; core = p })

  unfoldable pub half_word : Core → ℕ → Outcome Stepped
  half_word p ins = indexed (laod_stot_halfword ins) unset.res p ins (half_immediate ins p)

  unfoldable pub byte_word : Core → ℕ → Outcome Stepped
  byte_word p ins = indexed (laod_stot_byte_word ins) unset.res p ins (est_immediate ins p)

  unfoldable pub arm_load_store : Core → ℕ → Outcome Stepped
  arm_load_store p ins =
      let taille = get_bits ins 27 25 in
      if taille == 2 || taille == 3
      then byte_word p ins
      else if taille == 0
      then half_word p ins
      else ok (record { status = unset.res; core = p })

-- The copy of a status register, which then reports an undefined instruction all the same.
unfoldable pub arm_coprocessor_load_store : Core → ℕ → Stepped
arm_coprocessor_load_store p ins =
    let reg = get_bits ins 15 12 in
    let core =
      if get_bits ins 27 23 == 2 && not (reg == 15)
      then arm_write_register p reg
          (if truthy (get_bit ins 22) then arm_read_spsr p else arm_read_cpsr p)
      else p in
    record { status = undefined_instruction; core = core }
