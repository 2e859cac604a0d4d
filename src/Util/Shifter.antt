-- ===== src/Util/Shifter.antt =====
-- `do_shift` of util.c: the shifter operand of a data-processing instruction and its carry.
pub mod Places
pub mod Refine
use projet_prog.Base.{ℕ, ◌+◌, ◌-◌, ◌*◌, ◌/◌, ◌%◌, ◌^◌, bit_or, if◌then◌else◌, ◌==◌, ltb, truthy}
use projet_prog.Bits.{get_bit}
use projet_prog.Word.{Host, shl32, shr32, shl}
use projet_prog.Util.{get_bits, asr, ror}

-- `IMM` and `REG`: where the amount comes from.
pub data Mode : Type 0 where
  imm : Mode
  reg : Mode

-- What goes through `Sop` and `sco`.
pub record Shifted : Type 0 where
  pub sop : ℕ
  pub sco : ℕ

abbrev pub shifted : ℕ → ℕ → Shifted
shifted sop sco = record { sop = sop; sco = sco }

module _ (host : Host) where
  -- The switch on the kind of shift for an amount written in the instruction. `shift` has two bits.
  unfoldable pub shift_by_imm : ℕ → ℕ → ℕ → ℕ → Shifted
  shift_by_imm data' val_rm shift c =
      if shift == 0
      then if data' == 0
        then shifted val_rm c
        else shifted (shl host val_rm data') (get_bit val_rm (32 - data'))
      else if shift == 1
      then if data' == 0
        then shifted 0 (get_bit val_rm 31)
        else shifted (shr32 val_rm data') (get_bit val_rm (data' - 1))
      else if shift == 2
      then if data' == 0
        then if truthy (get_bit val_rm 31) then shifted 0xff_ffff 1 else shifted 0 0
        else shifted (asr host val_rm data') (get_bit val_rm (data' - 1))
      else if data' == 0
      then shifted (bit_or (shr32 c 31) (shl32 val_rm 1)) (get_bit val_rm 0)
      else shifted (ror host val_rm data') (get_bit val_rm (data' - 1))

  -- The same for an amount in a register: its low byte, and for a rotation `temp2`.
  unfoldable pub shift_by_reg : ℕ → ℕ → ℕ → ℕ → Shifted
  shift_by_reg data' val_rm shift c =
      let temp = get_bits data' 7 0 in
      let temp2 = get_bits val_rm 4 0 in
      if temp == 0
      then shifted val_rm c
      else if shift == 0
      then if ltb temp 32
        then shifted (shl host val_rm temp) (get_bit val_rm (32 - temp))
        else if temp == 32
        then shifted 0 (get_bit val_rm 0)
        else shifted 0 0
      else if shift == 1
      then if ltb temp 32
        then shifted (shr32 val_rm temp) (get_bit val_rm (temp - 1))
        else if temp == 32
        then shifted 0 (get_bit val_rm 31)
        else shifted 0 0
      else if shift == 2
      then if ltb temp 32
        then shifted (asr host val_rm temp) (get_bit val_rm (temp - 1))
        else if truthy (get_bit val_rm 31)
        then shifted 0xff_ffff 1
        else shifted 0 0
      else if temp2 == 0
      then shifted val_rm (get_bit val_rm 31)
      else shifted (ror host val_rm temp2) (get_bit val_rm (temp2 - 1))

  unfoldable pub do_shift : ℕ → ℕ → ℕ → Mode → ℕ → Shifted
  do_shift data' val_rm shift imm c = shift_by_imm data' val_rm shift c
  do_shift data' val_rm shift reg c = shift_by_reg data' val_rm shift c
