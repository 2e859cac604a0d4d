-- ===== src/Util/Words.antt =====
-- The shifts give words.
use native.Mathlib.Nat.{div-le_self}
use projet_prog.Base.{ℕ, ◌-◌, ◌^◌, ◌≤◌, arith}
use projet_prog.Bits.{bit_or-lt}
use projet_prog.Word.{Host, IsWord, not32, shl32, shr32, shl}
use projet_prog.Util.{get_bits, asr, ror}
use projet_prog.Util.Shifter.{Mode, imm, reg, shift_by_imm, shift_by_reg, do_shift}

shl-IsWord : (host : Host) (x n : ℕ) → IsWord (shl host x n)
unfolding shl
shl-IsWord host x n = ground arith

shr32-IsWord : (x n : ℕ) → IsWord x → IsWord (shr32 x n)
shr32-IsWord x n w = omega (arith, div-le_self x (2 ^ n))

asr-IsWord : (host : Host) (x n : ℕ) → IsWord x → IsWord (asr host x n)
unfolding asr
asr-IsWord host x n w =
    bit_or-lt 32 (shr32 x n) _ (shr32-IsWord x n w)
      (ground (arith, shl-IsWord host (not32 0) (32 - n)))

pub ror-IsWord : (host : Host) (x n : ℕ) → IsWord x → IsWord (ror host x n)
unfolding ror
ror-IsWord host x n w = bit_or-lt 32 (shr32 x n) _ (shr32-IsWord x n w) (shl-IsWord host x (32 - n))

module _ (host : Host) (data' v shift c : ℕ) (w : IsWord v) (digit : c ≤ 1) where
  shift_by_imm-IsWord : IsWord (shift_by_imm host data' v shift c).sop
  unfolding shift_by_imm
  shift_by_imm-IsWord = ground (
    arith,
    shl-IsWord host v data',
    shr32-IsWord v data' w,
    asr-IsWord host v data' w,
    ror-IsWord host v data' w,
    bit_or-lt 32 (shr32 c 31) (shl32 v 1) (omega arith) (omega arith),
  )

  shift_by_reg-IsWord : IsWord (shift_by_reg host data' v shift c).sop
  unfolding shift_by_reg
  shift_by_reg-IsWord =
      let n = get_bits data' 7 0 in
      ground (
        arith,
        shl-IsWord host v n,
        shr32-IsWord v n w,
        asr-IsWord host v n w,
        ror-IsWord host v (get_bits v 4 0) w,
      )

  pub do_shift-IsWord : (mode : Mode) → IsWord (do_shift host data' v shift mode c).sop
  unfolding do_shift
  do_shift-IsWord imm = shift_by_imm-IsWord
  do_shift-IsWord reg = shift_by_reg-IsWord
