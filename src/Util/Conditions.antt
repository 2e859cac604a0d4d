-- ===== src/Util/Conditions.antt =====
-- `cond_valid` against the condition table of the ARM architecture.
use projet_prog.Base.{
  ℕ, zero, suc, ◌/◌, ◌%◌, ◌<◌, ◌≡◌, arith, if◌then◌else◌, ◌==◌, truthy, Bool, true, not, ◌&&◌,
}
use mathlib.Core.Bool.{xor}
use projet_prog.Bits.{get_bit}
use projet_prog.Constants.{n_flag, z_flag, c_flag, v_flag}
use projet_prog.Util.{cond_valid}

abbrev pub flag : ℕ → ℕ → Bool
flag reg i = truthy (get_bit reg i)

-- The even conditions in pairs: EQ, CS, MI, VS, HI, GE, GT and AL.
unfoldable pub base_condition : ℕ → ℕ → Bool
base_condition pair reg =
    if pair == 0
    then flag reg z_flag
    else if pair == 1
    then flag reg c_flag
    else if pair == 2
    then flag reg n_flag
    else if pair == 3
    then flag reg v_flag
    else if pair == 4
    then flag reg c_flag && not (flag reg z_flag)
    else if pair == 5
    then not (xor (flag reg n_flag) (flag reg v_flag))
    else if pair == 6
    then not (flag reg z_flag) && not (xor (flag reg n_flag) (flag reg v_flag))
    else true

-- An odd condition below the last pair is the negation of the one before it.
unfoldable pub condition : ℕ → ℕ → Bool
condition cond reg =
    if cond == 15 then true else xor (base_condition (cond / 2) reg) (cond % 2 == 1)

pattern abbrev four+ : ℕ → ℕ
four+ n = suc (suc (suc (suc n)))

-- For each of the sixteen values of the condition field, `cond_valid` is non-zero exactly when the
-- ARM condition of that number holds of the flags in `reg`; the sixteenth always counts as holding.
pub cond_valid-condition :
    (cond reg : ℕ) → cond < 16 → truthy (cond_valid cond reg) ≡ condition cond reg
unfolding cond_valid condition xor base_condition
cond_valid-condition zero reg h = ground arith
cond_valid-condition (suc zero) reg h = ground arith
cond_valid-condition (suc (suc zero)) reg h = ground arith
cond_valid-condition (suc (suc (suc zero))) reg h = ground arith
cond_valid-condition (four+ zero) reg h = ground arith
cond_valid-condition (four+ (suc zero)) reg h = ground arith
cond_valid-condition (four+ (suc (suc zero))) reg h = ground arith
cond_valid-condition (four+ (suc (suc (suc zero)))) reg h = ground arith
cond_valid-condition (four+ (four+ zero)) reg h = ground arith
cond_valid-condition (four+ (four+ (suc zero))) reg h = ground arith
cond_valid-condition (four+ (four+ (suc (suc zero)))) reg h = ground arith
cond_valid-condition (four+ (four+ (suc (suc (suc zero))))) reg h = ground arith
cond_valid-condition (four+ (four+ (four+ zero))) reg h = ground arith
cond_valid-condition (four+ (four+ (four+ (suc zero)))) reg h = ground arith
cond_valid-condition (four+ (four+ (four+ (suc (suc zero))))) reg h = ground arith
cond_valid-condition (four+ (four+ (four+ (suc (suc (suc zero)))))) reg h = ground arith
cond_valid-condition (four+ (four+ (four+ (four+ c)))) reg h = absurd (omega arith)
