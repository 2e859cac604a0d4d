-- ===== src/Util.antt =====
-- util.h and util.c: bit fields, shifts, conditions and flags. The children hold the barrel shifter
-- (`do_shift`) and the proofs.
pub mod Shifter
pub mod Bit
pub mod Words
pub mod Digits
pub mod Flags
pub mod Conditions
pub mod Macros
use projet_prog.Base.{
  ℕ, ◌+◌, ◌-◌, ◌*◌, ◌/◌, ◌%◌, ◌^◌, bit_and, bit_or, bit_xor, Bool, true, false, not, ◌&&◌, ◌||◌,
  if◌then◌else◌, ◌==◌, leb, truthy, to_int,
}
use projet_prog.Bits.{get_bit}
use projet_prog.Word.{Host, word, not32, shl32, shr32, shl, minus_one}
use projet_prog.Constants.{n_flag, z_flag, c_flag, v_flag}

unfoldable pub set_bit : ℕ → ℕ → ℕ
set_bit x i = bit_or x (2 ^ i)

unfoldable pub clr_bit : ℕ → ℕ → ℕ
clr_bit x i = bit_and x (not32 (2 ^ i))

-- The field of the bits `h` down to `l`: the mask is `h - l + 1` ones, none where `h` is `l - 1`.
abbrev pub get_bits : ℕ → ℕ → ℕ → ℕ
get_bits x h l = x / 2 ^ l % 2 ^ (h + 1 - l)

unfoldable pub asr : Host → ℕ → ℕ → ℕ
asr host value shift =
    bit_or (shr32 value shift)
      (if truthy (get_bit value 31) then shl host (not32 0) (32 - shift) else 0)

unfoldable pub ror : Host → ℕ → ℕ → ℕ
ror host value rotation = bit_or (shr32 value rotation) (shl host value (32 - rotation))

-- `regCPSR`, the global that `cond_valid` sets and only `check_fs` reads, is the argument `reg`.
abbrev pub check_fs : ℕ → ℕ → ℕ → Bool
check_fs reg flag state = get_bit reg flag == state

-- The `int` result: 1 or 0, and -1 for the sixteenth condition.
unfoldable pub cond_valid : ℕ → ℕ → ℕ
cond_valid cond reg =
    if cond == 0
    then to_int (check_fs reg z_flag 1)
    else if cond == 1
    then to_int (check_fs reg z_flag 0)
    else if cond == 2
    then to_int (check_fs reg c_flag 1)
    else if cond == 3
    then to_int (check_fs reg c_flag 0)
    else if cond == 4
    then to_int (check_fs reg n_flag 1)
    else if cond == 5
    then to_int (check_fs reg n_flag 0)
    else if cond == 6
    then to_int (check_fs reg v_flag 1)
    else if cond == 7
    then to_int (check_fs reg v_flag 0)
    else if cond == 8
    then to_int (check_fs reg c_flag 1 && check_fs reg z_flag 0)
    else if cond == 9
    then to_int (check_fs reg c_flag 0 || check_fs reg z_flag 1)
    else if cond == 10
    then to_int (
        (check_fs reg n_flag 1 && check_fs reg v_flag 1)
        || (check_fs reg n_flag 0 && check_fs reg v_flag 0))
    else if cond == 11
    then to_int (
        (check_fs reg n_flag 1 && check_fs reg v_flag 0)
        || (check_fs reg n_flag 0 && check_fs reg v_flag 1))
    else if cond == 12
    then to_int (
        check_fs reg z_flag 0
        && ((check_fs reg n_flag 1 && check_fs reg v_flag 1)
            || (check_fs reg n_flag 0 && check_fs reg v_flag 0)))
    else if cond == 13
    then to_int (
        check_fs reg z_flag 1
        || ((check_fs reg n_flag 1 && check_fs reg v_flag 0)
            || (check_fs reg n_flag 0 && check_fs reg v_flag 1)))
    else if cond == 14
    then 1
    else minus_one

unfoldable pub jmp_calc : ℕ → ℕ → ℕ
jmp_calc jmp_target sign =
    if truthy sign then shl32 (bit_or (shl32 (not32 0) 24) jmp_target) 2 else shl32 jmp_target 2

-- `struct reg_fields`
pub record RegFields : Type 0 where
  pub cond : ℕ
  pub opcode : ℕ
  pub s : ℕ
  pub rn : ℕ
  pub rd : ℕ
  pub sop : ℕ
  pub rn_val : ℕ

-- `RnVal` is left unset here; its caller sets it next, to `rn_val`.
unfoldable pub extract_data_proc_fields : ℕ → ℕ → ℕ → RegFields
extract_data_proc_fields ins sop rn_val = record {
  cond = get_bits ins 31 28;
  opcode = get_bits ins 24 21;
  s = get_bit ins 20;
  rn = get_bits ins 19 16;
  rd = get_bits ins 15 12;
  sop = sop;
  rn_val = rn_val;
}

unfoldable pub mod_bit : ℕ → ℕ → ℕ → ℕ
mod_bit reg b pos = if truthy b then set_bit reg pos else clr_bit reg pos

-- AND, EOR, TST, TEQ, ORR, MOV, BIC and MVN.
abbrev pub is_logical : ℕ → Bool
is_logical opcode =
    (opcode == 0 || opcode == 1)
    || ((opcode == 8 || opcode == 9)
        || ((opcode == 12 || opcode == 13) || (opcode == 14 || opcode == 15)))

-- The greatest shifter operand for which `update_flags` clears the carry.
abbrev pub carry_limit : ℕ → ℕ → ℕ
carry_limit rn_val carry = word (0xffff_ffff + word (not32 rn_val + 1) + word (not32 carry + 1))

-- The updates of N and Z.
unfoldable pub update_nz : ℕ → ℕ → ℕ
update_nz reg res =
    let reg1 = mod_bit reg (get_bit res 31) n_flag in
    if res == 0 then set_bit reg1 z_flag else clr_bit reg1 z_flag

-- `lastCarry`, the carry into bit 31, if `res` is a sum.
abbrev pub last_carry : RegFields → ℕ → ℕ
last_carry rf res =
    to_int (not (bit_xor (get_bit rf.sop 31) (get_bit rf.rn_val 31) == get_bit res 31))

-- `carryOut`: the carry flag for SBC, RSC and ADC, 0 for the others.
abbrev pub carry_out : ℕ → RegFields → ℕ
carry_out reg rf =
    if rf.opcode == 6 || (rf.opcode == 7 || rf.opcode == 5) then get_bit reg c_flag else 0

-- The updates of C and V after an arithmetic operation.
unfoldable pub update_cv : ℕ → RegFields → ℕ → ℕ
update_cv reg rf res =
    let reg1 =
      if leb rf.sop (carry_limit rf.rn_val (carry_out reg rf))
      then mod_bit reg 0 c_flag
      else mod_bit reg 1 c_flag in
    mod_bit reg1 (bit_xor (last_carry rf res) (get_bit reg1 c_flag)) v_flag

unfoldable pub update_flags : ℕ → RegFields → ℕ → ℕ → ℕ
update_flags reg rf res sco =
    let reg1 = update_nz reg res in
    if is_logical rf.opcode then mod_bit reg1 sco c_flag else update_cv reg1 rf res
