-- ===== src/Util/Flags.antt =====
-- The flags that `update_flags` computes, against arithmetic on the operands.
use projet_prog.Base.{
  ℕ, ◌+◌, ◌*◌, ◌%◌, ◌^◌, ◌≤◌, ◌<◌, ◌≡◌, refl, ap, arith, if◌then◌else◌, ◌==◌, bit_xor, Bool, true,
  false, not, ◌||◌, leb, ltb, to_int,
}
use projet_prog.Bits.{get_bit}
use projet_prog.Word.{IsWord, word}
use projet_prog.Constants.{n_flag, z_flag, c_flag, v_flag}
use projet_prog.Util.{
  mod_bit, RegFields, is_logical, carry_limit, last_carry, carry_out, update_nz, update_cv,
  update_flags,
}
use projet_prog.Util.Bit.{get_bit-mod_bit, get_bit-le}
use projet_prog.Util.Digits.{bit_xor_digits, new_carry, get_bit-update_nz, get_bit-update_cv}

-- A flag register that differs from `reg` in the four flags only.
pub record HasFlags (reg out n z c v : ℕ) : Type 0 where
  pub n_bit : get_bit out n_flag ≡ n
  pub z_bit : get_bit out z_flag ≡ z
  pub c_bit : get_bit out c_flag ≡ c
  pub v_bit : get_bit out v_flag ≡ v
  pub rest : (i : ℕ) → i < 28 → get_bit out i ≡ get_bit reg i

-- `carry_limit` tells whether the sum of the operands and the incoming carry leaves 32 bits.
pub carry_limit_lem :
    (a b k : ℕ)
    → IsWord a
    → IsWord b
    → k ≤ 1
    → a + k < 2 ^ 32
    → leb b (carry_limit a k) ≡ ltb (a + b + k) (2 ^ 32)
carry_limit_lem a b k p q r s = ground arith

-- The number that a word stands for as an `int32_t`, plus 2 ^ 31.
abbrev pub biased : ℕ → ℕ
biased a = (a + 2 ^ 31) % 2 ^ 32

-- The signed sum of `a`, `b` and `k` is no `int32_t`.
abbrev pub add_overflows : ℕ → ℕ → ℕ → Bool
add_overflows a b k =
    ltb (biased a + biased b + k) (2 ^ 31) || leb (3 * 2 ^ 31) (biased a + biased b + k)

overflow_digit :
    (a b k res : ℕ)
    → IsWord a
    → IsWord b
    → k ≤ 1
    → res ≡ word (a + b + k)
    → (to_int (not (bit_xor (get_bit b 31) (get_bit a 31) == get_bit res 31))
          + (if ltb (a + b + k) (2 ^ 32) then 0 else 1))
        % 2
      ≡ to_int (add_overflows a b k)
overflow_digit a b k res p q r e =
    ground (arith, bit_xor_digits (get_bit b 31) (get_bit a 31) (get_bit-le b 31) (get_bit-le a 31))

pub update_flags_arithmetic :
    (reg : ℕ) (rf : RegFields) (res sco : ℕ)
    → is_logical rf.opcode ≡ false
    → update_flags reg rf res sco ≡ update_cv (update_nz reg res) rf res
unfolding update_flags
update_flags_arithmetic reg rf res sco h = rw h

-- The flags after an operation that is not logical, with incoming carry `carry_out reg rf`, whose
-- result is the sum of its operands and that carry.
sum_flags :
    (reg : ℕ) (rf : RegFields) (sco k : ℕ)
    → is_logical rf.opcode ≡ false
    → k ≡ carry_out (update_nz reg (word (rf.rn_val + rf.sop + k))) rf
    → IsWord rf.rn_val
    → IsWord rf.sop
    → rf.rn_val + k < 2 ^ 32
    → let sum = rf.rn_val + rf.sop + k in
      HasFlags reg
        (update_flags reg rf (word sum) sco)
        (get_bit (word sum) 31)
        (to_int (word sum == 0))
        (to_int (leb (2 ^ 32) sum))
        (to_int (add_overflows rf.rn_val rf.sop k))
unfolding update_flags
sum_flags reg rf sco k arithmetic e p q r =
    rw (update_flags_arithmetic reg rf res sco arithmetic) (record {
      n_bit = ground (arith, get_bit-update_cv reg1 rf res 31, get_bit-update_nz reg res 31);
      z_bit = ground (arith, get_bit-update_cv reg1 rf res 30, get_bit-update_nz reg res 30);
      c_bit = ground (arith, get_bit-update_cv reg1 rf res 29, carry);
      v_bit = ground (arith, get_bit-update_cv reg1 rf res 28, carry, overflow);
      rest = λ i h. ground (arith, get_bit-update_cv reg1 rf res i, get_bit-update_nz reg res i);
    })
  where
    res : ℕ
    res = word (rf.rn_val + rf.sop + k)

    reg1 : ℕ
    reg1 = update_nz reg res

    k-le : k ≤ 1
    k-le = ground arith

    carry : new_carry reg1 rf ≡ (if ltb (rf.rn_val + rf.sop + k) (2 ^ 32) then 0 else 1)
    carry = rw (← e) (ap (λ b. if b then 0 else 1) (carry_limit_lem rf.rn_val rf.sop k p q k-le r))

    overflow :
        (last_carry rf res + (if ltb (rf.rn_val + rf.sop + k) (2 ^ 32) then 0 else 1)) % 2
        ≡ to_int (add_overflows rf.rn_val rf.sop k)
    overflow = overflow_digit rf.rn_val rf.sop k res p q k-le refl

-- The same for any way to write the sum and the result.
pub update_flags-sum :
    (reg : ℕ) (rf : RegFields) (sco k sum res : ℕ)
    → is_logical rf.opcode ≡ false
    → k ≡ carry_out (update_nz reg res) rf
    → IsWord rf.rn_val
    → IsWord rf.sop
    → rf.rn_val + k < 2 ^ 32
    → sum ≡ rf.rn_val + rf.sop + k
    → res ≡ word sum
    → HasFlags reg
        (update_flags reg rf res sco)
        (get_bit (word sum) 31)
        (to_int (word sum == 0))
        (to_int (leb (2 ^ 32) sum))
        (to_int (add_overflows rf.rn_val rf.sop k))
update_flags-sum reg rf sco k sum res h c p q r e e' =
    rw (e', e) (sum_flags reg rf sco k h (rw (e', e) at c) p q r)

-- The carry after any operation that is not logical and takes no incoming carry.
pub update_flags_carry :
    (reg : ℕ) (rf : RegFields) (res sco : ℕ)
    → is_logical rf.opcode ≡ false
    → carry_out (update_nz reg res) rf ≡ 0
    → IsWord rf.rn_val
    → IsWord rf.sop
    → get_bit (update_flags reg rf res sco) c_flag ≡ to_int (leb (2 ^ 32) (rf.rn_val + rf.sop))
update_flags_carry reg rf res sco h e p q = rw (update_flags_arithmetic reg rf res sco h) (
    ground (
      arith,
      get_bit-update_cv (update_nz reg res) rf res c_flag,
      carry_limit_lem rf.rn_val rf.sop 0 p q (omega arith) (omega arith),
    ))

-- The flags after a logical operation: C is the shifter's carry, and V is left alone.
pub update_flags_logical :
    (reg : ℕ) (rf : RegFields) (res sco : ℕ)
    → is_logical rf.opcode ≡ true
    → sco ≤ 1
    → HasFlags reg
        (update_flags reg rf res sco)
        (get_bit res 31)
        (to_int (res == 0))
        sco
        (get_bit reg v_flag)
unfolding update_flags
update_flags_logical reg rf res sco h le = rw h (record {
  n_bit = ground (arith, at 31, get_bit-update_nz reg res 31);
  z_bit = ground (arith, at 30, get_bit-update_nz reg res 30);
  c_bit = at 29 (omega arith);
  v_bit = ground (arith, at 28, get_bit-update_nz reg res 28);
  rest = λ i l. ground (arith, at i, get_bit-update_nz reg res i);
})
  where
    at :
        (j : ℕ)
        → j < 32
        → get_bit (mod_bit (update_nz reg res) sco c_flag) j
          ≡ (if c_flag == j then sco else get_bit (update_nz reg res) j)
    at j l = get_bit-mod_bit (update_nz reg res) sco c_flag j le (omega arith) l
