-- ===== src/Util/Shifter/Refine.antt =====
-- `do_shift` against repeated shifts by one place.
use native.Mathlib.Nat.{
  one-le-pow, div-add-mod, mod-lt, mul-lt-mul_of_pos_right, pow-le-pow_right, div-eq_of_lt,
  div-le_self,
}
use projet_prog.Base.{
  ℕ, zero, suc, ◌+◌, ◌-◌, ◌*◌, ◌/◌, ◌%◌, ◌^◌, ◌≤◌, ◌<◌, ◌≡◌, ◌⊎◌, refl, sym, ap, ap₂, ◌∙◌, arith,
  inl, inr, lt→ltb,
}
use projet_prog.Bits.{get_bit, get_bit_high, bit_or_disjoint, two_pow-split}
use projet_prog.Word.{IsWord, word, Host, shl, shl32, not32}
use projet_prog.Util.{asr, ror}
use projet_prog.Util.Shifter.{shifted, imm, reg, do_shift, shift_by_imm, shift_by_reg}
use projet_prog.Util.Shifter.Places.{
  lsl_place, lsr_place, asr_place, ror_place, places, places-zero, places-suc, places-lsl,
  places-lsr, places-asr, places-ror, signed_quotient, rotated, quotient-lt,
}

shl-eq-shl32 : (host : Host) (x n : ℕ) → n < 32 → shl host x n ≡ shl32 x n
unfolding shl
shl-eq-shl32 host x n h = rw (lt→ltb n 32 h)

-- A word moved up by all but its low `k` places.
top_part : (v k : ℕ) → k ≤ 32 → word (v * 2 ^ (32 - k)) ≡ v % 2 ^ k * 2 ^ (32 - k)
top_part v k h =
    let below : v % 2 ^ k * 2 ^ (32 - k) < 2 ^ k * 2 ^ (32 - k) =
      mul-lt-mul_of_pos_right (mod-lt v (one-le-pow k 2 (omega arith)))
        (one-le-pow (32 - k) 2 (omega arith)) in
    omega (
      arith,
      below,
      two_pow-split 32 k h,
      ap (λ (t : ℕ). t * 2 ^ (32 - k)) (div-add-mod v (2 ^ k)),
      ap (λ (t : ℕ). t * (v / 2 ^ k)) (two_pow-split 32 k h),
    )

digit_cases : (v i : ℕ) → (get_bit v i ≡ 0) ⊎ (get_bit v i ≡ 1)
digit_cases v i = omega arith

-- All ones moved up by `k` places.
top_ones : (k : ℕ) → k ≤ 32 → (2 ^ k - 1) * 2 ^ (32 - k) ≡ 2 ^ 32 - 2 ^ (32 - k)
top_ones k h =
    let e : 2 ^ k ≡ suc (2 ^ k - 1) = omega (arith, one-le-pow k 2) in
    omega (arith, two_pow-split 32 k h, ap (λ (t : ℕ). t * 2 ^ (32 - k)) e)

asr-eq-signed_quotient :
    (host : Host) (v n : ℕ) → IsWord v → 0 < n → n ≤ 31 → asr host v n ≡ signed_quotient v n
unfolding asr
asr-eq-signed_quotient host v n w p h = elim (digit_cases v 31) [
  | inl e ↦
      rw e (bit_or_disjoint 32 (v / 2 ^ n) 0 (omega (arith, div-le_self v (2 ^ n))) ∙ omega arith)
  | inr e ↦
      rw (e, shl-eq-shl32 host (not32 0) (32 - n) (omega arith), ones)
        (bit_or_disjoint (32 - n) (v / 2 ^ n) (2 ^ n - 1) (quotient-lt v n w (omega arith))
          ∙ ap (λ t. v / 2 ^ n + t) (top_ones n (omega arith) ∙ omega arith))
]
  where
    ones : shl32 (not32 0) (32 - n) ≡ (2 ^ n - 1) * 2 ^ (32 - n)
    ones = omega (
      arith,
      top_ones n (omega arith),
      one-le-pow (32 - n) 2,
      pow-le-pow_right {n = 2} (omega arith) {i = 32 - n} {j = 31} (omega arith),
    )

pub ror-eq-rotated :
    (host : Host) (v n : ℕ) → IsWord v → 0 < n → n ≤ 31 → ror host v n ≡ rotated v n
unfolding ror
ror-eq-rotated host v n w p h =
    rw (shl-eq-shl32 host v (32 - n) (omega arith), top_part v n (omega arith))
      (bit_or_disjoint (32 - n) (v / 2 ^ n) (v % 2 ^ n) (quotient-lt v n w (omega arith)))

-- Past 32 places nothing is left.
places-lsl_gone : (d n v c : ℕ) → n ≡ d + 33 → places lsl_place n (shifted v c) ≡ shifted 0 0
unfolding lsl_place
places-lsl_gone zero n v c e =
    let e' : n ≡ 33 = omega arith in
    rw e' (
      places-suc lsl_place 32 (shifted v c)
      ∙ ap lsl_place (places-lsl 31 v c (omega arith))
      ∙ ap₂ shifted (omega arith) (omega arith))
places-lsl_gone (suc d) n v c e =
    let e' : n ≡ suc (d + 33) = omega arith in
    rw e' (
      places-suc lsl_place (d + 33) (shifted v c)
      ∙ ap lsl_place (places-lsl_gone d (d + 33) v c refl))

places-lsr_gone :
    (n v c : ℕ) → IsWord v → 32 ≤ n → places lsr_place (suc n) (shifted v c) ≡ shifted 0 0
places-lsr_gone n v c w h =
    let big : 2 ^ 32 ≤ 2 ^ suc n =
      pow-le-pow_right {n = 2} (omega arith) {i = 32} {j = suc n} (omega arith) in
    places-lsr n v c ∙ ap₂ shifted (div-eq_of_lt (omega (arith, big))) (get_bit_high 32 n v w h)

module _ (host : Host) (v c : ℕ) (w : IsWord v) where
  lsl_small :
      (n : ℕ)
      → 0 < n
      → n ≤ 31
      → shifted (shl host v n) (get_bit v (32 - n)) ≡ places lsl_place n (shifted v c)
  lsl_small zero p h = absurd (omega arith)
  lsl_small (suc n) p h =
      rw (shl-eq-shl32 host v (suc n) (omega arith), places-lsl n v c (omega arith))
        (ap (λ t. shifted (shl32 v (suc n)) (get_bit v t)) (omega arith))

  lsr_small :
      (n : ℕ) → 0 < n → shifted (v / 2 ^ n) (get_bit v (n - 1)) ≡ places lsr_place n (shifted v c)
  lsr_small zero p = absurd (omega arith)
  lsr_small (suc n) p =
      rw (places-lsr n v c) (ap (λ t. shifted (v / 2 ^ suc n) (get_bit v t)) (omega arith))

  asr_small :
      (n : ℕ)
      → 0 < n
      → n ≤ 31
      → shifted (asr host v n) (get_bit v (n - 1)) ≡ places asr_place n (shifted v c)
  asr_small zero p h = absurd (omega arith)
  asr_small (suc n) p h =
      rw (asr-eq-signed_quotient host v (suc n) w (omega arith) h, places-asr n v c w (omega arith))
        (ap (λ t. shifted (signed_quotient v (suc n)) (get_bit v t)) (omega arith))

  ror_small :
      (n : ℕ)
      → 0 < n
      → n ≤ 31
      → shifted (ror host v n) (get_bit v (n - 1)) ≡ places ror_place n (shifted v c)
  ror_small zero p h = absurd (omega arith)
  ror_small (suc n) p h =
      rw (ror-eq-rotated host v (suc n) w (omega arith) h, places-ror n v c w (omega arith))
        (ap (λ t. shifted (rotated v (suc n)) (get_bit v t)) (omega arith))

  lsl_full : shifted 0 (get_bit v 0) ≡ places lsl_place 32 (shifted v c)
  lsl_full = sym (places-lsl 31 v c (omega arith) ∙ ap₂ shifted (omega arith) (omega arith))

  lsr_full : shifted 0 (get_bit v 31) ≡ places lsr_place 32 (shifted v c)
  lsr_full = sym (places-lsr 31 v c ∙ ap₂ shifted (omega arith) refl)

  lsr_gone : (n : ℕ) → 33 ≤ n → shifted 0 0 ≡ places lsr_place n (shifted v c)
  lsr_gone zero h = absurd (omega arith)
  lsr_gone (suc n) h = sym (places-lsr_gone n v c w (omega arith))

  -- LSL by a register shifts by the low byte of the register, one place at a time, and hands the
  -- last digit pushed out to the carry, for every amount from 0 to 255.
  pub do_shift-lsl_reg :
      (amount : ℕ)
      → do_shift host amount v 0 reg c ≡ places lsl_place (amount % 2 ^ 8) (shifted v c)
  unfolding do_shift shift_by_reg
  do_shift-lsl_reg amount =
      let n = amount % 2 ^ 8 in
      ground (
        arith,
        places-zero lsl_place (shifted v c),
        lsl_small n,
        lsl_full,
        places-lsl_gone (n - 33) n v c,
      )

  -- LSR by a register shifts by the low byte of the register, one place at a time, and hands the
  -- last digit pushed out to the carry, for every amount from 0 to 255.
  pub do_shift-lsr_reg :
      (amount : ℕ)
      → do_shift host amount v 1 reg c ≡ places lsr_place (amount % 2 ^ 8) (shifted v c)
  unfolding do_shift shift_by_reg
  do_shift-lsr_reg amount =
      let n = amount % 2 ^ 8 in
      ground (arith, places-zero lsr_place (shifted v c), lsr_small n, lsr_full, lsr_gone n)

  -- ASR by a register whose low byte is below 32 shifts by that byte, one place at a time: each
  -- place repeats the sign and hands the digit pushed out to the carry.
  pub do_shift-asr_reg :
      (amount : ℕ)
      → amount % 2 ^ 8 < 32
      → do_shift host amount v 2 reg c ≡ places asr_place (amount % 2 ^ 8) (shifted v c)
  unfolding do_shift shift_by_reg
  do_shift-asr_reg amount h =
      let n = amount % 2 ^ 8 in ground (arith, places-zero asr_place (shifted v c), asr_small n)

  -- For an amount from 1 to 31 written in the instruction, LSL, LSR, ASR and ROR shift by it one
  -- place at a time, and hand the last digit that leaves to the carry.
  pub do_shift-imm :
      (n : ℕ)
      → 0 < n
      → n < 32
      → (do_shift host n v 0 imm c ≡ places lsl_place n (shifted v c))
        × (do_shift host n v 1 imm c ≡ places lsr_place n (shifted v c))
        × (do_shift host n v 2 imm c ≡ places asr_place n (shifted v c))
        × (do_shift host n v 3 imm c ≡ places ror_place n (shifted v c))
  unfolding do_shift shift_by_imm
  do_shift-imm n p h = (
    ground (arith, lsl_small n),
    ground (arith, lsr_small n),
    ground (arith, asr_small n),
    ground (arith, ror_small n),
  )

  -- A zero amount written in the instruction leaves value and carry for LSL, and means 32 places
  -- for LSR.
  pub do_shift-imm_zero :
      (do_shift host 0 v 0 imm c ≡ shifted v c)
      × (do_shift host 0 v 1 imm c ≡ places lsr_place 32 (shifted v c))
  unfolding do_shift shift_by_imm
  do_shift-imm_zero = (refl, lsr_full)
