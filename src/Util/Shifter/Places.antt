-- ===== src/Util/Shifter/Places.antt =====
-- Shifts by one place, which hand the digit that they push out to the carry, and their closed forms.
use native.Mathlib.Nat.{
  pow-suc, two-pow-succ, div-div-eq-div-mul, mul-div-mul_right, one-le-pow, div-add-mod,
  div-lt_iff_lt-mul, div-le_self, pow-le-pow_right,
}
use projet_prog.Base.{
  ℕ, zero, suc, ◌+◌, ◌-◌, ◌*◌, ◌/◌, ◌%◌, ◌^◌, ◌≤◌, ◌<◌, ◌≡◌, refl, sym, ap, ap₂, ◌∙◌, arith,
}
use projet_prog.Bits.{get_bit, two_pow-split}
use projet_prog.Word.{IsWord, word}
use projet_prog.Util.Shifter.{Shifted, shifted}

-- The value and the carry after one place to the left, to the right, to the right keeping the sign,
-- and to the right round to the top.
unfoldable pub lsl_place : Shifted → Shifted
lsl_place s = shifted (word (s.sop * 2)) (get_bit s.sop 31)

unfoldable pub lsr_place : Shifted → Shifted
lsr_place s = shifted (s.sop / 2) (s.sop % 2)

unfoldable pub asr_place : Shifted → Shifted
asr_place s = shifted (s.sop / 2 + get_bit s.sop 31 * 2 ^ 31) (s.sop % 2)

unfoldable pub ror_place : Shifted → Shifted
ror_place s = shifted (s.sop / 2 + s.sop % 2 * 2 ^ 31) (s.sop % 2)

unfoldable pub places : (Shifted → Shifted) → ℕ → Shifted → Shifted
places step zero s = s
places step (suc n) s = step (places step n s)

pub places-zero : (step : Shifted → Shifted) (s : Shifted) → places step zero s ≡ s
unfolding places
places-zero step s = refl

pub places-suc :
    (step : Shifted → Shifted) (n : ℕ) (s : Shifted)
    → places step (suc n) s ≡ step (places step n s)
unfolding places
places-suc step n s = refl

quotient-suc : (v n : ℕ) → v / 2 ^ n / 2 ≡ v / 2 ^ suc n
quotient-suc v n = rw (div-div-eq-div-mul, pow-suc)

pub places-lsr :
    (n v c : ℕ) → places lsr_place (suc n) (shifted v c) ≡ shifted (v / 2 ^ suc n) (get_bit v n)
unfolding places lsr_place
places-lsr zero v c = ap (shifted (v / 2)) (omega arith)
places-lsr (suc n) v c =
    ap lsr_place (places-lsr n v c)
    ∙ ap (λ q. shifted q (get_bit v (suc n))) (quotient-suc v (suc n))

-- The digit that reaches the top after `m` places to the left.
top_digit : (v m : ℕ) → m ≤ 31 → get_bit (word (v * 2 ^ m)) 31 ≡ get_bit v (31 - m)
top_digit v m h =
    let e : v * 2 ^ m / 2 ^ 31 ≡ v / 2 ^ (31 - m) =
      ap (λ t. v * 2 ^ m / t) (sym (two_pow-split 31 m h))
      ∙ mul-div-mul_right v (2 ^ (31 - m)) (one-le-pow m 2 (omega arith)) in
    omega (arith, e)

pub places-lsl :
    (n v c : ℕ)
    → n ≤ 31
    → places lsl_place (suc n) (shifted v c) ≡ shifted (word (v * 2 ^ suc n)) (get_bit v (31 - n))
unfolding places lsl_place
places-lsl zero v c h = refl
places-lsl (suc n) v c h =
    ap lsl_place (places-lsl n v c (omega arith))
    ∙ ap₂ shifted (omega (arith, ap (λ (t : ℕ). v * t) (two-pow-succ (suc n))))
        (top_digit v (suc n) h)

-- What is left of a word after `k` places with its sign repeated.
abbrev pub signed_quotient : ℕ → ℕ → ℕ
signed_quotient v k = v / 2 ^ k + get_bit v 31 * (2 ^ 32 - 2 ^ (32 - k))

halve_sign : (k : ℕ) → k ≤ 31 → 2 ^ (32 - k) ≡ 2 * 2 ^ (31 - k)
halve_sign k h =
    let e : 32 - k ≡ suc (31 - k) = omega arith in rw e (omega (arith, two-pow-succ (31 - k)))

-- One place to the right of `q` under `s` repeated above 2 * `p`.
sign_step :
    (q s p : ℕ)
    → s ≤ 1
    → q < 2 * p
    → (s ≡ 0 → q < 2 ^ 31)
    → p ≤ 2 ^ 30
    → let x = q + s * (2 ^ 32 - 2 * p) in
      (x / 2 + get_bit x 31 * 2 ^ 31 ≡ q / 2 + s * (2 ^ 32 - p)) × (x % 2 ≡ q % 2)
sign_step q zero p a b c d = (omega (arith, c refl), omega arith)
sign_step q (suc zero) p a b c d = (omega arith, omega arith)
sign_step q (suc (suc s)) p a b c d = absurd (omega arith)

pub quotient-lt : (v k : ℕ) → IsWord v → k ≤ 32 → v / 2 ^ k < 2 ^ (32 - k)
quotient-lt v k w h =
    let pos : 0 < 2 ^ k = one-le-pow k 2 (omega arith) in
    let fits : v < 2 ^ (32 - k) * 2 ^ k = rw (two_pow-split 32 k h) w in
    (div-lt_iff_lt-mul pos).1 fits

asr_place-quotient :
    (v k c : ℕ)
    → IsWord v
    → 0 < k
    → k ≤ 30
    → asr_place (shifted (signed_quotient v k) c)
      ≡ shifted (signed_quotient v (suc k)) (get_bit v k)
unfolding asr_place
asr_place-quotient v k c w p h =
    rw (halve_sign k (omega arith), less)
      (ap₂ shifted
        (step.0 ∙ ap (λ q. q + get_bit v 31 * (2 ^ 32 - 2 ^ (31 - k))) (quotient-suc v k)) step.1)
  where
    less : 32 - suc k ≡ 31 - k
    less = omega arith

    step :
        let x = v / 2 ^ k + get_bit v 31 * (2 ^ 32 - 2 * 2 ^ (31 - k)) in
        (x / 2 + get_bit x 31 * 2 ^ 31 ≡ v / 2 ^ k / 2 + get_bit v 31 * (2 ^ 32 - 2 ^ (31 - k)))
        × (x % 2 ≡ v / 2 ^ k % 2)
    step =
        sign_step (v / 2 ^ k) (get_bit v 31) (2 ^ (31 - k)) (omega arith)
          (rw (← halve_sign k (omega arith)) (quotient-lt v k w (omega arith)))
          (λ e. omega (arith, div-le_self v (2 ^ k)))
          (pow-le-pow_right {n = 2} (omega arith) {i = 31 - k} {j = 30} (omega arith))

pub places-asr :
    (n v c : ℕ)
    → IsWord v
    → n ≤ 30
    → places asr_place (suc n) (shifted v c) ≡ shifted (signed_quotient v (suc n)) (get_bit v n)
unfolding places
places-asr zero v c w h = unfold asr_place in ap₂ shifted (omega arith) (omega arith)
places-asr (suc n) v c w h =
    ap asr_place (places-asr n v c w (omega arith))
    ∙ asr_place-quotient v (suc n) (get_bit v n) w (omega arith) h

-- A word rotated by `k` places.
abbrev pub rotated : ℕ → ℕ → ℕ
rotated v k = v / 2 ^ k + v % 2 ^ k * 2 ^ (32 - k)

pub remainder-suc : (v k : ℕ) → v % 2 ^ suc k ≡ v % 2 ^ k + v / 2 ^ k % 2 * 2 ^ k
remainder-suc v k =
    let q = v / 2 ^ k in
    let halves : q ≡ 2 * (q / 2) + q % 2 = omega arith in
    omega (
      arith,
      div-add-mod v (2 ^ k),
      div-add-mod v (2 ^ suc k),
      quotient-suc v k,
      ap (λ (t : ℕ). t * (v / 2 ^ suc k)) (two-pow-succ k),
      ap (λ (t : ℕ). 2 ^ k * t) halves,
      ap (λ (t : ℕ). 2 ^ k * t) (quotient-suc v k),
    )

ror_place-rotated :
    (v k c : ℕ)
    → IsWord v
    → 0 < k
    → k ≤ 30
    → ror_place (shifted (rotated v k) c) ≡ shifted (rotated v (suc k)) (get_bit v k)
unfolding ror_place
ror_place-rotated v k c w p h = ap₂ shifted value carry
  where
    less : 32 - suc k ≡ 31 - k
    less = omega arith

    carry : rotated v k % 2 ≡ get_bit v k
    carry = omega (arith, ap (λ (t : ℕ). v % 2 ^ k * t) (halve_sign k (omega arith)))

    value : rotated v k / 2 + rotated v k % 2 * 2 ^ 31 ≡ rotated v (suc k)
    value = omega (
      arith,
      carry,
      quotient-suc v k,
      ap (λ (t : ℕ). v % 2 ^ k * t) (halve_sign k (omega arith)),
      ap (λ (t : ℕ). v % 2 ^ suc k * 2 ^ t) less,
      ap (λ (t : ℕ). t * 2 ^ (31 - k)) (remainder-suc v k),
      ap (λ (t : ℕ). v / 2 ^ k % 2 * t) (two_pow-split 31 k (omega arith)),
    )

pub places-ror :
    (n v c : ℕ)
    → IsWord v
    → n ≤ 30
    → places ror_place (suc n) (shifted v c) ≡ shifted (rotated v (suc n)) (get_bit v n)
unfolding places
places-ror zero v c w h = unfold ror_place in ap₂ shifted (omega arith) (omega arith)
places-ror (suc n) v c w h =
    ap ror_place (places-ror n v c w (omega arith))
    ∙ ror_place-rotated v (suc n) (get_bit v n) w (omega arith) h
