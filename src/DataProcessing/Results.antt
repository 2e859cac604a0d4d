-- ===== src/DataProcessing/Results.antt =====
-- The sixteen operations as ARM describes them: sums with a carry, and tables of digits.
use projet_prog.Base.{
  ℕ, zero, suc, ◌+◌, ◌-◌, ◌*◌, ◌%◌, ◌^◌, ◌≤◌, ◌<◌, ◌≡◌, refl, sym, ap, ◌∙◌, arith, ◌||◌,
  if◌then◌else◌, ◌==◌, bit_and, bit_or, bit_xor, min, max,
}
use projet_prog.Bits.{
  get_bit, get_bit-complement, get_bit-bit_and, get_bit-bit_or, get_bit-bit_xor, bit_and-lt,
  bit_or-lt, bit_xor-lt,
}
use projet_prog.Word.{IsWord, word, not32}
use projet_prog.Util.Bit.{get_bit-le}
use projet_prog.Util.Shifter.Places.{remainder-suc}
use projet_prog.DataProcessing.{alu}

-- The number with the digits `f 0` to `f (n - 1)`.
unfoldable pub digits : ℕ → (ℕ → ℕ) → ℕ
digits zero f = 0
digits (suc n) f = digits n f + f n * 2 ^ n

-- A word by its digits, from those of `a` and `b`.
abbrev pub by_digit : (ℕ → ℕ → ℕ) → ℕ → ℕ → ℕ
by_digit f a b = digits 32 (λ i. f (get_bit a i) (get_bit b i))

-- The result of the operation `opcode` on `a`, `b` and the carry flag.
abbrev pub arm_result : ℕ → ℕ → ℕ → ℕ → ℕ
arm_result opcode a b carry =
    if opcode == 0 || opcode == 8
    then by_digit (λ x y. x * y) a b
    else if opcode == 1 || opcode == 9
    then by_digit (λ x y. (x + y) % 2) a b
    else if opcode == 2 || opcode == 10
    then word (a + (2 ^ 32 - b))
    else if opcode == 3
    then word (b + (2 ^ 32 - a))
    else if opcode == 4 || opcode == 11
    then word (a + b)
    else if opcode == 5
    then word (a + b + carry)
    else if opcode == 6
    then word (a + (2 ^ 32 - 1 - b) + carry)
    else if opcode == 7
    then word (b + (2 ^ 32 - 1 - a) + carry)
    else if opcode == 12
    then by_digit (λ x y. x + y - x * y) a b
    else if opcode == 13
    then b
    else if opcode == 14
    then by_digit (λ x y. x * (1 - y)) a b
    else by_digit (λ x y. 1 - y) a b

digits_ext : (n : ℕ) (f g : ℕ → ℕ) → ((i : ℕ) → i < n → f i ≡ g i) → digits n f ≡ digits n g
unfolding digits
digits_ext zero f g h = refl
digits_ext (suc n) f g h =
    ap (λ (t : ℕ). t + f n * 2 ^ n) (digits_ext n f g (λ i l. h i (omega arith)))
    ∙ ap (λ (t : ℕ). digits n g + t * 2 ^ n) (h n (omega arith))

digits-get_bit : (n v : ℕ) → digits n (get_bit v) ≡ v % 2 ^ n
unfolding digits
digits-get_bit zero v = omega arith
digits-get_bit (suc n) v =
    ap (λ (t : ℕ). t + get_bit v n * 2 ^ n) (digits-get_bit n v) ∙ sym (remainder-suc v n)

by_digit_lem :
    (f : ℕ → ℕ → ℕ) (a b v : ℕ)
    → IsWord v
    → ((i : ℕ) → i < 32 → get_bit v i ≡ f (get_bit a i) (get_bit b i))
    → v ≡ by_digit f a b
by_digit_lem f a b v w h =
    let whole : v ≡ v % 2 ^ 32 = omega arith in
    whole
    ∙ sym (digits-get_bit 32 v)
    ∙ digits_ext 32 (get_bit v) (λ i. f (get_bit a i) (get_bit b i)) h

-- Tables of one digit, or two.
min-product : (x y : ℕ) → x ≤ 1 → y ≤ 1 → min x y ≡ x * y
min-product zero y p q = omega arith
min-product (suc zero) y p q = omega arith
min-product (suc (suc x)) y p q = absurd (omega arith)

max-sum : (x y : ℕ) → x ≤ 1 → y ≤ 1 → max x y ≡ x + y - x * y
max-sum zero y p q = omega arith
max-sum (suc zero) y p q = omega arith
max-sum (suc (suc x)) y p q = absurd (omega arith)

min-difference : (x y : ℕ) → x ≤ 1 → y ≤ 1 → min x (1 - y) ≡ x * (1 - y)
min-difference x y p q = min-product x (1 - y) p (omega arith)

module _ (a b : ℕ) (p : IsWord a) (q : IsWord b) where
  and_digits : bit_and a b ≡ by_digit (λ x y. x * y) a b
  and_digits =
      by_digit_lem (λ x y. x * y) a b (bit_and a b) (bit_and-lt 32 a b p)
        (λ i l.
          get_bit-bit_and i a b
          ∙ min-product (get_bit a i) (get_bit b i) (get_bit-le a i) (get_bit-le b i))

  or_digits : bit_or a b ≡ by_digit (λ x y. x + y - x * y) a b
  or_digits =
      by_digit_lem (λ x y. x + y - x * y) a b (bit_or a b) (bit_or-lt 32 a b p q)
        (λ i l.
          get_bit-bit_or i a b
          ∙ max-sum (get_bit a i) (get_bit b i) (get_bit-le a i) (get_bit-le b i))

  xor_digits : bit_xor a b ≡ by_digit (λ x y. (x + y) % 2) a b
  xor_digits =
      by_digit_lem (λ x y. (x + y) % 2) a b (bit_xor a b) (bit_xor-lt 32 a b p q)
        (λ i l. get_bit-bit_xor i a b)

  not_digits : not32 b ≡ by_digit (λ x y. 1 - y) a b
  not_digits =
      by_digit_lem (λ x y. 1 - y) a b (not32 b) (omega arith) (λ i l. get_bit-complement 32 i b q l)

  clear_digits : bit_and a (not32 b) ≡ by_digit (λ x y. x * (1 - y)) a b
  clear_digits =
      by_digit_lem (λ x y. x * (1 - y)) a b (bit_and a (not32 b)) (bit_and-lt 32 a (not32 b) p)
        (λ i l.
          get_bit-bit_and i a (not32 b)
          ∙ ap (min (get_bit a i)) (get_bit-complement 32 i b q l)
          ∙ min-difference (get_bit a i) (get_bit b i) (get_bit-le a i) (get_bit-le b i))

  -- The code computes that result, for each of the sixteen operations.
  pub alu-arm_result :
      (opcode carry : ℕ) → carry ≤ 1 → alu opcode a b carry ≡ arm_result opcode a b carry
  unfolding alu
  alu-arm_result opcode carry c =
      ground (arith, and_digits, or_digits, xor_digits, not_digits, clear_digits)
