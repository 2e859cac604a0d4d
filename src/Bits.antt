-- ===== src/Bits.antt =====
-- The bitwise operators digit by digit: `get_bit` of `util.h` at a result is the operator at the
-- operands' digits.
mod Step
pub mod Masks
use Step.{bit_or-halves, bit_and-halves, bit_xor-halves}
use native.Mathlib.Nat.{pow-suc, div-div-eq-div-mul, two-pow-succ, pow-succ', one-le-pow}
use Prim.Native.Nat.{bit_and-bitwise, bit_or-bitwise}
use projet_prog.Base.{
  ℕ, zero, suc, ◌+◌, ◌-◌, ◌*◌, ◌/◌, ◌%◌, ◌^◌, ◌≤◌, ◌<◌, min, max, bit_and, bit_or, bit_xor, ◌≡◌,
  ◌≢◌, refl, ap, sym, ◌∙◌, arith, if◌then◌else◌, ◌==◌,
}

-- `get_bit(x, i)`: `((x)>>(i))&1`
abbrev pub get_bit : ℕ → ℕ → ℕ
get_bit x i = x / 2 ^ i % 2

pub half-div : (x i : ℕ) → x / 2 ^ suc i ≡ x / 2 / 2 ^ i
half-div x i = rw (pow-succ', div-div-eq-div-mul)

pub get_bit-zero : (i : ℕ) → get_bit 0 i ≡ 0
get_bit-zero zero = refl
get_bit-zero (suc i) = rw half-div (get_bit-zero i)

pub get_bit-bit_and : (i a b : ℕ) → get_bit (bit_and a b) i ≡ min (get_bit a i) (get_bit b i)
get_bit-bit_and zero a b = omega (arith, bit_and-halves a b)
get_bit-bit_and (suc i) a b =
    let e : bit_and a b / 2 ≡ bit_and (a / 2) (b / 2) = omega (arith, bit_and-halves a b) in
    rw (half-div (bit_and a b) i, half-div a i, half-div b i, e) (get_bit-bit_and i (a / 2) (b / 2))

pub get_bit-bit_or : (i a b : ℕ) → get_bit (bit_or a b) i ≡ max (get_bit a i) (get_bit b i)
get_bit-bit_or zero a b = omega (arith, bit_or-halves a b)
get_bit-bit_or (suc i) a b =
    let e : bit_or a b / 2 ≡ bit_or (a / 2) (b / 2) = omega (arith, bit_or-halves a b) in
    rw (half-div (bit_or a b) i, half-div a i, half-div b i, e) (get_bit-bit_or i (a / 2) (b / 2))

pub get_bit-bit_xor : (i a b : ℕ) → get_bit (bit_xor a b) i ≡ (get_bit a i + get_bit b i) % 2
get_bit-bit_xor zero a b = omega (arith, bit_xor-halves a b)
get_bit-bit_xor (suc i) a b =
    let e : bit_xor a b / 2 ≡ bit_xor (a / 2) (b / 2) = omega (arith, bit_xor-halves a b) in
    rw (half-div (bit_xor a b) i, half-div a i, half-div b i, e) (get_bit-bit_xor i (a / 2) (b / 2))

-- The one get_bit of a power of two.
pub get_bit-pow : (i j : ℕ) → get_bit (2 ^ i) j ≡ (if i == j then 1 else 0)
get_bit-pow zero zero = refl
get_bit-pow zero (suc j) = rw (half-div 1 j) (ground (arith, get_bit-zero j))
get_bit-pow (suc i) zero = ground (arith, two-pow-succ i)
get_bit-pow (suc i) (suc j) =
    let e : 2 ^ suc i / 2 ≡ 2 ^ i = omega (arith, two-pow-succ i) in
    rw (half-div (2 ^ suc i) j, e) (ground (arith, get_bit-pow i j))

-- The digits of the complement in `k` digits.
pub get_bit-complement :
    (k i x : ℕ) → x < 2 ^ k → i < k → get_bit (2 ^ k - 1 - x) i ≡ 1 - get_bit x i
get_bit-complement zero i x h l = absurd (omega arith)
get_bit-complement (suc k) zero x h l = omega (arith, two-pow-succ k, one-le-pow k 2)
get_bit-complement (suc k) (suc i) x h l =
    let e : (2 ^ suc k - 1 - x) / 2 ≡ 2 ^ k - 1 - x / 2 = omega (arith, two-pow-succ k) in
    rw (half-div (2 ^ suc k - 1 - x) i, half-div x i, e)
      (get_bit-complement k i (x / 2) (omega (arith, two-pow-succ k)) (omega arith))

-- Two words with the same digits are equal.
pub eq_of_digits :
    (k x y : ℕ) → x < 2 ^ k → y < 2 ^ k → ((i : ℕ) → i < k → get_bit x i ≡ get_bit y i) → x ≡ y
eq_of_digits zero x y p q h = omega arith
eq_of_digits (suc k) x y p q h =
    let e : x % 2 ≡ y % 2 = omega (arith, h 0 (omega arith)) in
    let r : x / 2 ≡ y / 2 =
      eq_of_digits k (x / 2) (y / 2) (omega (arith, two-pow-succ k)) (omega (arith, two-pow-succ k))
        (λ i l. rw (half-div x i, half-div y i) at (h (suc i) (omega arith))) in
    omega arith

-- No get_bit beyond the width.
pub get_bit_high : (k i x : ℕ) → x < 2 ^ k → k ≤ i → get_bit x i ≡ 0
get_bit_high zero i x h l = let e : x ≡ 0 = omega arith in rw e (get_bit-zero i)
get_bit_high (suc k) zero x h l = absurd (omega arith)
get_bit_high (suc k) (suc i) x h l =
    rw (half-div x i) (get_bit_high k i (x / 2) (omega (arith, two-pow-succ k)) (omega arith))

-- The operators stay within the width of their operands.
pub bit_and-lt : (k a b : ℕ) → a < 2 ^ k → bit_and a b < 2 ^ k
bit_and-lt zero a b h = let e : a ≡ 0 = omega arith in rw e (omega (arith, bit_and-bitwise 0 b))
bit_and-lt (suc k) a b h =
    omega (arith, bit_and-halves a b, two-pow-succ k, bit_and-lt k (a / 2) (b / 2))

pub bit_or-lt : (k a b : ℕ) → a < 2 ^ k → b < 2 ^ k → bit_or a b < 2 ^ k
bit_or-lt zero a b h l =
    let e : a ≡ 0 = omega arith in let e' : b ≡ 0 = omega arith in rw (e, e') (omega arith)
bit_or-lt (suc k) a b h l =
    omega (arith, bit_or-halves a b, two-pow-succ k, bit_or-lt k (a / 2) (b / 2))

pub bit_xor-lt : (k a b : ℕ) → a < 2 ^ k → b < 2 ^ k → bit_xor a b < 2 ^ k
bit_xor-lt zero a b h l =
    let e : a ≡ 0 = omega arith in let e' : b ≡ 0 = omega arith in rw (e, e') (omega arith)
bit_xor-lt (suc k) a b h l =
    omega (arith, bit_xor-halves a b, two-pow-succ k, bit_xor-lt k (a / 2) (b / 2))

-- `|` of a field and the bits above it is their sum.
pub bit_or_disjoint : (k r q : ℕ) → r < 2 ^ k → bit_or r (q * 2 ^ k) ≡ r + q * 2 ^ k
bit_or_disjoint zero r q h =
    let e : r ≡ 0 = omega arith in rw e (omega (arith, bit_or-bitwise 0 (q * 2 ^ 0)))
bit_or_disjoint (suc k) r q h =
    let e : q * 2 ^ suc k ≡ 2 * (q * 2 ^ k) =
      omega (arith, ap (λ (t : ℕ). q * t) (two-pow-succ k)) in
    let e' : q * 2 ^ suc k / 2 ≡ q * 2 ^ k = omega arith in
    omega (
      arith,
      bit_or-halves r (q * 2 ^ suc k),
      ap (bit_or (r / 2)) e',
      bit_or_disjoint k (r / 2) q (omega (arith, two-pow-succ k)),
    )

pub two_pow-add : (m n : ℕ) → 2 ^ (m + n) ≡ 2 ^ m * 2 ^ n
two_pow-add zero n = let e : zero + n ≡ n = omega arith in rw e (omega arith)
two_pow-add (suc m) n =
    let e : suc m + n ≡ suc (m + n) = omega arith in
    rw e (
      omega (
        arith,
        two-pow-succ (m + n),
        two-pow-succ m,
        two_pow-add m n,
        ap (λ (t : ℕ). t * 2 ^ n) (two-pow-succ m),
      ))

-- The two factors of 2 ^ k.
pub two_pow-split : (k m : ℕ) → m ≤ k → 2 ^ (k - m) * 2 ^ m ≡ 2 ^ k
two_pow-split k m h =
    let e : k ≡ k - m + m = omega arith in sym (two_pow-add (k - m) m) ∙ ap (λ t. 2 ^ t) (sym e)

pub bit_or_comm : (k a b : ℕ) → a < 2 ^ k → b < 2 ^ k → bit_or a b ≡ bit_or b a
bit_or_comm k a b p q =
    eq_of_digits k (bit_or a b) (bit_or b a) (bit_or-lt k a b p q) (bit_or-lt k b a q p)
      (λ i l. omega (arith, get_bit-bit_or i a b, get_bit-bit_or i b a))
