-- ===== src/Bits/Masks.antt =====
-- `&` with a constant whose digits come in blocks of ones.
use native.Mathlib.Nat.{two-pow-succ, div-div-eq-div-mul, div-add-mod, one-le-pow}
use projet_prog.Base.{
  ℕ, zero, suc, ◌+◌, ◌-◌, ◌*◌, ◌/◌, ◌%◌, ◌^◌, ◌<◌, ◌≡◌, refl, ap, ◌∙◌, arith, bit_and,
}
use projet_prog.Bits.Step.{bit_and-halves}

pub bit_and_zero : (n x : ℕ) → x < 2 ^ n → bit_and x 0 ≡ 0
bit_and_zero zero x l = let e : x ≡ 0 = omega arith in rw e refl
bit_and_zero (suc n) x l =
    let none : 0 / 2 ≡ 0 = omega arith in
    omega (
      arith,
      bit_and-halves x 0,
      ap (bit_and (x / 2)) none,
      bit_and_zero n (x / 2) (omega (arith, two-pow-succ n)),
    )

next_quotient : (x n : ℕ) → x / 2 / 2 ^ n ≡ x / 2 ^ suc n
next_quotient x n =
    div-div-eq-div-mul x 2 (2 ^ n) ∙ ap (λ (t : ℕ). x / t) (omega (arith, two-pow-succ n))

next_remainder : (x n : ℕ) → x % 2 ^ suc n ≡ x / 2 % 2 ^ n * 2 + x % 2
next_remainder x n = omega (
  arith,
  div-add-mod x (2 ^ suc n),
  div-add-mod (x / 2) (2 ^ n),
  ap (λ (t : ℕ). 2 ^ n * t) (next_quotient x n),
  ap (λ (t : ℕ). t * (x / 2 ^ suc n)) (two-pow-succ n),
)

-- The low `n` digits.
pub bit_and_mask : (n k x : ℕ) → x < 2 ^ k → bit_and x (2 ^ n - 1) ≡ x % 2 ^ n
bit_and_mask zero k x l = bit_and_zero k x l ∙ omega arith
bit_and_mask (suc n) zero x l =
    let e : x ≡ 0 = omega arith in
    let half : (2 ^ suc n - 1) / 2 ≡ 2 ^ n - 1 = omega (arith, two-pow-succ n) in
    let two : x / 2 ≡ x = omega arith in
    omega (
      arith,
      e,
      bit_and-halves x (2 ^ suc n - 1),
      ap (bit_and (x / 2)) half,
      ap (λ (t : ℕ). bit_and t (2 ^ n - 1)) two,
      bit_and_mask n zero x l,
      two-pow-succ n,
      next_remainder x n,
      one-le-pow n 2 (omega arith),
      ap (λ (t : ℕ). t % 2 ^ n) two,
    )
bit_and_mask (suc n) (suc k) x l =
    let half : (2 ^ suc n - 1) / 2 ≡ 2 ^ n - 1 = omega (arith, two-pow-succ n) in
    omega (
      arith,
      bit_and-halves x (2 ^ suc n - 1),
      ap (bit_and (x / 2)) half,
      two-pow-succ n,
      bit_and_mask n k (x / 2) (omega (arith, two-pow-succ k)),
      next_remainder x n,
      one-le-pow n 2 (omega arith),
    )

-- A block `y` of digits above `k` others.
pub bit_and_blocks :
    (k n x y z : ℕ)
    → x < 2 ^ n
    → z < 2 ^ k
    → bit_and x (y * 2 ^ k + z) ≡ bit_and (x / 2 ^ k) y * 2 ^ k + bit_and x z
bit_and_blocks zero n x y z l h =
    let e : y * 2 ^ 0 + z ≡ y = omega arith in
    let e' : x / 2 ^ 0 ≡ x = omega arith in
    let e'' : z ≡ 0 = omega arith in
    ap (bit_and x) e
    ∙ omega (arith, ap (λ (t : ℕ). bit_and t y) e', ap (bit_and x) e'', bit_and_zero n x l)
bit_and_blocks (suc k) n x y z l h =
    let half : (y * 2 ^ suc k + z) / 2 ≡ y * 2 ^ k + z / 2 =
      omega (arith, ap (λ (t : ℕ). y * t) (two-pow-succ k)) in
    let low : (y * 2 ^ suc k + z) % 2 ≡ z % 2 =
      omega (arith, ap (λ (t : ℕ). y * t) (two-pow-succ k)) in
    let up = next_quotient x k in
    omega (
      arith,
      bit_and-halves x (y * 2 ^ suc k + z),
      ap (bit_and (x / 2)) half,
      low,
      bit_and-halves x z,
      bit_and_blocks k n (x / 2) y (z / 2) (omega arith) (omega (arith, two-pow-succ k)),
      ap (λ (t : ℕ). bit_and t y * 2 ^ k) up,
      ap (λ (t : ℕ). bit_and (x / 2 ^ suc k) y * t) (two-pow-succ k),
    )
