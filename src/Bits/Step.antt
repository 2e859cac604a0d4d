-- ===== src/Bits/Step.antt =====
-- The lowest digit of a bitwise operator. The native operators mean a recursion that counts the
-- digits of the first operand down; the count is more than enough, so it can be dropped.
use Prim.Native.Nat.{digits, differ, bit_and-bitwise, bit_or-bitwise, bit_xor-bitwise}
use projet_prog.Base.{
  ℕ, zero, suc, ◌+◌, ◌-◌, ◌*◌, ◌/◌, ◌%◌, ◌≤◌, ◌<◌, min, max, bit_and, bit_or, bit_xor, ◌≡◌, refl,
  ap, ◌∙◌, arith,
}

module _ (rest : ℕ → ℕ) (op : ℕ → ℕ → ℕ) where
  -- One more round than the first operand needs changes nothing.
  spare_round : (k x y : ℕ) → x ≤ k → digits rest op (suc k) x y ≡ digits rest op k x y
  spare_round zero zero y h = refl
  spare_round (suc k) zero y h = refl
  spare_round zero (suc x) y h = absurd (omega arith)
  spare_round (suc k) (suc x) y h =
      ap (λ t. t * 2 + op (suc x % 2) (y % 2)) (spare_round k (suc x / 2) (y / 2) (omega arith))

  spare_rounds :
      (d k x y : ℕ) {j : ℕ} → x ≤ k → j ≡ d + k → digits rest op j x y ≡ digits rest op k x y
  spare_rounds zero k x y {j} h e = let e' : j ≡ k = omega arith in rw e'
  spare_rounds (suc d) k x y {j} h e =
      let e' : j ≡ suc (d + k) = omega arith in
      rw e' (spare_round (d + k) x y (omega arith) ∙ spare_rounds d k x y h refl)

  lowest :
      (x y : ℕ)
      → digits rest op (suc x) (suc x) y
        ≡ digits rest op (suc x / 2) (suc x / 2) (y / 2) * 2 + op (suc x % 2) (y % 2)
  lowest x y =
      ap (λ t. t * 2 + op (suc x % 2) (y % 2))
        (spare_rounds (x - suc x / 2) (suc x / 2) (suc x / 2) (y / 2) (omega arith) (omega arith))

pub bit_and-halves : (m n : ℕ) → bit_and m n ≡ bit_and (m / 2) (n / 2) * 2 + min (m % 2) (n % 2)
bit_and-halves zero n = simp bit_and-bitwise (omega arith)
bit_and-halves (suc m) n = simp bit_and-bitwise (lowest (λ _. 0) min m n)

pub bit_or-halves : (m n : ℕ) → bit_or m n ≡ bit_or (m / 2) (n / 2) * 2 + max (m % 2) (n % 2)
bit_or-halves zero n = simp bit_or-bitwise (omega arith)
bit_or-halves (suc m) n = simp bit_or-bitwise (lowest (λ t. t) max m n)

differ_parity : (x y : ℕ) → x < 2 → y < 2 → differ x y ≡ (x + y) % 2
differ_parity zero y p q = omega arith
differ_parity (suc zero) zero p q = refl
differ_parity (suc zero) (suc zero) p q = refl
differ_parity (suc zero) (suc (suc y)) p q = absurd (omega arith)
differ_parity (suc (suc x)) y p q = absurd (omega arith)

bit_xor-differ : (a b : ℕ) → bit_xor a b ≡ bit_xor (a / 2) (b / 2) * 2 + differ (a % 2) (b % 2)
bit_xor-differ zero b =
    simp bit_xor-bitwise (omega (arith, differ_parity 0 (b % 2) (omega arith) (omega arith)))
bit_xor-differ (suc a) b = simp bit_xor-bitwise (lowest (λ t. t) differ a b)

-- The digit of `^` is 0 where the operands agree, else 1.
pub bit_xor-halves : (a b : ℕ) → bit_xor a b ≡ bit_xor (a / 2) (b / 2) * 2 + (a + b) % 2
bit_xor-halves a b =
    omega (arith, bit_xor-differ a b, differ_parity (a % 2) (b % 2) (omega arith) (omega arith))
