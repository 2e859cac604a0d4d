-- ===== src/Util/Bit.antt =====
-- The digits of a word after `set_bit`, `clr_bit` and `mod_bit`.
use projet_prog.Base.{ℕ, ◌^◌, ◌≤◌, ◌<◌, ◌≡◌, arith, if◌then◌else◌, ◌==◌}
use native.Mathlib.Nat.{pow-le-pow_right}
use projet_prog.Bits.{
  get_bit, get_bit-bit_or, get_bit-bit_and, get_bit-pow, get_bit-complement, bit_and-lt, bit_or-lt,
}
use projet_prog.Word.{not32, IsWord}
use projet_prog.Util.{set_bit, clr_bit, mod_bit}

pub get_bit-le : (x i : ℕ) → get_bit x i ≤ 1
get_bit-le x i = omega arith

pub pow-lt_word : (i : ℕ) → i < 32 → 2 ^ i < 2 ^ 32
pow-lt_word i h =
    omega (arith, pow-le-pow_right {n = 2} (omega arith) {i = i} {j = 31} (omega arith))

pub get_bit-set_bit : (x i j : ℕ) → get_bit (set_bit x i) j ≡ (if i == j then 1 else get_bit x j)
unfolding set_bit
get_bit-set_bit x i j = ground (arith, get_bit-bit_or j x (2 ^ i), get_bit-pow i j, get_bit-le x j)

pub get_bit-clr_bit :
    (x i j : ℕ) → i < 32 → j < 32 → get_bit (clr_bit x i) j ≡ (if i == j then 0 else get_bit x j)
unfolding clr_bit
get_bit-clr_bit x i j p q = ground (
  arith,
  get_bit-bit_and j x (not32 (2 ^ i)),
  get_bit-complement 32 j (2 ^ i) (pow-lt_word i p) q,
  get_bit-pow i j,
  get_bit-le x j,
)

pub get_bit-mod_bit :
    (x b i j : ℕ)
    → b ≤ 1
    → i < 32
    → j < 32
    → get_bit (mod_bit x b i) j ≡ (if i == j then b else get_bit x j)
unfolding mod_bit
get_bit-mod_bit x b i j h p q = ground (arith, get_bit-set_bit x i j, get_bit-clr_bit x i j p q)

pub set_bit-IsWord : (x i : ℕ) → IsWord x → i < 32 → IsWord (set_bit x i)
unfolding set_bit
set_bit-IsWord x i h p = bit_or-lt 32 x (2 ^ i) h (pow-lt_word i p)

pub clr_bit-IsWord : (x i : ℕ) → IsWord x → IsWord (clr_bit x i)
unfolding clr_bit
clr_bit-IsWord x i h = bit_and-lt 32 x (not32 (2 ^ i)) h

pub mod_bit-IsWord : (x b i : ℕ) → IsWord x → i < 32 → IsWord (mod_bit x b i)
unfolding mod_bit
mod_bit-IsWord x b i h p = ground (arith, set_bit-IsWord x i h p, clr_bit-IsWord x i h)
