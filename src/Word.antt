-- ===== src/Word.antt =====
-- The 32-bit operations of the C code, on numbers below 2 ^ 32. An `int` is its bit pattern.
use projet_prog.Base.{ℕ, ◌+◌, ◌-◌, ◌*◌, ◌/◌, ◌%◌, ◌^◌, ◌<◌, Bool, if◌then◌else◌, ltb}

-- What the C standard leaves to the machine that the simulator runs on: its byte order, and the
-- value of `x << n` for a count `n` of 32 or more.
pub record Host : Type 0 where
  pub big_endian : Bool
  pub overshift : ℕ → ℕ → ℕ

abbrev pub word : ℕ → ℕ
word x = x % 2 ^ 32

abbrev pub add32 : ℕ → ℕ → ℕ
add32 a b = word (a + b)

abbrev pub sub32 : ℕ → ℕ → ℕ
sub32 a b = word (a + 2 ^ 32 - b)

abbrev pub not32 : ℕ → ℕ
not32 a = 2 ^ 32 - 1 - a

-- `x << n` and `x >> n` for a count below 32.
abbrev pub shl32 : ℕ → ℕ → ℕ
shl32 x n = word (x * 2 ^ n)

abbrev pub shr32 : ℕ → ℕ → ℕ
shr32 x n = x / 2 ^ n

-- `x >> n` of a signed `x`: the sign is repeated.
unfoldable pub sar32 : ℕ → ℕ → ℕ
sar32 x n = if ltb x (2 ^ 31) then x / 2 ^ n else not32 (not32 x / 2 ^ n)

-- `x << n` for any count.
unfoldable pub shl : Host → ℕ → ℕ → ℕ
shl host x n = if ltb n 32 then shl32 x n else word (host.overshift x n)

-- -1
abbrev pub minus_one : ℕ
minus_one = 0xffff_ffff

-- The machine the simulator is built for by default: little-endian, shift counts taken modulo 32.
abbrev pub x86 : Host
x86 = record { big_endian = Bool.false; overshift = λ x n. x * 2 ^ (n % 32) }

abbrev pub IsWord : ℕ → Type 0
IsWord x = x < 2 ^ 32
