-- ===== src/Util/Macros.antt =====
-- The macros of util.h that put bits and bytes elsewhere, and what the digits of their results are.
use projet_prog.Base.{ℕ, ◌+◌, ◌*◌, ◌/◌, ◌%◌, ◌^◌, bit_and, bit_or}
use projet_prog.Word.{shl32, not32}

-- The ones from bit `l` up: `((~0)>>(l))<<(l)` of an `int`, for `l` up to 31.
abbrev pub ones_from : ℕ → ℕ
ones_from l = shl32 (not32 0) l

unfoldable pub set_bits : ℕ → ℕ → ℕ → ℕ → ℕ
set_bits x h l bits =
    bit_or (bit_or (bit_and x (not32 (ones_from l))) (bit_and x (ones_from (h + 1)))) (shl32 bits l)

-- `x & 0xFF` is the remainder by 2 ^ 8.
unfoldable pub reverse_2 : ℕ → ℕ
reverse_2 x = bit_or (x % 2 ^ 8 * 2 ^ 8) (x / 2 ^ 8 % 2 ^ 8)

unfoldable pub reverse_4 : ℕ → ℕ
reverse_4 x =
    bit_or
      (bit_or (bit_or (x % 2 ^ 8 * 2 ^ 24) (x / 2 ^ 8 % 2 ^ 8 * 2 ^ 16))
        (x / 2 ^ 16 % 2 ^ 8 * 2 ^ 8))
      (x / 2 ^ 24 % 2 ^ 8)
