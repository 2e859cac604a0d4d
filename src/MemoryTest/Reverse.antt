-- ===== src/MemoryTest/Reverse.antt =====
-- The macros that reverse bytes, by the comparison of memory_test.c.
use projet_prog.Base.{ℕ, bit_or, ◌+◌, ◌-◌, ◌*◌, ◌/◌, ◌%◌, ◌^◌, ◌<◌, ◌≡◌, ap, ◌∙◌, arith, true, ◌==◌}
use projet_prog.Word.{IsWord}
use projet_prog.Util.Macros.{reverse_2, reverse_4}
use projet_prog.Memory.BigEndian.{byte}
use projet_prog.MemoryTest.{compare_bytes, compare}
use projet_prog.Bits.{bit_or_comm, bit_or_disjoint}

bit_or_sum :
    (k r q : ℕ) → r < 2 ^ k → r < 2 ^ 32 → q * 2 ^ k < 2 ^ 32 → bit_or (q * 2 ^ k) r ≡ q * 2 ^ k + r
bit_or_sum k r q l h h' = bit_or_comm 32 (q * 2 ^ k) r h' h ∙ bit_or_disjoint k r q l ∙ omega arith

reverse_2_lem : (x : ℕ) → reverse_2 x ≡ x % 2 ^ 8 * 2 ^ 8 + x / 2 ^ 8 % 2 ^ 8
unfolding reverse_2
reverse_2_lem x =
    bit_or_sum 8 (x / 2 ^ 8 % 2 ^ 8) (x % 2 ^ 8) (omega arith) (omega arith) (omega arith)

reverse_4_lem :
    (x : ℕ)
    → reverse_4 x
      ≡ ((x % 2 ^ 8 * 2 ^ 8 + x / 2 ^ 8 % 2 ^ 8) * 2 ^ 8 + x / 2 ^ 16 % 2 ^ 8) * 2 ^ 8
        + x / 2 ^ 24 % 2 ^ 8
unfolding reverse_4
reverse_4_lem x =
    ap (λ t. bit_or (bit_or t (x / 2 ^ 16 % 2 ^ 8 * 2 ^ 8)) (x / 2 ^ 24 % 2 ^ 8))
      (bit_or_sum 24 (x / 2 ^ 8 % 2 ^ 8 * 2 ^ 16) (x % 2 ^ 8) (omega arith) (omega arith)
          (omega arith)
        ∙ the_sum)
    ∙ ap (λ t. bit_or t (x / 2 ^ 24 % 2 ^ 8))
        (bit_or_sum 16 (x / 2 ^ 16 % 2 ^ 8 * 2 ^ 8) (x % 2 ^ 8 * 2 ^ 8 + x / 2 ^ 8 % 2 ^ 8)
            (omega arith) (omega arith) (omega arith)
          ∙ the_next)
    ∙ bit_or_sum 8 (x / 2 ^ 24 % 2 ^ 8)
        ((x % 2 ^ 8 * 2 ^ 8 + x / 2 ^ 8 % 2 ^ 8) * 2 ^ 8 + x / 2 ^ 16 % 2 ^ 8) (omega arith)
        (omega arith) (omega arith)
  where
    the_sum :
        x % 2 ^ 8 * 2 ^ 24 + x / 2 ^ 8 % 2 ^ 8 * 2 ^ 16
        ≡ (x % 2 ^ 8 * 2 ^ 8 + x / 2 ^ 8 % 2 ^ 8) * 2 ^ 16
    the_sum = omega arith

    the_next :
        (x % 2 ^ 8 * 2 ^ 8 + x / 2 ^ 8 % 2 ^ 8) * 2 ^ 16 + x / 2 ^ 16 % 2 ^ 8 * 2 ^ 8
        ≡ ((x % 2 ^ 8 * 2 ^ 8 + x / 2 ^ 8 % 2 ^ 8) * 2 ^ 8 + x / 2 ^ 16 % 2 ^ 8) * 2 ^ 8
    the_next = omega arith

-- The comparison of a number's bytes with themselves the other way round.
pub compare-reverse_4 :
    (x : ℕ) (f : ℕ → ℕ)
    → IsWord x
    → ((k : ℕ) → f k ≡ byte x (3 - k))
    → compare f f 4 true ≡ (reverse_4 x == x)
unfolding compare compare_bytes
compare-reverse_4 x f h e = rw (reverse_4_lem x, e 0, e 1, e 2, e 3) (ground arith)

pub compare-reverse_2 :
    (x : ℕ) (f : ℕ → ℕ)
    → x < 2 ^ 16
    → f 0 ≡ byte x 1
    → f 1 ≡ byte x 0
    → compare f f 2 true ≡ (reverse_2 x == x)
unfolding compare compare_bytes
compare-reverse_2 x f h e e' = rw (reverse_2_lem x, e, e') (ground arith)
