-- ===== src/MemoryTest/Passes.antt =====
-- Which tests of memory_test.c succeed.
use projet_prog.Base.{
  ℕ, zero, suc, ◌-◌, ◌/◌, ◌^◌, ◌<◌, ◌≡◌, refl, arith, Bool, true, false, if◌then◌else◌, ◌==◌, [],
  ◌∷◌, ok,
}
use projet_prog.Word.{Host, IsWord}
use projet_prog.Util.Macros.{reverse_2, reverse_4}
use projet_prog.Memory.{update, memory_create, memory_write_byte, store_cell}
use projet_prog.Memory.BigEndian.{byte}
use projet_prog.MemoryTest.{
  byte_in, compare, Memories, Unread, fill_bytes, same_order, other_order, main,
}
use projet_prog.MemoryTest.Access.{AreBytes}
use projet_prog.MemoryTest.Reads.{
  Filled, verdict, same_order-Ready, other_order-Ready, read_tests_lem,
}
use projet_prog.MemoryTest.Writes.{write_tests_same, write_tests_other}
use projet_prog.MemoryTest.Reverse.{compare-reverse_2, compare-reverse_4}

-- The content of a block of four bytes after the loop that writes them.
abbrev filled : (ℕ → ℕ) → (ℕ → ℕ) → ℕ → ℕ
filled content f = update (update (update (update content 0 (f 0)) 1 (f 1)) 2 (f 2)) 3 (f 3)

abbrev both : (ℕ → ℕ) → (ℕ → ℕ) → (ℕ → ℕ) → Memories
both content content' f = record {
  little = memory_create (filled content f) 4 false;
  big = memory_create (filled content' f) 4 true;
}

fill_bytes-both :
    (content content' f : ℕ → ℕ)
    → fill_bytes 4 f 0
        (record { little = memory_create content 4 false; big = memory_create content' 4 true })
      ≡ ok (both content content' f)
unfolding fill_bytes memory_write_byte memory_create store_cell
fill_bytes-both content content' f = refl

filled-AreBytes : (content f : ℕ → ℕ) → AreBytes content → AreBytes f → AreBytes (filled content f)
filled-AreBytes content f h h' k = ground (arith, h k, h' 0, h' 1, h' 2, h' 3)

filled_holds : (content f : ℕ → ℕ) (k : ℕ) → k < 4 → filled content f k ≡ f k
filled_holds content f zero l = refl
filled_holds content f (suc zero) l = refl
filled_holds content f (suc (suc zero)) l = refl
filled_holds content f (suc (suc (suc zero))) l = refl
filled_holds content f (suc (suc (suc (suc k)))) l = absurd (omega arith)

both-Filled :
    (host : Host) (content content' f : ℕ → ℕ)
    → AreBytes content
    → AreBytes content'
    → AreBytes f
    → Filled host f (both content content' f)
unfolding memory_create
both-Filled host content content' f h h' b = record {
  little = record {
    bytes = filled-AreBytes content f h b;
    size = refl;
    holds = filled_holds content f;
    ordered = refl;
  };
  big = record {
    bytes = filled-AreBytes content' f h' b;
    size = refl;
    holds = filled_holds content' f;
    ordered = refl;
  };
}

byte_in-AreBytes : (host : Host) (n value : ℕ) → AreBytes (byte_in host n value)
byte_in-AreBytes host n value k = go host.big_endian
  where
    go : (b : Bool) → (if b then byte value (n - 1 - k) else byte value k) < 2 ^ 8
    go true = omega arith
    go false = omega arith

-- What a comparison in the order that is not the host's prints.
abbrev pub other_way : Host → Bool → Bool
other_way host b = if host.big_endian then b else true

module _ (host : Host) where
  verdict_4 :
      (x : ℕ) → IsWord x → verdict host (byte_in host 4 x) 4 ≡ other_way host (reverse_4 x == x)
  verdict_4 x h = go host.big_endian
    where
      go :
          (b : Bool)
          → (if b
              then compare
                  (λ k. if b then byte x (4 - 1 - k) else byte x k)
                  (λ k. if b then byte x (4 - 1 - k) else byte x k)
                  4
                  true
              else true)
            ≡ (if b then reverse_4 x == x else true)
      go true = compare-reverse_4 x _ h (λ k. refl)
      go false = refl

  -- The first two bytes of a word on a big-endian host are its upper half.
  verdict_upper :
      (x : ℕ)
      → IsWord x
      → verdict host (byte_in host 4 x) 2 ≡ other_way host (reverse_2 (x / 2 ^ 16) == x / 2 ^ 16)
  verdict_upper x h = go host.big_endian
    where
      go :
          (b : Bool)
          → (if b
              then compare
                  (λ k. if b then byte x (4 - 1 - k) else byte x k)
                  (λ k. if b then byte x (4 - 1 - k) else byte x k)
                  2
                  true
              else true)
            ≡ (if b then reverse_2 (x / 2 ^ 16) == x / 2 ^ 16 else true)
      go true = compare-reverse_2 (x / 2 ^ 16) _ (omega arith) (omega arith) (omega arith)
      go false = refl

  verdict_2 :
      (x : ℕ) → x < 2 ^ 16 → verdict host (byte_in host 2 x) 2 ≡ other_way host (reverse_2 x == x)
  verdict_2 x h = go host.big_endian
    where
      go :
          (b : Bool)
          → (if b
              then compare
                  (λ k. if b then byte x (2 - 1 - k) else byte x k)
                  (λ k. if b then byte x (2 - 1 - k) else byte x k)
                  2
                  true
              else true)
            ≡ (if b then reverse_2 x == x else true)
      go true = compare-reverse_2 x _ h refl refl
      go false = refl

-- The test program, with any word and half-word in place of its two constants: the four tests in the
-- host's own byte order succeed; so do the other four on a little-endian host, but on a big-endian one
-- only for values that are the same with their bytes reversed.
pub main_lem :
    (host : Host) (content content' : ℕ → ℕ) (unread : Unread) (word_value half_value : ℕ)
    → AreBytes content
    → AreBytes content'
    → IsWord word_value
    → half_value < 2 ^ 16
    → main host content content' unread word_value half_value
      ≡ ok (
          true
          ∷ true
          ∷ other_way host (reverse_4 word_value == word_value)
          ∷ other_way host (reverse_2 (word_value / 2 ^ 16) == word_value / 2 ^ 16)
          ∷ true
          ∷ true
          ∷ other_way host (reverse_4 word_value == word_value)
          ∷ other_way host (reverse_2 half_value == half_value)
          ∷ [])
unfolding main
main_lem host content content' unread w v h h' l l' =
    let f = byte_in host 4 w in
    let m = both content content' f in
    let r = both-Filled host content content' f h h' (byte_in-AreBytes host 4 w) in
    let s = same_order-Ready host f m r in
    let o = other_order-Ready host f m r in
    rw (
      fill_bytes-both content content' f,
      read_tests_lem host f m w unread r refl,
      write_tests_same host (same_order host m) w v unread.value s.size s.ordered,
      write_tests_other host (other_order host m) w v unread.value o.size o.ordered,
      verdict_4 host w l,
      verdict_upper host w l,
      verdict_2 host v l',
    )
