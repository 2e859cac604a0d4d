-- ===== src/MemoryTest.antt =====
-- memory_test.c: the program that tests the memory, with the two values it writes as arguments.
pub mod Access
pub mod Compare
pub mod Reads
pub mod Writes
pub mod Reverse
pub mod Passes
use projet_prog.Base.{
  ℕ, zero, suc, ◌+◌, ◌-◌, ◌*◌, ◌/◌, ◌%◌, ◌^◌, Bool, true, false, not, if◌then◌else◌, ◌==◌, List, [],
  ◌∷◌, ◌++◌, Outcome, ok, ◌>>=◌,
}
use projet_prog.Word.{Host}
use projet_prog.Memory.{
  Memory, memory_create, memory_read_byte, memory_write_byte, memory_read_half, memory_read_word,
  memory_write_half, memory_write_word,
}
use projet_prog.Memory.BigEndian.{byte}

-- The byte `i` in memory of a variable of `size` bytes.
abbrev pub byte_in : Host → ℕ → ℕ → ℕ → ℕ
byte_in host size value i = if host.big_endian then byte value (size - 1 - i) else byte value i

-- `j += j_step`. The last `j` of a loop is not used.
abbrev pub next_index : Bool → ℕ → ℕ
next_index reverse j = if reverse then j - 1 else j + 1

-- The first `j`.
abbrev pub first_index : ℕ → Bool → ℕ
first_index size reverse = if reverse then size - 1 else 0

-- The loop of `compare` with `n` rounds left; `a` and `b` give the bytes behind the two pointers.
unfoldable pub compare_bytes : ℕ → (ℕ → ℕ) → (ℕ → ℕ) → ℕ → ℕ → Bool → Bool
compare_bytes zero a b i j reverse = true
compare_bytes (suc n) a b i j reverse =
    let rest = compare_bytes n a b (i + 1) (next_index reverse j) reverse in
    if a i == b j then rest else false

unfoldable pub compare : (ℕ → ℕ) → (ℕ → ℕ) → ℕ → Bool → Bool
compare a b size reverse = compare_bytes size a b 0 (first_index size reverse) reverse

-- The loop of `compare_with_sim`. `value` keeps its content where a read fails.
unfoldable pub compare_sim_bytes : ℕ → (ℕ → ℕ) → Memory → ℕ → ℕ → Bool → ℕ → Outcome Bool
compare_sim_bytes zero a m i j reverse value = ok true
compare_sim_bytes (suc n) a m i j reverse value = do
  r ← memory_read_byte m j value
  elim (a i == r.value) [
    | true ↦ compare_sim_bytes n a m (i + 1) (next_index reverse j) reverse r.value
    | false ↦ ok false
  ]

unfoldable pub compare_with_sim : (ℕ → ℕ) → Memory → ℕ → Bool → ℕ → Outcome Bool
compare_with_sim a m size reverse value =
    compare_sim_bytes size a m 0 (first_index size reverse) reverse value

-- `m[0]`, little-endian, and `m[1]`, big-endian.
pub record Memories : Type 0 where
  pub little : Memory
  pub big : Memory

-- What the variables of the program that are not set hold.
pub record Unread : Type 0 where
  pub word_read : ℕ
  pub half_read : ℕ
  pub value : ℕ

-- The loop that writes the bytes of the word, at `i` with `n` rounds left.
unfoldable pub fill_bytes : ℕ → (ℕ → ℕ) → ℕ → Memories → Outcome Memories
fill_bytes zero position i m = ok m
fill_bytes (suc n) position i m = do
  w0 ← memory_write_byte m.little i (position i)
  w1 ← memory_write_byte m.big i (position i)
  fill_bytes n position (i + 1) (record { little = w0.mem; big = w1.mem })

module _ (host : Host) where
  -- `m[is_big_endian()]` and `m[1-is_big_endian()]`
  abbrev pub same_order : Memories → Memory
  same_order m = if host.big_endian then m.big else m.little

  abbrev pub other_order : Memories → Memory
  other_order m = if host.big_endian then m.little else m.big

  -- The first four tests: what each prints, in order.
  unfoldable pub read_tests : Memories → ℕ → Unread → Outcome (List Bool)
  read_tests m word_value unread = do
    r1 ← memory_read_word host (same_order m) 0 unread.word_read
    r2 ← memory_read_half host (same_order m) 0 unread.half_read
    r3 ← memory_read_word host (other_order m) 0 r1.value
    r4 ← memory_read_half host (other_order m) 0 r2.value
    ok (
        compare (byte_in host 4 word_value) (byte_in host 4 r1.value) 4 false
        ∷ compare (byte_in host 4 word_value) (byte_in host 2 r2.value) 2 false
        ∷ compare (byte_in host 4 word_value) (byte_in host 4 r3.value) 4 true
        ∷ compare (byte_in host 4 word_value) (byte_in host 2 r4.value) 2 true
        ∷ [])

  -- The word and then the half written to one memory, each with its test.
  unfoldable pub write_tests : Memory → ℕ → ℕ → Bool → ℕ → Outcome (List Bool)
  write_tests m word_value half_value reverse value = do
    w ← memory_write_word host m 0 word_value
    t ← compare_with_sim (byte_in host 4 word_value) w.mem 4 reverse value
    w' ← memory_write_half host w.mem 0 half_value
    t' ← compare_with_sim (byte_in host 2 half_value) w'.mem 2 reverse value
    ok (t ∷ t' ∷ [])

  -- What the eight calls of `print_test` are given. The allocations succeed, and `content` is what
  -- their blocks hold. Each of the two memories is written in its own two tests only.
  unfoldable pub main : (ℕ → ℕ) → (ℕ → ℕ) → Unread → ℕ → ℕ → Outcome (List Bool)
  main content content' unread word_value half_value = do
    let created : Memories = record {
      little = memory_create content 4 false;
      big = memory_create content' 4 true;
    }
    m ← fill_bytes 4 (byte_in host 4 word_value) 0 created
    ts ← read_tests m word_value unread
    ts' ← write_tests (same_order m) word_value half_value false unread.value
    ts'' ← write_tests (other_order m) word_value half_value true unread.value
    ok (ts ++ (ts' ++ ts''))
