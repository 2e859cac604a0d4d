-- ===== src/MemoryTest/Writes.antt =====
-- The tests of memory_test.c that write a word and a half-word.
use projet_prog.Base.{
  ℕ, ◌+◌, ◌-◌, ◌<◌, ◌≡◌, refl, sym, ap, ◌∙◌, arith, Bool, true, false, if◌then◌else◌, Bool-cases,
  inl, inr, [], ◌∷◌, ok,
}
use projet_prog.Word.{Host}
use projet_prog.Memory.{Memory}
use projet_prog.Memory.BigEndian.{byte, big_endian_at}
use projet_prog.Memory.LittleEndian.{little_endian_at}
use projet_prog.MemoryTest.{byte_in, compare, write_tests}
use projet_prog.MemoryTest.Access.{place_in, order_of, written, write_first}
use projet_prog.MemoryTest.Compare.{compare-true, compare_bytes-eq}
use projet_prog.MemoryTest.Compare.{compare_with_sim-compare}
use projet_prog.MemoryTest.Reads.{verdict, place_in-place_in}

module _ (host : Host) (mem : Memory) (n value : ℕ) where
  byte_in-place_in : (k : ℕ) → byte_in host n value k ≡ byte value (place_in host.big_endian n k)
  byte_in-place_in k = go host.big_endian
    where
      go :
          (b : Bool)
          → (if b then byte value (n - 1 - k) else byte value k) ≡ byte value (place_in b n k)
      go true = refl
      go false = refl

  written-place_in :
      (k : ℕ) → k < n → written host mem n value k ≡ byte value (place_in (order_of host mem) n k)
  written-place_in k l = go (order_of host mem)
    where
      go :
          (b : Bool)
          → (if b then big_endian_at mem.memo n 0 value else little_endian_at mem.memo n 0 value) k
            ≡ byte value (place_in b n k)
      go true = let e : 0 + n - 1 - k ≡ n - 1 - k = omega arith in ground (arith, ap (byte value) e)
      go false = let e : k - 0 ≡ k = omega arith in ground (arith, ap (byte value) e)

  write_same :
      order_of host mem ≡ host.big_endian
      → compare (byte_in host n value) (written host mem n value) n false ≡ true
  write_same e = compare-true n _ _ false λ k l.
      byte_in-place_in k
      ∙ ap (λ b. byte value (place_in b n k)) (sym e)
      ∙ sym (written-place_in k l)

  write_other :
      order_of host mem ≡ true
      → 0 < n
      → compare (byte_in host n value) (written host mem n value) n true
        ≡ verdict host (byte_in host n value) n
  unfolding compare
  write_other e p = elim (Bool-cases host.big_endian) [
    | inl b ↦
        compare_bytes-eq n (byte_in host n value) _ _ 0 (n - 1) (omega arith) (λ k l.
          written-place_in k (omega arith)
          ∙ ap (λ b. byte value (place_in b n k)) (e ∙ sym b)
          ∙ sym (byte_in-place_in k))
        ∙ sym (
            ap
              (λ b.
                if b then compare (byte_in host n value) (byte_in host n value) n true else true)
              b)
    | inr b ↦
        compare-true n _ _ true (λ k l.
          byte_in-place_in k
          ∙ ap (λ b. byte value (place_in b n k)) b
          ∙ sym (ap (byte value) (place_in-place_in true n k l))
          ∙ ap (λ b. byte value (place_in b n (n - 1 - k))) (sym e)
          ∙ sym (written-place_in (n - 1 - k) (omega arith)))
        ∙ sym (
            ap
              (λ b.
                if b then compare (byte_in host n value) (byte_in host n value) n true else true)
              b)
  ]

  abbrev after_write : Memory
  after_write = record mem { memo = written host mem n value }

module _ (host : Host) (mem : Memory) (word_value half_value value : ℕ) (s : mem.size ≡ 4) where
  -- The two tests by what is compared.
  write_tests-compare :
      (reverse : Bool)
      → write_tests host mem word_value half_value reverse value
        ≡ ok (
            compare (byte_in host 4 word_value) (written host mem 4 word_value) 4 reverse
            ∷ compare
                (byte_in host 2 half_value)
                (written host (after_write host mem 4 word_value) 2 half_value)
                2
                reverse
            ∷ [])
  unfolding write_tests
  write_tests-compare reverse = rw (
    write_first host mem 4 word_value (omega arith) (omega arith),
    compare_with_sim-compare (byte_in host 4 word_value) (after_write host mem 4 word_value) 4
        reverse value (omega arith) (omega arith),
    write_first host (after_write host mem 4 word_value) 2 half_value (omega arith) (omega arith),
    compare_with_sim-compare (byte_in host 2 half_value)
        (after_write host (after_write host mem 4 word_value) 2 half_value) 2 reverse value
        (omega arith) (omega arith),
  )

  -- In the order of the host what is written has the bytes of the variable.
  pub write_tests_same :
      order_of host mem ≡ host.big_endian
      → write_tests host mem word_value half_value false value ≡ ok (true ∷ true ∷ [])
  write_tests_same e =
      write_tests-compare false
      ∙ rw (
        write_same host mem 4 word_value e,
        write_same host (after_write host mem 4 word_value) 2 half_value e,
      )

  -- In the other order it has them the other way round where the host is little-endian.
  pub write_tests_other :
      order_of host mem ≡ true
      → write_tests host mem word_value half_value true value
        ≡ ok (
            verdict host (byte_in host 4 word_value) 4
            ∷ verdict host (byte_in host 2 half_value) 2
            ∷ [])
  write_tests_other e =
      write_tests-compare true
      ∙ rw (
        write_other host mem 4 word_value e (omega arith),
        write_other host (after_write host mem 4 word_value) 2 half_value e (omega arith),
      )
