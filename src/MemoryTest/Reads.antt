-- ===== src/MemoryTest/Reads.antt =====
-- The tests of memory_test.c that read what was written byte by byte.
use projet_prog.Base.{
  ℕ, ◌-◌, ◌*◌, ◌^◌, ◌≤◌, ◌<◌, ◌≡◌, refl, sym, ap, ◌∙◌, subst, arith, Bool, true, false,
  if◌then◌else◌, Bool-cases, inl, inr, [], ◌∷◌, ok,
}
use projet_prog.Word.{Host}
use projet_prog.Memory.{Memory, memory_read}
use projet_prog.Memory.BigEndian.{byte}
use projet_prog.MemoryTest.{byte_in, compare, Memories, Unread, same_order, other_order, read_tests}
use projet_prog.MemoryTest.Access.{AreBytes, joined, byte-joined, place_in, order_of, read_first}
use projet_prog.MemoryTest.Compare.{compare-true, compare_bytes-eq}

-- A memory of four bytes that holds those of a variable, read and written in an order.
pub record Ready (host : Host) (order : Bool) (f : ℕ → ℕ) (mem : Memory) : Type 0 where
  pub bytes : AreBytes mem.memo
  pub size : mem.size ≡ 4
  pub holds : (k : ℕ) → k < 4 → mem.memo k ≡ f k
  pub ordered : order_of host mem ≡ order

-- What a comparison of the first bytes of a variable with themselves, the other way round, gives where
-- the host is big-endian.
abbrev pub verdict : Host → (ℕ → ℕ) → ℕ → Bool
verdict host f n = if host.big_endian then compare f f n true else true

pub place_in-place_in : (o : Bool) (n k : ℕ) → k < n → place_in o n (place_in o n k) ≡ k
place_in-place_in false n k l = refl
place_in-place_in true n k l = omega arith

pub place_in-lt : (o : Bool) (n k : ℕ) → k < n → place_in o n k < n
place_in-lt false n k l = l
place_in-lt true n k l = omega arith

module _ (host : Host) (f : ℕ → ℕ) (mem : Memory) (n : ℕ) where
  byte_in-joined :
      (order : Bool) (k : ℕ)
      → Ready host order f mem
      → n ≤ 4
      → k < n
      → byte_in host n (joined n (λ k. mem.memo (place_in (order_of host mem) n k))) k
        ≡ f (place_in order n (place_in host.big_endian n k))
  byte_in-joined order k r l l' = rw r.ordered (pick host.big_endian)
    where
      places :
          (b : Bool)
          → byte (joined n (λ k. mem.memo (place_in order n k))) (place_in b n k)
            ≡ f (place_in order n (place_in b n k))
      places b =
          byte-joined n (λ k. mem.memo (place_in order n k)) (place_in b n k)
            (λ k. r.bytes (place_in order n k)) (place_in-lt b n k l')
          ∙ r.holds (place_in order n (place_in b n k))
              (let p = place_in-lt order n (place_in b n k) (place_in-lt b n k l') in omega arith)

      pick :
          (b : Bool)
          → (if b
              then byte (joined n (λ k. mem.memo (place_in order n k))) (n - 1 - k)
              else byte (joined n (λ k. mem.memo (place_in order n k))) k)
            ≡ f (place_in order n (place_in b n k))
      pick true = places true
      pick false = places false

  read_same :
      Ready host host.big_endian f mem
      → n ≤ 4
      → compare f
          (byte_in host n (joined n (λ k. mem.memo (place_in (order_of host mem) n k))))
          n
          false
        ≡ true
  read_same r l = compare-true n f _ false λ k l'.
      sym
        (byte_in-joined host.big_endian k r l l' ∙ ap f (place_in-place_in host.big_endian n k l'))

  read_other :
      Ready host true f mem
      → 0 < n
      → n ≤ 4
      → compare f
          (byte_in host n (joined n (λ k. mem.memo (place_in (order_of host mem) n k))))
          n
          true
        ≡ verdict host f n
  unfolding compare
  read_other r p l = elim (Bool-cases host.big_endian) [
    | inl e ↦
        compare_bytes-eq n f _ f 0 (n - 1) (omega arith) (λ k l'.
          byte_in-joined true k r l (omega arith)
          ∙ ap (λ b. f (place_in true n (place_in b n k))) e
          ∙ ap f (place_in-place_in true n k (omega arith)))
        ∙ sym (ap (λ b. if b then compare f f n true else true) e)
    | inr e ↦
        compare-true n f _ true (λ k l'. sym (
          byte_in-joined true (n - 1 - k) r l (omega arith)
          ∙ ap (λ b. f (place_in true n (place_in b n (n - 1 - k)))) e
          ∙ ap f (place_in-place_in true n k l')))
        ∙ sym (ap (λ b. if b then compare f f n true else true) e)
  ]

module _ (host : Host) (f : ℕ → ℕ) where
  -- The two memories of the program, both with the same bytes.
  pub record Filled (m : Memories) : Type 0 where
    pub little : Ready host host.big_endian f m.little
    pub big : Ready host true f m.big

  pub same_order-Ready :
      (m : Memories) → Filled m → Ready host host.big_endian f (same_order host m)
  same_order-Ready m r = go host.big_endian refl
    where
      go :
          (b : Bool)
          → b ≡ host.big_endian
          → Ready host host.big_endian f (if b then m.big else m.little)
      go true e = subst (λ b. Ready host b f m.big) e r.big
      go false e = r.little

  pub other_order-Ready : (m : Memories) → Filled m → Ready host true f (other_order host m)
  other_order-Ready m r = go host.big_endian refl
    where
      go : (b : Bool) → b ≡ host.big_endian → Ready host true f (if b then m.little else m.big)
      go true e = subst (λ b. Ready host b f m.little) (sym e) r.little
      go false e = r.big

  read_at_first :
      {order : Bool} {mem : Memory} (n old : ℕ)
      → Ready host order f mem
      → 0 < n
      → n ≤ 4
      → 2 ^ (8 * n) ≤ 2 ^ 32
      → memory_read host n mem 0 old
        ≡ ok (record {
          status = 0;
          value = joined n (λ k. mem.memo (place_in (order_of host mem) n k));
        })
  read_at_first {mem = mem} n old r p l w =
      let s = r.size in read_first host mem n old r.bytes w (omega arith) (omega arith)

  -- On memories with the bytes of the word, the reads in the host's order give back what was written,
  -- and those in the other order do where the host is little-endian.
  pub read_tests_lem :
      (m : Memories) (word_value : ℕ) (unread : Unread)
      → Filled m
      → f ≡ byte_in host 4 word_value
      → read_tests host m word_value unread
        ≡ ok (true ∷ true ∷ verdict host f 4 ∷ verdict host f 2 ∷ [])
  unfolding read_tests
  read_tests_lem m word_value unread r e =
      let s = same_order-Ready m r in
      let o = other_order-Ready m r in
      rw (
        read_at_first 4 unread.word_read s (omega arith) (omega arith) (omega arith),
        read_at_first 2 unread.half_read s (omega arith) (omega arith) (omega arith),
        read_at_first 4 _ o (omega arith) (omega arith) (omega arith),
        read_at_first 2 _ o (omega arith) (omega arith) (omega arith),
        ← e,
        read_same host f (same_order host m) 4 s (omega arith),
        read_same host f (same_order host m) 2 s (omega arith),
        read_other host f (other_order host m) 4 o (omega arith) (omega arith),
        read_other host f (other_order host m) 2 o (omega arith) (omega arith),
      )
