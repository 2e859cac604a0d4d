-- ===== src/MemoryTest/Compare.antt =====
-- The comparisons of memory_test.c.
use projet_prog.Base.{
  ℕ, zero, suc, ◌+◌, ◌-◌, ◌≤◌, ◌<◌, ◌≡◌, refl, sym, ap, ◌∙◌, arith, Bool, true, false,
  if◌then◌else◌, ◌==◌, Outcome, ok, ◌>>=◌,
}
use projet_prog.Memory.{Memory, Read}
use projet_prog.Memory.BigEndian.{memory_read_byte_in}
use projet_prog.MemoryTest.{next_index, compare_bytes, compare, compare_sim_bytes, compare_with_sim}
use projet_prog.MemoryTest.Access.{place_in}

compare_bytes-true :
    (n : ℕ) (a b : ℕ → ℕ) (i j : ℕ) (reverse : Bool)
    → ((k : ℕ) → k < n → a (i + k) ≡ b (if reverse then j - k else j + k))
    → compare_bytes n a b i j reverse ≡ true
unfolding compare_bytes
compare_bytes-true zero a b i j reverse h = refl
compare_bytes-true (suc n) a b i j false h =
    let e : i + 0 ≡ i = omega arith in
    let e' : j + 0 ≡ j = omega arith in
    let first : a i ≡ b j = ap a (sym e) ∙ h 0 (omega arith) ∙ ap b e' in
    rw first (
      ground (
        arith,
        compare_bytes-true n a b (i + 1) (j + 1) false (λ k l.
            let f : i + 1 + k ≡ i + suc k = omega arith in
            let f' : j + suc k ≡ j + 1 + k = omega arith in
            ap a f ∙ h (suc k) (omega arith) ∙ ap b f'),
      ))
compare_bytes-true (suc n) a b i j true h =
    let e : i + 0 ≡ i = omega arith in
    let e' : j - 0 ≡ j = omega arith in
    let first : a i ≡ b j = ap a (sym e) ∙ h 0 (omega arith) ∙ ap b e' in
    rw first (
      ground (
        arith,
        compare_bytes-true n a b (i + 1) (j - 1) true (λ k l.
            let f : i + 1 + k ≡ i + suc k = omega arith in
            let f' : j - suc k ≡ j - 1 - k = omega arith in
            ap a f ∙ h (suc k) (omega arith) ∙ ap b f'),
      ))

pub compare-true :
    (n : ℕ) (a b : ℕ → ℕ) (reverse : Bool)
    → ((k : ℕ) → k < n → a k ≡ b (place_in reverse n k))
    → compare a b n reverse ≡ true
unfolding compare
compare-true n a b false h =
    compare_bytes-true n a b 0 0 false
      λ k l. let e : 0 + k ≡ k = omega arith in ap a e ∙ h k l ∙ ap b (sym e)
compare-true n a b true h =
    compare_bytes-true n a b 0 (n - 1) true λ k l. let e : 0 + k ≡ k = omega arith in ap a e ∙ h k l

-- The comparison of the places that it looks at.
pub compare_bytes-eq :
    (n : ℕ) (a b b' : ℕ → ℕ) (i j : ℕ)
    → n ≤ j + 1
    → ((k : ℕ) → k ≤ j → b k ≡ b' k)
    → compare_bytes n a b i j true ≡ compare_bytes n a b' i j true
unfolding compare_bytes
compare_bytes-eq zero a b b' i j l h = refl
compare_bytes-eq (suc zero) a b b' i j l h = rw (h j (omega arith)) refl
compare_bytes-eq (suc (suc n)) a b b' i j l h =
    rw
      (
        h j (omega arith),
        compare_bytes-eq (suc n) a b b' (i + 1) (j - 1) (omega arith) (λ k q. h k (omega arith)),
      )
      refl

module _ (a : ℕ → ℕ) (m : Memory) where
  one_round :
      (n i j : ℕ) (reverse : Bool) (value : ℕ)
      → j < m.size
      → compare_sim_bytes n a m (i + 1) (next_index reverse j) reverse (m.memo j)
        ≡ ok (compare_bytes n a m.memo (i + 1) (next_index reverse j) reverse)
      → compare_sim_bytes (suc n) a m i j reverse value
        ≡ ok (compare_bytes (suc n) a m.memo i j reverse)
  unfolding compare_sim_bytes compare_bytes
  one_round n i j reverse value l h =
      ap
        (λ (o : Outcome Read). o >>= λ r. elim (a i == r.value) [
          | true ↦ compare_sim_bytes n a m (i + 1) (next_index reverse j) reverse r.value
          | false ↦ ok false
        ])
        (memory_read_byte_in m j value l)
      ∙ choose (a i == m.memo j)
    where
      choose :
          (b : Bool)
          → (elim b [
            | true ↦ compare_sim_bytes n a m (i + 1) (next_index reverse j) reverse (m.memo j)
            | false ↦ ok false
          ])
            ≡ ok (
                if b
                then compare_bytes n a m.memo (i + 1) (next_index reverse j) reverse
                else false)
      choose true = h
      choose false = refl

  backwards :
      (n i j : ℕ) (value : ℕ)
      → j < m.size
      → n ≤ j + 1
      → compare_sim_bytes n a m i j true value ≡ ok (compare_bytes n a m.memo i j true)
  unfolding compare_sim_bytes compare_bytes
  backwards zero i j value l h = refl
  backwards (suc n) i j value l h =
      one_round n i j true value l
        (backwards n (i + 1) (j - 1) (m.memo j) (omega arith) (omega arith))

  forwards :
      (n i j : ℕ) (value : ℕ)
      → j + n ≤ m.size
      → compare_sim_bytes n a m i j false value ≡ ok (compare_bytes n a m.memo i j false)
  unfolding compare_sim_bytes compare_bytes
  forwards zero i j value h = refl
  forwards (suc n) i j value h =
      one_round n i j false value (omega arith)
        (forwards n (i + 1) (j + 1) (m.memo j) (omega arith))

  -- In the memory, the comparison with it is that with its bytes.
  pub compare_with_sim-compare :
      (n : ℕ) (reverse : Bool) (value : ℕ)
      → 0 < n
      → n ≤ m.size
      → compare_with_sim a m n reverse value ≡ ok (compare a m.memo n reverse)
  unfolding compare_with_sim compare
  compare_with_sim-compare n true value p l =
      backwards n 0 (n - 1) value (omega arith) (omega arith)
  compare_with_sim-compare n false value p l = forwards n 0 0 value (omega arith)
