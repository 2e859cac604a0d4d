-- ===== src/MemoryTest/Access.antt =====
-- The accesses of memory_test.c, all at the first address.
use native.Mathlib.Nat.{div-eq_of_lt}
use projet_prog.Base.{
  ℕ, zero, suc, ◌+◌, ◌-◌, ◌*◌, ◌/◌, ◌^◌, ◌≤◌, ◌<◌, ◌≡◌, sym, ap, ◌∙◌, arith, Bool, ◌||◌,
  if◌then◌else◌, lt→ltb, Bool-cases, inl, inr, ok,
}
use projet_prog.Bits.{two_pow-add}
use projet_prog.Word.{Host}
use projet_prog.Memory.{
  Memory, memory_read, memory_write, load_native, store_native, gather, gather_low,
}
use projet_prog.Memory.BigEndian.{byte, big_endian_at, gather_lem, scatter_lem}
use projet_prog.Memory.LittleEndian.{little_endian_at, byte-suc, gather_low_lem, scatter_low_lem}

abbrev pub AreBytes : (ℕ → ℕ) → Type 0
AreBytes f = (k : ℕ) → f k < 2 ^ 8

-- The number of `n` bytes, the least significant one first.
pub joined : ℕ → (ℕ → ℕ) → ℕ
joined zero f = 0
joined (suc n) f = f 0 + 2 ^ 8 * joined n (λ k. f (k + 1))

pub joined-lt : (n : ℕ) (f : ℕ → ℕ) → AreBytes f → joined n f < 2 ^ (8 * n)
unfolding joined
joined-lt zero f h = omega arith
joined-lt (suc n) f h =
    let e : 8 * suc n ≡ 8 + 8 * n = omega arith in
    rw (e, two_pow-add 8 (8 * n))
      (omega (arith, h 0, joined-lt n (λ k. f (k + 1)) (λ k. h (k + 1))))

pub byte-joined : (n : ℕ) (f : ℕ → ℕ) (k : ℕ) → AreBytes f → k < n → byte (joined n f) k ≡ f k
unfolding joined
byte-joined zero f k h l = absurd (omega arith)
byte-joined (suc n) f zero h l = omega (arith, h 0)
byte-joined (suc n) f (suc k) h l =
    let e : (f 0 + 2 ^ 8 * joined n (λ k. f (k + 1))) / 2 ^ 8 ≡ joined n (λ k. f (k + 1)) =
      omega (arith, h 0) in
    let e' : k + 1 ≡ suc k = omega arith in
    byte-suc _ k
    ∙ ap (λ t. byte t k) e
    ∙ byte-joined n (λ k. f (k + 1)) k (λ k. h (k + 1)) (omega arith)
    ∙ ap f e'

-- The place of the byte `k` of `n`, in the two orders.
abbrev pub place_in : Bool → ℕ → ℕ → ℕ
place_in order n k = if order then n - 1 - k else k

gather_all :
    (mem : Memory) (n : ℕ)
    → AreBytes mem.memo
    → 2 ^ (8 * n) ≤ 2 ^ 32
    → n ≤ mem.size
    → gather mem n 0 0 ≡ ok (joined n (λ k. mem.memo (n - 1 - k)))
gather_all mem n h w l =
    rw (div-eq_of_lt fits) at
      (gather_lem mem n 0 value (omega (arith, fits)) (omega arith) in_place)
  where
    value : ℕ
    value = joined n (λ k. mem.memo (n - 1 - k))

    fits : value < 2 ^ (8 * n)
    fits = joined-lt n (λ k. mem.memo (n - 1 - k)) (λ k. h (n - 1 - k))

    in_place : (k : ℕ) → k < n → mem.memo (0 + k) ≡ byte value (n - 1 - k)
    in_place k l' =
        let e : 0 + k ≡ n - 1 - (n - 1 - k) = omega arith in
        ap mem.memo e
        ∙ sym (
            byte-joined n (λ k. mem.memo (n - 1 - k)) (n - 1 - k) (λ k. h (n - 1 - k))
              (omega arith))

gather_low_all :
    (mem : Memory) (n : ℕ)
    → AreBytes mem.memo
    → n ≤ mem.size
    → gather_low mem n 0 ≡ ok (joined n mem.memo)
gather_low_all mem n h l =
    gather_low_lem mem n 0 (joined n mem.memo) (joined-lt n mem.memo h) (omega arith)
      λ k l'. let e : 0 + k ≡ k = omega arith in ap mem.memo e ∙ sym (byte-joined n mem.memo k h l')

module _ (host : Host) where
  -- An access has the host's order in a little-endian memory.
  abbrev pub order_of : Memory → Bool
  order_of mem = mem.is_big_endian || host.big_endian

  pub read_first :
      (mem : Memory) (n old : ℕ)
      → AreBytes mem.memo
      → 2 ^ (8 * n) ≤ 2 ^ 32
      → n ≤ mem.size
      → 0 < mem.size
      → memory_read host n mem 0 old
        ≡ ok (record { status = 0; value = joined n (λ k. mem.memo (place_in (order_of mem) n k)) })
  unfolding memory_read load_native
  read_first mem n old h w l s =
      let z : n * 0 ≡ 0 = omega arith in
      elim (Bool-cases mem.is_big_endian) [
        | inl e ↦ rw (lt→ltb 0 mem.size s, gather_all mem n h w l, e)
        | inr e ↦ elim (Bool-cases host.big_endian) [
          | inl e' ↦ rw (lt→ltb 0 mem.size s, z, gather_all mem n h w l, e, e')
          | inr e' ↦ rw (lt→ltb 0 mem.size s, z, gather_low_all mem n h l, e, e')
        ]
      ]

  -- The content after a write.
  abbrev pub written : Memory → ℕ → ℕ → ℕ → ℕ
  written mem n value =
      if order_of mem then big_endian_at mem.memo n 0 value else little_endian_at mem.memo n 0 value

  pub write_first :
      (mem : Memory) (n value : ℕ)
      → n ≤ mem.size
      → 0 < mem.size
      → memory_write host n mem 0 value
        ≡ ok (record { status = 0; mem = record mem { memo = written mem n value } })
  unfolding memory_write store_native
  write_first mem n value l s =
      let z : n * 0 ≡ 0 = omega arith in
      elim (Bool-cases mem.is_big_endian) [
        | inl e ↦ rw (lt→ltb 0 mem.size s, scatter_lem mem n 0 value (omega arith), e)
        | inr e ↦ elim (Bool-cases host.big_endian) [
          | inl e' ↦ rw (lt→ltb 0 mem.size s, z, scatter_lem mem n 0 value (omega arith), e, e')
          | inr e' ↦ rw (lt→ltb 0 mem.size s, z, scatter_low_lem mem n 0 value (omega arith), e, e')
        ]
      ]
