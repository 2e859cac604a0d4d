-- ===== src/Memory/Bytes.antt =====
-- The memory holds bytes: every write keeps that, and every read gives a number of its width.
use native.Mathlib.Nat.{one-le-pow}
use projet_prog.Base.{
  ℕ, zero, suc, ◌+◌, ◌*◌, ◌/◌, ◌%◌, ◌^◌, ◌<◌, ◌≡◌, ◌≢◌, refl, arith, Bool, true, false, bit_or,
  if◌then◌else◌, ltb, Bool-cases, inl, inr, ok, Ensures, Ensures->>=, ◌>>=◌,
}
use projet_prog.Bits.{bit_or-lt, two_pow-add}
use projet_prog.Word.{Host, shl32}
use projet_prog.Memory.{
  Memory, Read, Written, load_cell, store_cell, gather, gather_low, scatter, scatter_low,
  load_native, store_native, memory_read_byte, memory_write_byte, memory_read, memory_write,
}

-- A memory of bytes, of a given size and byte order.
pub record HoldsBytes (size : ℕ) (big : Bool) (mem : Memory) : Type 0 where
  pub bytes : (i : ℕ) → mem.memo i < 2 ^ 8
  pub same_size : mem.size ≡ size
  pub same_order : mem.is_big_endian ≡ big

-- What a read leaves in `*value`: a number of its width where it succeeds, else the old content.
abbrev pub Gives : ℕ → ℕ → Read → Type 0
Gives width old r = (r.status ≡ 0 → r.value < 2 ^ width) × (r.status ≢ 0 → r.value ≡ old)

load_cell-lt :
    (mem : Memory) (i : ℕ) → mem.memo i < 2 ^ 8 → Ensures (λ v. v < 2 ^ 8) (load_cell mem i)
unfolding load_cell
load_cell-lt mem i h = elim (Bool-cases (ltb i mem.size)) [ inl e ↦ rw e h | inr e ↦ rw e tt ]

next_width : (n : ℕ) → 2 ^ (8 * suc n) ≡ 2 ^ 8 * 2 ^ (8 * n)
next_width n = let e : 8 * suc n ≡ 8 + 8 * n = omega arith in rw e (two_pow-add 8 (8 * n))

-- After `k` bytes and `n` more.
gather-lt :
    (mem : Memory) (n k i tmp : ℕ) {m : ℕ}
    → ((j : ℕ) → mem.memo j < 2 ^ 8)
    → m ≡ k + n
    → tmp < 2 ^ (8 * k)
    → Ensures (λ v. v < 2 ^ (8 * m)) (gather mem n i tmp)
unfolding gather
gather-lt mem zero k i tmp {m} h e w = let e' : m ≡ k = omega arith in rw e' w
gather-lt mem (suc n) k i tmp {m} h e w =
    Ensures->>= (λ v. v < 2 ^ 8) (λ v. v < 2 ^ (8 * m)) (load_cell mem i)
      (λ b. gather mem n (i + 1) (bit_or (shl32 tmp 8) b)) (load_cell-lt mem i (h i))
      (λ b l. gather-lt mem n (suc k) (i + 1) (bit_or (shl32 tmp 8) b) h (omega arith) (
        bit_or-lt (8 * suc k) (shl32 tmp 8) b (omega (arith, next_width k))
          (omega (arith, next_width k, one-le-pow (8 * k) 2))))

gather_low-lt :
    (mem : Memory) (n i : ℕ)
    → ((j : ℕ) → mem.memo j < 2 ^ 8)
    → Ensures (λ v. v < 2 ^ (8 * n)) (gather_low mem n i)
unfolding gather_low
gather_low-lt mem zero i h = omega arith
gather_low-lt mem (suc n) i h =
    Ensures->>= (λ v. v < 2 ^ 8) (λ v. v < 2 ^ (8 * suc n)) (load_cell mem i)
      (λ low. gather_low mem n (i + 1) >>= λ high. ok (low + 2 ^ 8 * high))
      (load_cell-lt mem i (h i))
      (λ low l.
        Ensures->>= (λ v. v < 2 ^ (8 * n)) (λ v. v < 2 ^ (8 * suc n)) (gather_low mem n (i + 1))
          (λ high. ok (low + 2 ^ 8 * high)) (gather_low-lt mem n (i + 1) h)
          (λ high l'. omega (arith, next_width n)))

module _ (size : ℕ) (big : Bool) where
  store_cell-HoldsBytes :
      (mem : Memory) (i value : ℕ)
      → HoldsBytes size big mem
      → value < 2 ^ 8
      → Ensures (HoldsBytes size big) (store_cell mem i value)
  unfolding store_cell
  store_cell-HoldsBytes mem i value h l = elim (Bool-cases (ltb i mem.size)) [
    | inl e ↦ rw e (record {
      bytes = λ j. ground (arith, h.bytes j);
      same_size = h.same_size;
      same_order = h.same_order;
    })
    | inr e ↦ rw e tt
  ]

  scatter-HoldsBytes :
      (mem : Memory) (n i value : ℕ)
      → HoldsBytes size big mem
      → Ensures (HoldsBytes size big) (scatter mem n i value)
  unfolding scatter
  scatter-HoldsBytes mem zero i value h = h
  scatter-HoldsBytes mem (suc n) i value h =
      Ensures->>= (HoldsBytes size big) (HoldsBytes size big)
        (store_cell mem i (value / 2 ^ (8 * n) % 2 ^ 8)) (λ m. scatter m n (i + 1) value)
        (store_cell-HoldsBytes mem i _ h (omega arith))
        (λ m h'. scatter-HoldsBytes m n (i + 1) value h')

  scatter_low-HoldsBytes :
      (mem : Memory) (n i value : ℕ)
      → HoldsBytes size big mem
      → Ensures (HoldsBytes size big) (scatter_low mem n i value)
  unfolding scatter_low
  scatter_low-HoldsBytes mem zero i value h = h
  scatter_low-HoldsBytes mem (suc n) i value h =
      Ensures->>= (HoldsBytes size big) (HoldsBytes size big) (store_cell mem i (value % 2 ^ 8))
        (λ m. scatter_low m n (i + 1) (value / 2 ^ 8))
        (store_cell-HoldsBytes mem i _ h (omega arith))
        (λ m h'. scatter_low-HoldsBytes m n (i + 1) (value / 2 ^ 8) h')

  module _ (host : Host) where
    load_native-lt :
        (mem : Memory) (n i : ℕ)
        → ((j : ℕ) → mem.memo j < 2 ^ 8)
        → Ensures (λ v. v < 2 ^ (8 * n)) (load_native host mem n i)
    unfolding load_native
    load_native-lt mem n i h = elim (Bool-cases host.big_endian) [
      | inl e ↦ rw e (gather-lt mem n 0 i 0 h (omega arith) (omega arith))
      | inr e ↦ rw e (gather_low-lt mem n i h)
    ]

    read_order-lt :
        (mem : Memory) (n address : ℕ) (b : Bool)
        → ((j : ℕ) → mem.memo j < 2 ^ 8)
        → Ensures
            (λ v. v < 2 ^ (8 * n))
            (if b then gather mem n address 0 else load_native host mem n (n * address))
    read_order-lt mem n address true h = gather-lt mem n 0 address 0 h (omega arith) (omega arith)
    read_order-lt mem n address false h = load_native-lt mem n (n * address) h

    -- A read that succeeds gives a value of its width, and a failing one leaves the old value.
    pub memory_read-lt :
        (mem : Memory) (n address value : ℕ)
        → HoldsBytes size big mem
        → Ensures (Gives (8 * n) value) (memory_read host n mem address value)
    unfolding memory_read
    memory_read-lt mem n address value h = elim (Bool-cases (ltb address mem.size)) [
      | inl e ↦ rw e (
          Ensures->>= (λ v. v < 2 ^ (8 * n)) (Gives (8 * n) value)
            (if mem.is_big_endian
              then gather mem n address 0
              else load_native host mem n (n * address))
            (λ v. ok (record { status = 0; value = v }))
            (read_order-lt mem n address mem.is_big_endian h.bytes)
            (λ v l. (λ _. l, λ ne. absurd (ne refl))))
      | inr e ↦ rw e (λ z. absurd (omega arith), λ _. refl)
    ]

    store_native-HoldsBytes :
        (mem : Memory) (n i value : ℕ)
        → HoldsBytes size big mem
        → Ensures (HoldsBytes size big) (store_native host mem n i value)
    unfolding store_native
    store_native-HoldsBytes mem n i value h = elim (Bool-cases host.big_endian) [
      | inl e ↦ rw e (scatter-HoldsBytes mem n i value h)
      | inr e ↦ rw e (scatter_low-HoldsBytes mem n i value h)
    ]

    write_order-HoldsBytes :
        (mem : Memory) (n address value : ℕ) (b : Bool)
        → HoldsBytes size big mem
        → Ensures
            (HoldsBytes size big)
            (if b then scatter mem n address value else store_native host mem n (n * address) value)
    write_order-HoldsBytes mem n address value true h = scatter-HoldsBytes mem n address value h
    write_order-HoldsBytes mem n address value false h =
        store_native-HoldsBytes mem n (n * address) value h

    pub memory_write-HoldsBytes :
        (mem : Memory) (n address value : ℕ)
        → HoldsBytes size big mem
        → Ensures
            (λ (w : Written). HoldsBytes size big w.mem)
            (memory_write host n mem address value)
    unfolding memory_write
    memory_write-HoldsBytes mem n address value h = elim (Bool-cases (ltb address mem.size)) [
      | inl e ↦ rw e (
          Ensures->>= (HoldsBytes size big) (λ (w : Written). HoldsBytes size big w.mem)
            (if mem.is_big_endian
              then scatter mem n address value
              else store_native host mem n (n * address) value)
            (λ m. ok (record { status = 0; mem = m }))
            (write_order-HoldsBytes mem n address value mem.is_big_endian h) (λ m h'. h'))
      | inr e ↦ rw e h
    ]

  pub memory_read_byte-lt :
      (mem : Memory) (address value : ℕ)
      → HoldsBytes size big mem
      → Ensures (Gives 8 value) (memory_read_byte mem address value)
  unfolding memory_read_byte
  memory_read_byte-lt mem address value h = elim (Bool-cases (ltb address mem.size)) [
    | inl e ↦ rw e (
        Ensures->>= (λ v. v < 2 ^ 8) (Gives 8 value) (load_cell mem address)
          (λ v. ok (record { status = 0; value = v })) (load_cell-lt mem address (h.bytes address))
          (λ v l. (λ _. l, λ ne. absurd (ne refl))))
    | inr e ↦ rw e (λ z. absurd (omega arith), λ _. refl)
  ]

  pub memory_write_byte-HoldsBytes :
      (mem : Memory) (address value : ℕ)
      → HoldsBytes size big mem
      → value < 2 ^ 8
      → Ensures (λ (w : Written). HoldsBytes size big w.mem) (memory_write_byte mem address value)
  unfolding memory_write_byte
  memory_write_byte-HoldsBytes mem address value h l = elim (Bool-cases (ltb address mem.size)) [
    | inl e ↦ rw e (
        Ensures->>= (HoldsBytes size big) (λ (w : Written). HoldsBytes size big w.mem)
          (store_cell mem address value) (λ m. ok (record { status = 0; mem = m }))
          (store_cell-HoldsBytes mem address value h l) (λ m h'. h'))
    | inr e ↦ rw e h
  ]
