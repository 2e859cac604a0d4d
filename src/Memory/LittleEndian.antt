-- ===== src/Memory/LittleEndian.antt =====
-- Half-word and word accesses to a little-endian memory on a little-endian host. The address is
-- that of the half-word or word in an array of such, not that of a byte.
use native.Mathlib.Nat.{div-div-eq-div-mul}
use projet_prog.Bits.{two_pow-add}
use projet_prog.Base.{
  ℕ, zero, suc, ◌+◌, ◌-◌, ◌*◌, ◌/◌, ◌%◌, ◌^◌, ◌≤◌, ◌<◌, ◌≡◌, sym, ap, ◌∙◌, arith, fun_ext, false,
  ◌&&◌, if◌then◌else◌, ltb, leb, lt→ltb, le→ltb, Bool-cases, inl, inr, ok, undefined,
}
use projet_prog.Word.{Host}
use projet_prog.Memory.{
  Memory, update, load_cell, gather_low, scatter_low, load_native, store_native, memory_read,
  memory_write,
}
use projet_prog.Memory.BigEndian.{byte, load_cell_in, store_cell_in}

-- The content with `n` bytes of `value` from `i` on, the least significant one first.
abbrev pub little_endian_at : (ℕ → ℕ) → ℕ → ℕ → ℕ → ℕ → ℕ
little_endian_at memo n i value j = if leb i j && ltb j (i + n) then byte value (j - i) else memo j

pub byte-suc : (value k : ℕ) → byte value (suc k) ≡ byte (value / 2 ^ 8) k
byte-suc value k =
    let e : 8 * suc k ≡ 8 + 8 * k = omega arith in
    ap (λ t. t % 2 ^ 8)
      (ap (λ t. value / 2 ^ t) e
        ∙ ap (λ t. value / t) (two_pow-add 8 (8 * k))
        ∙ sym (div-div-eq-div-mul value (2 ^ 8) (2 ^ (8 * k))))

byte-next : (value i j : ℕ) → i < j → byte value (j - i) ≡ byte (value / 2 ^ 8) (j - (i + 1))
byte-next value i j h =
    let e : j - i ≡ suc (j - (i + 1)) = omega arith in
    ap (byte value) e ∙ byte-suc value (j - (i + 1))

pub scatter_low_lem :
    (mem : Memory) (n i value : ℕ)
    → i + n ≤ mem.size
    → scatter_low mem n i value ≡ ok (record mem { memo = little_endian_at mem.memo n i value })
unfolding scatter_low
scatter_low_lem mem zero i value h =
    ap (λ (f : ℕ → ℕ). ok (record mem { memo = f })) (fun_ext λ j. ground arith)
scatter_low_lem mem (suc n) i value h =
    let mem1 = record mem { memo = update mem.memo i (value % 2 ^ 8) } in
    rw (store_cell_in mem i (value % 2 ^ 8) (omega arith)) (
      scatter_low_lem mem1 n (i + 1) (value / 2 ^ 8) (omega arith)
      ∙ ap (λ (f : ℕ → ℕ). ok (record mem { memo = f })) (fun_ext same))
  where
    same :
        (j : ℕ)
        → little_endian_at (update mem.memo i (value % 2 ^ 8)) n (i + 1) (value / 2 ^ 8) j
          ≡ little_endian_at mem.memo (suc n) i value j
    same j =
        let first : i - i ≡ 0 = omega arith in
        ground (arith, ap (byte value) first, byte-next value i j)

pub gather_low_lem :
    (mem : Memory) (n i value : ℕ)
    → value < 2 ^ (8 * n)
    → i + n ≤ mem.size
    → ((k : ℕ) → k < n → mem.memo (i + k) ≡ byte value k)
    → gather_low mem n i ≡ ok value
unfolding gather_low
gather_low_lem mem zero i value w h bytes = ap ok (omega arith)
gather_low_lem mem (suc n) i value w h bytes =
    rw
      (
        load_cell_in mem i (omega arith),
        gather_low_lem mem n (i + 1) (value / 2 ^ 8) (omega (arith, width)) (omega arith) rest,
      )
      (ap ok (omega (arith, first)))
  where
    width : 2 ^ (8 * suc n) ≡ 2 ^ 8 * 2 ^ (8 * n)
    width = let e : 8 * suc n ≡ 8 + 8 * n = omega arith in rw e (two_pow-add 8 (8 * n))

    first : mem.memo i ≡ value % 2 ^ 8
    first = let e : i ≡ i + 0 = omega arith in ap mem.memo e ∙ bytes 0 (omega arith) ∙ omega arith

    rest : (k : ℕ) → k < n → mem.memo (i + 1 + k) ≡ byte (value / 2 ^ 8) k
    rest k l =
        let e : i + 1 + k ≡ i + suc k = omega arith in
        ap mem.memo e ∙ bytes (suc k) (omega arith) ∙ byte-suc value k

gather_low_over :
    (mem : Memory) (n i : ℕ) → 0 < n → mem.size < i + n → gather_low mem n i ≡ undefined
unfolding gather_low load_cell
gather_low_over mem zero i p q = absurd (omega arith)
gather_low_over mem (suc zero) i p q = rw (le→ltb i mem.size (omega arith))
gather_low_over mem (suc (suc n)) i p q = elim (Bool-cases (ltb i mem.size)) [
  | inl e ↦ rw (e, gather_low_over mem (suc n) (i + 1) (omega arith) (omega arith))
  | inr e ↦ rw e
]

-- A value written to a little-endian memory on a little-endian host is stored `n * address` bytes
-- from the start, the least significant byte first, and reads back from the same address.
pub memory_write-read_little :
    (host : Host) (mem : Memory) (n address value old : ℕ)
    → mem.is_big_endian ≡ false
    → host.big_endian ≡ false
    → 0 < n
    → n * address + n ≤ mem.size
    → value < 2 ^ (8 * n)
    → let mem' = record mem { memo = little_endian_at mem.memo n (n * address) value } in
      (memory_write host n mem address value ≡ ok (record { status = 0; mem = mem' }))
      × (memory_read host n mem' address old ≡ ok (record { status = 0; value = value }))
unfolding memory_write memory_read load_native store_native
memory_write-read_little host mem n address value old le lo p h fits = (
  rw (lt→ltb address mem.size inside, lo, scatter_low_lem mem n (n * address) value h, le),
  rw (
    lt→ltb address mem.size inside,
    lo,
    gather_low_lem (record mem { memo = little_endian_at mem.memo n (n * address) value }) n
        (n * address) value fits h in_place,
    le,
  ),
)
  where
    inside : address < mem.size
    inside = grind arith

    in_place :
        (k : ℕ)
        → k < n
        → little_endian_at mem.memo n (n * address) value (n * address + k) ≡ byte value k
    in_place k l =
        let e : n * address + k - n * address ≡ k = omega arith in ground (arith, ap (byte value) e)

-- The check of a read in a little-endian memory on a little-endian host is on the address alone: a
-- read past the first `size / n` half-words or words passes it and goes out of the block.
pub memory_read_little_over :
    (host : Host) (mem : Memory) (n address old : ℕ)
    → mem.is_big_endian ≡ false
    → host.big_endian ≡ false
    → 0 < n
    → address < mem.size
    → mem.size < n * address + n
    → memory_read host n mem address old ≡ undefined
unfolding memory_read load_native
memory_read_little_over host mem n address old le lo p h q =
    rw (lt→ltb address mem.size h, lo, gather_low_over mem n (n * address) p q, le)
