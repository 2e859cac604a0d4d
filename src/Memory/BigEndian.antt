-- ===== src/Memory/BigEndian.antt =====
-- Half-word and word accesses to a big-endian memory.
use native.Mathlib.Nat.{div-div-eq-div-mul, div-eq_of_lt, div-le_self}
use projet_prog.Base.{
  ℕ, zero, suc, ◌+◌, ◌-◌, ◌*◌, ◌/◌, ◌%◌, ◌^◌, ◌≤◌, ◌<◌, ◌≡◌, ap, ◌∙◌, arith, fun_ext, true, ◌&&◌,
  if◌then◌else◌, ltb, leb, lt→ltb, ok, bit_or,
}
use projet_prog.Bits.{two_pow-add, bit_or_disjoint, bit_or_comm}
use projet_prog.Word.{Host, IsWord, shl32}
use projet_prog.Memory.{
  Memory, update, load_cell, store_cell, gather, scatter, memory_read_byte, memory_write_byte,
  memory_read, memory_write,
}

pub load_cell_in : (mem : Memory) (i : ℕ) → i < mem.size → load_cell mem i ≡ ok (mem.memo i)
unfolding load_cell
load_cell_in mem i h = rw (lt→ltb i mem.size h)

pub store_cell_in :
    (mem : Memory) (i value : ℕ)
    → i < mem.size
    → store_cell mem i value ≡ ok (record mem { memo = update mem.memo i value })
unfolding store_cell
store_cell_in mem i value h = rw (lt→ltb i mem.size h)

pub memory_read_byte_in :
    (mem : Memory) (address value : ℕ)
    → address < mem.size
    → memory_read_byte mem address value ≡ ok (record { status = 0; value = mem.memo address })
unfolding memory_read_byte
memory_read_byte_in mem address value l = rw (lt→ltb address mem.size l, load_cell_in mem address l)

pub memory_write_byte_in :
    (mem : Memory) (address value : ℕ)
    → address < mem.size
    → memory_write_byte mem address value
      ≡ ok (record { status = 0; mem = record mem { memo = update mem.memo address value } })
unfolding memory_write_byte
memory_write_byte_in mem address value l =
    rw (lt→ltb address mem.size l, store_cell_in mem address value l)

-- The byte of weight 2 ^ (8 * k) of a value.
abbrev pub byte : ℕ → ℕ → ℕ
byte value k = value / 2 ^ (8 * k) % 2 ^ 8

-- The content with `n` bytes of `value` from `i` on, the most significant one first.
abbrev pub big_endian_at : (ℕ → ℕ) → ℕ → ℕ → ℕ → ℕ → ℕ
big_endian_at memo n i value j =
    if leb i j && ltb j (i + n) then byte value (i + n - 1 - j) else memo j

pub scatter_lem :
    (mem : Memory) (n i value : ℕ)
    → i + n ≤ mem.size
    → scatter mem n i value ≡ ok (record mem { memo = big_endian_at mem.memo n i value })
unfolding scatter
scatter_lem mem zero i value h =
    ap (λ (f : ℕ → ℕ). ok (record mem { memo = f })) (fun_ext λ j. ground arith)
scatter_lem mem (suc n) i value h =
    let mem1 = record mem { memo = update mem.memo i (byte value n) } in
    rw (store_cell_in mem i (byte value n) (omega arith)) (
      scatter_lem mem1 n (i + 1) value (omega arith)
      ∙ ap (λ (f : ℕ → ℕ). ok (record mem { memo = f })) (fun_ext same))
  where
    same :
        (j : ℕ)
        → big_endian_at (update mem.memo i (byte value n)) n (i + 1) value j
          ≡ big_endian_at mem.memo (suc n) i value j
    same j =
        let first : i + suc n - 1 - i ≡ n = omega arith in
        let later : i + 1 + n - 1 - j ≡ i + suc n - 1 - j = omega arith in
        ground (arith, ap (byte value) first, ap (byte value) later)

pub quotient_byte : (value n : ℕ) → value / 2 ^ (8 * suc n) ≡ value / 2 ^ (8 * n) / 2 ^ 8
quotient_byte value n =
    let e : 8 * suc n ≡ 8 * n + 8 = omega arith in rw (e, two_pow-add (8 * n) 8, div-div-eq-div-mul)

-- With the bytes of `value` in place, the loop turns its upper part into the whole.
pub gather_lem :
    (mem : Memory) (n i value : ℕ)
    → IsWord value
    → i + n ≤ mem.size
    → ((k : ℕ) → k < n → mem.memo (i + k) ≡ byte value (n - 1 - k))
    → gather mem n i (value / 2 ^ (8 * n)) ≡ ok value
unfolding gather
gather_lem mem zero i value w h bytes = ap ok (omega arith)
gather_lem mem (suc n) i value w h bytes =
    rw (load_cell_in mem i (omega arith), first, joined)
      (gather_lem mem n (i + 1) value w (omega arith) rest)
  where
    q : ℕ
    q = value / 2 ^ (8 * n)

    first : mem.memo i ≡ byte value n
    first =
        let e : i ≡ i + 0 = omega arith in
        let e' : suc n - 1 - 0 ≡ n = omega arith in
        ap mem.memo e ∙ bytes 0 (omega arith) ∙ ap (byte value) e'

    joined : bit_or (shl32 (value / 2 ^ (8 * suc n)) 8) (byte value n) ≡ q
    joined = rw (quotient_byte value n) (
        ap (λ t. bit_or t (q % 2 ^ 8)) (omega (arith, div-le_self value (2 ^ (8 * n))))
        ∙ bit_or_comm 32 (q / 2 ^ 8 * 2 ^ 8) (q % 2 ^ 8)
            (omega (arith, div-le_self value (2 ^ (8 * n)))) (omega arith)
        ∙ bit_or_disjoint 8 (q % 2 ^ 8) (q / 2 ^ 8) (omega arith)
        ∙ omega arith)

    rest : (k : ℕ) → k < n → mem.memo (i + 1 + k) ≡ byte value (n - 1 - k)
    rest k l =
        let e : i + 1 + k ≡ i + suc k = omega arith in
        let e' : suc n - 1 - suc k ≡ n - 1 - k = omega arith in
        ap mem.memo e ∙ bytes (suc k) (omega arith) ∙ ap (byte value) e'

module _ (host : Host) (mem : Memory) (be : mem.is_big_endian ≡ true) where
  -- The write within the memory.
  pub memory_write_big_endian :
      (n address value : ℕ)
      → 0 < n
      → address + n ≤ mem.size
      → memory_write host n mem address value
        ≡ ok (record {
          status = 0;
          mem = record mem { memo = big_endian_at mem.memo n address value };
        })
  unfolding memory_write
  memory_write_big_endian n address value p h =
      rw (lt→ltb address mem.size (omega arith), scatter_lem mem n address value h, be)

  -- The read where the bytes of `value` are in place.
  pub memory_read_big_endian :
      (n address value old : ℕ)
      → 0 < n
      → address + n ≤ mem.size
      → IsWord value
      → value < 2 ^ (8 * n)
      → ((k : ℕ) → k < n → mem.memo (address + k) ≡ byte value (n - 1 - k))
      → memory_read host n mem address old ≡ ok (record { status = 0; value = value })
  unfolding memory_read
  memory_read_big_endian n address value old p h w fits bytes =
      rw (lt→ltb address mem.size (omega arith), start, be)
    where
      start : gather mem n address 0 ≡ ok value
      start = rw (div-eq_of_lt fits) at (gather_lem mem n address value w h bytes)

-- A value written to a big-endian memory, within it, succeeds, stores its bytes from the address
-- on, the most significant one first, and no other, and reads back from the same address.
pub memory_write-read :
    (host : Host) (mem : Memory) (n address value old : ℕ)
    → mem.is_big_endian ≡ true
    → 0 < n
    → address + n ≤ mem.size
    → IsWord value
    → value < 2 ^ (8 * n)
    → let mem' = record mem { memo = big_endian_at mem.memo n address value } in
      (memory_write host n mem address value ≡ ok (record { status = 0; mem = mem' }))
      × (memory_read host n mem' address old ≡ ok (record { status = 0; value = value }))
memory_write-read host mem n address value old be p h w fits = (
  memory_write_big_endian host mem be n address value p h,
  memory_read_big_endian host (record mem { memo = big_endian_at mem.memo n address value }) be n
      address value old p h w fits in_place,
)
  where
    in_place :
        (k : ℕ)
        → k < n
        → big_endian_at mem.memo n address value (address + k) ≡ byte value (n - 1 - k)
    in_place k l =
        let e : address + n - 1 - (address + k) ≡ n - 1 - k = omega arith in
        ground (arith, ap (byte value) e)
