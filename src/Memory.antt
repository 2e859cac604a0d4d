-- ===== src/Memory.antt =====
-- memory.c: a block of bytes with byte, half-word and word accesses in the memory's byte order.
pub mod BigEndian
pub mod Bounds
pub mod Bytes
pub mod LittleEndian
use projet_prog.Base.{
  ℕ, zero, suc, ◌+◌, ◌-◌, ◌*◌, ◌/◌, ◌%◌, ◌^◌, bit_or, Bool, true, false, if◌then◌else◌, ◌==◌, ltb,
  Outcome, ok, undefined, ◌>>=◌,
}
use projet_prog.Word.{Host, shl32, minus_one}

-- `struct memory_data`: `memo` as a function of the index, which has to be below `size`.
pub record Memory : Type 0 where
  pub is_big_endian : Bool
  pub size : ℕ
  pub memo : ℕ → ℕ

-- The allocation succeeds. The block that `malloc` gives is not cleared, so its content is an
-- argument.
unfoldable pub memory_create : (ℕ → ℕ) → ℕ → Bool → Memory
memory_create content size is_big_endian = record {
  is_big_endian = is_big_endian;
  size = size;
  memo = content;
}

-- Of a memory that is not NULL.
abbrev pub memory_get_size : Memory → ℕ
memory_get_size mem = mem.size

-- The content after `memo[i] = value`.
abbrev pub update : (ℕ → ℕ) → ℕ → ℕ → ℕ → ℕ
update f i value j = if i == j then value else f j

-- A read or a write through a pointer into the block, `i` bytes from its start.
unfoldable pub load_cell : Memory → ℕ → Outcome ℕ
load_cell mem i = if ltb i mem.size then ok (mem.memo i) else undefined

unfoldable pub store_cell : Memory → ℕ → ℕ → Outcome Memory
store_cell mem i value =
    if ltb i mem.size then ok (record mem { memo = update mem.memo i value }) else undefined

-- The big-endian loop of `memory_read_word`, with `n` rounds left, and its two rounds in
-- `memory_read_half`: `tmp2 = (tmp2 << 8) | tmp1`.
unfoldable pub gather : Memory → ℕ → ℕ → ℕ → Outcome ℕ
gather mem zero i tmp2 = ok tmp2
gather mem (suc n) i tmp2 = do
  tmp1 ← load_cell mem i
  gather mem n (i + 1) (bit_or (shl32 tmp2 8) tmp1)

-- The big-endian stores: the byte `value >> 8 * (n - 1)` at `i`, and so on.
unfoldable pub scatter : Memory → ℕ → ℕ → ℕ → Outcome Memory
scatter mem zero i value = ok mem
scatter mem (suc n) i value = do
  mem' ← store_cell mem i (value / 2 ^ (8 * n) % 2 ^ 8)
  scatter mem' n (i + 1) value

-- `*(uint16_t *)` and `*(uint32_t *)`, `i` bytes from the start: `n` bytes from there on, the last
-- one being the most significant on a little-endian host.
unfoldable pub gather_low : Memory → ℕ → ℕ → Outcome ℕ
gather_low mem zero i = ok 0
gather_low mem (suc n) i = do
  low ← load_cell mem i
  high ← gather_low mem n (i + 1)
  ok (low + 2 ^ 8 * high)

unfoldable pub scatter_low : Memory → ℕ → ℕ → ℕ → Outcome Memory
scatter_low mem zero i value = ok mem
scatter_low mem (suc n) i value = do
  mem' ← store_cell mem i (value % 2 ^ 8)
  scatter_low mem' n (i + 1) (value / 2 ^ 8)

-- What a read gives back: the status, and the content of `*value` after it.
pub record Read : Type 0 where
  pub status : ℕ
  pub value : ℕ

-- What a write gives back.
pub record Written : Type 0 where
  pub status : ℕ
  pub mem : Memory

unfoldable pub memory_read_byte : Memory → ℕ → ℕ → Outcome Read
memory_read_byte mem address value =
    if ltb address mem.size
    then (load_cell mem address >>= λ v. ok (record { status = 0; value = v }))
    else ok (record { status = minus_one; value = value })

unfoldable pub memory_write_byte : Memory → ℕ → ℕ → Outcome Written
memory_write_byte mem address value =
    if ltb address mem.size
    then (store_cell mem address value >>= λ m. ok (record { status = 0; mem = m }))
    else ok (record { status = minus_one; mem = mem })

module _ (host : Host) where
  -- Access to `n` bytes in the byte order of the host.
  unfoldable pub load_native : Memory → ℕ → ℕ → Outcome ℕ
  load_native mem n i = if host.big_endian then gather mem n i 0 else gather_low mem n i

  unfoldable pub store_native : Memory → ℕ → ℕ → ℕ → Outcome Memory
  store_native mem n i value =
      if host.big_endian then scatter mem n i value else scatter_low mem n i value

  -- A half-word is two bytes and a word four. The little-endian access adds `address` to a pointer
  -- to half-words or words.
  unfoldable pub memory_read : ℕ → Memory → ℕ → ℕ → Outcome Read
  memory_read n mem address value =
      if ltb address mem.size
      then ((if mem.is_big_endian then gather mem n address 0 else load_native mem n (n * address))
          >>= λ v. ok (record { status = 0; value = v }))
      else ok (record { status = minus_one; value = value })

  unfoldable pub memory_write : ℕ → Memory → ℕ → ℕ → Outcome Written
  memory_write n mem address value =
      if ltb address mem.size
      then ((if mem.is_big_endian
            then scatter mem n address value
            else store_native mem n (n * address) value)
          >>= λ m. ok (record { status = 0; mem = m }))
      else ok (record { status = minus_one; mem = mem })

  abbrev pub memory_read_half : Memory → ℕ → ℕ → Outcome Read
  memory_read_half = memory_read 2

  abbrev pub memory_read_word : Memory → ℕ → ℕ → Outcome Read
  memory_read_word = memory_read 4

  abbrev pub memory_write_half : Memory → ℕ → ℕ → Outcome Written
  memory_write_half = memory_write 2

  abbrev pub memory_write_word : Memory → ℕ → ℕ → Outcome Written
  memory_write_word = memory_write 4
