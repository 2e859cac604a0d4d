-- ===== src/Memory/Bounds.antt =====
-- Accesses that do not lie within the memory.
use projet_prog.Memory.BigEndian.{byte}
use projet_prog.Base.{
  ℕ, zero, suc, ◌+◌, ◌≤◌, ◌<◌, ◌≡◌, arith, true, if◌then◌else◌, ltb, leb, lt→ltb, le→ltb,
  Bool-cases, inl, inr, ok, undefined,
}
use projet_prog.Word.{Host, minus_one}
use projet_prog.Memory.{
  Memory, update, load_cell, store_cell, gather, scatter, memory_read, memory_write,
}

-- An access that starts in the memory and ends outside of it.
gather_over :
    (mem : Memory) (n i tmp : ℕ) → i ≤ mem.size → mem.size < i + n → gather mem n i tmp ≡ undefined
unfolding gather load_cell
gather_over mem zero i tmp p q = absurd (omega arith)
gather_over mem (suc n) i tmp p q = elim (Bool-cases (ltb i mem.size)) [
  | inl e ↦ rw e (gather_over mem n (i + 1) _ (ground arith) (omega arith))
  | inr e ↦ rw e
]

scatter_over :
    (mem : Memory) (n i value : ℕ)
    → i ≤ mem.size
    → mem.size < i + n
    → scatter mem n i value ≡ undefined
unfolding scatter store_cell
scatter_over mem zero i value p q = absurd (omega arith)
scatter_over mem (suc n) i value p q = elim (Bool-cases (ltb i mem.size)) [
  | inl e ↦ rw e (
      scatter_over (record mem { memo = update mem.memo i (byte value n) }) n (i + 1) value
        (ground arith) (omega arith))
  | inr e ↦ rw e
]

-- An access to a big-endian memory that does not lie within it: only the first byte's address is
-- checked, so at or past the end both accesses fail with -1 and change nothing, and between there
-- and `n` bytes before both go out of the block.
pub memory_bounds :
    (host : Host) (mem : Memory) (n address value : ℕ)
    → mem.is_big_endian ≡ true
    → mem.size < address + n
    → (memory_read host n mem address value ≡ (
        if leb mem.size address
        then ok (record { status = minus_one; value = value })
        else undefined))
      × (memory_write host n mem address value ≡ (
          if leb mem.size address
          then ok (record { status = minus_one; mem = mem })
          else undefined))
unfolding memory_read memory_write
memory_bounds host mem n address value be q = elim (Bool-cases (leb mem.size address)) [
  | inl e ↦
      let past : mem.size ≤ address = ground arith in
      (rw (e, le→ltb address mem.size past), rw (e, le→ltb address mem.size past))
  | inr e ↦
      let within : address < mem.size = ground arith in
      (
        rw (e, lt→ltb address mem.size within, gather_over mem n address 0 (omega arith) q, be),
        rw (
          e,
          lt→ltb address mem.size within,
          scatter_over mem n address value (omega arith) q,
          be,
        ),
      )
]
