-- ===== src/LoadStore/Stack.antt =====
-- A word pushed on a stack and popped off it: a store that moves the base register down before it, and
-- a load that moves it up again after it.
use projet_prog.Base.{
  ℕ, ◌+◌, ◌*◌, ◌≤◌, ◌≡◌, ◌≢◌, ◌⊎◌, inl, inr, sym, ap, subst, ◌∙◌, arith, Bool, true, false,
  if◌then◌else◌, truthy, some, ok,
}
use projet_prog.Bits.{get_bit}
use projet_prog.Word.{Host, IsWord, add32, sub32}
use projet_prog.Constants.{i_bit, p_bit, u_bit, b_bit, w_bit, l_bit}
use projet_prog.Util.{get_bits, cond_valid}
use projet_prog.Memory.{Memory, memory_read, memory_write}
use projet_prog.Memory.BigEndian.{big_endian_at, memory_write-read}
use projet_prog.Memory.LittleEndian.{little_endian_at, memory_write-read_little}
use projet_prog.Registers.{Registers, get_mode, read_register, write_register}
use projet_prog.Registers.Bank.{place, is_lost}
use projet_prog.Registers.Frame.{get_mode-write_register, read-write_self, read-write_ne}
use projet_prog.Core.{Core, arm_read_register, arm_write_register, arm_write_word}
use projet_prog.LoadStore.{Unset, est_immediate, indexed, laod_stot_byte_word, byte_word}

-- An address at which a word lies within the memory.
abbrev pub WordFits : Host → Memory → ℕ → Type 0
WordFits host mem address =
    ((mem.is_big_endian ≡ true) × (address + 4 ≤ mem.size))
    ⊎ ((mem.is_big_endian ≡ false) × (host.big_endian ≡ false) × (4 * address + 4 ≤ mem.size))

-- The memory with a word at an address.
abbrev pub put_word : Memory → ℕ → ℕ → Memory
put_word mem address value = record mem {
  memo =
      if mem.is_big_endian
      then big_endian_at mem.memo 4 address value
      else little_endian_at mem.memo 4 (4 * address) value;
}

pub write-read_word :
    (host : Host) (mem : Memory) (address value old : ℕ)
    → WordFits host mem address
    → IsWord value
    → (memory_write host 4 mem address value
        ≡ ok (record { status = 0; mem = put_word mem address value }))
      × (memory_read host 4 (put_word mem address value) address old
          ≡ ok (record { status = 0; value = value }))
write-read_word host mem address value old fits w = go fits
  where
    both : (ℕ → ℕ) → Type 0
    both memo =
        (memory_write host 4 mem address value
          ≡ ok (record { status = 0; mem = record mem { memo = memo } }))
        × (memory_read host 4 (record mem { memo = memo }) address old
            ≡ ok (record { status = 0; value = value }))

    content : Bool → ℕ → ℕ
    content b =
        if b
        then big_endian_at mem.memo 4 address value
        else little_endian_at mem.memo 4 (4 * address) value

    go : WordFits host mem address → both (content mem.is_big_endian)
    go (inl (e, f)) =
        subst (λ b. both (content b)) (sym e)
          (memory_write-read host mem 4 address value old e (omega arith) f w (omega (arith, w)))
    go (inr (e, e', f)) =
        subst (λ b. both (content b)) (sym e)
          (memory_write-read_little host mem 4 address value old e e' (omega arith) f
            (omega (arith, w)))

-- A transfer of a word with an immediate offset whose condition, tested on the instruction, holds.
abbrev pub IsWordTransfer : ℕ → Type 0
IsWordTransfer ins =
    (truthy (get_bit ins i_bit) ≡ false)
    × (truthy (get_bit ins b_bit) ≡ false)
    × (truthy (cond_valid (get_bits ins 31 28) ins) ≡ true)

-- STR rd, [rn, #-k]!
pub record IsPush (ins : ℕ) : Type 0 where
  pub transfer : IsWordTransfer ins
  pub store : truthy (get_bit ins l_bit) ≡ false
  pub before : truthy (get_bit ins p_bit) ≡ true
  pub down : truthy (get_bit ins u_bit) ≡ false
  pub moves : truthy (get_bit ins w_bit) ≡ true

-- LDR rd, [rn], #k
pub record IsPop (ins : ℕ) : Type 0 where
  pub transfer : IsWordTransfer ins
  pub load : truthy (get_bit ins l_bit) ≡ true
  pub after : truthy (get_bit ins p_bit) ≡ false
  pub up : truthy (get_bit ins u_bit) ≡ true
  pub moves : truthy (get_bit ins w_bit) ≡ false

abbrev pub offset_of : ℕ → ℕ
offset_of ins = get_bits ins 11 0

module _ (host : Host) (unset : Unset) where
  pub push_lem :
      (p : Core) (ins value : ℕ)
      → IsPush ins
      → let rn = get_bits ins 19 16 in
        let moved = sub32 (arm_read_register p rn) (offset_of ins) in
        let p1 = arm_write_register p rn moved in
        arm_read_register p1 rn ≡ moved
        → arm_read_register p1 (get_bits ins 15 12) ≡ value
        → memory_write host 4 p.mem moved value
          ≡ ok (record { status = 0; mem = put_word p.mem moved value })
        → byte_word host unset p ins
          ≡ ok (record { status = 0; core = record p1 { mem = put_word p.mem moved value } })
  unfolding byte_word indexed est_immediate laod_stot_byte_word arm_write_word
  push_lem p ins value h e e' w =
      rw (h.transfer.0, h.transfer.1, h.transfer.2, h.store, h.before, h.down, h.moves, e, e', w)

  pub pop_lem :
      (p : Core) (ins value : ℕ)
      → IsPop ins
      → let rn = get_bits ins 19 16 in
        memory_read host 4 p.mem (arm_read_register p rn) unset.val
          ≡ ok (record { status = 0; value = value })
        → byte_word host unset p ins
          ≡ ok (record {
            status = 0;
            core =
                arm_write_register
                  (arm_write_register p (get_bits ins 15 12) value)
                  rn
                  (add32 (arm_read_register p rn) (offset_of ins));
          })
  unfolding byte_word indexed est_immediate laod_stot_byte_word
  pop_lem p ins value h r =
      rw (h.transfer.0, h.transfer.1, h.transfer.2, h.load, h.after, h.up, h.moves, r)

-- The registers after the two moves of the base register `rn` and the load of `rd` between them.
abbrev pub three_writes : Registers → ℕ → ℕ → ℕ → ℕ → ℕ → Registers
three_writes r rn moved rd value back =
    write_register (write_register (write_register r rn moved) rd value) rn back

module _ (r : Registers) (rn moved rd value back : ℕ) (status : rn ≢ 16) (status' : rd ≢ 16) where
  pub read_base :
      {i : ℕ}
      → is_lost (get_mode r) rn ≡ false
      → place (get_mode r) rn ≡ some i
      → read_register (three_writes r rn moved rd value back) rn ≡ back
  read_base kept h =
      let m : get_mode (write_register (write_register r rn moved) rd value) ≡ get_mode r =
        get_mode-write_register (write_register r rn moved) rd value status'
        ∙ get_mode-write_register r rn moved status in
      read-write_self (write_register (write_register r rn moved) rd value) rn back status
        (ap (λ m. is_lost m rn) m ∙ kept) (ap (λ m. place m rn) m ∙ h)

  pub read_loaded :
      {i : ℕ}
      → rd ≢ rn
      → is_lost (get_mode r) rd ≡ false
      → place (get_mode r) rd ≡ some i
      → read_register (three_writes r rn moved rd value back) rd ≡ value
  read_loaded ne kept h =
      let m = get_mode-write_register r rn moved status in
      read-write_ne (write_register (write_register r rn moved) rd value) rn rd back status
        (λ e. ne (sym e))
      ∙ read-write_self (write_register r rn moved) rd value status'
          (ap (λ m. is_lost m rd) m ∙ kept) (ap (λ m. place m rd) m ∙ h)

  pub read_others :
      (reg : ℕ)
      → reg ≢ rn
      → reg ≢ rd
      → read_register (three_writes r rn moved rd value back) reg ≡ read_register r reg
  read_others reg ne ne' =
      read-write_ne (write_register (write_register r rn moved) rd value) rn reg back status
        (λ e. ne (sym e))
      ∙ read-write_ne (write_register r rn moved) rd reg value status' (λ e. ne' (sym e))
      ∙ read-write_ne r rn reg moved status (λ e. ne (sym e))
