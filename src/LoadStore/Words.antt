-- ===== src/LoadStore/Words.antt =====
-- Words through the loads and stores of one register.
use projet_prog.Base.{ℕ, ◌≡◌, true, false, if◌then◌else◌, truthy}
use projet_prog.Bits.{get_bit}
use projet_prog.Word.{add32, sub32}
use projet_prog.Constants.{p_bit, u_bit, b_bit, w_bit}
use projet_prog.Util.{get_bits}
use projet_prog.Memory.BigEndian.{big_endian_at}
use projet_prog.Core.{Core, arm_read_register}
use projet_prog.LoadStore.{est_immediate}

-- The transfer of a word at an offset from the base register, which is kept.
pub record IsOffset (ins : ℕ) : Type 0 where
  pub before : truthy (get_bit ins p_bit) ≡ true
  pub kept : truthy (get_bit ins w_bit) ≡ false
  pub word : truthy (get_bit ins b_bit) ≡ false

-- The address.
abbrev pub offset_address : Core → ℕ → ℕ
offset_address p ins =
    let rn = arm_read_register p (get_bits ins 19 16) in
    if truthy (get_bit ins u_bit)
    then add32 rn (est_immediate ins p)
    else sub32 rn (est_immediate ins p)

-- The processor after a store.
abbrev pub with_word : Core → ℕ → ℕ → Core
with_word p address value = record p {
  mem = record p.mem { memo = big_endian_at p.mem.memo 4 address value };
}
