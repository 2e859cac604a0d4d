-- ===== src/Registers/Bank.antt =====
-- The banks of the register file: one table of places for the switches of registers.c.
use mathlib.Core.Option
use projet_prog.Base.{
  ℕ, ◌+◌, ◌-◌, ◌≤◌, ◌<◌, ◌≡◌, arith, Bool, true, ◌&&◌, ◌||◌, if◌then◌else◌, ◌==◌, leb, Option, none,
  some,
}
use projet_prog.Constants.{
  usr, fiq, irq, svc, abt, und, sys, r13_svc, r13_abt, r13_und, r13_irq, r13_fiq,
}
use projet_prog.Registers.{
  Registers, store, get_mode, read_spsr, read_fiq_bank, read_r13, read_r14, read_register,
  write_spsr, write_fiq_bank, write_r13, write_r14, write_register,
}

-- The first of the three places (r13, r14 and SPSR) that a mode has for itself.
abbrev pub own_places : ℕ → Option ℕ
own_places mode =
    if mode == svc
    then some r13_svc
    else if mode == abt
    then some r13_abt
    else if mode == und
    then some r13_und
    else if mode == irq
    then some r13_irq
    else if mode == fiq
    then some r13_fiq
    else none

abbrev pub has_user_bank : ℕ → Bool
has_user_bank mode = mode == usr || mode == sys

-- Where the register `reg` (16 for the CPSR, 17 for the SPSR) is kept in the mode `mode`.
unfoldable pub place : ℕ → ℕ → Option ℕ
place mode reg =
    if leb reg 7 || (reg == 15 || reg == 16)
    then some reg
    else if leb reg 12
    then some (if mode == fiq then (if reg == 9 then 20 else reg + 21) else reg)
    else if leb reg 14
    then if has_user_bank mode then some reg else Option.map (λ b. b + (reg - 13)) (own_places mode)
    else if reg == 17
    then Option.map (λ b. b + 2) (own_places mode)
    else none

abbrev pub at_place : Registers → Option ℕ → ℕ
at_place r none = 0
at_place r (some i) = r.reg_number i

abbrev pub store_place : Registers → Option ℕ → ℕ → Registers
store_place r none value = r
store_place r (some i) value = store r i value

-- A write that the switch over the FIQ bank loses.
abbrev pub is_lost : ℕ → ℕ → Bool
is_lost mode reg = mode == fiq && (leb 8 reg && leb reg 12)

read_r13-place : (r : Registers) (mode : ℕ) → read_r13 r mode ≡ at_place r (place mode 13)
unfolding place read_r13
read_r13-place r mode = ground arith

read_r14-place : (r : Registers) (mode : ℕ) → read_r14 r mode ≡ at_place r (place mode 14)
unfolding place read_r14
read_r14-place r mode = ground arith

read_spsr-place : (r : Registers) → read_spsr r ≡ at_place r (place (get_mode r) 17)
unfolding place read_spsr
read_spsr-place r = ground arith

read_middle-place :
    (r : Registers) (reg mode : ℕ)
    → 8 ≤ reg
    → reg ≤ 12
    → (if mode == fiq then read_fiq_bank r reg else r.reg_number reg) ≡ at_place r (place mode reg)
unfolding place read_fiq_bank
read_middle-place r reg mode p q = ground arith

read_low-place :
    (r : Registers) (reg mode : ℕ)
    → (leb reg 7 || (reg == 15 || reg == 16)) ≡ true
    → r.reg_number reg ≡ at_place r (place mode reg)
unfolding place
read_low-place r reg mode h = rw h

read_high-place : (r : Registers) (reg mode : ℕ) → 18 ≤ reg → 0 ≡ at_place r (place mode reg)
unfolding place
read_high-place r reg mode h = ground arith

-- A read gives what the place of the register in the current mode holds, and 0 without a place.
pub read_register-place :
    (r : Registers) (reg : ℕ) → read_register r reg ≡ at_place r (place (get_mode r) reg)
unfolding read_register
read_register-place r reg = ground (
  arith,
  read_low-place r reg (get_mode r),
  read_middle-place r reg (get_mode r),
  read_r13-place r (get_mode r),
  read_r14-place r (get_mode r),
  read_spsr-place r,
  read_high-place r reg (get_mode r),
)

-- A write stores at the place of the register in the current mode, changes nothing without a place,
-- and changes nothing for r8 to r12 in the FIQ mode.
pub write_register-place :
    (r : Registers) (reg value : ℕ)
    → write_register r reg value
      ≡ (if is_lost (get_mode r) reg then r else store_place r (place (get_mode r) reg) value)
unfolding write_register place write_fiq_bank write_r13 write_r14 write_spsr
write_register-place r reg value = ground arith

pub place-lt : (mode reg : ℕ) {i : ℕ} → place mode reg ≡ some i → i < 37
unfolding place
place-lt mode reg h = ground arith

pub place-injective :
    (mode reg reg' : ℕ) {i : ℕ} → place mode reg ≡ some i → place mode reg' ≡ some i → reg ≡ reg'
unfolding place
place-injective mode reg reg' h h' = ground arith
