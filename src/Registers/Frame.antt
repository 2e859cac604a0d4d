-- ===== src/Registers/Frame.antt =====
-- What a write of a register changes for the reads that follow, in the same mode and in others.
use projet_prog.Base.{
  ℕ, ◌≤◌, ◌≡◌, ◌≢◌, refl, sym, ap, ◌∙◌, arith, Bool, true, false, if◌then◌else◌, ==_ne, Option,
  none, some,
}
use projet_prog.Constants.{fiq}
use projet_prog.Registers.{Registers, store, get_mode, read_register, write_register}
use projet_prog.Registers.Bank.{
  place, at_place, store_place, is_lost, read_register-place, write_register-place, place-injective,
}

place-cpsr : (mode : ℕ) → place mode 16 ≡ some 16
unfolding place
place-cpsr mode = refl

pub place-ne_cpsr : (mode reg : ℕ) {i : ℕ} → reg ≢ 16 → place mode reg ≡ some i → i ≢ 16
place-ne_cpsr mode reg {i} ne h e =
    ne (place-injective mode reg 16 h (place-cpsr mode ∙ ap some (sym e)))

get_mode-store : (r : Registers) (i value : ℕ) → i ≢ 16 → get_mode (store r i value) ≡ get_mode r
get_mode-store r i value h = rw (==_ne i 16 h)

-- Only a write of the CPSR changes the mode.
pub get_mode-write_register :
    (r : Registers) (reg value : ℕ) → reg ≢ 16 → get_mode (write_register r reg value) ≡ get_mode r
get_mode-write_register r reg value ne =
    rw (write_register-place r reg value)
      (go (is_lost (get_mode r) reg) (place (get_mode r) reg) refl)
  where
    go :
        (b : Bool) (p : Option ℕ)
        → place (get_mode r) reg ≡ p
        → get_mode (if b then r else store_place r p value) ≡ get_mode r
    go true p e = refl
    go false none e = refl
    go false (some i) e = get_mode-store r i value (place-ne_cpsr (get_mode r) reg ne e)

-- A register that was written reads back in the same mode, if the mode has a place for it and the
-- write is not one of those that the FIQ bank loses.
pub read-write_self :
    (r : Registers) (reg value : ℕ) {i : ℕ}
    → reg ≢ 16
    → is_lost (get_mode r) reg ≡ false
    → place (get_mode r) reg ≡ some i
    → read_register (write_register r reg value) reg ≡ value
read-write_self r reg value {i} ne kept h =
    rw
      (
        read_register-place (write_register r reg value) reg,
        get_mode-write_register r reg value ne,
        h,
        write_register-place r reg value,
        kept,
        h,
      )
      (ground arith)

-- A write of a register but the CPSR leaves every other register of the mode as it was.
pub read-write_ne :
    (r : Registers) (reg reg' value : ℕ)
    → reg ≢ 16
    → reg ≢ reg'
    → read_register (write_register r reg value) reg' ≡ read_register r reg'
read-write_ne r reg reg' value ne diff =
    rw
      (
        read_register-place (write_register r reg value) reg',
        read_register-place r reg',
        get_mode-write_register r reg value ne,
        write_register-place r reg value,
      )
      (apart (is_lost mode reg) (place mode reg) (place mode reg') refl refl)
  where
    mode : ℕ
    mode = get_mode r

    apart :
        (b : Bool) (p p' : Option ℕ)
        → place mode reg ≡ p
        → place mode reg' ≡ p'
        → at_place (if b then r else store_place r p value) p' ≡ at_place r p'
    apart true p p' e e' = refl
    apart false none p' e e' = refl
    apart false (some i) none e e' = refl
    apart false (some i) (some j) e e' =
        rw (==_ne i j (λ q. diff (place-injective mode reg reg' e (e' ∙ ap some (sym q)))))

-- In the FIQ mode a write of r8 to r12 does nothing.
pub write_register-fiq_lost :
    (r : Registers) (reg value : ℕ)
    → get_mode r ≡ fiq
    → 8 ≤ reg
    → reg ≤ 12
    → write_register r reg value ≡ r
write_register-fiq_lost r reg value m p q = rw (write_register-place r reg value) (ground arith)
