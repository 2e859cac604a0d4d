-- ===== src/Registers/Words.antt =====
-- The register file holds 32-bit words: every write of a word keeps that, and every read gives one.
use projet_prog.Base.{
  ℕ, arith, Bool, true, false, if◌then◌else◌, Option, none, some, ap, fun_ext, ◌≡◌, ◌==◌,
  Bool-cases, ==_iff, inl, inr, refl,
}
use projet_prog.Word.{IsWord}
use projet_prog.Registers.{
  Registers, store, get_mode, read_spsr, read_register, write_register, write_usr_register,
  write_cpsr, write_spsr,
}
use projet_prog.Registers.Bank.{
  place, at_place, store_place, is_lost, read_register-place, write_register-place,
}

abbrev pub HoldsWords : Registers → Type 0
HoldsWords r = (i : ℕ) → IsWord (r.reg_number i)

store-HoldsWords :
    (r : Registers) (i value : ℕ) → HoldsWords r → IsWord value → HoldsWords (store r i value)
store-HoldsWords r i value h w j = ground (arith, h j)

pub write_register-HoldsWords :
    (r : Registers) (reg value : ℕ)
    → HoldsWords r
    → IsWord value
    → HoldsWords (write_register r reg value)
write_register-HoldsWords r reg value h w =
    rw (write_register-place r reg value) (go (is_lost (get_mode r) reg) (place (get_mode r) reg))
  where
    go : (b : Bool) (o : Option ℕ) → HoldsWords (if b then r else store_place r o value)
    go true o = h
    go false none = h
    go false (some i) = store-HoldsWords r i value h w

pub write_spsr-HoldsWords :
    (r : Registers) (value : ℕ) → HoldsWords r → IsWord value → HoldsWords (write_spsr r value)
unfolding write_register
write_spsr-HoldsWords r value h w = write_register-HoldsWords r 17 value h w

pub write_cpsr-HoldsWords :
    (r : Registers) (value : ℕ) → HoldsWords r → IsWord value → HoldsWords (write_cpsr r value)
unfolding write_cpsr
write_cpsr-HoldsWords r value h w = store-HoldsWords r 16 value h w

pub write_usr_register-HoldsWords :
    (r : Registers) (reg value : ℕ)
    → HoldsWords r
    → IsWord value
    → HoldsWords (write_usr_register r reg value)
unfolding write_usr_register
write_usr_register-HoldsWords r reg value h w j =
    ground (arith, store-HoldsWords r reg value h w j, h j)

pub read_register-IsWord : (r : Registers) (reg : ℕ) → HoldsWords r → IsWord (read_register r reg)
read_register-IsWord r reg h = rw (read_register-place r reg) (go (place (get_mode r) reg))
  where
    go : (o : Option ℕ) → IsWord (at_place r o)
    go none = omega arith
    go (some i) = h i

pub read_spsr-IsWord : (r : Registers) → HoldsWords r → IsWord (read_spsr r)
unfolding read_register
read_spsr-IsWord r h = read_register-IsWord r 17 h

pub store_self : (r : Registers) (i : ℕ) → store r i (r.reg_number i) ≡ r
store_self r i = ap (λ (f : ℕ → ℕ). record { reg_number = f }) (fun_ext same)
  where
    same : (j : ℕ) → (if i == j then r.reg_number i else r.reg_number j) ≡ r.reg_number j
    same j = elim (Bool-cases (i == j)) [
      | inl e ↦ rw e (ap r.reg_number ((==_iff i j).0 e))
      | inr e ↦ rw e
    ]

-- To write what is there changes nothing.
pub write_register-read_register :
    (r : Registers) (reg : ℕ) → write_register r reg (read_register r reg) ≡ r
write_register-read_register r reg =
    rw (write_register-place r reg (read_register r reg), read_register-place r reg)
      (go (is_lost (get_mode r) reg) (place (get_mode r) reg))
  where
    go : (b : Bool) (o : Option ℕ) → (if b then r else store_place r o (at_place r o)) ≡ r
    go true o = refl
    go false none = refl
    go false (some i) = store_self r i
