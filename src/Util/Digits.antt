-- ===== src/Util/Digits.antt =====
-- The digits that `update_nz` and `update_cv` leave, and the word that `update_flags` makes of them.
use projet_prog.Base.{
  ℕ, zero, suc, ◌+◌, ◌%◌, ◌≤◌, ◌<◌, ◌≡◌, refl, ap, ◌∙◌, arith, if◌then◌else◌, ◌==◌, bit_xor, Bool,
  true, false, leb, to_int,
}
use projet_prog.Bits.{get_bit}
use projet_prog.Word.{IsWord}
use projet_prog.Constants.{n_flag, z_flag, c_flag, v_flag}
use projet_prog.Util.{
  mod_bit, RegFields, carry_limit, last_carry, carry_out, update_nz, update_cv, update_flags,
}
use projet_prog.Util.Bit.{
  get_bit-set_bit, get_bit-clr_bit, get_bit-mod_bit, get_bit-le, set_bit-IsWord, clr_bit-IsWord,
  mod_bit-IsWord,
}

pub get_bit-update_nz :
    (reg res j : ℕ)
    → j < 32
    → get_bit (update_nz reg res) j ≡ (
        if z_flag == j
        then (if res == 0 then 1 else 0)
        else if n_flag == j
        then get_bit res 31
        else get_bit reg j)
unfolding update_nz
get_bit-update_nz reg res j h =
    let reg1 = mod_bit reg (get_bit res 31) n_flag in
    ground (
      arith,
      get_bit-mod_bit reg (get_bit res 31) n_flag j (get_bit-le res 31),
      get_bit-set_bit reg1 z_flag j,
      get_bit-clr_bit reg1 z_flag j,
    )

pub bit_xor_digits : (a b : ℕ) → a ≤ 1 → b ≤ 1 → bit_xor a b ≡ (a + b) % 2
bit_xor_digits zero zero p q = refl
bit_xor_digits zero (suc zero) p q = refl
bit_xor_digits (suc zero) zero p q = refl
bit_xor_digits (suc zero) (suc zero) p q = refl
bit_xor_digits a (suc (suc b)) p q = absurd (omega arith)
bit_xor_digits (suc (suc a)) b p q = absurd (omega arith)

to_int-le : (b : Bool) → to_int b ≤ 1
to_int-le b = ground arith

-- The carry that `update_cv` computes.
abbrev pub new_carry : ℕ → RegFields → ℕ
new_carry reg rf = if leb rf.sop (carry_limit rf.rn_val (carry_out reg rf)) then 0 else 1

choose_carry :
    (reg : ℕ) (b : Bool)
    → (if b then mod_bit reg 0 c_flag else mod_bit reg 1 c_flag)
      ≡ mod_bit reg (if b then 0 else 1) c_flag
choose_carry reg true = refl
choose_carry reg false = refl

module _ (reg : ℕ) (rf : RegFields) (res : ℕ) where
  with_carry : ℕ
  with_carry = mod_bit reg (new_carry reg rf) c_flag

  get_bit-with_carry :
      (j : ℕ)
      → j < 32
      → get_bit with_carry j ≡ (if c_flag == j then new_carry reg rf else get_bit reg j)
  unfolding with_carry
  get_bit-with_carry j h =
      get_bit-mod_bit reg (new_carry reg rf) c_flag j (ground arith) (omega arith) h

  update_cv_lem :
      update_cv reg rf res ≡ mod_bit with_carry ((last_carry rf res + new_carry reg rf) % 2) v_flag
  unfolding update_cv with_carry
  update_cv_lem = rw (choose_carry reg (leb rf.sop (carry_limit rf.rn_val (carry_out reg rf)))) (
      ap (λ t. mod_bit with_carry t v_flag)
        (ap (bit_xor (last_carry rf res)) (get_bit-with_carry c_flag (omega arith))
          ∙ bit_xor_digits (last_carry rf res) (new_carry reg rf) (to_int-le _) (ground arith)))

  pub get_bit-update_cv :
      (j : ℕ)
      → j < 32
      → get_bit (update_cv reg rf res) j ≡ (
          if v_flag == j
          then (last_carry rf res + new_carry reg rf) % 2
          else if c_flag == j
          then new_carry reg rf
          else get_bit reg j)
  get_bit-update_cv j h = rw update_cv_lem (
      get_bit-mod_bit with_carry ((last_carry rf res + new_carry reg rf) % 2) v_flag j (omega arith)
        (omega arith) h
      ∙ ap (λ t. if v_flag == j then (last_carry rf res + new_carry reg rf) % 2 else t)
          (get_bit-with_carry j h))

update_nz-IsWord : (reg res : ℕ) → IsWord reg → IsWord (update_nz reg res)
unfolding update_nz
update_nz-IsWord reg res h =
    let reg1 = mod_bit reg (get_bit res 31) n_flag in
    let h1 : IsWord reg1 = mod_bit-IsWord reg (get_bit res 31) n_flag h (omega arith) in
    ground (arith, set_bit-IsWord reg1 z_flag h1, clr_bit-IsWord reg1 z_flag h1)

update_cv-IsWord : (reg : ℕ) (rf : RegFields) (res : ℕ) → IsWord reg → IsWord (update_cv reg rf res)
update_cv-IsWord reg rf res h = rw (update_cv_lem reg rf res) (
    mod_bit-IsWord (with_carry reg rf res) ((last_carry rf res + new_carry reg rf) % 2) v_flag
      (unfold with_carry in (mod_bit-IsWord reg (new_carry reg rf) c_flag h (omega arith)))
      (omega arith))

-- The flag update yields a 32-bit word.
pub update_flags-IsWord :
    (reg : ℕ) (rf : RegFields) (res sco : ℕ) → IsWord reg → IsWord (update_flags reg rf res sco)
unfolding update_flags
update_flags-IsWord reg rf res sco h =
    let h1 = update_nz-IsWord reg res h in
    ground (
      arith,
      mod_bit-IsWord (update_nz reg res) sco c_flag h1 (omega arith),
      update_cv-IsWord (update_nz reg res) rf res h1,
    )

-- Whatever the operation, only the four flags change.
pub get_bit-update_flags :
    (reg : ℕ) (rf : RegFields) (res sco i : ℕ)
    → i < 28
    → get_bit (update_flags reg rf res sco) i ≡ get_bit reg i
unfolding update_flags mod_bit
get_bit-update_flags reg rf res sco i h =
    let reg1 = update_nz reg res in
    ground (
      arith,
      get_bit-set_bit reg1 c_flag i,
      get_bit-clr_bit reg1 c_flag i,
      get_bit-update_cv reg1 rf res i,
      get_bit-update_nz reg res i,
    )
