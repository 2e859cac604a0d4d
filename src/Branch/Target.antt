-- ===== src/Branch/Target.antt =====
-- Where a branch goes.
use projet_prog.Base.{
  ℕ, ◌+◌, ◌-◌, ◌*◌, ◌%◌, ◌^◌, ◌<◌, ◌≡◌, refl, ◌∙◌, arith, true, if◌then◌else◌, truthy, bit_or, ltb,
  Bool-cases, inl, inr,
}
use projet_prog.Bits.{get_bit, bit_or_disjoint, bit_or_comm}
use projet_prog.Word.{IsWord, word, add32, sub32, shl32, not32}
use projet_prog.Util.{get_bits, cond_valid, jmp_calc}
use projet_prog.Constants.{lr, pc}
use projet_prog.Registers.{write_register, write_r14}
use projet_prog.Core.{Core, arm_read_register, arm_read_cpsr, arm_write_register}
use projet_prog.Core.Pc.{arm_read_register-pc}
use projet_prog.Branch.{arm_branch}

-- The displacement in bytes of a 24-bit signed count of words, modulo 2 ^ 32.
abbrev pub displacement : ℕ → ℕ
displacement t = if ltb t (2 ^ 23) then 4 * t else 2 ^ 32 - 4 * (2 ^ 24 - t)

pub jmp_calc-displacement : (t : ℕ) → t < 2 ^ 24 → jmp_calc t (get_bit t 23) ≡ displacement t
unfolding jmp_calc
jmp_calc-displacement t h =
    let above : shl32 (not32 0) 24 ≡ 255 * 2 ^ 24 = refl in
    let e : bit_or (255 * 2 ^ 24) t ≡ t + 255 * 2 ^ 24 =
      bit_or_comm 32 (255 * 2 ^ 24) t (omega arith) (omega arith) ∙ bit_or_disjoint 24 t 255 h in
    ground (arith, e)

pc-write_lr :
    (p : Core) (value : ℕ) → (arm_write_register p lr value).reg.reg_number 15 ≡ p.reg.reg_number 15
unfolding write_register write_r14
pc-write_lr p value = ground arith

-- The target of a branch, from any processor with the same program counter.
target :
    (q : Core) (here t : ℕ)
    → q.reg.reg_number 15 ≡ here
    → IsWord here
    → here % 4 ≡ 0
    → t < 2 ^ 24
    → add32 (arm_read_register q pc) (jmp_calc t (get_bit t 23)) ≡ word (here + 4 + displacement t)
target q here t e w h l =
    rw (jmp_calc-displacement t l, arm_read_register-pc q (rw e w) (rw e h), e) (omega arith)

-- A branch whose condition holds, run from a word-aligned program counter (which the fetch has
-- moved to the address after the instruction's), jumps to 4 bytes past it plus the signed word
-- displacement; with the link bit set the link register first gets that program counter.
pub arm_branch_lem :
    (p : Core) (ins : ℕ)
    → IsWord (p.reg.reg_number 15)
    → p.reg.reg_number 15 % 4 ≡ 0
    → truthy (cond_valid (get_bits ins 31 28) (arm_read_cpsr p)) ≡ true
    → let linked =
        if truthy (get_bit ins 24) then arm_write_register p lr (p.reg.reg_number 15) else p in
      arm_branch p ins ≡ record {
        status = 0;
        core =
            arm_write_register linked pc
              (word (p.reg.reg_number 15 + 4 + displacement (get_bits ins 23 0)));
      }
unfolding arm_branch
arm_branch_lem p ins w h c = elim (Bool-cases (truthy (get_bit ins 24))) [
  | inl e ↦ rw (c, e, link, target linked here t (pc-write_lr p here) w h (omega arith))
  | inr e ↦ rw (c, e, target p here t refl w h (omega arith))
]
  where
    here : ℕ
    here = p.reg.reg_number 15

    t : ℕ
    t = get_bits ins 23 0

    linked : Core
    linked = arm_write_register p lr here

    link : sub32 (arm_read_register p pc) 4 ≡ here
    link = rw (arm_read_register-pc p w h) (omega arith)
