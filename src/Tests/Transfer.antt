-- ===== src/Tests/Transfer.antt =====
-- Examples for the loads and stores.
use projet_prog.Base.{if◌then◌else◌, ◌==◌, inl, ◌>>=◌, ◌≡◌, refl, arith, ok, ◌∷◌, []}
use projet_prog.Word.{x86}
use projet_prog.Registers.{read_register}
use projet_prog.Core.{Core, pc_adjust, arm_read_register}
use projet_prog.Registers.Words.{HoldsWords}
use projet_prog.Registers.Copy.{IsKept}
use projet_prog.Registers.{Registers}
use projet_prog.LoadStore.{byte_word}
use projet_prog.LoadStore.Stack.{IsPush, IsPop, put_word}
use projet_prog.LoadStore.PushPop.{push-pop}
use projet_prog.Registers.Bank.{place}
use projet_prog.Util.{cond_valid}
use projet_prog.LoadStore.Multiple.{reglist_from, creer_reglist, nb_reg, arm_load_store_multiple}
use projet_prog.LoadStore.Multiple.Words.{
  IsAscending, with_words, arm_load_store_multiple-store_load,
}
use projet_prog.Tests.{registers_with, core_with, unset_example}

-- STMIA r2, {r0, r1} and LDMIA r2, {r0, r1}
stm-IsAscending : IsAscending 0xe882_0003
unfolding creer_reglist reglist_from
stm-IsAscending = record {
  base = refl;
  kind = refl;
  kept = refl;
  registers = (omega arith, (omega arith, tt));
}

ldm-IsAscending : IsAscending 0xe892_0003
unfolding creer_reglist reglist_from
ldm-IsAscending = record {
  base = refl;
  kind = refl;
  kept = refl;
  registers = (omega arith, (omega arith, tt));
}

core_with-HoldsWords : HoldsWords (registers_with 0x1d3)
core_with-HoldsWords i = ground arith

-- Another processor with the memory after the store.
abbrev other_core : Core
other_core = record {
  cycle_count = 0;
  reg = record { reg_number = λ i. if i == 16 then 0x1d3 else if i == 2 then 6 else 1 };
  mem = (with_words (core_with 0) (0 ∷ 1 ∷ []) 6).mem;
}

r1-IsKept : IsKept other_core.reg 1
unfolding place
r1-IsKept = record { kept = refl; index = 1; placed = refl }

arm_load_store_multiple-store_load_example :
    let p' = with_words (core_with 0) (0 ∷ 1 ∷ []) 6 in
    (arm_load_store_multiple x86 6 9 (core_with 0) 0xe882_0003
      ≡ ok (record { status = 0; core = p' }))
    × ((r : Registers) × (arm_load_store_multiple x86 7 9 other_core 0xe892_0003
          ≡ ok (record { status = 0; core = record other_core { reg = r } }))
        × (read_register r 1 ≡ 3))
unfolding creer_reglist reglist_from arm_read_register nb_reg pc_adjust read_register
arm_load_store_multiple-store_load_example =
    arm_load_store_multiple-store_load x86 6 7 9 9 (core_with 0) other_core 0xe882_0003 0xe892_0003
      1 stm-IsAscending ldm-IsAscending refl refl refl refl refl refl (omega arith) (omega arith)
      core_with-HoldsWords (omega arith) r1-IsKept

-- STR r1, [r12, #-4]! and LDR r3, [r12], #4; r12 holds 36, and r1 holds 3.
str-IsPush : IsPush 0xe52c_1004
unfolding cond_valid
str-IsPush = record {
  transfer = (refl, refl, refl);
  store = refl;
  before = refl;
  down = refl;
  moves = refl;
}

ldr-IsPop : IsPop 0xe49c_3004
unfolding cond_valid
ldr-IsPop = record {
  transfer = (refl, refl, refl);
  load = refl;
  after = refl;
  up = refl;
  moves = refl;
}

push-pop_example :
    (q : Core) × ((byte_word x86 unset_example (core_with 0) 0xe52c_1004 >>= λ t.
    byte_word x86 unset_example t.core 0xe49c_3004)
      ≡ ok (record { status = 0; core = q }))
    × (read_register q.reg 3 ≡ 3)
    × (read_register q.reg 12 ≡ 36)
    × (read_register q.reg 7 ≡ 21)
    × (q.mem ≡ put_word (core_with 0).mem 32 3)
unfolding place arm_read_register pc_adjust read_register
push-pop_example =
    push-pop x86 unset_example (core_with 0) 0xe52c_1004 0xe49c_3004 7 {i = 12} {j = 3} str-IsPush
      ldr-IsPop refl refl (omega arith) (omega arith) (omega arith) refl refl refl refl
      (inl (refl, omega arith)) (omega arith) (omega arith) (omega arith) (omega arith)
