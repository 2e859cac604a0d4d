-- ===== src/Gdb/Continue.antt =====
-- `cont` stops where the processor, step by step, first comes to a breakpoint.
use projet_prog.Base.{
  ℕ, zero, suc, ◌+◌, ◌*◌, ◌/◌, ◌%◌, ◌^◌, ◌<◌, ◌≡◌, ap, ◌∙◌, arith, Bool, true, false, ◌&&◌, ◌==◌,
  bit_and, Outcome, ok, ◌>>=◌,
}
use projet_prog.Bits.Masks.{bit_and_zero, bit_and_mask, bit_and_blocks}
use projet_prog.Word.{Host, IsWord, sub32}
use projet_prog.Util.{get_bits}
use projet_prog.Memory.{Read, memory_read_word}
use projet_prog.Core.{Core, Stepped, arm_read_register}
use projet_prog.Core.Pc.{arm_read_register-pc}
use projet_prog.LoadStore.{Unset}
use projet_prog.Instruction.{arm_step}
use projet_prog.Gdb.{Gdb}
use projet_prog.Gdb.Requests.{is_breakpoint, cont_loop}

-- The instruction that ARM keeps undefined, by its fields: always, class 011, with bit 4 set, and ones
-- in bits 20 to 24 and 5 to 7.
abbrev pub is_trap : ℕ → Bool
is_trap word = get_bits word 31 20 == 0xe7f && get_bits word 7 4 == 0xf

-- The twelve high digits, and bits 4 to 7.
masked :
    (x : ℕ) → IsWord x → bit_and x 0xfff0_00f0 ≡ x / 2 ^ 20 * 2 ^ 20 + x / 2 ^ 4 % 2 ^ 4 * 2 ^ 4
masked x w = omega (
  arith,
  bit_and_blocks 20 32 x 0xfff 0xf0 w (omega arith),
  bit_and_blocks 4 32 x 0xf 0 w (omega arith),
  bit_and_mask 12 32 (x / 2 ^ 20) (omega arith),
  bit_and_mask 4 32 (x / 2 ^ 4) (omega arith),
  bit_and_zero 32 x w,
)

is_breakpoint-is_trap : (x : ℕ) → IsWord x → is_breakpoint x ≡ is_trap x
is_breakpoint-is_trap x w = ground (arith, masked x w)

module _ (host : Host) (unset : ℕ → Unset) where
  -- The program counter is word-aligned, and the word of the memory there is `word`.
  pub record IsAt (p : Core) (word : ℕ) : Type 0 where
    pub counter : IsWord (p.reg.reg_number 15)
    pub aligned : p.reg.reg_number 15 % 4 ≡ 0
    pub is_word : IsWord word
    pub read :
        (old : ℕ)
        → memory_read_word host p.mem (p.reg.reg_number 15) old
          ≡ ok (record { status = 0; value = word })

  -- After `n` steps from round `k` on, each at another word than the undefined instruction, `g` is at
  -- that instruction.
  abbrev pub ComesTo : ℕ → ℕ → Gdb → Gdb → Type 0
  ComesTo zero k gdb g = (word : ℕ) × IsAt gdb.arm word × (is_trap word ≡ true) × (gdb ≡ g)
  ComesTo (suc n) k gdb g =
      (word : ℕ) × (s : Stepped) × IsAt gdb.arm word
      × (is_trap word ≡ false)
      × (arm_step host (unset k) gdb.arm ≡ ok s)
      × ComesTo n (k + 1) (record gdb { arm = s.core; target_exception = s.status }) g

  -- The loop's continuation after its read, and after its step.
  abbrev after_step : ℕ → ℕ → Gdb → Read → Stepped → Outcome Gdb
  after_step rounds k gdb r s =
      cont_loop host unset rounds (k + 1) (record gdb { arm = s.core; target_exception = s.status })
        r.value

  abbrev after_read : ℕ → ℕ → Gdb → Read → Bool → Outcome Gdb
  after_read rounds k gdb r true = ok gdb
  after_read rounds k gdb r false = arm_step host (unset k) gdb.arm >>= after_step rounds k gdb r

  -- A round at a word of the memory.
  cont_loop-IsAt :
      (rounds k : ℕ) (gdb : Gdb) (instruction word : ℕ)
      → IsAt gdb.arm word
      → cont_loop host unset (suc rounds) k gdb instruction
        ≡ after_read rounds k gdb (record { status = 0; value = word }) (is_trap word)
  unfolding cont_loop
  cont_loop-IsAt rounds k gdb instruction word a =
      let here : sub32 (arm_read_register gdb.arm 15) 4 ≡ gdb.arm.reg.reg_number 15 =
        ap (λ t. sub32 t 4) (arm_read_register-pc gdb.arm a.counter a.aligned)
        ∙ omega (arith, a.counter) in
      rw (here, a.read instruction)
        (ap (after_read rounds k gdb (record { status = 0; value = word }))
          (is_breakpoint-is_trap word a.is_word))

  -- Where the steps of the processor, each at a word of the memory, lead to the undefined instruction
  -- that GDB puts at a breakpoint, the loop of `cont` ends if it is allowed more rounds than there are
  -- steps before, whatever `instruction` holds first, with the processor at the breakpoint.
  pub cont_loop-ComesTo :
      (n rounds k : ℕ) (gdb : Gdb) (instruction : ℕ) (g : Gdb)
      → n < rounds
      → ComesTo n k gdb g
      → cont_loop host unset rounds k gdb instruction ≡ ok g
  cont_loop-ComesTo n zero k gdb instruction g l c = absurd (omega arith)
  cont_loop-ComesTo zero (suc rounds) k gdb instruction g l (word, a, t, e) =
      cont_loop-IsAt rounds k gdb instruction word a
      ∙ ap (after_read rounds k gdb (record { status = 0; value = word })) t
      ∙ ap ok e
  cont_loop-ComesTo (suc n) (suc rounds) k gdb instruction g l (word, s, a, t, e, c) =
      let r : Read = record { status = 0; value = word } in
      cont_loop-IsAt rounds k gdb instruction word a
      ∙ ap (after_read rounds k gdb r) t
      ∙ ap (λ o. o >>= after_step rounds k gdb r) e
      ∙ cont_loop-ComesTo n rounds (k + 1)
          (record gdb { arm = s.core; target_exception = s.status }) word g (omega arith) c
