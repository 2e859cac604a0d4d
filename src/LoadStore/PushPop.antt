-- ===== src/LoadStore/PushPop.antt =====
-- A push and a pop in sequence.
use projet_prog.Base.{ℕ, ◌≡◌, ◌≢◌, refl, sym, ap, ◌∙◌, arith, false, some, Outcome, ok, ◌>>=◌}
use projet_prog.Word.{Host, IsWord, add32, sub32}
use projet_prog.Util.{get_bits}
use projet_prog.Memory.{memory_read}
use projet_prog.Registers.{get_mode, read_register}
use projet_prog.Registers.Bank.{place, is_lost}
use projet_prog.Registers.Frame.{read-write_self, read-write_ne}
use projet_prog.Core.Pc.{arm_read_register-ne_pc}
use projet_prog.Core.{Core, Stepped, pc_adjust, arm_read_register, arm_write_register}
use projet_prog.LoadStore.{Unset, byte_word}
use projet_prog.LoadStore.Stack.{
  WordFits, put_word, write-read_word, IsPush, IsPop, offset_of, push_lem, pop_lem, three_writes,
  read_base, read_loaded, read_others,
}

-- The base register, the place on the stack and the word of a push.
abbrev pub base_of : ℕ → ℕ
base_of ins = get_bits ins 19 16

abbrev pub top_of : Core → ℕ → ℕ
top_of p ins = sub32 (arm_read_register p (base_of ins)) (offset_of ins)

abbrev pub pushed : Core → ℕ → ℕ
pushed p ins = arm_read_register p (get_bits ins 15 12)

-- The processor after a push and a pop.
abbrev popped : Core → ℕ → ℕ → Core
popped p ins ins' = record p {
  mem = put_word p.mem (top_of p ins) (pushed p ins);
  reg =
      three_writes p.reg (base_of ins) (top_of p ins) (get_bits ins' 15 12) (pushed p ins)
        (arm_read_register p (base_of ins));
}

module _ (host : Host) (unset : Unset) (p : Core) (ins ins' : ℕ) {i : ℕ} (push : IsPush ins)
    (pop : IsPop ins') (base : base_of ins' ≡ base_of ins) (offset : offset_of ins' ≡ offset_of ins)
    (no_pc : base_of ins ≢ 15) (apart : get_bits ins 15 12 ≢ base_of ins)
    (kept : is_lost (get_mode p.reg) (base_of ins) ≡ false)
    (placed : place (get_mode p.reg) (base_of ins) ≡ some i)
    (fits : WordFits host p.mem (top_of p ins)) (w : IsWord (pushed p ins))
    (w' : IsWord (arm_read_register p (base_of ins))) where
  read_moved :
      arm_read_register (arm_write_register p (base_of ins) (top_of p ins)) (base_of ins)
      ≡ top_of p ins
  read_moved =
      arm_read_register-ne_pc _ (base_of ins) no_pc
      ∙ read-write_self p.reg (base_of ins) (top_of p ins) (omega arith) kept placed

  read_pushed :
      arm_read_register (arm_write_register p (base_of ins) (top_of p ins)) (get_bits ins 15 12)
      ≡ pushed p ins
  unfolding arm_read_register
  read_pushed = ap (pc_adjust (get_bits ins 15 12)) (
      read-write_ne p.reg (base_of ins) (get_bits ins 15 12) (top_of p ins) (omega arith)
        (λ e. apart (sym e)))

  -- What the pop starts from.
  abbrev after_push : Core
  after_push = record (arm_write_register p (base_of ins) (top_of p ins)) {
    mem = put_word p.mem (top_of p ins) (pushed p ins);
  }

  base_after : arm_read_register after_push (base_of ins') ≡ top_of p ins
  unfolding arm_read_register
  base_after = ap (arm_read_register after_push) base ∙ read_moved

  base_back :
      add32 (arm_read_register after_push (base_of ins')) (offset_of ins')
      ≡ arm_read_register p (base_of ins)
  base_back =
      ap (λ a. add32 a (offset_of ins')) base_after
      ∙ ap (add32 (top_of p ins)) offset
      ∙ omega (arith, w')

  run :
      (byte_word host unset p ins >>= λ t. byte_word host unset t.core ins')
      ≡ ok (record { status = 0; core = popped p ins ins' })
  run =
      let stored = write-read_word host p.mem (top_of p ins) (pushed p ins) unset.val fits w in
      let loaded = arm_write_register after_push (get_bits ins' 15 12) (pushed p ins) in
      ap (λ (o : Outcome Stepped). o >>= λ t. byte_word host unset t.core ins')
        (push_lem host unset p ins (pushed p ins) push read_moved read_pushed stored.0)
      ∙ pop_lem host unset after_push ins' (pushed p ins) pop (
          ap (λ a. memory_read host 4 (put_word p.mem (top_of p ins) (pushed p ins)) a unset.val)
            base_after
          ∙ stored.1)
      ∙ ap
          (λ n. ok (record {
            status = 0;
            core =
                arm_write_register loaded n
                  (add32 (arm_read_register after_push (base_of ins')) (offset_of ins'));
          }))
          base
      ∙ ap (λ v. ok (record { status = 0; core = arm_write_register loaded (base_of ins) v }))
          base_back

-- A register pushed on a stack and popped off it, by a store that moves the base register down by an
-- immediate offset before it and a load that moves it up by the same after it, both with a condition
-- that holds of the instruction's own bits: where the word fits in the memory, the two end well; the
-- destination then holds what was pushed, the base register is what it was, as is every third register,
-- and of the memory only the word below the base has changed.
pub push-pop :
    (host : Host) (unset : Unset) (p : Core) (ins ins' reg : ℕ) {i j : ℕ}
    → IsPush ins
    → IsPop ins'
    → base_of ins' ≡ base_of ins
    → offset_of ins' ≡ offset_of ins
    → base_of ins ≢ 15
    → get_bits ins 15 12 ≢ base_of ins
    → get_bits ins' 15 12 ≢ base_of ins
    → is_lost (get_mode p.reg) (base_of ins) ≡ false
    → place (get_mode p.reg) (base_of ins) ≡ some i
    → is_lost (get_mode p.reg) (get_bits ins' 15 12) ≡ false
    → place (get_mode p.reg) (get_bits ins' 15 12) ≡ some j
    → WordFits host p.mem (top_of p ins)
    → IsWord (pushed p ins)
    → IsWord (arm_read_register p (base_of ins))
    → reg ≢ base_of ins
    → reg ≢ get_bits ins' 15 12
    → (q : Core) × ((byte_word host unset p ins >>= λ t. byte_word host unset t.core ins')
        ≡ ok (record { status = 0; core = q }))
      × (read_register q.reg (get_bits ins' 15 12) ≡ pushed p ins)
      × (read_register q.reg (base_of ins) ≡ read_register p.reg (base_of ins))
      × (read_register q.reg reg ≡ read_register p.reg reg)
      × (q.mem ≡ put_word p.mem (top_of p ins) (pushed p ins))
push-pop host unset p ins ins' reg push pop base offset no_pc apart apart' kept h kept' h' fits w w'
      ne ne' =
    let r = p.reg in
    let rn = base_of ins in
    let rd = get_bits ins' 15 12 in
    let back = arm_read_register p rn in
    (
      popped p ins ins',
      run host unset p ins ins' push pop base offset no_pc apart kept h fits w w',
      read_loaded r rn (top_of p ins) rd (pushed p ins) back (omega arith) (omega arith) apart'
          kept' h',
      read_base r rn (top_of p ins) rd (pushed p ins) back (omega arith) (omega arith) kept h
          ∙ arm_read_register-ne_pc p rn no_pc,
      read_others r rn (top_of p ins) rd (pushed p ins) back (omega arith) (omega arith) reg ne ne',
      refl,
    )
