-- ===== src/LoadStore/Valid.antt =====
-- Loads and stores keep the processor valid.
use projet_prog.Base.{
  ℕ, ◌^◌, ◌<◌, ◌≡◌, arith, Bool, true, false, if◌then◌else◌, ◌==◌, truthy, Outcome, ok, ◌>>=◌,
  Ensures->>=, Bool-cases, inl, inr,
}
use projet_prog.Bits.{get_bit}
use projet_prog.Word.{Host, IsWord, add32, sub32}
use projet_prog.Constants.{u_bit}
use projet_prog.Util.{get_bits, cond_valid}
use projet_prog.Registers.Words.{read_spsr-IsWord}
use projet_prog.Memory.{memory_read, memory_read_byte}
use projet_prog.Memory.Bytes.{Gives, memory_read-lt, memory_read_byte-lt}
use projet_prog.Core.{
  Core, Stepped, arm_read_register, arm_read_cpsr, arm_read_spsr, arm_write_register,
}
use projet_prog.Core.Valid.{
  IsValid, StepsValid, arm_read_cpsr-IsWord, arm_write_register-IsValid, arm_write_byte-IsValid,
  arm_write_half-IsValid, arm_write_word-IsValid,
}
use projet_prog.LoadStore.{
  Unset, put_byte, put_half, load_into, est_immediate, half_immediate, indexed, laod_stot_byte_word,
  laod_stot_halfword, half_word, byte_word, arm_load_store, arm_coprocessor_load_store,
}

-- The variables that are read before they are set hold words.
pub record UnsetWords (unset : Unset) : Type 0 where
  pub ins : IsWord unset.ins
  pub val : IsWord unset.val

module _ (size : ℕ) (big : Bool) where
  load_into-IsValid :
      (p : Core) (reg status val : ℕ)
      → IsValid size big p
      → (status ≡ 0 → IsWord val)
      → IsValid size big (load_into p reg status val).core
  load_into-IsValid p reg status val h w = elim (Bool-cases (status == 0)) [
    | inl e ↦ rw e (arm_write_register-IsValid size big p reg val h (w (ground arith)))
    | inr e ↦ rw e h
  ]

  put_byte-IsWord :
      (host : Host) (old v : ℕ) → IsWord old → v < 2 ^ 8 → IsWord (put_byte host old v)
  put_byte-IsWord host old v w l = ground arith

  put_half-IsWord :
      (host : Host) (old v : ℕ) → IsWord old → v < 2 ^ 16 → IsWord (put_half host old v)
  put_half-IsWord host old v w l = ground arith

  -- What all four transfers have in common.
  abbrev TransfersValid : (Core → ℕ → ℕ → Outcome Stepped) → Type 0
  TransfersValid transfer =
      (p : Core) (reg add : ℕ) → IsValid size big p → StepsValid size big (transfer p reg add)

  indexed-IsValid :
      (transfer : Core → ℕ → ℕ → Outcome Stepped) (res : ℕ) (p : Core) (ins ind : ℕ)
      → TransfersValid transfer
      → IsValid size big p
      → StepsValid size big (indexed transfer res p ins ind)
  unfolding indexed
  indexed-IsValid transfer res p ins ind t h = ground (
    arith,
    h,
    t p n_rd rn h,
    t p n_rd moved h,
    t p1 n_rd (arm_read_register p1 n_rn)
        (arm_write_register-IsValid size big p n_rn moved h small),
    written_after,
  )
    where
      n_rn : ℕ
      n_rn = get_bits ins 19 16

      n_rd : ℕ
      n_rd = get_bits ins 15 12

      rn : ℕ
      rn = arm_read_register p n_rn

      moved : ℕ
      moved = if truthy (get_bit ins u_bit) then add32 rn ind else sub32 rn ind

      small : IsWord moved
      small = ground arith

      p1 : Core
      p1 = arm_write_register p n_rn moved

      after :
          (b : Bool) (q : Core)
          → IsValid size big q
          → IsValid size big (if b then arm_write_register q n_rn moved else q)
      after true q k = arm_write_register-IsValid size big q n_rn moved k small
      after false q k = k

      cond_v : Bool
      cond_v = truthy (cond_valid (get_bits ins 31 28) ins)

      written_after : StepsValid size big (
          transfer p n_rd rn >>= λ s. ok (record {
            status = s.status;
            core = if cond_v then arm_write_register s.core n_rn moved else s.core;
          }))
      written_after =
          Ensures->>= (λ (s : Stepped). IsValid size big s.core)
            (λ (s : Stepped). IsValid size big s.core) (transfer p n_rd rn)
            (λ s. ok (record {
              status = s.status;
              core = if cond_v then arm_write_register s.core n_rn moved else s.core;
            }))
            (t p n_rd rn h) (λ s k. after cond_v s.core k)

  module _ (host : Host) (unset : Unset) (u : UnsetWords unset) where
    laod_stot_byte_word-IsValid : (ins : ℕ) → TransfersValid (laod_stot_byte_word host unset ins)
    unfolding laod_stot_byte_word
    laod_stot_byte_word-IsValid ins p reg add h = ground (
      arith,
      load_byte,
      load_word,
      arm_write_byte-IsValid size big p add (arm_read_register p reg) h,
      arm_write_word-IsValid size big host p add (arm_read_register p reg) h,
    )
      where
        load_byte : StepsValid size big (
            memory_read_byte p.mem add 0 >>= λ r.
            ok (load_into p reg r.status (put_byte host unset.val r.value)))
        load_byte =
            Ensures->>= (Gives 8 0) (λ (s : Stepped). IsValid size big s.core)
              (memory_read_byte p.mem add 0)
              (λ r. ok (load_into p reg r.status (put_byte host unset.val r.value)))
              (memory_read_byte-lt size big p.mem add 0 h.bytes)
              (λ r g.
                load_into-IsValid p reg r.status _ h
                  (λ z. put_byte-IsWord host unset.val r.value u.val (g.0 z)))

        load_word :
            StepsValid size big (
              memory_read host 4 p.mem add unset.val >>= λ r. ok (load_into p reg r.status r.value))
        load_word =
            Ensures->>= (Gives 32 unset.val) (λ (s : Stepped). IsValid size big s.core)
              (memory_read host 4 p.mem add unset.val) (λ r. ok (load_into p reg r.status r.value))
              (memory_read-lt size big host p.mem 4 add unset.val h.bytes)
              (λ r g. load_into-IsValid p reg r.status _ h g.0)

    laod_stot_halfword-IsValid : (ins : ℕ) → TransfersValid (laod_stot_halfword host unset ins)
    unfolding laod_stot_halfword
    laod_stot_halfword-IsValid ins p reg add h = ground (
      arith,
      h,
      load_half,
      arm_write_half-IsValid size big host p add (arm_read_register p reg) h,
    )
      where
        load_half : StepsValid size big (
            memory_read host 2 p.mem add 0 >>= λ r.
            ok (load_into p reg r.status (put_half host unset.val r.value)))
        load_half =
            Ensures->>= (Gives 16 0) (λ (s : Stepped). IsValid size big s.core)
              (memory_read host 2 p.mem add 0)
              (λ r. ok (load_into p reg r.status (put_half host unset.val r.value)))
              (memory_read-lt size big host p.mem 2 add 0 h.bytes)
              (λ r g.
                load_into-IsValid p reg r.status _ h
                  (λ z. put_half-IsWord host unset.val r.value u.val (g.0 z)))

    pub arm_load_store-IsValid :
        (p : Core) (ins : ℕ)
        → IsValid size big p
        → StepsValid size big (arm_load_store host unset p ins)
    unfolding arm_load_store half_word byte_word
    arm_load_store-IsValid p ins h = ground (
      arith,
      h,
      indexed-IsValid (laod_stot_byte_word host unset ins) unset.res p ins (est_immediate ins p)
          (laod_stot_byte_word-IsValid ins) h,
      indexed-IsValid (laod_stot_halfword host unset ins) unset.res p ins (half_immediate ins p)
          (laod_stot_halfword-IsValid ins) h,
    )

  pub arm_coprocessor_load_store-IsValid :
      (p : Core) (ins : ℕ)
      → IsValid size big p
      → IsValid size big (arm_coprocessor_load_store p ins).core
  unfolding arm_coprocessor_load_store
  arm_coprocessor_load_store-IsValid p ins h =
      let value = if truthy (get_bit ins 22) then arm_read_spsr p else arm_read_cpsr p in
      ground (
        arith,
        h,
        arm_write_register-IsValid size big p (get_bits ins 15 12) value h
            (ground (arith, read_spsr-IsWord p.reg h.words, arm_read_cpsr-IsWord size big p h)),
      )
