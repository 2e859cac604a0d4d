-- ===== src/LoadStore/Multiple/Words.antt =====
-- A register list stored and loaded again, in the ascending order of addresses.
use projet_prog.Base.{
  sym, Bool-cases, inl, inr, ℕ, ◌+◌, ◌-◌, ◌*◌, ◌^◌, ◌≤◌, ◌<◌, ◌≡◌, ◌≢◌, refl, ap, ◌∙◌, arith, ltb,
  truthy, ◌&&◌, Bool, true, false, if◌then◌else◌, List, [], ◌∷◌, Outcome, ok,
}
use projet_prog.Word.{Host, add32}
use projet_prog.Registers.{Registers, read_register, write_register}
use projet_prog.Registers.Words.{HoldsWords, read_register-IsWord}
use projet_prog.Memory.{Memory, memory_read}
use projet_prog.Memory.BigEndian.{
  byte, big_endian_at, memory_read_big_endian, memory_write_big_endian,
}
use projet_prog.Core.{Core, Stepped, pc_adjust, arm_read_register, arm_write_word}
use projet_prog.Bits.{get_bit}
use projet_prog.Util.{get_bits}
use projet_prog.Registers.Copy.{copied, IsKept, read-copied_listed, read-copied_other}
use projet_prog.LoadStore.Multiple.Reglist.{creer_reglist-get_bit, creer_reglist-AreNumbers}
use projet_prog.Util.Bit.{get_bit-le}
use projet_prog.LoadStore.Multiple.{
  creer_reglist, transfer_each, arm_load_store_multiple, nb_reg, load_each, store_each,
}

-- No r15, which reads as another address.
abbrev pub AreGeneral : List ℕ → Type 0
AreGeneral [] = Unit
AreGeneral (reg ∷ regs) = (reg ≢ 15) × AreGeneral regs

-- The content with the registers' words from an address on.
unfoldable pub stored_words : (ℕ → ℕ) → Registers → List ℕ → ℕ → ℕ → ℕ
stored_words memo r [] a = memo
stored_words memo r (reg ∷ regs) a =
    stored_words (big_endian_at memo 4 a (read_register r reg)) r regs (a + 4)

stored_words_below :
    (memo : ℕ → ℕ) (r : Registers) (regs : List ℕ) (a j : ℕ)
    → j < a
    → stored_words memo r regs a j ≡ memo j
unfolding stored_words
stored_words_below memo r [] a j h = refl
stored_words_below memo r (reg ∷ regs) a j h =
    stored_words_below (big_endian_at memo 4 a (read_register r reg)) r regs (a + 4) j (omega arith)
    ∙ ground arith

general : (p : Core) (reg : ℕ) → reg ≢ 15 → arm_read_register p reg ≡ read_register p.reg reg
unfolding arm_read_register pc_adjust
general p reg h = ground arith

abbrev pub with_words : Core → List ℕ → ℕ → Core
with_words p regs a = record p {
  mem = record p.mem { memo = stored_words p.mem.memo p.reg regs a };
}

-- `Rn` after the words.
unfoldable pub after_words : List ℕ → ℕ → ℕ
after_words [] a = a
after_words (reg ∷ regs) a = after_words regs (a + 4)

-- A transfer of general registers to or from ascending addresses, without a write to its base.
pub record IsAscending (ins : ℕ) : Type 0 where
  pub base : ltb 7 (get_bits ins 19 16) ≡ false
  pub kind : get_bits ins 27 23 ≡ 17
  pub kept : truthy (get_bit ins 21) ≡ false
  pub registers : AreGeneral (creer_reglist ins)

module _ (host : Host) where
  store_each-words :
      (regs : List ℕ) (p : Core) (a : ℕ)
      → AreGeneral regs
      → p.mem.is_big_endian ≡ true
      → a + 4 * nb_reg regs ≤ p.mem.size
      → p.mem.size < 2 ^ 32
      → store_each host true false regs p a
        ≡ ok (record { core = with_words p regs a; rn = after_words regs a })
  unfolding store_each stored_words arm_write_word nb_reg after_words
  store_each-words [] p a g be h s = refl
  store_each-words (reg ∷ regs) p a g be h s =
      let next : add32 a 4 ≡ a + 4 = omega arith in
      rw
        (
          general p reg g.0,
          memory_write_big_endian host p.mem be 4 a (read_register p.reg reg) (omega arith)
              (omega arith),
          next,
        )
        (store_each-words regs
          (record p {
            mem = record p.mem { memo = big_endian_at p.mem.memo 4 a (read_register p.reg reg) };
          })
          (a + 4) g.1 be (omega arith) s)

  -- Over a memory that holds the words of other registers.
  load_each-words :
      (regs : List ℕ) (q : Core) (src : Registers) (memo : ℕ → ℕ) (a val : ℕ)
      → q.mem.is_big_endian ≡ true
      → a + 4 * nb_reg regs ≤ q.mem.size
      → q.mem.size < 2 ^ 32
      → HoldsWords src
      → q.mem.memo ≡ stored_words memo src regs a
      → load_each host true false regs q a val
        ≡ ok (record { core = record q { reg = copied src regs q.reg }; rn = after_words regs a })
  unfolding load_each stored_words nb_reg after_words copied
  load_each-words [] q src memo a val be h s w e = refl
  load_each-words (reg ∷ regs) q src memo a val be h s w e =
      let value = read_register src reg in
      let next : add32 a 4 ≡ a + 4 = omega arith in
      let read : memory_read host 4 q.mem a val ≡ ok (record { status = 0; value = value }) =
        memory_read_big_endian host q.mem be 4 a value val (omega arith) (omega arith)
          (read_register-IsWord src reg w) (omega (arith, read_register-IsWord src reg w)) bytes in
      rw (read, next)
        (load_each-words regs (record q { reg = write_register q.reg reg value }) src
          (big_endian_at memo 4 a value) (a + 4) value be (omega arith) s w e)
    where
      bytes : (k : ℕ) → k < 4 → q.mem.memo (a + k) ≡ byte (read_register src reg) (4 - 1 - k)
      bytes k l =
          let value = read_register src reg in
          let first : a + 4 - 1 - (a + k) ≡ 4 - 1 - k = omega arith in
          ap (λ (f : ℕ → ℕ). f (a + k)) e
          ∙ stored_words_below (big_endian_at memo 4 a value) src regs (a + 4) (a + k) (omega arith)
          ∙ ground (arith, ap (byte value) first)

  ascending :
      (rn val : ℕ) (p : Core) (ins : ℕ)
      → IsAscending ins
      → arm_load_store_multiple host rn val p ins ≡ transfer_each host rn val true false p ins
  unfolding arm_load_store_multiple
  ascending rn val p ins h = rw (h.base, h.kind)

  no_write : (b : Bool) (x y : Core) → (if b && false then x else y) ≡ y
  no_write true x y = refl
  no_write false x y = refl

  abbrev done : Core → Outcome Stepped
  done p = ok (record { status = 0; core = p })

  store_words :
      (rn val : ℕ) (p : Core) (ins : ℕ)
      → IsAscending ins
      → truthy (get_bit ins 20) ≡ false
      → p.mem.is_big_endian ≡ true
      → rn + 4 * nb_reg (creer_reglist ins) ≤ p.mem.size
      → p.mem.size < 2 ^ 32
      → arm_load_store_multiple host rn val p ins
        ≡ ok (record { status = 0; core = with_words p (creer_reglist ins) rn })
  unfolding transfer_each
  store_words rn val p ins h s be within small =
      ascending rn val p ins h
      ∙ rw (s, h.kept, store_each-words (creer_reglist ins) p rn h.registers be within small)
          (ap done (no_write _ _ _))

  load_words :
      (rn val : ℕ) (q : Core) (src : Registers) (memo : ℕ → ℕ) (ins address : ℕ)
      → IsAscending ins
      → truthy (get_bit ins 20) ≡ true
      → arm_read_register q (get_bits ins 19 16) ≡ address
      → q.mem.is_big_endian ≡ true
      → address + 4 * nb_reg (creer_reglist ins) ≤ q.mem.size
      → q.mem.size < 2 ^ 32
      → HoldsWords src
      → q.mem.memo ≡ stored_words memo src (creer_reglist ins) address
      → arm_load_store_multiple host rn val q ins
        ≡ ok (record { status = 0; core = record q { reg = copied src (creer_reglist ins) q.reg } })
  unfolding transfer_each
  load_words rn val q src memo ins address h l base be within small w e =
      ascending rn val q ins h
      ∙ rw
          (
            l,
            h.kept,
            base,
            load_each-words (creer_reglist ins) q src memo address val be within small w e,
          )
          (ap done (no_write _ _ _))

  read_loaded :
      (ins : ℕ) (src r : Registers) (x : ℕ)
      → x < 16
      → IsKept r x
      → read_register (copied src (creer_reglist ins) r) x
        ≡ (if truthy (get_bit ins x) then read_register src x else read_register r x)
  read_loaded ins src r x l k = elim (Bool-cases (truthy (get_bit ins x))) [
    | inl e ↦ rw e (
        read-copied_listed src (creer_reglist ins) r x (creer_reglist-AreNumbers ins) k
          ((creer_reglist-get_bit ins x).1 (l, ground (arith, get_bit-le ins x))))
    | inr e ↦ rw e (
        read-copied_other src (creer_reglist ins) r x (creer_reglist-AreNumbers ins)
          (λ m. let b = (creer_reglist-get_bit ins x).0 m in ground (arith, b.1)))
  ]

  -- Registers but r15 that are stored at ascending addresses, within a big-endian memory of less than
  -- 2 ^ 32 bytes, are loaded again from there into any processor with that memory: each register that
  -- keeps what is written to it then holds what was stored of it, if it is in the list, and else what
  -- it held; only registers change. No base register is written. The store takes its address from the
  -- unset variable `Rn`, and the load's base register holds the same.
  pub arm_load_store_multiple-store_load :
      (rn rn' val val' : ℕ) (p q : Core) (ins ins' reg : ℕ)
      → IsAscending ins
      → IsAscending ins'
      → truthy (get_bit ins 20) ≡ false
      → truthy (get_bit ins' 20) ≡ true
      → creer_reglist ins' ≡ creer_reglist ins
      → q.mem ≡ (with_words p (creer_reglist ins) rn).mem
      → arm_read_register q (get_bits ins' 19 16) ≡ rn
      → p.mem.is_big_endian ≡ true
      → rn + 4 * nb_reg (creer_reglist ins) ≤ p.mem.size
      → p.mem.size < 2 ^ 32
      → HoldsWords p.reg
      → reg < 16
      → IsKept q.reg reg
      → let p' = with_words p (creer_reglist ins) rn in
        (arm_load_store_multiple host rn val p ins ≡ ok (record { status = 0; core = p' }))
        × ((r : Registers) × (arm_load_store_multiple host rn' val' q ins'
              ≡ ok (record { status = 0; core = record q { reg = r } }))
            × (read_register r reg ≡ (
                if truthy (get_bit ins reg)
                then read_register p.reg reg
                else read_register q.reg reg)))
  arm_load_store_multiple-store_load rn rn' val val' p q ins ins' reg h h' s l same m base be within
        small w n k =
      let content : q.mem.memo ≡ stored_words p.mem.memo p.reg (creer_reglist ins') rn =
        ap (λ (t : Memory). t.memo) m
        ∙ ap (λ (regs : List ℕ). stored_words p.mem.memo p.reg regs rn) (sym same) in
      let size : q.mem.size ≡ p.mem.size = ap (λ (t : Memory). t.size) m in
      (
        store_words rn val p ins h s be within small,
        (
          copied p.reg (creer_reglist ins') q.reg,
          load_words rn' val' q p.reg p.mem.memo ins' rn h' l base
              (ap (λ (t : Memory). t.is_big_endian) m ∙ be) (rw (size, same) within) (rw size small)
              w content,
          rw same (read_loaded ins p.reg q.reg reg n k),
        ),
      )
