-- ===== src/Registers/Copy.antt =====
-- Registers that take the values of another register file, one after the other.
use native.Mathlib.Decide.{ℕ_discrete}
use mathlib.Core.List.{Memᴰ}
use projet_prog.Base.{
  ℕ, zero, suc, ◌+◌, ◌≤◌, ◌<◌, ◌≡◌, refl, sym, ap, ◌∙◌, arith, false, List, [], ◌∷◌, some,
}
use projet_prog.Registers.{Registers, get_mode, read_register, write_register}
use projet_prog.Registers.Bank.{place, is_lost}
use projet_prog.Registers.Frame.{get_mode-write_register, read-write_self, read-write_ne}

unfoldable pub copied : Registers → List ℕ → Registers → Registers
copied src [] r = r
copied src (reg ∷ regs) r = copied src regs (write_register r reg (read_register src reg))

-- r0 to r15 only.
abbrev pub AreNumbers : List ℕ → Type 0
AreNumbers [] = Unit
AreNumbers (reg ∷ regs) = (reg < 16) × AreNumbers regs

-- A register that keeps what is written to it, in the mode of `r`.
pub record IsKept (r : Registers) (reg : ℕ) : Type 0 where
  pub kept : is_lost (get_mode r) reg ≡ false
  pub index : ℕ
  pub placed : place (get_mode r) reg ≡ some index

IsKept-mode : (r r' : Registers) (reg : ℕ) → get_mode r' ≡ get_mode r → IsKept r reg → IsKept r' reg
IsKept-mode r r' reg e k = record {
  kept = ap (λ m. is_lost m reg) e ∙ k.kept;
  index = k.index;
  placed = ap (λ m. place m reg) e ∙ k.placed;
}

module _ (src : Registers) where
  written : Registers → ℕ → Registers
  written r reg = write_register r reg (read_register src reg)

  mode-written : (r : Registers) (reg : ℕ) → reg < 16 → get_mode (written r reg) ≡ get_mode r
  unfolding written
  mode-written r reg l = get_mode-write_register r reg (read_register src reg) (omega arith)

  pub mode-copied :
      (regs : List ℕ) (r : Registers) → AreNumbers regs → get_mode (copied src regs r) ≡ get_mode r
  unfolding copied written
  mode-copied [] r a = refl
  mode-copied (reg ∷ regs) r a = mode-copied regs (written r reg) a.1 ∙ mode-written r reg a.0

  -- What is a copy already stays one.
  copied_same :
      (regs : List ℕ) (r : Registers) (x : ℕ)
      → AreNumbers regs
      → IsKept r x
      → read_register r x ≡ read_register src x
      → read_register (copied src regs r) x ≡ read_register src x
  unfolding copied written
  copied_same [] r x a k e = e
  copied_same (reg ∷ regs) r x a k e =
      copied_same regs (written r reg) x a.1
        (IsKept-mode r (written r reg) x (mode-written r reg a.0) k)
        (elim (ℕ_discrete reg x) [
          | yes h ↦
              ap (λ (t : ℕ). read_register (write_register r t (read_register src t)) x) h
              ∙ read-write_self r x (read_register src x) (omega (arith, a.0, h)) k.kept k.placed
          | no h ↦ read-write_ne r reg x (read_register src reg) (omega (arith, a.0)) h ∙ e
        ])

  pub read-copied_listed :
      (regs : List ℕ) (r : Registers) (x : ℕ)
      → AreNumbers regs
      → IsKept r x
      → Memᴰ x regs
      → read_register (copied src regs r) x ≡ read_register src x
  unfolding copied written
  read-copied_listed [] r x a k m = elim m [ ]
  read-copied_listed (reg ∷ regs) r x a k (Memᴰ.head e) =
      copied_same regs (written r reg) x a.1
        (IsKept-mode r (written r reg) x (mode-written r reg a.0) k)
        (ap (λ (t : ℕ). read_register (write_register r t (read_register src t)) x) (sym e)
          ∙ read-write_self r x (read_register src x) (omega (arith, a.0, e)) k.kept k.placed)
  read-copied_listed (reg ∷ regs) r x a k (Memᴰ.tail m) =
      read-copied_listed regs (written r reg) x a.1
        (IsKept-mode r (written r reg) x (mode-written r reg a.0) k) m

  pub read-copied_other :
      (regs : List ℕ) (r : Registers) (x : ℕ)
      → AreNumbers regs
      → ¬ Memᴰ x regs
      → read_register (copied src regs r) x ≡ read_register r x
  unfolding copied written
  read-copied_other [] r x a n = refl
  read-copied_other (reg ∷ regs) r x a n =
      read-copied_other regs (written r reg) x a.1 (λ m. n (Memᴰ.tail m))
      ∙ read-write_ne r reg x (read_register src reg) (omega (arith, a.0))
          (λ e. n (Memᴰ.head (sym e)))

-- The `n` numbers from `i` on.
unfoldable pub numbers : ℕ → ℕ → List ℕ
numbers zero i = []
numbers (suc n) i = i ∷ numbers n (i + 1)

pub numbers-AreNumbers : (n i : ℕ) → i + n ≤ 16 → AreNumbers (numbers n i)
unfolding numbers
numbers-AreNumbers zero i l = tt
numbers-AreNumbers (suc n) i l = (omega arith, numbers-AreNumbers n (i + 1) (omega arith))

pub numbers_complete : (n i x : ℕ) → i ≤ x → x < i + n → Memᴰ x (numbers n i)
unfolding numbers
numbers_complete zero i x p q = absurd (omega arith)
numbers_complete (suc n) i x p q = elim (ℕ_discrete x i) [
  | yes e ↦ Memᴰ.head e
  | no e ↦ Memᴰ.tail (numbers_complete n (i + 1) x (omega arith) (omega arith))
]
