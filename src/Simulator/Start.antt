-- ===== src/Simulator/Start.antt =====
-- The processor at the start, and the exceptions from outside.
use projet_prog.Base.{
  ℕ, ◌≡◌, refl, sym, ap, ◌∙◌, fun_ext, arith, Bool, true, false, ◌||◌, if◌then◌else◌, ◌==◌,
  Bool-cases, inl, inr, List, [], ◌∷◌,
}
use projet_prog.Constants.{reset}
use projet_prog.Registers.{write_cpsr, write_usr_register}
use projet_prog.Core.{Core, arm_exception}
use projet_prog.Simulator.{irq_listener}

abbrev pub has_reset : List ℕ → Bool
has_reset [] = false
has_reset (irq ∷ irqs) = irq == reset || has_reset irqs

reset_twice : (p : Core) → arm_exception (arm_exception p reset) reset ≡ arm_exception p reset
unfolding arm_exception write_cpsr write_usr_register
reset_twice p =
    ap (λ (f : ℕ → ℕ). record p { reg = record { reg_number = f } }) (fun_ext (λ j. ground arith))

ignored : (p : Core) (irq : ℕ) → (irq == reset) ≡ false → arm_exception p irq ≡ p
unfolding arm_exception
ignored p irq h = rw h

if_reset :
    (p : Core) (b : Bool)
    → (if b then arm_exception (arm_exception p reset) reset else arm_exception p reset)
      ≡ arm_exception p reset
if_reset p true = reset_twice p
if_reset p false = refl

-- Of all that comes over the connections for exceptions only the resets have an effect, and any
-- number of them has that of one.
pub irq_listener_lem :
    (p : Core) (irqs : List ℕ)
    → irq_listener p irqs ≡ (if has_reset irqs then arm_exception p reset else p)
unfolding irq_listener
irq_listener_lem p [] = refl
irq_listener_lem p (irq ∷ irqs) = elim (Bool-cases (irq == reset)) [
  | inl e ↦
      let same : irq ≡ reset = ground arith in
      ap (λ (i : ℕ). irq_listener (arm_exception p i) irqs) same
      ∙ irq_listener_lem (arm_exception p reset) irqs
      ∙ if_reset p (has_reset irqs)
      ∙ ap (λ (b : Bool). if b || has_reset irqs then arm_exception p reset else p) (sym e)
  | inr e ↦
      ap (λ (q : Core). irq_listener q irqs) (ignored p irq e)
      ∙ irq_listener_lem p irqs
      ∙ ap (λ (b : Bool). if b || has_reset irqs then arm_exception p reset else p) (sym e)
]
