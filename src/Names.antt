-- ===== src/Names.antt =====
-- arm_constants.c: the names of the modes, registers and exceptions; and send_irq.c, which looks an
-- exception up by its name.
pub mod Irq
use Prim.Native.String.{String}
use projet_prog.Base.{
  ℕ, zero, suc, ◌+◌, ◌%◌, ◌^◌, Bool, true, false, if◌then◌else◌, ltb, List, [], ◌∷◌, ◌++◌, Option,
  none, some, Outcome, ok, undefined, exited, unfinished, ◌>>=◌,
}
use projet_prog.Constants.{reset}
use projet_prog.Text.{codes, same_text, replicate}

-- The element of an array, which has to be within it.
unfoldable pub get_elem {ℓ} : {A : Type ℓ} → List A → ℕ → Outcome A
get_elem [] i = undefined
get_elem (x ∷ xs) zero = ok x
get_elem (x ∷ xs) (suc i) = get_elem xs i

-- A name, or NULL.
abbrev named : String → Option (List ℕ)
named text = some (codes text)

abbrev pub arm_mode_names : List (Option (List ℕ))
arm_mode_names =
    replicate 16 none
    ++ (named "USR"
        ∷ named "FIQ"
        ∷ named "IRQ"
        ∷ named "SVC"
        ∷ none
        ∷ none
        ∷ none
        ∷ named "ABT"
        ∷ none
        ∷ none
        ∷ none
        ∷ named "UND"
        ∷ none
        ∷ none
        ∷ none
        ∷ named "SYS"
        ∷ [])

abbrev pub arm_register_names : List (List ℕ)
arm_register_names =
    codes "R00"
    ∷ codes "R01"
    ∷ codes "R02"
    ∷ codes "R03"
    ∷ codes "R04"
    ∷ codes "R05"
    ∷ codes "R06"
    ∷ codes "R07"
    ∷ codes "R08"
    ∷ codes "R09"
    ∷ codes "R10"
    ∷ codes "R11"
    ∷ codes "R12"
    ∷ codes "SP"
    ∷ codes "LR"
    ∷ codes "PC"
    ∷ codes "CPSR"
    ∷ codes "SPSR"
    ∷ []

abbrev pub arm_exception_names : List (Option (List ℕ))
arm_exception_names =
    none
    ∷ named "reset"
    ∷ named "undefined instruction"
    ∷ named "software interrupt"
    ∷ named "prefetch abort"
    ∷ named "data abort"
    ∷ named "interrupt"
    ∷ named "fast interrupt"
    ∷ []

unfoldable pub arm_get_exception_name : ℕ → Outcome (Option (List ℕ))
arm_get_exception_name exception =
    if ltb exception 8 then get_elem arm_exception_names exception else ok none

unfoldable pub arm_get_mode_name : ℕ → Outcome (Option (List ℕ))
arm_get_mode_name mode = get_elem arm_mode_names mode

unfoldable pub arm_get_register_name : ℕ → Outcome (List ℕ)
arm_get_register_name reg = get_elem arm_register_names reg

abbrev interrupt : ℕ
interrupt = 6

-- The loop of send_irq.c on the name of `irq`, with the rounds left; `irq` is an `unsigned char`.
unfoldable pub find_irq : ℕ → List ℕ → ℕ → Option (List ℕ) → Outcome ℕ
find_irq rounds name irq none = exited
find_irq zero name irq (some irq_name) = unfinished
find_irq (suc rounds) name irq (some irq_name) =
    let next =
      arm_get_exception_name ((irq + 1) % 2 ^ 8) >>= find_irq rounds name ((irq + 1) % 2 ^ 8) in
    if same_text irq_name name then ok irq else next

-- The exception that is sent for the third argument, if there is one.
unfoldable pub sent_irq : Option (List ℕ) → Outcome ℕ
sent_irq none = ok interrupt
sent_irq (some name) = arm_get_exception_name reset >>= find_irq 8 name reset
