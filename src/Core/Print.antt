-- ===== src/Core/Print.antt =====
-- `arm_print_state` of arm_core.c: the text that it prints.
use projet_prog.Base.{
  ℕ, zero, suc, ◌+◌, ◌-◌, ◌/◌, ◌%◌, ◌^◌, ◌≤◌, ◌<◌, ◌≡◌, ◌≢◌, refl, sym, ap, ◌∙◌, fun_ext, arith,
  Bool, true, false, ◌&&◌, ◌||◌, if◌then◌else◌, ◌==◌, ltb, List, [], ◌∷◌, ◌++◌, Option, none, some,
  Outcome, ok, ◌>>=◌,
}
use projet_prog.Constants.{usr, fiq, irq, svc, abt, und, sys}
use projet_prog.Text.{codes, length, replicate}
use projet_prog.Names.{
  get_elem, arm_mode_names, arm_register_names, arm_get_mode_name, arm_get_register_name,
}
use projet_prog.Registers.{store, get_mode, read_register, read_usr_register, read_cpsr}
use projet_prog.Registers.Bank.{place, at_place, read_register-place}
use projet_prog.Core.{Core, pc_adjust, arm_read_register, arm_read_usr_register, arm_read_cpsr}

-- "%08X" of a word.
abbrev upper_digit : ℕ → ℕ
upper_digit d = if ltb d 10 then d + 48 else d + 55

unfoldable pub print_word : ℕ → ℕ → List ℕ
print_word zero value = []
print_word (suc n) value = upper_digit (value / 16 ^ n % 16) ∷ print_word n value

-- "%3s"
abbrev pub pad_name : List ℕ → List ℕ
pad_name name = replicate (3 - length name) b' ' ++ name

-- The new line before each fifth register.
abbrev pub line_break : ℕ → List ℕ
line_break count = if ltb 0 count && count % 5 == 0 then 10 ∷ codes "    " else []

-- The loop over the registers, at `reg` with `n` rounds left; `count` of the code is `reg` too.
unfoldable pub print_mode_registers : Bool → Core → ℕ → ℕ → Outcome (List ℕ)
print_mode_registers user p zero reg = ok []
print_mode_registers user p (suc n) reg = do
  name ← arm_get_register_name reg
  rest ← print_mode_registers user p n (reg + 1)
  let value : ℕ = if user then arm_read_usr_register p reg else arm_read_register p reg
  ok (
      line_break reg
      ++ (codes "   " ++ (pad_name name ++ (codes "=" ++ (print_word 8 value ++ rest)))))

-- What comes after the registers of a mode.
abbrev pub print_end : ℕ → List ℕ
print_end mode =
    if mode == usr || (mode == fiq || (mode == svc || mode == und))
    then 10 ∷ []
    else if mode == irq || mode == abt
    then codes "          "
    else []

unfoldable pub print_mode : Core → ℕ → Option (List ℕ) → Outcome (List ℕ)
print_mode p mode none = ok []
print_mode p mode (some name) = do
  registers ← print_mode_registers (mode == usr) p 16 0
  ok (
      (if mode == sys then [] else name ++ codes ":")
      ++ (registers
          ++ ((if mode == usr then codes "  CPSR=" ++ print_word 8 (arm_read_cpsr p) else [])
              ++ print_end mode)))

-- The loop over the modes, at `mode` with `n` rounds left.
unfoldable pub print_modes : Core → ℕ → ℕ → Outcome (List ℕ)
print_modes p zero mode = ok []
print_modes p (suc n) mode = do
  name ← arm_get_mode_name mode
  text ← print_mode p mode name
  rest ← print_modes p n (mode + 1)
  ok (text ++ rest)

unfoldable pub arm_print_state : Core → Outcome (List ℕ)
arm_print_state p = print_modes p 32 0

-- Two processors that read the same in the current mode, in the user mode and in the CPSR.
record LooksLike (p q : Core) : Type 0 where
  current : (reg : ℕ) → reg < 16 → arm_read_register p reg ≡ arm_read_register q reg
  user : (reg : ℕ) → reg < 16 → arm_read_usr_register p reg ≡ arm_read_usr_register q reg
  status : arm_read_cpsr p ≡ arm_read_cpsr q

module _ (p q : Core) (l : LooksLike p q) where
  print_mode_registers-eq :
      (user : Bool) (n reg : ℕ)
      → reg + n ≤ 16
      → print_mode_registers user p n reg ≡ print_mode_registers user q n reg
  unfolding print_mode_registers
  print_mode_registers-eq user zero reg h = refl
  print_mode_registers-eq true (suc n) reg h =
      rw (print_mode_registers-eq true n (reg + 1) (omega arith), l.user reg (omega arith)) refl
  print_mode_registers-eq false (suc n) reg h =
      rw (print_mode_registers-eq false n (reg + 1) (omega arith), l.current reg (omega arith)) refl

  print_mode-eq :
      (mode : ℕ) (name : Option (List ℕ)) → print_mode p mode name ≡ print_mode q mode name
  unfolding print_mode
  print_mode-eq mode none = refl
  print_mode-eq mode (some name) =
      rw (print_mode_registers-eq (mode == usr) 16 0 (omega arith), l.status) refl

  print_modes-eq : (n mode : ℕ) → print_modes p n mode ≡ print_modes q n mode
  unfolding print_modes
  print_modes-eq zero mode = refl
  print_modes-eq (suc n) mode = rw (fun_ext (print_mode-eq mode), print_modes-eq n (mode + 1)) refl

-- A place that is none of the current mode's and not the user mode's or the CPSR.
abbrev pub IsHidden : Core → ℕ → Type 0
IsHidden p i = (17 ≤ i) × ((reg : ℕ) → reg < 16 → place (get_mode p.reg) reg ≢ some i)

abbrev pub with_hidden : Core → ℕ → ℕ → Core
with_hidden p i value = record p { reg = store p.reg i value }

>>=-ends {ℓ κ} :
    {A : Type ℓ} {B : Type κ} (o : Outcome A) (f : A → Outcome B)
    → (a : A) × (o ≡ ok a)
    → ((a : A) → (b : B) × (f a ≡ ok b))
    → (b : B) × ((o >>= f) ≡ ok b)
>>=-ends o f (a, e) k = let r = k a in (r.0, ap (λ t. t >>= f) e ∙ r.1)

get_elem-ends {ℓ} :
    {A : Type ℓ} (xs : List A) (i : ℕ) → i < length xs → (x : A) × (get_elem xs i ≡ ok x)
unfolding get_elem length
get_elem-ends [] i h = absurd (omega arith)
get_elem-ends (x ∷ xs) zero h = (x, refl)
get_elem-ends (x ∷ xs) (suc i) h = get_elem-ends xs i (omega arith)

register_name-ends : (reg : ℕ) → reg < 18 → (name : List ℕ) × (arm_get_register_name reg ≡ ok name)
unfolding arm_get_register_name length
register_name-ends reg h = get_elem-ends arm_register_names reg h

mode_name-ends :
    (mode : ℕ) → mode < 32 → (name : Option (List ℕ)) × (arm_get_mode_name mode ≡ ok name)
unfolding arm_get_mode_name length replicate
mode_name-ends mode h = get_elem-ends arm_mode_names mode h

module _ (p : Core) where
  print_mode_registers-ends :
      (user : Bool) (n reg : ℕ)
      → reg + n ≤ 16
      → (text : List ℕ) × (print_mode_registers user p n reg ≡ ok text)
  unfolding print_mode_registers
  print_mode_registers-ends user zero reg h = ([], refl)
  print_mode_registers-ends user (suc n) reg h =
      >>=-ends (arm_get_register_name reg) _ (register_name-ends reg (omega arith)) λ name.
        >>=-ends (print_mode_registers user p n (reg + 1)) _
          (print_mode_registers-ends user n (reg + 1) (omega arith)) (λ rest. (_, refl))

  print_mode-ends :
      (mode : ℕ) (name : Option (List ℕ)) → (text : List ℕ) × (print_mode p mode name ≡ ok text)
  unfolding print_mode
  print_mode-ends mode none = ([], refl)
  print_mode-ends mode (some name) =
      >>=-ends (print_mode_registers (mode == usr) p 16 0) _
        (print_mode_registers-ends (mode == usr) 16 0 (omega arith)) (λ registers. (_, refl))

  print_modes-ends :
      (n mode : ℕ) → mode + n ≤ 32 → (text : List ℕ) × (print_modes p n mode ≡ ok text)
  unfolding print_modes
  print_modes-ends zero mode h = ([], refl)
  print_modes-ends (suc n) mode h =
      >>=-ends (arm_get_mode_name mode) _ (mode_name-ends mode (omega arith)) λ name.
        >>=-ends (print_mode p mode name) _ (print_mode-ends mode name) λ text.
          >>=-ends (print_modes p n (mode + 1)) _ (print_modes-ends n (mode + 1) (omega arith))
            (λ rest. (_, refl))

-- The listing of all modes does not show their own registers: whatever the register file holds at a
-- place that belongs to another mode than the current one and the user's, the listing ends, and with
-- the same text.
pub arm_print_state-store :
    (p : Core) (i value : ℕ)
    → IsHidden p i
    → (text : List ℕ) × (arm_print_state p ≡ ok text)
      × (arm_print_state (with_hidden p i value) ≡ ok text)
unfolding arm_print_state arm_read_register arm_read_usr_register read_usr_register read_cpsr
arm_print_state-store p i value h =
    let listing = print_modes-ends p 32 0 (omega arith) in
    (listing.0, listing.1, print_modes-eq (with_hidden p i value) p looks 32 0 ∙ listing.1)
  where
    mode : get_mode (store p.reg i value) ≡ get_mode p.reg
    mode = let ne = h.0 in ground arith

    same : (o : Option ℕ) → o ≢ some i → at_place (store p.reg i value) o ≡ at_place p.reg o
    same none ne = refl
    same (some j) ne = ground arith

    read : (reg : ℕ) → reg < 16 → read_register (store p.reg i value) reg ≡ read_register p.reg reg
    read reg l =
        read_register-place (store p.reg i value) reg
        ∙ ap (λ m. at_place (store p.reg i value) (place m reg)) mode
        ∙ same (place (get_mode p.reg) reg) (h.1 reg l)
        ∙ sym (read_register-place p.reg reg)

    looks : LooksLike (with_hidden p i value) p
    looks = record {
      current = λ reg l. ap (pc_adjust reg) (read reg l);
      user = λ reg l. ap (pc_adjust reg) (let ne = h.0 in ground arith);
      status = let ne = h.0 in ground arith;
    }
