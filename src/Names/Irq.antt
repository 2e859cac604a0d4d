-- ===== src/Names/Irq.antt =====
-- The exception that is sent is the one of that name.
use projet_prog.Base.{
  ℕ, zero, suc, ◌+◌, ◌%◌, ◌^◌, ◌≡◌, ◌≢◌, ◌↔◌, refl, sym, ap, ap₂, ◌∙◌, arith, Bool, true, false,
  if◌then◌else◌, ltb, List, [], ◌∷◌, Option, none, some, Outcome, undefined, exited, unfinished, ok,
  ok-inv, ◌>>=◌,
}
use projet_prog.Text.{same_text}
use projet_prog.Names.{get_elem, arm_get_exception_name, find_irq, sent_irq}

same_text_head :
    (x y : ℕ) (xs ys : List ℕ)
    → same_text (x ∷ xs) (y ∷ ys) ≡ true
    → (x ≡ y) × (same_text xs ys ≡ true)
unfolding same_text
same_text_head x y xs ys h = ground arith

same_text_eq : (xs ys : List ℕ) → same_text xs ys ≡ true → xs ≡ ys
unfolding same_text
same_text_eq [] [] h = refl
same_text_eq [] (y ∷ ys) h = absurd (cc)
same_text_eq (x ∷ xs) [] h = absurd (cc)
same_text_eq (x ∷ xs) (y ∷ ys) h =
    let head = same_text_head x y xs ys h in
    ap₂ (λ (a : ℕ) (b : List ℕ). a ∷ b) head.0 (same_text_eq xs ys head.1)

found :
    (rounds : ℕ) (name : List ℕ) (irq : ℕ) (irq_name : Option (List ℕ)) (i : ℕ)
    → arm_get_exception_name irq ≡ ok irq_name
    → find_irq rounds name irq irq_name ≡ ok i
    → arm_get_exception_name i ≡ ok (some name)
unfolding find_irq
found rounds name irq none i e h = absurd (cc)
found zero name irq (some t) i e h = absurd (cc)
found (suc rounds) name irq (some t) i e h =
    choose (λ n i' e' h'. found rounds name n i' i e' h') (same_text t name) refl h
  where
    next_irq : ℕ
    next_irq = (irq + 1) % 2 ^ 8

    next : Outcome ℕ
    next = arm_get_exception_name next_irq >>= find_irq rounds name next_irq

    choose :
        ((n : ℕ) (o : Option (List ℕ))
          → arm_get_exception_name n ≡ ok o
          → find_irq rounds name n o ≡ ok i
          → arm_get_exception_name i ≡ ok (some name))
        → (b : Bool) → same_text t name ≡ b
        → (if b then ok irq else next) ≡ ok i
        → arm_get_exception_name i ≡ ok (some name)
    choose later true q r =
        let same : irq ≡ i = cc in
        ap arm_get_exception_name (sym same)
        ∙ e
        ∙ ap (λ (s : List ℕ). ok (some s)) (same_text_eq t name q)
    choose later false q r =
        let step = ok-inv (arm_get_exception_name next_irq) (find_irq rounds name next_irq) r in
        later next_irq step.0 step.1 step.2

along :
    {t name : List ℕ} {irq : ℕ}
    → sent_irq (some t) ≡ ok irq
    → Path (Outcome (Option (List ℕ))) (ok (some t)) (ok (some name))
    → sent_irq (some name) ≡ ok irq
along {t} {name} h e =
    let same : t ≡ name = cc in ap (λ (s : List ℕ). sent_irq (some s)) (sym same) ∙ h

over : {name : List ℕ} (irq : ℕ) → ltb irq 8 ≡ false → arm_get_exception_name irq ≢ ok (some name)
unfolding arm_get_exception_name
over irq h e = ground arith

sends :
    (name : List ℕ) (irq : ℕ)
    → arm_get_exception_name irq ≡ ok (some name)
    → sent_irq (some name) ≡ ok irq
unfolding sent_irq arm_get_exception_name find_irq get_elem same_text
sends name zero e = absurd (cc)
sends name (suc zero) e = along refl e
sends name (suc (suc zero)) e = along refl e
sends name (suc (suc (suc zero))) e = along refl e
sends name (suc (suc (suc (suc zero)))) e = along refl e
sends name (suc (suc (suc (suc (suc zero))))) e = along refl e
sends name (suc (suc (suc (suc (suc (suc zero)))))) e = along refl e
sends name (suc (suc (suc (suc (suc (suc (suc zero))))))) e = along refl e
sends name (suc (suc (suc (suc (suc (suc (suc (suc n)))))))) e =
    let big : ltb (n + 8) 8 ≡ false = ground arith in
    let same : suc (suc (suc (suc (suc (suc (suc (suc n))))))) ≡ n + 8 = omega arith in
    absurd (over (n + 8) big (ap arm_get_exception_name (sym same) ∙ e))

-- An exception is sent, or the program exits.
abbrev pub Finishes : Outcome ℕ → Type 0
Finishes (ok irq) = Unit
Finishes exited = Unit
Finishes undefined = ⊥
Finishes unfinished = ⊥

if_Finishes : (b : Bool) (irq : ℕ) (o : Outcome ℕ) → Finishes o → Finishes (if b then ok irq else o)
if_Finishes true irq o h = tt
if_Finishes false irq o h = h

-- One name, and the rest of the search.
unfoldable search : ℕ → List ℕ → ℕ → Outcome ℕ
search n name irq = arm_get_exception_name irq >>= find_irq n name irq

named-Finishes :
    (n : ℕ) (name : List ℕ) (irq : ℕ) {t : List ℕ}
    → arm_get_exception_name irq ≡ ok (some t)
    → Finishes (search n name ((irq + 1) % 2 ^ 8))
    → Finishes (search (suc n) name irq)
unfolding search find_irq
named-Finishes n name irq {t} e h =
    rw e (if_Finishes (same_text t name) irq (search n name ((irq + 1) % 2 ^ 8)) h)

sent_irq-Finishes : (name : List ℕ) → Finishes (sent_irq (some name))
unfolding sent_irq search arm_get_exception_name get_elem find_irq
sent_irq-Finishes name = named-Finishes 7 name 1 refl (
    named-Finishes 6 name 2 refl (
      named-Finishes 5 name 3 refl (
        named-Finishes 4 name 4 refl (
          named-Finishes 3 name 5 refl
            (named-Finishes 2 name 6 refl (named-Finishes 1 name 7 refl tt))))))

-- The exception that is sent for a name is the one that has this name; for any other name the
-- program exits.
pub sent_irq-name :
    (name : List ℕ) (irq : ℕ)
    → ((sent_irq (some name) ≡ ok irq) ↔ (arm_get_exception_name irq ≡ ok (some name)))
      × Finishes (sent_irq (some name))
unfolding sent_irq
sent_irq-name name irq = (
  (
    λ e.
        let step = ok-inv (arm_get_exception_name 1) (find_irq 8 name 1) e in
        found 8 name 1 step.0 irq step.1 step.2,
    sends name irq,
  ),
  sent_irq-Finishes name,
)
