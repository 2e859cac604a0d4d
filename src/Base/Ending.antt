-- ===== src/Base/Ending.antt =====
-- How a piece of C code can end.

use mathlib.Core.Option.{Option, none, some}
use mathlib.Core.Logic.{◌⊎◌, inl, inr}
use mathlib.Core.Path.{◌≡◌, refl, ap, ◌∙◌}

-- `undefined` is an access outside of an allocated block, `exited` the end of the program by `exit`
-- or a failed assertion, and `unfinished` a loop that has not ended in the rounds it was allowed.
pub data Outcome {ℓ} (A : Type ℓ) : Type ℓ where
  ok : A → Outcome A
  undefined : Outcome A
  exited : Outcome A
  unfinished : Outcome A

infixl 5 ◌>>=◌
abbrev pub ◌>>=◌ {ℓ κ} : {A : Type ℓ} {B : Type κ} → Outcome A → (A → Outcome B) → Outcome B
ok a >>= f = f a
undefined >>= f = undefined
exited >>= f = exited
unfinished >>= f = unfinished

-- `P` holds of the value, if the code ends with one.
abbrev pub Ensures {ℓ κ} : {A : Type ℓ} → (A → Type κ) → Outcome A → Type κ
Ensures P (ok a) = P a
Ensures P undefined = Unit
Ensures P exited = Unit
Ensures P unfinished = Unit

pub Ensures->>= {ℓ κ} :
    {A : Type ℓ} {B : Type ℓ} (P : A → Type κ) (Q : B → Type κ) (o : Outcome A) (f : A → Outcome B)
    → Ensures P o
    → ((a : A) → P a → Ensures Q (f a))
    → Ensures Q (o >>= f)
Ensures->>= P Q (ok a) f h k = k a h
Ensures->>= P Q undefined f h k = tt
Ensures->>= P Q exited f h k = tt
Ensures->>= P Q unfinished f h k = tt

pub Ensures-Unit {ℓ} : {A : Type ℓ} (o : Outcome A) → Ensures (λ (a : A). Unit {0}) o
Ensures-Unit (ok a) = tt
Ensures-Unit undefined = tt
Ensures-Unit exited = tt
Ensures-Unit unfinished = tt

-- Code in sequence ends with a value only if both parts do.
pub ok-inv {ℓ κ} :
    {A : Type ℓ} {B : Type κ} (o : Outcome A) (f : A → Outcome B) {b : B}
    → (o >>= f) ≡ ok b
    → (a : A) × (o ≡ ok a) × (f a ≡ ok b)
ok-inv (ok a) f e = (a, refl, e)
ok-inv undefined f e = absurd (cc)
ok-inv exited f e = absurd (cc)
ok-inv unfinished f e = absurd (cc)

-- The code ends with a value, which satisfies `P`.
abbrev pub EndsWith {ℓ} : {A : Type ℓ} → (A → Type 0) → Outcome A → Type ℓ
EndsWith {A = A} P o = (a : A) × (o ≡ ok a) × P a

pub EndsWith->>= {ℓ κ} :
    {A : Type ℓ} {B : Type κ} {P : A → Type 0} {Q : B → Type 0} {o : Outcome A} {f : A → Outcome B}
    → EndsWith P o
    → ((a : A) → P a → EndsWith Q (f a))
    → EndsWith Q (o >>= f)
EndsWith->>= {f = f} (a, e, h) k = let r = k a h in (r.0, ap (λ o. o >>= f) e ∙ r.1, r.2)

-- How code ends without a value.
pub data Failure : Type 0 where
  leaves_block : Failure
  exits : Failure
  goes_on : Failure

abbrev pub failure {ℓ} : {A : Type ℓ} → Outcome A → Option Failure
failure (ok a) = none
failure undefined = some leaves_block
failure exited = some exits
failure unfinished = some goes_on

-- The code ends with a value, which satisfies `P`, or without one in a way that satisfies `F`.
abbrev pub EndsOr : {A : Type 0} → (Failure → Type 0) → (A → Type 0) → Outcome A → Type 0
EndsOr F P o = EndsWith P o ⊎ ((x : Failure) × (failure o ≡ some x) × F x)

failure->>= :
    {A : Type 0} {B : Type 0} (o : Outcome A) (f : A → Outcome B) (x : Failure)
    → failure o ≡ some x
    → failure (o >>= f) ≡ some x
failure->>= (ok a) f x e = absurd (cc)
failure->>= undefined f x e = e
failure->>= exited f x e = e
failure->>= unfinished f x e = e

failure->>=_ok :
    {A : Type 0} {B : Type 0} {o : Outcome A} (f : A → Outcome B) {a : A} {x : Failure}
    → o ≡ ok a
    → failure (f a) ≡ some x
    → failure (o >>= f) ≡ some x
failure->>=_ok f e h = ap (λ o. failure (o >>= f)) e ∙ h

pub EndsOr->>= :
    {A : Type 0} {B : Type 0} {F : Failure → Type 0} {P : A → Type 0} {Q : B → Type 0}
    {o : Outcome A} {f : A → Outcome B}
    → EndsOr F P o
    → ((a : A) → P a → EndsOr F Q (f a))
    → EndsOr F Q (o >>= f)
EndsOr->>= {F = F} {Q = Q} {o = o} {f = f} (inl (a, e, h)) k = go (k a h)
  where
    go : EndsOr F Q (f a) → EndsOr F Q (o >>= f)
    go (inl r) = inl (r.0, ap (λ o. o >>= f) e ∙ r.1, r.2)
    go (inr (x, e', h')) = inr (x, failure->>=_ok f e e', h')
EndsOr->>= {o = o} {f = f} (inr (x, e, h)) k = inr (x, failure->>= o f x e, h)
