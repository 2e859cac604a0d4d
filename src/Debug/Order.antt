-- ===== src/Debug/Order.antt =====
-- `strcmp` is a total order.
use Prim.Native.Nat.{Ordering}
use projet_prog.Base.{ℕ, ◌≡◌, ◌≢◌, ◌↔◌, refl, ap₂, arith, List, [], ◌∷◌}
use projet_prog.Debug.{strcmp}

pub strcmp_self : (xs : List ℕ) → strcmp xs xs ≡ Ordering.eq
unfolding strcmp
strcmp_self [] = refl
strcmp_self (x ∷ xs) = ground (arith, strcmp_self xs)

strcmp_head :
    (x y : ℕ) (xs ys : List ℕ)
    → strcmp (x ∷ xs) (y ∷ ys) ≡ Ordering.eq
    → (x ≡ y) × (strcmp xs ys ≡ Ordering.eq)
unfolding strcmp
strcmp_head x y xs ys h = ground arith

pub strcmp_eq : (xs ys : List ℕ) → strcmp xs ys ≡ Ordering.eq → xs ≡ ys
unfolding strcmp
strcmp_eq [] [] h = refl
strcmp_eq [] (y ∷ ys) h = absurd (cc)
strcmp_eq (x ∷ xs) [] h = absurd (cc)
strcmp_eq (x ∷ xs) (y ∷ ys) h =
    let head = strcmp_head x y xs ys h in
    ap₂ (λ (a : ℕ) (b : List ℕ). a ∷ b) head.0 (strcmp_eq xs ys head.1)

pub strcmp_swap : (xs ys : List ℕ) → (strcmp xs ys ≡ Ordering.lt) ↔ (strcmp ys xs ≡ Ordering.gt)
unfolding strcmp
strcmp_swap [] [] = ground arith
strcmp_swap [] (y ∷ ys) = ground arith
strcmp_swap (x ∷ xs) [] = ground arith
strcmp_swap (x ∷ xs) (y ∷ ys) = ground (arith, strcmp_swap xs ys)

pub strcmp_trans :
    (xs ys zs : List ℕ)
    → strcmp xs ys ≢ Ordering.gt
    → strcmp ys zs ≢ Ordering.gt
    → strcmp xs zs ≢ Ordering.gt
unfolding strcmp
strcmp_trans [] ys [] h k = ground arith
strcmp_trans [] ys (z ∷ zs) h k = ground arith
strcmp_trans (x ∷ xs) [] zs h k = absurd (h refl)
strcmp_trans (x ∷ xs) (y ∷ ys) [] h k = absurd (k refl)
strcmp_trans (x ∷ xs) (y ∷ ys) (z ∷ zs) h k = ground (arith, strcmp_trans xs ys zs)
