-- ===== src/Debug/Table.antt =====
-- The table of `add_debug_to`: what it lists, and its order.
use Prim.Native.Nat.{Ordering}
use projet_prog.Base.{ℕ, ◌≤◌, ◌<◌, ◌≡◌, ◌≢◌, ◌⊎◌, inl, inr, refl, List}
use projet_prog.Debug.{strcmp, max_files_number, Files, Debugged}

-- Among the first `n` files.
abbrev pub Listed : Files → ℕ → List ℕ → Type 0
Listed files n name = (i : ℕ) × (i < n) × (files i ≡ name)

abbrev pub IsSorted : Files → ℕ → Type 0
IsSorted files n = (i j : ℕ) → i ≤ j → j < n → strcmp (files i) (files j) ≢ Ordering.gt

-- The table fits in the array and is in order.
pub record IsTable (d : Debugged) : Type 0 where
  pub room : d.nb_debugged_files ≤ max_files_number
  pub sorted : IsSorted d.debugged_files d.nb_debugged_files

-- To split on a comparison and keep the equation.
pub Ordering-cases : (o : Ordering) → (o ≡ Ordering.lt) ⊎ ((o ≡ Ordering.eq) ⊎ (o ≡ Ordering.gt))
Ordering-cases Ordering.lt = inl refl
Ordering-cases Ordering.eq = inr (inl refl)
Ordering-cases Ordering.gt = inr (inr refl)
