-- ===== src/LoadStore/Multiple/Reglist.antt =====
-- The register list of a multiple transfer.
use mathlib.Core.List.{Memᴰ}
use projet_prog.Base.{
  ℕ, zero, suc, ◌+◌, ◌≤◌, ◌<◌, ◌≡◌, refl, sym, arith, Bool, true, false, if◌then◌else◌, truthy, inl,
  inr, ◌⊎◌, ◌↔◌, List, ◌∷◌, subst,
}
use projet_prog.Bits.{get_bit}
use projet_prog.Registers.Copy.{AreNumbers}
use projet_prog.LoadStore.Multiple.{reglist_from, creer_reglist}

member_cases :
    (b : Bool) (r i : ℕ) (rest : List ℕ)
    → Memᴰ r (if b then i ∷ rest else rest)
    → ((b ≡ true) × (r ≡ i)) ⊎ Memᴰ r rest
member_cases true r i rest (Memᴰ.head e) = inl (refl, e)
member_cases true r i rest (Memᴰ.tail m) = inr m
member_cases false r i rest m = inr m

member_later :
    (b : Bool) (r i : ℕ) (rest : List ℕ) → Memᴰ r rest → Memᴰ r (if b then i ∷ rest else rest)
member_later true r i rest m = Memᴰ.tail m
member_later false r i rest m = m

reglist_from_sound :
    (ins n i r : ℕ) → Memᴰ r (reglist_from ins n i) → (i ≤ r) × (r < i + n) × (get_bit ins r ≡ 1)
unfolding reglist_from
reglist_from_sound ins zero i r m = elim m [ ]
reglist_from_sound ins (suc n) i r m =
    elim (member_cases (truthy (get_bit ins i)) r i (reglist_from ins n (i + 1)) m) [
      | inl h ↦ (
        omega (arith, h.1),
        omega (arith, h.1),
        subst (λ (t : ℕ). get_bit ins t ≡ 1) (sym h.1) (ground arith),
      )
      | inr m' ↦
          let h = reglist_from_sound ins n (i + 1) r m' in
          (omega (arith, h.0), omega (arith, h.1), h.2)
    ]

reglist_from_complete :
    (ins n i r : ℕ) → i ≤ r → r < i + n → get_bit ins r ≡ 1 → Memᴰ r (reglist_from ins n i)
unfolding reglist_from
reglist_from_complete ins zero i r p q b = absurd (omega arith)
reglist_from_complete ins (suc n) i r p q b = elim (eq_or_lt i r p) [
  | inl e ↦ let t : truthy (get_bit ins i) ≡ true = rw e (rw b) in rw t (Memᴰ.head (sym e))
  | inr l ↦
      member_later (truthy (get_bit ins i)) r i (reglist_from ins n (i + 1))
        (reglist_from_complete ins n (i + 1) r (omega arith) (omega arith) b)
]
  where
    eq_or_lt : (i r : ℕ) → i ≤ r → (i ≡ r) ⊎ (i < r)
    eq_or_lt i r h = omega arith

-- The list holds exactly the registers whose bits are set among the sixteen low ones of the
-- instruction.
pub creer_reglist-get_bit :
    (ins r : ℕ) → Memᴰ r (creer_reglist ins) ↔ ((r < 16) × (get_bit ins r ≡ 1))
unfolding creer_reglist
creer_reglist-get_bit ins r = (
  λ m. let h = reglist_from_sound ins 16 0 r m in (omega (arith, h.1), h.2),
  λ h. reglist_from_complete ins 16 0 r (omega arith) (omega (arith, h.0)) h.1,
)

reglist_from-AreNumbers : (ins n i : ℕ) → i + n ≤ 16 → AreNumbers (reglist_from ins n i)
unfolding reglist_from
reglist_from-AreNumbers ins zero i l = tt
reglist_from-AreNumbers ins (suc n) i l =
    go (truthy (get_bit ins i)) (reglist_from ins n (i + 1))
      (reglist_from-AreNumbers ins n (i + 1) (omega arith))
  where
    go : (b : Bool) (rest : List ℕ) → AreNumbers rest → AreNumbers (if b then i ∷ rest else rest)
    go true rest a = (omega arith, a)
    go false rest a = a

pub creer_reglist-AreNumbers : (ins : ℕ) → AreNumbers (creer_reglist ins)
unfolding creer_reglist
creer_reglist-AreNumbers ins = reglist_from-AreNumbers ins 16 0 (omega arith)
