-- ===== src/Debug/Insert.antt =====
-- `add_debug_to` on a table with room, and on a full one.
use Prim.Native.Nat.{Ordering}
use projet_prog.Base.{
  ℕ, suc, ◌+◌, ◌-◌, ◌≤◌, ◌<◌, ◌≡◌, ◌≢◌, ◌⊎◌, ◌↔◌, inl, inr, refl, sym, ap, ◌∙◌, arith, false,
  if◌then◌else◌, ltb, leb, lt→ltb, ◌==◌, Bool-cases, List, ok, undefined,
}
use projet_prog.Debug.{strcmp, Files, Debugged, store_file, place_of, shift_files, add_debug_to}
use projet_prog.Debug.Order.{strcmp_self, strcmp_swap, strcmp_trans}
use projet_prog.Debug.Table.{Listed, IsSorted, IsTable}
use projet_prog.Debug.Place.{Stops, place_of-Stops, shifted, shift_files_lem}

-- The files after both loops and the store.
abbrev pub inserted : ℕ → ℕ → List ℕ → Files → Files
inserted p n name files k = if p == k then name else shifted p (n - p) files k

-- The three sides of the new file.
inserted_cases :
    (p n : ℕ) (name : List ℕ) (files : Files) (k : ℕ)
    → k ≤ n
    → ((k < p) × (inserted p n name files k ≡ files k))
      ⊎ (((k ≡ p) × (inserted p n name files k ≡ name))
          ⊎ ((p < k) × (inserted p n name files k ≡ files (k - 1))))
inserted_cases p n name files k h = elim (Bool-cases (ltb k p)) [
  | inl e ↦ inl (ground arith, ground arith)
  | inr e ↦ elim (Bool-cases (p == k)) [
    | inl e' ↦ inr (inl (ground arith, ground arith))
    | inr e' ↦ inr (inr (ground arith, ground arith))
  ]
]

le_along :
    {a a' b b' : List ℕ} → a ≡ a' → b ≡ b' → strcmp a' b' ≢ Ordering.gt → strcmp a b ≢ Ordering.gt
le_along q r h = rw (q, r) h

add_debug_to_lem :
    (d : Debugged) (name : List ℕ)
    → d.nb_debugged_files < 64
    → let p = place_of d.debugged_files name d.nb_debugged_files 0 in
      add_debug_to d name
      ≡ ok (record {
        debugged_files = inserted p d.nb_debugged_files name d.debugged_files;
        nb_debugged_files = d.nb_debugged_files + 1;
      })
unfolding add_debug_to store_file
add_debug_to_lem d name h =
    let p = place_of d.debugged_files name d.nb_debugged_files 0 in
    let s = place_of-Stops d.debugged_files name d.nb_debugged_files 0 (omega arith) in
    let small : leb 64 p ≡ false = ground (arith, s.to) in
    rw (
      small,
      shift_files_lem p (d.nb_debugged_files - p) d.debugged_files (omega (arith, s.to)),
      lt→ltb p 64 (omega (arith, s.to)),
    )

module _ (files : Files) (n p : ℕ) (name : List ℕ) (s : IsSorted files n)
    (stops : Stops files name 0 n p) where
  -- `name` is not after any file from `p` on.
  name_le : (k : ℕ) → p ≤ k → k < n → strcmp name (files k) ≢ Ordering.gt
  name_le k l l' =
      strcmp_trans name (files p) (files k)
        (λ e. stops.after (omega arith) ((strcmp_swap (files p) name).1 e)) (s p k l l')

  le_name : (k : ℕ) → k < p → strcmp (files k) name ≢ Ordering.gt
  le_name k l e = let b = stops.before k (omega arith) l in absurd (cc)

  inserted-IsSorted : IsSorted (inserted p n name files) (n + 1)
  inserted-IsSorted i j h l = elim (inserted_cases p n name files i (omega arith)) [
    | inl (a, q) ↦ elim (inserted_cases p n name files j (omega arith)) [
      | inl (b, r) ↦ le_along q r (s i j h (omega (arith, stops.to)))
      | inr (inl (b, r)) ↦ le_along q r (le_name i a)
      | inr (inr (b, r)) ↦ le_along q r (s i (j - 1) (omega arith) (omega arith))
    ]
    | inr (inl (a, q)) ↦ elim (inserted_cases p n name files j (omega arith)) [
      | inl (b, r) ↦ absurd (omega arith)
      | inr (inl (b, r)) ↦ le_along q r (λ e. let k = strcmp_self name in absurd (cc))
      | inr (inr (b, r)) ↦ le_along q r (name_le (j - 1) (omega arith) (omega arith))
    ]
    | inr (inr (a, q)) ↦ elim (inserted_cases p n name files j (omega arith)) [
      | inl (b, r) ↦ absurd (omega arith)
      | inr (inl (b, r)) ↦ absurd (omega arith)
      | inr (inr (b, r)) ↦ le_along q r (s (i - 1) (j - 1) (omega arith) (omega arith))
    ]
  ]

  Listed-inserted :
      (x : List ℕ) → Listed (inserted p n name files) (n + 1) x ↔ ((name ≡ x) ⊎ Listed files n x)
  Listed-inserted x = (to, from)
    where
      to : Listed (inserted p n name files) (n + 1) x → (name ≡ x) ⊎ Listed files n x
      to (k, l, e) = elim (inserted_cases p n name files k (omega arith)) [
        | inl (a, q) ↦ inr (k, omega (arith, stops.to), sym q ∙ e)
        | inr (inl (a, q)) ↦ inl (sym q ∙ e)
        | inr (inr (a, q)) ↦ inr (k - 1, omega arith, sym q ∙ e)
      ]

      from : (name ≡ x) ⊎ Listed files n x → Listed (inserted p n name files) (n + 1) x
      from (inl e) = (p, omega (arith, stops.to), ground arith)
      from (inr (k, l, e)) = elim (Bool-cases (ltb k p)) [
        | inl b ↦ (k, omega arith, ground arith)
        | inr b ↦ (
          k + 1,
          omega arith,
          let prev : k + 1 - 1 ≡ k = omega arith in ground (arith, ap files prev) ∙ e,
        )
      ]

-- A full table.
pub add_debug_to_full :
    (d : Debugged) (name : List ℕ)
    → IsTable d
    → d.nb_debugged_files ≡ 64
    → (strcmp (d.debugged_files 63) name ≡ Ordering.lt → add_debug_to d name ≡ ok d)
      × (strcmp (d.debugged_files 63) name ≢ Ordering.lt → add_debug_to d name ≡ undefined)
unfolding add_debug_to shift_files store_file
add_debug_to_full d name t h = (ignored, overflows)
  where
    p : ℕ
    p = place_of d.debugged_files name d.nb_debugged_files 0

    stops : Stops d.debugged_files name 0 d.nb_debugged_files p
    stops = place_of-Stops d.debugged_files name d.nb_debugged_files 0 (omega arith)

    ignored : strcmp (d.debugged_files 63) name ≡ Ordering.lt → add_debug_to d name ≡ ok d
    ignored e = elim (Bool-cases (leb 64 p)) [
      | inl b ↦ rw b
      | inr b ↦ absurd (
          name_le d.debugged_files d.nb_debugged_files p name t.sorted stops 63 (ground arith)
            (omega arith) ((strcmp_swap (d.debugged_files 63) name).0 e))
    ]

    overflows : strcmp (d.debugged_files 63) name ≢ Ordering.lt → add_debug_to d name ≡ undefined
    overflows e = elim (Bool-cases (leb 64 p)) [
      | inl b ↦ absurd (e (stops.before 63 (omega arith) (ground arith)))
      | inr b ↦
          let rounds : d.nb_debugged_files - p ≡ suc (63 - p) = ground arith in
          let outside : ltb (p + suc (63 - p)) 64 ≡ false = ground arith in rw (b, rounds, outside)
    ]

-- A table with room takes the file, stays in order, and then lists it besides what it listed before.
pub add_debug_to-IsTable :
    (d : Debugged) (name : List ℕ)
    → IsTable d
    → d.nb_debugged_files < 64
    → (d' : Debugged) × (add_debug_to d name ≡ ok d')
      × IsTable d'
      × (d'.nb_debugged_files ≡ d.nb_debugged_files + 1)
      × ((x : List ℕ)
          → Listed d'.debugged_files d'.nb_debugged_files x
            ↔ ((name ≡ x) ⊎ Listed d.debugged_files d.nb_debugged_files x))
add_debug_to-IsTable d name t h =
    let files = d.debugged_files in
    let n = d.nb_debugged_files in
    let p = place_of files name n 0 in
    let stops = place_of-Stops files name n 0 (omega arith) in
    (
      record { debugged_files = inserted p n name files; nb_debugged_files = n + 1 },
      add_debug_to_lem d name h,
      record { room = omega arith; sorted = inserted-IsSorted files n p name t.sorted stops },
      refl,
      Listed-inserted files n p name t.sorted stops,
    )
