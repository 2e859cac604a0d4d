-- ===== src/Debug/Find.antt =====
-- The search of `__is_debugged` finds exactly the files of the table.
use Prim.Native.Nat.{Ordering}
use projet_prog.Base.{
  ℕ, zero, suc, ◌+◌, ◌-◌, ◌/◌, ◌≤◌, ◌<◌, ◌≡◌, ◌↔◌, inl, inr, refl, sym, ap, ◌∙◌, arith, Bool, true,
  false, ltb, lt→ltb, ◌==◌, Bool-cases, List, Outcome, ok,
}
use projet_prog.Debug.{strcmp, Files, Debugged, compare_at, search_file, is_debugged}
use projet_prog.Debug.Order.{strcmp_self, strcmp_eq, strcmp_swap}
use projet_prog.Debug.Table.{Listed, IsSorted, IsTable, Ordering-cases}

-- The search ends, with the answer.
abbrev Finds : Files → ℕ → List ℕ → Outcome Bool → Type 0
Finds files n name o = (b : Bool) × (o ≡ ok b) × ((b ≡ true) ↔ Listed files n name)

compare_at_in :
    (files : Files) (i : ℕ) (name : List ℕ)
    → i < 64
    → compare_at files i name ≡ ok (strcmp (files i) name)
unfolding compare_at
compare_at_in files i name h = rw (lt→ltb i 64 h)

module _ (files : Files) (n : ℕ) (name : List ℕ) (room : n ≤ 64) (s : IsSorted files n) where
  -- A file equal to `name` is in the range.
  abbrev InRange : ℕ → ℕ → Type 0
  InRange from past = (k : ℕ) → k < n → files k ≡ name → (from ≤ k) × (k < past)

  above :
      (m k : ℕ) → m < n → k < n → strcmp (files m) name ≡ Ordering.lt → files k ≡ name → m + 1 ≤ k
  above m k l l' c e = elim (Bool-cases (ltb m k)) [
    | inl b ↦ ground arith
    | inr b ↦ absurd (s k m (ground arith) l (rw e ((strcmp_swap (files m) name).0 c)))
  ]

  below : (m k : ℕ) → m < n → k < n → strcmp (files m) name ≡ Ordering.gt → files k ≡ name → k < m
  below m k l l' c e = elim (Bool-cases (ltb k m)) [
    | inl b ↦ ground arith
    | inr b ↦ absurd (s m k (ground arith) l' (rw e c))
  ]

  -- Nothing is listed outside of an empty range, and the last file decides a range of one.
  empty : (from past : ℕ) → past ≤ from → InRange from past → ¬ Listed files n name
  empty from past h range l = let r = range l.0 l.1 l.2 in omega arith

  last_file :
      (from past : ℕ)
      → from + 1 ≡ past
      → past ≤ n
      → InRange from past
      → Listed files n name
      → strcmp (files from) name ≡ Ordering.eq
  last_file from past h p range l =
      let r = range l.0 l.1 l.2 in
      let same : l.0 ≡ from = omega arith in
      ap (λ (k : ℕ). strcmp (files k) name) (sym same)
      ∙ ap (λ (t : List ℕ). strcmp t name) l.2
      ∙ strcmp_self name

  search_file_lem :
      (rounds from past : ℕ)
      → from ≤ past
      → past ≤ n
      → past < from + rounds
      → InRange from past
      → Finds files n name (search_file rounds files name from past)
  unfolding search_file
  search_file_lem zero from past h p r range = absurd (omega arith)
  search_file_lem (suc rounds) from past h p r range = elim (Bool-cases (ltb (from + 1) past)) [
    | inl e ↦
        let middle = (from + (past - 1)) / 2 in
        let inside : middle < n = ground arith in
        let read = compare_at_in files middle name (omega arith) in
        elim (Ordering-cases (strcmp (files middle) name)) [
          | inl c ↦
              rw (e, read, c)
                (search_file_lem rounds (middle + 1) past (ground arith) p (ground arith)
                  (λ k l q. (above middle k inside l c q, (range k l q).1)))
          | inr (inl c) ↦
              rw (e, read, c) ((true, refl, (λ _. (middle, inside, strcmp_eq _ _ c), λ _. refl)))
          | inr (inr c) ↦
              rw (e, read, c)
                (search_file_lem rounds from middle (ground arith) (ground arith) (ground arith)
                  (λ k l q. ((range k l q).0, below middle k inside l c q)))
        ]
    | inr e ↦ elim (Bool-cases (from + 1 == past)) [
      | inl e' ↦
          let one : from + 1 ≡ past = ground arith in
          let read = compare_at_in files from name (omega arith) in
          elim (Ordering-cases (strcmp (files from) name)) [
            | inl c ↦
                rw (e, e', read, c)
                  (
                    false,
                    refl,
                    (
                      λ q. absurd (cc),
                      λ l. let q = last_file from past one p range l in absurd (cc),
                    ),
                  )
            | inr (inl c) ↦
                rw (e, e', read, c)
                  (true, refl, (λ _. (from, omega arith, strcmp_eq _ _ c), λ _. refl))
            | inr (inr c) ↦
                rw (e, e', read, c)
                  (
                    false,
                    refl,
                    (
                      λ q. absurd (cc),
                      λ l. let q = last_file from past one p range l in absurd (cc),
                    ),
                  )
          ]
      | inr e' ↦
          rw (e, e')
            (false, refl, (λ q. absurd (cc), λ l. absurd (empty from past (ground arith) range l)))
    ]
  ]

-- On a table in order the search ends, with 1 exactly for the files of the table, and stays within
-- the array.
pub is_debugged-Listed :
    (d : Debugged) (name : List ℕ)
    → IsTable d
    → (b : Bool) × (is_debugged d name ≡ ok b)
      × ((b ≡ true) ↔ Listed d.debugged_files d.nb_debugged_files name)
unfolding is_debugged
is_debugged-Listed d name t =
    search_file_lem d.debugged_files d.nb_debugged_files name t.room t.sorted
      (d.nb_debugged_files + 1) 0 d.nb_debugged_files (omega arith) (omega arith) (omega arith)
      (λ k l e. (omega arith, l))
