-- ===== src/Debug/Place.antt =====
-- The two loops of `add_debug_to`: the place of a new name, and the shift of the names after it.
use Prim.Native.Nat.{Ordering}
use projet_prog.Base.{
  ℕ, zero, suc, ◌+◌, ◌-◌, ◌≤◌, ◌<◌, ◌≡◌, ◌≢◌, ◌⊎◌, inl, inr, refl, sym, ap, ◌∙◌, fun_ext, arith,
  ◌&&◌, if◌then◌else◌, ltb, leb, lt→ltb, ◌==◌, Bool-cases, List, ok,
}
use projet_prog.Debug.{strcmp, Files, store_file, place_of, shift_files}
use projet_prog.Debug.Table.{Ordering-cases}

-- Where the first loop stops.
pub record Stops (files : Files) (name : List ℕ) (i n p : ℕ) : Type 0 where
  pub from : i ≤ p
  pub to : p ≤ i + n
  pub before : (k : ℕ) → i ≤ k → k < p → strcmp (files k) name ≡ Ordering.lt
  pub after : p < i + n → strcmp (files p) name ≢ Ordering.lt

pub place_of-Stops :
    (files : Files) (name : List ℕ) (n i : ℕ)
    → i + n ≤ 64
    → Stops files name i n (place_of files name n i)
unfolding place_of
place_of-Stops files name zero i h = record {
  from = omega arith;
  to = omega arith;
  before = λ k l l'. absurd (omega arith);
  after = λ l. absurd (omega arith);
}
place_of-Stops files name (suc n) i h = elim (Ordering-cases (strcmp (files i) name)) [
  | inl c ↦
      let next = place_of-Stops files name n (i + 1) (omega arith) in
      rw (lt→ltb i 64 (omega arith), c)
        (record {
          from = omega (arith, next.from);
          to = omega (arith, next.to);
          before = λ k l l'. elim (Bool-cases (i == k)) [
            | inl e ↦
                let same : i ≡ k = ground arith in
                ap (λ (j : ℕ). strcmp (files j) name) (sym same) ∙ c
            | inr e ↦ next.before k (ground arith) l'
          ];
          after = λ l. next.after (omega arith);
        })
  | inr c ↦ rw (lt→ltb i 64 (omega arith)) (stop (strcmp (files i) name) c refl)
]
  where
    stop :
        (o : Ordering)
        → (o ≡ Ordering.eq) ⊎ (o ≡ Ordering.gt)
        → strcmp (files i) name ≡ o
        → Stops files name i
            (suc n)
            (elim o [ Ordering.lt ↦ place_of files name n (i + 1) | _ ↦ i ])
    stop Ordering.lt c e = ground arith
    stop Ordering.eq c e = record {
      from = omega arith;
      to = omega arith;
      before = λ k l l'. absurd (omega arith);
      after = λ l q. absurd (cc);
    }
    stop Ordering.gt c e = record {
      from = omega arith;
      to = omega arith;
      before = λ k l l'. absurd (omega arith);
      after = λ l q. absurd (cc);
    }

-- The files after the second loop.
abbrev pub shifted : ℕ → ℕ → Files → Files
shifted i n files k = if ltb i k && leb k (i + n) then files (k - 1) else files k

pub shift_files_lem :
    (i n : ℕ) (files : Files) → i + n < 64 → shift_files i n files ≡ ok (shifted i n files)
unfolding shift_files store_file
shift_files_lem i zero files h = ap ok (fun_ext (λ k. ground arith))
shift_files_lem i (suc n) files h = rw (lt→ltb (i + suc n) 64 h) (
    shift_files_lem i n (λ k. if i + suc n == k then files (i + n) else files k) (omega arith)
    ∙ ap ok (fun_ext (λ k. pointwise k)))
  where
    pointwise :
        (k : ℕ)
        → shifted i n (λ j. if i + suc n == j then files (i + n) else files j) k
          ≡ shifted i (suc n) files k
    pointwise k = elim (Bool-cases (i + suc n == k)) [
      | inl e ↦ let prev : i + n ≡ k - 1 = ground arith in ground (arith, ap files prev)
      | inr e ↦ ground arith
    ]
