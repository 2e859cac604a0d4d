-- ===== src/Simulator/Options.antt =====
-- What the options set: the trace's flags, and the files that are debugged.
use projet_prog.Base.{
  ℕ, ◌+◌, ◌≤◌, ◌<◌, ◌≡◌, ◌⊎◌, ◌↔◌, inl, inr, refl, arith, Bool, true, List, [], ◌∷◌, ok, EndsWith,
  EndsWith->>=, subst, ◌≢◌,
}
use projet_prog.Text.{length}
use projet_prog.Debug.{Debugged, is_debugged}
use projet_prog.Debug.Table.{Listed, IsTable}
use projet_prog.Debug.Insert.{add_debug_to-IsTable}
use projet_prog.Debug.Find.{is_debugged-Listed}
use projet_prog.Simulator.{Settings, set_option, set_options, first_settings}

module _ (opens : List ℕ → Bool) where
  -- An option that does not end the program.
  abbrev pub IsKnown : ℕ × List ℕ → Type 0
  IsKnown o =
      (o.0 ≡ b'g')
      ⊎ ((o.0 ≡ b'i')
          ⊎ (((o.0 ≡ b't') × (opens o.1 ≡ true))
              ⊎ ((o.0 ≡ b'r') ⊎ ((o.0 ≡ b'm') ⊎ ((o.0 ≡ b's') ⊎ ((o.0 ≡ b'p') ⊎ (o.0 ≡ b'd')))))))

  abbrev pub AreKnown : List (ℕ × List ℕ) → Type 0
  AreKnown [] = Unit
  AreKnown (o ∷ os) = IsKnown o × AreKnown os

-- `name` is the argument of some `-d`.
abbrev pub Asked : List (ℕ × List ℕ) → List ℕ → Type 0
Asked [] name = ⊥
Asked (o ∷ os) name = ((o.0 ≡ b'd') × (o.1 ≡ name)) ⊎ Asked os name

module _ (opens : List ℕ → Bool) where
  -- After one option: the table is in order, lists what it listed and the option's file, and has at
  -- most one file more.
  record Extends (s : Settings) (opt : ℕ) (optarg : List ℕ) (s' : Settings) : Type 0 where
    table : IsTable s'.debugged
    count : s'.debugged.nb_debugged_files ≤ s.debugged.nb_debugged_files + 1
    listed :
        (x : List ℕ)
        → Listed s'.debugged.debugged_files s'.debugged.nb_debugged_files x ↔ (
            ((opt ≡ b'd') × (optarg ≡ x))
            ⊎ Listed s.debugged.debugged_files s.debugged.nb_debugged_files x)

  kept :
      (s s' : Settings) (opt : ℕ) (optarg : List ℕ)
      → opt ≢ b'd'
      → IsTable s.debugged
      → s.debugged ≡ s'.debugged
      → Extends s opt optarg s'
  kept s s' opt optarg n t e = record {
    table = subst IsTable e t;
    count =
        subst (λ (d : Debugged). d.nb_debugged_files ≤ s.debugged.nb_debugged_files + 1) e
          (omega arith);
    listed = λ x.
        subst
          (λ (d : Debugged). Listed d.debugged_files d.nb_debugged_files x ↔ (
            ((opt ≡ b'd') × (optarg ≡ x))
            ⊎ Listed s.debugged.debugged_files s.debugged.nb_debugged_files x))
          e (λ l. inr l, λ c. elim c [ inl q ↦ absurd (n q.0) | inr l ↦ l ]);
  }

  set_option-Extends :
      (s : Settings) (opt : ℕ) (optarg : List ℕ)
      → IsTable s.debugged
      → s.debugged.nb_debugged_files < 64
      → IsKnown opens (opt, optarg)
      → EndsWith (Extends s opt optarg) (set_option opens s opt optarg)
  unfolding set_option
  set_option-Extends s opt optarg t h (inl e) =
      rw e (_, refl, kept s _ b'g' optarg (omega arith) t refl)
  set_option-Extends s opt optarg t h (inr (inl e)) =
      rw e (_, refl, kept s _ b'i' optarg (omega arith) t refl)
  set_option-Extends s opt optarg t h (inr (inr (inl (e, f)))) =
      rw (e, f) (_, refl, kept s _ b't' optarg (omega arith) t refl)
  set_option-Extends s opt optarg t h (inr (inr (inr (inl e)))) =
      rw e (_, refl, kept s _ b'r' optarg (omega arith) t refl)
  set_option-Extends s opt optarg t h (inr (inr (inr (inr (inl e))))) =
      rw e (_, refl, kept s _ b'm' optarg (omega arith) t refl)
  set_option-Extends s opt optarg t h (inr (inr (inr (inr (inr (inl e)))))) =
      rw e (_, refl, kept s _ b's' optarg (omega arith) t refl)
  set_option-Extends s opt optarg t h (inr (inr (inr (inr (inr (inr (inl e))))))) =
      rw e (_, refl, kept s _ b'p' optarg (omega arith) t refl)
  set_option-Extends s opt optarg t h (inr (inr (inr (inr (inr (inr (inr e))))))) =
      let added = add_debug_to-IsTable s.debugged optarg t h in
      rw (e, added.1)
        (
          record s { debugged = added.0 },
          refl,
          record {
            table = added.2;
            count = omega (arith, added.3);
            listed = λ x. asked x (added.4 x);
          },
        )
    where
      asked :
          {A B : Type 0} (x : List ℕ)
          → (A ↔ ((optarg ≡ x) ⊎ B))
          → (A ↔ (((◌≡◌ {A = ℕ} b'd' b'd') × (optarg ≡ x)) ⊎ B))
      asked x e = (
        λ a. elim (e.0 a) [ inl q ↦ inl (refl, q) | inr b ↦ inr b ],
        λ c. elim c [ inl q ↦ e.1 (inl q.1) | inr b ↦ e.1 (inr b) ],
      )

  set_options-Listed :
      (s : Settings) (os : List (ℕ × List ℕ))
      → IsTable s.debugged
      → s.debugged.nb_debugged_files + length os ≤ 64
      → AreKnown opens os
      → EndsWith
          (λ (s' : Settings).
            IsTable s'.debugged
            × ((x : List ℕ)
                → Listed s'.debugged.debugged_files s'.debugged.nb_debugged_files x
                  ↔ (Asked os x ⊎ Listed s.debugged.debugged_files s.debugged.nb_debugged_files x)))
          (set_options opens s os)
  unfolding set_options length
  set_options-Listed s [] t h k =
      (s, refl, (t, λ x. (λ l. inr l, λ c. elim c [ inl q ↦ absurd q | inr l ↦ l ])))
  set_options-Listed s (o ∷ os) t h k =
      EndsWith->>= (set_option-Extends s o.0 o.1 t (omega arith) k.0) (λ s' e.
        let rest = set_options-Listed s' os e.table (omega (arith, e.count)) k.1 in
        (rest.0, rest.1, ((rest.2).0, λ x. both x (e.listed x) ((rest.2).1 x))))
    where
      both : {A B C D E : Type 0} (x : List ℕ) → (B ↔ (C ⊎ D)) → (A ↔ (E ⊎ B)) → (A ↔ ((C ⊎ E) ⊎ D))
      both x f g = (
        λ a. elim (g.0 a) [
          | inl e ↦ inl (inr e)
          | inr b ↦ elim (f.0 b) [ inl c ↦ inl (inl c) | inr d ↦ inr d ]
        ],
        λ t. elim t [
          | inl (inl c) ↦ g.1 (inr (f.1 (inl c)))
          | inl (inr e) ↦ g.1 (inl e)
          | inr d ↦ g.1 (inr (f.1 (inr d)))
        ],
      )

  -- With at most 64 options, all known and with a trace file that opens, the program goes on, and the
  -- files that are debugged are exactly those that a `-d` names.
  pub set_options-is_debugged :
      (os : List (ℕ × List ℕ))
      → length os ≤ 64
      → AreKnown opens os
      → EndsWith
          (λ (s : Settings).
            (x : List ℕ)
            → (b : Bool) × (is_debugged s.debugged x ≡ ok b) × ((b ≡ true) ↔ Asked os x))
          (set_options opens first_settings os)
  set_options-is_debugged os h k =
      let set = set_options-Listed first_settings os empty (omega arith) k in
      (
        set.0,
        set.1,
        λ x.
            let found = is_debugged-Listed (set.0).debugged x (set.2).0 in
            let listed = (set.2).1 x in
            (
              found.0,
              found.1,
              (
                λ e. elim (listed.0 ((found.2).0 e)) [
                  | inl a ↦ a
                  | inr l ↦ absurd (omega (arith, l.1))
                ],
                λ a. (found.2).1 (listed.1 (inl a)),
              ),
            ),
      )
    where
      empty : IsTable first_settings.debugged
      empty = record { room = omega arith; sorted = λ i j l l'. absurd (omega arith) }
