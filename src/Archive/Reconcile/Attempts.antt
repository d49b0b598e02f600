-- ===== src/Archive/Reconcile/Attempts.antt =====
-- The attempts of a failed message, on the fields of the audit rows, and the checks of
-- health_monitor/reconcile.py that decide them.
use nitzan_shinnies_inspecti.Prelude.{
  some_inj, some, keep, String, ◌≡◌, refl, sym, ap, ◌∙◌, ◌↔◌, ◌⊎◌, inl, inr, Bool, true, false, not,
  ◌&&◌, Option, none, List, [], ◌∷◌, arith, All, Bool-cases, Option-cases,
}
use nitzan_shinnies_inspecti.Archive.Reconcile.Equivalence.{FailedSends, AnyRow}
use nitzan_shinnies_inspecti.Archive.Reconcile.Spec.{
  is_5xx_iff, IsInt, HasText, StatusBetween, IsInvalid, Some, iff_trans, iff_both, iff_either,
  and_iff, not_iff, text_is_iff, int_value_iff, is_validation_iff,
}
use nitzan_shinnies_inspecti.Archive.Reconcile.{
  is_5xx, attempt_indexes, status_is, is_for, is_validation_audit_row, sorted, six_indexes,
}
use nitzan_shinnies_inspecti.Prelude.Int.{ℤ, pos, ℤ-eq}
use nitzan_shinnies_inspecti.Prelude.Eq.{ℕ-eq, String-eq, pair_eq}
use nitzan_shinnies_inspecti.Json.{Json, Fields, get_field}
use nitzan_shinnies_inspecti.Archive.Values.{int_value}
use nitzan_shinnies_inspecti.Archive.Reconcile.Shuffle.{IsShuffle, sorted_iff}

pub Some-iff :
    {P : Fields → Type 0} (p : Fields → Bool) (rows : List Fields)
    → ((row : Fields) → (p row ≡ true) ↔ P row)
    → AnyRow p rows ↔ Some P rows
Some-iff p [] h = (λ x. x, λ x. x)
Some-iff p (row ∷ rows) h = iff_either (h row) (Some-iff p rows h)

-- A row of an attempt to send the message.
abbrev pub IsAttempt : String → Fields → Type 0
IsAttempt mid row = HasText row "messageId" mid × ¬ IsInvalid row

abbrev attempt : String → Fields → Bool
attempt mid row = is_for mid row && not (is_validation_audit_row row)

attempt_iff : (mid : String) (row : Fields) → (attempt mid row ≡ true) ↔ IsAttempt mid row
attempt_iff mid row = iff_trans (and_iff (is_for mid row) (not (is_validation_audit_row row))) (
    iff_both (text_is_iff mid (get_field row "messageId"))
      (not_iff (is_validation_audit_row row) (is_validation_iff row)))

-- The attempt indexes of the attempts, in the order of the rows.
abbrev pub Indexes : String → List Fields → List ℤ → Type 0
Indexes mid [] ns = ns ≡ []
Indexes mid (row ∷ rows) ns =
    (IsAttempt mid row
      × ((n : ℤ) × (rest : List ℤ) × IsInt (get_field row "attemptIndex") n
          × (ns ≡ n ∷ rest)
          × Indexes mid rows rest))
    ⊎ (¬ IsAttempt mid row × Indexes mid rows ns)

-- The attempts of a failed message: there is one, each was answered with a server error, and they have the
-- indexes 0 to 5, each once, unless one has no index.
abbrev pub FailedAttempts : String → List Fields → Type 0
FailedAttempts mid rows =
    Some (IsAttempt mid) rows
    × All (λ row. IsAttempt mid row → StatusBetween 500 599 row) rows
    × (Some (λ row. IsAttempt mid row × ((n : ℤ) → ¬ IsInt (get_field row "attemptIndex") n)) rows
        ⊎ ((ns : List ℤ) × Indexes mid rows ns
            × IsShuffle ns (pos 0 ∷ pos 1 ∷ pos 2 ∷ pos 3 ∷ pos 4 ∷ pos 5 ∷ [])))

pub IsInt-none_iff : (v : Option Json) → (int_value v ≡ none) ↔ ((n : ℤ) → ¬ IsInt v n)
IsInt-none_iff v = (
  λ h n at. absurd (ground (arith, h, (int_value_iff v n).1 at)),
  λ h. elim (Option-cases (int_value v)) [
    | inl e ↦ e
    | inr (n, e) ↦ absurd (h n ((int_value_iff v n).0 e))
  ],
)

not_none : {o : Option (List ℤ)} (ns : List ℤ) → o ≡ some ns → o ≡ none → ⊥
not_none ns e f = cc

attempt_indexes_empty : attempt_indexes [] ≡ some []
unfolding attempt_indexes
attempt_indexes_empty = refl

module _ (row : Fields) (rows : List Fields) where
  indexes-missing :
      int_value (get_field row "attemptIndex") ≡ none → attempt_indexes (row ∷ rows) ≡ none
  unfolding attempt_indexes
  indexes-missing e = rw (attempt_indexes, e) refl

  indexes-later :
      (n : ℤ)
      → int_value (get_field row "attemptIndex") ≡ some n
      → attempt_indexes rows ≡ none
      → attempt_indexes (row ∷ rows) ≡ none
  unfolding attempt_indexes
  indexes-later n e f = rw (attempt_indexes, e, f) refl

  indexes-cons :
      (n : ℤ) (ns : List ℤ)
      → int_value (get_field row "attemptIndex") ≡ some n
      → attempt_indexes rows ≡ some ns
      → attempt_indexes (row ∷ rows) ≡ some (n ∷ ns)
  unfolding attempt_indexes
  indexes-cons n ns e f = rw (attempt_indexes, e, f) refl

abbrev NotEmpty : List Fields → Type 0
NotEmpty [] = ⊥
NotEmpty (row ∷ rows) = Unit

module _ (mid : String) where
  abbrev sends : List Fields → List Fields
  sends rows = keep (attempt mid) rows

  is_no_attempt : (row : Fields) → attempt mid row ≡ false → ¬ IsAttempt mid row
  is_no_attempt row e h = absurd (ground (arith, e, (attempt_iff mid row).1 h))

  sends-NotEmpty_iff : (rows : List Fields) → NotEmpty (sends rows) ↔ Some (IsAttempt mid) rows
  sends-NotEmpty_iff [] = (λ h. h, λ h. h)
  sends-NotEmpty_iff (row ∷ rows) = elim (Bool-cases (attempt mid row)) [
    | inl e ↦ (λ h. inl ((attempt_iff mid row).0 e), λ h. rw e tt)
    | inr e ↦ (
      λ h. inr ((sends-NotEmpty_iff rows).0 (rw e at h)),
      λ h. elim h [
        | inl at ↦ absurd (is_no_attempt row e at)
        | inr later ↦ rw e ((sends-NotEmpty_iff rows).1 later)
      ],
    )
  ]

  sends-All-iff :
      (rows : List Fields)
      → All (λ r. status_is is_5xx r ≡ true) (sends rows)
        ↔ All (λ row. IsAttempt mid row → StatusBetween 500 599 row) rows
  sends-All-iff [] = (λ h. tt, λ h. tt)
  sends-All-iff (row ∷ rows) = elim (Bool-cases (attempt mid row)) [
    | inl e ↦ (
      λ h. let (x, xs) = rw e at h in (λ at. (is_5xx_iff row).0 x, (sends-All-iff rows).0 xs),
      λ (x, xs).
          rw e ((is_5xx_iff row).1 (x ((attempt_iff mid row).0 e)), (sends-All-iff rows).1 xs),
    )
    | inr e ↦ (
      λ h. (λ at. absurd (is_no_attempt row e at), (sends-All-iff rows).0 (rw e at h)),
      λ (x, xs). rw e ((sends-All-iff rows).1 xs),
    )
  ]

  attempt_indexes-none_iff :
      (rows : List Fields)
      → (attempt_indexes (sends rows) ≡ none)
        ↔ Some
            (λ row. IsAttempt mid row × ((n : ℤ) → ¬ IsInt (get_field row "attemptIndex") n))
            rows
  attempt_indexes-none_iff [] = (λ h. absurd (not_none [] (attempt_indexes_empty) h), λ h. absurd h)
  attempt_indexes-none_iff (row ∷ rows) = elim (Bool-cases (attempt mid row)) [
    | inr e ↦ (
      λ h. inr ((attempt_indexes-none_iff rows).0 (rw e at h)),
      λ h. elim h [
        | inl at ↦ absurd (is_no_attempt row e at.0)
        | inr later ↦ rw e ((attempt_indexes-none_iff rows).1 later)
      ],
    )
    | inl e ↦ elim (Option-cases (int_value (get_field row "attemptIndex"))) [
      | inl f ↦ (
        λ h. inl ((attempt_iff mid row).0 e, (IsInt-none_iff (get_field row "attemptIndex")).0 f),
        λ h. rw e (indexes-missing row (sends rows) f),
      )
      | inr (n, f) ↦ (
        λ h. elim (Option-cases (attempt_indexes (sends rows))) [
          | inl g ↦ inr ((attempt_indexes-none_iff rows).0 g)
          | inr (ns, g) ↦
              absurd (not_none (n ∷ ns) (indexes-cons row (sends rows) n ns f g) (rw e at h))
        ],
        λ h. elim h [
          | inl (at, never) ↦
              absurd (never n ((int_value_iff (get_field row "attemptIndex") n).0 f))
          | inr later ↦
              rw e (indexes-later row (sends rows) n f ((attempt_indexes-none_iff rows).1 later))
        ],
      )
    ]
  ]

  attempt_indexes_iff :
      (rows : List Fields) (ns : List ℤ)
      → (attempt_indexes (sends rows) ≡ some ns) ↔ Indexes mid rows ns
  attempt_indexes_iff [] ns = (
    λ h. sym (some_inj (sym attempt_indexes_empty ∙ h)),
    λ h. attempt_indexes_empty ∙ ap some (sym h),
  )
  attempt_indexes_iff (row ∷ rows) ns = elim (Bool-cases (attempt mid row)) [
    | inr e ↦ (
      λ h. inr (is_no_attempt row e, (attempt_indexes_iff rows ns).0 (rw e at h)),
      λ h. elim h [
        | inl (at, _) ↦ absurd (is_no_attempt row e at)
        | inr (never, later) ↦ rw e ((attempt_indexes_iff rows ns).1 later)
      ],
    )
    | inl e ↦ (
      λ h. elim (Option-cases (int_value (get_field row "attemptIndex"))) [
        | inl f ↦ absurd (not_none ns (rw e at h) (indexes-missing row (sends rows) f))
        | inr (n, f) ↦ elim (Option-cases (attempt_indexes (sends rows))) [
          | inl g ↦ absurd (not_none ns (rw e at h) (indexes-later row (sends rows) n f g))
          | inr (ms, g) ↦ inl (
            (attempt_iff mid row).0 e,
            (
              n,
              ms,
              (int_value_iff (get_field row "attemptIndex") n).0 f,
              sym (some_inj (sym (indexes-cons row (sends rows) n ms f g) ∙ (rw e at h))),
              (attempt_indexes_iff rows ms).0 g,
            ),
          )
        ]
      ],
      λ h. elim h [
        | inr (never, _) ↦ absurd (never ((attempt_iff mid row).0 e))
        | inl (at, (n, ms, f, g, later)) ↦ rw e (
            indexes-cons row (sends rows) n ms
              ((int_value_iff (get_field row "attemptIndex") n).1 f)
              ((attempt_indexes_iff rows ms).1 later)
            ∙ ap some (sym g))
      ],
    )
  ]

  FailedSends-split :
      (rows : List Fields)
      → FailedSends rows ↔ (
          NotEmpty rows
          × All (λ r. status_is is_5xx r ≡ true) rows
          × ((attempt_indexes rows ≡ none)
              ⊎ ((ns : List ℤ) × (attempt_indexes rows ≡ some ns) × (sorted ns ≡ six_indexes))))
  FailedSends-split [] = (λ h. absurd h, λ (h, k, l). h)
  FailedSends-split (row ∷ rows) = (λ (h, k). (tt, h, k), λ (t, h, k). (h, k))

  Indexes-iff :
      (rows : List Fields)
      → ((ns : List ℤ) × (attempt_indexes (sends rows) ≡ some ns) × (sorted ns ≡ six_indexes))
        ↔ ((ns : List ℤ) × Indexes mid rows ns × IsShuffle ns six_indexes)
  Indexes-iff rows = (
    λ (ns, e, f). (ns, (attempt_indexes_iff rows ns).0 e, (sorted_iff ns).0 f),
    λ (ns, e, f). (ns, (attempt_indexes_iff rows ns).1 e, (sorted_iff ns).1 f),
  )

  pub FailedAttempts-iff : (rows : List Fields) → FailedSends (sends rows) ↔ FailedAttempts mid rows
  FailedAttempts-iff rows =
      let split = FailedSends-split (sends rows) in
      let last = iff_either (attempt_indexes-none_iff rows) (Indexes-iff rows) in
      (
        λ h.
            let (x, y, z) = split.0 h in
            ((sends-NotEmpty_iff rows).0 x, (sends-All-iff rows).0 y, last.0 z),
        λ (x, y, z). split.1 ((sends-NotEmpty_iff rows).1 x, (sends-All-iff rows).1 y, last.1 z),
      )
