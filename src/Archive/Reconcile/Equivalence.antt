-- ===== src/Archive/Reconcile/Equivalence.antt =====
-- When the checks of a snapshot find nothing.
use nitzan_shinnies_inspecti.Json.{Fields, end, get_field}
use nitzan_shinnies_inspecti.Prelude.Dict.{Dict, get, or_default}
use nitzan_shinnies_inspecti.Prelude.Int.{◌+ℤ◌, ◌<ℤ◌, ◌≤ℤ◌, ℤ, ℤ-eq}
use nitzan_shinnies_inspecti.Prelude.{
  ◌&&◌, String, Bool-cases, Option-cases, ◌+◌, ◌≡◌, refl, sym, ap, ◌∙◌, ◌↔◌, ◌⊎◌, inl, inr, Bool,
  true, false, none, some, List, [], ◌∷◌, ◌++◌, arith, length, All,
}
use nitzan_shinnies_inspecti.Archive.Values.{int_value, text_is, equals_int}
use nitzan_shinnies_inspecti.Archive.Reconcile.Rules.{
  is_ambiguous, lifecycle_has, is_overdue, pending_grace_violations, success_violations,
  failed_violations_of, failed_violations, sent_id, phantom_audit_violations, reconcile_integrity,
}
use nitzan_shinnies_inspecti.Archive.Reconcile.{
  is_success_row, is_for, is_send, LifecycleSnapshot, terminal_failed_body_violations,
  audit_rows_for_terminal_failed_analysis, audit_has_success_for_message,
  audit_has_mock_send_attempt, Violation, status_is, is_5xx, any_row, first_bad_send,
  attempt_indexes, insert_int, sorted, same_ints, six_indexes, bad_indexes,
  terminal_failed_audit_violations,
}
use nitzan_shinnies_inspecti.Prelude.Eq.{ℕ-eq, String-eq, pair_eq}

-- Some row passes the test.
abbrev pub AnyRow : (Fields → Bool) → List Fields → Type 0
AnyRow p [] = ⊥
AnyRow p (row ∷ rows) = (p row ≡ true) ⊎ AnyRow p rows

any_row_iff : (p : Fields → Bool) (rows : List Fields) → (any_row p rows ≡ true) ↔ AnyRow p rows
any_row_iff p [] = (λ h. cc, λ h. absurd h)
any_row_iff p (row ∷ rows) =
    (λ h. ground (arith, any_row_iff p rows), λ h. ground (arith, any_row_iff p rows))

pub append_nil_iff : (xs ys : List Violation) → (xs ++ ys ≡ []) ↔ ((xs ≡ []) × (ys ≡ []))
append_nil_iff [] ys = (λ h. (refl, h), λ h. h.1)
append_nil_iff (x ∷ xs) ys = (λ h. cc, λ h. cc)

-- The sends of a failed message: at least one, each answered with a server error, and if each has its
-- attempt index, these are 0 to 5 in some order.
abbrev pub FailedSends : List Fields → Type 0
FailedSends [] = ⊥
FailedSends (row ∷ rows) =
    All (λ r. status_is is_5xx r ≡ true) (row ∷ rows)
    × ((attempt_indexes (row ∷ rows) ≡ none)
        ⊎ ((ns : List ℤ) × (attempt_indexes (row ∷ rows) ≡ some ns) × (sorted ns ≡ six_indexes)))

first_bad_send_iff :
    (rows : List Fields) → (first_bad_send rows ≡ none) ↔ All (λ r. status_is is_5xx r ≡ true) rows
unfolding first_bad_send
first_bad_send_iff [] = (λ h. tt, λ h. refl)
first_bad_send_iff (row ∷ rows) =
    (λ h. ground (arith, first_bad_send_iff rows), λ h. ground (arith, first_bad_send_iff rows))

same_ints_iff : (ns ms : List ℤ) → (same_ints ns ms ≡ true) ↔ (ns ≡ ms)
same_ints_iff [] [] = (λ h. refl, λ h. refl)
same_ints_iff [] (m ∷ ms) = (λ h. cc, λ h. cc)
same_ints_iff (n ∷ ns) [] = (λ h. cc, λ h. cc)
same_ints_iff (n ∷ ns) (m ∷ ms) = (
  λ h. ground (arith, same_ints_iff ns ms, ℤ-eq.beq_iff n m),
  λ h. ground (arith, same_ints_iff ns ms, ℤ-eq.beq_iff n m),
)

length-insert_int : (n : ℤ) (ms : List ℤ) → length (insert_int n ms) ≡ length ms + 1
unfolding insert_int
length-insert_int n [] = refl
length-insert_int n (m ∷ ms) = ground (arith, length-insert_int n ms)

length-sorted : (ns : List ℤ) → length (sorted ns) ≡ length ns
unfolding sorted
length-sorted [] = refl
length-sorted (n ∷ ns) = omega (arith, length-sorted ns, length-insert_int n (sorted ns))

bad_indexes_iff : (ns : List ℤ) → (bad_indexes (some ns) ≡ false) ↔ (sorted ns ≡ six_indexes)
bad_indexes_iff ns = (
  λ h. ground (arith, same_ints_iff (sorted ns) six_indexes),
  λ h.
      let six : length ns ≡ 6 = sym (length-sorted ns) ∙ ap length h in
      ground (arith, same_ints_iff (sorted ns) six_indexes),
)

FailedSends-iff :
    (mid : String) (rows : List Fields)
    → (terminal_failed_audit_violations mid rows ≡ []) ↔ FailedSends rows
unfolding terminal_failed_audit_violations
FailedSends-iff mid [] = (λ h. cc, λ h. absurd h)
FailedSends-iff mid (row ∷ rows) = elim (Option-cases (attempt_indexes (row ∷ rows))) [
  | inl e ↦ (
    λ h. ground (arith, first_bad_send_iff (row ∷ rows)),
    λ h. ground (arith, first_bad_send_iff (row ∷ rows)),
  )
  | inr (ns, e) ↦ (
    λ h. ground (arith, first_bad_send_iff (row ∷ rows), bad_indexes_iff ns),
    λ h. ground (arith, first_bad_send_iff (row ∷ rows), bad_indexes_iff ns),
  )
]

body_iff :
    (mid : String) (body : Fields)
    → (terminal_failed_body_violations mid body ≡ []) ↔ (
        (text_is "failed" (get_field body "status") ≡ true)
        × (equals_int 6 (get_field body "attemptCount") ≡ true))
unfolding terminal_failed_body_violations
body_iff mid body = (λ h. ground arith, λ h. ground arith)

module _ (rows : List Fields) (now_ms grace_ms : ℤ) (s : LifecycleSnapshot) where
  -- A success has a row of a 2xx answer with the outcome "success".
  abbrev pub SuccessIsAudited : String × List String → Type 0
  SuccessIsAudited (mid, keys) = (is_ambiguous s mid keys ≡ true) ⊎ AnyRow (is_success_row mid) rows

  -- A failure has the status "failed" after six attempts, and the sends of a failed message.
  abbrev pub FailedIsAudited : String × List String → Type 0
  FailedIsAudited (mid, keys) =
      (is_ambiguous s mid keys ≡ true)
      ⊎ ((text_is "failed" (get_field (or_default (get s.failed_bodies mid) end) "status") ≡ true)
          × (equals_int 6 (get_field (or_default (get s.failed_bodies mid) end) "attemptCount")
              ≡ true)
          × FailedSends (audit_rows_for_terminal_failed_analysis rows mid))

  -- A pending message has no due time, is due later or within the grace time, or has been sent.
  abbrev pub PendingIsLive : String × Fields → Type 0
  PendingIsLive (mid, body) =
      (int_value (get_field body "nextDueAt") ≡ none)
      ⊎ (AnyRow (λ row. is_for mid row && is_send row) rows
          ⊎ ((nd : ℤ) × (int_value (get_field body "nextDueAt") ≡ some nd)
              × ((now_ms <ℤ nd) ⊎ (now_ms ≤ℤ nd +ℤ grace_ms))))

  -- A row that records a send outside the grace time names a message of the snapshot.
  abbrev pub SendIsKnown : Fields → Type 0
  SendIsKnown row =
      (sent_id rows now_ms grace_ms row ≡ none)
      ⊎ ((mid : String) × (sent_id rows now_ms grace_ms row ≡ some mid)
          × (lifecycle_has s mid ≡ true))

  abbrev pub Consistent : Type 0
  Consistent =
      All SuccessIsAudited s.success_keys_by_mid
      × All FailedIsAudited s.failed_keys_by_mid
      × All PendingIsLive s.pending_bodies
      × All SendIsKnown rows

  success_iff :
      (d : Dict String (List String))
      → (success_violations rows now_ms grace_ms s d ≡ []) ↔ All SuccessIsAudited d
  unfolding success_violations audit_has_success_for_message
  success_iff [] = (λ h. tt, λ h. refl)
  success_iff ((mid, keys) ∷ d) = (
    λ h. ground (arith, success_iff d, any_row_iff (is_success_row mid) rows),
    λ h. ground (arith, success_iff d, any_row_iff (is_success_row mid) rows),
  )

  failed_of_iff :
      (mid : String)
      → (failed_violations_of rows now_ms grace_ms s mid ≡ []) ↔ (
          (text_is "failed" (get_field (or_default (get s.failed_bodies mid) end) "status") ≡ true)
          × (equals_int 6 (get_field (or_default (get s.failed_bodies mid) end) "attemptCount")
              ≡ true)
          × FailedSends (audit_rows_for_terminal_failed_analysis rows mid))
  failed_of_iff mid =
      let body = or_default (get s.failed_bodies mid) end in
      let sends = audit_rows_for_terminal_failed_analysis rows mid in
      let both =
        append_nil_iff (terminal_failed_body_violations mid body)
          (terminal_failed_audit_violations mid sends) in
      (
        λ h.
            let (a, b) = both.0 h in
            let (c, d) = (body_iff mid body).0 a in (c, d, (FailedSends-iff mid sends).0 b),
        λ (c, d, e). both.1 ((body_iff mid body).1 (c, d), (FailedSends-iff mid sends).1 e),
      )

  failed_iff :
      (d : Dict String (List String))
      → (failed_violations rows now_ms grace_ms s d ≡ []) ↔ All FailedIsAudited d
  unfolding failed_violations
  failed_iff [] = (λ h. tt, λ h. refl)
  failed_iff ((mid, keys) ∷ d) = elim (Bool-cases (is_ambiguous s mid keys)) [
    | inl e ↦ (λ h. (inl e, (failed_iff d).0 (rw e at h)), λ (h, hs). rw e ((failed_iff d).1 hs))
    | inr e ↦
        let both =
          append_nil_iff (failed_violations_of rows now_ms grace_ms s mid)
            (failed_violations rows now_ms grace_ms s d) in
        (
          λ h.
              let (a, b) = both.0 (rw e at h) in
              (inr ((failed_of_iff mid).0 a), (failed_iff d).0 b),
          λ (h, hs). rw e (
              both.1 (
                elim h [ inl f ↦ absurd (ground arith) | inr f ↦ (failed_of_iff mid).1 f ],
                (failed_iff d).1 hs,
              )),
        )
  ]

  pending_of_iff :
      (mid : String) (body : Fields)
      → (is_overdue rows now_ms grace_ms mid body ≡ false) ↔ PendingIsLive (mid, body)
  unfolding audit_has_mock_send_attempt
  pending_of_iff mid body = elim (Option-cases (int_value (get_field body "nextDueAt"))) [
    | inl e ↦ (λ h. inl e, λ h. ground arith)
    | inr (nd, e) ↦ (
      λ h. elim (Bool-cases (any_row (λ row. is_for mid row && is_send row) rows)) [
        | inl f ↦ inr (inl ((any_row_iff (λ row. is_for mid row && is_send row) rows).0 f))
        | inr f ↦ inr (inr (nd, e, ground arith))
      ],
      λ h. ground (arith, any_row_iff (λ row. is_for mid row && is_send row) rows),
    )
  ]

  pending_iff :
      (d : Dict String Fields)
      → (pending_grace_violations rows now_ms grace_ms d ≡ []) ↔ All PendingIsLive d
  unfolding pending_grace_violations
  pending_iff [] = (λ h. tt, λ h. refl)
  pending_iff ((mid, body) ∷ d) = elim (Bool-cases (is_overdue rows now_ms grace_ms mid body)) [
    | inl e ↦ (
      λ h. absurd (ground arith),
      λ (h, hs). absurd (ground (arith, (pending_of_iff mid body).1 h)),
    )
    | inr e ↦ (
      λ h. ((pending_of_iff mid body).0 e, (pending_iff d).0 (rw e at h)),
      λ (h, hs). rw e ((pending_iff d).1 hs),
    )
  ]

  phantom_iff :
      (rest : List Fields)
      → (phantom_audit_violations rows now_ms grace_ms s rest [] ≡ []) ↔ All SendIsKnown rest
  unfolding phantom_audit_violations
  phantom_iff [] = (λ h. tt, λ h. refl)
  phantom_iff (row ∷ rest) = elim (Option-cases (sent_id rows now_ms grace_ms row)) [
    | inl e ↦ (
      λ h. (inl e, (phantom_iff rest).0 (rw (phantom_audit_violations, e) at h)),
      λ (h, hs). rw (phantom_audit_violations, e) ((phantom_iff rest).1 hs),
    )
    | inr (mid, e) ↦
        (λ h. ground (arith, phantom_iff rest), λ (h, hs). ground (arith, phantom_iff rest))
  ]

  -- The checks find nothing exactly when, apart from the ids that the structural checks report: each
  -- success has a successful send in the audit; each failure has its status and count and only failed
  -- sends; each pending message is sent, not due, or within the grace time; and each send outside the
  -- grace time names a message of the snapshot.
  pub reconcile_integrity_iff : (reconcile_integrity rows now_ms grace_ms s ≡ []) ↔ Consistent
  unfolding reconcile_integrity
  reconcile_integrity_iff =
      let a = success_violations rows now_ms grace_ms s s.success_keys_by_mid in
      let b = failed_violations rows now_ms grace_ms s s.failed_keys_by_mid in
      let c = pending_grace_violations rows now_ms grace_ms s.pending_bodies in
      let d = phantom_audit_violations rows now_ms grace_ms s rows [] in
      let outer = append_nil_iff a (b ++ (c ++ d)) in
      let middle = append_nil_iff b (c ++ d) in
      let inner = append_nil_iff c d in
      (
        λ h.
            let (x, y) = outer.0 h in
            let (z, u) = middle.0 y in
            let (v, w) = inner.0 u in
            ((success_iff _).0 x, (failed_iff _).0 z, (pending_iff _).0 v, (phantom_iff _).0 w),
        λ (x, z, v, w). outer.1 (
          (success_iff _).1 x,
          middle.1 ((failed_iff _).1 z, inner.1 ((pending_iff _).1 v, (phantom_iff _).1 w)),
        ),
      )
