-- ===== src/Archive/Reconcile/Rules.antt =====
-- The checks of a whole snapshot: `reconcile_integrity` and the loops that it runs.
use nitzan_shinnies_inspecti.Prelude.{
  String, Bool, true, false, not, ◌&&◌, ◌||◌, Option, none, some, List, [], ◌∷◌, ◌++◌, ltb,
  if◌then◌else◌, length,
}
use nitzan_shinnies_inspecti.Prelude.Int.{ℤ, ◌+ℤ◌, ltb_ℤ, leb_ℤ, ℤ-eq}
use nitzan_shinnies_inspecti.Prelude.Eq.{◌==◌, ℕ-eq, String-eq, pair_eq}
use nitzan_shinnies_inspecti.Prelude.Dict.{Dict, get, keys, or_default}
use nitzan_shinnies_inspecti.Json.{Json, Fields, end, str, get_field}
use nitzan_shinnies_inspecti.Archive.Values.{int_value}
use nitzan_shinnies_inspecti.Archive.Reconcile.{
  Violation, violation_of, LifecycleSnapshot, pending_due_without_mock_send_audit,
  audit_send_without_lifecycle, terminal_success_missing_audit, is_send, when,
  audit_has_success_for_message, audit_has_mock_send_attempt,
  audit_rows_for_terminal_failed_analysis, terminal_failed_body_violations,
  terminal_failed_audit_violations,
}

abbrev pub has_key : {V : Type 0} → String → Dict String V → Bool
has_key mid d = elim (get d mid) [ none ↦ false | some v ↦ true ]

abbrev pub is_several : List String → Bool
is_several keys = ltb 1 (length keys)

-- The ids in both terminal trees, and those with several keys in one, are left to the structural checks.
abbrev pub is_ambiguous : LifecycleSnapshot → String → List String → Bool
is_ambiguous s mid keys =
    (has_key mid s.success_keys_by_mid && has_key mid s.failed_keys_by_mid) || is_several keys

unfoldable pub lifecycle_has : LifecycleSnapshot → String → Bool
lifecycle_has s mid =
    has_key mid s.pending_bodies
    || (has_key mid s.success_keys_by_mid || has_key mid s.failed_keys_by_mid)

module _ (rows : List Fields) (now_ms : ℤ) (grace_ms : ℤ) where
  -- nd is an int and nd <= now_ms and now_ms - nd > grace_ms, and no send was recorded
  abbrev pub is_overdue : String → Fields → Bool
  is_overdue mid body = elim (int_value (get_field body "nextDueAt")) [
    | none ↦ false
    | some nd ↦
        leb_ℤ nd now_ms
        && (not (audit_has_mock_send_attempt rows mid) && ltb_ℤ (nd +ℤ grace_ms) now_ms)
  ]

  unfoldable pub pending_grace_violations : Dict String Fields → List Violation
  pending_grace_violations [] = []
  pending_grace_violations ((mid, body) ∷ rest) =
      when (is_overdue mid body) (violation_of pending_due_without_mock_send_audit mid)
        (pending_grace_violations rest)

  unfoldable pub success_violations : LifecycleSnapshot → Dict String (List String) → List Violation
  success_violations s [] = []
  success_violations s ((mid, keys) ∷ rest) =
      when (not (is_ambiguous s mid keys) && not (audit_has_success_for_message rows mid))
        (violation_of terminal_success_missing_audit mid) (success_violations s rest)

  -- The violations of one failed message.
  abbrev pub failed_violations_of : LifecycleSnapshot → String → List Violation
  failed_violations_of s mid =
      terminal_failed_body_violations mid (or_default (get s.failed_bodies mid) end)
      ++ terminal_failed_audit_violations mid (audit_rows_for_terminal_failed_analysis rows mid)

  unfoldable pub failed_violations : LifecycleSnapshot → Dict String (List String) → List Violation
  failed_violations s [] = []
  failed_violations s ((mid, keys) ∷ rest) =
      (if is_ambiguous s mid keys then [] else failed_violations_of s mid)
      ++ failed_violations s rest

  -- row.get("receivedAt_ms"), or now if that is no integer; the row is old enough
  abbrev pub is_old : Fields → Bool
  is_old row =
      leb_ℤ (or_default (int_value (get_field row "receivedAt_ms")) now_ms +ℤ grace_ms) now_ms

  -- The message id of a row that records a send outside the grace time.
  abbrev pub named : Option Json → Bool → Option String
  named (some (str mid)) b = if b && not (mid == "") then some mid else none
  named _ b = none

  abbrev pub sent_id : Fields → Option String
  sent_id row = named (get_field row "messageId") (is_send row && is_old row)

  abbrev pub in_list : String → List String → Bool
  in_list mid [] = false
  in_list mid (x ∷ xs) = (x == mid) || in_list mid xs

  unfoldable pub phantom_audit_violations :
      LifecycleSnapshot → List Fields → List String → List Violation
  phantom_audit_violations s [] seen = []
  phantom_audit_violations s (row ∷ rest) seen = elim (sent_id row) [
    | none ↦ phantom_audit_violations s rest seen
    | some mid ↦ elim (lifecycle_has s mid || in_list mid seen) [
      | true ↦ phantom_audit_violations s rest seen
      | false ↦
          violation_of audit_send_without_lifecycle mid
          ∷ phantom_audit_violations s rest (mid ∷ seen)
    ]
  ]

  unfoldable pub reconcile_integrity : LifecycleSnapshot → List Violation
  reconcile_integrity s =
      success_violations s s.success_keys_by_mid
      ++ (failed_violations s s.failed_keys_by_mid
          ++ (pending_grace_violations s.pending_bodies ++ phantom_audit_violations s rows []))
