-- ===== src/Archive/Reconcile/Tests.antt =====
-- The checks at a message that was sent and succeeded, and at one that failed with no sends.
use nitzan_shinnies_inspecti.Prelude.{◌≡◌, refl, ◌↔◌, [], ◌∷◌, ◌++◌}
use nitzan_shinnies_inspecti.Prelude.Int.{◌+ℤ◌, pos, ℤ-eq}
use nitzan_shinnies_inspecti.Json.{Fields, end, field, int, str, get_field}
use nitzan_shinnies_inspecti.Archive.Reconcile.{
  LifecycleSnapshot, violation_of, terminal_failed_missing_audit_sends, is_validation_audit_row,
  audit_has_success_for_message, audit_rows_for_terminal_failed_analysis,
  terminal_failed_body_violations, terminal_failed_audit_violations,
}
use nitzan_shinnies_inspecti.Archive.Reconcile.Rules.{
  lifecycle_has, success_violations, failed_violations, pending_grace_violations,
  phantom_audit_violations, reconcile_integrity,
}
use nitzan_shinnies_inspecti.Archive.Reconcile.Snapshot.{duplicate_violations}
use nitzan_shinnies_inspecti.Archive.Reconcile.Complete.{Sound, reconcile_integrity-Sound_iff}
use nitzan_shinnies_inspecti.Prelude.Dict.{get}

abbrev sent : Fields
sent = field "messageId" (str "a") (
    field "http_status" (int (pos 200))
      (field "outcome_kind" (str "success") (field "receivedAt_ms" (int (pos 5)) end)))

abbrev snapshot : LifecycleSnapshot
snapshot = record {
  failed_bodies = [];
  failed_keys_by_mid = [];
  pending_bodies = [];
  success_keys_by_mid = ("a", "k" ∷ []) ∷ [];
}

reconcile_integrity-Sound_iff_example :
    (duplicate_violations snapshot.success_keys_by_mid snapshot.failed_keys_by_mid
        ++ reconcile_integrity (sent ∷ []) (pos 1000) (pos 100) snapshot
      ≡ [])
    ↔ Sound (sent ∷ []) (pos 1000) (pos 100) snapshot
reconcile_integrity-Sound_iff_example =
    reconcile_integrity-Sound_iff (sent ∷ []) (pos 1000) (pos 100) snapshot

abbrev with_failed : LifecycleSnapshot
with_failed = record snapshot {
  failed_keys_by_mid = ("b", "k" ∷ []) ∷ [];
  failed_bodies =
      ("b", field "status" (str "failed") (field "attemptCount" (int (pos 6)) end)) ∷ [];
}

unsent_failure :
    reconcile_integrity (sent ∷ []) (pos 1000) (pos 100) with_failed
    ≡ violation_of terminal_failed_missing_audit_sends "b" ∷ []
unfolding is_validation_audit_row audit_has_success_for_message
    audit_rows_for_terminal_failed_analysis terminal_failed_body_violations
    terminal_failed_audit_violations success_violations failed_violations pending_grace_violations
    phantom_audit_violations reconcile_integrity get get_field ◌+ℤ◌ lifecycle_has
unsent_failure = refl
