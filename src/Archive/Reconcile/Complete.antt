-- ===== src/Archive/Reconcile/Complete.antt =====
-- When the checks of health_monitor/reconcile.py report nothing about a snapshot: `Sound` says it on the
-- fields of the rows and bodies, without the tests of the code.
use nitzan_shinnies_inspecti.Prelude.{
  String, ◌≡◌, ◌↔◌, ◌⊎◌, inl, inr, true, false, ◌&&◌, List, [], ◌∷◌, ◌++◌, ◌≤◌, arith, length, map,
  All,
}
use nitzan_shinnies_inspecti.Prelude.Int.{ℤ, ◌+ℤ◌, ◌<ℤ◌, ◌≤ℤ◌, ℤ-eq}
use nitzan_shinnies_inspecti.Prelude.Eq.{ℕ-eq, String-eq, pair_eq}
use nitzan_shinnies_inspecti.Prelude.Dict.{get, or_default}
use nitzan_shinnies_inspecti.Json.{Fields, end, get_field}
use nitzan_shinnies_inspecti.Archive.Reconcile.{
  violation_of, LifecycleSnapshot, is_for, is_send, is_success_row, duplicate_terminal,
  duplicate_success_terminal_keys, duplicate_failed_terminal_keys,
  audit_rows_for_terminal_failed_analysis,
}
use nitzan_shinnies_inspecti.Archive.Reconcile.Snapshot.{
  several_keys, in_both, duplicate_violations,
}
use nitzan_shinnies_inspecti.Archive.Reconcile.Rules.{is_ambiguous, reconcile_integrity}
use nitzan_shinnies_inspecti.Archive.Reconcile.Equivalence.{
  SuccessIsAudited, FailedIsAudited, PendingIsLive, Consistent, append_nil_iff,
  reconcile_integrity_iff,
}
use nitzan_shinnies_inspecti.Archive.Reconcile.Spec.{
  IsInt, IsSix, HasText, IsSent, IsSucceeded, Some, iff_trans, iff_both, iff_either, and_iff,
  text_is_iff, int_value_iff, equals_int-IsSix_iff, is_send_iff, is_success_row_iff,
}
use nitzan_shinnies_inspecti.Archive.Reconcile.Attempts.{
  Some-iff, IsInt-none_iff, FailedAttempts, FailedAttempts-iff,
}
use nitzan_shinnies_inspecti.Archive.Reconcile.Duplicates.{
  Keys, IsSingle, NotInBoth, several_keys_iff, in_both_iff, map_nil_iff,
}
use nitzan_shinnies_inspecti.Archive.Reconcile.Known.{IsKnown, IsKnown-iff}

All-iff :
    {A : Type 0} {P Q : A → Type 0} (xs : List A) → ((x : A) → P x ↔ Q x) → All P xs ↔ All Q xs
All-iff [] h = (λ x. x, λ x. x)
All-iff (x ∷ xs) h = iff_both (h x) (All-iff xs h)

module _ (rows : List Fields) (now_ms grace_ms : ℤ) (s : LifecycleSnapshot) where
  -- A success was answered with a 2xx status, which the audit calls a success.
  abbrev pub IsAuditedSuccess : String × List String → Type 0
  IsAuditedSuccess (mid, keys) = Some (IsSucceeded mid) rows

  -- A failure has its status after six sends, and its attempts are those of a failure.
  abbrev pub IsAuditedFailure : String × List String → Type 0
  IsAuditedFailure (mid, keys) =
      HasText (or_default (get s.failed_bodies mid) end) "status" "failed"
      × IsSix (get_field (or_default (get s.failed_bodies mid) end) "attemptCount")
      × FailedAttempts mid rows

  -- A pending message has no due time, or was sent, or is due later or within the grace time.
  abbrev pub IsOnTime : String × Fields → Type 0
  IsOnTime (mid, body) =
      ((n : ℤ) → ¬ IsInt (get_field body "nextDueAt") n)
      ⊎ (Some (λ row. HasText row "messageId" mid × IsSent row) rows
          ⊎ ((nd : ℤ) × IsInt (get_field body "nextDueAt") nd
              × ((now_ms <ℤ nd) ⊎ (now_ms ≤ℤ nd +ℤ grace_ms))))

  abbrev pub Sound : Type 0
  Sound =
      (All IsSingle s.success_keys_by_mid
        × All IsSingle s.failed_keys_by_mid
        × NotInBoth s.success_keys_by_mid s.failed_keys_by_mid)
      × All IsAuditedSuccess s.success_keys_by_mid
      × All IsAuditedFailure s.failed_keys_by_mid
      × All IsOnTime s.pending_bodies
      × All (IsKnown rows now_ms grace_ms s) rows

  not_ambiguous :
      (mid : String) (keys : List String)
      → length keys ≤ 1
      → NotInBoth s.success_keys_by_mid s.failed_keys_by_mid
      → is_ambiguous s mid keys ≡ false
  not_ambiguous mid keys single apart = elim (apart mid) [
    | inl e ↦ ground (arith, e)
    | inr e ↦ ground (arith, e)
  ]

  success_row_iff :
      (mid : String) (keys : List String)
      → is_ambiguous s mid keys ≡ false
      → SuccessIsAudited rows now_ms grace_ms s (mid, keys) ↔ IsAuditedSuccess (mid, keys)
  success_row_iff mid keys e =
      let audit = Some-iff (is_success_row mid) rows (is_success_row_iff mid) in
      (
        λ h. elim h [ inl f ↦ absurd (ground (arith, e, f)) | inr f ↦ audit.0 f ],
        λ h. inr (audit.1 h),
      )

  failed_row_iff :
      (mid : String) (keys : List String)
      → is_ambiguous s mid keys ≡ false
      → FailedIsAudited rows now_ms grace_ms s (mid, keys) ↔ IsAuditedFailure (mid, keys)
  unfolding audit_rows_for_terminal_failed_analysis
  failed_row_iff mid keys e =
      let body = or_default (get s.failed_bodies mid) end in
      let status = text_is_iff "failed" (get_field body "status") in
      let six = equals_int-IsSix_iff (get_field body "attemptCount") in
      let sends = FailedAttempts-iff mid rows in
      (
        λ h. elim h [
          | inl f ↦ absurd (ground (arith, e, f))
          | inr (x, y, z) ↦ (status.0 x, six.0 y, sends.0 z)
        ],
        λ (x, y, z). inr (status.1 x, six.1 y, sends.1 z),
      )

  -- Entries that are single and not in both: a fact of each is another.
  module _ (apart : NotInBoth s.success_keys_by_mid s.failed_keys_by_mid) where
    All-single_iff :
        (P Q : String × List String → Type 0) (d : Keys)
        → All IsSingle d
        → ((mid : String) (keys : List String)
            → is_ambiguous s mid keys ≡ false
            → P (mid, keys) ↔ Q (mid, keys))
        → All P d ↔ All Q d
    All-single_iff P Q [] h f = (λ x. x, λ x. x)
    All-single_iff P Q ((mid, keys) ∷ d) (one, h) f =
        iff_both (f mid keys (not_ambiguous mid keys one apart)) (All-single_iff P Q d h f)

  IsSent-for_iff :
      (mid : String) (row : Fields)
      → ((is_for mid row && is_send row) ≡ true) ↔ (HasText row "messageId" mid × IsSent row)
  IsSent-for_iff mid row =
      iff_trans (and_iff (is_for mid row) (is_send row))
        (iff_both (text_is_iff mid (get_field row "messageId")) (is_send_iff row))

  pending_row_iff : (e : String × Fields) → PendingIsLive rows now_ms grace_ms s e ↔ IsOnTime e
  pending_row_iff (mid, body) = iff_either (IsInt-none_iff (get_field body "nextDueAt")) (
      iff_either (Some-iff (λ row. is_for mid row && is_send row) rows (IsSent-for_iff mid)) (
        λ (nd, e, h). (nd, (int_value_iff (get_field body "nextDueAt") nd).0 e, h),
        λ (nd, e, h). (nd, (int_value_iff (get_field body "nextDueAt") nd).1 e, h),
      ))

  consistent_iff :
      All IsSingle s.success_keys_by_mid
      → All IsSingle s.failed_keys_by_mid
      → NotInBoth s.success_keys_by_mid s.failed_keys_by_mid
      → Consistent rows now_ms grace_ms s ↔ (
          All IsAuditedSuccess s.success_keys_by_mid
          × All IsAuditedFailure s.failed_keys_by_mid
          × All IsOnTime s.pending_bodies
          × All (IsKnown rows now_ms grace_ms s) rows)
  consistent_iff one_success one_failed apart =
      let a = All-single_iff apart _ _ s.success_keys_by_mid one_success success_row_iff in
      let b = All-single_iff apart _ _ s.failed_keys_by_mid one_failed failed_row_iff in
      let c = All-iff s.pending_bodies pending_row_iff in
      let d = All-iff rows (IsKnown-iff rows now_ms grace_ms s) in
      (λ (x, y, z, u). (a.0 x, b.0 y, c.0 z, d.0 u), λ (x, y, z, u). (a.1 x, b.1 y, c.1 z, d.1 u))

  duplicates_iff : (duplicate_violations s.success_keys_by_mid s.failed_keys_by_mid ≡ []) ↔ (
      All IsSingle s.success_keys_by_mid
      × All IsSingle s.failed_keys_by_mid
      × NotInBoth s.success_keys_by_mid s.failed_keys_by_mid)
  duplicates_iff =
      let a = several_keys duplicate_success_terminal_keys s.success_keys_by_mid in
      let b = several_keys duplicate_failed_terminal_keys s.failed_keys_by_mid in
      let shared = in_both s.success_keys_by_mid s.failed_keys_by_mid in
      let outer = append_nil_iff a (b ++ map (violation_of duplicate_terminal) shared) in
      let inner = append_nil_iff b (map (violation_of duplicate_terminal) shared) in
      let x = several_keys_iff duplicate_success_terminal_keys s.success_keys_by_mid in
      let y = several_keys_iff duplicate_failed_terminal_keys s.failed_keys_by_mid in
      let z =
        iff_trans (map_nil_iff (violation_of duplicate_terminal) shared)
          (in_both_iff s.success_keys_by_mid s.failed_keys_by_mid) in
      (
        λ h. let (p, q) = outer.0 h in let (r, t) = inner.0 q in (x.0 p, y.0 r, z.0 t),
        λ (p, q, r). outer.1 (x.1 p, inner.1 (y.1 q, z.1 r)),
      )

  -- The checks for several terminal keys of an id and the reconciliation with the audit report nothing exactly
  -- when: each id has one terminal key at most, in one of the two trees; each success has a row of a 2xx
  -- answer with the outcome "success"; each failure has the status "failed" and the attempt count 6, and its
  -- attempts in the audit are at least one, each answered with a server error, with the indexes 0 to 5, each
  -- once, unless one has no index; each pending message has no due time, or was sent, or is due later or
  -- within the grace time; and each send before the grace time that names a message names one of the lifecycle.
  pub reconcile_integrity-Sound_iff :
      (duplicate_violations s.success_keys_by_mid s.failed_keys_by_mid
          ++ reconcile_integrity rows now_ms grace_ms s
        ≡ [])
      ↔ Sound
  reconcile_integrity-Sound_iff =
      let parts =
        append_nil_iff (duplicate_violations s.success_keys_by_mid s.failed_keys_by_mid)
          (reconcile_integrity rows now_ms grace_ms s) in
      let checks = reconcile_integrity_iff rows now_ms grace_ms s in
      (
        λ h.
            let (d, r) = parts.0 h in
            let (x, y, z) = duplicates_iff.0 d in
            let (p, q, u, v) = (consistent_iff x y z).0 (checks.0 r) in ((x, y, z), p, q, u, v),
        λ ((x, y, z), p, q, u, v).
            parts.1 (duplicates_iff.1 (x, y, z), checks.1 ((consistent_iff x y z).1 (p, q, u, v))),
      )
