-- ===== src/Archive/Reconcile/Known.antt =====
-- The sends of the audit whose message health_monitor/reconcile.py looks for.
use nitzan_shinnies_inspecti.Prelude.{
  String, ◌≡◌, subst, sym, ap, ◌∙◌, ◌↔◌, ◌⊎◌, inl, inr, Bool, true, not, ◌&&◌, ◌||◌, Option, none,
  some, some_inj, List, arith, Bool-cases, Option-cases,
}
use nitzan_shinnies_inspecti.Prelude.Int.{ℤ, ◌+ℤ◌, ◌≤ℤ◌, ℤ-eq}
use nitzan_shinnies_inspecti.Prelude.Eq.{◌==◌, ℕ-eq, String-eq, pair_eq}
use nitzan_shinnies_inspecti.Prelude.Dict.{Dict, get}
use nitzan_shinnies_inspecti.Json.{Json, Fields, null, bool, int, real, str, arr, obj, get_field}
use nitzan_shinnies_inspecti.Archive.Values.{int_value}
use nitzan_shinnies_inspecti.Archive.Reconcile.{LifecycleSnapshot, is_send}
use nitzan_shinnies_inspecti.Archive.Reconcile.Rules.{
  has_key, lifecycle_has, sent_id, is_old, named,
}
use nitzan_shinnies_inspecti.Archive.Reconcile.Equivalence.{SendIsKnown}
use nitzan_shinnies_inspecti.Archive.Reconcile.Spec.{
  IsInt, HasText, IsSent, iff_trans, iff_either, and_iff, or_iff, not_iff, text_is_iff,
  int_value_iff, is_send_iff,
}
use nitzan_shinnies_inspecti.Archive.Reconcile.Attempts.{IsInt-none_iff}

has_key_iff :
    {V : Type 0} (mid : String) (d : Dict String V)
    → (has_key mid d ≡ true) ↔ ((v : V) × (get d mid ≡ some v))
has_key_iff mid d = elim (Option-cases (get d mid)) [
  | inl e ↦ (λ h. absurd (ground (arith, e, h)), λ (v, f). absurd (ground (arith, e, f)))
  | inr (v, e) ↦ (λ h. (v, e), λ h. ground (arith, e))
]

blank_iff : (mid : String) → (not (mid == "") ≡ true) ↔ (¬ (mid ≡ ""))
blank_iff mid = not_iff (mid == "") (String-eq.beq_iff mid "")

module _ (rows : List Fields) (now_ms grace_ms : ℤ) (s : LifecycleSnapshot) where
  abbrev pub InLifecycle : String → Type 0
  InLifecycle mid =
      ((body : Fields) × (get s.pending_bodies mid ≡ some body))
      ⊎ (((keys : List String) × (get s.success_keys_by_mid mid ≡ some keys))
          ⊎ ((keys : List String) × (get s.failed_keys_by_mid mid ≡ some keys)))

  -- A row was received before the grace time, which runs from now where it has no time.
  abbrev pub IsOld : Fields → Type 0
  IsOld row =
      ((t : ℤ) × IsInt (get_field row "receivedAt_ms") t × (t +ℤ grace_ms ≤ℤ now_ms))
      ⊎ (((t : ℤ) → ¬ IsInt (get_field row "receivedAt_ms") t) × (now_ms +ℤ grace_ms ≤ℤ now_ms))

  -- A send that is old names a message of the lifecycle.
  abbrev pub IsKnown : Fields → Type 0
  IsKnown row =
      (mid : String)
      → HasText row "messageId" mid
      → ¬ (mid ≡ "")
      → IsSent row
      → IsOld row
      → InLifecycle mid

  is_old_iff : (row : Fields) → (is_old rows now_ms grace_ms row ≡ true) ↔ IsOld row
  is_old_iff row = elim (Option-cases (int_value (get_field row "receivedAt_ms"))) [
    | inl e ↦
        let missing = (IsInt-none_iff (get_field row "receivedAt_ms")).0 e in
        (
          λ h. inr (missing, ground (arith, e, h)),
          λ h. elim h [
            | inl (t, at, le) ↦ absurd (missing t at)
            | inr (never, le) ↦ ground (arith, e, le)
          ],
        )
    | inr (t, e) ↦ (
      λ h. inl (t, (int_value_iff (get_field row "receivedAt_ms") t).0 e, ground (arith, e, h)),
      λ h. elim h [
        | inl (u, at, le) ↦
            ground (arith, (int_value_iff (get_field row "receivedAt_ms") u).1 at, le)
        | inr (never, le) ↦ absurd (never t ((int_value_iff (get_field row "receivedAt_ms") t).0 e))
      ],
    )
  ]

  lifecycle_has_iff : (mid : String) → (lifecycle_has s mid ≡ true) ↔ InLifecycle mid
  unfolding lifecycle_has
  lifecycle_has_iff mid =
      iff_trans
        (or_iff (has_key mid s.pending_bodies)
          (has_key mid s.success_keys_by_mid || has_key mid s.failed_keys_by_mid))
        (iff_either (has_key_iff mid s.pending_bodies) (
          iff_trans (or_iff (has_key mid s.success_keys_by_mid) (has_key mid s.failed_keys_by_mid))
            (iff_either (has_key_iff mid s.success_keys_by_mid)
              (has_key_iff mid s.failed_keys_by_mid))))

  named_text :
      (t mid : String) (b : Bool)
      → (named rows now_ms grace_ms (some (str t)) b ≡ some mid)
        ↔ ((t ≡ mid) × (b ≡ true) × (not (t == "") ≡ true))
  named_text t mid b = (
    λ h. elim (Bool-cases (b && not (t == ""))) [
      | inl e ↦ let (x, y) = (and_iff b (not (t == ""))).0 e in (some_inj (rw e at h), x, y)
      | inr e ↦ absurd (ground (arith, rw e at h))
    ],
    λ (same, x, y). rw (x, y) (ap some same),
  )

  named_iff :
      (v : Option Json) (b : Bool) (mid : String)
      → (named rows now_ms grace_ms v b ≡ some mid)
        ↔ ((v ≡ some (str mid)) × (b ≡ true) × (not (mid == "") ≡ true))
  named_iff none b mid = (λ h. cc, λ (h, k, l). cc)
  named_iff (some null) b mid = (λ h. cc, λ (h, k, l). cc)
  named_iff (some (bool c)) b mid = (λ h. cc, λ (h, k, l). cc)
  named_iff (some (int n)) b mid = (λ h. cc, λ (h, k, l). cc)
  named_iff (some (real n k)) b mid = (λ h. cc, λ (h, k, l). cc)
  named_iff (some (arr vs)) b mid = (λ h. cc, λ (h, k, l). cc)
  named_iff (some (obj d)) b mid = (λ h. cc, λ (h, k, l). cc)
  named_iff (some (str t)) b mid = (
    λ h.
        let (same, x, y) = (named_text t mid b).0 h in
        (ap (λ u. some (str u)) same, x, subst (λ u. not (u == "") ≡ true) same y),
    λ (e, x, y).
        let same : t ≡ mid = (String-eq.beq_iff t mid).0 ((text_is_iff mid (some (str t))).1 e) in
        (named_text t mid b).1 (same, x, subst (λ u. not (u == "") ≡ true) (sym same) y),
  )

  -- The id of an old send, by its parts.
  sent_id_iff :
      (row : Fields) (mid : String)
      → (sent_id rows now_ms grace_ms row ≡ some mid)
        ↔ (HasText row "messageId" mid × (¬ (mid ≡ "")) × IsSent row × IsOld row)
  sent_id_iff row mid = (
    λ h.
        let (at, both, text) =
          (named_iff (get_field row "messageId") (is_send row && is_old rows now_ms grace_ms row)
              mid).0
            h in
        let (sent, old) = (and_iff (is_send row) (is_old rows now_ms grace_ms row)).0 both in
        (at, (blank_iff mid).0 text, (is_send_iff row).0 sent, (is_old_iff row).0 old),
    λ (at, text, sent, old).
        (named_iff (get_field row "messageId") (is_send row && is_old rows now_ms grace_ms row)
            mid).1
          (
            at,
            (and_iff (is_send row) (is_old rows now_ms grace_ms row)).1
                ((is_send_iff row).1 sent, (is_old_iff row).1 old),
            (blank_iff mid).1 text,
          ),
  )

  pub IsKnown-iff : (row : Fields) → SendIsKnown rows now_ms grace_ms s row ↔ IsKnown row
  IsKnown-iff row = (
    λ h mid at text sent old.
        let e = (sent_id_iff row mid).1 (at, text, sent, old) in
        elim h [
          | inl f ↦ absurd (ground (arith, e, f))
          | inr (m, f, has) ↦
              let same : m ≡ mid = some_inj (sym f ∙ e) in
              subst InLifecycle same ((lifecycle_has_iff m).0 has)
        ],
    λ h. elim (Option-cases (sent_id rows now_ms grace_ms row)) [
      | inl e ↦ inl e
      | inr (mid, e) ↦
          let (at, text, sent, old) = (sent_id_iff row mid).0 e in
          inr (mid, e, (lifecycle_has_iff mid).1 (h mid at text sent old))
    ],
  )
