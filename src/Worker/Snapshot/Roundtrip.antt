-- ===== src/Worker/Snapshot/Roundtrip.antt =====
-- A snapshot that is restored has the pending messages of the runtime, and no other.
use nitzan_shinnies_inspecti.Prelude.{
  String, ◌≡◌, refl, sym, ◌∙◌, inl, inr, true, false, Option, none, some, [], ◌∷◌, arith,
  if◌then◌else◌, Bool-cases,
}
use nitzan_shinnies_inspecti.Prelude.Int.{ℤ-eq}
use nitzan_shinnies_inspecti.Prelude.Eq.{ℕ-eq, String-eq, pair_eq}
use nitzan_shinnies_inspecti.Prelude.Dict.{Dict, get, put, values, get-put}
use nitzan_shinnies_inspecti.Prelude.Result.{Done, ok}
use nitzan_shinnies_inspecti.Models.{RetryStatus, pending, success, failed}
use nitzan_shinnies_inspecti.Worker.Runtime.{MessageState, is_pending}
use nitzan_shinnies_inspecti.Worker.Snapshot.{
  snapshot_row, snapshot_rows, Casts, restore_row, restore_snapshot_pending,
}

-- A dictionary in which each message stands once, under its own id.
abbrev pub IsKeyed : Dict String MessageState → Type 0
IsKeyed [] = Unit
IsKeyed ((k, st) ∷ d) = (st.message_id ≡ k) × (get d k ≡ none) × IsKeyed d

-- The message under a key, if it is pending.
abbrev pub pending_only : Option MessageState → Option MessageState
pending_only none = none
pending_only (some st) = if is_pending st.status then some st else none

is_pending-eq : (s : RetryStatus) → is_pending s ≡ true → s ≡ pending
is_pending-eq pending h = refl
is_pending-eq success h = cc
is_pending-eq failed h = cc

module _ (casts : Casts) where
  restore_row-snapshot_row :
      (st : MessageState)
      → restore_row casts (snapshot_row st) ≡ ok (record st { status = pending })
  unfolding restore_row snapshot_row
  restore_row-snapshot_row st = refl

  -- What was there before, unless the snapshot holds the key.
  abbrev or_else : Option MessageState → Option MessageState → Option MessageState
  or_else none old = old
  or_else (some st) old = some st

  abbrev restored :
      Dict String MessageState → Dict String MessageState → Done × Dict String MessageState
  restored d base = restore_snapshot_pending casts (snapshot_rows (values d)) base

  restored-pending :
      (k : String) (st : MessageState) (d base : Dict String MessageState)
      → is_pending st.status ≡ true
      → restored ((k, st) ∷ d) base ≡ restored d (put base st.message_id st)
  unfolding snapshot_rows values restore_snapshot_pending restore_row snapshot_row
  restored-pending k st d base p =
      let e : pending ≡ st.status = sym (is_pending-eq st.status p) in
      rw p (λ i. restored d (put base st.message_id (record st { status = e i })))

  restored-ended :
      (k : String) (st : MessageState) (d base : Dict String MessageState)
      → is_pending st.status ≡ false
      → restored ((k, st) ∷ d) base ≡ restored d base
  unfolding snapshot_rows values
  restored-ended k st d base n = rw n refl

  restored-nil : (base : Dict String MessageState) → restored [] base ≡ (ok tt, base)
  unfolding snapshot_rows values restore_snapshot_pending
  restored-nil base = refl

  restored-get :
      (d base : Dict String MessageState) (mid : String)
      → IsKeyed d
      → ((restored d base).0 ≡ ok tt)
        × (get (restored d base).1 mid ≡ or_else (pending_only (get d mid)) (get base mid))
  unfolding get
  restored-get [] base mid h = rw (restored-nil base) (refl, refl)
  restored-get ((k, st) ∷ d) base mid (same, absent, rest) =
      elim (Bool-cases (is_pending st.status)) [
        | inl p ↦
            let (fine, found) = restored-get d (put base st.message_id st) mid rest in
            rw (restored-pending k st d base p) (
              fine,
              found ∙ ground (arith, get-put base st.message_id mid st, String-eq.beq_iff k mid),
            )
        | inr n ↦
            let (fine, found) = restored-get d base mid rest in
            rw (restored-ended k st d base n)
              (fine, found ∙ ground (arith, String-eq.beq_iff k mid))
      ]

  or_else-none : (o : Option MessageState) → or_else o none ≡ o
  or_else-none none = refl
  or_else-none (some st) = refl

  -- A worker that starts from a snapshot has, under each id, the message that was pending there when the
  -- snapshot was taken, in the same state, and nothing for an id whose message had ended or was unknown;
  -- restoring raises no error. The states are keyed by the ids of their messages.
  pub restore-snapshot_rows :
      (states : Dict String MessageState) (mid : String)
      → IsKeyed states
      → ((restore_snapshot_pending casts (snapshot_rows (values states)) []).0 ≡ ok tt)
        × (get (restore_snapshot_pending casts (snapshot_rows (values states)) []).1 mid
            ≡ pending_only (get states mid))
  unfolding get
  restore-snapshot_rows states mid h =
      let (fine, found) = restored-get states [] mid h in
      (fine, found ∙ or_else-none (pending_only (get states mid)))
