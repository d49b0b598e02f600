-- ===== src/Worker/Snapshot.antt =====
-- The snapshot rows of inspectio/worker/runtime.py: writing out the pending states and reading them
-- back, and the check of a shard's ownership.
pub mod Roundtrip
mod Tests
use nitzan_shinnies_inspecti.Prelude.{
  ℕ, String, Bool, true, false, ◌&&◌, List, [], ◌∷◌, if◌then◌else◌,
}
use nitzan_shinnies_inspecti.Prelude.Int.{ℤ, pos, ltb_ℤ, leb_ℤ, ℤ-eq}
use nitzan_shinnies_inspecti.Prelude.Eq.{ℕ-eq, String-eq, pair_eq}
use nitzan_shinnies_inspecti.Prelude.Dict.{Dict, put}
use nitzan_shinnies_inspecti.Prelude.Result.{Done, type_error, Result, ok, err, ◌>>=◌, ◌>>◌}
use nitzan_shinnies_inspecti.Json.{Json, Fields, end, field, int, str, bool, real, get_field}
use nitzan_shinnies_inspecti.Models.{pending}
use nitzan_shinnies_inspecti.Journal.Records.{item}
use nitzan_shinnies_inspecti.Worker.Runtime.{MessageState, is_pending}

unfoldable pub snapshot_row : MessageState → Fields
snapshot_row st = field "messageId" (str st.message_id) (
    field "shardId" (int st.shard_id) (
      field "to" (str st.to) (
        field "body" (str st.body) (
          field "arrivalMs" (int st.arrival_ms) (
            field "nextAttemptIndex" (int st.next_attempt_index)
              (field "nextDueAtMs" (int st.next_due_at_ms) end))))))

-- `pending_snapshot_rows`
unfoldable pub snapshot_rows : List MessageState → List Fields
snapshot_rows [] = []
snapshot_rows (st ∷ sts) =
    let rest = snapshot_rows sts in if is_pending st.status then snapshot_row st ∷ rest else rest

-- `start <= shard_id < end` for the owned range
unfoldable pub owns_shard : ℕ × ℕ → ℤ → Bool
owns_shard r shard_id = leb_ℤ (pos r.0) shard_id && ltb_ℤ shard_id (pos r.1)

-- What `int(...)` and `str(...)` do to the values that a snapshot does not write: `int` of a text or of
-- a number with a point, and the text of a value that is no text.
pub record Casts : Type 0 where
  pub int_of_text : String → Result ℤ
  pub int_of_real : ℤ → ℕ → ℤ
  pub text_of : Json → String

module _ (casts : Casts) where
  unfoldable pub to_int : Json → Result ℤ
  to_int (int n) = ok n
  to_int (bool true) = ok (pos 1)
  to_int (bool false) = ok (pos 0)
  to_int (str s) = casts.int_of_text s
  to_int (real n k) = ok (casts.int_of_real n k)
  to_int v = err type_error

  unfoldable pub to_str : Json → String
  to_str (str s) = s
  to_str v = casts.text_of v

  unfoldable pub restore_row : Fields → Result MessageState
  unfolding to_int to_str item get_field
  restore_row row = do
    mid ← item row "messageId"
    shard ← item row "shardId"
    shard_id ← to_int shard
    to ← item row "to"
    body ← item row "body"
    arrival ← item row "arrivalMs"
    arrival_ms ← to_int arrival
    index ← item row "nextAttemptIndex"
    next_attempt_index ← to_int index
    due ← item row "nextDueAtMs"
    next_due_at_ms ← to_int due
    ok (record {
      message_id = to_str mid;
      shard_id = shard_id;
      to = to_str to;
      body = to_str body;
      arrival_ms = arrival_ms;
      next_attempt_index = next_attempt_index;
      next_due_at_ms = next_due_at_ms;
      status = pending;
    })

  -- `restore_snapshot_pending`: the states, and the error of the row at which it stopped.
  unfoldable pub restore_snapshot_pending :
      List Fields → Dict String MessageState → Done × Dict String MessageState
  restore_snapshot_pending [] states = (ok tt, states)
  restore_snapshot_pending (row ∷ rows) states = elim (restore_row row) [
    | ok st ↦ restore_snapshot_pending rows (put states st.message_id st)
    | err e ↦ (err e, states)
  ]
