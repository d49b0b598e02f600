-- ===== src/Worker/Snapshot/Tests.antt =====
-- A snapshot of two messages.
use nitzan_shinnies_inspecti.Prelude.{String, ◌≡◌, refl, [], ◌∷◌}
use nitzan_shinnies_inspecti.Prelude.Int.{pos, ℤ-eq}
use nitzan_shinnies_inspecti.Prelude.Eq.{ℕ-eq, String-eq, pair_eq}
use nitzan_shinnies_inspecti.Prelude.Dict.{Dict, get, values}
use nitzan_shinnies_inspecti.Prelude.Result.{value_error, ok, err}
use nitzan_shinnies_inspecti.Models.{RetryStatus, pending, success}
use nitzan_shinnies_inspecti.Worker.Runtime.{MessageState}
use nitzan_shinnies_inspecti.Worker.Snapshot.{Casts, restore_snapshot_pending, snapshot_rows}
use nitzan_shinnies_inspecti.Worker.Snapshot.Roundtrip.{restore-snapshot_rows, pending_only}

abbrev casts : Casts
casts = record { int_of_text = λ s. err value_error; int_of_real = λ n k. n; text_of = λ v. "" }

abbrev message : String → RetryStatus → MessageState
message mid status = record {
  message_id = mid;
  shard_id = pos 3;
  to = "+1";
  body = "hi";
  arrival_ms = pos 100;
  next_attempt_index = pos 1;
  next_due_at_ms = pos 600;
  status = status;
}

abbrev two_states : Dict String MessageState
two_states = ("a", message "a" pending) ∷ ("b", message "b" success) ∷ []

restore-snapshot_rows_example :
    ((restore_snapshot_pending casts (snapshot_rows (values two_states)) []).0 ≡ ok tt)
    × (get (restore_snapshot_pending casts (snapshot_rows (values two_states)) []).1 "a"
        ≡ pending_only (get two_states "a"))
unfolding get
restore-snapshot_rows_example =
    restore-snapshot_rows casts two_states "a" (refl, refl, (refl, refl, tt))
