-- ===== src/Worker/Main/Tests.antt =====
-- The rows of a shard at two messages.
use nitzan_shinnies_inspecti.Json.{get_field}
use nitzan_shinnies_inspecti.Prelude.{refl}
use nitzan_shinnies_inspecti.Prelude.{◌≡◌, [], ◌∷◌}
use nitzan_shinnies_inspecti.Prelude.Int.{pos, ℤ-eq}
use nitzan_shinnies_inspecti.Prelude.Eq.{ℕ-eq, String-eq, pair_eq}
use nitzan_shinnies_inspecti.Models.{pending, success}
use nitzan_shinnies_inspecti.Worker.Runtime.{MessageState}
use nitzan_shinnies_inspecti.Worker.Snapshot.{snapshot_row}
use nitzan_shinnies_inspecti.Worker.Main.{rows_for}

abbrev waiting : MessageState
waiting = record {
  message_id = "a";
  shard_id = pos 3;
  to = "+1";
  body = "hi";
  arrival_ms = pos 100;
  next_attempt_index = pos 1;
  next_due_at_ms = pos 600;
  status = pending;
}

one_row :
    rows_for (pos 3) (waiting ∷ (record waiting { status = success }) ∷ [])
    ≡ snapshot_row waiting ∷ []
unfolding rows_for nitzan_shinnies_inspecti.Worker.Main.is_row_of
    nitzan_shinnies_inspecti.Worker.Snapshot.snapshot_rows
    nitzan_shinnies_inspecti.Worker.Snapshot.snapshot_row get_field
one_row = refl
