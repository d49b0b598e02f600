-- ===== src/Worker/Main.antt =====
-- inspectio/worker/main.py: what a worker loads when it starts, and a round of its snapshot loop. The
-- states and the journal do not change during a round here. `bootstrap_hwm_for_shards` is of
-- inspectio/journal/writer.py.
pub mod Rows
mod Tests
use nitzan_shinnies_inspecti.Prelude.{
  ℕ, zero, suc, ◌+◌, ◌-◌, String, Bool, false, Option, none, some, List, [], ◌∷◌, if◌then◌else◌,
  keep,
}
use nitzan_shinnies_inspecti.Prelude.Int.{ℤ, pos, negsuc, ℤ-eq}
use nitzan_shinnies_inspecti.Prelude.Eq.{◌==◌, ℕ-eq, String-eq, pair_eq}
use nitzan_shinnies_inspecti.Prelude.Dict.{Dict, put}
use nitzan_shinnies_inspecti.Prelude.Result.{Done, type_error, Result, ok, err}
use nitzan_shinnies_inspecti.Prelude.Exec.{Exec, pure, ◌>>=◌, ◌>>◌}
use nitzan_shinnies_inspecti.Prelude.Text.{strip}
use nitzan_shinnies_inspecti.Prelude.Decimal.{Codes}
use nitzan_shinnies_inspecti.Json.{Json, Fields, int, obj, get_field}
use nitzan_shinnies_inspecti.Settings.{Settings}
use nitzan_shinnies_inspecti.Journal.S3.{PutAnswer}
use nitzan_shinnies_inspecti.Journal.Records.Decode.{Codec}
use nitzan_shinnies_inspecti.Journal.Replay.{
  Store, load_snapshot_if_present, load_max_record_index_parallel,
}
use nitzan_shinnies_inspecti.Journal.Writer.{Writer, get_last_record_index}
use nitzan_shinnies_inspecti.Journal.Writer.Snapshot.{Snapshots, write_snapshot}
use nitzan_shinnies_inspecti.Worker.Runtime.{MessageState}
use nitzan_shinnies_inspecti.Worker.Snapshot.{Casts, restore_row, snapshot_rows}

-- range(start, end)
abbrev pub count_up : ℕ → ℕ → List ℤ
count_up zero start = []
count_up (suc n) start = pos start ∷ count_up n (start + 1)

unfoldable pub owned_shards : ℕ × ℕ → List ℤ
owned_shards r = count_up (r.1 - r.0) r.0

-- {s: -1 for s in shard_ids}
abbrev pub no_indexes : List ℤ → Dict ℤ ℤ → Dict ℤ ℤ
no_indexes [] d = d
no_indexes (s ∷ ss) d = no_indexes ss (put d s (negsuc 0))

-- None when `fuel` pages did not reach the end of a listing. The loop over the shards is that of
-- `load_max_record_index_parallel`.
unfoldable pub bootstrap_hwm_for_shards :
    Codec → Store → Settings → ℕ → List ℤ → Option (Result (Dict ℤ ℤ))
bootstrap_hwm_for_shards codec store settings fuel shard_ids =
    if strip settings.s3_bucket == ""
    then some (ok (no_indexes shard_ids []))
    else load_max_record_index_parallel codec store fuel shard_ids []

-- p["shardId"] == sid
unfoldable pub is_row_of : ℤ → Fields → Bool
is_row_of sid row = elim (get_field row "shardId") [ some (int n) ↦ n == sid | _ ↦ false ]

-- The rows of a shard, and one snapshot for each shard of the range.
unfoldable pub rows_for : ℤ → List MessageState → List Fields
rows_for sid states = keep (is_row_of sid) (snapshot_rows states)

module _ (put_answer : ℕ → PutAnswer) (settings : Settings) where
  unfoldable pub snapshot_round : Writer → List MessageState → List ℤ → Exec Snapshots Unit
  snapshot_round journal states [] = pure tt
  snapshot_round journal states (sid ∷ sids) = do
    write_snapshot put_answer settings sid (get_last_record_index journal sid) (rows_for sid states)
    snapshot_round journal states sids

module _ (casts : Casts) (loads_utf8 : Codes → Result Json) (store : Store) where
  -- `restore_snapshot_pending` on the values of a snapshot, where a row may be no object.
  unfoldable pub restore_values :
      List Json → Dict String MessageState → Done × Dict String MessageState
  restore_values [] states = (ok tt, states)
  restore_values (obj d ∷ vs) states = elim (restore_row casts d) [
    | ok st ↦ restore_values vs (put states st.message_id st)
    | err e ↦ (err e, states)
  ]
  restore_values (v ∷ vs) states = (err type_error, states)

  unfoldable pub restore_shards :
      List ℤ → Dict String MessageState → Done × Dict String MessageState
  restore_shards [] states = (ok tt, states)
  restore_shards (sid ∷ sids) states = elim (load_snapshot_if_present casts loads_utf8 store sid) [
    | err e ↦ (err e, states)
    | ok none ↦ restore_shards sids states
    | ok (some snap) ↦
        let (r, states') = restore_values snap.pending states in
        elim r [ ok a ↦ restore_shards sids states' | err e ↦ (err e, states') ]
  ]

  unfoldable pub restore_on_start :
      Settings → List ℤ → Dict String MessageState → Done × Dict String MessageState
  restore_on_start settings shard_ids states =
      if strip settings.s3_bucket == "" then (ok tt, states) else restore_shards shard_ids states
