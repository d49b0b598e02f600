-- ===== src/Journal/Writer/Tests.antt =====
-- The writer at a small input.
use nitzan_shinnies_inspecti.Journal.Keys.{snapshot_key}
use nitzan_shinnies_inspecti.Journal.Samples.{answers, with_bucket, env, request, writer}
use nitzan_shinnies_inspecti.Journal.Writer.Snapshot.{
  Snapshots, Outcome, snapshot_body, write_snapshot, write_snapshot-Outcome,
}
use nitzan_shinnies_inspecti.Prelude.Text.{strip, is_space}
use nitzan_shinnies_inspecti.Journal.Writer.{
  append_encoded_line, start_interval, push_line, maybe_flush, flush_and_clear, clear_buffer,
  flush_shard_body, name_segment, next_segment, put_attempts, read_mono, read_clock, build_record,
  next_record_index, append_record, flush_shard, flush_all, flush_round, put_object_with_retry,
  get_last_record_index, encode_line,
}
use nitzan_shinnies_inspecti.Journal.Records.{
  validate_payload_for_type, int_outside, forbid_extra_keys, require_keys, item,
  validate_monotonic_record_index,
}
use nitzan_shinnies_inspecti.Prelude.{
  ℕ, zero, suc, ◌⊎◌, true, false, ◌+◌, ◌≤◌, ◌<◌, ◌≡◌, refl, ◌&&◌, some, [], ◌∷◌, ◌++◌, arith,
  if◌then◌else◌,
}
use nitzan_shinnies_inspecti.Prelude.Int.{pos, ◌+ℤ◌, max_ℤ, ℤ-eq}
use nitzan_shinnies_inspecti.Prelude.Eq.{◌==◌, ℕ-eq, String-eq, pair_eq}
use nitzan_shinnies_inspecti.Prelude.Dict.{get, put}
use nitzan_shinnies_inspecti.Prelude.Result.{is_ok, ok}
use nitzan_shinnies_inspecti.Prelude.Exec.{◌>>◌}
use nitzan_shinnies_inspecti.Json.{get_field}
use nitzan_shinnies_inspecti.Journal.S3.{Env, Segment, lost}
use nitzan_shinnies_inspecti.Journal.Writer.Index.{
  record_of, build, build_record_lem, built, IncreasesFrom, indexes_of, built-IncreasesFrom,
}
use nitzan_shinnies_inspecti.Journal.Writer.Conserve.{
  written, stored_lines, append_record-written, flushes_conserve,
}
use nitzan_shinnies_inspecti.Journal.Writer.Retry.{
  EndedBy, Throttled, put_object_with_retry_bounds, put_object_with_retry-stores,
}
use nitzan_shinnies_inspecti.Journal.Writer.Stored.{log, log_and_flush-stored}

abbrev segment : Segment
segment = record { shard_id = pos 3; key = []; lines = "m" ∷ [] }

put_object_with_retry_bounds_example :
    ((n : ℕ) × ((put_object_with_retry env segment writer).1.puts ≡ n + 1)
      × EndedBy 8 segment writer (put_object_with_retry env segment writer) (env.put_answer n))
    × (writer.puts < (put_object_with_retry env segment writer).1.puts)
    × ((put_object_with_retry env segment writer).1.puts ≤ writer.puts + 8)
    × ((put_object_with_retry env segment writer).1.slept_ms ≤ writer.slept_ms + 5150)
put_object_with_retry_bounds_example = put_object_with_retry_bounds env segment writer

second_try : (j : ℕ) → j < 1 → Throttled env segment (0 + j)
second_try zero h = ("SlowDown", refl, refl)
second_try (suc j) h = absurd (omega arith)

put_object_with_retry-stores_example :
    ((put_object_with_retry env segment writer).0 ≡ ok tt)
    × ((put_object_with_retry env segment writer).1.segments ≡ writer.segments ++ segment ∷ [])
put_object_with_retry-stores_example =
    put_object_with_retry-stores env segment 1 writer (omega arith) second_try refl

flushes_conserve_example :
    (written (flush_shard env (pos 3) writer).1 (pos 3) ≡ written writer (pos 3))
    × (written (flush_all env writer).1 (pos 3) ≡ written writer (pos 3))
    × (written (flush_round env writer).1 (pos 3) ≡ written writer (pos 3))
flushes_conserve_example = flushes_conserve env (pos 3) writer (pos 3)

append_record-written_example :
    written (append_record env (record_of request writer) writer).1 (pos 3) ≡ (
      if is_ok (encode_line env (record_of request writer)) && (pos 3 == pos 3)
      then written writer (pos 3) ++ "m" ∷ []
      else written writer (pos 3))
append_record-written_example = append_record-written env (record_of request writer) writer (pos 3)

build_record_lem_example :
    ((build request writer).0 ≡ ok (record_of request writer))
    × (validate_monotonic_record_index
          (some (get_last_record_index writer (pos 3)))
          (record_of request writer)
        ≡ ok tt)
    × (get_last_record_index (build request writer).1 (pos 4) ≡ (
        if pos 3 == pos 4
        then (record_of request writer).record_index
        else get_last_record_index writer (pos 4)))
build_record_lem_example = build_record_lem request writer (pos 4)

built-IncreasesFrom_example :
    IncreasesFrom
      (get_last_record_index writer (pos 3))
      (indexes_of (pos 3) (built (request ∷ request ∷ []) writer))
built-IncreasesFrom_example = built-IncreasesFrom (request ∷ request ∷ []) writer (pos 3)

logged : ((log env request >> flush_shard env (pos 3)) writer).0 ≡ ok tt
unfolding get put get_field item require_keys forbid_extra_keys int_outside
    validate_payload_for_type get_last_record_index next_record_index build_record read_clock
    read_mono put_attempts next_segment name_segment flush_shard_body clear_buffer flush_and_clear
    flush_shard maybe_flush push_line start_interval append_encoded_line encode_line append_record
    strip is_space max_ℤ ◌+ℤ◌
logged = refl

log_and_flush-stored_example :
    stored_lines (pos 3) ((log env request >> flush_shard env (pos 3)) writer).1.segments
    ≡ written writer (pos 3) ++ "m" ∷ []
log_and_flush-stored_example = log_and_flush-stored env request writer logged

abbrev no_snapshots : Snapshots
no_snapshots = record { objects = []; puts = 0; slept_ms = 0 }

write_snapshot-Outcome_example :
    (((strip with_bucket.s3_bucket == "") ≡ true)
      × (write_snapshot answers with_bucket (pos 3) (pos 7) [] no_snapshots
          ≡ (ok tt, no_snapshots)))
    ⊎ (((strip with_bucket.s3_bucket == "") ≡ false)
        × Outcome answers 8
            (snapshot_key (pos 3))
            (snapshot_body (pos 3) (pos 7) [])
            no_snapshots
            (write_snapshot answers with_bucket (pos 3) (pos 7) [] no_snapshots))
write_snapshot-Outcome_example =
    write_snapshot-Outcome answers with_bucket (pos 3) (pos 7) [] no_snapshots

-- A store that takes every object, and whose answers are lost.
abbrev cut_off : Env
cut_off = record env { put_answer = λ n. lost true }
