-- ===== src/Worker/Start/Tests.antt =====
-- A start from a store with one segment, whose record has the index 7.
use nitzan_shinnies_inspecti.Prelude.Decimal.{zero_pad}
use nitzan_shinnies_inspecti.Journal.Keys.{format_05d}
use nitzan_shinnies_inspecti.Prelude.{
  ◌≡◌, refl, inl, inr, true, false, none, some, [], ◌∷◌, arith, eqb, if◌then◌else◌, length, All,
}
use nitzan_shinnies_inspecti.Prelude.Int.{pos, ◌<ℤ◌, max_ℤ, ℤ-eq}
use nitzan_shinnies_inspecti.Prelude.Eq.{◌==◌, ℕ-eq, String-eq, pair_eq}
use nitzan_shinnies_inspecti.Prelude.Dict.{put}
use nitzan_shinnies_inspecti.Prelude.Result.{ok, err, value_error, client_error}
use nitzan_shinnies_inspecti.Prelude.Text.{is_space, is_line_end, strip, splitlines}
use nitzan_shinnies_inspecti.Prelude.Decimal.{codes, codes_beq, decimal}
use nitzan_shinnies_inspecti.Json.{end, field, int, obj, get_field}
use nitzan_shinnies_inspecti.Settings.{Settings, default_settings}
use nitzan_shinnies_inspecti.Domain.Sharding.{
  owned_shard_range, shards_per_pod, validate_total_shards_vs_workers,
}
use nitzan_shinnies_inspecti.Journal.Keys.{snapshot_key}
use nitzan_shinnies_inspecti.Journal.Records.{
  JournalRecord, send_attempted, validate_payload_for_type, require_keys, forbid_extra_keys,
  int_outside, item,
}
use nitzan_shinnies_inspecti.Journal.Records.Decode.{
  Codec, parse_gzip_ndjson_segment, decode_lines, decode_line, is_version_1,
}
use nitzan_shinnies_inspecti.Journal.Replay.{
  Page, Store, is_segment_key, load_max_record_index_for_shard, load_max_record_index_parallel,
  scan_pages, scan_keys, scan_key, raise_max, load_snapshot_if_present,
}
use nitzan_shinnies_inspecti.Journal.Writer.{new_writer}
use nitzan_shinnies_inspecti.Journal.Writer.Index.{Request, built, indexes_of}
use nitzan_shinnies_inspecti.Worker.Main.{
  owned_shards, bootstrap_hwm_for_shards, restore_on_start, restore_shards,
}
use nitzan_shinnies_inspecti.Worker.Runtime.{Runtime}
use nitzan_shinnies_inspecti.Worker.Start.{Sources, worker_start}
use nitzan_shinnies_inspecti.Worker.Start.Resume.{worker_start-IsAbove}

abbrev sample : JournalRecord
sample = record {
  type = send_attempted;
  shard_id = pos 0;
  message_id = "m";
  ts_ms = pos 5;
  record_index = pos 7;
  payload = field "attemptIndex" (int (pos 2)) end;
}

abbrev codec : Codec
codec = record {
  gunzip = λ segment. ok "line\n";
  loads = λ text. some (obj (field "v" (int (pos 1)) end));
  model_validate = λ d. some sample;
}

abbrev page : Page
page = record { keys = codes "a.ndjson.gz" ∷ []; is_truncated = false; next_token = none }

-- The key of the segment has eleven characters; there is no snapshot.
abbrev store : Store
store = record {
  list_objects = λ n prefix token. ok page;
  get_object = λ key. if eqb (length key) 11 then ok [] else err (client_error "NoSuchKey");
}

abbrev sources : Sources
sources = record {
  codec = codec;
  casts = record { int_of_text = λ s. err value_error; int_of_real = λ n k. n; text_of = λ v. "" };
  loads_utf8 = λ body. err value_error;
  store = store;
}

abbrev settings : Settings
settings = record default_settings {
  s3_bucket = "bucket";
  total_shards = pos 1;
  worker_index = pos 0;
  worker_replicas = pos 1;
}

abbrev request : Request
request = record {
  shard_id = pos 0;
  type = send_attempted;
  message_id = "m";
  ts_ms = pos 9;
  payload = field "attemptIndex" (int (pos 3)) end;
}

abbrev rt : Runtime
rt = record {
  states = [];
  journal = new_writer ((pos 0, pos 7) ∷ []);
  sms_calls = [];
  notices = [];
}

one_shard : owned_shard_range (pos 0) (pos 1) (pos 1) ≡ ok (0, 1)
unfolding owned_shard_range shards_per_pod validate_total_shards_vs_workers
one_shard = refl

decoded : parse_gzip_ndjson_segment codec [] ≡ ok (sample ∷ [])
unfolding parse_gzip_ndjson_segment decode_lines decode_line is_version_1 splitlines is_line_end
    strip is_space get_field validate_payload_for_type require_keys forbid_extra_keys int_outside
    item
decoded = refl

segment_key : is_segment_key (codes "a.ndjson.gz") ≡ true
unfolding codes_beq
segment_key = refl

has_bucket : (strip settings.s3_bucket == "") ≡ false
unfolding strip is_space
has_bucket = refl

index_seven : load_max_record_index_for_shard codec store 2 (pos 0) ≡ some (ok (pos 7))
unfolding load_max_record_index_for_shard scan_pages scan_keys scan_key raise_max max_ℤ
index_seven = rw (scan_pages, scan_keys, scan_key, segment_key, decoded) refl

no_snapshot : load_snapshot_if_present sources.casts sources.loads_utf8 store (pos 0) ≡ ok none
unfolding load_snapshot_if_present snapshot_key format_05d zero_pad decimal
no_snapshot = refl

bootstrapped :
    bootstrap_hwm_for_shards codec store settings 2 (owned_shards (0, 1))
    ≡ some (ok ((pos 0, pos 7) ∷ []))
unfolding bootstrap_hwm_for_shards owned_shards load_max_record_index_parallel put
bootstrapped =
    rw (bootstrap_hwm_for_shards, has_bucket, load_max_record_index_parallel, index_seven) refl

restored :
    restore_on_start sources.casts sources.loads_utf8 store settings (owned_shards (0, 1)) []
    ≡ (ok tt, [])
unfolding restore_on_start restore_shards owned_shards
restored = rw (restore_on_start, has_bucket, restore_shards, no_snapshot) refl

starts : worker_start sources settings 2 ≡ some (ok rt)
unfolding worker_start
starts = rw (worker_start, one_shard, bootstrapped, restored) refl

worker_start-IsAbove_example :
    All
      (λ i. All (λ x. x.record_index <ℤ i) (sample ∷ []))
      (indexes_of (pos 0) (built (request ∷ []) rt.journal))
worker_start-IsAbove_example =
    worker_start-IsAbove sources settings 2 rt (0, 1) one_shard starts (λ key. sample ∷ []) 0 page
      [] (request ∷ []) has_bucket (omega arith) (omega arith) (refl, refl)
      ((inr ([], segment_key, refl, inl decoded), tt), tt) (omega arith)
