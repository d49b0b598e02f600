-- ===== src/Journal/Replay/Tests.antt =====
-- The scan at a small store: two pages, and a segment whose record has the index 7.
use nitzan_shinnies_inspecti.Prelude.{
  ℕ, zero, suc, ◌≡◌, refl, inl, inr, true, false, none, some, List, [], ◌∷◌, arith, eqb,
  if◌then◌else◌, length,
}
use nitzan_shinnies_inspecti.Prelude.Int.{ℤ, pos, negsuc, ℤ-eq}
use nitzan_shinnies_inspecti.Prelude.Result.{value_error, ok, err}
use nitzan_shinnies_inspecti.Prelude.Text.{is_space, is_line_end, strip, splitlines}
use nitzan_shinnies_inspecti.Prelude.Decimal.{Codes, codes, codes_beq}
use nitzan_shinnies_inspecti.Json.{end, field, int, obj, get_field}
use nitzan_shinnies_inspecti.Journal.Records.{
  JournalRecord, send_attempted, validate_payload_for_type, require_keys, forbid_extra_keys,
  int_outside, item,
}
use nitzan_shinnies_inspecti.Journal.Records.Decode.{
  Codec, parse_gzip_ndjson_segment, decode_lines, decode_line, is_version_1,
}
use nitzan_shinnies_inspecti.Journal.Replay.{
  Page, Store, load_max_record_index_for_shard, load_snapshot_if_present, is_segment_key,
}
use nitzan_shinnies_inspecti.Journal.Replay.Roundtrip.{load-snapshot_body}
use nitzan_shinnies_inspecti.Journal.Writer.Snapshot.{snapshot_body}
use nitzan_shinnies_inspecti.Worker.Snapshot.{Casts}
use nitzan_shinnies_inspecti.Journal.Replay.Scan.{
  IsMaximum, records_at, keys_of, load_max_record_index-IsMaximum,
}

abbrev sample : JournalRecord
sample = record {
  type = send_attempted;
  shard_id = pos 3;
  message_id = "m";
  ts_ms = pos 5;
  record_index = pos 7;
  payload = field "attemptIndex" (int (pos 2)) end;
}

abbrev codec : Codec
codec = record {
  gunzip = λ segment. ok "line\n";
  loads = λ text. some (obj (field "v" (int (pos 1)) end));
  model_validate = λ d. some sample;
}

abbrev first_page : Page
first_page = record { keys = codes "other" ∷ []; is_truncated = true; next_token = some "next" }

abbrev last_page : Page
last_page = record { keys = codes "a.ndjson.gz" ∷ []; is_truncated = false; next_token = none }

abbrev listing : ℕ → Page
listing zero = first_page
listing (suc n) = last_page

abbrev store : Store
store = record { list_objects = λ n prefix token. ok (listing n); get_object = λ key. ok [] }

abbrev contents : Codes → List JournalRecord
contents key = if eqb (length key) 5 then [] else sample ∷ []

decoded : parse_gzip_ndjson_segment codec [] ≡ ok (sample ∷ [])
unfolding parse_gzip_ndjson_segment decode_lines decode_line is_version_1 splitlines is_line_end
    strip is_space get_field validate_payload_for_type require_keys forbid_extra_keys int_outside
    item
decoded = refl

other_key : is_segment_key (codes "other") ≡ false
unfolding codes_beq
other_key = refl

segment_key : is_segment_key (codes "a.ndjson.gz") ≡ true
unfolding codes_beq
segment_key = refl

load_max_record_index-IsMaximum_example :
    (m : ℤ) × (load_max_record_index_for_shard codec store 2 (pos 3) ≡ some (ok m))
    × IsMaximum (negsuc 0) (records_at contents (keys_of (first_page ∷ last_page ∷ []))) m
load_max_record_index-IsMaximum_example =
    load_max_record_index-IsMaximum codec store contents 2 (pos 3) first_page (last_page ∷ [])
      (refl, refl, (refl, refl))
      ((inl (other_key, refl), tt), ((inr ([], segment_key, refl, inl decoded), tt), tt))
      (omega arith)

abbrev casts : Casts
casts = record { int_of_text = λ s. err value_error; int_of_real = λ n k. n; text_of = λ v. "" }

abbrev read_only : Store
read_only = record { list_objects = λ n prefix token. ok last_page; get_object = λ key. ok [] }

load-snapshot_body_example :
    load_snapshot_if_present casts (λ body. ok (snapshot_body (pos 3) (pos 7) [])) read_only (pos 3)
    ≡ ok (some (record { shard_id = pos 3; last_record_index = pos 7; pending = [] }))
load-snapshot_body_example =
    load-snapshot_body casts (λ body. ok (snapshot_body (pos 3) (pos 7) [])) read_only (pos 3)
      (pos 7) [] [] refl refl
