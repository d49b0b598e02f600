-- ===== src/Ingest/Template/Tests.antt =====
-- The template of a small message.
use nitzan_shinnies_inspecti.Prelude.{String, ◌≡◌, refl, none, [], ◌∷◌, ◌++◌}
use nitzan_shinnies_inspecti.Prelude.Int.{pos, ◌+ℤ◌, max_ℤ, ℤ-eq}
use nitzan_shinnies_inspecti.Prelude.Result.{ok}
use nitzan_shinnies_inspecti.Prelude.Dict.{get, put}
use nitzan_shinnies_inspecti.Prelude.Text.{strip, is_space}
use nitzan_shinnies_inspecti.Json.{get_field}
use nitzan_shinnies_inspecti.Ingest.Schema.{MessageIngested}
use nitzan_shinnies_inspecti.Ingest.Template.{append_ingest_template_a}
use nitzan_shinnies_inspecti.Ingest.Template.Stored.{
  first_line, second_line, append_ingest_template_a-stored,
}
use nitzan_shinnies_inspecti.Journal.Samples.{env, writer}
use nitzan_shinnies_inspecti.Journal.Writer.Conserve.{written, stored_lines}
use nitzan_shinnies_inspecti.Journal.Records.{
  validate_payload_for_type, require_keys, forbid_extra_keys, int_outside, item, is_body_hash,
  bad_hash, check_reason,
}
use nitzan_shinnies_inspecti.Journal.Writer.{
  get_last_record_index, next_record_index, build_record, read_clock, read_mono, put_attempts,
  next_segment, name_segment, flush_shard_body, clear_buffer, flush_and_clear, flush_shard,
  maybe_flush, push_line, start_interval, append_encoded_line, encode_line, append_record,
}

abbrev ingested : MessageIngested
ingested = record {
  message_id = "m";
  payload = record { body = "hi"; to = none };
  received_at_ms = pos 5;
  shard_id = pos 3;
  idempotency_key = "m";
  body_hash = "";
}

abbrev sha256_hex : String → String
sha256_hex s = "0123456789abcdef0123456789abcdef0123456789abcdef0123456789abcdef"

appended : (append_ingest_template_a env sha256_hex ingested writer).0 ≡ ok tt
unfolding get put get_field item require_keys forbid_extra_keys int_outside
    validate_payload_for_type get_last_record_index next_record_index build_record read_clock
    read_mono put_attempts next_segment name_segment flush_shard_body clear_buffer flush_and_clear
    flush_shard maybe_flush push_line start_interval append_encoded_line encode_line append_record
    strip is_space is_body_hash append_ingest_template_a bad_hash check_reason max_ℤ ◌+ℤ◌
appended = refl

append_ingest_template_a-stored_example :
    stored_lines (pos 3) (append_ingest_template_a env sha256_hex ingested writer).1.segments
    ≡ written writer (pos 3)
      ++ first_line env sha256_hex ingested writer ∷ second_line env sha256_hex ingested writer ∷ []
append_ingest_template_a-stored_example =
    append_ingest_template_a-stored env sha256_hex ingested writer appended
