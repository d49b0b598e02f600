-- ===== src/Worker/Handlers/Tests.antt =====
-- The handler at a small message.
use nitzan_shinnies_inspecti.Prelude.{◌++◌, ◌⊎◌, String, ◌≡◌, refl, true, none, some, [], ◌∷◌, eqb}
use nitzan_shinnies_inspecti.Worker.Handlers.Delivery.{
  apply_claim-stored_or_kept, bootstrap_from_ingest-IsValid, process_raw_sqs_message-lost,
}
use nitzan_shinnies_inspecti.Worker.Handlers.{
  apply_claim, new, Services, Node, bootstrap_from_ingest, process_raw_sqs_message,
}
use nitzan_shinnies_inspecti.Journal.Writer.Conserve.{written, stored_lines}
use nitzan_shinnies_inspecti.Ingest.Template.Stored.{first_line, second_line}
use nitzan_shinnies_inspecti.Prelude.Result.{Error, err, client_error, ok}
use nitzan_shinnies_inspecti.Journal.Records.{
  validate_dispatch_scheduled, validate_ingest_applied, validate_payload_for_type, require_keys,
  forbid_extra_keys, int_outside, item, is_body_hash, bad_hash, check_reason,
}
use nitzan_shinnies_inspecti.Json.{get_field}
use nitzan_shinnies_inspecti.Journal.Writer.{
  get_last_record_index, next_record_index, build_record, read_clock, read_mono, put_attempts,
  next_segment, name_segment, flush_shard_body, clear_buffer, flush_and_clear, flush_shard,
  maybe_flush, push_line, start_interval, append_encoded_line, encode_line, append_record,
}
use nitzan_shinnies_inspecti.Prelude.Text.{strip, is_space}
use nitzan_shinnies_inspecti.Prelude.Int.{max_ℤ, ◌+ℤ◌, pos, ℤ-eq}
use nitzan_shinnies_inspecti.Prelude.Dict.{put, get}
use nitzan_shinnies_inspecti.Ingest.Schema.{MessageIngested}
use nitzan_shinnies_inspecti.Ingest.Consumer.{RawSqsMessage}
use nitzan_shinnies_inspecti.Ingest.Template.{append_ingest_template_a}
use nitzan_shinnies_inspecti.Journal.Samples.{env, writer}
use nitzan_shinnies_inspecti.Journal.S3.{Env, refused}
use nitzan_shinnies_inspecti.Worker.Runtime.{Runtime}
use nitzan_shinnies_inspecti.Worker.Runtime.Invariant.{IsValid}
use nitzan_shinnies_inspecti.Worker.Sms.{response}
use nitzan_shinnies_inspecti.Worker.Snapshot.{owns_shard}

abbrev ingested : MessageIngested
ingested = record {
  message_id = "m";
  payload = record { body = "hi"; to = none };
  received_at_ms = pos 5;
  shard_id = pos 3;
  idempotency_key = "m";
  body_hash = "";
}

abbrev raw : RawSqsMessage
raw = record { body = "{}"; receipt_handle = "h" }

-- The store refuses every object, and the first claim of the key is granted, the others are not.
abbrev refusing : Env
refusing = record env { put_answer = λ n. refused "AccessDenied" }

abbrev sha256_hex : String → String
sha256_hex s = "0123456789abcdef0123456789abcdef0123456789abcdef0123456789abcdef"

abbrev services : Services
services = record {
  world = record { env = refusing; sms_answer = λ n q. response 500 };
  sha256_hex = sha256_hex;
  set_nx = λ n key value ttl. ok (eqb n 0);
  get_key = λ n key. ok (some "m");
  delete_answer = λ n handle. ok tt;
  message_of = λ body. ok ingested;
  owned = (0, 8);
}

abbrev empty_runtime : Runtime
empty_runtime = record { states = []; journal = writer; sms_calls = []; notices = [] }

abbrev node : Node
node = record { runtime = empty_runtime; redis_calls = 0; deletes = []; scheduled = [] }

none_is_some : {A : Type 0} {a : A} → none ≡ some a → ⊥
none_is_some h = cc

no_states : IsValid empty_runtime
unfolding get
no_states = record { at_key = λ mid st e. absurd (none_is_some e) }

bootstrap_from_ingest-IsValid_example :
    IsValid (bootstrap_from_ingest services ingested empty_runtime).1
bootstrap_from_ingest-IsValid_example =
    bootstrap_from_ingest-IsValid services ingested empty_runtime no_states

owned : owns_shard (0, 8) (pos 3) ≡ true
unfolding owns_shard
owned = refl

append_refused :
    (append_ingest_template_a refusing sha256_hex ingested writer).0
    ≡ err (client_error "AccessDenied")
unfolding get put get_field item require_keys forbid_extra_keys int_outside
    validate_payload_for_type validate_ingest_applied validate_dispatch_scheduled
    get_last_record_index next_record_index build_record read_clock read_mono put_attempts
    next_segment name_segment flush_shard_body clear_buffer flush_and_clear flush_shard maybe_flush
    push_line start_interval append_encoded_line encode_line append_record strip is_space
    is_body_hash append_ingest_template_a bad_hash check_reason max_ℤ ◌+ℤ◌
append_refused = refl

process_raw_sqs_message-lost_example :
    let after =
      (process_raw_sqs_message services raw (process_raw_sqs_message services raw node).1).1 in
    (after.deletes ≡ "h" ∷ []) × (after.scheduled ≡ []) × (after.runtime.states ≡ [])
process_raw_sqs_message-lost_example =
    process_raw_sqs_message-lost services raw ingested node (client_error "AccessDenied") refl owned
      refl append_refused refl refl

apply_claim-stored_or_kept_example :
    let after = (apply_claim services raw ingested new node).1 in
    let w = node.runtime.journal in
    (((e : Error) × ((append_ingest_template_a refusing sha256_hex ingested w).0 ≡ err e))
      × (after.deletes ≡ [])
      × (after.scheduled ≡ [])
      × (after.runtime.states ≡ []))
    ⊎ ((after.deletes ≡ "h" ∷ [])
        × (stored_lines (pos 3) after.runtime.journal.segments
            ≡ written w (pos 3)
              ++ first_line refusing sha256_hex ingested w
                ∷ second_line refusing sha256_hex ingested w
                ∷ []))
apply_claim-stored_or_kept_example = apply_claim-stored_or_kept services raw ingested node
