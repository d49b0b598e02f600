-- ===== src/Ingest/Producer/Tests.antt =====
-- A group of two messages, the first of which is sent again by itself.
use nitzan_shinnies_inspecti.Prelude.{List, String, ◌≡◌, refl, none, some, [], ◌∷◌}
use nitzan_shinnies_inspecti.Ingest.Producer.Order.{InOrder, put_messages-InOrder}
use nitzan_shinnies_inspecti.Ingest.Producer.{
  put_messages, IngestPutInput, IngestPutResult, Sqs, Sent, Indexed, run_group, build_batch_entries,
  send_single, send_batch, retry_failed, send_fifo_batch, batch_results,
}
use nitzan_shinnies_inspecti.Settings.{Settings, default_settings}
use nitzan_shinnies_inspecti.Prelude.Result.{ok}
use nitzan_shinnies_inspecti.Prelude.Int.{pos, ℤ-eq}
use nitzan_shinnies_inspecti.Prelude.Dict.{get, put}

abbrev input : String → IngestPutInput
input mid = record {
  message_id = mid;
  shard_id = pos 3;
  payload_body = "hi";
  payload_to = none;
  received_at_ms = pos 5;
  idempotency_key = mid;
}

abbrev sqs : Sqs
sqs = record {
  sha256_hex = λ s. s;
  send_message_batch =
      λ n entries. ok (record { successful = (1, some "q") ∷ []; failed = 0 ∷ [] });
  send_message = λ n entry. ok (some "p");
}

abbrev nothing_sent : Sent
nothing_sent = record { batches = []; singles = [] }

abbrev group : Indexed IngestPutInput
group = (4, input "a") ∷ (9, input "b") ∷ []

abbrev result : String → String → IngestPutResult
result mid seq = record { message_id = mid; shard_id = pos 3; ingest_sequence = some seq }

returned :
    (run_group sqs 2 group nothing_sent).0 ≡ ok ((4, result "a" "p") ∷ (9, result "b" "q") ∷ [])
unfolding run_group build_batch_entries send_single send_batch retry_failed send_fifo_batch
    batch_results get put
returned = refl

-- Two shards, whose groups are sent one after the other.
abbrev messages : List IngestPutInput
messages = input "a" ∷ (record (input "c") { shard_id = pos 4 }) ∷ input "b" ∷ []

abbrev results : List IngestPutResult
results =
    result "a" "p"
    ∷ (record { message_id = "c"; shard_id = pos 4; ingest_sequence = some "p" })
    ∷ result "b" "q"
    ∷ []

abbrev with_queue : Settings
with_queue = record default_settings { ingest_queue_url = "queue" }

put_returned : (put_messages sqs with_queue messages nothing_sent).0 ≡ ok results
unfolding put_messages nitzan_shinnies_inspecti.Prelude.Text.strip
    nitzan_shinnies_inspecti.Prelude.Text.is_space
    nitzan_shinnies_inspecti.Ingest.Producer.put_grouped
    nitzan_shinnies_inspecti.Ingest.Producer.run_groups nitzan_shinnies_inspecti.Prelude.Dict.values
    nitzan_shinnies_inspecti.Ingest.Producer.group_messages put
    nitzan_shinnies_inspecti.Prelude.Decimal.codes_beq
    nitzan_shinnies_inspecti.Ingest.Producer.partition_key_for_shard
    nitzan_shinnies_inspecti.Journal.Keys.format_05d
    nitzan_shinnies_inspecti.Prelude.Decimal.zero_pad run_group get send_fifo_batch send_batch
    retry_failed send_single batch_results build_batch_entries
    nitzan_shinnies_inspecti.Ingest.Producer.deduplication_id
    nitzan_shinnies_inspecti.Ingest.Producer.sort_by_index
    nitzan_shinnies_inspecti.Prelude.Decimal.decimal
    nitzan_shinnies_inspecti.Prelude.Decimal.digits_onto
    nitzan_shinnies_inspecti.Prelude.Decimal.zeros nitzan_shinnies_inspecti.Prelude.Text.lstrip
    nitzan_shinnies_inspecti.Prelude.Text.rstrip
put_returned = refl

put_messages-InOrder_example : InOrder messages results
put_messages-InOrder_example =
    put_messages-InOrder sqs with_queue messages nothing_sent results put_returned
