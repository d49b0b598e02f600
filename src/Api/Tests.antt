-- ===== src/Api/Tests.antt =====
-- A repeated admission of two messages.
use nitzan_shinnies_inspecti.Prelude.{◌≡◌, refl, none, some, [], ◌∷◌}
use nitzan_shinnies_inspecti.Prelude.Int.{pos, ℤ-eq}
use nitzan_shinnies_inspecti.Prelude.Result.{ok}
use nitzan_shinnies_inspecti.Json.{Fields, end, field, str, get_field}
use nitzan_shinnies_inspecti.Settings.{Settings, default_settings}
use nitzan_shinnies_inspecti.Domain.Sharding.{shard_for_message}
use nitzan_shinnies_inspecti.Ingest.Producer.{Sqs}
use nitzan_shinnies_inspecti.Api.{
  Api, Outside, Response, many, new_inputs, trim_body, post_messages_repeat,
}
use nitzan_shinnies_inspecti.Api.Admission.{Accepts, post_messages_repeat-Accepts}

abbrev sqs : Sqs
sqs = record {
  sha256_hex = λ s. s;
  send_message_batch =
      λ n entries. ok (record { successful = (0, some "p") ∷ (1, some "q") ∷ []; failed = [] });
  send_message = λ n entry. ok none;
}

abbrev outside : Outside
outside = record {
  uuid = λ n. "id";
  clock_ms = λ n. 5;
  sha256 = λ s. 0 ∷ 0 ∷ 0 ∷ 9 ∷ [];
  text_of = λ v. "";
  sqs = sqs;
}

abbrev api : Api
api = record { sent = record { batches = []; singles = [] }; drawn = 0; clock_reads = 0 }

abbrev with_queue : Settings
with_queue = record default_settings { ingest_queue_url = "queue" }

abbrev payload : Fields
payload = field "body" (str "hi") end

abbrev both : Response
both = many 2 ("id" ∷ "id" ∷ []) (pos 9 ∷ pos 9 ∷ [])

answered : (post_messages_repeat outside with_queue 2 payload api).0 ≡ ok both
unfolding post_messages_repeat get_field trim_body new_inputs shard_for_message
    nitzan_shinnies_inspecti.Prelude.Text.strip nitzan_shinnies_inspecti.Prelude.Text.is_space
    nitzan_shinnies_inspecti.Ingest.Producer.put_messages
    nitzan_shinnies_inspecti.Ingest.Producer.put_grouped
    nitzan_shinnies_inspecti.Ingest.Producer.run_groups nitzan_shinnies_inspecti.Prelude.Dict.values
    nitzan_shinnies_inspecti.Ingest.Producer.group_messages
    nitzan_shinnies_inspecti.Prelude.Dict.put nitzan_shinnies_inspecti.Prelude.Decimal.codes_beq
    nitzan_shinnies_inspecti.Ingest.Producer.partition_key_for_shard
    nitzan_shinnies_inspecti.Journal.Keys.format_05d
    nitzan_shinnies_inspecti.Prelude.Decimal.zero_pad
    nitzan_shinnies_inspecti.Ingest.Producer.run_group nitzan_shinnies_inspecti.Prelude.Dict.get
    nitzan_shinnies_inspecti.Ingest.Producer.send_fifo_batch
    nitzan_shinnies_inspecti.Ingest.Producer.send_batch
    nitzan_shinnies_inspecti.Ingest.Producer.retry_failed
answered = refl

post_messages_repeat-Accepts_example : Accepts outside with_queue 0 2 both
post_messages_repeat-Accepts_example =
    post_messages_repeat-Accepts outside with_queue 2 payload api both answered
