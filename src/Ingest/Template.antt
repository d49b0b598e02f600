-- ===== src/Ingest/Template.antt =====
-- inspectio/ingest/ingest_consumer.py: the journal records of an ingested message.
pub mod Stored
mod Tests
use nitzan_shinnies_inspecti.Prelude.{String}
use nitzan_shinnies_inspecti.Prelude.Int.{ℤ, pos, ℤ-eq}
use nitzan_shinnies_inspecti.Prelude.Exec.{Exec, ◌>>=◌, ◌>>◌}
use nitzan_shinnies_inspecti.Json.{end, field, int, str}
use nitzan_shinnies_inspecti.Ingest.Schema.{MessageIngested}
use nitzan_shinnies_inspecti.Journal.Records.{ingest_applied, dispatch_scheduled}
use nitzan_shinnies_inspecti.Journal.S3.{Env}
use nitzan_shinnies_inspecti.Journal.Writer.{Writer, read_clock, flush_shard}
use nitzan_shinnies_inspecti.Journal.Writer.Index.{Request}
use nitzan_shinnies_inspecti.Journal.Writer.Stored.{log}

-- The arguments of the two `build_record` calls.
abbrev pub applied_request : (String → String) → ℤ → MessageIngested → Request
applied_request sha256_hex now m = record {
  shard_id = m.shard_id;
  type = ingest_applied;
  message_id = m.message_id;
  ts_ms = now;
  payload = field "receivedAtMs" (int m.received_at_ms) (
      field "idempotencyKey" (str m.idempotency_key)
        (field "bodyHash" (str (sha256_hex m.payload.body)) end));
}

abbrev pub scheduled_request : ℤ → MessageIngested → Request
scheduled_request now m = record {
  shard_id = m.shard_id;
  type = dispatch_scheduled;
  message_id = m.message_id;
  ts_ms = now;
  payload = field "reason" (str "immediate") end;
}

module _ (env : Env) (sha256_hex : String → String) where
  abbrev pub append_both : MessageIngested → ℤ → Exec Writer Unit
  append_both m now =
      log env (applied_request sha256_hex now m)
      >> (log env (scheduled_request now m) >> flush_shard env m.shard_id)

  unfoldable pub append_ingest_template_a : MessageIngested → Exec Writer Unit
  append_ingest_template_a m = do now ← read_clock env; append_both m (pos now)
