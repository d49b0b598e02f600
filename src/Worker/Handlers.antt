-- ===== src/Worker/Handlers.antt =====
-- inspectio/worker/handlers.py, with `try_claim_idempotency` of inspectio/ingest/ingest_consumer.py and
-- `bootstrap_from_ingest` of inspectio/worker/runtime.py: from a queue message to a scheduled send.
-- pydantic and json.loads, Redis and the queue are parameters.
pub mod Delivery
mod Tests
use nitzan_shinnies_inspecti.Prelude.{
  ℕ, ◌+◌, String, Bool, Option, none, some, List, [], ◌∷◌, ◌++◌, if◌then◌else◌, length,
}
use nitzan_shinnies_inspecti.Prelude.Int.{ℤ, pos, min_ℤ, ℤ-eq}
use nitzan_shinnies_inspecti.Prelude.Eq.{◌==◌, ℕ-eq, String-eq, pair_eq}
use nitzan_shinnies_inspecti.Prelude.Result.{Result}
use nitzan_shinnies_inspecti.Prelude.Exec.{Exec, pure, lift, modify, ◌>>=◌, ◌>>◌, zoom}
use nitzan_shinnies_inspecti.Settings.{Settings}
use nitzan_shinnies_inspecti.Models.{Message, pending}
use nitzan_shinnies_inspecti.Ingest.Schema.{MessageIngested}
use nitzan_shinnies_inspecti.Ingest.Consumer.{RawSqsMessage}
use nitzan_shinnies_inspecti.Ingest.Template.{append_ingest_template_a}
use nitzan_shinnies_inspecti.Worker.Runtime.{
  World, Runtime, MessageState, in_journal, now_ms, put_state,
}
use nitzan_shinnies_inspecti.Worker.Snapshot.{owns_shard}

pub data Claim : Type 0 where
  new duplicate_same collision : Claim

-- Redis at its nth call (`SET NX` with the ttl in seconds, and `GET`, under the idempotency key, which
-- the source puts behind a fixed prefix), the queue's answer to the nth
-- delete, and the message that a body is validated to.
pub record Services : Type 0 where
  pub world : World
  pub sha256_hex : String → String
  pub set_nx : ℕ → String → String → ℕ → Result Bool
  pub get_key : ℕ → String → Result (Option String)
  pub delete_answer : ℕ → String → Result (Unit {0})
  pub message_of : String → Result MessageIngested
  pub owned : ℕ × ℕ

-- A worker: its runtime, the calls of Redis, the delete requests, and the tasks of `new_message`.
pub record Node : Type 0 where
  pub runtime : Runtime
  pub redis_calls : ℕ
  pub deletes : List String
  pub scheduled : List Message

unfoldable pub compare_claim : String → Option String → Claim
compare_claim message_id none = new
compare_claim message_id (some existing) =
    if existing == message_id then duplicate_same else collision

abbrev pub in_runtime : {A : Type 0} → Exec Runtime A → Exec Node A
in_runtime = zoom (λ n. n.runtime) (λ rt n. record n { runtime = rt })

-- ingested.payload.to or default: an empty text counts as absent
abbrev pub to_or : Option String → String → String
to_or none other = other
to_or (some to) other = if to == "" then other else to

module _ (services : Services) where
  abbrev settings : Settings
  settings = services.world.env.settings

  unfoldable pub try_claim_idempotency : String → String → Exec Node Claim
  try_claim_idempotency idempotency_key message_id = do
    claimed ← (λ n. (
      services.set_nx n.redis_calls idempotency_key message_id settings.idempotency_ttl_sec,
      record n { redis_calls = n.redis_calls + 1 },
    ))
    if claimed
        then pure new
        else ((λ n. (
          services.get_key n.redis_calls idempotency_key,
          record n { redis_calls = n.redis_calls + 1 },
        ))
            >>= λ existing. pure (compare_claim message_id existing))

  unfoldable pub delete_message : String → Exec Node Unit
  delete_message handle n = (
    services.delete_answer (length n.deletes) handle,
    record n { deletes = n.deletes ++ handle ∷ [] },
  )

  abbrev pub first_state : MessageIngested → ℤ → MessageState
  first_state m now = record {
    message_id = m.message_id;
    shard_id = m.shard_id;
    to = to_or m.payload.to settings.default_to_e164;
    body = m.payload.body;
    arrival_ms = m.received_at_ms;
    next_attempt_index = pos 0;
    next_due_at_ms = min_ℤ m.received_at_ms now;
    status = pending;
  }

  unfoldable pub bootstrap_from_ingest : MessageIngested → Exec Runtime Message
  bootstrap_from_ingest m = do
    now ← now_ms services.world
    put_state (first_state m now)
    pure (record {
      message_id = m.message_id;
      to = to_or m.payload.to settings.default_to_e164;
      body = m.payload.body;
    })

  -- create_task(dispatch_new_message(message))
  abbrev pub new_message : Message → Exec Node Unit
  new_message msg = modify (λ n. record n { scheduled = n.scheduled ++ msg ∷ [] })

  unfoldable pub apply_claim : RawSqsMessage → MessageIngested → Claim → Exec Node Unit
  apply_claim raw m collision = delete_message raw.receipt_handle
  apply_claim raw m duplicate_same = delete_message raw.receipt_handle
  apply_claim raw m new = do
    in_runtime (in_journal (append_ingest_template_a services.world.env services.sha256_hex m))
    delete_message raw.receipt_handle
    msg ← in_runtime (bootstrap_from_ingest m)
    new_message msg

  unfoldable pub process_raw_sqs_message : RawSqsMessage → Exec Node Unit
  process_raw_sqs_message raw = do
    m ← lift (services.message_of raw.body)
    if owns_shard services.owned m.shard_id
        then (try_claim_idempotency m.idempotency_key m.message_id >>= apply_claim raw m)
        else pure tt

  -- The messages of a batch; an exception of one is logged, and the next is taken.
  unfoldable pub process_batch : List RawSqsMessage → Node → Node
  process_batch [] n = n
  process_batch (raw ∷ raws) n = process_batch raws (process_raw_sqs_message raw n).1
