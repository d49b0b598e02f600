-- ===== src/Worker/Start.antt =====
-- inspectio/worker/main.py: the start of a worker, and a round of its queue loop.
pub mod Resume
mod Tests
use nitzan_shinnies_inspecti.Prelude.{ℕ, String, Option, none, some, List, []}
use nitzan_shinnies_inspecti.Prelude.Int.{ℤ, pos, ℤ-eq}
use nitzan_shinnies_inspecti.Prelude.Result.{Done, Result, ok, err}
use nitzan_shinnies_inspecti.Prelude.Decimal.{Codes}
use nitzan_shinnies_inspecti.Json.{Json}
use nitzan_shinnies_inspecti.Settings.{Settings}
use nitzan_shinnies_inspecti.Domain.Sharding.{owned_shard_range}
use nitzan_shinnies_inspecti.Ingest.Consumer.{ReceiveCall, ReceivedRow, receive_messages}
use nitzan_shinnies_inspecti.Journal.Records.Decode.{Codec}
use nitzan_shinnies_inspecti.Journal.Replay.{Store}
use nitzan_shinnies_inspecti.Journal.Writer.{new_writer}
use nitzan_shinnies_inspecti.Worker.Runtime.{Runtime, MessageState}
use nitzan_shinnies_inspecti.Worker.Snapshot.{Casts}
use nitzan_shinnies_inspecti.Worker.Main.{owned_shards, bootstrap_hwm_for_shards, restore_on_start}
use nitzan_shinnies_inspecti.Worker.Handlers.{Services, Node, process_batch}
use nitzan_shinnies_inspecti.Prelude.Dict.{Dict}

-- The libraries and the store that a start reads from.
pub record Sources : Type 0 where
  pub codec : Codec
  pub casts : Casts
  pub loads_utf8 : Codes → Result Json
  pub store : Store

-- The runtime with the last indexes and the states that were loaded.
abbrev pub started : Dict ℤ ℤ → Done × Dict String MessageState → Result Runtime
started hwm (ok a, states) =
    ok (record { states = states; journal = new_writer hwm; sms_calls = []; notices = [] })
started hwm (err e, states) = err e

module _ (sources : Sources) (settings : Settings) where
  -- The shards of the pod, their last indexes, then their snapshots; none when `fuel` pages did not
  -- reach the end of a listing.
  unfoldable pub worker_start : ℕ → Option (Result Runtime)
  worker_start fuel =
      elim (owned_shard_range settings.worker_index settings.total_shards
        settings.worker_replicas) [
          | err e ↦ some (err e)
          | ok r ↦
              elim (bootstrap_hwm_for_shards sources.codec sources.store settings fuel
                (owned_shards r)) [
                  | none ↦ none
                  | some (err e) ↦ some (err e)
                  | some (ok hwm) ↦ some (
                      started hwm (
                        restore_on_start sources.casts sources.loads_utf8 sources.store settings
                          (owned_shards r) []))
                ]
        ]

-- A round of the queue loop: a receive that raises is logged, and the loop goes on.
unfoldable pub sqs_round : Services → (ReceiveCall → Result (List ReceivedRow)) → Node → Node
sqs_round services receive_message node =
    elim (receive_messages receive_message services.world.env.settings (pos 10) (pos 20)) [
      | ok batch ↦ process_batch services batch node
      | err e ↦ node
    ]
