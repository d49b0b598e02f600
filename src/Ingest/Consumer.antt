-- ===== src/Ingest/Consumer.antt =====
-- inspectio/ingest/sqs_fifo_consumer.py: taking messages from the queue.
use nitzan_shinnies_inspecti.Prelude.{String, Option, some, List, [], ◌∷◌, arith, if◌then◌else◌}
use nitzan_shinnies_inspecti.Prelude.Int.{ℤ, pos, ◌≤ℤ◌, min_ℤ, max_ℤ, ℤ-eq}
use nitzan_shinnies_inspecti.Prelude.Eq.{◌==◌, ℕ-eq, String-eq, pair_eq}
use nitzan_shinnies_inspecti.Prelude.Result.{runtime_error, Result, ok, err}
use nitzan_shinnies_inspecti.Prelude.Text.{strip}
use nitzan_shinnies_inspecti.Settings.{Settings}

pub record RawSqsMessage : Type 0 where
  pub body : String
  pub receipt_handle : String

-- The parameters of a `receive_message` call, and a row of its answer.
pub record ReceiveCall : Type 0 where
  pub max_number_of_messages : ℤ
  pub wait_time_seconds : ℤ

pub record ReceivedRow : Type 0 where
  pub body : Option String
  pub receipt_handle : Option String

abbrev raw_of : Option String → Option String → List RawSqsMessage → List RawSqsMessage
raw_of (some body) (some handle) rest = (record { body = body; receipt_handle = handle }) ∷ rest
raw_of _ _ rest = rest

-- The rows that have a body and a receipt handle.
unfoldable pub raw_messages : List ReceivedRow → List RawSqsMessage
raw_messages [] = []
raw_messages (row ∷ rows) = raw_of row.body row.receipt_handle (raw_messages rows)

unfoldable pub receive_call : ℤ → ℤ → ReceiveCall
receive_call max_messages wait_seconds = record {
  max_number_of_messages = min_ℤ (max_ℤ (pos 1) max_messages) (pos 10);
  wait_time_seconds = min_ℤ (max_ℤ (pos 0) wait_seconds) (pos 20);
}

unfoldable pub receive_messages :
    (ReceiveCall → Result (List ReceivedRow)) → Settings → ℤ → ℤ → Result (List RawSqsMessage)
receive_messages receive_message settings max_messages wait_seconds =
    if strip settings.ingest_queue_url == ""
    then err runtime_error
    else elim (receive_message (receive_call max_messages wait_seconds)) [
      | ok rows ↦ ok (raw_messages rows)
      | err e ↦ err e
    ]

-- A call asks for 1 to 10 messages and waits 0 to 20 seconds.
pub receive_call_bounds :
    (n w : ℤ)
    → (pos 1 ≤ℤ (receive_call n w).max_number_of_messages)
      × ((receive_call n w).max_number_of_messages ≤ℤ pos 10)
      × (pos 0 ≤ℤ (receive_call n w).wait_time_seconds)
      × ((receive_call n w).wait_time_seconds ≤ℤ pos 20)
unfolding receive_call min_ℤ max_ℤ
receive_call_bounds n w = ground arith
