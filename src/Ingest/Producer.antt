-- ===== src/Ingest/Producer.antt =====
-- inspectio/ingest/ingest_producer.py and sqs_fifo_producer.py: admission of messages to the FIFO queue.
-- The groups of a call run one after the other here, and an exception of a group ends the call.
pub mod Batch
pub mod Order
mod Tests
use nitzan_shinnies_inspecti.Prelude.{
  ℕ, zero, suc, ◌+◌, String, ◌≡◌, Option, none, some, List, [], ◌∷◌, ◌++◌, map, leb, if◌then◌else◌,
  length, get_elem?, take, drop,
}
use nitzan_shinnies_inspecti.Prelude.Int.{ℤ, ℤ-eq}
use nitzan_shinnies_inspecti.Prelude.Eq.{◌==◌, ℕ-eq, String-eq, pair_eq}
use nitzan_shinnies_inspecti.Prelude.Dict.{Dict, get, put, values, or_default}
use nitzan_shinnies_inspecti.Prelude.Result.{key_error, ingest_unavailable, Result, ok, err}
use nitzan_shinnies_inspecti.Prelude.Exec.{Exec, pure, raise, lift, continue, ◌>>=◌, ◌>>◌}
use nitzan_shinnies_inspecti.Prelude.Text.{strip}
use nitzan_shinnies_inspecti.Prelude.Decimal.{Codes, Codes-eq}
use nitzan_shinnies_inspecti.Journal.Keys.{format_05d}
use nitzan_shinnies_inspecti.Settings.{Settings}
use nitzan_shinnies_inspecti.Ingest.Schema.{MessageIngested}

pub record IngestPutInput : Type 0 where
  pub message_id : String
  pub shard_id : ℤ
  pub payload_body : String
  pub payload_to : Option String
  pub received_at_ms : ℤ
  pub idempotency_key : String

pub record IngestPutResult : Type 0 where
  pub message_id : String
  pub shard_id : ℤ
  pub ingest_sequence : Option String

abbrev pub max_sqs_fifo_send_batch : ℕ
max_sqs_fifo_send_batch = 10

-- f"{shard_id:05d}"
unfoldable pub partition_key_for_shard : ℤ → Codes
partition_key_for_shard shard_id = format_05d shard_id

-- An entry of a batch. Its body is the JSON text of the message.
pub record Entry : Type 0 where
  pub id : ℕ
  pub message_body : MessageIngested
  pub message_group_id : Codes
  pub message_deduplication_id : String

-- The answer of `send_message_batch`, with the entries' ids as the numbers that they were made from.
pub record BatchAnswer : Type 0 where
  pub successful : List (ℕ × Option String)
  pub failed : List ℕ

-- SHA-256 in hexadecimal, and the queue: the nth answer to a batch and to a single message.
pub record Sqs : Type 0 where
  pub sha256_hex : String → String
  pub send_message_batch : ℕ → List Entry → Result BatchAnswer
  pub send_message : ℕ → Entry → Result (Option String)

-- What was sent.
pub record Sent : Type 0 where
  pub batches : List (List Entry)
  pub singles : List Entry

abbrev pub Indexed : Type 0 → Type 0
Indexed A = List (ℕ × A)

-- enumerate(items, start)
abbrev pub enumerate : {A : Type 0} → ℕ → List A → Indexed A
enumerate i [] = []
enumerate i (x ∷ xs) = (i, x) ∷ enumerate (i + 1) xs

-- buckets[group].append((i, item))
abbrev pub add_to_group :
    ℕ × IngestPutInput → Dict Codes (Indexed IngestPutInput) → Dict Codes (Indexed IngestPutInput)
add_to_group (i, item) d =
    let group = partition_key_for_shard item.shard_id in
    put d group (or_default (get d group) [] ++ (i, item) ∷ [])

unfoldable pub group_messages :
    Indexed IngestPutInput
    → Dict Codes (Indexed IngestPutInput)
    → Dict Codes (Indexed IngestPutInput)
group_messages [] d = d
group_messages (x ∷ xs) d = group_messages xs (add_to_group x d)

-- list.sort(key=lambda t: t[0]), which is stable
abbrev pub insert_sorted : {A : Type 0} → ℕ × A → Indexed A → Indexed A
insert_sorted x [] = x ∷ []
insert_sorted x (y ∷ ys) =
    let rest = insert_sorted x ys in if leb x.0 y.0 then x ∷ y ∷ ys else y ∷ rest

unfoldable pub sort_by_index : {A : Type 0} → Indexed A → Indexed A
sort_by_index [] = []
sort_by_index (x ∷ xs) = insert_sorted x (sort_by_index xs)

-- message_id_by_idx.get(idx)
abbrev pub sequence_of : Dict ℕ (Option String) → ℕ → Option String
sequence_of d idx = or_default (get d idx) none

abbrev pub record_successes :
    List (ℕ × Option String) → Dict ℕ (Option String) → Dict ℕ (Option String)
record_successes [] d = d
record_successes ((i, mid) ∷ rows) d = record_successes rows (put d i mid)

unfoldable pub batch_results :
    Dict ℕ (Option String) → ℕ → List IngestPutInput → List IngestPutResult
batch_results d idx [] = []
batch_results d idx (item ∷ items) =
    (record {
      message_id = item.message_id;
      shard_id = item.shard_id;
      ingest_sequence = sequence_of d idx;
    })
    ∷ batch_results d (idx + 1) items

-- A result is about the message: the same id and shard.
abbrev pub IsFor : IngestPutInput → IngestPutResult → Type 0
IsFor item r = (r.message_id ≡ item.message_id) × (r.shard_id ≡ item.shard_id)

module _ (sqs : Sqs) where
  unfoldable pub deduplication_id : String → String
  deduplication_id idempotency_key = sqs.sha256_hex idempotency_key

  -- The message of an input; its hash is injected by the model's validator.
  abbrev pub ingested_of : IngestPutInput → MessageIngested
  ingested_of item = record {
    message_id = item.message_id;
    payload = record { body = item.payload_body; to = item.payload_to };
    received_at_ms = item.received_at_ms;
    shard_id = item.shard_id;
    idempotency_key = item.idempotency_key;
    body_hash = sqs.sha256_hex item.payload_body;
  }

  abbrev pub entry_of : ℕ → IngestPutInput → Entry
  entry_of idx item = record {
    id = idx;
    message_body = ingested_of item;
    message_group_id = partition_key_for_shard item.shard_id;
    message_deduplication_id = deduplication_id item.idempotency_key;
  }

  unfoldable pub build_batch_entries : ℕ → List IngestPutInput → List Entry
  build_batch_entries idx [] = []
  build_batch_entries idx (item ∷ items) = entry_of idx item ∷ build_batch_entries (idx + 1) items

  -- The entry of a single send has no id: its number is not sent.
  unfoldable pub send_single : IngestPutInput → Exec Sent (Option String)
  send_single item s =
      let entry = entry_of 0 item in
      (sqs.send_message (length s.singles) entry, record s { singles = s.singles ++ entry ∷ [] })

  unfoldable pub send_batch : List Entry → Exec Sent BatchAnswer
  send_batch entries s = (
    sqs.send_message_batch (length s.batches) entries,
    record s { batches = s.batches ++ entries ∷ [] },
  )

  -- chunk[idx]
  abbrev pub input_at : List IngestPutInput → ℕ → Result IngestPutInput
  input_at chunk idx = elim (get_elem? chunk idx) [ none ↦ err key_error | some item ↦ ok item ]

  unfoldable pub retry_failed :
      List IngestPutInput → List ℕ → Dict ℕ (Option String) → Exec Sent (Dict ℕ (Option String))
  retry_failed chunk [] d = pure d
  retry_failed chunk (idx ∷ idxs) d = do
    item ← lift (input_at chunk idx)
    mid ← send_single item
    retry_failed chunk idxs (put d idx mid)

  unfoldable pub send_fifo_batch : List IngestPutInput → Exec Sent (List IngestPutResult)
  send_fifo_batch chunk = do
    response ← send_batch (build_batch_entries 0 chunk)
    d ← retry_failed chunk response.failed (record_successes response.successful [])
    pure (batch_results d 0 chunk)

  abbrev pub zip_index : Indexed IngestPutInput → List IngestPutResult → Indexed IngestPutResult
  zip_index [] rs = []
  zip_index (x ∷ xs) [] = []
  zip_index (x ∷ xs) (r ∷ rs) = (x.0, r) ∷ zip_index xs rs

  -- The batches of a group, ten messages each; `fuel` is the number of its messages, which is enough.
  unfoldable pub run_group : ℕ → Indexed IngestPutInput → Exec Sent (Indexed IngestPutResult)
  run_group zero indexed = pure []
  run_group (suc fuel) [] = pure []
  run_group (suc fuel) (x ∷ xs) = do
    let chunk = take max_sqs_fifo_send_batch (x ∷ xs)
    rs ← send_fifo_batch (map (λ y. y.1) chunk)
    out ← run_group fuel (drop max_sqs_fifo_send_batch (x ∷ xs))
    pure (zip_index chunk rs ++ out)

  unfoldable pub run_groups : List (Indexed IngestPutInput) → Exec Sent (Indexed IngestPutResult)
  run_groups [] = pure []
  run_groups (g ∷ gs) = do out ← run_group (length g) g; rest ← run_groups gs; pure (out ++ rest)

  -- `except Exception as exc: raise IngestUnavailableError`
  abbrev pub as_unavailable : {A : Type 0} → Result A × Sent → Result A × Sent
  as_unavailable (ok a, s) = (ok a, s)
  as_unavailable (err e, s) = (err ingest_unavailable, s)

  abbrev pub results_in_order : Indexed IngestPutResult → List IngestPutResult
  results_in_order rs = map (λ r. r.1) (sort_by_index rs)

  unfoldable pub put_grouped : List IngestPutInput → Exec Sent (List IngestPutResult)
  put_grouped messages s =
      let gs = values (group_messages (enumerate 0 messages) []) in
      let (r, s') = as_unavailable (run_groups gs s) in
      continue r (λ rs. pure (results_in_order rs)) s'

  unfoldable pub put_messages : Settings → List IngestPutInput → Exec Sent (List IngestPutResult)
  put_messages settings messages =
      if strip settings.ingest_queue_url == ""
      then raise ingest_unavailable
      else elim messages [ [] ↦ pure [] | x ∷ xs ↦ put_grouped (x ∷ xs) ]
