-- ===== src/Archive/Submit.antt =====
-- Submission of a message in the first version, v1_obsolete/project/src/inspectio_exercise/api/use_cases.py:
-- the pending record, and the calls that ask the workers to activate it. The text of a record and the
-- digest of a message id are parameters, and so are the id, the time and the answers of the workers.
-- A call has a status, or none where it ended in a transport error.
pub mod Routing
pub mod Keys
mod Tests
use Prim.Native.Nat.{max}
use nitzan_shinnies_inspecti.Prelude.{
  ℕ, zero, suc, ◌+◌, ◌/◌, ◌%◌, String, Bool, true, false, Option, none, some, List, [], ◌∷◌, ◌++◌,
  length, take, drop, eqb, if◌then◌else◌,
}
use nitzan_shinnies_inspecti.Prelude.Int.{ℤ, pos, negsuc}
use nitzan_shinnies_inspecti.Prelude.Eq.{ℕ-eq}
use nitzan_shinnies_inspecti.Prelude.Dict.{Dict, get, put, or_default}
use nitzan_shinnies_inspecti.Prelude.Result.{Result, ok, err, zero_division}
use nitzan_shinnies_inspecti.Prelude.Exec.{Exec, pure, raise, modify, lift, ◌>>=◌}
use nitzan_shinnies_inspecti.Prelude.Decimal.{Codes}
use nitzan_shinnies_inspecti.Prelude.Text.{join}
use nitzan_shinnies_inspecti.Json.{Fields, int, str, bool, obj, arr, nil, end, field}
use nitzan_shinnies_inspecti.Archive.Rules.{
  pending_prefix_for_shard, shard_id_for_message, is_successful_send,
}
use nitzan_shinnies_inspecti.Archive.Store.Memory.{ObjectWrite}

pub record SubmittedMessage : Type 0 where
  pub message_id : String
  pub pending_key : String
  pub shard_id : ℕ

abbrev payload_of : String → Bool → String → Fields
payload_of to should_fail body =
    field "to" (str to)
      (field "body" (str body) (if should_fail then field "shouldFail" (bool true) end else end))

abbrev pub pending_record : String → ℤ → Fields → Fields
pending_record message_id now_ms payload = field "messageId" (str message_id) (
    field "attemptCount" (int (pos 0)) (
      field "nextDueAt" (int now_ms) (
        field "status" (str "pending")
          (field "payload" (obj payload) (field "history" (arr nil) end)))))

module _ (digest : String → ℕ) (dumps : Fields → Codes) where
  abbrev submission : String → ℤ → Fields → ℕ → SubmittedMessage × ObjectWrite
  submission message_id now_ms payload shard_id =
      let key = join (pending_prefix_for_shard shard_id ∷ message_id ∷ ".json" ∷ []) in
      (
        record { message_id = message_id; pending_key = key; shard_id = shard_id },
        record {
          key = key;
          body = dumps (pending_record message_id now_ms payload);
          content_type = "application/json";
        },
      )

  unfoldable pub pending_submission_record :
      String → ℤ → String → Bool → String → ℤ → Result (SubmittedMessage × ObjectWrite)
  pending_submission_record message_id now_ms body should_fail to total_shards =
      elim (shard_id_for_message digest message_id total_shards) [
        | err e ↦ err e
        | ok shard_id ↦ ok (submission message_id now_ms (payload_of to should_fail body) shard_id)
      ]

  -- `writer` is the persistence client, or what the caller gives in its place.
  unfoldable pub submit_message :
      {S : Type 0}
      → (List ObjectWrite → Exec S (Unit {0}))
      → String
      → ℤ
      → String
      → Bool
      → String
      → ℤ
      → Exec S SubmittedMessage
  submit_message writer message_id now_ms body should_fail to total_shards = do
    row ← lift (pending_submission_record message_id now_ms body should_fail to total_shards)
    done ← writer (row.1 ∷ [])
    pure row.0

-- max(1, int(os.environ.get(..., "512")))
unfoldable pub worker_activation_batch_max_keys : ℤ → ℕ
worker_activation_batch_max_keys (pos n) = max 1 n
worker_activation_batch_max_keys (negsuc n) = 1

-- The calls so far, each with the number of its worker and its keys, and how many of them failed.
pub record Calls : Type 0 where
  pub posts : List (ℕ × List String)
  pub failures : ℕ

-- response.raise_for_status()
abbrev pub failed : Option ℕ → Bool
failed none = true
failed (some status) = if is_successful_send status then false else true

abbrev pub count_if : Bool → ℕ → ℕ
count_if true n = n + 1
count_if false n = n

-- shard_id // shards_per_pod % len(worker_clients), where there are shards per pod and workers
unfoldable pub worker_index : ℕ → ℕ → SubmittedMessage → ℕ
worker_index workers shards_per_pod s = s.shard_id / shards_per_pod % workers

-- idx_to_keys.setdefault(idx, []).append(s.pending_key)
abbrev pub add_key : ℕ → String → Dict ℕ (List String) → Dict ℕ (List String)
add_key idx key d = put d idx (or_default (get d idx) [] ++ key ∷ [])

unfoldable pub keys_by_worker :
    ℕ → ℕ → List SubmittedMessage → Dict ℕ (List String) → Dict ℕ (List String)
keys_by_worker workers shards_per_pod [] d = d
keys_by_worker workers shards_per_pod (s ∷ ss) d =
    keys_by_worker workers shards_per_pod ss
      (add_key (worker_index workers shards_per_pod s) s.pending_key d)

module _ (status : ℕ → Option ℕ) (batch_max : ℕ) where
  abbrev pub post : ℕ → List String → Calls → Calls
  post idx chunk c = record {
    posts = c.posts ++ (idx, chunk) ∷ [];
    failures = count_if (failed (status (length c.posts))) c.failures;
  }

  -- The keys from the offset on; `fuel` is their number, which is enough.
  unfoldable pub post_chunks : ℕ → ℕ → List String → Calls → Calls
  post_chunks zero idx keys c = c
  post_chunks (suc fuel) idx [] c = c
  post_chunks (suc fuel) idx (k ∷ keys) c =
      post_chunks fuel idx (drop batch_max (k ∷ keys)) (post idx (take batch_max (k ∷ keys)) c)

  unfoldable pub post_groups : Dict ℕ (List String) → Calls → Calls
  post_groups [] c = c
  post_groups ((idx, keys) ∷ d) c = post_groups d (post_chunks (length keys) idx keys c)

-- The division by the shards per pod raises for the first message, before any call. A negative number
-- of shards per pod is left out.
unfoldable pub request_immediate_activation_batch :
    (ℕ → Option ℕ) → ℤ → ℕ → ℕ → List SubmittedMessage → Exec Calls (Unit {0})
request_immediate_activation_batch status env_max workers shards_per_pod [] = pure tt
request_immediate_activation_batch status env_max workers shards_per_pod (s ∷ ss) =
    if eqb workers 0
    then pure tt
    else if eqb shards_per_pod 0
    then raise zero_division
    else modify (
        post_groups status (worker_activation_batch_max_keys env_max)
          (keys_by_worker workers shards_per_pod (s ∷ ss) []))
