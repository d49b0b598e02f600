-- ===== src/Archive/Submit/Tests.antt =====
-- Three messages for two workers, where the second call fails.
use nitzan_shinnies_inspecti.Prelude.{
  ℕ, ◌≡◌, refl, String, Option, none, some, List, [], ◌∷◌, arith, eqb, ◌<◌, false, if◌then◌else◌,
}
use nitzan_shinnies_inspecti.Prelude.Int.{pos}
use nitzan_shinnies_inspecti.Prelude.Eq.{ℕ-eq}
use nitzan_shinnies_inspecti.Prelude.Dict.{get, put}
use nitzan_shinnies_inspecti.Prelude.Result.{ok}
use nitzan_shinnies_inspecti.Archive.Submit.{
  SubmittedMessage, request_immediate_activation_batch, worker_activation_batch_max_keys,
  pending_submission_record, keys_by_worker, worker_index, post_groups, post_chunks,
}
use nitzan_shinnies_inspecti.Archive.Submit.Routing.{
  asked, AllBatches, keys_for, no_calls, request_immediate_activation_batch-asked,
}
use nitzan_shinnies_inspecti.Archive.Store.Memory.{ObjectWrite}
use nitzan_shinnies_inspecti.Archive.Keys.{message_id_from_pending_key}
use nitzan_shinnies_inspecti.Archive.Rules.{pending_prefix_for_shard, shard_id_for_message}
use nitzan_shinnies_inspecti.Archive.Submit.Keys.{pending_submission_record-key}

abbrev message : String → ℕ → SubmittedMessage
message key shard_id = record { message_id = key; pending_key = key; shard_id = shard_id }

abbrev submitted : List SubmittedMessage
submitted = message "a" 5 ∷ message "b" 130 ∷ message "c" 7 ∷ []

abbrev status : ℕ → Option ℕ
status n = if eqb n 1 then none else some 204

run :
    (request_immediate_activation_batch status (pos 1) 2 128 submitted no_calls).1
    ≡ record { posts = (0, "a" ∷ []) ∷ (0, "c" ∷ []) ∷ (1, "b" ∷ []) ∷ []; failures = 1 }
unfolding request_immediate_activation_batch worker_activation_batch_max_keys keys_by_worker
    worker_index post_groups post_chunks get put
    nitzan_shinnies_inspecti.Archive.Rules.is_successful_send
run = refl

request_immediate_activation_batch-asked_example :
    ((request_immediate_activation_batch status (pos 1) 2 128 submitted no_calls).0 ≡ ok tt)
    × AllBatches
        (worker_activation_batch_max_keys (pos 1))
        (request_immediate_activation_batch status (pos 1) 2 128 submitted no_calls).1.posts
    × ((i : ℕ)
        → asked i
            (request_immediate_activation_batch status (pos 1) 2 128 submitted no_calls).1.posts
          ≡ keys_for 2 128 i submitted)
request_immediate_activation_batch-asked_example =
    request_immediate_activation_batch-asked status (pos 1) 2 128 submitted (omega arith)
      (omega arith)

abbrev row : SubmittedMessage × ObjectWrite
row = (
  record { message_id = "m7"; pending_key = "state/pending/shard-3/m7.json"; shard_id = 3 },
  record { key = "state/pending/shard-3/m7.json"; body = []; content_type = "application/json" },
)

submitted_row :
    pending_submission_record (λ mid. 13) (λ r. []) "m7" (pos 9) "hi" false "+1" (pos 5) ≡ ok row
unfolding pending_submission_record shard_id_for_message pending_prefix_for_shard
    nitzan_shinnies_inspecti.Prelude.Text.digits_text
    nitzan_shinnies_inspecti.Prelude.Decimal.decimal
    nitzan_shinnies_inspecti.Prelude.Decimal.digits_onto
submitted_row = refl

pending_submission_record-key_example :
    (3 < 5)
    × (row.1.key ≡ row.0.pending_key)
    × (message_id_from_pending_key row.0.pending_key ≡ some "m7")
pending_submission_record-key_example =
    pending_submission_record-key (λ mid. 13) (λ r. []) "m7" (pos 9) "hi" false "+1" 5 row
      (refl, (refl, tt)) (λ e. cc) submitted_row
