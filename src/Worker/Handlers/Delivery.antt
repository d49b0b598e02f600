-- ===== src/Worker/Handlers/Delivery.antt =====
-- What becomes of a queue message.
use nitzan_shinnies_inspecti.Prelude.{
  ℕ, ◌+◌, ◌≡◌, refl, ◌⊎◌, inl, inr, Bool, true, false, some, [], ◌∷◌, ◌++◌, arith, length,
}
use nitzan_shinnies_inspecti.Prelude.Int.{ℤ, min_ℤ, ℤ-eq}
use nitzan_shinnies_inspecti.Prelude.Result.{Result-cases, Error, Result, ok, err}
use nitzan_shinnies_inspecti.Prelude.Exec.{Exec}
use nitzan_shinnies_inspecti.Ingest.Schema.{MessageIngested}
use nitzan_shinnies_inspecti.Ingest.Consumer.{RawSqsMessage}
use nitzan_shinnies_inspecti.Ingest.Template.{append_ingest_template_a}
use nitzan_shinnies_inspecti.Ingest.Template.Stored.{
  first_line, second_line, append_ingest_template_a-stored,
}
use nitzan_shinnies_inspecti.Journal.Writer.{Writer, read_clock}
use nitzan_shinnies_inspecti.Journal.Writer.Conserve.{written, stored_lines}
use nitzan_shinnies_inspecti.Worker.Runtime.{Runtime, now_ms}
use nitzan_shinnies_inspecti.Worker.Runtime.Invariant.{
  IsValid, IsOnSchedule, now_ms-IsValid, put_state-IsValid,
}
use nitzan_shinnies_inspecti.Worker.Snapshot.{owns_shard}
use nitzan_shinnies_inspecti.Worker.Handlers.{
  Services, Node, new, compare_claim, try_claim_idempotency, delete_message, first_state,
  bootstrap_from_ingest, apply_claim, process_raw_sqs_message,
}
use nitzan_shinnies_inspecti.Prelude.Eq.{beq_refl, String-eq}

module _ (services : Services) where
  first_state-IsOnSchedule :
      (m : MessageIngested) (now : ℤ) → IsOnSchedule (first_state services m now)
  unfolding min_ℤ
  first_state-IsOnSchedule m now = record {
    attempts = 0;
    index = refl;
    bounded = omega arith;
    due = ground arith;
  }

  -- Registering an ingested message keeps the states of the runtime on the retry schedule.
  pub bootstrap_from_ingest-IsValid :
      (m : MessageIngested) (rt : Runtime)
      → IsValid rt
      → IsValid (bootstrap_from_ingest services m rt).1
  unfolding bootstrap_from_ingest now_ms read_clock
  bootstrap_from_ingest-IsValid m rt v =
      let rt' = (now_ms services.world rt).1 in
      (put_state-IsValid (first_state services m _) (first_state-IsOnSchedule m _)).at rt'
        ((now_ms-IsValid services.world).at rt v)

  abbrev append_template : MessageIngested → Exec Writer Unit
  append_template = append_ingest_template_a services.world.env services.sha256_hex

  -- A message that is claimed as new: either the records of the template are not known to be stored, and
  -- the message is neither deleted from the queue nor scheduled, nor is its state registered; or both
  -- records are in the store behind everything written for the shard, and one delete of it was asked.
  pub apply_claim-stored_or_kept :
      (raw : RawSqsMessage) (m : MessageIngested) (node : Node)
      → let after = (apply_claim services raw m new node).1 in
        let w = node.runtime.journal in
        (((e : Error) × ((append_template m w).0 ≡ err e))
          × (after.deletes ≡ node.deletes)
          × (after.scheduled ≡ node.scheduled)
          × (after.runtime.states ≡ node.runtime.states))
        ⊎ ((after.deletes ≡ node.deletes ++ raw.receipt_handle ∷ [])
            × (stored_lines m.shard_id after.runtime.journal.segments
                ≡ written w m.shard_id
                  ++ first_line services.world.env services.sha256_hex m w
                    ∷ second_line services.world.env services.sha256_hex m w
                    ∷ []))
  unfolding apply_claim delete_message bootstrap_from_ingest now_ms read_clock
  apply_claim-stored_or_kept raw m node =
      let w = node.runtime.journal in
      elim (Result-cases (append_template m w).0) [
        | inr (e, raised) ↦ inl (rw raised ((e, refl), refl, refl, refl))
        | inl (a, returned) ↦
            inr
              (elim (Result-cases
                (services.delete_answer (length node.deletes) raw.receipt_handle)) [
                  | inl (b, deleted) ↦
                      rw (returned, deleted)
                        (
                          refl,
                          append_ingest_template_a-stored services.world.env services.sha256_hex m w
                              returned,
                        )
                  | inr (e, refused) ↦
                      rw (returned, refused)
                        (
                          refl,
                          append_ingest_template_a-stored services.world.env services.sha256_hex m w
                              returned,
                        )
                ])
      ]

  module _ (raw : RawSqsMessage) (m : MessageIngested) (node : Node) where
    abbrev pub claim_answer : ℕ → Result Bool
    claim_answer n =
        services.set_nx n m.idempotency_key m.message_id
          services.world.env.settings.idempotency_ttl_sec

    -- A message of an owned shard whose key Redis has claimed for the same message id is only deleted
    -- from the queue: nothing is journalled, registered or scheduled.
    pub process_raw_sqs_message-duplicate :
        services.message_of raw.body ≡ ok m
        → owns_shard services.owned m.shard_id ≡ true
        → claim_answer node.redis_calls ≡ ok false
        → services.get_key (node.redis_calls + 1) m.idempotency_key ≡ ok (some m.message_id)
        → process_raw_sqs_message services raw node ≡ (
          services.delete_answer (length node.deletes) raw.receipt_handle,
          record node {
            redis_calls = node.redis_calls + 1 + 1;
            deletes = node.deletes ++ raw.receipt_handle ∷ [];
          },
        )
    unfolding process_raw_sqs_message try_claim_idempotency compare_claim apply_claim delete_message
    process_raw_sqs_message-duplicate decoded owned held found =
        rw (decoded, owned, held, found, beq_refl) refl

    -- A message of an owned shard is delivered twice: at first its key is claimed and the append of its
    -- records raises, and at the second delivery Redis answers that the key is held by the same message
    -- id. Then the message is deleted from the queue, while no state of it is registered and no send is
    -- scheduled.
    pub process_raw_sqs_message-lost :
        (e : Error)
        → services.message_of raw.body ≡ ok m
        → owns_shard services.owned m.shard_id ≡ true
        → claim_answer node.redis_calls ≡ ok true
        → (append_template m node.runtime.journal).0 ≡ err e
        → claim_answer (node.redis_calls + 1) ≡ ok false
        → services.get_key (node.redis_calls + 1 + 1) m.idempotency_key ≡ ok (some m.message_id)
        → let after =
            (process_raw_sqs_message services raw
              (process_raw_sqs_message services raw node).1).1 in
          (after.deletes ≡ node.deletes ++ raw.receipt_handle ∷ [])
          × (after.scheduled ≡ node.scheduled)
          × (after.runtime.states ≡ node.runtime.states)
    unfolding process_raw_sqs_message try_claim_idempotency compare_claim apply_claim delete_message
    process_raw_sqs_message-lost e decoded owned claimed raised held found =
        rw (decoded, owned, claimed, raised, held, found, beq_refl) (refl, refl, refl)
