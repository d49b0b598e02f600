-- ===== src/Journal/Writer/Healthy.antt =====
-- When the object store takes every object, the writer's methods return.
use nitzan_shinnies_inspecti.Prelude.{
  ℕ, String, ◌≡◌, refl, inl, inr, false, some, List, arith, Option-cases,
}
use nitzan_shinnies_inspecti.Prelude.Int.{ℤ, ℤ-eq}
use nitzan_shinnies_inspecti.Prelude.Eq.{◌==◌, ℕ-eq, String-eq, pair_eq, beq_refl}
use nitzan_shinnies_inspecti.Prelude.Dict.{get, get-put}
use nitzan_shinnies_inspecti.Prelude.Result.{ok}
use nitzan_shinnies_inspecti.Prelude.Exec.{Total, Total-lift, total_rules}
use nitzan_shinnies_inspecti.Prelude.Text.{strip}
use nitzan_shinnies_inspecti.Journal.Records.{JournalRecord, validate_payload_for_type}
use nitzan_shinnies_inspecti.Journal.S3.{Env, Segment, stored}
use nitzan_shinnies_inspecti.Journal.Writer.{
  Writer, buffer, build_record, next_record_index, append_record, append_encoded_line, push_line,
  start_interval, maybe_flush, flush_shard, flush_and_clear, flush_shard_body, name_segment,
  next_segment, clear_buffer, read_clock, read_mono, put_attempts, put_object_with_retry,
  encode_line,
}
use nitzan_shinnies_inspecti.Journal.Writer.Index.{Request, record_of, build}
use nitzan_shinnies_inspecti.Journal.Writer.Stored.{log}

-- A bucket is set, and the store takes every object.
pub record IsHealthy (env : Env) : Type 0 where
  pub bucket : (strip env.settings.s3_bucket == "") ≡ false
  pub stores : (n : ℕ) → env.put_answer n ≡ stored

module _ (env : Env) (healthy : IsHealthy env) where
  read_clock-Total : Total (read_clock env)
  unfolding read_clock
  read_clock-Total = record { result = λ w. (_, refl) }

  read_mono-Total : Total (read_mono env)
  unfolding read_mono
  read_mono-Total = record { result = λ w. (_, refl) }

  put-Total : (o : Segment) → Total (put_object_with_retry env o)
  unfolding put_attempts
  put-Total o = record { result = λ w. (tt, rw (healthy.stores w.puts) refl) }

  name_segment-Total : (sid : ℤ) (lines : List String) → Total (name_segment env sid lines)
  unfolding name_segment read_clock next_segment
  name_segment-Total sid lines = record { result = λ w. (_, refl) }

  flush_shard_body-Total : (sid : ℤ) (lines : List String) → Total (flush_shard_body env sid lines)
  unfolding flush_shard_body
  flush_shard_body-Total sid lines =
      rw healthy.bucket (search (total_rules, name_segment-Total, put-Total))

  clear_buffer-Total : (sid : ℤ) → Total (clear_buffer env sid)
  unfolding clear_buffer
  clear_buffer-Total sid = search (total_rules, read_mono-Total)

  flush_and_clear-Total : (sid : ℤ) (lines : List String) → Total (flush_and_clear env sid lines)
  unfolding flush_and_clear
  flush_and_clear-Total sid lines = search (total_rules, flush_shard_body-Total, clear_buffer-Total)

  pub flush_shard-Total : (sid : ℤ) → Total (flush_shard env sid)
  unfolding flush_shard
  flush_shard-Total sid = search (total_rules, flush_and_clear-Total)

  -- The flush interval of the shard has been started.
  abbrev IsStarted : ℤ → Writer → Type 0
  IsStarted sid w = (t : ℕ) × (get w.last_flush_mono sid ≡ some t)

  start_interval-IsStarted :
      (sid : ℤ) (w : Writer)
      → ((start_interval env sid w).0 ≡ ok tt) × IsStarted sid (start_interval env sid w).1
  unfolding start_interval read_mono
  start_interval-IsStarted sid w = elim (Option-cases (get w.last_flush_mono sid)) [
    | inl e ↦ rw e (refl, (env.mono_ms w.mono_reads, rw (get-put, beq_refl) refl))
    | inr (t, e) ↦ rw e (refl, (t, e))
  ]

  maybe_flush-returns : (sid : ℤ) (w : Writer) → IsStarted sid w → (maybe_flush env sid w).0 ≡ ok tt
  unfolding maybe_flush read_mono
  maybe_flush-returns sid w (t, e) =
      let w1 = (read_mono env w).1 in
      ground (arith, ((flush_and_clear-Total sid (buffer w sid)).result w1).1)

  append_encoded_line-Total : (sid : ℤ) (line : String) → Total (append_encoded_line env sid line)
  unfolding append_encoded_line push_line
  append_encoded_line-Total sid line = record {
    result = λ w.
        let w1 : Writer = (push_line env sid line w).1 in
        let (e, started) = start_interval-IsStarted sid w1 in
        (tt, rw e (maybe_flush-returns sid (start_interval env sid w1).1 started));
  }

  encode_line-valid :
      (r : JournalRecord)
      → validate_payload_for_type r.type r.payload ≡ ok tt
      → encode_line env r ≡ ok (env.dumps r)
  unfolding encode_line
  encode_line-valid r valid = rw (encode_line, valid) refl

  -- The append of a record whose payload keeps the rules.
  pub append_record-Total :
      (r : JournalRecord)
      → validate_payload_for_type r.type r.payload ≡ ok tt
      → Total (append_record env r)
  unfolding append_record
  append_record-Total r valid =
      Total-lift (encode_line env r) (append_encoded_line env r.shard_id) (env.dumps r)
        (encode_line-valid r valid) (append_encoded_line-Total r.shard_id (env.dumps r))

  pub log-Total :
      (q : Request) → validate_payload_for_type q.type q.payload ≡ ok tt → Total (log env q)
  unfolding build_record next_record_index
  log-Total q valid = record {
    result = λ w. (append_record-Total (record_of q w) valid).result (build q w).1;
  }
