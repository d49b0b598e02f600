-- ===== src/Journal/Writer.antt =====
-- inspectio/journal/writer.py: the buffered writer of journal segments, one buffer for each shard.
-- Each method runs to its end before the next: the lock of a shard is not modelled.
pub mod Conserve
pub mod Index
pub mod Retry
pub mod Stored
pub mod Healthy
pub mod Unconfirmed
pub mod Snapshot
mod Tests
use nitzan_shinnies_inspecti.Prelude.{
  ℕ, zero, suc, ◌+◌, ◌*◌, min, String, Bool, true, false, not, ◌||◌, none, some, List, [], ◌∷◌,
  ◌++◌, leb, eqb, if◌then◌else◌, length,
}
use nitzan_shinnies_inspecti.Prelude.Text.{strip}
use nitzan_shinnies_inspecti.Prelude.Int.{ℤ, pos, negsuc, ◌+ℤ◌, max_ℤ, ℤ-eq}
use nitzan_shinnies_inspecti.Prelude.Eq.{◌==◌, ℕ-eq, String-eq, pair_eq}
use nitzan_shinnies_inspecti.Prelude.Dict.{Dict, get, put, keys, or_default}
use nitzan_shinnies_inspecti.Prelude.Result.{
  key_error, runtime_error, client_error, connection_error, Result, ok, err,
}
use nitzan_shinnies_inspecti.Prelude.Exec.{Exec, pure, raise, lift, gets, modify, ◌>>=◌, ◌>>◌}
use nitzan_shinnies_inspecti.Prelude.Decimal.{Codes, Codes-eq}
use nitzan_shinnies_inspecti.Json.{Fields}
use nitzan_shinnies_inspecti.Journal.Records.{RecordType, JournalRecord, validate_payload_for_type}
use nitzan_shinnies_inspecti.Journal.Keys.{UtcParts, utc_parts, journal_key}
use nitzan_shinnies_inspecti.Journal.S3.{Env, stored, refused, lost, Segment}

abbrev pub s3_retry_max_attempts : ℕ
s3_retry_max_attempts = 8

abbrev pub s3_retry_base_delay_ms : ℕ
s3_retry_base_delay_ms = 50

abbrev pub s3_retry_max_delay_ms : ℕ
s3_retry_max_delay_ms = 2000

abbrev pub SegmentKey : Type 0
SegmentKey = ℤ × (Codes × (Codes × (Codes × Codes)))

-- The attributes of a `JournalWriter`, with the readings of the clocks, the calls of `put_object`,
-- the milliseconds slept, the segments whose `put_object` returned, and those that the object store has
-- taken although it raised. A key is given once, so the store holds the segments of both lists.
pub record Writer : Type 0 where
  pub hwm : Dict ℤ ℤ
  pub last_assigned : Dict ℤ ℤ
  pub buffers : Dict ℤ (List String)
  pub last_flush_mono : Dict ℤ ℕ
  pub segment_seq : Dict SegmentKey ℕ
  pub clock_reads : ℕ
  pub mono_reads : ℕ
  pub puts : ℕ
  pub slept_ms : ℕ
  pub segments : List Segment
  pub unconfirmed : List Segment

-- JournalWriter(settings, initial_hwm=hwm)
abbrev pub new_writer : Dict ℤ ℤ → Writer
new_writer hwm = record {
  hwm = hwm;
  last_assigned = [];
  buffers = [];
  last_flush_mono = [];
  segment_seq = [];
  clock_reads = 0;
  mono_reads = 0;
  puts = 0;
  slept_ms = 0;
  segments = [];
  unconfirmed = [];
}

abbrev pub buffer : Writer → ℤ → List String
buffer w shard_id = or_default (get w.buffers shard_id) []

unfoldable pub get_last_record_index : Writer → ℤ → ℤ
get_last_record_index w shard_id =
    max_ℤ (or_default (get w.hwm shard_id) (negsuc 0))
      (or_default (get w.last_assigned shard_id) (negsuc 0))

unfoldable pub next_record_index : ℤ → Exec Writer ℤ
unfolding get_last_record_index
next_record_index shard_id w =
    let nxt = get_last_record_index w shard_id +ℤ pos 1 in
    (ok nxt, record w { last_assigned = put w.last_assigned shard_id nxt })

unfoldable pub build_record : ℤ → RecordType → String → ℤ → Fields → Exec Writer JournalRecord
build_record shard_id type message_id ts_ms payload = do
  idx ← next_record_index shard_id
  pure (record {
    type = type;
    shard_id = shard_id;
    message_id = message_id;
    ts_ms = ts_ms;
    record_index = idx;
    payload = payload;
  })

-- code not in ("Throttling", "SlowDown", "ServiceUnavailable", "InternalError")
abbrev pub is_retryable : String → Bool
is_retryable code =
    code == "Throttling"
    || (code == "SlowDown" || (code == "ServiceUnavailable" || code == "InternalError"))

abbrev pub next_delay : ℕ → ℕ
next_delay delay = min (delay * 2) s3_retry_max_delay_ms

-- A refusal that is retried, and the sleep before the retry.
abbrev pub after_refusal : ℕ → Writer → Writer
after_refusal delay w = record w { puts = w.puts + 1; slept_ms = w.slept_ms + delay }

-- The connection is lost: the object is stored, or it is not.
abbrev pub after_loss : Bool → Segment → Writer → Writer
after_loss took_effect o w = record w {
  puts = w.puts + 1;
  unconfirmed = if took_effect then w.unconfirmed ++ o ∷ [] else w.unconfirmed;
}

module _ (env : Env) where
  unfoldable pub read_clock : Exec Writer ℕ
  read_clock w = (ok (env.clock_ms w.clock_reads), record w { clock_reads = w.clock_reads + 1 })

  unfoldable pub read_mono : Exec Writer ℕ
  read_mono w = (ok (env.mono_ms w.mono_reads), record w { mono_reads = w.mono_reads + 1 })

  -- The loop of `_put_object_with_retry` with `left` attempts left. A refusal of the last raises.
  unfoldable pub put_attempts : ℕ → ℕ → Segment → Exec Writer Unit
  put_attempts zero delay o w = (ok tt, w)
  put_attempts (suc left) delay o w = elim (env.put_answer w.puts) [
    | stored ↦ (ok tt, record w { puts = w.puts + 1; segments = w.segments ++ o ∷ [] })
    | refused code ↦
        let retry = put_attempts left (next_delay delay) o (after_refusal delay w) in
        if not (is_retryable code) || eqb left 0
        then (err (client_error code), record w { puts = w.puts + 1 })
        else retry
    | lost took_effect ↦ (err connection_error, after_loss took_effect o w)
  ]

  abbrev pub put_object_with_retry : Segment → Exec Writer Unit
  put_object_with_retry = put_attempts s3_retry_max_attempts s3_retry_base_delay_ms

  -- The sequence number of the next segment of a shard and an hour, from 1.
  unfoldable pub next_segment : ℤ → UtcParts → Exec Writer ℕ
  next_segment shard_id u w =
      let key : SegmentKey = (shard_id, (u.year, (u.month, (u.day, u.hour)))) in
      let seq = or_default (get w.segment_seq key) 0 + 1 in
      (ok seq, record w { segment_seq = put w.segment_seq key seq })

  -- The key and the lines of the next segment.
  unfoldable pub name_segment : ℤ → List String → Exec Writer Segment
  unfolding read_clock next_segment
  name_segment shard_id lines = do
    now_ms ← read_clock
    let u = utc_parts now_ms
    seq ← next_segment shard_id u
    pure (record { shard_id = shard_id; key = journal_key shard_id u now_ms seq; lines = lines })

  unfoldable pub flush_shard_body : ℤ → List String → Exec Writer Unit
  flush_shard_body shard_id lines =
      if strip env.settings.s3_bucket == ""
      then raise runtime_error
      else do o ← name_segment shard_id lines; put_object_with_retry o

  -- `self._buffers[shard_id] = []` and the time of the flush
  unfoldable pub clear_buffer : ℤ → Exec Writer Unit
  clear_buffer shard_id = do
    modify (λ w. record w { buffers = put w.buffers shard_id [] })
    now_m ← read_mono
    modify (λ w. record w { last_flush_mono = put w.last_flush_mono shard_id now_m })

  unfoldable pub flush_and_clear : ℤ → List String → Exec Writer Unit
  flush_and_clear shard_id lines = flush_shard_body shard_id lines >> clear_buffer shard_id

  abbrev pub has_lines : List String → Bool
  has_lines [] = false
  has_lines (l ∷ ls) = true

  unfoldable pub flush_shard : ℤ → Exec Writer Unit
  unfolding flush_and_clear
  flush_shard shard_id = do
    lines ← gets (λ w. buffer w shard_id)
    if has_lines lines then flush_and_clear shard_id lines else pure tt

  -- `now_m - self._last_flush_mono[shard_id] >= interval`, a KeyError if there is no entry
  abbrev pub is_due : ℤ → ℕ → Writer → Result Bool
  is_due shard_id now_m w = elim (get w.last_flush_mono shard_id) [
    | none ↦ err key_error
    | some last ↦ ok (leb (last + env.settings.journal_flush_interval_ms) now_m)
  ]

  unfoldable pub maybe_flush : ℤ → Exec Writer Unit
  unfolding flush_and_clear
  maybe_flush shard_id = do
    lines ← gets (λ w. buffer w shard_id)
    if has_lines lines
        then (do
          now_m ← read_mono
          w ← gets (λ w. w)
          due_time ← lift (is_due shard_id now_m w)
          let due_size = leb env.settings.journal_flush_max_lines (length lines)
          if due_time || due_size then flush_and_clear shard_id lines else pure tt)
        else pure tt

  -- `self._buffers[shard_id].append(line)`
  unfoldable pub push_line : ℤ → String → Exec Writer Unit
  push_line shard_id line =
      modify (λ w. record w { buffers = put w.buffers shard_id (buffer w shard_id ++ line ∷ []) })

  -- the first line of a shard starts its flush interval
  unfoldable pub start_interval : ℤ → Exec Writer Unit
  start_interval shard_id = do
    started ← gets (λ w. elim (get w.last_flush_mono shard_id) [ none ↦ false | some t ↦ true ])
    if started then pure tt else (do
      now_m ← read_mono
      modify (λ w. record w { last_flush_mono = put w.last_flush_mono shard_id now_m }))

  unfoldable pub append_encoded_line : ℤ → String → Exec Writer Unit
  append_encoded_line shard_id line = do
    push_line shard_id line
    start_interval shard_id
    maybe_flush shard_id

  -- records.py `encode_line`
  unfoldable pub encode_line : JournalRecord → Result String
  encode_line r = elim (validate_payload_for_type r.type r.payload) [
    | ok u ↦ ok (env.dumps r)
    | err e ↦ err e
  ]

  unfoldable pub append_record : JournalRecord → Exec Writer Unit
  append_record r = do line ← lift (encode_line r); append_encoded_line r.shard_id line

  flush_each : List ℤ → Exec Writer Unit
  flush_each [] = pure tt
  flush_each (sid ∷ sids) = flush_shard sid >> flush_each sids

  pub flush_all : Exec Writer Unit
  unfolding flush_each
  flush_all = do sids ← gets (λ w. keys w.buffers); flush_each sids

  -- One round of `periodic_flush_loop` for one shard.
  pub flush_if_due : ℤ → Exec Writer Unit
  unfolding flush_and_clear
  flush_if_due sid = do
    lines ← gets (λ w. buffer w sid)
    if has_lines lines
        then (do
          now_m ← read_mono
          last ← gets (λ w. or_default (get w.last_flush_mono sid) now_m)
          if leb (last + env.settings.journal_flush_interval_ms) now_m
              then flush_and_clear sid lines
              else pure tt)
        else pure tt

  flush_each_due : List ℤ → Exec Writer Unit
  flush_each_due [] = pure tt
  flush_each_due (sid ∷ sids) = flush_if_due sid >> flush_each_due sids

  -- One round of `periodic_flush_loop`, which repeats it until it is stopped or a round raises.
  pub flush_round : Exec Writer Unit
  unfolding flush_each_due
  flush_round = do sids ← gets (λ w. keys w.buffers); flush_each_due sids
