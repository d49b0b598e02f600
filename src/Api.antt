-- ===== src/Api.antt =====
-- inspectio/api/routes_public.py: the public routes. The HTTP framework checks that `count` and `limit`
-- are at least 1, and turns an exception with a status into a response.
pub mod Admission
mod Tests
use nitzan_shinnies_inspecti.Prelude.{
  ℕ, zero, suc, ◌+◌, String, Bool, true, false, Option, none, some, List, [], ◌∷◌, map, ltb,
  if◌then◌else◌,
}
use nitzan_shinnies_inspecti.Prelude.Int.{ℤ, pos, min_ℤ, max_ℤ, ℤ-eq}
use nitzan_shinnies_inspecti.Prelude.Eq.{◌==◌, ℕ-eq, String-eq, pair_eq}
use nitzan_shinnies_inspecti.Prelude.Result.{
  Error, key_error, ingest_unavailable, http_exception, Result, ok, err,
}
use nitzan_shinnies_inspecti.Prelude.Exec.{Exec, pure, raise, lift, ◌>>=◌, ◌>>◌, zoom}
use nitzan_shinnies_inspecti.Prelude.Text.{strip, rstrip_slashes, string_append}
use nitzan_shinnies_inspecti.Json.{Json, Fields, null, str, get_field}
use nitzan_shinnies_inspecti.Settings.{Settings}
use nitzan_shinnies_inspecti.Domain.Sharding.{shard_for_message}
use nitzan_shinnies_inspecti.Ingest.Producer.{
  IngestPutInput, IngestPutResult, Sqs, Sent, put_messages,
}

-- The state of the service: what was sent to the queue, the identifiers that were drawn, and the
-- readings of the clock.
pub record Api : Type 0 where
  pub sent : Sent
  pub drawn : ℕ
  pub clock_reads : ℕ

-- The nth uuid, the nth reading of the clock, the digest of a text, `str` of a value that is no text,
-- and the queue.
pub record Outside : Type 0 where
  pub uuid : ℕ → String
  pub clock_ms : ℕ → ℕ
  pub sha256 : String → List ℕ
  pub text_of : Json → String
  pub sqs : Sqs

pub data Response : Type 0 where
  one : IngestPutResult → Response
  many : ℕ → List String → List ℤ → Response
  unavailable : Response

unfoldable pub trim_body : String → Result String
trim_body body = let s = strip body in if s == "" then err (http_exception 400) else ok s

-- The body of a request, which must be a text that is not blank.
abbrev pub body_of : Option Json → Result String
body_of (some (str s)) = trim_body s
body_of _ = err (http_exception 400)

abbrev pub draw : Exec Api ℕ
draw a = (ok a.drawn, record a { drawn = a.drawn + 1 })

-- results[0]
abbrev pub first_result : List IngestPutResult → Result Response
first_result [] = err key_error
first_result (r ∷ rs) = ok (one r)

-- min(limit, outcomes_max_limit), at least 1
unfoldable pub page_limit : ℤ → Settings → ℤ
page_limit limit settings = max_ℤ (pos 1) (min_ℤ limit (pos settings.outcomes_max_limit))

abbrev pub is_unavailable : Error → Bool
is_unavailable ingest_unavailable = true
is_unavailable _ = false

-- `except IngestUnavailableError`: a response with the status 503
abbrev pub catch_unavailable : Result Response × Api → Result Response × Api
catch_unavailable (ok x, a) = (ok x, a)
catch_unavailable (err e, a) = if is_unavailable e then (ok unavailable, a) else (err e, a)

module _ (outside : Outside) (settings : Settings) where
  abbrev pub to_of : Option Json → Option String
  to_of none = none
  to_of (some null) = none
  to_of (some (str s)) = some s
  to_of (some v) = some (outside.text_of v)

  abbrev pub read_clock : Exec Api ℤ
  read_clock a =
      (ok (pos (outside.clock_ms a.clock_reads)), record a { clock_reads = a.clock_reads + 1 })

  abbrev pub input_for : String → ℕ → String → Option String → ℤ → IngestPutInput
  input_for mid shard body to now = record {
    message_id = mid;
    shard_id = pos shard;
    payload_body = body;
    payload_to = to;
    received_at_ms = now;
    idempotency_key = mid;
  }

  -- The messages of a call; those that a call draws last stand last.
  unfoldable pub new_inputs : ℕ → String → Option String → ℤ → Exec Api (List IngestPutInput)
  new_inputs zero body to now = pure []
  new_inputs (suc count) body to now = do
    n ← draw
    shard ← lift (shard_for_message outside.sha256 (outside.uuid n) settings.total_shards)
    rest ← new_inputs count body to now
    pure (input_for (outside.uuid n) shard body to now ∷ rest)

  abbrev pub to_queue : List IngestPutInput → Exec Api (List IngestPutResult)
  to_queue batch =
      zoom (λ a. a.sent) (λ s a. record a { sent = s }) (put_messages outside.sqs settings batch)

  abbrev pub or_unavailable : Exec Api Response → Exec Api Response
  or_unavailable act a = catch_unavailable (act a)

  unfoldable pub post_messages : Fields → Exec Api Response
  unfolding get_field
  post_messages payload = do
    body ← lift (body_of (get_field payload "body"))
    n ← draw
    shard ← lift (shard_for_message outside.sha256 (outside.uuid n) settings.total_shards)
    now ← read_clock
    let item = input_for (outside.uuid n) shard body (to_of (get_field payload "to")) now
    or_unavailable (to_queue (item ∷ []) >>= λ rs. lift (first_result rs))

  abbrev pub accepted : ℕ → List IngestPutInput → Response
  accepted count batch = many count (map (λ b. b.message_id) batch) (map (λ b. b.shard_id) batch)

  abbrev pub send_batch : ℕ → List IngestPutInput → Exec Api Response
  send_batch count batch = or_unavailable (to_queue batch >>= λ rs. pure (accepted count batch))

  abbrev pub repeat_body : ℕ → Fields → String → Exec Api Response
  repeat_body count payload body = do
    now ← read_clock
    batch ← new_inputs count body (to_of (get_field payload "to")) now
    send_batch count batch

  unfoldable pub post_messages_repeat : ℕ → Fields → Exec Api Response
  unfolding get_field
  post_messages_repeat count payload =
      if ltb settings.repeat_max_count count
      then raise (http_exception 400)
      else if ltb settings.ingest_buffer_max_messages count
      then raise (http_exception 429)
      else (lift (body_of (get_field payload "body")) >>= repeat_body count payload)

-- The lists of outcomes. `fetch` is the HTTP client: for a URL and a limit, the JSON value of a successful
-- answer, or the error that httpx raises.
module _ (fetch : String → ℤ → Result Json) (settings : Settings) where
  abbrev get_list : String → ℤ → Result Json
  get_list path limit =
      fetch (string_append (rstrip_slashes settings.notification_base_url) path)
        (page_limit limit settings)

  unfoldable pub get_messages_success : ℤ → Result Json
  get_messages_success limit = get_list "/internal/v1/outcomes/success" limit

  unfoldable pub get_messages_failed : ℤ → Result Json
  get_messages_failed limit = get_list "/internal/v1/outcomes/failed" limit
