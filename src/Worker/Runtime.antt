-- ===== src/Worker/Runtime.antt =====
-- inspectio/worker/runtime.py: the retry state of each message and its send attempts.
-- A send attempt runs to its end before the next one: the lock of a message and the semaphore of a
-- shard are not modelled. A state in the dictionary is one object, so a write to it is a write there.
pub mod Payloads
pub mod Attempt
pub mod Dispatch
pub mod Invariant
pub mod Returns
pub mod Termination
mod Tests
use nitzan_shinnies_inspecti.Prelude.{
  ℕ, String, Bool, true, false, ◌&&◌, Option, none, some, List, [], ◌∷◌, ◌++◌, if◌then◌else◌,
  length,
}
use nitzan_shinnies_inspecti.Prelude.Int.{ℤ, pos, ◌+ℤ◌, ltb_ℤ, leb_ℤ, ℤ-eq}
use nitzan_shinnies_inspecti.Prelude.Eq.{ℕ-eq, String-eq, pair_eq}
use nitzan_shinnies_inspecti.Prelude.Dict.{Dict, get, put, values}
use nitzan_shinnies_inspecti.Prelude.Result.{Result, ok, err}
use nitzan_shinnies_inspecti.Prelude.Exec.{Exec, pure, lift, gets, modify, ◌>>=◌, ◌>>◌, zoom}
use nitzan_shinnies_inspecti.Json.{Json, Fields, end, field, int, str, bool, null}
use nitzan_shinnies_inspecti.Models.{
  Message, RetryStatus, pending, success, failed, failed_attempt_count,
}
use nitzan_shinnies_inspecti.Domain.Schedule.{next_due_ms}
use nitzan_shinnies_inspecti.Journal.Records.{
  RecordType, send_attempted, send_result, next_due, terminal,
}
use nitzan_shinnies_inspecti.Journal.S3.{Env}
use nitzan_shinnies_inspecti.Journal.Writer.{
  Writer, build_record, append_record, flush_shard, read_clock,
}
use nitzan_shinnies_inspecti.Worker.Sms.{SmsAnswer, SmsRequest, SendOutcome, post_send}

pub record MessageState : Type 0 where
  pub message_id : String
  pub shard_id : ℤ
  pub to : String
  pub body : String
  pub arrival_ms : ℤ
  pub next_attempt_index : ℤ
  pub next_due_at_ms : ℤ
  pub status : RetryStatus

-- The body of a POST to the notification service.
pub record TerminalNotice : Type 0 where
  pub message_id : String
  pub terminal_status : String
  pub attempt_count : ℤ
  pub final_timestamp_ms : ℤ
  pub reason : Option String

-- The attributes of a `WorkerRuntime`, with the requests that it has made of the SMS provider and of
-- the notification service.
pub record Runtime : Type 0 where
  pub states : Dict String MessageState
  pub journal : Writer
  pub sms_calls : List SmsRequest
  pub notices : List TerminalNotice

-- The answer of the provider to a request, given how many were made before it. The answer of the
-- notification service makes no difference: an HTTP error is logged and dropped.
pub record World : Type 0 where
  pub env : Env
  pub sms_answer : ℕ → SmsRequest → SmsAnswer

abbrev pub in_journal : {A : Type 0} → Exec Writer A → Exec Runtime A
in_journal = zoom (λ rt. rt.journal) (λ j rt. record rt { journal = j })

-- self._states[st.message_id] = st
abbrev pub put_state : MessageState → Exec Runtime Unit
put_state st = modify (λ rt. record rt { states = put rt.states st.message_id st })

pub attempted_payload : ℤ → Fields
attempted_payload attempt_index = field "attemptIndex" (int attempt_index) end

abbrev pub or_null : {A : Type 0} → (A → Json) → Option A → Json
or_null f none = null
or_null f (some a) = f a

pub result_payload : ℤ → SendOutcome → Fields
result_payload attempt_index o = field "attemptIndex" (int attempt_index) (
    field "ok" (bool o.ok) (
      field "httpStatus" (or_null (λ s. int (pos s)) o.http_status)
        (field "errorClass" (or_null str o.error_class) end)))

pub success_payload : ℤ → Fields
success_payload attempt_count =
    field "status" (str "success") (field "attemptCount" (int attempt_count) end)

pub next_due_payload : ℤ → ℤ → Fields
next_due_payload completed due =
    field "attemptCount" (int completed) (field "nextDueAtMs" (int due) end)

pub failed_payload : Fields
failed_payload =
    field "status" (str "failed")
      (field "attemptCount" (int failed_attempt_count) (field "reason" (str "sms_exhausted") end))

abbrev pub is_pending : RetryStatus → Bool
is_pending pending = true
is_pending _ = false

abbrev pub sms_request : MessageState → SmsRequest
sms_request st = record {
  to = st.to;
  body = st.body;
  message_id = st.message_id;
  attempt_index = st.next_attempt_index;
}

-- The tasks that a tick creates: the pending messages that are due.
abbrev pub due_messages : ℤ → List MessageState → List Message
due_messages now [] = []
due_messages now (st ∷ sts) =
    let rest = due_messages now sts in
    if is_pending st.status && leb_ℤ st.next_due_at_ms now
    then (record { message_id = st.message_id; to = st.to; body = st.body }) ∷ rest
    else rest

module _ (world : World) where
  unfoldable pub now_ms : Exec Runtime ℤ
  now_ms = in_journal (read_clock world.env >>= λ t. pure (pos t))

  -- `build_record` and `append_record` of it, on the shard and message of a state
  unfoldable pub log_record : MessageState → RecordType → ℤ → Fields → Exec Writer Unit
  log_record st type ts payload = do
    r ← build_record st.shard_id type st.message_id ts payload
    append_record world.env r

  -- await post_send(...)
  unfoldable pub call_sms : SmsRequest → Exec Runtime SendOutcome
  call_sms q rt =
      let answer = world.sms_answer (length rt.sms_calls) q in
      (ok (post_send answer), record rt { sms_calls = rt.sms_calls ++ q ∷ [] })

  unfoldable pub post_terminal : TerminalNotice → Exec Runtime Unit
  post_terminal n = modify (λ rt. record rt { notices = rt.notices ++ n ∷ [] })

  -- The end of an attempt that the provider accepted.
  unfoldable pub finish_success : MessageState → ℤ → Exec Runtime Bool
  unfolding success_payload
  finish_success st now2 = do
    let ac = st.next_attempt_index +ℤ pos 1
    in_journal
        (log_record st terminal now2 (success_payload ac) >> flush_shard world.env st.shard_id)
    put_state (record st { status = success })
    post_terminal (record {
      message_id = st.message_id;
      terminal_status = "success";
      attempt_count = ac;
      final_timestamp_ms = now2;
      reason = none;
    })
    pure true

  -- The end of a failed attempt that is not the last.
  unfoldable pub reschedule : MessageState → ℤ → Exec Runtime Bool
  unfolding next_due_payload
  reschedule st now2 = do
    let completed = st.next_attempt_index +ℤ pos 1
    due ← lift (next_due_ms st.arrival_ms completed)
    in_journal (
        log_record st next_due now2 (next_due_payload completed due)
        >> flush_shard world.env st.shard_id)
    put_state (record st { next_attempt_index = completed; next_due_at_ms = due })
    pure false

  -- The end of the last attempt, when it failed.
  unfoldable pub finish_failed : MessageState → ℤ → Exec Runtime Bool
  unfolding failed_payload
  finish_failed st now2 = do
    in_journal (log_record st terminal now2 failed_payload >> flush_shard world.env st.shard_id)
    put_state (record st { status = failed })
    post_terminal (record {
      message_id = st.message_id;
      terminal_status = "failed";
      attempt_count = failed_attempt_count;
      final_timestamp_ms = now2;
      reason = some "sms_exhausted";
    })
    pure false

  -- What follows the answer of the provider.
  unfoldable pub settle : MessageState → SendOutcome → Exec Runtime Bool
  unfolding result_payload
  settle st outcome = do
    now2 ← now_ms
    in_journal (log_record st send_result now2 (result_payload st.next_attempt_index outcome))
    if outcome.ok
        then finish_success st now2
        else if ltb_ℤ st.next_attempt_index (pos 5)
        then reschedule st now2
        else finish_failed st now2

  -- The record of the attempt, which is stored before the provider is called.
  unfoldable pub announce : MessageState → Exec Runtime Unit
  unfolding attempted_payload
  announce st = do
    now ← now_ms
    in_journal (
        log_record st send_attempted now (attempted_payload st.next_attempt_index)
        >> flush_shard world.env st.shard_id)

  unfoldable pub send_locked : MessageState → Exec Runtime Bool
  send_locked st = do announce st; outcome ← call_sms (sms_request st); settle st outcome

  unfoldable pub send_if_due : MessageState → ℤ → Exec Runtime Bool
  send_if_due st now = if ltb_ℤ now st.next_due_at_ms then pure false else send_locked st

  unfoldable pub send_pending : MessageState → Exec Runtime Bool
  send_pending st = do now ← now_ms; send_if_due st now

  unfoldable pub send_found : Option MessageState → Exec Runtime Bool
  send_found none = pure false
  send_found (some st) = if is_pending st.status then send_pending st else pure false

  unfoldable pub async_send : Message → Exec Runtime Bool
  unfolding send_found
  async_send message = do found ← gets (λ rt. get rt.states message.message_id); send_found found

  unfoldable pub wakeup_due : Exec Runtime (List Message)
  wakeup_due = do now ← now_ms; gets (λ rt. due_messages now (values rt.states))

  -- Tasks that were created run by themselves: an exception ends only its task.
  unfoldable pub run_tasks : List Message → Runtime → Runtime
  run_tasks [] rt = rt
  run_tasks (m ∷ ms) rt = run_tasks ms (async_send m rt).1

  abbrev pub spawn : Result (List Message) → Runtime → Runtime
  spawn (ok ms) rt = run_tasks ms rt
  spawn (err e) rt = rt

  -- A tick of the wakeup loop, with the tasks that it creates.
  unfoldable pub tick : Runtime → Runtime
  tick rt = let (r, rt') = wakeup_due rt in spawn r rt'
