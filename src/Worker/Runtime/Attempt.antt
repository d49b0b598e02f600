-- ===== src/Worker/Runtime/Attempt.antt =====
-- What one send attempt does to the runtime.
use nitzan_shinnies_inspecti.Prelude.Result.{Result-cases, Error, Result, ok, err}
use nitzan_shinnies_inspecti.Worker.Runtime.{
  result_payload, MessageState, TerminalNotice, Runtime, World, in_journal, now_ms, log_record,
  call_sms, post_terminal, attempted_payload, finish_success, reschedule, finish_failed,
  sms_request, settle, announce, send_locked,
}
use nitzan_shinnies_inspecti.Journal.Records.{send_result, JournalRecord, send_attempted}
use nitzan_shinnies_inspecti.Prelude.{
  ℕ, ◌+◌, ◌≤◌, ◌<◌, ◌≡◌, refl, ◌⊎◌, inl, inr, Bool, true, false, none, some, List, [], ◌∷◌, ◌++◌,
  append-nil, arith, ltb, if◌then◌else◌,
}
use nitzan_shinnies_inspecti.Prelude.Int.{ℤ, pos, ◌+ℤ◌, ℤ-eq, int_laws}
use nitzan_shinnies_inspecti.Prelude.Eq.{ℕ-eq, String-eq, pair_eq}
use nitzan_shinnies_inspecti.Prelude.Dict.{put}
use nitzan_shinnies_inspecti.Prelude.Exec.{◌>>=◌}
use nitzan_shinnies_inspecti.Models.{success, failed}
use nitzan_shinnies_inspecti.Domain.Schedule.{next_due_ms_lem, offset}
use nitzan_shinnies_inspecti.Journal.Writer.{read_clock}
use nitzan_shinnies_inspecti.Journal.Writer.Index.{record_of}
use nitzan_shinnies_inspecti.Journal.Writer.Conserve.{written, stored_lines}
use nitzan_shinnies_inspecti.Journal.Writer.Stored.{log_and_flush-stored}
use nitzan_shinnies_inspecti.Worker.Sms.{SendOutcome}

module _ (st : MessageState) (n : ℕ) (o : SendOutcome) where
  -- The state of a message after attempt `n` ended.
  abbrev pub after_attempt : MessageState
  after_attempt =
      if o.ok
      then record st { status = success }
      else if ltb n 5
      then record st {
        next_attempt_index = pos (n + 1);
        next_due_at_ms = st.arrival_ms +ℤ pos (offset (n + 1));
      }
      else record st { status = failed }

  -- The notices that its end sends, at a time.
  abbrev pub notices_after : ℤ → List TerminalNotice
  notices_after now2 =
      if o.ok
      then record {
        message_id = st.message_id;
        terminal_status = "success";
        attempt_count = pos (n + 1);
        final_timestamp_ms = now2;
        reason = none;
      }
        ∷ []
      else if ltb n 5
      then []
      else record {
        message_id = st.message_id;
        terminal_status = "failed";
        attempt_count = pos 6;
        final_timestamp_ms = now2;
        reason = some "sms_exhausted";
      }
        ∷ []

-- The attempt ended as the outcome says, or an error was raised and no state and no notice changed.
abbrev pub SettleEffect :
    MessageState → ℕ → SendOutcome → ℤ → Runtime → Result Bool × Runtime → Type 0
SettleEffect st n o now2 rt (r, rt') =
    (rt'.sms_calls ≡ rt.sms_calls)
    × (((r ≡ ok o.ok)
          × (rt'.states ≡ put rt.states st.message_id (after_attempt st n o))
          × (rt'.notices ≡ rt.notices ++ notices_after st n o now2))
        ⊎ (((e : Error) × (r ≡ err e)) × (rt'.states ≡ rt.states) × (rt'.notices ≡ rt.notices)))

module _ (world : World) where
  module _ (st : MessageState) (n : ℕ) (o : SendOutcome) (now2 : ℤ) (rt : Runtime)
      (index : st.next_attempt_index ≡ pos n) where
    completed : st.next_attempt_index +ℤ pos 1 ≡ pos (n + 1)
    completed = rw index (omega int_laws)

    finish_success-effect :
        o.ok ≡ true → SettleEffect st n o now2 rt (finish_success world st now2 rt)
    unfolding finish_success post_terminal ◌+ℤ◌
    finish_success-effect h = ground arith

    reschedule-effect :
        o.ok ≡ false → n < 5 → SettleEffect st n o now2 rt (reschedule world st now2 rt)
    unfolding reschedule
    reschedule-effect h k =
        ground (arith, completed, next_due_ms_lem st.arrival_ms (n + 1), append-nil rt.notices)

    finish_failed-effect :
        o.ok ≡ false → 5 ≤ n → SettleEffect st n o now2 rt (finish_failed world st now2 rt)
    unfolding finish_failed post_terminal
    finish_failed-effect h k = ground arith

  -- The time at which the answer of the provider came.
  abbrev pub answered_at : Runtime → ℤ
  answered_at rt = pos (world.env.clock_ms rt.journal.clock_reads)

  module _ (st : MessageState) (n : ℕ) (o : SendOutcome) (rt : Runtime)
      (index : st.next_attempt_index ≡ pos n) (bounded : n ≤ 5) where
    -- What follows the answer of the provider to attempt `n`: either the state of the message, the notice
    -- and the returned value are those of the answer (success; or the next attempt, due by the schedule;
    -- or failure after the sixth attempt), or an error was raised and no state and no notice changed.
    -- The provider is not called again.
    pub settle-effect : SettleEffect st n o (answered_at rt) rt (settle world st o rt)
    unfolding settle now_ms read_clock
    settle-effect =
        let now2 = answered_at rt in
        let logged =
          in_journal (log_record world st send_result now2 (result_payload st.next_attempt_index o))
            (now_ms world rt).1 in
        ground (
          arith,
          finish_success-effect st n o now2 logged.1 index,
          reschedule-effect st n o now2 logged.1 index,
          finish_failed-effect st n o now2 logged.1 index,
        )

  -- The record that announces an attempt.
  abbrev pub attempt_record : MessageState → Runtime → JournalRecord
  attempt_record st rt =
      record_of
        (record {
          shard_id = st.shard_id;
          type = send_attempted;
          message_id = st.message_id;
          ts_ms = answered_at rt;
          payload = attempted_payload st.next_attempt_index;
        })
        (read_clock world.env rt.journal).1

  announce-stored :
      (st : MessageState) (rt : Runtime)
      → (announce world st rt).0 ≡ ok tt
      → stored_lines st.shard_id (announce world st rt).1.journal.segments
        ≡ written rt.journal st.shard_id ++ world.env.dumps (attempt_record st rt) ∷ []
  unfolding announce now_ms read_clock log_record
  announce-stored st rt h = log_and_flush-stored world.env _ _ h

  pub announce-states :
      (st : MessageState) (rt : Runtime)
      → ((announce world st rt).1.states ≡ rt.states)
        × ((announce world st rt).1.notices ≡ rt.notices)
  unfolding announce now_ms read_clock
  announce-states st rt = (refl, refl)

  pub announce-sms_calls :
      (st : MessageState) (rt : Runtime) → (announce world st rt).1.sms_calls ≡ rt.sms_calls
  unfolding announce now_ms read_clock
  announce-sms_calls st rt = refl

  -- An attempt is in the store before the provider is asked: either the attempt raises before the call
  -- and the provider is not asked, or the call is made in a state in which the store holds, for the
  -- message's shard, everything written before and then the record of this attempt.
  pub send_locked-write_ahead :
      (st : MessageState) (rt : Runtime)
      → (((e : Error) × ((send_locked world st rt).0 ≡ err e))
          × ((send_locked world st rt).1.sms_calls ≡ rt.sms_calls))
        ⊎ ((send_locked world st rt
              ≡ (call_sms world (sms_request st) >>= settle world st) (announce world st rt).1)
            × (stored_lines st.shard_id (announce world st rt).1.journal.segments
                ≡ written rt.journal st.shard_id ++ world.env.dumps (attempt_record st rt) ∷ []))
  unfolding send_locked
  send_locked-write_ahead st rt = elim (Result-cases (announce world st rt).0) [
    | inl (done, e) ↦ inr (ground arith, announce-stored st rt e)
    | inr (bad, e) ↦ inl ((bad, ground arith), ground (arith, announce-sms_calls st rt))
  ]
