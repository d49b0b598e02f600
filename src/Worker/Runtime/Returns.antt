-- ===== src/Worker/Runtime/Returns.antt =====
-- An attempt returns where the journal stores every object.
use nitzan_shinnies_inspecti.Worker.Sms.{response, SmsRequest, SmsAnswer, post_send}
use nitzan_shinnies_inspecti.Journal.Writer.{flush_shard, read_clock}
use nitzan_shinnies_inspecti.Prelude.{
  ℕ, ◌+◌, ◌≤◌, ◌<◌, ◌≡◌, refl, ◌⊎◌, inl, inr, Bool, true, arith, if◌then◌else◌, length,
}
use nitzan_shinnies_inspecti.Prelude.Int.{ℤ, pos, ◌+ℤ◌, ltb_ℤ, ℤ-eq, int_laws}
use nitzan_shinnies_inspecti.Prelude.Eq.{ℕ-eq, String-eq, pair_eq}
use nitzan_shinnies_inspecti.Prelude.Result.{ok}
use nitzan_shinnies_inspecti.Prelude.Exec.{
  ◌>>◌, Total, Total-if, Total-zoom, Total-bind, Total-lift, total_rules,
}
use nitzan_shinnies_inspecti.Json.{Fields}
use nitzan_shinnies_inspecti.Domain.Schedule.{next_due_ms, next_due_ms_lem, offset}
use nitzan_shinnies_inspecti.Journal.Records.{
  RecordType, send_attempted, send_result, next_due, terminal,
}
use nitzan_shinnies_inspecti.Journal.Writer.Healthy.{IsHealthy, log-Total, flush_shard-Total}
use nitzan_shinnies_inspecti.Worker.Runtime.{
  MessageState, TerminalNotice, Runtime, World, in_journal, now_ms, log_record, call_sms,
  post_terminal, finish_success, reschedule, finish_failed, settle, announce, send_locked,
  sms_request, attempted_payload, result_payload, success_payload, next_due_payload, failed_payload,
}
use nitzan_shinnies_inspecti.Worker.Runtime.Payloads.{Accepted, attempt_payloads-Accepted}

module _ (world : World) (healthy : IsHealthy world.env) where
  log_record-Total :
      (st : MessageState) (type : RecordType) (ts : ℤ) (payload : Fields)
      → Accepted type payload
      → Total (log_record world st type ts payload)
  unfolding log_record
  log_record-Total st type ts payload valid = log-Total world.env healthy _ valid

  journal-Total :
      (st : MessageState) (type : RecordType) (ts : ℤ) (payload : Fields)
      → Accepted type payload
      → Total
          (in_journal (log_record world st type ts payload >> flush_shard world.env st.shard_id))
  journal-Total st type ts payload valid =
      Total-zoom (λ rt. rt.journal) (λ j rt. record rt { journal = j }) _
        (Total-bind _ _ (log_record-Total st type ts payload valid)
          (λ u. flush_shard-Total world.env healthy st.shard_id))

  now_ms-Total : Total (now_ms world)
  unfolding now_ms read_clock
  now_ms-Total = record { result = λ rt. (_, refl) }

  post_terminal-Total : (n : TerminalNotice) → Total (post_terminal world n)
  unfolding post_terminal
  post_terminal-Total n = record { result = λ rt. (tt, refl) }

  call_sms-Total : (q : SmsRequest) → Total (call_sms world q)
  unfolding call_sms
  call_sms-Total q = record { result = λ rt. (_, refl) }

  module _ (st : MessageState) (n : ℕ) (index : st.next_attempt_index ≡ pos n)
      (bounded : n ≤ 5) where
    payloads :
        (answer : SmsAnswer) (due : ℤ)
        → Accepted send_attempted (attempted_payload st.next_attempt_index)
          × Accepted send_result (result_payload st.next_attempt_index (post_send answer))
          × Accepted terminal (success_payload (st.next_attempt_index +ℤ pos 1))
          × ((n ≡ 5) ⊎ Accepted next_due (next_due_payload (st.next_attempt_index +ℤ pos 1) due))
          × Accepted terminal failed_payload
    payloads answer due = rw index (attempt_payloads-Accepted n answer due bounded)

    finish_success-Total : (now2 : ℤ) → Total (finish_success world st now2)
    unfolding finish_success
    finish_success-Total now2 =
        Total-bind _ _ (journal-Total st terminal now2 _ (payloads (response 0) (pos 0)).2)
          (λ u. search (total_rules, post_terminal-Total))

    finish_failed-Total : (now2 : ℤ) → Total (finish_failed world st now2)
    unfolding finish_failed
    finish_failed-Total now2 =
        Total-bind _ _ (journal-Total st terminal now2 _ (payloads (response 0) (pos 0)).4)
          (λ u. search (total_rules, post_terminal-Total))

    next_due-Accepted :
        (due : ℤ)
        → n < 5
        → Accepted next_due (next_due_payload (st.next_attempt_index +ℤ pos 1) due)
    next_due-Accepted due h = elim (payloads (response 0) due).3 [
      | inl last ↦ absurd (omega arith)
      | inr valid ↦ valid
    ]

    scheduled :
        n < 5
        → next_due_ms st.arrival_ms (st.next_attempt_index +ℤ pos 1)
          ≡ ok (st.arrival_ms +ℤ pos (offset (n + 1)))
    scheduled h =
        let e : st.next_attempt_index +ℤ pos 1 ≡ pos (n + 1) = rw index (omega int_laws) in
        rw e (next_due_ms_lem st.arrival_ms (n + 1) (omega arith))

    reschedule-Total : (now2 : ℤ) → n < 5 → Total (reschedule world st now2)
    unfolding reschedule
    reschedule-Total now2 h =
        let due = st.arrival_ms +ℤ pos (offset (n + 1)) in
        Total-lift (next_due_ms st.arrival_ms (st.next_attempt_index +ℤ pos 1)) _ due (scheduled h)
          (Total-bind _ _ (journal-Total st next_due now2 _ (next_due-Accepted due h))
            (λ u. search total_rules))

    below_five : ltb_ℤ st.next_attempt_index (pos 5) ≡ true → n < 5
    below_five h = ground arith

    retry-Total :
        (now2 : ℤ)
        → Total (
            if ltb_ℤ st.next_attempt_index (pos 5)
            then reschedule world st now2
            else finish_failed world st now2)
    retry-Total now2 =
        Total-if (ltb_ℤ st.next_attempt_index (pos 5)) (reschedule world st now2)
          (finish_failed world st now2) (λ less. reschedule-Total now2 (below_five less))
          (λ more. finish_failed-Total now2)

    settle-Total : (answer : SmsAnswer) → Total (settle world st (post_send answer))
    unfolding settle
    settle-Total answer = Total-bind _ _ now_ms-Total (λ now2.
        Total-bind _ _
          (Total-zoom (λ rt. rt.journal) (λ j rt. record rt { journal = j }) _
            (log_record-Total st send_result now2 _ (payloads answer (pos 0)).1))
          (λ u.
            Total-if (post_send answer).ok _ _ (λ e. finish_success-Total now2)
              (λ e. retry-Total now2)))

    announce-Total : Total (announce world st)
    unfolding announce
    announce-Total =
        Total-bind _ _ now_ms-Total
          (λ now. journal-Total st send_attempted now _ (payloads (response 0) (pos 0)).0)

    -- An attempt with an index of 0 to 5 returns, whatever the provider answers.
    pub send_locked-returns : (rt : Runtime) → (b : Bool) × ((send_locked world st rt).0 ≡ ok b)
    unfolding send_locked call_sms
    send_locked-returns rt =
        let (_, e) = announce-Total.result rt in
        let rt1 = (announce world st rt).1 in
        let q = sms_request st in
        let (b, f) =
          (settle-Total (world.sms_answer (length rt1.sms_calls) q)).result
            (call_sms world q rt1).1 in
        (b, rw e f)
