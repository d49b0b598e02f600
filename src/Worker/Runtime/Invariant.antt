-- ===== src/Worker/Runtime/Invariant.antt =====
-- The states of the runtime stay on the retry schedule.
use nitzan_shinnies_inspecti.Prelude.{
  [], ◌∷◌, List, some_inj, ℕ, zero, suc, ◌≤◌, String, ◌≡◌, sym, ◌∙◌, subst, inl, inr, some, arith,
  Bool-cases, Option-cases,
}
use nitzan_shinnies_inspecti.Prelude.Result.{err, Result, ok}
use nitzan_shinnies_inspecti.Prelude.Int.{ℤ, pos, ◌+ℤ◌, ◌≤ℤ◌, ℤ-eq, int_laws}
use nitzan_shinnies_inspecti.Prelude.Eq.{◌==◌, ℕ-eq, String-eq, pair_eq}
use nitzan_shinnies_inspecti.Prelude.Dict.{get, put, get-put}
use nitzan_shinnies_inspecti.Prelude.Exec.{Exec, Keeps, Keeps-bind, Keeps-bind_lift, keeps_rules}
use nitzan_shinnies_inspecti.Models.{Message, RetryStatus}
use nitzan_shinnies_inspecti.Domain.Schedule.{next_due_ms, next_due_ms-eq-ok}
use nitzan_shinnies_inspecti.Journal.Writer.{Writer}
use nitzan_shinnies_inspecti.Worker.Sms.{SmsRequest, SendOutcome}
use nitzan_shinnies_inspecti.Worker.Runtime.{
  spawn, run_tasks, wakeup_due, tick, MessageState, TerminalNotice, Runtime, World, in_journal,
  put_state, now_ms, call_sms, post_terminal, finish_success, reschedule, finish_failed, settle,
  announce, send_locked, send_if_due, send_pending, send_found, async_send,
}

-- The due time of an attempt: the first is due from the arrival or before, and the nth follows the
-- schedule.
abbrev pub IsScheduled : ℤ → ℕ → ℤ → Type 0
IsScheduled arrival zero due = due ≤ℤ arrival
IsScheduled arrival (suc n) due = next_due_ms arrival (pos (suc n)) ≡ ok due

-- A message has at most five completed attempts behind it, and its next one is on the schedule.
pub record IsOnSchedule (st : MessageState) : Type 0 where
  pub attempts : ℕ
  pub index : st.next_attempt_index ≡ pos attempts
  pub bounded : attempts ≤ 5
  pub due : IsScheduled st.arrival_ms attempts st.next_due_at_ms

pub record IsValid (rt : Runtime) : Type 0 where
  pub at_key :
      (mid : String) (st : MessageState)
      → get rt.states mid ≡ some st
      → (st.message_id ≡ mid) × IsOnSchedule st

in_journal-IsValid : {A : Type 0} (m : Exec Writer A) → Keeps IsValid (in_journal m)
in_journal-IsValid m = record { at = λ rt h. record { at_key = h.at_key } }

pub put_state-IsValid : (st : MessageState) → IsOnSchedule st → Keeps IsValid (put_state st)
put_state-IsValid st v = record {
  at = λ rt h. record {
    at_key = λ mid x e. elim (Bool-cases (st.message_id == mid)) [
      | inl same ↦
          let q : get (put rt.states st.message_id st) mid ≡ some st = rw (get-put, same) in
          subst (λ y. (y.message_id ≡ mid) × IsOnSchedule y) (some_inj (sym q ∙ e))
            ((String-eq.beq_iff st.message_id mid).0 same, v)
      | inr other ↦ h.at_key mid x (ground (arith, get-put rt.states st.message_id mid st))
    ];
  };
}

module _ (world : World) where
  pub now_ms-IsValid : Keeps IsValid (now_ms world)
  unfolding now_ms
  now_ms-IsValid = in_journal-IsValid _

  call_sms-IsValid : (q : SmsRequest) → Keeps IsValid (call_sms world q)
  unfolding call_sms
  call_sms-IsValid q = record { at = λ rt h. record { at_key = h.at_key } }

  post_terminal-IsValid : (n : TerminalNotice) → Keeps IsValid (post_terminal world n)
  unfolding post_terminal
  post_terminal-IsValid n = record { at = λ rt h. record { at_key = h.at_key } }

  ruleset valid_rules = (
    keeps_rules, in_journal-IsValid, put_state-IsValid, now_ms-IsValid, call_sms-IsValid,
    post_terminal-IsValid,
  )

  module _ (st : MessageState) (v : IsOnSchedule st) where
    with_status : (s : RetryStatus) → IsOnSchedule (record st { status = s })
    with_status s = record {
      attempts = v.attempts;
      index = v.index;
      bounded = v.bounded;
      due = v.due;
    }

    finish_success-IsValid : (now2 : ℤ) → Keeps IsValid (finish_success world st now2)
    unfolding finish_success
    finish_success-IsValid now2 = search (valid_rules, with_status)

    finish_failed-IsValid : (now2 : ℤ) → Keeps IsValid (finish_failed world st now2)
    unfolding finish_failed
    finish_failed-IsValid now2 = search (valid_rules, with_status)

    rescheduled :
        (due : ℤ)
        → next_due_ms st.arrival_ms (st.next_attempt_index +ℤ pos 1) ≡ ok due
        → IsOnSchedule (record st {
          next_attempt_index = st.next_attempt_index +ℤ pos 1;
          next_due_at_ms = due;
        })
    rescheduled due e =
        let i : st.next_attempt_index +ℤ pos 1 ≡ pos (suc v.attempts) =
          rw v.index (omega int_laws) in
        let e' : next_due_ms st.arrival_ms (pos (suc v.attempts)) ≡ ok due = rw i at e in
        record {
          attempts = suc v.attempts;
          index = i;
          bounded = (next_due_ms-eq-ok st.arrival_ms (suc v.attempts) due e').0;
          due = e';
        }

    reschedule-IsValid : (now2 : ℤ) → Keeps IsValid (reschedule world st now2)
    unfolding reschedule
    reschedule-IsValid now2 =
        Keeps-bind_lift (next_due_ms st.arrival_ms (st.next_attempt_index +ℤ pos 1)) _
          (λ due e. search (valid_rules, rescheduled due e))

    settle-IsValid : (o : SendOutcome) → Keeps IsValid (settle world st o)
    unfolding settle
    settle-IsValid o =
        search (valid_rules, finish_success-IsValid, finish_failed-IsValid, reschedule-IsValid)
          depth 8

    announce-IsValid : Keeps IsValid (announce world st)
    unfolding announce
    announce-IsValid = search valid_rules

    send_locked-IsValid : Keeps IsValid (send_locked world st)
    unfolding send_locked
    send_locked-IsValid = search (valid_rules, announce-IsValid, settle-IsValid)

  send_pending-IsValid :
      (st : MessageState) → IsOnSchedule st → Keeps IsValid (send_pending world st)
  unfolding send_pending
  send_pending-IsValid st v =
      Keeps-bind (now_ms world) (send_if_due world st) now_ms-IsValid
        (λ now. unfold send_if_due in search (valid_rules, send_locked-IsValid st v))

  send_found-IsValid :
      (st : MessageState) → IsOnSchedule st → Keeps IsValid (send_found world (some st))
  unfolding send_found
  send_found-IsValid st v = search (valid_rules, send_pending-IsValid st v)

  -- A send attempt keeps every message on the schedule, whether it returns or raises.
  pub async_send-IsValid : (m : Message) → Keeps IsValid (async_send world m)
  unfolding async_send send_found
  async_send-IsValid m = record {
    at = λ rt h. elim (Option-cases (get rt.states m.message_id)) [
      | inl absent ↦ rw (absent, send_found) h
      | inr (st, e) ↦ rw e ((send_found-IsValid st (h.at_key m.message_id st e).1).at rt h)
    ];
  }

  run_tasks-IsValid :
      (ms : List Message) (rt : Runtime) → IsValid rt → IsValid (run_tasks world ms rt)
  unfolding run_tasks
  run_tasks-IsValid [] rt h = h
  run_tasks-IsValid (m ∷ ms) rt h =
      run_tasks-IsValid ms (async_send world m rt).1 ((async_send-IsValid m).at rt h)

  spawn-IsValid :
      (r : Result (List Message)) (rt : Runtime) → IsValid rt → IsValid (spawn world r rt)
  spawn-IsValid (ok ms) rt h = run_tasks-IsValid ms rt h
  spawn-IsValid (err e) rt h = h

  wakeup_due-IsValid : Keeps IsValid (wakeup_due world)
  unfolding wakeup_due
  wakeup_due-IsValid = search valid_rules

  -- A tick of the scheduler keeps every message on the schedule, whatever the journal, the provider and
  -- the clock answer: at most five attempts are behind a message, and its next attempt is due at the time
  -- that the schedule gives for their number.
  pub tick-IsValid : (rt : Runtime) → IsValid rt → IsValid (tick world rt)
  unfolding tick
  tick-IsValid rt h =
      spawn-IsValid (wakeup_due world rt).0 (wakeup_due world rt).1 (wakeup_due-IsValid.at rt h)
