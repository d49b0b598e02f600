-- ===== src/Worker/Runtime/Dispatch.antt =====
-- `async_send` and `wakeup_due`: which attempts are made, and what they come to.
use nitzan_shinnies_inspecti.Prelude.{
  ℕ, ◌≤◌, ◌≡◌, refl, ◌⊎◌, inl, inr, Bool, true, false, some, [], ◌∷◌, ◌++◌, arith, Option-cases,
  length,
}
use nitzan_shinnies_inspecti.Prelude.Int.{ℤ, pos, ◌≤ℤ◌, ◌<ℤ◌, ℤ-eq}
use nitzan_shinnies_inspecti.Prelude.Eq.{ℕ-eq, String-eq, pair_eq}
use nitzan_shinnies_inspecti.Prelude.Dict.{get, put}
use nitzan_shinnies_inspecti.Prelude.Result.{Result-cases, Error, Result, ok, err}
use nitzan_shinnies_inspecti.Models.{Message, RetryStatus, pending, success, failed}
use nitzan_shinnies_inspecti.Journal.Writer.{read_clock}
use nitzan_shinnies_inspecti.Worker.Sms.{SendOutcome, post_send}
use nitzan_shinnies_inspecti.Worker.Runtime.{
  MessageState, Runtime, World, now_ms, call_sms, sms_request, announce, send_locked, send_if_due,
  send_pending, is_pending, send_found, async_send,
}
use nitzan_shinnies_inspecti.Worker.Runtime.Attempt.{
  after_attempt, notices_after, settle-effect, answered_at, announce-sms_calls, announce-states,
}

is_pending-eq : (s : RetryStatus) → is_pending s ≡ true → s ≡ pending
is_pending-eq pending h = refl
is_pending-eq success h = cc
is_pending-eq failed h = cc

module _ (world : World) where
  -- the first reading of the clock by a call
  abbrev pub read_at : Runtime → ℤ
  read_at rt = pos (world.env.clock_ms rt.journal.clock_reads)

  abbrev pub after_clock : Runtime → Runtime
  after_clock rt = record rt { journal = (read_clock world.env rt.journal).1 }

  -- A message that has ended, that is not known, or whose next attempt is not due yet, is not sent: the
  -- call returns False, asks no provider, and changes no state and no notice.
  pub async_send-idle :
      (m : Message) (rt : Runtime)
      → ((st : MessageState)
          → get rt.states m.message_id ≡ some st
          → st.status ≡ pending
          → read_at rt <ℤ st.next_due_at_ms)
      → ((async_send world m rt).0 ≡ ok false)
        × ((async_send world m rt).1.states ≡ rt.states)
        × ((async_send world m rt).1.sms_calls ≡ rt.sms_calls)
        × ((async_send world m rt).1.notices ≡ rt.notices)
  unfolding async_send send_found send_pending send_if_due now_ms read_clock
  async_send-idle m rt h = elim (Option-cases (get rt.states m.message_id)) [
    | inl absent ↦ ground arith
    | inr (st, e) ↦ ground (arith, h st e, is_pending-eq st.status)
  ]

  -- The answer of the provider to the next request.
  abbrev pub outcome : MessageState → Runtime → SendOutcome
  outcome st rt = post_send (world.sms_answer (length rt.sms_calls) (sms_request st))

  -- What an attempt that is made comes to.
  abbrev pub AttemptEffect : MessageState → ℕ → Runtime → Result Bool × Runtime → Type 0
  AttemptEffect st n rt (r, rt') =
      (((e : Error) × (r ≡ err e))
        × (rt'.states ≡ rt.states)
        × (rt'.notices ≡ rt.notices)
        × ((rt'.sms_calls ≡ rt.sms_calls) ⊎ (rt'.sms_calls ≡ rt.sms_calls ++ sms_request st ∷ [])))
      ⊎ ((r ≡ ok (outcome st rt).ok)
          × (rt'.sms_calls ≡ rt.sms_calls ++ sms_request st ∷ [])
          × (rt'.states ≡ put rt.states st.message_id (after_attempt st n (outcome st rt)))
          × ((t : ℤ) × (rt'.notices ≡ rt.notices ++ notices_after st n (outcome st rt) t)))

  send_locked-effect :
      (st : MessageState) (n : ℕ) (rt : Runtime)
      → st.next_attempt_index ≡ pos n
      → n ≤ 5
      → AttemptEffect st n rt (send_locked world st rt)
  unfolding send_locked call_sms
  send_locked-effect st n rt index bounded =
      let quiet = announce-states world st rt in
      let silent = announce-sms_calls world st rt in
      let called = (call_sms world (sms_request st) (announce world st rt).1).1 in
      let (calls, ends) = settle-effect world st n (outcome st rt) called index bounded in
      elim (Result-cases (announce world st rt).0) [
        | inr (bad, e) ↦ inl ((bad, ground arith), ground arith, ground arith, inl (ground arith))
        | inl (done, e) ↦ elim ends [
          | inl (r, states, notices) ↦
              inr
                (ground arith, ground arith, ground arith, (answered_at world called, ground arith))
          | inr ((bad, r), states, notices) ↦
              inl ((bad, ground arith), ground arith, ground arith, inr (ground arith))
        ]
      ]

  pub async_send-due :
      (m : Message) (st : MessageState) (rt : Runtime)
      → get rt.states m.message_id ≡ some st
      → st.status ≡ pending
      → st.next_due_at_ms ≤ℤ read_at rt
      → async_send world m rt ≡ send_locked world st (after_clock rt)
  unfolding async_send send_found send_pending send_if_due now_ms read_clock
  async_send-due m st rt found pending_now due = ground arith

  -- A message that is pending and due is attempted. Either the journal raises an error: then no state
  -- and no notice changes, and the provider was asked at most once. Or the provider is asked once, for the
  -- attempt that is next, and the state, the notice and the returned value are those of its answer:
  -- success; or the next attempt, due by the schedule; or failure after the sixth attempt.
  pub async_send-attempt :
      (m : Message) (st : MessageState) (n : ℕ) (rt : Runtime)
      → get rt.states m.message_id ≡ some st
      → st.status ≡ pending
      → st.next_due_at_ms ≤ℤ read_at rt
      → st.next_attempt_index ≡ pos n
      → n ≤ 5
      → AttemptEffect st n (after_clock rt) (async_send world m rt)
  async_send-attempt m st n rt found pending_now due index bounded =
      rw (async_send-due m st rt found pending_now due)
        (send_locked-effect st n (after_clock rt) index bounded)
