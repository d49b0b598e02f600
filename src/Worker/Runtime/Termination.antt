-- ===== src/Worker/Runtime/Termination.antt =====
-- The retries of a message come to an end.
use nitzan_shinnies_inspecti.Prelude.{
  some_inj, ℕ, zero, suc, ◌+◌, ◌≤◌, ◌<◌, ◌≡◌, refl, sym, ap, ◌∙◌, subst, ◌⊎◌, inl, inr, some, List,
  [], ◌∷◌, ◌++◌, arith, length, length-append,
}
use nitzan_shinnies_inspecti.Prelude.Int.{ℤ, pos, ◌+ℤ◌, ◌≤ℤ◌, ℤ-eq, int_laws}
use nitzan_shinnies_inspecti.Prelude.Eq.{ℕ-eq, String-eq, pair_eq, beq_refl}
use nitzan_shinnies_inspecti.Prelude.Dict.{get, put, get-put}
use nitzan_shinnies_inspecti.Prelude.Result.{Error, ok, err}
use nitzan_shinnies_inspecti.Models.{Message, pending, success, failed}
use nitzan_shinnies_inspecti.Domain.Schedule.{
  next_due_ms_lem, offset, offset_bounds, next_due_ms-eq-ok,
}
use nitzan_shinnies_inspecti.Journal.Writer.Healthy.{IsHealthy}
use nitzan_shinnies_inspecti.Worker.Sms.{SendOutcome}
use nitzan_shinnies_inspecti.Worker.Runtime.{MessageState, Runtime, World, sms_request, async_send}
use nitzan_shinnies_inspecti.Worker.Runtime.Returns.{send_locked-returns}
use nitzan_shinnies_inspecti.Worker.Runtime.Attempt.{after_attempt}
use nitzan_shinnies_inspecti.Worker.Runtime.Dispatch.{
  async_send-due, read_at, after_clock, outcome, async_send-attempt, async_send-idle,
}
use nitzan_shinnies_inspecti.Worker.Runtime.Invariant.{IsScheduled}

err_not_ok : {A : Type 0} {e : Error} {a : A} → err e ≡ ok a → ⊥
err_not_ok h = cc

not_pending :
    (st x : MessageState)
    → (st.status ≡ success) ⊎ (st.status ≡ failed)
    → st ≡ x
    → x.status ≡ pending
    → ⊥
not_pending st x (inl e) same p = cc
not_pending st x (inr e) same p = cc

abbrev pub HasEnded : Message → Runtime → Type 0
HasEnded m rt =
    (st : MessageState) × (get rt.states m.message_id ≡ some st)
    × ((st.status ≡ success) ⊎ (st.status ≡ failed))

module _ (world : World) where
  -- k sends of a message, one after the other
  unfoldable pub sends : ℕ → Message → Runtime → Runtime
  sends zero m rt = rt
  sends (suc k) m rt = sends k m (async_send world m rt).1

  -- The clock is past the end of the schedule of a message.
  abbrev pub IsLate : MessageState → Type 0
  IsLate st = (j : ℕ) → (st.arrival_ms +ℤ pos 16000) ≤ℤ pos (world.env.clock_ms j)

module _ (world : World) (healthy : IsHealthy world.env) where
  -- The message was sent: one more request, and the state is that of the answer.
  send-ends :
      (m : Message) (st : MessageState) (n : ℕ) (rt : Runtime)
      → get rt.states m.message_id ≡ some st
      → st.status ≡ pending
      → st.next_due_at_ms ≤ℤ read_at world rt
      → st.next_attempt_index ≡ pos n
      → n ≤ 5
      → ((async_send world m rt).1.sms_calls ≡ rt.sms_calls ++ sms_request st ∷ [])
        × ((async_send world m rt).1.states
            ≡ put rt.states st.message_id
                (after_attempt st n (outcome world st (after_clock world rt))))
  send-ends m st n rt found now_pending due index bounded =
      let (b, returned) =
        send_locked-returns world healthy st n index bounded (after_clock world rt) in
      let e : (async_send world m rt).0 ≡ ok b =
        ap (λ p. p.0) (async_send-due world m st rt found now_pending due) ∙ returned in
      elim (async_send-attempt world m st n rt found now_pending due index bounded) [
        | inl ((c, raised), _, _, _) ↦ absurd (err_not_ok (sym raised ∙ e))
        | inr (r, calls, states, notices) ↦ (calls, states)
      ]

  -- A message that has ended is not sent again.
  sends-idle :
      (k : ℕ) (m : Message) (rt : Runtime)
      → HasEnded m rt
      → HasEnded m (sends world k m rt) × ((sends world k m rt).sms_calls ≡ rt.sms_calls)
  unfolding sends
  sends-idle zero m rt h = (h, refl)
  sends-idle (suc k) m rt (st, found, ended) =
      let (r, states, calls, notices) =
        async_send-idle world m rt
          (λ x e p. absurd (not_pending st x ended (some_inj (sym found ∙ e)) p)) in
      let rt' = (async_send world m rt).1 in
      let (h, same) = sends-idle k m rt' (st, ap (λ d. get d m.message_id) states ∙ found, ended) in
      (h, same ∙ calls)

  due_in_time :
      (arrival : ℤ) (n : ℕ) (due : ℤ) → IsScheduled arrival n due → due ≤ℤ arrival +ℤ pos 16000
  due_in_time arrival zero due h = omega int_laws
  due_in_time arrival (suc n) due h =
      let (_, e) = next_due_ms-eq-ok arrival (suc n) due h in
      rw e (omega (int_laws, offset_bounds (suc n)))

  -- The state of a message after a send of it.
  sent_state :
      (m : Message) (st : MessageState) (n : ℕ) (o : SendOutcome) (rt : Runtime)
      → st.message_id ≡ m.message_id
      → get (put rt.states st.message_id (after_attempt st n o)) m.message_id
        ≡ some (after_attempt st n o)
  sent_state m st n o rt same =
      rw
        (
          get-put rt.states st.message_id m.message_id (after_attempt st n o),
          same,
          beq_refl m.message_id,
        )
        refl

  send_ends_in_time :
      (m : Message) (st : MessageState) (n : ℕ) (rt : Runtime)
      → get rt.states m.message_id ≡ some st
      → st.status ≡ pending
      → st.next_attempt_index ≡ pos n
      → n ≤ 5
      → st.next_due_at_ms ≤ℤ (st.arrival_ms +ℤ pos 16000)
      → IsLate world st
      → ((async_send world m rt).1.sms_calls ≡ rt.sms_calls ++ sms_request st ∷ [])
        × ((async_send world m rt).1.states
            ≡ put rt.states st.message_id
                (after_attempt st n (outcome world st (after_clock world rt))))
  send_ends_in_time m st n rt found p index bounded in_time late =
      send-ends m st n rt found p (omega (int_laws, in_time, late rt.journal.clock_reads)) index
        bounded

  next-IsScheduled :
      (st : MessageState) (n : ℕ)
      → n < 5
      → IsScheduled st.arrival_ms (n + 1) (st.arrival_ms +ℤ pos (offset (n + 1)))
  next-IsScheduled st n more =
      let e : suc n ≡ n + 1 = omega arith in
      subst (λ i. IsScheduled st.arrival_ms i (st.arrival_ms +ℤ pos (offset i))) e
        (next_due_ms_lem st.arrival_ms (suc n) (omega arith))

  -- The last attempt ends the message, and an earlier one ends it or leaves it on the schedule.
  after_attempt-progress :
      (st : MessageState) (n : ℕ) (o : SendOutcome)
      → n ≤ 5
      → st.status ≡ pending
      → (((after_attempt st n o).status ≡ success) ⊎ ((after_attempt st n o).status ≡ failed))
        ⊎ ((n < 5)
            × (after_attempt st n o ≡ record st {
              next_attempt_index = pos (n + 1);
              next_due_at_ms = st.arrival_ms +ℤ pos (offset (n + 1));
            }))
  after_attempt-progress st n o bounded p = ground arith

  length-snoc : {A : Type 0} (xs : List A) (x : A) → length (xs ++ x ∷ []) ≡ length xs + 1
  length-snoc xs x = rw length-append refl

  -- Where the journal stores every object, and the clock is past the end of the schedule of a pending
  -- message, the message ends: as many sends as it has attempts left, out of six, leave it
  -- a success or a failure, whatever the provider answers, and ask the provider at most once each.
  pub sends-HasEnded :
      (k : ℕ) (m : Message) (st : MessageState) (n : ℕ) (rt : Runtime)
      → get rt.states m.message_id ≡ some st
      → st.message_id ≡ m.message_id
      → st.status ≡ pending
      → st.next_attempt_index ≡ pos n
      → n + k ≡ 6
      → n ≤ 5
      → IsScheduled st.arrival_ms n st.next_due_at_ms
      → IsLate world st
      → HasEnded m (sends world k m rt)
        × (length (sends world k m rt).sms_calls ≤ length rt.sms_calls + k)
  unfolding sends
  sends-HasEnded zero m st n rt found same p index left bounded due late = absurd (omega arith)
  sends-HasEnded (suc k) m st n rt found same p index left bounded due late =
      let o = outcome world st (after_clock world rt) in
      let rt' = (async_send world m rt).1 in
      let in_time = due_in_time st.arrival_ms n st.next_due_at_ms due in
      let (calls, states) = send_ends_in_time m st n rt found p index bounded in_time late in
      let found' : get rt'.states m.message_id ≡ some (after_attempt st n o) =
        rw states (sent_state m st n o rt same) in
      let one : length rt'.sms_calls ≡ length rt.sms_calls + 1 = rw calls (length-snoc _ _) in
      elim (after_attempt-progress st n o bounded p) [
        | inl ended ↦
            let (h, idle) = sends-idle k m rt' (after_attempt st n o, found', ended) in
            (h, rw (idle, one) (omega arith))
        | inr (more, next) ↦
            let (h, c) =
              sends-HasEnded k m _ (n + 1) rt' (found' ∙ ap some next) same p refl (omega arith)
                (omega arith) (next-IsScheduled st n more) late in
            (h, omega (arith, c, one))
      ]
