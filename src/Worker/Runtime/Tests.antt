-- ===== src/Worker/Runtime/Tests.antt =====
-- A runtime with one message that is due.
use nitzan_shinnies_inspecti.Prelude.{
  length, ◌≤◌, ◌+◌, ℕ, String, ◌≡◌, refl, subst, ◌⊎◌, inl, inr, false, some, [], ◌∷◌, ◌++◌, arith,
  Bool-cases, some_inj,
}
use nitzan_shinnies_inspecti.Prelude.Int.{◌≤ℤ◌, int_laws, pos, ◌+ℤ◌, ◌<ℤ◌, ℤ-eq}
use nitzan_shinnies_inspecti.Journal.S3.{stored}
use nitzan_shinnies_inspecti.Journal.Writer.Healthy.{IsHealthy}
use nitzan_shinnies_inspecti.Worker.Runtime.Termination.{HasEnded, sends, sends-HasEnded}
use nitzan_shinnies_inspecti.Prelude.Eq.{◌==◌, ℕ-eq, String-eq, pair_eq}
use nitzan_shinnies_inspecti.Prelude.Dict.{get}
use nitzan_shinnies_inspecti.Prelude.Result.{Error, ok, err}
use nitzan_shinnies_inspecti.Prelude.Exec.{◌>>=◌}
use nitzan_shinnies_inspecti.Models.{Message, pending, success}
use nitzan_shinnies_inspecti.Journal.Samples.{env, writer}
use nitzan_shinnies_inspecti.Journal.Writer.Conserve.{written, stored_lines}
use nitzan_shinnies_inspecti.Journal.Records.{send_attempted, send_result, next_due, terminal}
use nitzan_shinnies_inspecti.Domain.Schedule.{next_due_ms}
use nitzan_shinnies_inspecti.Worker.Sms.{response, post_send}
use nitzan_shinnies_inspecti.Worker.Runtime.{
  MessageState, Runtime, World, async_send, tick, send_locked, settle, call_sms, sms_request,
  announce, attempted_payload, result_payload, success_payload, next_due_payload, failed_payload,
}
use nitzan_shinnies_inspecti.Worker.Runtime.Payloads.{Accepted, attempt_payloads-Accepted}
use nitzan_shinnies_inspecti.Worker.Runtime.Invariant.{IsValid, IsOnSchedule, tick-IsValid}
use nitzan_shinnies_inspecti.Worker.Runtime.Attempt.{attempt_record, send_locked-write_ahead}
use nitzan_shinnies_inspecti.Worker.Runtime.Dispatch.{
  AttemptEffect, after_clock, async_send-idle, async_send-attempt, read_at,
}

abbrev world : World
world = record { env = env; sms_answer = λ n q. response 500 }

abbrev due_state : MessageState
due_state = record {
  message_id = "a";
  shard_id = pos 3;
  to = "+1";
  body = "hi";
  arrival_ms = pos 100;
  next_attempt_index = pos 1;
  next_due_at_ms = pos 600;
  status = pending;
}

abbrev rt : Runtime
rt = record {
  states = ("a", due_state) ∷ ("b", record due_state { message_id = "b"; status = success }) ∷ [];
  journal = writer;
  sms_calls = [];
  notices = [];
}

abbrev to_a : Message
to_a = record { message_id = "a"; to = "+1"; body = "hi" }

abbrev to_b : Message
to_b = record { message_id = "b"; to = "+1"; body = "hi" }

a_is_found : get rt.states "a" ≡ some due_state
unfolding get
a_is_found = refl

async_send-attempt_example :
    AttemptEffect world due_state 1 (after_clock world rt) (async_send world to_a rt)
async_send-attempt_example =
    async_send-attempt world to_a due_state 1 rt a_is_found refl (omega arith) refl (omega arith)

b_has_ended :
    (st : MessageState)
    → get rt.states "b" ≡ some st
    → st.status ≡ pending
    → read_at world rt <ℤ st.next_due_at_ms
unfolding get
b_has_ended st e p = absurd (cc)

async_send-idle_example :
    ((async_send world to_b rt).0 ≡ ok false)
    × ((async_send world to_b rt).1.states ≡ rt.states)
    × ((async_send world to_b rt).1.sms_calls ≡ rt.sms_calls)
    × ((async_send world to_b rt).1.notices ≡ rt.notices)
async_send-idle_example = async_send-idle world to_b rt b_has_ended

send_locked-write_ahead_example :
    (((e : Error) × ((send_locked world due_state rt).0 ≡ err e))
      × ((send_locked world due_state rt).1.sms_calls ≡ rt.sms_calls))
    ⊎ ((send_locked world due_state rt
          ≡ (call_sms world (sms_request due_state) >>= settle world due_state)
              (announce world due_state rt).1)
        × (stored_lines (pos 3) (announce world due_state rt).1.journal.segments
            ≡ written rt.journal (pos 3)
              ++ world.env.dumps (attempt_record world due_state rt) ∷ []))
send_locked-write_ahead_example = send_locked-write_ahead world due_state rt

attempt_payloads-Accepted_example :
    Accepted send_attempted (attempted_payload (pos 4))
    × Accepted send_result (result_payload (pos 4) (post_send (response 500)))
    × Accepted terminal (success_payload (pos 4 +ℤ pos 1))
    × (◌≡◌ {A = ℕ} 4 5 ⊎ Accepted next_due (next_due_payload (pos 4 +ℤ pos 1) (pos 7)))
    × Accepted terminal failed_payload
attempt_payloads-Accepted_example = attempt_payloads-Accepted 4 (response 500) (pos 7) (omega arith)

on_schedule : next_due_ms (pos 100) (pos 1) ≡ ok (pos 600)
unfolding next_due_ms ◌+ℤ◌
on_schedule = refl

abbrev alone : Runtime
alone = record rt { states = ("a", due_state) ∷ [] }

only_a :
    (mid : String) (st : MessageState)
    → get alone.states mid ≡ some st
    → (st.message_id ≡ mid) × IsOnSchedule st
unfolding get
only_a mid st e = elim (Bool-cases ("a" == mid)) [
  | inl same ↦
      subst (λ x. (x.message_id ≡ mid) × IsOnSchedule x) {x = due_state} {y = st}
        (some_inj (ground arith))
        (
          (String-eq.beq_iff "a" mid).0 same,
          record { attempts = 1; index = refl; bounded = omega arith; due = on_schedule },
        )
  | inr other ↦ absurd (ground arith)
]

alone-IsValid : IsValid alone
alone-IsValid = record { at_key = only_a }

tick-IsValid_example : IsValid (tick world alone)
tick-IsValid_example = tick-IsValid world alone alone-IsValid

abbrev late_world : World
late_world = record world {
  env = record env { put_answer = λ n. stored; clock_ms = λ n. 20000 + n };
}

late_world-IsHealthy : IsHealthy late_world.env
unfolding nitzan_shinnies_inspecti.Prelude.Text.strip nitzan_shinnies_inspecti.Prelude.Text.is_space
late_world-IsHealthy = record { bucket = refl; stores = λ n. refl }

late : (j : ℕ) → (pos 100 +ℤ pos 16000) ≤ℤ pos (20000 + j)
late j = omega int_laws

sends-HasEnded_example :
    HasEnded to_a (sends late_world 5 to_a rt) × (length (sends late_world 5 to_a rt).sms_calls ≤ 5)
sends-HasEnded_example =
    sends-HasEnded late_world late_world-IsHealthy 5 to_a due_state 1 rt a_is_found refl refl refl
      refl (omega arith) on_schedule late
