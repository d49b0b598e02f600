-- ===== src/Archive/Worker/Lifecycle.antt =====
-- worker/lifecycle_transitions.py, mock_sms_client.py and message_dispatch.py: what becomes of a due message.
use nitzan_shinnies_inspecti.Prelude.{
  ℕ, String, Bool, false, Option, none, some, [], ◌∷◌, ◌++◌, if◌then◌else◌, length,
}
use nitzan_shinnies_inspecti.Prelude.Int.{ℤ, pos, ◌+ℤ◌, ℤ-eq}
use nitzan_shinnies_inspecti.Prelude.Eq.{◌==◌, ℕ-eq, String-eq, pair_eq}
use nitzan_shinnies_inspecti.Prelude.Dict.{get, put}
use nitzan_shinnies_inspecti.Prelude.Result.{Result, ok, err, value_error, key_error, type_error}
use nitzan_shinnies_inspecti.Prelude.Exec.{Exec, pure, raise, lift, modify, ◌>>=◌, ◌>>◌}
use nitzan_shinnies_inspecti.Prelude.Decimal.{Codes}
use nitzan_shinnies_inspecti.Json.{Json, Fields, end, bool, int, str, obj, get_field, set_field}
use nitzan_shinnies_inspecti.Archive.Rules.{
  attempt_count_is_terminal, next_due_at_ms_after_failure, shard_id_for_message, is_successful_send,
  terminal_success_key, terminal_failed_key,
}
use nitzan_shinnies_inspecti.Archive.DueWorkQueue.{DueWorkQueue, schedule_locked}
use nitzan_shinnies_inspecti.Archive.Store.{delete_pending_best_effort}
use nitzan_shinnies_inspecti.Archive.Worker.{
  World, Core, Send, Found, in_port, caught, drop_mid, int_of, now_ms, publish, find_existing,
}
use nitzan_shinnies_inspecti.Archive.Store

abbrev brief_reason_terminal_after_six_failures : String
brief_reason_terminal_after_six_failures = "discarded after six failed send attempts"

-- a value, or 0 for a TypeError or a ValueError
abbrev or_zero : Result ℤ → Result ℤ
or_zero (ok n) = ok n
or_zero (err type_error) = ok (pos 0)
or_zero (err value_error) = ok (pos 0)
or_zero (err e) = err e

abbrev reason_of : String → Option Json → Option String
reason_of outcome (some (str s)) = if outcome == "failed" then some s else none
reason_of outcome _ = none

abbrev pub required : Option Json → Result Json
required none = err key_error
required (some v) = ok v

abbrev pub payload_of : Option Json → Fields
payload_of (some (obj pl)) = pl
payload_of _ = end

abbrev pub text_or_empty : Option Json → Option String
text_or_empty none = some ""
text_or_empty (some (str s)) = some s
text_or_empty (some v) = none

-- v is True
abbrev is_true : Option Json → Bool
is_true (some (bool b)) = b
is_true _ = false

-- What a send needs of a payload.
abbrev pub both_texts : Option String → Option String → Option (String × String)
both_texts (some to) (some body) = some (to, body)
both_texts _ _ = none

module _ (w : World) where
  abbrev pub shard_of : String → Exec Core ℕ
  shard_of mid = lift (shard_id_for_message w.digest mid w.total_shards)

  abbrev pub delete_pending : String → Exec Core Unit
  delete_pending key = in_port (delete_pending_best_effort w.client key)

  abbrev pub put_json : String → Fields → Exec Core Unit
  put_json key d = in_port (Store.put_object w.client key (w.dumps d))

  -- int(body.get(key, default))
  abbrev int_or : Option Json → ℤ → Result ℤ
  int_or none default_ = ok default_
  int_or (some v) default_ = int_of w v

  -- int(rec["attemptCount"])
  abbrev pub count_of : Fields → Exec Core ℤ
  count_of rec = lift (required (get_field rec "attemptCount")) >>= (λ v. lift (int_of w v))

  unfoldable pub reconcile_from_terminal : String → String → Found → Exec Core Unit
  reconcile_from_terminal mid pending_key (outcome, (terminal_key, body)) = do
    shard_id ← shard_of mid
    now ← now_ms w
    recorded_at ← lift (int_or (get_field body "recordedAt") now)
    delete_pending pending_key
    ac_pub ← lift (or_zero (int_or (get_field body "attemptCount") (pos 0)))
    publish w mid outcome recorded_at shard_id ac_pub (reason_of outcome (get_field body "reason"))
        terminal_key
    drop_mid mid

  abbrev pub ended_as : String → ℤ → Fields → Fields
  ended_as status recorded_at rec =
      set_field (set_field rec "recordedAt" (int recorded_at)) "status" (str status)

  -- The sixth failure.
  unfoldable pub fail_for_good : String → Fields → String → ℤ → ℕ → Exec Core Unit
  fail_for_good mid rec pending_key new_ac shard_id = do
    recorded_at ← now_ms w
    let terminal_key = terminal_failed_key w.utc mid recorded_at
    put_json terminal_key
        (ended_as "failed" recorded_at (set_field rec "attemptCount" (int new_ac)))
    delete_pending pending_key
    publish w mid "failed" recorded_at shard_id new_ac
        (some brief_reason_terminal_after_six_failures) terminal_key
    drop_mid mid

  abbrev pub track_again : String → Fields → ℤ → DueWorkQueue → DueWorkQueue
  track_again mid updated nd q = elim (get q.records mid) [
    | none ↦ q
    | some old ↦ schedule_locked mid nd (record q { records = put q.records mid updated })
  ]

  -- A failure before the sixth; a missing delay is logged.
  unfoldable pub retry_later : String → Fields → String → ℤ → Option ℤ → Exec Core Unit
  retry_later mid rec pending_key new_ac none = pure tt
  retry_later mid rec pending_key new_ac (some nd) =
      let updated = set_field (set_field rec "attemptCount" (int new_ac)) "nextDueAt" (int nd) in
      put_json pending_key updated
      >> modify (λ c. record c { queue = track_again mid updated nd c.queue })

  unfoldable pub fail_once : String → Fields → String → ℤ → Exec Core Unit
  fail_once mid rec pending_key now = do
    ac ← count_of rec
    shard_id ← shard_of mid
    if attempt_count_is_terminal (ac +ℤ pos 1)
        then fail_for_good mid rec pending_key (ac +ℤ pos 1) shard_id
        else (lift (next_due_at_ms_after_failure now ac)
            >>= retry_later mid rec pending_key (ac +ℤ pos 1))

  unfoldable pub transition_failure : String → Fields → String → Exec Core Unit
  transition_failure mid rec pending_key = do
    now ← now_ms w
    probe ← find_existing w mid now
    elim probe [
      | some f ↦ reconcile_from_terminal mid pending_key f
      | none ↦ fail_once mid rec pending_key now
    ]

  -- No terminal record exists.
  unfoldable pub succeed : String → Fields → String → ℤ → Exec Core Unit
  succeed mid rec pending_key recorded_at = do
    shard_id ← shard_of mid
    let terminal_key = terminal_success_key w.utc mid recorded_at
    put_json terminal_key (ended_as "success" recorded_at rec)
    delete_pending pending_key
    ac ← count_of rec
    publish w mid "success" recorded_at shard_id ac none terminal_key
    drop_mid mid

  -- A success, or a failed terminal, is there already.
  unfoldable pub succeed_again : String → String → Found → Exec Core Unit
  succeed_again mid pending_key (outcome, rest) =
      if outcome == "success"
      then reconcile_from_terminal mid pending_key (outcome, rest)
      else (delete_pending pending_key >> drop_mid mid)

  unfoldable pub transition_success : String → Fields → String → Exec Core Unit
  transition_success mid rec pending_key = do
    recorded_at ← now_ms w
    probe ← find_existing w mid recorded_at
    elim probe [
      | some f ↦ succeed_again mid pending_key f
      | none ↦ succeed mid rec pending_key recorded_at
    ]

  unfoldable pub post_mock_send : Send → Exec Core ℕ
  post_mock_send s c = (w.sms (length c.sends) s, record c { sends = c.sends ++ s ∷ [] })

  unfoldable pub send_and_settle : String → Fields → String → String × String → Exec Core Unit
  send_and_settle mid rec pending_key (to, body) = do
    ac ← count_of rec
    status ← post_mock_send (record {
      attempt_index = ac;
      body = body;
      message_id = mid;
      to = to;
      should_fail = is_true (get_field (payload_of (get_field rec "payload")) "shouldFail");
    })
    if is_successful_send status
        then transition_success mid rec pending_key
        else transition_failure mid rec pending_key

  -- No terminal record exists: the message is sent, or removed if its payload is invalid.
  unfoldable pub dispatch : String → Fields → String → Exec Core Unit
  dispatch mid rec pending_key =
      let payload = payload_of (get_field rec "payload") in
      elim (both_texts (text_or_empty (get_field payload "to"))
        (text_or_empty (get_field payload "body"))) [
          | none ↦ delete_pending pending_key >> drop_mid mid
          | some texts ↦ send_and_settle mid rec pending_key texts
        ]

  abbrev pub handle_present : String → Fields → String → Exec Core Unit
  handle_present mid rec pending_key = do
    now ← now_ms w
    existing ← find_existing w mid now
    elim existing [
      | some f ↦ reconcile_from_terminal mid pending_key f
      | none ↦ dispatch mid rec pending_key
    ]

  -- What the read of the pending object says.
  abbrev pub after_read : String → Fields → String → Result Codes → Exec Core Unit
  after_read mid rec pending_key (ok raw) = handle_present mid rec pending_key
  after_read mid rec pending_key (err key_error) = drop_mid mid
  after_read mid rec pending_key (err e) = raise e

  unfoldable pub handle_one_core : String → Fields → String → Exec Core Unit
  handle_one_core mid rec pending_key =
      caught (in_port (Store.get_object w.client pending_key)) >>= after_read mid rec pending_key
