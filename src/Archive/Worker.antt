-- ===== src/Archive/Worker.antt =====
-- The worker of the first version, v1_obsolete/project/src/inspectio_exercise/worker: what it asks of the
-- world, outcome_notifier.py, terminal_scanner.py and terminal_lookup.py. Tasks run one after the other, so
-- the lock of the queue and those of the messages are not modelled, and neither are the pauses.
pub mod Lifecycle
pub mod Tick
pub mod Scan
pub mod Kept
mod Tests
use nitzan_shinnies_inspecti.Prelude.{
  ℕ, zero, suc, ◌+◌, ◌/◌, ◌^◌, String, Bool, true, false, not, ◌&&◌, Option, none, some, List, [],
  ◌∷◌, ◌++◌, eqb, if◌then◌else◌, length,
}
use nitzan_shinnies_inspecti.Prelude.Int.{ℤ, pos, negsuc, pos_part, ◌+ℤ◌, ℤ-eq}
use nitzan_shinnies_inspecti.Prelude.Eq.{ℕ-eq, String-eq, pair_eq}
use nitzan_shinnies_inspecti.Prelude.Result.{
  Result, Error, ok, err, type_error, runtime_error, http_status_error, transport_error,
}
use nitzan_shinnies_inspecti.Prelude.Exec.{Exec, pure, modify, ◌>>=◌, ◌>>◌, zoom}
use nitzan_shinnies_inspecti.Prelude.Text.{join}
use nitzan_shinnies_inspecti.Prelude.Decimal.{Codes}
use nitzan_shinnies_inspecti.Json.{Json, Fields, bool, int, real, str, obj, get_field}
use nitzan_shinnies_inspecti.Archive.Values.{text_is}
use nitzan_shinnies_inspecti.Archive.Keys.{before_suffix}
use nitzan_shinnies_inspecti.Archive.Rules.{UtcSegments}
use nitzan_shinnies_inspecti.Archive.DueWorkQueue.{DueWorkQueue, drop_locked}
use nitzan_shinnies_inspecti.Archive.Store.{Port, Client}
use nitzan_shinnies_inspecti.Archive.Store

-- A POST to the SMS provider.
pub record Send : Type 0 where
  pub attempt_index : ℤ
  pub body : String
  pub message_id : String
  pub to : String
  pub should_fail : Bool

-- The body of a POST to the notification service.
pub record Outcome : Type 0 where
  pub message_id : String
  pub notification_id : String
  pub outcome : String
  pub recorded_at : ℤ
  pub shard_id : ℕ
  pub attempt_count : ℤ
  pub reason : Option String

-- The codec of the objects (json and UTF-8), `int` of a text, the answers of the clock, of the provider
-- and of the notification service to the nth question, the calendar, the digest of a message id, uuid5 of
-- a name, and the settings.
pub record World : Type 0 where
  pub client : Client
  pub decode : Codes → Option Json
  pub dumps : Fields → Codes
  pub int_of_text : String → Result ℤ
  pub clock : ℕ → ℤ
  pub sms : ℕ → Send → Result ℕ
  pub notify : ℕ → Outcome → Result (Unit {0})
  pub utc : ℤ → UtcSegments
  pub digest : String → ℕ
  pub uuid5 : String → String
  pub publish_attempts : ℕ
  pub lookback_hours : ℤ
  pub total_shards : ℤ

pub record Core : Type 0 where
  pub port : Port
  pub queue : DueWorkQueue
  pub reads : ℕ
  pub sends : List Send
  pub posts : List Outcome
  pub awake : Bool

abbrev pub in_port : {A : Type 0} → Exec Port A → Exec Core A
in_port = zoom (λ c. c.port) (λ p c. record c { port = p })

-- try: ... except Exception: the exception is a value
abbrev pub caught : {A : Type 0} → Exec Core A → Exec Core (Result A)
caught act c = let (r, c') = act c in (ok r, c')

-- async with lock: drop_locked(mid)
abbrev pub drop_mid : String → Exec Core Unit
drop_mid mid = modify (λ c. record c { queue = drop_locked mid c.queue })

abbrev negated : ℕ → ℤ
negated zero = pos 0
negated (suc n) = negsuc n

-- toward zero
abbrev truncated : ℤ → ℕ → ℤ
truncated (pos n) k = pos (n / (10 ^ k))
truncated (negsuc n) k = negated ((n + 1) / (10 ^ k))

abbrev is_http_error : Error → Bool
is_http_error (http_status_error code) = true
is_http_error transport_error = true
is_http_error _ = false

-- f"/{message_id}.json"
unfoldable pub key_matches_message_terminal : String → String → Bool
key_matches_message_terminal key message_id =
    elim (before_suffix (join ("/" ∷ message_id ∷ ".json" ∷ [])) key) [
      | none ↦ false
      | some s ↦ true
    ]

abbrev pub Found : Type 0
Found = String × (String × Fields)

module _ (w : World) where
  -- int(v)
  abbrev pub int_of : Json → Result ℤ
  int_of (int n) = ok n
  int_of (bool true) = ok (pos 1)
  int_of (bool false) = ok (pos 0)
  int_of (real n k) = ok (truncated n k)
  int_of (str s) = w.int_of_text s
  int_of _ = err type_error

  unfoldable pub now_ms : Exec Core ℤ
  now_ms c = (ok (w.clock c.reads), record c { reads = c.reads + 1 })

  abbrev pub post : Outcome → Exec Core Unit
  post b c = (w.notify (length c.posts) b, record c { posts = c.posts ++ b ∷ [] })

  abbrev pub sent_or_again :
      ℕ → Result (Unit {0}) × Core → Result (Unit {0}) × Core → Result (Unit {0}) × Core
  sent_or_again n again (ok u, c) = (ok tt, c)
  sent_or_again n again (err e, c) = if is_http_error e && not (eqb n 0) then again else (err e, c)

  unfoldable pub publish_tries : ℕ → Outcome → Exec Core Unit
  publish_tries zero b c = (err runtime_error, c)
  publish_tries (suc n) b c = sent_or_again n (publish_tries n b (post b c).1) (post b c)

  -- Every caller passes the key of the terminal object.
  unfoldable pub publish : String → String → ℤ → ℕ → ℤ → Option String → String → Exec Core Unit
  publish message_id outcome recorded_at shard_id attempt_count brief_reason terminal_storage_key =
      publish_tries w.publish_attempts (record {
        message_id = message_id;
        notification_id = w.uuid5 (join (terminal_storage_key ∷ "\n" ∷ outcome ∷ []));
        outcome = outcome;
        recorded_at = recorded_at;
        shard_id = shard_id;
        attempt_count = attempt_count;
        reason = brief_reason;
      })

  -- The prefixes of n hours, the latest at an instant.
  unfoldable pub hour_prefixes : String → ℤ → ℕ → List String
  hour_prefixes tree_root instant_ms zero = []
  hour_prefixes tree_root instant_ms (suc n) =
      let u = w.utc instant_ms in
      join (tree_root ∷ "/" ∷ u.yyyy ∷ "/" ∷ u.mm ∷ "/" ∷ u.dd ∷ "/" ∷ u.hh ∷ "/" ∷ [])
      ∷ hour_prefixes tree_root (instant_ms +ℤ negsuc 3599999) n

  unfoldable pub terminal_prefixes_for_lookback : ℤ → String → List String
  terminal_prefixes_for_lookback now tree_root =
      hour_prefixes tree_root now (pos_part w.lookback_hours + 1)

  -- The terminal record of a message, if an object that was read is one.
  abbrev pub terminal_of : String → String → Option Json → Option Fields
  terminal_of mid outcome (some (obj data_)) =
      if text_is mid (get_field data_ "messageId") && text_is outcome (get_field data_ "status")
      then some data_
      else none
  terminal_of mid outcome _ = none

  abbrev pub terminal_in : String → String → Result Codes → Option Fields
  terminal_in mid outcome (err e) = none
  terminal_in mid outcome (ok raw) = terminal_of mid outcome (w.decode raw)

  abbrev pub or_next :
      String → String → Option Fields → Exec Core (Option Found) → Exec Core (Option Found)
  or_next outcome tkey (some body) next = pure (some (outcome, (tkey, body)))
  or_next outcome tkey none next = next

  unfoldable pub find_in_rows : String → String → List String → Exec Core (Option Found)
  find_in_rows mid outcome [] = pure none
  find_in_rows mid outcome (tkey ∷ rows) =
      let next = find_in_rows mid outcome rows in
      if key_matches_message_terminal tkey mid
      then caught (in_port (Store.get_object w.client tkey))
        >>= (λ r. or_next outcome tkey (terminal_in mid outcome r) next)
      else next

  abbrev pub listed : Result (List String) → List String
  listed (err e) = []
  listed (ok rows) = rows

  abbrev pub or_else : Exec Core (Option Found) → Option Found → Exec Core (Option Found)
  or_else next none = next
  or_else next (some f) = pure (some f)

  unfoldable pub find_in_prefixes : String → String → List String → Exec Core (Option Found)
  find_in_prefixes mid outcome [] = pure none
  find_in_prefixes mid outcome (prefix ∷ prefixes) =
      let next = find_in_prefixes mid outcome prefixes in
      caught (in_port (Store.list_prefix w.client prefix none))
      >>= (λ rows. find_in_rows mid outcome (listed rows) >>= or_else next)

  unfoldable pub find_existing : String → ℤ → Exec Core (Option Found)
  find_existing mid now =
      find_in_prefixes mid "success" (terminal_prefixes_for_lookback now "state/success")
      >>= or_else
          (find_in_prefixes mid "failed" (terminal_prefixes_for_lookback now "state/failed"))
