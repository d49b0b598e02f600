-- ===== src/Archive/Rules.antt =====
-- Pure rules of the first version: domain/retry.py, sharding.py, idempotency.py, sms_outcome.py,
-- utc_paths.py and wakeup.py, under v1_obsolete/project/src/inspectio_exercise. A pod index is the number
-- that a host name ends with. The digest of a message id is a parameter.
pub mod Ledger
pub mod Due
mod Tests
use nitzan_shinnies_inspecti.Prelude.{
  ℕ, zero, suc, ◌+◌, ◌-◌, ◌*◌, ◌/◌, ◌%◌, min, String, Bool, true, false, ◌&&◌, ◌||◌, Option, none,
  some, List, [], ◌∷◌, ltb, leb, eqb, if◌then◌else◌,
}
use nitzan_shinnies_inspecti.Prelude.Int.{ℤ, pos, negsuc, ◌+ℤ◌, ℤ-eq}
use nitzan_shinnies_inspecti.Prelude.Eq.{◌==◌, ℕ-eq, String-eq, pair_eq}
use nitzan_shinnies_inspecti.Prelude.Result.{value_error, Result, ok, err}
use nitzan_shinnies_inspecti.Prelude.Decimal.{decimal}
use nitzan_shinnies_inspecti.Prelude.Text.{join, digits_text}

unfoldable pub attempt_count_is_terminal : ℤ → Bool
attempt_count_is_terminal attempt_count = attempt_count == pos 6

-- delays[n], for the counts that pass the tests
abbrev delay_at : ℕ → ℕ
delay_at n =
    if eqb n 0
    then 500
    else if eqb n 1
    then 2000
    else if eqb n 2
    then 4000
    else if eqb n 3
    then 8000
    else 16000

unfoldable pub delay_ms_before_next_attempt_after_failure : ℤ → Result (Option ℤ)
delay_ms_before_next_attempt_after_failure (negsuc n) = err value_error
delay_ms_before_next_attempt_after_failure (pos n) =
    if ltb 5 n then err value_error else if eqb n 5 then ok none else ok (some (pos (delay_at n)))

abbrev add_delay : ℤ → Result (Option ℤ) → Result (Option ℤ)
add_delay now_ms (err e) = err e
add_delay now_ms (ok none) = ok none
add_delay now_ms (ok (some d)) = ok (some (now_ms +ℤ d))

unfoldable pub next_due_at_ms_after_failure : ℤ → ℤ → Result (Option ℤ)
unfolding delay_ms_before_next_attempt_after_failure
next_due_at_ms_after_failure now_ms n =
    add_delay now_ms (delay_ms_before_next_attempt_after_failure n)

-- list(range(start, start + n))
unfoldable pub shards_from : ℕ → ℕ → List ℕ
shards_from start zero = []
shards_from start (suc n) = start ∷ shards_from (start + 1) n

-- The members of the set, in ascending order.
unfoldable pub owned_shard_ids : ℕ → ℤ → ℤ → Result (List ℕ)
owned_shard_ids pod_index (pos per_pod) (pos total) =
    let start = pod_index * per_pod in
    if eqb total 0
    then ok []
    else if leb total start
    then ok []
    else ok (shards_from start (min ((pod_index + 1) * per_pod) total - start))
owned_shard_ids pod_index _ _ = err value_error

abbrev is_member : ℕ → List ℕ → Bool
is_member shard [] = false
is_member shard (s ∷ owned) = eqb s shard || is_member shard owned

unfoldable pub is_shard_owned : ℕ → ℕ → ℤ → ℤ → Result Bool
is_shard_owned shard_id pod_index shards_per_pod total_shards =
    elim (owned_shard_ids pod_index shards_per_pod total_shards) [
      | err e ↦ err e
      | ok owned ↦ ok (is_member shard_id owned)
    ]

-- f"state/pending/shard-{shard_id}/"
unfoldable pub pending_prefix_for_shard : ℕ → String
pending_prefix_for_shard shard_id =
    join ("state/pending/shard-" ∷ digits_text (decimal shard_id) ∷ "/" ∷ [])

module _ (digest : String → ℕ) where
  -- The digest is the number of the 32 bytes of SHA-256.
  unfoldable pub shard_id_for_message : String → ℤ → Result ℕ
  shard_id_for_message message_id (pos (suc n)) = ok (digest message_id % suc n)
  shard_id_for_message message_id _ = err value_error

unfoldable pub is_failed_send_for_lifecycle : ℕ → Bool
is_failed_send_for_lifecycle http_status = leb 500 http_status

unfoldable pub is_successful_send : ℕ → Bool
is_successful_send http_status = leb 200 http_status && ltb http_status 300

-- yyyy, mm, dd and hh in UTC
pub record UtcSegments : Type 0 where
  pub yyyy : String
  pub mm : String
  pub dd : String
  pub hh : String

module _ (utc_segments_for_instant_ms : ℤ → UtcSegments) where
  unfoldable pub terminal_success_key : String → ℤ → String
  terminal_success_key message_id instant_ms =
      let u = utc_segments_for_instant_ms instant_ms in
      join (
        "state/success/" ∷ u.yyyy ∷ "/" ∷ u.mm ∷ "/" ∷ u.dd ∷ "/" ∷ u.hh ∷ "/" ∷ message_id
        ∷ ".json" ∷ [])

  unfoldable pub terminal_failed_key : String → ℤ → String
  terminal_failed_key message_id instant_ms =
      let u = utc_segments_for_instant_ms instant_ms in
      join (
        "state/failed/" ∷ u.yyyy ∷ "/" ∷ u.mm ∷ "/" ∷ u.dd ∷ "/" ∷ u.hh ∷ "/" ∷ message_id ∷ ".json"
        ∷ [])

unfoldable pub elapsed_ms_for_tick_count : ℤ → ℤ → Result ℤ
elapsed_ms_for_tick_count (pos n) (pos (suc t)) = ok (pos (n * suc t))
elapsed_ms_for_tick_count tick_count tick_interval_ms = err value_error

unfoldable pub tick_count_for_elapsed_ms : ℤ → ℤ → Result ℤ
tick_count_for_elapsed_ms (pos n) (pos (suc t)) = ok (pos (n / suc t))
tick_count_for_elapsed_ms elapsed_ms tick_interval_ms = err value_error

-- The activations of messages and their ends.
pub record ActivationLedger : Type 0 where
  pub pending : List String
  pub terminal : List String

-- message_id in ids
unfoldable pub in_ids : String → List String → Bool
in_ids message_id [] = false
in_ids message_id (x ∷ xs) = (x == message_id) || in_ids message_id xs

unfoldable pub discard : String → List String → List String
discard message_id [] = []
discard message_id (x ∷ xs) =
    let rest = discard message_id xs in if x == message_id then rest else x ∷ rest

unfoldable pub is_terminal : String → ActivationLedger → Bool
is_terminal message_id l = in_ids message_id l.terminal

unfoldable pub mark_terminal : String → ActivationLedger → ActivationLedger
mark_terminal message_id l = record l {
  pending = discard message_id l.pending;
  terminal = message_id ∷ l.terminal;
}

unfoldable pub try_activate : String → ActivationLedger → Bool × ActivationLedger
try_activate message_id l =
    if in_ids message_id l.terminal || in_ids message_id l.pending
    then (false, l)
    else (true, record l { pending = message_id ∷ l.pending })
