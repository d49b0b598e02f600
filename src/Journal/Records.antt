-- ===== src/Journal/Records.antt =====
-- inspectio/journal/records.py: the journal record, its payload rules and its line codec.
pub mod Rules
pub mod Documented
pub mod Decode
mod Tests
use nitzan_shinnies_inspecti.Prelude.{
  ℕ, String, Bool, true, false, not, ◌&&◌, ◌||◌, Option, none, some, List, [], ◌∷◌, leb, eqb,
  if◌then◌else◌, length,
}
use nitzan_shinnies_inspecti.Prelude.Int.{ℤ, pos, ltb_ℤ, leb_ℤ, ℤ-eq}
use nitzan_shinnies_inspecti.Prelude.Result.{
  Done, key_error, type_error, journal_validation, journal_index, Result, ok, err, ◌>>=◌, ◌>>◌,
  raise_if,
}
use nitzan_shinnies_inspecti.Prelude.Decimal.{Codes, codes}
use nitzan_shinnies_inspecti.Json.{
  Json, Fields, int, str, arr, obj, get_field, has_field, field_names, all_in, is_str, is_int,
  is_bool, is_null,
}
use text.Mathlib.Text.{◌==◌}

pub data RecordType : Type 0 where
  ingest_applied dispatch_scheduled send_attempted send_result next_due terminal : RecordType

unfoldable pub type_name : RecordType → String
type_name ingest_applied = "INGEST_APPLIED"
type_name dispatch_scheduled = "DISPATCH_SCHEDULED"
type_name send_attempted = "SEND_ATTEMPTED"
type_name send_result = "SEND_RESULT"
type_name next_due = "NEXT_DUE"
type_name terminal = "TERMINAL"

-- The field `v` is left out: its type `Literal[1]` has one value.
pub record JournalRecord : Type 0 where
  pub type : RecordType
  pub shard_id : ℤ
  pub message_id : String
  pub ts_ms : ℤ
  pub record_index : ℤ
  pub payload : Fields

-- d[key]
unfoldable pub item : Fields → String → Result Json
item d k = elim (get_field d k) [ none ↦ err key_error | some v ↦ ok v ]

unfoldable pub require_keys : Fields → List String → Done
require_keys d [] = ok tt
require_keys d (k ∷ ks) =
    let rest = require_keys d ks in if has_field d k then rest else err journal_validation

unfoldable pub forbid_extra_keys : Fields → List String → Done
forbid_extra_keys d allowed = raise_if (not (all_in (field_names d) allowed)) journal_validation

-- [0-9a-f]
abbrev pub is_hex : ℕ → Bool
is_hex c = (leb b'0' c && leb c b'9') || (leb b'a' c && leb c b'f')

abbrev pub all_hex : Codes → Bool
all_hex [] = true
all_hex (c ∷ s) = is_hex c && all_hex s

-- re.compile(r"^[0-9a-f]{64}$").fullmatch(s)
unfoldable pub is_body_hash : String → Bool
is_body_hash s = eqb (length (codes s)) 64 && all_hex (codes s)

-- `not _is_int(v) or v < lo or v > hi`
unfoldable pub int_outside : ℤ → ℤ → Json → Bool
int_outside lo hi (int n) = ltb_ℤ n lo || ltb_ℤ hi n
int_outside lo hi _ = true

unfoldable pub bad_hash : Json → Bool
unfolding is_body_hash
bad_hash (str s) = not (is_body_hash s)
bad_hash _ = true

unfoldable pub validate_ingest_applied : Fields → Done
validate_ingest_applied d = do
  forbid_extra_keys d ("receivedAtMs" ∷ "idempotencyKey" ∷ "bodyHash" ∷ [])
  require_keys d ("receivedAtMs" ∷ "idempotencyKey" ∷ "bodyHash" ∷ [])
  received ← item d "receivedAtMs"
  raise_if (not (is_int received)) journal_validation
  key ← item d "idempotencyKey"
  raise_if (not (is_str key)) journal_validation
  hash ← item d "bodyHash"
  raise_if (bad_hash hash) journal_validation

-- `reason not in _REASONS`: a frozenset hashes the value, so a list or a dict raises TypeError.
unfoldable pub check_reason : Json → Done
check_reason (str s) =
    raise_if (not (s == "immediate" || (s == "tick" || s == "replay"))) journal_validation
check_reason (arr xs) = err type_error
check_reason (obj d) = err type_error
check_reason _ = err journal_validation

unfoldable pub validate_dispatch_scheduled : Fields → Done
validate_dispatch_scheduled d = do
  forbid_extra_keys d ("reason" ∷ [])
  require_keys d ("reason" ∷ [])
  reason ← item d "reason"
  check_reason reason

pub validate_send_attempted : Fields → Done
validate_send_attempted d = do
  forbid_extra_keys d ("attemptIndex" ∷ [])
  require_keys d ("attemptIndex" ∷ [])
  ai ← item d "attemptIndex"
  raise_if (int_outside (pos 0) (pos 5) ai) journal_validation

pub validate_send_result : Fields → Done
validate_send_result d = do
  forbid_extra_keys d ("attemptIndex" ∷ "ok" ∷ "httpStatus" ∷ "errorClass" ∷ [])
  require_keys d ("attemptIndex" ∷ "ok" ∷ "httpStatus" ∷ "errorClass" ∷ [])
  ai ← item d "attemptIndex"
  raise_if (int_outside (pos 0) (pos 5) ai) journal_validation
  sent ← item d "ok"
  raise_if (not (is_bool sent)) journal_validation
  hs ← item d "httpStatus"
  raise_if (not (is_null hs) && not (is_int hs)) journal_validation
  ec ← item d "errorClass"
  raise_if (not (is_null ec) && not (is_str ec)) journal_validation

pub validate_next_due : Fields → Done
validate_next_due d = do
  forbid_extra_keys d ("attemptCount" ∷ "nextDueAtMs" ∷ [])
  require_keys d ("attemptCount" ∷ "nextDueAtMs" ∷ [])
  ac ← item d "attemptCount"
  raise_if (int_outside (pos 1) (pos 5) ac) journal_validation
  due ← item d "nextDueAtMs"
  raise_if (not (is_int due)) journal_validation

-- `status == text`, of any value
abbrev pub is_text : String → Json → Bool
is_text t (str s) = s == t
is_text t _ = false

abbrev pub is_str_field : Option Json → Bool
is_str_field none = false
is_str_field (some v) = is_str v

abbrev pub bad_reason : Bool → Fields → Bool
bad_reason failed d =
    if failed then not (is_str_field (get_field d "reason")) else has_field d "reason"

pub validate_terminal : Fields → Done
validate_terminal d = do
  forbid_extra_keys d ("status" ∷ "attemptCount" ∷ "reason" ∷ [])
  require_keys d ("status" ∷ "attemptCount" ∷ [])
  status ← item d "status"
  raise_if (not (is_text "success" status || is_text "failed" status)) journal_validation
  ac ← item d "attemptCount"
  raise_if (int_outside (pos 1) (pos 6) ac) journal_validation
  raise_if (bad_reason (is_text "failed" status) d) journal_validation

unfoldable pub validate_payload_for_type : RecordType → Fields → Done
unfolding validate_ingest_applied validate_dispatch_scheduled validate_send_attempted
    validate_send_result validate_next_due validate_terminal
validate_payload_for_type ingest_applied d = validate_ingest_applied d
validate_payload_for_type dispatch_scheduled d = validate_dispatch_scheduled d
validate_payload_for_type send_attempted d = validate_send_attempted d
validate_payload_for_type send_result d = validate_send_result d
validate_payload_for_type next_due d = validate_next_due d
validate_payload_for_type terminal d = validate_terminal d

-- `none` is a shard with no record yet.
unfoldable pub validate_monotonic_record_index : Option ℤ → JournalRecord → Done
validate_monotonic_record_index none r = ok tt
validate_monotonic_record_index (some last) r = raise_if (leb_ℤ r.record_index last) journal_index
