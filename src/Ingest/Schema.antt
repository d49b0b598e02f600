-- ===== src/Ingest/Schema.antt =====
-- inspectio/ingest/schema.py: the message of the ingest queue, with the hash of its body.
mod Tests
use nitzan_shinnies_inspecti.Json.{
  Json, Fields, null, str, obj, get_field, set_field, get_field-set_field,
}
use nitzan_shinnies_inspecti.Prelude.{
  String, ◌≡◌, Bool, true, false, Option, none, some, arith, if◌then◌else◌,
}
use nitzan_shinnies_inspecti.Prelude.Int.{ℤ, ℤ-eq}
use nitzan_shinnies_inspecti.Prelude.Eq.{◌==◌, ℕ-eq, String-eq, pair_eq}
use nitzan_shinnies_inspecti.Prelude.Result.{validation_error, Result, ok, err, ◌>>=◌, ◌>>◌}
use nitzan_shinnies_inspecti.Journal.Records.{is_body_hash}

pub record MessageIngestPayload : Type 0 where
  pub body : String
  pub to : Option String

pub record MessageIngested : Type 0 where
  pub message_id : String
  pub payload : MessageIngestPayload
  pub received_at_ms : ℤ
  pub shard_id : ℤ
  pub idempotency_key : String
  pub body_hash : String

-- `dict.get` and then a default: a key that is present wins, also when its value is null.
abbrev pub get_or : Fields → String → Option Json → Option Json
get_or d k other = elim (get_field d k) [ none ↦ other | some v ↦ some v ]

abbrev pub is_absent : Option Json → Bool
is_absent none = true
is_absent (some null) = true
is_absent _ = false

-- The libraries that the model uses: SHA-256 in hexadecimal of a text's UTF-8 bytes, `str` of a value
-- that is no text, `str.lower`, and the fields that pydantic accepts.
pub record Hashing : Type 0 where
  pub sha256_hex : String → String
  pub text_of : Json → String
  pub lower : String → String
  pub validate_fields : Fields → Result MessageIngested

module _ (h : Hashing) where
  unfoldable pub body_hash_for_text : String → String
  body_hash_for_text body = h.sha256_hex body

  abbrev pub to_text : Json → String
  to_text (str s) = s
  to_text v = h.text_of v

  abbrev pub body_of : Option Json → Option String
  body_of (some (obj payload)) = elim (get_field payload "body") [
    | none ↦ none
    | some null ↦ none
    | some v ↦ some (to_text v)
  ]
  body_of _ = none

  -- data.get("bodyHash", data.get("body_hash"))
  abbrev pub existing_hash : Fields → Option Json
  existing_hash d = get_or d "bodyHash" (get_field d "body_hash")

  abbrev pub with_hash : Fields → String → Result Fields
  with_hash d expected = ok (set_field d "bodyHash" (str expected))

  abbrev pub hash_text : Option Json → String
  hash_text none = ""
  hash_text (some v) = to_text v

  abbrev pub check_hash : Fields → Option String → Result Fields
  check_hash d none = ok d
  check_hash d (some body) =
      let expected = body_hash_for_text body in
      let existing = existing_hash d in
      if is_absent existing
      then with_hash d expected
      else if h.lower (hash_text existing) == expected
      then with_hash d expected
      else err validation_error

  unfoldable pub inject_or_check_body_hash : Fields → Result Fields
  inject_or_check_body_hash d = check_hash d (body_of (get_field d "payload"))

  unfoldable pub normalize_body_hash_format : MessageIngested → Result MessageIngested
  normalize_body_hash_format m = if is_body_hash m.body_hash then ok m else err validation_error

  unfoldable pub model_validate : Json → Result MessageIngested
  model_validate (obj d) =
      inject_or_check_body_hash d >>= λ e. h.validate_fields e >>= normalize_body_hash_format
  model_validate _ = err validation_error

-- A message whose payload has a body is let through only with the hash of that body under "bodyHash",
-- and with every other field as it came.
pub inject_or_check_body_hash-hash :
    (h : Hashing) (d e : Fields) (body k : String)
    → body_of h (get_field d "payload") ≡ some body
    → inject_or_check_body_hash h d ≡ ok e
    → get_field e k ≡ (if "bodyHash" == k then some (str (h.sha256_hex body)) else get_field d k)
unfolding inject_or_check_body_hash body_hash_for_text
inject_or_check_body_hash-hash h d e body k has ok_e =
    ground (arith, get_field-set_field d "bodyHash" k (str (h.sha256_hex body)))
