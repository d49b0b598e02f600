-- ===== src/Journal/Records/Decode.antt =====
-- Reading journal lines and segments back: the decoders of inspectio/journal/records.py.
use nitzan_shinnies_inspecti.Prelude.{
  ◌^◌, String, Bool, false, Option, none, some, List, [], ◌∷◌, if◌then◌else◌,
}
use nitzan_shinnies_inspecti.Prelude.Int.{pos, ℤ-eq}
use nitzan_shinnies_inspecti.Prelude.Eq.{◌==◌, ℕ-eq, String-eq, pair_eq}
use nitzan_shinnies_inspecti.Prelude.Result.{
  journal_decode, journal_validation, os_error, unicode_decode_error, Result, ok, err, ◌>>=◌, ◌>>◌,
}
use nitzan_shinnies_inspecti.Prelude.Text.{strip, is_empty, splitlines}
use nitzan_shinnies_inspecti.Prelude.Decimal.{Codes}
use nitzan_shinnies_inspecti.Json.{Json, Fields, bool, int, real, obj, get_field}
use nitzan_shinnies_inspecti.Journal.Records.{JournalRecord, validate_payload_for_type}

-- What the decoders ask of libraries: the text that `gzip.decompress` and the decoding of UTF-8 give, or
-- the error that they raise (an OSError for what is no gzip file, a UnicodeDecodeError, and the EOFError
-- of a truncated stream or the zlib.error of a corrupt one),
-- `json.loads` (none for a JSONDecodeError), and the fields that pydantic accepts (none for a
-- ValidationError).
pub record Codec : Type 0 where
  pub gunzip : Codes → Result String
  pub loads : String → Option Json
  pub model_validate : Fields → Option JournalRecord

-- obj.get("v") != 1
unfoldable pub is_version_1 : Option Json → Bool
is_version_1 (some (int n)) = n == pos 1
is_version_1 (some (bool b)) = b
is_version_1 (some (real n k)) = n == pos (10 ^ k)
is_version_1 _ = false

module _ (codec : Codec) where
  abbrev checked : Option JournalRecord → Result JournalRecord
  checked none = err journal_validation
  checked (some r) = validate_payload_for_type r.type r.payload >> ok r

  abbrev decode_value : Option Json → Result JournalRecord
  decode_value (some (obj d)) =
      if is_version_1 (get_field d "v")
      then checked (codec.model_validate d)
      else err journal_decode
  decode_value _ = err journal_decode

  -- A line that the decoder refuses is a JournalDecodeError, and a record that it refuses is a
  -- JournalValidationError.
  unfoldable pub decode_line : String → Result JournalRecord
  decode_line line =
      let stripped = strip line in
      if is_empty stripped then err journal_decode else decode_value (codec.loads stripped)

  unfoldable pub decode_lines : List String → Result (List JournalRecord)
  decode_lines [] = ok []
  decode_lines (l ∷ ls) =
      let rest = decode_lines ls in
      if is_empty (strip l) then rest else (decode_line l >>= λ r. rest >>= λ rs. ok (r ∷ rs))

  -- `except OSError` and `except UnicodeDecodeError`; other errors are not caught.
  abbrev decode_text : Result String → Result (List JournalRecord)
  decode_text (ok text) = decode_lines (splitlines text)
  decode_text (err os_error) = err journal_decode
  decode_text (err unicode_decode_error) = err journal_decode
  decode_text (err e) = err e

  unfoldable pub parse_gzip_ndjson_segment : Codes → Result (List JournalRecord)
  parse_gzip_ndjson_segment segment = decode_text (codec.gunzip segment)
