-- ===== src/Ingest/Schema/Tests.antt =====
-- The hash check at a small message.
use nitzan_shinnies_inspecti.Ingest.Schema.{
  body_hash_for_text, Hashing, inject_or_check_body_hash, body_of,
}
use nitzan_shinnies_inspecti.Prelude.{◌≡◌, refl, some}
use nitzan_shinnies_inspecti.Prelude.Result.{validation_error, ok, err}
use nitzan_shinnies_inspecti.Prelude.Eq.{String-eq}
use nitzan_shinnies_inspecti.Json.{Fields, end, field, str, obj, get_field, set_field}

abbrev hashing : Hashing
hashing = record {
  sha256_hex = λ body. "abc";
  text_of = λ v. "";
  lower = λ s. s;
  validate_fields = λ d. err validation_error;
}

abbrev sent : Fields
sent = field "payload" (obj (field "body" (str "hi") end)) end

injected : inject_or_check_body_hash hashing sent ≡ ok (set_field sent "bodyHash" (str "abc"))
unfolding inject_or_check_body_hash get_field body_hash_for_text
injected = refl

sent_body : body_of hashing (get_field sent "payload") ≡ some "hi"
unfolding get_field
sent_body = refl
