-- ===== src/Worker/Sms.antt =====
-- inspectio/sms/client.py: one POST to the SMS provider.
use nitzan_shinnies_inspecti.Prelude.{
  ℕ, String, Bool, false, Option, none, some, eqb, if◌then◌else◌,
}
use nitzan_shinnies_inspecti.Prelude.Int.{ℤ, ℤ-eq}

-- The answer of the HTTP client: a response with a status code, or an `httpx.HTTPError` by the name of
-- its class.
pub data SmsAnswer : Type 0 where
  response : ℕ → SmsAnswer
  http_error : String → SmsAnswer

-- What is posted as JSON to `{sms_url}/send`.
pub record SmsRequest : Type 0 where
  pub to : String
  pub body : String
  pub message_id : String
  pub attempt_index : ℤ

pub record SendOutcome : Type 0 where
  pub ok : Bool
  pub http_status : Option ℕ
  pub error_class : Option String

unfoldable pub post_send : SmsAnswer → SendOutcome
post_send (response status) = record {
  ok = eqb status 200;
  http_status = some status;
  error_class = if eqb status 200 then none else some "http_error";
}
post_send (http_error name) = record { ok = false; http_status = none; error_class = some name }
