-- ===== src/Journal/Records/Tests.antt =====
-- The payload rules at small inputs.
use nitzan_shinnies_inspecti.Prelude.{◌≡◌, refl}
use nitzan_shinnies_inspecti.Prelude.Int.{pos, ℤ-eq}
use nitzan_shinnies_inspecti.Prelude.Result.{type_error, journal_validation, ok, err}
use nitzan_shinnies_inspecti.Json.{Fields, end, field, int, str, arr, nil, get_field}
use nitzan_shinnies_inspecti.Journal.Records.{
  next_due, terminal, dispatch_scheduled, validate_payload_for_type, item, require_keys,
  forbid_extra_keys, int_outside, check_reason,
}

abbrev second : Fields
second = field "nextDueAtMs" (int (pos 600)) (field "attemptCount" (int (pos 6)) end)

too_many : validate_payload_for_type next_due second ≡ err journal_validation
unfolding validate_payload_for_type item require_keys forbid_extra_keys int_outside get_field
too_many = refl

-- A reason that is a list is no validation error: the frozenset cannot hash it.
unhashable :
    validate_payload_for_type dispatch_scheduled (field "reason" (arr nil) end) ≡ err type_error
unfolding validate_payload_for_type item require_keys forbid_extra_keys check_reason get_field
unhashable = refl

-- A failure after one send is accepted.
abbrev early : Fields
early =
    field "status" (str "failed")
      (field "attemptCount" (int (pos 1)) (field "reason" (str "sms_failed") end))

early_accepted : validate_payload_for_type terminal early ≡ ok tt
unfolding validate_payload_for_type item require_keys forbid_extra_keys int_outside get_field
early_accepted = refl
