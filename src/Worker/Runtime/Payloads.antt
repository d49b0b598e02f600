-- ===== src/Worker/Runtime/Payloads.antt =====
-- The payloads that the runtime journals keep the rules of journal/records.py.
use nitzan_shinnies_inspecti.Prelude.{
  ℕ, ◌+◌, ◌≤◌, ◌<◌, ◌≡◌, refl, ap, ◌⊎◌, inl, inr, Option, none, some, arith,
}
use nitzan_shinnies_inspecti.Prelude.Int.{ℤ, pos, ◌+ℤ◌, ℤ-eq}
use nitzan_shinnies_inspecti.Prelude.Result.{ok}
use nitzan_shinnies_inspecti.Json.{Json, Fields, int, str, null, get_field}
use nitzan_shinnies_inspecti.Journal.Records.{
  RecordType, validate_payload_for_type, send_attempted, send_result, next_due, terminal,
}
use nitzan_shinnies_inspecti.Journal.Records.Rules.{validate_payload_for_type_iff}
use nitzan_shinnies_inspecti.Worker.Sms.{SmsAnswer, post_send}
use nitzan_shinnies_inspecti.Worker.Runtime.{
  attempted_payload, result_payload, success_payload, next_due_payload, failed_payload, or_null,
}

abbrev pub Accepted : RecordType → Fields → Type 0
Accepted t d = validate_payload_for_type t d ≡ ok tt

-- A field that is null or a value of the other kind.
or_null-cases :
    {A B : Type 0} {wrap : B → Json} (f : A → Json)
    → ((a : A) → (b : B) × (f a ≡ wrap b))
    → (o : Option A)
    → (some (or_null f o) ≡ some null) ⊎ ((b : B) × (some (or_null f o) ≡ some (wrap b)))
or_null-cases f h none = inl refl
or_null-cases f h (some a) = let (b, e) = h a in inr (b, ap some e)

next_or_last : (n : ℕ) → n ≤ 5 → (n ≡ 5) ⊎ (n < 5)
next_or_last n h = ground arith

-- Every payload that an attempt with an index of 0 to 5 journals is accepted: that of the attempt, that
-- of its result whatever the provider answered, and those of the three ways in which it can end.
pub attempt_payloads-Accepted :
    (n : ℕ) (answer : SmsAnswer) (due : ℤ)
    → n ≤ 5
    → Accepted send_attempted (attempted_payload (pos n))
      × Accepted send_result (result_payload (pos n) (post_send answer))
      × Accepted terminal (success_payload (pos n +ℤ pos 1))
      × ((n ≡ 5) ⊎ Accepted next_due (next_due_payload (pos n +ℤ pos 1) due))
      × Accepted terminal failed_payload
unfolding attempted_payload result_payload success_payload next_due_payload failed_payload get_field
    ◌+ℤ◌
attempt_payloads-Accepted n answer due h = (
  (validate_payload_for_type_iff send_attempted _).1 ((refl, tt), (n, refl, omega arith, h)),
  (validate_payload_for_type_iff send_result _).1 (
    (refl, (refl, (refl, (refl, tt)))),
    (n, refl, omega arith, h),
    (_, refl),
    (or_null-cases {wrap = int} (λ s. int (pos s)) (λ s. (pos s, refl))
        (post_send answer).http_status),
    (or_null-cases {wrap = str} str (λ s. (s, refl)) (post_send answer).error_class),
  ),
  (validate_payload_for_type_iff terminal _).1
      ((refl, (refl, tt)), (n + 1, ground arith, omega arith, omega arith), inl (refl, refl)),
  elim (next_or_last n h) [
    | inl last ↦ inl last
    | inr k ↦ inr (
        (validate_payload_for_type_iff next_due _).1
          ((refl, (refl, tt)), (n + 1, ground arith, omega arith, omega arith), (due, refl)))
  ],
  (validate_payload_for_type_iff terminal _).1
      ((refl, (refl, (refl, tt))), (6, refl, omega arith, omega arith), inr (refl, (_, refl))),
)
