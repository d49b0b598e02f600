-- ===== src/Domain/Schedule/Tests.antt =====
-- domain/schedule.py at small inputs.
use nitzan_shinnies_inspecti.Prelude.{◌≡◌, refl, ◌⊎◌, true, arith}
use nitzan_shinnies_inspecti.Prelude.Int.{ℤ, pos, ◌+ℤ◌, ◌≤ℤ◌, ◌<ℤ◌, ℤ-eq}
use nitzan_shinnies_inspecti.Prelude.Result.{value_error, ok, err}
use nitzan_shinnies_inspecti.Domain.Schedule.{
  next_due_ms, is_send_due, next_due_ms-domain, next_due_ms-increasing,
}

third_attempt : next_due_ms (pos 100) (pos 2) ≡ ok (pos 2100)
unfolding next_due_ms ◌+ℤ◌
third_attempt = refl

last_attempt : next_due_ms (pos 100) (pos 5) ≡ ok (pos 16100)
unfolding next_due_ms ◌+ℤ◌
last_attempt = refl

due_at_boundary : is_send_due (pos 7) (pos 7) ≡ true
unfolding is_send_due
due_at_boundary = refl

next_due_ms-domain_example :
    ((pos 0 ≤ℤ pos 6) × (pos 6 ≤ℤ pos 5) × ((due : ℤ) × (next_due_ms (pos 1) (pos 6) ≡ ok due)))
    ⊎ ((next_due_ms (pos 1) (pos 6) ≡ err value_error) × ((pos 6 <ℤ pos 0) ⊎ (pos 5 <ℤ pos 6)))
next_due_ms-domain_example = next_due_ms-domain (pos 1) (pos 6)

next_due_ms-increasing_example :
    (pos 100 ≤ℤ pos 2100) × (pos 2100 <ℤ pos 16100) × (pos 16100 ≤ℤ pos 100 +ℤ pos 16000)
next_due_ms-increasing_example =
    next_due_ms-increasing (pos 100) 2 5 (pos 2100) (pos 16100) (omega arith) third_attempt
      last_attempt
