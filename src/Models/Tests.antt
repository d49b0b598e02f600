-- ===== src/Models/Tests.antt =====
-- models.py at small inputs.
use nitzan_shinnies_inspecti.Prelude.{◌≡◌, refl, ◌↔◌, none}
use nitzan_shinnies_inspecti.Prelude.Int.{pos, ℤ-eq}
use nitzan_shinnies_inspecti.Prelude.Result.{value_error, ok, err}
use nitzan_shinnies_inspecti.Json.{end}
use nitzan_shinnies_inspecti.Models.{RetryState, post_init, pending, post_init_iff, Allows}

abbrev sixth_pending : RetryState
sixth_pending = record {
  message_id = "m";
  attempt_count = pos 6;
  next_due_at_ms = pos 0;
  status = pending;
  last_error = none;
  payload = end;
  updated_at_ms = pos 0;
}

too_many_pending : post_init sixth_pending ≡ err value_error
unfolding post_init
too_many_pending = refl

post_init_iff_example :
    (post_init sixth_pending ≡ ok tt) ↔ Allows sixth_pending.status sixth_pending.attempt_count
post_init_iff_example = post_init_iff sixth_pending
