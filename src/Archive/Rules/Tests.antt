-- ===== src/Archive/Rules/Tests.antt =====
-- The rules at small inputs.
use nitzan_shinnies_inspecti.Prelude.{
  ◌≤◌, String, ◌≡◌, refl, ◌⊎◌, false, ◌||◌, some, List, [], ◌∷◌, map, arith, All,
}
use nitzan_shinnies_inspecti.Prelude.Int.{ℤ, pos, ◌+ℤ◌, ◌≤ℤ◌, ℤ-eq}
use nitzan_shinnies_inspecti.Prelude.Eq.{ℕ-eq, String-eq, pair_eq}
use nitzan_shinnies_inspecti.Prelude.Result.{ok}
use mathlib.Core.List.{Perm}
use nitzan_shinnies_inspecti.Archive.Rules.{
  ActivationLedger, in_ids, next_due_at_ms_after_failure,
  delay_ms_before_next_attempt_after_failure, owned_shard_ids, shards_from,
}
use nitzan_shinnies_inspecti.Archive.Rules.Ledger.{
  Step, activate, finish, activations, activations_bound,
}
use nitzan_shinnies_inspecti.Archive.Rules.Due.{
  Timed, AscendsFrom, ArePicked, select_due_message_ids, select_due_message_ids-IsOrder,
}

abbrev ledger : ActivationLedger
ledger = record { pending = "b" ∷ []; terminal = [] }

abbrev steps : List Step
steps = activate "a" ∷ activate "a" ∷ finish "a" ∷ activate "a" ∷ activate "b" ∷ []

activations_bound_example :
    (activations "a" steps ledger ≤ 1)
    × (((in_ids "a" [] || in_ids "a" ("b" ∷ [])) ≡ false) ⊎ (activations "a" steps ledger ≡ 0))
activations_bound_example = activations_bound "a" steps ledger

abbrev messages : List (String × ℤ)
messages = ("a", pos 7) ∷ ("b", pos 9) ∷ ("c", pos 3) ∷ []

not_negative : All (λ m. pos 0 ≤ℤ m.1) messages
not_negative = (omega arith, (omega arith, (omega arith, tt)))

select_due_message_ids-IsOrder_example :
    (picked es : List Timed) × ArePicked messages (pos 9) picked
    × Perm es picked
    × AscendsFrom (pos 0) es
    × (select_due_message_ids messages (pos 9) ≡ map (λ e. e.1) es)
select_due_message_ids-IsOrder_example =
    select_due_message_ids-IsOrder messages (pos 9) (pos 0) not_negative

after_five : next_due_at_ms_after_failure (pos 10) (pos 4) ≡ ok (some (pos 16010))
unfolding next_due_at_ms_after_failure delay_ms_before_next_attempt_after_failure ◌+ℤ◌
after_five = refl

last_pod : owned_shard_ids 1 (pos 3) (pos 5) ≡ ok (3 ∷ 4 ∷ [])
unfolding owned_shard_ids shards_from
last_pod = refl
