-- ===== src/Domain/Sharding/Tests.antt =====
-- domain/sharding.py at small inputs.
use nitzan_shinnies_inspecti.Prelude.{ℕ, ◌<◌, String, ◌≡◌, refl, List, [], ◌∷◌, arith}
use nitzan_shinnies_inspecti.Prelude.Int.{pos, ℤ-eq}
use nitzan_shinnies_inspecti.Prelude.Result.{ok}
use nitzan_shinnies_inspecti.Domain.Sharding.{
  owned_shard_range, validate_total_shards_vs_workers, shards_per_pod,
}
use nitzan_shinnies_inspecti.Domain.Sharding.Cover.{shard_is_owned, owner_unique, Within}

second_of_three : owned_shard_range (pos 1) (pos 10) (pos 3) ≡ ok (4, 8)
unfolding owned_shard_range shards_per_pod validate_total_shards_vs_workers
second_of_three = refl

-- A pod behind the last shard gets an empty range whose end lies before its start.
idle_pod : owned_shard_range (pos 3) (pos 5) (pos 4) ≡ ok (6, 5)
unfolding owned_shard_range shards_per_pod validate_total_shards_vs_workers
idle_pod = refl

shard_is_owned_example :
    (p : ℕ) × (p < 3)
    × ((r : ℕ × ℕ) × (owned_shard_range (pos p) (pos 10) (pos 3) ≡ ok r) × Within 7 r)
shard_is_owned_example = shard_is_owned 7 10 3 (omega arith) (omega arith) (omega arith)

owner_unique_example : pos 1 ≡ pos 1
owner_unique_example =
    owner_unique 7 (pos 1) (pos 1) (pos 10) (pos 3) (4, 8) (4, 8) second_of_three second_of_three
      (omega arith) (omega arith)

abbrev lengths : String → List ℕ
lengths s = 1 ∷ 2 ∷ 3 ∷ 4 ∷ 5 ∷ []
