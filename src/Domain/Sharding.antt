-- ===== src/Domain/Sharding.antt =====
-- inspectio/domain/sharding.py: shard ids of messages, and the shard range of each worker pod.
-- `math.ceil(total_shards / worker_count)` is the exact quotient rounded up, which the division of
-- floats gives for fewer than 2^53 shards. SHA-256 is a parameter.
mod Tests
pub mod Cover
use nitzan_shinnies_inspecti.Prelude.{
  ℕ, ◌+◌, ◌-◌, ◌*◌, ◌/◌, ◌%◌, min, String, ◌||◌, List, [], ◌∷◌, take,
}
use nitzan_shinnies_inspecti.Prelude.Int.{ℤ, pos, pos_part, ltb_ℤ, leb_ℤ, ℤ-eq}
use nitzan_shinnies_inspecti.Prelude.Result.{Done, value_error, Result, ok, ◌>>=◌, ◌>>◌, raise_if}

abbrev pub hash_prefix_bytes : ℕ
hash_prefix_bytes = 4

abbrev pub min_total_shards : ℤ
min_total_shards = pos 1

abbrev pub min_worker_count : ℤ
min_worker_count = pos 1

unfoldable pub validate_total_shards_vs_workers : ℤ → ℤ → Done
validate_total_shards_vs_workers total_shards worker_count = do
  raise_if (ltb_ℤ total_shards min_total_shards) value_error
  raise_if (ltb_ℤ worker_count min_worker_count) value_error
  raise_if (ltb_ℤ total_shards worker_count) value_error

-- math.ceil(a / b), for positive numbers
abbrev pub ceil_div : ℕ → ℕ → ℕ
ceil_div a b = (a + (b - 1)) / b

unfoldable pub shards_per_pod : ℤ → ℤ → Result ℕ
shards_per_pod total_shards worker_count = do
  validate_total_shards_vs_workers total_shards worker_count
  ok (ceil_div (pos_part total_shards) (pos_part worker_count))

unfoldable pub owned_shard_range : ℤ → ℤ → ℤ → Result (ℕ × ℕ)
owned_shard_range pod_index total_shards worker_count = do
  validate_total_shards_vs_workers total_shards worker_count
  raise_if (ltb_ℤ pod_index (pos 0) || leb_ℤ worker_count pod_index) value_error
  spp ← shards_per_pod total_shards worker_count
  ok (pos_part pod_index * spp, min ((pos_part pod_index + 1) * spp) (pos_part total_shards))

-- int.from_bytes(bs, byteorder="big", signed=False)
unfoldable pub from_bytes_be : ℕ → List ℕ → ℕ
from_bytes_be n [] = n
from_bytes_be n (b ∷ bs) = from_bytes_be (n * 256 + b) bs

-- `sha256` maps a text to the digest of its UTF-8 bytes.
module _ (sha256 : String → List ℕ) where
  unfoldable pub shard_for_message : String → ℤ → Result ℕ
  unfolding from_bytes_be
  shard_for_message message_id total_shards = do
    raise_if (ltb_ℤ total_shards min_total_shards) value_error
    let hash_prefix = take hash_prefix_bytes (sha256 message_id)
    ok (from_bytes_be 0 hash_prefix % pos_part total_shards)
