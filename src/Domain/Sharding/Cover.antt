-- ===== src/Domain/Sharding/Cover.antt =====
-- The ranges of the pods partition the shards.
use nitzan_shinnies_inspecti.Domain.Sharding.{
  hash_prefix_bytes, from_bytes_be, shard_for_message, validate_total_shards_vs_workers, ceil_div,
  shards_per_pod, owned_shard_range,
}
use nitzan_shinnies_inspecti.Prelude.Int.{negsuc, ◌<ℤ◌, pos_part, ℤ, pos, ◌≤ℤ◌, ℤ-eq}
use nitzan_shinnies_inspecti.Prelude.{
  sym, ap, ◌∙◌, List, String, ◌%◌, take, ℕ, ◌+◌, ◌*◌, ◌/◌, ◌≤◌, ◌<◌, min, ◌≡◌, refl, ◌↔◌, arith,
}
use nitzan_shinnies_inspecti.Prelude.Result.{ok}

-- `lo <= s < hi`, as the runtime tests it
abbrev pub Within : ℕ → ℕ × ℕ → Type 0
Within s r = (r.0 ≤ s) × (s < r.1)

-- The configurations that are accepted.
pub validate_iff :
    (t w : ℤ) → (validate_total_shards_vs_workers t w ≡ ok tt) ↔ ((pos 1 ≤ℤ w) × (w ≤ℤ t))
unfolding validate_total_shards_vs_workers
validate_iff t w = (λ h. (ground arith, ground arith), λ h. ground arith)

owned_shard_range_lem :
    (p t w : ℕ)
    → 1 ≤ w
    → w ≤ t
    → p < w
    → owned_shard_range (pos p) (pos t) (pos w)
      ≡ ok (p * ceil_div t w, min ((p + 1) * ceil_div t w) t)
unfolding owned_shard_range shards_per_pod validate_total_shards_vs_workers
owned_shard_range_lem p t w h k l = ground arith

owned_shard_range-eq-ok :
    (p t w : ℤ) (r : ℕ × ℕ)
    → owned_shard_range p t w ≡ ok r
    → (p ≡ pos (pos_part p))
      × (r.0 ≡ pos_part p * ceil_div (pos_part t) (pos_part w))
      × (r.1 ≡ min ((pos_part p + 1) * ceil_div (pos_part t) (pos_part w)) (pos_part t))
      × (pos (pos_part t) ≡ t)
unfolding owned_shard_range shards_per_pod validate_total_shards_vs_workers
owned_shard_range-eq-ok (pos p) (pos t) (pos w) r h = (refl, ground arith, ground arith, refl)
owned_shard_range-eq-ok p t w r h = ground arith

-- Rounding up covers: t ≤ w * ceil (t / w).
ceil_div_covers : (t w : ℕ) → 1 ≤ w → t ≤ w * ceil_div t w
ceil_div_covers t w h = grind arith

ceil_div_pos : (t w : ℕ) → 1 ≤ w → w ≤ t → 1 ≤ ceil_div t w
ceil_div_pos t w h k = grind arith

-- the block that a number falls into
div_block : (s k : ℕ) → 1 ≤ k → (s / k * k ≤ s) × (s < (s / k + 1) * k)
div_block s k h = grind arith

div_below : (s t w k : ℕ) → 1 ≤ k → s < t → t ≤ w * k → s / k < w
div_below s t w k h l m = grind arith

-- Every shard has an owner among the pods.
pub shard_is_owned :
    (s t w : ℕ)
    → 1 ≤ w
    → w ≤ t
    → s < t
    → (p : ℕ) × (p < w)
      × ((r : ℕ × ℕ) × (owned_shard_range (pos p) (pos t) (pos w) ≡ ok r) × Within s r)
shard_is_owned s t w h k l =
    let c = ceil_div t w in
    let c_pos = ceil_div_pos t w h k in
    let below = div_below s t w c c_pos l (ceil_div_covers t w h) in
    let (lo, hi) = div_block s c c_pos in
    (s / c, below, (_, owned_shard_range_lem (s / c) t w h k below, (lo, omega arith)))

blocks_disjoint : (p q c s : ℕ) → p * c ≤ s → s < (p + 1) * c → q * c ≤ s → s < (q + 1) * c → p ≤ q
blocks_disjoint p q c s a b d e = grind arith

-- A shard that lies in the ranges of two pods lies in one: it has at most one owner.
pub owner_unique :
    (s : ℕ) (p q t w : ℤ) (r r' : ℕ × ℕ)
    → owned_shard_range p t w ≡ ok r
    → owned_shard_range q t w ≡ ok r'
    → Within s r
    → Within s r'
    → p ≡ q
owner_unique s p q t w r r' h k inside inside' =
    let (p_pos, lo, hi, _) = owned_shard_range-eq-ok p t w r h in
    let (q_pos, lo', hi', _) = owned_shard_range-eq-ok q t w r' k in
    let c : ℕ = ceil_div (pos_part t) (pos_part w) in
    let a =
      blocks_disjoint (pos_part p) (pos_part q) c s (omega arith) (omega arith) (omega arith)
        (omega arith) in
    let b =
      blocks_disjoint (pos_part q) (pos_part p) c s (omega arith) (omega arith) (omega arith)
        (omega arith) in
    p_pos ∙ ap pos (omega arith) ∙ sym q_pos

-- No pod is given a shard that does not exist.
pub owned_shard_range-bounded :
    (p t w : ℤ) (r : ℕ × ℕ) → owned_shard_range p t w ≡ ok r → pos r.1 ≤ℤ t
owned_shard_range-bounded p t w r h =
    let (_, _, hi, t_pos) = owned_shard_range-eq-ok p t w r h in rw (← t_pos) (omega arith)

-- A message is assigned to a shard that exists, whatever its digest.
pub shard_for_message-lt :
    (sha256 : String → List ℕ) (mid : String) (t : ℤ)
    → pos 1 ≤ℤ t
    → (s : ℕ) × (shard_for_message sha256 mid t ≡ ok s) × (pos s <ℤ t)
unfolding shard_for_message
shard_for_message-lt sha256 mid (negsuc n) h = absurd (omega arith)
shard_for_message-lt sha256 mid (pos n) h =
    (from_bytes_be 0 (take hash_prefix_bytes (sha256 mid)) % n, ground arith, ground arith)
