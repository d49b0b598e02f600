-- ===== src/Archive/Submit/Keys.antt =====
-- The key of a pending row names its message.
use nitzan_shinnies_inspecti.Prelude.{
  ◌%◌, subst, suc, ◌<◌, ◌∙◌, Bool, ℕ, ◌+◌, ◌≡◌, refl, ap, ◌⊎◌, inl, inr, true, false, some, List,
  arith, Bool-cases,
}
use nitzan_shinnies_inspecti.Archive.Submit.{join, SubmittedMessage, pending_submission_record}
use nitzan_shinnies_inspecti.Archive.Keys.{
  message_id_from_pending_key, unless_empty, is_slash, split_slash, last_part, before_suffix,
}
use Prim.Native.Char.{Char}
use Prim.Native.Nat.{zero}
use Prim.Native.String.{String, [], ◌∷◌, ◌++◌, count}
use nitzan_shinnies_inspecti.Prelude.Eq.{◌==◌, String-eq}
use nitzan_shinnies_inspecti.Prelude.Text.{digits_text}
use nitzan_shinnies_inspecti.Prelude.Int.{ℤ, pos}
use nitzan_shinnies_inspecti.Prelude.Decimal.{Codes, decimal}
use nitzan_shinnies_inspecti.Prelude.Result.{ok, ok_inj}
use nitzan_shinnies_inspecti.Json.{Fields}
use nitzan_shinnies_inspecti.Archive.Rules.{pending_prefix_for_shard, shard_id_for_message}
use nitzan_shinnies_inspecti.Archive.Store.Memory.{ObjectWrite}
use Prim.Native.String.append
use Prim.Native.String.count

abbrev pub HasNoSlash : String → Type 0
HasNoSlash [] = Unit
HasNoSlash (c ∷ s) = (is_slash c ≡ false) × HasNoSlash s

abbrev EndsInSlash : String → Type 0
EndsInSlash [] = ⊥
EndsInSlash (c ∷ s) = ((s ≡ []) × (is_slash c ≡ true)) ⊎ EndsInSlash s

EndsInSlash-append : (a q : String) → EndsInSlash q → EndsInSlash (a ++ q)
EndsInSlash-append [] q h = rw (append.nil q) h
EndsInSlash-append (c ∷ a) q h = rw (append.cons c a q) (inr (EndsInSlash-append a q h))

HasNoSlash-append : (a q : String) → HasNoSlash a → HasNoSlash q → HasNoSlash (a ++ q)
HasNoSlash-append [] q h k = rw (append.nil q) k
HasNoSlash-append (c ∷ a) q (e, h) k = rw (append.cons c a q) (e, HasNoSlash-append a q h k)

split_no_slash : (s : String) → HasNoSlash s → split_slash s ≡ List.◌∷◌ s List.[]
unfolding split_slash
split_no_slash [] h = refl
split_no_slash (c ∷ s) (e, h) = rw (e, split_no_slash s h) refl

split-after_slash :
    (p s : String)
    → EndsInSlash p
    → HasNoSlash s
    → (q r : String) × (rs : List String) × (split_slash (p ++ s) ≡ List.◌∷◌ q (List.◌∷◌ r rs))
      × (last_part (List.◌∷◌ r rs) ≡ s)
unfolding split_slash
split-after_slash [] s h k = absurd h
split-after_slash (c ∷ p) s (inl (e, slash)) k =
    ([], s, List.[], rw (append.cons c p s, e, append.nil s, split_no_slash s k, slash) refl, refl)
split-after_slash (c ∷ p) s (inr h) k =
    let (q, r, rs, e, f) = split-after_slash p s h k in
    elim (Bool-cases (is_slash c)) [
      | inl slash ↦ ([], q, List.◌∷◌ r rs, rw (append.cons c p s, e, slash) refl, f)
      | inr other ↦ (c ∷ q, r, rs, rw (append.cons c p s, e, other) refl, f)
    ]

count_append : (s t : String) → count (s ++ t) ≡ count s + count t
count_append [] t = rw (append.nil t, count.nil) (omega arith)
count_append (c ∷ s) t =
    rw (append.cons c s t, count.cons c (s ++ t), count.cons c s, count_append s t) (omega arith)

longer : (c : Char) (s suffix : String) → ((c ∷ (s ++ suffix)) == suffix) ≡ false
longer c s suffix = elim (Bool-cases ((c ∷ (s ++ suffix)) == suffix)) [
  | inr other ↦ other
  | inl same ↦
      let e = ap count ((String-eq.beq_iff (c ∷ (s ++ suffix)) suffix).0 same) in
      absurd (omega (arith, e, count.cons c (s ++ suffix), count_append s suffix))
]

before_suffix-append :
    (s suffix : String) → ¬ (suffix ≡ []) → before_suffix suffix (s ++ suffix) ≡ some s
unfolding before_suffix
before_suffix-append s [] h = absurd (h refl)
before_suffix-append [] (d ∷ t) h =
    rw (append.nil (d ∷ t), (String-eq.beq_iff (d ∷ t) (d ∷ t)).1 refl) refl
before_suffix-append (c ∷ s) (d ∷ t) h =
    rw (append.cons c s (d ∷ t), longer c s (d ∷ t), before_suffix-append s (d ∷ t) h) refl

pending_prefix_for_shard-EndsInSlash :
    (shard_id : ℕ) → EndsInSlash (pending_prefix_for_shard shard_id)
unfolding pending_prefix_for_shard
pending_prefix_for_shard-EndsInSlash shard_id =
    EndsInSlash-append "state/pending/shard-" (digits_text (decimal shard_id) ++ "/")
      (EndsInSlash-append (digits_text (decimal shard_id)) "/" (inl (refl, refl)))

unless_empty-some : (mid : String) → ¬ (mid ≡ []) → unless_empty (some mid) ≡ some mid
unless_empty-some [] h = absurd (h refl)
unless_empty-some (c ∷ s) h = refl

message_id_from_pending_key_lem :
    (shard_id : ℕ) (mid : String)
    → HasNoSlash mid
    → ¬ (mid ≡ [])
    → message_id_from_pending_key (
        join
          (List.◌∷◌ (pending_prefix_for_shard shard_id) (List.◌∷◌ mid (List.◌∷◌ ".json" List.[]))))
      ≡ some mid
unfolding message_id_from_pending_key
message_id_from_pending_key_lem shard_id mid h k =
    let base = mid ++ ".json" in
    let (q, r, rs, e, f) =
      split-after_slash (pending_prefix_for_shard shard_id) base
        (pending_prefix_for_shard-EndsInSlash shard_id)
        (HasNoSlash-append mid ".json" h (refl, (refl, (refl, (refl, (refl, tt)))))) in
    let last : last_part (split_slash (pending_prefix_for_shard shard_id ++ base)) ≡ base =
      ap last_part e ∙ f in
    ap (λ b. unless_empty (before_suffix ".json" b)) last
    ∙ (ap unless_empty (before_suffix-append mid ".json" (λ e. cc)) ∙ unless_empty-some mid k)

-- A submitted message whose id is not empty and has no slash has a shard below the number of shards. Its
-- object is stored under its pending key, and the worker reads the id of the message back from that key.
pub pending_submission_record-key :
    (digest : String → ℕ) (dumps : Fields → Codes) (mid : String) (now_ms : ℤ) (body : String)
    (should_fail : Bool) (to : String) (total_shards : ℕ) (row : SubmittedMessage × ObjectWrite)
    → HasNoSlash mid
    → ¬ (mid ≡ [])
    → pending_submission_record digest dumps mid now_ms body should_fail to (pos total_shards)
      ≡ ok row
    → (row.0.shard_id < total_shards)
      × (row.1.key ≡ row.0.pending_key)
      × (message_id_from_pending_key row.0.pending_key ≡ some mid)
unfolding pending_submission_record shard_id_for_message
pending_submission_record-key digest dumps mid now_ms body should_fail to zero row h k e = cc
pending_submission_record-key digest dumps mid now_ms body should_fail to (suc n) row h k e =
    let same = ok_inj e in
    subst
      (λ r.
        (r.0.shard_id < suc n)
        × (r.1.key ≡ r.0.pending_key)
        × (message_id_from_pending_key r.0.pending_key ≡ some mid))
      same (omega arith, refl, message_id_from_pending_key_lem (digest mid % suc n) mid h k)
