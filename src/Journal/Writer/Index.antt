-- ===== src/Journal/Writer/Index.antt =====
-- Record indexes: each shard counts its own, above what was loaded at the start.
use nitzan_shinnies_inspecti.Prelude.Int.{
  lt_+ℤ_one, max_ℤ-suc, ℤ, pos, negsuc, ◌+ℤ◌, ◌<ℤ◌, leb_ℤ, ℤ-eq,
}
use nitzan_shinnies_inspecti.Prelude.{
  String, ◌≡◌, refl, ap, subst, inl, inr, false, some, List, [], ◌∷◌, arith, if◌then◌else◌,
  Bool-cases,
}
use nitzan_shinnies_inspecti.Prelude.Eq.{◌==◌, ℕ-eq, String-eq, pair_eq}
use nitzan_shinnies_inspecti.Prelude.Dict.{get, or_default, get-put}
use nitzan_shinnies_inspecti.Prelude.Result.{Result, ok}
use nitzan_shinnies_inspecti.Json.{Fields}
use nitzan_shinnies_inspecti.Journal.Records.{
  RecordType, JournalRecord, validate_monotonic_record_index,
}
use nitzan_shinnies_inspecti.Journal.Writer.{
  Writer, get_last_record_index, next_record_index, build_record,
}

-- The arguments of `build_record`.
pub record Request : Type 0 where
  pub shard_id : ℤ
  pub type : RecordType
  pub message_id : String
  pub ts_ms : ℤ
  pub payload : Fields

module _ (q : Request) (w : Writer) where
  abbrev pub record_of : JournalRecord
  record_of = record {
    type = q.type;
    shard_id = q.shard_id;
    message_id = q.message_id;
    ts_ms = q.ts_ms;
    record_index = get_last_record_index w q.shard_id +ℤ pos 1;
    payload = q.payload;
  }

  abbrev pub build : Result JournalRecord × Writer
  build = build_record q.shard_id q.type q.message_id q.ts_ms q.payload w

  build_record-result : build.0 ≡ ok record_of
  unfolding build_record next_record_index
  build_record-result = refl

  -- the loaded index is a floor below every later one
  get_last_record_index-build :
      (j : ℤ)
      → get_last_record_index build.1 j ≡ (
          if q.shard_id == j then get_last_record_index w j +ℤ pos 1 else get_last_record_index w j)
  unfolding build_record next_record_index get_last_record_index
  get_last_record_index-build j = ground (
    arith,
    get-put w.last_assigned q.shard_id j (get_last_record_index w q.shard_id +ℤ pos 1),
    ℤ-eq.beq_iff q.shard_id j,
    max_ℤ-suc (or_default (get w.hwm j) (negsuc 0)) (or_default (get w.last_assigned j) (negsuc 0)),
  )

  fresh :
      leb_ℤ (get_last_record_index w q.shard_id +ℤ pos 1) (get_last_record_index w q.shard_id)
      ≡ false
  fresh = ground (arith, lt_+ℤ_one (get_last_record_index w q.shard_id))

  -- A record that is built has its arguments and the index after the last one of its shard, so it is
  -- accepted as strictly increasing. For every shard, the last index is then the record's, if it is the
  -- record's shard, and what it was before, if it is another.
  pub build_record_lem :
      (j : ℤ)
      → (build.0 ≡ ok record_of)
        × (validate_monotonic_record_index (some (get_last_record_index w q.shard_id)) record_of
            ≡ ok tt)
        × (get_last_record_index build.1 j
            ≡ (if q.shard_id == j then record_of.record_index else get_last_record_index w j))
  unfolding validate_monotonic_record_index
  build_record_lem j = (
    build_record-result,
    rw fresh,
    ground (arith, get_last_record_index-build j, ℤ-eq.beq_iff q.shard_id j),
  )

-- The records that a run of `build_record` calls returns.
abbrev pub built : List Request → Writer → List JournalRecord
built [] w = []
built (q ∷ qs) w = record_of q w ∷ built qs (build q w).1

-- Strictly increasing, from above a start.
abbrev pub IncreasesFrom : ℤ → List ℤ → Type 0
IncreasesFrom n [] = Unit
IncreasesFrom n (k ∷ ks) = (n <ℤ k) × IncreasesFrom k ks

abbrev pub indexes_of : ℤ → List JournalRecord → List ℤ
indexes_of sid [] = []
indexes_of sid (r ∷ rs) =
    let rest = indexes_of sid rs in if r.shard_id == sid then r.record_index ∷ rest else rest

-- However the calls of the shards are mixed, each shard's indexes strictly increase, from above the
-- last index that its journal held.
pub built-IncreasesFrom :
    (qs : List Request) (w : Writer) (sid : ℤ)
    → IncreasesFrom (get_last_record_index w sid) (indexes_of sid (built qs w))
built-IncreasesFrom [] w sid = tt
built-IncreasesFrom (q ∷ qs) w sid =
    let rest = indexes_of sid (built qs (build q w).1) in
    let ih = built-IncreasesFrom qs (build q w).1 sid in
    elim (Bool-cases (q.shard_id == sid)) [
      | inl same ↦
          let e : get_last_record_index w q.shard_id ≡ get_last_record_index w sid =
            ap (get_last_record_index w) ((ℤ-eq.beq_iff q.shard_id sid).0 same) in
          rw same (
            rw e (lt_+ℤ_one (get_last_record_index w sid)),
            subst (λ n. IncreasesFrom n rest) (ground (arith, get_last_record_index-build q w sid))
                ih,
          )
      | inr other ↦ rw other (
          subst (λ n. IncreasesFrom n rest) (ground (arith, get_last_record_index-build q w sid))
            ih)
    ]
