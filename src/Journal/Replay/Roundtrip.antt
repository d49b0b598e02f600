-- ===== src/Journal/Replay/Roundtrip.antt =====
-- A snapshot that the writer wrote is read back.
use nitzan_shinnies_inspecti.Prelude.{◌≡◌, refl, ap, some, List, [], ◌∷◌, map}
use nitzan_shinnies_inspecti.Prelude.Int.{ℤ, ℤ-eq}
use nitzan_shinnies_inspecti.Prelude.Result.{Result, ok}
use nitzan_shinnies_inspecti.Prelude.Decimal.{Codes}
use nitzan_shinnies_inspecti.Json.{Json, Fields, obj, get_field}
use nitzan_shinnies_inspecti.Journal.Records.{item}
use nitzan_shinnies_inspecti.Journal.Keys.{snapshot_key}
use nitzan_shinnies_inspecti.Journal.Writer.Snapshot.{snapshot_body, rows_of}
use nitzan_shinnies_inspecti.Journal.Replay.{Store, load_snapshot_if_present, to_list}
use nitzan_shinnies_inspecti.Worker.Snapshot.{Casts, to_int}

to_list-rows_of : (rows : List Fields) → to_list (rows_of rows) ≡ map obj rows
to_list-rows_of [] = refl
to_list-rows_of (d ∷ ds) = ap (λ vs. obj d ∷ vs) (to_list-rows_of ds)

-- When the store has an object under a shard's snapshot key, and `json.loads` reads its body as the
-- value that `snapshot_body` gave to be written, loading the shard's snapshot gives the shard, the last
-- record index and the rows that were written.
pub load-snapshot_body :
    (casts : Casts) (loads_utf8 : Codes → Result Json) (store : Store)
    (shard_id last_record_index : ℤ) (rows : List Fields) (body : Codes)
    → store.get_object (snapshot_key shard_id) ≡ ok body
    → loads_utf8 body ≡ ok (snapshot_body shard_id last_record_index rows)
    → load_snapshot_if_present casts loads_utf8 store shard_id
      ≡ ok (
          some (record {
            shard_id = shard_id;
            last_record_index = last_record_index;
            pending = map obj rows;
          }))
unfolding load_snapshot_if_present snapshot_body item get_field to_int
load-snapshot_body casts loads_utf8 store shard_id last_record_index rows body got read =
    rw (load_snapshot_if_present, got, read, to_list-rows_of rows) refl
