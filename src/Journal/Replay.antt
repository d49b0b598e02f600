-- ===== src/Journal/Replay.antt =====
-- inspectio/journal/replay.py: loading a snapshot, the last record index of a shard, and the records
-- that follow a snapshot.
pub mod Scan
pub mod Roundtrip
mod Tests
use nitzan_shinnies_inspecti.Prelude.{
  ℕ, zero, suc, ◌+◌, ◌-◌, String, Bool, true, false, Option, none, some, List, [], ◌∷◌, map,
  if◌then◌else◌, length, drop, keep,
}
use nitzan_shinnies_inspecti.Prelude.Int.{ℤ, negsuc, ltb_ℤ, max_ℤ, ℤ-eq}
use nitzan_shinnies_inspecti.Prelude.Eq.{◌==◌, ℕ-eq, String-eq, pair_eq}
use nitzan_shinnies_inspecti.Prelude.Dict.{Dict, put, keys}
use nitzan_shinnies_inspecti.Prelude.Result.{
  type_error, journal_decode, client_error, Result, ok, err, ◌>>=◌, ◌>>◌,
}
use nitzan_shinnies_inspecti.Prelude.Decimal.{Codes, codes, Codes-eq}
use nitzan_shinnies_inspecti.Json.{Json, str, arr, obj, Items, nil, cons, get_field, field_names}
use nitzan_shinnies_inspecti.Prelude.Text.{chars}
use nitzan_shinnies_inspecti.Journal.Records.{JournalRecord, item}
use nitzan_shinnies_inspecti.Journal.Records.Decode.{Codec, parse_gzip_ndjson_segment}
use nitzan_shinnies_inspecti.Journal.Keys.{journal_prefix, snapshot_key}
use nitzan_shinnies_inspecti.Worker.Snapshot.{Casts, to_int}

-- A page of `list_objects_v2`.
pub record Page : Type 0 where
  pub keys : List Codes
  pub is_truncated : Bool
  pub next_token : Option String

-- The object store as it is read: the nth listing of a prefix with its continuation token, and the body
-- of an object; the errors are ClientErrors.
pub record Store : Type 0 where
  pub list_objects : ℕ → Codes → Option String → Result Page
  pub get_object : Codes → Result Codes

pub record Snapshot : Type 0 where
  pub shard_id : ℤ
  pub last_record_index : ℤ
  pub pending : List Json

-- key.endswith(".ndjson.gz")
abbrev pub ends_with : Codes → Codes → Bool
ends_with suffix key = drop (length key - length suffix) key == suffix

abbrev pub is_segment_key : Codes → Bool
is_segment_key = ends_with (codes ".ndjson.gz")

-- max_idx = max(max_idx, r.record_index), for each record
unfoldable pub raise_max : ℤ → List JournalRecord → ℤ
raise_max m [] = m
raise_max m (r ∷ rs) = raise_max (max_ℤ m r.record_index) rs

-- `except JournalDecodeError: continue`
abbrev pub or_skip : ℤ → Result (List JournalRecord) → Result ℤ
or_skip m (ok rs) = ok (raise_max m rs)
or_skip m (err journal_decode) = ok m
or_skip m (err e) = err e

unfoldable pub replay_records_after_index : List JournalRecord → ℤ → List JournalRecord
replay_records_after_index records last_record_index =
    keep (λ r. ltb_ℤ last_record_index r.record_index) records

module _ (codec : Codec) (store : Store) where
  -- One object of a listing.
  unfoldable pub scan_key : ℤ → Codes → Result ℤ
  scan_key m key =
      if is_segment_key key
      then (store.get_object key >>= λ raw. or_skip m (parse_gzip_ndjson_segment codec raw))
      else ok m

  unfoldable pub scan_keys : ℤ → List Codes → Result ℤ
  scan_keys m [] = ok m
  scan_keys m (key ∷ ks) = scan_key m key >>= λ m'. scan_keys m' ks

  -- The loop over the pages: none when `fuel` pages did not reach the last.
  unfoldable pub scan_pages : ℕ → ℕ → Codes → Option String → ℤ → Option (Result ℤ)
  scan_pages zero n prefix token m = none
  scan_pages (suc fuel) n prefix token m = elim (store.list_objects n prefix token) [
    | err e ↦ some (err e)
    | ok page ↦ elim (scan_keys m page.keys) [
      | err e ↦ some (err e)
      | ok m' ↦ elim page.is_truncated [
        | false ↦ some (ok m')
        | true ↦ scan_pages fuel (n + 1) prefix page.next_token m'
      ]
    ]
  ]

  unfoldable pub load_max_record_index_for_shard : ℕ → ℤ → Option (Result ℤ)
  load_max_record_index_for_shard fuel shard_id =
      scan_pages fuel 0 (journal_prefix shard_id) none (negsuc 0)

  -- The first error that a shard's load raises is raised. Shards that come twice have one entry.
  unfoldable pub load_max_record_index_parallel : ℕ → List ℤ → Dict ℤ ℤ → Option (Result (Dict ℤ ℤ))
  load_max_record_index_parallel fuel [] hwm = some (ok hwm)
  load_max_record_index_parallel fuel (sid ∷ sids) hwm =
      elim (load_max_record_index_for_shard fuel sid) [
        | none ↦ none
        | some (err e) ↦ some (err e)
        | some (ok m) ↦ load_max_record_index_parallel fuel sids (put hwm sid m)
      ]

abbrev pub to_list : Items → List Json
to_list nil = []
to_list (cons v vs) = v ∷ to_list vs

module _ (casts : Casts) (loads_utf8 : Codes → Result Json) (store : Store) where
  -- list(data.get("pending", []))
  abbrev pending_of : Option Json → Result (List Json)
  pending_of none = ok []
  pending_of (some (arr vs)) = ok (to_list vs)
  pending_of (some (obj d)) = ok (map str (field_names d))
  pending_of (some (str s)) = ok (map str (chars s))
  pending_of (some v) = err type_error

  abbrev read_snapshot : Json → Result Snapshot
  read_snapshot (obj d) = do
    shard ← item d "shardId"
    shard_id ← to_int casts shard
    last ← item d "lastRecordIndex"
    last_record_index ← to_int casts last
    pending ← pending_of (get_field d "pending")
    ok (record { shard_id = shard_id; last_record_index = last_record_index; pending = pending })
  read_snapshot _ = err type_error

  unfoldable pub load_snapshot_if_present : ℤ → Result (Option Snapshot)
  load_snapshot_if_present shard_id = elim (store.get_object (snapshot_key shard_id)) [
    | err (client_error code) ↦ if code == "NoSuchKey" then ok none else err (client_error code)
    | err e ↦ err e
    | ok body ↦ (loads_utf8 body >>= λ v. read_snapshot v >>= λ s. ok (some s))
  ]
