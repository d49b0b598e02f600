-- ===== src/Journal/Keys.antt =====
-- The object keys of journal segments and snapshots.
use nitzan_shinnies_inspecti.Prelude.{
  ℕ, suc, ◌+◌, ◌-◌, ◌*◌, ◌/◌, ◌%◌, ◌∷◌, ◌++◌, ltb, leb, if◌then◌else◌,
}
use nitzan_shinnies_inspecti.Prelude.Int.{ℤ, pos, negsuc, ℤ-eq}
use nitzan_shinnies_inspecti.Prelude.Decimal.{Codes, codes, zero_pad, decimal}

-- f"{n:05d}"
unfoldable pub format_05d : ℤ → Codes
format_05d (pos n) = zero_pad 5 n
format_05d (negsuc n) = b'-' ∷ zero_pad 4 (suc n)

pub record UtcParts : Type 0 where
  pub year : Codes
  pub month : Codes
  pub day : Codes
  pub hour : Codes

-- `_utc_parts`: the date and the hour in UTC, from the days since 1970-01-01 by way of the days since
-- 0000-03-01, the eras of 400 years, and the years that begin in March.
pub utc_parts : ℕ → UtcParts
utc_parts now_ms =
    let z = now_ms / 86400000 + 719468 in
    let era = z / 146097 in
    let doe = z % 146097 in
    let yoe = (doe + doe / 36524 - doe / 1460 - doe / 146096) / 365 in
    let doy = doe + yoe / 100 - (365 * yoe + yoe / 4) in
    let mp = (5 * doy + 2) / 153 in
    let day = doy - (153 * mp + 2) / 5 + 1 in
    let month = if ltb mp 10 then mp + 3 else mp - 9 in
    let year = yoe + era * 400 + (if leb month 2 then 1 else 0) in
    record {
      year = zero_pad 4 year;
      month = zero_pad 2 month;
      day = zero_pad 2 day;
      hour = zero_pad 2 (now_ms / 3600000 % 24);
    }

-- f"state/journal/{shard_id:05d}/"
unfoldable pub journal_prefix : ℤ → Codes
journal_prefix shard_id = codes "state/journal/" ++ (format_05d shard_id ++ codes "/")

unfoldable pub journal_key : ℤ → UtcParts → ℕ → ℕ → Codes
journal_key shard_id u now_ms seq =
    journal_prefix shard_id
    ++ (u.year
        ++ (codes "/"
            ++ (u.month
                ++ (codes "/"
                    ++ (u.day
                        ++ (codes "/"
                            ++ (u.hour
                                ++ (codes "/"
                                    ++ (decimal now_ms
                                        ++ (codes "-"
                                            ++ (decimal seq ++ codes ".ndjson.gz")))))))))))

-- f"state/snapshot/{shard_id:05d}/latest.json"
unfoldable pub snapshot_key : ℤ → Codes
snapshot_key shard_id = codes "state/snapshot/" ++ (format_05d shard_id ++ codes "/latest.json")
