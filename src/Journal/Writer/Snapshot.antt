-- ===== src/Journal/Writer/Snapshot.antt =====
-- The snapshot functions of inspectio/journal/writer.py and of the snapshot loop of inspectio/worker/main.py.
use nitzan_shinnies_inspecti.Prelude.{inr}
use nitzan_shinnies_inspecti.Prelude.{◌<◌}
use nitzan_shinnies_inspecti.Prelude.{
  ℕ, zero, suc, ◌+◌, ◌<◌, sym, ap, subst, inr, Bool-cases, String, ◌≡◌, refl, ◌⊎◌, inl, Bool, true,
  false, ◌||◌, List, [], ◌∷◌, arith, if◌then◌else◌,
}
use native.Mathlib.Nat.{add-zero}
use nitzan_shinnies_inspecti.Prelude.Int.{ℤ, pos, ℤ-eq}
use nitzan_shinnies_inspecti.Prelude.Eq.{◌==◌, ℕ-eq, String-eq, pair_eq}
use nitzan_shinnies_inspecti.Prelude.Dict.{Dict, put}
use nitzan_shinnies_inspecti.Prelude.Result.{Done, client_error, connection_error, ok, err}
use nitzan_shinnies_inspecti.Prelude.Exec.{Exec, pure}
use nitzan_shinnies_inspecti.Prelude.Text.{strip}
use nitzan_shinnies_inspecti.Prelude.Decimal.{Codes, Codes-eq}
use nitzan_shinnies_inspecti.Json.{Json, Fields, Items, nil, cons, end, field, int, arr, obj}
use nitzan_shinnies_inspecti.Settings.{Settings}
use nitzan_shinnies_inspecti.Journal.S3.{PutAnswer, PutAnswer-cases, stored, refused, lost}
use nitzan_shinnies_inspecti.Journal.Keys.{snapshot_key}
use nitzan_shinnies_inspecti.Journal.Writer.{
  next_delay, s3_retry_base_delay_ms, s3_retry_max_attempts,
}

-- The snapshot objects that the store has, by key, with the calls of `put_object` and the sleep.
pub record Snapshots : Type 0 where
  pub objects : Dict Codes Json
  pub puts : ℕ
  pub slept_ms : ℕ

abbrev pub rows_of : List Fields → Items
rows_of [] = nil
rows_of (d ∷ ds) = cons (obj d) (rows_of ds)

-- The value that `snapshot_body` serialises.
unfoldable pub snapshot_body : ℤ → ℤ → List Fields → Json
snapshot_body shard_id last_record_index pending = obj (
    field "v" (int (pos 1)) (
      field "shardId" (int shard_id) (
        field "lastRecordIndex" (int last_record_index)
          (field "pending" (arr (rows_of pending)) end))))

-- code not in ("Throttling", "SlowDown", "ServiceUnavailable"): an "InternalError" is raised here
abbrev pub is_throttle : String → Bool
is_throttle code = code == "Throttling" || (code == "SlowDown" || code == "ServiceUnavailable")

module _ (put_answer : ℕ → PutAnswer) where
  -- The loop of `write_snapshot`, with the attempts left and the delay; it ends without an error when
  -- none is left.
  unfoldable pub snapshot_attempts : ℕ → ℕ → Codes → Json → Exec Snapshots Unit
  snapshot_attempts zero delay key body s = (ok tt, s)
  snapshot_attempts (suc n) delay key body s =
      let s' = record s { puts = s.puts + 1 } in
      elim (put_answer s.puts) [
        | stored ↦ (ok tt, record s' { objects = put s.objects key body })
        | refused code ↦ elim (is_throttle code) [
          | true ↦
              snapshot_attempts n (next_delay delay) key body
                (record s' { slept_ms = s.slept_ms + delay })
          | false ↦ (err (client_error code), s')
        ]
        | lost took_effect ↦ (
          err connection_error,
          record s' { objects = if took_effect then put s.objects key body else s.objects },
        )
      ]

  unfoldable pub write_snapshot : Settings → ℤ → ℤ → List Fields → Exec Snapshots Unit
  unfolding snapshot_body
  write_snapshot settings shard_id last_record_index pending =
      if strip settings.s3_bucket == ""
      then pure tt
      else snapshot_attempts s3_retry_max_attempts s3_retry_base_delay_ms (snapshot_key shard_id)
          (snapshot_body shard_id last_record_index pending)

  -- How a write ended when the last answer of the store was `answer`: it returned and the snapshot is the
  -- object of the key; or it raised the ClientError of a refusal that is not retried, and no object changed;
  -- or the connection was lost, and the snapshot is the object of the key, or no object changed.
  abbrev pub EndedBy : Codes → Json → Snapshots → Done × Snapshots → PutAnswer → Type 0
  EndedBy key body s (r, s') stored = (r ≡ ok tt) × (s'.objects ≡ put s.objects key body)
  EndedBy key body s (r, s') (refused code) =
      (r ≡ err (client_error code)) × (s'.objects ≡ s.objects) × (is_throttle code ≡ false)
  EndedBy key body s (r, s') (lost took_effect) =
      (r ≡ err connection_error)
      × (s'.objects ≡ (if took_effect then put s.objects key body else s.objects))

  -- The store refused the call because it is overloaded.
  abbrev pub Throttled : ℕ → Type 0
  Throttled j = (code : String) × (put_answer j ≡ refused code) × (is_throttle code ≡ true)

  -- The call made before `n` was the last, all of a write from `m` on before it were throttled, or
  -- the write made `most` calls, all throttled: then it returned and no object changed.
  abbrev pub Outcome : ℕ → Codes → Json → Snapshots → Done × Snapshots → Type 0
  Outcome most key body s (r, s') =
      ((n : ℕ) × (n < most)
        × (s'.puts ≡ s.puts + n + 1)
        × ((j : ℕ) → j < n → Throttled (s.puts + j))
        × EndedBy key body s (r, s') (put_answer (s.puts + n)))
      ⊎ ((s'.puts ≡ s.puts + most)
          × ((j : ℕ) → j < most → Throttled (s.puts + j))
          × (r ≡ ok tt)
          × (s'.objects ≡ s.objects))

  -- A throttled call before others that were throttled.
  Throttled-before :
      (m k : ℕ)
      → Throttled m
      → ((j : ℕ) → j < k → Throttled (m + 1 + j))
      → (j : ℕ) → j < suc k
      → Throttled (m + j)
  Throttled-before m k first rest zero lt = subst Throttled (sym (add-zero m)) first
  Throttled-before m k first rest (suc i) lt = subst Throttled (omega arith) (rest i (omega arith))

  -- A write that goes on after a throttled call.
  retried :
      (most delay : ℕ) (key : Codes) (body : Json) (s : Snapshots) (p : Done × Snapshots)
      → Throttled s.puts
      → Outcome most key body (record s { puts = s.puts + 1; slept_ms = s.slept_ms + delay }) p
      → Outcome (suc most) key body s p
  retried most delay key body s p first (inl (n, lt, last, before, ended)) = inl (
    suc n,
    omega arith,
    omega (arith, last),
    Throttled-before s.puts n first before,
    subst (λ m. EndedBy key body s p (put_answer m)) (omega arith) ended,
  )
  retried most delay key body s p first (inr (last, before, r, o)) =
      inr (omega (arith, last), Throttled-before s.puts most first before, r, o)

  snapshot_attempts-Outcome :
      (most delay : ℕ) (key : Codes) (body : Json) (s : Snapshots)
      → Outcome most key body s (snapshot_attempts most delay key body s)
  unfolding snapshot_attempts
  snapshot_attempts-Outcome zero delay key body s =
      inr (omega arith, λ j lt. absurd (omega arith), refl, refl)
  snapshot_attempts-Outcome (suc n) delay key body s =
      let here : put_answer (s.puts + 0) ≡ put_answer s.puts = ap put_answer (add-zero s.puts) in
      let none_before : (j : ℕ) → j < 0 → Throttled (s.puts + j) = λ j lt. absurd (omega arith) in
      elim (PutAnswer-cases (put_answer s.puts)) [
        | inl e ↦
            rw (snapshot_attempts, e)
              (inl (0, omega arith, omega arith, none_before, rw (here, e) (refl, refl)))
        | inr (inl (code, e)) ↦ elim (Bool-cases (is_throttle code)) [
          | inl again ↦
              let s1 : Snapshots = record s { puts = s.puts + 1; slept_ms = s.slept_ms + delay } in
              let rest = snapshot_attempts-Outcome n (next_delay delay) key body s1 in
              let step : snapshot_attempts (suc n) delay key body s
                  ≡ snapshot_attempts n (next_delay delay) key body s1 =
                rw (snapshot_attempts, e, again) refl in
              subst (Outcome (suc n) key body s) (sym step) (
                retried n delay key body s (snapshot_attempts n (next_delay delay) key body s1)
                  (code, e, again) rest)
          | inr never ↦
              rw (snapshot_attempts, e, never)
                (inl (0, omega arith, omega arith, none_before, rw (here, e) (refl, refl, never)))
        ]
        | inr (inr (b, e)) ↦
            rw (snapshot_attempts, e)
              (inl (0, omega arith, omega arith, none_before, rw (here, e) (refl, refl)))
      ]

  -- Without a bucket a snapshot write does nothing. Else it makes 1 to 8 calls of the store, and all but the
  -- last are throttled. If the last stored the snapshot, the write returns and the object of the shard's key
  -- is the snapshot. If it was refused and is not throttled, its ClientError is raised and no object changes.
  -- If its connection was lost, that error is raised, and the object of the key is the snapshot or no object
  -- changes, as the store took it or not. If all of 8 calls are throttled, the write returns and no object
  -- changes.
  pub write_snapshot-Outcome :
      (settings : Settings) (shard_id last : ℤ) (rows : List Fields) (s : Snapshots)
      → (((strip settings.s3_bucket == "") ≡ true)
          × (write_snapshot settings shard_id last rows s ≡ (ok tt, s)))
        ⊎ (((strip settings.s3_bucket == "") ≡ false)
            × Outcome 8
                (snapshot_key shard_id)
                (snapshot_body shard_id last rows)
                s
                (write_snapshot settings shard_id last rows s))
  unfolding write_snapshot
  write_snapshot-Outcome settings shard_id last rows s =
      elim (Bool-cases (strip settings.s3_bucket == "")) [
        | inl blank ↦ inl (blank, rw blank refl)
        | inr bucket ↦ inr (
          bucket,
          rw bucket (
              snapshot_attempts-Outcome 8 50 (snapshot_key shard_id)
                (snapshot_body shard_id last rows) s),
        )
      ]
