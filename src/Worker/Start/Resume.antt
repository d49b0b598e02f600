-- ===== src/Worker/Start/Resume.antt =====
-- A worker that starts goes on behind the indexes that its shards' journals hold.
use nitzan_shinnies_inspecti.Prelude.{
  ℕ, zero, suc, ◌+◌, ◌-◌, ◌≤◌, ◌<◌, String, ◌≡◌, refl, sym, ap, ◌∙◌, subst, ◌⊎◌, inl, inr, Bool,
  true, false, ◌||◌, none, some, List, [], ◌∷◌, arith, eqb, Bool-cases, Option-cases, some_inj,
  length, All,
}
use nitzan_shinnies_inspecti.Prelude.Int.{ℤ, pos, negsuc, ◌≤ℤ◌, ◌<ℤ◌, ℤ-eq, max_ℤ_bounds}
use nitzan_shinnies_inspecti.Prelude.Eq.{◌==◌, ℕ-eq, String-eq, pair_eq}
use nitzan_shinnies_inspecti.Prelude.Dict.{Dict, get, put, or_default, get-put}
use nitzan_shinnies_inspecti.Prelude.Result.{ok, err, Done, ok_inj}
use nitzan_shinnies_inspecti.Prelude.Text.{strip}
use nitzan_shinnies_inspecti.Prelude.Decimal.{Codes}
use nitzan_shinnies_inspecti.Settings.{Settings}
use nitzan_shinnies_inspecti.Domain.Sharding.{owned_shard_range}
use nitzan_shinnies_inspecti.Journal.Keys.{journal_prefix}
use nitzan_shinnies_inspecti.Journal.Records.{JournalRecord}
use nitzan_shinnies_inspecti.Journal.Records.Decode.{Codec}
use nitzan_shinnies_inspecti.Journal.Replay.{
  Store, Page, load_max_record_index_for_shard, load_max_record_index_parallel,
}
use nitzan_shinnies_inspecti.Journal.Replay.Scan.{
  Lists, AllRead, records_at, keys_of, load_max_record_index-IsMaximum,
}
use nitzan_shinnies_inspecti.Journal.Writer.{new_writer, get_last_record_index}
use nitzan_shinnies_inspecti.Journal.Writer.Index.{
  Request, built, indexes_of, IncreasesFrom, built-IncreasesFrom,
}
use nitzan_shinnies_inspecti.Worker.Runtime.{Runtime, MessageState}
use nitzan_shinnies_inspecti.Worker.Main.{count_up, owned_shards, bootstrap_hwm_for_shards}
use nitzan_shinnies_inspecti.Worker.Start.{Sources, started, worker_start}

abbrev is_in : ℤ → List ℤ → Bool
is_in sid [] = false
is_in sid (s ∷ sids) = (s == sid) || is_in sid sids

is_in-count_up :
    (k n start : ℕ) → start ≤ k → k < start + n → is_in (pos k) (count_up n start) ≡ true
is_in-count_up k zero start h l = absurd (omega arith)
is_in-count_up k (suc n) start h l = elim (Bool-cases (eqb start k)) [
  | inl same ↦ ground arith
  | inr other ↦ ground (arith, is_in-count_up k n (start + 1) (ground arith) (ground arith))
]

module _ (codec : Codec) (store : Store) (fuel : ℕ) (sid m : ℤ)
    (loaded : load_max_record_index_for_shard codec store fuel sid ≡ some (ok m)) where
  still_there :
      (s n : ℤ) (sids : List ℤ) (hwm0 : Dict ℤ ℤ)
      → load_max_record_index_for_shard codec store fuel s ≡ some (ok n)
      → (is_in sid (s ∷ sids) ≡ true) ⊎ (get hwm0 sid ≡ some m)
      → (is_in sid sids ≡ true) ⊎ (get (put hwm0 s n) sid ≡ some m)
  still_there s n sids hwm0 f h = elim (Bool-cases (s == sid)) [
    | inl same ↦
        let i : s ≡ sid = (ℤ-eq.beq_iff s sid).0 same in
        let j : n ≡ m =
          ok_inj (
            some_inj
              (sym f ∙ (ap (load_max_record_index_for_shard codec store fuel) i ∙ loaded))) in
        inr (rw (get-put hwm0 s sid n, same, j) refl)
    | inr other ↦ elim h [
      | inl k ↦ inl (ground arith)
      | inr k ↦ inr (rw (get-put hwm0 s sid n, other) k)
    ]
  ]

  -- The last index of a shard that is loaded, or was there and is loaded again.
  get-load_parallel :
      (sids : List ℤ) (hwm0 hwm : Dict ℤ ℤ)
      → load_max_record_index_parallel codec store fuel sids hwm0 ≡ some (ok hwm)
      → (is_in sid sids ≡ true) ⊎ (get hwm0 sid ≡ some m)
      → get hwm sid ≡ some m
  unfolding load_max_record_index_parallel
  get-load_parallel [] hwm0 hwm e (inl h) = absurd (ground arith)
  get-load_parallel [] hwm0 hwm e (inr h) = subst (λ d. get d sid ≡ some m) (ok_inj (some_inj e)) h
  get-load_parallel (s ∷ sids) hwm0 hwm e h =
      elim (Option-cases (load_max_record_index_for_shard codec store fuel s)) [
        | inl ran_out ↦
            let e' : none ≡ some (ok hwm) = rw (load_max_record_index_parallel, ran_out) at e in cc
        | inr (err x, f) ↦
            let e' : some (err x) ≡ some (ok hwm) = rw (load_max_record_index_parallel, f) at e in
            cc
        | inr (ok n, f) ↦
            let e' : load_max_record_index_parallel codec store fuel sids (put hwm0 s n)
                ≡ some (ok hwm) =
              rw (load_max_record_index_parallel, f) at e in
            get-load_parallel sids (put hwm0 s n) hwm e' (still_there s n sids hwm0 f h)
      ]

  last_index :
      (hwm : Dict ℤ ℤ) → get hwm sid ≡ some m → m ≤ℤ get_last_record_index (new_writer hwm) sid
  unfolding get_last_record_index get
  last_index hwm h = rw (h, or_default, get) (omega (arith, max_ℤ_bounds m (negsuc 0)))

-- The indexes of the stored records are below an index.
below :
    (m k : ℤ) (rs : List JournalRecord)
    → m <ℤ k
    → All (λ r. r.record_index ≤ℤ m) rs
    → All (λ r. r.record_index <ℤ k) rs
below m k [] lt h = tt
below m k (r ∷ rs) lt (x, h) = (omega arith, below m k rs lt h)

-- Indexes that increase from a bound of the stored ones are above each of them.
above_stored :
    (n m : ℤ) (rs : List JournalRecord) (is : List ℤ)
    → m ≤ℤ n
    → All (λ r. r.record_index ≤ℤ m) rs
    → IncreasesFrom n is
    → All (λ i. All (λ r. r.record_index <ℤ i) rs) is
above_stored n m rs [] le h inc = tt
above_stored n m rs (k ∷ ks) le h (lt, inc) =
    (below m k rs (omega arith) h, above_stored k m rs ks (omega arith) h inc)

module _ (sources : Sources) (settings : Settings) (fuel : ℕ) (rt : Runtime) (r : ℕ × ℕ)
    (owned : owned_shard_range settings.worker_index settings.total_shards settings.worker_replicas
      ≡ ok r)
    (start : worker_start sources settings fuel ≡ some (ok rt)) where
  started-journal :
      (hwm : Dict ℤ ℤ) (loaded : Done × Dict String MessageState)
      → started hwm loaded ≡ ok rt
      → rt.journal ≡ new_writer hwm
  started-journal hwm (ok a, states) e = ap (λ x. x.journal) (sym (ok_inj e))
  started-journal hwm (err x, states) e = cc

  start-journal :
      (hwm : Dict ℤ ℤ) × (bootstrap_hwm_for_shards sources.codec sources.store settings fuel
          (owned_shards r)
        ≡ some (ok hwm))
      × (rt.journal ≡ new_writer hwm)
  unfolding worker_start
  start-journal =
      elim (Option-cases
        (bootstrap_hwm_for_shards sources.codec sources.store settings fuel (owned_shards r))) [
          | inl ran_out ↦
              let e : none ≡ some (ok rt) = rw (worker_start, owned, ran_out) at start in cc
          | inr (err x, f) ↦
              let e : some (err x) ≡ some (ok rt) = rw (worker_start, owned, f) at start in cc
          | inr (ok hwm, f) ↦
              (hwm, f, started-journal hwm _ (some_inj (rw (worker_start, owned, f) at start)))
        ]

  -- A worker that has started, with a bucket, builds records with indexes above those of every record
  -- that the journal of their shard holds: for each shard of its range whose listing has an end within
  -- the fuel and whose segments can be read.
  pub worker_start-IsAbove :
      (records : Codes → List JournalRecord) (k : ℕ) (p : Page) (ps : List Page) (qs : List Request)
      → (strip settings.s3_bucket == "") ≡ false
      → r.0 ≤ k
      → k < r.1
      → Lists sources.codec sources.store (journal_prefix (pos k)) 0 none p ps
      → AllRead sources.codec sources.store records (p ∷ ps)
      → length (p ∷ ps) ≤ fuel
      → All
          (λ i. All (λ x. x.record_index <ℤ i) (records_at records (keys_of (p ∷ ps))))
          (indexes_of (pos k) (built qs rt.journal))
  unfolding bootstrap_hwm_for_shards owned_shards
  worker_start-IsAbove records k p ps qs bucket low high l h enough =
      let (hwm, boot, journal) = start-journal in
      let (m, loaded, (floor, all, found)) =
        load_max_record_index-IsMaximum sources.codec sources.store records fuel (pos k) p ps l h
          enough in
      let run : load_max_record_index_parallel sources.codec sources.store fuel (owned_shards r) []
          ≡ some (ok hwm) =
        rw (bootstrap_hwm_for_shards, bucket) at boot in
      let here =
        get-load_parallel sources.codec sources.store fuel (pos k) m loaded (owned_shards r) [] hwm
          run (inl (is_in-count_up k (r.1 - r.0) r.0 low (omega arith))) in
      rw journal (
        above_stored (get_last_record_index (new_writer hwm) (pos k)) m _ _
          (last_index sources.codec sources.store fuel (pos k) m loaded hwm here) all
          (built-IncreasesFrom qs (new_writer hwm) (pos k)))
