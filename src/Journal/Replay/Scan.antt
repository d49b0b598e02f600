-- ===== src/Journal/Replay/Scan.antt =====
-- What the scan of a shard's segments returns.
use nitzan_shinnies_inspecti.Prelude.Int.{max_ℤ_one, ℤ, negsuc, ◌≤ℤ◌, max_ℤ, ℤ-eq, max_ℤ_bounds}
use nitzan_shinnies_inspecti.Prelude.{
  ℕ, zero, suc, ◌+◌, ◌≤◌, ◌<◌, String, ◌≡◌, refl, sym, ◌∙◌, ◌⊎◌, inl, inr, true, false, Option,
  none, some, List, [], ◌∷◌, ◌++◌, append-nil, append_assoc, arith, length, All,
}
use nitzan_shinnies_inspecti.Prelude.Result.{journal_decode, ok, err}
use nitzan_shinnies_inspecti.Prelude.Decimal.{Codes}
use nitzan_shinnies_inspecti.Journal.Records.{JournalRecord}
use nitzan_shinnies_inspecti.Journal.Records.Decode.{Codec, parse_gzip_ndjson_segment}
use nitzan_shinnies_inspecti.Journal.Keys.{journal_prefix}
use nitzan_shinnies_inspecti.Journal.Replay.{
  Page, Store, is_segment_key, raise_max, scan_key, scan_keys, scan_pages,
  load_max_record_index_for_shard,
}

-- One of the records has the index.
abbrev pub Attains : ℤ → List JournalRecord → Type 0
Attains m [] = ⊥
Attains m (r ∷ rs) = (r.record_index ≡ m) ⊎ Attains m rs

-- The index is the largest of a floor and of the indexes of the records.
abbrev pub IsMaximum : ℤ → List JournalRecord → ℤ → Type 0
IsMaximum floor rs m =
    (floor ≤ℤ m) × All (λ r. r.record_index ≤ℤ m) rs × ((m ≡ floor) ⊎ Attains m rs)

raise_max-IsMaximum : (m : ℤ) (rs : List JournalRecord) → IsMaximum m rs (raise_max m rs)
unfolding raise_max
raise_max-IsMaximum m [] = (omega arith, tt, inl refl)
raise_max-IsMaximum m (r ∷ rs) =
    let m' = max_ℤ m r.record_index in
    let (above, all, found) = raise_max-IsMaximum m' rs in
    (
      omega (arith, max_ℤ_bounds m r.record_index),
      (omega (arith, max_ℤ_bounds m r.record_index), all),
      elim found [
        | inl e ↦ elim (max_ℤ_one m r.record_index) [
          | inl f ↦ inl (e ∙ f)
          | inr f ↦ inr (inl (sym (e ∙ f)))
        ]
        | inr at ↦ inr (inr at)
      ],
    )

abbrev pub records_at : (Codes → List JournalRecord) → List Codes → List JournalRecord
records_at records [] = []
records_at records (key ∷ ks) = records key ++ records_at records ks

abbrev pub keys_of : List Page → List Codes
keys_of [] = []
keys_of (p ∷ ps) = p.keys ++ keys_of ps

raise_max-append :
    (m : ℤ) (rs qs : List JournalRecord) → raise_max m (rs ++ qs) ≡ raise_max (raise_max m rs) qs
unfolding raise_max
raise_max-append m [] qs = refl
raise_max-append m (r ∷ rs) qs = raise_max-append (max_ℤ m r.record_index) rs qs

records_at-append :
    (records : Codes → List JournalRecord) (ks js : List Codes)
    → records_at records (ks ++ js) ≡ records_at records ks ++ records_at records js
records_at-append records [] js = refl
records_at-append records (k ∷ ks) js =
    rw
      (
        records_at-append records ks js,
        append_assoc (records k) (records_at records ks) (records_at records js),
      )
      refl

module _ (codec : Codec) (store : Store) where
  -- A key that is no segment's has no records; a segment has those that it decodes to, or none when the
  -- decoder refuses it.
  abbrev pub Reads : Codes → List JournalRecord → Type 0
  Reads key rs =
      ((is_segment_key key ≡ false) × (rs ≡ []))
      ⊎ ((raw : Codes) × (is_segment_key key ≡ true)
          × (store.get_object key ≡ ok raw)
          × ((parse_gzip_ndjson_segment codec raw ≡ ok rs)
              ⊎ ((parse_gzip_ndjson_segment codec raw ≡ err journal_decode) × (rs ≡ []))))

  -- The pages of a listing, from its nth call on, each but the last truncated.
  abbrev pub Lists : Codes → ℕ → Option String → Page → List Page → Type 0
  Lists prefix n token p [] = (store.list_objects n prefix token ≡ ok p) × (p.is_truncated ≡ false)
  Lists prefix n token p (q ∷ ps) =
      (store.list_objects n prefix token ≡ ok p)
      × (p.is_truncated ≡ true)
      × Lists prefix (n + 1) p.next_token q ps

  scan_key-Reads :
      (m : ℤ) (key : Codes) (rs : List JournalRecord)
      → Reads key rs
      → scan_key codec store m key ≡ ok (raise_max m rs)
  unfolding scan_key raise_max
  scan_key-Reads m key rs (inl (other, e)) = rw (other, e) refl
  scan_key-Reads m key rs (inr (raw, segment, got, inl e)) = rw (segment, got, e) refl
  scan_key-Reads m key rs (inr (raw, segment, got, inr (e, f))) = rw (segment, got, e, f) refl

  module _ (records : Codes → List JournalRecord) where
    scan_keys-Reads :
        (m : ℤ) (ks : List Codes)
        → All (λ key. Reads key (records key)) ks
        → scan_keys codec store m ks ≡ ok (raise_max m (records_at records ks))
    unfolding scan_keys raise_max
    scan_keys-Reads m [] h = refl
    scan_keys-Reads m (k ∷ ks) (h, hs) =
        rw
          (
            scan_key-Reads m k (records k) h,
            scan_keys-Reads (raise_max m (records k)) ks hs,
            raise_max-append m (records k) (records_at records ks),
          )
          refl

    abbrev pub AllRead : List Page → Type 0
    AllRead [] = Unit
    AllRead (p ∷ ps) = All (λ key. Reads key (records key)) p.keys × AllRead ps

    scan_pages-Lists :
        (prefix : Codes) (fuel n : ℕ) (token : Option String) (m : ℤ) (p : Page) (ps : List Page)
        → Lists prefix n token p ps
        → AllRead (p ∷ ps)
        → length ps < fuel
        → scan_pages codec store fuel n prefix token m
          ≡ some (ok (raise_max m (records_at records (keys_of (p ∷ ps)))))
    unfolding scan_pages
    scan_pages-Lists prefix zero n token m p ps l h k = absurd (omega arith)
    scan_pages-Lists prefix (suc fuel) n token m p [] (e, final) (h, hs) k =
        rw (scan_pages, e, scan_keys-Reads m p.keys h, final, append-nil p.keys) refl
    scan_pages-Lists prefix (suc fuel) n token m p (q ∷ ps) (e, more, l) (h, hs) k =
        rw
          (
            scan_pages,
            e,
            scan_keys-Reads m p.keys h,
            more,
            scan_pages-Lists prefix fuel (n + 1) p.next_token
                (raise_max m (records_at records p.keys)) q ps l hs (omega arith),
            records_at-append records p.keys (keys_of (q ∷ ps)),
            raise_max-append m (records_at records p.keys) (records_at records (keys_of (q ∷ ps))),
          )
          refl

    -- When the listing of a shard's prefix has an end, every segment can be read, and the fuel is at
    -- least the number of pages, the scan returns the largest record index in the segments, or -1 when
    -- no index is larger. A segment that the decoder refuses counts as empty.
    pub load_max_record_index-IsMaximum :
        (fuel : ℕ) (shard_id : ℤ) (p : Page) (ps : List Page)
        → Lists (journal_prefix shard_id) 0 none p ps
        → AllRead (p ∷ ps)
        → length (p ∷ ps) ≤ fuel
        → (m : ℤ) × (load_max_record_index_for_shard codec store fuel shard_id ≡ some (ok m))
          × IsMaximum (negsuc 0) (records_at records (keys_of (p ∷ ps))) m
    unfolding load_max_record_index_for_shard
    load_max_record_index-IsMaximum fuel shard_id p ps l h k = (
      _,
      scan_pages-Lists (journal_prefix shard_id) fuel 0 none (negsuc 0) p ps l h (omega arith),
      raise_max-IsMaximum (negsuc 0) (records_at records (keys_of (p ∷ ps))),
    )
