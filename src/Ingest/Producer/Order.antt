-- ===== src/Ingest/Producer/Order.antt =====
-- The results of all groups come back in the order of the messages.
use nitzan_shinnies_inspecti.Prelude.{
  ℕ, ◌+◌, ◌<◌, ◌≡◌, refl, sym, ap, ◌∙◌, subst, inl, inr, true, false, List, [], ◌∷◌, ◌++◌, map,
  append-nil, append_assoc, arith, leb, Bool-cases, length,
}
use nitzan_shinnies_inspecti.Prelude.Eq.{◌==◌, ℕ-eq, String-eq, pair_eq}
use nitzan_shinnies_inspecti.Prelude.Dict.{Dict, get, put, values, or_default}
use nitzan_shinnies_inspecti.Prelude.Result.{Result, ok, err, ok_inj}
use nitzan_shinnies_inspecti.Prelude.Exec.{pure, continue, bind-eq-ok}
use nitzan_shinnies_inspecti.Prelude.Text.{strip}
use nitzan_shinnies_inspecti.Prelude.Decimal.{Codes, Codes-eq}
use nitzan_shinnies_inspecti.Settings.{Settings}
use nitzan_shinnies_inspecti.Ingest.Producer.{
  IngestPutInput, IngestPutResult, Sqs, Sent, Indexed, IsFor, enumerate, add_to_group,
  group_messages, insert_sorted, sort_by_index, run_group, run_groups, as_unavailable,
  results_in_order, put_grouped, put_messages, partition_key_for_shard,
}
use nitzan_shinnies_inspecti.Ingest.Producer.Batch.{AllFor, AllFor-append, run_group-AllFor}

abbrev flat : {A : Type 0} → List (List A) → List A
flat [] = []
flat (g ∷ gs) = g ++ flat gs

-- Every number is below one.
abbrev Below : {A : Type 0} → ℕ → Indexed A → Type 0
Below n [] = Unit
Below n (x ∷ xs) = (x.0 < n) × Below n xs

module _ {A : Type 0} where
  Below-left : (n : ℕ) (xs ys : Indexed A) → Below n (xs ++ ys) → Below n xs
  Below-left n [] ys h = tt
  Below-left n (x ∷ xs) ys (lt, h) = (lt, Below-left n xs ys h)

  Below-suc : (n : ℕ) (xs : Indexed A) → Below n xs → Below (n + 1) xs
  Below-suc n [] h = tt
  Below-suc n (x ∷ xs) (lt, h) = (omega arith, Below-suc n xs h)

  Below-middle :
      (n : ℕ) (a : A) (xs ys : Indexed A) → Below n (xs ++ ys) → Below (n + 1) (xs ++ (n, a) ∷ ys)
  Below-middle n a [] ys h = (omega arith, Below-suc n ys h)
  Below-middle n a (x ∷ xs) ys (lt, h) = (omega arith, Below-middle n a xs ys h)

  insert_sorted_comm :
      (x y : ℕ × A) (zs : Indexed A)
      → y.0 < x.0
      → insert_sorted y (insert_sorted x zs) ≡ insert_sorted x (insert_sorted y zs)
  insert_sorted_comm x y [] h = ground arith
  insert_sorted_comm x y (z ∷ zs) h = ground (arith, insert_sorted_comm x y zs h)

  -- A number above the others goes to the end.
  insert_sorted-last :
      (n : ℕ) (a : A) (zs : Indexed A) → Below n zs → insert_sorted (n, a) zs ≡ zs ++ (n, a) ∷ []
  insert_sorted-last n a [] h = refl
  insert_sorted-last n a (z ∷ zs) (lt, h) = ground (arith, insert_sorted-last n a zs h)

  sort_by_index-middle :
      (n : ℕ) (a : A) (xs ys : Indexed A)
      → Below n xs
      → sort_by_index (xs ++ (n, a) ∷ ys) ≡ insert_sorted (n, a) (sort_by_index (xs ++ ys))
  unfolding sort_by_index
  sort_by_index-middle n a [] ys h = refl
  sort_by_index-middle n a (x ∷ xs) ys (lt, h) =
      rw (sort_by_index-middle n a xs ys h)
        (insert_sorted_comm (n, a) x (sort_by_index (xs ++ ys)) lt)

-- A message is added somewhere to what the groups hold.
added :
    (x : ℕ × IngestPutInput) (g : Codes) (d : Dict Codes (Indexed IngestPutInput))
    → (xs : Indexed IngestPutInput) × (ys : Indexed IngestPutInput) × (flat
          (values (put d g (or_default (get d g) [] ++ x ∷ [])))
        ≡ xs ++ x ∷ ys)
      × (flat (values d) ≡ xs ++ ys)
unfolding put get values
added x g [] = ([], [], refl, refl)
added x g ((j, w) ∷ d) = elim (Bool-cases (j == g)) [
  | inl same ↦ (w, flat (values d), rw same (append_assoc w (x ∷ []) (flat (values d))), refl)
  | inr other ↦
      let (xs, ys, e, f) = added x g d in
      (
        w ++ xs,
        ys,
        rw (other, e) (sym (append_assoc w xs (x ∷ ys))),
        rw f (sym (append_assoc w xs ys)),
      )
]

-- Messages that are grouped, and sorted by their numbers again, are in order.
sort-group_messages :
    (n : ℕ) (ms : List IngestPutInput) (d : Dict Codes (Indexed IngestPutInput))
    (before : Indexed IngestPutInput)
    → sort_by_index (flat (values d)) ≡ before
    → Below n before
    → Below n (flat (values d))
    → sort_by_index (flat (values (group_messages (enumerate n ms) d))) ≡ before ++ enumerate n ms
unfolding group_messages
sort-group_messages n [] d before e b c = e ∙ sym (append-nil before)
sort-group_messages n (m ∷ ms) d before e b c =
    let (xs, ys, f, g) = added (n, m) (partition_key_for_shard m.shard_id) d in
    let c' : Below n (xs ++ ys) = rw g at c in
    let s : sort_by_index (flat (values (add_to_group (n, m) d))) ≡ before ++ (n, m) ∷ [] =
      ap sort_by_index f
      ∙ (sort_by_index-middle n m xs ys (Below-left n xs ys c')
          ∙ (ap (insert_sorted (n, m)) (ap sort_by_index (sym g) ∙ e)
              ∙ insert_sorted-last n m before b)) in
    sort-group_messages (n + 1) ms (add_to_group (n, m) d) (before ++ (n, m) ∷ []) s
      (Below-middle n m before [] (subst (Below n) (sym (append-nil before)) b))
      (subst (Below (n + 1)) (sym f) (Below-middle n m xs ys c'))
    ∙ append_assoc before ((n, m) ∷ []) (enumerate (n + 1) ms)

insert_sorted-AllFor :
    (x : ℕ × IngestPutInput) (r : ℕ × IngestPutResult) (xs : Indexed IngestPutInput)
    (rs : Indexed IngestPutResult)
    → r.0 ≡ x.0
    → IsFor x.1 r.1
    → AllFor xs rs
    → AllFor (insert_sorted x xs) (insert_sorted r rs)
insert_sorted-AllFor x r [] [] e f h = (e, f, tt)
insert_sorted-AllFor x r [] (q ∷ rs) e f h = absurd h
insert_sorted-AllFor x r (y ∷ xs) [] e f h = absurd h
insert_sorted-AllFor x r (y ∷ xs) (q ∷ rs) e f (k, l, h) = elim (Bool-cases (leb x.0 y.0)) [
  | inl le ↦ let le' : leb r.0 q.0 ≡ true = rw (e, k) le in rw (le, le') (e, f, (k, l, h))
  | inr gt ↦
      let gt' : leb r.0 q.0 ≡ false = rw (e, k) gt in
      rw (gt, gt') (k, l, insert_sorted-AllFor x r xs rs e f h)
]

sort_by_index-AllFor :
    (xs : Indexed IngestPutInput) (rs : Indexed IngestPutResult)
    → AllFor xs rs
    → AllFor (sort_by_index xs) (sort_by_index rs)
unfolding sort_by_index
sort_by_index-AllFor [] [] h = tt
sort_by_index-AllFor [] (r ∷ rs) h = absurd h
sort_by_index-AllFor (x ∷ xs) [] h = absurd h
sort_by_index-AllFor (x ∷ xs) (r ∷ rs) (e, f, h) =
    insert_sorted-AllFor x r (sort_by_index xs) (sort_by_index rs) e f
      (sort_by_index-AllFor xs rs h)

-- One result for each message, in order, with its id and shard.
abbrev pub InOrder : List IngestPutInput → List IngestPutResult → Type 0
InOrder [] [] = Unit
InOrder [] (r ∷ rs) = ⊥
InOrder (m ∷ ms) [] = ⊥
InOrder (m ∷ ms) (r ∷ rs) = IsFor m r × InOrder ms rs

AllFor-InOrder :
    (n : ℕ) (ms : List IngestPutInput) (rs : Indexed IngestPutResult)
    → AllFor (enumerate n ms) rs
    → InOrder ms (map (λ r. r.1) rs)
AllFor-InOrder n [] [] h = tt
AllFor-InOrder n [] (r ∷ rs) h = absurd h
AllFor-InOrder n (m ∷ ms) [] h = absurd h
AllFor-InOrder n (m ∷ ms) (r ∷ rs) (e, f, h) = (f, AllFor-InOrder (n + 1) ms rs h)

module _ (sqs : Sqs) where
  run_groups-AllFor :
      (gs : List (Indexed IngestPutInput)) (s : Sent) (out : Indexed IngestPutResult)
      → (run_groups sqs gs s).0 ≡ ok out
      → AllFor (flat gs) out
  unfolding run_groups
  run_groups-AllFor [] s out h = rw (sym (ok_inj h)) tt
  run_groups-AllFor (g ∷ gs) s out h =
      let (rs, went, e) = bind-eq-ok (run_group sqs (length g) g) _ s h in
      let s1 = (run_group sqs (length g) g s).1 in
      let (qs, others, f) = bind-eq-ok (run_groups sqs gs) _ s1 (rw e at h) in
      subst (AllFor (g ++ flat gs)) (ok_inj (rw (e, f) at h)) (
        AllFor-append g (flat gs) rs qs (run_group-AllFor sqs (length g) g s rs (omega arith) went)
          (run_groups-AllFor gs s1 qs others))

  results-InOrder :
      (ms : List IngestPutInput) (out : Indexed IngestPutResult)
      → AllFor (flat (values (group_messages (enumerate 0 ms) []))) out
      → InOrder ms (results_in_order sqs out)
  unfolding sort_by_index values
  results-InOrder ms out h = AllFor-InOrder 0 ms (sort_by_index out) (
      subst (λ y. AllFor y (sort_by_index out)) (sort-group_messages 0 ms [] [] refl tt tt)
        (sort_by_index-AllFor _ out h))

  ordered :
      (ms : List IngestPutInput) (r : Result (Indexed IngestPutResult)) (s : Sent)
      (rs : List IngestPutResult)
      → (continue
          (as_unavailable sqs (r, s)).0
          (λ out. pure (results_in_order sqs out))
          (as_unavailable sqs (r, s)).1).0
        ≡ ok rs
      → ((out : Indexed IngestPutResult) → r ≡ ok out → InOrder ms (results_in_order sqs out))
      → InOrder ms rs
  ordered ms (ok out) s rs h k = subst (InOrder ms) (ok_inj h) (k out refl)
  ordered ms (err e) s rs h k = cc

  put_grouped-InOrder :
      (ms : List IngestPutInput) (s : Sent) (rs : List IngestPutResult)
      → (put_grouped sqs ms s).0 ≡ ok rs
      → InOrder ms rs
  unfolding put_grouped
  put_grouped-InOrder ms s rs h =
      let gs = values (group_messages (enumerate 0 ms) []) in
      ordered ms (run_groups sqs gs s).0 (run_groups sqs gs s).1 rs h
        (λ out e. results-InOrder ms out (run_groups-AllFor gs s out e))

  -- When `put_messages` returns, it gives one result for each message, in the order of the messages, with
  -- its id and shard, however the messages are spread over groups and batches and however often a failed
  -- entry is sent again.
  pub put_messages-InOrder :
      (settings : Settings) (ms : List IngestPutInput) (s : Sent) (rs : List IngestPutResult)
      → (put_messages sqs settings ms s).0 ≡ ok rs
      → InOrder ms rs
  unfolding put_messages
  put_messages-InOrder settings [] s rs h =
      elim (Bool-cases (strip settings.ingest_queue_url == "")) [
        | inl no_url ↦ absurd (ground (arith, no_url))
        | inr url ↦
            let e : ok [] ≡ ok rs = rw (put_messages, url) at h in subst (InOrder []) (ok_inj e) tt
      ]
  put_messages-InOrder settings (m ∷ ms) s rs h =
      elim (Bool-cases (strip settings.ingest_queue_url == "")) [
        | inl no_url ↦ absurd (ground (arith, no_url))
        | inr url ↦ put_grouped-InOrder (m ∷ ms) s rs (rw (put_messages, url) at h)
      ]
