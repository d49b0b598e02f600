-- ===== src/Ingest/Producer/Batch.antt =====
-- What the batches of a group return.
use nitzan_shinnies_inspecti.Prelude.{
  ℕ, zero, suc, ◌+◌, ◌≤◌, String, ◌≡◌, refl, sym, subst, Option, List, [], ◌∷◌, ◌++◌, map, arith,
  length, take, drop, length-drop, take-append-drop,
}
use nitzan_shinnies_inspecti.Prelude.Dict.{Dict}
use nitzan_shinnies_inspecti.Prelude.Result.{ok_inj, ok}
use nitzan_shinnies_inspecti.Prelude.Exec.{bind-eq-ok}
use nitzan_shinnies_inspecti.Ingest.Producer.{
  IngestPutInput, IngestPutResult, Sqs, Sent, Indexed, IsFor, batch_results, zip_index,
  send_fifo_batch, send_batch, retry_failed, record_successes, build_batch_entries, run_group,
}

-- One result for each message, in the same order, under its number and with its id and shard.
abbrev pub AllFor : Indexed IngestPutInput → Indexed IngestPutResult → Type 0
AllFor [] [] = Unit
AllFor [] (r ∷ rs) = ⊥
AllFor (x ∷ xs) [] = ⊥
AllFor (x ∷ xs) (r ∷ rs) = (r.0 ≡ x.0) × IsFor x.1 r.1 × AllFor xs rs

pub AllFor-append :
    (xs ys : Indexed IngestPutInput) (rs qs : Indexed IngestPutResult)
    → AllFor xs rs
    → AllFor ys qs
    → AllFor (xs ++ ys) (rs ++ qs)
AllFor-append [] ys [] qs h k = k
AllFor-append [] ys (r ∷ rs) qs h k = absurd h
AllFor-append (x ∷ xs) ys [] qs h k = absurd h
AllFor-append (x ∷ xs) ys (r ∷ rs) qs (e, f, h) k = (e, f, AllFor-append xs ys rs qs h k)

module _ (sqs : Sqs) where
  zip_index-AllFor :
      (d : Dict ℕ (Option String)) (i : ℕ) (xs : Indexed IngestPutInput)
      → AllFor xs (zip_index sqs xs (batch_results d i (map (λ x. x.1) xs)))
  unfolding batch_results
  zip_index-AllFor d i [] = tt
  zip_index-AllFor d i (x ∷ xs) = (refl, (refl, refl), zip_index-AllFor d (i + 1) xs)

  send_fifo_batch-eq-ok :
      (chunk : List IngestPutInput) (s : Sent) {rs : List IngestPutResult}
      → (send_fifo_batch sqs chunk s).0 ≡ ok rs
      → (d : Dict ℕ (Option String)) × (batch_results d 0 chunk ≡ rs)
  unfolding send_fifo_batch
  send_fifo_batch-eq-ok chunk s h =
      let entries = build_batch_entries sqs 0 chunk in
      let (answer, _, e) = bind-eq-ok (send_batch sqs entries) _ s h in
      let s1 = (send_batch sqs entries s).1 in
      let (d, _, f) =
        bind-eq-ok (retry_failed sqs chunk answer.failed (record_successes answer.successful [])) _
          s1 (rw e at h) in
      (d, ok_inj (rw (e, f) at h))

  -- The batches of a group that return give one result for each message of the group, in the same
  -- order, under its number and with its id and shard, when the fuel is at least their number.
  pub run_group-AllFor :
      (fuel : ℕ) (xs : Indexed IngestPutInput) (s : Sent) (out : Indexed IngestPutResult)
      → length xs ≤ fuel
      → (run_group sqs fuel xs s).0 ≡ ok out
      → AllFor xs out
  unfolding run_group
  run_group-AllFor zero [] s out k h = rw (sym (ok_inj h)) tt
  run_group-AllFor zero (x ∷ xs) s out k h = absurd (omega arith)
  run_group-AllFor (suc fuel) [] s out k h = rw (sym (ok_inj h)) tt
  run_group-AllFor (suc fuel) (x ∷ xs) s out k h =
      let chunk = take 10 (x ∷ xs) in
      let rest = drop 10 (x ∷ xs) in
      let inputs = map (λ y. y.1) chunk in
      let (rs, sent, e) = bind-eq-ok (send_fifo_batch sqs inputs) _ s h in
      let s1 = (send_fifo_batch sqs inputs s).1 in
      let (qs, went, f) = bind-eq-ok (run_group sqs fuel rest) _ s1 (rw e at h) in
      let (d, g) = send_fifo_batch-eq-ok inputs s sent in
      let first : AllFor chunk (zip_index sqs chunk rs) =
        subst (λ y. AllFor chunk (zip_index sqs chunk y)) g (zip_index-AllFor d 0 chunk) in
      let others : AllFor rest qs =
        run_group-AllFor fuel rest s1 qs (omega (arith, length-drop 10 (x ∷ xs))) went in
      subst (λ y. AllFor (x ∷ xs) y) (ok_inj (rw (e, f) at h))
        (subst (λ y. AllFor y (zip_index sqs chunk rs ++ qs)) (take-append-drop 10 (x ∷ xs))
          (AllFor-append chunk rest (zip_index sqs chunk rs) qs first others))
