-- ===== src/Api/Admission.antt =====
-- What a repeated admission answers.
use nitzan_shinnies_inspecti.Prelude.Result.{Error, err, ok_inj, Result-cases, Result, ok}
use nitzan_shinnies_inspecti.Api.{
  catch_unavailable, is_unavailable, accepted, to_of, Api, Outside, Response, one, many,
  unavailable, new_inputs, to_queue, send_batch, repeat_body, body_of, post_messages_repeat,
  read_clock,
}
use nitzan_shinnies_inspecti.Prelude.{
  ℕ, zero, suc, ◌+◌, String, ◌≡◌, refl, sym, subst, ◌⊎◌, inl, inr, Option, List, [], ◌∷◌, map,
  arith, Bool-cases,
}
use nitzan_shinnies_inspecti.Prelude.Int.{ℤ, pos, ℤ-eq}
use nitzan_shinnies_inspecti.Prelude.Exec.{pure, lift, ◌>>=◌, bind-eq-ok}
use nitzan_shinnies_inspecti.Json.{Fields, get_field}
use nitzan_shinnies_inspecti.Settings.{Settings}
use nitzan_shinnies_inspecti.Domain.Sharding.{shard_for_message}
use nitzan_shinnies_inspecti.Ingest.Producer.{IngestPutInput}

err_not_ok : {A : Type 0} {e : Error} {a : A} → err e ≡ ok a → ⊥
err_not_ok h = cc

caught :
    (p : Result Response × Api) {r : Response}
    → (catch_unavailable p).0 ≡ ok r
    → (p.0 ≡ ok r) ⊎ (r ≡ unavailable)
caught (ok x, a) h = inl h
caught (err e, a) h = elim (Bool-cases (is_unavailable e)) [
  | inl u ↦ inr (sym (ok_inj (rw u at h)))
  | inr v ↦ absurd (err_not_ok (rw v at h))
]

module _ (outside : Outside) (settings : Settings) where
  -- The ids are the `count` ones that are drawn from the nth on, and each shard is that of its message.
  abbrev pub Names : ℕ → ℕ → List String → List ℤ → Type 0
  Names n zero [] [] = Unit
  Names n (suc count) (mid ∷ mids) (sid ∷ shards) =
      (mid ≡ outside.uuid n)
      × ((shard : ℕ) × (shard_for_message outside.sha256 mid settings.total_shards ≡ ok shard)
          × (sid ≡ pos shard))
      × Names (n + 1) count mids shards
  Names n _ _ _ = ⊥

  -- A response that accepts messages, where `n` ids were drawn before the call: its count is the one asked
  -- for, and it names the messages with their shards.
  abbrev pub Accepts : ℕ → ℕ → Response → Type 0
  Accepts n count (one r) = ⊥
  Accepts n count (many m mids shards) = (m ≡ count) × Names n count mids shards
  Accepts n count unavailable = Unit

  abbrev NamesBatch : ℕ → ℕ → List IngestPutInput → Type 0
  NamesBatch n count batch =
      Names n count (map (λ b. b.message_id) batch) (map (λ b. b.shard_id) batch)

  new_inputs-Names :
      (count : ℕ) (body : String) (to : Option String) (now : ℤ) (a : Api)
      {batch : List IngestPutInput}
      → (new_inputs outside settings count body to now a).0 ≡ ok batch
      → NamesBatch a.drawn count batch
  unfolding new_inputs
  new_inputs-Names zero body to now a h = subst (NamesBatch a.drawn zero) (ok_inj h) tt
  new_inputs-Names (suc count) body to now a h =
      let a1 : Api = record a { drawn = a.drawn + 1 } in
      let (shard, drawn, e) =
        bind-eq-ok
          (lift (shard_for_message outside.sha256 (outside.uuid a.drawn) settings.total_shards)) _
          a1 h in
      let (rest, more, f) =
        bind-eq-ok (new_inputs outside settings count body to now) _ a1 (rw e at h) in
      subst (NamesBatch a.drawn (suc count)) (ok_inj (rw (e, f) at h))
        (refl, (shard, drawn, refl), new_inputs-Names count body to now a1 more)

  send_batch-Accepts :
      (n count : ℕ) (batch : List IngestPutInput) (a : Api) (response : Response)
      → NamesBatch n count batch
      → (send_batch outside settings count batch a).0 ≡ ok response
      → Accepts n count response
  send_batch-Accepts n count batch a response e h =
      let sent = to_queue outside settings batch in
      elim (caught ((sent >>= λ rs. pure (accepted outside settings count batch)) a) h) [
        | inr u ↦ subst (Accepts n count) (sym u) tt
        | inl q ↦
            let (rs, _, f) =
              bind-eq-ok sent (λ rs. pure (accepted outside settings count batch)) a q in
            subst (Accepts n count) (ok_inj (rw f at q)) (refl, e)
      ]

  repeat_body-Accepts :
      (count : ℕ) (payload : Fields) (body : String) (a : Api) (response : Response)
      → (repeat_body outside settings count payload body a).0 ≡ ok response
      → Accepts a.drawn count response
  repeat_body-Accepts count payload body a response h =
      let now : ℤ = pos (outside.clock_ms a.clock_reads) in
      let a1 : Api = (read_clock outside settings a).1 in
      let (batch, drawn, f) =
        bind-eq-ok
          (new_inputs outside settings count body (to_of outside settings (get_field payload "to"))
            now)
          (send_batch outside settings count) a1 h in
      let a2 =
        (new_inputs outside settings count body (to_of outside settings (get_field payload "to"))
          now a1).1 in
      send_batch-Accepts a.drawn count batch a2 response
        (new_inputs-Names count body (to_of outside settings (get_field payload "to")) now a1 drawn)
        (rw f at h)

  -- A call that returns a response either says that the queue is unavailable, or accepts as many
  -- messages as were asked for, and names the ids that were drawn for them, in order, each with the shard
  -- that its id is assigned.
  pub post_messages_repeat-Accepts :
      (count : ℕ) (payload : Fields) (a : Api) (response : Response)
      → (post_messages_repeat outside settings count payload a).0 ≡ ok response
      → Accepts a.drawn count response
  unfolding post_messages_repeat
  post_messages_repeat-Accepts count payload a response h =
      elim (Result-cases (body_of (get_field payload "body"))) [
        | inl (body, e) ↦ repeat_body-Accepts count payload body a response (ground arith)
        | inr (c, e) ↦ absurd (ground arith)
      ]
