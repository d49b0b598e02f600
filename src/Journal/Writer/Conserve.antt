-- ===== src/Journal/Writer/Conserve.antt =====
-- The lines of a shard between its buffer and the segments whose put returned. A segment that was stored
-- by a call that raised is kept apart.
use nitzan_shinnies_inspecti.Prelude.{
  ◌&&◌, String, ◌≡◌, refl, ap, ◌∙◌, ◌⊎◌, inl, inr, List, [], ◌∷◌, ◌++◌, append-nil, append_assoc,
  arith, if◌then◌else◌, Bool-cases,
}
use nitzan_shinnies_inspecti.Prelude.Result.{is_ok, Done, Error, ok, err}
use nitzan_shinnies_inspecti.Journal.Writer.{
  JournalRecord, encode_line, append_record, flush_round, append_encoded_line, flush_all,
  flush_each, flush_each_due, flush_if_due, flush_shard, maybe_flush, push_line, start_interval,
  put_object_with_retry, read_mono, clear_buffer, flush_and_clear, name_segment, Writer, buffer,
  flush_shard_body,
}
use nitzan_shinnies_inspecti.Prelude.Text.{strip}
use nitzan_shinnies_inspecti.Prelude.Dict.{keys, put, get-put}
use nitzan_shinnies_inspecti.Prelude.Int.{ℤ, ℤ-eq}
use nitzan_shinnies_inspecti.Prelude.Eq.{◌==◌, ℕ-eq, String-eq, pair_eq}
use nitzan_shinnies_inspecti.Journal.S3.{Env, Segment}
use nitzan_shinnies_inspecti.Journal.Writer.Retry.{
  put_object_with_retry-StoredOrRaised, StoredOrRaised, put_attempts-SameBuffers,
}

-- The lines of a shard in some segments, in their order.
abbrev pub stored_lines : ℤ → List Segment → List String
stored_lines sid [] = []
stored_lines sid (o ∷ os) =
    let rest = stored_lines sid os in if o.shard_id == sid then o.lines ++ rest else rest

-- The lines that were written for a shard: those of the segments whose put returned, in the order of the
-- puts, then those in its buffer.
abbrev pub written : Writer → ℤ → List String
written w sid = stored_lines sid w.segments ++ buffer w sid

stored_lines-snoc :
    (sid : ℤ) (os : List Segment) (o : Segment)
    → stored_lines sid (os ++ o ∷ [])
      ≡ stored_lines sid os ++ (if o.shard_id == sid then o.lines else [])
stored_lines-snoc sid [] o = ground (arith, append-nil o.lines)
stored_lines-snoc sid (x ∷ os) o = ground (
  arith,
  stored_lines-snoc sid os o,
  append_assoc x.lines (stored_lines sid os) (if o.shard_id == sid then o.lines else []),
)

module _ (env : Env) where
  -- Writing the body of a segment: the buffers stay, and the lines are stored or an error is raised.
  abbrev BodyEffect : ℤ → List String → Writer → Done × Writer → Type 0
  BodyEffect sid lines w (r, w') =
      (w'.buffers ≡ w.buffers)
      × (((r ≡ ok tt)
            × ((j : ℤ)
                → stored_lines j w'.segments
                  ≡ stored_lines j w.segments ++ (if sid == j then lines else [])))
          ⊎ (((e : Error) × (r ≡ err e)) × (w'.segments ≡ w.segments)))

  put_effect :
      (o : Segment) (w w' : Writer) (r : Done)
      → StoredOrRaised o w (r, w')
      → w'.buffers ≡ w.buffers
      → BodyEffect o.shard_id o.lines w (r, w')
  put_effect o w w' r (inl (e, s)) same =
      (same, inl (e, λ j. ap (stored_lines j) s ∙ stored_lines-snoc j w.segments o))
  put_effect o w w' r (inr ((code, e), s)) same = (same, inr ((_, e), s))

  flush_shard_body-effect :
      (sid : ℤ) (lines : List String) (w : Writer)
      → BodyEffect sid lines w (flush_shard_body env sid lines w)
  unfolding flush_shard_body name_segment
  flush_shard_body-effect sid lines w = elim (Bool-cases (strip env.settings.s3_bucket == "")) [
    | inl unset ↦ rw unset (refl, inr ((_, refl), refl))
    | inr set ↦
        let w1 : Writer = (name_segment env sid lines w).1 in
        let o : Segment = record { shard_id = sid; key = _; lines = lines } in
        let p = put_object_with_retry env o w1 in
        rw set (
          put_effect o w1 p.1 p.0 (put_object_with_retry-StoredOrRaised env o w1)
            (put_attempts-SameBuffers env o 8 50 w1).0)
  ]

  clear_buffer-buffers :
      (sid : ℤ) (w : Writer)
      → ((clear_buffer env sid w).1.buffers ≡ put w.buffers sid [])
        × ((clear_buffer env sid w).1.segments ≡ w.segments)
  unfolding clear_buffer read_mono
  clear_buffer-buffers sid w = (refl, refl)

  -- The buffer is cleared once its lines are stored.
  clear_buffer-written :
      (sid : ℤ) (w w' : Writer) (j : ℤ)
      → w'.buffers ≡ w.buffers
      → stored_lines j w'.segments
        ≡ stored_lines j w.segments ++ (if sid == j then buffer w sid else [])
      → written (clear_buffer env sid w').1 j ≡ written w j
  clear_buffer-written sid w w' j same e = ground (
    arith,
    clear_buffer-buffers sid w',
    get-put w.buffers sid j [],
    ℤ-eq.beq_iff sid j,
    append-nil (stored_lines j w.segments),
    append-nil (stored_lines j w.segments ++ buffer w sid),
  )

  flush_and_clear-written :
      (sid : ℤ) (w : Writer) (j : ℤ)
      → written (flush_and_clear env sid (buffer w sid) w).1 j ≡ written w j
  unfolding flush_and_clear
  flush_and_clear-written sid w j =
      let w' = (flush_shard_body env sid (buffer w sid) w).1 in
      let (same, effect) = flush_shard_body-effect sid (buffer w sid) w in
      elim effect [
        | inl (e, s) ↦ ground (arith, clear_buffer-written sid w w' j same (s j))
        | inr ((_, e), s) ↦ ground arith
      ]

  flush_shard-written :
      (sid : ℤ) (w : Writer) (j : ℤ) → written (flush_shard env sid w).1 j ≡ written w j
  unfolding flush_shard
  flush_shard-written sid w j = ground (arith, flush_and_clear-written sid w j)

  maybe_flush-written :
      (sid : ℤ) (w : Writer) (j : ℤ) → written (maybe_flush env sid w).1 j ≡ written w j
  unfolding maybe_flush read_mono
  maybe_flush-written sid w j = ground (arith, flush_and_clear-written sid (read_mono env w).1 j)

  flush_if_due-written :
      (sid : ℤ) (w : Writer) (j : ℤ) → written (flush_if_due env sid w).1 j ≡ written w j
  unfolding flush_if_due read_mono
  flush_if_due-written sid w j = ground (arith, flush_and_clear-written sid (read_mono env w).1 j)

  start_interval-written :
      (sid : ℤ) (w : Writer) (j : ℤ) → written (start_interval env sid w).1 j ≡ written w j
  unfolding start_interval read_mono
  start_interval-written sid w j = ground arith

  push_line-ok : (sid : ℤ) (line : String) (w : Writer) → (push_line env sid line w).0 ≡ ok tt
  unfolding push_line
  push_line-ok sid line w = refl

  push_line-written :
      (sid : ℤ) (line : String) (w : Writer) (j : ℤ)
      → written (push_line env sid line w).1 j
        ≡ (if sid == j then written w j ++ line ∷ [] else written w j)
  unfolding push_line
  push_line-written sid line w j = ground (
    arith,
    get-put w.buffers sid j (buffer w sid ++ line ∷ []),
    ℤ-eq.beq_iff sid j,
    append_assoc (stored_lines j w.segments) (buffer w sid) (line ∷ []),
  )

  pub append_encoded_line-written :
      (sid : ℤ) (line : String) (w : Writer) (j : ℤ)
      → written (append_encoded_line env sid line w).1 j
        ≡ (if sid == j then written w j ++ line ∷ [] else written w j)
  unfolding append_encoded_line
  append_encoded_line-written sid line w j =
      let w1 = (push_line env sid line w).1 in
      let w2 = (start_interval env sid w1).1 in
      ground (
        arith,
        push_line-ok sid line w,
        push_line-written sid line w j,
        start_interval-written sid w1 j,
        maybe_flush-written sid w2 j,
      )

  -- `append_record` of a valid record adds its line at the end of what was written for its shard, and
  -- changes nothing that was written for another; so too when the flush that it starts raises. A record
  -- whose payload is not valid changes nothing.
  pub append_record-written :
      (r : JournalRecord) (w : Writer) (j : ℤ)
      → written (append_record env r w).1 j ≡ (
          if is_ok (encode_line env r) && (r.shard_id == j)
          then written w j ++ env.dumps r ∷ []
          else written w j)
  unfolding append_record encode_line
  append_record-written r w j =
      ground (arith, append_encoded_line-written r.shard_id (env.dumps r) w j)

  flush_each-written :
      (sids : List ℤ) (w : Writer) (j : ℤ) → written (flush_each env sids w).1 j ≡ written w j
  unfolding flush_each
  flush_each-written [] w j = refl
  flush_each-written (sid ∷ sids) w j =
      ground
        (arith, flush_shard-written sid w j, flush_each-written sids (flush_shard env sid w).1 j)

  flush_each_due-written :
      (sids : List ℤ) (w : Writer) (j : ℤ) → written (flush_each_due env sids w).1 j ≡ written w j
  unfolding flush_each_due
  flush_each_due-written [] w j = refl
  flush_each_due-written (sid ∷ sids) w j = ground (
    arith,
    flush_if_due-written sid w j,
    flush_each_due-written sids (flush_if_due env sid w).1 j,
  )

  -- `flush_shard`, `flush_all` and a round of the periodic flush move lines from buffers to segments:
  -- for every shard the lines of the segments whose put returned, followed by the lines buffered, stay the
  -- same, also when an error is raised.
  pub flushes_conserve :
      (sid : ℤ) (w : Writer) (j : ℤ)
      → (written (flush_shard env sid w).1 j ≡ written w j)
        × (written (flush_all env w).1 j ≡ written w j)
        × (written (flush_round env w).1 j ≡ written w j)
  unfolding flush_all flush_round
  flushes_conserve sid w j = (
    flush_shard-written sid w j,
    flush_each-written (keys w.buffers) w j,
    flush_each_due-written (keys w.buffers) w j,
  )
