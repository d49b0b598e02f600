-- ===== src/Journal/Writer/Stored.antt =====
-- What is in the store once a flush has returned.
use nitzan_shinnies_inspecti.Prelude.Exec.{bind-eq-ok, Exec, ◌>>=◌, ◌>>◌}
use nitzan_shinnies_inspecti.Prelude.{
  String, ◌≡◌, refl, sym, ap, ◌∙◌, true, false, List, [], ◌∷◌, ◌++◌, append-nil, arith,
}
use nitzan_shinnies_inspecti.Prelude.Int.{ℤ, ℤ-eq}
use nitzan_shinnies_inspecti.Prelude.Eq.{ℕ-eq, String-eq, pair_eq, beq_refl}
use nitzan_shinnies_inspecti.Prelude.Dict.{get-put}
use nitzan_shinnies_inspecti.Prelude.Result.{is_ok, ok}
use nitzan_shinnies_inspecti.Journal.Records.{JournalRecord}
use nitzan_shinnies_inspecti.Journal.S3.{Env}
use nitzan_shinnies_inspecti.Journal.Writer.{
  Writer, buffer, build_record, next_record_index, append_record, flush_shard, flush_shard_body,
  flush_and_clear, clear_buffer, read_mono, encode_line, has_lines,
}
use nitzan_shinnies_inspecti.Journal.Writer.Index.{Request, record_of, build}
use nitzan_shinnies_inspecti.Journal.Writer.Conserve.{
  written, stored_lines, append_record-written, flushes_conserve,
}

module _ (env : Env) where
  has_lines-nil : (ls : List String) → has_lines env ls ≡ false → ls ≡ []
  has_lines-nil [] h = refl
  has_lines-nil (l ∷ ls) h = cc

  clear_buffer-buffer : (sid : ℤ) (w : Writer) → buffer (clear_buffer env sid w).1 sid ≡ []
  unfolding clear_buffer read_mono
  clear_buffer-buffer sid w = rw (get-put, beq_refl)

  -- A flush that returns leaves the buffer empty.
  flush_shard-buffer :
      (sid : ℤ) (w : Writer)
      → (flush_shard env sid w).0 ≡ ok tt
      → buffer (flush_shard env sid w).1 sid ≡ []
  unfolding flush_shard flush_and_clear
  flush_shard-buffer sid w h = ground (
    arith,
    has_lines-nil (buffer w sid),
    clear_buffer-buffer sid (flush_shard_body env sid (buffer w sid) w).1,
  )

  -- After a flush of a shard that returned, the store holds every line written for the shard.
  pub flush_shard-stored :
      (sid : ℤ) (w : Writer)
      → (flush_shard env sid w).0 ≡ ok tt
      → stored_lines sid (flush_shard env sid w).1.segments ≡ written w sid
  flush_shard-stored sid w h =
      sym (append-nil (stored_lines sid (flush_shard env sid w).1.segments))
      ∙ ap (λ b. stored_lines sid (flush_shard env sid w).1.segments ++ b)
          (sym (flush_shard-buffer sid w h))
      ∙ (flushes_conserve env sid w sid).0

  -- `build_record` and `append_record` of it
  abbrev pub log : Request → Exec Writer Unit
  log q = do r ← build_record q.shard_id q.type q.message_id q.ts_ms q.payload; append_record env r

  build-written : (q : Request) (w : Writer) (j : ℤ) → written (build q w).1 j ≡ written w j
  unfolding build_record next_record_index
  build-written q w j = refl

  encode_line-ok :
      (r : JournalRecord) (w : Writer)
      → (append_record env r w).0 ≡ ok tt
      → is_ok (encode_line env r) ≡ true
  unfolding append_record
  encode_line-ok r w h = ground arith

  pub log-written :
      (q : Request) (w : Writer)
      → (log q w).0 ≡ ok tt
      → written (log q w).1 q.shard_id ≡ written w q.shard_id ++ env.dumps (record_of q w) ∷ []
  unfolding build_record next_record_index
  log-written q w h =
      append_record-written env (record_of q w) (build q w).1 q.shard_id
      ∙ rw (encode_line-ok (record_of q w) (build q w).1 h, beq_refl) refl

  -- A record that was logged and flushed, with no error, stands in the store behind everything written
  -- for its shard before.
  pub log_and_flush-stored :
      (q : Request) (w : Writer)
      → ((log q >> flush_shard env q.shard_id) w).0 ≡ ok tt
      → stored_lines q.shard_id ((log q >> flush_shard env q.shard_id) w).1.segments
        ≡ written w q.shard_id ++ env.dumps (record_of q w) ∷ []
  log_and_flush-stored q w h =
      let (_, logged, e) = bind-eq-ok (log q) (λ _. flush_shard env q.shard_id) w h in
      rw e (flush_shard-stored q.shard_id (log q w).1 (rw e at h) ∙ log-written q w logged)
