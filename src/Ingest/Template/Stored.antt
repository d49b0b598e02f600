-- ===== src/Ingest/Template/Stored.antt =====
-- The template is in the store once it has returned.
use nitzan_shinnies_inspecti.Prelude.{◌+◌, String, ◌≡◌, ap, ◌∙◌, [], ◌∷◌, ◌++◌, append_assoc}
use nitzan_shinnies_inspecti.Prelude.Int.{ℤ, pos, ℤ-eq}
use nitzan_shinnies_inspecti.Prelude.Result.{ok}
use nitzan_shinnies_inspecti.Prelude.Exec.{◌>>◌, bind-eq-ok}
use nitzan_shinnies_inspecti.Ingest.Schema.{MessageIngested}
use nitzan_shinnies_inspecti.Journal.S3.{Env}
use nitzan_shinnies_inspecti.Journal.Writer.{Writer, read_clock, flush_shard}
use nitzan_shinnies_inspecti.Journal.Writer.Index.{record_of}
use nitzan_shinnies_inspecti.Journal.Writer.Conserve.{written, stored_lines}
use nitzan_shinnies_inspecti.Journal.Writer.Stored.{log, log-written, log_and_flush-stored}
use nitzan_shinnies_inspecti.Ingest.Template.{
  applied_request, scheduled_request, append_ingest_template_a,
}

module _ (env : Env) (sha256_hex : String → String) (m : MessageIngested) (w : Writer) where
  -- the reading of the clock that the records carry, and the writer at each record
  abbrev pub now : ℤ
  now = pos (env.clock_ms w.clock_reads)

  abbrev pub at_first : Writer
  at_first = record w { clock_reads = w.clock_reads + 1 }

  abbrev pub at_second : Writer
  at_second = (log env (applied_request sha256_hex now m) at_first).1

  abbrev pub first_line : String
  first_line = env.dumps (record_of (applied_request sha256_hex now m) at_first)

  abbrev pub second_line : String
  second_line = env.dumps (record_of (scheduled_request now m) at_second)

  -- When `append_ingest_template_a` returns, the store holds everything written for the shard before,
  -- then the INGEST_APPLIED record of the message, then its DISPATCH_SCHEDULED record.
  pub append_ingest_template_a-stored :
      (append_ingest_template_a env sha256_hex m w).0 ≡ ok tt
      → stored_lines m.shard_id (append_ingest_template_a env sha256_hex m w).1.segments
        ≡ written w m.shard_id ++ first_line ∷ second_line ∷ []
  unfolding append_ingest_template_a read_clock
  append_ingest_template_a-stored h =
      let rest = log env (scheduled_request now m) >> flush_shard env m.shard_id in
      let (_, logged, e) =
        bind-eq-ok (log env (applied_request sha256_hex now m)) (λ _. rest) at_first h in
      rw e (
        log_and_flush-stored env (scheduled_request now m) at_second (rw e at h)
        ∙ ap (λ ls. ls ++ second_line ∷ [])
            (log-written env (applied_request sha256_hex now m) at_first logged)
        ∙ append_assoc (written w m.shard_id) (first_line ∷ []) (second_line ∷ []))
