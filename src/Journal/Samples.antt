-- ===== src/Journal/Samples.antt =====
-- A small journal environment, shared by the tests.
use nitzan_shinnies_inspecti.Prelude.{ℕ, zero, suc, ◌+◌, [], ◌∷◌}
use nitzan_shinnies_inspecti.Prelude.Int.{pos, ℤ-eq}
use nitzan_shinnies_inspecti.Json.{end, field, int}
use nitzan_shinnies_inspecti.Settings.{Settings, default_settings}
use nitzan_shinnies_inspecti.Journal.Records.{send_attempted}
use nitzan_shinnies_inspecti.Journal.S3.{Env, PutAnswer, stored, refused}
use nitzan_shinnies_inspecti.Journal.Writer.{Writer, new_writer}
use nitzan_shinnies_inspecti.Journal.Writer.Index.{Request}

abbrev pub with_bucket : Settings
with_bucket = record default_settings { s3_bucket = "bucket" }

-- The first call of the store is throttled, and the others store.
abbrev pub answers : ℕ → PutAnswer
answers zero = refused "SlowDown"
answers (suc n) = stored

abbrev pub env : Env
env = record {
  settings = with_bucket;
  clock_ms = λ n. 1000 + n;
  mono_ms = λ n. n;
  put_answer = answers;
  dumps = λ r. r.message_id;
}

abbrev pub request : Request
request = record {
  shard_id = pos 3;
  type = send_attempted;
  message_id = "m";
  ts_ms = pos 5;
  payload = field "attemptIndex" (int (pos 2)) end;
}

abbrev pub writer : Writer
writer = new_writer ((pos 3, pos 41) ∷ [])
