-- ===== src/Settings.antt =====
-- inspectio/settings.py: the settings with their bounds and defaults. The settings library fills them
-- from the environment and refuses what breaks a bound; seconds are kept in milliseconds.
mod Tests
use nitzan_shinnies_inspecti.Prelude.{ℕ, ◌≤◌, String}
use nitzan_shinnies_inspecti.Prelude.Int.{ℤ, pos, ◌≤ℤ◌, ℤ-eq}

pub record Settings : Type 0 where
  pub s3_bucket : String
  pub ingest_queue_url : String
  pub max_sqs_fifo_inflight_groups : ℕ
  pub total_shards : ℤ
  pub worker_replicas : ℤ
  pub worker_index : ℤ
  pub notification_base_url : String
  pub sms_url : String
  pub sms_http_timeout_ms : ℕ
  pub default_to_e164 : String
  pub wakeup_interval_ms : ℕ
  pub max_parallel_sends_per_shard : ℕ
  pub repeat_max_count : ℕ
  pub ingest_buffer_max_messages : ℕ
  pub idempotency_ttl_sec : ℕ
  pub outcomes_max_limit : ℕ
  pub journal_flush_interval_ms : ℕ
  pub journal_flush_max_lines : ℕ
  pub snapshot_interval_sec : ℕ

abbrev pub default_settings : Settings
default_settings = record {
  s3_bucket = "";
  ingest_queue_url = "";
  max_sqs_fifo_inflight_groups = 64;
  total_shards = pos 1024;
  worker_replicas = pos 1;
  worker_index = pos 0;
  notification_base_url = "http://127.0.0.1:8081";
  sms_url = "http://127.0.0.1:8090";
  sms_http_timeout_ms = 5000;
  default_to_e164 = "+10000000000";
  wakeup_interval_ms = 500;
  max_parallel_sends_per_shard = 64;
  repeat_max_count = 100000;
  ingest_buffer_max_messages = 10000;
  idempotency_ttl_sec = 86400;
  outcomes_max_limit = 1000;
  journal_flush_interval_ms = 50;
  journal_flush_max_lines = 64;
  snapshot_interval_sec = 60;
}

-- The bounds `ge` and `gt` of the fields.
pub record InBounds (s : Settings) : Type 0 where
  pub groups : 1 ≤ s.max_sqs_fifo_inflight_groups
  pub shards : pos 1 ≤ℤ s.total_shards
  pub replicas : pos 1 ≤ℤ s.worker_replicas
  pub index : pos 0 ≤ℤ s.worker_index
  pub timeout : 1 ≤ s.sms_http_timeout_ms
  pub wakeup : 1 ≤ s.wakeup_interval_ms
  pub sends : 1 ≤ s.max_parallel_sends_per_shard
  pub repeats : 1 ≤ s.repeat_max_count
  pub buffered : 1 ≤ s.ingest_buffer_max_messages
  pub ttl : 1 ≤ s.idempotency_ttl_sec
  pub outcomes : 1 ≤ s.outcomes_max_limit
  pub flush_interval : 1 ≤ s.journal_flush_interval_ms
  pub flush_lines : 1 ≤ s.journal_flush_max_lines
  pub snapshots : 1 ≤ s.snapshot_interval_sec
