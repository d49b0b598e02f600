-- ===== src/Worker.antt =====
-- inspectio/worker and inspectio/sms: the scheduler runtime, the ingest handler and the SMS client.
pub mod Sms
pub mod Runtime
pub mod Snapshot
pub mod Handlers
pub mod Main
pub mod Surface
pub mod Start
