-- ===== src/Journal.antt =====
-- inspectio/journal: the record codec, the buffered writer, and the replay helpers.
pub mod Records
pub mod S3
pub mod Samples
pub mod Keys
pub mod Writer
pub mod Replay
