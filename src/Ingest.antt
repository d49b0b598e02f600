-- ===== src/Ingest.antt =====
-- The ingest queue: its messages, the producer and the consumer.
pub mod Schema
pub mod Template
pub mod Producer
pub mod Consumer
