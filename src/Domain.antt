-- ===== src/Domain.antt =====
-- inspectio/domain: the retry schedule and the assignment of shards.
pub mod Schedule
pub mod Sharding
