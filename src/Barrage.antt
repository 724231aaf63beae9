-- ===== src/Barrage.antt =====
-- testinghq/barrage: the load generator.
pub mod Run
pub mod Executor
pub mod Report
