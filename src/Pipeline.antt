-- ===== src/Pipeline.antt =====
-- testinghq/pipeline: sending tagged messages and reading back what the system made of them.
pub mod Http
pub mod Pages
pub mod Mailbox
pub mod Strings
pub mod Readback
pub mod Messages
pub mod Expectations
pub mod Settle
pub mod Ledger
pub mod Verify
pub mod Steady
pub mod Redeliver
pub mod Loop
pub mod Der
