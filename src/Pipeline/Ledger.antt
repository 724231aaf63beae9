-- ===== src/Pipeline/Ledger.antt =====
-- testinghq/pipeline/ledger.py: reconciling what was sent with what the system holds.
pub mod Tags
pub mod Strays
pub mod Account
pub mod Enumerate
pub mod Verdict
pub mod Content
pub mod Partition
mod Balance
pub mod Exit
mod Run
mod Minted
mod Longest
mod OwnTags
mod StrayCounts
mod Examples
