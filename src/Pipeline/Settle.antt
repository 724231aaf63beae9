-- ===== src/Pipeline/Settle.antt =====
-- `read_back_all` of testinghq/pipeline/common.py: polling the store until it holds still.
-- `Signature` is what is watched, `Watch` the bookkeeping over complete polls, `Loop` the loop over
-- an environment (clock, sleep, adapter), and the other children hold the theorems.
mod Signature
mod Watch
mod Loop
mod Termination
mod History
pub mod Trace
pub mod Rule
pub mod Examples
unfoldable pub use Signature.*
unfoldable pub use Watch.*
unfoldable pub use Loop.*
unfoldable pub use Termination.*
unfoldable pub use History.*
