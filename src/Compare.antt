-- ===== src/Compare.antt =====
-- testinghq/compare/runs.py: the comparison of two blast run artifacts. An artifact is what
-- `validate_artifact` has accepted. Seeds, counts, mixes, attachment modes and targets are only
-- compared, so they stand as the texts of their JSON values, but for the seed.
pub mod Align
pub mod Diff
pub mod Loop
pub mod Direction
pub mod Balance
pub mod ExitCode
mod Examples
