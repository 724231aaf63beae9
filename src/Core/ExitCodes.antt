-- ===== src/Core/ExitCodes.antt =====
-- testinghq/core/exit_codes.py: one exit-code convention for every tool.
use testing_hq.Prelude.{ℕ}

abbrev pub exit_ok : ℕ
exit_ok = 0

abbrev pub exit_refused : ℕ
exit_refused = 1

abbrev pub exit_dry_run : ℕ
exit_dry_run = 2

abbrev pub exit_finding : ℕ
exit_finding = 3

abbrev pub exit_mismatch : ℕ
exit_mismatch = exit_finding

abbrev pub exit_no_regression : ℕ
exit_no_regression = exit_ok

abbrev pub exit_regression : ℕ
exit_regression = exit_finding
