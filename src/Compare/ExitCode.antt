-- ===== src/Compare/ExitCode.antt =====
-- `record_exit_code` of testinghq/compare/runs.py.
use testing_hq.Prelude.{ℕ, Bool, ◌&&◌, if◌then◌else◌}
use testing_hq.Prelude.Text.{Text}
use testing_hq.Core.ExitCodes.{exit_regression, exit_no_regression}
use testing_hq.Compare.Loop.{Report}

-- What the command writes into the report beside returning the code.
pub record Recorded : Type 0 where
  pub fail_on_regression : Bool
  pub exit_code : ℕ

pub record_exit_code : Report → Bool → ℕ × Recorded
record_exit_code r fail_on_regression =
    let code =
      (if fail_on_regression && r.regressed then exit_regression else exit_no_regression) in
    (code, record { fail_on_regression = fail_on_regression; exit_code = code })
