-- ===== src/Pipeline/Ledger/Content.antt =====
-- The grading of a message's content that the ledger uses: `evaluate_sequence` of
-- testinghq/pipeline/expectations.py, with the settings of the run. `say` is `f"{name}: {detail}"`.
use testing_hq.Prelude.{map}
use testing_hq.Prelude.Text.{Text}
use testing_hq.Pipeline.Readback.Normalize.{Words}
use testing_hq.Pipeline.Expectations.Expected.{InboundEmail, MatchOptions, from_email}
use testing_hq.Pipeline.Expectations.Values.{Patterns}
use testing_hq.Pipeline.Expectations.Checks.{CheckResult}
use testing_hq.Pipeline.Expectations.Evaluate.{failures, passed, evaluate_sequence}
use testing_hq.Pipeline.Ledger.Account.{Grader}

unfoldable pub content_grader :
    Words → Patterns → MatchOptions → (CheckResult → Text) → Grader InboundEmail
unfolding evaluate_sequence passed failures
content_grader words patterns options say = record {
  passed = λ m rs.
      passed (evaluate_sequence words patterns (from_email m.email options) rs m.record_id m.tag);
  mismatch_strings = λ m rs. map say (
      failures
        (evaluate_sequence words patterns (from_email m.email options) rs m.record_id m.tag));
}
