-- ===== src/Pipeline/Verify/WithLedger.antt =====
-- The ledger and verify read the same readback: what the one exits with, against the other.
use testing_hq.Prelude.{◌≡◌, refl, true, List, [], ◌∷◌, arith, all}
use testing_hq.Prelude.Text.{Text}
use testing_hq.Prelude.Dict.{Dict}
use testing_hq.Core.ExitCodes.{exit_ok}
use testing_hq.Pipeline.Strings.{Strings}
use testing_hq.Pipeline.Readback.{Readback}
use testing_hq.Pipeline.Readback.Normalize.{Words}
use testing_hq.Pipeline.Settle.{ReadbackOutcome}
use testing_hq.Pipeline.Expectations.Expected.{InboundEmail, MatchOptions}
use testing_hq.Pipeline.Expectations.Values.{Patterns}
use testing_hq.Pipeline.Expectations.Checks.{CheckResult}
use testing_hq.Pipeline.Expectations.Graded.{passed-evaluate_sequence}
use testing_hq.Pipeline.Ledger.Tags.{Family}
use testing_hq.Pipeline.Ledger.Account.{SentMessage, found_for}
use testing_hq.Pipeline.Ledger.Content.{content_grader}
use testing_hq.Pipeline.Ledger.Enumerate.{Lister, Reason}
use testing_hq.Pipeline.Ledger.Verdict.{report_on}
use testing_hq.Pipeline.Ledger.Partition.{right}
use testing_hq.Pipeline.Ledger.Exit.{exit_ok_iff}
use testing_hq.Pipeline.Verify.{expectations_for, verify_code}
use testing_hq.Pipeline.Verify.Theorems.{agreed, verify_code_iff}

module _ (words : Words) (patterns : Patterns) (options : MatchOptions)
    (detail : CheckResult → Text) where
  right-agreed :
      (readbacks : Dict Text (List Readback)) (sent : List (SentMessage InboundEmail))
      → all (right (content_grader words patterns options detail) readbacks) sent ≡ true
      → all (agreed words patterns options readbacks) sent ≡ true
  unfolding content_grader
  right-agreed readbacks [] h = refl
  right-agreed readbacks (m ∷ ms) h = ground (
    arith,
    h,
    passed-evaluate_sequence words patterns (expectations_for words patterns options m)
        (found_for readbacks m.tag) m.record_id m.tag,
    right-agreed readbacks ms,
  )

  -- Where a ledger that grades content exits with 0 on an outcome of the readback, verify exits
  -- with 0 on the same messages and the same outcome.
  pub ledger_ok-verify_ok :
      (py : Strings) (say : Reason → Text) (sent : List (SentMessage InboundEmail))
      (family : Family) (lister : Lister) (outcome : ReadbackOutcome)
      → (report_on py
          (content_grader words patterns options detail)
          say
          sent
          family
          lister
          outcome).exit_code
        ≡ exit_ok
      → verify_code words patterns options sent outcome ≡ exit_ok
  ledger_ok-verify_ok py say sent family lister outcome e =
      let (stable, answered, all_right, records, whole, none_extra) =
        (exit_ok_iff py (content_grader words patterns options detail) say sent family lister
            outcome).0
          e in
      (verify_code_iff words patterns options sent outcome).1
        (answered, stable, right-agreed outcome.readbacks sent all_right)
