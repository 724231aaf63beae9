-- ===== src/Pipeline/Verify.antt =====
-- testinghq/pipeline/verify.py: grading every message that was sent, the summary, its verdict and
-- the exit code.
pub mod Theorems
mod WithLedger
pub mod Examples
use testing_hq.Prelude.{
  ℕ, ◌+◌, ◌-◌, Bool, true, false, not, ◌&&◌, Option, none, some, List, [], ◌∷◌, map, length,
  count_if, keep_if, leb, ltb, nat_beq, is_some, if◌then◌else◌,
}
use testing_hq.Prelude.Text.{Text, codes}
use testing_hq.Prelude.Dict.{Dict}
use testing_hq.Core.ExitCodes.{exit_ok, exit_refused, exit_mismatch}
use testing_hq.Pipeline.Readback.{Readback}
use testing_hq.Pipeline.Readback.Normalize.{Words}
use testing_hq.Pipeline.Settle.{
  ReadbackOutcome, Returned, returned, bad_poll_interval, adapter_error, fuel_exhausted,
}
use testing_hq.Pipeline.Expectations.Expected.{InboundEmail, MatchOptions, Expectations, from_email}
use testing_hq.Pipeline.Expectations.Values.{Patterns}
use testing_hq.Pipeline.Expectations.Checks.{
  CheckName, SkipReason, no_record, not_visible, nothing_to_check, no_expected_route, CheckResult,
}
use testing_hq.Pipeline.Expectations.Evaluate.{
  Verification, is_pass, is_skipped, passed, evaluate_sequence,
}
use testing_hq.Pipeline.Ledger.Account.{SentMessage, found_for}
use testing_hq.Pipeline.Ledger.Verdict.{
  Sourced, by_tool, readback_failed, readback_unsettled, readback_verdict, is_failed, is_unsettled,
}

-- `(verification for the message, by the run's match settings)`
module _ (words : Words) (patterns : Patterns) (options : MatchOptions) where
  abbrev pub expectations_for : SentMessage InboundEmail → Expectations
  expectations_for m = from_email m.email options

  unfoldable pub grade_one : Dict Text (List Readback) → SentMessage InboundEmail → Verification
  unfolding evaluate_sequence found_for
  grade_one readbacks m =
      evaluate_sequence words patterns (expectations_for m) (found_for readbacks m.tag) m.record_id
        m.tag

  unfoldable pub grade :
      List (SentMessage InboundEmail) → Dict Text (List Readback) → List Verification
  unfolding grade_one
  grade sent readbacks = map (grade_one readbacks) sent

abbrev reason_code : SkipReason → ℕ
reason_code no_record = 0
reason_code not_visible = 1
reason_code nothing_to_check = 2
reason_code no_expected_route = 3

abbrev name_code : CheckName → ℕ
name_code CheckName.ticket_created = 0
name_code CheckName.sender = 1
name_code CheckName.subject = 2
name_code CheckName.body = 3
name_code CheckName.attachments = 4
name_code CheckName.routing = 5
name_code CheckName.thread_link = 6
name_code CheckName.thread_together = 7

-- `check.reason or SKIP_NOT_VISIBLE`
abbrev reason_of : CheckResult → SkipReason
reason_of c = elim c.reason [ none ↦ not_visible | some why ↦ why ]

abbrev skipped_as : SkipReason → CheckName → CheckResult → Bool
skipped_as why n c =
    is_skipped c
    && (nat_beq (reason_code (reason_of c)) (reason_code why)
        && nat_beq (name_code c.name) (name_code n))

abbrev passed_as : CheckName → CheckResult → Bool
passed_as n c = is_pass c && nat_beq (name_code c.name) (name_code n)

-- The sum of a count over the verifications.
unfoldable pub count_checks : (CheckResult → Bool) → List Verification → ℕ
count_checks p [] = 0
count_checks p (v ∷ vs) = count_if p v.checks + count_checks p vs

-- A summary. A name that the code leaves out of a dict of counts has the count 0 here.
pub record Summary : Type 0 where
  pub sent : ℕ
  pub found : ℕ
  pub verified : ℕ
  pub failed : ℕ
  pub transport_unanswered : ℕ
  pub transport_non_2xx : ℕ
  pub checks_passed_by_name : CheckName → ℕ
  pub checks_skipped_by_reason : SkipReason → CheckName → ℕ
  pub unsettled : Bool
  pub readback_failed : Bool
  pub not_checked : ℕ

abbrev pub is_2xx : ℕ → Bool
is_2xx s = leb 200 s && ltb s 300

abbrev unanswered : {E : Type 0} → SentMessage E → Bool
unanswered m = m.delivered && not (is_some m.status)

abbrev non_2xx : {E : Type 0} → SentMessage E → Bool
non_2xx m = m.delivered && elim m.status [ none ↦ false | some s ↦ not (is_2xx s) ]

-- Whether a verification did not pass.
abbrev pub not_verified : Verification → Bool
not_verified v = not (passed v)

unfoldable pub summarize :
    {E : Type 0} → List Verification → List (SentMessage E) → Option ReadbackOutcome → Summary
unfolding passed count_checks
summarize verifications sent outcome =
    let failed = length (keep_if not_verified verifications) in
    let all_404 = is_failed outcome in
    record {
      sent = length sent;
      found = (if all_404 then 0 else count_if (λ (v : Verification). v.found) verifications);
      verified = (if all_404 then 0 else length verifications - failed);
      failed = (if all_404 then 0 else failed);
      transport_unanswered = count_if unanswered sent;
      transport_non_2xx = count_if non_2xx sent;
      checks_passed_by_name =
          (λ n. if all_404 then 0 else count_checks (passed_as n) verifications);
      checks_skipped_by_reason =
          (λ why n. if all_404 then 0 else count_checks (skipped_as why n) verifications);
      unsettled = is_unsettled outcome;
      readback_failed = all_404;
      not_checked = (if all_404 then length verifications else 0);
    }

pub data VerifyVerdict : Type 0 where
  readback_failed_verdict unsettled_verdict nothing_checked verified_verdict mismatched :
      VerifyVerdict

unfoldable pub verdict_of : Summary → VerifyVerdict
verdict_of s =
    if s.readback_failed
    then readback_failed_verdict
    else if s.unsettled
    then unsettled_verdict
    else if nat_beq (s.verified + s.failed) 0
    then nothing_checked
    else if nat_beq s.failed 0
    then verified_verdict
    else mismatched

-- `exit_code_for`, of the verdict in the artifact.
unfoldable pub exit_code_for : Sourced VerifyVerdict → ℕ
exit_code_for readback_failed = exit_mismatch
exit_code_for readback_unsettled = exit_mismatch
exit_code_for (by_tool verified_verdict) = exit_ok
exit_code_for (by_tool nothing_checked) = exit_ok
exit_code_for (by_tool readback_failed_verdict) = exit_mismatch
exit_code_for (by_tool unsettled_verdict) = exit_mismatch
exit_code_for (by_tool mismatched) = exit_mismatch

module _ (words : Words) (patterns : Patterns) (options : MatchOptions) where
  -- The end of `execute`, for an outcome of the readback.
  unfoldable pub verify_code : List (SentMessage InboundEmail) → ReadbackOutcome → ℕ
  unfolding grade summarize verdict_of exit_code_for readback_verdict
  verify_code sent outcome =
      let verifications = grade words patterns options sent outcome.readbacks in
      let summary = summarize verifications sent (some outcome) in
      exit_code_for (readback_verdict (verdict_of summary) (some outcome))

  -- `execute` from the readback on: an exception is a refusal. Running out of fuel has no
  -- counterpart in the code.
  unfoldable pub verify_after : {W : Type 0} → List (SentMessage InboundEmail) → Returned W → ℕ
  unfolding verify_code
  verify_after sent (returned outcome w) = verify_code sent outcome
  verify_after sent bad_poll_interval = exit_refused
  verify_after sent (adapter_error why) = exit_refused
  verify_after sent fuel_exhausted = exit_refused
