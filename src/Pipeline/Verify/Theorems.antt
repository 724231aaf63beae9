-- ===== src/Pipeline/Verify/Theorems.antt =====
-- What the summary of a verify run counts, and what its exit code says.
use testing_hq.Prelude.{
  ◌+◌, ◌≤◌, ◌≡◌, ◌↔◌, refl, Bool, true, false, Option, List, [], ◌∷◌, arith, length, length-keep_if,
  count_if, keep_if, all, nat_beq,
}
use testing_hq.Prelude.Text.{Text}
use testing_hq.Prelude.Dict.{Dict}
use testing_hq.Core.ExitCodes.{exit_ok}
use testing_hq.Pipeline.Readback.{Readback}
use testing_hq.Pipeline.Readback.Normalize.{Words}
use testing_hq.Pipeline.Settle.{ReadbackOutcome}
use testing_hq.Pipeline.Expectations.Expected.{InboundEmail, MatchOptions}
use testing_hq.Pipeline.Expectations.Values.{Patterns}
use testing_hq.Pipeline.Expectations.Evaluate.{Verification}
use testing_hq.Pipeline.Expectations.Graded.{sole_agrees, passed-evaluate_sequence}
use testing_hq.Pipeline.Ledger.Account.{SentMessage, found_for}
use testing_hq.Pipeline.Ledger.Verdict.{readback_verdict}
use testing_hq.Pipeline.Verify.{
  expectations_for, grade_one, grade, not_verified, summarize, verdict_of, exit_code_for,
  verify_code,
}

count_at_most : {A : Type 0} (p : A → Bool) (xs : List A) → count_if p xs ≤ length xs
count_at_most p [] = omega arith
count_at_most p (x ∷ xs) = ground (arith, count_at_most p xs)

-- Every verification of a run is counted once: as verified, as failed, or as not checked.
pub summary_adds_up :
    {E : Type 0} (verifications : List Verification) (sent : List (SentMessage E))
    (outcome : Option ReadbackOutcome)
    → let s = summarize verifications sent outcome in
      (s.verified + s.failed + s.not_checked ≡ length verifications) × (s.sent ≡ length sent)
unfolding summarize
summary_adds_up verifications sent outcome =
    ground
      (arith, length-keep_if not_verified verifications, count_at_most not_verified verifications)

module _ (words : Words) (patterns : Patterns) (options : MatchOptions) where
  -- The system holds exactly one record of a message, and it agrees with the payload.
  abbrev pub agreed : Dict Text (List Readback) → SentMessage InboundEmail → Bool
  agreed readbacks m =
      sole_agrees words patterns (expectations_for words patterns options m)
        (found_for readbacks m.tag)

  failed_none :
      (sent : List (SentMessage InboundEmail)) (readbacks : Dict Text (List Readback))
      → nat_beq (length (keep_if not_verified (grade words patterns options sent readbacks))) 0
        ≡ all (agreed readbacks) sent
  unfolding grade grade_one
  failed_none [] readbacks = refl
  failed_none (m ∷ ms) readbacks = ground (
    arith,
    passed-evaluate_sequence words patterns (expectations_for words patterns options m)
        (found_for readbacks m.tag) m.record_id m.tag,
    failed_none ms readbacks,
  )

  -- A verify run that read its messages back exits with 0 if and only if the readback settled and
  -- did not fail, and the system holds exactly one record of every message, which agrees with it.
  pub verify_code_iff :
      (sent : List (SentMessage InboundEmail)) (outcome : ReadbackOutcome)
      → (verify_code words patterns options sent outcome ≡ exit_ok) ↔ (
          (outcome.all_404 ≡ false)
          × (outcome.stable ≡ true)
          × (all (agreed outcome.readbacks) sent ≡ true))
  unfolding verify_code readback_verdict exit_code_for verdict_of summarize
  verify_code_iff sent outcome = ground (arith, failed_none sent outcome.readbacks)
