-- ===== src/Pipeline/Expectations/Evaluate.antt =====
-- `Verification`, `evaluate` and `evaluate_sequence` of testinghq/pipeline/expectations.py.
use testing_hq.Prelude.{
  Bool, true, false, not, Option, none, some, List, [], ◌∷◌, keep_if, is_empty, is_some,
  if◌then◌else◌,
}
use testing_hq.Prelude.Text.{Text}
use testing_hq.Pipeline.Readback.{Readback}
use testing_hq.Pipeline.Readback.Normalize.{Words}
use testing_hq.Pipeline.Expectations.Expected.{Expectations}
use testing_hq.Pipeline.Expectations.Values.{Patterns}
use testing_hq.Pipeline.Expectations.Checks.{
  ticket_created, attachments, CheckResult, decided, check_ticket_created, check_sender,
  check_subject, check_body, check_attachments, check_routing,
}

pub record Verification : Type 0 where
  pub record_id : Text
  pub tag : Text
  pub found : Bool
  pub checks : List CheckResult

-- `c.passed is False`
abbrev pub is_failure : CheckResult → Bool
is_failure c = elim c.passed [ none ↦ false | some b ↦ not b ]

-- `c.passed is None`
abbrev pub is_skipped : CheckResult → Bool
is_skipped c = not (is_some c.passed)

-- `c.passed is True`
abbrev pub is_pass : CheckResult → Bool
is_pass c = elim c.passed [ none ↦ false | some b ↦ b ]

unfoldable pub failures : Verification → List CheckResult
failures v = keep_if is_failure v.checks

unfoldable pub skips : Verification → List CheckResult
skips v = keep_if is_skipped v.checks

unfoldable pub passed : Verification → Bool
unfolding failures
passed v = is_empty (failures v)

abbrev pub tag_or : Text → Text → Text
tag_or record_id tag = if is_empty record_id then tag else record_id

module _ (words : Words) (patterns : Patterns) (e : Expectations) where
  -- The checks behind `ticket_created`.
  unfoldable pub content_checks : Option Readback → List CheckResult
  content_checks found =
      check_sender words patterns e found
      ∷ check_subject words patterns e found
      ∷ check_body words patterns e found
      ∷ check_attachments words patterns e found
      ∷ check_routing words patterns e found
      ∷ []

  unfoldable pub evaluate : Option Readback → Text → Text → Verification
  unfolding content_checks
  evaluate found record_id tag = record {
    record_id = tag_or record_id tag;
    tag = tag;
    found = is_some found;
    checks = check_ticket_created found ∷ content_checks found;
  }

  -- More than one record fails `ticket_created`, and the first one is graded on the rest.
  unfoldable pub evaluate_sequence : List Readback → Text → Text → Verification
  unfolding evaluate content_checks
  evaluate_sequence [] record_id tag = evaluate none record_id tag
  evaluate_sequence (r ∷ []) record_id tag = evaluate (some r) record_id tag
  evaluate_sequence (r ∷ q ∷ rs) record_id tag = record {
    record_id = tag_or record_id tag;
    tag = tag;
    found = true;
    checks = decided ticket_created false ∷ content_checks (some r);
  }

  -- `evaluate_from_record`, of a saved record that has no file names.
  unfoldable pub evaluate_from_record : Readback → Text → Verification
  evaluate_from_record r id = record {
    record_id = id;
    tag = elim r.tag [ none ↦ [] | some t ↦ t ];
    found = true;
    checks =
        check_ticket_created (some r)
        ∷ check_sender words patterns e (some r)
        ∷ check_subject words patterns e (some r)
        ∷ check_body words patterns e (some r)
        ∷ record { name = attachments; passed = none; reason = none }
        ∷ check_routing words patterns e (some r)
        ∷ [];
  }
