-- ===== src/Pipeline/Redeliver/Judge.antt =====
-- `judge_scenario` of testinghq/pipeline/redeliver.py: its content checks, then its thread checks.
use testing_hq.Prelude.{
  ℕ, Bool, true, not, ◌&&◌, Option, none, some, List, [], ◌∷◌, ◌++◌, map, length, is_empty,
  if◌then◌else◌,
}
use testing_hq.Prelude.Text.{Text, text_eq}
use testing_hq.Prelude.Dict.{Dict}
use testing_hq.Pipeline.Readback.{Readback}
use testing_hq.Pipeline.Readback.Normalize.{Words}
use testing_hq.Pipeline.Expectations.Expected.{MatchOptions, from_email}
use testing_hq.Pipeline.Expectations.Values.{Patterns}
use testing_hq.Pipeline.Expectations.Checks.{CheckName, CheckResult}
use testing_hq.Pipeline.Expectations.Threads.{check_thread_link, check_thread_together}
use testing_hq.Pipeline.Expectations.Evaluate.{is_failure, failures, evaluate_sequence}
use testing_hq.Pipeline.Ledger.Strays.{Entry}
use testing_hq.Pipeline.Ledger.Account.{found_for}
use testing_hq.Pipeline.Redeliver.{
  Delivery, is_reply, Scenario, tags, delivery_for, parent_of, bare, ancestry_of,
}

pub data Finding : Type 0 where
  lost : Text → Finding
  duplicated : Text → ℕ → Finding
  mismatched : Text → CheckName → Finding
  not_threaded : Text → CheckName → Finding
  stray_record : Text → Text → Finding

-- What is kept of a `ScenarioResult`.
pub record ScenarioResult : Type 0 where
  pub name : Text
  pub findings : List Finding
  pub missing : List Text
  pub not_checked : List Text
  pub strays : List Entry
  pub strays_searched : Bool

-- A ScenarioError, or what was found.
pub data Judged (A : Type 0) : Type 0 where
  scenario_error : Judged A
  judged : A → Judged A

-- What the records found for one tag add to a result.
pub record Graded : Type 0 where
  pub findings : List Finding
  pub missing : List Text
  pub not_checked : List Text

abbrev pub nothing_graded : Graded
nothing_graded = record { findings = []; missing = []; not_checked = [] }

abbrev pub both : Graded → Graded → Graded
both g h = record {
  findings = g.findings ++ h.findings;
  missing = g.missing ++ h.missing;
  not_checked = g.not_checked ++ h.not_checked;
}

abbrev pub one_too_many : Text → List Readback → List Finding
one_too_many tag [] = []
one_too_many tag (r ∷ []) = []
one_too_many tag (r ∷ q ∷ rs) = duplicated tag (length (r ∷ q ∷ rs)) ∷ []

abbrev pub first_of : List Readback → Option Readback
first_of [] = none
first_of (r ∷ rs) = some r

module _ (words : Words) (patterns : Patterns) (options : MatchOptions) where
  unfoldable pub grade_found : Delivery → List Readback → Graded
  unfolding evaluate_sequence failures
  grade_found d found =
      let v =
        evaluate_sequence words patterns (from_email d.email options) found d.record_id d.tag in
      record {
        findings =
            one_too_many d.tag found
            ++ map (λ (c : CheckResult). mismatched d.tag c.name) (failures v);
        missing = [];
        not_checked = [];
      }

  -- One round of the first loop.
  unfoldable pub grade_tag : Bool → Delivery → List Readback → Graded
  unfolding grade_found
  grade_tag readback_failed d [] =
      if readback_failed
      then record { findings = []; missing = []; not_checked = d.tag ∷ [] }
      else record { findings = lost d.tag ∷ []; missing = d.tag ∷ []; not_checked = [] }
  grade_tag readback_failed d (r ∷ rs) = grade_found d (r ∷ rs)

  module _ (s : Scenario) (readbacks : Dict Text (List Readback)) where
    unfoldable pub grade_tags : Bool → List Text → Judged Graded
    unfolding grade_tag delivery_for
    grade_tags readback_failed [] = judged nothing_graded
    grade_tags readback_failed (t ∷ ts) = elim (delivery_for s t) [
      | none ↦ scenario_error
      | some d ↦ elim (grade_tags readback_failed ts) [
        | scenario_error ↦ scenario_error
        | judged rest ↦ judged (both (grade_tag readback_failed d (found_for readbacks t)) rest)
      ]
    ]

    -- `first_by_tag.get(tag)`
    abbrev pub first_by_tag : Text → Option Readback
    first_by_tag tag = first_of (found_for readbacks tag)

    abbrev pub thread_finding : Text → CheckResult → List Finding
    thread_finding t c = if is_failure c then not_threaded t c.name ∷ [] else []

    -- What the two checks of a reply to `parent` find.
    unfoldable pub thread_findings : Text → Delivery → List Finding
    unfolding check_thread_link check_thread_together ancestry_of bare
    thread_findings t parent =
        thread_finding t (
          check_thread_link words (first_by_tag t) (bare words parent.message_id)
            (ancestry_of words s t))
        ++ thread_finding t (check_thread_together (first_by_tag t) (first_by_tag parent.tag))

    -- One round of the second loop.
    unfoldable pub thread_tag : Text → Judged (List Finding)
    unfolding delivery_for parent_of thread_findings
    thread_tag t = elim (delivery_for s t) [
      | none ↦ judged []
      | some d ↦ if not (is_reply d) then judged [] else elim (parent_of s t) [
        | none ↦ scenario_error
        | some parent ↦ judged (thread_findings t parent)
      ]
    ]

    unfoldable pub thread_tags : List Text → Judged (List Finding)
    unfolding thread_tag
    thread_tags [] = judged []
    thread_tags (t ∷ ts) = elim (thread_tag t) [
      | scenario_error ↦ scenario_error
      | judged found ↦ elim (thread_tags ts) [
        | scenario_error ↦ scenario_error
        | judged rest ↦ judged (found ++ rest)
      ]
    ]

    unfoldable pub judge_scenario : Bool → Judged ScenarioResult
    unfolding grade_tags thread_tags tags
    judge_scenario readback_failed = elim (grade_tags readback_failed (tags s)) [
      | scenario_error ↦ scenario_error
      | judged g ↦ elim (thread_tags (tags s)) [
        | scenario_error ↦ scenario_error
        | judged found ↦ judged (record {
          name = s.name;
          findings = g.findings ++ found;
          missing = g.missing;
          not_checked = g.not_checked;
          strays = [];
          strays_searched = true;
        })
      ]
    ]

-- ScenarioResult.passed
unfoldable pub passed : ScenarioResult → Bool
passed r = is_empty r.findings && is_empty r.not_checked
