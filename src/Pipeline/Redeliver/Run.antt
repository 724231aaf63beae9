-- ===== src/Pipeline/Redeliver/Run.antt =====
-- `judge_run`, `verdict_of` and the end of `execute` of testinghq/pipeline/redeliver.py.
use testing_hq.Prelude.{
  ℕ, Bool, false, not, ◌||◌, Option, none, some, List, [], ◌∷◌, ◌++◌, map, length, any, is_empty,
  ltb, if◌then◌else◌, ◌==◌,
}
use testing_hq.Prelude.Text.{Text, text_eq, codes}
use testing_hq.Prelude.Dict.{Dict, lookup, keys}
use testing_hq.Core.ExitCodes.{exit_ok, exit_mismatch}
use testing_hq.Pipeline.Strings.{Strings}
use testing_hq.Pipeline.Readback.{Readback}
use testing_hq.Pipeline.Readback.Normalize.{Words}
use testing_hq.Pipeline.Settle.{ReadbackOutcome}
use testing_hq.Pipeline.Expectations.Expected.{MatchOptions}
use testing_hq.Pipeline.Expectations.Values.{Patterns}
use testing_hq.Pipeline.Ledger.Tags.{Family, many_prefixes, minted_by}
use testing_hq.Pipeline.Ledger.Strays.{Entry, classify_strays}
use testing_hq.Pipeline.Ledger.Account.{own_tickets, max_artifact_strays}
use testing_hq.Pipeline.Ledger.Verdict.{
  Sourced, by_tool, readback_failed, readback_unsettled, readback_verdict, is_failed, is_unsettled,
}
use testing_hq.Pipeline.Redeliver.{Scenario, tags}
use testing_hq.Pipeline.Redeliver.Judge.{
  stray_record, ScenarioResult, Judged, scenario_error, judged, judge_scenario,
}

-- SCENARIO_TAG_SUFFIX, in the order of SCENARIOS.
abbrev pub scenario_tag_suffix : Dict Text Text
scenario_tag_suffix =
    (codes "duplicate", codes "dup")
    ∷ (codes "slow-retry", codes "rty")
    ∷ (codes "reply-first", codes "r1st")
    ∷ (codes "references", codes "ref")
    ∷ []

-- by_prefix: the prefix of every scenario, and the scenario.
unfoldable pub by_prefix_from : Text → Dict Text Text → Dict Text Text
by_prefix_from tag_prefix [] = []
by_prefix_from tag_prefix ((name, suffix) ∷ d) =
    ((tag_prefix ++ codes "-") ++ suffix, name) ∷ by_prefix_from tag_prefix d

abbrev pub by_prefix : Text → Dict Text Text
by_prefix tag_prefix = by_prefix_from tag_prefix scenario_tag_suffix

abbrev pub run_family : Text → Family
run_family tag_prefix = many_prefixes (tag_prefix ∷ keys (by_prefix tag_prefix))

-- The scenario whose prefix minted a tag.
unfoldable pub owner_name : Strings → Text → Text → Option Text
unfolding by_prefix_from
owner_name py tag_prefix tag = elim (minted_by py tag (run_family tag_prefix)) [
  | none ↦ lookup [] (by_prefix tag_prefix)
  | some prefix ↦ lookup prefix (by_prefix tag_prefix)
]

-- A stray is kept with its scenario up to the cap.
unfoldable pub add_to_owner : Entry → ScenarioResult → ScenarioResult
add_to_owner e r =
    if ltb (length r.strays) max_artifact_strays
    then record r {
      strays = r.strays ++ e ∷ [];
      findings = r.findings ++ stray_record e.ticket e.tag ∷ [];
    }
    else r

-- The last result of that name, or none.
unfoldable pub give_stray : Text → Entry → List ScenarioResult → Option (List ScenarioResult)
unfolding add_to_owner
give_stray name e [] = none
give_stray name e (r ∷ rs) = elim (give_stray name e rs) [
  | some given ↦ some (r ∷ given)
  | none ↦ if r.name == name then some (add_to_owner e r ∷ rs) else none
]

abbrev pub give_owned : Option Text → Entry → List ScenarioResult → Option (List ScenarioResult)
give_owned none e rs = none
give_owned (some name) e rs = give_stray name e rs

-- The loop over the extra records: the results, and the strays of no scenario.
unfoldable pub give_strays :
    Strings → Text → List Entry → List ScenarioResult → List ScenarioResult × List Entry
unfolding give_stray owner_name
give_strays py tag_prefix [] rs = (rs, [])
give_strays py tag_prefix (e ∷ es) rs = elim (give_owned (owner_name py tag_prefix e.tag) e rs) [
  | some given ↦ give_strays py tag_prefix es given
  | none ↦ let rest = give_strays py tag_prefix es rs in (rest.0, e ∷ rest.1)
]

-- What the grading gives: the results, whether the strays were searched, and the strays of no
-- scenario (without the cap, which leaves one where there is one).
pub record RunResult : Type 0 where
  pub results : List ScenarioResult
  pub strays_searched : Bool
  pub unattributed : List Entry

abbrev pub not_searched : ScenarioResult → ScenarioResult
not_searched r = record r { strays_searched = false }

unfoldable pub sent_tags : List Scenario → List Text
unfolding tags
sent_tags [] = []
sent_tags (s ∷ ss) = tags s ++ sent_tags ss

module _ (words : Words) (patterns : Patterns) (options : MatchOptions) where
  unfoldable pub judge_scenarios :
      List Scenario → Dict Text (List Readback) → Bool → Judged (List ScenarioResult)
  unfolding judge_scenario
  judge_scenarios [] readbacks failed = judged []
  judge_scenarios (s ∷ ss) readbacks failed =
      elim (judge_scenario words patterns options s readbacks failed) [
        | scenario_error ↦ scenario_error
        | judged r ↦ elim (judge_scenarios ss readbacks failed) [
          | scenario_error ↦ scenario_error
          | judged rs ↦ judged (r ∷ rs)
        ]
      ]

  -- What the strays of the store add to the results.
  unfoldable pub attribute :
      Strings
      → Text
      → List Scenario
      → Dict Text (List Readback)
      → Option (List Readback)
      → Bool
      → List ScenarioResult
      → RunResult
  unfolding give_strays sent_tags own_tickets classify_strays
  attribute py tag_prefix scenarios readbacks none partial results = record {
    results = map not_searched results;
    strays_searched = false;
    unattributed = [];
  }
  attribute py tag_prefix scenarios readbacks (some strays) partial results =
      let sorted =
        classify_strays py strays (sent_tags scenarios) (own_tickets readbacks)
          (run_family tag_prefix) in
      let given =
        give_strays py tag_prefix sorted.extra
          (if partial then map not_searched results else results) in
      record { results = given.0; strays_searched = not partial; unattributed = given.1 }

  unfoldable pub judge_run :
      Strings
      → Text
      → List Scenario
      → Dict Text (List Readback)
      → Option (List Readback)
      → Bool
      → Bool
      → Judged RunResult
  unfolding judge_scenarios attribute
  judge_run py tag_prefix scenarios readbacks strays partial failed =
      elim (judge_scenarios scenarios readbacks failed) [
        | scenario_error ↦ scenario_error
        | judged results ↦
            judged (attribute py tag_prefix scenarios readbacks strays partial results)
      ]

pub data RedeliverVerdict : Type 0 where
  delivery_safe delivery_bugs unsettled_verdict readback_failed_verdict : RedeliverVerdict

-- Findings that are not losses.
abbrev pub has_real : ScenarioResult → Bool
has_real r = ltb (length r.missing) (length r.findings)

abbrev pub has_finding : ScenarioResult → Bool
has_finding r = not (is_empty r.findings)

abbrev pub has_unchecked : ScenarioResult → Bool
has_unchecked r = not (is_empty r.not_checked)

unfoldable pub verdict_of : RunResult → Bool → RedeliverVerdict
verdict_of run unsettled =
    if not (is_empty run.unattributed) || any has_real run.results
    then delivery_bugs
    else if unsettled
    then unsettled_verdict
    else if any has_finding run.results
    then delivery_bugs
    else if any has_unchecked run.results
    then readback_failed_verdict
    else delivery_safe

abbrev code_of_verdict : RedeliverVerdict → ℕ
code_of_verdict delivery_safe = exit_ok
code_of_verdict delivery_bugs = exit_mismatch
code_of_verdict unsettled_verdict = exit_mismatch
code_of_verdict readback_failed_verdict = exit_mismatch

-- The exit code, of the verdict in the artifact.
unfoldable pub exit_code_for : Sourced RedeliverVerdict → ℕ
exit_code_for readback_failed = exit_mismatch
exit_code_for readback_unsettled = exit_mismatch
exit_code_for (by_tool v) = code_of_verdict v

-- The verdict that the artifact has for an outcome, and the exit code of it.
unfoldable pub redeliver_code : RunResult → ReadbackOutcome → ℕ
unfolding verdict_of readback_verdict exit_code_for
redeliver_code run outcome =
    exit_code_for (readback_verdict (verdict_of run (is_unsettled (some outcome))) (some outcome))

-- The end of `execute`: what the readback and the listing of the store come to.
unfoldable pub redeliver_run :
    Words
    → Patterns
    → MatchOptions
    → Strings
    → Text
    → List Scenario
    → ReadbackOutcome
    → Option (List Readback)
    → Bool
    → Judged ℕ
unfolding judge_run redeliver_code
redeliver_run words patterns options py tag_prefix scenarios outcome strays partial =
    elim (judge_run words patterns options py tag_prefix scenarios outcome.readbacks strays partial
      (is_failed (some outcome))) [
        | scenario_error ↦ scenario_error
        | judged run ↦ judged (redeliver_code run outcome)
      ]
