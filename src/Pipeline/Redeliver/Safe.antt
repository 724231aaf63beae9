-- ===== src/Pipeline/Redeliver/Safe.antt =====
-- When a redelivery run exits with 0.
use testing_hq.Prelude.{
  ℕ, ◌≡◌, inl, inr, refl, Bool, true, not, ◌&&◌, Option, none, some, List, [], ◌∷◌, arith, map, all,
  is_empty, nat_beq,
}
use testing_hq.Prelude.Text.{Text, text_eq}
use testing_hq.Prelude.Dict.{Dict}
use testing_hq.Core.ExitCodes.{exit_ok}
use testing_hq.Pipeline.Strings.{Strings}
use testing_hq.Pipeline.Readback.{Readback}
use testing_hq.Pipeline.Readback.Normalize.{Words}
use testing_hq.Pipeline.Settle.{ReadbackOutcome}
use testing_hq.Pipeline.Expectations.Expected.{MatchOptions}
use testing_hq.Pipeline.Expectations.Values.{Patterns}
use testing_hq.Pipeline.Ledger.Strays.{classify_strays}
use testing_hq.Pipeline.Ledger.Account.{own_tickets}
use testing_hq.Pipeline.Ledger.Verdict.{is_failed, is_unsettled}
use testing_hq.Pipeline.Redeliver.{Scenario, tags}
use testing_hq.Pipeline.Redeliver.Judge.{
  ScenarioResult, judged, grade_tags, thread_tags, judge_scenario, passed,
}
use testing_hq.Pipeline.Redeliver.Clean.{Judged-cases, message_fine, thread_fine}
use testing_hq.Pipeline.Redeliver.Passing.{answerable, passed-judge_scenario}
use testing_hq.Pipeline.Redeliver.Run.{
  run_family, not_searched, sent_tags, judge_scenarios, attribute, judge_run, redeliver_code,
  redeliver_run,
}
use testing_hq.Pipeline.Redeliver.StrayFindings.{
  code_ok, fresh, give_strays-clean, all_passed-not_searched, all-fresh-not_searched,
}

module _ (words : Words) (patterns : Patterns) (options : MatchOptions) (py : Strings)
    (tag_prefix : Text) where
  module _ (readbacks : Dict Text (List Readback)) where
    -- Every message of a scenario has one record, graded right, and no thread check fails.
    abbrev pub scenario_fine : Scenario → Bool
    scenario_fine s =
        all (message_fine words patterns options s readbacks) (tags s)
        && all (thread_fine words patterns options s readbacks) (tags s)

    -- Every reply of a scenario names a message that it delivers.
    abbrev pub replies_delivered : Scenario → Bool
    replies_delivered s = all (answerable words patterns options s readbacks) (tags s)

    fresh-judged :
        (s : Scenario) (failed : Bool) (r : ScenarioResult)
        → judge_scenario words patterns options s readbacks failed ≡ judged r
        → fresh r ≡ true
    unfolding judge_scenario
    fresh-judged s failed r h =
        elim (Judged-cases (grade_tags words patterns options s readbacks failed (tags s))) [
          | inl e ↦ cc
          | inr (g, e) ↦
              elim (Judged-cases (thread_tags words patterns options s readbacks (tags s))) [
                | inl f ↦ cc
                | inr (found, f) ↦ ground arith
              ]
        ]

    judged_scenarios :
        (ss : List Scenario) (failed : Bool)
        → all replies_delivered ss ≡ true
        → (rs : List ScenarioResult) × (judge_scenarios words patterns options ss readbacks failed
            ≡ judged rs)
          × (all passed rs ≡ all scenario_fine ss)
          × (all fresh rs ≡ true)
    unfolding judge_scenarios
    judged_scenarios [] failed h = ([], refl, refl, refl)
    judged_scenarios (s ∷ ss) failed h =
        let first =
          passed-judge_scenario words patterns options s readbacks failed (ground arith) in
        let rest = judged_scenarios ss failed (ground arith) in
        (
          first.0 ∷ rest.0,
          ground (arith, first.1, rest.1),
          ground (arith, first.2, rest.2),
          ground (arith, fresh-judged s failed first.0 first.1, rest.3),
        )

    -- The store was not listed, or lists no record of the run's family beyond what was sent.
    abbrev pub no_extra : List Scenario → Option (List Readback) → Bool
    no_extra ss none = true
    no_extra ss (some strays) =
        is_empty
          (classify_strays py strays (sent_tags ss) (own_tickets readbacks)
            (run_family tag_prefix)).extra

    attribute_clean :
        (ss : List Scenario) (strays : Option (List Readback)) (partial : Bool)
        (rs : List ScenarioResult)
        → all fresh rs ≡ true
        → (is_empty
              (attribute words patterns options py tag_prefix ss readbacks strays partial
                rs).unattributed
            && all passed
                (attribute words patterns options py tag_prefix ss readbacks strays partial
                  rs).results)
          ≡ (no_extra ss strays && all passed rs)
    unfolding attribute
    attribute_clean ss none partial rs h = ground (arith, all_passed-not_searched rs)
    attribute_clean ss (some strays) partial rs h =
        let extra =
          (classify_strays py strays (sent_tags ss) (own_tickets readbacks)
            (run_family tag_prefix)).extra in
        ground (
          arith,
          all_passed-not_searched rs,
          all-fresh-not_searched rs,
          give_strays-clean py tag_prefix extra rs h,
          give_strays-clean py tag_prefix extra (map not_searched rs)
              (ground (arith, all-fresh-not_searched rs)),
        )

  -- Where every reply of the scenarios names a message that its scenario delivers, the run ends with
  -- an exit code, and it is 0 exactly when the readback settled and did not fail, every message of
  -- every scenario has one record, graded right, no thread check of a reply fails, and the listing of
  -- the store, where there is one, has no extra record of the run's family.
  pub redeliver_run-exit_ok :
      (ss : List Scenario) (outcome : ReadbackOutcome) (strays : Option (List Readback))
      (partial : Bool)
      → all (replies_delivered outcome.readbacks) ss ≡ true
      → (code : ℕ) × (redeliver_run words patterns options py tag_prefix ss outcome strays partial
          ≡ judged code)
        × (nat_beq code exit_ok ≡ (
            not (is_failed (some outcome))
            && (not (is_unsettled (some outcome))
                && (no_extra outcome.readbacks ss strays
                    && all (scenario_fine outcome.readbacks) ss))))
  unfolding redeliver_run judge_run
  redeliver_run-exit_ok ss outcome strays partial h =
      let rs = judged_scenarios outcome.readbacks ss (is_failed (some outcome)) h in
      let run =
        attribute words patterns options py tag_prefix ss outcome.readbacks strays partial rs.0 in
      (
        redeliver_code run outcome,
        ground (arith, rs.1),
        ground (
          arith,
          code_ok run outcome,
          attribute_clean outcome.readbacks ss strays partial rs.0 rs.3,
          rs.2,
        ),
      )
