-- ===== src/Pipeline/Redeliver/Passing.antt =====
-- When a scenario is judged and when it passes.
use testing_hq.Prelude.{
  ◌≡◌, inl, inr, refl, Bool, true, not, ◌&&◌, ◌||◌, is_some, none, some, List, [], ◌∷◌, ◌++◌, arith,
  all, if◌then◌else◌, Option-cases,
}
use testing_hq.Prelude.Text.{Text, text_eq, text_beq_iff}
use testing_hq.Prelude.Dict.{Dict}
use testing_hq.Pipeline.Readback.{Readback}
use testing_hq.Pipeline.Readback.Normalize.{Words}
use testing_hq.Pipeline.Expectations.Expected.{MatchOptions}
use testing_hq.Pipeline.Expectations.Values.{Patterns}
use testing_hq.Pipeline.Ledger.Account.{found_for}
use testing_hq.Pipeline.Redeliver.{
  Delivery, is_reply, Scenario, tags, tags_from, first_with_tag, delivery_for, parent_of,
}
use testing_hq.Pipeline.Redeliver.Judge.{
  Finding, ScenarioResult, judged, Graded, nothing_graded, both, grade_tag, grade_tags,
  thread_findings, thread_tag, thread_tags, judge_scenario, passed,
}
use testing_hq.Pipeline.Redeliver.Clean.{message_fine, thread_fine, passed_judged}

module _ (words : Words) (patterns : Patterns) (options : MatchOptions) (s : Scenario)
    (readbacks : Dict Text (List Readback)) where
  -- A reply names a message that the scenario delivers.
  abbrev pub answerable : Text → Bool
  answerable t = elim (delivery_for s t) [
    | none ↦ true
    | some d ↦ not (is_reply d) || is_some (parent_of s t)
  ]

  abbrev delivered : Text → Bool
  delivered t = is_some (delivery_for s t)

  graded_tags :
      (failed : Bool) (ts : List Text)
      → all delivered ts ≡ true
      → (g : Graded) × (grade_tags words patterns options s readbacks failed ts ≡ judged g)
  unfolding grade_tags
  graded_tags failed [] h = (nothing_graded, refl)
  graded_tags failed (t ∷ ts) h = elim (Option-cases (delivery_for s t)) [
    | inl e ↦ ground arith
    | inr (d, e) ↦
        let rest = graded_tags failed ts (ground arith) in
        (
          both (grade_tag words patterns options failed d (found_for readbacks t)) rest.0,
          ground (arith, rest.1),
        )
  ]

  threaded_tag :
      (t : Text)
      → answerable t ≡ true
      → (found : List Finding) × (thread_tag words patterns options s readbacks t ≡ judged found)
  unfolding thread_tag
  threaded_tag t h = elim (Option-cases (delivery_for s t)) [
    | inl e ↦ ([], ground arith)
    | inr (d, e) ↦ elim (Option-cases (parent_of s t)) [
      | inl f ↦ ([], ground arith)
      | inr (parent, f) ↦ (
        if is_reply d then thread_findings words patterns options s readbacks t parent else [],
        ground arith,
      )
    ]
  ]

  threaded_tags :
      (ts : List Text)
      → all answerable ts ≡ true
      → (found : List Finding) × (thread_tags words patterns options s readbacks ts ≡ judged found)
  unfolding thread_tags
  threaded_tags [] h = ([], refl)
  threaded_tags (t ∷ ts) h =
      let first = threaded_tag t (ground arith) in
      let rest = threaded_tags ts (ground arith) in
      (first.0 ++ rest.0, ground (arith, first.1, rest.1))

  judged_scenario :
      (failed : Bool)
      → all delivered (tags s) ≡ true
      → all answerable (tags s) ≡ true
      → (r : ScenarioResult) × (judge_scenario words patterns options s readbacks failed ≡ judged r)
  unfolding judge_scenario
  judged_scenario failed h a =
      let g = graded_tags failed (tags s) h in
      let found = threaded_tags (tags s) a in
      (
        record {
          name = s.name;
          findings = g.0.findings ++ found.0;
          missing = g.0.missing;
          not_checked = g.0.not_checked;
          strays = [];
          strays_searched = true;
        },
        ground (arith, g.1, found.1),
      )

first_with_tag_monotone :
    (d : Delivery) (ds : List Delivery) (ts : List Text)
    → all (λ t. is_some (first_with_tag t ds)) ts ≡ true
    → all (λ t. is_some (first_with_tag t (d ∷ ds))) ts ≡ true
unfolding first_with_tag
first_with_tag_monotone d ds [] h = refl
first_with_tag_monotone d ds (t ∷ ts) h = ground (arith, first_with_tag_monotone d ds ts)

tags_from_delivered :
    (seen : List Text) (ds : List Delivery)
    → all (λ t. is_some (first_with_tag t ds)) (tags_from seen ds) ≡ true
unfolding tags_from first_with_tag
tags_from_delivered seen [] = refl
tags_from_delivered seen (d ∷ ds) = ground (
  arith,
  text_beq_iff d.tag d.tag,
  tags_from_delivered (d.tag ∷ seen) ds,
  tags_from_delivered seen ds,
  first_with_tag_monotone d ds (tags_from seen ds),
  first_with_tag_monotone d ds (tags_from (d.tag ∷ seen) ds),
)

tags_delivered : (s : Scenario) → all (λ t. is_some (delivery_for s t)) (tags s) ≡ true
unfolding tags delivery_for
tags_delivered s = tags_from_delivered [] s.deliveries

module _ (words : Words) (patterns : Patterns) (options : MatchOptions) (s : Scenario)
    (readbacks : Dict Text (List Readback)) where
  -- Where every reply of a scenario names a message that it delivers, the scenario is judged, and it
  -- passes exactly when every message of it has one record, graded right, and neither of the thread
  -- checks of a reply fails.
  pub passed-judge_scenario :
      (failed : Bool)
      → all (answerable words patterns options s readbacks) (tags s) ≡ true
      → (r : ScenarioResult) × (judge_scenario words patterns options s readbacks failed ≡ judged r)
        × (passed r ≡ (
            all (message_fine words patterns options s readbacks) (tags s)
            && all (thread_fine words patterns options s readbacks) (tags s)))
  passed-judge_scenario failed h =
      let j = judged_scenario words patterns options s readbacks failed (tags_delivered s) h in
      (j.0, j.1, passed_judged words patterns options s readbacks failed j.0 j.1)
