-- ===== src/Pipeline/Redeliver/Clean.antt =====
-- When the result of a scenario is clean.
use testing_hq.Prelude.{
  ◌≡◌, ◌⊎◌, inl, inr, refl, Bool, true, false, not, ◌&&◌, Option, none, some, List, [], ◌∷◌, ◌++◌,
  arith, map, all, is_empty, if◌then◌else◌, Option-cases,
}
use testing_hq.Prelude.Text.{Text, text_eq}
use testing_hq.Prelude.Dict.{Dict}
use testing_hq.Pipeline.Readback.{Readback}
use testing_hq.Pipeline.Readback.Normalize.{Words}
use testing_hq.Pipeline.Expectations.Expected.{MatchOptions, from_email}
use testing_hq.Pipeline.Expectations.Values.{Patterns}
use testing_hq.Pipeline.Expectations.Checks.{CheckResult}
use testing_hq.Pipeline.Expectations.Threads.{check_thread_link, check_thread_together}
use testing_hq.Pipeline.Expectations.Evaluate.{is_failure, failures, evaluate_sequence}
use testing_hq.Pipeline.Expectations.Evaluate
use testing_hq.Pipeline.Expectations.Graded.{sole_agrees, passed-evaluate_sequence}
use testing_hq.Pipeline.Ledger.Account.{found_for}
use testing_hq.Pipeline.Redeliver.{
  Delivery, is_reply, Scenario, tags, delivery_for, parent_of, bare, ancestry_of,
}
use testing_hq.Pipeline.Redeliver.Judge.{
  Finding, mismatched, ScenarioResult, Judged, scenario_error, judged, Graded, both, grade_found,
  grade_tag, grade_tags, first_by_tag, thread_findings, thread_tag, thread_tags, judge_scenario,
  passed,
}

pub is_empty-append :
    {A : Type 0} (xs ys : List A) → is_empty (xs ++ ys) ≡ (is_empty xs && is_empty ys)
is_empty-append [] ys = refl
is_empty-append (x ∷ xs) ys = refl

is_empty-map : {A B : Type 0} (f : A → B) (xs : List A) → is_empty (map f xs) ≡ is_empty xs
is_empty-map f [] = refl
is_empty-map f (x ∷ xs) = refl

pub Judged-cases : {A : Type 0} (j : Judged A) → (j ≡ scenario_error) ⊎ ((a : A) × (j ≡ judged a))
Judged-cases scenario_error = inl refl
Judged-cases (judged a) = inr (a, refl)

abbrev clean : Graded → Bool
clean g = is_empty g.findings && is_empty g.not_checked

clean-both : (g h : Graded) → clean (both g h) ≡ (clean g && clean h)
clean-both g h =
    ground
      (arith, is_empty-append g.findings h.findings, is_empty-append g.not_checked h.not_checked)

module _ (words : Words) (patterns : Patterns) (options : MatchOptions) where
  -- The system holds one record of the delivery's message, and it is graded right.
  abbrev pub once_and_right : Delivery → List Readback → Bool
  once_and_right d found = sole_agrees words patterns (from_email d.email options) found

  clean-grade_found :
      (d : Delivery) (r : Readback) (rs : List Readback)
      → clean (grade_found words patterns options d (r ∷ rs)) ≡ once_and_right d (r ∷ rs)
  unfolding grade_found Evaluate.passed
  clean-grade_found d r [] = ground (
    arith,
    is_empty-map (λ (c : CheckResult). mismatched d.tag c.name)
        (failures (
          evaluate_sequence words patterns (from_email d.email options) (r ∷ []) d.record_id
            d.tag)),
    passed-evaluate_sequence words patterns (from_email d.email options) (r ∷ []) d.record_id d.tag,
  )
  clean-grade_found d r (q ∷ rs) = refl

  clean-grade_tag :
      (failed : Bool) (d : Delivery) (found : List Readback)
      → clean (grade_tag words patterns options failed d found) ≡ once_and_right d found
  unfolding grade_tag
  clean-grade_tag failed d [] = ground arith
  clean-grade_tag failed d (r ∷ rs) = clean-grade_found d r rs

  module _ (s : Scenario) (readbacks : Dict Text (List Readback)) where
    abbrev pub message_fine : Text → Bool
    message_fine t = elim (delivery_for s t) [
      | none ↦ false
      | some d ↦ once_and_right d (found_for readbacks t)
    ]

    clean-grade_tags :
        (failed : Bool) (ts : List Text) (g : Graded)
        → grade_tags words patterns options s readbacks failed ts ≡ judged g
        → clean g ≡ all message_fine ts
    unfolding grade_tags
    clean-grade_tags failed [] g h = ground arith
    clean-grade_tags failed (t ∷ ts) g h = elim (Option-cases (delivery_for s t)) [
      | inl e ↦ cc
      | inr (d, e) ↦ elim (Judged-cases (grade_tags words patterns options s readbacks failed ts)) [
        | inl f ↦ cc
        | inr (rest, f) ↦ ground (
          arith,
          clean-both (grade_tag words patterns options failed d (found_for readbacks t)) rest,
          clean-grade_tag failed d (found_for readbacks t),
          clean-grade_tags failed ts rest f,
        )
      ]
    ]

    -- Neither of the two checks of a reply fails.
    abbrev pub reply_fine : Text → Delivery → Bool
    reply_fine t parent =
        not (
          is_failure (
            check_thread_link words (first_by_tag words patterns options s readbacks t)
              (bare words parent.message_id) (ancestry_of words s t)))
        && not (
            is_failure (
              check_thread_together (first_by_tag words patterns options s readbacks t)
                (first_by_tag words patterns options s readbacks parent.tag)))

    abbrev pub replying_fine : Text → Option Delivery → Bool
    replying_fine t none = false
    replying_fine t (some parent) = reply_fine t parent

    abbrev pub thread_fine : Text → Bool
    thread_fine t = elim (delivery_for s t) [
      | none ↦ true
      | some d ↦ if is_reply d then replying_fine t (parent_of s t) else true
    ]

    clean-thread_findings :
        (t : Text) (parent : Delivery)
        → is_empty (thread_findings words patterns options s readbacks t parent)
          ≡ reply_fine t parent
    unfolding thread_findings
    clean-thread_findings t parent = ground arith

    clean-thread_tag :
        (t : Text) (found : List Finding)
        → thread_tag words patterns options s readbacks t ≡ judged found
        → is_empty found ≡ thread_fine t
    unfolding thread_tag
    clean-thread_tag t found h = elim (Option-cases (delivery_for s t)) [
      | inl e ↦ ground arith
      | inr (d, e) ↦ elim (Option-cases (parent_of s t)) [
        | inl f ↦ ground arith
        | inr (parent, f) ↦ ground (arith, clean-thread_findings t parent)
      ]
    ]

    clean-thread_tags :
        (ts : List Text) (found : List Finding)
        → thread_tags words patterns options s readbacks ts ≡ judged found
        → is_empty found ≡ all thread_fine ts
    unfolding thread_tags
    clean-thread_tags [] found h = ground arith
    clean-thread_tags (t ∷ ts) found h =
        elim (Judged-cases (thread_tag words patterns options s readbacks t)) [
          | inl e ↦ cc
          | inr (a, e) ↦ elim (Judged-cases (thread_tags words patterns options s readbacks ts)) [
            | inl f ↦ cc
            | inr (rest, f) ↦
                ground (
                  arith,
                  is_empty-append a rest,
                  clean-thread_tag t a e,
                  clean-thread_tags ts rest f,
                )
          ]
        ]

    pub passed_judged :
        (failed : Bool) (r : ScenarioResult)
        → judge_scenario words patterns options s readbacks failed ≡ judged r
        → passed r ≡ (all message_fine (tags s) && all thread_fine (tags s))
    unfolding judge_scenario passed
    passed_judged failed r h =
        elim (Judged-cases (grade_tags words patterns options s readbacks failed (tags s))) [
          | inl e ↦ cc
          | inr (g, e) ↦
              elim (Judged-cases (thread_tags words patterns options s readbacks (tags s))) [
                | inl f ↦ cc
                | inr (found, f) ↦ ground (
                  arith,
                  is_empty-append g.findings found,
                  clean-grade_tags failed (tags s) g e,
                  clean-thread_tags (tags s) found f,
                )
              ]
        ]
