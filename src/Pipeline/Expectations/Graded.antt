-- ===== src/Pipeline/Expectations/Graded.antt =====
-- What a passed verification says of the record that was found.
use testing_hq.Prelude.{
  ◌+◌, ◌≡◌, refl, Bool, true, false, not, ◌&&◌, ◌||◌, Option, none, some, List, [], ◌∷◌, arith,
  length, all, map, ◌==◌, count_if, keep_if, is_empty, is_some, if◌then◌else◌,
}
use testing_hq.Prelude.Text.{Text, text_eq, has_infix}
use testing_hq.Core.Guardrails.{ends_with}
use testing_hq.Pipeline.Readback.{Readback}
use testing_hq.Pipeline.Readback.Fields.{FieldName, has}
use testing_hq.Pipeline.Readback.Normalize.{
  Words, normalize_text, normalize_route, normalize_attachment_names,
}
use testing_hq.Pipeline.Expectations.Expected.{
  exact_subject, contains_subject, suffix_subject, exact_names, loose_names, Expectations,
  expected_body,
}
use testing_hq.Pipeline.Expectations.Values.{
  Patterns, sender_address, html_to_text, loose_attachment_key, same_counts,
}
use testing_hq.Pipeline.Expectations.Checks.{
  ticket_created, CheckResult, decided, on_field, same_texts, check_ticket_created, sender_ok,
  subject_ok, body_ok, wanted_body, attachments_ok, wanted_names, route_ok, check_sender,
  check_subject, check_body, check_attachments, check_routing,
}
use testing_hq.Pipeline.Expectations.Evaluate.{
  is_failure, is_skipped, is_pass, failures, skips, passed, content_checks, evaluate,
  evaluate_sequence,
}

partition_checks :
    (cs : List CheckResult)
    → length (keep_if is_failure cs) + length (keep_if is_skipped cs) + count_if is_pass cs
      ≡ length cs
partition_checks [] = refl
partition_checks (c ∷ cs) = ground (arith, partition_checks cs)

-- A check that was skipped says why, and no other check does.
abbrev pub reasoned : CheckResult → Bool
reasoned c = if is_skipped c then is_some c.reason else not (is_some c.reason)

module _ (words : Words) (patterns : Patterns) (e : Expectations) where
  -- A comparison that holds, on a field that the record shows.
  abbrev unless_hidden : Readback → FieldName → Bool → Bool
  unless_hidden r name ok = not (has r name) || ok

  -- The address in the sender that the record shows is the one in the expected sender.
  abbrev same_sender : Readback → Bool
  same_sender r =
      sender_address words patterns (some e.sender) == sender_address words patterns r.from_addr

  -- The subject, with its white space collapsed, is the expected one, ends with it, or holds it.
  abbrev same_subject : Readback → Bool
  same_subject r = elim e.subject_match [
    | exact_subject ↦ normalize_text words (some e.subject) == normalize_text words r.subject
    | suffix_subject ↦
        ends_with (normalize_text words (some e.subject)) (normalize_text words r.subject)
    | contains_subject ↦
        has_infix (normalize_text words (some e.subject)) (normalize_text words r.subject)
  ]

  abbrev body_words : Text
  body_words = normalize_text words (some (expected_body e))

  -- The stored body, stripped of tags where it has some.
  abbrev readable : Option Text → Text
  readable none = if patterns.has_html_tag [] then html_to_text words patterns [] else []
  readable (some t) = if patterns.has_html_tag t then html_to_text words patterns t else t

  -- Nothing was expected, or the body is, or holds, what was.
  abbrev same_body : Readback → Bool
  same_body r =
      is_empty body_words
      || (if e.body_exact
          then body_words == normalize_text words (some (readable r.body))
          else has_infix body_words (normalize_text words (some (readable r.body))))

  abbrev loose_keys : List Text → List Text
  loose_keys names = map (loose_attachment_key words patterns) names

  -- No attachment was expected, or the names agree.
  abbrev same_attachments : Readback → Bool
  same_attachments r =
      is_empty (normalize_attachment_names words e.attachment_names) || (elim e.attachment_match [
        | exact_names ↦
            same_texts (normalize_attachment_names words e.attachment_names)
              (normalize_attachment_names words r.attachment_names)
        | loose_names ↦ same_counts (loose_keys e.attachment_names) (loose_keys r.attachment_names)
      ])

  -- The route is the expected one, where one is expected.
  abbrev routed : Readback → Bool
  routed r = elim e.route [
    | none ↦ true
    | some wanted ↦
        unless_hidden r FieldName.route
          (normalize_route words (some wanted) == normalize_route words r.route)
  ]

  -- The record is live, and each field that it shows and that there is something to compare with
  -- is as expected.
  abbrev pub agrees : Readback → Bool
  agrees r =
      r.exists
      && (unless_hidden r FieldName.from_addr (same_sender r)
          && (unless_hidden r FieldName.subject (same_subject r)
              && (unless_hidden r FieldName.body (same_body r)
                  && (unless_hidden r FieldName.attachment_names (same_attachments r)
                      && routed r))))

  abbrev pub sole_agrees : List Readback → Bool
  sole_agrees [] = false
  sole_agrees (r ∷ []) = agrees r
  sole_agrees (r ∷ q ∷ rs) = false

  passed_one :
      (r : Readback) (record_id tag : Text)
      → passed (evaluate words patterns e (some r) record_id tag) ≡ agrees r
  unfolding passed evaluate check_sender check_subject check_body check_attachments check_routing
      check_ticket_created sender_ok subject_ok body_ok wanted_body attachments_ok wanted_names
      route_ok
  passed_one r record_id tag = ground arith

  -- A message is verified exactly when the system holds one record of it, the record is live, and
  -- every field that it shows compares with what was expected: the address of the sender, the
  -- subject as --subject-match says, the body, the names of the attachments, the route. A hidden
  -- field, an empty expected body, no expected attachment and no expected route are not held
  -- against it; an empty expected sender or subject is compared as any other.
  pub passed-evaluate_sequence :
      (rs : List Readback) (record_id tag : Text)
      → passed (evaluate_sequence words patterns e rs record_id tag) ≡ sole_agrees rs
  unfolding evaluate_sequence passed evaluate check_ticket_created
  passed-evaluate_sequence [] record_id tag = refl
  passed-evaluate_sequence (r ∷ []) record_id tag = passed_one r record_id tag
  passed-evaluate_sequence (r ∷ q ∷ rs) record_id tag = refl

  routing_reasoned :
      (found : Option Readback) → reasoned (check_routing words patterns e found) ≡ true
  unfolding check_routing on_field
  routing_reasoned none = ground arith
  routing_reasoned (some r) = ground arith

  content_reasoned :
      (found : Option Readback) → all reasoned (content_checks words patterns e found) ≡ true
  unfolding content_checks on_field check_sender check_subject check_body check_attachments
  content_reasoned none = ground (arith, routing_reasoned none)
  content_reasoned (some r) = ground (arith, routing_reasoned (some r))

  -- Whatever was found, a verification has six checks, each of them passed, failed or skipped, and
  -- the skipped ones are those that say why.
  pub checks_accounted :
      (rs : List Readback) (record_id tag : Text)
      → let v = evaluate_sequence words patterns e rs record_id tag in
        (all reasoned v.checks ≡ true)
        × (length (failures v) + length (skips v) + count_if is_pass v.checks ≡ 6)
  unfolding evaluate_sequence evaluate content_checks failures skips check_ticket_created
  checks_accounted [] record_id tag = (
    content_reasoned none,
    partition_checks (evaluate words patterns e none record_id tag).checks,
  )
  checks_accounted (r ∷ []) record_id tag = (
    content_reasoned (some r),
    partition_checks (evaluate words patterns e (some r) record_id tag).checks,
  )
  checks_accounted (r ∷ q ∷ rs) record_id tag = (
    content_reasoned (some r),
    partition_checks (decided ticket_created false ∷ content_checks words patterns e (some r)),
  )
