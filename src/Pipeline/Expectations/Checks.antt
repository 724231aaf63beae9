-- ===== src/Pipeline/Expectations/Checks.antt =====
-- The checks of testinghq/pipeline/expectations.py: each passes, fails, or is skipped for a reason.
-- The sentences that explain a result are not modelled.
use testing_hq.Prelude.{
  Bool, true, false, ◌&&◌, Option, none, some, List, [], ◌∷◌, map, is_empty, if◌then◌else◌, ◌==◌,
}
use testing_hq.Prelude.Text.{Text, text_eq, has_infix}
use testing_hq.Core.Guardrails.{ends_with}
use testing_hq.Pipeline.Readback.{Readback}
use testing_hq.Pipeline.Readback.Fields.{FieldName, has}
use testing_hq.Pipeline.Readback.Normalize.{
  Words, normalize_text, normalize_route, normalize_attachment_names,
}
use testing_hq.Pipeline.Expectations.Expected.{
  exact_subject, contains_subject, suffix_subject, exact_names, loose_names, Expectations,
  expected_body,
}
use testing_hq.Pipeline.Expectations.Values.{
  Patterns, sender_address, html_to_text, loose_attachment_key, same_counts,
}

pub data CheckName : Type 0 where
  ticket_created sender subject body attachments routing thread_link thread_together : CheckName

pub data SkipReason : Type 0 where
  no_record not_visible nothing_to_check no_expected_route : SkipReason

-- `passed` is None where the check was skipped.
pub record CheckResult : Type 0 where
  pub name : CheckName
  pub passed : Option Bool
  pub reason : Option SkipReason

abbrev pub skipped : CheckName → SkipReason → CheckResult
skipped n why = record { name = n; passed = none; reason = some why }

-- `_passed` and `_failed`
abbrev pub decided : CheckName → Bool → CheckResult
decided n ok = record { name = n; passed = some ok; reason = none }

-- The guards of a check: there is a record, and the field is visible on it.
unfoldable pub on_field :
    CheckName → FieldName → (Readback → CheckResult) → Option Readback → CheckResult
on_field n name check none = skipped n no_record
on_field n name check (some r) = if has r name then check r else skipped n not_visible

unfoldable pub check_ticket_created : Option Readback → CheckResult
check_ticket_created none = decided ticket_created false
check_ticket_created (some r) = decided ticket_created r.exists

-- expected == actual, of two tuples
abbrev pub same_texts : List Text → List Text → Bool
same_texts [] [] = true
same_texts [] (t ∷ ts) = false
same_texts (s ∷ ss) [] = false
same_texts (s ∷ ss) (t ∷ ts) = (s == t) && same_texts ss ts

module _ (words : Words) (patterns : Patterns) (e : Expectations) where
  -- Each comparison, for a record on which the field is visible.
  unfoldable pub sender_ok : Readback → Bool
  sender_ok r =
      sender_address words patterns (some e.sender) == sender_address words patterns r.from_addr

  unfoldable pub subject_ok : Readback → Bool
  subject_ok r =
      let expected = normalize_text words (some e.subject) in
      let actual = normalize_text words r.subject in
      elim e.subject_match [
        | exact_subject ↦ expected == actual
        | suffix_subject ↦ ends_with expected actual
        | contains_subject ↦ has_infix expected actual
      ]

  unfoldable pub wanted_body : Text
  unfolding expected_body
  wanted_body = normalize_text words (some (expected_body e))

  abbrev stored_text : Option Text → Text
  stored_text none = []
  stored_text (some t) = t

  unfoldable pub body_ok : Readback → Bool
  unfolding wanted_body
  body_ok r =
      let stored = stored_text r.body in
      let actual = normalize_text words (
        some
          (if patterns.has_html_tag stored then html_to_text words patterns stored else stored)) in
      if e.body_exact then wanted_body == actual else has_infix wanted_body actual

  unfoldable pub wanted_names : List Text
  wanted_names = normalize_attachment_names words e.attachment_names

  unfoldable pub attachments_ok : Readback → Bool
  unfolding wanted_names
  attachments_ok r = elim e.attachment_match [
    | exact_names ↦ same_texts wanted_names (normalize_attachment_names words r.attachment_names)
    | loose_names ↦
        same_counts (map (loose_attachment_key words patterns) e.attachment_names)
          (map (loose_attachment_key words patterns) r.attachment_names)
  ]

  unfoldable pub route_ok : Text → Readback → Bool
  route_ok wanted r = normalize_route words (some wanted) == normalize_route words r.route

  unfoldable pub check_sender : Option Readback → CheckResult
  unfolding on_field sender_ok
  check_sender = on_field sender FieldName.from_addr (λ r. decided sender (sender_ok r))

  unfoldable pub check_subject : Option Readback → CheckResult
  unfolding on_field subject_ok
  check_subject = on_field subject FieldName.subject (λ r. decided subject (subject_ok r))

  unfoldable pub check_body : Option Readback → CheckResult
  unfolding on_field body_ok wanted_body
  check_body = on_field body FieldName.body (λ r.
      if is_empty wanted_body then skipped body nothing_to_check else decided body (body_ok r))

  unfoldable pub check_attachments : Option Readback → CheckResult
  unfolding on_field attachments_ok wanted_names
  check_attachments = on_field attachments FieldName.attachment_names (λ r.
      if is_empty wanted_names
      then skipped attachments nothing_to_check
      else decided attachments (attachments_ok r))

  unfoldable pub check_routing : Option Readback → CheckResult
  unfolding on_field route_ok
  check_routing found = elim e.route [
    | none ↦ skipped routing no_expected_route
    | some wanted ↦
        on_field routing FieldName.route (λ r. decided routing (route_ok wanted r)) found
  ]
