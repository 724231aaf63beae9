-- ===== src/Pipeline/Expectations/Threads.antt =====
-- `check_thread_link` and `check_thread_together` of testinghq/pipeline/expectations.py. A Python
-- set is read as the list of its members in order.
use testing_hq.Prelude.{
  Bool, not, ◌&&◌, ◌||◌, Option, none, some, List, [], all, is_empty, if◌then◌else◌, ◌==◌,
}
use testing_hq.Prelude.Text.{Text, text_eq}
use testing_hq.Prelude.Distinct.{mem}
use testing_hq.Pipeline.Readback.{Readback}
use testing_hq.Pipeline.Readback.Fields.{FieldName, has}
use testing_hq.Pipeline.Readback.Normalize.{Words, normalize_message_ids, message_ids_of}
use testing_hq.Pipeline.Expectations.Checks.{
  thread_link, thread_together, no_record, not_visible, nothing_to_check, CheckResult, skipped,
  decided, same_texts,
}

-- Every id of the first list is in the second.
abbrev pub carried : List Text → List Text → Bool
carried ids stored = all (λ i. mem i stored) ids

module _ (words : Words) where
  -- Whether a header that is visible names the parent, and every ancestor where it is References.
  unfoldable pub in_reply_to_ok : List Text → Readback → Bool
  in_reply_to_ok parent_ids r = same_texts (message_ids_of words r.in_reply_to) parent_ids

  unfoldable pub references_ok : List Text → List Text → Readback → Bool
  references_ok parent_ids chain r =
      let stored = normalize_message_ids words r.references in
      carried parent_ids stored && carried chain stored

  abbrev pub wanted_chain : List Text → List Text
  wanted_chain ancestry = if is_empty ancestry then [] else normalize_message_ids words ancestry

  unfoldable pub link_ok : List Text → List Text → Readback → Bool
  unfolding in_reply_to_ok references_ok
  link_ok parent_ids ancestry r =
      (not (has r FieldName.in_reply_to) || in_reply_to_ok parent_ids r)
      && (not (has r FieldName.references) || references_ok parent_ids (wanted_chain ancestry) r)

  unfoldable pub check_thread_link : Option Readback → Text → List Text → CheckResult
  unfolding link_ok
  check_thread_link none parent_message_id ancestry = skipped thread_link no_record
  check_thread_link (some r) parent_message_id ancestry =
      let parent_ids = message_ids_of words (some parent_message_id) in
      if is_empty parent_message_id
      then skipped thread_link nothing_to_check
      else if is_empty parent_ids
      then skipped thread_link nothing_to_check
      else if not (has r FieldName.in_reply_to) && not (has r FieldName.references)
      then skipped thread_link not_visible
      else decided thread_link (link_ok parent_ids ancestry r)

abbrev same_ticket : Option Text → Option Text → CheckResult
same_ticket none t = skipped thread_together nothing_to_check
same_ticket (some s) none = skipped thread_together nothing_to_check
same_ticket (some s) (some t) =
    if is_empty s || is_empty t
    then skipped thread_together nothing_to_check
    else decided thread_together (s == t)

unfoldable pub check_thread_together : Option Readback → Option Readback → CheckResult
check_thread_together none root = skipped thread_together no_record
check_thread_together (some reply) none = skipped thread_together no_record
check_thread_together (some reply) (some root) = same_ticket reply.ticket_id root.ticket_id
