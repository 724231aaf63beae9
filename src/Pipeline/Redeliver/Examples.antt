-- ===== src/Pipeline/Redeliver/Examples.antt =====
-- A reply that is delivered before the message that it answers.
use testing_hq.Prelude.{
  ℕ, ◌≡◌, ◌≤◌, refl, Bool, true, false, not, ◌&&◌, Option, none, some, List, [], ◌∷◌, arith, all,
  length, nat_beq,
}
use testing_hq.Prelude.Text.{Text, text_eq, codes}
use testing_hq.Prelude.Dict.{Dict}
use testing_hq.Core.ExitCodes.{exit_ok}
use testing_hq.Pipeline.Readback.{Readback}
use testing_hq.Pipeline.Settle.{ReadbackOutcome}
use testing_hq.Pipeline.Settle.Examples.{settled_outcome}
use testing_hq.Pipeline.Ledger.Verdict.{is_failed, is_unsettled}
use testing_hq.Pipeline.Verify.Examples.{plain_words, plain_patterns, plain_strings, usual, payload}
use testing_hq.Pipeline.Redeliver.{Delivery, Scenario, tags, parent_of, ancestors, ancestry_of}
use testing_hq.Pipeline.Redeliver.Judge.{ScenarioResult, Judged, judged, judge_scenario, passed}
use testing_hq.Pipeline.Redeliver.Run.{redeliver_run}
use testing_hq.Pipeline.Redeliver.Passing.{answerable}
use testing_hq.Pipeline.Redeliver.Safe.{
  scenario_fine, replies_delivered, no_extra, redeliver_run-exit_ok,
}

abbrev reply : Delivery
reply = record {
  email = record payload { filenames = [] };
  tag = codes "hq-r1st-7-0001";
  record_id = codes "clean-7-0001";
  message_id = codes "reply@hq.test";
  in_reply_to_tag = some (codes "hq-r1st-7-0000");
}

abbrev root : Delivery
root = record reply {
  tag = codes "hq-r1st-7-0000";
  record_id = codes "clean-7-0000";
  message_id = codes "root@hq.test";
  in_reply_to_tag = none;
}

abbrev reply_first : Scenario
reply_first = record { name = codes "reply-first"; deliveries = reply ∷ root ∷ [] }

abbrev stored_root : Readback
stored_root = record {
  exists = true;
  ticket_id = some (codes "T1");
  from_addr = some (codes "a@example.test");
  subject = some (codes "hello");
  body = some (codes "text");
  attachment_names = [];
  route = none;
  message_id = none;
  in_reply_to = none;
  references = [];
  tag = some (codes "hq-r1st-7-0000");
  category = none;
  priority = none;
  fields = [];
  field_notes = [];
}

abbrev stored_reply : Readback
stored_reply = record stored_root {
  tag = some (codes "hq-r1st-7-0001");
  in_reply_to = some (codes "root@hq.test");
  references = codes "root@hq.test" ∷ [];
}

abbrev stored : Dict Text (List Readback)
stored =
    (codes "hq-r1st-7-0001", stored_reply ∷ []) ∷ (codes "hq-r1st-7-0000", stored_root ∷ []) ∷ []

abbrev outcome : ReadbackOutcome
outcome = record settled_outcome { readbacks = stored }

-- A third record of the family, on another ticket.
abbrev echo : Readback
echo = record stored_root { tag = some (codes "hq-r1st-7-0009"); ticket_id = some (codes "T9") }

ends_well :
    redeliver_run plain_words plain_patterns usual plain_strings
      (codes "hq")
      (reply_first ∷ [])
      outcome
      (some (stored_root ∷ stored_reply ∷ []))
      false
    ≡ judged 0
unfolding redeliver_run testing_hq.Pipeline.Ledger.Account.found_for testing_hq.Prelude.Dict.lookup
    testing_hq.Pipeline.Expectations.Checks.check_ticket_created
    testing_hq.Pipeline.Expectations.Checks.check_sender testing_hq.Pipeline.Readback.Fields.has
    testing_hq.Pipeline.Expectations.Values.sender_address
    testing_hq.Pipeline.Expectations.Expected.from_email
    testing_hq.Pipeline.Expectations.Checks.check_subject testing_hq.Prelude.Text.has_infix
    testing_hq.Pipeline.Readback.Normalize.normalize_text testing_hq.Prelude.Text.strip_prefix
    testing_hq.Pipeline.Expectations.Checks.check_body
    testing_hq.Pipeline.Expectations.Checks.check_attachments
    testing_hq.Pipeline.Readback.Normalize.normalize_attachment_names
    testing_hq.Prelude.TextOrder.sorted_set testing_hq.Pipeline.Expectations.Checks.check_routing
    testing_hq.Pipeline.Readback.Normalize.message_ids_of
    testing_hq.Pipeline.Redeliver.Judge.judge_scenario testing_hq.Prelude.Sort.sort_by
ends_well = refl

echoed :
    redeliver_run plain_words plain_patterns usual plain_strings
      (codes "hq")
      (reply_first ∷ [])
      outcome
      (some (stored_root ∷ echo ∷ []))
      false
    ≡ judged 3
unfolding redeliver_run testing_hq.Pipeline.Ledger.Account.found_for testing_hq.Prelude.Dict.lookup
    testing_hq.Pipeline.Expectations.Checks.check_ticket_created
    testing_hq.Pipeline.Expectations.Checks.check_sender testing_hq.Pipeline.Readback.Fields.has
    testing_hq.Pipeline.Expectations.Values.sender_address
    testing_hq.Pipeline.Expectations.Expected.from_email
    testing_hq.Pipeline.Expectations.Checks.check_subject testing_hq.Prelude.Text.has_infix
    testing_hq.Pipeline.Readback.Normalize.normalize_text testing_hq.Prelude.Text.strip_prefix
    testing_hq.Pipeline.Expectations.Checks.check_body
    testing_hq.Pipeline.Expectations.Checks.check_attachments
    testing_hq.Pipeline.Readback.Normalize.normalize_attachment_names
    testing_hq.Prelude.TextOrder.sorted_set testing_hq.Pipeline.Expectations.Checks.check_routing
    testing_hq.Pipeline.Readback.Normalize.message_ids_of
    testing_hq.Pipeline.Redeliver.Judge.judge_scenario testing_hq.Prelude.Sort.sort_by
echoed = refl

answers :
    all (answerable plain_words plain_patterns usual reply_first stored) (tags reply_first) ≡ true
unfolding tags testing_hq.Pipeline.Redeliver.delivery_for parent_of
answers = refl

replies :
    all
      (replies_delivered plain_words plain_patterns usual plain_strings (codes "hq") stored)
      (reply_first ∷ [])
    ≡ true
unfolding tags testing_hq.Pipeline.Redeliver.delivery_for parent_of
replies = refl

redeliver_run-exit_ok_example :
    (code : ℕ) × (redeliver_run plain_words plain_patterns usual plain_strings
        (codes "hq")
        (reply_first ∷ [])
        outcome
        (some (stored_root ∷ echo ∷ []))
        false
      ≡ judged code)
    × (nat_beq code exit_ok ≡ (
        not (is_failed (some outcome))
        && (not (is_unsettled (some outcome))
            && (no_extra plain_words plain_patterns usual plain_strings
                  (codes "hq")
                  stored
                  (reply_first ∷ [])
                  (some (stored_root ∷ echo ∷ []))
                && all
                    (scenario_fine plain_words plain_patterns usual plain_strings
                      (codes "hq")
                      stored)
                    (reply_first ∷ [])))))
redeliver_run-exit_ok_example =
    redeliver_run-exit_ok plain_words plain_patterns usual plain_strings (codes "hq")
      (reply_first ∷ []) outcome (some (stored_root ∷ echo ∷ [])) false replies
