-- ===== src/Pipeline/Loop/Judged.antt =====
-- What the exit code of a run of machine mail says of its messages.
use testing_hq.Prelude.{
  ◌≡◌, ◌↔◌, refl, Bool, true, not, ◌&&◌, Option, none, some, List, [], ◌∷◌, arith, length, keep_if,
  all, is_empty, nat_beq, if◌then◌else◌,
}
use testing_hq.Prelude.Text.{Text, text_eq}
use testing_hq.Prelude.Dict.{Dict}
use testing_hq.Core.ExitCodes.{exit_ok}
use testing_hq.Pipeline.Readback.{Readback}
use testing_hq.Pipeline.Readback.Normalize.{Words}
use testing_hq.Pipeline.Settle.{ReadbackOutcome}
use testing_hq.Pipeline.Ledger.Account.{found_for}
use testing_hq.Pipeline.Loop.{
  TicketPolicy, policy_none, policy_allowed, MachineMail, passed, not_passed, opened_tickets,
  judge_one, outbound_for, judge_message, judge, findings_count,
}
use testing_hq.Pipeline.Loop.Outbound.{
  Sink, outbound_of, unattributed_of, loop_unsettled, threaded_ids, loop_code,
}

-- No ticket was opened for a message, or the policy allows it.
abbrev pub ticket_fine : TicketPolicy → List Readback → Bool
ticket_fine policy_none opened = is_empty opened
ticket_fine policy_allowed opened = true

-- No outbound mail was tied to a message, where it was looked for.
abbrev not_replied : Option (List Readback) → Bool
not_replied none = true
not_replied (some rs) = is_empty rs

passed-judge_one :
    (m : MachineMail) (found : List Readback) (outbound : Option (List Readback))
    (policy : TicketPolicy) (seen : Bool) (threaded : List (Option Text))
    → passed (judge_one m found outbound policy seen threaded)
      ≡ (ticket_fine policy (opened_tickets threaded found) && not_replied outbound)
unfolding passed judge_one
passed-judge_one m found none policy_none seen threaded = ground arith
passed-judge_one m found (some []) policy_none seen threaded = ground arith
passed-judge_one m found (some (r ∷ rs)) policy_none seen threaded = ground arith
passed-judge_one m found none policy_allowed seen threaded = ground arith
passed-judge_one m found (some []) policy_allowed seen threaded = ground arith
passed-judge_one m found (some (r ∷ rs)) policy_allowed seen threaded = ground arith

module _ (readbacks : Dict Text (List Readback)) (outbound : Option (Dict Text (List Readback)))
    (policy : TicketPolicy) (threaded : List (Option Text)) where
  abbrev pub mail_fine : MachineMail → Bool
  mail_fine m =
      ticket_fine policy
        (opened_tickets (if m.is_loop_bait then threaded else []) (found_for readbacks m.tag))
      && not_replied (outbound_for outbound m.tag)

  none_failing :
      (seen : Bool) (ms : List MachineMail)
      → nat_beq (length (keep_if not_passed (judge readbacks outbound policy seen threaded ms))) 0
        ≡ all mail_fine ms
  unfolding judge judge_message
  none_failing seen [] = refl
  none_failing seen (m ∷ ms) = ground (
    arith,
    none_failing seen ms,
    passed-judge_one m (found_for readbacks m.tag) (outbound_for outbound m.tag) policy seen
        (if m.is_loop_bait then threaded else []),
  )

-- The run exits with 0 where it settled and no message or record speaks against it.
pub loop_code_ok :
    (key : Readback → Text) (words : Words) (precursor : MachineMail) (judged : List MachineMail)
    (policy : TicketPolicy) (outcome : ReadbackOutcome) (sink : Option Sink)
    → (loop_code key words precursor judged policy outcome sink ≡ exit_ok) ↔ (
        (not (loop_unsettled outcome sink)
          && (not outcome.all_404
              && (is_empty (unattributed_of key words precursor judged sink)
                  && all
                      (mail_fine outcome.readbacks
                        (outbound_of key words precursor judged sink)
                        policy
                        (threaded_ids precursor outcome))
                      judged)))
        ≡ true)
unfolding loop_code findings_count
loop_code_ok key words precursor judged policy outcome sink = ground (
  arith,
  none_failing outcome.readbacks (outbound_of key words precursor judged sink) policy
      (threaded_ids precursor outcome)
      (not (is_empty (unattributed_of key words precursor judged sink))) judged,
)
