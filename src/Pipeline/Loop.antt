-- ===== src/Pipeline/Loop.antt =====
-- testinghq/pipeline/loop.py: what the pipeline did with machine-generated mail. Notes and sentences
-- are left out; a finding is a constructor.
pub mod Outbound
mod Counted
mod Judged
mod Tickets
mod Merged
mod Attributed
mod Silent
mod Safe
mod Examples
use testing_hq.Prelude.{
  ℕ, ◌+◌, Bool, true, false, not, ◌&&◌, ◌||◌, Option, none, some, List, [], ◌∷◌, ◌++◌, map, length,
  keep_if, any, is_empty, nat_beq, if◌then◌else◌, ◌==◌,
}
use testing_hq.Prelude.Text.{Text, text_eq}
use testing_hq.Prelude.Dict.{Dict}
use testing_hq.Core.ExitCodes.{exit_ok, exit_mismatch}
use testing_hq.Pipeline.Readback.{Readback}
use testing_hq.Pipeline.Settle.{ReadbackOutcome}
use testing_hq.Pipeline.Ledger.Account.{found_for}

pub data TicketPolicy : Type 0 where
  policy_none policy_allowed : TicketPolicy

-- What is read of a `MachineMail`.
pub record MachineMail : Type 0 where
  pub tag : Text
  pub message_id : Text
  pub is_loop_bait : Bool

pub data ReplyState : Type 0 where
  reply_yes reply_no reply_unattributed reply_not_checked : ReplyState

pub data LoopFinding : Type 0 where
  ticket_opened bait_answered outbound_emitted : LoopFinding

pub record LoopResult : Type 0 where
  pub tag : Text
  pub ticked : Bool
  pub replied : Option Bool
  pub is_loop_bait : Bool
  pub findings : List LoopFinding
  pub reply_state : ReplyState

-- LoopResult.passed
unfoldable pub passed : LoopResult → Bool
passed r = is_empty r.findings

abbrev pub same_id : Option Text → Option Text → Bool
same_id none none = true
same_id none (some t) = false
same_id (some s) none = false
same_id (some s) (some t) = s == t

-- The records on tickets that are not the ones a message may be filed on.
unfoldable pub opened_tickets : List (Option Text) → List Readback → List Readback
opened_tickets threaded found =
    keep_if (λ (r : Readback). not (any (same_id r.ticket_id) threaded)) found

abbrev ticket_findings : TicketPolicy → Bool → List LoopFinding
ticket_findings policy_none ticked = if ticked then ticket_opened ∷ [] else []
ticket_findings policy_allowed ticked = []

abbrev reply_findings : MachineMail → Option (List Readback) → List LoopFinding
reply_findings m none = []
reply_findings m (some []) = []
reply_findings m (some (r ∷ rs)) =
    if m.is_loop_bait then bait_answered ∷ [] else outbound_emitted ∷ []

abbrev reply_state_of : Bool → Option (List Readback) → ReplyState
reply_state_of unattributed_seen none = reply_not_checked
reply_state_of unattributed_seen (some []) =
    if unattributed_seen then reply_unattributed else reply_no
reply_state_of unattributed_seen (some (r ∷ rs)) = reply_yes

abbrev replied_of : Bool → Option (List Readback) → Option Bool
replied_of unattributed_seen none = none
replied_of unattributed_seen (some []) = if unattributed_seen then none else some false
replied_of unattributed_seen (some (r ∷ rs)) = some true

-- `judge_one`, for a policy that is one of the two.
unfoldable pub judge_one :
    MachineMail
    → List Readback
    → Option (List Readback)
    → TicketPolicy
    → Bool
    → List (Option Text)
    → LoopResult
unfolding opened_tickets
judge_one m found outbound policy unattributed_seen threaded =
    let ticked = not (is_empty (opened_tickets threaded found)) in
    record {
      tag = m.tag;
      ticked = ticked;
      replied = replied_of unattributed_seen outbound;
      is_loop_bait = m.is_loop_bait;
      findings = ticket_findings policy ticked ++ reply_findings m outbound;
      reply_state = reply_state_of unattributed_seen outbound;
    }

abbrev pub outbound_for : Option (Dict Text (List Readback)) → Text → Option (List Readback)
outbound_for none tag = none
outbound_for (some d) tag = some (found_for d tag)

module _ (readbacks : Dict Text (List Readback)) (outbound : Option (Dict Text (List Readback)))
    (policy : TicketPolicy) (unattributed_seen : Bool) (threaded : List (Option Text)) where
  unfoldable pub judge_message : MachineMail → LoopResult
  unfolding judge_one found_for
  judge_message m =
      judge_one m (found_for readbacks m.tag) (outbound_for outbound m.tag) policy unattributed_seen
        (if m.is_loop_bait then threaded else [])

  unfoldable pub judge : List MachineMail → List LoopResult
  unfolding judge_message
  judge messages = map judge_message messages

abbrev pub not_passed : LoopResult → Bool
not_passed r = not (passed r)

-- summary["findings"]: the messages with findings and the findings of the run.
unfoldable pub findings_count : List LoopResult → List Readback → Bool → Bool → ℕ
unfolding passed
findings_count results unattributed unsettled readback_failed =
    length (keep_if not_passed results)
    + ((if is_empty unattributed then 0 else 1)
        + (if readback_failed then 1 else if unsettled then 1 else 0))

-- The verdict of `headline`, of a run that was not aborted, and what it adds.
pub data LoopVerdict : Type 0 where
  readback_failed_verdict unsettled_verdict loop_safe loops_detected : LoopVerdict

pub data Qualifier : Type 0 where
  unqualified replies_not_checked untagged_not_checked : Qualifier

abbrev is_not_checked : LoopResult → Bool
is_not_checked r = elim r.reply_state [ reply_not_checked ↦ true | _ ↦ false ]

unfoldable pub headline : ℕ → Bool → Bool → LoopVerdict
headline findings unsettled readback_failed =
    if readback_failed
    then readback_failed_verdict
    else if unsettled
    then unsettled_verdict
    else if nat_beq findings 0
    then loop_safe
    else loops_detected

unfoldable pub qualifier : List LoopResult → Option Bool → Qualifier
qualifier results outbound_enumerated =
    if any is_not_checked results then replies_not_checked else elim outbound_enumerated [
      | none ↦ unqualified
      | some listed ↦ if listed then unqualified else untagged_not_checked
    ]
