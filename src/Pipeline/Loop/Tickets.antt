-- ===== src/Pipeline/Loop/Tickets.antt =====
-- The tickets of the messages of a run.
use testing_hq.Prelude.{
  ◌≡◌, refl, Bool, true, not, ◌&&◌, Option, none, some, List, [], ◌∷◌, arith, all, any, map, false,
  is_some, ◌==◌, is_empty, if◌then◌else◌,
}
use testing_hq.Prelude.Text.{Text, text_eq, text_beq_iff}
use testing_hq.Prelude.Dict.{Dict}
use testing_hq.Pipeline.Readback.{Readback}
use testing_hq.Pipeline.Settle.{ReadbackOutcome}
use testing_hq.Pipeline.Ledger.Account.{found_for}
use testing_hq.Pipeline.Loop.{
  TicketPolicy, policy_none, policy_allowed, MachineMail, opened_tickets, same_id,
}
use testing_hq.Pipeline.Loop.Outbound.{threaded_ids}
use testing_hq.Pipeline.Loop.Judged.{ticket_fine}

-- Whether two records are on the same ticket, or both on none.
abbrev pub same_ticket : Readback → Readback → Bool
same_ticket p r = elim p.ticket_id [
  | none ↦ not (is_some r.ticket_id)
  | some s ↦ elim r.ticket_id [ none ↦ false | some t ↦ s == t ]
]

-- Whether no record of a message is on a ticket, except that the bait may be on one that a record
-- of the precursor is on, or the policy allows tickets.
abbrev pub no_ticket : TicketPolicy → MachineMail → Dict Text (List Readback) → MachineMail → Bool
no_ticket policy_allowed precursor readbacks m = true
no_ticket policy_none precursor readbacks m =
    all
      (λ (r : Readback).
        m.is_loop_bait
        && any (λ (p : Readback). same_ticket p r) (found_for readbacks precursor.tag))
      (found_for readbacks m.tag)

same_id-same_ticket : (p r : Readback) → same_id r.ticket_id p.ticket_id ≡ same_ticket p r
same_id-same_ticket p r = by_ids r.ticket_id p.ticket_id
  where
    by_ids :
        (t s : Option Text)
        → same_id t s ≡ (elim s as (λ q. Bool) [
          | none ↦ not (is_some t)
          | some x ↦ elim t as (λ q. Bool) [ none ↦ false | some y ↦ x == y ]
        ])
    by_ids none none = refl
    by_ids none (some x) = refl
    by_ids (some y) none = refl
    by_ids (some y) (some x) = ground (arith, text_beq_iff x y, text_beq_iff y x)

any_ticket :
    (r : Readback) (ps : List Readback)
    → any (same_id r.ticket_id) (map (λ (p : Readback). p.ticket_id) ps)
      ≡ any (λ (p : Readback). same_ticket p r) ps
any_ticket r [] = refl
any_ticket r (p ∷ ps) = ground (arith, any_ticket r ps, same_id-same_ticket p r)

filed :
    (ps found : List Readback)
    → is_empty (opened_tickets (map (λ (p : Readback). p.ticket_id) ps) found)
      ≡ all (λ (r : Readback). any (λ (p : Readback). same_ticket p r) ps) found
unfolding opened_tickets
filed ps [] = refl
filed ps (r ∷ found) = ground (arith, any_ticket r ps, filed ps found)

unfiled :
    (found : List Readback) (p : Readback → Bool)
    → is_empty (opened_tickets [] found) ≡ all (λ (r : Readback). false && p r) found
unfolding opened_tickets
unfiled [] p = refl
unfiled (r ∷ found) p = ground arith

bait_filed :
    (is_bait : Bool) (ps found : List Readback)
    → is_empty
        (opened_tickets (if is_bait then map (λ (p : Readback). p.ticket_id) ps else []) found)
      ≡ all (λ (r : Readback). is_bait && any (λ (p : Readback). same_ticket p r) ps) found
bait_filed true ps found = filed ps found
bait_filed false ps found = unfiled found (λ r. any (λ (p : Readback). same_ticket p r) ps)

-- A message is fine as to tickets where no record of it is on one it may not be on.
pub ticket_fine-no_ticket :
    (policy : TicketPolicy) (precursor : MachineMail) (outcome : ReadbackOutcome) (m : MachineMail)
    → ticket_fine policy (
        opened_tickets
          (if m.is_loop_bait then threaded_ids precursor outcome else [])
          (found_for outcome.readbacks m.tag))
      ≡ no_ticket policy precursor outcome.readbacks m
ticket_fine-no_ticket policy_allowed precursor outcome m = refl
ticket_fine-no_ticket policy_none precursor outcome m =
    bait_filed m.is_loop_bait (found_for outcome.readbacks precursor.tag)
      (found_for outcome.readbacks m.tag)
