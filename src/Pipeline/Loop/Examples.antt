-- ===== src/Pipeline/Loop/Examples.antt =====
-- Machine mail that was left alone, and a sink whose every lookup was a 404.
use testing_hq.Prelude.{
  ℕ, ◌-◌, ◌≡◌, ◌↔◌, refl, Bool, true, false, not, ◌&&◌, Option, none, some, List, [], ◌∷◌, all,
  is_empty,
}
use testing_hq.Prelude.Text.{Text, codes}
use testing_hq.Core.ExitCodes.{exit_ok}
use testing_hq.Pipeline.Readback.{Readback}
use testing_hq.Pipeline.Settle.{ReadbackOutcome}
use testing_hq.Pipeline.Settle.Examples.{probe, ticket_for, settled_outcome}
use testing_hq.Pipeline.Verify.Examples.{plain_words}
use testing_hq.Pipeline.Loop.{policy_none, MachineMail}
use testing_hq.Pipeline.Loop.Outbound.{Sink, loop_code}
use testing_hq.Pipeline.Loop.Safe.{LeftAlone, loop_code-exit_ok}

abbrev ordinary : MachineMail
ordinary = record { tag = codes "hq-7-0100"; message_id = codes "m0@hq.test"; is_loop_bait = false }

abbrev bulletin : MachineMail
bulletin = record { tag = codes "hq-7-0001"; message_id = codes "m1@hq.test"; is_loop_bait = false }

abbrev bait : MachineMail
bait = record { tag = codes "hq-7-0002"; message_id = codes "m2@hq.test"; is_loop_bait = true }

-- A record is told from another by its ticket.
abbrev ticket_text : Readback → Text
ticket_text r = elim r.ticket_id [ none ↦ [] | some t ↦ t ]

abbrev other_ticket : Readback
other_ticket = record (ticket_for probe) { ticket_id = some (codes "T2") }

-- The sink answered the bait.
abbrev answered : Sink
answered = record {
  outcome = record settled_outcome { readbacks = [] };
  listed =
      some (record other_ticket { tag = none; in_reply_to = some (codes "m2@hq.test") } ∷ [], []);
}

abbrev quiet : ReadbackOutcome
quiet = record settled_outcome { readbacks = [] }

-- The lookups of the sink were all answered by a 404, and it is not listed.
abbrev absent_sink : Sink
absent_sink = record {
  outcome = record settled_outcome { readbacks = []; all_404 = true };
  listed = none;
}

sees_answer :
    loop_code ticket_text plain_words ordinary
      (bulletin ∷ bait ∷ [])
      policy_none
      quiet
      (some answered)
    ≡ 3
unfolding loop_code testing_hq.Prelude.Dict.lookup testing_hq.Prelude.Dict.insert
sees_answer = refl

takes_404_for_no :
    loop_code ticket_text plain_words ordinary
      (bulletin ∷ bait ∷ [])
      policy_none
      quiet
      (some absent_sink)
    ≡ 0
unfolding loop_code testing_hq.Prelude.Dict.lookup testing_hq.Prelude.Dict.insert
takes_404_for_no = refl

loop_code-exit_ok_example :
    (loop_code ticket_text plain_words ordinary
        (bulletin ∷ bait ∷ [])
        policy_none
        quiet
        (some answered)
      ≡ exit_ok)
    ↔ LeftAlone ticket_text plain_words ordinary
        (bulletin ∷ bait ∷ [])
        policy_none
        quiet
        (some answered)
loop_code-exit_ok_example =
    loop_code-exit_ok ticket_text plain_words ordinary (bulletin ∷ bait ∷ []) policy_none quiet
      (some answered) refl
