-- ===== src/Pipeline/Loop/Safe.antt =====
-- When a run of machine mail exits with 0.
use testing_hq.Prelude.{
  ◌≡◌, ◌↔◌, refl, Bool, true, ◌&&◌, Option, none, some, List, [], ◌∷◌, arith, all, map, false, ◌++◌,
  ap, is_empty,
}
use testing_hq.Prelude.Text.{Text, text_eq}
use testing_hq.Prelude.Dict.{insert}
use testing_hq.Core.ExitCodes.{exit_ok}
use testing_hq.Pipeline.Readback.{Readback}
use testing_hq.Pipeline.Readback.Normalize.{Words}
use testing_hq.Pipeline.Settle.{ReadbackOutcome}
use testing_hq.Pipeline.Ledger.Account.{found_for}
use testing_hq.Pipeline.Loop.{TicketPolicy, MachineMail}
use testing_hq.Pipeline.Loop.Counted.{arrived, arrived-new_records}
use testing_hq.Pipeline.Loop.Attributed.{tags_apart, of_precursor}
use testing_hq.Pipeline.Loop.Outbound.{
  Sink, threaded_ids, loop_code, ids_of, merge_outbound, merged_of, enumerated_new,
}
use testing_hq.Pipeline.Loop.Judged.{mail_fine, loop_code_ok}
use testing_hq.Pipeline.Loop.Tickets.{no_ticket, ticket_fine-no_ticket}
use testing_hq.Pipeline.Loop.Silent.{silent}

-- Of a listing, now and before, the records that are new.
abbrev pub arrivals : (Readback → Text) → Option (List Readback × List Readback) → List Readback
arrivals key none = []
arrivals key (some (after, before)) = arrived key before [] after

-- Whether a sink settled, its lookups found nothing for the judged messages, and every new record
-- of its listing is the precursor's.
abbrev pub no_reply :
    (Readback → Text) → Words → MachineMail → List MachineMail → Option Sink → Bool
no_reply key words precursor judged none = true
no_reply key words precursor judged (some sink) =
    sink.outcome.stable
    && (all (λ (m : MachineMail). is_empty (found_for sink.outcome.readbacks m.tag)) judged
        && all (of_precursor words precursor judged) (arrivals key sink.listed))

-- A run of machine mail that was left alone.
abbrev pub LeftAlone :
    (Readback → Text)
    → Words
    → MachineMail
    → List MachineMail
    → TicketPolicy
    → ReadbackOutcome
    → Option Sink
    → Type 0
LeftAlone key words precursor judged policy outcome sink =
    (outcome.stable ≡ true)
    × (outcome.all_404 ≡ false)
    × (all (no_ticket policy precursor outcome.readbacks) judged ≡ true)
    × (no_reply key words precursor judged sink ≡ true)

no_sink :
    (policy : TicketPolicy) (precursor : MachineMail) (outcome : ReadbackOutcome)
    (ms : List MachineMail)
    → all (mail_fine outcome.readbacks none policy (threaded_ids precursor outcome)) ms
      ≡ all (no_ticket policy precursor outcome.readbacks) ms
no_sink policy precursor outcome [] = refl
no_sink policy precursor outcome (m ∷ ms) =
    ground
      (arith, ticket_fine-no_ticket policy precursor outcome m, no_sink policy precursor outcome ms)

enumerated_new-arrivals :
    (key : Readback → Text) (words : Words) (l : Option (List Readback × List Readback))
    → enumerated_new key words l ≡ arrivals key l
enumerated_new-arrivals key words none = refl
enumerated_new-arrivals key words (some (after, before)) = arrived-new_records key after before

merged_of-eq :
    (key : Readback → Text) (words : Words) (precursor : MachineMail) (judged : List MachineMail)
    (sink : Sink)
    → merged_of key words precursor judged sink
      ≡ merge_outbound key words sink.outcome.readbacks
          (enumerated_new key words sink.listed)
          (map (λ (m : MachineMail). m.tag) judged ++ precursor.tag ∷ [])
          (insert precursor.message_id precursor.tag (ids_of [] judged))
unfolding merged_of
merged_of-eq key words precursor judged sink = refl

-- Where the tags of the run are not empty and the precursor's is that of no judged message, the run
-- exits with 0 if and only if the readback of the tickets settled and was not all 404, no record of
-- a judged message was found (unless the policy allows tickets), except that a record of the bait
-- may be on a ticket that one of the precursor is on, and, where a sink was read, its readback
-- settled (be it with nothing but 404), found no mail for a judged message, and every new record of
-- the sink's listing has the precursor's tag or, having that of no mail of the run, refers to the
-- precursor before any judged message.
pub loop_code-exit_ok :
    (key : Readback → Text) (words : Words) (precursor : MachineMail) (judged : List MachineMail)
    (policy : TicketPolicy) (outcome : ReadbackOutcome) (sink : Option Sink)
    → tags_apart words precursor judged ≡ true
    → (loop_code key words precursor judged policy outcome sink ≡ exit_ok)
      ↔ LeftAlone key words precursor judged policy outcome sink
loop_code-exit_ok key words precursor judged policy outcome none apart = ground (
  arith,
  loop_code_ok key words precursor judged policy outcome none,
  no_sink policy precursor outcome judged,
)
loop_code-exit_ok key words precursor judged policy outcome (some sink) apart = ground (
  arith,
  loop_code_ok key words precursor judged policy outcome (some sink),
  silent key words precursor judged policy outcome apart sink.outcome.readbacks
      (enumerated_new key words sink.listed),
  ap (λ rs. all (of_precursor words precursor judged) rs)
      (enumerated_new-arrivals key words sink.listed),
  merged_of-eq key words precursor judged sink,
)
