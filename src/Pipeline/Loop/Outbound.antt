-- ===== src/Pipeline/Loop/Outbound.antt =====
-- The outbound mail of testinghq/pipeline/loop.py: `new_records`, `attribute`, `merge_outbound`, and
-- the end of `execute`. `key` stands for `_record_key`, the JSON of a record.
use testing_hq.Prelude.{
  ℕ, ◌-◌, Bool, false, not, ◌&&◌, ◌||◌, Option, none, some, List, [], ◌∷◌, ◌++◌, map, is_empty,
  nat_beq, if◌then◌else◌,
}
use testing_hq.Prelude.Text.{Text, text_eq}
use testing_hq.Prelude.Dict.{Dict, lookup, insert}
use testing_hq.Prelude.Distinct.{mem}
use testing_hq.Core.ExitCodes.{exit_ok, exit_mismatch}
use testing_hq.Pipeline.Readback.{Readback}
use testing_hq.Pipeline.Readback.Normalize.{Words}
use testing_hq.Pipeline.Settle.{ReadbackOutcome}
use testing_hq.Pipeline.Ledger.Account.{found_for}
use testing_hq.Pipeline.Steady.{count_of, counts_from}
use testing_hq.Pipeline.Redeliver.{bare}
use testing_hq.Pipeline.Loop.{MachineMail, TicketPolicy, judge, findings_count}

module _ (key : Readback → Text) where
  -- The loop of `new_records`, with what is left of the counter.
  unfoldable pub new_from : Dict Text ℕ → List Readback → List Readback
  unfolding count_of
  new_from remaining [] = []
  new_from remaining (r ∷ rs) =
      let known_before = new_from (insert (key r) (count_of (key r) remaining - 1) remaining) rs in
      let new = new_from remaining rs in
      if nat_beq (count_of (key r) remaining) 0 then r ∷ new else known_before

  unfoldable pub new_records : List Readback → List Readback → List Readback
  unfolding new_from counts_from
  new_records after before = new_from (counts_from [] (map key before)) after

abbrev pub text_or_empty : Option Text → Text
text_or_empty none = []
text_or_empty (some t) = t

module _ (words : Words) where
  -- The first candidate that names a message.
  unfoldable pub named_by : Dict Text Text → List (Option Text) → Option Text
  unfolding bare
  named_by message_ids [] = none
  named_by message_ids (c ∷ cs) =
      let rest = named_by message_ids cs in
      elim (lookup (bare words (text_or_empty c)) message_ids) [
        | none ↦ rest
        | some tag ↦ if is_empty tag then rest else some tag
      ]

  abbrev pub own_tag : List Text → Option Text → Bool
  own_tag tags none = false
  own_tag tags (some t) = not (is_empty t) && mem t tags

  unfoldable pub attribute : List Text → Dict Text Text → Readback → Option Text
  unfolding named_by
  attribute tags message_ids r =
      if own_tag tags r.tag
      then r.tag
      else named_by message_ids (r.in_reply_to ∷ map some r.references)

-- The variables of `merge_outbound`.
pub record Merging : Type 0 where
  pub merged : Dict Text (List Readback)
  pub seen : Dict Text (List Text)
  pub unattributed : List Readback

unfoldable pub keys_seen : Dict Text (List Text) → Text → List Text
keys_seen seen tag = elim (lookup tag seen) [ none ↦ [] | some ks ↦ ks ]

-- The sink: how its lookups ended, and where it can be listed, what it listed now and before.
pub record Sink : Type 0 where
  pub outcome : ReadbackOutcome
  pub listed : Option (List Readback × List Readback)

-- unsettled or outbound_outcome.unsettled
abbrev pub loop_unsettled : ReadbackOutcome → Option Sink → Bool
loop_unsettled outcome none = not outcome.stable
loop_unsettled outcome (some sink) = not outcome.stable || not sink.outcome.stable

abbrev pub threaded_ids : MachineMail → ReadbackOutcome → List (Option Text)
threaded_ids precursor outcome =
    map (λ (r : Readback). r.ticket_id) (found_for outcome.readbacks precursor.tag)

-- {m.message_id: m.tag for m in judged}
unfoldable pub ids_of : Dict Text Text → List MachineMail → Dict Text Text
ids_of d [] = d
ids_of d (m ∷ ms) = ids_of (insert m.message_id m.tag d) ms

module _ (key : Readback → Text) (words : Words) where
  unfoldable pub merge_start : Dict Text (List Readback) → List Text → Merging → Merging
  unfolding found_for
  merge_start by_tag [] m = m
  merge_start by_tag (tag ∷ tags) m = merge_start by_tag tags (record m {
    merged = insert tag (found_for by_tag tag) m.merged;
    seen = insert tag (map key (found_for by_tag tag)) m.seen;
  })

  -- A record that is tied to a message, which is one of `tags`.
  unfoldable pub merge_tied : Text → Readback → Merging → Merging
  unfolding keys_seen found_for
  merge_tied tag r m = if mem (key r) (keys_seen m.seen tag) then m else record m {
    merged = insert tag (found_for m.merged tag ++ r ∷ []) m.merged;
    seen = insert tag (key r ∷ keys_seen m.seen tag) m.seen;
  }

  unfoldable pub merge_from : List Text → Dict Text Text → List Readback → Merging → Merging
  unfolding merge_tied attribute
  merge_from tags message_ids [] m = m
  merge_from tags message_ids (r ∷ rs) m = elim (attribute words tags message_ids r) [
    | none ↦ merge_from tags message_ids rs (record m { unattributed = m.unattributed ++ r ∷ [] })
    | some tag ↦ merge_from tags message_ids rs (merge_tied tag r m)
  ]

  unfoldable pub merge_outbound :
      Dict Text (List Readback) → List Readback → List Text → Dict Text Text → Merging
  unfolding merge_start merge_from
  merge_outbound by_tag enumerated tags message_ids =
      merge_from tags message_ids enumerated
        (merge_start by_tag tags (record { merged = []; seen = []; unattributed = [] }))

  abbrev pub tag_of : MachineMail → Text
  tag_of m = m.tag

  abbrev pub enumerated_new : Option (List Readback × List Readback) → List Readback
  enumerated_new none = []
  enumerated_new (some (after, before)) = new_records key after before

  unfoldable pub merged_of : MachineMail → List MachineMail → Sink → Merging
  unfolding merge_outbound ids_of new_records
  merged_of precursor judged sink =
      merge_outbound sink.outcome.readbacks (enumerated_new sink.listed)
        (map tag_of judged ++ precursor.tag ∷ [])
        (insert precursor.message_id precursor.tag (ids_of [] judged))

  abbrev pub outbound_of :
      MachineMail → List MachineMail → Option Sink → Option (Dict Text (List Readback))
  outbound_of precursor judged none = none
  outbound_of precursor judged (some sink) = some (merged_of precursor judged sink).merged

  abbrev pub unattributed_of : MachineMail → List MachineMail → Option Sink → List Readback
  unattributed_of precursor judged none = []
  unattributed_of precursor judged (some sink) = (merged_of precursor judged sink).unattributed

  -- The end of `execute`.
  unfoldable pub loop_code :
      MachineMail → List MachineMail → TicketPolicy → ReadbackOutcome → Option Sink → ℕ
  unfolding merged_of judge findings_count found_for
  loop_code precursor judged policy outcome sink =
      let unattributed = unattributed_of precursor judged sink in
      let results =
        judge outcome.readbacks (outbound_of precursor judged sink) policy
          (not (is_empty unattributed)) (threaded_ids precursor outcome) judged in
      if nat_beq (findings_count results unattributed (loop_unsettled outcome sink) outcome.all_404)
        0
      then exit_ok
      else exit_mismatch
