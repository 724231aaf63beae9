-- ===== src/Pipeline/Redeliver.antt =====
-- testinghq/pipeline/redeliver.py: scenarios of deliveries, and what a scenario's messages became.
-- The sentences of a finding and the JSON of a report are left out: a finding is the check that
-- failed and the tag or the ticket it is about.
pub mod Judge
pub mod Run
mod Ancestry
mod Clean
mod Passing
mod StrayFindings
mod Safe
mod Examples
use testing_hq.Prelude.{
  ℕ, zero, suc, Bool, true, false, not, ◌&&◌, ◌||◌, Option, none, some, List, [], ◌∷◌, ◌++◌, length,
  is_some, if◌then◌else◌, ◌==◌,
}
use testing_hq.Prelude.Text.{Text, text_eq}
use testing_hq.Prelude.Distinct.{mem}
use testing_hq.Pipeline.Readback.Normalize.{Words}
use testing_hq.Pipeline.Expectations.Expected.{InboundEmail}

pub record Delivery : Type 0 where
  pub email : InboundEmail
  pub tag : Text
  pub record_id : Text
  pub message_id : Text
  pub in_reply_to_tag : Option Text

abbrev pub is_reply : Delivery → Bool
is_reply d = is_some d.in_reply_to_tag

pub record Scenario : Type 0 where
  pub name : Text
  pub deliveries : List Delivery

-- The tags behind those that were seen.
unfoldable pub tags_from : List Text → List Delivery → List Text
tags_from seen [] = []
tags_from seen (d ∷ ds) =
    let rest = tags_from (d.tag ∷ seen) ds in
    if mem d.tag seen then tags_from seen ds else d.tag ∷ rest

-- Scenario.tags
unfoldable pub tags : Scenario → List Text
unfolding tags_from
tags s = tags_from [] s.deliveries

unfoldable pub first_with_tag : Text → List Delivery → Option Delivery
first_with_tag tag [] = none
first_with_tag tag (d ∷ ds) = if d.tag == tag then some d else first_with_tag tag ds

unfoldable pub delivery_for : Scenario → Text → Option Delivery
unfolding first_with_tag
delivery_for s tag = first_with_tag tag s.deliveries

-- `in_reply_to_tag or ""`, of a reply
abbrev pub parent_named : Scenario → Option Text → Option Delivery
parent_named s none = none
parent_named s (some tag) = delivery_for s tag

unfoldable pub parent_of : Scenario → Text → Option Delivery
unfolding delivery_for
parent_of s tag = elim (delivery_for s tag) [
  | none ↦ none
  | some d ↦ parent_named s d.in_reply_to_tag
]

-- `_bare`
unfoldable pub bare : Words → Text → Text
bare words id = words.strip (words.strip_angles (words.strip id))

-- The loop of `ancestry_of`, on fuel: the ids of the ancestors that were not seen, the nearest last.
unfoldable pub ancestors : Words → Scenario → ℕ → List Text → Option Delivery → List Text
unfolding bare parent_of
ancestors words s fuel seen none = []
ancestors words s zero seen (some p) = []
ancestors words s (suc fuel) seen (some p) =
    let rest = ancestors words s fuel (p.tag ∷ seen) (parent_of s p.tag) in
    if mem p.tag seen then [] else rest ++ bare words p.message_id ∷ []

unfoldable pub ancestry_of : Words → Scenario → Text → List Text
unfolding ancestors parent_of
ancestry_of words s tag = ancestors words s (length s.deliveries) (tag ∷ []) (parent_of s tag)
