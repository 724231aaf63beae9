-- ===== src/Pipeline/Ledger/Strays.antt =====
-- Sorting the records that an enumeration of the store lists: `stray_tag` and `classify_strays` of
-- testinghq/pipeline/ledger.py.
use testing_hq.Prelude.{
  ℕ, ◌+◌, Bool, true, false, not, ◌&&◌, ◌||◌, Option, none, some, List, [], ◌∷◌, is_empty,
  if◌then◌else◌,
}
use testing_hq.Prelude.Text.{Text, text_eq, codes}
use testing_hq.Prelude.Distinct.{mem}
use testing_hq.Pipeline.Strings.{Strings}
use testing_hq.Pipeline.Readback.{Readback}
use testing_hq.Pipeline.Messages.{harvest_tag}
use testing_hq.Pipeline.Ledger.Tags.{tag_shape, Family, in_family}

-- `str(...)` of a field that may be None.
abbrev pub str : Option Text → Text
str none = codes "None"
str (some t) = t

-- The fields of an entry: its tag and its ticket.
pub record Entry : Type 0 where
  pub tag : Text
  pub ticket : Text

pub record Sorted : Type 0 where
  pub extra : List Entry
  pub other_runs : List Entry
  pub untagged : ℕ

-- `(tag, is_testinghq)`
abbrev pub StrayTag : Type 0
StrayTag = Option Text × Bool

abbrev pub or_none : Text → Option Text
or_none t = if is_empty t then none else some t

-- What a record is to the run.
pub data Stray : Type 0 where
  own : Stray
  untagged_record : Stray
  extra_record : Entry → Stray
  other_run : Entry → Stray

module _ (py : Strings) where
  open py use {strip}

  abbrev own_tag : Option Text → Text
  own_tag none = []
  own_tag (some t) = strip t

  unfoldable pub stray_tag : Readback → StrayTag
  unfolding harvest_tag tag_shape
  stray_tag rec =
      let tag = own_tag rec.tag in
      if not (is_empty tag) && tag_shape py tag
      then (some tag, true)
      else elim (harvest_tag py (rec.body ∷ rec.subject ∷ [])) [
        | some harvested ↦ (some harvested, true)
        | none ↦ (or_none tag, false)
      ]

  abbrev sent_tag : List Text → Option Text → Bool
  sent_tag sent none = false
  sent_tag sent (some t) = not (is_empty t) && mem t sent

  unfoldable pub stray_kind : List Text → List Text → Family → Readback → Stray
  unfolding stray_tag in_family
  stray_kind sent own_tickets family r =
      let (tag, is_ours) = stray_tag r in
      let ticket = str r.ticket_id in
      if sent_tag sent tag || mem ticket own_tickets then own else elim tag [
        | none ↦ untagged_record
        | some t ↦
            if not is_ours || is_empty t
            then untagged_record
            else if in_family py t family
            then extra_record (record { tag = t; ticket = ticket })
            else other_run (record { tag = t; ticket = ticket })
      ]

unfoldable pub add_stray : Stray → Sorted → Sorted
add_stray own s = s
add_stray untagged_record s = record s { untagged = s.untagged + 1 }
add_stray (extra_record e) s = record s { extra = e ∷ s.extra }
add_stray (other_run e) s = record s { other_runs = e ∷ s.other_runs }

abbrev pub nothing_sorted : Sorted
nothing_sorted = record { extra = []; other_runs = []; untagged = 0 }

unfoldable pub classify_strays : Strings → List Readback → List Text → List Text → Family → Sorted
unfolding add_stray stray_kind
classify_strays py [] sent own_tickets family = nothing_sorted
classify_strays py (r ∷ rs) sent own_tickets family =
    add_stray (stray_kind py sent own_tickets family r)
      (classify_strays py rs sent own_tickets family)
