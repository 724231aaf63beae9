-- ===== src/Pipeline/Loop/Attributed.antt =====
-- Which mail of a run a listed record belongs to.
use testing_hq.Prelude.{
  ◌≡◌, ◌⊎◌, inl, inr, refl, ◌∙◌, Bool, true, false, not, ◌&&◌, Option, none, some, List, [], ◌∷◌,
  ◌++◌, arith, map, all, any, is_empty, is_some, if◌then◌else◌, ◌==◌, Bool-cases,
}
use testing_hq.Prelude.Text.{Text, text_eq, text_beq_iff}
use testing_hq.Prelude.Dict.{Dict, insert, lookup, lookup-insert}
use testing_hq.Prelude.Distinct.{mem}
use testing_hq.Pipeline.Readback.{Readback}
use testing_hq.Pipeline.Readback.Normalize.{Words}
use testing_hq.Pipeline.Redeliver.{bare}
use testing_hq.Pipeline.Loop.{MachineMail}
use testing_hq.Pipeline.Loop.Outbound.{named_by, attribute, ids_of, text_or_empty}
use testing_hq.Pipeline.Loop.Merged.{is_tied}

-- Whether a message of a list has that tag, and whether one has that message id.
abbrev pub has_tag : Text → List MachineMail → Bool
has_tag t ms = any (λ (m : MachineMail). m.tag == t) ms

abbrev pub has_id : Text → List MachineMail → Bool
has_id k ms = any (λ (m : MachineMail). m.message_id == k) ms

-- Every message has a tag, which is not empty.
abbrev pub all_tagged : List MachineMail → Bool
all_tagged ms = all (λ (m : MachineMail). not (is_empty m.tag)) ms

Looked : Text → Dict Text Text → List MachineMail → Type 0
Looked k d ms =
    ((has_id k ms ≡ false) × (lookup k (ids_of d ms) ≡ lookup k d))
    ⊎ ((u : Text) × (has_id k ms ≡ true)
        × (lookup k (ids_of d ms) ≡ some u)
        × (is_empty u ≡ false)
        × (has_tag u ms ≡ true))

-- An id is looked up to the tag of a message that has it.
ids_of-Looked :
    (k : Text) (d : Dict Text Text) (ms : List MachineMail) → all_tagged ms ≡ true → Looked k d ms
unfolding ids_of Looked
ids_of-Looked k d [] h = inl (refl, refl)
ids_of-Looked k d (m ∷ ms) h =
    elim (ids_of-Looked k (insert m.message_id m.tag d) ms (ground (arith, h))) [
      | inl (none_has, same) ↦ elim (Bool-cases (m.message_id == k)) [
        | inl e ↦ inr (
          m.tag,
          ground (arith, e),
          same ∙ lookup-insert m.message_id k m.tag d ∙ ground (arith, e),
          ground (arith, h),
          ground (arith, text_beq_iff m.tag m.tag),
        )
        | inr e ↦ inl (
          ground (arith, e, none_has),
          same ∙ lookup-insert m.message_id k m.tag d ∙ ground (arith, e),
        )
      ]
      | inr (u, has, found, filled, tagged) ↦
          inr (u, ground (arith, has), found, filled, ground (arith, tagged))
    ]

module _ (words : Words) (precursor : MachineMail) (judged : List MachineMail) where
  -- Whether the first candidate that is the id of a mail of the run is the precursor's.
  abbrev pub first_is_precursor : List (Option Text) → Bool
  first_is_precursor [] = false
  first_is_precursor (c ∷ cs) =
      let id = bare words (text_or_empty c) in
      if precursor.message_id == id
      then true
      else if has_id id judged
      then false
      else first_is_precursor cs

  -- Whether a record has the precursor's tag or, having that of no mail of the run, is a reply to
  -- the precursor.
  abbrev pub of_precursor : Readback → Bool
  of_precursor r =
      let replies = first_is_precursor (r.in_reply_to ∷ map some r.references) in
      elim r.tag [
        | none ↦ replies
        | some t ↦ if precursor.tag == t then true else if has_tag t judged then false else replies
      ]

  -- A tag, and not one of a judged message.
  abbrev pub not_judged : Option Text → Bool
  not_judged o = is_some o && all (λ (m : MachineMail). not (is_tied o m.tag)) judged

  -- Whether the tags of the run are not empty, and the precursor's is that of no judged message.
  abbrev pub tags_apart : Bool
  tags_apart =
      all_tagged judged && (not (is_empty precursor.tag) && not (has_tag precursor.tag judged))

  tied_some :
      (u : Text) (ms : List MachineMail)
      → all (λ (m : MachineMail). not (is_tied (some u) m.tag)) ms ≡ not (has_tag u ms)
  tied_some u [] = refl
  tied_some u (m ∷ ms) = ground (arith, text_beq_iff u m.tag, text_beq_iff m.tag u, tied_some u ms)

  module _ (apart : tags_apart ≡ true) where
    named_by_lem :
        (cs : List (Option Text))
        → not_judged
            (named_by words (insert precursor.message_id precursor.tag (ids_of [] judged)) cs)
          ≡ first_is_precursor cs
    unfolding named_by Looked lookup
    named_by_lem [] = refl
    named_by_lem (c ∷ cs) =
        let id = bare words (text_or_empty c) in
        elim (ids_of-Looked id [] judged (ground (arith, apart))) [
          | inl (none_has, same) ↦ ground (
            arith,
            apart,
            none_has,
            same,
            tied_some precursor.tag judged,
            lookup-insert precursor.message_id id precursor.tag (ids_of [] judged),
            named_by_lem cs,
          )
          | inr (u, has, found, filled, tagged) ↦ ground (
            arith,
            apart,
            has,
            found,
            filled,
            tagged,
            tied_some u judged,
            tied_some precursor.tag judged,
            lookup-insert precursor.message_id id precursor.tag (ids_of [] judged),
          )
        ]

    mem_tags :
        (t : Text) (ms : List MachineMail)
        → mem t (map (λ (m : MachineMail). m.tag) ms ++ precursor.tag ∷ [])
          ≡ (if has_tag t ms then true else precursor.tag == t)
    mem_tags t [] = ground arith
    mem_tags t (m ∷ ms) = ground (arith, mem_tags t ms)

    tag_filled :
        (t : Text) (ms : List MachineMail)
        → all_tagged ms ≡ true
        → has_tag t ms ≡ true
        → is_empty t ≡ false
    tag_filled t [] h e = cc
    tag_filled t (m ∷ ms) h e = ground (arith, text_beq_iff m.tag t, tag_filled t ms)

    by_tag :
        (r : Readback) (o : Option Text)
        → r.tag ≡ o
        → not_judged (
            attribute words
              (map (λ (m : MachineMail). m.tag) judged ++ precursor.tag ∷ [])
              (insert precursor.message_id precursor.tag (ids_of [] judged))
              r)
          ≡ of_precursor r
    unfolding attribute
    by_tag r none e = ground (arith, e, named_by_lem (r.in_reply_to ∷ map some r.references))
    by_tag r (some t) e = ground (
      arith,
      e,
      apart,
      named_by_lem (r.in_reply_to ∷ map some r.references),
      mem_tags t judged,
      tag_filled t judged,
      text_beq_iff precursor.tag t,
      tied_some t judged,
      tied_some precursor.tag judged,
    )

    -- A record is attributed to a mail of the run that is not judged exactly where it is the
    -- precursor's.
    pub attribute-of_precursor :
        (r : Readback)
        → not_judged (
            attribute words
              (map (λ (m : MachineMail). m.tag) judged ++ precursor.tag ∷ [])
              (insert precursor.message_id precursor.tag (ids_of [] judged))
              r)
          ≡ of_precursor r
    attribute-of_precursor r = by_tag r r.tag refl
