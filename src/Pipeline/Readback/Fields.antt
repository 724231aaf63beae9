-- ===== src/Pipeline/Readback/Fields.antt =====
-- The fields of a readback: `READBACK_FIELDS`, `has`, `note_for` and the checks of
-- `__post_init__` of the dataclass `Readback` in testinghq/pipeline/readback.py.
use testing_hq.Prelude.{
  Bool, true, not, ◌&&◌, Option, none, some, List, [], ◌∷◌, all, is_empty, is_some, if◌then◌else◌,
  ◌==◌,
}
use testing_hq.Prelude.Text.{Text, text_eq, codes}
use testing_hq.Prelude.Distinct.{mem}
use testing_hq.Pipeline.Readback.{Readback}

-- The names that the checks ask for.
pub data FieldName : Type 0 where
  from_addr subject body attachment_names route in_reply_to references : FieldName

abbrev pub field_text : FieldName → Text
field_text from_addr = codes "from_addr"
field_text subject = codes "subject"
field_text body = codes "body"
field_text attachment_names = codes "attachment_names"
field_text route = codes "route"
field_text in_reply_to = codes "in_reply_to"
field_text references = codes "references"

abbrev pub readback_fields : List Text
readback_fields =
    codes "ticket_id"
    ∷ codes "from_addr"
    ∷ codes "subject"
    ∷ codes "body"
    ∷ codes "attachment_names"
    ∷ codes "route"
    ∷ codes "message_id"
    ∷ codes "in_reply_to"
    ∷ codes "references"
    ∷ codes "tag"
    ∷ codes "category"
    ∷ codes "priority"
    ∷ []

-- `getattr(self, name) is not None`, for the fields that may be None, and True for the two tuples.
abbrev pub carries_value : FieldName → Readback → Bool
carries_value from_addr r = is_some r.from_addr
carries_value subject r = is_some r.subject
carries_value body r = is_some r.body
carries_value attachment_names r = true
carries_value route r = is_some r.route
carries_value in_reply_to r = is_some r.in_reply_to
carries_value references r = true

unfoldable pub has : Readback → FieldName → Bool
has r name = if is_empty r.fields then carries_value name r else mem (field_text name) r.fields

-- Why a field could not be read.
unfoldable pub note_for : Text → List (Text × Text) → Option Text
note_for name [] = none
note_for name ((field_name, detail) ∷ notes) =
    let rest = note_for name notes in if field_name == name then some detail else rest

-- What building a readback raises.
pub data ReadbackError : Type 0 where
  unknown_fields no_ticket : ReadbackError

abbrev known : Text → Bool
known name = mem name readback_fields

abbrev note_known : Text × Text → Bool
note_known n = known n.0

abbrev no_text : Option Text → Bool
no_text none = true
no_text (some t) = is_empty t

unfoldable pub post_init : Readback → Option ReadbackError
post_init r =
    if not (all known r.fields && all note_known r.field_notes)
    then some unknown_fields
    else if r.exists && no_text r.ticket_id
    then some no_ticket
    else none
