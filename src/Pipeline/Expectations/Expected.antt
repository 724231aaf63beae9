-- ===== src/Pipeline/Expectations/Expected.antt =====
-- `Expectations` and the match modes of testinghq/pipeline/expectations.py.
use testing_hq.Prelude.{Bool, not, ◌&&◌, Option, none, some, List, is_empty, if◌then◌else◌, ◌==◌}
use testing_hq.Prelude.Text.{Text, text_eq, codes}

pub data SubjectMatch : Type 0 where
  exact_subject contains_subject suffix_subject : SubjectMatch

pub data AttachmentMatch : Type 0 where
  exact_names loose_names : AttachmentMatch

-- `validate_match_modes`, which gives the modes; None stands for the ExpectationError.
unfoldable pub subject_mode : Text → Option SubjectMatch
subject_mode t =
    if t == codes "exact"
    then some exact_subject
    else if t == codes "contains"
    then some contains_subject
    else if t == codes "suffix"
    then some suffix_subject
    else none

unfoldable pub attachment_mode : Text → Option AttachmentMatch
attachment_mode t =
    if t == codes "exact"
    then some exact_names
    else if t == codes "loose"
    then some loose_names
    else none

-- What is read of a payload: its ground truth, its text and its attachments' file names.
pub record InboundEmail : Type 0 where
  pub from_addr : Text
  pub subject : Text
  pub body_core : Text
  pub text : Text
  pub filenames : List Text

pub record Expectations : Type 0 where
  pub sender : Text
  pub subject : Text
  pub body_core : Text
  pub body_full : Text
  pub attachment_names : List Text
  pub route : Option Text
  pub body_exact : Bool
  pub subject_match : SubjectMatch
  pub attachment_match : AttachmentMatch

-- The match settings of a run.
pub record MatchOptions : Type 0 where
  pub route : Option Text
  pub body_exact : Bool
  pub subject_match : SubjectMatch
  pub attachment_match : AttachmentMatch

unfoldable pub from_email : InboundEmail → MatchOptions → Expectations
from_email email options = record {
  sender = email.from_addr;
  subject = email.subject;
  body_core = email.body_core;
  body_full = email.text;
  attachment_names = email.filenames;
  route = options.route;
  body_exact = options.body_exact;
  subject_match = options.subject_match;
  attachment_match = options.attachment_match;
}

unfoldable pub expected_body : Expectations → Text
expected_body e = if e.body_exact && not (is_empty e.body_full) then e.body_full else e.body_core
