-- ===== src/Pipeline/Readback.antt =====
-- testinghq/pipeline/readback.py: what an adapter is asked and what it answers.
pub mod Fields
pub mod Normalize
use native.Mathlib.Decide.{ℕ_discrete}
use testing_hq.Prelude.{ℕ, Bool, Option, List}
use testing_hq.Prelude.Text.{Text}

pub record Probe : Type 0 where
  pub record_id : Text
  pub tag : Text
  pub payload_sha256 : Text
  pub from_addr : Text
  pub subject : Text
  pub recipient : Text
  pub message_id : Text
  pub attachment_names : List Text

pub record Readback : Type 0 where
  pub exists : Bool
  pub ticket_id : Option Text
  pub from_addr : Option Text
  pub subject : Option Text
  pub body : Option Text
  pub attachment_names : List Text
  pub route : Option Text
  pub message_id : Option Text
  pub in_reply_to : Option Text
  pub references : List Text
  pub tag : Option Text
  pub category : Option Text
  pub priority : Option Text
  pub fields : List Text
  pub field_notes : List (Text × Text)

-- The dataclass's `==`, on the tuples of readbacks that are compared.
unfoldable pub Readback-discrete : Discrete Readback
Readback-discrete = hlevel ℕ_discrete

-- `FetchResult`: a list that also says whether it is complete and how it was obtained.
pub record FetchResult : Type 0 where
  pub items : List Readback
  pub partial : Bool
  pub status : Option ℕ

-- How a lookup ends: with an answer, out of budget, or by another exception.
pub data Fetched : Type 0 where
  answered : FetchResult → Fetched
  budget_exhausted : Text → Fetched
  raised : Text → Fetched
