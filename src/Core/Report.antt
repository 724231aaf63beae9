-- ===== src/Core/Report.antt =====
-- testinghq/core/report.py: the grading of one record, the flag lines and the run summary.
-- A record is a Python dict read with `.get`: a key that is absent or None is `none`. Statuses
-- are the non-negative numbers an HTTP client returns. `lower` stands for `str.lower`.
pub mod Kinds
pub mod Flags
pub mod Summary
pub mod Grading
mod Examples
use testing_hq.Prelude.{
  ℕ, ◌/◌, Bool, true, false, not, ◌&&◌, ◌||◌, Option, none, some, leb, ltb, nat_beq, ◌≡◌, ◌↔◌,
  arith, if◌then◌else◌,
}
use testing_hq.Prelude.Text.{Text}
pub use Kinds.{StatusClass}
use testing_hq.Core.Report.Kinds.{
  Category, clean, degenerate, is_clean, is_degenerate, one_xx, two_xx, three_xx, four_xx, five_xx,
  other_status, no_response,
}

pub record Response : Type 0 where
  pub status : Option ℕ
  pub error_kind : Option Text
  pub error : Option Text
  pub body_failure : Bool

pub record Record : Type 0 where
  pub id : Option Text
  pub category : Category
  pub response : Option Response
  pub assertion_passed : Option Bool

abbrev empty_response : Response
empty_response = record { status = none; error_kind = none; error = none; body_failure = false }

-- record.get("response") or {}
abbrev pub response_of : Record → Response
response_of r = elim r.response [ none ↦ empty_response | some x ↦ x ]

abbrev pub status_of : Record → Option ℕ
status_of r = (response_of r).status

pub data Outcome : Type 0 where
  clean_failed degenerate_failed server_error no_response_outcome : Outcome
  body_failed assertion_failed ok : Outcome

-- f"{status // 100}xx" for a status of 100 to 599
hundreds : ℕ → StatusClass
hundreds h =
    if leb h 1
    then one_xx
    else if leb h 2
    then two_xx
    else if leb h 3
    then three_xx
    else if leb h 4
    then four_xx
    else five_xx

pub status_class : Option ℕ → StatusClass
unfolding hundreds
status_class none = no_response
status_class (some s) = if leb 100 s && ltb s 600 then hundreds (s / 100) else other_status

pub is_2xx : Option ℕ → Bool
is_2xx none = false
is_2xx (some s) = leb 200 s && ltb s 300

pub is_5xx : Option ℕ → Bool
is_5xx none = false
is_5xx (some s) = leb 500 s && ltb s 600

abbrev pub is_none {ℓ} : {A : Type ℓ} → Option A → Bool
is_none none = true
is_none (some a) = false

-- `assertion.get("passed") is False`
abbrev is_false : Option Bool → Bool
is_false (some false) = true
is_false _ = false

unfoldable pub classify_record : Record → Outcome
unfolding is_2xx is_5xx is_clean is_degenerate
classify_record r =
    let status = status_of r in
    if is_clean r.category && not (is_2xx status)
    then clean_failed
    else if is_none status || is_5xx status
    then (if is_degenerate r.category
        then degenerate_failed
        else if is_none status
        then no_response_outcome
        else server_error)
    else if is_2xx status && (response_of r).body_failure
    then body_failed
    else if is_false r.assertion_passed
    then assertion_failed
    else ok

-- outcome in FLAGGED_OUTCOMES
abbrev pub is_flagged : Outcome → Bool
is_flagged assertion_failed = false
is_flagged ok = false
is_flagged _ = true

abbrev outcome_rank : Outcome → ℕ
outcome_rank clean_failed = 0
outcome_rank degenerate_failed = 1
outcome_rank server_error = 2
outcome_rank no_response_outcome = 3
outcome_rank body_failed = 4
outcome_rank assertion_failed = 5
outcome_rank ok = 6

unfoldable pub outcome_beq : Outcome → Outcome → Bool
outcome_beq a b = nat_beq (outcome_rank a) (outcome_rank b)

pub outcome_beq_iff : (a b : Outcome) → (outcome_beq a b ≡ true) ↔ (a ≡ b)
unfolding outcome_beq
outcome_beq_iff a b = ground arith
