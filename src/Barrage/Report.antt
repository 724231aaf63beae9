-- ===== src/Barrage/Report.antt =====
-- The measurements of testinghq/barrage/report.py: samples, status classes, counts, percentiles. Times
-- and latencies are whole ticks.
mod Buckets
mod Knee
mod Samples
mod Rank
mod Counted
mod Landed
mod Planned
mod Found
mod Examples
use Prim.Native.Nat.{min, max}
use testing_hq.Prelude.{
  ℕ, zero, suc, ◌+◌, ◌-◌, ◌*◌, ◌/◌, Bool, true, false, not, ◌&&◌, ◌||◌, Option, none, some, List,
  [], ◌∷◌, length, keep_if, count_if, leb, ltb, nat_beq, is_some, is_empty, if◌then◌else◌,
}
use testing_hq.Prelude.Sort.{sort_by}
use testing_hq.Barrage.Run.{Outcome, completed, abandoned, dropped_backlog, not_dispatched, place}

pub record Sample : Type 0 where
  pub index : ℕ
  pub scheduled_at : ℕ
  pub dispatched_at : Option ℕ
  pub status : Option ℕ
  pub service : Option ℕ
  pub offered : Option ℕ
  pub target_rate : ℕ
  pub outcome : Outcome
  pub in_hold : Bool

abbrev pub is_completed : Outcome → Bool
is_completed completed = true
is_completed _ = false

abbrev pub is_abandoned : Outcome → Bool
is_abandoned abandoned = true
is_abandoned _ = false

abbrev pub is_dropped : Outcome → Bool
is_dropped dropped_backlog = true
is_dropped _ = false

abbrev pub is_not_dispatched : Outcome → Bool
is_not_dispatched not_dispatched = true
is_not_dispatched _ = false

unfoldable pub sent : Sample → Bool
sent s = is_some s.dispatched_at && (is_completed s.outcome || is_abandoned s.outcome)

unfoldable pub responded : Sample → Bool
responded s = is_completed s.outcome && is_some s.status

-- A test of the status, which is there where it is read.
abbrev pub has_status : (ℕ → Bool) → Sample → Bool
has_status p s = elim s.status [ none ↦ false | some n ↦ p n ]

unfoldable pub is_shed : Sample → Bool
unfolding responded
is_shed s = responded s && has_status (λ n. nat_beq n 429) s

abbrev pub is_bad_status : ℕ → Bool
is_bad_status n = leb 500 n || nat_beq n 429

unfoldable pub is_error : Sample → Bool
unfolding sent responded
is_error s =
    if not (sent s) then false else if not (responded s) then true else has_status is_bad_status s

-- STATUS_CLASSES
pub data StatusClass : Type 0 where
  c1xx c2xx c3xx c4xx c5xx no_response : StatusClass

-- f"{min(max(status // 100, 1), 5)}xx"
unfoldable pub class_of : ℕ → StatusClass
class_of n =
    let hundreds = min (max (n / 100) 1) 5 in
    if nat_beq hundreds 1
    then c1xx
    else if nat_beq hundreds 2
    then c2xx
    else if nat_beq hundreds 3
    then c3xx
    else if nat_beq hundreds 4
    then c4xx
    else c5xx

unfoldable pub status_class : Sample → StatusClass
unfolding responded class_of
status_class s =
    if not (responded s)
    then no_response
    else elim s.status [ none ↦ no_response | some n ↦ class_of n ]

pub record Classes : Type 0 where
  pub n1xx : ℕ
  pub n2xx : ℕ
  pub n3xx : ℕ
  pub n4xx : ℕ
  pub n5xx : ℕ
  pub unanswered : ℕ

abbrev pub no_classes : Classes
no_classes = record { n1xx = 0; n2xx = 0; n3xx = 0; n4xx = 0; n5xx = 0; unanswered = 0 }

unfoldable pub add_class : StatusClass → Classes → Classes
add_class c1xx c = record c { n1xx = suc c.n1xx }
add_class c2xx c = record c { n2xx = suc c.n2xx }
add_class c3xx c = record c { n3xx = suc c.n3xx }
add_class c4xx c = record c { n4xx = suc c.n4xx }
add_class c5xx c = record c { n5xx = suc c.n5xx }
add_class no_response c = record c { unanswered = suc c.unanswered }

unfoldable pub classes_from : Classes → List Sample → Classes
unfolding add_class status_class sent
classes_from c [] = c
classes_from c (s ∷ rest) = classes_from (if sent s then add_class (status_class s) c else c) rest

abbrev pub status_classes : List Sample → Classes
status_classes samples = classes_from no_classes samples

pub record RequestCounts : Type 0 where
  pub scheduled : ℕ
  pub sent_count : ℕ
  pub completed_count : ℕ
  pub abandoned_count : ℕ
  pub dropped_count : ℕ
  pub not_dispatched_count : ℕ

abbrev pub with_outcome : (Outcome → Bool) → Sample → Bool
with_outcome p s = p s.outcome

unfoldable pub request_counts : List Sample → RequestCounts
unfolding sent
request_counts samples = record {
  scheduled = length samples;
  sent_count = count_if sent samples;
  completed_count = count_if (with_outcome is_completed) samples;
  abandoned_count = count_if (with_outcome is_abandoned) samples;
  dropped_count = count_if (with_outcome is_dropped) samples;
  not_dispatched_count = count_if (with_outcome is_not_dispatched) samples;
}

-- None, or the value.
pub data Percentile : Type 0 where
  no_data : Percentile
  value : ℕ → Percentile

abbrev pub from_place : Option ℕ → Percentile
from_place none = no_data
from_place (some v) = value v

-- The fractions that barrage asks for: 0.50, 0.90 and 0.99.
pub data Fraction : Type 0 where
  half nine_tenths all_but_one_percent : Fraction

abbrev pub hundredths : Fraction → ℕ
hundredths half = 50
hundredths nine_tenths = 90
hundredths all_but_one_percent = 99

-- max(1, ceil(n * fraction)). At these three fractions, and for up to a million values at least,
-- the ceiling of the product of floats is that of the exact product; at others, such as 0.07, it
-- is not.
unfoldable pub rank : ℕ → Fraction → ℕ
rank n f = let r = (n * hundredths f + 99) / 100 in if nat_beq r 0 then 1 else r

-- At one of the three fractions, which are in (0, 1].
unfoldable pub percentile : List ℕ → Fraction → Percentile
unfolding rank place
percentile values f =
    if is_empty values
    then no_data
    else from_place (place (rank (length values) f - 1) (sort_by leb values))

-- The latencies of the requests that got a response.
unfoldable pub latencies : (Sample → Option ℕ) → List Sample → List ℕ
unfolding responded
latencies kind [] = []
latencies kind (s ∷ rest) =
    let values = latencies kind rest in
    if responded s then elim (kind s) [ none ↦ values | some v ↦ v ∷ values ] else values

pub record Percentiles : Type 0 where
  pub p50 : Percentile
  pub p90 : Percentile
  pub p99 : Percentile

unfoldable pub latency_percentiles : (Sample → Option ℕ) → List Sample → Percentiles
unfolding latencies percentile
latency_percentiles kind samples =
    let values = latencies kind samples in
    record {
      p50 = percentile values half;
      p90 = percentile values nine_tenths;
      p99 = percentile values all_but_one_percent;
    }

-- The errors among the sent requests, and the sent requests.
unfoldable pub error_rate : List Sample → ℕ × ℕ
unfolding sent is_error
error_rate samples = let out = keep_if sent samples in (count_if is_error out, length out)
