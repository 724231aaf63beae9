-- ===== src/Barrage/Report/Buckets.antt =====
-- `bucketize` of testinghq/barrage/report.py. A rate times a tick is so many parts of a request, and
-- the target of a bucket is what is expected in it, over its width.
use Prim.Native.Nat.{min, max}
use testing_hq.Prelude.{
  ℕ, zero, suc, ◌+◌, ◌-◌, ◌*◌, ◌/◌, Bool, true, not, Option, none, some, List, [], ◌∷◌, ◌++◌, map,
  length, keep_if, count_if, leb, is_empty, nat_beq, nat_eq, if◌then◌else◌,
}
use testing_hq.Prelude.Dict.{Dict, lookup, insert, keys}
use testing_hq.Barrage.Report.{
  Sample, is_dropped, sent, is_error, is_shed, Classes, status_classes, Percentiles,
  latency_percentiles,
}

pub record Stage : Type 0 where
  pub rate : ℕ
  pub duration : ℕ

pub record Bucket : Type 0 where
  pub start : ℕ
  pub expected : ℕ
  pub count : ℕ
  pub errors : ℕ
  pub shed : ℕ
  pub dropped_backlog : ℕ
  pub hold : Bool
  pub classes : Classes
  pub service : Percentiles
  pub offered : Percentiles
  pub span : ℕ

-- `_planned_rate_integral`, of the stages from `at` on.
unfoldable pub planned_from : ℕ → ℕ → ℕ → List Stage → ℕ
planned_from at start end [] = 0
planned_from at start end (s ∷ stages) =
    s.rate * (min end (at + s.duration) - max start at)
    + planned_from (at + s.duration) start end stages

abbrev pub planned_rate_integral : List Stage → ℕ → ℕ → ℕ
planned_rate_integral stages start end = planned_from 0 start end stages

abbrev pub planned_duration : List Stage → ℕ
planned_duration [] = 0
planned_duration (s ∷ stages) = s.duration + planned_duration stages

abbrev pub least : ℕ → List ℕ → ℕ
least m [] = m
least m (n ∷ ns) = least (min m n) ns

abbrev pub greatest : List ℕ → ℕ
greatest [] = 0
greatest (n ∷ ns) = max n (greatest ns)

-- int((t - origin) // bucket_seconds), from 0 on
unfoldable pub bucket_of : ℕ → ℕ → ℕ → ℕ
bucket_of origin width t = (t - origin) / width

-- The time of a sample that was sent.
abbrev pub sent_at : Sample → ℕ
sent_at s = elim s.dispatched_at [ none ↦ 0 | some t ↦ t ]

abbrev pub or_empty : Option (List Sample) → List Sample
or_empty none = []
or_empty (some samples) = samples

abbrev pub or_zero : Option ℕ → ℕ
or_zero none = 0
or_zero (some n) = n

-- by_key.setdefault(key, []).append(s)
unfoldable pub group : ℕ → ℕ → Dict ℕ (List Sample) → List Sample → Dict ℕ (List Sample)
unfolding lookup insert bucket_of
group origin width d [] = d
group origin width d (s ∷ rest) =
    let k = bucket_of origin width (sent_at s) in
    group origin width (insert k (or_empty (lookup k d) ++ s ∷ []) d) rest

-- dropped_by_key[k] = dropped_by_key.get(k, 0) + 1
unfoldable pub count_dropped : ℕ → ℕ → Dict ℕ ℕ → List Sample → Dict ℕ ℕ
unfolding lookup insert bucket_of
count_dropped origin width d [] = d
count_dropped origin width d (s ∷ rest) =
    let k = bucket_of origin width s.scheduled_at in
    count_dropped origin width (insert k (suc (or_zero (lookup k d))) d) rest

abbrev pub target_rates : List Sample → List ℕ
target_rates samples = map (λ s. s.target_rate) samples

-- What the loop over the keys reads.
pub record Series : Type 0 where
  pub origin : ℕ
  pub width : ℕ
  pub stages : List Stage
  pub hold_start : Option ℕ
  pub by_key : Dict ℕ (List Sample)
  pub dropped_by_key : Dict ℕ ℕ

abbrev members_at : Series → ℕ → List Sample
members_at b k = or_empty (lookup k b.by_key)

-- What the bucket before it expected is `last`.
unfoldable pub expected_in : Series → ℕ → ℕ → ℕ
unfolding planned_from lookup
expected_in b last k =
    let start = b.origin + k * b.width in
    if not (is_empty b.stages)
    then planned_rate_integral b.stages start (start + b.width)
    else if not (is_empty (members_at b k))
    then greatest (target_rates (members_at b k)) * b.width
    else last

unfoldable pub make_bucket : Series → ℕ → ℕ → Bucket
unfolding expected_in lookup is_error is_shed latency_percentiles
make_bucket b last k =
    let start = b.origin + k * b.width in
    let members = members_at b k in
    record {
      start = start;
      expected = expected_in b last k;
      count = length members;
      errors = count_if is_error members;
      shed = count_if is_shed members;
      dropped_backlog = or_zero (lookup k b.dropped_by_key);
      hold = (elim b.hold_start [ none ↦ true | some t ↦ leb t start ]);
      classes = status_classes members;
      service = latency_percentiles (λ s. s.service) members;
      offered = latency_percentiles (λ s. s.offered) members;
      span =
          (if is_empty b.stages
            then b.width
            else min (start + b.width) (planned_duration b.stages) - start);
    }

-- The `n` buckets from `k` on.
unfoldable pub buckets_from : Series → ℕ → ℕ → ℕ → List Bucket
unfolding make_bucket
buckets_from b last k zero = []
buckets_from b last k (suc n) =
    let bucket = make_bucket b last k in bucket ∷ buckets_from b bucket.expected (suc k) n

-- max(keys) + 1, and 0 of none
abbrev pub past_keys : List ℕ → ℕ
past_keys [] = 0
past_keys (k ∷ ks) = suc (greatest (k ∷ ks))

-- ceil(planned / width), of a width above 0
abbrev pub planned_buckets : ℕ → List Stage → ℕ
planned_buckets width stages = (planned_duration stages + (width - 1)) / width

abbrev pub is_dropped_sample : Sample → Bool
is_dropped_sample s = is_dropped s.outcome

-- With the origin that was given, or the first of the anchors.
unfoldable pub series_at : List Sample → ℕ → ℕ → List Stage → Option ℕ → Series
unfolding sent group count_dropped
series_at samples width origin stages hold_start = record {
  origin = origin;
  width = width;
  stages = stages;
  hold_start = hold_start;
  by_key = group origin width [] (keep_if sent samples);
  dropped_by_key = count_dropped origin width [] (keep_if is_dropped_sample samples);
}

unfoldable pub bucket_count : Series → ℕ
bucket_count b =
    let n = past_keys (keys b.by_key ++ keys b.dropped_by_key) in
    if is_empty b.stages then n else max n (planned_buckets b.width b.stages)

-- `bucketize` with an origin.
unfoldable pub bucketize_from : List Sample → ℕ → ℕ → List Stage → Option ℕ → List Bucket
unfolding series_at bucket_count buckets_from
bucketize_from samples width origin stages hold_start =
    let b = series_at samples width origin stages hold_start in buckets_from b 0 0 (bucket_count b)

unfoldable pub anchors : List Sample → List ℕ
unfolding sent
anchors samples =
    let out = keep_if sent samples in
    if is_empty out then map (λ s. s.scheduled_at) samples else map sent_at out

-- The ValueError of a width of 0, or the buckets.
pub data Bucketized : Type 0 where
  bad_width : Bucketized
  buckets : List Bucket → Bucketized

abbrev from_anchors : List Sample → ℕ → List Stage → Option ℕ → List ℕ → List Bucket
from_anchors samples width stages hold_start [] = []
from_anchors samples width stages hold_start (t ∷ ts) =
    bucketize_from samples width (least t ts) stages hold_start

unfoldable pub bucketize : List Sample → ℕ → Option ℕ → List Stage → Option ℕ → Bucketized
unfolding bucketize_from anchors
bucketize samples width origin stages hold_start =
    if nat_beq width 0
    then bad_width
    else buckets (elim origin [
      | none ↦ from_anchors samples width stages hold_start (anchors samples)
      | some t ↦ bucketize_from samples width t stages hold_start
    ])
