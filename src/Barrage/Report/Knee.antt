-- ===== src/Barrage/Report/Knee.antt =====
-- The knee of testinghq/barrage/report.py. The thresholds are whole hundredths, and a comparison of
-- quotients is written as one of products.
use testing_hq.Prelude.{
  ℕ, suc, ◌+◌, ◌-◌, ◌*◌, Bool, false, not, ◌&&◌, Option, none, some, List, [], ◌∷◌, length, take,
  keep_if, all, any, leb, ltb, nat_beq, is_some, if◌then◌else◌,
}
use testing_hq.Barrage.Report.{no_data, value}
use testing_hq.Barrage.Report.Buckets.{Bucket}

-- What find_knee takes, and how many parts a request has.
pub record Knobs : Type 0 where
  pub error_percent : ℕ
  pub latency_factor : ℕ
  pub divergence : ℕ
  pub persistence : ℕ
  pub concurrency : Option ℕ
  pub parts : ℕ

pub data Reason : Type 0 where
  shedding falling_behind slowing : Reason

-- Bucket.p50_latency_ms
abbrev pub p50_of : Bucket → Option ℕ
p50_of b = elim b.service.p50 [ no_data ↦ none | value n ↦ some n ]

-- The hold buckets that have a median, with their places.
unfoldable pub with_median : ℕ → List Bucket → List (ℕ × ℕ)
with_median k [] = []
with_median k (b ∷ rest) =
    let found = with_median (suc k) rest in
    if b.hold then elim (p50_of b) [ none ↦ found | some p ↦ (k, p) ∷ found ] else found

-- The first two of them; their average is the baseline.
abbrev pub baseline : List Bucket → List (ℕ × ℕ)
baseline buckets = take 2 (with_median 0 buckets)

abbrev pub sum_of : List (ℕ × ℕ) → ℕ
sum_of [] = 0
sum_of ((k, p) ∷ rest) = p + sum_of rest

abbrev pub at_place : ℕ → ℕ × ℕ → Bool
at_place k chosen = nat_beq chosen.0 k

unfoldable pub falls_short : Knobs → Bucket → Bool
falls_short o b =
    leb (2 * o.parts) b.expected
    && ltb (b.count * (o.parts * 100)) (b.expected * (100 - o.divergence))

-- `client_ceiling_rps`, as workers and the median that it is over.
unfoldable pub client_ceiling : Bucket → Option ℕ → Option (ℕ × ℕ)
client_ceiling b none = none
client_ceiling b (some workers) = if nat_beq workers 0 then none else elim (p50_of b) [
  | none ↦ none
  | some p ↦ (if nat_beq p 0 then none else some (workers, p))
]

unfoldable pub client_limited : Knobs → Bucket → Bool
unfolding client_ceiling
client_limited o b = elim (client_ceiling b o.concurrency) [
  | none ↦ false
  | some (workers, p) ↦
      if nat_beq b.span 0
      then false
      else if leb (b.expected * p) (workers * (b.span * o.parts))
      then false
      else leb (workers * (b.span * (100 - o.divergence))) (b.count * (p * 100))
]

unfoldable pub is_slow : Knobs → ℕ → List (ℕ × ℕ) → Bucket → Bool
is_slow o k chosen b =
    ltb 0 (sum_of chosen)
    && (not (any (at_place k) chosen) && elim (p50_of b) [
      | none ↦ false
      | some p ↦ ltb (sum_of chosen * o.latency_factor) (p * length chosen)
    ])

-- `_judge`, of the bucket at place `k`.
unfoldable pub judge : Knobs → List (ℕ × ℕ) → ℕ → Bucket → Option Reason
unfolding falls_short client_limited is_slow
judge o chosen k b =
    if not (nat_beq b.count 0) && leb (o.error_percent * b.count) (b.errors * 100)
    then some shedding
    else if falls_short o b && not (client_limited o b)
    then some falling_behind
    else if is_slow o k chosen b
    then some slowing
    else none

unfoldable pub judge_from : Knobs → List (ℕ × ℕ) → ℕ → List Bucket → List (Option Reason)
unfolding judge
judge_from o chosen k [] = []
judge_from o chosen k (b ∷ rest) = judge o chosen k b ∷ judge_from o chosen (suc k) rest

abbrev pub verdicts : Knobs → List Bucket → List (Option Reason)
verdicts o buckets = judge_from o (baseline buckets) 0 buckets

-- None, the IndexError of an empty window, or the place of the bucket and the reason.
pub data Knee : Type 0 where
  held index_error : Knee
  knee : ℕ → Reason → Knee

abbrev pub is_bad : Option Reason → Bool
is_bad v = is_some v

-- `window[0]`
abbrev pub knee_at : ℕ → List (Option Reason) → Knee
knee_at k [] = index_error
knee_at k (none ∷ rest) = held
knee_at k (some reason ∷ rest) = knee k reason

-- The loop over the windows, from place `k` on.
unfoldable pub first_window : ℕ → ℕ → List (Option Reason) → Knee
first_window persistence k [] = if nat_beq persistence 0 then index_error else held
first_window persistence k (v ∷ rest) =
    let later = first_window persistence (suc k) rest in
    let window = take persistence (v ∷ rest) in
    if ltb (length (v ∷ rest)) persistence
    then held
    else if all is_bad window
    then knee_at k window
    else later

unfoldable pub find_knee : Knobs → List Bucket → Knee
unfolding first_window judge_from with_median
find_knee o buckets = first_window o.persistence 0 (verdicts o buckets)

-- The buckets that `concurrency_limit` counts.
unfoldable pub limited_buckets : Knobs → List Bucket → List Bucket
unfolding falls_short client_limited
limited_buckets o buckets = keep_if (λ b. falls_short o b && client_limited o b) buckets
