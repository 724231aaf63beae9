-- ===== src/Barrage/Report/Examples.antt =====
-- A run of five requests over two seconds, in buckets of a second.
use testing_hq.Prelude.{
  ℕ, ◌*◌, ◌≤◌, ◌<◌, ◌≡◌, refl, true, none, some, List, [], ◌∷◌, arith, length, keep_if, count_if,
}
use testing_hq.Barrage.Run.{
  completed, abandoned, Live, Limits, make_slot, dispatch, finalise, add_slot, send_begin, send_end,
  update_at, place,
}
use testing_hq.Barrage.Run.Steps.{Later, adds, begins, ends, here, next, begun}
use testing_hq.Barrage.Report.{
  Sample, nine_tenths, value, percentile, sent, is_error, request_counts,
}
use testing_hq.Barrage.Report.Samples.{
  Response, samples_from_records, Accounted, request_counts-Accounted,
}
use testing_hq.Barrage.Report.Rank.{at_most, below, nearest_rank}
use testing_hq.Barrage.Report.Buckets.{Stage, Bucket, bucketize_from}
use testing_hq.Barrage.Report.Knee.{Knobs, verdicts, find_knee}
use testing_hq.Barrage.Report.Landed.{buckets_add_up}
use testing_hq.Barrage.Report.Planned.{sum_by, planned_requests, expected_adds_up}
use testing_hq.Barrage.Report.Found.{Explains, find_knee-Explains}

abbrev limits : Limits
limits = record { deadline = 20; max_queue = 5 }

abbrev ok : Response
ok = record { status = some 200; latency = none }

abbrev one_back : Live Response
one_back =
    send_end 7 ok 0 (
      send_begin limits true 1 0
        (add_slot (make_slot 1 1 4 0) (add_slot (make_slot 0 1 0 0) begun)))

to_one_back : Later limits begun one_back
unfolding add_slot make_slot send_begin dispatch update_at place
to_one_back =
    next
      (next (next (next here (adds 0 1 0 0)) (adds 1 1 4 0))
        (begins true 1 0 (make_slot 0 1 0 0) refl refl))
      (ends 7 0 ok (dispatch limits true 1 (make_slot 0 1 0 0)) refl refl)

request_counts-Accounted_example :
    Accounted (request_counts (samples_from_records 0 0 (finalise one_back).0))
request_counts-Accounted_example = request_counts-Accounted 0 0 to_one_back

abbrev latencies_seen : List ℕ
latencies_seen = 30 ∷ 10 ∷ 20 ∷ 20 ∷ []

nearest_rank_example :
    (v : ℕ) × (percentile latencies_seen nine_tenths ≡ value v)
    × (length latencies_seen * 90 ≤ 100 * count_if (at_most v) latencies_seen)
    × (100 * count_if (below v) latencies_seen < length latencies_seen * 90)
nearest_rank_example = nearest_rank latencies_seen nine_tenths refl

abbrev answered : ℕ → ℕ → ℕ → Sample
answered index at status = record {
  index = index;
  scheduled_at = at;
  dispatched_at = some at;
  status = some status;
  service = some 40;
  offered = some 40;
  target_rate = 2;
  outcome = completed;
  in_hold = true;
}

abbrev seen : List Sample
seen =
    answered 0 0 200
    ∷ answered 1 500 429
    ∷ answered 2 1000 503
    ∷ answered 3 1500 200
    ∷ record (answered 4 1700 200) { outcome = abandoned; status = none }
    ∷ []

abbrev plan : List Stage
plan = record { rate = 1; duration = 1000 } ∷ record { rate = 2; duration = 1500 } ∷ []

buckets_add_up_example :
    (sum_by (λ b. b.count) (bucketize_from seen 1000 0 plan (some 1000)) ≡ count_if sent seen)
    × (sum_by (λ b. b.errors) (bucketize_from seen 1000 0 plan (some 1000))
        ≡ count_if is_error (keep_if sent seen))
buckets_add_up_example = buckets_add_up seen 1000 0 plan (some 1000)

expected_adds_up_example :
    sum_by (λ b. b.expected) (bucketize_from seen 1000 0 plan (some 1000)) ≡ planned_requests plan
expected_adds_up_example = expected_adds_up seen 1000 plan (some 1000) (omega arith) refl

abbrev knobs : Knobs
knobs = record {
  error_percent = 5;
  latency_factor = 2;
  divergence = 20;
  persistence = 2;
  concurrency = none;
  parts = 1000;
}

abbrev slices : List Bucket
slices = bucketize_from seen 1000 0 plan (some 1000)

find_knee-Explains_example : Explains 2 0 (verdicts knobs slices) (find_knee knobs slices)
find_knee-Explains_example = find_knee-Explains knobs slices (omega arith)
