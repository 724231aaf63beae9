-- ===== src/Barrage/Report/Samples.antt =====
-- `samples_from_records` of testinghq/barrage/fire.py, and what the counts say of a run.
use testing_hq.Prelude.{
  ℕ, ◌+◌, ◌-◌, ◌≡◌, refl, true, not, ◌||◌, Option, none, some, List, [], ◌∷◌, map, arith, all, leb,
  if◌then◌else◌,
}
use testing_hq.Barrage.Run.{DispatchRecord, Live, Limits, finalise}
use testing_hq.Barrage.Run.Steps.{Later, begun, coherent, records_cohere}
use testing_hq.Barrage.Report.{
  Sample, RequestCounts, is_completed, is_abandoned, sent, request_counts,
}

-- What the code reads of the result of the hook.
pub record Response : Type 0 where
  pub status : Option ℕ
  pub latency : Option ℕ

abbrev minus : Option ℕ → ℕ → Option ℕ
minus none t = none
minus (some n) t = some (n - t)

-- A latency that the hook does not give is measured; both times of a completed record are there.
abbrev service_of : DispatchRecord Response → Option ℕ
service_of r = if not (is_completed r.outcome) then none else elim r.result [
  | none ↦ elim r.dispatched_at [ none ↦ none | some t ↦ minus r.completed_at t ]
  | some res ↦ elim res.latency [
    | none ↦ elim r.dispatched_at [ none ↦ none | some t ↦ minus r.completed_at t ]
    | some l ↦ some l
  ]
]

abbrev status_of : DispatchRecord Response → Option ℕ
status_of r =
    if not (is_completed r.outcome)
    then none
    else elim r.result [ none ↦ none | some res ↦ res.status ]

unfoldable pub sample_of : ℕ → ℕ → DispatchRecord Response → Sample
sample_of origin warmup r = record {
  index = r.index;
  scheduled_at = r.scheduled_at - origin;
  dispatched_at = minus r.dispatched_at origin;
  status = status_of r;
  service = service_of r;
  offered = (if is_completed r.outcome then minus r.completed_at r.scheduled_at else none);
  target_rate = r.target_rate;
  outcome = r.outcome;
  in_hold = leb warmup (r.scheduled_at - origin);
}

abbrev pub samples_from_records : ℕ → ℕ → List (DispatchRecord Response) → List Sample
samples_from_records origin warmup records = map (sample_of origin warmup) records

-- Every request is counted under one outcome.
abbrev pub Accounted : RequestCounts → Type 0
Accounted c =
    (c.scheduled
      ≡ c.completed_count + (c.abandoned_count + (c.dropped_count + c.not_dispatched_count)))
    × (c.sent_count ≡ c.completed_count + c.abandoned_count)

went_out :
    (limits : Limits) (origin warmup : ℕ) (r : DispatchRecord Response)
    → coherent limits r ≡ true
    → sent (sample_of origin warmup r) ≡ (is_completed r.outcome || is_abandoned r.outcome)
unfolding sent sample_of
went_out limits origin warmup r h = ground arith

told-Accounted :
    (limits : Limits) (origin warmup : ℕ) (rs : List (DispatchRecord Response))
    → all (coherent limits) rs ≡ true
    → Accounted (request_counts (samples_from_records origin warmup rs))
unfolding request_counts sample_of
told-Accounted limits origin warmup [] h = (refl, refl)
told-Accounted limits origin warmup (r ∷ rs) h =
    ground (arith, went_out limits origin warmup r, told-Accounted limits origin warmup rs)

-- Of the samples of the records of a run, whatever its threads did, every one is counted under one
-- outcome, and the ones that were sent are those that were completed or abandoned.
pub request_counts-Accounted :
    {limits : Limits} {run : Live Response} (origin warmup : ℕ)
    → Later limits begun run
    → Accounted (request_counts (samples_from_records origin warmup (finalise run).0))
request_counts-Accounted {limits} {run} origin warmup l =
    told-Accounted limits origin warmup (finalise run).0 (records_cohere l)
