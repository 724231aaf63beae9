-- ===== src/Barrage/Report/Planned.antt =====
-- What the buckets expect, all together.
use Prim.Native.Nat.{min, max}
use native.Mathlib.Nat.{mul-le-mul_right, div-add-mod', mod-lt}
use testing_hq.Prelude.{
  ℕ, zero, suc, ◌+◌, ◌-◌, ◌*◌, ◌/◌, ◌≤◌, ◌<◌, ◌≡◌, refl, sym, ap, ◌∙◌, false, Option, List, [], ◌∷◌,
  arith, is_empty, nat_eq,
}
use testing_hq.Barrage.Report.{Sample}
use testing_hq.Barrage.Report.Buckets.{
  Stage, planned_from, planned_duration, planned_buckets, Series, expected_in, make_bucket,
  buckets_from, series_at, bucket_count, bucketize_from,
}

abbrev pub sum_by : {A : Type 0} → (A → ℕ) → List A → ℕ
sum_by f [] = 0
sum_by f (x ∷ xs) = f x + sum_by f xs

-- f k + f (k + 1) + ..., n times
abbrev pub sum_from : ℕ → ℕ → (ℕ → ℕ) → ℕ
sum_from k zero f = 0
sum_from k (suc n) f = f k + sum_from (suc k) n f

abbrev pub planned_requests : List Stage → ℕ
planned_requests [] = 0
planned_requests (s ∷ stages) = s.rate * s.duration + planned_requests stages

planned-split :
    (at start mid end : ℕ) (stages : List Stage)
    → start ≤ mid
    → mid ≤ end
    → planned_from at start mid stages + planned_from at mid end stages
      ≡ planned_from at start end stages
unfolding planned_from
planned-split at start mid end [] h l = refl
planned-split at start mid end (s ∷ stages) h l = omega (
  arith,
  planned-split (at + s.duration) start mid end stages h l,
  ap (λ x. s.rate * x) (overlap at s.duration start mid end h l),
)
  where
    overlap :
        (at d start mid end : ℕ)
        → start ≤ mid
        → mid ≤ end
        → (min mid (at + d) - max start at) + (min end (at + d) - max mid at)
          ≡ min end (at + d) - max start at
    overlap at d start mid end h l = omega arith

planned-nothing : (at t : ℕ) (stages : List Stage) → planned_from at t t stages ≡ 0
unfolding planned_from
planned-nothing at t [] = refl
planned-nothing at t (s ∷ stages) = omega (
  arith,
  planned-nothing (at + s.duration) t stages,
  ap (λ x. s.rate * x) (nothing at s.duration t),
)
  where
    nothing : (at d t : ℕ) → min t (at + d) - max t at ≡ 0
    nothing at d t = omega arith

planned-everything :
    (at end : ℕ) (stages : List Stage)
    → at + planned_duration stages ≤ end
    → planned_from at 0 end stages ≡ planned_requests stages
unfolding planned_from
planned-everything at end [] h = refl
planned-everything at end (s ∷ stages) h = omega (
  arith,
  planned-everything (at + s.duration) end stages (omega (arith, h)),
  ap (λ x. s.rate * x) (whole at s.duration end (omega (arith, h))),
)
  where
    whole : (at d end : ℕ) → at + d ≤ end → min end (at + d) - max 0 at ≡ d
    whole at d end h = omega arith

module _ (b : Series) (from_start : b.origin ≡ 0) (planned : is_empty b.stages ≡ false) where
  expected_planned :
      (last k : ℕ) → expected_in b last k ≡ planned_from 0 (k * b.width) (suc k * b.width) b.stages
  unfolding expected_in
  expected_planned last k = ground (arith, from_start, planned, starts, ends)
    where
      starts : b.origin + k * b.width ≡ k * b.width
      starts = omega (arith, from_start)

      ends : b.origin + k * b.width + b.width ≡ suc k * b.width
      ends = omega (arith, from_start)

  sum-expected :
      (last k n : ℕ)
      → sum_by (λ x. x.expected) (buckets_from b last k n)
        ≡ planned_from 0 (k * b.width) ((k + n) * b.width) b.stages
  unfolding buckets_from make_bucket
  sum-expected last k zero =
      sym (planned-nothing 0 (k * b.width) b.stages)
      ∙ ap (λ j. planned_from 0 (k * b.width) (j * b.width) b.stages) (omega arith)
  sum-expected last k (suc n) = omega (
    arith,
    expected_planned last k,
    sum-expected (expected_in b last k) (suc k) n,
    planned-split 0 (k * b.width) (suc k * b.width) ((suc k + n) * b.width) b.stages (omega arith)
        (mul-le-mul_right b.width (suc_le k n)),
    ap (λ j. planned_from 0 (k * b.width) (j * b.width) b.stages) (step k n),
  )
    where
      suc_le : (k n : ℕ) → suc k ≤ suc k + n
      suc_le k n = omega arith

      step : (k n : ℕ) → suc k + n ≡ k + suc n
      step k n = omega arith

ceil-covers : (n w : ℕ) → 0 < w → n ≤ (n + (w - 1)) / w * w
ceil-covers n w h = omega (arith, div-add-mod' (n + (w - 1)) w, mod-lt (n + (w - 1)) h)

enough :
    (b : Series) → is_empty b.stages ≡ false → planned_buckets b.width b.stages ≤ bucket_count b
unfolding bucket_count
enough b e = ground (arith, e)

-- The buckets cover the plan.
covers :
    (b : Series)
    → 0 < b.width
    → is_empty b.stages ≡ false
    → planned_duration b.stages ≤ bucket_count b * b.width
covers b h e = omega (
  arith,
  ceil-covers (planned_duration b.stages) b.width h,
  mul-le-mul_right b.width (enough b e),
)

-- Where the buckets begin at 0, are wider than 0, and there are stages, what they expect adds up to
-- what the stages ask for.
pub expected_adds_up :
    (samples : List Sample) (width : ℕ) (stages : List Stage) (hold_start : Option ℕ)
    → 0 < width
    → is_empty stages ≡ false
    → sum_by (λ x. x.expected) (bucketize_from samples width 0 stages hold_start)
      ≡ planned_requests stages
unfolding bucketize_from series_at
expected_adds_up samples width stages hold_start h e =
    let b = series_at samples width 0 stages hold_start in
    sum-expected b refl e 0 0 (bucket_count b)
    ∙ ap (λ z. planned_from 0 z ((0 + bucket_count b) * width) stages) (omega arith)
    ∙ planned-everything 0 ((0 + bucket_count b) * width) stages (omega (arith, covers b h e))
