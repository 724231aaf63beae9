-- ===== src/Core/RateLimit/Examples.antt =====
-- testinghq/core/ratelimit.py on small data.
use native.Mathlib.Nat.{mul-add, mod-lt}
use native.Mathlib.Omega.{div_any}
use testing_hq.Prelude.{ℕ, suc, ◌+◌, ◌*◌, ◌/◌, ◌≤◌, ◌<◌, ◌≡◌, refl, List, [], ◌∷◌, arith}
use testing_hq.Core.RateLimit.{Bucket, refill, wait_for, Timer, waited_for, acquire}
use testing_hq.Core.RateLimit.Bound.{Event, try_at, pass_at, run_events, handed_within}
use testing_hq.Core.RateLimit.Termination.{IsAdditive, acquire_ends}

-- Two tokens a second, two at most, one left.
abbrev bucket : Bucket
bucket = record { rate = 2; capacity = 2000000000; tokens = 1000000000; last_refill = 10 }

-- Three tokens a second.
abbrev thirds : Bucket
thirds = record { rate = 3; capacity = 2000000000; tokens = 1000000000; last_refill = 10 }

-- A world is the time, and reading the clock takes no time.
abbrev additive_timer : Timer
additive_timer = record { World = ℕ; clock = λ t. (t, t); sleep = λ p q t. t + p / q }

-- Such a sleep falls short of what it was asked for by less than a nanosecond.
additive_sleep : (p q t : ℕ) → 0 < q → q * t + p ≤ q * (t + p / q) + q
additive_sleep p q t h = omega (arith, mul-add q t (p / q), div_any p q, mod-lt p h)

abbrev additive_timer-IsAdditive : IsAdditive additive_timer
additive_timer-IsAdditive = record {
  time = λ t. t;
  clock_after = λ t. omega arith;
  clock_before = λ t. omega arith;
  sleep_lasts = additive_sleep;
}

abbrev events : List Event
events = try_at 1 20 ∷ try_at 1 30 ∷ pass_at 2 40 ∷ pass_at 1 500000009 ∷ []

handed_out :
    ((run_events events bucket).handed ≡ 2000000000) × ((run_events events bucket).slivers ≡ 1)
unfolding run_events
handed_out = (refl, refl)

-- A third of a second is not a whole number of nanoseconds, and the sliver that the sleep leaves
-- open is rounded off.
slept :
    acquire additive_timer 2 2 thirds 10
    ≡ waited_for 1000000000
        (record { rate = 3; capacity = 2000000000; tokens = 0; last_refill = 333333343 })
        333333343
unfolding acquire
slept = refl

handed_within_example :
    (run_events events bucket).handed + 2 * 10
    ≤ 1000000000
      + 2 * (run_events events bucket).bucket.last_refill
      + 2 * (run_events events bucket).slivers
handed_within_example = handed_within events bucket

acquire_ends_example :
    (waited : ℕ) × (c : Bucket) × (v : ℕ) × (acquire additive_timer (suc (suc 0)) 2 thirds 10
      ≡ waited_for waited c v)
    × (waited ≤ wait_for 2 (refill 10 thirds))
acquire_ends_example =
    acquire_ends additive_timer additive_timer-IsAdditive 0 2 thirds 10 (omega arith) (omega arith)
      (omega arith) (omega arith)
