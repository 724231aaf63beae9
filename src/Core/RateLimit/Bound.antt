-- ===== src/Core/RateLimit/Bound.antt =====
-- How much a bucket hands out, whatever the threads that share it ask for and in whatever order
-- they take the lock.
use native.Mathlib.Nat.{mul-add}
use testing_hq.Prelude.{
  ℕ, ◌+◌, ◌-◌, ◌*◌, ◌≤◌, ◌≡◌, refl, ap, ◌∙◌, Bool, true, false, List, [], ◌∷◌, arith,
}
use testing_hq.Core.RateLimit.{
  Bucket, refill, token, try_pass, acquire_pass, Pass, covered, rounded_off, sleeps,
}

-- What a thread does with the lock held, and the time it reads there.
pub data Event : Type 0 where
  try_at : ℕ → ℕ → Event
  pass_at : ℕ → ℕ → Event

-- The bucket behind some events, what they were handed, and how many were handed a sliver that was
-- rounded off.
pub record Handed : Type 0 where
  pub bucket : Bucket
  pub handed : ℕ
  pub slivers : ℕ

abbrev pub after_try : ℕ → Bool × Bucket → Handed
after_try n (true, b) = record { bucket = b; handed = n * token; slivers = 0 }
after_try n (false, b) = record { bucket = b; handed = 0; slivers = 0 }

abbrev pub after_pass : ℕ → Pass × Bucket → Handed
after_pass n (covered, b) = record { bucket = b; handed = n * token; slivers = 0 }
after_pass n (rounded_off, b) = record { bucket = b; handed = n * token; slivers = 1 }
after_pass n (sleeps d, b) = record { bucket = b; handed = 0; slivers = 0 }

unfoldable pub after_event : Event → Bucket → Handed
unfolding try_pass acquire_pass
after_event (try_at n now) b = after_try n (try_pass n now b)
after_event (pass_at n now) b = after_pass n (acquire_pass n now b)

unfoldable pub run_events : List Event → Bucket → Handed
unfolding after_event
run_events [] b = record { bucket = b; handed = 0; slivers = 0 }
run_events (e ∷ es) b =
    let first = after_event e b in
    let rest = run_events es first.bucket in
    record {
      bucket = rest.bucket;
      handed = first.handed + rest.handed;
      slivers = first.slivers + rest.slivers;
    }

-- What is left and was handed is covered by what there was and what time brought.
abbrev Within : Bucket → ℕ → Bucket → ℕ → Type 0
Within b handed c slivers =
    (c.rate ≡ b.rate)
    × (c.capacity ≡ b.capacity)
    × (handed + c.tokens + b.rate * b.last_refill
        ≤ b.tokens + b.rate * c.last_refill + b.rate * slivers)

pub rate_span : (r s t : ℕ) → s ≤ t → r * t ≡ r * (t - s) + r * s
rate_span r s t h = ap (λ x. r * x) (omega arith) ∙ mul-add r (t - s) s

refill-Within : (now : ℕ) (b : Bucket) → Within b 0 (refill now b) 0
unfolding refill
refill-Within now b = ground (arith, rate_span b.rate b.last_refill now)

Within-trans :
    (b c d : Bucket) (h k i j : ℕ) → Within b h c i → Within c k d j → Within b (h + k) d (i + j)
Within-trans b c d h k i j p q = (
  q.0 ∙ p.0,
  q.1 ∙ p.1,
  omega (
    arith,
    p.2,
    q.2,
    ap (λ r. r * c.last_refill) p.0,
    ap (λ r. r * d.last_refill) p.0,
    ap (λ r. r * j) p.0,
    mul-add b.rate i j,
  ),
)

after_try-Within :
    (n now : ℕ) (b : Bucket)
    → Within b
        (after_try n (try_pass n now b)).handed
        (after_try n (try_pass n now b)).bucket
        (after_try n (try_pass n now b)).slivers
unfolding try_pass
after_try-Within n now b = ground (arith, refill-Within now b)

after_pass-Within :
    (n now : ℕ) (b : Bucket)
    → Within b
        (after_pass n (acquire_pass n now b)).handed
        (after_pass n (acquire_pass n now b)).bucket
        (after_pass n (acquire_pass n now b)).slivers
unfolding acquire_pass
after_pass-Within n now b = ground (arith, refill-Within now b)

after_event-Within :
    (e : Event) (b : Bucket)
    → Within b (after_event e b).handed (after_event e b).bucket (after_event e b).slivers
unfolding after_event
after_event-Within (try_at n now) b = after_try-Within n now b
after_event-Within (pass_at n now) b = after_pass-Within n now b

run_events-Within :
    (es : List Event) (b : Bucket)
    → Within b (run_events es b).handed (run_events es b).bucket (run_events es b).slivers
unfolding run_events
run_events-Within [] b = (refl, refl, omega arith)
run_events-Within (e ∷ es) b =
    let first = after_event e b in
    let rest = run_events es first.bucket in
    Within-trans b first.bucket rest.bucket first.handed rest.handed first.slivers rest.slivers
      (after_event-Within e b) (run_events-Within es first.bucket)

-- Whatever try_acquire and the rounds of acquire ask of a bucket, at whatever times, what it hands
-- out with a rate of r per nanosecond is at most what it held, r for every nanosecond between its
-- first and its last refill, and r for every sliver that acquire rounded off.
pub handed_within :
    (es : List Event) (b : Bucket)
    → (run_events es b).handed + b.rate * b.last_refill
      ≤ b.tokens
        + b.rate * (run_events es b).bucket.last_refill
        + b.rate * (run_events es b).slivers
handed_within es b = omega (arith, (run_events-Within es b).2)

refill_full :
    (now : ℕ) (b : Bucket)
    → b.tokens ≤ b.capacity
    → ((refill now b).tokens ≤ b.capacity) × ((refill now b).capacity ≡ b.capacity)
unfolding refill
refill_full now b h = ground arith

after_event_full :
    (e : Event) (b : Bucket)
    → b.tokens ≤ b.capacity
    → ((after_event e b).bucket.tokens ≤ b.capacity)
      × ((after_event e b).bucket.capacity ≡ b.capacity)
unfolding after_event try_pass acquire_pass
after_event_full (try_at n now) b h = ground (arith, refill_full now b h)
after_event_full (pass_at n now) b h = ground (arith, refill_full now b h)

-- A bucket that holds its capacity at most does so after whatever is asked of it.
pub never_over_capacity :
    (es : List Event) (b : Bucket)
    → b.tokens ≤ b.capacity
    → (run_events es b).bucket.tokens ≤ b.capacity
unfolding run_events
never_over_capacity [] b h = h
never_over_capacity (e ∷ es) b h =
    let first = after_event_full e b h in
    omega (
      arith,
      first.0,
      first.1,
      never_over_capacity es (after_event e b).bucket (omega (arith, first.0, first.1)),
    )
