-- ===== src/Core/RateLimit/Termination.antt =====
-- That `acquire` returns.
use native.Mathlib.Nat.{mul-le-mul_left}
use testing_hq.Prelude.{ℕ, suc, ◌⊎◌, inl, inr, ◌+◌, ◌*◌, ◌≤◌, ◌<◌, ◌≡◌, ◌∙◌, ap, subst, arith}
use testing_hq.Core.RateLimit.{
  Bucket, refill, token, acquire_pass, Pass, covered, rounded_off, sleeps, wait_for, Timer,
  waited_for, acquire_loop, acquire,
}
use testing_hq.Core.RateLimit.Bound.{rate_span}

-- A clock and a sleep that go on: a reading lies between the time before and after it, and a sleep
-- lasts as long as it was asked to, less at most a nanosecond that the clock does not show.
pub record IsAdditive (timer : Timer) : Type 0 where
  pub time : timer.World → ℕ
  pub clock_after : (w : timer.World) → time w ≤ (timer.clock w).0
  pub clock_before : (w : timer.World) → (timer.clock w).0 ≤ time (timer.clock w).1
  pub sleep_lasts :
      (p q : ℕ) (w : timer.World) → 0 < q → q * time w + p ≤ q * time (timer.sleep p q w) + q

Ends : Pass → Type 0
Ends p = (p ≡ covered) ⊎ (p ≡ rounded_off)

-- Behind the wait, less a nanosecond, the tokens are there but for a sliver.
ends_later :
    (n now : ℕ) (b : Bucket)
    → n * token ≤ b.capacity
    → b.rate * b.last_refill + wait_for n b ≤ b.rate * now + b.rate
    → Ends (acquire_pass n now b).0
unfolding acquire_pass refill Ends wait_for
ends_later n now b hc h = ground (
  arith,
  rate_span b.rate b.last_refill now,
  mul-le-mul_left {m = now} {n = b.last_refill} b.rate,
)

SleepsAs : ℕ → ℕ → Bucket → Pass × Bucket → Type 0
SleepsAs n now b p =
    (p.0 ≡ sleeps (wait_for n (refill now b)))
    × (wait_for n p.1 ≡ wait_for n (refill now b))
    × (p.1.last_refill ≤ now)
    × (p.1.rate ≡ b.rate)
    × (p.1.capacity ≡ b.capacity)

pass-cases :
    (n now : ℕ) (b : Bucket)
    → b.last_refill ≤ now
    → Ends (acquire_pass n now b).0 ⊎ SleepsAs n now b (acquire_pass n now b)
unfolding acquire_pass SleepsAs Ends refill
pass-cases n now b h = ground arith

-- A round behind the sleep is the last.
later :
    (n now after : ℕ) (b : Bucket) (p : Pass × Bucket)
    → n * token ≤ b.capacity
    → SleepsAs n now b p
    → b.rate * now + wait_for n (refill now b) ≤ b.rate * after + b.rate
    → Ends (acquire_pass n after p.1).0
unfolding SleepsAs
later n now after b p hc (_, wait, before, rate, capacity) h =
    ends_later n after p.1 (omega (arith, capacity)) (
      omega (
        arith,
        h,
        wait,
        ap (λ r. r * p.1.last_refill) rate,
        ap (λ r. r * after) rate,
        rate,
        mul-le-mul_left {m = p.1.last_refill} {n = now} b.rate before,
      ))

module _ (timer : Timer) (additive : IsAdditive timer) where
  -- The time read behind a sleep.
  slept :
      (r q now d : ℕ) (w : timer.World)
      → q ≡ r
      → 0 < r
      → now ≤ additive.time w
      → r * now + d ≤ r * (timer.clock (timer.sleep d q w)).0 + r
  slept r q now d w e hr h =
      let v = timer.sleep d q w in
      let lasts =
        subst (λ k. k * additive.time w + d ≤ k * additive.time v + k) e
          (additive.sleep_lasts d q w (omega (arith, e))) in
      omega (
        arith,
        lasts,
        mul-le-mul_left {m = now} {n = additive.time w} r h,
        mul-le-mul_left {m = additive.time v} {n = (timer.clock v).0} r (additive.clock_after v),
      )

  loop_covered :
      (fuel n waited : ℕ) (b : Bucket) (w : timer.World)
      → Ends (acquire_pass n (timer.clock w).0 b).0
      → acquire_loop timer (suc fuel) n waited b w
        ≡ waited_for waited (acquire_pass n (timer.clock w).0 b).1 (timer.clock w).1
  unfolding acquire_loop Ends
  loop_covered fuel n waited b w h = ground arith

  loop_sleeps :
      (fuel n waited d : ℕ) (b : Bucket) (w : timer.World)
      → (acquire_pass n (timer.clock w).0 b).0 ≡ sleeps d
      → acquire_loop timer (suc fuel) n waited b w
        ≡ acquire_loop timer fuel n
            (waited + d)
            (acquire_pass n (timer.clock w).0 b).1
            (timer.sleep d (acquire_pass n (timer.clock w).0 b).1.rate (timer.clock w).1)
  unfolding acquire_loop
  loop_sleeps fuel n waited d b w h = ground arith

  acquire-eq :
      (fuel n : ℕ) (b : Bucket) (w : timer.World)
      → 0 < n
      → n * token ≤ b.capacity
      → acquire timer fuel n b w ≡ acquire_loop timer fuel n 0 b w
  unfolding acquire
  acquire-eq fuel n b w hn hc = ground arith

  -- Where n is above 0 and within the capacity, the rate is above 0, the last refill is not after
  -- now, and time passes as a clock promises and as a sleep that falls at most a nanosecond short
  -- does, two rounds of the loop are enough for acquire to return, and it sleeps no longer than
  -- wait_time said.
  pub acquire_ends :
      (fuel n : ℕ) (b : Bucket) (w : timer.World)
      → 0 < n
      → n * token ≤ b.capacity
      → 0 < b.rate
      → b.last_refill ≤ additive.time w
      → (waited : ℕ) × (c : Bucket) × (v : timer.World) × (acquire timer (suc (suc fuel)) n b w
          ≡ waited_for waited c v)
        × (waited ≤ wait_for n (refill (timer.clock w).0 b))
  unfolding SleepsAs
  acquire_ends fuel n b w hn hc hr hl =
      let now = (timer.clock w).0 in
      let p = acquire_pass n now b in
      let d = wait_for n (refill now b) in
      let v = timer.sleep d p.1.rate (timer.clock w).1 in
      let begins = acquire-eq (suc (suc fuel)) n b w hn hc in
      elim (pass-cases n now b (omega (arith, additive.clock_after w))) [
        | inl e ↦
            (0, p.1, (timer.clock w).1, begins ∙ loop_covered (suc fuel) n 0 b w e, omega arith)
        | inr s ↦ (
          0 + d,
          (acquire_pass n (timer.clock v).0 p.1).1,
          (timer.clock v).1,
          begins
              ∙ loop_sleeps (suc fuel) n 0 d b w s.0
              ∙ loop_covered fuel n (0 + d) p.1 v (
                  later n now (timer.clock v).0 b p hc s (
                    slept b.rate p.1.rate now d (timer.clock w).1 s.3 hr
                      (additive.clock_before w))),
          omega arith,
        )
      ]
