-- ===== src/Core/RateLimit.antt =====
-- testinghq/core/ratelimit.py: the token bucket. Times are nanoseconds, tokens are counted in
-- thousand millionths, and the rate in tokens per second, which is thousand millionths of a token
-- per nanosecond. A wait is a number of nanoseconds over the rate. What runs with the lock held is
-- one function.
mod Bound
mod Termination
mod Examples
use Prim.Native.Nat.{min}
use testing_hq.Prelude.{
  ℕ, zero, suc, ◌+◌, ◌-◌, ◌*◌, ◌/◌, Bool, true, false, leb, ltb, nat_beq, if◌then◌else◌,
}

pub record Bucket : Type 0 where
  pub rate : ℕ
  pub capacity : ℕ
  pub tokens : ℕ
  pub last_refill : ℕ

-- A ValueError, or a value.
pub data Checked (A : Type 0) : Type 0 where
  value_error : Checked A
  valid : A → Checked A

-- `TokenBucket(...)`, where the clock says `now`.
unfoldable pub make_bucket : ℕ → ℕ → ℕ → Checked Bucket
make_bucket rate capacity now =
    if nat_beq rate 0
    then value_error
    else if nat_beq capacity 0
    then value_error
    else valid (record { rate = rate; capacity = capacity; tokens = capacity; last_refill = now })

unfoldable pub refill : ℕ → Bucket → Bucket
refill now b =
    if ltb b.last_refill now
    then record b {
      tokens = min b.capacity (b.tokens + b.rate * (now - b.last_refill));
      last_refill = now;
    }
    else b

-- One token.
abbrev pub token : ℕ
token = 1000000000

-- _MIN_WAIT
abbrev pub min_wait : ℕ
min_wait = 1

-- The rest of a bucket, of which some has been handed over.
abbrev pub spend : ℕ → Bucket → Bucket
spend n b = record b { tokens = b.tokens - n }

unfoldable pub set_rate : ℕ → ℕ → Bucket → Checked Bucket
unfolding refill
set_rate rate now b =
    if nat_beq rate 0 then value_error else valid (record (refill now b) { rate = rate })

-- `deficit / self._rate`, exactly: a number of nanoseconds, given as what is over the rate.
unfoldable pub wait_for : ℕ → Bucket → ℕ
wait_for n b = n * token - b.tokens

unfoldable pub wait_time : ℕ → ℕ → Bucket → Checked (ℕ × Bucket)
unfolding refill wait_for
wait_time n now b =
    if nat_beq n 0 then value_error else valid (wait_for n (refill now b), refill now b)

-- What `try_acquire` does with the lock held.
unfoldable pub try_pass : ℕ → ℕ → Bucket → Bool × Bucket
unfolding refill
try_pass n now b =
    let c = refill now b in
    if leb (n * token) c.tokens then (true, spend (n * token) c) else (false, c)

unfoldable pub try_acquire : ℕ → ℕ → Bucket → Checked (Bool × Bucket)
unfolding try_pass
try_acquire n now b = if nat_beq n 0 then value_error else valid (try_pass n now b)

-- How a round of the loop in `acquire` ends: with the tokens, with the tokens but for a sliver, or
-- with a sleep, of what is given over the bucket's rate.
pub data Pass : Type 0 where
  covered : Pass
  rounded_off : Pass
  sleeps : ℕ → Pass

unfoldable pub acquire_pass : ℕ → ℕ → Bucket → Pass × Bucket
unfolding refill wait_for
acquire_pass n now b =
    let c = refill now b in
    if leb (n * token) c.tokens
    then (covered, spend (n * token) c)
    else if leb (n * token - c.tokens) (c.rate * min_wait)
    then (rounded_off, record c { tokens = 0 })
    else (sleeps (wait_for n c), c)

-- The clock and the sleep that a bucket is given. A sleep is asked for a number of nanoseconds, as
-- a numerator and a denominator.
pub record Timer : Type 1 where
  pub World : Type 0
  pub clock : World → ℕ × World
  pub sleep : ℕ → ℕ → World → World

pub data Acquired (W : Type 0) : Type 0 where
  refused : Acquired W
  waited_for : ℕ → Bucket → W → Acquired W
  out_of_fuel : Acquired W

module _ (timer : Timer) where
  -- The loop of `acquire`, where no other thread takes from the bucket or sets its rate. What it
  -- waited for is given over the rate, too.
  unfoldable pub acquire_loop : ℕ → ℕ → ℕ → Bucket → timer.World → Acquired timer.World
  unfolding acquire_pass
  acquire_loop zero n waited b w = out_of_fuel
  acquire_loop (suc fuel) n waited b w =
      let r = timer.clock w in
      let p = acquire_pass n r.0 b in
      elim p.0 [
        | covered ↦ waited_for waited p.1 r.1
        | rounded_off ↦ waited_for waited p.1 r.1
        | sleeps d ↦ acquire_loop fuel n (waited + d) p.1 (timer.sleep d p.1.rate r.1)
      ]

  unfoldable pub acquire : ℕ → ℕ → Bucket → timer.World → Acquired timer.World
  unfolding acquire_loop
  acquire fuel n b w =
      if nat_beq n 0
      then refused
      else if ltb b.capacity (n * token)
      then refused
      else acquire_loop fuel n 0 b w
