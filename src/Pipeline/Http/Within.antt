-- ===== src/Pipeline/Http/Within.antt =====
-- What the waits of a call keep to.
use testing_hq.Prelude.{
  on_if, ℕ, zero, suc, ◌-◌, ◌≡◌, Bool, true, false, not, Option, none, some, ltb,
}
use testing_hq.Pipeline.Http.{
  Settings, Reply, no_reply, response, retries_exhausted, budget_exhausted, Outcome, failed, World,
  Adapter, must_retry, past_budget, too_long, pace_slot, pace_every, pace, backoff, send_once,
  Attempted, done, again, after_failure, after_reply, attempt_once, request_from, request,
}

-- A property of the world that a call of the client and of the random source keep, and a sleep that
-- ends before the deadline.
pub record Kept {W : Type 0} (e : World W) (deadline : Option ℕ) (P : W → Type 0) : Type 0 where
  pub sends : (w : W) → P w → P (e.send w).1
  pub draws : (n : ℕ) (w : W) → P w → P (e.uniform n w).1
  pub sleeps : (n : ℕ) (w : W) → P w → past_budget deadline (e.clock w) n ≡ false → P (e.sleep n w)

module _ {W : Type 0} (e : World W) (o : Settings) (P : W → Type 0)
    (kept : Kept e o.deadline P) where
  abbrev Holds : Attempted e o → Type 0
  Holds (done outcome b) = P b.world
  Holds (again b) = P b.world

  abbrev Paced : Adapter W → Option (Adapter W) → Type 0
  Paced a none = P a.world
  Paced a (some b) = P b.world

  slot-Paced :
      (interval : ℕ) (a : Adapter W) (s : Option ℕ)
      → P a.world
      → Paced a (pace_slot e o interval a s)
  unfolding pace_slot
  slot-Paced interval a none h = h
  slot-Paced interval a (some slot) h =
      on_if (Paced a) (not (ltb (e.clock a.world) slot)) (λ l. h)
        (λ l.
          on_if (Paced a) (past_budget o.deadline (e.clock a.world) (slot - e.clock a.world))
            (λ m. h) (λ m. kept.sleeps (slot - e.clock a.world) a.world h m))

  every-Paced : (a : Adapter W) (i : Option ℕ) → P a.world → Paced a (pace_every e o a i)
  unfolding pace_every
  every-Paced a none h = h
  every-Paced a (some interval) h = slot-Paced interval a a.next_slot h

  failure-Holds :
      (is_last : Bool) (attempt : ℕ) (t : Option ℕ) (a : Adapter W)
      → P a.world
      → Holds (after_failure e o is_last attempt t a)
  unfolding after_failure backoff
  failure-Holds is_last attempt t a h =
      on_if Holds is_last (λ l. h)
        (λ l.
          on_if Holds (too_long o t) (λ m. h)
            (λ m.
              on_if Holds
                (past_budget o.deadline (e.clock (backoff e o attempt t a.world).1)
                  (backoff e o attempt t a.world).0)
                (λ q. drawn)
                (λ q.
                  kept.sleeps (backoff e o attempt t a.world).0 (backoff e o attempt t a.world).1
                    drawn q)))
    where
      drawn : P (backoff e o attempt t a.world).1
      drawn = kept.draws _ a.world h

  reply-Holds :
      (is_last : Bool) (attempt : ℕ) (r : Reply) (a : Adapter W)
      → P a.world
      → Holds (after_reply e o is_last attempt r a)
  unfolding after_reply
  reply-Holds is_last attempt no_reply a h = failure-Holds is_last attempt none a h
  reply-Holds is_last attempt (response status t) a h =
      on_if Holds (must_retry status) (λ l. failure-Holds is_last attempt t a h) (λ l. h)

  Paced-Holds :
      (is_last : Bool) (attempt : ℕ) (a : Adapter W) (p : Option (Adapter W))
      → P a.world
      → Paced a p
      → Holds (elim p [
        | none ↦ done (failed budget_exhausted) a
        | some b ↦ after_reply e o is_last attempt (send_once e o b).0 (send_once e o b).1
      ])
  unfolding send_once
  Paced-Holds is_last attempt a none h k = h
  Paced-Holds is_last attempt a (some b) h k =
      reply-Holds is_last attempt (send_once e o b).0 (send_once e o b).1 (kept.sends b.world k)

  attempt-Holds :
      (is_last : Bool) (attempt : ℕ) (a : Adapter W)
      → P a.world
      → Holds (attempt_once e o is_last attempt a)
  unfolding attempt_once pace
  attempt-Holds is_last attempt a h =
      on_if Holds (past_budget o.deadline (e.clock a.world) 0) (λ l. h)
        (λ l. Paced-Holds is_last attempt a (pace e o a) h (every-Paced a o.interval h))

  last_Holds :
      (x : Attempted e o)
      → Holds x
      → P
          (elim x as (λ y. Outcome × Adapter W) [
            | done outcome b ↦ (outcome, b)
            | again b ↦ (failed retries_exhausted, b)
          ]).1.world
  last_Holds (done outcome b) h = h
  last_Holds (again b) h = h

  early-Holds :
      (left attempt : ℕ) (x : Attempted e o)
      → Holds x
      → ((b : Adapter W) → P b.world → P (request_from e o left (suc attempt) b).1.world)
      → P
          (elim x as (λ y. Outcome × Adapter W) [
            | done outcome b ↦ (outcome, b)
            | again b ↦ request_from e o left (suc attempt) b
          ]).1.world
  early-Holds left attempt (done outcome b) h k = h
  early-Holds left attempt (again b) h k = k b h

  from-Holds :
      (left attempt : ℕ) (a : Adapter W) → P a.world → P (request_from e o left attempt a).1.world
  unfolding request_from
  from-Holds zero attempt a h =
      last_Holds (attempt_once e o true attempt a) (attempt-Holds true attempt a h)
  from-Holds (suc left) attempt a h =
      early-Holds left attempt (attempt_once e o false attempt a) (attempt-Holds false attempt a h)
        (λ b. from-Holds left (suc attempt) b)

  -- Every sleep of a request, for its rate and behind a failed attempt, ends before the deadline: what
  -- such sleeps keep, and the client and the random source, holds behind the request.
  pub waits_within : (a : Adapter W) → P a.world → P (request e o a).1.world
  unfolding request
  waits_within a h = from-Holds o.retry_max 0 a h
