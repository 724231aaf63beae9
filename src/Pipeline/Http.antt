-- ===== src/Pipeline/Http.antt =====
-- The requests of `HttpJsonAdapter` in testinghq/pipeline/adapters.py: pacing, retries and the budget.
-- Times are whole ticks; a reply is what the loop reads of a response, its `Retry-After` in ticks.
mod Bounded
mod Within
mod Examples
use Prim.Native.Nat.{min, max}
use testing_hq.Prelude.{
  ℕ, zero, suc, ◌+◌, ◌-◌, ◌*◌, ◌/◌, ◌^◌, Bool, true, false, not, ◌&&◌, ◌||◌, Option, none, some,
  leb, ltb, nat_beq, if◌then◌else◌,
}

-- `None` for the deadline and the rate; the interval is 1 / rate.
pub record Settings : Type 0 where
  pub retry_max : ℕ
  pub retry_base : ℕ
  pub max_backoff : ℕ
  pub max_retry_after : ℕ
  pub interval : Option ℕ
  pub deadline : Option ℕ

-- An OSError or HTTPException, or a response.
pub data Reply : Type 0 where
  no_reply : Reply
  response : ℕ → Option ℕ → Reply

-- What raises: BudgetExhausted, or an AdapterError of another kind.
pub data Failure : Type 0 where
  budget_exhausted retries_exhausted retry_after_too_long : Failure

pub data Outcome : Type 0 where
  failed : Failure → Outcome
  answered : ℕ → Outcome

-- The clock, the sleep, the client and the random source.
pub record World (W : Type 0) : Type 0 where
  pub clock : W → ℕ
  pub sleep : ℕ → W → W
  pub send : W → Reply × W
  pub uniform : ℕ → W → ℕ × W

-- What the adapter keeps, and the world.
pub record Adapter (W : Type 0) : Type 0 where
  pub next_slot : Option ℕ
  pub requests_made : ℕ
  pub retries_made : ℕ
  pub world : W

abbrev pub must_retry : ℕ → Bool
must_retry status = nat_beq status 429 || (leb 500 status && leb status 599)

-- Whether a wait reaches the deadline.
abbrev pub past_budget : Option ℕ → ℕ → ℕ → Bool
past_budget none now wait = false
past_budget (some t) now wait = leb t (now + wait)

abbrev pub too_long : Settings → Option ℕ → Bool
too_long o none = false
too_long o (some t) = ltb o.max_retry_after t

abbrev pub or_else : Option ℕ → ℕ → ℕ
or_else none n = n
or_else (some m) n = m

abbrev pub reply_wait : Option ℕ → ℕ → ℕ
reply_wait none delay = delay
reply_wait (some t) delay = max delay t

module _ {W : Type 0} (e : World W) (o : Settings) where
  -- The slot that follows a request at time `now`.
  abbrev take_slot : ℕ → ℕ → Adapter W → Adapter W
  take_slot interval now a = record a {
    next_slot = some (max now (or_else a.next_slot now) + interval);
  }

  -- `_pace`, from its parts: none stands for the BudgetExhausted.
  unfoldable pub pace_slot : ℕ → Adapter W → Option ℕ → Option (Adapter W)
  pace_slot interval a none = some (take_slot interval (e.clock a.world) a)
  pace_slot interval a (some slot) =
      let now = e.clock a.world in
      if not (ltb now slot)
      then some (take_slot interval now a)
      else if past_budget o.deadline now (slot - now)
      then none
      else (let woken = record a { world = e.sleep (slot - now) a.world } in
          some (take_slot interval (e.clock woken.world) woken))

  unfoldable pub pace_every : Adapter W → Option ℕ → Option (Adapter W)
  unfolding pace_slot
  pace_every a none = some a
  pace_every a (some interval) = pace_slot interval a a.next_slot

  unfoldable pub pace : Adapter W → Option (Adapter W)
  unfolding pace_every
  pace a = pace_every a o.interval

  -- `_backoff`
  unfoldable pub backoff : ℕ → Option ℕ → W → ℕ × W
  backoff attempt retry_after w =
      let span = min (o.retry_base * 2 ^ attempt) o.max_backoff in
      let (jitter, after) = e.uniform (span / 2) w in
      (reply_wait retry_after (span / 2 + jitter), after)

  -- `self.requests_made += 1` and the call of the client.
  unfoldable pub send_once : Adapter W → Reply × Adapter W
  send_once a =
      let (reply, after) = e.send a.world in
      (reply, record a { requests_made = suc a.requests_made; world = after })

  -- How an attempt ends: with the outcome of the request, or with the wait behind it done.
  pub data Attempted : Type 0 where
    done : Outcome → Adapter W → Attempted
    again : Adapter W → Attempted

  -- Behind a failed attempt, the last one or not.
  unfoldable pub after_failure : Bool → ℕ → Option ℕ → Adapter W → Attempted
  unfolding backoff
  after_failure is_last attempt retry_after a =
      if is_last
      then done (failed retries_exhausted) a
      else if too_long o retry_after
      then done (failed retry_after_too_long) a
      else (let (delay, drawn) = backoff attempt retry_after a.world in
          let b = record a { world = drawn } in
          if past_budget o.deadline (e.clock drawn) delay
          then done (failed budget_exhausted) b
          else again (record b { world = e.sleep delay drawn; retries_made = suc a.retries_made }))

  unfoldable pub after_reply : Bool → ℕ → Reply → Adapter W → Attempted
  unfolding after_failure
  after_reply is_last attempt no_reply a = after_failure is_last attempt none a
  after_reply is_last attempt (response status retry_after) a =
      if must_retry status
      then after_failure is_last attempt retry_after a
      else done (answered status) a

  -- A round of the loop of `_request`.
  unfoldable pub attempt_once : Bool → ℕ → Adapter W → Attempted
  unfolding pace send_once after_reply
  attempt_once is_last attempt a =
      if past_budget o.deadline (e.clock a.world) 0
      then done (failed budget_exhausted) a
      else elim (pace a) [
        | none ↦ done (failed budget_exhausted) a
        | some b ↦ after_reply is_last attempt (send_once b).0 (send_once b).1
      ]

  -- The loop, with so many retries left.
  unfoldable pub request_from : ℕ → ℕ → Adapter W → Outcome × Adapter W
  unfolding attempt_once
  request_from zero attempt a = elim (attempt_once true attempt a) [
    | done outcome b ↦ (outcome, b)
    | again b ↦ (failed retries_exhausted, b)
  ]
  request_from (suc left) attempt a = elim (attempt_once false attempt a) [
    | done outcome b ↦ (outcome, b)
    | again b ↦ request_from left (suc attempt) b
  ]

  -- `_request`
  unfoldable pub request : Adapter W → Outcome × Adapter W
  unfolding request_from
  request a = request_from o.retry_max 0 a
