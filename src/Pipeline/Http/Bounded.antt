-- ===== src/Pipeline/Http/Bounded.antt =====
-- How many requests a call makes, and what it ends with.
use testing_hq.Prelude.{
  on_if, ℕ, zero, suc, ◌+◌, ◌≤◌, ◌≡◌, refl, sym, ap, ◌∙◌, Bool, true, false, Option, none, some,
  arith,
}
use testing_hq.Pipeline.Http.{
  Settings, Reply, no_reply, response, budget_exhausted, retries_exhausted, Outcome, failed,
  answered, World, Adapter, must_retry, past_budget, too_long, pace_slot, pace_every, pace, backoff,
  send_once, Attempted, done, again, after_failure, after_reply, attempt_once, request_from,
  request,
}

module _ {W : Type 0} (e : World W) (o : Settings) where
  -- What a call that made `r` retries has to show for it.
  pub record Counted (a : Adapter W) (most r : ℕ) (outcome : Outcome) (b : Adapter W) : Type 0 where
    pub retries : b.retries_made ≡ a.retries_made + r
    pub within : r ≤ most
    pub requests : b.requests_made ≤ a.requests_made + suc r
    pub exhausted :
        outcome ≡ failed retries_exhausted
        → (r ≡ most) × (b.requests_made ≡ a.requests_made + suc r)
    pub final : (status : ℕ) → outcome ≡ answered status → must_retry status ≡ false

  slot-counts :
      (interval : ℕ) (a b : Adapter W) (s : Option ℕ)
      → pace_slot e o interval a s ≡ some b
      → (b.requests_made ≡ a.requests_made) × (b.retries_made ≡ a.retries_made)
  unfolding pace_slot
  slot-counts interval a b none h = ground (arith, h)
  slot-counts interval a b (some slot) h = ground (arith, h)

  every-counts :
      (a b : Adapter W) (i : Option ℕ)
      → pace_every e o a i ≡ some b
      → (b.requests_made ≡ a.requests_made) × (b.retries_made ≡ a.retries_made)
  unfolding pace_every
  every-counts a b none h = ground (arith, h)
  every-counts a b (some interval) h = slot-counts interval a b a.next_slot h

  pace-counts :
      (a b : Adapter W)
      → pace e o a ≡ some b
      → (b.requests_made ≡ a.requests_made) × (b.retries_made ≡ a.retries_made)
  unfolding pace
  pace-counts a b h = every-counts a b o.interval h

  -- How one round ends.
  abbrev Round : Bool → Adapter W → Attempted e o → Type 0
  Round is_last a (again b) =
      (is_last ≡ false)
      × (b.requests_made ≡ suc a.requests_made)
      × (b.retries_made ≡ suc a.retries_made)
  Round is_last a (done outcome b) =
      (b.retries_made ≡ a.retries_made)
      × (b.requests_made ≤ suc a.requests_made)
      × (outcome ≡ failed retries_exhausted
          → (is_last ≡ true) × (b.requests_made ≡ suc a.requests_made))
      × ((status : ℕ) → outcome ≡ answered status → must_retry status ≡ false)

  abbrev Behind : Bool → Adapter W → Attempted e o → Type 0
  Behind is_last a (again b) =
      (is_last ≡ false)
      × (b.requests_made ≡ a.requests_made)
      × (b.retries_made ≡ suc a.retries_made)
  Behind is_last a (done outcome b) =
      (b.retries_made ≡ a.retries_made)
      × (b.requests_made ≡ a.requests_made)
      × (outcome ≡ failed retries_exhausted → is_last ≡ true)
      × ((status : ℕ) → outcome ≡ answered status → must_retry status ≡ false)

  failure-Behind :
      (is_last : Bool) (attempt : ℕ) (t : Option ℕ) (a : Adapter W)
      → Behind is_last a (after_failure e o is_last attempt t a)
  unfolding after_failure
  failure-Behind is_last attempt t a =
      on_if (Behind is_last a) is_last (λ h. (refl, refl, λ x. h, λ status x. cc))
        (λ h.
          on_if (Behind is_last a) (too_long o t) (λ l. (refl, refl, λ x. cc, λ status x. cc))
            (λ l.
              on_if (Behind is_last a)
                (past_budget o.deadline (e.clock (backoff e o attempt t a.world).1)
                  (backoff e o attempt t a.world).0)
                (λ p. (refl, refl, λ x. cc, λ status x. cc)) (λ p. (h, refl, refl))))

  reply-Behind :
      (is_last : Bool) (attempt : ℕ) (r : Reply) (a : Adapter W)
      → Behind is_last a (after_reply e o is_last attempt r a)
  unfolding after_reply
  reply-Behind is_last attempt no_reply a = failure-Behind is_last attempt none a
  reply-Behind is_last attempt (response status t) a =
      on_if (Behind is_last a) (must_retry status) (λ h. failure-Behind is_last attempt t a)
        (λ h. (refl, refl, λ x. cc, λ other x. ground (arith, h, x)))

  -- The request itself.
  one_more :
      (is_last : Bool) (a b : Adapter W) (x : Attempted e o)
      → b.requests_made ≡ suc a.requests_made
      → b.retries_made ≡ a.retries_made
      → Behind is_last b x
      → Round is_last a x
  one_more is_last a b (again c) q t (l, m, n) = (l, m ∙ q, n ∙ ap suc t)
  one_more is_last a b (done outcome c) q t (m, n, x, f) =
      (m ∙ t, omega (arith, n, q), λ y. (x y, n ∙ q), f)

  paced :
      (is_last : Bool) (attempt : ℕ) (a : Adapter W) (p : Option (Adapter W))
      → pace e o a ≡ p
      → Round is_last a (elim p [
        | none ↦ done (failed budget_exhausted) a
        | some b ↦ after_reply e o is_last attempt (send_once e o b).0 (send_once e o b).1
      ])
  unfolding send_once
  paced is_last attempt a none h = (refl, omega arith, λ x. cc, λ status x. cc)
  paced is_last attempt a (some b) h =
      let (q, t) = pace-counts a b h in
      one_more is_last a (send_once e o b).1
        (after_reply e o is_last attempt (send_once e o b).0 (send_once e o b).1) (ap suc q) t
        (reply-Behind is_last attempt (send_once e o b).0 (send_once e o b).1)

  attempt-Round :
      (is_last : Bool) (attempt : ℕ) (a : Adapter W)
      → Round is_last a (attempt_once e o is_last attempt a)
  unfolding attempt_once
  attempt-Round is_last attempt a =
      on_if (Round is_last a) (past_budget o.deadline (e.clock a.world) 0)
        (λ h. (refl, omega arith, λ x. cc, λ status x. cc))
        (λ h. paced is_last attempt a (pace e o a) refl)

  abbrev Call : Adapter W → ℕ → Outcome × Adapter W → Type 0
  Call a most (outcome, b) = (r : ℕ) × Counted a most r outcome b

  ended :
      (is_last : Bool) (a b : Adapter W) (most : ℕ) (outcome : Outcome)
      → (is_last ≡ true → most ≡ 0)
      → Round is_last a (done outcome b)
      → Call a most (outcome, b)
  ended is_last a b most outcome z (q, n, x, f) = (
    0,
    record {
      retries = omega (arith, q);
      within = omega arith;
      requests = omega (arith, n);
      exhausted = λ h. let (l, m) = x h in (sym (z l), omega (arith, m));
      final = f;
    },
  )

  went_on :
      (a b : Adapter W) (most : ℕ) (outcome : Outcome) (c : Adapter W)
      → Round false a (again b)
      → Call b most (outcome, c)
      → Call a (suc most) (outcome, c)
  went_on a b most outcome c (l, q, t) (r, n) = (
    suc r,
    record {
      retries = omega (arith, n.retries, t);
      within = omega (arith, n.within);
      requests = omega (arith, n.requests, q);
      exhausted = λ h. let (l, m) = n.exhausted h in (ap suc l, omega (arith, m, q));
      final = n.final;
    },
  )

  last_round :
      (a : Adapter W) (x : Attempted e o)
      → Round true a x
      → Call a 0
          (elim x [ done outcome b ↦ (outcome, b) | again b ↦ (failed retries_exhausted, b) ])
  last_round a (done outcome b) h = ended true a b 0 outcome (λ l. refl) h
  last_round a (again b) (l, q, t) = cc

  early_round :
      (left attempt : ℕ) (a : Adapter W) (x : Attempted e o)
      → Round false a x
      → ((b : Adapter W) → Call b left (request_from e o left (suc attempt) b))
      → Call a (suc left) (elim x [
        | done outcome b ↦ (outcome, b)
        | again b ↦ request_from e o left (suc attempt) b
      ])
  early_round left attempt a (done outcome b) h k = ended false a b (suc left) outcome (λ l. cc) h
  early_round left attempt a (again b) h k =
      went_on a b left (request_from e o left (suc attempt) b).0
        (request_from e o left (suc attempt) b).1 h (k b)

  request_from-Call :
      (left attempt : ℕ) (a : Adapter W) → Call a left (request_from e o left attempt a)
  unfolding request_from
  request_from-Call zero attempt a =
      last_round a (attempt_once e o true attempt a) (attempt-Round true attempt a)
  request_from-Call (suc left) attempt a =
      early_round left attempt a (attempt_once e o false attempt a) (attempt-Round false attempt a)
        (λ b. request_from-Call left (suc attempt) b)

  -- Whatever the endpoint answers, a request ends. For some r, at most --retry-max, it made r retries
  -- and at most r + 1 requests; where it gives up, r is the most and the requests are r + 1; a status
  -- that it returns is neither 429 nor a 5xx.
  pub request-Counted :
      (a : Adapter W) → (r : ℕ) × Counted a o.retry_max r (request e o a).0 (request e o a).1
  unfolding request
  request-Counted a = request_from-Call o.retry_max 0 a
