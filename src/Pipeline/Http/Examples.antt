-- ===== src/Pipeline/Http/Examples.antt =====
-- An endpoint that answers 503 twice and then 200, under a rate and a budget.
use testing_hq.Prelude.{ℕ, suc, ◌+◌, ◌<◌, ◌≡◌, false, none, some, arith, ltb, if◌then◌else◌}
use testing_hq.Pipeline.Http.{Settings, response, World, Adapter, past_budget, request}
use testing_hq.Pipeline.Http.Bounded.{Counted, request-Counted}
use testing_hq.Pipeline.Http.Within.{Kept, waits_within}

-- The time, the requests that came in, and when the last sleep ended.
abbrev Bench : Type 0
Bench = ℕ × ℕ × ℕ

abbrev bench : World Bench
bench = record {
  clock = λ w. w.0;
  sleep = λ n w. (w.0 + n, w.1, w.0 + n);
  send =
      λ w. ((if ltb w.1 2 then response 503 none else response 200 none), (suc w.0, suc w.1, w.2));
  uniform = λ n w. (n, w);
}

abbrev settings : Settings
settings = record {
  retry_max = 3;
  retry_base = 4;
  max_backoff = 30;
  max_retry_after = 300;
  interval = some 2;
  deadline = some 40;
}

abbrev fresh : Adapter Bench
fresh = record { next_slot = none; requests_made = 0; retries_made = 0; world = (5, 0, 0) }

request-Counted_example :
    (r : ℕ) × Counted bench settings fresh 3 r
      (request bench settings fresh).0
      (request bench settings fresh).1
request-Counted_example = request-Counted bench settings fresh

-- The last sleep ended before the deadline.
abbrev WokeBefore : Bench → Type 0
WokeBefore w = w.2 < 40

before_deadline :
    (n : ℕ) (w : Bench)
    → WokeBefore w
    → past_budget (some 40) (bench.clock w) n ≡ false
    → WokeBefore (bench.sleep n w)
before_deadline n w h p = ground (arith, p)

bench-Kept : Kept bench (some 40) WokeBefore
bench-Kept = record { sends = λ w h. h; draws = λ n w h. h; sleeps = before_deadline }

waits_within_example : WokeBefore (request bench settings fresh).1.world
waits_within_example = waits_within bench settings WokeBefore bench-Kept fresh (omega arith)
