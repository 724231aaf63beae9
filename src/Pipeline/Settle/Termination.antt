-- ===== src/Pipeline/Settle/Termination.antt =====
-- The polling ends: a clock that does not go back and a sleep that lasts leave at most one round
-- for each tick of --max-wait.
use testing_hq.Prelude.{
  ℕ, zero, suc, ◌+◌, ◌-◌, ◌≤◌, ◌<◌, ◌≡◌, ◌≢◌, refl, subst, Bool, true, false, Option, some, List,
  [], ◌∷◌, arith, nat_beq, if◌then◌else◌,
}
use Prim.Native.Nat.{min}
use testing_hq.Prelude.Text.{Text}
use testing_hq.Prelude.Dict.{Dict}
use testing_hq.Pipeline.Readback.{
  Probe, Readback, FetchResult, Fetched, answered, budget_exhausted, raised,
}
use testing_hq.Pipeline.Settle.Watch.{Poll}
use testing_hq.Pipeline.Settle.Loop.{
  Environment, Settings, Answers, State, Pass, done, failed, Step, over, cut_short, broken, settled,
  out_of_time, again, Ended, ended, stopped, out_of_fuel, past, record_answer, ask_all, after_poll,
  after_pass, poll_once, poll_loop, Returned, bad_poll_interval, fuel_exhausted, finish,
  probes_by_tag, initial, read_back_all,
}

-- What is assumed of the environment: time passes and never goes back, a clock reads a time
-- between the moments before and after it, and a sleep lasts at least as long as it was asked to.
module _ (env : Environment) where
  open env use {World, clock, sleep, fetch, bind_clock}

  pub record IsTimely : Type 0 where
    pub time : World → ℕ
    pub clock_after : (w : World) → time w ≤ (clock w).0
    pub clock_before : (w : World) → (clock w).0 ≤ time (clock w).1
    pub sleep_lasts : (d : ℕ) (w : World) → time w + d ≤ time (sleep d w)
    pub fetch_forward : (p : Probe) (w : World) → time w ≤ time (fetch p w).1
    pub bind_forward : (d : Option ℕ) (w : World) → time w ≤ time (bind_clock d w)

module _ (env : Environment) (laws : IsTimely env) where
  open env use {World, clock, sleep, fetch, bind_clock}
  open laws use {time, clock_after, clock_before, sleep_lasts, fetch_forward, bind_forward}

  past_forward : (n deadline : ℕ) (w : World) → time w ≤ time (past env n deadline w).1
  unfolding past
  past_forward zero deadline w = omega arith
  past_forward (suc n) deadline w = omega (arith, clock_after w, clock_before w)

  -- A pass that ends has moved time forward.
  abbrev Forward : ℕ → Pass World → Type 0
  Forward t (done a w) = t ≤ time w
  Forward t (failed why) = Unit

  Forward-trans : (t u : ℕ) (r : Pass World) → t ≤ u → Forward u r → Forward t r
  Forward-trans t u (done a w) h k = omega arith
  Forward-trans t u (failed why) h k = tt

  answer_Forward :
      (t : ℕ) (late : Bool) (w1 : World) (a a1 : Answers) (x : Fetched × World)
      (go_on : FetchResult → Pass World)
      → t ≤ time w1
      → time w1 ≤ time x.1
      → ((r : FetchResult) → Forward (time x.1) (go_on r))
      → Forward t (
          if late then done (record a { exhausted = true }) w1 else elim x.0 [
            | answered r ↦ go_on r
            | budget_exhausted why ↦ done (record a1 { exhausted = true; detail = some why }) x.1
            | raised why ↦ failed why
          ])
  answer_Forward t true w1 a a1 x go_on h k rest = h
  answer_Forward t false w1 a a1 (answered r, w2) go_on h k rest =
      Forward-trans t (time w2) (go_on r) (omega arith) (rest r)
  answer_Forward t false w1 a a1 (budget_exhausted why, w2) go_on h k rest = omega arith
  answer_Forward t false w1 a a1 (raised why, w2) go_on h k rest = tt

  ask_all-Forward :
      (deadline : ℕ) (asked : Dict Text Probe) (a : Answers) (w : World)
      → Forward (time w) (ask_all env deadline asked a w)
  unfolding ask_all
  ask_all-Forward deadline [] a w = omega arith
  ask_all-Forward deadline ((tag, p) ∷ rest) a w =
      let (late, w1) = past env a.lookups deadline w in
      let a1 = record a { lookups = a.lookups + 1 } in
      let moved = past_forward a.lookups deadline w in
      answer_Forward (time w) late w1 a a1 (fetch p w1)
        (λ r. ask_all env deadline rest (record_answer tag r a1) (fetch p w1).1) moved
        (fetch_forward p w1)
        (λ r. ask_all-Forward deadline rest (record_answer tag r a1) (fetch p w1).1)

  -- What `again` promises: the poll ended before the deadline and time went on since it began.
  abbrev Progress : ℕ → ℕ → Step World → Type 0
  Progress t deadline (again p s w) = (t < deadline) × (t < time w)
  Progress t deadline _ = Unit

  Progress-if :
      (t deadline : ℕ) (b : Bool) (x y : Step World)
      → Progress t deadline x
      → Progress t deadline y
      → Progress t deadline (if b then x else y)
  Progress-if t deadline true x y hx hy = hx
  Progress-if t deadline false x y hx hy = hy

  after_poll-Progress :
      (settings : Settings) (deadline t : ℕ) (p : Poll) (s : State) (w : World)
      → settings.poll_interval ≢ 0
      → t ≤ p.finish
      → t ≤ time w
      → Progress t deadline (after_poll env settings deadline p s w)
  unfolding after_poll
  after_poll-Progress settings deadline t p s w h tp tw =
      let d = min settings.poll_interval (deadline - p.finish) in ground (arith, sleep_lasts d w)

  after_pass-Progress :
      (settings : Settings) (repr : Readback → Text) (deadline : ℕ) (asked : Dict Text Probe)
      (start t : ℕ) (s : State) (r : Pass World)
      → settings.poll_interval ≢ 0
      → Forward t r
      → Progress t deadline (after_pass env settings repr deadline asked start s r)
  unfolding after_pass
  after_pass-Progress settings repr deadline asked start t s (failed why) h f = tt
  after_pass-Progress settings repr deadline asked start t s (done a w) h f =
      Progress-if t deadline a.exhausted _ _ tt (
        after_poll-Progress settings deadline t _ (record s { answers = a }) (clock w).1 h
          (omega (arith, clock_after w)) (omega (arith, clock_after w, clock_before w)))

  Progress-earlier :
      (t u deadline : ℕ) (x : Step World) → t ≤ u → Progress u deadline x → Progress t deadline x
  Progress-earlier t u deadline (again p s w) h q = omega arith
  Progress-earlier t u deadline (over s w) h q = tt
  Progress-earlier t u deadline (cut_short s w) h q = tt
  Progress-earlier t u deadline (broken why) h q = tt
  Progress-earlier t u deadline (settled p s w) h q = tt
  Progress-earlier t u deadline (out_of_time p s w) h q = tt

  poll_once-Progress :
      (settings : Settings) (repr : Readback → Text) (deadline : ℕ) (asked : Dict Text Probe)
      (s : State) (w : World)
      → settings.poll_interval ≢ 0
      → Progress (time w) deadline (poll_once env settings repr deadline asked s w)
  unfolding poll_once
  poll_once-Progress settings repr deadline asked s w h =
      let (late, w1) = past env s.polls deadline w in
      let (start, w2) = clock w1 in
      let first = past_forward s.polls deadline w in
      let next =
        after_pass-Progress settings repr deadline asked start (time w2)
          (record s { polls = s.polls + 1 }) (ask_all env deadline asked s.answers w2) h
          (ask_all-Forward deadline asked s.answers w2) in
      let whole =
        Progress-earlier (time w) (time w2) deadline _
          (omega (arith, first, clock_after w1, clock_before w1)) next in
      Progress-if (time w) deadline late _ _ tt whole

  Progress-at :
      (t deadline : ℕ) (x : Step World) (p : Poll) (s : State) (w : World)
      → Progress t deadline x
      → x ≡ again p s w
      → (t < deadline) × (t < time w)
  Progress-at t deadline x p s w q e = subst (Progress t deadline) e q

  -- A loop whose next rounds end has an end too.
  step_ends :
      (x : Step World) (rest : State → World → Ended World)
      → ((p : Poll) (s : State) (w : World) → x ≡ again p s w → rest s w ≢ out_of_fuel)
      → ◌≢◌ {A = Ended World}
          (elim x [
            | over s w ↦ ended s w
            | cut_short s w ↦ ended s w
            | broken why ↦ stopped why
            | settled p s w ↦ ended s w
            | out_of_time p s w ↦ ended s w
            | again p s w ↦ rest s w
          ])
          out_of_fuel
  step_ends (over s w) rest h = λ e. cc
  step_ends (cut_short s w) rest h = λ e. cc
  step_ends (broken why) rest h = λ e. cc
  step_ends (settled p s w) rest h = λ e. cc
  step_ends (out_of_time p s w) rest h = λ e. cc
  step_ends (again p s w) rest h = h p s w refl

  poll_loop_ends :
      (fuel : ℕ) (settings : Settings) (repr : Readback → Text) (deadline : ℕ)
      (asked : Dict Text Probe) (s : State) (w : World)
      → settings.poll_interval ≢ 0
      → deadline - time w < fuel
      → poll_loop env fuel settings repr deadline asked s w ≢ out_of_fuel
  unfolding poll_loop
  poll_loop_ends zero settings repr deadline asked s w h bound = absurd (omega arith)
  poll_loop_ends (suc fuel) settings repr deadline asked s w h bound =
      step_ends (poll_once env settings repr deadline asked s w)
        (poll_loop env fuel settings repr deadline asked)
        (λ p s' w' e.
          let went =
            Progress-at (time w) deadline _ p s' w'
              (poll_once-Progress settings repr deadline asked s w h) e in
          poll_loop_ends fuel settings repr deadline asked s' w' h (omega (arith, went)))

  finish_ends :
      (settings : Settings) (repr : Readback → Text) (asked : Dict Text Probe) (started : ℕ)
      (x : Ended World)
      → x ≢ out_of_fuel
      → finish env settings repr asked started x ≢ fuel_exhausted
  unfolding finish
  finish_ends settings repr asked started (ended s w) h = λ e. cc
  finish_ends settings repr asked started (stopped why) h = λ e. cc
  finish_ends settings repr asked started out_of_fuel h = absurd (h refl)

  if_ends :
      (b : Bool) (x y : Returned World)
      → x ≢ fuel_exhausted
      → (b ≡ false → y ≢ fuel_exhausted)
      → (if b then x else y) ≢ fuel_exhausted
  if_ends true x y hx hy = hx
  if_ends false x y hx hy = hy refl

  -- The read ends: with more fuel than --max-wait has ticks it never runs out of fuel, whatever
  -- the store answers, provided that time passes as a clock and a sleep promise.
  pub read_back_all_ends :
      (fuel : ℕ) (settings : Settings) (repr : Readback → Text) (probes : List Probe) (w : World)
      → settings.max_wait < fuel
      → read_back_all env fuel settings repr probes w ≢ fuel_exhausted
  unfolding read_back_all
  read_back_all_ends fuel settings repr probes w enough =
      let (started, w1) = clock w in
      let deadline = started + settings.max_wait in
      let w2 = bind_clock (some deadline) w1 in
      let asked = probes_by_tag probes [] in
      if_ends (nat_beq settings.poll_interval 0) bad_poll_interval _ (λ e. cc)
        (λ positive. finish_ends settings repr asked started _ (
          poll_loop_ends fuel settings repr deadline asked (initial asked) w2 (ground arith)
            (omega (arith, clock_before w, bind_forward (some deadline) w1))))
