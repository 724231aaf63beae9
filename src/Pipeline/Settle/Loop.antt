-- ===== src/Pipeline/Settle/Loop.antt =====
-- The loop of `read_back_all`, over an environment that answers `clock()`, `sleep(s)`, the
-- adapter's `fetch` and its `bind_clock` (which does nothing where the adapter has none). Each
-- call of the environment takes the world that the call before it left.
use testing_hq.Prelude.{
  ℕ, zero, suc, ◌+◌, ◌-◌, Bool, true, false, Option, none, some, List, [], ◌∷◌, ◌++◌, leb, nat_beq,
  is_some, is_empty, keep_if, all, not, ◌&&◌, if◌then◌else◌,
}
use Prim.Native.Nat.{min}
use testing_hq.Prelude.Text.{Text, text_eq}
use testing_hq.Prelude.Dict.{Dict, lookup, contains, insert, keys}
use testing_hq.Pipeline.Readback.{
  Probe, Readback, FetchResult, Fetched, answered, budget_exhausted, raised,
}
use testing_hq.Pipeline.Settle.Signature.{signature}
use testing_hq.Pipeline.Settle.Watch.{
  Snapshot, snapshot_beq, Poll, Watch, unwatched, observe, passed,
}

pub record Environment : Type 1 where
  pub World : Type 0
  pub clock : World → ℕ × World
  pub sleep : ℕ → World → World
  pub fetch : Probe → World → Fetched × World
  pub bind_clock : Option ℕ → World → World

pub record Settings : Type 0 where
  pub quiet_window : ℕ
  pub max_wait : ℕ
  pub poll_interval : ℕ

-- The variables of one run that the lookups change.
pub record Answers : Type 0 where
  pub found : Dict Text (List Readback)
  pub partial : Dict Text Bool
  pub statuses : Dict Text (List (Option ℕ))
  pub lookups : ℕ
  pub exhausted : Bool
  pub detail : Option Text

abbrev pub items_of : Option (List Readback) → List Readback
items_of none = []
items_of (some rs) = rs

abbrev pub statuses_of : Option (List (Option ℕ)) → List (Option ℕ)
statuses_of none = []
statuses_of (some ss) = ss

-- by_tag.setdefault(probe.tag, probe): the first probe of a tag is the one asked.
add_probe : Probe → Dict Text Probe → Dict Text Probe
add_probe p d = if contains p.tag d then d else insert p.tag p d

unfoldable pub probes_by_tag : List Probe → Dict Text Probe → Dict Text Probe
unfolding add_probe
probes_by_tag [] d = d
probes_by_tag (p ∷ ps) d = probes_by_tag ps (add_probe p d)

-- {tag: value for tag in asked}
unfoldable pub for_each_tag : {V : Type 0} → V → Dict Text Probe → Dict Text V
for_each_tag v [] = []
for_each_tag v ((tag, p) ∷ d) = (tag, v) ∷ for_each_tag v d

unfoldable pub no_answers : Dict Text Probe → Answers
unfolding for_each_tag
no_answers asked = record {
  found = for_each_tag [] asked;
  partial = for_each_tag false asked;
  statuses = for_each_tag [] asked;
  lookups = 0;
  exhausted = false;
  detail = none;
}

unfoldable pub record_answer : Text → FetchResult → Answers → Answers
record_answer tag r a = record a {
  partial = insert tag r.partial a.partial;
  statuses = insert tag (statuses_of (lookup tag a.statuses) ++ r.status ∷ []) a.statuses;
  found = insert tag r.items a.found;
}

-- How a pass over the tags ends: with its answers, or by an exception of the adapter.
pub data Pass (W : Type 0) : Type 0 where
  done : Answers → W → Pass W
  failed : Text → Pass W

module _ (env : Environment) where
  open env use {World, clock, sleep, fetch, bind_clock}

  -- `n and clock() >= deadline`: the clock is read only if `n` is not 0.
  unfoldable pub past : ℕ → ℕ → World → Bool × World
  past zero deadline w = (false, w)
  past (suc n) deadline w = let (now, w') = clock w in (leb deadline now, w')

  -- `for tag in asked`
  unfoldable pub ask_all : ℕ → Dict Text Probe → Answers → World → Pass World
  unfolding past record_answer
  ask_all deadline [] a w = done a w
  ask_all deadline ((tag, probe) ∷ rest) a w =
      let (late, w1) = past a.lookups deadline w in
      let a1 = record a { lookups = a.lookups + 1 } in
      let (answer, w2) = fetch probe w1 in
      let carry_on = λ (r : FetchResult). ask_all deadline rest (record_answer tag r a1) w2 in
      if late then done (record a { exhausted = true }) w1 else elim answer [
        | answered r ↦ carry_on r
        | budget_exhausted why ↦ done (record a1 { exhausted = true; detail = some why }) w2
        | raised why ↦ failed why
      ]

pub record State : Type 0 where
  pub polls : ℕ
  pub answers : Answers
  pub watch : Watch

-- How one pass through the body of the `while` loop ends.
pub data Step (W : Type 0) : Type 0 where
  over : State → W → Step W
  cut_short : State → W → Step W
  broken : Text → Step W
  settled : Poll → State → W → Step W
  out_of_time : Poll → State → W → Step W
  again : Poll → State → W → Step W

-- tuple(_signature(found[tag]) for tag in asked)
unfoldable pub snapshot : (Readback → Text) → Dict Text Probe → Dict Text (List Readback) → Snapshot
snapshot repr [] found = []
snapshot repr ((tag, p) ∷ rest) found =
    signature repr (items_of (lookup tag found)) ∷ snapshot repr rest found

module _ (env : Environment) where
  open env use {World, clock, sleep, fetch, bind_clock}

  -- What follows a complete poll: settle, stop for lack of time, or sleep and go on.
  unfoldable pub after_poll : Settings → ℕ → Poll → State → World → Step World
  unfolding observe
  after_poll settings deadline p s w =
      let s' = record s { watch = observe settings.quiet_window p s.watch } in
      if s'.watch.stable
      then settled p s' w
      else if leb deadline p.finish
      then out_of_time p s' w
      else again p s' (sleep (min settings.poll_interval (deadline - p.finish)) w)

  -- What follows the pass over the tags of a poll that began at `start`.
  unfoldable pub after_pass :
      Settings → (Readback → Text) → ℕ → Dict Text Probe → ℕ → State → Pass World → Step World
  unfolding after_poll snapshot
  after_pass settings repr deadline asked start s (failed why) = broken why
  after_pass settings repr deadline asked start s (done a w) =
      let s' = record s { answers = a } in
      let (now, w') = clock w in
      let p : Poll = record { start = start; finish = now; seen = snapshot repr asked a.found } in
      if a.exhausted then cut_short s' w else after_poll settings deadline p s' w'

  -- The body of the `while` loop.
  unfoldable pub poll_once :
      Settings → (Readback → Text) → ℕ → Dict Text Probe → State → World → Step World
  unfolding after_pass ask_all past
  poll_once settings repr deadline asked s w =
      let (late, w1) = past env s.polls deadline w in
      let (start, w2) = clock w1 in
      if late
      then over s w1
      else after_pass settings repr deadline asked start (record s { polls = s.polls + 1 })
          (ask_all env deadline asked s.answers w2)

pub data Ended (W : Type 0) : Type 0 where
  ended : State → W → Ended W
  stopped : Text → Ended W
  out_of_fuel : Ended W

module _ (env : Environment) where
  open env use {World, clock, bind_clock}

  unfoldable pub poll_loop :
      ℕ → Settings → (Readback → Text) → ℕ → Dict Text Probe → State → World → Ended World
  poll_loop zero settings repr deadline asked s w = out_of_fuel
  poll_loop (suc fuel) settings repr deadline asked s w =
      elim (poll_once env settings repr deadline asked s w) [
        | over s' w' ↦ ended s' w'
        | cut_short s' w' ↦ ended s' w'
        | broken why ↦ stopped why
        | settled p s' w' ↦ ended s' w'
        | out_of_time p s' w' ↦ ended s' w'
        | again p s' w' ↦ poll_loop fuel settings repr deadline asked s' w'
      ]

pub data Cause : Type 0 where
  still_changing no_time : Cause

-- The cause that `_why_unsettled` names; its sentences are not modelled.
unfoldable pub why_unsettled : ℕ → Bool → Bool → Cause
why_unsettled complete last_two_identical changed =
    if leb 2 complete
    then (if last_two_identical
        then (if changed then still_changing else no_time)
        else still_changing)
    else no_time

pub record ReadbackOutcome : Type 0 where
  pub readbacks : Dict Text (List Readback)
  pub elapsed : ℕ
  pub polls : ℕ
  pub stable : Bool
  pub missing : List Text
  pub budget_exhausted : Bool
  pub partial : List Text
  pub all_404 : Bool
  pub detail : Option Text
  pub complete_polls : ℕ
  pub cause : Option Cause

pub data Returned (W : Type 0) : Type 0 where
  returned : ReadbackOutcome → W → Returned W
  bad_poll_interval : Returned W
  adapter_error : Text → Returned W
  fuel_exhausted : Returned W

-- `previous is not None and tuple(...) != previous`
abbrev pub differs : Option Snapshot → Snapshot → Bool
differs none seen = false
differs (some p) seen = not (snapshot_beq seen p)

is_404 : Option ℕ → Bool
is_404 none = false
is_404 (some s) = nat_beq s 404

-- seen_statuses
unfoldable pub seen_statuses : Dict Text Probe → Dict Text (List (Option ℕ)) → List (Option ℕ)
seen_statuses [] d = []
seen_statuses ((tag, p) ∷ rest) d = statuses_of (lookup tag d) ++ seen_statuses rest d

abbrev flag_of : Option Bool → Bool
flag_of none = false
flag_of (some b) = b

-- What is computed from the final state: the last word on `stable`, and the fields.
unfoldable pub outcome_of :
    Settings → (Readback → Text) → Dict Text Probe → ℕ → ℕ → State → ReadbackOutcome
unfolding snapshot seen_statuses is_404 why_unsettled
outcome_of settings repr asked started end s =
    let a = s.answers in
    let w = s.watch in
    let cut_short_changed = differs w.previous (snapshot repr asked a.found) in
    let quiet = not cut_short_changed && passed w.quiet_since settings.quiet_window end in
    let stable = (if w.stable then true else quiet) in
    let statuses = seen_statuses asked a.statuses in
    record {
      readbacks = a.found;
      elapsed = end - started;
      polls = s.polls;
      stable = stable;
      missing = keep_if (λ tag. is_empty (items_of (lookup tag a.found))) (keys asked);
      budget_exhausted = a.exhausted;
      partial = keep_if (λ tag. flag_of (lookup tag a.partial)) (keys asked);
      all_404 =
          not (is_empty statuses)
          && (all is_404 statuses
              && all (λ tag. not (is_empty (statuses_of (lookup tag a.statuses)))) (keys asked));
      detail = a.detail;
      complete_polls = w.complete;
      cause =
          (if stable
            then none
            else some (
                why_unsettled w.complete (is_some w.quiet_since)
                  (if w.changed then true else cut_short_changed)));
    }

abbrev pub initial : Dict Text Probe → State
initial asked = record { polls = 0; answers = no_answers asked; watch = unwatched }

module _ (env : Environment) where
  open env use {World, clock, bind_clock}

  -- `finally` unbinds the clock; the reading that ends the run comes after it.
  unfoldable pub finish :
      Settings → (Readback → Text) → Dict Text Probe → ℕ → Ended World → Returned World
  unfolding outcome_of
  finish settings repr asked started (ended s w) =
      let (end, w') = clock (bind_clock none w) in
      returned (outcome_of settings repr asked started end s) w'
  finish settings repr asked started (stopped why) = adapter_error why
  finish settings repr asked started out_of_fuel = fuel_exhausted

  -- `read_back_all`, with fuel for the `while` loop.
  unfoldable pub read_back_all :
      ℕ → Settings → (Readback → Text) → List Probe → World → Returned World
  unfolding finish poll_loop probes_by_tag no_answers
  read_back_all fuel settings repr probes w =
      let asked = probes_by_tag probes [] in
      let (started, w1) = clock w in
      let deadline = started + settings.max_wait in
      let w2 = bind_clock (some deadline) w1 in
      let result = poll_loop env fuel settings repr deadline asked (initial asked) w2 in
      if nat_beq settings.poll_interval 0
      then bad_poll_interval
      else finish settings repr asked started result
