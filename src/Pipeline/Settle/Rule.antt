-- ===== src/Pipeline/Settle/Rule.antt =====
-- SETTLING_RULE: when `read_back_all` calls a store settled, and what it blames if it does not.
use testing_hq.Prelude.{
  ℕ, ◌+◌, ◌≤◌, ◌≡◌, ◌↔◌, subst, Bool, true, false, Option, none, some, List, [], arith, length, ltb,
  nat_beq, is_some, if◌then◌else◌, Bool-cases, inl, inr,
}
use testing_hq.Prelude.Text.{Text}
use testing_hq.Prelude.Dict.{Dict}
use testing_hq.Pipeline.Readback.{Probe, Readback}
use testing_hq.Pipeline.Settle.Watch.{Snapshot, Poll, passed}
use testing_hq.Pipeline.Settle.Loop.{
  Environment, Settings, State, Ended, ended, stopped, out_of_fuel, snapshot, differs, outcome_of,
  why_unsettled, Cause, still_changing, no_time, ReadbackOutcome, Returned, returned,
  bad_poll_interval, adapter_error, fuel_exhausted, finish, probes_by_tag, read_back_all,
}
use testing_hq.Pipeline.Settle.Termination.{IsTimely}
use testing_hq.Pipeline.Settle.History.{held_since, any_change, newest_seen, snapshot_beq_iff}
use testing_hq.Pipeline.Settle.Trace.{
  Finished, Final, Finished-Final, FinishedAs, loop-FinishedAs, passed_later, begin,
}

-- What is to blame when the store did not settle: too few polls to compare, or a state that held
-- too short, without and with a sign of change.
abbrev pub to_blame : List Poll → Bool → Cause
to_blame h cut_short_changed =
    if ltb (length h) 2
    then no_time
    else if is_some (held_since h)
    then (if (if any_change h then true else cut_short_changed) then still_changing else no_time)
    else still_changing

module _ (settings : Settings) (repr : Readback → Text) (asked : Dict Text Probe) (h : List Poll)
    (end : ℕ) where
  -- What a lookup after the last complete poll saw, against that poll.
  abbrev pub cut_short_change : ReadbackOutcome → Bool
  cut_short_change o = differs (newest_seen h) (snapshot repr asked o.readbacks)

  pub record Settles (o : ReadbackOutcome) : Type 0 where
    pub complete_eq : o.complete_polls ≡ length h
    pub stable_iff :
        (o.stable ≡ true)
        ↔ ((passed (held_since h) settings.quiet_window end ≡ true) × (cut_short_change o ≡ false))
    pub cause_eq : o.cause ≡ (if o.stable then none else some (to_blame h (cut_short_change o)))

differs_from_itself :
    (v : Option Snapshot) (seen : Snapshot) → v ≡ some seen → differs v seen ≡ false
differs_from_itself none seen e = cc
differs_from_itself (some p) seen e = ground (arith, snapshot_beq_iff seen p)

module _ (env : Environment) (laws : IsTimely env) (settings : Settings)
    (repr : Readback → Text) where
  open env use {World, clock, bind_clock}
  open laws use {time, clock_after, bind_forward}

  outcome-Settles :
      (deadline started : ℕ) (asked : Dict Text Probe) (start : World) (h : List Poll) (s : State)
      (w : World) (end : ℕ)
      → time w ≤ end
      → Final env laws settings repr deadline asked start h s w
      → Settles settings repr asked h end (outcome_of settings repr asked started end s)
  unfolding outcome_of why_unsettled
  outcome-Settles deadline started asked start h s w end late f =
      let seen = snapshot repr asked s.answers.found in
      let later = passed_later (held_since h) settings.quiet_window (time w) end late in
      let same = differs_from_itself (newest_seen h) seen in
      elim (Bool-cases s.watch.stable) [
        | inl e ↦
            let (held, saw) = f.if_stable e in
            record {
              complete_eq = f.complete_eq;
              stable_iff = ground (arith, e, later held, same saw);
              cause_eq = ground (arith, e);
            }
        | inr e ↦ record {
          complete_eq = f.complete_eq;
          stable_iff = ground (arith, e, f.if_open e, f.quiet_eq);
          cause_eq = ground (arith, e, f.if_open e, f.quiet_eq, f.changed_eq, f.complete_eq);
        }
      ]

  -- The polls behind an outcome, and what they say of it.
  pub record Explained (deadline : ℕ) (asked : Dict Text Probe) (start : World)
      (o : ReadbackOutcome) : Type 0 where
    pub polls : List Poll
    pub final_state : State
    pub final_world : World
    pub finished :
        Finished env laws settings repr deadline asked start polls final_state final_world
    pub settles : Settles settings repr asked polls ((clock (bind_clock none final_world)).0) o

  abbrev Explains : ℕ → Dict Text Probe → World → Returned World → Type 0
  Explains deadline asked start (returned o w) = Explained deadline asked start o
  Explains deadline asked start bad_poll_interval = Unit
  Explains deadline asked start (adapter_error why) = Unit
  Explains deadline asked start fuel_exhausted = Unit

  finish-Explains :
      (deadline started : ℕ) (asked : Dict Text Probe) (start : World) (r : Ended World)
      → FinishedAs env laws settings repr deadline asked start r
      → Explains deadline asked start (finish env settings repr asked started r)
  unfolding finish
  finish-Explains deadline started asked start (ended s w) (h, f) = record {
    polls = h;
    final_state = s;
    final_world = w;
    finished = f;
    settles =
        outcome-Settles deadline started asked start h s w (clock (bind_clock none w)).0
          (omega (arith, bind_forward none w, clock_after (bind_clock none w)))
          (Finished-Final env laws settings repr deadline asked start f);
  }
  finish-Explains deadline started asked start (stopped why) f = tt
  finish-Explains deadline started asked start out_of_fuel f = tt

  if-Explains :
      (deadline : ℕ) (asked : Dict Text Probe) (start : World) (b : Bool) (r : Returned World)
      → Explains deadline asked start r
      → Explains deadline asked start (if b then bad_poll_interval else r)
  if-Explains deadline asked start true r e = tt
  if-Explains deadline asked start false r e = e

  -- The world in which the first poll begins: the clock was read, and the deadline given.
  abbrev pub first_world : World → World
  first_world w = bind_clock (some ((clock w).0 + settings.max_wait)) (clock w).1

  read_back_all-Explains :
      (fuel : ℕ) (probes : List Probe) (w : World)
      → Explains
          ((clock w).0 + settings.max_wait)
          (probes_by_tag probes [])
          (first_world w)
          (read_back_all env fuel settings repr probes w)
  unfolding read_back_all
  read_back_all-Explains fuel probes w =
      let deadline = (clock w).0 + settings.max_wait in
      let asked = probes_by_tag probes [] in
      let start = first_world w in
      if-Explains deadline asked start (nat_beq settings.poll_interval 0) _ (
        finish-Explains deadline (clock w).0 asked start _
          (loop-FinishedAs env laws settings repr deadline asked start fuel begin))

  -- Where the environment is timely and `read_back_all` returns an outcome, a list of complete
  -- polls leads to it, from the world of the call through the states of the loop to one in which it
  -- stops. The outcome counts
  -- these polls, it is stable if and only if the newest run of identical polls (two at least) began
  -- at least the quiet window before the end and no lookup after the newest poll saw a change, and
  -- where it is not stable its cause is the one that the polls give.
  pub settling_rule :
      (fuel : ℕ) (probes : List Probe) (w w' : World) (o : ReadbackOutcome)
      → read_back_all env fuel settings repr probes w ≡ returned o w'
      → Explained ((clock w).0 + settings.max_wait) (probes_by_tag probes []) (first_world w) o
  settling_rule fuel probes w w' o e =
      subst (Explains ((clock w).0 + settings.max_wait) (probes_by_tag probes []) (first_world w)) e
        (read_back_all-Explains fuel probes w)
