-- ===== src/Pipeline/Settle/Trace.antt =====
-- The states that the loop of `read_back_all` goes through, with the complete polls behind them.
use testing_hq.Prelude.{
  ℕ, zero, suc, ◌+◌, ◌≤◌, ◌≡◌, refl, sym, subst, ap, ◌∙◌, Bool, true, false, Option, none, some,
  List, [], ◌∷◌, arith, length, leb, if◌then◌else◌,
}
use testing_hq.Prelude.Text.{Text}
use testing_hq.Prelude.Dict.{Dict}
use testing_hq.Pipeline.Readback.{Probe, Readback}
use testing_hq.Pipeline.Settle.Watch.{Poll, Watch, passed, observe}
use testing_hq.Pipeline.Settle.Loop.{
  Environment, Settings, State, Pass, done, failed, Step, over, cut_short, broken, settled,
  out_of_time, again, Ended, ended, stopped, out_of_fuel, snapshot, past, after_poll, after_pass,
  poll_once, poll_loop, initial,
}
use testing_hq.Pipeline.Settle.Termination.{IsTimely}
use testing_hq.Pipeline.Settle.History.{
  held_since, any_change, newest_seen, Tracks, unwatched-Tracks, Observed, observe-Observed,
}

pub passed_later :
    (since : Option ℕ) (window now later : ℕ)
    → now ≤ later
    → passed since window now ≡ true
    → passed since window later ≡ true
passed_later none window now later h p = p
passed_later (some t) window now later h p = ground arith

module _ (env : Environment) (laws : IsTimely env) (settings : Settings) (repr : Readback → Text)
    (deadline : ℕ) (asked : Dict Text Probe) (start : env.World) where
  open env use {World, clock, sleep, fetch, bind_clock}
  open laws use {time, clock_after, clock_before, bind_forward}

  abbrev pub step : State → World → Step World
  step = poll_once env settings repr deadline asked

  -- The states at the head of the loop, from its first world on, with the complete polls so far, newest first.
  pub data Reached : List Poll → State → World → Type 0 where
    begin : Reached [] (initial asked) start
    next :
        {h : List Poll} {s : State} {w : World} (p : Poll) (s' : State) (w' : World)
        → Reached h s w
        → step s w ≡ again p s' w'
        → Reached (p ∷ h) s' w'

  -- The states in which the loop stops.
  pub data Finished : List Poll → State → World → Type 0 where
    budget_over :
        {h : List Poll} {s : State} {w : World} (s' : State) (w' : World)
        → Reached h s w
        → step s w ≡ over s' w'
        → Finished h s' w'
    budget_cut :
        {h : List Poll} {s : State} {w : World} (s' : State) (w' : World)
        → Reached h s w
        → step s w ≡ cut_short s' w'
        → Finished h s' w'
    held_still :
        {h : List Poll} {s : State} {w : World} (p : Poll) (s' : State) (w' : World)
        → Reached h s w
        → step s w ≡ settled p s' w'
        → Finished (p ∷ h) s' w'
    time_up :
        {h : List Poll} {s : State} {w : World} (p : Poll) (s' : State) (w' : World)
        → Reached h s w
        → step s w ≡ out_of_time p s' w'
        → Finished (p ∷ h) s' w'

  -- What a poll leaves behind.
  abbrev Polled : Watch → Poll → State → World → Type 0
  Polled v p s w =
      (s.watch ≡ observe settings.quiet_window p v)
      × (p.seen ≡ snapshot repr asked s.answers.found)
      × (p.finish ≤ time w)

  abbrev Facts : Watch → Step World → Type 0
  Facts v (over s w) = s.watch ≡ v
  Facts v (cut_short s w) = s.watch ≡ v
  Facts v (broken why) = Unit
  Facts v (settled p s w) = Polled v p s w × (s.watch.stable ≡ true)
  Facts v (out_of_time p s w) = Polled v p s w × (s.watch.stable ≡ false)
  Facts v (again p s w) = (s.watch ≡ observe settings.quiet_window p v) × (s.watch.stable ≡ false)

  Facts-if :
      (v : Watch) (b : Bool) (x y : Step World)
      → (b ≡ true → Facts v x)
      → (b ≡ false → Facts v y)
      → Facts v (if b then x else y)
  Facts-if v true x y hx hy = hx refl
  Facts-if v false x y hx hy = hy refl

  after_poll-Facts :
      (p : Poll) (s : State) (w : World)
      → p.seen ≡ snapshot repr asked s.answers.found
      → p.finish ≤ time w
      → Facts s.watch (after_poll env settings deadline p s w)
  unfolding after_poll
  after_poll-Facts p s w saw late =
      Facts-if s.watch (observe settings.quiet_window p s.watch).stable _ _
        (λ e. ((refl, saw, late), e))
        (λ e.
          Facts-if s.watch (leb deadline p.finish) _ _ (λ d. ((refl, saw, late), e))
            (λ d. (refl, e)))

  after_pass-Facts :
      (started : ℕ) (s : State) (r : Pass World)
      → Facts s.watch (after_pass env settings repr deadline asked started s r)
  unfolding after_pass
  after_pass-Facts started s (failed why) = tt
  after_pass-Facts started s (done a w) =
      Facts-if s.watch a.exhausted _ _ (λ e. refl)
        (λ e. after_poll-Facts _ (record s { answers = a }) (clock w).1 refl (clock_before w))

  step-Facts : (s : State) (w : World) → Facts s.watch (step s w)
  unfolding poll_once
  step-Facts s w =
      Facts-if s.watch (past env s.polls deadline w).0 _ _ (λ e. refl)
        (λ e. after_pass-Facts _ (record s { polls = s.polls + 1 }) _)

  Facts-at : (s : State) (w : World) (x : Step World) → step s w ≡ x → Facts s.watch x
  Facts-at s w x e = subst (Facts s.watch) e (step-Facts s w)

  Reached-Tracks : {h : List Poll} {s : State} {w : World} → Reached h s w → Tracks h s.watch
  Reached-Tracks begin = unwatched-Tracks
  Reached-Tracks (next {h = h} {s = s} {w = w} p s' w' r e) =
      let (same, unsettled) = Facts-at s w (again p s' w') e in
      let o = observe-Observed settings.quiet_window p h s.watch (Reached-Tracks r) in
      subst (Tracks (p ∷ h)) (sym same)
        (o.go_on (ap (λ (v : Watch). v.stable) (sym same) ∙ unsettled))

  -- The final state against the complete polls.
  pub record Final (h : List Poll) (s : State) (w : World) : Type 0 where
    pub quiet_eq : s.watch.quiet_since ≡ held_since h
    pub changed_eq : s.watch.changed ≡ any_change h
    pub complete_eq : s.watch.complete ≡ length h
    pub if_open : s.watch.stable ≡ false → s.watch.previous ≡ newest_seen h
    pub if_stable :
        s.watch.stable ≡ true
        → (passed (held_since h) settings.quiet_window (time w) ≡ true)
          × (newest_seen h ≡ some (snapshot repr asked s.answers.found))

  Tracks-Final : (h : List Poll) (s : State) (w : World) → Tracks h s.watch → Final h s w
  Tracks-Final h s w t = record {
    quiet_eq = t.quiet_eq;
    changed_eq = t.changed_eq;
    complete_eq = t.complete_eq;
    if_open = λ e. t.previous_eq;
    if_stable = λ e. cc (t.open_eq);
  }

  Polled-Final :
      (h : List Poll) (v : Watch) (p : Poll) (s : State) (w : World)
      → Tracks h v
      → Polled v p s w
      → Final (p ∷ h) s w
  Polled-Final h v p s w t (same, saw, late) =
      let o =
        subst (Observed settings.quiet_window p h) (sym same)
          (observe-Observed settings.quiet_window p h v t) in
      record {
        quiet_eq = o.quiet_eq;
        changed_eq = o.changed_eq;
        complete_eq = o.complete_eq;
        if_open = λ e. (o.go_on e).previous_eq;
        if_stable = λ e. (
          passed_later (held_since (p ∷ h)) settings.quiet_window p.finish (time w) late
              (sym o.stable_eq ∙ e),
          ap some saw,
        );
      }

  pub Finished-Final : {h : List Poll} {s : State} {w : World} → Finished h s w → Final h s w
  Finished-Final (budget_over {h = h} {s = s} {w = w} s' w' r e) =
      Tracks-Final h s' w' (subst (Tracks h) (sym (Facts-at s w _ e)) (Reached-Tracks r))
  Finished-Final (budget_cut {h = h} {s = s} {w = w} s' w' r e) =
      Tracks-Final h s' w' (subst (Tracks h) (sym (Facts-at s w _ e)) (Reached-Tracks r))
  Finished-Final (held_still {h = h} {s = s} {w = w} p s' w' r e) =
      Polled-Final h s.watch p s' w' (Reached-Tracks r) (Facts-at s w _ e).0
  Finished-Final (time_up {h = h} {s = s} {w = w} p s' w' r e) =
      Polled-Final h s.watch p s' w' (Reached-Tracks r) (Facts-at s w _ e).0

  abbrev pub FinishedAs : Ended World → Type 0
  FinishedAs (ended s w) = (h : List Poll) × Finished h s w
  FinishedAs (stopped why) = Unit
  FinishedAs out_of_fuel = Unit

  step-FinishedAs :
      {h : List Poll} {s : State} {w : World} (x : Step World) (rest : State → World → Ended World)
      → Reached h s w
      → step s w ≡ x
      → ((p : Poll) (s' : State) (w' : World) → Reached (p ∷ h) s' w' → FinishedAs (rest s' w'))
      → FinishedAs (elim x [
        | over s' w' ↦ ended s' w'
        | cut_short s' w' ↦ ended s' w'
        | broken why ↦ stopped why
        | settled p s' w' ↦ ended s' w'
        | out_of_time p s' w' ↦ ended s' w'
        | again p s' w' ↦ rest s' w'
      ])
  step-FinishedAs (over s' w') rest r e go_on = (_, budget_over s' w' r e)
  step-FinishedAs (cut_short s' w') rest r e go_on = (_, budget_cut s' w' r e)
  step-FinishedAs (broken why) rest r e go_on = tt
  step-FinishedAs (settled p s' w') rest r e go_on = (_, held_still p s' w' r e)
  step-FinishedAs (out_of_time p s' w') rest r e go_on = (_, time_up p s' w' r e)
  step-FinishedAs (again p s' w') rest r e go_on = go_on p s' w' (next p s' w' r e)

  -- A loop that ends does so in a finished state.
  pub loop-FinishedAs :
      (fuel : ℕ) {h : List Poll} {s : State} {w : World}
      → Reached h s w
      → FinishedAs (poll_loop env fuel settings repr deadline asked s w)
  unfolding poll_loop
  loop-FinishedAs zero r = tt
  loop-FinishedAs (suc fuel) {s = s} {w = w} r =
      step-FinishedAs (step s w) (poll_loop env fuel settings repr deadline asked) r refl
        (λ p s' w' r'. loop-FinishedAs fuel r')
