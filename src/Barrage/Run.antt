-- ===== src/Barrage/Run.antt =====
-- The live run of testinghq/barrage/runner.py: the slots, what `_Run.send` does to one with the lock
-- held, before and behind the hook, and `finalise`. Times are readings of the clock, in whole ticks.
pub mod Steps
mod Told
mod Frozen
mod Examples
use testing_hq.Prelude.{
  ℕ, zero, suc, ◌++◌, ◌+◌, ◌-◌, Bool, true, false, not, ◌&&◌, Option, none, some, List, [], ◌∷◌,
  map, leb, ltb, if◌then◌else◌,
}
use testing_hq.Prelude.Sort.{sort_by}

pub data Outcome : Type 0 where
  completed abandoned dropped_backlog not_dispatched : Outcome

module _ (R : Type 0) where
  pub record Slot : Type 0 where
    pub index : ℕ
    pub target_rate : ℕ
    pub scheduled_at : ℕ
    pub waited : ℕ
    pub dispatched_at : Option ℕ
    pub completed_at : Option ℕ
    pub result : Option R
    pub outcome : Option Outcome

  pub record DispatchRecord : Type 0 where
    pub index : ℕ
    pub target_rate : ℕ
    pub scheduled_at : ℕ
    pub outcome : Outcome
    pub dispatched_at : Option ℕ
    pub completed_at : Option ℕ
    pub result : Option R
    pub waited : ℕ

  -- The mutable part of a `_Run`.
  pub record Live : Type 0 where
    pub closed : Bool
    pub slots : List Slot

-- The rest of a `_Run` that its steps read.
pub record Limits : Type 0 where
  pub deadline : ℕ
  pub max_queue : ℕ

abbrev pub outcome_or : Option Outcome → Option ℕ → Outcome
outcome_or (some o) dispatched = o
outcome_or none none = not_dispatched
outcome_or none (some t) = abandoned

abbrev pub if_completed : {A : Type 0} → Outcome → Option A → Option A
if_completed completed a = a
if_completed abandoned a = none
if_completed dropped_backlog a = none
if_completed not_dispatched a = none

module _ {R : Type 0} where
  -- `_Slot(...)`
  unfoldable pub make_slot : ℕ → ℕ → ℕ → ℕ → Slot R
  make_slot index rate scheduled_at waited = record {
    index = index;
    target_rate = rate;
    scheduled_at = scheduled_at;
    waited = waited;
    dispatched_at = none;
    completed_at = none;
    result = none;
    outcome = none;
  }

  unfoldable pub freeze : Slot R → DispatchRecord R
  freeze s =
      let outcome = outcome_or s.outcome s.dispatched_at in
      record {
        index = s.index;
        target_rate = s.target_rate;
        scheduled_at = s.scheduled_at;
        outcome = outcome;
        dispatched_at = s.dispatched_at;
        completed_at = if_completed outcome s.completed_at;
        result = if_completed outcome s.result;
        waited = s.waited;
      }

  -- DispatchRecord.queued
  unfoldable pub queued : DispatchRecord R → ℕ
  queued r = elim r.dispatched_at [ none ↦ 0 | some t ↦ t - r.scheduled_at ]

  -- The first part of `send`, of a run that is not closed, at time `now`.
  unfoldable pub dispatch : Limits → Bool → ℕ → Slot R → Slot R
  dispatch limits check_backlog now s =
      if leb limits.deadline now
      then record s { outcome = some not_dispatched }
      else if check_backlog && ltb (s.scheduled_at + limits.max_queue) now
      then record s { outcome = some dropped_backlog }
      else record s { dispatched_at = some now }

  -- The second part of `send`, of a run that is not closed.
  unfoldable pub complete : ℕ → R → Slot R → Slot R
  complete finished result s = record s {
    result = some result;
    completed_at = some finished;
    outcome = some completed;
  }

  abbrev pub by_index : DispatchRecord R → DispatchRecord R → Bool
  by_index a b = leb a.index b.index

  unfoldable pub finalise : Live R → List (DispatchRecord R) × Live R
  unfolding freeze
  finalise run = (sort_by by_index (map freeze run.slots), record run { closed = true })

-- Changing the element at a place.
unfoldable pub update_at : {A : Type 0} → ℕ → (A → A) → List A → List A
update_at k f [] = []
update_at zero f (x ∷ xs) = f x ∷ xs
update_at (suc k) f (x ∷ xs) = x ∷ update_at k f xs

-- The element at a place.
unfoldable pub place : {A : Type 0} → ℕ → List A → Option A
place k [] = none
place zero (x ∷ xs) = some x
place (suc k) (x ∷ xs) = place k xs

module _ {R : Type 0} where
  -- `run.slots.append(slot)`, of a run that is not closed.
  unfoldable pub add_slot : Slot R → Live R → Live R
  add_slot s run = if run.closed then run else record run { slots = run.slots ++ s ∷ [] }

  -- The two critical sections of `send`, for the slot at place `k`.
  unfoldable pub send_begin : Limits → Bool → ℕ → ℕ → Live R → Live R
  unfolding dispatch update_at
  send_begin limits check_backlog now k run =
      if run.closed
      then run
      else record run { slots = update_at k (dispatch limits check_backlog now) run.slots }

  unfoldable pub send_end : ℕ → R → ℕ → Live R → Live R
  unfolding complete update_at
  send_end finished result k run =
      if run.closed
      then run
      else record run { slots = update_at k (complete finished result) run.slots }
