-- ===== src/Barrage/Run/Steps.antt =====
-- A live run, step by step: threads take the lock in any order.
use testing_hq.Prelude.{
  ℕ, zero, suc, ◌≡◌, refl, Bool, true, false, not, ◌&&◌, ◌||◌, Option, none, some, List, [], ◌∷◌,
  arith, map, all, all-append, leb, ltb, is_some,
}
use testing_hq.Prelude.Sort.{sort_by, insert_by}
use testing_hq.Barrage.Run.{
  completed, abandoned, dropped_backlog, not_dispatched, Slot, DispatchRecord, Live, Limits,
  make_slot, freeze, dispatch, complete, by_index, finalise, update_at, place, add_slot, send_begin,
  send_end,
}

abbrev pub since : Option ℕ → ℕ → Bool
since none now = false
since (some t) now = leb t now

abbrev pub before_deadline : Limits → Option ℕ → Bool
before_deadline limits none = false
before_deadline limits (some t) = ltb t limits.deadline

abbrev pub ordered : Option ℕ → Option ℕ → Bool
ordered none c = false
ordered (some t) none = false
ordered (some t) (some c) = leb t c

abbrev pub never : {A : Type 0} → Option A → Bool
never o = not (is_some o)

module _ {R : Type 0} where
  -- A slot that no worker has taken, and one whose hook is running.
  abbrev pub is_fresh : Slot R → Bool
  is_fresh s = not (is_some s.dispatched_at) && not (is_some s.outcome)

  abbrev pub is_running : ℕ → Slot R → Bool
  is_running now s = since s.dispatched_at now && not (is_some s.outcome)

  -- A worker takes a slot once, and the hook returns once, after it was called.
  pub data Step (limits : Limits) (run : Live R) : Live R → Type 0 where
    adds :
        (index rate scheduled_at waited : ℕ)
        → Step limits run (add_slot (make_slot index rate scheduled_at waited) run)
    begins :
        (check_backlog : Bool) (now k : ℕ) (s : Slot R)
        → place k run.slots ≡ some s
        → is_fresh s ≡ true
        → Step limits run (send_begin limits check_backlog now k run)
    ends :
        (finished k : ℕ) (result : R) (s : Slot R)
        → place k run.slots ≡ some s
        → is_running finished s ≡ true
        → Step limits run (send_end finished result k run)
    closes : Step limits run (finalise run).1

  pub data Later (limits : Limits) (run : Live R) : Live R → Type 0 where
    here : Later limits run run
    next : {mid end : Live R} → Later limits run mid → Step limits mid end → Later limits run end

  -- What a slot holds, by its outcome.
  abbrev sound : Limits → Slot R → Bool
  sound limits s = elim s.outcome [
    | none ↦
        (never s.dispatched_at || before_deadline limits s.dispatched_at)
        && (never s.completed_at && never s.result)
    | some completed ↦
        before_deadline limits s.dispatched_at
        && (ordered s.dispatched_at s.completed_at && is_some s.result)
    | some abandoned ↦ false
    | some dropped_backlog ↦ never s.dispatched_at && (never s.completed_at && never s.result)
    | some not_dispatched ↦ never s.dispatched_at && (never s.completed_at && never s.result)
  ]

  -- What a record holds, by its outcome, whenever the hooks came back.
  abbrev pub coherent : Limits → DispatchRecord R → Bool
  coherent limits r = elim r.outcome [
    | completed ↦
        before_deadline limits r.dispatched_at
        && (ordered r.dispatched_at r.completed_at && is_some r.result)
    | abandoned ↦ before_deadline limits r.dispatched_at && (never r.completed_at && never r.result)
    | dropped_backlog ↦ never r.dispatched_at && (never r.completed_at && never r.result)
    | not_dispatched ↦ never r.dispatched_at && (never r.completed_at && never r.result)
  ]

  freeze-coherent :
      (limits : Limits) (s : Slot R) → sound limits s ≡ true → coherent limits (freeze s) ≡ true
  unfolding freeze
  freeze-coherent limits s h = ground arith

  dispatch-sound :
      (limits : Limits) (check : Bool) (now : ℕ) (s : Slot R)
      → is_fresh s ≡ true
      → sound limits s ≡ true
      → sound limits (dispatch limits check now s) ≡ true
  unfolding dispatch
  dispatch-sound limits check now s f h = ground arith

  complete-sound :
      (limits : Limits) (finished : ℕ) (result : R) (s : Slot R)
      → is_running finished s ≡ true
      → sound limits s ≡ true
      → sound limits (complete finished result s) ≡ true
  unfolding complete
  complete-sound limits finished result s f h = ground arith

  pub all-place :
      (p : Slot R → Bool) (k : ℕ) (slots : List (Slot R)) (s : Slot R)
      → place k slots ≡ some s
      → all p slots ≡ true
      → p s ≡ true
  unfolding place
  all-place p k [] s e h = cc
  all-place p zero (x ∷ xs) s e h = ground arith
  all-place p (suc k) (x ∷ xs) s e h = ground (arith, all-place p k xs s)

  pub all-update_at :
      (p : Slot R → Bool) (f : Slot R → Slot R) (k : ℕ) (slots : List (Slot R)) (s : Slot R)
      → place k slots ≡ some s
      → p (f s) ≡ true
      → all p slots ≡ true
      → all p (update_at k f slots) ≡ true
  unfolding place update_at
  all-update_at p f k [] s e q h = cc
  all-update_at p f zero (x ∷ xs) s e q h = ground arith
  all-update_at p f (suc k) (x ∷ xs) s e q h = ground (arith, all-update_at p f k xs s)

  abbrev Sound : Limits → Live R → Type 0
  Sound limits run = all (sound limits) run.slots ≡ true

  Step-Sound :
      {limits : Limits} {run after : Live R}
      → Step limits run after
      → Sound limits run
      → Sound limits after
  unfolding add_slot make_slot send_begin send_end finalise
  Step-Sound {limits} {run} (adds index rate at waited) h =
      ground (arith, all-append (sound limits) run.slots (make_slot index rate at waited ∷ []))
  Step-Sound {limits} {run} (begins check now k s e f) h = ground (
    arith,
    all-update_at (sound limits) (dispatch limits check now) k run.slots s e
        (dispatch-sound limits check now s f (all-place (sound limits) k run.slots s e h)) h,
  )
  Step-Sound {limits} {run} (ends finished k result s e f) h = ground (
    arith,
    all-update_at (sound limits) (complete finished result) k run.slots s e
        (complete-sound limits finished result s f (all-place (sound limits) k run.slots s e h)) h,
  )
  Step-Sound closes h = h

  Later-Sound :
      {limits : Limits} {run after : Live R}
      → Later limits run after
      → Sound limits run
      → Sound limits after
  Later-Sound here h = h
  Later-Sound (next l s) h = Step-Sound s (Later-Sound l h)

  abbrev pub begun : Live R
  begun = record { closed = false; slots = [] }

  all-insert_by :
      (p : DispatchRecord R → Bool) (r : DispatchRecord R) (rs : List (DispatchRecord R))
      → all p (insert_by by_index r rs) ≡ (p r && all p rs)
  unfolding insert_by
  all-insert_by p r [] = refl
  all-insert_by p r (s ∷ rs) = ground (arith, all-insert_by p r rs)

  pub all-sort_by :
      (p : DispatchRecord R → Bool) (rs : List (DispatchRecord R))
      → all p (sort_by by_index rs) ≡ all p rs
  unfolding sort_by
  all-sort_by p [] = refl
  all-sort_by p (r ∷ rs) = ground (arith, all-insert_by p r (sort_by by_index rs), all-sort_by p rs)

  all-freeze :
      (limits : Limits) (slots : List (Slot R))
      → all (sound limits) slots ≡ true
      → all (coherent limits) (map freeze slots) ≡ true
  all-freeze limits [] h = refl
  all-freeze limits (s ∷ slots) h =
      ground (arith, freeze-coherent limits s, all-freeze limits slots)

  -- The records that finalise returns hold what goes with their outcome.
  pub records_cohere :
      {limits : Limits} {run : Live R}
      → Later limits begun run
      → all (coherent limits) (finalise run).0 ≡ true
  unfolding finalise
  records_cohere {limits} {run} l = ground (
    arith,
    all-sort_by (coherent limits) (map freeze run.slots),
    all-freeze limits run.slots (Later-Sound l refl),
  )
