-- ===== src/Barrage/Run/Told.antt =====
-- What a record tells of its request, where the hooks came back in time.
use testing_hq.Prelude.{
  ℕ, ◌≡◌, refl, Bool, true, false, ◌&&◌, Option, none, some, List, [], ◌∷◌, arith, ◌∙◌, map, all,
  all-append, ltb, is_some,
}
use testing_hq.Barrage.Run.{
  completed, abandoned, dropped_backlog, not_dispatched, Slot, DispatchRecord, Live, Limits,
  make_slot, freeze, dispatch, complete, finalise, add_slot, send_begin, send_end,
}
use testing_hq.Barrage.Run.Steps.{
  before_deadline, ordered, never, Step, adds, begins, ends, closes, Later, here, next, begun,
  coherent, records_cohere, all-place, all-update_at, all-sort_by,
}

abbrev is_before : ℕ → Option ℕ → Bool
is_before end none = false
is_before end (some t) = ltb t end

-- No time of return, or one before `end`.
abbrev early : ℕ → Option ℕ → Bool
early end none = true
early end (some t) = ltb t end

module _ {R : Type 0} where
  -- Whether every hook that came back did so before `end`.
  abbrev ended_before : ℕ → {limits : Limits} {run after : Live R} → Step limits run after → Bool
  ended_before end (adds index rate at waited) = true
  ended_before end (begins check now k s e f) = true
  ended_before end (ends finished k result s e f) = ltb finished end
  ended_before end closes = true

  abbrev pub back_before :
      ℕ → {limits : Limits} {run after : Live R} → Later limits run after → Bool
  back_before end here = true
  back_before end (next l s) = back_before end l && ended_before end s

  -- What a record tells, by its outcome. A completed request went out before the deadline, and came
  -- back with a result, not before it went out and before `end`. An abandoned one went out before
  -- the deadline, and has no time of return and no result. The others did not go out, and have
  -- neither.
  abbrev pub tells : Limits → ℕ → DispatchRecord R → Bool
  tells limits end r = elim r.outcome [
    | completed ↦
        before_deadline limits r.dispatched_at
        && (ordered r.dispatched_at r.completed_at
            && (is_before end r.completed_at && is_some r.result))
    | abandoned ↦ before_deadline limits r.dispatched_at && (never r.completed_at && never r.result)
    | dropped_backlog ↦ never r.dispatched_at && (never r.completed_at && never r.result)
    | not_dispatched ↦ never r.dispatched_at && (never r.completed_at && never r.result)
  ]

  abbrev early_slot : ℕ → Slot R → Bool
  early_slot end s = early end s.completed_at

  abbrev early_record : ℕ → DispatchRecord R → Bool
  early_record end r = early end r.completed_at

  abbrev Early : ℕ → Live R → Type 0
  Early end run = all (early_slot end) run.slots ≡ true

  dispatch-early :
      (limits : Limits) (check : Bool) (now end : ℕ) (s : Slot R)
      → early_slot end (dispatch limits check now s) ≡ early_slot end s
  unfolding dispatch
  dispatch-early limits check now end s = ground arith

  Step-Early :
      {limits : Limits} {run after : Live R} (end : ℕ) (step : Step limits run after)
      → ended_before end step ≡ true
      → Early end run
      → Early end after
  unfolding add_slot make_slot send_begin send_end finalise complete
  Step-Early {limits} {run} end (adds index rate at waited) b h =
      ground (arith, h, all-append (early_slot end) run.slots (make_slot index rate at waited ∷ []))
  Step-Early {limits} {run} end (begins check now k s e f) b h = ground (
    arith,
    h,
    all-update_at (early_slot end) (dispatch limits check now) k run.slots s e
        (dispatch-early limits check now end s ∙ all-place (early_slot end) k run.slots s e h) h,
  )
  Step-Early {limits} {run} end (ends finished k result s e f) b h =
      ground
        (arith, h, all-update_at (early_slot end) (complete finished result) k run.slots s e b h)
  Step-Early end closes b h = h

  Later-Early :
      {limits : Limits} {run after : Live R} (end : ℕ) (l : Later limits run after)
      → back_before end l ≡ true
      → Early end run
      → Early end after
  Later-Early end here b h = h
  Later-Early end (next l s) b h =
      Step-Early end s (ground (arith, b)) (Later-Early end l (ground (arith, b)) h)

  freeze-early :
      (end : ℕ) (slots : List (Slot R))
      → all (early_slot end) slots ≡ true
      → all (early_record end) (map freeze slots) ≡ true
  unfolding freeze
  freeze-early end [] h = refl
  freeze-early end (s ∷ slots) h = ground (arith, freeze-early end slots)

  coherent-tells :
      (limits : Limits) (end : ℕ) (rs : List (DispatchRecord R))
      → all (coherent limits) rs ≡ true
      → all (early_record end) rs ≡ true
      → all (tells limits end) rs ≡ true
  coherent-tells limits end [] h e = refl
  coherent-tells limits end (r ∷ rs) h e = ground (arith, coherent-tells limits end rs)

  -- Whatever the threads of a run did, and in whatever order, where every hook that came back while
  -- they did came back before `end` (the deadline, say), each record that finalise returns is one
  -- of these. A completed request went out before the deadline, and came back, with a result, not
  -- before it went out and before `end`. An abandoned one went out before the deadline, and has no
  -- time of return and no result. One dropped from the backlog or not dispatched never went out, and
  -- has neither.
  pub records_tell :
      {limits : Limits} {run : Live R} (end : ℕ) (l : Later limits begun run)
      → back_before end l ≡ true
      → all (tells limits end) (finalise run).0 ≡ true
  unfolding finalise
  records_tell {limits} {run} end l b =
      coherent-tells limits end (finalise run).0 (records_cohere l) (
        all-sort_by (early_record end) (map freeze run.slots)
        ∙ freeze-early end run.slots (Later-Early end l b refl))
