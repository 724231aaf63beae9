-- ===== src/Barrage/Run/Frozen.antt =====
-- Once a run is closed, what late workers do changes nothing.
use testing_hq.Prelude.{◌≡◌, refl, ap, ◌∙◌, true, arith, map}
use testing_hq.Prelude.Sort.{sort_by}
use testing_hq.Barrage.Run.{
  Live, Limits, by_index, freeze, finalise, add_slot, send_begin, send_end,
}
use testing_hq.Barrage.Run.Steps.{Step, adds, begins, ends, closes, Later, here, next}

module _ {R : Type 0} where
  Step-frozen :
      {limits : Limits} {run after : Live R}
      → Step limits run after
      → run.closed ≡ true
      → (after.closed ≡ true) × (after.slots ≡ run.slots)
  unfolding add_slot send_begin send_end finalise
  Step-frozen (adds index rate at waited) h = ground arith
  Step-frozen (begins check now k s e f) h = ground arith
  Step-frozen (ends finished k result s e f) h = ground arith
  Step-frozen closes h = (refl, refl)

  Later-frozen :
      {limits : Limits} {run after : Live R}
      → Later limits run after
      → run.closed ≡ true
      → (after.closed ≡ true) × (after.slots ≡ run.slots)
  Later-frozen here h = (h, refl)
  Later-frozen (next l s) h =
      let (closed, same) = Later-frozen l h in
      let (still, kept) = Step-frozen s closed in (still, kept ∙ same)

  -- Whatever the threads of a run do once it is closed, its records are the ones that the call of
  -- finalise that closed it returned.
  pub records_frozen :
      {limits : Limits} (run after : Live R)
      → Later limits (finalise run).1 after
      → (finalise after).0 ≡ (finalise run).0
  unfolding finalise
  records_frozen run after l =
      ap (λ slots. sort_by by_index (map freeze slots)) (Later-frozen l refl).1
