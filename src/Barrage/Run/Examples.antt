-- ===== src/Barrage/Run/Examples.antt =====
-- A run of two requests: one comes back, one is in flight when the run is closed.
use testing_hq.Prelude.{ℕ, ◌≡◌, refl, true, all}
use testing_hq.Barrage.Run.{
  Live, Limits, make_slot, dispatch, complete, finalise, update_at, place, add_slot, send_begin,
  send_end,
}
use testing_hq.Barrage.Run.Steps.{adds, begins, ends, Later, here, next, begun}
use testing_hq.Barrage.Run.Told.{tells, records_tell}
use testing_hq.Barrage.Run.Frozen.{records_frozen}

abbrev limits : Limits
limits = record { deadline = 20; max_queue = 5 }

abbrev scheduled : Live ℕ
scheduled = add_slot (make_slot 1 1 4 0) (add_slot (make_slot 0 1 0 0) begun)

abbrev sent : Live ℕ
sent = send_begin limits true 5 1 (send_begin limits true 1 0 scheduled)

abbrev one_back : Live ℕ
one_back = send_end 7 200 0 sent

to_one_back : Later limits begun one_back
unfolding add_slot make_slot send_begin dispatch update_at place
to_one_back =
    next
      (next
        (next (next (next here (adds 0 1 0 0)) (adds 1 1 4 0))
          (begins true 1 0 (make_slot 0 1 0 0) refl refl))
        (begins true 5 1 (make_slot 1 1 4 0) refl refl))
      (ends 7 0 200 (dispatch limits true 1 (make_slot 0 1 0 0)) refl refl)

records_tell_example : all (tells limits limits.deadline) (finalise one_back).0 ≡ true
unfolding to_one_back
records_tell_example = records_tell limits.deadline to_one_back refl

abbrev late : Live ℕ
late = send_end 9 200 1 (finalise one_back).1

records_frozen_example : (finalise late).0 ≡ (finalise one_back).0
unfolding add_slot make_slot send_begin send_end dispatch complete update_at place finalise
records_frozen_example =
    records_frozen {limits = limits} one_back late
      (next here (ends 9 1 200 (dispatch limits true 5 (make_slot 1 1 4 0)) refl refl))
