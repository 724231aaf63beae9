-- ===== src/Barrage/Executor/Examples.antt =====
-- A pool of one worker that is given two tasks, runs the first, and is shut down.
use testing_hq.Prelude.{◌+◌, ◌≤◌, ◌≡◌, ◌⊎◌, refl, true, false, some, [], length, count_if}
use testing_hq.Barrage.Run.{place}
use testing_hq.Barrage.Executor.{
  cancelled, submitting, Pool, idle_workers, make_pool, enqueue, submit, runtime_error, get_item,
  discard, start_with, start_task, begin_shutdown, go_from, go_on,
}
use testing_hq.Barrage.Executor.Moves.{
  Move, gets, discards, starts, works, submits, shuts_down, goes_on, Reach, made, later,
}
use testing_hq.Barrage.Executor.Running.{is_busy, runs, running_bounded}
use testing_hq.Barrage.Executor.Settled.{Later, here, next, settled_stays, shutdown_refuses}
use testing_hq.Barrage.Executor.Drained.{Moves, work, work_runs_out, is_drained, drains}

abbrev fresh : Pool
fresh = record {
  workers = idle_workers 1;
  queue = [];
  pending_set = [];
  futures = [];
  is_closed = false;
  caller = submitting;
}

abbrev two_tasks : Pool
two_tasks = enqueue (enqueue fresh)

abbrev got : Pool
got = get_item 0 two_tasks

abbrev one_runs : Pool
one_runs = start_task 0 0 (discard 0 0 got)

two_tasks_Reach : Reach 1 two_tasks
unfolding make_pool submit
two_tasks_Reach = later (later (made refl) (submits refl)) (submits refl)

one_runs_Reach : Reach 1 one_runs
unfolding idle_workers get_item discard place start_task start_with
one_runs_Reach =
    later (later (later two_tasks_Reach (works (gets 0 refl refl))) (works (discards 0 0 refl)))
      (works (starts 0 0 refl))

abbrev shutting : Pool
shutting = begin_shutdown true one_runs

abbrev one_cancelled : Pool
one_cancelled = go_on shutting

abbrev shut : Pool
shut = go_on (go_on (go_on (go_on one_cancelled)))

one_cancelled_Reach : Reach 1 one_cancelled
unfolding idle_workers get_item discard place start_task start_with
one_cancelled_Reach = later (later one_runs_Reach (shuts_down true refl)) goes_on

from_cancelled : Later one_cancelled shut
from_cancelled = next (next (next (next here goes_on) goes_on) goes_on) goes_on

shut_Reach : Reach 1 shut
shut_Reach = later (later (later (later one_cancelled_Reach goes_on) goes_on) goes_on) goes_on

running_bounded_example :
    (count_if runs one_runs.futures ≡ count_if is_busy one_runs.workers)
    × (count_if runs one_runs.futures ≤ 1)
running_bounded_example = running_bounded one_runs_Reach

settled_stays_example : place 1 shut.futures ≡ some cancelled
unfolding idle_workers get_item discard place start_task start_with begin_shutdown go_on go_from
settled_stays_example = settled_stays 1 cancelled refl one_cancelled_Reach refl from_cancelled

shutdown_refuses_example :
    (submit one_cancelled ≡ runtime_error)
    × (length one_cancelled.futures ≡ length one_runs.futures)
shutdown_refuses_example = shutdown_refuses true one_runs (next here goes_on)

work_runs_out_example : 1 + work (get_item 0 two_tasks) ≤ work two_tasks
unfolding idle_workers place
work_runs_out_example = work_runs_out two_tasks_Reach (Moves.next Moves.here (gets 0 refl refl))

drains_example : ((q : Pool) × Move shut q) ⊎ (is_drained shut ≡ true)
unfolding idle_workers get_item discard place start_task start_with begin_shutdown go_on go_from
drains_example = drains shut_Reach refl
