-- ===== src/Barrage/Executor/Running.antt =====
-- How many tasks run at once, what becomes of a settled future, and what a shut-down pool refuses.
use testing_hq.Prelude.{
  ℕ, zero, suc, ◌≤◌, ◌<◌, ◌≡◌, refl, Bool, true, false, Option, none, some, List, [], ◌∷◌, arith,
  count_if,
}
use testing_hq.Barrage.Run.{update_at, place}
use testing_hq.Barrage.Executor.{
  Status, pending, running, cancelled, finished, Worker, idle, taken, claimed, busy, gone, Caller,
  submitting, cancelling, stopping, returned, Pool, idle_workers, make_pool, enqueue, submit,
  accepted, get_item, discard, start_with, start_task, finish_task, cancel_status, begin_shutdown,
  go_from, go_on,
}
use testing_hq.Barrage.Executor.Counts.{count-update_at, count-append, count-le-length}
use testing_hq.Barrage.Executor.Moves.{
  Move, gets, discards, starts, finishes, Step, works, submits, shuts_down, goes_on, Reach, made,
  later, runs_task, is_running, Inv,
}
use testing_hq.Barrage.Executor.Kept.{Reach-Inv}
use testing_hq.Barrage.Executor.Workers.{is_there, is_over, not_running, self}

abbrev pub is_busy : Worker → Bool
is_busy (busy i) = true
is_busy _ = false

abbrev pub runs : Status → Bool
runs s = is_running (some s)

-- As many futures are running as workers are busy.
abbrev Even : Pool → Type 0
Even p = count_if runs p.futures ≡ count_if is_busy p.workers

is_run : (o : Option Status) → is_running o ≡ true → o ≡ some running
is_run none h = cc
is_run (some pending) h = cc
is_run (some running) h = refl
is_run (some cancelled) h = cc
is_run (some finished) h = cc

runs-cancel :
    (k : ℕ) (fs : List Status) → count_if runs (update_at k cancel_status fs) ≡ count_if runs fs
unfolding update_at
runs-cancel k [] = refl
runs-cancel zero (s ∷ fs) = ground arith
runs-cancel (suc k) (s ∷ fs) = ground (arith, runs-cancel k fs)

some-runs :
    (k i : ℕ) (ws : List Worker) → place k ws ≡ some (busy i) → 0 < count_if (runs_task i) ws
unfolding place
some-runs k i [] h = cc
some-runs zero i (w ∷ ws) h = ground (arith, self i)
some-runs (suc k) i (w ∷ ws) h = ground (arith, some-runs k i ws)

module _ {n : ℕ} {p : Pool} (inv : Inv n p) where
  -- The future of a task that a worker runs is running.
  pub busy_runs : (k i : ℕ) → place k p.workers ≡ some (busy i) → place i p.futures ≡ some running
  busy_runs k i h =
      is_run (place i p.futures) (ground (arith, inv.running_once i, some-runs k i p.workers h))

  get-Even :
      (k : ℕ) (q : List (Option ℕ))
      → place k p.workers ≡ some idle
      → p.queue ≡ q
      → Even p
      → Even (get_item k p)
  unfolding get_item
  get-Even k [] h e v = ground arith
  get-Even k (none ∷ rest) h e v =
      ground (arith, count-update_at is_busy k (λ old. gone) p.workers idle h)
  get-Even k (some i ∷ rest) h e v =
      ground (arith, count-update_at is_busy k (λ old. taken i) p.workers idle h)

  start-Even :
      (k i : ℕ) (o : Option Status)
      → place k p.workers ≡ some (claimed i)
      → place i p.futures ≡ o
      → Even p
      → Even (start_task k i p)
  unfolding start_task start_with
  start-Even k i none h e v = elim (is_there n p inv k i h e) [ ]
  start-Even k i (some pending) h e v = ground (
    arith,
    count-update_at is_busy k (λ old. busy i) p.workers (claimed i) h,
    count-update_at runs i (λ old. running) p.futures pending e,
  )
  start-Even k i (some running) h e v = cc (not_running n p inv k i h)
  start-Even k i (some cancelled) h e v =
      ground (arith, count-update_at is_busy k (λ old. idle) p.workers (claimed i) h)
  start-Even k i (some finished) h e v = elim (is_over n p inv k i h e) [ ]

  Move-Even : {q : Pool} → Move p q → Even p → Even q
  unfolding discard finish_task
  Move-Even (gets k h f) v = get-Even k p.queue h refl v
  Move-Even (discards k i h) v =
      ground (arith, count-update_at is_busy k (λ old. claimed i) p.workers (taken i) h)
  Move-Even (starts k i h) v = start-Even k i (place i p.futures) h refl v
  Move-Even (finishes k i h) v = ground (
    arith,
    count-update_at is_busy k (λ old. idle) p.workers (busy i) h,
    count-update_at runs i (λ old. finished) p.futures running (busy_runs k i h),
  )

go-Even : (p : Pool) (c : Caller) → Even p → Even (go_from c p)
unfolding go_from
go-Even p submitting v = v
go-Even p (cancelling []) v = v
go-Even p (cancelling (i ∷ is)) v = ground (arith, runs-cancel i p.futures)
go-Even p (stopping zero) v = v
go-Even p (stopping (suc m)) v = v
go-Even p returned v = v

pub accepted_only : (p q : Pool) → submit p ≡ accepted q → (p.is_closed ≡ false) × (enqueue p ≡ q)
unfolding submit
accepted_only p q h = ground arith

Step-Even : {n : ℕ} {p q : Pool} → Inv n p → Step p q → Even p → Even q
unfolding begin_shutdown go_on
Step-Even inv (works m) v = Move-Even inv m v
Step-Even {p} {q} inv (submits h) v =
    ground (arith, (accepted_only p q h).1, count-append runs p.futures pending)
Step-Even inv (shuts_down cancel h) v = v
Step-Even {p} inv goes_on v = go-Even p p.caller v

idle-Even : (n : ℕ) → count_if is_busy (idle_workers n) ≡ 0
unfolding idle_workers
idle-Even zero = refl
idle-Even (suc n) = idle-Even n

Reach-Even : {n : ℕ} {p : Pool} → Reach n p → Even p
unfolding make_pool
Reach-Even {n} (made h) = ground (arith, idle-Even n)
Reach-Even (later r s) = Step-Even (Reach-Inv r) s (Reach-Even r)

-- Whatever the threads of a pool of n workers do, at most n tasks run at once: as many futures are
-- running as workers are busy.
pub running_bounded :
    {n : ℕ} {p : Pool}
    → Reach n p
    → (count_if runs p.futures ≡ count_if is_busy p.workers) × (count_if runs p.futures ≤ n)
running_bounded {n} {p} r = (
  Reach-Even r,
  omega (arith, Reach-Even r, (Reach-Inv r).size, count-le-length is_busy p.workers),
)
