-- ===== src/Barrage/Executor/Settled.antt =====
-- What becomes of a future that is settled, and what a pool does once it was shut down.
use testing_hq.Prelude.{
  ℕ, zero, suc, ◌≡◌, refl, Bool, true, false, Option, none, some, List, [], ◌∷◌, arith, length,
}
use testing_hq.Barrage.Run.{place}
use testing_hq.Barrage.Executor.{
  Status, pending, running, cancelled, finished, claimed, Caller, submitting, cancelling, stopping,
  returned, Pool, submit, runtime_error, get_item, discard, start_with, start_task, finish_task,
  cancel_status, begin_shutdown, go_from, go_on,
}
use testing_hq.Barrage.Executor.Counts.{
  length-update_at, place-update_at, place-append, place_outside,
}
use testing_hq.Barrage.Executor.Moves.{
  Move, gets, discards, starts, finishes, Step, works, submits, shuts_down, goes_on, Reach, later,
  is_open, Inv,
}
use testing_hq.Barrage.Executor.Kept.{Reach-Inv}
use testing_hq.Barrage.Executor.Workers.{is_there, is_over, not_running}
use testing_hq.Barrage.Executor.Running.{busy_runs, accepted_only}

-- Step after step.
pub data Later (p : Pool) : Pool → Type 0 where
  here : Later p p
  next : {q r : Pool} → Later p q → Step q r → Later p r

Later-Reach : {n : ℕ} {p : Pool} {q : Pool} → Reach n p → Later p q → Reach n q
Later-Reach r here = r
Later-Reach r (next l s) = later (Later-Reach r l) s

module _ (i : ℕ) (s : Status) (settled : is_open (some s) ≡ false) where
  abbrev Holds : Pool → Type 0
  Holds p = place i p.futures ≡ some s

  module _ {n : ℕ} {p : Pool} (inv : Inv n p) where
    get-Holds : (k : ℕ) (q : List (Option ℕ)) → p.queue ≡ q → Holds p → Holds (get_item k p)
    unfolding get_item
    get-Holds k [] e h = ground arith
    get-Holds k (none ∷ rest) e h = ground arith
    get-Holds k (some j ∷ rest) e h = ground arith

    start-Holds :
        (k j : ℕ) (o : Option Status)
        → place k p.workers ≡ some (claimed j)
        → place j p.futures ≡ o
        → Holds p
        → Holds (start_task k j p)
    unfolding start_task start_with
    start-Holds k j none w e h = elim (is_there n p inv k j w e) [ ]
    start-Holds k j (some pending) w e h =
        ground (arith, place-update_at i j (λ old. running) p.futures)
    start-Holds k j (some running) w e h = ground (arith, not_running n p inv k j w)
    start-Holds k j (some cancelled) w e h = ground arith
    start-Holds k j (some finished) w e h = elim (is_over n p inv k j w e) [ ]

    Move-Holds : {q : Pool} → Move p q → Holds p → Holds q
    unfolding discard finish_task
    Move-Holds (gets k w f) h = get-Holds k p.queue refl h
    Move-Holds (discards k j w) h = h
    Move-Holds (starts k j w) h = start-Holds k j (place j p.futures) w refl h
    Move-Holds (finishes k j w) h =
        ground (arith, busy_runs inv k j w, place-update_at i j (λ old. finished) p.futures)

  go-Holds : (p : Pool) (c : Caller) → Holds p → Holds (go_from c p)
  unfolding go_from
  go-Holds p submitting h = h
  go-Holds p (cancelling []) h = h
  go-Holds p (cancelling (j ∷ js)) h = ground (arith, place-update_at i j cancel_status p.futures)
  go-Holds p (stopping zero) h = h
  go-Holds p (stopping (suc m)) h = h
  go-Holds p returned h = h

  Step-Holds : {n : ℕ} {p q : Pool} → Inv n p → Step p q → Holds p → Holds q
  unfolding begin_shutdown go_on
  Step-Holds inv (works m) h = Move-Holds inv m h
  Step-Holds {p} {q} inv (submits t) h =
      ground (
        arith,
        (accepted_only p q t).1,
        place-append i p.futures pending,
        place_outside i p.futures,
      )
  Step-Holds inv (shuts_down cancel t) h = h
  Step-Holds {p} inv goes_on h = go-Holds p p.caller h

  -- A future that is cancelled or finished stays so, whatever the threads do.
  pub settled_stays :
      {n : ℕ} {p : Pool} {q : Pool}
      → Reach n p
      → place i p.futures ≡ some s
      → Later p q
      → place i q.futures ≡ some s
  settled_stays r h here = h
  settled_stays r h (next l t) = Step-Holds (Reach-Inv (Later-Reach r l)) t (settled_stays r h l)

-- A pool that was shut down takes no more tasks.
abbrev Shut : ℕ → Pool → Type 0
Shut m p = (p.is_closed ≡ true) × (length p.futures ≡ m)

go-Shut : (m : ℕ) (p : Pool) (c : Caller) → Shut m p → Shut m (go_from c p)
unfolding go_from
go-Shut m p submitting h = h
go-Shut m p (cancelling []) h = h
go-Shut m p (cancelling (j ∷ js)) h = ground (arith, length-update_at j cancel_status p.futures)
go-Shut m p (stopping zero) h = h
go-Shut m p (stopping (suc k)) h = h
go-Shut m p returned h = h

start-Shut :
    (m : ℕ) (p : Pool) (k j : ℕ) (o : Option Status) → Shut m p → Shut m (start_with k j p o)
unfolding start_with
start-Shut m p k j none h = h
start-Shut m p k j (some pending) h = ground (arith, length-update_at j (λ old. running) p.futures)
start-Shut m p k j (some running) h = h
start-Shut m p k j (some cancelled) h = h
start-Shut m p k j (some finished) h = h

get-Shut :
    (m : ℕ) (p : Pool) (k : ℕ) (q : List (Option ℕ))
    → p.queue ≡ q
    → Shut m p
    → Shut m (get_item k p)
unfolding get_item
get-Shut m p k [] e h = ground arith
get-Shut m p k (none ∷ rest) e h = ground arith
get-Shut m p k (some j ∷ rest) e h = ground arith

Move-Shut : {m : ℕ} {p q : Pool} → Move p q → Shut m p → Shut m q
unfolding discard finish_task start_task
Move-Shut {m} {p} (gets k w f) h = get-Shut m p k p.queue refl h
Move-Shut (discards k j w) h = h
Move-Shut {m} {p} (starts k j w) h = start-Shut m p k j (place j p.futures) h
Move-Shut {m} {p} (finishes k j w) h =
    ground (arith, length-update_at j (λ old. finished) p.futures)

Step-Shut : {m : ℕ} {p q : Pool} → Step p q → Shut m p → Shut m q
unfolding begin_shutdown go_on
Step-Shut (works s) h = Move-Shut s h
Step-Shut {m} {p} {q} (submits t) h = ground (arith, (accepted_only p q t).0)
Step-Shut (shuts_down cancel t) h = (refl, h.1)
Step-Shut {m} {p} goes_on h = go-Shut m p p.caller h

Later-Shut : {m : ℕ} {p : Pool} {q : Pool} → Later p q → Shut m p → Shut m q
Later-Shut here h = h
Later-Shut (next l s) h = Step-Shut s (Later-Shut l h)

-- From the moment that shutdown holds the lock, submit raises the RuntimeError, and the pool has the
-- futures that it had, whatever the threads do.
pub shutdown_refuses :
    (cancel_pending : Bool) (p : Pool) {q : Pool}
    → Later (begin_shutdown cancel_pending p) q
    → (submit q ≡ runtime_error) × (length q.futures ≡ length p.futures)
unfolding submit begin_shutdown
shutdown_refuses cancel_pending p l = ground (arith, Later-Shut l (refl, refl))
