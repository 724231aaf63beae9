-- ===== src/Barrage/Executor/Workers.antt =====
-- Every move of a worker keeps the invariant of the executor.
use testing_hq.Prelude.{
  ℕ, ◌≤◌, ◌≡◌, refl, true, false, Option, none, some, List, [], ◌∷◌, arith, count_if, nat_beq,
}
use mathlib.Core.Path.{subst, sym}
use testing_hq.Barrage.Run.{update_at, place}
use testing_hq.Barrage.Executor.{
  Status, pending, running, cancelled, finished, Worker, idle, taken, claimed, busy, gone, Pool,
  get_item, discard, start_with, start_task, finish_task,
}
use testing_hq.Barrage.Executor.Counts.{
  length-update_at, place-update_at, count-update_at, place_inside,
}
use testing_hq.Barrage.Executor.Moves.{
  Move, gets, discards, starts, finishes, has_task, runs_task, is_gone, is_running, Inv,
}

pub self : (j : ℕ) → nat_beq j j ≡ true
self j = ground arith

runs-le-has : (i : ℕ) (ws : List Worker) → count_if (runs_task i) ws ≤ count_if (has_task i) ws
runs-le-has i [] = omega arith
runs-le-has i (idle ∷ ws) = runs-le-has i ws
runs-le-has i (taken j ∷ ws) = ground (arith, runs-le-has i ws)
runs-le-has i (claimed j ∷ ws) = ground (arith, runs-le-has i ws)
runs-le-has i (busy j ∷ ws) = ground (arith, runs-le-has i ws)
runs-le-has i (gone ∷ ws) = runs-le-has i ws

module _ (n : ℕ) (p : Pool) (inv : Inv n p) (k : ℕ) where
  open inv use {size, unique, known, kept, over, running_once, stops, last, after_stop, shut}

  get_stop :
      (rest : List (Option ℕ))
      → place k p.workers ≡ some idle
      → p.queue ≡ none ∷ rest
      → Inv n (get_item k p)
  unfolding get_item
  get_stop rest h e = record {
    size = ground (arith, length-update_at k (λ old. gone) p.workers);
    unique = λ i.
        ground (arith, unique i, count-update_at (has_task i) k (λ old. gone) p.workers idle h);
    known = λ i q.
        ground (arith, known i, count-update_at (has_task i) k (λ old. gone) p.workers idle h);
    kept = λ i q.
        ground (arith, kept i, count-update_at (has_task i) k (λ old. gone) p.workers idle h);
    over = λ i q.
        ground
          (arith, over i, unique i, count-update_at (has_task i) k (λ old. gone) p.workers idle h);
    running_once = λ i.
        ground
          (arith, running_once i, count-update_at (runs_task i) k (λ old. gone) p.workers idle h);
    stops = ground (arith, count-update_at is_gone k (λ old. gone) p.workers idle h);
    last = ground arith;
    after_stop = λ q. ground arith;
    shut = ground arith;
  }

  get_task :
      (j : ℕ) (rest : List (Option ℕ))
      → place k p.workers ≡ some idle
      → p.queue ≡ some j ∷ rest
      → Inv n (get_item k p)
  unfolding get_item
  get_task j rest h e = record {
    size = ground (arith, length-update_at k (λ old. taken j) p.workers);
    unique = λ i.
        ground (arith, unique i, count-update_at (has_task i) k (λ old. taken j) p.workers idle h);
    known = λ i q.
        ground (arith, known i, count-update_at (has_task i) k (λ old. taken j) p.workers idle h);
    kept = λ i q.
        ground (arith, kept i, count-update_at (has_task i) k (λ old. taken j) p.workers idle h);
    over = λ i q.
        ground (
          arith,
          over i,
          unique i,
          count-update_at (has_task i) k (λ old. taken j) p.workers idle h,
        );
    running_once = λ i.
        ground (
          arith,
          running_once i,
          count-update_at (runs_task i) k (λ old. taken j) p.workers idle h,
        );
    stops = ground (arith, count-update_at is_gone k (λ old. taken j) p.workers idle h);
    last = ground arith;
    after_stop = λ q. ground (arith, count-update_at is_gone k (λ old. taken j) p.workers idle h);
    shut = ground arith;
  }

  discard-Inv : (j : ℕ) → place k p.workers ≡ some (taken j) → Inv n (discard k j p)
  unfolding discard
  discard-Inv j h = record {
    size = ground (arith, length-update_at k (λ old. claimed j) p.workers);
    unique = λ i.
        ground (
          arith,
          unique i,
          count-update_at (has_task i) k (λ old. claimed j) p.workers (taken j) h,
        );
    known = λ i q.
        ground
          (arith, known i, count-update_at (has_task i) k (λ old. claimed j) p.workers (taken j) h);
    kept = λ i q.
        ground
          (arith, kept i, count-update_at (has_task i) k (λ old. claimed j) p.workers (taken j) h);
    over = λ i q. ground (
      arith,
      over i,
      unique i,
      count-update_at (has_task i) k (λ old. claimed j) p.workers (taken j) h,
    );
    running_once = λ i. ground (
      arith,
      running_once i,
      count-update_at (runs_task i) k (λ old. claimed j) p.workers (taken j) h,
    );
    stops = ground (arith, count-update_at is_gone k (λ old. claimed j) p.workers (taken j) h);
    last = last;
    after_stop =
        λ q. ground (arith, count-update_at is_gone k (λ old. claimed j) p.workers (taken j) h);
    shut = shut;
  }

  finish-Inv : (j : ℕ) → place k p.workers ≡ some (busy j) → Inv n (finish_task k j p)
  unfolding finish_task
  finish-Inv j h = record {
    size = ground (arith, length-update_at k (λ old. idle) p.workers);
    unique = λ i.
        ground (arith, unique i, count-update_at (has_task i) k (λ old. idle) p.workers (busy j) h);
    known = λ i q. ground (
      arith,
      known i,
      length-update_at j (λ old. finished) p.futures,
      count-update_at (has_task i) k (λ old. idle) p.workers (busy j) h,
    );
    kept = λ i q. ground (
      arith,
      kept i,
      place-update_at i j (λ old. finished) p.futures,
      count-update_at (has_task i) k (λ old. idle) p.workers (busy j) h,
    );
    over = λ i q. ground (
      arith,
      over i,
      unique i,
      place-update_at i j (λ old. finished) p.futures,
      count-update_at (has_task i) k (λ old. idle) p.workers (busy j) h,
    );
    running_once = λ i. ground (
      arith,
      running_once i,
      running_once j,
      place-update_at i j (λ old. finished) p.futures,
      count-update_at (runs_task i) k (λ old. idle) p.workers (busy j) h,
    );
    stops = ground (arith, count-update_at is_gone k (λ old. idle) p.workers (busy j) h);
    last = last;
    after_stop = λ q. ground (arith, count-update_at is_gone k (λ old. idle) p.workers (busy j) h);
    shut = shut;
  }

  -- A task that was cancelled before it started.
  skip-Inv :
      (j : ℕ)
      → place k p.workers ≡ some (claimed j)
      → place j p.futures ≡ some cancelled
      → Inv n (start_task k j p)
  unfolding start_task start_with
  skip-Inv j h e = record {
    size = ground (arith, length-update_at k (λ old. idle) p.workers);
    unique = λ i.
        ground
          (arith, unique i, count-update_at (has_task i) k (λ old. idle) p.workers (claimed j) h);
    known = λ i q.
        ground
          (arith, known i, count-update_at (has_task i) k (λ old. idle) p.workers (claimed j) h);
    kept = λ i q.
        ground
          (arith, kept i, count-update_at (has_task i) k (λ old. idle) p.workers (claimed j) h);
    over = λ i q. ground (
      arith,
      over i,
      unique i,
      count-update_at (has_task i) k (λ old. idle) p.workers (claimed j) h,
    );
    running_once = λ i. ground (
      arith,
      running_once i,
      count-update_at (runs_task i) k (λ old. idle) p.workers (claimed j) h,
    );
    stops = ground (arith, count-update_at is_gone k (λ old. idle) p.workers (claimed j) h);
    last = ground arith;
    after_stop =
        λ q. ground (arith, count-update_at is_gone k (λ old. idle) p.workers (claimed j) h);
    shut = ground arith;
  }

  run-Inv :
      (j : ℕ) (s : Status)
      → place k p.workers ≡ some (claimed j)
      → place j p.futures ≡ some s
      → is_running (some s) ≡ false
      → Inv n (record p {
        workers = update_at k (λ old. busy j) p.workers;
        futures = update_at j (λ old. running) p.futures;
      })
  run-Inv j s h e r = record {
    size = ground (arith, length-update_at k (λ old. busy j) p.workers);
    unique = λ i.
        ground
          (arith, unique i, count-update_at (has_task i) k (λ old. busy j) p.workers (claimed j) h);
    known = λ i q. ground (
      arith,
      known i,
      length-update_at j (λ old. running) p.futures,
      count-update_at (has_task i) k (λ old. busy j) p.workers (claimed j) h,
    );
    kept = λ i q. ground (
      arith,
      kept i,
      unique i,
      place-update_at i j (λ old. running) p.futures,
      count-update_at (has_task i) k (λ old. busy j) p.workers (claimed j) h,
      count-update_at (has_task i) k (λ old. idle) p.workers (claimed j) h,
    );
    over = λ i q. ground (
      arith,
      over i,
      unique i,
      place-update_at i j (λ old. running) p.futures,
      count-update_at (has_task i) k (λ old. busy j) p.workers (claimed j) h,
      count-update_at (has_task i) k (λ old. idle) p.workers (claimed j) h,
    );
    running_once = λ i. ground (
      arith,
      running_once i,
      running_once j,
      place-update_at i j (λ old. running) p.futures,
      count-update_at (runs_task i) k (λ old. busy j) p.workers (claimed j) h,
    );
    stops = ground (arith, count-update_at is_gone k (λ old. busy j) p.workers (claimed j) h);
    last = last;
    after_stop =
        λ q. ground (arith, count-update_at is_gone k (λ old. busy j) p.workers (claimed j) h);
    shut = shut;
  }

  -- A task that a worker has claimed is not running elsewhere.
  pub not_running :
      (j : ℕ) → place k p.workers ≡ some (claimed j) → is_running (place j p.futures) ≡ false
  not_running j h = ground (
    arith,
    unique j,
    running_once j,
    runs-le-has j (update_at k (λ old. idle) p.workers),
    count-update_at (has_task j) k (λ old. idle) p.workers (claimed j) h,
    count-update_at (runs_task j) k (λ old. idle) p.workers (claimed j) h,
  )

  -- Its future is there.
  pub is_there : (j : ℕ) → place k p.workers ≡ some (claimed j) → place j p.futures ≡ none → ⊥
  is_there j h e = ground (
    arith,
    known j (place_inside j p.futures e),
    count-update_at (has_task j) k (λ old. idle) p.workers (claimed j) h,
    self j,
  )

  -- It is not finished.
  pub is_over :
      (j : ℕ) → place k p.workers ≡ some (claimed j) → place j p.futures ≡ some finished → ⊥
  is_over j h e =
      ground (
        arith,
        over j,
        count-update_at (has_task j) k (λ old. idle) p.workers (claimed j) h,
        self j,
      )

  start_cases :
      (j : ℕ) (o : Option Status)
      → place k p.workers ≡ some (claimed j)
      → place j p.futures ≡ o
      → Inv n (start_task k j p)
  unfolding start_task start_with
  start_cases j none h e = elim (is_there j h e) [ ]
  start_cases j (some pending) h e =
      subst (λ o. Inv n (start_with k j p o)) (sym e) (run-Inv j pending h e refl)
  start_cases j (some running) h e = cc (not_running j h)
  start_cases j (some cancelled) h e = skip-Inv j h e
  start_cases j (some finished) h e = elim (is_over j h e) [ ]

  get_cases :
      (q : List (Option ℕ)) → place k p.workers ≡ some idle → p.queue ≡ q → Inv n (get_item k p)
  unfolding get_item
  get_cases [] h e = subst (λ r. Inv n r) (ground arith) inv
  get_cases (none ∷ rest) h e = get_stop rest h e
  get_cases (some j ∷ rest) h e = get_task j rest h e

pub Move-Inv : (n : ℕ) (p q : Pool) → Move p q → Inv n p → Inv n q
Move-Inv n p q (gets k h e) inv = get_cases n p inv k p.queue h refl
Move-Inv n p q (discards k i h) inv = discard-Inv n p inv k i h
Move-Inv n p q (starts k i h) inv = start_cases n p inv k i (place i p.futures) h refl
Move-Inv n p q (finishes k i h) inv = finish-Inv n p inv k i h
