-- ===== src/Barrage/Executor/Kept.antt =====
-- Every step of a thread keeps the invariant of the executor.
use testing_hq.Prelude.{
  ℕ, zero, suc, ◌≡◌, refl, Bool, true, false, Option, none, some, List, [], ◌∷◌, ◌++◌, arith,
  length, length-append, count_if,
}
use mathlib.Core.Path.{subst, sym}
use testing_hq.Barrage.Run.{update_at, place}
use testing_hq.Barrage.Executor.{
  pending, Worker, idle, Caller, submitting, cancelling, stopping, returned, Pool, idle_workers,
  make_pool, enqueue, submit, accepted, cancel_status, begin_shutdown, go_from, go_on,
}
use testing_hq.Barrage.Executor.Counts.{
  length-update_at, place-update_at, count-append, place-append, place_outside,
}
use testing_hq.Barrage.Executor.Moves.{
  Step, works, submits, shuts_down, goes_on, Reach, made, later, is_item, is_stop, is_task,
  has_task, runs_task, is_gone, stops_due, has_shut, tasks_first, Inv,
}
use testing_hq.Barrage.Executor.Workers.{Move-Inv}

due_unshut : (n : ℕ) (c : Caller) → has_shut c ≡ false → stops_due n c ≡ n
due_unshut n submitting h = refl
due_unshut n (cancelling is) h = cc
due_unshut n (stopping k) h = cc
due_unshut n returned h = cc

tasks_first-task :
    (q : List (Option ℕ)) (i : ℕ) → count_if is_stop q ≡ 0 → tasks_first (q ++ some i ∷ []) ≡ true
tasks_first-task [] i h = refl
tasks_first-task (none ∷ q) i h = ground arith
tasks_first-task (some j ∷ q) i h = tasks_first-task q i h

tasks_first-stop :
    (q : List (Option ℕ)) → tasks_first q ≡ true → tasks_first (q ++ none ∷ []) ≡ true
tasks_first-stop [] h = refl
tasks_first-stop (none ∷ q) h = ground (arith, tasks_first-stop q, count-append is_task q none)
tasks_first-stop (some j ∷ q) h = tasks_first-stop q h

module _ (n : ℕ) (p : Pool) (inv : Inv n p) where
  open inv use {size, unique, known, kept, over, running_once, stops, last, after_stop, shut}

  enqueue-Inv : p.is_closed ≡ false → Inv n (enqueue p)
  enqueue-Inv h = record {
    size = size;
    unique = λ i.
        ground
          (arith, unique i, known i, count-append (is_item i) p.queue (some (length p.futures)));
    known = λ i q. ground (
      arith,
      known i,
      count-append (is_item i) p.queue (some (length p.futures)),
      length-append p.futures (pending ∷ []),
    );
    kept = λ i q. ground (
      arith,
      kept i,
      known i,
      place-append i p.futures pending,
      count-append (is_item i) p.queue (some (length p.futures)),
    );
    over = λ i q. ground (
      arith,
      over i,
      unique i,
      known i,
      place-append i p.futures pending,
      count-append (is_item i) p.queue (some (length p.futures)),
    );
    running_once = λ i.
        ground (arith, running_once i, place-append i p.futures pending, place_outside i p.futures);
    stops = ground (arith, count-append is_stop p.queue (some (length p.futures)));
    last =
        tasks_first-task p.queue (length p.futures)
          (omega (arith, due_unshut n p.caller (ground (arith, shut))));
    after_stop = λ q. omega (arith, due_unshut n p.caller (ground (arith, shut)));
    shut = shut;
  }

  shutdown-Inv : (cancel : Bool) → p.is_closed ≡ false → Inv n (begin_shutdown cancel p)
  unfolding begin_shutdown
  shutdown-Inv cancel h = record {
    size = size;
    unique = unique;
    known = known;
    kept = kept;
    over = over;
    running_once = running_once;
    stops = ground (arith, size, stops, shut, due_unshut n p.caller (ground (arith, shut)));
    last = last;
    after_stop = after_stop;
    shut = ground arith;
  }

  cancel-Inv :
      (i : ℕ) (is : List ℕ)
      → p.caller ≡ cancelling (i ∷ is)
      → Inv n (record p { caller = cancelling is; futures = update_at i cancel_status p.futures })
  cancel-Inv i is e = record {
    size = size;
    unique = unique;
    known = λ j q. ground (arith, known j, length-update_at i cancel_status p.futures);
    kept = λ j q. ground (arith, kept j, place-update_at j i cancel_status p.futures);
    over = λ j q. ground (arith, over j, place-update_at j i cancel_status p.futures);
    running_once = λ j. ground (arith, running_once j, place-update_at j i cancel_status p.futures);
    stops = ground arith;
    last = last;
    after_stop = after_stop;
    shut = ground arith;
  }

  stop-Inv :
      (m : ℕ)
      → p.caller ≡ stopping (suc m)
      → Inv n (record p { caller = stopping m; queue = p.queue ++ none ∷ [] })
  stop-Inv m e = record {
    size = size;
    unique = λ j. ground (arith, unique j, count-append (is_item j) p.queue none);
    known = λ j q. ground (arith, known j, count-append (is_item j) p.queue none);
    kept = λ j q. ground (arith, kept j, count-append (is_item j) p.queue none);
    over = λ j q. ground (arith, over j, count-append (is_item j) p.queue none);
    running_once = running_once;
    stops = ground (arith, count-append is_stop p.queue none);
    last = tasks_first-stop p.queue last;
    after_stop = λ q. ground (arith, count-append is_task p.queue none);
    shut = ground arith;
  }

  go_cases : (c : Caller) → p.caller ≡ c → Inv n (go_on p)
  unfolding go_on go_from
  go_cases submitting e = subst (λ c. Inv n (go_from c p)) (sym e) inv
  go_cases (cancelling []) e =
      subst (λ c. Inv n (go_from c p)) (sym e)
        (record {
          size = size;
          unique = unique;
          known = known;
          kept = kept;
          over = over;
          running_once = running_once;
          stops = ground (arith, size, stops);
          last = last;
          after_stop = after_stop;
          shut = ground arith;
        })
  go_cases (cancelling (i ∷ is)) e = subst (λ c. Inv n (go_from c p)) (sym e) (cancel-Inv i is e)
  go_cases (stopping zero) e =
      subst (λ c. Inv n (go_from c p)) (sym e)
        (record {
          size = size;
          unique = unique;
          known = known;
          kept = kept;
          over = over;
          running_once = running_once;
          stops = ground (arith, stops);
          last = last;
          after_stop = after_stop;
          shut = ground arith;
        })
  go_cases (stopping (suc m)) e = subst (λ c. Inv n (go_from c p)) (sym e) (stop-Inv m e)
  go_cases returned e = subst (λ c. Inv n (go_from c p)) (sym e) inv

submit-Inv :
    (n : ℕ) (p q : Pool) (b : Bool) → p.is_closed ≡ b → submit p ≡ accepted q → Inv n p → Inv n q
unfolding submit
submit-Inv n p q true e h inv = cc
submit-Inv n p q false e h inv = subst (λ r. Inv n r) (ground (arith, h, e)) (enqueue-Inv n p inv e)

Step-Inv : {n : ℕ} {p q : Pool} → Step p q → Inv n p → Inv n q
Step-Inv {n} {p} {q} (works m) inv = Move-Inv n p q m inv
Step-Inv {n} {p} {q} (submits h) inv = submit-Inv n p q p.is_closed refl h inv
Step-Inv {n} {p} {q} (shuts_down cancel h) inv = shutdown-Inv n p inv cancel h
Step-Inv {n} {p} {q} goes_on inv = go_cases n p inv p.caller refl

count-idle : (f : Worker → Bool) (n : ℕ) → f idle ≡ false → count_if f (idle_workers n) ≡ 0
unfolding idle_workers
count-idle f zero h = refl
count-idle f (suc n) h = ground (arith, count-idle f n)

length-idle : (n : ℕ) → length (idle_workers n) ≡ n
unfolding idle_workers
length-idle zero = refl
length-idle (suc n) = omega (arith, length-idle n)

fresh-Inv :
    (n : ℕ)
    → Inv n (record {
      workers = idle_workers n;
      queue = [];
      pending_set = [];
      futures = [];
      is_closed = false;
      caller = submitting;
    })
unfolding place
fresh-Inv n = record {
  size = length-idle n;
  unique = λ i. omega (arith, count-idle (has_task i) n refl);
  known = λ i q. omega (arith, count-idle (has_task i) n refl);
  kept = λ i q. cc;
  over = λ i q. cc;
  running_once = λ i. ground (arith, count-idle (runs_task i) n);
  stops = omega (arith, count-idle is_gone n refl);
  last = refl;
  after_stop = λ q. refl;
  shut = refl;
}

make-Inv : (n : ℕ) (p : Pool) → make_pool n ≡ some p → Inv n p
unfolding make_pool
make-Inv zero p h = cc
make-Inv (suc n) p h = subst (λ r. Inv (suc n) r) (ground (arith, h)) (fresh-Inv (suc n))

-- In every state that the threads reach, the invariant holds.
pub Reach-Inv : {n : ℕ} {p : Pool} → Reach n p → Inv n p
Reach-Inv {n} {p} (made h) = make-Inv n p h
Reach-Inv (later r s) = Step-Inv s (Reach-Inv r)
