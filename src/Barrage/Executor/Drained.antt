-- ===== src/Barrage/Executor/Drained.antt =====
-- What the threads of an executor come to: how many tasks run, what becomes of a task, and that a
-- pool that was shut down drains.
use testing_hq.Prelude.{
  ℕ, zero, suc, ◌+◌, ◌≤◌, ◌<◌, ◌≡◌, ◌⊎◌, inl, inr, refl, Bool, true, false, not, ◌&&◌, Option, none,
  some, List, [], ◌∷◌, arith, length, Bool-cases, all, count_if, is_empty, nat_beq,
}
use testing_hq.Barrage.Run.{update_at, place}
use testing_hq.Barrage.Executor.{
  Status, pending, running, cancelled, finished, Worker, idle, taken, claimed, busy, gone, returned,
  Pool, make_pool, get_item, discard, start_with, start_task, finish_task,
}
use testing_hq.Barrage.Executor.Moves.{
  Move, gets, discards, starts, finishes, works, Reach, made, later, is_stop, is_task, has_task,
  is_gone, is_open, Inv,
}
use testing_hq.Barrage.Executor.Kept.{Reach-Inv}
use testing_hq.Barrage.Executor.Workers.{is_there}

-- The work that is left for the workers.
abbrev item_work : Option ℕ → ℕ
item_work none = 1
item_work (some i) = 4

abbrev worker_work : Worker → ℕ
worker_work idle = 0
worker_work (taken i) = 3
worker_work (claimed i) = 2
worker_work (busy i) = 1
worker_work gone = 0

abbrev weigh : {A : Type 0} → (A → ℕ) → List A → ℕ
weigh f [] = 0
weigh f (x ∷ xs) = f x + weigh f xs

abbrev pub work : Pool → ℕ
work p = weigh item_work p.queue + weigh worker_work p.workers

weigh-update_at :
    (k : ℕ) (v : Worker) (ws : List Worker) (w : Worker)
    → place k ws ≡ some w
    → weigh worker_work (update_at k (λ old. v) ws) + worker_work w
      ≡ weigh worker_work ws + worker_work v
unfolding update_at place
weigh-update_at k v [] w h = cc
weigh-update_at zero v (u ∷ ws) w h = ground arith
weigh-update_at (suc k) v (u ∷ ws) w h = ground (arith, weigh-update_at k v ws w)

module _ {n : ℕ} {p : Pool} (inv : Inv n p) where
  get-work :
      (k : ℕ) (q : List (Option ℕ))
      → place k p.workers ≡ some idle
      → p.queue ≡ q
      → is_empty p.queue ≡ false
      → work (get_item k p) < work p
  unfolding get_item
  get-work k [] h e f = ground arith
  get-work k (none ∷ rest) h e f = ground (arith, weigh-update_at k gone p.workers idle h)
  get-work k (some i ∷ rest) h e f = ground (arith, weigh-update_at k (taken i) p.workers idle h)

  start-work :
      (k i : ℕ) (o : Option Status)
      → place k p.workers ≡ some (claimed i)
      → place i p.futures ≡ o
      → work (start_task k i p) < work p
  unfolding start_task start_with
  start-work k i none h e = elim (is_there n p inv k i h e) [ ]
  start-work k i (some pending) h e =
      ground (arith, weigh-update_at k (busy i) p.workers (claimed i) h)
  start-work k i (some running) h e = ground (arith, weigh-update_at k gone p.workers (claimed i) h)
  start-work k i (some cancelled) h e =
      ground (arith, weigh-update_at k idle p.workers (claimed i) h)
  start-work k i (some finished) h e =
      ground (arith, weigh-update_at k gone p.workers (claimed i) h)

  Move-work : {q : Pool} → Move p q → work q < work p
  unfolding discard finish_task
  Move-work (gets k h f) = get-work k p.queue h refl f
  Move-work (discards k i h) = ground (arith, weigh-update_at k (claimed i) p.workers (taken i) h)
  Move-work (starts k i h) = start-work k i (place i p.futures) h refl
  Move-work (finishes k i h) = ground (arith, weigh-update_at k idle p.workers (busy i) h)

-- A number of moves of the workers, one behind the other.
pub data Moves (p : Pool) : ℕ → Pool → Type 0 where
  here : Moves p 0 p
  next : {m : ℕ} {q r : Pool} → Moves p m q → Move q r → Moves p (suc m) r

Moves-Reach : {n : ℕ} {p : Pool} {m : ℕ} {q : Pool} → Reach n p → Moves p m q → Reach n q
Moves-Reach r here = r
Moves-Reach r (next ms s) = later (Moves-Reach r ms) (works s)

-- The workers of a pool make at most as many moves as there is work: four for a task in the queue,
-- one for a stop item, and what a worker has left of its task.
pub work_runs_out :
    {n : ℕ} {p : Pool} {m : ℕ} {q : Pool} → Reach n p → Moves p m q → m + work q ≤ work p
work_runs_out r here = omega arith
work_runs_out r (next ms s) =
    omega (arith, work_runs_out r ms, Move-work (Reach-Inv (Moves-Reach r ms)) s)

abbrev is_idle : Worker → Bool
is_idle idle = true
is_idle _ = false

abbrev is_settled : Status → Bool
is_settled s = not (is_open (some s))

-- Every thread returned, nothing is queued, and every future was settled.
abbrev pub is_drained : Pool → Bool
is_drained p =
    is_empty p.queue
    && (nat_beq (count_if is_gone p.workers) (length p.workers) && all is_settled p.futures)

abbrev is_working : Worker → Bool
is_working w = not (is_idle w) && not (is_gone w)

find_worker :
    (f : Worker → Bool) (ws : List Worker)
    → ((k : ℕ) × (w : Worker) × (place k ws ≡ some w) × (f w ≡ true)) ⊎ (count_if f ws ≡ 0)
unfolding place
find_worker f [] = inr refl
find_worker f (w ∷ ws) = elim (find_worker f ws) [
  | inl (k, v, h, t) ↦ inl (suc k, v, h, t)
  | inr z ↦ (elim (Bool-cases (f w)) [ inl t ↦ inl (0, w, refl, t) | inr t ↦ inr (ground arith) ])
]

worker_acts :
    (p : Pool) (k : ℕ) (w : Worker)
    → place k p.workers ≡ some w
    → is_working w ≡ true
    → (q : Pool) × Move p q
worker_acts p k idle h t = cc
worker_acts p k (taken i) h t = (discard k i p, discards k i h)
worker_acts p k (claimed i) h t = (start_task k i p, starts k i h)
worker_acts p k (busy i) h t = (finish_task k i p, finishes k i h)
worker_acts p k gone h t = cc

count-kinds :
    (ws : List Worker)
    → count_if is_working ws + (count_if is_idle ws + count_if is_gone ws) ≡ length ws
count-kinds [] = refl
count-kinds (w ∷ ws) = ground (arith, count-kinds ws)

count-items : (q : List (Option ℕ)) → count_if is_stop q + count_if is_task q ≡ length q
count-items [] = refl
count-items (x ∷ q) = ground (arith, count-items q)

has-le-working : (i : ℕ) (ws : List Worker) → count_if (has_task i) ws ≤ count_if is_working ws
has-le-working i [] = omega arith
has-le-working i (w ∷ ws) = ground (arith, has-le-working i ws)

all_settled :
    (fs : List Status) → ((i : ℕ) → is_open (place i fs) ≡ false) → all is_settled fs ≡ true
unfolding place
all_settled [] h = refl
all_settled (s ∷ fs) h = ground (arith, h 0, all_settled fs (λ i. h (suc i)))

Reach-pos : {n : ℕ} {p : Pool} → Reach n p → 0 < n
unfolding make_pool
Reach-pos {n} (made h) = ground arith
Reach-pos (later r s) = Reach-pos r

-- Once shutdown has returned, some worker can move, or the pool is drained: every thread returned,
-- the queue is empty, and every future is cancelled or finished.
pub drains :
    {n : ℕ} {p : Pool}
    → Reach n p
    → p.caller ≡ returned
    → ((q : Pool) × Move p q) ⊎ (is_drained p ≡ true)
drains {n} {p} r e = elim (find_worker is_working p.workers) [
  | inl (k, w, h, t) ↦ inl (worker_acts p k w h t)
  | inr z ↦ at_rest z p.queue refl
]
  where
    open (Reach-Inv r) use {size, kept, stops, after_stop}

    none_held :
        count_if is_working p.workers ≡ 0
        → p.queue ≡ []
        → (i : ℕ) → is_open (place i p.futures) ≡ false
    none_held z f i = ground (arith, kept i, has-le-working i p.workers)

    empty_behind :
        (x : Option ℕ) (rest : List (Option ℕ))
        → p.queue ≡ x ∷ rest
        → count_if is_working p.workers ≡ 0
        → count_if is_idle p.workers ≡ 0
        → ⊥
    empty_behind x rest f z y =
        ground (
          arith,
          f,
          size,
          stops,
          after_stop,
          count-kinds p.workers,
          count-items p.queue,
          Reach-pos r,
        )

    at_rest :
        count_if is_working p.workers ≡ 0
        → (q : List (Option ℕ)) → p.queue ≡ q
        → ((q : Pool) × Move p q) ⊎ (is_drained p ≡ true)
    at_rest z [] f = inr (ground (arith, size, stops, all_settled p.futures (none_held z f)))
    at_rest z (x ∷ rest) f = elim (find_worker is_idle p.workers) [
      | inl (k, idle, h, t) ↦ inl (get_item k p, gets k h (ground arith))
      | inl (k, taken i, h, t) ↦ cc
      | inl (k, claimed i, h, t) ↦ cc
      | inl (k, busy i, h, t) ↦ cc
      | inl (k, gone, h, t) ↦ cc
      | inr y ↦ elim (empty_behind x rest f z y) [ ]
    ]
