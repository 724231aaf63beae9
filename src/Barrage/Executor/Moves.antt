-- ===== src/Barrage/Executor/Moves.antt =====
-- The executor as a system of threads, and what holds in every state that it reaches.
use testing_hq.Prelude.{
  ℕ, ◌+◌, ◌≤◌, ◌<◌, ◌≡◌, Bool, true, false, not, ◌&&◌, Option, none, some, List, [], ◌∷◌, length,
  count_if, is_empty, is_some, nat_beq,
}
use testing_hq.Barrage.Run.{place}
use testing_hq.Barrage.Executor.{
  Status, pending, running, finished, Worker, idle, taken, claimed, busy, gone, Caller, submitting,
  cancelling, stopping, returned, Pool, make_pool, submit, accepted, get_item, discard, start_task,
  finish_task, begin_shutdown, go_on,
}
use testing_hq.Barrage.Executor.Counts.{one_if}

-- What a worker can do.
pub data Move (p : Pool) : Pool → Type 0 where
  gets : (k : ℕ) → place k p.workers ≡ some idle → is_empty p.queue ≡ false → Move p (get_item k p)
  discards : (k i : ℕ) → place k p.workers ≡ some (taken i) → Move p (discard k i p)
  starts : (k i : ℕ) → place k p.workers ≡ some (claimed i) → Move p (start_task k i p)
  finishes : (k i : ℕ) → place k p.workers ≡ some (busy i) → Move p (finish_task k i p)

-- What some thread can do. The submitting thread calls `shutdown` once.
pub data Step (p : Pool) : Pool → Type 0 where
  works : {q : Pool} → Move p q → Step p q
  submits : {q : Pool} → submit p ≡ accepted q → Step p q
  shuts_down :
      (cancel_pending : Bool) → p.is_closed ≡ false → Step p (begin_shutdown cancel_pending p)
  goes_on : Step p (go_on p)

pub data Reach (n : ℕ) : Pool → Type 0 where
  made : {p : Pool} → make_pool n ≡ some p → Reach n p
  later : {p q : Pool} → Reach n p → Step p q → Reach n q

abbrev pub is_item : ℕ → Option ℕ → Bool
is_item i none = false
is_item i (some j) = nat_beq i j

abbrev pub is_stop : Option ℕ → Bool
is_stop item = not (is_some item)

abbrev pub is_task : Option ℕ → Bool
is_task item = is_some item

abbrev pub has_task : ℕ → Worker → Bool
has_task i idle = false
has_task i (taken j) = nat_beq i j
has_task i (claimed j) = nat_beq i j
has_task i (busy j) = nat_beq i j
has_task i gone = false

abbrev pub runs_task : ℕ → Worker → Bool
runs_task i idle = false
runs_task i (taken j) = false
runs_task i (claimed j) = false
runs_task i (busy j) = nat_beq i j
runs_task i gone = false

abbrev pub is_gone : Worker → Bool
is_gone gone = true
is_gone _ = false

abbrev pub is_running : Option Status → Bool
is_running (some running) = true
is_running _ = false

-- A future that nobody has settled.
abbrev pub is_open : Option Status → Bool
is_open (some pending) = true
is_open (some running) = true
is_open _ = false

abbrev pub is_finished : Option Status → Bool
is_finished (some finished) = true
is_finished _ = false

-- How often a task is in the queue or with a worker.
abbrev pub tokens : ℕ → Pool → ℕ
tokens i p = count_if (is_item i) p.queue + count_if (has_task i) p.workers

-- The stop items that `shutdown` has still to put.
abbrev pub stops_due : ℕ → Caller → ℕ
stops_due n submitting = n
stops_due n (cancelling is) = n
stops_due n (stopping k) = k
stops_due n returned = 0

abbrev pub has_shut : Caller → Bool
has_shut submitting = false
has_shut _ = true

-- No task stands behind a stop item.
abbrev pub tasks_first : List (Option ℕ) → Bool
tasks_first [] = true
tasks_first (some i ∷ q) = tasks_first q
tasks_first (none ∷ q) = nat_beq (count_if is_task q) 0 && tasks_first q

-- Every task is in one place until it is settled, and it is running where a worker runs it; the stop
-- items are as many as the workers, and come last.
pub record Inv (n : ℕ) (p : Pool) : Type 0 where
  pub size : length p.workers ≡ n
  pub unique : (i : ℕ) → tokens i p ≤ 1
  pub known : (i : ℕ) → length p.futures ≤ i → tokens i p ≡ 0
  pub kept : (i : ℕ) → is_open (place i p.futures) ≡ true → tokens i p ≡ 1
  pub over : (i : ℕ) → is_finished (place i p.futures) ≡ true → tokens i p ≡ 0
  pub running_once :
      (i : ℕ) → count_if (runs_task i) p.workers ≡ one_if (is_running (place i p.futures))
  pub stops : count_if is_stop p.queue + (count_if is_gone p.workers + stops_due n p.caller) ≡ n
  pub last : tasks_first p.queue ≡ true
  pub after_stop : 0 < count_if is_gone p.workers → count_if is_task p.queue ≡ 0
  pub shut : p.is_closed ≡ has_shut p.caller
