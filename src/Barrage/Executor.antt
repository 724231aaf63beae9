-- ===== src/Barrage/Executor.antt =====
-- `PoolExecutor` of testinghq/barrage/executor.py: worker threads, the queue, the futures, and the
-- thread that submits and shuts down. A future is its number, in the order of submission; what the
-- task computes is left out. Each function is what a thread does between two points at which
-- another may come in.
mod Counts
mod Moves
mod Workers
mod Kept
mod Running
mod Settled
mod Drained
mod Examples
use testing_hq.Prelude.{
  ℕ, zero, suc, ◌+◌, ◌*◌, Bool, true, false, not, ◌&&◌, ◌||◌, Option, none, some, List, [], ◌∷◌,
  ◌++◌, length, keep_if, all, count_if, is_empty, nat_beq, if◌then◌else◌,
}
use testing_hq.Barrage.Run.{update_at, place}

pub data Status : Type 0 where
  pending running cancelled finished : Status

-- A worker waits for an item, has taken one, has taken it off the pending set, runs it, or returned.
pub data Worker : Type 0 where
  idle : Worker
  taken : ℕ → Worker
  claimed : ℕ → Worker
  busy : ℕ → Worker
  gone : Worker

-- The submitting thread: before `shutdown`, cancelling what was pending, putting the stop items, and
-- behind it.
pub data Caller : Type 0 where
  submitting : Caller
  cancelling : List ℕ → Caller
  stopping : ℕ → Caller
  returned : Caller

-- A None in the queue is `none`.
pub record Pool : Type 0 where
  pub workers : List Worker
  pub queue : List (Option ℕ)
  pub pending_set : List ℕ
  pub futures : List Status
  pub is_closed : Bool
  pub caller : Caller

unfoldable pub idle_workers : ℕ → List Worker
idle_workers zero = []
idle_workers (suc n) = idle ∷ idle_workers n

-- PoolExecutor(max_workers); None stands for the ValueError.
unfoldable pub make_pool : ℕ → Option Pool
unfolding idle_workers
make_pool n =
    if nat_beq n 0
    then none
    else some (record {
      workers = idle_workers n;
      queue = [];
      pending_set = [];
      futures = [];
      is_closed = false;
      caller = submitting;
    })

-- The RuntimeError of `submit`, or the pool behind it. Until the item is in the queue no worker sees
-- what was done before.
pub data Submitted : Type 0 where
  runtime_error : Submitted
  accepted : Pool → Submitted

abbrev pub enqueue : Pool → Pool
enqueue p = record p {
  futures = p.futures ++ pending ∷ [];
  pending_set = length p.futures ∷ p.pending_set;
  queue = p.queue ++ some (length p.futures) ∷ [];
}

unfoldable pub submit : Pool → Submitted
submit p = if p.is_closed then runtime_error else accepted (enqueue p)

abbrev set_worker : ℕ → Worker → Pool → Pool
set_worker k w p = record p { workers = update_at k (λ old. w) p.workers }

abbrev set_status : ℕ → Status → Pool → Pool
set_status i s p = record p { futures = update_at i (λ old. s) p.futures }

-- `self._queue.get()`, of a queue that is not empty.
unfoldable pub get_item : ℕ → Pool → Pool
unfolding update_at
get_item k p = elim p.queue [
  | [] ↦ p
  | none ∷ rest ↦ set_worker k gone (record p { queue = rest })
  | some i ∷ rest ↦ set_worker k (taken i) (record p { queue = rest })
]

abbrev other_than : ℕ → ℕ → Bool
other_than i j = not (nat_beq i j)

-- `self._pending.discard(future)`
unfoldable pub discard : ℕ → ℕ → Pool → Pool
unfolding update_at
discard k i p =
    set_worker k (claimed i) (record p { pending_set = keep_if (other_than i) p.pending_set })

-- `future.set_running_or_notify_cancel()`: a future that was cancelled is left alone. Where it is
-- running or finished the method raises, which ends the thread.
unfoldable pub start_with : ℕ → ℕ → Pool → Option Status → Pool
unfolding update_at
start_with k i p none = p
start_with k i p (some pending) = set_worker k (busy i) (set_status i running p)
start_with k i p (some running) = set_worker k gone p
start_with k i p (some cancelled) = set_worker k idle p
start_with k i p (some finished) = set_worker k gone p

unfoldable pub start_task : ℕ → ℕ → Pool → Pool
unfolding start_with place
start_task k i p = start_with k i p (place i p.futures)

-- `future.set_result(...)` or `future.set_exception(...)`
unfoldable pub finish_task : ℕ → ℕ → Pool → Pool
unfolding update_at
finish_task k i p = set_worker k idle (set_status i finished p)

-- The part of `shutdown` that holds the lock.
unfoldable pub begin_shutdown : Bool → Pool → Pool
begin_shutdown cancel_pending p = record p {
  is_closed = true;
  pending_set = [];
  caller = (if cancel_pending then cancelling p.pending_set else stopping (length p.workers));
}

abbrev pub cancel_status : Status → Status
cancel_status pending = cancelled
cancel_status running = running
cancel_status cancelled = cancelled
cancel_status finished = finished

-- The rest of `shutdown`: `future.cancel()` of each, then a None for each thread.
unfoldable pub go_from : Caller → Pool → Pool
unfolding update_at
go_from submitting p = p
go_from (cancelling []) p = record p { caller = stopping (length p.workers) }
go_from (cancelling (i ∷ is)) p = record p {
  caller = cancelling is;
  futures = update_at i cancel_status p.futures;
}
go_from (stopping zero) p = record p { caller = returned }
go_from (stopping (suc n)) p = record p { caller = stopping n; queue = p.queue ++ none ∷ [] }
go_from returned p = p

unfoldable pub go_on : Pool → Pool
unfolding go_from
go_on p = go_from p.caller p
