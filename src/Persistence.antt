-- ===== src/Persistence.antt =====
-- backend/pc_client/persistence_worker.py: `PersistenceWorker` as a state and its steps, and
-- `PersistenceResult` of backend/pc_client/database_adapter.py. A request is known by the number of
-- its future, which counts the calls of `enqueue`; its method and its value are only handed on to
-- the adapter.
pub mod Bounded
pub mod Flushed
use ece4880_project.Prelude.{
  ℕ, zero, suc, ◌+◌, Bool, true, false, Option, none, some, List, [], ◌∷◌, ◌++◌, ltb, leb,
  if◌then◌else◌, length, Result, ok, err,
}
use ece4880_project.Futures.{settle}

pub data Detail : Type 0 where
  queue_full worker_stopped adapter_raised stopped_before_completed : Detail
  adapter_detail : Detail

pub record PersistenceResult : Type 0 where
  pub configured : Bool
  pub persisted : Bool
  pub detail : Option Detail

-- The worker's task: `None`, one that runs, or one that is done.
pub data Task : Type 0 where
  no_task alive ended : Task

pub record PersistenceWorker : Type 0 where
  pub queue : List ℕ
  pub capacity : ℕ
  pub overflow_count : ℕ
  pub next_future : ℕ
  pub running : Option ℕ
  pub settled : List (ℕ × PersistenceResult)
  pub task : Task

pub data Invalid : Type 0 where
  capacity_not_positive : Invalid

-- `__init__`
unfoldable pub make : ℕ → Result Invalid PersistenceWorker
make capacity =
    if leb capacity 0
    then err capacity_not_positive
    else ok (record {
      queue = [];
      capacity = capacity;
      overflow_count = 0;
      next_future = 0;
      running = none;
      settled = [];
      task = no_task;
    })

pub record PersistenceHealth : Type 0 where
  pub pending : ℕ
  pub capacity : ℕ
  pub overflow_count : ℕ

unfoldable pub health : PersistenceWorker → PersistenceHealth
health w = record {
  pending = length w.queue;
  capacity = w.capacity;
  overflow_count = w.overflow_count;
}

abbrev pub started : Task → Task
started no_task = alive
started alive = alive
started ended = alive

unfoldable pub start : PersistenceWorker → PersistenceWorker
start w = record w { task = started w.task }

abbrev pub failure : Bool → Detail → PersistenceResult
failure configured detail = record {
  configured = configured;
  persisted = false;
  detail = some detail;
}

-- `put_nowait` raises `QueueFull` where the queue has reached its capacity.
unfoldable pub enqueue : Bool → PersistenceWorker → PersistenceWorker
enqueue configured w =
    if ltb (length w.queue) w.capacity
    then record w { queue = w.queue ++ (w.next_future ∷ []); next_future = suc w.next_future }
    else record w {
      overflow_count = w.overflow_count + 1;
      settled = settle w.next_future (failure configured queue_full) w.settled;
      next_future = suc w.next_future;
    }

-- `_run` takes the next request, if it waits for one.
abbrev pub take_next : PersistenceWorker → Task → Option ℕ → List ℕ → PersistenceWorker
take_next w alive none (n ∷ rest) = record w { queue = rest; running = some n }
take_next w _ _ _ = w

unfoldable pub run_next : PersistenceWorker → PersistenceWorker
run_next w = take_next w w.task w.running w.queue

-- What the adapter's call comes to: a result, an exception, or the cancellation of the task.
pub data Executed : Type 0 where
  returned : PersistenceResult → Executed
  raised cancelled : Executed

abbrev pub result_of : Bool → Executed → PersistenceResult
result_of configured (returned result) = result
result_of configured raised = failure configured adapter_raised
result_of configured cancelled = failure configured worker_stopped

abbrev pub task_after : Executed → Task → Task
task_after cancelled task = ended
task_after _ task = task

abbrev pub end_running : Bool → Executed → PersistenceWorker → Option ℕ → PersistenceWorker
end_running configured e w none = w
end_running configured e w (some n) = record w {
  running = none;
  settled = settle n (result_of configured e) w.settled;
  task = task_after e w.task;
}

unfoldable pub finish : Bool → Executed → PersistenceWorker → PersistenceWorker
finish configured e w = end_running configured e w w.running

unfoldable pub fail_pending :
    Bool → Detail → List ℕ → List (ℕ × PersistenceResult) → List (ℕ × PersistenceResult)
fail_pending configured detail [] settled = settled
fail_pending configured detail (n ∷ rest) settled =
    fail_pending configured detail rest (settle n (failure configured detail) settled)

-- The end of `stop`, after it has waited for the queue: what happens in the wait are other events.
abbrev pub stop_task : Bool → PersistenceWorker → Task → PersistenceWorker
stop_task configured w no_task = w
stop_task configured w _ =
    let w' = finish configured cancelled w in
    record w' {
      queue = [];
      settled = fail_pending configured stopped_before_completed w'.queue w'.settled;
      task = no_task;
    }

unfoldable pub stop : Bool → PersistenceWorker → PersistenceWorker
stop configured w = stop_task configured w w.task

pub data Event : Type 0 where
  starts taken : Event
  enqueued stopped : Bool → Event
  finished : Bool → Executed → Event

unfoldable pub step : PersistenceWorker → Event → PersistenceWorker
step w starts = start w
step w taken = run_next w
step w (enqueued configured) = enqueue configured w
step w (stopped configured) = stop configured w
step w (finished configured e) = finish configured e w

unfoldable pub run : PersistenceWorker → List Event → PersistenceWorker
run w [] = w
run w (e ∷ es) = run (step w e) es
