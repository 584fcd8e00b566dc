-- ===== src/Scheduler.antt =====
-- backend/pc_client/ble_scheduler.py: `BleRequestScheduler` as a state and its steps. A request's
-- future is known by the request's sequence number; `settled` lists the futures that are done, the
-- last one first. `asyncio.PriorityQueue` is a list in the order of `_ScheduledRequest`.
pub mod Order
pub mod Settling
use ece4880_project.Prelude.{
  ℕ, zero, suc, ◌+◌, Bool, true, false, not, ◌&&◌, ◌||◌, Option, none, some, List, [], ◌∷◌, ltb,
  ◌==◌, if◌then◌else◌,
}
use ece4880_project.Futures.{is_done, settle}

pub data RequestPriority : Type 0 where
  display current history : RequestPriority

abbrev pub priority_number : RequestPriority → ℕ
priority_number display = 0
priority_number current = 10
priority_number history = 20

-- The name and the action of a request do not bear on its order.
pub record ScheduledRequest : Type 0 where
  pub priority : ℕ
  pub sequence : ℕ

-- `_ScheduledRequest.__lt__`: by priority, then by sequence
abbrev pub before : ScheduledRequest → ScheduledRequest → Bool
before a b = ltb a.priority b.priority || (a.priority == b.priority && ltb a.sequence b.sequence)

pub data Settled : Type 0 where
  result failed cancelled : Settled

pub record Scheduler : Type 0 where
  pub queue : List ScheduledRequest
  pub next_sequence : ℕ
  pub running : Option ScheduledRequest
  pub settled : List (ℕ × Settled)
  pub working : Bool

abbrev pub was_cancelled : Settled → Bool
was_cancelled cancelled = true
was_cancelled _ = false

-- `future.cancelled()`
abbrev pub is_cancelled : ℕ → List (ℕ × Settled) → Bool
is_cancelled n [] = false
is_cancelled n ((m, o) ∷ rest) = (n == m && was_cancelled o) || is_cancelled n rest

-- `PriorityQueue.put`
unfoldable pub put : ScheduledRequest → List ScheduledRequest → List ScheduledRequest
put r [] = r ∷ []
put r (q ∷ qs) = if before r q then r ∷ (q ∷ qs) else q ∷ put r qs

-- `submit`, up to its wait for the future: it raises where the service is not ready.
unfoldable pub submit : Bool → RequestPriority → Scheduler → Scheduler
submit ready priority s =
    if ready
    then record s {
      queue =
          put (record { priority = priority_number priority; sequence = s.next_sequence }) s.queue;
      next_sequence = suc s.next_sequence;
    }
    else s

-- A caller that waits with a timeout cancels the future.
unfoldable pub cancel : ℕ → Scheduler → Scheduler
cancel n s = record s { settled = settle n cancelled s.settled }

-- `start`: there is a worker, the one that was there or a new one.
unfoldable pub start : Scheduler → Scheduler
start s = record s { working = true }

-- `_run` takes the next request: one that was cancelled is passed over, and one that finds the
-- service not ready fails.
abbrev pub take_next : Bool → Scheduler → List ScheduledRequest → Scheduler
take_next ready s [] = s
take_next ready s (r ∷ rest) =
    if is_cancelled r.sequence s.settled
    then record s { queue = rest }
    else if ready
    then record s { queue = rest; running = some r }
    else record s { queue = rest; settled = settle r.sequence failed s.settled }

abbrev pub start_next : Bool → Scheduler → Option ScheduledRequest → Scheduler
start_next ready s none = take_next ready s s.queue
start_next ready s (some r) = s

unfoldable pub run_next : Bool → Scheduler → Scheduler
run_next ready s = if s.working then start_next ready s s.running else s

-- The running action returns or raises; `CancelledError` ends the worker too.
abbrev pub end_running : Settled → Scheduler → Option ScheduledRequest → Scheduler
end_running outcome s none = s
end_running outcome s (some r) = record s {
  running = none;
  settled = settle r.sequence outcome s.settled;
  working = s.working && not (was_cancelled outcome);
}

unfoldable pub finish : Settled → Scheduler → Scheduler
finish outcome s = end_running outcome s s.running

-- `fail_pending`, on the queue that is left
unfoldable pub fail_pending : List ScheduledRequest → List (ℕ × Settled) → List (ℕ × Settled)
fail_pending [] done = done
fail_pending (r ∷ rest) done = fail_pending rest (settle r.sequence failed done)

-- `stop`: the worker is cancelled, then what is queued fails.
unfoldable pub stop : Scheduler → Scheduler
unfolding finish
stop s =
    let s' = finish cancelled s in
    record s' { queue = []; settled = fail_pending s'.queue s'.settled; working = false }

pub data Event : Type 0 where
  submitted : Bool → RequestPriority → Event
  caller_cancelled : ℕ → Event
  started : Event
  taken : Bool → Event
  finished : Settled → Event
  stopped : Event

unfoldable pub step : Scheduler → Event → Scheduler
step s (submitted ready priority) = submit ready priority s
step s (caller_cancelled n) = cancel n s
step s started = start s
step s (taken ready) = run_next ready s
step s (finished outcome) = finish outcome s
step s stopped = stop s

unfoldable pub run : Scheduler → List Event → Scheduler
run s [] = s
run s (e ∷ es) = run (step s e) es

abbrev pub initial : Scheduler
initial = record { queue = []; next_sequence = 0; running = none; settled = []; working = false }
