-- ===== src/Service/Operations.antt =====
-- The tracked operations of backend/pc_client/ble_service.py. An operation is known by the number of
-- its `uuid4`, which is new each time; `done` says whether its `asyncio.Event` is set. A result and an
-- error are their texts, a time a number of milliseconds.
pub mod Waiting
use ece4880_project.Prelude.{
  ℕ, suc, ◌+◌, String, Bool, true, false, not, ◌&&◌, ◌||◌, Option, none, some, List, [], ◌∷◌, ◌++◌,
  ltb, ◌==◌, if◌then◌else◌, Result, ok, err, or_raise,
}

pub data OperationState : Type 0 where
  queued running succeeded failed cancelled : OperationState

pub record TrackedOperation : Type 0 where
  pub kind : String
  pub state : OperationState
  pub created_at : ℕ
  pub updated_at : ℕ
  pub persistence_configured : Bool
  pub result : Option String
  pub error : Option (String × String)
  pub done : Bool

abbrev pub Table : Type 0
Table = List (ℕ × TrackedOperation)

pub record Operations : Type 0 where
  pub table : Table
  pub next_id : ℕ

-- `state in {QUEUED, RUNNING}`
abbrev pub is_active : OperationState → Bool
is_active queued = true
is_active running = true
is_active _ = false

-- `_operations.get(operation_id)`
unfoldable pub find : ℕ → Table → Option TrackedOperation
find n [] = none
find n ((m, o) ∷ t) = if n == m then some o else find n t

-- A change of the object that the table holds under a number.
unfoldable pub update : ℕ → (TrackedOperation → TrackedOperation) → Table → Table
update n f [] = []
update n f ((m, o) ∷ t) = if n == m then (m, f o) ∷ t else (m, o) ∷ update n f t

abbrev pub is_expired : ℕ → ℕ → TrackedOperation → Bool
is_expired now retention o = not (is_active o.state) && ltb (o.updated_at + retention) now

unfoldable pub prune_operations : ℕ → ℕ → Table → Table
prune_operations now retention [] = []
prune_operations now retention ((m, o) ∷ t) =
    let rest = prune_operations now retention t in
    if is_expired now retention o then rest else (m, o) ∷ rest

abbrev pub fresh : String → Bool → ℕ → TrackedOperation
fresh kind configured now = record {
  kind = kind;
  state = queued;
  created_at = now;
  updated_at = now;
  persistence_configured = configured;
  result = none;
  error = none;
  done = false;
}

-- `_new_operation`: its number is the old `next_id`.
unfoldable pub new_operation : String → Bool → ℕ → ℕ → Operations → Operations
new_operation kind configured now retention s = record {
  table = prune_operations now retention s.table ++ ((s.next_id, fresh kind configured now) ∷ []);
  next_id = suc s.next_id;
}

-- `operation.state = RUNNING`, by the call that made it or at the start of its task
unfoldable pub mark_running : ℕ → ℕ → Operations → Operations
mark_running n now s = record s {
  table = update n (λ o. record o { state = running; updated_at = now }) s.table;
}

unfoldable pub succeed_operation : ℕ → String → ℕ → Operations → Operations
succeed_operation n result now s = record s {
  table =
      update n
        (λ o. record o { state = succeeded; result = some result; updated_at = now; done = true })
        s.table;
}

unfoldable pub fail_operation : ℕ → String × String → ℕ → Operations → Operations
fail_operation n error now s = record s {
  table =
      update n (λ o. record o { state = failed; error = some error; updated_at = now; done = true })
        s.table;
}

abbrev pub cancelled_by : String → ℕ → TrackedOperation → TrackedOperation
cancelled_by reason now o =
    if is_active o.state
    then record o {
      state = cancelled;
      error = some ("CancelledError", reason);
      updated_at = now;
      done = true;
    }
    else o

unfoldable pub cancel_operation : ℕ → String → ℕ → Operations → Operations
cancel_operation n reason now s = record s { table = update n (cancelled_by reason now) s.table }

pub data Missing : Type 0 where
  operation_not_found : Missing

-- `get_operation`: the operation, and the table that was pruned first.
unfoldable pub get_operation : ℕ → ℕ → ℕ → Operations → Result Missing TrackedOperation × Operations
get_operation n now retention s =
    let kept = prune_operations now retention s.table in
    (or_raise (find n kept) operation_not_found, record s { table = kept })

-- Whether `wait_for_operation` returns at once, or waits for the event.
abbrev pub is_waiting : TrackedOperation → Bool
is_waiting o = is_active o.state && not o.done

-- What the service does with its operations. A task that `_launch_operation` made starts once, while
-- its operation is queued; the other operations run as soon as they are made. An operation succeeds
-- or fails while it is active.
pub data Event : Type 0 where
  created : String → Bool → Event
  starts : ℕ → Event
  succeeds : ℕ → String → Event
  fails : ℕ → String × String → Event
  cancels : ℕ → String → Event
  pruned : Event

abbrev pub was_queued : OperationState → Bool
was_queued queued = true
was_queued _ = false

abbrev pub is_queued : Option TrackedOperation → Bool
is_queued none = false
is_queued (some o) = was_queued o.state

unfoldable pub step : ℕ → ℕ → Operations → Event → Operations
step now retention s (created kind configured) = new_operation kind configured now retention s
step now retention s (starts n) = if is_queued (find n s.table) then mark_running n now s else s
step now retention s (succeeds n result) = succeed_operation n result now s
step now retention s (fails n error) = fail_operation n error now s
step now retention s (cancels n reason) = cancel_operation n reason now s
step now retention s pruned = record s { table = prune_operations now retention s.table }

unfoldable pub run : ℕ → Operations → List (ℕ × Event) → Operations
run retention s [] = s
run retention s ((now, e) ∷ es) = run retention (step now retention s e) es
