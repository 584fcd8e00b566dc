-- ===== src/Service/Controller.antt =====
-- The connection state of `ThermometerBleService` in backend/pc_client/ble_service.py, and what every
-- part of it uses: `_transition`, the manager's queue of events, the pending connect operation. An
-- address is its lower-case text, by which the source compares addresses, and a discovered
-- thermometer its address. A client is known by the number of clients made before it.
use ece4880_project.Prelude.{
  ℕ, String, Bool, true, false, not, ◌&&◌, ◌||◌, Option, none, some, List, [], ◌∷◌, ◌++◌, ◌==◌,
  if◌then◌else◌, Result, ok, err, str_eq,
}
use ece4880_project.Lifecycle.{
  CredentialState, ControllerState, Changes, Violation, transition_state, stopped,
}
use ece4880_project.Service.Operations.{
  Operations, succeed_operation, fail_operation, cancel_operation,
}

-- `LifecycleEvent`, with the target's generation; a lost link names the client, if it is known.
pub data LifecycleEvent : Type 0 where
  start_event intent_changed stop_event : ℕ → LifecycleEvent
  discovery_result : ℕ → List String → LifecycleEvent
  link_lost : ℕ → Option ℕ → String → LifecycleEvent

pub record Controller : Type 0 where
  pub started : Bool
  pub state : ControllerState
  pub clock : ℕ
  pub target_generation : ℕ
  pub verified_bond_address : Option String
  pub connection_attempt_id : ℕ
  pub target_passkey : Option (List ℕ)
  pub credential_from_registry : Bool
  pub client : Option ℕ
  pub clients_made : ℕ
  pub pending_discovery : Option (List String)
  pub manager_events : List LifecycleEvent
  pub pending_connect : Option ℕ
  pub operations : Operations
  pub last_boot_id : Option ℕ
  pub history_previous_boot_id : Option ℕ
  pub history_is_new_boot : Bool
  pub persistence_configured : Bool

-- `__init__`
abbrev pub created_service : ℕ → Bool → Controller
created_service now configured = record {
  started = false;
  state = record {
    phase = stopped;
    desired_connected = false;
    target = none;
    connected = false;
    ready = false;
    credential_state = CredentialState.missing;
    retry_count = 0;
    next_retry_at_utc = none;
    last_seen_utc = none;
    last_error = none;
    revision = 0;
    changed_at_utc = now;
    reason = "service created";
  };
  clock = now;
  target_generation = 0;
  verified_bond_address = none;
  connection_attempt_id = 0;
  target_passkey = none;
  credential_from_registry = false;
  client = none;
  clients_made = 0;
  pending_discovery = none;
  manager_events = [];
  pending_connect = none;
  operations = record { table = []; next_id = 0 };
  last_boot_id = none;
  history_previous_boot_id = none;
  history_is_new_boot = false;
  persistence_configured = configured;
}

-- What a call raises. The state comes back with it, since what was written stays written.
pub data Raise : Type 0 where
  violation : Violation → Raise
  authentication_required conflict invalid_value : Raise

abbrev pub Act : Type 0 → Type 0
Act A = Result (Raise × Controller) A

-- A transition that keeps all but the reason.
abbrev pub because : String → Changes
because reason = record {
  phase = none;
  desired_connected = none;
  target = none;
  connected = none;
  ready = none;
  credential_state = none;
  retry_count = none;
  next_retry_at_utc = none;
  last_seen_utc = none;
  last_error = none;
  reason = reason;
}

abbrev pub published : Controller → Result Violation ControllerState → Act Controller
published s (ok next) = ok (record s { state = next })
published s (err v) = err (violation v, s)

-- `_transition`
unfoldable pub become : Changes → Controller → Act Controller
become changes s = published s (transition_state s.state s.clock changes)

abbrev pub is_stop : LifecycleEvent → Bool
is_stop (stop_event g) = true
is_stop _ = false

-- `_post_manager_event`
unfoldable pub post_manager_event : LifecycleEvent → Controller → Controller
post_manager_event e s =
    if not s.started && not (is_stop e)
    then s
    else record s { manager_events = s.manager_events ++ (e ∷ []) }

abbrev pub cancel_pending : Option ℕ → String → Controller → Controller
cancel_pending none reason s = s
cancel_pending (some n) reason s = record s {
  operations = cancel_operation n reason s.clock s.operations;
  pending_connect = none;
}

abbrev pub target_text : Option String → String
target_text none = "None"
target_text (some address) = address

-- `_complete_pending_connect`
unfoldable pub complete_pending_connect : Controller → Option ℕ → Controller
complete_pending_connect s none = s
complete_pending_connect s (some n) = record s {
  operations = succeed_operation n (target_text s.state.target) s.clock s.operations;
  pending_connect = none;
}

-- `_fail_pending_connect`
unfoldable pub fail_pending_connect : String → Controller → Option ℕ → Controller
fail_pending_connect message s none = s
fail_pending_connect message s (some n) = record s {
  operations = fail_operation n ("RuntimeError", message) s.clock s.operations;
  pending_connect = none;
}

abbrev pub same_address : Option String → String → Bool
same_address none address = false
same_address (some a) address = str_eq a address

abbrev pub same_number : Option ℕ → Option ℕ → Bool
same_number none none = true
same_number (some a) (some b) = a == b
same_number _ _ = false

-- `self._client = None` where it is this client
abbrev pub dropped : ℕ → Controller → Controller
dropped c s = if same_number s.client (some c) then record s { client = none } else s

-- `not self._desired_connected or selected_generation != self._target_generation`
abbrev pub is_superseded : ℕ → Controller → Bool
is_superseded generation s =
    not s.state.desired_connected || not (generation == s.target_generation)
