-- ===== src/Lifecycle.antt =====
-- backend/pc_client/service_state.py, the connection lifecycle's snapshots, and the method
-- `_transition` of backend/pc_client/ble_service.py, their only writer. A target is its address, a
-- time a number of milliseconds, a reason or an error its text.
pub mod Consistency
use ece4880_project.Prelude.{
  ℕ, suc, ◌+◌, String, Bool, true, false, not, ◌&&◌, Option, none, some, Result, ok, err, ◌>>=◌,
  ◌>>◌, refuse, List, [], ◌∷◌,
}

pub data ConnectionPhase : Type 0 where
  stopped discovering selection_required authentication_required pairing : ConnectionPhase
  connecting verifying connected reconnecting disconnecting disconnected : ConnectionPhase

pub data CredentialState : Type 0 where
  missing available verified rejected : CredentialState

pub record ControllerState : Type 0 where
  pub phase : ConnectionPhase
  pub desired_connected : Bool
  pub target : Option String
  pub connected : Bool
  pub ready : Bool
  pub credential_state : CredentialState
  pub retry_count : ℕ
  pub next_retry_at_utc : Option ℕ
  pub last_seen_utc : Option ℕ
  pub last_error : Option String
  pub revision : ℕ
  pub changed_at_utc : ℕ
  pub reason : String

-- The keyword arguments of `_transition`: `none` where the argument is `None` or `_UNCHANGED`.
pub record Changes : Type 0 where
  pub phase : Option ConnectionPhase
  pub desired_connected : Option Bool
  pub target : Option (Option String)
  pub connected : Option Bool
  pub ready : Option Bool
  pub credential_state : Option CredentialState
  pub retry_count : Option ℕ
  pub next_retry_at_utc : Option (Option ℕ)
  pub last_seen_utc : Option (Option ℕ)
  pub last_error : Option (Option String)
  pub reason : String

pub data Violation : Type 0 where
  ready_without_transport connected_not_ready stopped_but_desired : Violation

abbrev pub is_connected_phase : ConnectionPhase → Bool
is_connected_phase ConnectionPhase.connected = true
is_connected_phase _ = false

abbrev pub is_stopped : ConnectionPhase → Bool
is_stopped stopped = true
is_stopped _ = false

abbrev pub or_keep {ℓ} : {A : Type ℓ} → Option A → A → A
or_keep none old = old
or_keep (some new) old = new

-- `dataclasses.replace(previous, …)`
unfoldable pub replaced : ControllerState → ℕ → Changes → ControllerState
replaced previous now changes = record {
  phase = or_keep changes.phase previous.phase;
  desired_connected = or_keep changes.desired_connected previous.desired_connected;
  target = or_keep changes.target previous.target;
  connected = or_keep changes.connected previous.connected;
  ready = or_keep changes.ready previous.ready;
  credential_state = or_keep changes.credential_state previous.credential_state;
  retry_count = or_keep changes.retry_count previous.retry_count;
  next_retry_at_utc = or_keep changes.next_retry_at_utc previous.next_retry_at_utc;
  last_seen_utc = or_keep changes.last_seen_utc previous.last_seen_utc;
  last_error = or_keep changes.last_error previous.last_error;
  revision = previous.revision + 1;
  changed_at_utc = now;
  reason = changes.reason;
}

-- the tests of `transition_state` on the new snapshot
unfoldable pub checked : ControllerState → Result Violation ControllerState
checked state = do
  refuse (state.ready && not state.connected) ready_without_transport
  refuse (is_connected_phase state.phase && not (state.connected && state.ready))
      connected_not_ready
  refuse (is_stopped state.phase && state.desired_connected) stopped_but_desired
  ok state

unfoldable pub transition_state : ControllerState → ℕ → Changes → Result Violation ControllerState
transition_state previous now changes = checked (replaced previous now changes)

-- `_transition`: a snapshot that is refused raises, and the controller keeps the one before.
unfoldable pub transition : ControllerState → ℕ × Changes → ControllerState
transition state (now, changes) = elim (transition_state state now changes) [
  | ok next ↦ next
  | err _ ↦ state
]

pub transitions : ControllerState → List (ℕ × Changes) → ControllerState
transitions state [] = state
transitions state (c ∷ cs) = transitions (transition state c) cs
