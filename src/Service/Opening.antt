-- ===== src/Service/Opening.antt =====
-- `_open_connection` of backend/pc_client/ble_service.py, step by step, with what the connection
-- manager does with its outcome; then `_supervise_connection_manager`, and a turn of the manager.
use ece4880_project.Prelude.{
  ℕ, ◌+◌, String, Bool, true, false, not, Option, none, some, List, ◌==◌, if◌then◌else◌, ok, ◌>>=◌,
}
use ece4880_project.Lifecycle.{
  ConnectionPhase, CredentialState, Changes, discovering, pairing, connecting, verifying, connected,
  reconnecting, disconnected,
}
use ece4880_project.Service.Controller.{
  Controller, intent_changed, because, become, post_manager_event, complete_pending_connect,
  fail_pending_connect, same_address, dropped, is_superseded,
}
use ece4880_project.Service.Manager.{
  Settings, Attempt, Place, at_top, waiting, waiting_ready, losing, losing_watched, cleaning,
  abandoning, scanning, rescanning, opening, pairing_with, connecting_with, authenticating_with,
  reading_with, returning, loading_boot, Fault, credential_refused, other_fault, Input, resumes,
  timed_out, woken, closed, step_done, cancelled, scanned, failed, read_snapshot, returned,
  boot_loaded, Turn, moved, is_disconnected, take_event, link_checked, opened, discovered,
  round_begins,
}

-- The bond is known: the transport is opened.
unfoldable pub connect_step : Attempt → Controller → Turn
connect_step a s = moved (connecting_with a) (
    become
      (record (because "opening GATT transport with process-verified bond") {
        phase = some connecting;
        connected = some false;
        ready = some false;
      })
      s)

-- The start of `_open_connection`
unfoldable pub open_begins : Attempt → Controller → Turn
open_begins a s =
    if same_address s.verified_bond_address a.address
    then connect_step a s
    else moved (pairing_with a) (
        become
          (record (because "ensuring authenticated Windows bond") {
            phase = some pairing;
            connected = some false;
            ready = some false;
            credential_state = some CredentialState.available;
            next_retry_at_utc = some none;
          })
          s)

-- After `pair`. A superseded attempt closes its own client and comes to nothing.
unfoldable pub paired : Attempt → Controller → Turn
paired a s =
    if is_superseded a.generation s
    then ok (at_top, s)
    else connect_step a (record s { verified_bond_address = some a.address })

-- After `connect`
unfoldable pub transport_open : Attempt → Controller → Turn
transport_open a s =
    if is_superseded a.generation s
    then ok (at_top, s)
    else moved (authenticating_with a) (
        become
          (record (because "verifying application authentication and protocol") {
            phase = some verifying;
            connected = some true;
            ready = some false;
          })
          (record s { client = some a.client }))

-- After `authenticate`
unfoldable pub authenticated : Attempt → Controller → Turn
authenticated a s =
    if is_superseded a.generation s then ok (at_top, dropped a.client s) else ok (reading_with a, s)

abbrev pub differs : Option ℕ → ℕ → Bool
differs none boot = false
differs (some previous) boot = not (previous == boot)

-- The manager's part after a snapshot, once the previous boot is known: the connection is ready.
abbrev pub protocol_verified : Attempt → ℕ → Changes
protocol_verified a now = record (because "protected protocol verified") {
  phase = some connected;
  target = some (some a.address);
  connected = some true;
  ready = some true;
  credential_state = some CredentialState.verified;
  retry_count = some 0;
  next_retry_at_utc = some none;
  last_seen_utc = some (some now);
  last_error = some none;
}

abbrev pub booted : ℕ → Option ℕ → Controller → Controller
booted boot previous s = record s {
  history_previous_boot_id = previous;
  history_is_new_boot = differs previous boot;
  last_boot_id = some boot;
  credential_from_registry = true;
}

unfoldable pub verified : Attempt → ℕ → Option ℕ → Controller → Turn
verified a boot previous s = do
  s' ← become (protocol_verified a s.clock) (booted boot previous s)
  ok (at_top, complete_pending_connect s' s'.pending_connect)

-- The boot before: the one that is known, or the database's, which may answer later.
abbrev pub with_boot : Attempt → ℕ → Option (Option ℕ) → Option ℕ → Controller → Turn
with_boot a boot loaded (some previous) s = verified a boot (some previous) s
with_boot a boot (some previous) none s = verified a boot previous s
with_boot a boot none none s = ok (loading_boot a boot, s)

-- After `get_current`, the end of the attempt's task: the manager has yet to go on.
unfoldable pub snapshot_read : Attempt → ℕ → Controller → Turn
snapshot_read a boot s =
    if is_superseded a.generation s then ok (at_top, s) else ok (returning a boot, s)

abbrev pub retry_phase : Option String → ConnectionPhase
retry_phase none = discovering
retry_phase (some a) = reconnecting

abbrev pub retry_reason : Option String → String
retry_reason none = "discovery probe failed; next probe scheduled"
retry_reason (some a) = "connection attempt failed; retry scheduled"

-- a refusal
abbrev pub refusal : String → Changes
refusal message = record (because "device rejected the stored or supplied credential") {
  phase = some ConnectionPhase.authentication_required;
  connected = some false;
  ready = some false;
  credential_state = some CredentialState.rejected;
  next_retry_at_utc = some none;
  last_error = some (some message);
}

-- what a refusal leaves
abbrev pub after_refusal : String → Controller → Controller
after_refusal message s =
    fail_pending_connect message
      (record s { target_passkey = none; credential_from_registry = false }) s.pending_connect

abbrev pub handled : Settings → Fault → Controller → Turn
handled settings (credential_refused message) s =
    moved cleaning (become (refusal message) (after_refusal message s))
handled settings (other_fault message) s = moved cleaning (
    become
      (record (because (retry_reason s.state.target)) {
        phase = some (retry_phase s.state.target);
        connected = some false;
        ready = some false;
        retry_count = some (s.state.retry_count + 1);
        next_retry_at_utc = some (some (s.clock + settings.auto_discovery_interval));
        last_error = some (some message);
      })
      (fail_pending_connect message s s.pending_connect))

-- The handler of an exception, up to its wait for the client to be closed.
unfoldable pub round_failed : Settings → Fault → Controller → Turn
round_failed settings fault s =
    if not s.state.desired_connected then ok (abandoning, s) else handled settings fault s

-- The end of the handler where no connection is wanted any more.
unfoldable pub abandoned : Controller → Turn
abandoned s =
    if is_disconnected s.state.phase
    then ok (at_top, s)
    else moved at_top (
        become
          (record (because "connection attempt superseded by disconnect") {
            phase = some disconnected;
            connected = some false;
            ready = some false;
            next_retry_at_utc = some none;
          })
          s)

abbrev pub rediscovery : String → Changes
rediscovery address = record (because "selected thermometer rediscovered") {
  phase = some reconnecting;
  target = some (some address);
  connected = some false;
  ready = some false;
}

-- `_find_reconnect_target`, once its scan has ended: the address stays the same.
unfoldable pub rediscovered : String → ℕ → List ℕ → Controller → Turn
rediscovered address generation passkey s =
    if is_superseded generation s
    then ok (at_top, s)
    else do s' ← become (rediscovery address) s; opened address generation passkey true s'

-- A failed step of `_open_connection` closes the client before it raises.
abbrev pub step_failed : Settings → Attempt → Fault → Controller → Turn
step_failed settings a fault s = round_failed settings fault (dropped a.client s)

abbrev pub attempt_cancelled : Attempt → Controller → Turn
attempt_cancelled a s = ok (at_top, dropped a.client s)

-- What the manager does with an input; one for which it does not wait changes nothing.
unfoldable pub manager_turn : Settings → Place → Input → Controller → Turn
manager_turn settings at_top (resumes stored) s = round_begins settings stored s
manager_turn settings waiting (woken link) s = take_event waiting s.manager_events s
manager_turn settings waiting (timed_out link) s = ok (at_top, s)
manager_turn settings waiting_ready (woken link) s = do
  (place, s') ← take_event waiting_ready s.manager_events s
  link_checked link place s'
manager_turn settings waiting_ready (timed_out link) s = link_checked link at_top s
manager_turn settings losing closed s =
    ok
      (at_top, post_manager_event (intent_changed s.target_generation) (record s { client = none }))
manager_turn settings losing_watched closed s =
    link_checked false at_top
      (post_manager_event (intent_changed s.target_generation) (record s { client = none }))
manager_turn settings cleaning closed s = ok (waiting, record s { client = none })
manager_turn settings abandoning closed s = abandoned (record s { client = none })
manager_turn settings (scanning generation) (scanned devices stored) s =
    discovered settings generation devices stored s
manager_turn settings (scanning generation) (failed fault) s = round_failed settings fault s
manager_turn settings (rescanning address generation passkey) (scanned devices stored) s =
    rediscovered address generation passkey s
manager_turn settings (rescanning address generation passkey) (failed fault) s =
    rediscovered address generation passkey s
manager_turn settings (opening a) step_done s = open_begins a s
manager_turn settings (opening a) cancelled s = ok (at_top, s)
manager_turn settings (pairing_with a) step_done s = paired a s
manager_turn settings (pairing_with a) (failed fault) s = step_failed settings a fault s
manager_turn settings (pairing_with a) cancelled s = attempt_cancelled a s
manager_turn settings (connecting_with a) step_done s = transport_open a s
manager_turn settings (connecting_with a) (failed fault) s = step_failed settings a fault s
manager_turn settings (connecting_with a) cancelled s = attempt_cancelled a s
manager_turn settings (authenticating_with a) step_done s = authenticated a s
manager_turn settings (authenticating_with a) (failed fault) s = step_failed settings a fault s
manager_turn settings (authenticating_with a) cancelled s = attempt_cancelled a s
manager_turn settings (reading_with a) (read_snapshot boot) s = snapshot_read a boot s
manager_turn settings (reading_with a) (failed fault) s = step_failed settings a fault s
manager_turn settings (reading_with a) cancelled s = attempt_cancelled a s
manager_turn settings (returning a boot) (returned loaded) s =
    with_boot a boot loaded s.last_boot_id s
manager_turn settings (loading_boot a boot) (boot_loaded previous) s = verified a boot previous s
manager_turn settings place _ s = ok (place, s)

abbrev pub recovery_phase : Bool → Option String → ConnectionPhase
recovery_phase false target = disconnected
recovery_phase true none = discovering
recovery_phase true (some a) = reconnecting

-- `_supervise_connection_manager` after an unexpected failure; then the manager starts anew.
unfoldable pub manager_restarts : String → Controller → Turn
manager_restarts message s = moved at_top (
    become
      (record (because "connection manager recovered from an unexpected failure") {
        phase = some (recovery_phase s.state.desired_connected s.state.target);
        connected = some false;
        ready = some false;
        last_error = some (some message);
      })
      s)
