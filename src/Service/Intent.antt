-- ===== src/Service/Intent.antt =====
-- What callers of `ThermometerBleService` in backend/pc_client/ble_service.py ask of the connection.
-- A handler is cut where it waits: `…_begun` is what it does before it has closed the client, `…_ended`
-- or a name of its own what it does afterwards. Arguments that are refused before anything has
-- changed, and the cancellation of a history transfer, are not modelled here.
use Prim.Native.String.{◌++◌ as join}
use ece4880_project.Prelude.{
  ℕ, suc, String, Bool, true, false, not, ◌&&◌, ◌||◌, Option, none, some, List, [], ◌==◌,
  if◌then◌else◌, ok, err, ◌>>=◌,
}
use ece4880_project.Lifecycle.{
  ConnectionPhase, CredentialState, stopped, discovering, pairing, connecting, verifying, connected,
  reconnecting, disconnecting, disconnected,
}
use ece4880_project.Service.Operations.{new_operation, mark_running, succeed_operation}
use ece4880_project.Service.Controller.{
  Controller, Act, start_event, intent_changed, stop_event, discovery_result, link_lost, conflict,
  authentication_required, because, become, post_manager_event, cancel_pending, same_address,
  same_number,
}

unfoldable pub start : Bool → Controller → Act Controller
start auto s = if s.started then ok s else do
  s' ←
      become
        (record (because "service started") {
          phase = some (if auto then discovering else disconnected);
          desired_connected = some auto;
          connected = some false;
          ready = some false;
          credential_state = some CredentialState.missing;
          retry_count = some 0;
          next_retry_at_utc = some none;
          last_error = some none;
        })
        (record s { started = true; manager_events = []; pending_discovery = none })
  ok (post_manager_event (start_event s'.target_generation) s')

unfoldable pub stop_begun : Controller → Act Controller
stop_begun s = if not s.started then ok s else do
  s' ←
      become
        (record (because "service stopping") {
          phase = some disconnecting;
          desired_connected = some false;
          ready = some false;
          next_retry_at_utc = some none;
        })
        (record s { started = false })
  ok (
      cancel_pending s'.pending_connect "service stopped"
        (post_manager_event (stop_event s'.target_generation) s'))

-- after the tasks were cancelled and the client was closed
unfoldable pub stop_ended : Controller → Act Controller
stop_ended s =
    become
      (record (because "service stopped") {
        phase = some stopped;
        connected = some false;
        ready = some false;
      })
      s

-- the guard of `scan`
abbrev pub is_busy : ConnectionPhase → Bool
is_busy pairing = true
is_busy connecting = true
is_busy verifying = true
is_busy connected = true
is_busy reconnecting = true
is_busy disconnecting = true
is_busy _ = false

unfoldable pub scan_begun : Controller → Act Controller
scan_begun s = if s.state.connected || is_busy s.state.phase then err (conflict, s) else ok s

abbrev pub is_none {ℓ} : {A : Type ℓ} → Option A → Bool
is_none none = true
is_none (some a) = false

-- `scan` once the devices are known; it began at that generation.
unfoldable pub scan_ended : ℕ → List String → Controller → Controller
scan_ended generation devices s =
    if generation == s.target_generation && is_none s.state.target
    then post_manager_event (discovery_result generation devices)
        (record s { pending_discovery = some devices })
    else s

-- the credential: the one that was supplied, else the registry's
abbrev pub or_stored : Option (List ℕ) → Option (List ℕ) → Option (List ℕ)
or_stored (some p) stored = some p
or_stored none stored = stored

-- `_begin_connection` where no credential is known
unfoldable pub needs_passkey : String → Controller → Act Controller
needs_passkey selected s = do
  s' ←
      become
        (record (because "device credential is not enrolled") {
          phase = some ConnectionPhase.authentication_required;
          desired_connected = some true;
          target = some (some selected);
          connected = some false;
          ready = some false;
          credential_state = some CredentialState.missing;
          next_retry_at_utc = some none;
          last_error = some (some "a six-digit passkey is required to enroll this device");
        })
        (record s { target_generation = suc s.target_generation })
  err (authentication_required, s')

-- `_begin_connection` from the change of the target on
unfoldable pub target_chosen : String → String → List ℕ → Bool → Controller → Act Controller
target_chosen kind selected credential from_registry s = do
  s' ←
      become
        (record (because (join kind " requested")) {
          phase = some pairing;
          desired_connected = some true;
          target = some (some selected);
          connected = some false;
          ready = some false;
          credential_state = some CredentialState.available;
          next_retry_at_utc = some none;
          last_error = some none;
        })
        (record s {
          target_generation = suc s.target_generation;
          target_passkey = some credential;
          credential_from_registry = from_registry;
        })
  ok (post_manager_event (intent_changed s'.target_generation) s')

-- `_begin_connection` with a credential: the operation; then the target, at once, or after the client
-- of another target was closed.
unfoldable pub take_over : ℕ → String → String → List ℕ → Bool → Controller → Act Controller
take_over retention kind selected credential from_registry s =
    let number = s.operations.next_id in
    let s₁ = record s {
      operations = new_operation kind s.persistence_configured s.clock retention s.operations;
    } in
    let s₂ = cancel_pending s₁.pending_connect "superseded by another connect request" s₁ in
    let s₃ = record s₂ {
      pending_connect = some number;
      operations = mark_running number s₂.clock s₂.operations;
    } in
    if s.state.connected && not (same_address s.state.target selected)
    then become
        (record (because "switching selected thermometer") {
          phase = some disconnecting;
          ready = some false;
        })
        s₃
    else target_chosen kind selected credential from_registry s₃

abbrev pub with_credential :
    ℕ → String → String → Option (List ℕ) → Bool → Controller → Act Controller
with_credential retention kind selected none from_registry s = needs_passkey selected s
with_credential retention kind selected (some c) from_registry s =
    take_over retention kind selected c from_registry s

-- `_begin_connection` with a valid passkey or none, and the passkey that the registry has.
unfoldable pub begin_connection :
    ℕ → String → String → Option (List ℕ) → Option (List ℕ) → Controller → Act Controller
begin_connection retention kind selected supplied stored s =
    if s.state.ready && same_address s.state.target selected
    then ok (record s {
      operations =
          succeed_operation s.operations.next_id selected s.clock
            (new_operation kind s.persistence_configured s.clock retention s.operations);
    })
    else with_credential retention kind selected (or_stored supplied stored) (is_none supplied) s

abbrev pub reconnect_to : ℕ → Option String → Option (List ℕ) → Controller → Act Controller
reconnect_to retention none stored s = err (conflict, s)
reconnect_to retention (some address) stored s =
    begin_connection retention "connect" address none stored s

unfoldable pub reconnect : ℕ → Option (List ℕ) → Controller → Act Controller
reconnect retention stored s = reconnect_to retention s.state.target stored s

unfoldable pub disconnect_begun : Controller → Act Controller
disconnect_begun s = do
  s' ←
      become
        (record (because "explicit disconnect requested") {
          phase = some disconnecting;
          desired_connected = some false;
          ready = some false;
          next_retry_at_utc = some none;
        })
        (record s { target_generation = suc s.target_generation })
  ok (post_manager_event (intent_changed s'.target_generation) s')

-- after the attempt was cancelled and the client was closed
unfoldable pub disconnect_ended : Controller → Act Controller
disconnect_ended s = do
  s' ←
      become
        (record (because "explicitly disconnected") {
          phase = some disconnected;
          connected = some false;
          ready = some false;
          retry_count = some 0;
          last_error = some none;
        })
        s
  ok (cancel_pending s'.pending_connect "explicitly disconnected" s')

unfoldable pub forget_begun : String → Controller → Act Controller
forget_begun selected s =
    if not (s.state.ready && same_address s.state.target selected) then err (conflict, s) else do
      s' ←
          become
            (record (because "authorized pairing reset requested") {
              phase = some disconnecting;
              desired_connected = some false;
              target = some (some selected);
              ready = some false;
            })
            (record s { target_generation = suc s.target_generation })
      ok (post_manager_event (intent_changed s'.target_generation) s')

-- `perform` of `forget_pairing` between the disconnection and the removal of the bond
unfoldable pub forget_bond : Controller → Controller
forget_bond s = record s { verified_bond_address = none }

unfoldable pub forget_failed : String → Controller → Act Controller
forget_failed message s =
    become
      (record (because "pairing reset partially failed") {
        phase = some disconnected;
        connected = some false;
        ready = some false;
        last_error = some (some message);
      })
      s

unfoldable pub forget_completed : Controller → Act Controller
forget_completed s =
    become
      (record (because "pairing reset completed") {
        phase = some disconnected;
        connected = some false;
        ready = some false;
        credential_state = some CredentialState.missing;
        last_error = some none;
      })
      (record s { target_passkey = none; credential_from_registry = false })

abbrev pub is_disconnecting : ConnectionPhase → Bool
is_disconnecting disconnecting = true
is_disconnecting _ = false

-- `_on_transport_disconnected`
unfoldable pub transport_disconnected : ℕ → Controller → Controller
transport_disconnected c s =
    if not s.started || (is_disconnecting s.state.phase || not (same_number s.client (some c)))
    then s
    else post_manager_event
        (link_lost s.target_generation (some c) "BLE session ended unexpectedly") s

-- a scheduled poll that failed
unfoldable pub poll_failed : String → Controller → Controller
poll_failed message s = post_manager_event (link_lost s.target_generation none message) s

-- `_publish_current_snapshot`, of the connection state
unfoldable pub snapshot_seen : ℕ → Controller → Act Controller
snapshot_seen observed_at s =
    if same_number (some observed_at) s.state.last_seen_utc
    then ok s
    else become
        (record (because "current snapshot received") { last_seen_utc = some (some observed_at) }) s
