-- ===== src/Service/Manager.antt =====
-- The connection manager of backend/pc_client/ble_service.py: `_connection_manager` with the functions
-- that it awaits, cut where it waits. `Place` says where the manager waits, and an `Input` what it
-- was waiting for. The passkeys that the registry returns and the boot id that the database returns
-- come with the input; saving a credential that was verified succeeds.
use Prim.Native.Nat.{max}
use ece4880_project.Prelude.{
  ℕ, suc, ◌+◌, String, Bool, true, false, not, ◌&&◌, ◌||◌, Option, none, some, List, [], ◌∷◌, ◌==◌,
  if◌then◌else◌, ok, err, ◌>>=◌,
}
use ece4880_project.Lifecycle.{
  ConnectionPhase, CredentialState, discovering, selection_required, pairing, reconnecting,
  disconnected,
}
use ece4880_project.Service.Controller.{
  Controller, Act, LifecycleEvent, discovery_result, link_lost, because, become, same_number,
}

-- `self.settings`, as far as the manager reads it, in milliseconds
pub record Settings : Type 0 where
  pub auto_discovery_interval : ℕ
  pub retention : ℕ

-- One call of `_open_connection`.
pub record Attempt : Type 0 where
  pub address : String
  pub generation : ℕ
  pub passkey : List ℕ
  pub client : ℕ
  pub reconnecting : Bool

pub data Place : Type 0 where
  at_top waiting waiting_ready losing losing_watched cleaning abandoning : Place
  scanning : ℕ → Place
  rescanning : String → ℕ → List ℕ → Place
  opening pairing_with connecting_with authenticating_with reading_with : Attempt → Place
  returning loading_boot : Attempt → ℕ → Place

-- What an attempt fails with: a refusal of the credential by the device, or anything else.
pub data Fault : Type 0 where
  credential_refused other_fault : String → Fault

-- `read_snapshot` is the end of the attempt's task, and `returned` the manager that goes on with what
-- the task has returned. `woken` takes an event of the queue, `timed_out` none; both say whether the client's link stands.
pub data Input : Type 0 where
  resumes : Option (List ℕ) → Input
  closed step_done cancelled : Input
  woken timed_out : Bool → Input
  scanned : List String → Option (List ℕ) → Input
  failed : Fault → Input
  read_snapshot : ℕ → Input
  returned : Option (Option ℕ) → Input
  boot_loaded : Option ℕ → Input

abbrev pub Turn : Type 0
Turn = Act (Place × Controller)

abbrev pub moved : Place → Act Controller → Turn
moved p (ok s) = ok (p, s)
moved p (err e) = err e

abbrev pub is_disconnected : ConnectionPhase → Bool
is_disconnected disconnected = true
is_disconnected _ = false

abbrev pub is_reconnecting : ConnectionPhase → Bool
is_reconnecting reconnecting = true
is_reconnecting _ = false

abbrev pub is_refused : ConnectionPhase → CredentialState → Bool
is_refused ConnectionPhase.authentication_required CredentialState.rejected = true
is_refused _ _ = false

abbrev pub lost_phase : Bool → ConnectionPhase
lost_phase true = reconnecting
lost_phase false = disconnected

abbrev pub is_chosen : Option String → Bool
is_chosen none = false
is_chosen (some a) = true

-- `_connection_lost`: where it goes on, it closes the client and then wakes the manager.
unfoldable pub connection_lost : String → Controller → Turn
connection_lost reason s =
    if not s.state.connected && (is_reconnecting s.state.phase || is_disconnected s.state.phase)
    then ok (at_top, s)
    else moved losing (
        become
          (record (because "BLE transport disconnected") {
            phase = some (lost_phase s.state.desired_connected);
            connected = some false;
            ready = some false;
            retry_count = some (if s.state.desired_connected then max 1 s.state.retry_count else 0);
            next_retry_at_utc = some (if s.state.desired_connected then some s.clock else none);
            last_error = some (some reason);
          })
          s)

-- `_wait_for_manager_wakeup` with the event that it took
unfoldable pub woken_by : LifecycleEvent → Controller → Turn
woken_by (discovery_result generation devices) s =
    if (generation == s.target_generation) && not (is_chosen s.state.target)
    then ok (at_top, record s { pending_discovery = some devices })
    else ok (at_top, s)
woken_by (link_lost generation client reason) s =
    if (generation == s.target_generation) && same_number client s.client
    then connection_lost reason s
    else ok (at_top, s)
woken_by _ s = ok (at_top, s)

-- A place where no event has come is kept.
abbrev pub take_event : Place → List LifecycleEvent → Controller → Turn
take_event here [] s = ok (here, s)
take_event here (e ∷ rest) s = woken_by e (record s { manager_events = rest })

-- The branch of a ready service, after it woke up, with what `is_connected` of the client says. Where
-- the link was lost in the wait, the client is closed first, and then checked.
abbrev pub link_checked : Bool → Place → Controller → Turn
link_checked link at_top s =
    if s.state.desired_connected && (same_number s.client none || not link)
    then connection_lost "BLE session ended unexpectedly" s
    else ok (at_top, s)
link_checked link losing s = ok (losing_watched, s)
link_checked link place s = ok (place, s)

-- `create_task(self._open_connection(…))`
abbrev pub opened : String → ℕ → List ℕ → Bool → Controller → Turn
opened address generation passkey again s = ok (
  opening (record {
    address = address;
    generation = generation;
    passkey = passkey;
    client = s.clients_made;
    reconnecting = again;
  }),
  record s { clients_made = suc s.clients_made },
)

-- The rest of a round once the passkey is known.
unfoldable pub attempt : Bool → String → List ℕ → Controller → Turn
attempt counted address passkey s =
    let s' =
      if counted then s else record s { connection_attempt_id = suc s.connection_attempt_id } in
    if is_reconnecting s.state.phase
    then ok (rescanning address s.target_generation passkey, s')
    else opened address s.target_generation passkey false s'

-- The passkey of the target: the one that is there, or the registry's, unless it was refused.
unfoldable pub with_passkey : Bool → String → Option (List ℕ) → Option (List ℕ) → Controller → Turn
with_passkey counted address (some passkey) stored s = attempt counted address passkey s
with_passkey counted address none stored s =
    if is_refused s.state.phase s.state.credential_state then ok (waiting, s) else elim stored [
      | none ↦ moved waiting (
          become
            (record (because "device credential is not enrolled") {
              phase = some ConnectionPhase.authentication_required;
              connected = some false;
              ready = some false;
              credential_state = some CredentialState.missing;
            })
            s)
      | some passkey ↦
          attempt counted address passkey
            (record s { target_passkey = some passkey; credential_from_registry = true })
    ]

-- A single device that is not enrolled, or that is.
unfoldable pub discovered_one : String → Option (List ℕ) → Controller → Turn
discovered_one address none s = moved waiting (
    become
      (record (because "discovered device requires enrollment") {
        phase = some ConnectionPhase.authentication_required;
        target = some (some address);
        connected = some false;
        ready = some false;
        credential_state = some CredentialState.missing;
        next_retry_at_utc = some none;
        last_error = some none;
      })
      (record s {
        target_generation = suc s.target_generation;
        target_passkey = none;
        credential_from_registry = false;
      }))
discovered_one address (some passkey) s = do
  s' ←
      become
        (record (because "registered device discovered") {
          phase = some pairing;
          target = some (some address);
          connected = some false;
          ready = some false;
          credential_state = some CredentialState.available;
          retry_count = some 0;
          next_retry_at_utc = some none;
          last_error = some none;
        })
        (record s {
          target_generation = suc s.target_generation;
          target_passkey = some passkey;
          credential_from_registry = true;
        })
  attempt true address passkey s'

-- The devices of a discovery, if nothing newer was chosen meanwhile.
unfoldable pub discovered_devices : Settings → List String → Option (List ℕ) → Controller → Turn
discovered_devices settings (address ∷ []) stored s = discovered_one address stored s
discovered_devices settings [] stored s = moved waiting (
    become
      (record (because "no compatible thermometer found; next probe scheduled") {
        phase = some discovering;
        connected = some false;
        ready = some false;
        next_retry_at_utc = some (some (s.clock + settings.auto_discovery_interval));
      })
      s)
discovered_devices settings (a ∷ b ∷ rest) stored s = moved waiting (
    become
      (record (because "multiple compatible thermometers discovered") {
        phase = some selection_required;
        target = some none;
        connected = some false;
        ready = some false;
        retry_count = some 0;
        next_retry_at_utc = some none;
        last_error = some none;
      })
      s)

unfoldable pub discovered : Settings → ℕ → List String → Option (List ℕ) → Controller → Turn
discovered settings generation devices stored s =
    if not (generation == s.target_generation) || is_chosen s.state.target
    then ok (at_top, s)
    else discovered_devices settings devices stored s

-- `_next_discovery_observation`: a queued observation, or a scan.
abbrev pub observed : Settings → Option (List String) → Option (List ℕ) → Controller → Turn
observed settings none stored s = ok (scanning s.target_generation, s)
observed settings (some devices) stored s =
    discovered settings s.target_generation devices stored (record s { pending_discovery = none })

-- A round without a target.
unfoldable pub probe : Settings → Option (List ℕ) → Controller → Turn
probe settings stored s = do
  s' ←
      become
        (record (because "running the next automatic discovery probe") {
          phase = some discovering;
          connected = some false;
          ready = some false;
          credential_state = some CredentialState.missing;
          next_retry_at_utc = some none;
          last_error = some none;
        })
        (record s { connection_attempt_id = suc s.connection_attempt_id })
  observed settings s'.pending_discovery stored s'

abbrev pub for_target : Settings → Option String → Option (List ℕ) → Controller → Turn
for_target settings none stored s = probe settings stored s
for_target settings (some address) stored s = with_passkey false address s.target_passkey stored s

-- The top of the loop: it ends where the service was stopped.
unfoldable pub round_begins : Settings → Option (List ℕ) → Controller → Turn
round_begins settings stored s =
    if not s.started
    then ok (at_top, s)
    else if not s.state.desired_connected
    then if is_disconnected s.state.phase
      then ok (waiting, s)
      else moved waiting (
          become
            (record (because "automatic connection is disabled") {
              phase = some disconnected;
              connected = some false;
              ready = some false;
            })
            s)
    else if s.state.ready
    then ok (waiting_ready, s)
    else for_target settings s.state.target stored s
