-- ===== src/Service/Steps.antt =====
-- What can happen to the connection of `ThermometerBleService` in backend/pc_client/ble_service.py, in
-- any order: the parts of its handlers between two waits, one at a time, as the event loop runs them.
-- A part that comes after a wait is an event of its own, which may come at any time.
use ece4880_project.Prelude.{
  ℕ, ◌+◌, String, Bool, true, false, Option, none, some, List, [], ◌∷◌, ok, err,
}
use ece4880_project.Service.Controller.{Controller, Act, Raise, created_service}
use ece4880_project.Service.Intent.{
  start, stop_begun, stop_ended, scan_begun, scan_ended, begin_connection, reconnect, target_chosen,
  disconnect_begun, disconnect_ended, forget_begun, forget_bond, forget_failed, forget_completed,
  transport_disconnected, poll_failed, snapshot_seen,
}
use ece4880_project.Service.Manager.{Settings, Place, at_top, Input, Turn}
use ece4880_project.Service.Opening.{manager_turn, manager_restarts}

pub record System : Type 0 where
  pub place : Place
  pub controller : Controller

pub data Event : Type 0 where
  starts : Bool → Event
  stop_begins stop_ends scan_begins : Event
  scan_ends : ℕ → List String → Event
  connects : String → String → Option (List ℕ) → Option (List ℕ) → Event
  target_follows : String → String → List ℕ → Bool → Event
  reconnects : Option (List ℕ) → Event
  disconnect_begins disconnect_ends : Event
  forget_begins : String → Event
  bond_forgotten : Event
  forget_fails : String → Event
  forget_completes closes_client : Event
  link_goes_down : ℕ → Event
  poll_fails : String → Event
  snapshot_comes : ℕ → Event
  manager_gets : Input → Event
  manager_fails : String → Event
  time_passes : ℕ → Event

-- The system after a part of a handler, and what it raised.
abbrev pub Outcome : Type 0
Outcome = System × Option Raise

abbrev pub answered : Place → Act Controller → Outcome
answered place (ok s) = (record { place = place; controller = s }, none)
answered place (err (r, s)) = (record { place = place; controller = s }, some r)

abbrev pub turned : Turn → Outcome
turned (ok (place, s)) = (record { place = place; controller = s }, none)
turned (err (r, s)) = (record { place = at_top; controller = s }, some r)

abbrev pub changed : Place → Controller → Outcome
changed place s = (record { place = place; controller = s }, none)

-- A start makes a manager anew, unless the service was started; a stop has cancelled it.
abbrev pub place_at_start : Bool → Place → Place
place_at_start true place = place
place_at_start false place = at_top

unfoldable pub outcome : Settings → Place → Controller → Event → Outcome
outcome settings place s (starts auto) = answered (place_at_start s.started place) (start auto s)
outcome settings place s stop_begins = answered place (stop_begun s)
outcome settings place s stop_ends = answered at_top (stop_ended s)
outcome settings place s scan_begins = answered place (scan_begun s)
outcome settings place s (scan_ends generation devices) =
    changed place (scan_ended generation devices s)
outcome settings place s (connects kind selected supplied stored) =
    answered place (begin_connection settings.retention kind selected supplied stored s)
outcome settings place s (target_follows kind selected credential from_registry) =
    answered place (target_chosen kind selected credential from_registry s)
outcome settings place s (reconnects stored) =
    answered place (reconnect settings.retention stored s)
outcome settings place s disconnect_begins = answered place (disconnect_begun s)
outcome settings place s disconnect_ends = answered place (disconnect_ended s)
outcome settings place s (forget_begins selected) = answered place (forget_begun selected s)
outcome settings place s bond_forgotten = changed place (forget_bond s)
outcome settings place s (forget_fails message) = answered place (forget_failed message s)
outcome settings place s forget_completes = answered place (forget_completed s)
outcome settings place s closes_client = changed place (record s { client = none })
outcome settings place s (link_goes_down c) = changed place (transport_disconnected c s)
outcome settings place s (poll_fails message) = changed place (poll_failed message s)
outcome settings place s (snapshot_comes observed_at) = answered place (snapshot_seen observed_at s)
outcome settings place s (manager_gets input) = turned (manager_turn settings place input s)
outcome settings place s (manager_fails message) = turned (manager_restarts message s)
outcome settings place s (time_passes n) = changed place (record s { clock = s.clock + n })

unfoldable pub step : Settings → System → Event → System
step settings y e = (outcome settings y.place y.controller e).0

unfoldable pub run : Settings → System → List Event → System
run settings y [] = y
run settings y (e ∷ es) = run settings (step settings y e) es

abbrev pub created : ℕ → Bool → System
created now configured = record { place = at_top; controller = created_service now configured }
