-- ===== src/Examples/Connection.antt =====
-- The service of backend/pc_client/ble_service.py on concrete runs.
use ece4880_project.Prelude.{ℕ, ◌≡◌, ◌≢◌, ◌⊎◌, refl, true, false, some, none, List, [], ◌∷◌, ok}
use ece4880_project.Lifecycle.{
  stopped_but_desired, verifying, reconnecting, transition_state, checked, replaced,
}
use ece4880_project.Lifecycle.Consistency.{IsConsistent}
use ece4880_project.Service.Operations
use ece4880_project.Service.Operations.{
  TrackedOperation, queued, is_active, get_operation, new_operation, fail_operation, update,
  prune_operations,
}
use ece4880_project.Service.Operations.Waiting.{
  no_operations, IsSettled, IsThere, get_operation-run,
}
use ece4880_project.Service.Controller.{
  Controller, violation, created_service, become, post_manager_event, complete_pending_connect,
}
use ece4880_project.Service.Intent.{start}
use ece4880_project.Service.Manager.{
  Settings, Attempt, at_top, resumes, scanned, step_done, failed, read_snapshot, returned, closed,
  timed_out, credential_refused, round_begins, probe, discovered, discovered_devices,
  discovered_one, attempt,
}
use ece4880_project.Service.Opening.{
  manager_turn, open_begins, connect_step, paired, transport_open, authenticated, snapshot_read,
  verified,
}
use ece4880_project.Service.Steps.{
  Event, outcome, run, step, created, starts, manager_gets, stop_begins, scan_ends, link_goes_down,
}
use ece4880_project.Service.Safety.Aims.{IsReached}
use ece4880_project.Service.Safety.Progress.{at, steps, steps-IsReached}
use ece4880_project.Service.Safety.Runs.{outcome-run, ready-run}
use ece4880_project.Service.Safety.Resting.{IsRefused}
use ece4880_project.Service.Safety.Refused.{at_authentication, IsRefused-run}

abbrev pub usual : Settings
usual = record { auto_discovery_interval = 5000; retention = 60000 }

abbrev pub digits : List ℕ
digits = 49 ∷ 50 ∷ 51 ∷ 52 ∷ 53 ∷ 54 ∷ []

-- A service that starts, finds one enrolled thermometer and connects to it.
abbrev connection : List Event
connection =
    starts true
    ∷ manager_gets (resumes none)
    ∷ manager_gets (scanned ("aa" ∷ []) (some digits))
    ∷ manager_gets step_done
    ∷ manager_gets step_done
    ∷ manager_gets step_done
    ∷ manager_gets step_done
    ∷ manager_gets (read_snapshot 7)
    ∷ manager_gets (returned (some none))
    ∷ []

connection-ready : (run usual (created 0 true) connection).controller.state.ready ≡ true
unfolding run step outcome start become transition_state checked replaced manager_turn round_begins
    post_manager_event probe discovered discovered_devices discovered_one attempt open_begins
    connect_step paired transport_open authenticated snapshot_read verified complete_pending_connect
connection-ready = refl

ready-run_example :
    (run usual (created 0 true) connection).controller.state.desired_connected ≡ true
ready-run_example =
    ready-run usual 0 true connection (tt, (tt, (tt, (tt, (tt, (tt, (tt, (tt, (tt, tt)))))))))
      (tt, (tt, (tt, (tt, (tt, (tt, (tt, (tt, (tt, tt))))))))) connection-ready

-- What a stop then asks for is granted.
outcome-run_example :
    IsConsistent (run usual (created 0 true) connection).controller.state
    × ((outcome usual
          (run usual (created 0 true) connection).place
          (run usual (created 0 true) connection).controller
          stop_begins).1
        ≢ some (violation stopped_but_desired))
outcome-run_example =
    outcome-run usual 0 true connection stop_begins stopped_but_desired
      (tt, (tt, (tt, (tt, (tt, (tt, (tt, (tt, (tt, tt))))))))) tt

-- Two operations, the first of which has failed.
abbrev two_operations : List (ℕ × Operations.Event)
two_operations =
    (0, Operations.created "connect" true)
    ∷ (5, Operations.fails 0 ("RuntimeError", "gone"))
    ∷ (6, Operations.created "pair" true)
    ∷ []

abbrev pair_operation : TrackedOperation
pair_operation = record {
  kind = "pair";
  state = queued;
  created_at = 6;
  updated_at = 6;
  persistence_configured = true;
  result = none;
  error = none;
  done = false;
}

pair-found :
    (get_operation 1 8 1000 (Operations.run 1000 no_operations two_operations)).0
    ≡ ok pair_operation
unfolding get_operation Operations.run Operations.step new_operation fail_operation update
    prune_operations Operations.find
pair-found = refl

get_operation-run_example :
    IsSettled pair_operation
    × ((is_active pair_operation.state ≡ false)
        ⊎ IsThere 1
            (Operations.step 9 1000
              (get_operation 1 8 1000 (Operations.run 1000 no_operations two_operations)).1
              (Operations.cancels 1 "service stopped")).table)
get_operation-run_example =
    get_operation-run 1000 8 9 1 two_operations (Operations.cancels 1 "service stopped")
      pair_operation pair-found

-- A desired connection whose device refuses the credential; then it is scanned again, and the manager
-- wakes up.
abbrev an_attempt : Attempt
an_attempt = record {
  address = "aa";
  generation = 1;
  passkey = digits;
  client = 0;
  reconnecting = false;
}

abbrev authenticating : Controller
authenticating = record (created_service 0 true) {
  started = true;
  state = record (created_service 0 true).state {
    desired_connected = true;
    target = some "aa";
    connected = true;
    phase = verifying;
  };
  target_generation = 1;
  target_passkey = some digits;
  connection_attempt_id = 1;
  client = some 0;
  clients_made = 1;
}

abbrev afterwards : List Event
afterwards =
    manager_gets closed
    ∷ link_goes_down 0
    ∷ scan_ends 1 ("aa" ∷ [])
    ∷ manager_gets (timed_out false)
    ∷ manager_gets (resumes (some digits))
    ∷ []

IsRefused-run_example :
    IsRefused 1
      (run usual
        (step usual
          (at_authentication an_attempt authenticating)
          (manager_gets (failed (credential_refused "locked"))))
        afterwards).controller
IsRefused-run_example =
    IsRefused-run usual an_attempt authenticating "locked" afterwards refl refl refl refl refl
      (tt, (tt, (tt, (tt, (tt, tt)))))

-- A link was lost to a device whose bond has been verified; the device is back.
abbrev lost : Controller
lost = record authenticating {
  state = record authenticating.state { phase = reconnecting; connected = false };
  verified_bond_address = some "aa";
  client = none;
}

steps-IsReached_example :
    IsReached "aa" 1
      (run usual (at at_top lost) (
        manager_gets (resumes none)
        ∷ manager_gets (scanned [] none)
        ∷ steps 7 (some none) none)).controller
steps-IsReached_example =
    steps-IsReached usual 7 (some none) none none lost "aa" digits refl refl refl refl refl
