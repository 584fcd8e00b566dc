-- ===== src/Examples/Races.antt =====
-- Orders of events in which the service of backend/pc_client/ble_service.py does what it does not mean to.
use ece4880_project.Prelude.{◌≡◌, refl, true, false, some, none, List, [], ◌∷◌}
use ece4880_project.Lifecycle.{stopped_but_desired, transition_state, checked, replaced}
use ece4880_project.Service.Operations.{new_operation, mark_running, update, prune_operations}
use ece4880_project.Service.Controller.{
  violation, become, post_manager_event, complete_pending_connect, fail_pending_connect,
}
use ece4880_project.Service.Intent.{
  start, stop_begun, stop_ended, begin_connection, take_over, target_chosen, disconnect_begun,
  disconnect_ended, transport_disconnected, poll_failed,
}
use ece4880_project.Service.Manager.{
  resumes, scanned, step_done, failed, read_snapshot, returned, closed, woken, rescanning,
  credential_refused, round_begins, probe, with_passkey, discovered, discovered_devices,
  discovered_one, attempt, connection_lost, woken_by,
}
use ece4880_project.Service.Opening.{
  manager_turn, open_begins, connect_step, paired, transport_open, authenticated, snapshot_read,
  verified, rediscovered, round_failed,
}
use ece4880_project.Service.Steps.{
  Event, outcome, run, step, created, starts, stop_begins, stop_ends, connects, disconnect_begins,
  disconnect_ends, closes_client, link_goes_down, poll_fails, manager_gets,
}
use ece4880_project.Examples.Connection.{usual, digits}

-- A caller asks for a connection while the service waits for its tasks to stop: the stop raises.
abbrev stop_race : List Event
stop_race = starts true ∷ stop_begins ∷ connects "pair" "aa" (some digits) none ∷ []

stop_interrupted :
    (outcome usual
      (run usual (created 0 true) stop_race).place
      (run usual (created 0 true) stop_race).controller
      stop_ends).1
    ≡ some (violation stopped_but_desired)
unfolding run step outcome start become transition_state checked replaced post_manager_event
    stop_begun stop_ended begin_connection take_over target_chosen new_operation mark_running update
    prune_operations
stop_interrupted = refl

-- A caller disconnects after an attempt has ended, before the manager goes on with its snapshot.
abbrev disconnect_race : List Event
disconnect_race =
    starts true
    ∷ manager_gets (resumes none)
    ∷ manager_gets (scanned ("aa" ∷ []) (some digits))
    ∷ manager_gets step_done
    ∷ manager_gets step_done
    ∷ manager_gets step_done
    ∷ manager_gets step_done
    ∷ manager_gets (read_snapshot 7)
    ∷ disconnect_begins
    ∷ closes_client
    ∷ disconnect_ends
    ∷ manager_gets (returned (some (some 7)))
    ∷ []

ready_after_disconnect :
    ((run usual (created 0 true) disconnect_race).controller.state.ready ≡ true)
    × ((run usual (created 0 true) disconnect_race).controller.state.desired_connected ≡ false)
    × ((run usual (created 0 true) disconnect_race).controller.client ≡ none)
unfolding run step outcome start become transition_state checked replaced manager_turn round_begins
    post_manager_event probe discovered discovered_devices discovered_one attempt open_begins
    connect_step paired transport_open authenticated snapshot_read verified complete_pending_connect
    disconnect_begun disconnect_ended
ready_after_disconnect = (refl, refl, refl)

-- A poll fails as the link is lost; the device then refuses the credential, which is tried again.
abbrev retry_race : List Event
retry_race =
    starts true
    ∷ manager_gets (resumes none)
    ∷ manager_gets (scanned ("aa" ∷ []) (some digits))
    ∷ manager_gets step_done
    ∷ manager_gets step_done
    ∷ manager_gets step_done
    ∷ manager_gets step_done
    ∷ manager_gets (read_snapshot 7)
    ∷ manager_gets (returned (some none))
    ∷ manager_gets (resumes none)
    ∷ manager_gets (woken true)
    ∷ link_goes_down 0
    ∷ poll_fails "gone"
    ∷ manager_gets (resumes none)
    ∷ manager_gets (woken false)
    ∷ manager_gets closed
    ∷ manager_gets (resumes none)
    ∷ manager_gets (scanned [] none)
    ∷ manager_gets step_done
    ∷ manager_gets step_done
    ∷ manager_gets step_done
    ∷ manager_gets (failed (credential_refused "failed"))
    ∷ manager_gets closed
    ∷ manager_gets (woken false)
    ∷ manager_gets closed
    ∷ manager_gets (resumes (some digits))
    ∷ []

refused_and_retried : (run usual (created 0 true) retry_race).place ≡ rescanning "aa" 1 digits
unfolding run step outcome start become transition_state checked replaced manager_turn round_begins
    post_manager_event probe with_passkey discovered discovered_devices discovered_one attempt
    open_begins connect_step paired transport_open authenticated snapshot_read verified
    complete_pending_connect fail_pending_connect transport_disconnected poll_failed woken_by
    connection_lost rediscovered round_failed
refused_and_retried = refl
