-- ===== src/Examples/Services.antt =====
-- The scheduler and the lifecycle's snapshots at concrete events.
use ece4880_project.Prelude.{
  ◌≤◌, ◌≡◌, ◌↔◌, ◌⊎◌, refl, true, false, ◌||◌, none, some, List, [], ◌∷◌, arith, ok,
}
use ece4880_project.Futures.{is_done}
use ece4880_project.Scheduler.{
  Event, started, start, submitted, ScheduledRequest, display, history, current, run, step, submit,
  put, run_next, stop, initial,
}
use ece4880_project.Scheduler.Order.{PrecedesAll, run_next-PrecedesAll}
use ece4880_project.Scheduler.Settling.{stop-settles_all, is_running, is_queued}
use ece4880_project.Persistence
use ece4880_project.Persistence.{PersistenceWorker, no_task, make, health, starts, enqueued}
use ece4880_project.Persistence.Bounded.{Ascends, floor, health-run}
use ece4880_project.Persistence.Flushed
use ece4880_project.Persistence.Flushed.{stop-flushes}
use ece4880_project.Lifecycle.{
  ControllerState, Changes, CredentialState, transition_state, transitions, replaced, stopped,
  discovering,
}
use ece4880_project.Lifecycle.Consistency.{
  IsConsistent, IsRequested, transition_state_iff, transitions-IsConsistent,
}

-- A poll, a history request and a display command wait.
abbrev three_requests : List Event
three_requests =
    started ∷ submitted true history ∷ submitted true current ∷ submitted true display ∷ []

abbrev display_request : ScheduledRequest
display_request = record { priority = 0; sequence = 2 }

run_next-PrecedesAll_example :
    ((run initial three_requests).queue
      ≡ display_request ∷ (run_next true (run initial three_requests)).queue)
    × PrecedesAll display_request (run_next true (run initial three_requests)).queue
unfolding run step start submit run_next put
run_next-PrecedesAll_example = run_next-PrecedesAll three_requests display_request refl refl

stop-settles_all_example :
    ((is_done 1 (run initial three_requests).settled
        || (is_running 1 (run initial three_requests).running
            || is_queued 1 (run initial three_requests).queue))
      ≡ true)
    × (is_done 1 (stop (run initial three_requests)).settled ≡ true)
unfolding run step start submit
stop-settles_all_example = stop-settles_all three_requests 1 (omega arith)

abbrev idle_state : ControllerState
idle_state = record {
  phase = stopped;
  desired_connected = false;
  target = none;
  connected = false;
  ready = false;
  credential_state = CredentialState.missing;
  retry_count = 0;
  next_retry_at_utc = none;
  last_seen_utc = none;
  last_error = none;
  revision = 0;
  changed_at_utc = 0;
  reason = "initialized";
}

abbrev start_discovery : Changes
start_discovery = record {
  phase = some discovering;
  desired_connected = some true;
  target = none;
  connected = none;
  ready = none;
  credential_state = none;
  retry_count = none;
  next_retry_at_utc = none;
  last_seen_utc = none;
  last_error = none;
  reason = "scanning";
}

idle-IsConsistent : IsConsistent idle_state
idle-IsConsistent = record {
  ready_connected = λ h. cc;
  connected_ready = λ h. cc;
  stopped_idle = λ h. refl;
}

transition_state_iff_example :
    (transition_state idle_state 7 start_discovery ≡ ok (replaced idle_state 7 start_discovery)) ↔ (
      IsRequested idle_state 7 start_discovery (replaced idle_state 7 start_discovery)
      × IsConsistent (replaced idle_state 7 start_discovery))
transition_state_iff_example =
    transition_state_iff idle_state 7 start_discovery (replaced idle_state 7 start_discovery)

transitions-IsConsistent_example :
    IsConsistent (transitions idle_state ((7, start_discovery) ∷ []))
    × (0 ≤ (transitions idle_state ((7, start_discovery) ∷ [])).revision)
    × ((transitions idle_state ((7, start_discovery) ∷ [])).revision ≤ 1)
transitions-IsConsistent_example =
    transitions-IsConsistent idle_state ((7, start_discovery) ∷ []) idle-IsConsistent

-- A worker with room for one request, and three of them.
abbrev small_worker : PersistenceWorker
small_worker = record {
  queue = [];
  capacity = 1;
  overflow_count = 0;
  next_future = 0;
  running = none;
  settled = [];
  task = no_task;
}

abbrev three_enqueued : List Persistence.Event
three_enqueued =
    starts ∷ enqueued true ∷ Persistence.Event.taken ∷ enqueued true ∷ enqueued true ∷ []

health-run_example :
    ((health (Persistence.run small_worker three_enqueued)).pending ≤ 1)
    × Ascends
        (floor (Persistence.run small_worker three_enqueued).running)
        (Persistence.run small_worker three_enqueued).next_future
        (Persistence.run small_worker three_enqueued).queue
unfolding make
health-run_example = health-run 1 small_worker three_enqueued refl

stop-flushes_example :
    ((is_done 1 (Persistence.run small_worker three_enqueued).settled
        || (Flushed.is_running 1 (Persistence.run small_worker three_enqueued).running
            || Flushed.is_queued 1 (Persistence.run small_worker three_enqueued).queue))
      ≡ true)
    × (((Persistence.run small_worker three_enqueued).task ≡ no_task)
        ⊎ (is_done 1 (Persistence.stop true (Persistence.run small_worker three_enqueued)).settled
            ≡ true))
unfolding make Persistence.run Persistence.step Persistence.start Persistence.run_next
    Persistence.enqueue
stop-flushes_example = stop-flushes 1 small_worker three_enqueued true 1 refl (omega arith)
