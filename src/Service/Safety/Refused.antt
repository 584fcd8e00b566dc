-- ===== src/Service/Safety/Refused.antt =====
-- What the manager of backend/pc_client/ble_service.py does once a device has refused the credential.
use ece4880_project.Prelude.{ℕ, ◌≡◌, refl, String, true, false, Option, none, some, List, arith}
use ece4880_project.Lifecycle.{ConnectionPhase, replaced}
use ece4880_project.Service.Controller.{Controller, fail_pending_connect, dropped}
use ece4880_project.Service.Manager.{
  Settings, Attempt, authenticating_with, credential_refused, Fault, failed, is_chosen,
}
use ece4880_project.Service.Opening.{manager_turn, round_failed, handled, refusal, after_refusal}
use ece4880_project.Service.Safety.Resting.{
  any_unnamed, IsRefused, AllBystanders, IsRestingTurn, turned-IsRestingOutcome, run-rests,
}
use ece4880_project.Service.Safety.Good.{become-calm}
use ece4880_project.Service.Steps.{System, Event, outcome, step, run, manager_gets}

refusal-IsRefused :
    (message : String) (s : Controller) (p : Option ℕ)
    → s.started ≡ true
    → s.state.desired_connected ≡ true
    → is_chosen s.state.target ≡ true
    → s.client ≡ none
    → any_unnamed s.manager_events ≡ false
    → s.target_passkey ≡ none
    → IsRefused s.connection_attempt_id (record (fail_pending_connect message s p) {
      state =
          replaced
            (fail_pending_connect message s p).state
            (fail_pending_connect message s p).clock
            (refusal message);
    })
unfolding fail_pending_connect replaced
refusal-IsRefused message s none running desired chosen no_client all_named no_passkey = record {
  running = running;
  desired = desired;
  not_ready = refl;
  refused = refl;
  chosen = chosen;
  no_passkey = no_passkey;
  no_client = no_client;
  all_named = all_named;
  attempts_made = refl;
}
refusal-IsRefused message s (some n) running desired chosen no_client all_named no_passkey =
    record {
      running = running;
      desired = desired;
      not_ready = refl;
      refused = refl;
      chosen = chosen;
      no_passkey = no_passkey;
      no_client = no_client;
      all_named = all_named;
      attempts_made = refl;
    }

dropped_own :
    (c : ℕ) (s : Controller) → s.client ≡ some c → dropped c s ≡ record s { client = none }
dropped_own c s e = ground (arith, e)

round_failed-handled :
    (settings : Settings) (fault : Fault) (s : Controller)
    → s.state.desired_connected ≡ true
    → round_failed settings fault s ≡ handled settings fault s
unfolding round_failed
round_failed-handled settings fault s d = ground (arith, d)

abbrev pub at_authentication : Attempt → Controller → System
at_authentication a s = record { place = authenticating_with a; controller = s }

-- A desired attempt for the chosen target, the device of which refuses the credential: the manager
-- then rests.
refused-turn :
    (settings : Settings) (a : Attempt) (s : Controller) (message : String)
    → s.started ≡ true
    → s.state.desired_connected ≡ true
    → is_chosen s.state.target ≡ true
    → s.client ≡ some a.client
    → any_unnamed s.manager_events ≡ false
    → IsRestingTurn s.connection_attempt_id
        (manager_turn settings (authenticating_with a) (failed (credential_refused message)) s)
unfolding manager_turn
refused-turn settings a s message running desired chosen current all_named =
    let s' = record s { client = none } in
    let t = after_refusal message s' in
    rw
      (
        dropped_own a.client s current,
        round_failed-handled settings (credential_refused message) s' desired,
        become-calm false (refusal message) t ConnectionPhase.authentication_required refl refl refl
            refl,
      )
      (
        refusal-IsRefused message
            (record s' { target_passkey = none; credential_from_registry = false })
            s.pending_connect running desired chosen refl all_named refl,
        refl,
      )

-- A running service desires a connection to the target that was chosen, and the client of its attempt
-- is refused at the authentication, with no report of a lost link that names no client in the queue.
-- Then whatever scans, timeouts, disconnections and the manager's own steps follow, until a caller
-- asks for something else, the service waits for a credential: no passkey is kept or taken from the
-- registry, there is no client, and no further attempt is made.
pub IsRefused-run :
    (settings : Settings) (a : Attempt) (s : Controller) (message : String) (es : List Event)
    → s.started ≡ true
    → s.state.desired_connected ≡ true
    → is_chosen s.state.target ≡ true
    → s.client ≡ some a.client
    → any_unnamed s.manager_events ≡ false
    → AllBystanders es
    → IsRefused s.connection_attempt_id
        (run settings
          (step settings
            (at_authentication a s)
            (manager_gets (failed (credential_refused message))))
          es).controller
unfolding step outcome
IsRefused-run settings a s message es running desired chosen current all_named bs =
    let (h, r) =
      turned-IsRestingOutcome s.connection_attempt_id _
        (refused-turn settings a s message running desired chosen current all_named) in
    (run-rests s.connection_attempt_id settings
      (step settings (at_authentication a s) (manager_gets (failed (credential_refused message))))
      es r bs h).0
