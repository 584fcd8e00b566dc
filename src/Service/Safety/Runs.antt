-- ===== src/Service/Safety/Runs.antt =====
-- Any run of the connection in backend/pc_client/ble_service.py.
use ece4880_project.Prelude.{
  ℕ, ◌≡◌, ◌≢◌, refl, Bool, true, false, none, some, List, [], ◌∷◌, ok, err,
}
use ece4880_project.Lifecycle.{Violation}
use ece4880_project.Lifecycle.Consistency.{IsConsistent}
use ece4880_project.Service.Controller.{Controller, Act, Raise, violation, link_lost}
use ece4880_project.Service.Manager.{Settings, Place, at_top, Turn}
use ece4880_project.Service.Intent.{poll_failed, forget_bond}
use ece4880_project.Service.Steps.{
  System, Event, Outcome, answered, turned, outcome, step, run, created, place_at_start, starts,
  stop_begins, stop_ends, scan_begins, scan_ends, connects, target_follows, reconnects,
  disconnect_begins, disconnect_ends, forget_begins, bond_forgotten, forget_fails, forget_completes,
  closes_client, link_goes_down, poll_fails, snapshot_comes, manager_gets, manager_fails,
  time_passes,
}
use ece4880_project.Service.Safety.Good.{IsGood, IsFine, IsFineTurn}
use ece4880_project.Service.Safety.Handlers.{
  state-post, start-IsFine, disconnect_begun-IsFine, stop_begun-IsFine, stop_ended-IsFine,
  scan_begun-IsFine, state-scan_ended, target_chosen-IsFine, begin_connection-IsFine,
  reconnect-IsFine, disconnect_ended-IsFine, forget_begun-IsFine, forget_failed-IsFine,
  forget_completed-IsFine, state-transport_disconnected, snapshot_seen-IsFine,
}
use ece4880_project.Service.Safety.Attempts.{manager_turn-IsFineTurn, manager_restarts-IsFineTurn}
use ece4880_project.Service.Safety.Landings.{IsWanted}
use ece4880_project.Service.Safety.Undisturbed.{IsWantedIn, AllUndisturbed, step-IsWanted}

-- A stop ends while no connection is desired.
abbrev pub IsOrderly : Controller → Event → Type 0
IsOrderly s stop_ends = s.state.desired_connected ≡ false
IsOrderly s _ = Unit {0}

abbrev pub AllOrderly : Settings → System → List Event → Type 0
AllOrderly settings y [] = Unit {0}
AllOrderly settings y (e ∷ es) =
    IsOrderly y.controller e × AllOrderly settings (step settings y e) es

abbrev IsFineOutcome : Bool → Outcome → Type 0
IsFineOutcome w (y, none) = IsGood w y.controller.state
IsFineOutcome w (y, some (violation v)) = ⊥
IsFineOutcome w (y, some r) = IsGood w y.controller.state

module _ (w : Bool) where
  answered-IsFineOutcome :
      (p : Place) (a : Act Controller) → IsFine w a → IsFineOutcome w (answered p a)
  answered-IsFineOutcome p (ok s) h = h
  answered-IsFineOutcome p (err (violation v, s)) h = h
  answered-IsFineOutcome p (err (Raise.authentication_required, s)) h = h
  answered-IsFineOutcome p (err (Raise.conflict, s)) h = h
  answered-IsFineOutcome p (err (Raise.invalid_value, s)) h = h

  turned-IsFineOutcome : (t : Turn) → IsFineTurn w t → IsFineOutcome w (turned t)
  turned-IsFineOutcome (ok (p, s)) h = h
  turned-IsFineOutcome (err (violation v, s)) h = h
  turned-IsFineOutcome (err (Raise.authentication_required, s)) h = h
  turned-IsFineOutcome (err (Raise.conflict, s)) h = h
  turned-IsFineOutcome (err (Raise.invalid_value, s)) h = h

  outcome-IsFineOutcome :
      (settings : Settings) (p : Place) (s : Controller) (e : Event)
      → IsOrderly s e
      → (w ≡ true → IsWanted p s)
      → IsGood w s.state
      → IsFineOutcome w (outcome settings p s e)
  unfolding outcome poll_failed forget_bond
  outcome-IsFineOutcome settings p s (starts auto) o q g =
      answered-IsFineOutcome (place_at_start s.started p) _ (start-IsFine w auto s g)
  outcome-IsFineOutcome settings p s stop_begins o q g =
      answered-IsFineOutcome p _ (stop_begun-IsFine w s g)
  outcome-IsFineOutcome settings p s stop_ends o q g =
      answered-IsFineOutcome at_top _ (stop_ended-IsFine w s o g)
  outcome-IsFineOutcome settings p s scan_begins o q g =
      answered-IsFineOutcome p _ (scan_begun-IsFine w s g)
  outcome-IsFineOutcome settings p s (scan_ends n devices) o q g =
      rw (state-scan_ended w n devices s) g
  outcome-IsFineOutcome settings p s (connects kind selected supplied stored) o q g =
      answered-IsFineOutcome p _
        (begin_connection-IsFine w settings.retention kind selected supplied stored s g)
  outcome-IsFineOutcome settings p s (target_follows kind selected credential from_registry) o q g =
      answered-IsFineOutcome p _ (target_chosen-IsFine w kind selected credential from_registry s g)
  outcome-IsFineOutcome settings p s (reconnects stored) o q g =
      answered-IsFineOutcome p _ (reconnect-IsFine w settings.retention stored s g)
  outcome-IsFineOutcome settings p s disconnect_begins o q g =
      answered-IsFineOutcome p _ (disconnect_begun-IsFine w s g)
  outcome-IsFineOutcome settings p s disconnect_ends o q g =
      answered-IsFineOutcome p _ (disconnect_ended-IsFine w s g)
  outcome-IsFineOutcome settings p s (forget_begins selected) o q g =
      answered-IsFineOutcome p _ (forget_begun-IsFine w selected s g)
  outcome-IsFineOutcome settings p s bond_forgotten o q g = g
  outcome-IsFineOutcome settings p s (forget_fails m) o q g =
      answered-IsFineOutcome p _ (forget_failed-IsFine w m s g)
  outcome-IsFineOutcome settings p s forget_completes o q g =
      answered-IsFineOutcome p _ (forget_completed-IsFine w s g)
  outcome-IsFineOutcome settings p s closes_client o q g = g
  outcome-IsFineOutcome settings p s (link_goes_down c) o q g =
      rw (state-transport_disconnected w c s) g
  outcome-IsFineOutcome settings p s (poll_fails m) o q g =
      rw (state-post (link_lost s.target_generation none m) s) g
  outcome-IsFineOutcome settings p s (snapshot_comes t) o q g =
      answered-IsFineOutcome p _ (snapshot_seen-IsFine w t s g)
  outcome-IsFineOutcome settings p s (manager_gets input) o q g =
      turned-IsFineOutcome _ (manager_turn-IsFineTurn w settings p input s q g)
  outcome-IsFineOutcome settings p s (manager_fails m) o q g =
      turned-IsFineOutcome _ (manager_restarts-IsFineTurn w m s)
  outcome-IsFineOutcome settings p s (time_passes n) o q g = g

  IsFineOutcome-IsGood : (t : Outcome) → IsFineOutcome w t → IsGood w t.0.controller.state
  IsFineOutcome-IsGood (y, none) h = h
  IsFineOutcome-IsGood (y, some (violation v)) h = absurd h
  IsFineOutcome-IsGood (y, some Raise.authentication_required) h = h
  IsFineOutcome-IsGood (y, some Raise.conflict) h = h
  IsFineOutcome-IsGood (y, some Raise.invalid_value) h = h

  IsFineOutcome-raise : (t : Outcome) (v : Violation) → IsFineOutcome w t → t.1 ≢ some (violation v)
  IsFineOutcome-raise (y, none) v h e = cc
  IsFineOutcome-raise (y, some (violation u)) v h e = h
  IsFineOutcome-raise (y, some Raise.authentication_required) v h e = cc
  IsFineOutcome-raise (y, some Raise.conflict) v h e = cc
  IsFineOutcome-raise (y, some Raise.invalid_value) v h e = cc

  run-IsGood :
      (settings : Settings) (y : System) (es : List Event)
      → AllOrderly settings y es
      → (w ≡ true → IsWantedIn y × AllUndisturbed settings y es)
      → IsGood w y.controller.state
      → IsGood w (run settings y es).controller.state
  unfolding run step
  run-IsGood settings y [] o q g = g
  run-IsGood settings y (e ∷ es) (o, os) q g =
      run-IsGood settings (step settings y e) es os
        (λ u. let (h, (d, ds)) = q u in (step-IsWanted settings y e d h, ds))
        (IsFineOutcome-IsGood (outcome settings y.place y.controller e)
          (outcome-IsFineOutcome settings y.place y.controller e o (λ u. (q u).0) g))

  created-IsGood :
      (now : ℕ) (configured : Bool) → IsGood w (created now configured).controller.state
  created-IsGood now configured = record {
    consistent = record {
      ready_connected = λ h. cc;
      connected_ready = λ h. cc;
      stopped_idle = λ h. refl;
    };
    desired = λ u h. cc;
  }

-- After any run of a new service in which each stop ended while no connection was desired, the
-- snapshot is consistent, and the next part of a handler, if it is such a one too, raises no
-- violation: every transition that the service asks for is granted.
pub outcome-run :
    (settings : Settings) (now : ℕ) (configured : Bool) (es : List Event) (e : Event)
    (v : Violation)
    → AllOrderly settings (created now configured) es
    → IsOrderly (run settings (created now configured) es).controller e
    → IsConsistent (run settings (created now configured) es).controller.state
      × ((outcome settings
            (run settings (created now configured) es).place
            (run settings (created now configured) es).controller
            e).1
          ≢ some (violation v))
outcome-run settings now configured es e v os o =
    let y = run settings (created now configured) es in
    let good =
      run-IsGood false settings (created now configured) es os (λ u. absurd (cc u))
        (created-IsGood false now configured) in
    (
      good.consistent,
      IsFineOutcome-raise false (outcome settings y.place y.controller e) v
          (outcome-IsFineOutcome false settings y.place y.controller e o (λ u. absurd (cc u)) good),
    )

-- After any run of a new service in which each stop ended while no connection was desired, and no stop,
-- disconnection or removal of the pairing began between the end of an attempt that had returned its
-- snapshot and the transition to CONNECTED: the service is ready only while a connection is desired.
pub ready-run :
    (settings : Settings) (now : ℕ) (configured : Bool) (es : List Event)
    → AllOrderly settings (created now configured) es
    → AllUndisturbed settings (created now configured) es
    → (run settings (created now configured) es).controller.state.ready ≡ true
    → (run settings (created now configured) es).controller.state.desired_connected ≡ true
ready-run settings now configured es os ds ready =
    (run-IsGood true settings (created now configured) es os (λ u. ((λ k. absurd (cc k)), ds))
        (created-IsGood true now configured)).desired
      refl ready
