-- ===== src/Service/Safety/Attempts.antt =====
-- The transitions of `_open_connection` of backend/pc_client/ble_service.py, and every turn of the
-- manager.
use ece4880_project.Prelude.{
  ℕ, ◌≡◌, refl, String, Bool, true, false, not, Option, none, some, List, arith,
}
use ece4880_project.Lifecycle.{
  ConnectionPhase, is_connected_phase, is_stopped, replaced, disconnected, pairing, connecting,
  verifying, reconnecting,
}
use ece4880_project.Service.Controller.{
  Controller, post_manager_event, complete_pending_connect, same_address, is_superseded, dropped,
  intent_changed,
}
use ece4880_project.Service.Manager.{
  Settings, Attempt, Place, at_top, waiting, waiting_ready, losing, losing_watched, cleaning,
  abandoning, scanning, rescanning, opening, pairing_with, connecting_with, authenticating_with,
  reading_with, returning, loading_boot, Fault, credential_refused, other_fault, Input, resumes,
  timed_out, woken, closed, step_done, cancelled, scanned, failed, read_snapshot, returned,
  boot_loaded, is_disconnected,
}
use ece4880_project.Service.Opening.{
  connect_step, open_begins, paired, transport_open, authenticated, verified, with_boot,
  snapshot_read, retry_phase, handled, round_failed, abandoned, rediscovered, step_failed,
  manager_turn, recovery_phase, manager_restarts,
}
use ece4880_project.Service.Safety.Good.{
  IsGood, IsFineTurn, become-IsFine, calm-IsFine, if-IsFineTurn, >>=-IsFineTurn,
  >>=-IsFineTurn_of_turn,
}
use ece4880_project.Service.Safety.Handlers.{state-post}
use ece4880_project.Service.Safety.Landings.{IsWanted}
use ece4880_project.Service.Safety.Turns.{
  rests-IsFineTurn, take_event-IsFineTurn, link_checked-IsFineTurn, discovered-IsFineTurn,
  round_begins-IsFineTurn,
}

state-complete_pending_connect :
    (s : Controller) (n : Option ℕ) → (complete_pending_connect s n).state ≡ s.state
unfolding complete_pending_connect
state-complete_pending_connect s none = refl
state-complete_pending_connect s (some n) = refl

state-dropped : (c : ℕ) (s : Controller) → (dropped c s).state ≡ s.state
state-dropped c s = ground arith

module _ (w : Bool) where
  connect_step-IsFineTurn : (a : Attempt) (s : Controller) → IsFineTurn w (connect_step a s)
  unfolding connect_step
  connect_step-IsFineTurn a s =
      rests-IsFineTurn w (connecting_with a) _ s connecting refl refl refl refl

  open_begins-IsFineTurn : (a : Attempt) (s : Controller) → IsFineTurn w (open_begins a s)
  unfolding open_begins
  open_begins-IsFineTurn a s =
      if-IsFineTurn w (same_address s.verified_bond_address a.address) _ _
        (λ h. connect_step-IsFineTurn a s)
        (λ h. rests-IsFineTurn w (pairing_with a) _ s pairing refl refl refl refl)

  paired-IsFineTurn : (a : Attempt) (s : Controller) → IsGood w s.state → IsFineTurn w (paired a s)
  unfolding paired
  paired-IsFineTurn a s g =
      if-IsFineTurn w (is_superseded a.generation s) _ _ (λ h. g)
        (λ h. connect_step-IsFineTurn a (record s { verified_bond_address = some a.address }))

  transport_open-IsFineTurn :
      (a : Attempt) (s : Controller) → IsGood w s.state → IsFineTurn w (transport_open a s)
  unfolding transport_open
  transport_open-IsFineTurn a s g =
      if-IsFineTurn w (is_superseded a.generation s) _ _ (λ h. g)
        (λ h. rests-IsFineTurn w (authenticating_with a) _ _ verifying refl refl refl refl)

  dropped-IsGood : (c : ℕ) (s : Controller) → IsGood w s.state → IsGood w (dropped c s).state
  dropped-IsGood c s g = rw (state-dropped c s) g

  authenticated-IsFineTurn :
      (a : Attempt) (s : Controller) → IsGood w s.state → IsFineTurn w (authenticated a s)
  unfolding authenticated
  authenticated-IsFineTurn a s g =
      if-IsFineTurn w (is_superseded a.generation s) _ _ (λ h. dropped-IsGood a.client s g) (λ h. g)

  verified-IsFineTurn :
      (a : Attempt) (boot : ℕ) (previous : Option ℕ) (s : Controller)
      → (w ≡ true → s.state.desired_connected ≡ true)
      → IsFineTurn w (verified a boot previous s)
  unfolding verified replaced
  verified-IsFineTurn a boot previous s d =
      >>=-IsFineTurn w _ _
        (become-IsFine w _ _ (record {
          consistent = record {
            ready_connected = λ h. refl;
            connected_ready = λ h. (refl, refl);
            stopped_idle = λ h. cc;
          };
          desired = λ u h. d u;
        }))
        (λ s' h. rw (state-complete_pending_connect s' s'.pending_connect) h)

  with_boot-IsFineTurn :
      (a : Attempt) (boot : ℕ) (loaded : Option (Option ℕ)) (last : Option ℕ) (s : Controller)
      → IsGood w s.state
      → (w ≡ true → s.state.desired_connected ≡ true)
      → IsFineTurn w (with_boot a boot loaded last s)
  with_boot-IsFineTurn a boot loaded (some previous) s g d =
      verified-IsFineTurn a boot (some previous) s d
  with_boot-IsFineTurn a boot (some previous) none s g d = verified-IsFineTurn a boot previous s d
  with_boot-IsFineTurn a boot none none s g d = g

  snapshot_read-IsFineTurn :
      (a : Attempt) (boot : ℕ) (s : Controller)
      → IsGood w s.state
      → IsFineTurn w (snapshot_read a boot s)
  unfolding snapshot_read
  snapshot_read-IsFineTurn a boot s g =
      if-IsFineTurn w (is_superseded a.generation s) _ _ (λ h. g) (λ h. g)

  handled-IsFineTurn :
      (settings : Settings) (f : Fault) (s : Controller) → IsFineTurn w (handled settings f s)
  handled-IsFineTurn settings (credential_refused m) s =
      rests-IsFineTurn w cleaning _ _ ConnectionPhase.authentication_required refl refl refl refl
  handled-IsFineTurn settings (other_fault m) s =
      rests-IsFineTurn w cleaning _ _ (retry_phase s.state.target) refl (phase s.state.target)
        (phase' s.state.target) refl
    where
      phase : (t : Option String) → is_connected_phase (retry_phase t) ≡ false
      phase none = refl
      phase (some a) = refl

      phase' : (t : Option String) → is_stopped (retry_phase t) ≡ false
      phase' none = refl
      phase' (some a) = refl

  round_failed-IsFineTurn :
      (settings : Settings) (f : Fault) (s : Controller)
      → IsGood w s.state
      → IsFineTurn w (round_failed settings f s)
  unfolding round_failed
  round_failed-IsFineTurn settings f s g =
      if-IsFineTurn w (not s.state.desired_connected) _ _ (λ h. g)
        (λ h. handled-IsFineTurn settings f s)

  abandoned-IsFineTurn : (s : Controller) → IsGood w s.state → IsFineTurn w (abandoned s)
  unfolding abandoned
  abandoned-IsFineTurn s g =
      if-IsFineTurn w (is_disconnected s.state.phase) _ _ (λ h. g)
        (λ h. rests-IsFineTurn w at_top _ s disconnected refl refl refl refl)

  rediscovered-IsFineTurn :
      (address : String) (generation : ℕ) (passkey : List ℕ) (s : Controller)
      → IsGood w s.state
      → IsFineTurn w (rediscovered address generation passkey s)
  unfolding rediscovered
  rediscovered-IsFineTurn address generation passkey s g =
      if-IsFineTurn w (is_superseded generation s) _ _ (λ h. g)
        (λ h. >>=-IsFineTurn w _ _ (calm-IsFine w _ _ reconnecting refl refl refl refl) (λ s' k. k))

  step_failed-IsFineTurn :
      (settings : Settings) (a : Attempt) (f : Fault) (s : Controller)
      → IsGood w s.state
      → IsFineTurn w (step_failed settings a f s)
  step_failed-IsFineTurn settings a f s g =
      round_failed-IsFineTurn settings f (dropped a.client s) (dropped-IsGood a.client s g)

  pub manager_turn-IsFineTurn :
      (settings : Settings) (place : Place) (input : Input) (s : Controller)
      → (w ≡ true → IsWanted place s)
      → IsGood w s.state
      → IsFineTurn w (manager_turn settings place input s)
  unfolding manager_turn
  manager_turn-IsFineTurn settings at_top (resumes stored) s q g =
      round_begins-IsFineTurn w settings stored s g
  manager_turn-IsFineTurn settings waiting (woken link) s q g =
      take_event-IsFineTurn w waiting s.manager_events s g
  manager_turn-IsFineTurn settings waiting (timed_out link) s q g = g
  manager_turn-IsFineTurn settings waiting_ready (woken link) s q g =
      >>=-IsFineTurn_of_turn w _ _ (take_event-IsFineTurn w waiting_ready s.manager_events s g)
        (λ p s' h. link_checked-IsFineTurn w link p s' h)
  manager_turn-IsFineTurn settings waiting_ready (timed_out link) s q g =
      link_checked-IsFineTurn w link at_top s g
  manager_turn-IsFineTurn settings losing closed s q g =
      rw (state-post (intent_changed s.target_generation) (record s { client = none })) g
  manager_turn-IsFineTurn settings losing_watched closed s q g =
      link_checked-IsFineTurn w false at_top
        (post_manager_event (intent_changed s.target_generation) (record s { client = none }))
        (rw (state-post (intent_changed s.target_generation) (record s { client = none })) g)
  manager_turn-IsFineTurn settings cleaning closed s q g = g
  manager_turn-IsFineTurn settings abandoning closed s q g =
      abandoned-IsFineTurn (record s { client = none }) g
  manager_turn-IsFineTurn settings (scanning n) (scanned devices stored) s q g =
      discovered-IsFineTurn w settings n devices stored s g
  manager_turn-IsFineTurn settings (scanning n) (failed f) s q g =
      round_failed-IsFineTurn settings f s g
  manager_turn-IsFineTurn settings (rescanning address n passkey) (scanned devices stored) s q g =
      rediscovered-IsFineTurn address n passkey s g
  manager_turn-IsFineTurn settings (rescanning address n passkey) (failed f) s q g =
      rediscovered-IsFineTurn address n passkey s g
  manager_turn-IsFineTurn settings (opening a) step_done s q g = open_begins-IsFineTurn a s
  manager_turn-IsFineTurn settings (opening a) cancelled s q g = g
  manager_turn-IsFineTurn settings (pairing_with a) step_done s q g = paired-IsFineTurn a s g
  manager_turn-IsFineTurn settings (pairing_with a) (failed f) s q g =
      step_failed-IsFineTurn settings a f s g
  manager_turn-IsFineTurn settings (pairing_with a) cancelled s q g = dropped-IsGood a.client s g
  manager_turn-IsFineTurn settings (connecting_with a) step_done s q g =
      transport_open-IsFineTurn a s g
  manager_turn-IsFineTurn settings (connecting_with a) (failed f) s q g =
      step_failed-IsFineTurn settings a f s g
  manager_turn-IsFineTurn settings (connecting_with a) cancelled s q g = dropped-IsGood a.client s g
  manager_turn-IsFineTurn settings (authenticating_with a) step_done s q g =
      authenticated-IsFineTurn a s g
  manager_turn-IsFineTurn settings (authenticating_with a) (failed f) s q g =
      step_failed-IsFineTurn settings a f s g
  manager_turn-IsFineTurn settings (authenticating_with a) cancelled s q g =
      dropped-IsGood a.client s g
  manager_turn-IsFineTurn settings (reading_with a) (read_snapshot boot) s q g =
      snapshot_read-IsFineTurn a boot s g
  manager_turn-IsFineTurn settings (reading_with a) (failed f) s q g =
      step_failed-IsFineTurn settings a f s g
  manager_turn-IsFineTurn settings (reading_with a) cancelled s q g = dropped-IsGood a.client s g
  manager_turn-IsFineTurn settings (returning a boot) (returned loaded) s q g =
      with_boot-IsFineTurn a boot loaded s.last_boot_id s g (λ u. q u refl)
  manager_turn-IsFineTurn settings (loading_boot a boot) (boot_loaded previous) s q g =
      verified-IsFineTurn a boot previous s (λ u. q u refl)
  manager_turn-IsFineTurn settings place _ s q g = g

  pub manager_restarts-IsFineTurn :
      (message : String) (s : Controller) → IsFineTurn w (manager_restarts message s)
  unfolding manager_restarts
  manager_restarts-IsFineTurn message s =
      rests-IsFineTurn w at_top _ s (recovery_phase s.state.desired_connected s.state.target) refl
        (phase s.state.desired_connected s.state.target)
        (phase' s.state.desired_connected s.state.target) refl
    where
      phase : (b : Bool) (t : Option String) → is_connected_phase (recovery_phase b t) ≡ false
      phase false t = refl
      phase true none = refl
      phase true (some a) = refl

      phase' : (b : Bool) (t : Option String) → is_stopped (recovery_phase b t) ≡ false
      phase' false t = refl
      phase' true none = refl
      phase' true (some a) = refl
