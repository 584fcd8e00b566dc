-- ===== src/Service/Safety/Turns.antt =====
-- The rounds of the connection manager of backend/pc_client/ble_service.py, part by part.
use ece4880_project.Prelude.{
  ℕ, suc, ◌≡◌, refl, String, Bool, true, false, not, ◌&&◌, ◌||◌, Option, none, some, List, [], ◌∷◌,
  if◌then◌else◌, Bool-cases, inl, inr, ◌==◌,
}
use ece4880_project.Lifecycle.{
  ConnectionPhase, Changes, is_connected_phase, is_stopped, discovering, disconnected, pairing,
  selection_required,
}
use ece4880_project.Service.Controller.{
  Controller, LifecycleEvent, intent_changed, discovery_result, link_lost, start_event, stop_event,
  become, same_number,
}
use ece4880_project.Service.Manager.{
  Settings, Place, at_top, waiting, losing, moved, is_disconnected, is_reconnecting, is_refused,
  is_chosen, lost_phase, connection_lost, woken_by, take_event, link_checked, attempt, with_passkey,
  discovered_one, discovered_devices, discovered, observed, probe, for_target, round_begins,
}
use ece4880_project.Service.Safety.Good.{
  IsGood, IsFineTurn, calm-IsFine, moved-IsFineTurn, if-IsFineTurn, >>=-IsFineTurn,
}

module _ (w : Bool) where
  -- A transition into a phase that is neither CONNECTED nor STOPPED, and then a wait.
  pub rests-IsFineTurn :
      (place : Place) (c : Changes) (s : Controller) (p : ConnectionPhase)
      → c.phase ≡ some p
      → is_connected_phase p ≡ false
      → is_stopped p ≡ false
      → c.ready ≡ some false
      → IsFineTurn w (moved place (become c s))
  rests-IsFineTurn place c s p e f g r = moved-IsFineTurn w place _ (calm-IsFine w c s p e f g r)

  pub connection_lost-IsFineTurn :
      (reason : String) (s : Controller)
      → IsGood w s.state
      → IsFineTurn w (connection_lost reason s)
  unfolding connection_lost
  connection_lost-IsFineTurn reason s g =
      elim (Bool-cases (
        not s.state.connected
        && (is_reconnecting s.state.phase || is_disconnected s.state.phase))) [
          | inl e ↦ rw e g
          | inr e ↦ rw e (
              rests-IsFineTurn losing _ s (lost_phase s.state.desired_connected) refl
                (phase s.state.desired_connected) (phase' s.state.desired_connected) refl)
        ]
    where
      phase : (b : Bool) → is_connected_phase (lost_phase b) ≡ false
      phase true = refl
      phase false = refl

      phase' : (b : Bool) → is_stopped (lost_phase b) ≡ false
      phase' true = refl
      phase' false = refl

  pub woken_by-IsFineTurn :
      (e : LifecycleEvent) (s : Controller) → IsGood w s.state → IsFineTurn w (woken_by e s)
  unfolding woken_by
  woken_by-IsFineTurn (discovery_result generation devices) s g =
      elim (Bool-cases ((generation == s.target_generation) && not (is_chosen s.state.target))) [
        | inl e ↦ rw e g
        | inr e ↦ rw e g
      ]
  woken_by-IsFineTurn (link_lost generation client reason) s g =
      elim (Bool-cases ((generation == s.target_generation) && same_number client s.client)) [
        | inl e ↦ rw e (connection_lost-IsFineTurn reason s g)
        | inr e ↦ rw e g
      ]
  woken_by-IsFineTurn (start_event n) s g = g
  woken_by-IsFineTurn (intent_changed n) s g = g
  woken_by-IsFineTurn (stop_event n) s g = g

  pub take_event-IsFineTurn :
      (place : Place) (es : List LifecycleEvent) (s : Controller)
      → IsGood w s.state
      → IsFineTurn w (take_event place es s)
  take_event-IsFineTurn place [] s g = g
  take_event-IsFineTurn place (e ∷ es) s g =
      woken_by-IsFineTurn e (record s { manager_events = es }) g

  link_lost-IsFineTurn :
      (link : Bool) (s : Controller) → IsGood w s.state → IsFineTurn w (link_checked link at_top s)
  link_lost-IsFineTurn link s g =
      elim (Bool-cases (s.state.desired_connected && (same_number s.client none || not link))) [
        | inl e ↦ rw e (connection_lost-IsFineTurn "BLE session ended unexpectedly" s g)
        | inr e ↦ rw e g
      ]

  pub link_checked-IsFineTurn :
      (link : Bool) (place : Place) (s : Controller)
      → IsGood w s.state
      → IsFineTurn w (link_checked link place s)
  link_checked-IsFineTurn link at_top s g = link_lost-IsFineTurn link s g
  link_checked-IsFineTurn link losing s g = g
  link_checked-IsFineTurn link _ s g = g

  attempt-IsFineTurn :
      (counted : Bool) (address : String) (passkey : List ℕ) (s : Controller)
      → IsGood w s.state
      → IsFineTurn w (attempt counted address passkey s)
  unfolding attempt
  attempt-IsFineTurn counted address passkey s g =
      elim (Bool-cases (is_reconnecting s.state.phase)) [
        | inl e ↦ rw e (count counted)
        | inr e ↦ rw e (count counted)
      ]
    where
      count :
          (b : Bool)
          → IsGood w
              (if b
                then s
                else record s { connection_attempt_id = suc s.connection_attempt_id }).state
      count true = g
      count false = g

  with_passkey-IsFineTurn :
      (counted : Bool) (address : String) (passkey stored : Option (List ℕ)) (s : Controller)
      → IsGood w s.state
      → IsFineTurn w (with_passkey counted address passkey stored s)
  unfolding with_passkey
  with_passkey-IsFineTurn counted address (some p) stored s g =
      attempt-IsFineTurn counted address p s g
  with_passkey-IsFineTurn counted address none none s g =
      elim (Bool-cases (is_refused s.state.phase s.state.credential_state)) [
        | inl e ↦ rw e g
        | inr e ↦ rw e (
            rests-IsFineTurn waiting _ s ConnectionPhase.authentication_required refl refl refl
              refl)
      ]
  with_passkey-IsFineTurn counted address none (some p) s g =
      elim (Bool-cases (is_refused s.state.phase s.state.credential_state)) [
        | inl e ↦ rw e g
        | inr e ↦ rw e (
            attempt-IsFineTurn counted address p
              (record s { target_passkey = some p; credential_from_registry = true }) g)
      ]

  discovered_one-IsFineTurn :
      (address : String) (stored : Option (List ℕ)) (s : Controller)
      → IsFineTurn w (discovered_one address stored s)
  unfolding discovered_one
  discovered_one-IsFineTurn address none s =
      rests-IsFineTurn waiting _ _ ConnectionPhase.authentication_required refl refl refl refl
  discovered_one-IsFineTurn address (some p) s =
      >>=-IsFineTurn w _ _ (calm-IsFine w _ _ pairing refl refl refl refl)
        (λ s' h. attempt-IsFineTurn true address p s' h)

  discovered_devices-IsFineTurn :
      (settings : Settings) (devices : List String) (stored : Option (List ℕ)) (s : Controller)
      → IsFineTurn w (discovered_devices settings devices stored s)
  unfolding discovered_devices
  discovered_devices-IsFineTurn settings [] stored s =
      rests-IsFineTurn waiting _ s discovering refl refl refl refl
  discovered_devices-IsFineTurn settings (a ∷ []) stored s = discovered_one-IsFineTurn a stored s
  discovered_devices-IsFineTurn settings (a ∷ b ∷ rest) stored s =
      rests-IsFineTurn waiting _ s selection_required refl refl refl refl

  pub discovered-IsFineTurn :
      (settings : Settings) (generation : ℕ) (devices : List String) (stored : Option (List ℕ))
      (s : Controller)
      → IsGood w s.state
      → IsFineTurn w (discovered settings generation devices stored s)
  unfolding discovered
  discovered-IsFineTurn settings generation devices stored s g =
      elim (Bool-cases (not (generation == s.target_generation) || is_chosen s.state.target)) [
        | inl e ↦ rw e g
        | inr e ↦ rw e (discovered_devices-IsFineTurn settings devices stored s)
      ]

  observed-IsFineTurn :
      (settings : Settings) (pending : Option (List String)) (stored : Option (List ℕ))
      (s : Controller)
      → IsGood w s.state
      → IsFineTurn w (observed settings pending stored s)
  observed-IsFineTurn settings none stored s g = g
  observed-IsFineTurn settings (some devices) stored s g =
      discovered-IsFineTurn settings s.target_generation devices stored
        (record s { pending_discovery = none }) g

  for_target-IsFineTurn :
      (settings : Settings) (target : Option String) (stored : Option (List ℕ)) (s : Controller)
      → IsGood w s.state
      → IsFineTurn w (for_target settings target stored s)
  unfolding probe
  for_target-IsFineTurn settings none stored s g =
      >>=-IsFineTurn w _ _ (calm-IsFine w _ _ discovering refl refl refl refl)
        (λ s' h. observed-IsFineTurn settings s'.pending_discovery stored s' h)
  for_target-IsFineTurn settings (some address) stored s g =
      with_passkey-IsFineTurn false address s.target_passkey stored s g

  pub round_begins-IsFineTurn :
      (settings : Settings) (stored : Option (List ℕ)) (s : Controller)
      → IsGood w s.state
      → IsFineTurn w (round_begins settings stored s)
  unfolding round_begins
  round_begins-IsFineTurn settings stored s g =
      if-IsFineTurn w (not s.started) _ _ (λ ended. g)
        (λ going.
          if-IsFineTurn w (not s.state.desired_connected) _ _
            (λ u.
              if-IsFineTurn w (is_disconnected s.state.phase) _ _ (λ p. g)
                (λ p. rests-IsFineTurn waiting _ s disconnected refl refl refl refl))
            (λ d.
              if-IsFineTurn w s.state.ready _ _ (λ r. g)
                (λ r. for_target-IsFineTurn settings s.state.target stored s g)))
