-- ===== src/Service/Safety/Handlers.antt =====
-- The transitions of the handlers of backend/pc_client/ble_service.py that callers reach.
use ece4880_project.Prelude.{
  ℕ, ◌≡◌, refl, String, Bool, true, false, not, ◌&&◌, ◌||◌, Option, none, some, List, arith,
  if◌then◌else◌, Bool-cases, inl, inr,
}
use ece4880_project.Lifecycle.{
  ConnectionPhase, is_connected_phase, is_stopped, replaced, discovering, disconnected,
  disconnecting, pairing,
}
use ece4880_project.Service.Controller.{
  Controller, LifecycleEvent, post_manager_event, cancel_pending, same_number, same_address,
}
use ece4880_project.Service.Operations.{new_operation}
use ece4880_project.Service.Intent.{
  start, stop_begun, stop_ended, scan_begun, is_busy, scan_ended, or_stored, needs_passkey,
  target_chosen, take_over, with_credential, is_none, begin_connection, reconnect, reconnect_to,
  disconnect_begun, disconnect_ended, forget_begun, forget_failed, forget_completed,
  transport_disconnected, snapshot_seen,
}
use ece4880_project.Service.Safety.Good.{IsGood, IsFine, become-IsFine, calm-IsFine, >>=-IsFine}

-- Posting an event and ending an operation leave the snapshot alone.
pub state-post : (e : LifecycleEvent) (s : Controller) → (post_manager_event e s).state ≡ s.state
unfolding post_manager_event
state-post e s = ground arith

pub state-cancel_pending :
    (n : Option ℕ) (reason : String) (s : Controller) → (cancel_pending n reason s).state ≡ s.state
state-cancel_pending none reason s = refl
state-cancel_pending (some n) reason s = refl

module _ (w : Bool) where
  pub start-IsFine : (auto : Bool) (s : Controller) → IsGood w s.state → IsFine w (start auto s)
  unfolding start
  start-IsFine auto s g = elim (Bool-cases s.started) [
    | inl e ↦ rw e g
    | inr e ↦ rw e (
        >>=-IsFine w _ _
          (calm-IsFine w _ _ (if auto then discovering else disconnected) refl (phase auto)
            (phase' auto) refl)
          (λ s' h. rw (state-post _ s') h))
  ]
    where
      phase : (b : Bool) → is_connected_phase (if b then discovering else disconnected) ≡ false
      phase true = refl
      phase false = refl

      phase' : (b : Bool) → is_stopped (if b then discovering else disconnected) ≡ false
      phase' true = refl
      phase' false = refl

  pub disconnect_begun-IsFine : (s : Controller) → IsGood w s.state → IsFine w (disconnect_begun s)
  unfolding disconnect_begun
  disconnect_begun-IsFine s g =
      >>=-IsFine w _ _ (calm-IsFine w _ _ disconnecting refl refl refl refl)
        (λ s' h. rw (state-post _ s') h)

  pub stop_begun-IsFine : (s : Controller) → IsGood w s.state → IsFine w (stop_begun s)
  unfolding stop_begun
  stop_begun-IsFine s g = elim (Bool-cases s.started) [
    | inl e ↦ rw e (
        >>=-IsFine w _ _ (calm-IsFine w _ _ disconnecting refl refl refl refl)
          (λ s' h. rw (state-cancel_pending _ _ (post_manager_event _ s'), state-post _ s') h))
    | inr e ↦ rw e g
  ]

  -- Where no connection is desired, a stopped service is consistent.
  pub stop_ended-IsFine :
      (s : Controller)
      → s.state.desired_connected ≡ false
      → IsGood w s.state
      → IsFine w (stop_ended s)
  unfolding stop_ended replaced
  stop_ended-IsFine s d g = become-IsFine w _ s (record {
    consistent = record {
      ready_connected = λ h. cc;
      connected_ready = λ h. cc;
      stopped_idle = λ h. d;
    };
    desired = λ u h. cc;
  })

  pub scan_begun-IsFine : (s : Controller) → IsGood w s.state → IsFine w (scan_begun s)
  unfolding scan_begun
  scan_begun-IsFine s g = elim (Bool-cases (s.state.connected || is_busy s.state.phase)) [
    | inl e ↦ rw e g
    | inr e ↦ rw e g
  ]

  pub state-scan_ended :
      (generation : ℕ) (devices : List String) (s : Controller)
      → (scan_ended generation devices s).state ≡ s.state
  unfolding scan_ended
  state-scan_ended generation devices s = ground (
    arith,
    state-post (LifecycleEvent.discovery_result generation devices)
        (record s { pending_discovery = some devices }),
  )

  needs_passkey-IsFine :
      (selected : String) (s : Controller) → IsGood w s.state → IsFine w (needs_passkey selected s)
  unfolding needs_passkey
  needs_passkey-IsFine selected s g =
      >>=-IsFine w _ _
        (calm-IsFine w _ _ ConnectionPhase.authentication_required refl refl refl refl) (λ s' h. h)

  pub target_chosen-IsFine :
      (kind selected : String) (credential : List ℕ) (from_registry : Bool) (s : Controller)
      → IsGood w s.state
      → IsFine w (target_chosen kind selected credential from_registry s)
  unfolding target_chosen
  target_chosen-IsFine kind selected credential from_registry s g =
      >>=-IsFine w _ _ (calm-IsFine w _ _ pairing refl refl refl refl)
        (λ s' h. rw (state-post _ s') h)

  take_over-IsFine :
      (retention : ℕ) (kind selected : String) (credential : List ℕ) (from_registry : Bool)
      (s : Controller)
      → IsGood w s.state
      → IsFine w (take_over retention kind selected credential from_registry s)
  unfolding take_over
  take_over-IsFine retention kind selected credential from_registry s g =
      elim (Bool-cases (s.state.connected && not (same_address s.state.target selected))) [
        | inl e ↦ rw e (calm-IsFine w _ _ disconnecting refl refl refl refl)
        | inr e ↦ rw e (
            target_chosen-IsFine kind selected credential from_registry _ (
              rw
                (state-cancel_pending s.pending_connect "superseded by another connect request"
                  (record s {
                    operations =
                        new_operation kind s.persistence_configured s.clock retention s.operations;
                  }))
                g))
      ]

  pub begin_connection-IsFine :
      (retention : ℕ) (kind selected : String) (supplied stored : Option (List ℕ)) (s : Controller)
      → IsGood w s.state
      → IsFine w (begin_connection retention kind selected supplied stored s)
  unfolding begin_connection
  begin_connection-IsFine retention kind selected supplied stored s g =
      elim (Bool-cases (s.state.ready && same_address s.state.target selected)) [
        | inl e ↦ rw e g
        | inr e ↦ rw e (credential (or_stored supplied stored))
      ]
    where
      credential :
          (c : Option (List ℕ))
          → IsFine w (with_credential retention kind selected c (is_none supplied) s)
      credential none = needs_passkey-IsFine selected s g
      credential (some c) = take_over-IsFine retention kind selected c (is_none supplied) s g

  pub reconnect-IsFine :
      (retention : ℕ) (stored : Option (List ℕ)) (s : Controller)
      → IsGood w s.state
      → IsFine w (reconnect retention stored s)
  unfolding reconnect
  reconnect-IsFine retention stored s g = by_target s.state.target
    where
      by_target : (target : Option String) → IsFine w (reconnect_to retention target stored s)
      by_target none = g
      by_target (some address) = begin_connection-IsFine retention "connect" address none stored s g

  pub disconnect_ended-IsFine : (s : Controller) → IsGood w s.state → IsFine w (disconnect_ended s)
  unfolding disconnect_ended
  disconnect_ended-IsFine s g =
      >>=-IsFine w _ _ (calm-IsFine w _ _ disconnected refl refl refl refl)
        (λ s' h. rw (state-cancel_pending s'.pending_connect _ s') h)

  pub forget_begun-IsFine :
      (selected : String) (s : Controller) → IsGood w s.state → IsFine w (forget_begun selected s)
  unfolding forget_begun
  forget_begun-IsFine selected s g =
      elim (Bool-cases (s.state.ready && same_address s.state.target selected)) [
        | inl e ↦ rw e (
            >>=-IsFine w _ _ (calm-IsFine w _ _ disconnecting refl refl refl refl)
              (λ s' h. rw (state-post _ s') h))
        | inr e ↦ rw e g
      ]

  pub forget_failed-IsFine :
      (message : String) (s : Controller) → IsGood w s.state → IsFine w (forget_failed message s)
  unfolding forget_failed
  forget_failed-IsFine message s g = calm-IsFine w _ _ disconnected refl refl refl refl

  pub forget_completed-IsFine : (s : Controller) → IsGood w s.state → IsFine w (forget_completed s)
  unfolding forget_completed
  forget_completed-IsFine s g = calm-IsFine w _ _ disconnected refl refl refl refl

  pub state-transport_disconnected :
      (c : ℕ) (s : Controller) → (transport_disconnected c s).state ≡ s.state
  unfolding transport_disconnected
  state-transport_disconnected c s = ground (
    arith,
    state-post
        (LifecycleEvent.link_lost s.target_generation (some c) "BLE session ended unexpectedly") s,
  )

  -- A snapshot that is seen changes no more than when the device was seen.
  pub snapshot_seen-IsFine :
      (observed_at : ℕ) (s : Controller) → IsGood w s.state → IsFine w (snapshot_seen observed_at s)
  unfolding snapshot_seen replaced
  snapshot_seen-IsFine observed_at s g =
      elim (Bool-cases (same_number (some observed_at) s.state.last_seen_utc)) [
        | inl e ↦ rw e g
        | inr e ↦ rw e (
            become-IsFine w _ s (record {
              consistent = record {
                ready_connected = g.consistent.ready_connected;
                connected_ready = g.consistent.connected_ready;
                stopped_idle = g.consistent.stopped_idle;
              };
              desired = g.desired;
            }))
      ]
