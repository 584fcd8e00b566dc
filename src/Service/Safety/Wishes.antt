-- ===== src/Service/Safety/Wishes.antt =====
-- The handlers of backend/pc_client/ble_service.py that leave a desired connection desired.
use ece4880_project.Prelude.{
  ℕ, ◌≡◌, refl, ap, ◌∙◌, Bool, true, false, not, ◌&&◌, ◌||◌, Option, none, some, List, String, ok,
  err, ◌>>=◌, Result, if◌then◌else◌,
}
use ece4880_project.Lifecycle.{
  ControllerState, Changes, Violation, or_keep, replaced, transition_state,
}
use ece4880_project.Lifecycle.Consistency.{transition_state-replaced}
use ece4880_project.Service.Controller.{
  Controller, Act, become, published, cancel_pending, same_number, same_address, intent_changed,
}
use ece4880_project.Service.Operations.{new_operation}
use ece4880_project.Service.Intent.{
  start, scan_begun, is_busy, or_stored, needs_passkey, target_chosen, take_over, with_credential,
  is_none, begin_connection, reconnect, reconnect_to, disconnect_ended, forget_failed,
  forget_completed, snapshot_seen,
}
use ece4880_project.Service.Safety.Handlers.{state-post, state-cancel_pending}

abbrev pub KeepsWish : Act Controller → Type 0
KeepsWish (ok s) = s.state.desired_connected ≡ true
KeepsWish (err (r, s)) = s.state.desired_connected ≡ true

published-KeepsWish :
    (s : Controller) (r : Result Violation ControllerState)
    → s.state.desired_connected ≡ true
    → ((t : ControllerState) → r ≡ ok t → t.desired_connected ≡ true)
    → KeepsWish (published s r)
published-KeepsWish s (ok t) d h = h t refl
published-KeepsWish s (err v) d h = d

become-KeepsWish :
    (c : Changes) (s : Controller)
    → s.state.desired_connected ≡ true
    → or_keep c.desired_connected s.state.desired_connected ≡ true
    → KeepsWish (become c s)
unfolding become replaced
become-KeepsWish c s d k =
    published-KeepsWish s (transition_state s.state s.clock c) d
      (λ t e. wish_of t ((transition_state-replaced s.state s.clock c t).0 e).0)
  where
    wish_of : (t : ControllerState) → t ≡ replaced s.state s.clock c → t.desired_connected ≡ true
    wish_of t e = ap (λ u. u.desired_connected) e ∙ k

>>=-KeepsWish :
    (a : Act Controller) (f : Controller → Act Controller)
    → KeepsWish a
    → ((s : Controller) → s.state.desired_connected ≡ true → KeepsWish (f s))
    → KeepsWish (a >>= f)
>>=-KeepsWish (ok s) f h k = k s h
>>=-KeepsWish (err (r, s)) f h k = h

if-KeepsWish :
    (b : Bool) (x y : Act Controller) → KeepsWish x → KeepsWish y → KeepsWish (if b then x else y)
if-KeepsWish true x y h k = h
if-KeepsWish false x y h k = k

module _ (s : Controller) (d : s.state.desired_connected ≡ true) where
  pub scan_begun-KeepsWish : KeepsWish (scan_begun s)
  unfolding scan_begun
  scan_begun-KeepsWish = if-KeepsWish (s.state.connected || is_busy s.state.phase) _ _ d d

  needs_passkey-KeepsWish : (selected : String) → KeepsWish (needs_passkey selected s)
  unfolding needs_passkey
  needs_passkey-KeepsWish selected = >>=-KeepsWish _ _ (become-KeepsWish _ _ d refl) (λ s' h. h)

  pub disconnect_ended-KeepsWish : KeepsWish (disconnect_ended s)
  unfolding disconnect_ended
  disconnect_ended-KeepsWish =
      >>=-KeepsWish _ _ (become-KeepsWish _ _ d d)
        (λ s' h. rw (state-cancel_pending s'.pending_connect "explicitly disconnected" s') h)

  pub forget_failed-KeepsWish : (message : String) → KeepsWish (forget_failed message s)
  unfolding forget_failed
  forget_failed-KeepsWish message = become-KeepsWish _ _ d d

  pub forget_completed-KeepsWish : KeepsWish (forget_completed s)
  unfolding forget_completed
  forget_completed-KeepsWish = become-KeepsWish _ _ d d

  pub snapshot_seen-KeepsWish : (observed_at : ℕ) → KeepsWish (snapshot_seen observed_at s)
  unfolding snapshot_seen
  snapshot_seen-KeepsWish observed_at =
      if-KeepsWish (same_number (some observed_at) s.state.last_seen_utc) _ _ d
        (become-KeepsWish _ _ d d)

pub target_chosen-KeepsWish :
    (kind selected : String) (credential : List ℕ) (from_registry : Bool) (s : Controller)
    → s.state.desired_connected ≡ true
    → KeepsWish (target_chosen kind selected credential from_registry s)
unfolding target_chosen
target_chosen-KeepsWish kind selected credential from_registry s d =
    >>=-KeepsWish _ _ (become-KeepsWish _ _ d refl)
      (λ s' h. rw (state-post (intent_changed s'.target_generation) s') h)

module _ (retention : ℕ) (kind selected : String) (s : Controller)
    (d : s.state.desired_connected ≡ true) where
  cancelled_still :
      (cancel_pending s.pending_connect "superseded by another connect request" (record s {
        operations = new_operation kind s.persistence_configured s.clock retention s.operations;
      })).state.desired_connected
      ≡ true
  cancelled_still =
      rw
        (state-cancel_pending s.pending_connect "superseded by another connect request" (record s {
          operations = new_operation kind s.persistence_configured s.clock retention s.operations;
        }))
        d

  take_over-KeepsWish :
      (credential : List ℕ) (from_registry : Bool)
      → KeepsWish (take_over retention kind selected credential from_registry s)
  unfolding take_over
  take_over-KeepsWish credential from_registry =
      if-KeepsWish (s.state.connected && not (same_address s.state.target selected)) _ _
        (become-KeepsWish _ _ cancelled_still cancelled_still)
        (target_chosen-KeepsWish kind selected credential from_registry _ cancelled_still)

  pub begin_connection-KeepsWish :
      (supplied stored : Option (List ℕ))
      → KeepsWish (begin_connection retention kind selected supplied stored s)
  unfolding begin_connection
  begin_connection-KeepsWish supplied stored =
      if-KeepsWish (s.state.ready && same_address s.state.target selected) _ _ d
        (credential (or_stored supplied stored))
    where
      credential :
          (c : Option (List ℕ))
          → KeepsWish (with_credential retention kind selected c (is_none supplied) s)
      credential none = needs_passkey-KeepsWish s d selected
      credential (some c) = take_over-KeepsWish c (is_none supplied)

pub reconnect-KeepsWish :
    (retention : ℕ) (stored : Option (List ℕ)) (s : Controller)
    → s.state.desired_connected ≡ true
    → KeepsWish (reconnect retention stored s)
unfolding reconnect
reconnect-KeepsWish retention stored s d = by_target s.state.target
  where
    by_target : (target : Option String) → KeepsWish (reconnect_to retention target stored s)
    by_target none = d
    by_target (some address) =
        begin_connection-KeepsWish retention "connect" address s d none stored

pub start-KeepsWish :
    (auto : Bool) (s : Controller)
    → s.started ≡ true
    → s.state.desired_connected ≡ true
    → KeepsWish (start auto s)
unfolding start
start-KeepsWish auto s b d = rw b d
