-- ===== src/Service/Safety/Undisturbed.antt =====
-- Runs of the service of backend/pc_client/ble_service.py in which nobody gives up a connection while the
-- manager has its snapshot in hand.
use ece4880_project.Prelude.{◌≡◌, refl, Bool, true, false, none, List, [], ◌∷◌, ok, err}
use ece4880_project.Service.Controller.{Controller, Act, link_lost}
use ece4880_project.Service.Manager.{Settings, Place, at_top, Turn}
use ece4880_project.Service.Intent.{start, poll_failed, forget_bond}
use ece4880_project.Service.Steps.{
  System, Event, answered, turned, outcome, step, place_at_start, starts, stop_begins, stop_ends,
  scan_begins, scan_ends, connects, target_follows, reconnects, disconnect_begins, disconnect_ends,
  forget_begins, bond_forgotten, forget_fails, forget_completes, closes_client, link_goes_down,
  poll_fails, snapshot_comes, manager_gets, manager_fails, time_passes,
}
use ece4880_project.Service.Safety.Handlers.{
  state-post, state-scan_ended, state-transport_disconnected,
}
use ece4880_project.Service.Safety.Wishes.{
  KeepsWish, start-KeepsWish, scan_begun-KeepsWish, disconnect_ended-KeepsWish,
  forget_failed-KeepsWish, forget_completed-KeepsWish, snapshot_seen-KeepsWish,
  target_chosen-KeepsWish, begin_connection-KeepsWish, reconnect-KeepsWish,
}
use ece4880_project.Service.Safety.Landings.{
  is_in_hand, IsWanted, Lands, free, manager_turn-Lands, manager_restarts-Lands,
}

-- No stop, disconnection or removal of the pairing begins between the end of an attempt that has
-- returned its snapshot and the transition to CONNECTED.
abbrev pub IsUndisturbed : Place → Event → Type 0
IsUndisturbed p stop_begins = is_in_hand p ≡ false
IsUndisturbed p disconnect_begins = is_in_hand p ≡ false
IsUndisturbed p (forget_begins selected) = is_in_hand p ≡ false
IsUndisturbed p _ = Unit {0}

abbrev pub AllUndisturbed : Settings → System → List Event → Type 0
AllUndisturbed settings y [] = Unit {0}
AllUndisturbed settings y (e ∷ es) =
    IsUndisturbed y.place e × AllUndisturbed settings (step settings y e) es

abbrev pub IsWantedIn : System → Type 0
IsWantedIn y = IsWanted y.place y.controller

answered-IsWanted :
    (p : Place) (a : Act Controller)
    → (is_in_hand p ≡ true → KeepsWish a)
    → IsWantedIn (answered p a).0
answered-IsWanted p (ok s) h = h
answered-IsWanted p (err (r, s)) h = h

answered_free :
    (p : Place) (a : Act Controller) → is_in_hand p ≡ false → IsWantedIn (answered p a).0
answered_free p (ok s) h = free p s h
answered_free p (err (r, s)) h = free p s h

turned-IsWanted : (t : Turn) → Lands t → IsWantedIn (turned t).0
turned-IsWanted (ok (p, s)) h = h
turned-IsWanted (err (r, s)) h = free at_top s refl

started-IsWanted :
    (auto : Bool) (p : Place) (s : Controller) (b : Bool)
    → s.started ≡ b
    → IsWanted p s
    → IsWantedIn (answered (place_at_start b p) (start auto s)).0
started-IsWanted auto p s true e h =
    answered-IsWanted p (start auto s) (λ k. start-KeepsWish auto s e (h k))
started-IsWanted auto p s false e h = answered_free at_top (start auto s) refl

outcome-IsWanted :
    (settings : Settings) (p : Place) (s : Controller) (e : Event)
    → IsUndisturbed p e
    → IsWanted p s
    → IsWantedIn (outcome settings p s e).0
unfolding outcome poll_failed forget_bond
outcome-IsWanted settings p s (starts auto) u h = started-IsWanted auto p s s.started refl h
outcome-IsWanted settings p s stop_begins u h = answered_free p _ u
outcome-IsWanted settings p s stop_ends u h = answered_free at_top _ refl
outcome-IsWanted settings p s scan_begins u h =
    answered-IsWanted p _ (λ k. scan_begun-KeepsWish s (h k))
outcome-IsWanted settings p s (scan_ends n devices) u h =
    λ k. rw (state-scan_ended true n devices s) (h k)
outcome-IsWanted settings p s (connects kind selected supplied stored) u h =
    answered-IsWanted p _
      (λ k. begin_connection-KeepsWish settings.retention kind selected s (h k) supplied stored)
outcome-IsWanted settings p s (target_follows kind selected credential from_registry) u h =
    answered-IsWanted p _
      (λ k. target_chosen-KeepsWish kind selected credential from_registry s (h k))
outcome-IsWanted settings p s (reconnects stored) u h =
    answered-IsWanted p _ (λ k. reconnect-KeepsWish settings.retention stored s (h k))
outcome-IsWanted settings p s disconnect_begins u h = answered_free p _ u
outcome-IsWanted settings p s disconnect_ends u h =
    answered-IsWanted p _ (λ k. disconnect_ended-KeepsWish s (h k))
outcome-IsWanted settings p s (forget_begins selected) u h = answered_free p _ u
outcome-IsWanted settings p s bond_forgotten u h = h
outcome-IsWanted settings p s (forget_fails m) u h =
    answered-IsWanted p _ (λ k. forget_failed-KeepsWish s (h k) m)
outcome-IsWanted settings p s forget_completes u h =
    answered-IsWanted p _ (λ k. forget_completed-KeepsWish s (h k))
outcome-IsWanted settings p s closes_client u h = h
outcome-IsWanted settings p s (link_goes_down c) u h =
    λ k. rw (state-transport_disconnected true c s) (h k)
outcome-IsWanted settings p s (poll_fails m) u h =
    λ k. rw (state-post (link_lost s.target_generation none m) s) (h k)
outcome-IsWanted settings p s (snapshot_comes t) u h =
    answered-IsWanted p _ (λ k. snapshot_seen-KeepsWish s (h k) t)
outcome-IsWanted settings p s (manager_gets input) u h =
    turned-IsWanted _ (manager_turn-Lands settings p input s h)
outcome-IsWanted settings p s (manager_fails m) u h = turned-IsWanted _ (manager_restarts-Lands m s)
outcome-IsWanted settings p s (time_passes n) u h = h

pub step-IsWanted :
    (settings : Settings) (y : System) (e : Event)
    → IsUndisturbed y.place e
    → IsWantedIn y
    → IsWantedIn (step settings y e)
unfolding step
step-IsWanted settings y e u h = outcome-IsWanted settings y.place y.controller e u h
