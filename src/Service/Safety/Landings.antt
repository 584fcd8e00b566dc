-- ===== src/Service/Safety/Landings.antt =====
-- Where the connection manager of backend/pc_client/ble_service.py has a snapshot in hand: only after an
-- attempt that was still wanted.
use ece4880_project.Prelude.{
  ℕ, ◌≡◌, refl, String, Bool, true, false, not, ◌&&◌, ◌||◌, Option, none, some, List, [], ◌∷◌, ok,
  err, ◌>>=◌, if◌then◌else◌, arith, ◌==◌,
}
use ece4880_project.Service.Controller.{
  Controller, Act, LifecycleEvent, intent_changed, discovery_result, link_lost, start_event,
  stop_event, become, complete_pending_connect, same_address, same_number, is_superseded, dropped,
  post_manager_event,
}
use ece4880_project.Service.Manager.{
  Settings, Attempt, Place, at_top, waiting, waiting_ready, losing, losing_watched, cleaning,
  abandoning, scanning, rescanning, opening, pairing_with, connecting_with, authenticating_with,
  reading_with, returning, loading_boot, Fault, credential_refused, other_fault, Input, resumes,
  timed_out, woken, closed, step_done, cancelled, scanned, failed, read_snapshot, returned,
  boot_loaded, Turn, moved, is_disconnected, is_reconnecting, is_refused, is_chosen,
  connection_lost, woken_by, take_event, link_checked, attempt, with_passkey, discovered_one,
  discovered_devices, discovered, observed, probe, for_target, round_begins, opened,
}
use ece4880_project.Service.Opening.{
  connect_step, open_begins, paired, transport_open, authenticated, verified, with_boot,
  snapshot_read, handled, round_failed, abandoned, rediscovered, manager_turn, manager_restarts,
  protocol_verified, booted, rediscovery,
}

-- The attempt has returned its snapshot, and the connection is not ready yet.
abbrev pub is_in_hand : Place → Bool
is_in_hand (returning a boot) = true
is_in_hand (loading_boot a boot) = true
is_in_hand _ = false

abbrev pub IsWanted : Place → Controller → Type 0
IsWanted p s = is_in_hand p ≡ true → s.state.desired_connected ≡ true

abbrev pub Lands : Turn → Type 0
Lands (ok (p, s)) = IsWanted p s
Lands (err (r, s)) = Unit {0}

pub free : (p : Place) (s : Controller) → is_in_hand p ≡ false → IsWanted p s
free p s h k = absurd (cc (h, k))

moved-Lands : (p : Place) (a : Act Controller) → is_in_hand p ≡ false → Lands (moved p a)
moved-Lands p (ok s) h = free p s h
moved-Lands p (err e) h = tt

if-Lands :
    (b : Bool) (x y : Turn)
    → (b ≡ true → Lands x)
    → (b ≡ false → Lands y)
    → Lands (if b then x else y)
if-Lands true x y h k = h refl
if-Lands false x y h k = k refl

>>=-Lands :
    (a : Act Controller) (f : Controller → Turn)
    → ((s : Controller) → Lands (f s))
    → Lands (a >>= f)
>>=-Lands (ok s) f k = k s
>>=-Lands (err e) f k = tt

>>=-Lands_of_turn :
    (t : Turn) (f : Place × Controller → Turn)
    → ((p : Place) (s : Controller) → IsWanted p s → Lands (f (p, s)))
    → Lands t
    → Lands (t >>= f)
>>=-Lands_of_turn (ok (p, s)) f k h = k p s h
>>=-Lands_of_turn (err e) f k h = tt

connection_lost-Lands : (reason : String) (s : Controller) → Lands (connection_lost reason s)
unfolding connection_lost
connection_lost-Lands reason s =
    if-Lands
      (not s.state.connected && (is_reconnecting s.state.phase || is_disconnected s.state.phase)) _
      _ (λ e. free at_top s refl) (λ e. moved-Lands losing _ refl)

woken_by-Lands : (e : LifecycleEvent) (s : Controller) → Lands (woken_by e s)
unfolding woken_by
woken_by-Lands (discovery_result generation devices) s =
    if-Lands ((generation == s.target_generation) && not (is_chosen s.state.target)) _ _
      (λ e k. absurd (cc k)) (λ e. free at_top s refl)
woken_by-Lands (link_lost generation client reason) s =
    if-Lands ((generation == s.target_generation) && same_number client s.client) _ _
      (λ e. connection_lost-Lands reason s) (λ e. free at_top s refl)
woken_by-Lands (start_event n) s = free at_top s refl
woken_by-Lands (intent_changed n) s = free at_top s refl
woken_by-Lands (stop_event n) s = free at_top s refl

take_event-Lands :
    (p : Place) (es : List LifecycleEvent) (s : Controller)
    → is_in_hand p ≡ false
    → Lands (take_event p es s)
take_event-Lands p [] s h = free p s h
take_event-Lands p (e ∷ es) s h = woken_by-Lands e (record s { manager_events = es })

link_checked-Lands :
    (link : Bool) (p : Place) (s : Controller) → IsWanted p s → Lands (link_checked link p s)
link_checked-Lands link at_top s h =
    if-Lands (s.state.desired_connected && (same_number s.client none || not link)) _ _
      (λ e. connection_lost-Lands "BLE session ended unexpectedly" s) (λ e. free at_top s refl)
link_checked-Lands link losing s h = free losing_watched s refl
link_checked-Lands link _ s h = h

attempt-Lands :
    (counted : Bool) (address : String) (passkey : List ℕ) (s : Controller)
    → Lands (attempt counted address passkey s)
unfolding attempt
attempt-Lands counted address passkey s =
    if-Lands (is_reconnecting s.state.phase) _ _ (λ e k. absurd (cc k)) (λ e k. absurd (cc k))

with_passkey-Lands :
    (counted : Bool) (address : String) (passkey stored : Option (List ℕ)) (s : Controller)
    → Lands (with_passkey counted address passkey stored s)
unfolding with_passkey
with_passkey-Lands counted address (some p) stored s = attempt-Lands counted address p s
with_passkey-Lands counted address none none s =
    if-Lands (is_refused s.state.phase s.state.credential_state) _ _ (λ e. free waiting s refl)
      (λ e. moved-Lands waiting _ refl)
with_passkey-Lands counted address none (some p) s =
    if-Lands (is_refused s.state.phase s.state.credential_state) _ _ (λ e. free waiting s refl)
      (λ e. attempt-Lands counted address p _)

discovered_one-Lands :
    (address : String) (stored : Option (List ℕ)) (s : Controller)
    → Lands (discovered_one address stored s)
unfolding discovered_one
discovered_one-Lands address none s = moved-Lands waiting _ refl
discovered_one-Lands address (some p) s = >>=-Lands _ _ (λ s'. attempt-Lands true address p s')

discovered_devices-Lands :
    (settings : Settings) (devices : List String) (stored : Option (List ℕ)) (s : Controller)
    → Lands (discovered_devices settings devices stored s)
unfolding discovered_devices
discovered_devices-Lands settings [] stored s = moved-Lands waiting _ refl
discovered_devices-Lands settings (a ∷ []) stored s = discovered_one-Lands a stored s
discovered_devices-Lands settings (a ∷ b ∷ rest) stored s = moved-Lands waiting _ refl

discovered-Lands :
    (settings : Settings) (generation : ℕ) (devices : List String) (stored : Option (List ℕ))
    (s : Controller)
    → Lands (discovered settings generation devices stored s)
unfolding discovered
discovered-Lands settings generation devices stored s =
    if-Lands (not (generation == s.target_generation) || is_chosen s.state.target) _ _
      (λ e. free at_top s refl) (λ e. discovered_devices-Lands settings devices stored s)

observed-Lands :
    (settings : Settings) (pending : Option (List String)) (stored : Option (List ℕ))
    (s : Controller)
    → Lands (observed settings pending stored s)
observed-Lands settings none stored s = free (scanning s.target_generation) s refl
observed-Lands settings (some devices) stored s =
    discovered-Lands settings s.target_generation devices stored _

for_target-Lands :
    (settings : Settings) (target : Option String) (stored : Option (List ℕ)) (s : Controller)
    → Lands (for_target settings target stored s)
unfolding probe
for_target-Lands settings none stored s =
    >>=-Lands _ _ (λ s'. observed-Lands settings s'.pending_discovery stored s')
for_target-Lands settings (some address) stored s =
    with_passkey-Lands false address s.target_passkey stored s

round_begins-Lands :
    (settings : Settings) (stored : Option (List ℕ)) (s : Controller)
    → Lands (round_begins settings stored s)
unfolding round_begins
round_begins-Lands settings stored s =
    if-Lands (not s.started) _ _ (λ e. free at_top s refl)
      (λ e.
        if-Lands (not s.state.desired_connected) _ _
          (λ f.
            if-Lands (is_disconnected s.state.phase) _ _ (λ g. free waiting s refl)
              (λ g. moved-Lands waiting _ refl))
          (λ f.
            if-Lands s.state.ready _ _ (λ g. free waiting_ready s refl)
              (λ g. for_target-Lands settings s.state.target stored s)))

connect_step-Lands : (a : Attempt) (s : Controller) → Lands (connect_step a s)
unfolding connect_step
connect_step-Lands a s = moved-Lands (connecting_with a) _ refl

open_begins-Lands : (a : Attempt) (s : Controller) → Lands (open_begins a s)
unfolding open_begins
open_begins-Lands a s =
    if-Lands (same_address s.verified_bond_address a.address) _ _ (λ e. connect_step-Lands a s)
      (λ e. moved-Lands (pairing_with a) _ refl)

paired-Lands : (a : Attempt) (s : Controller) → Lands (paired a s)
unfolding paired
paired-Lands a s =
    if-Lands (is_superseded a.generation s) _ _ (λ e. free at_top s refl)
      (λ e. connect_step-Lands a _)

transport_open-Lands : (a : Attempt) (s : Controller) → Lands (transport_open a s)
unfolding transport_open
transport_open-Lands a s =
    if-Lands (is_superseded a.generation s) _ _ (λ e. free at_top s refl)
      (λ e. moved-Lands (authenticating_with a) _ refl)

authenticated-Lands : (a : Attempt) (s : Controller) → Lands (authenticated a s)
unfolding authenticated
authenticated-Lands a s =
    if-Lands (is_superseded a.generation s) _ _ (λ e. free at_top (dropped a.client s) refl)
      (λ e. free (reading_with a) s refl)

-- An attempt that is not superseded is still desired.
desired_of_current :
    (generation : ℕ) (s : Controller)
    → is_superseded generation s ≡ false
    → s.state.desired_connected ≡ true
desired_of_current generation s h = ground arith

snapshot_read-Lands : (a : Attempt) (boot : ℕ) (s : Controller) → Lands (snapshot_read a boot s)
unfolding snapshot_read
snapshot_read-Lands a boot s =
    if-Lands (is_superseded a.generation s) _ _ (λ e. free at_top s refl)
      (λ e k. desired_of_current a.generation s e)

verified-Lands :
    (a : Attempt) (boot : ℕ) (previous : Option ℕ) (s : Controller)
    → Lands (verified a boot previous s)
unfolding verified
verified-Lands a boot previous s =
    >>=-Lands (become (protocol_verified a s.clock) (booted boot previous s))
      (λ t. ok (at_top, complete_pending_connect t t.pending_connect)) (λ s' k. absurd (cc k))

with_boot-Lands :
    (a : Attempt) (boot : ℕ) (loaded : Option (Option ℕ)) (last : Option ℕ) (s : Controller)
    → s.state.desired_connected ≡ true
    → Lands (with_boot a boot loaded last s)
with_boot-Lands a boot loaded (some b) s d = verified-Lands a boot (some b) s
with_boot-Lands a boot (some previous) none s d = verified-Lands a boot previous s
with_boot-Lands a boot none none s d = λ k. d

handled-Lands : (settings : Settings) (f : Fault) (s : Controller) → Lands (handled settings f s)
handled-Lands settings (credential_refused m) s = moved-Lands cleaning _ refl
handled-Lands settings (other_fault m) s = moved-Lands cleaning _ refl

round_failed-Lands :
    (settings : Settings) (f : Fault) (s : Controller) → Lands (round_failed settings f s)
unfolding round_failed
round_failed-Lands settings f s =
    if-Lands (not s.state.desired_connected) _ _ (λ e. free abandoning s refl)
      (λ e. handled-Lands settings f s)

abandoned-Lands : (s : Controller) → Lands (abandoned s)
unfolding abandoned
abandoned-Lands s =
    if-Lands (is_disconnected s.state.phase) _ _ (λ e. free at_top s refl)
      (λ e. moved-Lands at_top _ refl)

rediscovered-Lands :
    (address : String) (generation : ℕ) (passkey : List ℕ) (s : Controller)
    → Lands (rediscovered address generation passkey s)
unfolding rediscovered
rediscovered-Lands address generation passkey s =
    if-Lands (is_superseded generation s) _ _ (λ e. free at_top s refl)
      (λ e.
        >>=-Lands (become (rediscovery address) s) (opened address generation passkey true)
          (λ s' k. absurd (cc k)))

pub manager_turn-Lands :
    (settings : Settings) (place : Place) (input : Input) (s : Controller)
    → IsWanted place s
    → Lands (manager_turn settings place input s)
unfolding manager_turn
manager_turn-Lands settings at_top (resumes stored) s h = round_begins-Lands settings stored s
manager_turn-Lands settings waiting (woken link) s h =
    take_event-Lands waiting s.manager_events s refl
manager_turn-Lands settings waiting (timed_out link) s h = free at_top s refl
manager_turn-Lands settings waiting_ready (woken link) s h =
    >>=-Lands_of_turn (take_event waiting_ready s.manager_events s) _
      (λ p s' k. link_checked-Lands link p s' k)
      (take_event-Lands waiting_ready s.manager_events s refl)
manager_turn-Lands settings waiting_ready (timed_out link) s h =
    link_checked-Lands link at_top s (free at_top s refl)
manager_turn-Lands settings losing closed s h = λ k. absurd (cc k)
manager_turn-Lands settings losing_watched closed s h =
    link_checked-Lands false at_top
      (post_manager_event (intent_changed s.target_generation) (record s { client = none }))
      (λ k. absurd (cc k))
manager_turn-Lands settings cleaning closed s h = λ k. absurd (cc k)
manager_turn-Lands settings abandoning closed s h = abandoned-Lands (record s { client = none })
manager_turn-Lands settings (scanning n) (scanned devices stored) s h =
    discovered-Lands settings n devices stored s
manager_turn-Lands settings (scanning n) (failed f) s h = round_failed-Lands settings f s
manager_turn-Lands settings (rescanning address n passkey) (scanned devices stored) s h =
    rediscovered-Lands address n passkey s
manager_turn-Lands settings (rescanning address n passkey) (failed f) s h =
    rediscovered-Lands address n passkey s
manager_turn-Lands settings (opening a) step_done s h = open_begins-Lands a s
manager_turn-Lands settings (opening a) cancelled s h = free at_top s refl
manager_turn-Lands settings (pairing_with a) step_done s h = paired-Lands a s
manager_turn-Lands settings (pairing_with a) (failed f) s h =
    round_failed-Lands settings f (dropped a.client s)
manager_turn-Lands settings (pairing_with a) cancelled s h = free at_top (dropped a.client s) refl
manager_turn-Lands settings (connecting_with a) step_done s h = transport_open-Lands a s
manager_turn-Lands settings (connecting_with a) (failed f) s h =
    round_failed-Lands settings f (dropped a.client s)
manager_turn-Lands settings (connecting_with a) cancelled s h =
    free at_top (dropped a.client s) refl
manager_turn-Lands settings (authenticating_with a) step_done s h = authenticated-Lands a s
manager_turn-Lands settings (authenticating_with a) (failed f) s h =
    round_failed-Lands settings f (dropped a.client s)
manager_turn-Lands settings (authenticating_with a) cancelled s h =
    free at_top (dropped a.client s) refl
manager_turn-Lands settings (reading_with a) (read_snapshot boot) s h = snapshot_read-Lands a boot s
manager_turn-Lands settings (reading_with a) (failed f) s h =
    round_failed-Lands settings f (dropped a.client s)
manager_turn-Lands settings (reading_with a) cancelled s h = free at_top (dropped a.client s) refl
manager_turn-Lands settings (returning a boot) (returned loaded) s h =
    with_boot-Lands a boot loaded s.last_boot_id s (h refl)
manager_turn-Lands settings (loading_boot a boot) (boot_loaded previous) s h =
    verified-Lands a boot previous s
manager_turn-Lands settings place _ s h = h

pub manager_restarts-Lands :
    (message : String) (s : Controller) → Lands (manager_restarts message s)
unfolding manager_restarts
manager_restarts-Lands message s = moved-Lands at_top _ refl
