-- ===== src/Service/Safety/Resting.antt =====
-- The manager of backend/pc_client/ble_service.py at rest, once a device has refused the credential.
use ece4880_project.Prelude.{
  ℕ, ◌+◌, ◌≡◌, refl, String, Bool, true, false, not, ◌&&◌, ◌||◌, Option, none, some, List, [], ◌∷◌,
  ◌++◌, ok, err, arith, Bool-cases, inl, inr,
}
use ece4880_project.Service.Controller.{
  Controller, LifecycleEvent, start_event, intent_changed, stop_event, discovery_result, link_lost,
  post_manager_event, is_stop,
}
use ece4880_project.Service.Intent.{start, scan_begun, is_busy, scan_ended, transport_disconnected}
use ece4880_project.Service.Manager.{
  Settings, Place, at_top, waiting, cleaning, Input, resumes, closed, woken, timed_out, Turn,
  is_refused, is_chosen, woken_by, take_event, with_passkey, round_begins,
}
use ece4880_project.Service.Opening.{manager_turn}
use ece4880_project.Service.Steps.{
  System, Event, Outcome, answered, turned, outcome, place_at_start, step, run, starts, scan_begins,
  scan_ends, closes_client, link_goes_down, manager_gets, time_passes,
}

-- A report of a lost link that names no client
abbrev pub is_unnamed : LifecycleEvent → Bool
is_unnamed (link_lost generation none reason) = true
is_unnamed _ = false

abbrev pub any_unnamed : List LifecycleEvent → Bool
any_unnamed [] = false
any_unnamed (e ∷ es) = is_unnamed e || any_unnamed es

abbrev pub is_resting : Place → Bool
is_resting at_top = true
is_resting waiting = true
is_resting cleaning = true
is_resting _ = false

-- A desired target whose credential was refused, no client and no passkey; `attempts` were made.
pub record IsRefused (attempts : ℕ) (s : Controller) : Type 0 where
  pub running : s.started ≡ true
  pub desired : s.state.desired_connected ≡ true
  pub not_ready : s.state.ready ≡ false
  pub refused : is_refused s.state.phase s.state.credential_state ≡ true
  pub chosen : is_chosen s.state.target ≡ true
  pub no_passkey : s.target_passkey ≡ none
  pub no_client : s.client ≡ none
  pub all_named : any_unnamed s.manager_events ≡ false
  pub attempts_made : s.connection_attempt_id ≡ attempts

-- What neither a caller nor a poll that failed does.
abbrev pub IsBystander : Event → Type 0
IsBystander (starts auto) = Unit {0}
IsBystander scan_begins = Unit {0}
IsBystander (scan_ends generation devices) = Unit {0}
IsBystander closes_client = Unit {0}
IsBystander (link_goes_down c) = Unit {0}
IsBystander (manager_gets input) = Unit {0}
IsBystander (time_passes n) = Unit {0}
IsBystander _ = ⊥

abbrev pub AllBystanders : List Event → Type 0
AllBystanders [] = Unit {0}
AllBystanders (e ∷ es) = IsBystander e × AllBystanders es

abbrev pub IsRestingOutcome : ℕ → Outcome → Type 0
IsRestingOutcome n (y, r) = IsRefused n y.controller × (is_resting y.place ≡ true)

abbrev pub IsRestingTurn : ℕ → Turn → Type 0
IsRestingTurn n (ok (place, s)) = IsRefused n s × (is_resting place ≡ true)
IsRestingTurn n (err e) = ⊥

any_unnamed-++ :
    (es fs : List LifecycleEvent)
    → any_unnamed es ≡ false
    → any_unnamed fs ≡ false
    → any_unnamed (es ++ fs) ≡ false
any_unnamed-++ [] fs h k = k
any_unnamed-++ (e ∷ es) fs h k = ground (arith, any_unnamed-++ es fs)

module _ (n : ℕ) where
  post-IsRefused :
      (e : LifecycleEvent) (s : Controller)
      → is_unnamed e ≡ false
      → IsRefused n s
      → IsRefused n (post_manager_event e s)
  unfolding post_manager_event
  post-IsRefused e s u h = elim (Bool-cases (not s.started && not (is_stop e))) [
    | inl b ↦ rw b h
    | inr b ↦ rw b (record {
      running = h.running;
      desired = h.desired;
      not_ready = h.not_ready;
      refused = h.refused;
      chosen = h.chosen;
      no_passkey = h.no_passkey;
      no_client = h.no_client;
      all_named = any_unnamed-++ s.manager_events (e ∷ []) h.all_named (rw u refl);
      attempts_made = h.attempts_made;
    })
  ]

  -- No event of the queue moves the manager.
  woken_by-rests :
      (e : LifecycleEvent) (s : Controller)
      → is_unnamed e ≡ false
      → IsRefused n s
      → woken_by e s ≡ ok (at_top, s)
  unfolding woken_by
  woken_by-rests (start_event g) s u h = refl
  woken_by-rests (intent_changed g) s u h = refl
  woken_by-rests (stop_event g) s u h = refl
  woken_by-rests (discovery_result g devices) s u h = ground (arith, h.chosen)
  woken_by-rests (link_lost g none reason) s u h = ground (arith, u)
  woken_by-rests (link_lost g (some c) reason) s u h = ground (arith, h.no_client)

  round_begins-rests :
      (settings : Settings) (stored : Option (List ℕ)) (s : Controller)
      → IsRefused n s
      → round_begins settings stored s ≡ ok (waiting, s)
  unfolding round_begins with_passkey
  round_begins-rests settings stored s h =
      ground (arith, h.running, h.desired, h.not_ready, h.refused, h.chosen, h.no_passkey)

  take_event-IsRestingTurn :
      (es : List LifecycleEvent) (s : Controller)
      → any_unnamed es ≡ false
      → ((rest : List LifecycleEvent)
          → any_unnamed rest ≡ false
          → IsRefused n (record s { manager_events = rest }))
      → IsRefused n s
      → IsRestingTurn n (take_event waiting es s)
  take_event-IsRestingTurn [] s u k h = (h, refl)
  take_event-IsRestingTurn (e ∷ rest) s u k h =
      let r : any_unnamed rest ≡ false = ground arith in
      let q : is_unnamed e ≡ false = ground arith in
      rw (woken_by-rests e (record s { manager_events = rest }) q (k rest r)) (k rest r, refl)

  with_events :
      (s : Controller) (rest : List LifecycleEvent)
      → any_unnamed rest ≡ false
      → IsRefused n s
      → IsRefused n (record s { manager_events = rest })
  with_events s rest r h = record {
    running = h.running;
    desired = h.desired;
    not_ready = h.not_ready;
    refused = h.refused;
    chosen = h.chosen;
    no_passkey = h.no_passkey;
    no_client = h.no_client;
    all_named = r;
    attempts_made = h.attempts_made;
  }

  without_client : (s : Controller) → IsRefused n s → IsRefused n (record s { client = none })
  without_client s h = record {
    running = h.running;
    desired = h.desired;
    not_ready = h.not_ready;
    refused = h.refused;
    chosen = h.chosen;
    no_passkey = h.no_passkey;
    no_client = refl;
    all_named = h.all_named;
    attempts_made = h.attempts_made;
  }

  at_time : (s : Controller) (now : ℕ) → IsRefused n s → IsRefused n (record s { clock = now })
  at_time s now h = record {
    running = h.running;
    desired = h.desired;
    not_ready = h.not_ready;
    refused = h.refused;
    chosen = h.chosen;
    no_passkey = h.no_passkey;
    no_client = h.no_client;
    all_named = h.all_named;
    attempts_made = h.attempts_made;
  }

  manager_turn-IsRestingTurn :
      (settings : Settings) (place : Place) (input : Input) (s : Controller)
      → is_resting place ≡ true
      → IsRefused n s
      → IsRestingTurn n (manager_turn settings place input s)
  unfolding manager_turn
  manager_turn-IsRestingTurn settings at_top (resumes stored) s r h =
      rw (round_begins-rests settings stored s h) (h, refl)
  manager_turn-IsRestingTurn settings waiting (woken link) s r h =
      take_event-IsRestingTurn s.manager_events s h.all_named (λ rest u. with_events s rest u h) h
  manager_turn-IsRestingTurn settings waiting (timed_out link) s r h = (h, refl)
  manager_turn-IsRestingTurn settings cleaning closed s r h = (without_client s h, refl)
  manager_turn-IsRestingTurn settings at_top _ s r h = (h, refl)
  manager_turn-IsRestingTurn settings waiting _ s r h = (h, refl)
  manager_turn-IsRestingTurn settings cleaning _ s r h = (h, refl)
  manager_turn-IsRestingTurn settings place _ s r h = absurd (cc r)

  start-rests : (auto : Bool) (s : Controller) → IsRefused n s → start auto s ≡ ok s
  unfolding start
  start-rests auto s h = ground (arith, h.running)

  place-rests :
      (place : Place) (s : Controller) → IsRefused n s → place_at_start s.started place ≡ place
  place-rests place s h = ground (arith, h.running)

  scan_ended-rests :
      (m : ℕ) (devices : List String) (s : Controller) → IsRefused n s → scan_ended m devices s ≡ s
  unfolding scan_ended
  scan_ended-rests m devices s h = ground (arith, h.chosen)

  transport_disconnected-rests :
      (c : ℕ) (s : Controller) → IsRefused n s → transport_disconnected c s ≡ s
  unfolding transport_disconnected
  transport_disconnected-rests c s h = ground (arith, h.no_client)

  scan_begun-IsRestingOutcome :
      (place : Place) (s : Controller)
      → is_resting place ≡ true
      → IsRefused n s
      → IsRestingOutcome n (answered place (scan_begun s))
  unfolding scan_begun
  scan_begun-IsRestingOutcome place s r h =
      elim (Bool-cases (s.state.connected || is_busy s.state.phase)) [
        | inl b ↦ rw b (h, r)
        | inr b ↦ rw b (h, r)
      ]

  pub turned-IsRestingOutcome : (t : Turn) → IsRestingTurn n t → IsRestingOutcome n (turned t)
  turned-IsRestingOutcome (ok (place, s)) h = h
  turned-IsRestingOutcome (err e) h = absurd h

  outcome-IsRestingOutcome :
      (settings : Settings) (place : Place) (s : Controller) (e : Event)
      → is_resting place ≡ true
      → IsBystander e
      → IsRefused n s
      → IsRestingOutcome n (outcome settings place s e)
  unfolding outcome
  outcome-IsRestingOutcome settings place s (starts auto) r b h =
      rw (start-rests auto s h, place-rests place s h) (h, r)
  outcome-IsRestingOutcome settings place s scan_begins r b h =
      scan_begun-IsRestingOutcome place s r h
  outcome-IsRestingOutcome settings place s (scan_ends generation devices) r b h =
      rw (scan_ended-rests generation devices s h) (h, r)
  outcome-IsRestingOutcome settings place s closes_client r b h = (without_client s h, r)
  outcome-IsRestingOutcome settings place s (link_goes_down c) r b h =
      rw (transport_disconnected-rests c s h) (h, r)
  outcome-IsRestingOutcome settings place s (manager_gets input) r b h =
      turned-IsRestingOutcome _ (manager_turn-IsRestingTurn settings place input s r h)
  outcome-IsRestingOutcome settings place s (time_passes m) r b h = (at_time s (s.clock + m) h, r)
  outcome-IsRestingOutcome settings place s _ r b h = absurd b

  pub run-rests :
      (settings : Settings) (y : System) (es : List Event)
      → is_resting y.place ≡ true
      → AllBystanders es
      → IsRefused n y.controller
      → IsRefused n (run settings y es).controller × (is_resting (run settings y es).place ≡ true)
  unfolding run step
  run-rests settings y [] r b h = (h, r)
  run-rests settings y (e ∷ es) r (b, bs) h =
      let (h', r') = outcome-IsRestingOutcome settings y.place y.controller e r b h in
      run-rests settings (step settings y e) es r' bs h'
