-- ===== src/Service/Safety/Aims.antt =====
-- The transitions of the connection manager of backend/pc_client/ble_service.py towards a device that
-- answers, one by one.
use ece4880_project.Prelude.{
  ℕ, suc, ◌≡◌, ◌⊎◌, inl, inr, refl, ap, String, true, false, Option, none, some, List, ◌∷◌, ok,
  arith,
}
use ece4880_project.Lifecycle.{
  ConnectionPhase, connected, verifying, connecting, pairing, reconnecting, is_connected_phase,
  is_stopped, Changes, replaced,
}
use ece4880_project.Lifecycle.Consistency.{IsConsistent}
use ece4880_project.Service.Controller.{
  Controller, become, complete_pending_connect, is_superseded, same_address,
}
use ece4880_project.Service.Manager.{
  Settings, Attempt, Place, at_top, opening, pairing_with, connecting_with, authenticating_with,
  reading_with, returning, loading_boot, rescanning, Input, is_reconnecting, moved, round_begins,
  with_passkey, attempt, opened,
}
use ece4880_project.Service.Opening.{
  manager_turn, open_begins, connect_step, paired, transport_open, authenticated, verified,
  protocol_verified, booted, with_boot, snapshot_read, rediscovered, rediscovery,
}
use ece4880_project.Service.Steps.{Event, turned, run, step, outcome, manager_gets}
use ece4880_project.Service.Safety.Good.{become-calm, become-IsConsistent}

-- A connection to an address is desired, and its target has not been changed.
pub record IsAimed (a : Attempt) (s : Controller) : Type 0 where
  pub desired : s.state.desired_connected ≡ true
  pub same_generation : s.target_generation ≡ a.generation

-- The connection is there, its client is the attempt's, and nobody waits for it any more.
pub record IsReached (address : String) (number : ℕ) (s : Controller) : Type 0 where
  pub phase : s.state.phase ≡ connected
  pub is_connected : s.state.connected ≡ true
  pub is_ready : s.state.ready ≡ true
  pub target : s.state.target ≡ some address
  pub client : s.client ≡ some number
  pub none_pending : s.pending_connect ≡ none

pub run-turn :
    (settings : Settings) (p p' : Place) (s s' : Controller) (input : Input) (es : List Event)
    → manager_turn settings p input s ≡ ok (p', s')
    → run settings (record { place = p; controller = s }) (manager_gets input ∷ es)
      ≡ run settings (record { place = p'; controller = s' }) es
unfolding run step outcome
run-turn settings p p' s s' input es e = ap (λ t. run settings (turned t).0 es) e

pub wanted : (a : Attempt) (s : Controller) → IsAimed a s → is_superseded a.generation s ≡ false
wanted a s h = ground (arith, h.desired, h.same_generation)

pub completed :
    (a : Attempt) (s : Controller) (n : Option ℕ)
    → s.state.phase ≡ connected
    → s.state.connected ≡ true
    → s.state.ready ≡ true
    → s.state.target ≡ some a.address
    → s.client ≡ some a.client
    → s.pending_connect ≡ n
    → IsReached a.address a.client (complete_pending_connect s n)
unfolding complete_pending_connect
completed a s none p c r t k n = record {
  phase = p;
  is_connected = c;
  is_ready = r;
  target = t;
  client = k;
  none_pending = n;
}
completed a s (some m) p c r t k n = record {
  phase = p;
  is_connected = c;
  is_ready = r;
  target = t;
  client = k;
  none_pending = refl;
}

pub verified_reaches :
    (a : Attempt) (boot : ℕ) (previous : Option ℕ) (s : Controller)
    → s.client ≡ some a.client
    → (s' : Controller) × (verified a boot previous s ≡ ok (at_top, s'))
      × IsReached a.address a.client s'
unfolding verified replaced
verified_reaches a boot previous s k =
    let t = booted boot previous s in
    let c = protocol_verified a s.clock in
    let t' = record t { state = replaced t.state t.clock c } in
    let consistent : IsConsistent (replaced t.state t.clock c) = record {
      ready_connected = λ r. refl;
      connected_ready = λ p. (refl, refl);
      stopped_idle = λ p. absurd (cc p);
    } in
    (
      complete_pending_connect t' t'.pending_connect,
      rw (become-IsConsistent false c t consistent) refl,
      completed a t' t'.pending_connect refl refl refl refl k refl,
    )

-- The boot before is known at once, or it is waited for.
pub with_boot-cases :
    (a : Attempt) (boot : ℕ) (loaded : Option (Option ℕ)) (last : Option ℕ) (s : Controller)
    → ((before : Option ℕ) × (with_boot a boot loaded last s ≡ verified a boot before s))
      ⊎ (with_boot a boot loaded last s ≡ ok (loading_boot a boot, s))
with_boot-cases a boot loaded (some b) s = inl (some b, refl)
with_boot-cases a boot (some previous) none s = inl (previous, refl)
with_boot-cases a boot none none s = inr refl

pub snapshot_read-returning :
    (a : Attempt) (boot : ℕ) (s : Controller)
    → is_superseded a.generation s ≡ false
    → snapshot_read a boot s ≡ ok (returning a boot, s)
unfolding snapshot_read
snapshot_read-returning a boot s h = ground (arith, h)

pub paired-connect_step :
    (a : Attempt) (s : Controller)
    → is_superseded a.generation s ≡ false
    → paired a s ≡ connect_step a (record s { verified_bond_address = some a.address })
unfolding paired
paired-connect_step a s h = ground (arith, h)

pub authenticated-reads :
    (a : Attempt) (s : Controller)
    → is_superseded a.generation s ≡ false
    → authenticated a s ≡ ok (reading_with a, s)
unfolding authenticated
authenticated-reads a s h = ground (arith, h)

-- A transition that keeps what is desired, into a phase that is neither CONNECTED nor STOPPED
pub calm_turn :
    (a : Attempt) (place : Place) (c : Changes) (s : Controller) (p : ConnectionPhase)
    → c.phase ≡ some p
    → is_connected_phase p ≡ false
    → is_stopped p ≡ false
    → c.ready ≡ some false
    → c.desired_connected ≡ none
    → IsAimed a s
    → (s' : Controller) × (moved place (become c s) ≡ ok (place, s'))
      × IsAimed a s'
      × (s'.client ≡ s.client)
unfolding replaced
calm_turn a place c s p e f g r d h = (
  record s { state = replaced s.state s.clock c },
  rw (become-calm false c s p e f g r) refl,
  record { desired = rw d h.desired; same_generation = h.same_generation },
  refl,
)

pub transport_open_aims :
    (a : Attempt) (s : Controller)
    → IsAimed a s
    → (s' : Controller) × (transport_open a s ≡ ok (authenticating_with a, s'))
      × IsAimed a s'
      × (s'.client ≡ some a.client)
unfolding transport_open
transport_open_aims a s h = rw (wanted a s h) (
    calm_turn a (authenticating_with a) _ (record s { client = some a.client }) verifying refl refl
      refl refl refl (record { desired = h.desired; same_generation = h.same_generation }))

pub connect_step_aims :
    (a : Attempt) (s : Controller)
    → IsAimed a s
    → (s' : Controller) × (connect_step a s ≡ ok (connecting_with a, s'))
      × IsAimed a s'
      × (s'.client ≡ s.client)
unfolding connect_step
connect_step_aims a s h = calm_turn a (connecting_with a) _ s connecting refl refl refl refl refl h

pub open_begins-bonded :
    (a : Attempt) (s : Controller)
    → same_address s.verified_bond_address a.address ≡ true
    → open_begins a s ≡ connect_step a s
unfolding open_begins
open_begins-bonded a s e = ground (arith, e)

pub pairing_aims :
    (a : Attempt) (s : Controller)
    → same_address s.verified_bond_address a.address ≡ false
    → IsAimed a s
    → (s' : Controller) × (open_begins a s ≡ ok (pairing_with a, s'))
      × IsAimed a s'
      × (s'.client ≡ s.client)
unfolding open_begins
pairing_aims a s e h = rw e (calm_turn a (pairing_with a) _ s pairing refl refl refl refl refl h)

pub round_begins-attempt :
    (settings : Settings) (stored : Option (List ℕ)) (s : Controller) (address : String)
    (passkey : List ℕ)
    → s.started ≡ true
    → s.state.desired_connected ≡ true
    → s.state.ready ≡ false
    → s.state.target ≡ some address
    → s.target_passkey ≡ some passkey
    → round_begins settings stored s ≡ attempt false address passkey s
unfolding round_begins with_passkey
round_begins-attempt settings stored s address passkey b d r t k = ground (arith, b, d, r, t, k)

pub still_wanted :
    (s : Controller)
    → s.state.desired_connected ≡ true
    → is_superseded s.target_generation s ≡ false
still_wanted s d = ground (arith, d)

pub rediscovered_aims :
    (address : String) (passkey : List ℕ) (s : Controller)
    → s.state.desired_connected ≡ true
    → (s' : Controller) × (rediscovered address s.target_generation passkey s
        ≡ ok (
          opening (record {
            address = address;
            generation = s.target_generation;
            passkey = passkey;
            client = s.clients_made;
            reconnecting = true;
          }),
          s',
        ))
      × (s'.state.desired_connected ≡ true)
      × (s'.target_generation ≡ s.target_generation)
unfolding rediscovered replaced
rediscovered_aims address passkey s d =
    let c = rediscovery address in
    rw (still_wanted s d) (
      rw (become-calm false c s reconnecting refl refl refl refl) (
        record s { state = replaced s.state s.clock c; clients_made = suc s.clients_made },
        refl,
        d,
        refl,
      ))

abbrev pub counted : Controller → Controller
counted s = record s { connection_attempt_id = suc s.connection_attempt_id }

pub attempt-rescans :
    (address : String) (passkey : List ℕ) (s : Controller)
    → is_reconnecting s.state.phase ≡ true
    → attempt false address passkey s
      ≡ ok (rescanning address s.target_generation passkey, counted s)
unfolding attempt
attempt-rescans address passkey s h = ground (arith, h)

pub attempt-opens :
    (address : String) (passkey : List ℕ) (s : Controller)
    → is_reconnecting s.state.phase ≡ false
    → attempt false address passkey s ≡ opened address s.target_generation passkey false (counted s)
unfolding attempt
attempt-opens address passkey s h = ground (arith, h)
