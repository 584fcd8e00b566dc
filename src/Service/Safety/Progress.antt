-- ===== src/Service/Safety/Progress.antt =====
-- A whole round of the connection manager of backend/pc_client/ble_service.py with a device that answers.
use ece4880_project.Prelude.{
  ℕ, suc, ◌≡◌, refl, ◌∙◌, String, true, false, Option, none, some, List, [], ◌∷◌, Bool-cases, inl,
  inr,
}
use ece4880_project.Service.Controller.{Controller, same_address}
use ece4880_project.Service.Manager.{
  Settings, Attempt, Place, at_top, opening, pairing_with, connecting_with, authenticating_with,
  reading_with, returning, loading_boot, rescanning, resumes, scanned, step_done, read_snapshot,
  returned, boot_loaded, is_reconnecting,
}
use ece4880_project.Service.Opening.{manager_turn}
use ece4880_project.Service.Steps.{System, Event, run, manager_gets}
use ece4880_project.Service.Safety.Aims.{
  run-turn, wanted, verified_reaches, with_boot-cases, snapshot_read-returning, paired-connect_step,
  authenticated-reads, transport_open_aims, connect_step_aims, open_begins-bonded, pairing_aims,
  IsAimed, IsReached, round_begins-attempt, rediscovered_aims, attempt-rescans, attempt-opens,
  counted,
}

abbrev pub at : Place → Controller → System
at p s = record { place = p; controller = s }

-- The device sends a first snapshot, and the database answers, at once or later; where it is not asked,
-- its answer is not waited for.
abbrev pub snapshot_comes : ℕ → Option (Option ℕ) → Option ℕ → List Event
snapshot_comes boot loaded previous =
    manager_gets (read_snapshot boot)
    ∷ manager_gets (returned loaded)
    ∷ manager_gets (boot_loaded previous)
    ∷ []

-- The device answers every step.
abbrev pub steps : ℕ → Option (Option ℕ) → Option ℕ → List Event
steps boot loaded previous =
    manager_gets step_done
    ∷ manager_gets step_done
    ∷ manager_gets step_done
    ∷ manager_gets step_done
    ∷ snapshot_comes boot loaded previous

module _ (settings : Settings) (a : Attempt) (boot : ℕ) (loaded : Option (Option ℕ))
    (previous : Option ℕ) where
  from_loading :
      (s : Controller)
      → s.client ≡ some a.client
      → IsReached a.address a.client
          (run settings
            (at (loading_boot a boot) s)
            (manager_gets (boot_loaded previous) ∷ [])).controller
  unfolding manager_turn run
  from_loading s k =
      let (s', f, r) = verified_reaches a boot previous s k in
      rw (run-turn settings (loading_boot a boot) at_top s s' (boot_loaded previous) [] f) r

  -- Nothing is waited for at the top of the loop.
  from_top :
      (s : Controller)
      → IsReached a.address a.client s
      → IsReached a.address a.client
          (run settings (at at_top s) (manager_gets (boot_loaded previous) ∷ [])).controller
  unfolding manager_turn run
  from_top s r = rw (run-turn settings at_top at_top s s (boot_loaded previous) [] refl) r

  from_returning :
      (s : Controller)
      → s.client ≡ some a.client
      → IsReached a.address a.client
          (run settings
            (at (returning a boot) s)
            (manager_gets (returned loaded) ∷ manager_gets (boot_loaded previous) ∷ [])).controller
  unfolding manager_turn
  from_returning s k = elim (with_boot-cases a boot loaded s.last_boot_id s) [
    | inl (before, e) ↦
        let (s', f, r) = verified_reaches a boot before s k in
        rw
          (run-turn settings (returning a boot) at_top s s' (returned loaded)
            (manager_gets (boot_loaded previous) ∷ []) (e ∙ f))
          (from_top s' r)
    | inr e ↦
        rw
          (run-turn settings (returning a boot) (loading_boot a boot) s s (returned loaded)
            (manager_gets (boot_loaded previous) ∷ []) e)
          (from_loading s k)
  ]

  from_reading :
      (s : Controller)
      → IsAimed a s
      → s.client ≡ some a.client
      → IsReached a.address a.client
          (run settings (at (reading_with a) s) (snapshot_comes boot loaded previous)).controller
  unfolding manager_turn
  from_reading s h k =
      rw
        (run-turn settings (reading_with a) (returning a boot) s s (read_snapshot boot)
          (manager_gets (returned loaded) ∷ manager_gets (boot_loaded previous) ∷ [])
          (snapshot_read-returning a boot s (wanted a s h)))
        (from_returning s k)

  module _ (es : List Event)
      (reading : (s : Controller)
        → IsAimed a s
        → s.client ≡ some a.client
        → IsReached a.address a.client (run settings (at (reading_with a) s) es).controller) where
    from_authenticating :
        (s : Controller)
        → IsAimed a s
        → s.client ≡ some a.client
        → IsReached a.address a.client
            (run settings (at (authenticating_with a) s) (manager_gets step_done ∷ es)).controller
    unfolding manager_turn
    from_authenticating s h k =
        rw
          (run-turn settings (authenticating_with a) (reading_with a) s s step_done es
            (authenticated-reads a s (wanted a s h)))
          (reading s h k)

    from_connecting :
        (s : Controller)
        → IsAimed a s
        → IsReached a.address a.client
            (run settings
              (at (connecting_with a) s)
              (manager_gets step_done ∷ manager_gets step_done ∷ es)).controller
    unfolding manager_turn
    from_connecting s h =
        let (s', e, h', k) = transport_open_aims a s h in
        rw
          (run-turn settings (connecting_with a) (authenticating_with a) s s' step_done
            (manager_gets step_done ∷ es) e)
          (from_authenticating s' h' k)

    from_pairing :
        (s : Controller)
        → IsAimed a s
        → IsReached a.address a.client
            (run settings (at (pairing_with a) s) (
              manager_gets step_done
              ∷ manager_gets step_done
              ∷ manager_gets step_done
              ∷ es)).controller
    unfolding manager_turn
    from_pairing s h =
        let b = record s { verified_bond_address = some a.address } in
        let (s', e, h', k) =
          connect_step_aims a b
            (record { desired = h.desired; same_generation = h.same_generation }) in
        rw
          (run-turn settings (pairing_with a) (connecting_with a) s s' step_done
            (manager_gets step_done ∷ manager_gets step_done ∷ es)
            (paired-connect_step a s (wanted a s h) ∙ e))
          (from_connecting s' h')

  -- An answer that comes too early is not waited for.
  from_reading_late :
      (s : Controller)
      → IsAimed a s
      → s.client ≡ some a.client
      → IsReached a.address a.client
          (run settings
            (at (reading_with a) s)
            (manager_gets step_done ∷ (snapshot_comes boot loaded previous))).controller
  unfolding manager_turn
  from_reading_late s h k =
      rw
        (run-turn settings (reading_with a) (reading_with a) s s step_done
          (snapshot_comes boot loaded previous) refl)
        (from_reading s h k)

  from_opening :
      (s : Controller)
      → IsAimed a s
      → IsReached a.address a.client
          (run settings (at (opening a) s) (steps boot loaded previous)).controller
  unfolding manager_turn
  from_opening s h = elim (Bool-cases (same_address s.verified_bond_address a.address)) [
    | inl bonded ↦
        let (s', e, h', k) = connect_step_aims a s h in
        rw
          (run-turn settings (opening a) (connecting_with a) s s' step_done _
            (open_begins-bonded a s bonded ∙ e))
          (from_connecting (manager_gets step_done ∷ (snapshot_comes boot loaded previous))
            from_reading_late s' h')
    | inr unbonded ↦
        let (s', e, h', k) = pairing_aims a s unbonded h in
        rw (run-turn settings (opening a) (pairing_with a) s s' step_done _ e)
          (from_pairing (snapshot_comes boot loaded previous) from_reading s' h')
  ]

-- A service that runs, is not ready, and desires a connection to a target whose passkey it has, is connected after
-- one round of the manager in which nothing else happens and the device answers: whatever state the
-- attempt starts from, whether the bond has been verified before or not, and whether a boot id is
-- known, stored, or neither, and the database answers at once or later, the connection is ready, with a
-- client of its own, and no operation waits for it any more.
pub steps-IsReached :
    (settings : Settings) (boot : ℕ) (loaded : Option (Option ℕ)) (previous : Option ℕ)
    (stored : Option (List ℕ)) (s : Controller) (address : String) (passkey : List ℕ)
    → s.started ≡ true
    → s.state.desired_connected ≡ true
    → s.state.ready ≡ false
    → s.state.target ≡ some address
    → s.target_passkey ≡ some passkey
    → IsReached address s.clients_made
        (run settings (at at_top s) (
          manager_gets (resumes stored)
          ∷ manager_gets (scanned [] none)
          ∷ steps boot loaded previous)).controller
unfolding manager_turn
steps-IsReached settings boot loaded previous stored s address passkey b d r t k =
    let here = round_begins-attempt settings stored s address passkey b d r t k in
    let rest = manager_gets (scanned [] none) ∷ steps boot loaded previous in
    elim (Bool-cases (is_reconnecting s.state.phase)) [
      | inl again ↦
          let place = rescanning address s.target_generation passkey in
          let (s', e, d', g) = rediscovered_aims address passkey (counted s) d in
          rw
            (
              run-turn settings at_top place s (counted s) (resumes stored) rest
                  (here ∙ attempt-rescans address passkey s again),
              run-turn settings place _ (counted s) s' (scanned [] none)
                  (steps boot loaded previous) e,
            )
            (from_opening settings _ boot loaded previous s'
              (record { desired = d'; same_generation = g }))
      | inr anew ↦
          let a : Attempt = record {
            address = address;
            generation = s.target_generation;
            passkey = passkey;
            client = s.clients_made;
            reconnecting = false;
          } in
          let s' = record (counted s) { clients_made = suc s.clients_made } in
          rw
            (
              run-turn settings at_top (opening a) s s' (resumes stored) rest
                  (here ∙ attempt-opens address passkey s anew),
              run-turn settings (opening a) (opening a) s' s' (scanned [] none)
                  (steps boot loaded previous) refl,
            )
            (from_opening settings a boot loaded previous s'
              (record { desired = d; same_generation = refl }))
    ]
