-- ===== src/Service/Polling.antt =====
-- The poll of the current temperatures, `_poll_current` of backend/pc_client/ble_service.py. Times are
-- numbers of milliseconds; a deadline is told by the milliseconds since the loop began. What each
-- cycle meets is in its `Cycle`: the readings of the clock at the tests of the inner loop, whether the
-- service is ready, and what the request for a sample comes to.
pub mod Slots
use Prim.Native.Nat.{max}
use ece4880_project.Prelude.{
  ℕ, zero, suc, ◌+◌, ◌-◌, ◌*◌, ◌≤◌, ◌<◌, ◌≡◌, refl, String, Bool, true, false, not, Option, none,
  some, List, [], ◌∷◌, ◌++◌, length, leb, if◌then◌else◌, Result, ok, err, arith, length-append,
}

-- A row that is handed to the database: a sample, or a missing interval with its time.
pub data Row : Type 0 where
  sampled : ℕ → Row
  missed : ℕ → String → Row

pub record Poll : Type 0 where
  pub next_deadline : ℕ
  pub rows : List Row
  pub link_lost : List String

pub record Cycle : Type 0 where
  pub readings : List ℕ
  pub is_ready : Bool
  pub sample : Result String ℕ
  pub last_error : Option String

-- `await self._sleep(max(0.0, next_deadline - monotonic))`
abbrev pub sleep_for : ℕ → Poll → ℕ
sleep_for now p = max 0 (p.next_deadline - now)

-- The inner loop: a slot that has passed altogether is recorded as missing. `none` where it still
-- goes on after the last reading.
unfoldable pub catch_up : ℕ → ℕ → List ℕ → Poll → Option Poll
catch_up interval utc_anchor [] p = none
catch_up interval utc_anchor (now ∷ readings) p =
    let rest = catch_up interval utc_anchor readings (record p {
      next_deadline = p.next_deadline + interval;
      rows =
          p.rows
          ++ (missed (utc_anchor + p.next_deadline) "current polling deadline was missed" ∷ []);
    }) in
    if leb (p.next_deadline + interval) now then rest else some p

abbrev pub or_not_connected : Option String → String
or_not_connected none = "thermometer is not connected"
or_not_connected (some e) = e

-- The slot that is due: one row, and a lost link where the request failed.
unfoldable pub due : ℕ → Bool → Result String ℕ → Option String → Poll → Poll
due utc_anchor false sample last_error p = record p {
  rows = p.rows ++ (missed (utc_anchor + p.next_deadline) (or_not_connected last_error) ∷ []);
}
due utc_anchor true (ok observed_at) last_error p = record p {
  rows = p.rows ++ (sampled observed_at ∷ []);
}
due utc_anchor true (err message) last_error p = record p {
  rows = p.rows ++ (missed (utc_anchor + p.next_deadline) message ∷ []);
  link_lost = p.link_lost ++ (message ∷ []);
}

abbrev pub advanced : ℕ → Poll → Poll
advanced interval p = record p { next_deadline = p.next_deadline + interval }

unfoldable pub cycle : ℕ → ℕ → Cycle → Poll → Option Poll
cycle interval utc_anchor c p = elim (catch_up interval utc_anchor c.readings p) [
  | none ↦ none
  | some p' ↦ some (advanced interval (due utc_anchor c.is_ready c.sample c.last_error p'))
]

abbrev pub polling : ℕ → Poll
polling interval = record { next_deadline = interval; rows = []; link_lost = [] }

unfoldable pub cycles : ℕ → ℕ → List Cycle → Poll → Option Poll
cycles interval utc_anchor [] p = some p
cycles interval utc_anchor (c ∷ cs) p = elim (cycle interval utc_anchor c p) [
  | none ↦ none
  | some p' ↦ cycles interval utc_anchor cs p'
]
