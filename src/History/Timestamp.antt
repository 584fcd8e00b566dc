-- ===== src/History/Timestamp.antt =====
-- `HistorySynchronizer.timestamp` of backend/pc_client/history_sync.py.
use ece4880_project.Prelude.{ℕ, ◌-◌, ◌*◌, ◌%◌, ◌^◌, ◌≤◌, ◌<◌, ◌≡◌, arith, leb, true, false}
use ece4880_project.Prelude.Int.{ℤ, pos, ◌+ℤ◌, ◌-ℤ◌}
use ece4880_project.History.{timestamp, back_by}

back_by-mod : (a b : ℕ) → b ≤ a → a - b < 2 ^ 32 → back_by (a % 2 ^ 32) (b % 2 ^ 32) ≡ a - b
back_by-mod a b h k = omega arith

back_by_behind :
    (a b : ℕ) → a < b → b - a < 2 ^ 32 → back_by (a % 2 ^ 32) (b % 2 ^ 32) ≡ 2 ^ 32 - (b - a)
back_by_behind a b h k = omega arith

-- The device counts its samples without bound and sends the count modulo 2 ^ 32. A record that is
-- fewer than 2 ^ 31 samples older than the anchor gets the time that many periods before the
-- anchor's.
pub timestamp_of_older :
    (anchor sample : ℕ) (t : ℤ) (ms : ℕ)
    → sample ≤ anchor
    → anchor - sample < 2 ^ 31
    → timestamp (anchor % 2 ^ 32) t (sample % 2 ^ 32) ms ≡ t -ℤ pos ((anchor - sample) * ms)
unfolding timestamp
timestamp_of_older anchor sample t ms h k =
    let test : leb (anchor - sample) 0x7FFFFFFF ≡ true = ground arith in
    rw (timestamp, back_by-mod anchor sample h (omega arith), test)

-- A record that is at most 2 ^ 31 samples newer than the anchor gets the time that many periods
-- behind it.
pub timestamp_of_newer :
    (anchor sample : ℕ) (t : ℤ) (ms : ℕ)
    → anchor < sample
    → sample - anchor ≤ 2 ^ 31
    → timestamp (anchor % 2 ^ 32) t (sample % 2 ^ 32) ms ≡ t +ℤ pos ((sample - anchor) * ms)
unfolding timestamp
timestamp_of_newer anchor sample t ms h k =
    let test : leb (2 ^ 32 - (sample - anchor)) 0x7FFFFFFF ≡ false = ground arith in
    rw (
      timestamp,
      back_by_behind anchor sample h (omega arith),
      test,
      back_by-mod sample anchor (omega arith) (omega arith),
    )
