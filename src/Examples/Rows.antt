-- ===== src/Examples/Rows.antt =====
-- The rows for the database at concrete records and clocks.
use ece4880_project.Prelude.{
  ℕ, ◌≡◌, ◌≤◌, refl, true, some, none, List, [], ◌∷◌, ok, err, if◌then◌else◌, length,
}
use ece4880_project.Prelude.Int.{pos}
use ece4880_project.Prelude.Dict.{get, IsUnique}
use ece4880_project.Protocol.Enums.{DataStatus}
use ece4880_project.Service.Records.{DeviceIdentity, TimedHistoryRecord, history_samples}
use ece4880_project.Service.Records.Lookup.{
  has_sequence, expected_row, IsAscending, history_samples_lem,
}
use ece4880_project.Service.Polling.{
  Poll, Cycle, sampled, missed, catch_up, due, cycle, cycles, polling,
}
use ece4880_project.Service.Polling.Slots.{IsOnGrid, cycles-IsOnGrid}

abbrev kitchen : DeviceIdentity
kitchen = record { address = "AA:BB"; name = "kitchen" }

abbrev record_of : ℕ → ℕ → ℕ → TimedHistoryRecord
record_of sensor_id sequence at = record {
  sensor_id = sensor_id;
  sequence = sequence;
  sampled_at = pos at;
  temperature_c = some (pos 2150);
  data_status = DataStatus.valid;
}

-- The second sensor has one record less, and the records of sequence 6 came first.
abbrev retrieved : List TimedHistoryRecord
retrieved = record_of 1 6 6000 ∷ record_of 2 6 6000 ∷ record_of 1 5 5000 ∷ []

history_samples_lem_example :
    (get 5 (history_samples kitchen 7 (pos 9000) retrieved) ≡ (
      if has_sequence 5 retrieved
      then some (expected_row kitchen 7 (pos 9000) 5 retrieved)
      else none))
    × IsUnique (history_samples kitchen 7 (pos 9000) retrieved)
    × IsAscending (history_samples kitchen 7 (pos 9000) retrieved)
history_samples_lem_example = history_samples_lem kitchen 7 (pos 9000) retrieved 5

-- A cycle in time, and one that comes two slots late to a link that is lost.
abbrev two_cycles : List Cycle
two_cycles =
    record { readings = 1001 ∷ []; is_ready = true; sample = ok 1003; last_error = none }
    ∷ record {
      readings = 4100 ∷ 4101 ∷ 4102 ∷ [];
      is_ready = true;
      sample = err "gone";
      last_error = none;
    }
    ∷ []

abbrev after_two : Poll
after_two = record {
  next_deadline = 5000;
  rows =
      sampled 1003
      ∷ missed 52000 "current polling deadline was missed"
      ∷ missed 53000 "current polling deadline was missed"
      ∷ missed 54000 "gone"
      ∷ [];
  link_lost = "gone" ∷ [];
}

two_cycles_run : cycles 1000 50000 two_cycles (polling 1000) ≡ some after_two
unfolding cycles cycle catch_up due
two_cycles_run = refl

cycles-IsOnGrid_example :
    IsOnGrid 1000 50000 after_two × (length two_cycles ≤ length after_two.rows)
cycles-IsOnGrid_example = cycles-IsOnGrid 1000 50000 two_cycles after_two two_cycles_run
