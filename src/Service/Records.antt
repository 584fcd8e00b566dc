-- ===== src/Service/Records.antt =====
-- The rows that backend/pc_client/ble_service.py builds for the database: the records of
-- backend/pc_client/database_adapter.py, `_publish_current_snapshot`, `_publish_missing_interval`,
-- `_update_cached_display` and `_build_history_batch`. A time is a number of milliseconds, an average a
-- sum of hundredths of a degree that is still to be divided by the number of sensors.
pub mod Lookup
use ece4880_project.Prelude.{
  ℕ, suc, ◌+◌, String, Bool, true, false, not, ◌||◌, Option, none, some, List, [], ◌∷◌, ◌++◌, map,
  ◌==◌, if◌then◌else◌, length, Result, ok, err,
}
use ece4880_project.Prelude.Int.{ℤ, pos, ◌+ℤ◌, ltb_ℤ}
use ece4880_project.Prelude.Dict.{Dict, get, put}
use ece4880_project.Protocol.Enums.{DataStatus}
use ece4880_project.Protocol.Config.{sensor_count}
use ece4880_project.Protocol.Decode.{Centi, SensorSnapshot, CurrentSnapshot, DisplayResult}

pub data ReadingStatus : Type 0 where
  valid disconnected not_retrieved missing : ReadingStatus

pub data Source : Type 0 where
  live provisional historic : Source

pub record DeviceIdentity : Type 0 where
  pub address : String
  pub name : String

pub record SensorReading : Type 0 where
  pub sensor_id : ℕ
  pub temperature_c : Option Centi
  pub status : ReadingStatus
  pub display_enabled : Option Bool

pub record SampleRecord : Type 0 where
  pub device : Option DeviceIdentity
  pub observed_at : ℤ
  pub boot_id : Option ℕ
  pub sample_sequence : Option ℕ
  pub sensor_readings : List SensorReading
  pub average_temperature_c : Option Centi
  pub source : Source
  pub failure_reason : Option String

-- `[… if reading.temperature_c is not None]`
unfoldable pub temperatures : List SensorReading → List Centi
temperatures [] = []
temperatures (r ∷ rs) =
    let rest = temperatures rs in elim r.temperature_c [ none ↦ rest | some t ↦ t ∷ rest ]

abbrev pub sum : List Centi → Centi
sum [] = pos 0
sum (t ∷ ts) = t +ℤ sum ts

-- The average of a row, where every sensor has a temperature.
unfoldable pub average : List SensorReading → Option Centi
average readings =
    if length (temperatures readings) == sensor_count
    then some (sum (temperatures readings))
    else none

abbrev pub live_status : Option Centi → ReadingStatus
live_status none = disconnected
live_status (some t) = valid

abbrev pub live_reading : SensorSnapshot → SensorReading
live_reading sensor = record {
  sensor_id = sensor.sensor_id;
  temperature_c = sensor.temperature_c;
  status = live_status sensor.temperature_c;
  display_enabled = some sensor.display_enabled;
}

-- The row of `_publish_current_snapshot`
unfoldable pub live_sample : Option DeviceIdentity → CurrentSnapshot → ℤ → SampleRecord
live_sample device snapshot observed_at =
    let readings = map live_reading snapshot.sensors in
    record {
      device = device;
      observed_at = observed_at;
      boot_id = some snapshot.boot_id;
      sample_sequence = some snapshot.newest_sequence;
      sensor_readings = readings;
      average_temperature_c = average readings;
      source = live;
      failure_reason = none;
    }

abbrev pub unread : ReadingStatus → ℕ → SensorReading
unread status sensor_id = record {
  sensor_id = sensor_id;
  temperature_c = none;
  status = status;
  display_enabled = none;
}

-- The row of `_publish_missing_interval`
unfoldable pub missing_sample : Option DeviceIdentity → ℤ → String → SampleRecord
missing_sample device observed_at reason = record {
  device = device;
  observed_at = observed_at;
  boot_id = none;
  sample_sequence = none;
  sensor_readings = unread missing 1 ∷ unread missing 2 ∷ [];
  average_temperature_c = none;
  source = provisional;
  failure_reason = some reason;
}

abbrev pub shown_by : DisplayResult → SensorSnapshot → SensorSnapshot
shown_by result sensor =
    if sensor.sensor_id == result.sensor_id
    then record sensor {
      visible_state = result.visible_state;
      display_enabled = result.display_enabled;
    }
    else sensor

-- `_update_cached_display`, of the snapshot of the last diagnostic
unfoldable pub update_cached_display :
    DisplayResult → Option CurrentSnapshot → Option CurrentSnapshot
update_cached_display result none = none
update_cached_display result (some snapshot) =
    some (record snapshot { sensors = map (shown_by result) snapshot.sensors })

pub record TimedHistoryRecord : Type 0 where
  pub sensor_id : ℕ
  pub sequence : ℕ
  pub sampled_at : ℤ
  pub temperature_c : Option Centi
  pub data_status : DataStatus

abbrev pub or_empty {ℓ} : {A : Type ℓ} → Option (Dict A) → Dict A
or_empty none = []
or_empty (some d) = d

-- `by_sequence.setdefault(record.sequence, {})[record.sensor_id] = record`
unfoldable pub filed :
    Dict (Dict TimedHistoryRecord) → TimedHistoryRecord → Dict (Dict TimedHistoryRecord)
filed d r = put r.sequence (put r.sensor_id r (or_empty (get r.sequence d))) d

unfoldable pub by_sequence :
    Dict (Dict TimedHistoryRecord) → List TimedHistoryRecord → Dict (Dict TimedHistoryRecord)
by_sequence d [] = d
by_sequence d (r ∷ rs) = by_sequence (filed d r) rs

abbrev pub reading_status : DataStatus → ReadingStatus
reading_status DataStatus.valid = valid
reading_status DataStatus.disconnected = disconnected

unfoldable pub history_reading : ℕ → Option TimedHistoryRecord → SensorReading
history_reading sensor_id none = unread not_retrieved sensor_id
history_reading sensor_id (some r) = record {
  sensor_id = sensor_id;
  temperature_c = r.temperature_c;
  status = reading_status r.data_status;
  display_enabled = none;
}

-- The time of the last of the records, or now where there is none.
abbrev pub sample_time : ℤ → Option TimedHistoryRecord → Option TimedHistoryRecord → ℤ
sample_time now a (some r) = r.sampled_at
sample_time now (some r) none = r.sampled_at
sample_time now none none = now

-- The row of one sequence, from the records of its two sensors.
unfoldable pub history_sample :
    DeviceIdentity
    → ℕ
    → ℤ
    → ℕ
    → Option TimedHistoryRecord
    → Option TimedHistoryRecord
    → SampleRecord
history_sample device boot_id now sequence a b =
    let readings = history_reading 1 a ∷ history_reading 2 b ∷ [] in
    record {
      device = some device;
      observed_at = sample_time now a b;
      boot_id = some boot_id;
      sample_sequence = some sequence;
      sensor_readings = readings;
      average_temperature_c = average readings;
      source = historic;
      failure_reason = none;
    }

unfoldable pub samples_of :
    DeviceIdentity → ℕ → ℤ → Dict (Dict TimedHistoryRecord) → Dict SampleRecord
samples_of device boot_id now [] = []
samples_of device boot_id now ((sequence, sensors) ∷ d) =
    (sequence, history_sample device boot_id now sequence (get 1 sensors) (get 2 sensors))
    ∷ samples_of device boot_id now d

-- `samples.sort(key=observed_at)`, which is stable; each sample goes with its sequence.
unfoldable pub insert : ℕ × SampleRecord → Dict SampleRecord → Dict SampleRecord
insert (k, a) [] = (k, a) ∷ []
insert (k, a) ((j, b) ∷ d) =
    if ltb_ℤ b.observed_at a.observed_at then (j, b) ∷ insert (k, a) d else (k, a) ∷ (j, b) ∷ d

unfoldable pub sort : Dict SampleRecord → Dict SampleRecord
sort [] = []
sort ((k, a) ∷ d) = insert (k, a) (sort d)

-- The samples of `_build_history_batch`, each under its sequence
unfoldable pub history_samples :
    DeviceIdentity → ℕ → ℤ → List TimedHistoryRecord → Dict SampleRecord
history_samples device boot_id now records =
    sort (samples_of device boot_id now (by_sequence [] records))

pub data Unavailable : Type 0 where
  no_device : Unavailable

-- The device and the samples of the batch; the other fields of it are copied.
unfoldable pub build_history_batch :
    Option DeviceIdentity
    → ℕ
    → ℤ
    → List TimedHistoryRecord
    → Result Unavailable (DeviceIdentity × List SampleRecord)
build_history_batch none boot_id now records = err no_device
build_history_batch (some device) boot_id now records =
    ok (device, map (λ p. p.1) (history_samples device boot_id now records))
