-- ===== src/Service/Records/Lookup.antt =====
-- The rows of `_build_history_batch` of backend/pc_client/ble_service.py, against what was retrieved.
use ece4880_project.Prelude.{
  ℕ, ◌≡◌, refl, ap, Bool, true, false, ◌&&◌, ◌||◌, Option, none, some, List, [], ◌∷◌, ◌==◌, arith,
  if◌then◌else◌,
}
use ece4880_project.Prelude.Int.{ℤ, ◌≤ℤ◌, ◌+ℤ◌, pos, negsuc}
use ece4880_project.Protocol.Enums.{DataStatus}
use ece4880_project.Protocol.Decode.{Centi}
use ece4880_project.Prelude.Dict.{
  Dict, get, put, has_key, IsUnique, get-put, has_key-put, put-IsUnique,
}
use ece4880_project.Service.Records.{
  DeviceIdentity, SampleRecord, TimedHistoryRecord, or_empty, filed, by_sequence, history_sample,
  samples_of, insert, sort, history_samples, history_reading, average, temperatures, sample_time,
  SensorReading, ReadingStatus, not_retrieved, historic,
}

-- The last record of a sequence and a sensor
abbrev pub last_record : ℕ → ℕ → List TimedHistoryRecord → Option TimedHistoryRecord
last_record q s [] = none
last_record q s (r ∷ rs) = elim (last_record q s rs) [
  | some later ↦ some later
  | none ↦ if (q == r.sequence) && (s == r.sensor_id) then some r else none
]

-- What a row says of a sensor, from its last record: that none was retrieved, or the temperature and
-- whether the sensor was there.
abbrev pub expected_reading : ℕ → Option TimedHistoryRecord → SensorReading
expected_reading sensor_id none = record {
  sensor_id = sensor_id;
  temperature_c = none;
  status = not_retrieved;
  display_enabled = none;
}
expected_reading sensor_id (some r) = record {
  sensor_id = sensor_id;
  temperature_c = r.temperature_c;
  status = elim r.data_status [
    | DataStatus.valid ↦ ReadingStatus.valid
    | DataStatus.disconnected ↦ ReadingStatus.disconnected
  ];
  display_enabled = none;
}

abbrev pub temperature_of : Option TimedHistoryRecord → Option Centi
temperature_of none = none
temperature_of (some r) = r.temperature_c

-- The sum of two temperatures, where both are there.
abbrev pub both_added : Option Centi → Option Centi → Option Centi
both_added (some t) (some u) = some (t +ℤ u)
both_added (some t) none = none
both_added none u = none

-- The time of the second sensor's record, or else of the first one's, or else now.
abbrev pub expected_time : ℤ → Option TimedHistoryRecord → Option TimedHistoryRecord → ℤ
expected_time now none none = now
expected_time now (some r) none = r.sampled_at
expected_time now a (some r) = r.sampled_at

-- The row of a sequence: what is known of both sensors, at the time of the last record.
abbrev pub expected_row : DeviceIdentity → ℕ → ℤ → ℕ → List TimedHistoryRecord → SampleRecord
expected_row device boot_id now q records = record {
  device = some device;
  observed_at = expected_time now (last_record q 1 records) (last_record q 2 records);
  boot_id = some boot_id;
  sample_sequence = some q;
  sensor_readings =
      expected_reading 1 (last_record q 1 records)
      ∷ expected_reading 2 (last_record q 2 records)
      ∷ [];
  average_temperature_c =
      both_added (temperature_of (last_record q 1 records))
        (temperature_of (last_record q 2 records));
  source = historic;
  failure_reason = none;
}

history_reading_lem :
    (sensor_id : ℕ) (o : Option TimedHistoryRecord)
    → history_reading sensor_id o ≡ expected_reading sensor_id o
unfolding history_reading
history_reading_lem sensor_id none = refl
history_reading_lem sensor_id (some r) = ground arith

add_nothing : (t : ℤ) → t +ℤ pos 0 ≡ t
unfolding ◌+ℤ◌
add_nothing (pos n) = ground arith
add_nothing (negsuc n) = ground arith

average-added :
    (one two : SensorReading)
    → average (one ∷ two ∷ []) ≡ both_added one.temperature_c two.temperature_c
unfolding average temperatures
average-added one two = average_of one.temperature_c two.temperature_c refl refl
  where
    average_of :
        (a b : Option Centi)
        → one.temperature_c ≡ a
        → two.temperature_c ≡ b
        → average (one ∷ two ∷ []) ≡ both_added a b
    average_of none none e f = ground (arith, e, f)
    average_of none (some u) e f = ground (arith, e, f)
    average_of (some t) none e f = ground (arith, e, f)
    average_of (some t) (some u) e f = rw (e, f) (ap (λ v. some (t +ℤ v)) (add_nothing u))

temperature_of_reading :
    (sensor_id : ℕ) (o : Option TimedHistoryRecord)
    → (expected_reading sensor_id o).temperature_c ≡ temperature_of o
temperature_of_reading sensor_id none = refl
temperature_of_reading sensor_id (some r) = refl

expected_time_lem :
    (now : ℤ) (a b : Option TimedHistoryRecord) → sample_time now a b ≡ expected_time now a b
expected_time_lem now none none = refl
expected_time_lem now (some r) none = refl
expected_time_lem now none (some r) = refl
expected_time_lem now (some q) (some r) = refl

history_sample_lem :
    (device : DeviceIdentity) (boot_id : ℕ) (now : ℤ) (q : ℕ) (records : List TimedHistoryRecord)
    → history_sample device boot_id now q (last_record q 1 records) (last_record q 2 records)
      ≡ expected_row device boot_id now q records
unfolding history_sample
history_sample_lem device boot_id now q records =
    let a = last_record q 1 records in
    let b = last_record q 2 records in
    rw
      (
        history_reading_lem 1 a,
        history_reading_lem 2 b,
        average-added (expected_reading 1 a) (expected_reading 2 b),
        temperature_of_reading 1 a,
        temperature_of_reading 2 b,
        expected_time_lem now a b,
      )
      refl

abbrev pub has_sequence : ℕ → List TimedHistoryRecord → Bool
has_sequence q [] = false
has_sequence q (r ∷ rs) = (q == r.sequence) || has_sequence q rs

-- In the order of time
abbrev pub IsAscending : Dict SampleRecord → Type 0
IsAscending [] = Unit {0}
IsAscending (a ∷ []) = Unit {0}
IsAscending ((j, a) ∷ (k, b) ∷ d) = (a.observed_at ≤ℤ b.observed_at) × IsAscending ((k, b) ∷ d)

abbrev or_else {ℓ} : {A : Type ℓ} → Option A → Option A → Option A
or_else (some a) b = some a
or_else none b = b

get-filed :
    (q s : ℕ) (d : Dict (Dict TimedHistoryRecord)) (r : TimedHistoryRecord)
    → get s (or_empty (get q (filed d r)))
      ≡ (if (q == r.sequence) && (s == r.sensor_id) then some r else get s (or_empty (get q d)))
unfolding filed
get-filed q s d r = ground (
  arith,
  get-put q r.sequence (put r.sensor_id r (or_empty (get r.sequence d))) d,
  get-put s r.sensor_id r (or_empty (get r.sequence d)),
)

get-by_sequence :
    (q s : ℕ) (d : Dict (Dict TimedHistoryRecord)) (rs : List TimedHistoryRecord)
    → get s (or_empty (get q (by_sequence d rs)))
      ≡ or_else (last_record q s rs) (get s (or_empty (get q d)))
unfolding by_sequence
get-by_sequence q s d [] = refl
get-by_sequence q s d (r ∷ rs) =
    ground (arith, get-by_sequence q s (filed d r) rs, get-filed q s d r)

has_key-by_sequence :
    (q : ℕ) (d : Dict (Dict TimedHistoryRecord)) (rs : List TimedHistoryRecord)
    → has_key q (by_sequence d rs) ≡ (has_sequence q rs || has_key q d)
unfolding by_sequence filed
has_key-by_sequence q d [] = refl
has_key-by_sequence q d (r ∷ rs) = ground (
  arith,
  has_key-by_sequence q (filed d r) rs,
  has_key-put q r.sequence (put r.sensor_id r (or_empty (get r.sequence d))) d,
)

by_sequence-IsUnique :
    (d : Dict (Dict TimedHistoryRecord)) (rs : List TimedHistoryRecord)
    → IsUnique d
    → IsUnique (by_sequence d rs)
unfolding by_sequence filed
by_sequence-IsUnique d [] u = u
by_sequence-IsUnique d (r ∷ rs) u =
    by_sequence-IsUnique (filed d r) rs
      (put-IsUnique r.sequence (put r.sensor_id r (or_empty (get r.sequence d))) d u)

module _ (device : DeviceIdentity) (boot_id : ℕ) (now : ℤ) where
  abbrev sample_at : ℕ → Dict TimedHistoryRecord → SampleRecord
  sample_at q sensors = history_sample device boot_id now q (get 1 sensors) (get 2 sensors)

  get-samples_of :
      (q : ℕ) (d : Dict (Dict TimedHistoryRecord))
      → get q (samples_of device boot_id now d)
        ≡ (if has_key q d then some (sample_at q (or_empty (get q d))) else none)
  unfolding get samples_of
  get-samples_of q [] = refl
  get-samples_of q ((j, sensors) ∷ d) = ground (arith, get-samples_of q d)

  has_key-samples_of :
      (q : ℕ) (d : Dict (Dict TimedHistoryRecord))
      → has_key q (samples_of device boot_id now d) ≡ has_key q d
  unfolding samples_of
  has_key-samples_of q [] = refl
  has_key-samples_of q ((j, sensors) ∷ d) = ground (arith, has_key-samples_of q d)

  samples_of-IsUnique :
      (d : Dict (Dict TimedHistoryRecord)) → IsUnique d → IsUnique (samples_of device boot_id now d)
  unfolding samples_of
  samples_of-IsUnique [] u = u
  samples_of-IsUnique ((j, sensors) ∷ d) (f, u) =
      (rw (has_key-samples_of j d) f, samples_of-IsUnique d u)

has_key-insert :
    (q k : ℕ) (a : SampleRecord) (d : Dict SampleRecord)
    → has_key q (insert (k, a) d) ≡ (if q == k then true else has_key q d)
unfolding insert
has_key-insert q k a [] = refl
has_key-insert q k a ((j, b) ∷ d) = ground (arith, has_key-insert q k a d)

has_key-sort : (q : ℕ) (d : Dict SampleRecord) → has_key q (sort d) ≡ has_key q d
unfolding sort
has_key-sort q [] = refl
has_key-sort q ((k, a) ∷ d) = ground (arith, has_key-insert q k a (sort d), has_key-sort q d)

get-insert :
    (q k : ℕ) (a : SampleRecord) (d : Dict SampleRecord)
    → has_key k d ≡ false
    → get q (insert (k, a) d) ≡ (if q == k then some a else get q d)
unfolding get insert
get-insert q k a [] h = refl
get-insert q k a ((j, b) ∷ d) h = ground (arith, get-insert q k a d)

get-sort : (q : ℕ) (d : Dict SampleRecord) → IsUnique d → get q (sort d) ≡ get q d
unfolding get sort
get-sort q [] u = refl
get-sort q ((k, a) ∷ d) (f, u) =
    ground (arith, get-insert q k a (sort d), has_key-sort k d, get-sort q d u)

insert-IsUnique :
    (k : ℕ) (a : SampleRecord) (d : Dict SampleRecord)
    → has_key k d ≡ false
    → IsUnique d
    → IsUnique (insert (k, a) d)
unfolding insert
insert-IsUnique k a [] h u = (refl, tt)
insert-IsUnique k a ((j, b) ∷ d) h (f, u) =
    ground (arith, insert-IsUnique k a d, has_key-insert j k a d)

sort-IsUnique : (d : Dict SampleRecord) → IsUnique d → IsUnique (sort d)
unfolding sort
sort-IsUnique [] u = u
sort-IsUnique ((k, a) ∷ d) (f, u) =
    insert-IsUnique k a (sort d) (rw (has_key-sort k d) f) (sort-IsUnique d u)

insert-IsAscending :
    (k : ℕ) (a : SampleRecord) (d : Dict SampleRecord)
    → IsAscending d
    → IsAscending (insert (k, a) d)
unfolding insert
insert-IsAscending k a [] h = tt
insert-IsAscending k a ((j, b) ∷ []) h = ground arith
insert-IsAscending k a ((j, b) ∷ (i, c) ∷ d) (l, h) =
    ground (arith, insert-IsAscending k a ((i, c) ∷ d) h)

sort-IsAscending : (d : Dict SampleRecord) → IsAscending (sort d)
unfolding sort
sort-IsAscending [] = tt
sort-IsAscending ((k, a) ∷ d) = insert-IsAscending k a (sort d) (sort-IsAscending d)

or_else-none {ℓ} : {A : Type ℓ} (a : Option A) → or_else a none ≡ a
or_else-none a = ground arith

get_of_sequence :
    (q s : ℕ) (records : List TimedHistoryRecord)
    → get s (or_empty (get q (by_sequence [] records))) ≡ last_record q s records
unfolding get
get_of_sequence q s records =
    rw (get-by_sequence q s [] records) (or_else-none (last_record q s records))

has_key_of_sequence :
    (q : ℕ) (records : List TimedHistoryRecord)
    → has_key q (by_sequence [] records) ≡ has_sequence q records
has_key_of_sequence q records = ground (arith, has_key-by_sequence q [] records)

-- The rows of a batch are in the order of time, at most one for each sequence; a sequence has a row
-- exactly where a record of it was retrieved, and the row tells, for each sensor, what its last record
-- tells, or that none was retrieved, with the sum of both temperatures where both are there and the
-- time of the second sensor's record, or else of the first one's.
pub history_samples_lem :
    (device : DeviceIdentity) (boot_id : ℕ) (now : ℤ) (records : List TimedHistoryRecord) (q : ℕ)
    → (get q (history_samples device boot_id now records) ≡ (
        if has_sequence q records then some (expected_row device boot_id now q records) else none))
      × IsUnique (history_samples device boot_id now records)
      × IsAscending (history_samples device boot_id now records)
unfolding history_samples
history_samples_lem device boot_id now records q =
    let d = by_sequence [] records in
    let u = by_sequence-IsUnique [] records tt in
    let v = samples_of-IsUnique device boot_id now d u in
    (
      rw
          (
            get-sort q (samples_of device boot_id now d) v,
            get-samples_of device boot_id now q d,
            has_key_of_sequence q records,
            get_of_sequence q 1 records,
            get_of_sequence q 2 records,
            history_sample_lem device boot_id now q records,
          )
          refl,
      sort-IsUnique (samples_of device boot_id now d) v,
      sort-IsAscending (samples_of device boot_id now d),
    )
