-- ===== src/Protocol/Decode/Snapshot.antt =====
-- What `decode_current` of backend/pc_client/protocol.py returns.
use ece4880_project.Prelude.{
  ℕ, ◌≡◌, ◌↔◌, refl, Bool, Option, some, none, List, [], ◌∷◌, arith, ok, >>=-eq-ok, if◌then◌else◌,
  String,
}
use ece4880_project.Protocol.Enums.{VisibleState, state_number, state_of-state_number, get_current}
use ece4880_project.Protocol.Layout.{Values, int, pack_layout, unpack_layout, ordered_values}
use ece4880_project.Protocol.Layout.Names.{unpack_layout_ordered}
use ece4880_project.Protocol.Config.{current_response}
use ece4880_project.Protocol.Packet.{Response, nat, bool_number, nat_field}
use ece4880_project.Protocol.Decode.{
  CurrentSnapshot, SensorSnapshot, Centi, decode_sensor, decode_current, shown_temperature,
  int_field, expect_opcode,
}

-- a sensor as the device reports it
pub record Report : Type 0 where
  pub centi_c : Centi
  pub state : VisibleState
  pub shown : Bool

abbrev pub current_values : ℕ → ℕ → Report → Report → Centi → Bool → Values
current_values boot_id newest_sequence one two average average_valid =
    ("boot_id", nat boot_id)
    ∷ ("newest_sequence", nat newest_sequence)
    ∷ ("sensor_1_temperature_centi_c", int one.centi_c)
    ∷ ("sensor_1_visible_state", nat (state_number one.state))
    ∷ ("sensor_1_display_enabled", nat (bool_number one.shown))
    ∷ ("sensor_2_temperature_centi_c", int two.centi_c)
    ∷ ("sensor_2_visible_state", nat (state_number two.state))
    ∷ ("sensor_2_display_enabled", nat (bool_number two.shown))
    ∷ ("average_temperature_centi_c", int average)
    ∷ ("average_valid", nat (bool_number average_valid))
    ∷ ("reserved", nat 0)
    ∷ []

-- The temperature of a report: none where the sensor is disconnected.
abbrev pub reported : VisibleState → Centi → Option Centi
reported VisibleState.disconnected t = none
reported VisibleState.off t = some t
reported VisibleState.on t = some t

shown_temperature-reported :
    (state : VisibleState) (t : Centi) → shown_temperature state t ≡ reported state t
shown_temperature-reported state t = ground arith

abbrev pub snapshot : ℕ → Report → SensorSnapshot
snapshot sensor_id r = record {
  sensor_id = sensor_id;
  temperature_c = reported r.state r.centi_c;
  visible_state = r.state;
  display_enabled = r.shown;
}

unpack_current :
    (boot_id newest_sequence : ℕ) (one two : Report) (average : Centi) (average_valid : Bool)
    (payload : List ℕ)
    → pack_layout current_response
        (current_values boot_id newest_sequence one two average average_valid)
      ≡ ok payload
    → unpack_layout current_response payload
      ≡ ok (current_values boot_id newest_sequence one two average average_valid)
unfolding ordered_values
unpack_current boot_id newest_sequence one two average average_valid payload packed =
    unpack_layout_ordered current_response _ _ payload refl (omega arith) packed

decode_sensor_one :
    (boot_id newest_sequence : ℕ) (one two : Report) (average : Centi) (average_valid : Bool)
    → decode_sensor
        (current_values boot_id newest_sequence one two average average_valid)
        1
        "sensor_1_"
      ≡ ok (snapshot 1 one)
unfolding decode_sensor nat_field int_field
decode_sensor_one b n one two a v =
    ground
      (arith, state_of-state_number one.state, shown_temperature-reported one.state one.centi_c)

decode_sensor_two :
    (boot_id newest_sequence : ℕ) (one two : Report) (average : Centi) (average_valid : Bool)
    → decode_sensor
        (current_values boot_id newest_sequence one two average average_valid)
        2
        "sensor_2_"
      ≡ ok (snapshot 2 two)
unfolding decode_sensor nat_field int_field
decode_sensor_two b n one two a v =
    ground
      (arith, state_of-state_number two.state, shown_temperature-reported two.state two.centi_c)

-- A GET_CURRENT response whose payload packs two sensor reports decodes to them: the boot, the newest
-- sequence, both sensors in order, each with the temperature of its report, or none where it is
-- disconnected, and the average where it is valid.
pub decode_current-pack_layout :
    (boot_id newest_sequence : ℕ) (one two : Report) (average : Centi) (average_valid : Bool)
    (response : Response)
    → response.opcode ≡ get_current
    → pack_layout current_response
        (current_values boot_id newest_sequence one two average average_valid)
      ≡ ok response.payload
    → decode_current response
      ≡ ok (record {
        boot_id = boot_id;
        newest_sequence = newest_sequence;
        sensors = snapshot 1 one ∷ snapshot 2 two ∷ [];
        average_c = if average_valid then some average else none;
      })
unfolding decode_current nat_field int_field
decode_current-pack_layout b n one two a v response o packed =
    rw
      (
        o,
        unpack_current b n one two a v response.payload packed,
        decode_sensor_one b n one two a v,
        decode_sensor_two b n one two a v,
      )
      (ground arith)

-- No temperature is shown exactly where the sensor is disconnected.
abbrev pub IsHonest : SensorSnapshot → Type 0
IsHonest s = (s.temperature_c ≡ none) ↔ (s.visible_state ≡ VisibleState.disconnected)

shown_temperature-IsHonest :
    (state : VisibleState) (t : Centi)
    → (shown_temperature state t ≡ none) ↔ (state ≡ VisibleState.disconnected)
shown_temperature-IsHonest VisibleState.disconnected t = (λ _. refl, λ _. refl)
shown_temperature-IsHonest _ t = (λ e. cc, λ e. cc)

decode_sensor_sound :
    (values : Values) (sensor_id : ℕ) (field_prefix : String) (s : SensorSnapshot)
    → decode_sensor values sensor_id field_prefix ≡ ok s
    → (s.sensor_id ≡ sensor_id) × IsHonest s
unfolding decode_sensor
decode_sensor_sound values sensor_id field_prefix s h = ground arith

abbrev pub HasSensors : CurrentSnapshot → Type 0
HasSensors c =
    (one : SensorSnapshot) × (two : SensorSnapshot) × (c.sensors ≡ one ∷ two ∷ [])
    × (one.sensor_id ≡ 1)
    × (two.sensor_id ≡ 2)
    × IsHonest one
    × IsHonest two

-- Every snapshot that is returned has the two sensors in order, and each has no temperature exactly
-- where its state is DISCONNECTED.
pub decode_current_sound :
    (response : Response) (c : CurrentSnapshot) → decode_current response ≡ ok c → HasSensors c
unfolding decode_current
decode_current_sound response c h =
    let (_, _, k₁) = >>=-eq-ok (expect_opcode response get_current) _ h in
    let (values, _, k₂) = >>=-eq-ok (unpack_layout current_response response.payload) _ k₁ in
    let (one, h₃, k₃) = >>=-eq-ok (decode_sensor values 1 "sensor_1_") _ k₂ in
    let (two, h₄, k₄) = >>=-eq-ok (decode_sensor values 2 "sensor_2_") _ k₃ in
    let first = decode_sensor_sound values 1 "sensor_1_" one h₃ in
    let second = decode_sensor_sound values 2 "sensor_2_" two h₄ in
    (one, two, ground (arith, k₄), first.0, second.0, first.1, second.1)
