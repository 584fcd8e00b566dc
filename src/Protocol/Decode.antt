-- ===== src/Protocol/Decode.antt =====
-- The decoders of backend/pc_client/protocol.py for the payload of each kind of response, and the
-- authentication proof. A temperature is kept in hundredths of a degree, the number on the wire:
-- the source divides it by 100 and this model does not. `& 0xFFFFFFFF` is written `% 2 ^ 32`.
pub mod Chunk
pub mod Samples
pub mod Snapshot
use Prim.Native.String.{◌++◌ as join}
use ece4880_project.Prelude.{
  ℕ, zero, suc, ◌+◌, ◌*◌, ◌%◌, ◌^◌, String, Bool, true, false, not, ◌&&◌, ◌||◌, Option, none, some,
  List, [], ◌∷◌, ◌++◌, ltb, leb, ◌==◌, if◌then◌else◌, length, take, drop, Result, ok, err, ◌>>=◌,
  ◌>>◌, require, refuse, or_raise,
}
use ece4880_project.Prelude.Int.{ℤ}
use ece4880_project.Protocol.Enums.{
  Opcode, VisibleState, DataStatus, get_current, set_display, get_history_meta, get_history_chunk,
  get_history_chunk_compact, auth_begin, disconnected, valid, state_of, data_status_of, same_opcode,
}
use ece4880_project.Protocol.Error.{
  Error, value_error, protocol_error, key_error, wrong_response, invalid_visible_state,
  invalid_display_flag, invalid_average_flags, short_chunk, invalid_chunk_sensor,
  record_size_mismatch, incomplete_record, invalid_data_status, invalid_identity, invalid_nonce,
}
use ece4880_project.Protocol.Bytes.{le_bytes}
use ece4880_project.Protocol.Layout.{
  Field, Value, Values, int, blob, struct_size, lookup, unpack_layout,
}
use ece4880_project.Protocol.Config.{
  current_response, set_display_response, history_meta_response, history_chunk_prefix,
  history_record, compact_history_record, auth_begin_response, prefix_size, sensor_count,
  nonce_size_bytes, protocol_version,
}
use ece4880_project.Protocol.Packet.{Response, nat_field, validate_sensor_id, validate_passkey}

abbrev pub as_int : Option Value → Result Error ℤ
as_int (some (int z)) = ok z
as_int _ = err key_error

abbrev pub as_blob : Option Value → Result Error (List ℕ)
as_blob (some (blob bs)) = ok bs
as_blob _ = err key_error

unfoldable pub int_field : String → Values → Result Error ℤ
unfolding lookup
int_field name values = as_int (lookup name values)

unfoldable pub blob_field : String → Values → Result Error (List ℕ)
unfolding lookup
blob_field name values = as_blob (lookup name values)

abbrev pub Centi : Type 0
Centi = ℤ

pub record SensorSnapshot : Type 0 where
  pub sensor_id : ℕ
  pub temperature_c : Option Centi
  pub visible_state : VisibleState
  pub display_enabled : Bool

pub record CurrentSnapshot : Type 0 where
  pub boot_id : ℕ
  pub newest_sequence : ℕ
  pub sensors : List SensorSnapshot
  pub average_c : Option Centi

pub record DisplayResult : Type 0 where
  pub sensor_id : ℕ
  pub visible_state : VisibleState
  pub display_enabled : Bool

pub record HistoryMeta : Type 0 where
  pub boot_id : ℕ
  pub newest_sequence : ℕ
  pub counts : List ℕ
  pub oldest_sequences : List ℕ

pub record HistoryRecordValue : Type 0 where
  pub sequence : ℕ
  pub temperature_c : Option Centi
  pub data_status : DataStatus

pub record HistoryChunk : Type 0 where
  pub sensor_id : ℕ
  pub start_sequence : ℕ
  pub records : List HistoryRecordValue

pub record AuthenticationChallenge : Type 0 where
  pub device_id : List ℕ
  pub boot_id : ℕ
  pub nonce : List ℕ

-- `response.opcode is not opcode`
abbrev pub expect_opcode : Response → Opcode → Result Error (Unit {0})
expect_opcode response opcode =
    require (same_opcode response.opcode opcode) (protocol_error wrong_response none)

-- `None if state is VisibleState.DISCONNECTED else temperature / 100`
abbrev pub shown_temperature : VisibleState → Centi → Option Centi
shown_temperature VisibleState.disconnected t = none
shown_temperature _ t = some t

-- one round of the loop over the sensors
unfoldable pub decode_sensor : Values → ℕ → String → Result Error SensorSnapshot
decode_sensor values sensor_id field_prefix = do
  state_raw ← nat_field (join field_prefix "visible_state") values
  display_raw ← nat_field (join field_prefix "display_enabled") values
  state ← or_raise (state_of state_raw) (protocol_error invalid_visible_state none)
  require (leb display_raw 1) (protocol_error invalid_display_flag none)
  temperature ← int_field (join field_prefix "temperature_centi_c") values
  ok (record {
    sensor_id = sensor_id;
    temperature_c = shown_temperature state temperature;
    visible_state = state;
    display_enabled = display_raw == 1;
  })

unfoldable pub decode_current : Response → Result Error CurrentSnapshot
decode_current response = do
  expect_opcode response get_current
  values ← unpack_layout current_response response.payload
  sensor₁ ← decode_sensor values 1 "sensor_1_"
  sensor₂ ← decode_sensor values 2 "sensor_2_"
  average_valid ← nat_field "average_valid" values
  reserved ← nat_field "reserved" values
  refuse (not (leb average_valid 1) || not (reserved == 0))
      (protocol_error invalid_average_flags none)
  boot_id ← nat_field "boot_id" values
  newest_sequence ← nat_field "newest_sequence" values
  average ← int_field "average_temperature_centi_c" values
  ok (record {
    boot_id = boot_id;
    newest_sequence = newest_sequence;
    sensors = sensor₁ ∷ sensor₂ ∷ [];
    average_c = if average_valid == 1 then some average else none;
  })

unfoldable pub decode_display_result : Response → Result Error DisplayResult
decode_display_result response = do
  expect_opcode response set_display
  values ← unpack_layout set_display_response response.payload
  sensor_id ← nat_field "sensor_id" values
  validate_sensor_id sensor_id
  enabled ← nat_field "enabled" values
  require (leb enabled 1) (protocol_error invalid_display_flag none)
  state_raw ← nat_field "visible_state" values
  state ← or_raise (state_of state_raw) (protocol_error invalid_visible_state none)
  ok (record { sensor_id = sensor_id; visible_state = state; display_enabled = enabled == 1 })

unfoldable pub decode_authentication_challenge : Response → Result Error AuthenticationChallenge
decode_authentication_challenge response = do
  expect_opcode response auth_begin
  values ← unpack_layout auth_begin_response response.payload
  device_id ← blob_field "device_id" values
  boot_id ← nat_field "boot_id" values
  nonce ← blob_field "nonce" values
  ok (record { device_id = device_id; boot_id = boot_id; nonce = nonce })

unfoldable pub decode_history_meta : Response → Result Error HistoryMeta
decode_history_meta response = do
  expect_opcode response get_history_meta
  values ← unpack_layout history_meta_response response.payload
  count₁ ← nat_field "sensor_1_count" values
  count₂ ← nat_field "sensor_2_count" values
  oldest₁ ← nat_field "sensor_1_oldest_sequence" values
  oldest₂ ← nat_field "sensor_2_oldest_sequence" values
  boot_id ← nat_field "boot_id" values
  newest_sequence ← nat_field "newest_sequence" values
  ok (record {
    boot_id = boot_id;
    newest_sequence = newest_sequence;
    counts = count₁ ∷ count₂ ∷ [];
    oldest_sequences = oldest₁ ∷ oldest₂ ∷ [];
  })

abbrev pub record_layout : Bool → List Field
record_layout compact = if compact then compact_history_record else history_record

abbrev pub kept_temperature : DataStatus → Centi → Option Centi
kept_temperature valid t = some t
kept_temperature DataStatus.disconnected t = none

-- `sequence=(start + index) & 0xFFFFFFFF if compact else values["sequence"]`
abbrev pub record_sequence : Bool → ℕ → Values → Result Error ℕ
record_sequence true position values = ok (position % 2 ^ 32)
record_sequence false position values = nat_field "sequence" values

-- one round of the loop over the records, on the bytes of its record
unfoldable pub decode_record : Bool → ℕ → List ℕ → Result Error HistoryRecordValue
decode_record compact position bytes = do
  values ← unpack_layout (record_layout compact) bytes
  status_raw ← nat_field "data_status" values
  data_status ← or_raise (data_status_of status_raw) (protocol_error invalid_data_status none)
  sequence ← record_sequence compact position values
  temperature ← int_field "temperature_centi_c" values
  ok (record {
    sequence = sequence;
    temperature_c = kept_temperature data_status temperature;
    data_status = data_status;
  })

-- `for record_index in range(record_count)`, with the rounds that are left.
unfoldable pub decode_records : Bool → ℕ → List ℕ → ℕ → ℕ → Result Error (List HistoryRecordValue)
decode_records compact start_sequence payload record_index zero = ok []
decode_records compact start_sequence payload record_index (suc left) = do
  let size = struct_size (record_layout compact)
  r ←
      decode_record compact (start_sequence + record_index)
        (take size (drop (prefix_size + record_index * size) payload))
  rest ← decode_records compact start_sequence payload (record_index + 1) left
  ok (r ∷ rest)

-- `_validate_sensor_id`, its `ValueError` raised again as a `ProtocolError`
abbrev pub as_protocol_error : Result Error (Unit {0}) → Result Error (Unit {0})
as_protocol_error (ok u) = ok u
as_protocol_error (err _) = err (protocol_error invalid_chunk_sensor none)

unfoldable pub decode_history_chunk : Response → Result Error HistoryChunk
decode_history_chunk response = do
  let compact = same_opcode response.opcode get_history_chunk_compact
  let record_size = struct_size (record_layout compact)
  require (same_opcode response.opcode get_history_chunk || compact)
      (protocol_error wrong_response none)
  refuse (ltb (length response.payload) prefix_size) (protocol_error short_chunk none)
  values ← unpack_layout history_chunk_prefix (take prefix_size response.payload)
  sensor_id ← nat_field "sensor_id" values
  as_protocol_error (validate_sensor_id sensor_id)
  size ← nat_field "record_size" values
  require (size == record_size) (protocol_error record_size_mismatch none)
  record_count ← nat_field "record_count" values
  require (length response.payload == prefix_size + record_count * record_size)
      (protocol_error incomplete_record none)
  start_sequence ← nat_field "start_sequence" values
  records ← decode_records compact start_sequence response.payload 0 record_count
  ok (record { sensor_id = sensor_id; start_sequence = start_sequence; records = records })

-- `hmac.new(key, message, sha256).digest()` and the domain separator's bytes are parameters.
module _ (hmac_sha256 : List ℕ → List ℕ → List ℕ) (domain_separator : List ℕ) where
  unfoldable pub compute_authentication_proof :
      List ℕ → AuthenticationChallenge → Result Error (List ℕ)
  compute_authentication_proof passkey challenge = do
    require (length challenge.device_id == 6) (value_error invalid_identity)
    require (length challenge.nonce == nonce_size_bytes) (value_error invalid_nonce)
    key ← validate_passkey passkey
    ok (
        hmac_sha256 key (
          domain_separator
          ++ (protocol_version
              ∷ (challenge.device_id ++ (le_bytes 4 challenge.boot_id ++ challenge.nonce)))))
