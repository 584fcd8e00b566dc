-- ===== src/Protocol/Config.antt =====
-- The values of protocol/thermometer_protocol.json that backend/pc_client/protocol.py loads: the
-- packet layouts, and the numbers that the functions test against.
use ece4880_project.Prelude.{ℕ, List, [], ◌∷◌, arith}
use ece4880_project.Protocol.Layout.{
  Field, field, struct_size, u8, u16, i16, u32, bytes6, bytes16, bytes32,
}
use ece4880_project.Protocol.Layout.Names.{IsLayout}

abbrev pub header_layout : List Field
header_layout =
    field "version" u8
    ∷ field "opcode" u8
    ∷ field "request_id" u16
    ∷ field "payload_length" u16
    ∷ field "status" u8
    ∷ field "flags" u8
    ∷ []

abbrev pub current_response : List Field
current_response =
    field "boot_id" u32
    ∷ field "newest_sequence" u32
    ∷ field "sensor_1_temperature_centi_c" i16
    ∷ field "sensor_1_visible_state" u8
    ∷ field "sensor_1_display_enabled" u8
    ∷ field "sensor_2_temperature_centi_c" i16
    ∷ field "sensor_2_visible_state" u8
    ∷ field "sensor_2_display_enabled" u8
    ∷ field "average_temperature_centi_c" i16
    ∷ field "average_valid" u8
    ∷ field "reserved" u8
    ∷ []

abbrev pub set_display_request : List Field
set_display_request = field "sensor_id" u8 ∷ field "enabled" u8 ∷ []

abbrev pub set_display_response : List Field
set_display_response = field "sensor_id" u8 ∷ field "visible_state" u8 ∷ field "enabled" u8 ∷ []

abbrev pub history_meta_response : List Field
history_meta_response =
    field "boot_id" u32
    ∷ field "newest_sequence" u32
    ∷ field "sensor_1_count" u16
    ∷ field "sensor_2_count" u16
    ∷ field "sensor_1_oldest_sequence" u32
    ∷ field "sensor_2_oldest_sequence" u32
    ∷ []

abbrev pub history_chunk_request : List Field
history_chunk_request =
    field "sensor_id" u8 ∷ field "start_sequence" u32 ∷ field "record_count" u8 ∷ []

abbrev pub history_chunk_prefix : List Field
history_chunk_prefix =
    field "sensor_id" u8
    ∷ field "start_sequence" u32
    ∷ field "record_count" u8
    ∷ field "record_size" u8
    ∷ []

abbrev pub history_record : List Field
history_record =
    field "sequence" u32 ∷ field "temperature_centi_c" i16 ∷ field "data_status" u8 ∷ []

abbrev pub compact_history_record : List Field
compact_history_record = field "temperature_centi_c" i16 ∷ field "data_status" u8 ∷ []

abbrev pub auth_begin_response : List Field
auth_begin_response = field "device_id" bytes6 ∷ field "boot_id" u32 ∷ field "nonce" bytes16 ∷ []

abbrev pub auth_prove_request : List Field
auth_prove_request = field "proof" bytes32 ∷ []

abbrev pub protocol_version : ℕ
protocol_version = 2

abbrev pub response_flag : ℕ
response_flag = 1

abbrev pub max_history_records_per_chunk : ℕ
max_history_records_per_chunk = 32

abbrev pub max_compact_history_records_per_chunk : ℕ
max_compact_history_records_per_chunk = 72

abbrev pub sensor_count : ℕ
sensor_count = 2

abbrev pub nonce_size_bytes : ℕ
nonce_size_bytes = 16

abbrev pub proof_size_bytes : ℕ
proof_size_bytes = 32

-- `HEADER_SIZE` and `HISTORY_CHUNK_PREFIX.size`
abbrev pub header_size : ℕ
header_size = struct_size header_layout

abbrev pub prefix_size : ℕ
prefix_size = struct_size history_chunk_prefix

pub header-IsLayout : IsLayout header_layout
header-IsLayout = ground arith
