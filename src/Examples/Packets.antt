-- ===== src/Examples/Packets.antt =====
-- The wire format at concrete packets.
use ece4880_project.Prelude.{
  ℕ, ◌≡◌, refl, true, false, none, some, List, [], ◌∷◌, ◌++◌, arith, length, ok, err,
}
use ece4880_project.Prelude.Int.{pos, negsuc}
use ece4880_project.Protocol.Enums.{
  get_current, get_history_chunk_compact, set_display, opcode_number, success, valid, DataStatus,
  VisibleState, on, opcode_of, status_of, data_status_of, state_of,
}
use ece4880_project.Protocol.Error.{protocol_error, not_a_response}
use ece4880_project.Protocol.Bytes.{le_bytes, le_value}
use ece4880_project.Protocol.Layout.{
  Value, Values, int, encode, decode, struct_pack, struct_unpack, pack_layout, unpack_layout,
  ordered_values, lookup,
}
use ece4880_project.Protocol.Layout.Names.{unpack_layout-pack_layout, pack_layout-unpack_layout}
use ece4880_project.Protocol.Config.{
  history_record, header_layout, header_size, history_chunk_request,
}
use ece4880_project.Protocol.Packet.{
  Response, nat, nat_field, header_values, build_request, build_history_chunk_request,
  parse_response, check_header, chunk_opcode, chunk_request_values, validate_sensor_id,
}
use ece4880_project.Protocol.Packet.Requests.{
  IsChunkRequest, build_request_lem, parse_response-build_request,
  build_history_chunk_request_range, build_history_chunk_request_lem,
}
use ece4880_project.Protocol.Packet.Responses.{
  response_packet, parse_response-response_packet, IsAccepted, parse_response_sound,
}
use ece4880_project.Protocol.Decode.{
  HistoryChunk, CurrentSnapshot, decode_current, decode_sensor, decode_history_chunk, decode_record,
  decode_records, int_field,
}
use ece4880_project.Protocol.Decode.Snapshot.{
  Report, snapshot, decode_current-pack_layout, HasSensors, decode_current_sound,
}
use ece4880_project.Protocol.Decode.Chunk.{IsDecoded, decode_history_chunk_sound}
use ece4880_project.Protocol.Decode.Samples.{
  Sample, kept_samples, decode_history_chunk-pack_samples,
}
use ece4880_project.History.{validate_chunk}
use ece4880_project.History.Validate.{validate_chunk-decode_history_chunk}

-- A record of sequence 258 at -1.00 °C.
abbrev record_bytes : List ℕ
record_bytes = 2 ∷ 1 ∷ 0 ∷ 0 ∷ 156 ∷ 255 ∷ 0 ∷ []

abbrev record_ordered : List Value
record_ordered = nat 258 ∷ int (negsuc 99) ∷ nat 0 ∷ []

abbrev record_values : Values
record_values =
    ("sequence", nat 258) ∷ ("temperature_centi_c", int (negsuc 99)) ∷ ("data_status", nat 0) ∷ []

unpack_layout-pack_layout_example : unpack_layout history_record record_bytes ≡ ok record_values
unfolding pack_layout ordered_values struct_pack encode lookup le_bytes
unpack_layout-pack_layout_example =
    unpack_layout-pack_layout history_record record_values record_ordered record_bytes
      (refl, (refl, (refl, tt))) (omega arith) refl

pack_layout-unpack_layout_example : pack_layout history_record record_values ≡ ok record_bytes
unfolding unpack_layout struct_unpack decode le_value
pack_layout-unpack_layout_example =
    pack_layout-unpack_layout history_record record_values record_bytes (ground arith) (omega arith)
      refl

build_request_lem_example :
    (header : List ℕ) × (build_request set_display 7 (1 ∷ 1 ∷ []) ≡ ok (header ++ (1 ∷ 1 ∷ [])))
    × (length header ≡ header_size)
    × (unpack_layout header_layout header
        ≡ ok (header_values 2 (opcode_number set_display) 7 2 0 0))
build_request_lem_example = build_request_lem set_display 7 (1 ∷ 1 ∷ []) (omega arith) (omega arith)

abbrev request_bytes : List ℕ
request_bytes = 2 ∷ 2 ∷ 7 ∷ 0 ∷ 2 ∷ 0 ∷ 0 ∷ 0 ∷ 1 ∷ 1 ∷ []

parse_response-build_request_example :
    parse_response request_bytes (some set_display) (some 7) true
    ≡ err (protocol_error not_a_response none)
unfolding build_request pack_layout ordered_values struct_pack encode lookup le_bytes
parse_response-build_request_example =
    parse_response-build_request set_display 7 (1 ∷ 1 ∷ []) request_bytes (some set_display)
      (some 7) true refl

abbrev chunk_request_bytes : List ℕ
chunk_request_bytes = 2 ∷ 8 ∷ 7 ∷ 0 ∷ 6 ∷ 0 ∷ 0 ∷ 0 ∷ 1 ∷ 2 ∷ 1 ∷ 0 ∷ 0 ∷ 72 ∷ []

build_history_chunk_request_range_example : IsChunkRequest 7 1 258 72 true
unfolding build_history_chunk_request validate_sensor_id build_request pack_layout ordered_values
    struct_pack encode lookup le_bytes
build_history_chunk_request_range_example =
    build_history_chunk_request_range 7 1 258 72 true chunk_request_bytes refl

build_history_chunk_request_lem_example :
    (header : List ℕ) × (payload : List ℕ) × (build_history_chunk_request 7 1 258 72 true
      ≡ ok (header ++ payload))
    × (length (header ++ payload) ≡ 14)
    × (unpack_layout header_layout header
        ≡ ok (header_values 2 (opcode_number (chunk_opcode true)) 7 6 0 0))
    × (unpack_layout history_chunk_request payload ≡ ok (chunk_request_values 1 258 72))
build_history_chunk_request_lem_example = build_history_chunk_request_lem 7 1 258 72 true (record {
  some_sensor = omega arith;
  in_32_bits = omega arith;
  some_records = omega arith;
  in_16_bits = omega arith;
})

parse_response-response_packet_example :
    parse_response
      (response_packet 2 get_current 7 success 1 (5 ∷ []))
      (some get_current)
      (some 7)
      false
    ≡ ok (record {
      version = 2;
      opcode = get_current;
      request_id = 7;
      status = success;
      payload = 5 ∷ [];
    })
parse_response-response_packet_example =
    parse_response-response_packet 2 get_current 7 success 1 (5 ∷ []) (omega arith) (ground arith)
      false refl

abbrev answer : Response
answer = record {
  version = 2;
  opcode = get_current;
  request_id = 7;
  status = success;
  payload = 5 ∷ [];
}

parse_response_sound_example :
    (flags : ℕ) × IsAccepted
      (2 ∷ 1 ∷ 7 ∷ 0 ∷ 1 ∷ 0 ∷ 0 ∷ 1 ∷ 5 ∷ [])
      (some get_current)
      (some 7)
      false
      answer
      flags
unfolding parse_response check_header unpack_layout struct_unpack decode le_value nat_field lookup
    opcode_of status_of
parse_response_sound_example =
    parse_response_sound (2 ∷ 1 ∷ 7 ∷ 0 ∷ 1 ∷ 0 ∷ 0 ∷ 1 ∷ 5 ∷ []) (some get_current) (some 7) false
      answer refl

-- Sensor 1 at 21.50 °C, shown; sensor 2 disconnected.
abbrev warm : Report
warm = record { centi_c = pos 2150; state = on; shown = true }

abbrev unplugged : Report
unplugged = record { centi_c = pos 0; state = VisibleState.disconnected; shown = false }

abbrev current_bytes : List ℕ
current_bytes = 9 ∷ 0 ∷ 0 ∷ 0 ∷ 6 ∷ 0 ∷ 0 ∷ 0 ∷ 102 ∷ 8 ∷ 1 ∷ 1 ∷ 0 ∷ 0 ∷ 2 ∷ 0 ∷ 0 ∷ 0 ∷ 0 ∷ 0 ∷ []

abbrev current_answer : Response
current_answer = record {
  version = 2;
  opcode = get_current;
  request_id = 7;
  status = success;
  payload = current_bytes;
}

abbrev current_snapshot : CurrentSnapshot
current_snapshot = record {
  boot_id = 9;
  newest_sequence = 6;
  sensors = snapshot 1 warm ∷ snapshot 2 unplugged ∷ [];
  average_c = none;
}

decode_current-pack_layout_example : decode_current current_answer ≡ ok current_snapshot
unfolding pack_layout ordered_values struct_pack encode lookup le_bytes
decode_current-pack_layout_example =
    decode_current-pack_layout 9 6 warm unplugged (pos 0) false current_answer refl refl

current_lem : decode_current current_answer ≡ ok current_snapshot
unfolding decode_current unpack_layout struct_unpack decode le_value nat_field int_field lookup
    decode_sensor state_of
current_lem = refl

decode_current_sound_example : HasSensors current_snapshot
decode_current_sound_example = decode_current_sound current_answer current_snapshot current_lem

-- Two compact samples of sensor 1 from sequence 258, the second one without a temperature.
abbrev two_samples : List Sample
two_samples =
    record { sequence = 0; centi_c = negsuc 99; status = valid }
    ∷ record { sequence = 0; centi_c = pos 0; status = DataStatus.disconnected }
    ∷ []

abbrev prefix_bytes : List ℕ
prefix_bytes = 1 ∷ 2 ∷ 1 ∷ 0 ∷ 0 ∷ 2 ∷ 3 ∷ []

abbrev sample_bytes : List ℕ
sample_bytes = 156 ∷ 255 ∷ 0 ∷ 0 ∷ 0 ∷ 1 ∷ []

abbrev chunk_answer : Response
chunk_answer = record {
  version = 2;
  opcode = get_history_chunk_compact;
  request_id = 7;
  status = success;
  payload = prefix_bytes ++ sample_bytes;
}

abbrev two_record_chunk : HistoryChunk
two_record_chunk = record {
  sensor_id = 1;
  start_sequence = 258;
  records = kept_samples true 258 two_samples;
}

decode_history_chunk-pack_samples_example : decode_history_chunk chunk_answer ≡ ok two_record_chunk
unfolding pack_layout ordered_values struct_pack encode lookup le_bytes
decode_history_chunk-pack_samples_example =
    decode_history_chunk-pack_samples true 1 258 two_samples prefix_bytes sample_bytes chunk_answer
      (omega arith) refl refl refl refl

chunk_lem : decode_history_chunk chunk_answer ≡ ok two_record_chunk
unfolding decode_history_chunk decode_records decode_record unpack_layout struct_unpack decode
    le_value nat_field int_field lookup validate_sensor_id data_status_of
chunk_lem = refl

decode_history_chunk_sound_example : IsDecoded chunk_answer two_record_chunk
decode_history_chunk_sound_example =
    decode_history_chunk_sound chunk_answer two_record_chunk chunk_lem

validate_chunk-decode_history_chunk_example : validate_chunk two_record_chunk 1 258 72 ≡ ok tt
validate_chunk-decode_history_chunk_example =
    validate_chunk-decode_history_chunk chunk_answer two_record_chunk 72 refl chunk_lem
      (omega arith) (omega arith) (omega arith)
