-- ===== src/Examples/Sessions.antt =====
-- The client of backend/pc_client/thermometer_client.py over transports that replay what they are given.
use ece4880_project.Prelude.{ℕ, ◌≡◌, refl, true, false, Option, some, none, List, [], ◌∷◌, ok}
use ece4880_project.Prelude.Int.{negsuc}
use ece4880_project.Protocol.Enums.{valid, opcode_of, status_of, data_status_of}
use ece4880_project.Protocol.Bytes.{le_bytes, le_value}
use ece4880_project.Protocol.Layout.{
  encode, decode, struct_pack, struct_unpack, pack_layout, unpack_layout, ordered_values, lookup,
}
use ece4880_project.Protocol.Packet.{
  build_request, build_history_chunk_request, validate_sensor_id, parse_response, check_header,
  nat_field,
}
use ece4880_project.Protocol.Decode.{
  HistoryChunk, decode_history_chunk, decode_record, decode_records, int_field,
}
use ece4880_project.Client.{next_request_id, records_per_chunk}
use ece4880_project.Client.Session.{
  Session, gatt_failed, call, run, Call, gets_current, gets_history_chunk, closes, received,
  exchange_packet, request, chunk_attempt, or_plain, get_history_chunk, get_current,
}
use ece4880_project.Client.Session.Silence.{IsSilent, call-IsSilent_after_failure}
use ece4880_project.Client.Session.Chunks.{IsAnswer, get_history_chunk_sound}

abbrev Replies : Type 0
Replies = List (Option (List ℕ))

-- The next reply, whatever was sent.
abbrev replay : Replies → List ℕ → Option (List ℕ) × Replies
replay [] packet = (none, [])
replay (r ∷ rs) packet = (r, rs)

abbrev connected_to : Replies → Session Replies
connected_to replies = record {
  device = replies;
  is_connected = true;
  is_closed = false;
  passkey = none;
  mtu_size = 247;
  client = record { request_id = 0; compact_history_supported = none };
}

-- Firmware that does not know the compact format, and answers with one record in the plain one.
abbrev old_firmware : Replies
old_firmware =
    some (2 ∷ 8 ∷ 1 ∷ 0 ∷ 0 ∷ 0 ∷ 1 ∷ 1 ∷ [])
    ∷ some (
        2 ∷ 4 ∷ 2 ∷ 0 ∷ 14 ∷ 0 ∷ 0 ∷ 1 ∷ 1 ∷ 2 ∷ 1 ∷ 0 ∷ 0 ∷ 1 ∷ 7 ∷ 2 ∷ 1 ∷ 0 ∷ 0 ∷ 156 ∷ 255 ∷ 0
        ∷ [])
    ∷ []

abbrev one_record : HistoryChunk
one_record = record {
  sensor_id = 1;
  start_sequence = 258;
  records = record { sequence = 258; temperature_c = some (negsuc 99); data_status = valid } ∷ [];
}

abbrev after_plain : Session Replies
after_plain = record (connected_to []) {
  client = record { request_id = 2; compact_history_supported = some false };
}

falls_back :
    get_history_chunk replay 1 258 1 (connected_to old_firmware) ≡ (ok one_record, after_plain)
unfolding get_history_chunk or_plain chunk_attempt exchange_packet received next_request_id
    records_per_chunk build_history_chunk_request validate_sensor_id build_request pack_layout
    ordered_values struct_pack encode lookup le_bytes parse_response check_header unpack_layout
    struct_unpack decode le_value opcode_of status_of nat_field decode_history_chunk decode_records
    decode_record data_status_of int_field
falls_back = refl

get_history_chunk_sound_example : IsAnswer replay 1 258 1 one_record after_plain
get_history_chunk_sound_example =
    get_history_chunk_sound replay 1 258 1 (connected_to old_firmware) after_plain one_record
      falls_back

-- A link that breaks: the reply that comes later is not read by the calls that follow.
abbrev broken : Replies
broken = none ∷ some [] ∷ []

breaks :
    (call replay (λ key message. []) [] gets_current (connected_to broken)).0 ≡ some gatt_failed
unfolding call get_current request exchange_packet received next_request_id build_request
    pack_layout ordered_values struct_pack encode lookup le_bytes
breaks = refl

abbrev later_calls : List Call
later_calls = gets_current ∷ closes ∷ gets_history_chunk 1 258 1 ∷ []

call-IsSilent_after_failure_example :
    IsSilent
      (call replay (λ key message. []) [] gets_current (connected_to broken)).1.device
      (call replay (λ key message. []) [] gets_current (connected_to broken)).1.is_closed
      (run replay
        (λ key message. [])
        []
        later_calls
        (call replay (λ key message. []) [] gets_current (connected_to broken)).1)
call-IsSilent_after_failure_example =
    call-IsSilent_after_failure replay (λ key message. []) [] (connected_to broken) gets_current
      later_calls breaks (tt, (tt, (tt, tt)))
