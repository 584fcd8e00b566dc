-- ===== src/Protocol/Error.antt =====
-- The exceptions of backend/pc_client/protocol.py: `ValueError` and `ProtocolError` by the message
-- that they carry, `struct.error`, and the `KeyError` of a dictionary. A `ProtocolError` also
-- carries a status or `None`.
use ece4880_project.Prelude.{Option}
use ece4880_project.Protocol.Enums.{Status}

pub data Refusal : Type 0 where
  missing_field invalid_passkey invalid_identity invalid_nonce : Refusal
  invalid_request_id payload_too_long bad_sensor_id invalid_proof : Refusal
  invalid_sequence invalid_count : Refusal

pub data Fault : Type 0 where
  wrong_size short_response length_mismatch not_a_response unknown_opcode unknown_status : Fault
  version_mismatch opcode_mismatch request_id_mismatch device_error wrong_response : Fault
  invalid_visible_state invalid_display_flag invalid_average_flags short_chunk : Fault
  invalid_chunk_sensor record_size_mismatch incomplete_record invalid_data_status : Fault
  mismatched_chunk invalid_record_count discontinuous_chunk : Fault

pub data Error : Type 0 where
  value_error : Refusal → Error
  protocol_error : Fault → Option Status → Error
  struct_error key_error : Error
