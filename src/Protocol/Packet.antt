-- ===== src/Protocol/Packet.antt =====
-- Requests and responses of backend/pc_client/protocol.py: `build_request` and its callers,
-- `parse_response`, `validate_passkey`. Lengths, request ids, sensor ids, sequences and counts are
-- natural numbers, so the tests `0 <= n` of the source hold.
pub mod Requests
pub mod Responses
use Prim.Native.Nat.{bit_and}
use ece4880_project.Prelude.{
  ℕ, ◌+◌, String, ◌≡◌, refl, Bool, true, false, not, ◌&&◌, ◌||◌, Option, none, some, List, [], ◌∷◌,
  ◌++◌, ltb, leb, ◌==◌, if◌then◌else◌, length, take, drop, Result, ok, err, ◌>>=◌, ◌>>◌, require,
  refuse, or_raise,
}
use ece4880_project.Prelude.Int.{pos}
use ece4880_project.Protocol.Enums.{
  Opcode, Status, opcode_number, opcode_of, status_of, same_opcode, is_success, set_display,
  auth_prove, get_history_chunk, get_history_chunk_compact,
}
use ece4880_project.Protocol.Error.{
  Error, value_error, protocol_error, key_error, invalid_request_id, payload_too_long,
  bad_sensor_id, invalid_proof, invalid_sequence, invalid_count, invalid_passkey, short_response,
  length_mismatch, not_a_response, unknown_opcode, unknown_status, version_mismatch,
  opcode_mismatch, request_id_mismatch, device_error,
}
use ece4880_project.Protocol.Layout.{Value, Values, int, blob, lookup, pack_layout, unpack_layout}
use ece4880_project.Protocol.Config.{
  header_layout, header_size, protocol_version, response_flag, sensor_count, proof_size_bytes,
  max_history_records_per_chunk, max_compact_history_records_per_chunk, set_display_request,
  history_chunk_request, auth_prove_request,
}

abbrev pub nat : ℕ → Value
nat n = int (pos n)

-- `values[name]`, at a field that holds an unsigned number. The error is Python's `KeyError`; it
-- also stands for a value of another kind.
abbrev pub as_nat : Option Value → Result Error ℕ
as_nat (some (int (pos n))) = ok n
as_nat _ = err key_error

unfoldable pub nat_field : String → Values → Result Error ℕ
unfolding lookup
nat_field name values = as_nat (lookup name values)

abbrev pub header_values : ℕ → ℕ → ℕ → ℕ → ℕ → ℕ → Values
header_values version opcode request_id payload_length status flags =
    ("version", nat version)
    ∷ ("opcode", nat opcode)
    ∷ ("request_id", nat request_id)
    ∷ ("payload_length", nat payload_length)
    ∷ ("status", nat status)
    ∷ ("flags", nat flags)
    ∷ []

unfoldable pub build_request : Opcode → ℕ → List ℕ → Result Error (List ℕ)
build_request opcode request_id payload = do
  require (leb request_id 0xFFFF) (value_error invalid_request_id)
  refuse (ltb 0xFFFF (length payload)) (value_error payload_too_long)
  header ←
      pack_layout header_layout
        (header_values protocol_version (opcode_number opcode) request_id (length payload) 0 0)
  ok (header ++ payload)

unfoldable pub validate_sensor_id : ℕ → Result Error (Unit {0})
validate_sensor_id sensor_id =
    require (leb 1 sensor_id && leb sensor_id sensor_count) (value_error bad_sensor_id)

abbrev pub bool_number : Bool → ℕ
bool_number true = 1
bool_number false = 0

unfoldable pub build_set_display_request : ℕ → ℕ → Bool → Result Error (List ℕ)
unfolding validate_sensor_id
build_set_display_request request_id sensor_id enabled = do
  validate_sensor_id sensor_id
  payload ←
      pack_layout set_display_request
        (("sensor_id", nat sensor_id) ∷ ("enabled", nat (bool_number enabled)) ∷ [])
  build_request set_display request_id payload

unfoldable pub build_authentication_proof_request : ℕ → List ℕ → Result Error (List ℕ)
build_authentication_proof_request request_id proof = do
  require (length proof == proof_size_bytes) (value_error invalid_proof)
  payload ← pack_layout auth_prove_request (("proof", blob proof) ∷ [])
  build_request auth_prove request_id payload

abbrev pub chunk_maximum : Bool → ℕ
chunk_maximum compact =
    if compact then max_compact_history_records_per_chunk else max_history_records_per_chunk

abbrev pub chunk_opcode : Bool → Opcode
chunk_opcode compact = if compact then get_history_chunk_compact else get_history_chunk

abbrev pub chunk_request_values : ℕ → ℕ → ℕ → Values
chunk_request_values sensor_id start_sequence count =
    ("sensor_id", nat sensor_id)
    ∷ ("start_sequence", nat start_sequence)
    ∷ ("record_count", nat count)
    ∷ []

unfoldable pub build_history_chunk_request : ℕ → ℕ → ℕ → ℕ → Bool → Result Error (List ℕ)
unfolding validate_sensor_id
build_history_chunk_request request_id sensor_id start_sequence count compact = do
  validate_sensor_id sensor_id
  require (leb start_sequence 0xFFFFFFFF) (value_error invalid_sequence)
  require (leb 1 count && leb count (chunk_maximum compact)) (value_error invalid_count)
  payload ← pack_layout history_chunk_request (chunk_request_values sensor_id start_sequence count)
  build_request (chunk_opcode compact) request_id payload

-- A passkey is a text, here its code points.
abbrev pub is_digit : ℕ → Bool
is_digit c = leb b'0' c && leb c b'9'

pub all_digits : List ℕ → Bool
all_digits [] = true
all_digits (c ∷ cs) = is_digit c && all_digits cs

-- On ASCII text `str.isdigit` is true of the ten digits alone.
unfoldable pub validate_passkey : List ℕ → Result Error (List ℕ)
unfolding all_digits
validate_passkey passkey =
    if not (length passkey == 6) || not (all_digits passkey)
    then err (value_error invalid_passkey)
    else ok passkey

pub record Response : Type 0 where
  pub version : ℕ
  pub opcode : Opcode
  pub request_id : ℕ
  pub status : Status
  pub payload : List ℕ

-- `expected is not None and value is not expected`
abbrev pub differs_opcode : Option Opcode → Opcode → Bool
differs_opcode none opcode = false
differs_opcode (some expected) opcode = not (same_opcode opcode expected)

abbrev pub differs_id : Option ℕ → ℕ → Bool
differs_id none request_id = false
differs_id (some expected) request_id = not (request_id == expected)

-- The tests on the values of a header that was unpacked.
unfoldable pub check_header :
    Values → List ℕ → Option Opcode → Option ℕ → Bool → Result Error Response
unfolding nat_field
check_header header payload expected_opcode expected_request_id allow_error = do
  payload_length ← nat_field "payload_length" header
  require (length payload == payload_length) (protocol_error length_mismatch none)
  flags ← nat_field "flags" header
  refuse (bit_and flags response_flag == 0) (protocol_error not_a_response none)
  opcode_value ← nat_field "opcode" header
  opcode ← or_raise (opcode_of opcode_value) (protocol_error unknown_opcode none)
  status_value ← nat_field "status" header
  status ← or_raise (status_of status_value) (protocol_error unknown_status none)
  version ← nat_field "version" header
  require (version == protocol_version) (protocol_error version_mismatch (some status))
  refuse (differs_opcode expected_opcode opcode) (protocol_error opcode_mismatch (some status))
  request_id ← nat_field "request_id" header
  refuse (differs_id expected_request_id request_id)
      (protocol_error request_id_mismatch (some status))
  refuse (not (is_success status) && not allow_error) (protocol_error device_error (some status))
  ok (record {
    version = version;
    opcode = opcode;
    request_id = request_id;
    status = status;
    payload = payload;
  })

unfoldable pub parse_response : List ℕ → Option Opcode → Option ℕ → Bool → Result Error Response
parse_response packet expected_opcode expected_request_id allow_error = do
  refuse (ltb (length packet) header_size) (protocol_error short_response none)
  header ← unpack_layout header_layout (take header_size packet)
  check_header header (drop header_size packet) expected_opcode expected_request_id allow_error
