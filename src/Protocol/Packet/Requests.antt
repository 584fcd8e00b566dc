-- ===== src/Protocol/Packet/Requests.antt =====
-- What the request builders of backend/pc_client/protocol.py put on the wire.
use ece4880_project.Prelude.{
  ℕ, ◌^◌, ◌≤◌, ◌<◌, ◌≡◌, refl, Bool, Option, none, List, [], ◌∷◌, ◌++◌, arith, length,
  length-append, ok, err,
}
use ece4880_project.Protocol.Enums.{Opcode, opcode_number}
use ece4880_project.Protocol.Error.{protocol_error, not_a_response}
use ece4880_project.Protocol.Bytes.{le_bytes}
use ece4880_project.Protocol.Layout.{pack_layout, unpack_layout, ordered_values}
use ece4880_project.Protocol.Layout.RoundTrip.{take-append, drop-append}
use ece4880_project.Protocol.Layout.Names.{unpack_layout_ordered}
use ece4880_project.Protocol.Config.{
  header_layout, header_size, history_chunk_request, sensor_count,
}
use ece4880_project.Protocol.Packet.{
  nat, header_values, build_request, parse_response, check_header, build_history_chunk_request,
  chunk_request_values, chunk_opcode, chunk_maximum,
}

opcode_number_fits : (o : Opcode) → opcode_number o < 256
opcode_number_fits o = ground arith

-- the header's bytes
abbrev pub header_bytes : ℕ → ℕ → ℕ → ℕ → ℕ → ℕ → List ℕ
header_bytes version opcode request_id payload_length status flags =
    le_bytes 1 version
    ++ (le_bytes 1 opcode
        ++ (le_bytes 2 request_id
            ++ (le_bytes 2 payload_length ++ (le_bytes 1 status ++ (le_bytes 1 flags ++ [])))))

abbrev pub HeaderFits : ℕ → ℕ → ℕ → ℕ → ℕ → ℕ → Type 0
HeaderFits version opcode request_id payload_length status flags =
    (version < 256)
    × (opcode < 256)
    × (request_id < 65536)
    × (payload_length < 65536)
    × (status < 256)
    × (flags < 256)

module _ (version opcode request_id payload_length status flags : ℕ)
    (fits : HeaderFits version opcode request_id payload_length status flags) where
  pub pack_header :
      pack_layout header_layout
        (header_values version opcode request_id payload_length status flags)
      ≡ ok (header_bytes version opcode request_id payload_length status flags)
  unfolding pack_layout
  pack_header = ground arith

  ordered_header :
      ordered_values header_layout
        (header_values version opcode request_id payload_length status flags)
      ≡ ok (
          nat version
          ∷ nat opcode
          ∷ nat request_id
          ∷ nat payload_length
          ∷ nat status
          ∷ nat flags
          ∷ [])
  unfolding ordered_values
  ordered_header = refl

  pub length-header_bytes :
      length (header_bytes version opcode request_id payload_length status flags) ≡ header_size
  unfolding le_bytes
  length-header_bytes = refl

  pub unpack_header :
      unpack_layout header_layout
        (header_bytes version opcode request_id payload_length status flags)
      ≡ ok (header_values version opcode request_id payload_length status flags)
  unpack_header = unpack_layout_ordered header_layout _ _ _ ordered_header (omega arith) pack_header

  -- `parse_response` on a packet whose header is this one.
  pub parse_response-header_bytes :
      (payload : List ℕ) (expected_opcode : Option Opcode) (expected_request_id : Option ℕ)
      (allow_error : Bool)
      → parse_response
          (header_bytes version opcode request_id payload_length status flags ++ payload)
          expected_opcode
          expected_request_id
          allow_error
        ≡ check_header
            (header_values version opcode request_id payload_length status flags)
            payload
            expected_opcode
            expected_request_id
            allow_error
  unfolding parse_response
  parse_response-header_bytes payload expected_opcode expected_request_id allow_error =
      rw
        (
          ← length-header_bytes,
          take-append (header_bytes version opcode request_id payload_length status flags) payload,
          drop-append (header_bytes version opcode request_id payload_length status flags) payload,
          unpack_header,
        )
        (ground (
          arith,
          length-append (header_bytes version opcode request_id payload_length status flags)
              payload,
        ))

-- A request in range is its header, eight bytes, and the payload unchanged; and the header unpacks
-- to the version, the opcode's number, the request id and the payload's length, with no status and
-- no flags.
pub build_request_lem :
    (o : Opcode) (request_id : ℕ) (payload : List ℕ)
    → request_id ≤ 0xFFFF
    → length payload ≤ 0xFFFF
    → (header : List ℕ) × (build_request o request_id payload ≡ ok (header ++ payload))
      × (length header ≡ header_size)
      × (unpack_layout header_layout header
          ≡ ok (header_values 2 (opcode_number o) request_id (length payload) 0 0))
unfolding build_request
build_request_lem o request_id payload hr hp =
    let fits : HeaderFits 2 (opcode_number o) request_id (length payload) 0 0 =
      (omega arith, opcode_number_fits o, omega arith, omega arith, omega arith, omega arith) in
    (
      header_bytes 2 (opcode_number o) request_id (length payload) 0 0,
      ground (arith, pack_header _ _ _ _ _ _ fits),
      length-header_bytes _ _ _ _ _ _ fits,
      unpack_header _ _ _ _ _ _ fits,
    )

-- A request that comes back as it was sent is refused as no response, whatever answer is expected.
pub parse_response-build_request :
    (o : Opcode) (request_id : ℕ) (payload packet : List ℕ) (expected_opcode : Option Opcode)
    (expected_request_id : Option ℕ) (allow_error : Bool)
    → build_request o request_id payload ≡ ok packet
    → parse_response packet expected_opcode expected_request_id allow_error
      ≡ err (protocol_error not_a_response none)
unfolding build_request check_header
parse_response-build_request o request_id payload packet eo er allow h =
    rw (← sent)
      (rw (parse_response-header_bytes _ _ _ _ _ _ fits payload eo er allow) (ground arith))
  where
    fits : HeaderFits 2 (opcode_number o) request_id (length payload) 0 0
    fits = (omega arith, opcode_number_fits o, ground arith, ground arith, omega arith, omega arith)

    sent : header_bytes 2 (opcode_number o) request_id (length payload) 0 0 ++ payload ≡ packet
    sent = ground (arith, pack_header _ _ _ _ _ _ fits)

chunk_payload : ℕ → ℕ → ℕ → List ℕ
chunk_payload sensor_id start_sequence count =
    le_bytes 1 sensor_id ++ (le_bytes 4 start_sequence ++ (le_bytes 1 count ++ []))

pack_chunk_payload :
    (sensor_id start_sequence count : ℕ)
    → sensor_id < 256
    → start_sequence < 2 ^ 32
    → count < 256
    → pack_layout history_chunk_request (chunk_request_values sensor_id start_sequence count)
      ≡ ok (chunk_payload sensor_id start_sequence count)
unfolding pack_layout chunk_payload
pack_chunk_payload sensor_id start_sequence count hs hq hc = ground arith

ordered_chunk_values :
    (sensor_id start_sequence count : ℕ)
    → ordered_values history_chunk_request (chunk_request_values sensor_id start_sequence count)
      ≡ ok (nat sensor_id ∷ nat start_sequence ∷ nat count ∷ [])
unfolding ordered_values
ordered_chunk_values sensor_id start_sequence count = refl

-- The arguments that `build_history_chunk_request` accepts.
pub record IsChunkRequest (request_id sensor_id start_sequence count : ℕ) (compact : Bool)
    : Type 0 where
  pub some_sensor : (1 ≤ sensor_id) × (sensor_id ≤ sensor_count)
  pub in_32_bits : start_sequence ≤ 0xFFFFFFFF
  pub some_records : (1 ≤ count) × (count ≤ chunk_maximum compact)
  pub in_16_bits : request_id ≤ 0xFFFF

-- `build_history_chunk_request` raises unless the sensor exists, the sequence fits 32 bits, the
-- count lies between 1 and the maximum of the chosen format and the request id fits 16 bits.
pub build_history_chunk_request_range :
    (request_id sensor_id start_sequence count : ℕ) (compact : Bool) (packet : List ℕ)
    → build_history_chunk_request request_id sensor_id start_sequence count compact ≡ ok packet
    → IsChunkRequest request_id sensor_id start_sequence count compact
unfolding build_history_chunk_request build_request
build_history_chunk_request_range request_id sensor_id start_sequence count compact packet h =
    ground arith

-- For a sensor that exists, a 32-bit sequence, a count within the maximum of the format and a 16-bit
-- request id, `build_history_chunk_request` returns fourteen bytes: a header with the chosen opcode,
-- the request id and the length 6, then a payload that unpacks to the sensor, the sequence and the
-- count.
pub build_history_chunk_request_lem :
    (request_id sensor_id start_sequence count : ℕ) (compact : Bool)
    → IsChunkRequest request_id sensor_id start_sequence count compact
    → (header : List ℕ) × (payload : List ℕ) × (build_history_chunk_request request_id sensor_id
          start_sequence count compact
        ≡ ok (header ++ payload))
      × (length (header ++ payload) ≡ 14)
      × (unpack_layout header_layout header
          ≡ ok (header_values 2 (opcode_number (chunk_opcode compact)) request_id 6 0 0))
      × (unpack_layout history_chunk_request payload
          ≡ ok (chunk_request_values sensor_id start_sequence count))
unfolding build_history_chunk_request chunk_payload le_bytes
build_history_chunk_request_lem request_id sensor_id start_sequence count compact r =
    let payload : List ℕ = chunk_payload sensor_id start_sequence count in
    let packed : pack_layout history_chunk_request
          (chunk_request_values sensor_id start_sequence count)
        ≡ ok payload =
      pack_chunk_payload sensor_id start_sequence count (ground arith) (ground arith)
        (ground arith) in
    let (header, built, long, unpacked) =
      build_request_lem (chunk_opcode compact) request_id payload r.in_16_bits (omega arith) in
    (
      header,
      payload,
      ground (arith, packed, built),
      omega (arith, length-append header payload, long),
      unpacked,
      unpack_layout_ordered history_chunk_request _ _ payload
          (ordered_chunk_values sensor_id start_sequence count) (omega arith) packed,
    )
