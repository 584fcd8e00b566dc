-- ===== src/Client.antt =====
-- backend/pc_client/thermometer_client.py: the request ids of `ThermometerBleClient` and the number of
-- history records that it asks for. The MTU that the transport reports is an argument.
pub mod Session
use Prim.Native.Nat.{min, max}
use ece4880_project.Prelude.{
  ℕ, ◌+◌, ◌-◌, ◌*◌, ◌/◌, ◌%◌, ◌^◌, ◌≤◌, ◌≡◌, Bool, true, false, Option, some, List, ◌++◌, length,
  Result, ok, arith,
}
use ece4880_project.Protocol.Error.{Error}
use ece4880_project.Protocol.Layout.{struct_size}
use ece4880_project.Protocol.Config.{header_size, prefix_size, sensor_count}
use ece4880_project.Protocol.Packet.{chunk_maximum, build_history_chunk_request}
use ece4880_project.Protocol.Packet.Requests.{build_history_chunk_request_lem}
use ece4880_project.Protocol.Decode.{record_layout}

-- `_request_id` and `_compact_history_supported`
pub record Client : Type 0 where
  pub request_id : ℕ
  pub compact_history_supported : Option Bool

unfoldable pub next_request_id : Client → Client
next_request_id c = record c { request_id = (c.request_id + 1) % 2 ^ 16 }

-- `is not False`
abbrev pub uses_compact : Option Bool → Bool
uses_compact (some false) = false
uses_compact _ = true

-- Where the capacity is below the overhead, Python's quotient is negative and here it is 0: the
-- maximum with 1 is the same.
unfoldable pub records_per_chunk : Client → ℕ → ℕ
records_per_chunk c mtu_size =
    let compact = uses_compact c.compact_history_supported in
    let mtu_count =
      (mtu_size - 1 - (header_size + prefix_size)) / struct_size (record_layout compact) in
    max 1 (min (chunk_maximum compact) mtu_count)

-- The packet that `get_history_chunk` sends first.
unfoldable pub chunk_request : Client → ℕ → ℕ → ℕ → ℕ → Result Error (List ℕ)
chunk_request c mtu_size sensor_id start_sequence count =
    build_history_chunk_request (next_request_id c).request_id sensor_id start_sequence
      (min count (records_per_chunk c mtu_size)) (uses_compact c.compact_history_supported)

-- The number of records that a chunk is asked for is between 1 and the maximum of the format for
-- every MTU; and the response that carries that many records fits into the MTU, with one byte for the
-- ATT opcode, wherever the response with one record does.
pub records_per_chunk_fits :
    (c : Client) (mtu_size : ℕ)
    → (1 ≤ records_per_chunk c mtu_size)
      × (records_per_chunk c mtu_size ≤ chunk_maximum (uses_compact c.compact_history_supported))
      × (1
            + header_size
            + prefix_size
            + records_per_chunk c mtu_size
              * struct_size (record_layout (uses_compact c.compact_history_supported))
          ≤ max mtu_size (
              1
              + header_size
              + prefix_size
              + struct_size (record_layout (uses_compact c.compact_history_supported))))
unfolding records_per_chunk
records_per_chunk_fits c mtu_size = by_format (uses_compact c.compact_history_supported)
  where
    by_format :
        (compact : Bool)
        → (1
            ≤ max 1 (
                min (chunk_maximum compact) (
                  (mtu_size - 1 - (header_size + prefix_size))
                  / struct_size (record_layout compact))))
          × (max 1 (
                min (chunk_maximum compact) (
                  (mtu_size - 1 - (header_size + prefix_size))
                  / struct_size (record_layout compact)))
              ≤ chunk_maximum compact)
          × (1
                + header_size
                + prefix_size
                + max 1 (
                    min (chunk_maximum compact) (
                      (mtu_size - 1 - (header_size + prefix_size))
                      / struct_size (record_layout compact)))
                  * struct_size (record_layout compact)
              ≤ max mtu_size (1 + header_size + prefix_size + struct_size (record_layout compact)))
    by_format true = omega arith
    by_format false = omega arith

-- For a sensor that exists, a 32-bit start and at least one record, the client always builds its
-- request, whatever the MTU and however many requests there were: it is a packet of fourteen bytes.
pub chunk_request_succeeds :
    (c : Client) (mtu_size sensor_id start_sequence count : ℕ)
    → (1 ≤ sensor_id) × (sensor_id ≤ sensor_count)
    → start_sequence ≤ 0xFFFFFFFF
    → 1 ≤ count
    → (packet : List ℕ) × (chunk_request c mtu_size sensor_id start_sequence count ≡ ok packet)
      × (length packet ≡ 14)
unfolding chunk_request next_request_id
chunk_request_succeeds c mtu_size sensor_id start_sequence count exists start some_records =
    let compact = uses_compact c.compact_history_supported in
    let (low, high, fits) = records_per_chunk_fits c mtu_size in
    let (header, payload, built, long, _, _) =
      build_history_chunk_request_lem ((c.request_id + 1) % 2 ^ 16) sensor_id start_sequence
        (min count (records_per_chunk c mtu_size)) compact
        (record {
          some_sensor = exists;
          in_32_bits = start;
          some_records = omega (arith, low, high);
          in_16_bits = omega arith;
        }) in
    (header ++ payload, built, long)
