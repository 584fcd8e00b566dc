-- ===== src/Examples/Requester.antt =====
-- The client with the MTU of 247 bytes that the configuration prefers.
use ece4880_project.Prelude.{ℕ, ◌+◌, ◌*◌, ◌≤◌, ◌≡◌, none, List, length, ok, arith}
use ece4880_project.Client.{
  Client, records_per_chunk, chunk_request, records_per_chunk_fits, chunk_request_succeeds,
}

-- The next request id is 0.
abbrev fresh_client : Client
fresh_client = record { request_id = 0xFFFF; compact_history_supported = none }

records_per_chunk_fits_example :
    (1 ≤ records_per_chunk fresh_client 247)
    × (records_per_chunk fresh_client 247 ≤ 72)
    × (1 + 8 + 7 + records_per_chunk fresh_client 247 * 3 ≤ 247)
records_per_chunk_fits_example = records_per_chunk_fits fresh_client 247

chunk_request_succeeds_example :
    (packet : List ℕ) × (chunk_request fresh_client 247 1 258 72 ≡ ok packet) × (length packet ≡ 14)
chunk_request_succeeds_example =
    chunk_request_succeeds fresh_client 247 1 258 72 (omega arith) (omega arith) (omega arith)
