-- ===== src/History/Validate.antt =====
-- What `HistorySynchronizer.validate_chunk` of backend/pc_client/history_sync.py accepts.
use ece4880_project.Prelude.{
  ℕ, zero, suc, ◌+◌, ◌%◌, ◌^◌, ◌≤◌, ◌<◌, ◌≡◌, ◌↔◌, refl, ◌∙◌, ◌&&◌, some, List, [], ◌∷◌, arith,
  length, leb, ◌==◌, ==_iff, ok, require, require-eq-ok, >>=-eq-ok, get_elem?, some,
}
use ece4880_project.Protocol.Enums.{get_history_chunk_compact}
use ece4880_project.Protocol.Packet.{Response}
use ece4880_project.Protocol.Decode.{HistoryRecordValue, HistoryChunk, decode_history_chunk}
use ece4880_project.Protocol.Decode.Chunk.{CountsFrom, decode_history_chunk_sound}
use ece4880_project.History.{check_sequences, validate_chunk}

pub check_sequences-CountsFrom :
    (e position : ℕ) (rs : List HistoryRecordValue)
    → e ≡ position % 2 ^ 32
    → CountsFrom position rs
    → check_sequences e rs ≡ ok tt
unfolding check_sequences
check_sequences-CountsFrom e position [] h c = refl
check_sequences-CountsFrom e position (r ∷ rs) h (c, cs) =
    ground (arith, check_sequences-CountsFrom ((e + 1) % 2 ^ 32) (position + 1) rs (omega arith) cs)

pub CountsFrom-check_sequences :
    (e position : ℕ) (rs : List HistoryRecordValue)
    → e ≡ position % 2 ^ 32
    → check_sequences e rs ≡ ok tt
    → CountsFrom position rs
unfolding check_sequences
CountsFrom-check_sequences e position [] h c = tt
CountsFrom-check_sequences e position (r ∷ rs) h c =
    let (_, h₁, k) = >>=-eq-ok (require (r.sequence == e) _) _ c in
    (
      (==_iff _ _).0 (require-eq-ok _ _ h₁) ∙ h,
      CountsFrom-check_sequences ((e + 1) % 2 ^ 32) (position + 1) rs (omega arith) k,
    )

-- The independent reading of an acceptable chunk: record `i` has sequence `start + i`, modulo 2 ^ 32.
pub record Answers (chunk : HistoryChunk) (sensor_id start requested : ℕ) : Type 0 where
  pub same_sensor : chunk.sensor_id ≡ sensor_id
  pub same_start : chunk.start_sequence ≡ start
  pub some_records : 1 ≤ length chunk.records
  pub not_too_many : length chunk.records ≤ requested
  pub counted :
      (i : ℕ) (r : HistoryRecordValue)
      → get_elem? chunk.records i ≡ some r
      → r.sequence ≡ (start + i) % 2 ^ 32

CountsFrom-at :
    (position : ℕ) (rs : List HistoryRecordValue) (i : ℕ) (r : HistoryRecordValue)
    → CountsFrom position rs
    → get_elem? rs i ≡ some r
    → r.sequence ≡ (position + i) % 2 ^ 32
CountsFrom-at position [] i r c h = cc
CountsFrom-at position (x ∷ rs) zero r (c, cs) h = ground arith
CountsFrom-at position (x ∷ rs) (suc i) r (c, cs) h =
    omega (arith, CountsFrom-at (position + 1) rs i r cs h)

at-CountsFrom :
    (position : ℕ) (rs : List HistoryRecordValue)
    → ((i : ℕ) (r : HistoryRecordValue)
        → get_elem? rs i ≡ some r
        → r.sequence ≡ (position + i) % 2 ^ 32)
    → CountsFrom position rs
at-CountsFrom position [] h = tt
at-CountsFrom position (x ∷ rs) h = (
  omega (arith, h 0 x refl),
  at-CountsFrom (position + 1) rs (λ i r e. omega (arith, h (suc i) r e)),
)

-- `validate_chunk` accepts exactly the chunks that answer the request: the sensor and the start that
-- were asked for, at least one record and at most as many as requested, and sequences that count up
-- from the start modulo 2 ^ 32, for a start below 2 ^ 32.
pub validate_chunk_iff :
    (chunk : HistoryChunk) (sensor_id start requested : ℕ)
    → start < 2 ^ 32
    → (validate_chunk chunk sensor_id start requested ≡ ok tt)
      ↔ Answers chunk sensor_id start requested
unfolding validate_chunk
validate_chunk_iff chunk sensor_id start requested h = (forward, backward)
  where
    forward :
        validate_chunk chunk sensor_id start requested ≡ ok tt
        → Answers chunk sensor_id start requested
    forward e =
        let (_, h₁, k₁) =
          >>=-eq-ok (require (chunk.sensor_id == sensor_id && chunk.start_sequence == start) _) _
            e in
        let (_, h₂, k₂) =
          >>=-eq-ok
            (require (leb 1 (length chunk.records) && leb (length chunk.records) requested) _) _
            k₁ in
        let t₁ = require-eq-ok _ _ h₁ in
        let t₂ = require-eq-ok _ _ h₂ in
        record {
          same_sensor = ground (arith, t₁);
          same_start = ground (arith, t₁);
          some_records = ground (arith, t₂);
          not_too_many = ground (arith, t₂);
          counted = λ i r.
              CountsFrom-at start chunk.records i r
                (CountsFrom-check_sequences start start chunk.records (omega arith) k₂);
        }

    backward :
        Answers chunk sensor_id start requested
        → validate_chunk chunk sensor_id start requested ≡ ok tt
    backward a =
        let c =
          check_sequences-CountsFrom start start chunk.records (omega arith)
            (at-CountsFrom start chunk.records a.counted) in
        ground (arith, c, a.same_sensor, a.same_start, a.some_records, a.not_too_many)

-- A chunk that was decoded from the compact format always has continuous sequences: where its start
-- fits 32 bits, it passes if it names the sensor, the start and a count in the range asked for.
pub validate_chunk-decode_history_chunk :
    (response : Response) (chunk : HistoryChunk) (requested : ℕ)
    → response.opcode ≡ get_history_chunk_compact
    → decode_history_chunk response ≡ ok chunk
    → chunk.start_sequence < 2 ^ 32
    → 1 ≤ length chunk.records
    → length chunk.records ≤ requested
    → validate_chunk chunk chunk.sensor_id chunk.start_sequence requested ≡ ok tt
unfolding validate_chunk
validate_chunk-decode_history_chunk response chunk requested o d h lo hi =
    let decoded = decode_history_chunk_sound response chunk d in
    let c =
      check_sequences-CountsFrom chunk.start_sequence chunk.start_sequence chunk.records
        (omega arith) (decoded.counted (rw o)) in
    ground (arith, c)
