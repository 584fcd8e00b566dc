-- ===== src/Client/Session/Chunks.antt =====
-- What `get_history_chunk` of backend/pc_client/thermometer_client.py returns.
use Prim.Native.Nat.{min}
use ece4880_project.Prelude.{
  ℕ, ◌≡◌, ◌⊎◌, refl, Bool, true, false, not, ◌&&◌, Option, none, some, List, if◌then◌else◌, Result,
  ok, err, inl, inr,
}
use ece4880_project.Protocol.Enums.{Opcode}
use ece4880_project.Protocol.Error.{Error}
use ece4880_project.Protocol.Packet.{
  Response, build_history_chunk_request, chunk_opcode, parse_response,
}
use ece4880_project.Protocol.Decode.{HistoryChunk, decode_history_chunk}
use ece4880_project.Client.{Client, next_request_id, records_per_chunk, uses_compact}
use ece4880_project.Client.Session.{
  ClientError, Session, Reply, lift, and_then, is_invalid_command, numbered, received,
  exchange_packet, sent, chunk_attempt, supporting, chunk_of, or_plain, get_history_chunk,
}

if_sound {ℓ} : {A : Type ℓ} (b : Bool) (x y z : A) → (if b then x else y) ≡ z → (x ≡ z) ⊎ (y ≡ z)
if_sound true x y z e = inl e
if_sound false x y z e = inr e

lift_sound :
    {D A : Type 0} (r : Result Error A) (s s' : Session D) (a : A)
    → lift r s ≡ (ok a, s')
    → (r ≡ ok a) × (s' ≡ s)
lift_sound (ok b) s s' a e = (cc e, cc e)
lift_sound (err x) s s' a e = absurd (cc e)

and_then_sound :
    {D A B : Type 0} (r : Reply D A) (k : A → Session D → Reply D B) (b : B) (s' : Session D)
    → and_then r k ≡ (ok b, s')
    → (a : A) × (s : Session D) × (r ≡ (ok a, s)) × (k a s ≡ (ok b, s'))
and_then_sound (ok a, s) k b s' e = (a, s, refl, e)
and_then_sound (err x, s) k b s' e = absurd (cc e)

module _ {D : Type 0} (transport : D → List ℕ → Option (List ℕ) × D) where
  received_sound :
      (opcode : Opcode) (n : ℕ) (t : Option (List ℕ) × D) (s s' : Session D) (r : Response)
      → received transport opcode n t s ≡ (ok r, s')
      → (raw : List ℕ) × (t.0 ≡ some raw)
        × (parse_response raw (some opcode) (some n) false ≡ ok r)
        × (s' ≡ record s { device = t.1 })
  unfolding received
  received_sound opcode n (none, device) s s' r e = absurd (cc e)
  received_sound opcode n (some raw, device) s s' r e =
      let (p, q) = lift_sound (parse_response raw (some opcode) (some n) false) _ s' r e in
      (raw, refl, p, q)

  exchange_packet_sound :
      (packet : List ℕ) (opcode : Opcode) (n : ℕ) (s s' : Session D) (r : Response)
      → exchange_packet transport packet opcode n s ≡ (ok r, s')
      → (s.is_connected ≡ true)
        × ((raw : List ℕ) × ((transport s.device packet).0 ≡ some raw)
            × (parse_response raw (some opcode) (some n) false ≡ ok r)
            × (s' ≡ record s { device = (transport s.device packet).1 }))
  unfolding exchange_packet
  exchange_packet_sound packet opcode n s s' r e = by_link s.is_connected refl e
    where
      by_link :
          (b : Bool)
          → s.is_connected ≡ b
          → (if not b
              then (err ClientError.not_connected, s)
              else received transport opcode n (transport s.device packet) s)
            ≡ (ok r, s')
          → (s.is_connected ≡ true)
            × ((raw : List ℕ) × ((transport s.device packet).0 ≡ some raw)
                × (parse_response raw (some opcode) (some n) false ≡ ok r)
                × (s' ≡ record s { device = (transport s.device packet).1 }))
      by_link true h e = (h, received_sound opcode n (transport s.device packet) s s' r e)
      by_link false h e = absurd (cc e)

  sent_sound :
      (built : Result Error (List ℕ)) (opcode : Opcode) (s s' : Session D) (r : Response)
      → sent transport built opcode s ≡ (ok r, s')
      → (packet : List ℕ) × (raw : List ℕ) × (built ≡ ok packet)
        × (s.is_connected ≡ true)
        × ((transport s.device packet).0 ≡ some raw)
        × (parse_response raw (some opcode) (some s.client.request_id) false ≡ ok r)
        × (s' ≡ record s { device = (transport s.device packet).1 })
  sent_sound (ok packet) opcode s s' r e =
      let (linked, (raw, got, parsed, left)) =
        exchange_packet_sound packet opcode s.client.request_id s s' r e in
      (packet, raw, refl, linked, got, parsed, left)
  sent_sound (err x) opcode s s' r e = absurd (cc e)

-- A chunk is what the device has answered, over a link that stands, to the last request that was sent:
-- in one of the two formats, which the session remembers, for what the caller asked, with a count
-- that the MTU allows in that format.
pub record IsAnswer {D : Type 0} (transport : D → List ℕ → Option (List ℕ) × D)
    (sensor_id start_sequence count : ℕ) (chunk : HistoryChunk) (s' : Session D) : Type 0 where
  pub compact : Bool
  pub before : Session D
  pub packet : List ℕ
  pub raw : List ℕ
  pub response : Response
  pub built :
      build_history_chunk_request s'.client.request_id sensor_id start_sequence
        (min count (records_per_chunk s'.client s'.mtu_size))
        compact
      ≡ ok packet
  pub linked : before.is_connected ≡ true
  pub received : (transport before.device packet).0 ≡ some raw
  pub parsed :
      parse_response raw (some (chunk_opcode compact)) (some s'.client.request_id) false
      ≡ ok response
  pub decoded : decode_history_chunk response ≡ ok chunk
  pub left : s' ≡ record before {
    device = (transport before.device packet).1;
    client = record before.client { compact_history_supported = some compact };
  }

-- How many records fit is told by the format that the client uses.
records_per_chunk-remembered :
    (c : Client) (mtu_size : ℕ) (compact : Bool)
    → uses_compact c.compact_history_supported ≡ compact
    → records_per_chunk (record c { compact_history_supported = some compact }) mtu_size
      ≡ records_per_chunk c mtu_size
unfolding records_per_chunk
records_per_chunk-remembered c mtu_size true u = rw u refl
records_per_chunk-remembered c mtu_size false u = rw u refl

module _ {D : Type 0} (transport : D → List ℕ → Option (List ℕ) × D)
    (sensor_id start_sequence count : ℕ) where
  chunk_of_sound :
      (compact : Bool) (s s' : Session D) (chunk : HistoryChunk)
      → uses_compact s.client.compact_history_supported ≡ compact
      → chunk_of transport compact
          (chunk_attempt transport compact sensor_id start_sequence count s)
        ≡ (ok chunk, s')
      → IsAnswer transport sensor_id start_sequence count chunk s'
  unfolding chunk_attempt next_request_id
  chunk_of_sound compact s s' chunk u e =
      let built =
        build_history_chunk_request (numbered s).client.request_id sensor_id start_sequence
          (min count (records_per_chunk (numbered s).client s.mtu_size)) compact in
      let (r, s₁, attempted, d) =
        and_then_sound (sent transport built (chunk_opcode compact) (numbered s)) _ chunk s' e in
      let (packet, raw, made, linked, got, parsed, left) =
        sent_sound transport built (chunk_opcode compact) (numbered s) s₁ r attempted in
      let (decoded, last) =
        lift_sound (decode_history_chunk r) (supporting transport compact s₁) s' chunk d in
      let counted = records_per_chunk-remembered (numbered s).client s.mtu_size compact u in
      rw (last, left)
        (record {
          compact = compact;
          before = numbered s;
          packet = packet;
          raw = raw;
          response = r;
          built = rw counted made;
          linked = linked;
          received = got;
          parsed = parsed;
          decoded = decoded;
          left = refl;
        })

  or_plain_sound :
      (compact : Bool) (s s' : Session D) (chunk : HistoryChunk) (t : Reply D Response)
      → uses_compact s.client.compact_history_supported ≡ compact
      → t ≡ chunk_attempt transport compact sensor_id start_sequence count s
      → or_plain transport sensor_id start_sequence count compact t ≡ (ok chunk, s')
      → IsAnswer transport sensor_id start_sequence count chunk s'
  unfolding or_plain
  or_plain_sound compact s s' chunk (ok r, s₁) u h e =
      chunk_of_sound compact s s' chunk u (rw⁻¹ h e)
  or_plain_sound compact s s' chunk (err x, s₁) u h e =
      elim (if_sound (compact && is_invalid_command x) _ _ _ e) [
        | inl plain ↦ chunk_of_sound false (supporting transport false s₁) s' chunk refl plain
        | inr raises ↦ absurd (cc raises)
      ]

-- A chunk that `get_history_chunk` returns, whatever the transport does, is what the device has
-- answered, over a link that stood, to the last request that was sent for it: for the sensor and the
-- start that were asked for, with the request id, the opcode and at most the count of the format that
-- the client then remembers.
pub get_history_chunk_sound :
    {D : Type 0} (transport : D → List ℕ → Option (List ℕ) × D) (sensor_id start_sequence count : ℕ)
    (s s' : Session D) (chunk : HistoryChunk)
    → get_history_chunk transport sensor_id start_sequence count s ≡ (ok chunk, s')
    → IsAnswer transport sensor_id start_sequence count chunk s'
unfolding get_history_chunk
get_history_chunk_sound transport sensor_id start_sequence count s s' chunk e =
    or_plain_sound transport sensor_id start_sequence count
      (uses_compact s.client.compact_history_supported) s s' chunk _ refl refl e
