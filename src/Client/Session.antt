-- ===== src/Client/Session.antt =====
-- The requests of `ThermometerBleClient` in backend/pc_client/thermometer_client.py, over a transport
-- that is a parameter: what a write of a packet and the read of its reply do to the device, and the
-- bytes that come back, or none where either of them raises. The locks are not modelled: a request
-- is one step.
mod Marked
pub mod Silence
pub mod Chunks
use Prim.Native.Nat.{min}
use ece4880_project.Prelude.{
  ℕ, Bool, true, false, not, ◌&&◌, ◌||◌, Option, none, some, List, [], ◌∷◌, if◌then◌else◌, Result,
  ok, err,
}
use ece4880_project.Protocol.Enums.{
  Opcode, Status, invalid_command, auth_begin, auth_prove, reset_bond,
}
use ece4880_project.Protocol.Error.{Error, Fault, protocol_error}
use ece4880_project.Protocol.Packet.{
  Response, validate_passkey, build_request, build_set_display_request,
  build_authentication_proof_request, build_history_chunk_request, chunk_opcode, parse_response,
}
use ece4880_project.Protocol.Decode.{
  CurrentSnapshot, DisplayResult, HistoryMeta, HistoryChunk, AuthenticationChallenge,
  decode_current, decode_display_result, decode_history_meta, decode_history_chunk,
  decode_authentication_challenge, compute_authentication_proof,
}
use ece4880_project.Client.{Client, next_request_id, uses_compact, records_per_chunk}

-- `RuntimeError` by its text, `ValueError` for a passkey that is missing, and what Protocol raises
pub data ClientError : Type 0 where
  not_connected gatt_failed client_closed connection_failed no_passkey : ClientError
  raised : Error → ClientError

pub record Session (D : Type 0) : Type 0 where
  pub device : D
  pub is_connected : Bool
  pub is_closed : Bool
  pub passkey : Option (List ℕ)
  pub mtu_size : ℕ
  pub client : Client

-- What a method returns or raises, with the session that it leaves.
abbrev pub Reply : Type 0 → Type 0 → Type 0
Reply D A = Result ClientError A × Session D

abbrev pub lift : {D A : Type 0} → Result Error A → Session D → Reply D A
lift (ok a) s = (ok a, s)
lift (err e) s = (err (raised e), s)

abbrev pub and_then : {D A B : Type 0} → Reply D A → (A → Session D → Reply D B) → Reply D B
and_then (ok a, s) k = k a s
and_then (err e, s) k = (err e, s)

-- What `connect` meets: `pair` raises, the transport is not opened or lacks the service, or it is open
-- with an MTU.
pub data Link : Type 0 where
  unpaired unopened : Link
  opened : ℕ → Link

pub data Call : Type 0 where
  connects : Bool → Option (List ℕ) → Link → Call
  gets_current gets_history_meta resets_bond disconnects closes : Call
  authenticates : Option (List ℕ) → Call
  sets_display : ℕ → Bool → Call
  gets_history_chunk : ℕ → ℕ → ℕ → Call

abbrev pub is_invalid_command : ClientError → Bool
is_invalid_command (raised (protocol_error fault (some invalid_command))) = true
is_invalid_command _ = false

abbrev pub numbered : {D : Type 0} → Session D → Session D
numbered s = record s { client = next_request_id s.client }

-- `_credential`
unfoldable pub credential : {D : Type 0} → Option (List ℕ) → Session D → Reply D (List ℕ)
credential (some supplied) s =
    and_then (lift (validate_passkey supplied) s) (λ p s'. (ok p, record s' { passkey = some p }))
credential none s = elim s.passkey [ none ↦ (err no_passkey, s) | some p ↦ (ok p, s) ]

-- `disconnect` and `close`
abbrev pub disconnect : {D : Type 0} → Session D → Session D
disconnect s = record s { is_connected = false }

abbrev pub close : {D : Type 0} → Session D → Session D
close s = record s { is_connected = false; is_closed = true }

-- What was raised, without what was returned.
abbrev pub forgotten : {D A : Type 0} → Reply D A → Option ClientError × Session D
forgotten (ok a, s) = (none, s)
forgotten (err e, s) = (some e, s)

-- A connection that is not authenticated is given up.
abbrev pub or_disconnected : {D A : Type 0} → Reply D A → Option ClientError × Session D
or_disconnected (ok a, s) = (none, s)
or_disconnected (err e, s) = (some e, disconnect s)

module _ {D : Type 0} (transport : D → List ℕ → Option (List ℕ) × D) where
  unfoldable pub received : Opcode → ℕ → Option (List ℕ) × D → Session D → Reply D Response
  received opcode request_id (none, device) s =
      (err gatt_failed, record s { device = device; is_connected = false })
  received opcode request_id (some raw, device) s =
      lift (parse_response raw (some opcode) (some request_id) false) (record s { device = device })

  -- `_exchange_packet`
  unfoldable pub exchange_packet : List ℕ → Opcode → ℕ → Session D → Reply D Response
  exchange_packet packet opcode request_id s =
      if not s.is_connected
      then (err not_connected, s)
      else received opcode request_id (transport s.device packet) s

  -- A packet that was built is exchanged.
  abbrev pub sent : Result Error (List ℕ) → Opcode → Session D → Reply D Response
  sent built opcode s =
      and_then (lift built s) (λ packet s'. exchange_packet packet opcode s'.client.request_id s')

  -- `_request`
  unfoldable pub request : Opcode → List ℕ → Session D → Reply D Response
  request opcode payload s =
      let s' = numbered s in sent (build_request opcode s'.client.request_id payload) opcode s'

  unfoldable pub get_current : Session D → Reply D CurrentSnapshot
  get_current s = and_then (request Opcode.get_current [] s) (λ r s'. lift (decode_current r) s')

  unfoldable pub get_history_meta : Session D → Reply D HistoryMeta
  get_history_meta s =
      and_then (request Opcode.get_history_meta [] s) (λ r s'. lift (decode_history_meta r) s')

  unfoldable pub begin_authentication : Session D → Reply D AuthenticationChallenge
  begin_authentication s =
      and_then (request auth_begin [] s) (λ r s'. lift (decode_authentication_challenge r) s')

  unfoldable pub request_bond_reset : Session D → Reply D Response
  request_bond_reset s = request reset_bond [] s

  unfoldable pub set_display : ℕ → Bool → Session D → Reply D DisplayResult
  set_display sensor_id enabled s =
      let s' = numbered s in
      and_then
        (sent (build_set_display_request s'.client.request_id sensor_id enabled) Opcode.set_display
          s')
        (λ r s''. lift (decode_display_result r) s'')

  -- One round of the loop of `get_history_chunk`, up to its reply
  unfoldable pub chunk_attempt : Bool → ℕ → ℕ → ℕ → Session D → Reply D Response
  chunk_attempt compact sensor_id start_sequence count s =
      let s' = numbered s in
      sent
        (build_history_chunk_request s'.client.request_id sensor_id start_sequence
          (min count (records_per_chunk s'.client s'.mtu_size)) compact)
        (chunk_opcode compact) s'

  -- `self._compact_history_supported = …`
  abbrev pub supporting : Bool → Session D → Session D
  supporting compact s = record s {
    client = record s.client { compact_history_supported = some compact };
  }

  abbrev pub chunk_of : Bool → Reply D Response → Reply D HistoryChunk
  chunk_of compact reply =
      and_then reply (λ r s. lift (decode_history_chunk r) (supporting compact s))

  -- Older firmware does not know the compact format.
  unfoldable pub or_plain : ℕ → ℕ → ℕ → Bool → Reply D Response → Reply D HistoryChunk
  or_plain sensor_id start_sequence count compact (ok r, s) = chunk_of compact (ok r, s)
  or_plain sensor_id start_sequence count compact (err e, s) =
      let s' = supporting false s in
      let plain = chunk_of false (chunk_attempt false sensor_id start_sequence count s') in
      if compact && is_invalid_command e then plain else (err e, s)

  unfoldable pub get_history_chunk : ℕ → ℕ → ℕ → Session D → Reply D HistoryChunk
  get_history_chunk sensor_id start_sequence count s =
      let compact = uses_compact s.client.compact_history_supported in
      or_plain sensor_id start_sequence count compact
        (chunk_attempt compact sensor_id start_sequence count s)

  module _ (hmac_sha256 : List ℕ → List ℕ → List ℕ) (domain_separator : List ℕ) where
    -- `authenticate` from the challenge on
    unfoldable pub prove : List ℕ → AuthenticationChallenge → Session D → Reply D Response
    prove key challenge s =
        and_then (lift (compute_authentication_proof hmac_sha256 domain_separator key challenge) s)
          (λ proof s'.
            sent (build_authentication_proof_request (numbered s').client.request_id proof)
              auth_prove (numbered s'))

    unfoldable pub authenticate : Option (List ℕ) → Session D → Reply D Response
    authenticate supplied s =
        and_then (credential supplied s)
          (λ key s'. and_then (begin_authentication s') (λ challenge s''. prove key challenge s''))

    -- `connect` once the credential is known
    unfoldable pub open_link :
        Bool → Option (List ℕ) → Link → Session D → Option ClientError × Session D
    open_link must_authenticate supplied unpaired s = (some connection_failed, s)
    open_link must_authenticate supplied unopened s = (some connection_failed, s)
    open_link false supplied (opened mtu_size) s =
        (none, record s { is_connected = true; mtu_size = mtu_size })
    open_link true supplied (opened mtu_size) s =
        or_disconnected
          (authenticate supplied (record s { is_connected = true; mtu_size = mtu_size }))

    abbrev pub open_with : Bool → Link → Reply D (List ℕ) → Option ClientError × Session D
    open_with must_authenticate link (ok key, s) = open_link must_authenticate (some key) link s
    open_with must_authenticate link (err e, s) = (some e, s)

    unfoldable pub connect :
        Bool → Option (List ℕ) → Link → Session D → Option ClientError × Session D
    connect must_authenticate supplied link s =
        if s.is_closed
        then (some client_closed, s)
        else if s.is_connected
        then (none, s)
        else open_with must_authenticate link (credential supplied s)

    unfoldable pub call : Call → Session D → Option ClientError × Session D
    call (connects must_authenticate supplied link) s = connect must_authenticate supplied link s
    call gets_current s = forgotten (get_current s)
    call gets_history_meta s = forgotten (get_history_meta s)
    call resets_bond s = forgotten (request_bond_reset s)
    call disconnects s = (none, disconnect s)
    call closes s = (none, close s)
    call (authenticates supplied) s = forgotten (authenticate supplied s)
    call (sets_display sensor_id enabled) s = forgotten (set_display sensor_id enabled s)
    call (gets_history_chunk sensor_id start_sequence count) s =
        forgotten (get_history_chunk sensor_id start_sequence count s)

    unfoldable pub run : List Call → Session D → Session D
    run [] s = s
    run (c ∷ cs) s = run cs (call c s).1
