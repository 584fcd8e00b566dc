-- ===== src/Client/Session/Marked.antt =====
-- What a failure of the transport leaves in a session of backend/pc_client/thermometer_client.py.
use ece4880_project.Prelude.{
  ℕ, ◌≡◌, refl, Bool, true, false, not, ◌&&◌, Option, none, some, List, [], if◌then◌else◌, Result,
  ok, err,
}
use ece4880_project.Protocol.Enums.{Opcode, auth_prove}
use ece4880_project.Protocol.Error.{Error}
use ece4880_project.Protocol.Packet.{
  Response, validate_passkey, build_set_display_request, build_authentication_proof_request,
}
use ece4880_project.Protocol.Decode.{
  HistoryChunk, decode_display_result, AuthenticationChallenge, compute_authentication_proof,
}
use ece4880_project.Client.Session.{
  ClientError, Link, unpaired, unopened, opened, or_disconnected, gatt_failed, no_passkey, raised,
  Session, Reply, lift, and_then, forgotten, is_invalid_command, numbered, credential, received,
  exchange_packet, sent, request, get_current, get_history_meta, begin_authentication,
  request_bond_reset, set_display, chunk_attempt, supporting, chunk_of, or_plain, get_history_chunk,
  prove, authenticate, open_link, open_with, connect, call, Call, connects, gets_current,
  gets_history_meta, resets_bond, disconnects, closes, authenticates, sets_display,
  gets_history_chunk,
}

-- A failure of the transport leaves no link.
abbrev IsMarked : {D A : Type 0} → Reply D A → Type 0
IsMarked (ok a, s) = Unit {0}
IsMarked (err gatt_failed, s) = s.is_connected ≡ false
IsMarked (err e, s) = Unit {0}

lift-IsMarked : {D A : Type 0} (r : Result Error A) (s : Session D) → IsMarked (lift r s)
lift-IsMarked (ok a) s = tt
lift-IsMarked (err e) s = tt

and_then-IsMarked :
    {D A B : Type 0} (r : Reply D A) (k : A → Session D → Reply D B)
    → IsMarked r
    → ((a : A) (s : Session D) → IsMarked (k a s))
    → IsMarked (and_then r k)
and_then-IsMarked (ok a, s) k h g = g a s
and_then-IsMarked (err ClientError.not_connected, s) k h g = tt
and_then-IsMarked (err gatt_failed, s) k h g = h
and_then-IsMarked (err ClientError.client_closed, s) k h g = tt
and_then-IsMarked (err ClientError.connection_failed, s) k h g = tt
and_then-IsMarked (err ClientError.no_passkey, s) k h g = tt
and_then-IsMarked (err (raised e), s) k h g = tt

-- Both branches of a test
pub if_both {ℓ κ} :
    {A : Type ℓ} (P : A → Type κ) (b : Bool) (x y : A)
    → (b ≡ true → P x)
    → (b ≡ false → P y)
    → P (if b then x else y)
if_both P true x y h k = h refl
if_both P false x y h k = k refl

credential-IsMarked :
    {D : Type 0} (supplied : Option (List ℕ)) (s : Session D) → IsMarked (credential supplied s)
unfolding credential
credential-IsMarked (some p) s =
    and_then-IsMarked _ _ (lift-IsMarked (validate_passkey p) s) (λ q s'. tt)
credential-IsMarked none s =
    elim s.passkey as (λ o. IsMarked (elim o [ none ↦ (err no_passkey, s) | some p ↦ (ok p, s) ])) [
      | none ↦ tt
      | some p ↦ tt
    ]

module _ {D : Type 0} (transport : D → List ℕ → Option (List ℕ) × D) where
  received-IsMarked :
      (opcode : Opcode) (request_id : ℕ) (r : Option (List ℕ) × D) (s : Session D)
      → IsMarked (received transport opcode request_id r s)
  unfolding received
  received-IsMarked opcode request_id (none, device) s = refl
  received-IsMarked opcode request_id (some raw, device) s = lift-IsMarked _ _

  exchange_packet-IsMarked :
      (packet : List ℕ) (opcode : Opcode) (request_id : ℕ) (s : Session D)
      → IsMarked (exchange_packet transport packet opcode request_id s)
  unfolding exchange_packet
  exchange_packet-IsMarked packet opcode request_id s =
      if_both IsMarked (not s.is_connected) _ _ (λ off. tt)
        (λ on. received-IsMarked opcode request_id (transport s.device packet) s)

  sent-IsMarked :
      (built : Result Error (List ℕ)) (opcode : Opcode) (s : Session D)
      → IsMarked (sent transport built opcode s)
  sent-IsMarked built opcode s =
      and_then-IsMarked _ _ (lift-IsMarked built s)
        (λ packet s'. exchange_packet-IsMarked packet opcode s'.client.request_id s')

  request-IsMarked :
      (opcode : Opcode) (payload : List ℕ) (s : Session D)
      → IsMarked (request transport opcode payload s)
  unfolding request
  request-IsMarked opcode payload s = sent-IsMarked _ opcode (numbered s)

  chunk_attempt-IsMarked :
      (compact : Bool) (sensor_id start_sequence count : ℕ) (s : Session D)
      → IsMarked (chunk_attempt transport compact sensor_id start_sequence count s)
  unfolding chunk_attempt
  chunk_attempt-IsMarked compact sensor_id start_sequence count s = sent-IsMarked _ _ (numbered s)

  chunk_of-IsMarked :
      (compact : Bool) (r : Reply D Response) → IsMarked r → IsMarked (chunk_of transport compact r)
  chunk_of-IsMarked compact r h = and_then-IsMarked r _ h (λ a s. lift-IsMarked _ _)

  or_plain-IsMarked :
      (sensor_id start_sequence count : ℕ) (compact : Bool) (r : Reply D Response)
      → IsMarked r
      → IsMarked (or_plain transport sensor_id start_sequence count compact r)
  unfolding or_plain
  or_plain-IsMarked sensor_id start_sequence count compact (ok r, s) h =
      chunk_of-IsMarked compact (ok r, s) tt
  or_plain-IsMarked sensor_id start_sequence count compact (err e, s) h =
      if_both IsMarked (compact && is_invalid_command e) _ _
        (λ old. chunk_of-IsMarked false _ (
          chunk_attempt-IsMarked false sensor_id start_sequence count
            (supporting transport false s)))
        (λ other. raised_again e s h)
    where
      raised_again :
          (e : ClientError) (s : Session D)
          → IsMarked {A = Response} (err e, s)
          → IsMarked {A = HistoryChunk} (err e, s)
      raised_again ClientError.not_connected s h = tt
      raised_again gatt_failed s h = h
      raised_again ClientError.client_closed s h = tt
      raised_again ClientError.connection_failed s h = tt
      raised_again no_passkey s h = tt
      raised_again (raised e) s h = tt

  set_display-IsMarked :
      (sensor_id : ℕ) (enabled : Bool) (s : Session D)
      → IsMarked (set_display transport sensor_id enabled s)
  unfolding set_display
  set_display-IsMarked sensor_id enabled s =
      let built = build_set_display_request (numbered s).client.request_id sensor_id enabled in
      and_then-IsMarked (sent transport built Opcode.set_display (numbered s)) _
        (sent-IsMarked built Opcode.set_display (numbered s))
        (λ r s'. lift-IsMarked (decode_display_result r) s')

  begin_authentication-IsMarked : (s : Session D) → IsMarked (begin_authentication transport s)
  unfolding begin_authentication
  begin_authentication-IsMarked s =
      and_then-IsMarked _ _ (request-IsMarked _ [] s) (λ r s'. lift-IsMarked _ _)

  module _ (hmac_sha256 : List ℕ → List ℕ → List ℕ) (domain_separator : List ℕ) where
    prove-IsMarked :
        (key : List ℕ) (challenge : AuthenticationChallenge) (s : Session D)
        → IsMarked (prove transport hmac_sha256 domain_separator key challenge s)
    unfolding prove
    prove-IsMarked key challenge s =
        and_then-IsMarked
          (lift (compute_authentication_proof hmac_sha256 domain_separator key challenge) s) _
          (lift-IsMarked (compute_authentication_proof hmac_sha256 domain_separator key challenge)
            s)
          (λ proof s'.
            sent-IsMarked (build_authentication_proof_request (numbered s').client.request_id proof)
              auth_prove (numbered s'))

    authenticate-IsMarked :
        (supplied : Option (List ℕ)) (s : Session D)
        → IsMarked (authenticate transport hmac_sha256 domain_separator supplied s)
    unfolding authenticate
    authenticate-IsMarked supplied s =
        and_then-IsMarked (credential supplied s) _ (credential-IsMarked supplied s) (λ key s'.
          and_then-IsMarked (begin_authentication transport s') _ (begin_authentication-IsMarked s')
            (λ challenge s''. prove-IsMarked key challenge s''))

    abbrev pub IsMarkedCall : Option ClientError × Session D → Type 0
    IsMarkedCall (e, s) = e ≡ some gatt_failed → s.is_connected ≡ false

    forgotten-IsMarked : {A : Type 0} (r : Reply D A) → IsMarked r → IsMarkedCall (forgotten r)
    forgotten-IsMarked (ok a, s) h e = absurd (cc e)
    forgotten-IsMarked (err gatt_failed, s) h e = h
    forgotten-IsMarked (err ClientError.not_connected, s) h e = absurd (cc e)
    forgotten-IsMarked (err ClientError.client_closed, s) h e = absurd (cc e)
    forgotten-IsMarked (err ClientError.connection_failed, s) h e = absurd (cc e)
    forgotten-IsMarked (err no_passkey, s) h e = absurd (cc e)
    forgotten-IsMarked (err (raised x), s) h e = absurd (cc e)

    or_disconnected-IsMarked : {A : Type 0} (r : Reply D A) → IsMarkedCall (or_disconnected r)
    or_disconnected-IsMarked (ok a, s) e = absurd (cc e)
    or_disconnected-IsMarked (err x, s) e = refl

    open_link-IsMarked :
        (must_authenticate : Bool) (supplied : Option (List ℕ)) (link : Link) (s : Session D)
        → IsMarkedCall
            (open_link transport hmac_sha256 domain_separator must_authenticate supplied link s)
    unfolding open_link
    open_link-IsMarked must_authenticate supplied unpaired s e = absurd (cc e)
    open_link-IsMarked must_authenticate supplied unopened s e = absurd (cc e)
    open_link-IsMarked false supplied (opened mtu_size) s e = absurd (cc e)
    open_link-IsMarked true supplied (opened mtu_size) s e =
        or_disconnected-IsMarked (authenticate transport hmac_sha256 domain_separator supplied _) e

    open_with-IsMarked :
        (must_authenticate : Bool) (link : Link) (r : Reply D (List ℕ))
        → IsMarked r
        → IsMarkedCall (open_with transport hmac_sha256 domain_separator must_authenticate link r)
    open_with-IsMarked must_authenticate link (ok key, s) h =
        open_link-IsMarked must_authenticate (some key) link s
    open_with-IsMarked must_authenticate link (err x, s) h =
        forgotten-IsMarked {A = List ℕ} (err x, s) h

    pub call-IsMarked :
        (c : Call) (s : Session D) → IsMarkedCall (call transport hmac_sha256 domain_separator c s)
    unfolding call connect get_current get_history_meta request_bond_reset get_history_chunk
    call-IsMarked (connects must_authenticate supplied link) s =
        if_both IsMarkedCall s.is_closed _ _ (λ a e. absurd (cc e))
          (λ b.
            if_both IsMarkedCall s.is_connected _ _ (λ a e. absurd (cc e))
              (λ d. open_with-IsMarked must_authenticate link _ (credential-IsMarked supplied s)))
    call-IsMarked gets_current s =
        forgotten-IsMarked _
          (and_then-IsMarked _ _ (request-IsMarked _ [] s) (λ r s'. lift-IsMarked _ _))
    call-IsMarked gets_history_meta s =
        forgotten-IsMarked _
          (and_then-IsMarked _ _ (request-IsMarked _ [] s) (λ r s'. lift-IsMarked _ _))
    call-IsMarked resets_bond s = forgotten-IsMarked _ (request-IsMarked _ [] s)
    call-IsMarked disconnects s = λ e. refl
    call-IsMarked closes s = λ e. refl
    call-IsMarked (authenticates supplied) s =
        forgotten-IsMarked _ (authenticate-IsMarked supplied s)
    call-IsMarked (sets_display sensor_id enabled) s =
        forgotten-IsMarked _ (set_display-IsMarked sensor_id enabled s)
    call-IsMarked (gets_history_chunk sensor_id start_sequence count) s = forgotten-IsMarked _ (
        or_plain-IsMarked sensor_id start_sequence count _ _
          (chunk_attempt-IsMarked _ sensor_id start_sequence count s))
