-- ===== src/Client/Session/Silence.antt =====
-- A session of backend/pc_client/thermometer_client.py without a link.
use ece4880_project.Prelude.{
  ℕ, ◌≡◌, refl, Bool, true, false, not, ◌&&◌, Option, none, some, List, [], ◌∷◌, Result, ok, err,
  arith,
}
use ece4880_project.Protocol.Enums.{Opcode, auth_begin, auth_prove, reset_bond}
use ece4880_project.Protocol.Error.{Error}
use ece4880_project.Protocol.Packet.{
  Response, build_request, validate_passkey, build_set_display_request,
  build_authentication_proof_request,
}
use ece4880_project.Protocol.Decode.{
  decode_history_chunk, decode_current, decode_history_meta, decode_authentication_challenge,
  decode_display_result, AuthenticationChallenge, compute_authentication_proof,
}
use ece4880_project.Client.Session.Marked.{if_both, call-IsMarked}
use ece4880_project.Client.Session.{
  ClientError, Link, gatt_failed, no_passkey, Session, Reply, lift, and_then, forgotten,
  is_invalid_command, numbered, credential, exchange_packet, sent, request, get_current,
  get_history_meta, begin_authentication, request_bond_reset, set_display, chunk_attempt,
  supporting, chunk_of, or_plain, get_history_chunk, prove, authenticate, connect, call, run, Call,
  connects, gets_current, gets_history_meta, resets_bond, disconnects, closes, authenticates,
  sets_display, gets_history_chunk,
}

-- A connection is asked for only of a client that has been closed.
abbrev pub IsPermitted : Bool → Call → Type 0
IsPermitted is_closed (connects must_authenticate supplied link) = is_closed ≡ true
IsPermitted is_closed _ = Unit {0}

abbrev pub AllPermitted : Bool → List Call → Type 0
AllPermitted is_closed [] = Unit {0}
AllPermitted is_closed (c ∷ cs) = IsPermitted is_closed c × AllPermitted is_closed cs

-- No link, and the device as it was; closed, if it was
abbrev pub IsSilent : {D : Type 0} → D → Bool → Session D → Type 0
IsSilent d is_closed s =
    (s.is_connected ≡ false) × (s.device ≡ d) × (is_closed ≡ true → s.is_closed ≡ true)

abbrev IsSilentReply : {D A : Type 0} → D → Bool → Reply D A → Type 0
IsSilentReply d c (r, s) = IsSilent d c s

module _ {D : Type 0} (d : D) (c : Bool) where
  lift-IsSilent :
      {A : Type 0} (r : Result Error A) (s : Session D)
      → IsSilent d c s
      → IsSilentReply d c (lift r s)
  lift-IsSilent (ok a) s h = h
  lift-IsSilent (err e) s h = h

  and_then-IsSilent :
      {A B : Type 0} (r : Reply D A) (k : A → Session D → Reply D B)
      → IsSilentReply d c r
      → ((a : A) (s : Session D) → IsSilent d c s → IsSilentReply d c (k a s))
      → IsSilentReply d c (and_then r k)
  and_then-IsSilent (ok a, s) k h g = g a s h
  and_then-IsSilent (err e, s) k h g = h

  credential-IsSilent :
      (supplied : Option (List ℕ)) (s : Session D)
      → IsSilent d c s
      → IsSilentReply d c (credential supplied s)
  unfolding credential
  credential-IsSilent (some p) s h =
      and_then-IsSilent (lift (validate_passkey p) s) _ (lift-IsSilent (validate_passkey p) s h)
        (λ q s' g. g)
  credential-IsSilent none s h =
      elim s.passkey
        as (λ o. IsSilentReply d c (elim o [ none ↦ (err no_passkey, s) | some p ↦ (ok p, s) ])) [
          | none ↦ h
          | some p ↦ h
        ]

  module _ (transport : D → List ℕ → Option (List ℕ) × D) where
    exchange_packet-IsSilent :
        (packet : List ℕ) (opcode : Opcode) (request_id : ℕ) (s : Session D)
        → IsSilent d c s
        → IsSilentReply d c (exchange_packet transport packet opcode request_id s)
    unfolding exchange_packet
    exchange_packet-IsSilent packet opcode request_id s h =
        if_both (IsSilentReply d c) (not s.is_connected) _ _ (λ off. h)
          (λ on. absurd (off_and_on s.is_connected h.0 on))
      where
        off_and_on : (b : Bool) → b ≡ false → not b ≡ false → ⊥
        off_and_on b h k = ground arith

    sent-IsSilent :
        (built : Result Error (List ℕ)) (opcode : Opcode) (s : Session D)
        → IsSilent d c s
        → IsSilentReply d c (sent transport built opcode s)
    sent-IsSilent built opcode s h =
        and_then-IsSilent (lift built s) _ (lift-IsSilent built s h)
          (λ packet s' g. exchange_packet-IsSilent packet opcode s'.client.request_id s' g)

    request-IsSilent :
        (opcode : Opcode) (payload : List ℕ) (s : Session D)
        → IsSilent d c s
        → IsSilentReply d c (request transport opcode payload s)
    unfolding request
    request-IsSilent opcode payload s h =
        sent-IsSilent (build_request opcode (numbered s).client.request_id payload) opcode
          (numbered s) h

    chunk_attempt-IsSilent :
        (compact : Bool) (sensor_id start_sequence count : ℕ) (s : Session D)
        → IsSilent d c s
        → IsSilentReply d c (chunk_attempt transport compact sensor_id start_sequence count s)
    unfolding chunk_attempt
    chunk_attempt-IsSilent compact sensor_id start_sequence count s h =
        sent-IsSilent _ _ (numbered s) h

    chunk_of-IsSilent :
        (compact : Bool) (r : Reply D Response)
        → IsSilentReply d c r
        → IsSilentReply d c (chunk_of transport compact r)
    chunk_of-IsSilent compact r h =
        and_then-IsSilent r _ h (λ a s g. lift-IsSilent (decode_history_chunk a) _ g)

    or_plain-IsSilent :
        (sensor_id start_sequence count : ℕ) (compact : Bool) (r : Reply D Response)
        → IsSilentReply d c r
        → IsSilentReply d c (or_plain transport sensor_id start_sequence count compact r)
    unfolding or_plain
    or_plain-IsSilent sensor_id start_sequence count compact (ok r, s) h =
        chunk_of-IsSilent compact (ok r, s) h
    or_plain-IsSilent sensor_id start_sequence count compact (err e, s) h =
        if_both (IsSilentReply d c) (compact && is_invalid_command e) _ _
          (λ old. chunk_of-IsSilent false _ (
            chunk_attempt-IsSilent false sensor_id start_sequence count
              (supporting transport false s) h))
          (λ other. h)

    set_display-IsSilent :
        (sensor_id : ℕ) (enabled : Bool) (s : Session D)
        → IsSilent d c s
        → IsSilentReply d c (set_display transport sensor_id enabled s)
    unfolding set_display
    set_display-IsSilent sensor_id enabled s h =
        let built = build_set_display_request (numbered s).client.request_id sensor_id enabled in
        and_then-IsSilent (sent transport built Opcode.set_display (numbered s)) _
          (sent-IsSilent built Opcode.set_display (numbered s) h)
          (λ r s' g. lift-IsSilent (decode_display_result r) s' g)

    begin_authentication-IsSilent :
        (s : Session D) → IsSilent d c s → IsSilentReply d c (begin_authentication transport s)
    unfolding begin_authentication
    begin_authentication-IsSilent s h =
        and_then-IsSilent (request transport auth_begin [] s) _ (request-IsSilent auth_begin [] s h)
          (λ r s' g. lift-IsSilent (decode_authentication_challenge r) s' g)

    module _ (hmac_sha256 : List ℕ → List ℕ → List ℕ) (domain_separator : List ℕ) where
      prove-IsSilent :
          (key : List ℕ) (challenge : AuthenticationChallenge) (s : Session D)
          → IsSilent d c s
          → IsSilentReply d c (prove transport hmac_sha256 domain_separator key challenge s)
      unfolding prove
      prove-IsSilent key challenge s h =
          let proof = compute_authentication_proof hmac_sha256 domain_separator key challenge in
          and_then-IsSilent (lift proof s) _ (lift-IsSilent proof s h) (λ proof s' g.
            sent-IsSilent (build_authentication_proof_request (numbered s').client.request_id proof)
              auth_prove (numbered s') g)

      authenticate-IsSilent :
          (supplied : Option (List ℕ)) (s : Session D)
          → IsSilent d c s
          → IsSilentReply d c (authenticate transport hmac_sha256 domain_separator supplied s)
      unfolding authenticate
      authenticate-IsSilent supplied s h =
          and_then-IsSilent (credential supplied s) _ (credential-IsSilent supplied s h)
            (λ key s' g.
              and_then-IsSilent (begin_authentication transport s') _
                (begin_authentication-IsSilent s' g)
                (λ challenge s'' k. prove-IsSilent key challenge s'' k))

      forgotten-IsSilent :
          {A : Type 0} (r : Reply D A) → IsSilentReply d c r → IsSilent d c (forgotten r).1
      forgotten-IsSilent (ok a, s) h = h
      forgotten-IsSilent (err e, s) h = h

      connect-IsSilent :
          (must_authenticate : Bool) (supplied : Option (List ℕ)) (link : Link) (s : Session D)
          → c ≡ true
          → IsSilent d c s
          → IsSilent d c
              (connect transport hmac_sha256 domain_separator must_authenticate supplied link s).1
      unfolding connect
      connect-IsSilent must_authenticate supplied link s e h =
          if_both {A = Option ClientError × Session D} (λ r. IsSilent d c r.1) s.is_closed _ _
            (λ closed. h) (λ usable. absurd (closed_and_open s.is_closed (h.2 e) usable))
        where
          closed_and_open : (b : Bool) → b ≡ true → b ≡ false → ⊥
          closed_and_open b h k = ground arith

      call-IsSilent :
          (a : Call) (s : Session D)
          → IsPermitted c a
          → IsSilent d c s
          → IsSilent d c (call transport hmac_sha256 domain_separator a s).1
      unfolding call get_current get_history_meta request_bond_reset get_history_chunk
      call-IsSilent (connects must_authenticate supplied link) s p h =
          connect-IsSilent must_authenticate supplied link s p h
      call-IsSilent gets_current s p h = forgotten-IsSilent _ (
          and_then-IsSilent (request transport Opcode.get_current [] s) _
            (request-IsSilent Opcode.get_current [] s h)
            (λ r s' g. lift-IsSilent (decode_current r) s' g))
      call-IsSilent gets_history_meta s p h = forgotten-IsSilent _ (
          and_then-IsSilent (request transport Opcode.get_history_meta [] s) _
            (request-IsSilent Opcode.get_history_meta [] s h)
            (λ r s' g. lift-IsSilent (decode_history_meta r) s' g))
      call-IsSilent resets_bond s p h = forgotten-IsSilent _ (request-IsSilent reset_bond [] s h)
      call-IsSilent disconnects s p h = (refl, h.1, h.2)
      call-IsSilent closes s p h = (refl, h.1, λ e. refl)
      call-IsSilent (authenticates supplied) s p h =
          forgotten-IsSilent _ (authenticate-IsSilent supplied s h)
      call-IsSilent (sets_display sensor_id enabled) s p h =
          forgotten-IsSilent _ (set_display-IsSilent sensor_id enabled s h)
      call-IsSilent (gets_history_chunk sensor_id start_sequence count) s p h =
          forgotten-IsSilent _ (
            or_plain-IsSilent sensor_id start_sequence count _ _
              (chunk_attempt-IsSilent _ sensor_id start_sequence count s h))

      run-IsSilent :
          (cs : List Call) (s : Session D)
          → AllPermitted c cs
          → IsSilent d c s
          → IsSilent d c (run transport hmac_sha256 domain_separator cs s)
      unfolding run
      run-IsSilent [] s p h = h
      run-IsSilent (a ∷ cs) s (p, ps) h = run-IsSilent cs _ ps (call-IsSilent a s p h)

-- After a call that raised because a write or a read had failed, whatever the transport does and
-- whatever else is called, until a client that was not closed is connected again, nothing more is
-- sent to the device: it stays as it was, and there is no link.
pub call-IsSilent_after_failure :
    {D : Type 0} (transport : D → List ℕ → Option (List ℕ) × D)
    (hmac_sha256 : List ℕ → List ℕ → List ℕ) (domain_separator : List ℕ) (s : Session D)
    (failed : Call) (cs : List Call)
    → (call transport hmac_sha256 domain_separator failed s).0 ≡ some gatt_failed
    → AllPermitted (call transport hmac_sha256 domain_separator failed s).1.is_closed cs
    → let s' = (call transport hmac_sha256 domain_separator failed s).1 in
      IsSilent s'.device s'.is_closed (run transport hmac_sha256 domain_separator cs s')
call-IsSilent_after_failure transport hmac_sha256 domain_separator s failed cs e ps =
    let s' = (call transport hmac_sha256 domain_separator failed s).1 in
    run-IsSilent s'.device s'.is_closed transport hmac_sha256 domain_separator cs s' ps
      (call-IsMarked transport hmac_sha256 domain_separator failed s e, refl, λ h. h)
