-- ===== src/Protocol/Packet/Responses.antt =====
-- What `parse_response` of backend/pc_client/protocol.py accepts.
use Prim.Native.Nat.{bit_and}
use mathlib.Core.Path.{subst}
use ece4880_project.Prelude.{
  ℕ, ◌≤◌, ◌≡◌, ◌≢◌, ◌⊎◌, refl, sym, ap, ◌∙◌, Bool, true, false, not, ◌||◌, ◌&&◌, Option, some, none,
  List, ◌++◌, arith, length, take, drop, ltb, ok, err, >>=-eq-ok, require, refuse, or_raise,
  require-eq-ok, refuse-eq-ok, or_raise-eq-ok, if◌then◌else◌, length-take, take-append-drop, inl,
  inr, ◌==◌,
}
use ece4880_project.Protocol.Enums.{
  Opcode, Status, opcode_number, opcode_of, status_of, same_opcode_refl, same_opcode_eq,
  opcode_of-opcode_number, status_of-status_number, opcode_number-opcode_of,
  status_number-status_of, is_success, status_number, success, is_success_eq,
}
use ece4880_project.Protocol.Error.{protocol_error, device_error}
use ece4880_project.Protocol.Bytes.{le_value}
use ece4880_project.Protocol.Layout.{unpack_layout}
use ece4880_project.Protocol.Config.{header_layout, header_size, response_flag, protocol_version}
use ece4880_project.Protocol.Packet.{
  header_values, Response, parse_response, check_header, differs_opcode, differs_id,
}
use ece4880_project.Protocol.Packet.Requests.{HeaderFits, header_bytes, parse_response-header_bytes}

-- the packet by which a device answers
abbrev pub response_packet : ℕ → Opcode → ℕ → Status → ℕ → List ℕ → List ℕ
response_packet version opcode request_id status flags payload =
    header_bytes version (opcode_number opcode) request_id (length payload) (status_number status)
      flags
    ++ payload

module _ (version : ℕ) (opcode : Opcode) (request_id : ℕ) (status : Status) (flags : ℕ)
    (payload : List ℕ)
    (fits : HeaderFits version
      (opcode_number opcode)
      request_id
      (length payload)
      (status_number status)
      flags)
    (answers : bit_and flags response_flag ≢ 0) where
  -- A packet whose numbers fit its header, marked as a response, in this version and with the opcode
  -- and the request id that are expected, parses into its parts, and raises the device's error, with
  -- its status, unless the status is success or errors are allowed.
  pub parse_response-response_packet :
      (allow_error : Bool)
      → version ≡ protocol_version
      → parse_response
          (response_packet version opcode request_id status flags payload)
          (some opcode)
          (some request_id)
          allow_error
        ≡ (if is_success status || allow_error
            then ok (record {
              version = version;
              opcode = opcode;
              request_id = request_id;
              status = status;
              payload = payload;
            })
            else err (protocol_error device_error (some status)))
  unfolding check_header
  parse_response-response_packet allow v =
      rw (parse_response-header_bytes _ _ _ _ _ _ fits payload _ _ allow) (
        ground (
          arith,
          same_opcode_refl opcode,
          opcode_of-opcode_number opcode,
          status_of-status_number status,
        ))

-- Eight bytes are always a header of six numbers.
unpack_header_total :
    (bs : List ℕ)
    → length bs ≡ header_size
    → (v o i p s f : ℕ) × (unpack_layout header_layout bs ≡ ok (header_values v o i p s f))
unfolding unpack_layout
unpack_header_total bs h = (
  le_value (take 1 bs),
  le_value (take 1 (drop 1 bs)),
  le_value (take 2 (drop 1 (drop 1 bs))),
  le_value (take 2 (drop 2 (drop 1 (drop 1 bs)))),
  le_value (take 1 (drop 2 (drop 2 (drop 1 (drop 1 bs))))),
  le_value (take 1 (drop 1 (drop 2 (drop 2 (drop 1 (drop 1 bs)))))),
  rw h,
)

-- What a response that is returned says of the packet.
pub record IsAccepted (packet : List ℕ) (expected_opcode : Option Opcode)
    (expected_request_id : Option ℕ) (allow_error : Bool) (r : Response) (flags : ℕ) : Type 0 where
  pub header :
      unpack_layout header_layout (take header_size packet)
      ≡ ok (
          header_values r.version
            (opcode_number r.opcode)
            r.request_id
            (length r.payload)
            (status_number r.status)
            flags)
  pub rest : packet ≡ take header_size packet ++ r.payload
  pub marked : bit_and flags response_flag ≢ 0
  pub same_version : r.version ≡ protocol_version
  pub opcode_expected : (expected_opcode ≡ none) ⊎ (expected_opcode ≡ some r.opcode)
  pub id_expected : (expected_request_id ≡ none) ⊎ (expected_request_id ≡ some r.request_id)
  pub succeeded : (r.status ≡ success) ⊎ (allow_error ≡ true)

opcode_expected_lem :
    (eo : Option Opcode) (o : Opcode) → differs_opcode eo o ≡ false → (eo ≡ none) ⊎ (eo ≡ some o)
opcode_expected_lem none o h = inl refl
opcode_expected_lem (some e) o h = inr (ap some (sym (same_opcode_eq o e (ground arith))))

id_expected_lem : (er : Option ℕ) (i : ℕ) → differs_id er i ≡ false → (er ≡ none) ⊎ (er ≡ some i)
id_expected_lem none i h = inl refl
id_expected_lem (some e) i h = inr (ground arith)

record IsChecked (v o i p s f : ℕ) (payload : List ℕ) (eo : Option Opcode) (er : Option ℕ)
    (allow : Bool) (r : Response) : Type 0 where
  version : r.version ≡ v
  opcode : opcode_of o ≡ some r.opcode
  request_id : r.request_id ≡ i
  payload_length : length payload ≡ p
  status : status_of s ≡ some r.status
  same_payload : r.payload ≡ payload
  marked : bit_and f response_flag ≢ 0
  same_version : v ≡ protocol_version
  opcode_expected : differs_opcode eo r.opcode ≡ false
  id_expected : differs_id er r.request_id ≡ false
  succeeded : (is_success r.status ≡ true) ⊎ (allow ≡ true)

allowed : (a b : Bool) → (not a && not b) ≡ false → (a ≡ true) ⊎ (b ≡ true)
allowed true b h = inl refl
allowed false true h = inr refl
allowed false false h = cc

-- The tests that a response has passed, together.
checks :
    (opcode : Opcode) (status : Status) (v o i p s f : ℕ) (payload : List ℕ) (eo : Option Opcode)
    (er : Option ℕ) (allow : Bool)
    → (length payload == p) ≡ true
    → (bit_and f response_flag == 0) ≡ false
    → opcode_of o ≡ some opcode
    → status_of s ≡ some status
    → (v == protocol_version) ≡ true
    → differs_opcode eo opcode ≡ false
    → differs_id er i ≡ false
    → (not (is_success status) && not allow) ≡ false
    → IsChecked v o i p s f payload eo er allow (record {
      version = v;
      opcode = opcode;
      request_id = i;
      status = status;
      payload = payload;
    })
checks opcode status v o i p s f payload eo er allow h₁ h₂ h₃ h₄ h₅ h₆ h₇ h₈ = record {
  version = refl;
  opcode = h₃;
  request_id = refl;
  payload_length = ground arith;
  status = h₄;
  same_payload = refl;
  marked = ground arith;
  same_version = ground arith;
  opcode_expected = h₆;
  id_expected = h₇;
  succeeded = allowed (is_success status) allow h₈;
}

check_header_sound :
    (v o i p s f : ℕ) (payload : List ℕ) (eo : Option Opcode) (er : Option ℕ) (allow : Bool)
    (r : Response)
    → check_header (header_values v o i p s f) payload eo er allow ≡ ok r
    → IsChecked v o i p s f payload eo er allow r
unfolding check_header
check_header_sound v o i p s f payload eo er allow r h =
    let (_, h₁, k₁) = >>=-eq-ok (require (length payload == p) _) _ h in
    let (_, h₂, k₂) = >>=-eq-ok (refuse (bit_and f response_flag == 0) _) _ k₁ in
    let (opcode, h₃, k₃) = >>=-eq-ok (or_raise (opcode_of o) _) _ k₂ in
    let (status, h₄, k₄) = >>=-eq-ok (or_raise (status_of s) _) _ k₃ in
    let (_, h₅, k₅) = >>=-eq-ok (require (v == protocol_version) _) _ k₄ in
    let (_, h₆, k₆) = >>=-eq-ok (refuse (differs_opcode eo opcode) _) _ k₅ in
    let (_, h₇, k₇) = >>=-eq-ok (refuse (differs_id er i) _) _ k₆ in
    let (_, h₈, k₈) = >>=-eq-ok (refuse (not (is_success status) && not allow) _) _ k₇ in
    let checked =
      checks opcode status v o i p s f payload eo er allow (require-eq-ok _ _ h₁)
        (refuse-eq-ok _ _ h₂) (or_raise-eq-ok _ _ h₃) (or_raise-eq-ok _ _ h₄) (require-eq-ok _ _ h₅)
        (refuse-eq-ok _ _ h₆) (refuse-eq-ok _ _ h₇) (refuse-eq-ok _ _ h₈) in
    subst (IsChecked v o i p s f payload eo er allow) (cc) checked

header_of :
    {v o i p s f : ℕ} {payload : List ℕ} {eo : Option Opcode} {er : Option ℕ} {allow : Bool}
    {r : Response}
    → IsChecked v o i p s f payload eo er allow r
    → header_values v o i p s f
      ≡ header_values r.version
          (opcode_number r.opcode)
          r.request_id
          (length r.payload)
          (status_number r.status)
          f
header_of {o = o} {s = s} {r = r} c = cc (
  c.version,
  opcode_number-opcode_of o r.opcode c.opcode,
  c.request_id,
  c.payload_length,
  ap length c.same_payload,
  status_number-status_of s r.status c.status,
)

succeeded_lem :
    (s : Status) (allow : Bool)
    → (is_success s ≡ true) ⊎ (allow ≡ true)
    → (s ≡ success) ⊎ (allow ≡ true)
succeeded_lem s allow (inl h) = inl (is_success_eq s h)
succeeded_lem s allow (inr h) = inr h

-- A response that is returned is what the packet holds: the first eight bytes are its header, with
-- the response flag set, the rest its payload, whose length the header gives. It has this version of
-- the protocol, the opcode and the request id that were expected, and the status success unless
-- errors are allowed.
pub parse_response_sound :
    (packet : List ℕ) (eo : Option Opcode) (er : Option ℕ) (allow : Bool) (r : Response)
    → parse_response packet eo er allow ≡ ok r
    → (flags : ℕ) × IsAccepted packet eo er allow r flags
unfolding parse_response
parse_response_sound packet eo er allow r h =
    let (_, h₁, k₁) = >>=-eq-ok (refuse (ltb (length packet) header_size) _) _ h in
    let long : header_size ≤ length packet = ground (arith, refuse-eq-ok _ _ h₁) in
    let (v, o, i, p, s, f, e) =
      unpack_header_total (take header_size packet)
        (omega (arith, length-take header_size packet)) in
    let (values, h₂, k₂) = >>=-eq-ok (unpack_layout header_layout (take header_size packet)) _ k₁ in
    let checked = check_header_sound v o i p s f (drop header_size packet) eo er allow r (cc) in
    (
      f,
      record {
        header = e ∙ ap ok (header_of checked);
        rest = rw (checked.same_payload, take-append-drop header_size packet);
        marked = checked.marked;
        same_version = checked.version ∙ checked.same_version;
        opcode_expected = opcode_expected_lem eo r.opcode checked.opcode_expected;
        id_expected = id_expected_lem er r.request_id checked.id_expected;
        succeeded = succeeded_lem r.status allow checked.succeeded;
      },
    )
