-- ===== src/Protocol/Decode/Chunk.antt =====
-- What `decode_history_chunk` of backend/pc_client/protocol.py returns.
use mathlib.Core.Path.{subst}
use native.Mathlib.Nat.{add_assoc, add-zero, zero-add, suc-add}
use ece4880_project.Prelude.{
  ℕ, zero, suc, ◌+◌, ◌*◌, ◌%◌, ◌^◌, ◌≤◌, ◌≡◌, ◌≢◌, ◌↔◌, ◌⊎◌, refl, sym, ap, ◌∙◌, Bool, true, false,
  ◌||◌, Option, some, none, or_raise, or_raise-eq-ok, List, [], ◌∷◌, arith, length, take, drop, ok,
  >>=-eq-ok, require-eq-ok, of_ok, require, refuse, ltb, ◌==◌, ==_iff,
}
use ece4880_project.Prelude.Int.{pos, negsuc}
use ece4880_project.Protocol.Enums.{
  Opcode, DataStatus, get_history_chunk, get_history_chunk_compact, valid, same_opcode,
  data_status_number, data_status_of,
}
use ece4880_project.Protocol.Layout.{Value, Values, int, blob, lookup, struct_size, unpack_layout}
use ece4880_project.Protocol.Config.{history_chunk_prefix, prefix_size, sensor_count}
use ece4880_project.Protocol.Packet.{Response, nat, as_nat, nat_field, validate_sensor_id}
use ece4880_project.Protocol.Decode.{
  HistoryRecordValue, HistoryChunk, Centi, decode_record, decode_records, decode_history_chunk,
  kept_temperature, record_layout, as_protocol_error, record_sequence, int_field, as_int,
}

-- A record has a temperature exactly where its status is VALID.
abbrev pub IsKept : HistoryRecordValue → Type 0
IsKept r = (r.temperature_c ≢ none) ↔ (r.data_status ≡ valid)

abbrev pub AllKept : List HistoryRecordValue → Type 0
AllKept [] = Unit {0}
AllKept (r ∷ rs) = IsKept r × AllKept rs

-- The records count up from `position`, modulo 2 ^ 32.
abbrev pub CountsFrom : ℕ → List HistoryRecordValue → Type 0
CountsFrom position [] = Unit {0}
CountsFrom position (r ∷ rs) = (r.sequence ≡ position % 2 ^ 32) × CountsFrom (position + 1) rs

-- A record is what its bytes say in the layout of the format: its status, its temperature where the
-- status is VALID, and, but for the compact format, its sequence.
abbrev pub IsRead : Bool → List ℕ → HistoryRecordValue → Type 0
IsRead compact bytes r =
    (values : Values) × (t : Centi) × (unpack_layout (record_layout compact) bytes ≡ ok values)
    × (lookup "data_status" values ≡ some (nat (data_status_number r.data_status)))
    × (lookup "temperature_centi_c" values ≡ some (int t))
    × (r.temperature_c ≡ elim r.data_status [ valid ↦ some t | DataStatus.disconnected ↦ none ])
    × (compact ≡ false → lookup "sequence" values ≡ some (nat r.sequence))

-- The records are those that the bytes hold, one behind the other.
abbrev pub AllRead : Bool → List ℕ → List HistoryRecordValue → Type 0
AllRead compact bytes [] = Unit {0}
AllRead compact bytes (r ∷ rs) =
    IsRead compact (take (struct_size (record_layout compact)) bytes) r
    × AllRead compact (drop (struct_size (record_layout compact)) bytes) rs

as_nat-some : (o : Option Value) (n : ℕ) → as_nat o ≡ ok n → o ≡ some (nat n)
as_nat-some none n h = absurd (cc h)
as_nat-some (some (int (pos m))) n h = cc h
as_nat-some (some (int (negsuc m))) n h = absurd (cc h)
as_nat-some (some (blob bs)) n h = absurd (cc h)

as_int-some : (o : Option Value) (t : Centi) → as_int o ≡ ok t → o ≡ some (int t)
as_int-some none t h = absurd (cc h)
as_int-some (some (int z)) t h = cc h
as_int-some (some (blob bs)) t h = absurd (cc h)

data_status_number-of :
    (n : ℕ) (s : DataStatus) → data_status_of n ≡ some s → n ≡ data_status_number s
unfolding data_status_of
data_status_number-of n valid h = ground arith
data_status_number-of n DataStatus.disconnected h = ground arith

kept_temperature_lem :
    (s : DataStatus) (t : Centi)
    → kept_temperature s t ≡ elim s [ valid ↦ some t | DataStatus.disconnected ↦ none ]
kept_temperature_lem valid t = refl
kept_temperature_lem DataStatus.disconnected t = refl

sequence_read :
    (compact : Bool) (position : ℕ) (values : Values) (n : ℕ)
    → record_sequence compact position values ≡ ok n
    → compact ≡ false
    → lookup "sequence" values ≡ some (nat n)
unfolding nat_field
sequence_read false position values n h e = as_nat-some (lookup "sequence" values) n h
sequence_read true position values n h e = absurd (cc e)

decode_record-IsRead :
    (compact : Bool) (position : ℕ) (bytes : List ℕ) (r : HistoryRecordValue)
    → decode_record compact position bytes ≡ ok r
    → IsRead compact bytes r
unfolding decode_record nat_field int_field
decode_record-IsRead compact position bytes r h =
    let (values, h₁, k₁) = >>=-eq-ok (unpack_layout (record_layout compact) bytes) _ h in
    let (status_raw, h₂, k₂) = >>=-eq-ok (nat_field "data_status" values) _ k₁ in
    let (status, h₃, k₃) = >>=-eq-ok (or_raise (data_status_of status_raw) _) _ k₂ in
    let (sequence, h₄, k₄) = >>=-eq-ok (record_sequence compact position values) _ k₃ in
    let (t, h₅, k₅) = >>=-eq-ok (int_field "temperature_centi_c" values) _ k₄ in
    let number : status_raw ≡ data_status_number status =
      data_status_number-of status_raw status (or_raise-eq-ok _ _ h₃) in
    of_ok (IsRead compact bytes) k₅ (
      values,
      t,
      h₁,
      as_nat-some (lookup "data_status" values) status_raw h₂ ∙ ap (λ n. some (nat n)) number,
      as_int-some (lookup "temperature_centi_c" values) t h₅,
      kept_temperature_lem status t,
      sequence_read compact position values sequence h₄,
    )

drop-nil : (n : ℕ) → [] ≡ drop {A = ℕ} n []
drop-nil zero = refl
drop-nil (suc n) = refl

drop-add : (m n : ℕ) (xs : List ℕ) → drop (m + n) xs ≡ drop n (drop m xs)
drop-add zero n xs = ap (λ k. drop k xs) (zero-add n)
drop-add (suc m) n [] = rw (suc-add m n) (drop-nil n)
drop-add (suc m) n (x ∷ xs) = rw (suc-add m n) (drop-add m n xs)

next_record :
    (size index : ℕ) (payload : List ℕ)
    → drop (prefix_size + (index + 1) * size) payload
      ≡ drop size (drop (prefix_size + index * size) payload)
next_record size index payload =
    let e : prefix_size + (index + 1) * size ≡ prefix_size + index * size + size = grind arith in
    ap (λ n. drop n payload) e ∙ drop-add (prefix_size + index * size) size payload

decode_records-AllRead :
    (compact : Bool) (start : ℕ) (payload : List ℕ) (index left : ℕ) (rs : List HistoryRecordValue)
    → decode_records compact start payload index left ≡ ok rs
    → AllRead compact (drop (prefix_size + index * struct_size (record_layout compact)) payload) rs
unfolding decode_records
decode_records-AllRead compact start payload index zero rs h = of_ok (AllRead compact _) h tt
decode_records-AllRead compact start payload index (suc left) rs h =
    let size = struct_size (record_layout compact) in
    let bytes = drop (prefix_size + index * size) payload in
    let (r, h₁, k₁) = >>=-eq-ok (decode_record compact (start + index) (take size bytes)) _ h in
    let (rest, h₂, k₂) = >>=-eq-ok (decode_records compact start payload (index + 1) left) _ k₁ in
    let more = decode_records-AllRead compact start payload (index + 1) left rest h₂ in
    of_ok (AllRead compact bytes) k₂ (
      decode_record-IsRead compact (start + index) (take size bytes) r h₁,
      subst (λ bs. AllRead compact bs rest) (next_record size index payload) more,
    )

kept_temperature-IsKept : (s : DataStatus) (t : Centi) → (kept_temperature s t ≢ none) ↔ (s ≡ valid)
kept_temperature-IsKept valid t = (λ _. refl, λ _ e. cc)
kept_temperature-IsKept DataStatus.disconnected t = (λ h. absurd (h refl), λ e. cc)

decode_record_sound :
    (compact : Bool) (position : ℕ) (bytes : List ℕ) (r : HistoryRecordValue)
    → decode_record compact position bytes ≡ ok r
    → IsKept r × (compact ≡ true → r.sequence ≡ position % 2 ^ 32)
unfolding decode_record
decode_record_sound compact position bytes r h = ground arith

pub decode_records_sound :
    (compact : Bool) (start : ℕ) (payload : List ℕ) (index left : ℕ) (rs : List HistoryRecordValue)
    → decode_records compact start payload index left ≡ ok rs
    → (length rs ≡ left) × AllKept rs × (compact ≡ true → CountsFrom (start + index) rs)
unfolding decode_records
decode_records_sound compact start payload index zero rs h = ground arith
decode_records_sound compact start payload index (suc left) rs h =
    let size = struct_size (record_layout compact) in
    let position = start + index in
    let bytes = take size (drop (prefix_size + index * size) payload) in
    let (r, h₁, k₁) = >>=-eq-ok (decode_record compact position bytes) _ h in
    let (rest, h₂, k₂) = >>=-eq-ok (decode_records compact start payload (index + 1) left) _ k₁ in
    let (kept, sequence) = decode_record_sound compact position bytes r h₁ in
    let (count, all_kept, follow) =
      decode_records_sound compact start payload (index + 1) left rest h₂ in
    of_ok (λ rs. (length rs ≡ suc left) × AllKept rs × (compact ≡ true → CountsFrom position rs)) k₂
      (
        ap suc count,
        (kept, all_kept),
        λ c.
            (sequence c, subst (λ p. CountsFrom p rest) (sym (add_assoc start index 1)) (follow c)),
      )

abbrev pub is_compact : Response → Bool
is_compact response = same_opcode response.opcode get_history_chunk_compact

-- What the decoder says of a chunk and of the payload that it came from.
pub record IsDecoded (response : Response) (c : HistoryChunk) : Type 0 where
  pub asked : (response.opcode ≡ get_history_chunk) ⊎ (response.opcode ≡ get_history_chunk_compact)
  pub some_sensor : (1 ≤ c.sensor_id) × (c.sensor_id ≤ sensor_count)
  pub whole :
      length response.payload
      ≡ prefix_size + length c.records * struct_size (record_layout (is_compact response))
  pub held : AllRead (is_compact response) (drop prefix_size response.payload) c.records
  pub kept : AllKept c.records
  pub counted : is_compact response ≡ true → CountsFrom c.start_sequence c.records

asked_lem :
    (o : Opcode)
    → (same_opcode o get_history_chunk || same_opcode o get_history_chunk_compact) ≡ true
    → (o ≡ get_history_chunk) ⊎ (o ≡ get_history_chunk_compact)
asked_lem o h = ground arith

whole_lem :
    (n prefix count records size : ℕ)
    → (n == prefix + count * size) ≡ true
    → records ≡ count
    → n ≡ prefix + records * size
whole_lem n prefix count records size h e = rw e ((==_iff _ _).0 h)

some_sensor_lem :
    (sensor_id : ℕ) {u : Unit {0}}
    → as_protocol_error (validate_sensor_id sensor_id) ≡ ok u
    → (1 ≤ sensor_id) × (sensor_id ≤ sensor_count)
unfolding validate_sensor_id
some_sensor_lem sensor_id h = ground arith

-- A chunk that is returned names a sensor that exists and holds every record of the payload, in order,
-- as its bytes say in the layout of the format, and the payload has no byte besides; a record has a temperature exactly where its status is VALID; and in the
-- compact format the sequences count up from the start, modulo 2 ^ 32.
pub decode_history_chunk_sound :
    (response : Response) (c : HistoryChunk)
    → decode_history_chunk response ≡ ok c
    → IsDecoded response c
unfolding decode_history_chunk
decode_history_chunk_sound response c h =
    let compact = is_compact response in
    let prefix_alone : prefix_size + 0 * struct_size (record_layout compact) ≡ prefix_size =
      grind arith in
    let payload = response.payload in
    let (_, h₁, k₁) =
      >>=-eq-ok (require (same_opcode response.opcode get_history_chunk || compact) _) _ h in
    let (_, _, k₂) = >>=-eq-ok (refuse (ltb (length payload) prefix_size) _) _ k₁ in
    let (values, _, k₃) =
      >>=-eq-ok (unpack_layout history_chunk_prefix (take prefix_size payload)) _ k₂ in
    let (sensor_id, _, k₄) = >>=-eq-ok (nat_field "sensor_id" values) _ k₃ in
    let (_, h₅, k₅) = >>=-eq-ok (as_protocol_error (validate_sensor_id sensor_id)) _ k₄ in
    let (size, _, k₆) = >>=-eq-ok (nat_field "record_size" values) _ k₅ in
    let (_, _, k₇) = >>=-eq-ok (require (size == struct_size (record_layout compact)) _) _ k₆ in
    let (count, _, k₈) = >>=-eq-ok (nat_field "record_count" values) _ k₇ in
    let (_, h₉, k₉) =
      >>=-eq-ok
        (require (length payload == prefix_size + count * struct_size (record_layout compact)) _) _
        k₈ in
    let (start, _, k) = >>=-eq-ok (nat_field "start_sequence" values) _ k₉ in
    let (records, hr, last) = >>=-eq-ok (decode_records compact start payload 0 count) _ k in
    let (counted, kept, follow) = decode_records_sound compact start payload 0 count records hr in
    of_ok (IsDecoded response) last (record {
      asked = asked_lem response.opcode (require-eq-ok _ _ h₁);
      some_sensor = some_sensor_lem sensor_id h₅;
      whole =
          whole_lem (length payload) prefix_size count (length records)
            (struct_size (record_layout compact)) (require-eq-ok _ _ h₉) counted;
      held =
          subst (λ n. AllRead compact (drop n payload) records) prefix_alone
            (decode_records-AllRead compact start payload 0 count records hr);
      kept = kept;
      counted = λ e. subst (λ p. CountsFrom p records) (add-zero start) (follow e);
    })
