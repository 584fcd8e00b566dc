-- ===== src/Protocol/Decode/Samples.antt =====
-- A chunk that a device sends is decoded to its samples.
use mathlib.Core.Path.{subst, ap₂}
use native.Mathlib.Nat.{add_assoc, add-zero, zero-add}
use ece4880_project.Prelude.{
  ℕ, zero, suc, ◌+◌, ◌*◌, ◌%◌, ◌^◌, ◌≤◌, ◌≡◌, refl, sym, ap, ◌∙◌, Bool, true, false, ◌||◌, List, [],
  ◌∷◌, ◌++◌, arith, length, take, drop, length-append, Result, ok, ◌>>=◌, >>=-eq-ok, if◌then◌else◌,
  ok-injective,
}
use ece4880_project.Protocol.Error.{Error}
use ece4880_project.Protocol.Enums.{
  DataStatus, data_status_number, data_status_of-data_status_number, get_history_chunk,
  get_history_chunk_compact, same_opcode,
}
use ece4880_project.Protocol.Layout.{
  Values, int, struct_size, pack_layout, unpack_layout, ordered_values,
}
use ece4880_project.Protocol.Layout.RoundTrip.{take-append, drop-append}
use ece4880_project.Protocol.Layout.Names.{unpack_layout_ordered, length-unpack_layout}
use ece4880_project.Protocol.Config.{history_chunk_prefix, prefix_size, sensor_count}
use ece4880_project.Protocol.Packet.{Response, nat, nat_field, validate_sensor_id, chunk_opcode}
use ece4880_project.Protocol.Decode.{
  HistoryRecordValue, Centi, decode_record, decode_records, decode_history_chunk, kept_temperature,
  record_layout, int_field,
}

-- A record as a device sends it. The compact format leaves the sequence out.
pub record Sample : Type 0 where
  pub sequence : ℕ
  pub centi_c : Centi
  pub status : DataStatus

abbrev pub sample_values : Bool → Sample → Values
sample_values true r =
    ("temperature_centi_c", int r.centi_c) ∷ ("data_status", nat (data_status_number r.status)) ∷ []
sample_values false r =
    ("sequence", nat r.sequence)
    ∷ ("temperature_centi_c", int r.centi_c)
    ∷ ("data_status", nat (data_status_number r.status))
    ∷ []

abbrev pub pack_samples : Bool → List Sample → Result Error (List ℕ)
pack_samples compact [] = ok []
pack_samples compact (r ∷ rs) = do
  bytes ← pack_layout (record_layout compact) (sample_values compact r)
  rest ← pack_samples compact rs
  ok (bytes ++ rest)

-- the records that the client keeps of the samples, whose sequences count up from `position`
abbrev pub kept_samples : Bool → ℕ → List Sample → List HistoryRecordValue
kept_samples compact position [] = []
kept_samples compact position (r ∷ rs) =
    record {
      sequence = if compact then position % 2 ^ 32 else r.sequence;
      temperature_c = kept_temperature r.status r.centi_c;
      data_status = r.status;
    }
    ∷ kept_samples compact (position + 1) rs

unpack_sample :
    (compact : Bool) (r : Sample) (bytes : List ℕ)
    → pack_layout (record_layout compact) (sample_values compact r) ≡ ok bytes
    → unpack_layout (record_layout compact) bytes ≡ ok (sample_values compact r)
unfolding ordered_values
unpack_sample true r bytes h =
    unpack_layout_ordered (record_layout true) _ _ bytes refl (omega arith) h
unpack_sample false r bytes h =
    unpack_layout_ordered (record_layout false) _ _ bytes refl (omega arith) h

decode_record-pack :
    (compact : Bool) (position : ℕ) (r : Sample) (bytes : List ℕ)
    → pack_layout (record_layout compact) (sample_values compact r) ≡ ok bytes
    → decode_record compact position bytes
      ≡ ok (record {
        sequence = if compact then position % 2 ^ 32 else r.sequence;
        temperature_c = kept_temperature r.status r.centi_c;
        data_status = r.status;
      })
unfolding decode_record nat_field int_field
decode_record-pack true position r bytes h =
    rw (unpack_sample true r bytes h) (ground (arith, data_status_of-data_status_number r.status))
decode_record-pack false position r bytes h =
    rw (unpack_sample false r bytes h) (ground (arith, data_status_of-data_status_number r.status))

drop-nil : (n : ℕ) → drop {A = ℕ} n [] ≡ []
drop-nil zero = refl
drop-nil (suc n) = refl

drop-drop : (n m : ℕ) (bs : List ℕ) → drop n (drop m bs) ≡ drop (m + n) bs
drop-drop n zero bs = rw zero-add
drop-drop n (suc m) [] = drop-nil n ∙ sym (drop-nil (suc m + n))
drop-drop n (suc m) (b ∷ bs) =
    let e : suc m + n ≡ suc (m + n) = omega arith in rw e (drop-drop n m bs)

length-pack_layout-sample :
    (compact : Bool) (r : Sample) (bytes : List ℕ)
    → pack_layout (record_layout compact) (sample_values compact r) ≡ ok bytes
    → length bytes ≡ struct_size (record_layout compact)
length-pack_layout-sample compact r bytes h =
    length-unpack_layout (record_layout compact) bytes _ (unpack_sample compact r bytes h)

-- The loop returns the samples of the bytes that are left.
decode_records-pack_samples :
    (compact : Bool) (start index : ℕ) (payload : List ℕ) (rs : List Sample) (bytes : List ℕ)
    → pack_samples compact rs ≡ ok bytes
    → drop (prefix_size + index * struct_size (record_layout compact)) payload ≡ bytes
    → decode_records compact start payload index (length rs)
      ≡ ok (kept_samples compact (start + index) rs)
unfolding decode_records
decode_records-pack_samples compact start index payload [] bytes h at = refl
decode_records-pack_samples compact start index payload (r ∷ rs) bytes h at =
    let size = struct_size (record_layout compact) in
    let (first, h₁, k₁) =
      >>=-eq-ok (pack_layout (record_layout compact) (sample_values compact r)) _ h in
    let (rest, h₂, k₂) = >>=-eq-ok (pack_samples compact rs) _ k₁ in
    let split : bytes ≡ first ++ rest = sym (ok-injective k₂) in
    let long : length first ≡ size = length-pack_layout-sample compact r first h₁ in
    let front : take size (drop (prefix_size + index * size) payload) ≡ first =
      ap (take size) (at ∙ split)
      ∙ subst (λ n. take n (first ++ rest) ≡ first) long (take-append first rest) in
    let next : prefix_size + (index + 1) * size ≡ prefix_size + index * size + size = grind arith in
    let back : drop (prefix_size + (index + 1) * size) payload ≡ rest =
      ap (λ n. drop n payload) next
      ∙ sym (drop-drop size (prefix_size + index * size) payload)
      ∙ ap (drop size) (at ∙ split)
      ∙ subst (λ n. drop n (first ++ rest) ≡ rest) long (drop-append first rest) in
    rw (
      front,
      decode_record-pack compact (start + index) r first h₁,
      decode_records-pack_samples compact start (index + 1) payload rs rest h₂ back,
      add_assoc start index 1,
    )

length-pack_samples :
    (compact : Bool) (rs : List Sample) (bytes : List ℕ)
    → pack_samples compact rs ≡ ok bytes
    → length bytes ≡ length rs * struct_size (record_layout compact)
length-pack_samples compact [] bytes h = ground arith
length-pack_samples compact (r ∷ rs) bytes h =
    let size = struct_size (record_layout compact) in
    let (first, h₁, k₁) =
      >>=-eq-ok (pack_layout (record_layout compact) (sample_values compact r)) _ h in
    let (rest, h₂, k₂) = >>=-eq-ok (pack_samples compact rs) _ k₁ in
    let long : length first ≡ size = length-pack_layout-sample compact r first h₁ in
    let more : length rest ≡ length rs * size = length-pack_samples compact rs rest h₂ in
    let whole : length bytes ≡ length first + length rest =
      ap length (sym (ok-injective k₂)) ∙ length-append first rest in
    whole ∙ ap₂ ◌+◌ long more ∙ grind arith

abbrev pub prefix_values : Bool → ℕ → ℕ → ℕ → Values
prefix_values compact sensor_id start count =
    ("sensor_id", nat sensor_id)
    ∷ ("start_sequence", nat start)
    ∷ ("record_count", nat count)
    ∷ ("record_size", nat (struct_size (record_layout compact)))
    ∷ []

unpack_prefix :
    (compact : Bool) (sensor_id start count : ℕ) (prefix : List ℕ)
    → pack_layout history_chunk_prefix (prefix_values compact sensor_id start count) ≡ ok prefix
    → unpack_layout history_chunk_prefix prefix ≡ ok (prefix_values compact sensor_id start count)
unfolding ordered_values
unpack_prefix compact sensor_id start count prefix h =
    unpack_layout_ordered history_chunk_prefix _ _ prefix refl (omega arith) h

chunk_opcode_compact : (b : Bool) → same_opcode (chunk_opcode b) get_history_chunk_compact ≡ b
chunk_opcode_compact true = refl
chunk_opcode_compact false = refl

chunk_opcode_asked : (b : Bool) → (same_opcode (chunk_opcode b) get_history_chunk || b) ≡ true
chunk_opcode_asked true = refl
chunk_opcode_asked false = refl

-- A chunk response, in either format, whose payload packs a prefix for a sensor that exists and as
-- many samples as the prefix says, decodes to those samples in order: their sequences as sent, or
-- counted from the start in the compact format.
pub decode_history_chunk-pack_samples :
    (compact : Bool) (sensor_id start : ℕ) (rs : List Sample) (prefix bytes : List ℕ)
    (response : Response)
    → (1 ≤ sensor_id) × (sensor_id ≤ sensor_count)
    → pack_layout history_chunk_prefix (prefix_values compact sensor_id start (length rs))
      ≡ ok prefix
    → pack_samples compact rs ≡ ok bytes
    → response.opcode ≡ chunk_opcode compact
    → response.payload ≡ prefix ++ bytes
    → decode_history_chunk response
      ≡ ok (record {
        sensor_id = sensor_id;
        start_sequence = start;
        records = kept_samples compact start rs;
      })
unfolding decode_history_chunk nat_field validate_sensor_id
decode_history_chunk-pack_samples compact sensor_id start rs prefix bytes response hs hp hb ho he =
    let unpacked = unpack_prefix compact sensor_id start (length rs) prefix hp in
    let long : length prefix ≡ prefix_size =
      length-unpack_layout history_chunk_prefix prefix _ unpacked in
    let front : take prefix_size (prefix ++ bytes) ≡ prefix =
      subst (λ n. take n (prefix ++ bytes) ≡ prefix) long (take-append prefix bytes) in
    let back : drop prefix_size (prefix ++ bytes) ≡ bytes =
      subst (λ n. drop n (prefix ++ bytes) ≡ bytes) long (drop-append prefix bytes) in
    let whole : length (prefix ++ bytes)
        ≡ prefix_size + length rs * struct_size (record_layout compact) =
      length-append prefix bytes ∙ ap₂ ◌+◌ long (length-pack_samples compact rs bytes hb) in
    let none_before : prefix_size + 0 * struct_size (record_layout compact) ≡ prefix_size =
      omega arith in
    let loop : decode_records compact start (prefix ++ bytes) 0 (length rs)
        ≡ ok (kept_samples compact start rs) =
      subst
        (λ p.
          decode_records compact start (prefix ++ bytes) 0 (length rs)
          ≡ ok (kept_samples compact p rs))
        (add-zero start)
        (decode_records-pack_samples compact start 0 (prefix ++ bytes) rs bytes hb
          (ap (λ n. drop n (prefix ++ bytes)) none_before ∙ back)) in
    rw (ho, he, chunk_opcode_compact compact, chunk_opcode_asked compact, front, unpacked)
      (ground (arith, whole, hs, loop))
