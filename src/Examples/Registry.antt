-- ===== src/Examples/Registry.antt =====
-- A credential that is saved and deleted.
use ece4880_project.Prelude.{
  ℕ, ◌≡◌, refl, true, Option, none, some, String, List, [], ◌∷◌, ok, if◌then◌else◌,
}
use ece4880_project.Protocol.Packet.{validate_passkey}
use ece4880_project.Credentials.{
  Time, DeviceCredential, Records, save_verified, delete, lookup, find, put, pop,
  normalize_mac_address, mac_address_hex, same_text, is_some,
}
use ece4880_project.Credentials.Reset.{among, reset_all_pairings, reset_all_pairings_lem}
use ece4880_project.Credentials.Saved.{lookup-save_verified, lookup-delete, first_enrolled}

-- aa-bb-cc-dd-ee-01
abbrev typed_address : List ℕ
typed_address =
    b'a' ∷ b'a' ∷ b'-' ∷ b'b' ∷ b'b' ∷ b'-' ∷ b'c' ∷ b'c' ∷ b'-' ∷ b'd' ∷ b'd' ∷ b'-' ∷ b'e' ∷ b'e'
    ∷ b'-' ∷ b'0' ∷ b'1' ∷ []

abbrev normal_address : List ℕ
normal_address =
    b'A' ∷ b'A' ∷ b':' ∷ b'B' ∷ b'B' ∷ b':' ∷ b'C' ∷ b'C' ∷ b':' ∷ b'D' ∷ b'D' ∷ b':' ∷ b'E' ∷ b'E'
    ∷ b':' ∷ b'0' ∷ b'1' ∷ []

abbrev six_digits : List ℕ
six_digits = b'1' ∷ b'2' ∷ b'3' ∷ b'4' ∷ b'5' ∷ b'6' ∷ []

abbrev monday : Time
monday = record { instant = 10; aware = true }

abbrev tuesday : Time
tuesday = record { instant = 20; aware = true }

abbrev credential_at : Time → DeviceCredential
credential_at t = record {
  mac_address = normal_address;
  device_name = "Thermometer-1";
  pairing_passkey = six_digits;
  enrolled_at = monday;
  last_connected_at = t;
}

abbrev one_record : Time → Records
one_record t = (normal_address, credential_at t) ∷ []

lookup-save_verified_example :
    (normalize_mac_address typed_address ≡ ok normal_address)
    × (lookup typed_address (one_record tuesday) ≡ ok (some (credential_at tuesday)))
    × ((credential_at tuesday).device_name ≡ "Thermometer-1")
    × (six_digits ≡ six_digits)
    × (monday ≡ first_enrolled (find normal_address (one_record monday)) tuesday)
    × ((credential_at tuesday).last_connected_at ≡ tuesday)
    × (lookup normal_address (one_record tuesday) ≡ (
        if same_text normal_address normal_address
        then ok (some (credential_at tuesday))
        else lookup normal_address (one_record monday)))
unfolding save_verified normalize_mac_address mac_address_hex validate_passkey find put
lookup-save_verified_example =
    lookup-save_verified true tuesday typed_address "Thermometer-1" six_digits none
      (one_record monday) (one_record tuesday) (credential_at tuesday) normal_address normal_address
      refl refl

lookup-delete_example :
    (true ≡ is_some (find normal_address (one_record monday)))
    × (lookup typed_address [] ≡ ok none)
    × (lookup normal_address [] ≡ (
        if same_text normal_address normal_address
        then ok none
        else lookup normal_address (one_record monday)))
unfolding delete normalize_mac_address mac_address_hex find pop
lookup-delete_example =
    lookup-delete true typed_address normal_address normal_address normal_address
      (one_record monday) [] true refl refl refl

-- An address that begins with 0x passes as hexadecimal digits.
prefixed_address :
    mac_address_hex
      (b'0' ∷ b'x' ∷ b'1' ∷ b'1' ∷ b'2' ∷ b'2' ∷ b'3' ∷ b'3' ∷ b'4' ∷ b'4' ∷ b'5' ∷ b'5' ∷ [])
    ≡ ok (b'0' ∷ b'X' ∷ b'1' ∷ b'1' ∷ b'2' ∷ b'2' ∷ b'3' ∷ b'3' ∷ b'4' ∷ b'4' ∷ b'5' ∷ b'5' ∷ [])
unfolding mac_address_hex
prefixed_address = refl

-- The bond of the only device cannot be removed.
abbrev refuses : List ℕ → Option String
refuses address = some "device is busy"

reset_all_pairings_lem_example :
    (find normal_address (reset_all_pairings refuses true (one_record monday)).records
      ≡ some (credential_at monday))
    × (among normal_address (reset_all_pairings refuses true (one_record monday)).failures ≡ true)
    × ((reset_all_pairings refuses true (one_record monday)).registry_error ≡ none)
unfolding find normalize_mac_address mac_address_hex
reset_all_pairings_lem_example =
    reset_all_pairings_lem refuses (one_record monday) normal_address (refl, refl, tt)
