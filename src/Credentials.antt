-- ===== src/Credentials.antt =====
-- backend/pc_client/credential_registry.py: addresses, and `CredentialRegistry` in memory. A text is
-- the list of its code points, ASCII ones where a character is tested; a time is a number, with
-- whether it is aware of its zone. Whether `_write_all` succeeds is an argument, `writes`: the file
-- itself is not modelled.
pub mod Saved
pub mod Reset
use ece4880_project.Prelude.{
  ℕ, zero, suc, ◌+◌, ◌-◌, String, Bool, true, false, not, ◌&&◌, ◌||◌, Option, none, some, List, [],
  ◌∷◌, leb, ◌==◌, if◌then◌else◌, length, Result, ok, err, ◌>>=◌, ◌>>◌, require,
}
use ece4880_project.Protocol.Packet.{is_digit, validate_passkey}

pub data RegistryError : Type 0 where
  invalid_address invalid_passkey naive_time write_failed : RegistryError

abbrev pub is_upper : ℕ → Bool
is_upper c = leb b'A' c && leb c b'Z'

abbrev pub is_lower : ℕ → Bool
is_lower c = leb b'a' c && leb c b'z'

-- `character.isalnum()`
abbrev pub is_alnum : ℕ → Bool
is_alnum c = is_digit c || (is_upper c || is_lower c)

abbrev pub compacted : List ℕ → List ℕ
compacted [] = []
compacted (c ∷ cs) = let rest = compacted cs in if is_alnum c then c ∷ rest else rest

abbrev pub is_hex : ℕ → Bool
is_hex c = is_digit c || ((leb b'A' c && leb c b'F') || (leb b'a' c && leb c b'f'))

abbrev pub all_hex : List ℕ → Bool
all_hex [] = true
all_hex (c ∷ cs) = is_hex c && all_hex cs

-- Whether `int(text, 16)` returns, on letters and digits: it takes a prefix 0x or 0X too.
abbrev pub is_base_16 : List ℕ → Bool
is_base_16 (c ∷ d ∷ e ∷ cs) =
    all_hex (c ∷ d ∷ e ∷ cs) || ((c == b'0' && (d == b'x' || d == b'X')) && all_hex (e ∷ cs))
is_base_16 [] = false
is_base_16 cs = all_hex cs

abbrev pub upper : List ℕ → List ℕ
upper [] = []
upper (c ∷ cs) = (if is_lower c then c - 32 else c) ∷ upper cs

unfoldable pub mac_address_hex : List ℕ → Result RegistryError (List ℕ)
mac_address_hex address = do
  let compact = compacted address
  require (length compact == 12) invalid_address
  require (is_base_16 compact) invalid_address
  ok (upper compact)

-- `":".join` of the pairs
abbrev pub paired : List ℕ → List ℕ
paired (a ∷ b ∷ c ∷ rest) = a ∷ b ∷ b':' ∷ paired (c ∷ rest)
paired cs = cs

unfoldable pub normalize_mac_address : List ℕ → Result RegistryError (List ℕ)
normalize_mac_address address = do compact ← mac_address_hex address; ok (paired compact)

pub record Time : Type 0 where
  pub instant : ℕ
  pub aware : Bool

pub record DeviceCredential : Type 0 where
  pub mac_address : List ℕ
  pub device_name : String
  pub pairing_passkey : List ℕ
  pub enrolled_at : Time
  pub last_connected_at : Time

abbrev pub same_text : List ℕ → List ℕ → Bool
same_text [] [] = true
same_text (x ∷ xs) (y ∷ ys) = x == y && same_text xs ys
same_text _ _ = false

-- The dictionary, by normalized address.
abbrev pub Records : Type 0
Records = List (List ℕ × DeviceCredential)

unfoldable pub find : List ℕ → Records → Option DeviceCredential
find k [] = none
find k ((j, r) ∷ rs) = if same_text k j then some r else find k rs

unfoldable pub put : List ℕ → DeviceCredential → Records → Records
put k r [] = (k, r) ∷ []
put k r ((j, q) ∷ rs) = if same_text k j then (j, r) ∷ rs else (j, q) ∷ put k r rs

unfoldable pub pop : List ℕ → Records → Records
pop k [] = []
pop k ((j, q) ∷ rs) = let rest = pop k rs in if same_text k j then rest else (j, q) ∷ rest

unfoldable pub lookup : List ℕ → Records → Result RegistryError (Option DeviceCredential)
lookup address records = do normalized ← normalize_mac_address address; ok (find normalized records)

abbrev pub or_now : Option Time → Time → Time
or_now none now = now
or_now (some t) now = t

abbrev pub enrolled : Option DeviceCredential → Time → Time
enrolled none observed_at = observed_at
enrolled (some existing) observed_at = existing.enrolled_at

abbrev pub as_registry_error {ℓ κ} : {E : Type ℓ} {A : Type κ} → Result E A → Result RegistryError A
as_registry_error (ok a) = ok a
as_registry_error (err e) = err invalid_passkey

-- `save_verified`: the record and the new dictionary, or an error and no change of it.
unfoldable pub save_verified :
    Bool
    → Time
    → List ℕ
    → String
    → List ℕ
    → Option Time
    → Records
    → Result RegistryError (DeviceCredential × Records)
save_verified writes now address device_name passkey connected_at records = do
  normalized ← normalize_mac_address address
  credential ← as_registry_error (validate_passkey passkey)
  let observed_at = or_now connected_at now
  require observed_at.aware naive_time
  let saved : DeviceCredential = record {
    mac_address = normalized;
    device_name = device_name;
    pairing_passkey = credential;
    enrolled_at = enrolled (find normalized records) observed_at;
    last_connected_at = observed_at;
  }
  require writes write_failed
  ok (saved, put normalized saved records)

abbrev pub is_some {ℓ} : {A : Type ℓ} → Option A → Bool
is_some none = false
is_some (some a) = true

-- `delete`: whether there was a record, and the new dictionary.
unfoldable pub delete : Bool → List ℕ → Records → Result RegistryError (Bool × Records)
delete writes address records = do
  normalized ← normalize_mac_address address
  let removed = is_some (find normalized records)
  require (writes || not removed) write_failed
  ok (removed, if removed then pop normalized records else records)
