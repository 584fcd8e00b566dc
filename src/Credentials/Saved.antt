-- ===== src/Credentials/Saved.antt =====
-- What `CredentialRegistry` of backend/pc_client/credential_registry.py holds after a change.
use ece4880_project.Prelude.{
  ℕ, ◌≡◌, refl, ap, ◌∙◌, String, Bool, true, false, Option, none, some, List, [], ◌∷◌,
  if◌then◌else◌, ok, require, >>=-eq-ok, of_ok, Bool-cases, inl, inr, arith,
}
use ece4880_project.Protocol.Packet.{validate_passkey}
use ece4880_project.Credentials.{
  Records, Time, DeviceCredential, same_text, find, put, pop, lookup, normalize_mac_address,
  save_verified, delete, enrolled, or_now, as_registry_error, is_some, naive_time, write_failed,
}

pub same_text_refl : (k : List ℕ) → same_text k k ≡ true
same_text_refl [] = refl
same_text_refl (x ∷ xs) = ground (arith, same_text_refl xs)

pub same_text_eq : (j k : List ℕ) → same_text j k ≡ true → j ≡ k
same_text_eq [] [] h = refl
same_text_eq [] (y ∷ ys) h = cc
same_text_eq (x ∷ xs) [] h = cc
same_text_eq (x ∷ xs) (y ∷ ys) h = ground (arith, same_text_eq xs ys)

-- A key that differs from one key differs from what equals it.
same_text-same : (i j k : List ℕ) → same_text j k ≡ true → same_text i j ≡ same_text i k
same_text-same i j k h = ap (same_text i) (same_text_eq j k h)

-- What equals a second key differs from the first one, where the keys differ.
same_text_differs :
    (i j k : List ℕ) → same_text k j ≡ false → same_text i j ≡ true → same_text i k ≡ false
same_text_differs i j k e h = elim (Bool-cases (same_text i k)) [
  | inl t ↦ cc (e, h, ap (λ m. same_text m j) (same_text_eq i k t))
  | inr f ↦ f
]

find-put :
    (i k : List ℕ) (r : DeviceCredential) (rs : Records)
    → find i (put k r rs) ≡ (if same_text i k then some r else find i rs)
unfolding find put
find-put i k r [] = refl
find-put i k r ((j, q) ∷ rs) = elim (Bool-cases (same_text k j)) [
  | inl e ↦ rw e (ground (arith, same_text-same i k j e))
  | inr e ↦ rw e (ground (arith, find-put i k r rs, same_text_differs i j k e))
]

find-pop :
    (i k : List ℕ) (rs : Records) → find i (pop k rs) ≡ (if same_text i k then none else find i rs)
unfolding find pop
find-pop i k [] = ground arith
find-pop i k ((j, q) ∷ rs) = elim (Bool-cases (same_text k j)) [
  | inl e ↦ rw e (ground (arith, find-pop i k rs, same_text-same i k j e))
  | inr e ↦ rw e (ground (arith, find-pop i k rs, same_text_differs i j k e))
]

-- When a device was enrolled: what the record before says, or now.
abbrev pub first_enrolled : Option DeviceCredential → Time → Time
first_enrolled none observed_at = observed_at
first_enrolled (some before) observed_at = before.enrolled_at

enrolled_lem :
    (before : Option DeviceCredential) (observed_at : Time)
    → enrolled before observed_at ≡ first_enrolled before observed_at
enrolled_lem none observed_at = refl
enrolled_lem (some before) observed_at = refl

abbrev IsSaved :
    List ℕ
    → String
    → List ℕ
    → Time
    → Records
    → List ℕ
    → List ℕ
    → DeviceCredential × Records
    → Type 0
IsSaved address name passkey observed_at records other k (saved, records') =
    (normalize_mac_address address ≡ ok saved.mac_address)
    × (lookup address records' ≡ ok (some saved))
    × (saved.device_name ≡ name)
    × (saved.pairing_passkey ≡ passkey)
    × (saved.enrolled_at ≡ first_enrolled (find saved.mac_address records) observed_at)
    × (saved.last_connected_at ≡ observed_at)
    × (lookup other records'
        ≡ (if same_text k saved.mac_address then ok (some saved) else lookup other records))

IsSaved-put :
    (address : List ℕ) (name : String) (passkey : List ℕ) (observed_at : Time) (records : Records)
    (other k normalized credential : List ℕ)
    → credential ≡ passkey
    → normalize_mac_address address ≡ ok normalized
    → normalize_mac_address other ≡ ok k
    → let saved : DeviceCredential = record {
      mac_address = normalized;
      device_name = name;
      pairing_passkey = credential;
      enrolled_at = enrolled (find normalized records) observed_at;
      last_connected_at = observed_at;
    } in
      IsSaved address name passkey observed_at records other k (saved, put normalized saved records)
unfolding lookup
IsSaved-put address name passkey observed_at records other k normalized credential c a o =
    let saved : DeviceCredential = record {
      mac_address = normalized;
      device_name = name;
      pairing_passkey = credential;
      enrolled_at = enrolled (find normalized records) observed_at;
      last_connected_at = observed_at;
    } in
    (
      a,
      ground (arith, a, find-put normalized normalized saved records, same_text_refl normalized),
      refl,
      c,
      enrolled_lem (find normalized records) observed_at,
      refl,
      ground (arith, o, find-put k normalized saved records),
    )

as_registry_error-validate_passkey :
    (passkey credential : List ℕ)
    → as_registry_error (validate_passkey passkey) ≡ ok credential
    → credential ≡ passkey
unfolding validate_passkey
as_registry_error-validate_passkey passkey credential h = ground arith

-- After a credential was saved, looking up its address finds it, under the normalized address, with
-- the passkey, the name and the time that were given (now, if none was), enrolled when the record
-- before says, or at that time if there was none; and looking up any other valid address finds what it
-- found before.
pub lookup-save_verified :
    (writes : Bool) (now : Time) (address : List ℕ) (name : String) (passkey : List ℕ)
    (connected_at : Option Time) (records records' : Records) (saved : DeviceCredential)
    (other k : List ℕ)
    → save_verified writes now address name passkey connected_at records ≡ ok (saved, records')
    → normalize_mac_address other ≡ ok k
    → (normalize_mac_address address ≡ ok saved.mac_address)
      × (lookup address records' ≡ ok (some saved))
      × (saved.device_name ≡ name)
      × (saved.pairing_passkey ≡ passkey)
      × (saved.enrolled_at
          ≡ first_enrolled (find saved.mac_address records) (or_now connected_at now))
      × (saved.last_connected_at ≡ or_now connected_at now)
      × (lookup other records'
          ≡ (if same_text k saved.mac_address then ok (some saved) else lookup other records))
unfolding save_verified
lookup-save_verified writes now address name passkey connected_at records records' saved other k h
      e =
    let (normalized, h₁, k₁) = >>=-eq-ok (normalize_mac_address address) _ h in
    let (credential, h₂, k₂) = >>=-eq-ok (as_registry_error (validate_passkey passkey)) _ k₁ in
    let (_, h₃, k₃) = >>=-eq-ok (require (or_now connected_at now).aware naive_time) _ k₂ in
    let (_, h₄, k₄) = >>=-eq-ok (require writes write_failed) _ k₃ in
    of_ok (IsSaved address name passkey (or_now connected_at now) records other k) k₄ (
      IsSaved-put address name passkey (or_now connected_at now) records other k normalized
        credential (as_registry_error-validate_passkey passkey credential h₂) h₁ e)

-- The dictionary after `delete`, which changes it only where there was a record.
pub find_after_delete :
    (i k : List ℕ) (rs : Records) (o : Option DeviceCredential)
    → find k rs ≡ o
    → find i (if is_some o then pop k rs else rs) ≡ (if same_text i k then none else find i rs)
find_after_delete i k rs (some r) e = find-pop i k rs
find_after_delete i k rs none e = elim (Bool-cases (same_text i k)) [
  | inl t ↦ rw t (ap (λ m. find m rs) (same_text_eq i k t) ∙ e)
  | inr f ↦ rw f refl
]

pub delete_result :
    (writes : Bool) (address normalized : List ℕ) (records records' : Records) (removed : Bool)
    → delete writes address records ≡ ok (removed, records')
    → normalize_mac_address address ≡ ok normalized
    → (removed ≡ is_some (find normalized records))
      × (records' ≡ (if is_some (find normalized records) then pop normalized records else records))
unfolding delete
delete_result writes address normalized records records' removed h a = ground (arith, h, a)

-- After a credential was deleted, looking up its address finds none, and looking up any other valid
-- address finds what it found before; the result says whether there was a record.
pub lookup-delete :
    (writes : Bool) (address other k normalized : List ℕ) (records records' : Records)
    (removed : Bool)
    → delete writes address records ≡ ok (removed, records')
    → normalize_mac_address address ≡ ok normalized
    → normalize_mac_address other ≡ ok k
    → (removed ≡ is_some (find normalized records))
      × (lookup address records' ≡ ok none)
      × (lookup other records' ≡ (if same_text k normalized then ok none else lookup other records))
unfolding delete lookup
lookup-delete writes address other k normalized records records' removed h a o =
    let h' = delete_result writes address normalized records records' removed h a in
    of_popped h'.0 h'.1
  where
    of_popped :
        removed ≡ is_some (find normalized records)
        → records' ≡ (if is_some (find normalized records) then pop normalized records else records)
        → (removed ≡ is_some (find normalized records))
          × (lookup address records' ≡ ok none)
          × (lookup other records'
              ≡ (if same_text k normalized then ok none else lookup other records))
    of_popped r p = (
      r,
      rw p (
          ground (
            arith,
            a,
            find_after_delete normalized normalized records (find normalized records) refl,
            same_text_refl normalized,
          )),
      rw p (
          ground (arith, o, find_after_delete k normalized records (find normalized records) refl)),
    )
