-- ===== src/Credentials/Reset.antt =====
-- backend/pc_client/pairing_reset.py: `reset_all_pairings`, and `list_all` of
-- backend/pc_client/credential_registry.py, in whose order it goes. What the operating system does with
-- a bond is a parameter: the failure's text, or none where the bond was removed.
use ece4880_project.Prelude.{
  ℕ, ◌≡◌, refl, String, Bool, true, false, not, ◌&&◌, ◌||◌, Option, none, some, List, [], ◌∷◌, ltb,
  ◌==◌, if◌then◌else◌, Result, ok, err, arith, ap, Bool-cases, inl, inr,
}
use ece4880_project.Credentials.{
  Records, DeviceCredential, RegistryError, same_text, find, pop, delete, is_some,
  normalize_mac_address,
}
use ece4880_project.Credentials.Saved.{same_text_eq, find_after_delete}

-- The order of texts
abbrev pub comes_before : List ℕ → List ℕ → Bool
comes_before [] [] = false
comes_before [] (y ∷ ys) = true
comes_before (x ∷ xs) [] = false
comes_before (x ∷ xs) (y ∷ ys) = ltb x y || (x == y && comes_before xs ys)

unfoldable pub insert : List ℕ × DeviceCredential → Records → Records
insert (k, r) [] = (k, r) ∷ []
insert (k, r) ((j, q) ∷ rs) =
    if comes_before j k then (j, q) ∷ insert (k, r) rs else (k, r) ∷ (j, q) ∷ rs

-- `list_all`, each record with its key
unfoldable pub list_all : Records → Records
list_all [] = []
list_all ((k, r) ∷ rs) = insert (k, r) (list_all rs)

-- How far a reset has come: the addresses that could not be forgotten, and what the registry raised.
pub record Reset : Type 0 where
  pub records : Records
  pub failures : List (List ℕ)
  pub registry_error : Option RegistryError

abbrev pub is_removed : Option String → Bool
is_removed none = true
is_removed (some detail) = false

module _ (forget : List ℕ → Option String) (writes : Bool) where
  -- A registry that raises ends the loop.
  abbrev pub deleted : Result RegistryError (Bool × Records) → Records → (Records → Reset) → Reset
  deleted (ok (removed, records')) records rest = rest records'
  deleted (err e) records rest = record {
    records = records;
    failures = [];
    registry_error = some e;
  }

  abbrev pub noted : List ℕ → Reset → Reset
  noted address t = record t { failures = address ∷ t.failures }

  unfoldable pub reset_each : Records → Records → Reset
  reset_each [] records = record { records = records; failures = []; registry_error = none }
  reset_each ((k, r) ∷ rs) records =
      if is_removed (forget r.mac_address)
      then deleted (delete writes r.mac_address records) records (reset_each rs)
      else noted r.mac_address (reset_each rs records)

  unfoldable pub reset_all_pairings : Records → Reset
  reset_all_pairings records = reset_each (list_all records) records

-- Each record stands under its address, which is normalized.
abbrev pub IsKeyed : Records → Type 0
IsKeyed [] = Unit {0}
IsKeyed ((k, r) ∷ rs) = (r.mac_address ≡ k) × (normalize_mac_address k ≡ ok k) × IsKeyed rs

-- `address in …`
abbrev pub among : List ℕ → List (List ℕ) → Bool
among k [] = false
among k (j ∷ js) = same_text k j || among k js

abbrev pub has : List ℕ → Records → Bool
has k [] = false
has k ((j, r) ∷ rs) = same_text k j || has k rs

insert-IsKeyed :
    (k : List ℕ) (r : DeviceCredential) (rs : Records)
    → IsKeyed ((k, r) ∷ [])
    → IsKeyed rs
    → IsKeyed (insert (k, r) rs)
unfolding insert
insert-IsKeyed k r [] h hs = h
insert-IsKeyed k r ((j, q) ∷ rs) h hs = ground (arith, insert-IsKeyed k r rs)

list_all-IsKeyed : (rs : Records) → IsKeyed rs → IsKeyed (list_all rs)
unfolding list_all
list_all-IsKeyed [] h = h
list_all-IsKeyed ((k, r) ∷ rs) (m, n, h) =
    insert-IsKeyed k r (list_all rs) (m, n, tt) (list_all-IsKeyed rs h)

has-insert :
    (i k : List ℕ) (r : DeviceCredential) (rs : Records)
    → has i (insert (k, r) rs) ≡ (same_text i k || has i rs)
unfolding insert
has-insert i k r [] = refl
has-insert i k r ((j, q) ∷ rs) = ground (arith, has-insert i k r rs)

has-list_all : (i : List ℕ) (rs : Records) → has i (list_all rs) ≡ has i rs
unfolding list_all
has-list_all i [] = refl
has-list_all i ((k, r) ∷ rs) = ground (arith, has-insert i k r (list_all rs), has-list_all i rs)

find_of_has : (i : List ℕ) (rs : Records) → has i rs ≡ false → find i rs ≡ none
unfolding find
find_of_has i [] h = refl
find_of_has i ((k, r) ∷ rs) h = ground (arith, find_of_has i rs)

delete_ok :
    (k : List ℕ) (records : Records)
    → normalize_mac_address k ≡ ok k
    → delete true k records
      ≡ ok (is_some (find k records), if is_some (find k records) then pop k records else records)
unfolding delete
delete_ok k records n = ground (arith, n)

module _ (forget : List ℕ → Option String) where
  left_by : (i k : List ℕ) → same_text i k ≡ true → is_removed (forget i) ≡ is_removed (forget k)
  left_by i k e = ap (λ j. is_removed (forget j)) (same_text_eq i k e)

  after_reset_each :
      (i : List ℕ) (rs records : Records)
      → IsKeyed rs
      → (find i (reset_each forget true rs records).records
          ≡ (if is_removed (forget i) && has i rs then none else find i records))
        × ((reset_each forget true rs records).registry_error ≡ none)
  unfolding reset_each
  after_reset_each i [] records h = ground arith
  after_reset_each i ((k, r) ∷ rs) records (m, n, h) = elim (Bool-cases (is_removed (forget k))) [
    | inl gone ↦
        let records' = if is_some (find k records) then pop k records else records in
        let (f, e) = after_reset_each i rs records' h in
        rw (m, gone, delete_ok k records n)
          (
            ground
                (arith, f, gone, left_by i k, find_after_delete i k records (find k records) refl),
            e,
          )
    | inr stays ↦
        let (f, e) = after_reset_each i rs records h in
        rw (m, stays) (ground (arith, f, stays, left_by i k), e)
  ]

  failures_of_reset_each :
      (i : List ℕ) (rs records : Records)
      → IsKeyed rs
      → among i (reset_each forget true rs records).failures
        ≡ (not (is_removed (forget i)) && has i rs)
  unfolding reset_each
  failures_of_reset_each i [] records h = ground arith
  failures_of_reset_each i ((k, r) ∷ rs) records (m, n, h) =
      elim (Bool-cases (is_removed (forget k))) [
        | inl gone ↦
            let records' = if is_some (find k records) then pop k records else records in
            let f = failures_of_reset_each i rs records' h in
            rw (m, gone, delete_ok k records n) (ground (arith, f, gone, left_by i k))
        | inr stays ↦
            let f = failures_of_reset_each i rs records h in
            rw (m, stays) (ground (arith, f, stays, left_by i k))
      ]

-- Where each record stands under its own address, and the file can be written, a reset of all pairings
-- leaves exactly the records whose bond the operating system could not remove, unchanged, and reports
-- exactly those; the registry raises nothing.
pub reset_all_pairings_lem :
    (forget : List ℕ → Option String) (records : Records) (i : List ℕ)
    → IsKeyed records
    → (find i (reset_all_pairings forget true records).records
        ≡ (if is_removed (forget i) then none else find i records))
      × (among i (reset_all_pairings forget true records).failures
          ≡ (not (is_removed (forget i)) && has i records))
      × ((reset_all_pairings forget true records).registry_error ≡ none)
unfolding reset_all_pairings
reset_all_pairings_lem forget records i h =
    let sorted = list_all-IsKeyed records h in
    let (f, e) = after_reset_each forget i (list_all records) records sorted in
    (
      ground (arith, f, has-list_all i records, find_of_has i records),
      rw (failures_of_reset_each forget i (list_all records) records sorted, has-list_all i records)
          refl,
      e,
    )
