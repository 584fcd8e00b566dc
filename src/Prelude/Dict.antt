-- ===== src/Prelude/Dict.antt =====
-- Python's dictionaries with numbers as keys, in the order of insertion.
use ece4880_project.Prelude.{
  ℕ, ◌≡◌, refl, Bool, true, false, Option, none, some, List, [], ◌∷◌, ◌==◌, arith, if◌then◌else◌,
}

abbrev pub Dict {ℓ} : Type ℓ → Type ℓ
Dict A = List (ℕ × A)

module _ {ℓ} {A : Type ℓ} where
  -- `d.get(k)`
  unfoldable pub get : ℕ → Dict A → Option A
  get k [] = none
  get k ((j, a) ∷ d) = if k == j then some a else get k d

  -- `d[k] = a`
  unfoldable pub put : ℕ → A → Dict A → Dict A
  put k a [] = (k, a) ∷ []
  put k a ((j, b) ∷ d) = if k == j then (j, a) ∷ d else (j, b) ∷ put k a d

  abbrev pub has_key : ℕ → Dict A → Bool
  has_key k [] = false
  has_key k ((j, a) ∷ d) = if k == j then true else has_key k d

  abbrev pub IsUnique : Dict A → Type 0
  IsUnique [] = Unit {0}
  IsUnique ((j, a) ∷ d) = (has_key j d ≡ false) × IsUnique d

  pub get-put :
      (k j : ℕ) (a : A) (d : Dict A) → get k (put j a d) ≡ (if k == j then some a else get k d)
  unfolding get put
  get-put k j a [] = refl
  get-put k j a ((i, b) ∷ d) = ground (arith, get-put k j a d)

  pub has_key-put :
      (k j : ℕ) (a : A) (d : Dict A)
      → has_key k (put j a d) ≡ (if k == j then true else has_key k d)
  unfolding put
  has_key-put k j a [] = refl
  has_key-put k j a ((i, b) ∷ d) = ground (arith, has_key-put k j a d)

  pub put-IsUnique : (k : ℕ) (a : A) (d : Dict A) → IsUnique d → IsUnique (put k a d)
  unfolding put
  put-IsUnique k a [] u = (refl, tt)
  put-IsUnique k a ((i, b) ∷ d) (f, u) = ground (arith, has_key-put i k a d, put-IsUnique k a d u)

  pub get_of_key : (k : ℕ) (d : Dict A) → has_key k d ≡ false → get k d ≡ none
  unfolding get
  get_of_key k [] h = refl
  get_of_key k ((j, a) ∷ d) h = ground (arith, get_of_key k d)
