-- ===== src/Futures.antt =====
-- Futures as backend/pc_client/ble_scheduler.py and backend/pc_client/persistence_worker.py use them:
-- one is known by its request's number, and a list has those that are done, the last one first.
use ece4880_project.Prelude.{
  ℕ, ◌≡◌, refl, ◌||◌, Bool, true, false, List, [], ◌∷◌, ◌==◌, if◌then◌else◌, arith, Bool-cases, inl,
  inr,
}

-- `future.done()`
abbrev pub is_done {ℓ} : {A : Type ℓ} → ℕ → List (ℕ × A) → Bool
is_done n [] = false
is_done n ((m, o) ∷ rest) = n == m || is_done n rest

-- `if not future.done(): future.set_…`
unfoldable pub settle {ℓ} : {A : Type ℓ} → ℕ → A → List (ℕ × A) → List (ℕ × A)
settle n o done = if is_done n done then done else (n, o) ∷ done

is_done_same {ℓ} :
    {A : Type ℓ} (n m : ℕ) (d : List (ℕ × A))
    → is_done m d ≡ true
    → is_done n d ≡ (n == m || is_done n d)
is_done_same n m [] h = ground arith
is_done_same n m ((k, o) ∷ d) h = grind (arith, is_done_same n m d)

pub is_done-settle {ℓ} :
    {A : Type ℓ} (n m : ℕ) (o : A) (d : List (ℕ × A))
    → is_done n (settle m o d) ≡ (n == m || is_done n d)
unfolding settle
is_done-settle n m o d = elim (Bool-cases (is_done m d)) [
  | inl e ↦ rw e (is_done_same n m d e)
  | inr e ↦ rw e refl
]
