-- ===== src/Protocol/Bytes.antt =====
-- Python's `struct` on one number: little-endian bytes of a fixed width.
use native.Mathlib.Nat.{pow-suc}
use ece4880_project.Prelude.{
  ℕ, zero, suc, ◌+◌, ◌*◌, ◌/◌, ◌%◌, ◌^◌, ◌<◌, ◌≡◌, refl, List, [], ◌∷◌, arith, length,
}

abbrev pub IsByte : ℕ → Type 0
IsByte b = b < 256

abbrev pub AllBytes : List ℕ → Type 0
AllBytes [] = Unit {0}
AllBytes (b ∷ bs) = IsByte b × AllBytes bs

unfoldable pub le_bytes : ℕ → ℕ → List ℕ
le_bytes zero v = []
le_bytes (suc n) v = (v % 256) ∷ le_bytes n (v / 256)

unfoldable pub le_value : List ℕ → ℕ
le_value [] = 0
le_value (b ∷ bs) = b + 256 * le_value bs

pub length-le_bytes : (n v : ℕ) → length (le_bytes n v) ≡ n
unfolding le_bytes
length-le_bytes zero v = refl
length-le_bytes (suc n) v = omega (arith, length-le_bytes n (v / 256))

pub AllBytes-le_bytes : (n v : ℕ) → AllBytes (le_bytes n v)
unfolding le_bytes
AllBytes-le_bytes zero v = tt
AllBytes-le_bytes (suc n) v = (omega arith, AllBytes-le_bytes n (v / 256))

pub le_value-le_bytes : (n v : ℕ) → v < 256 ^ n → le_value (le_bytes n v) ≡ v
unfolding le_bytes le_value
le_value-le_bytes zero v h = omega arith
le_value-le_bytes (suc n) v h = omega (arith, le_value-le_bytes n (v / 256) (omega arith))

pub le_value-lt : (bs : List ℕ) → AllBytes bs → le_value bs < 256 ^ length bs
unfolding le_value
le_value-lt [] h = omega arith
le_value-lt (b ∷ bs) (hb, hs) = omega (arith, le_value-lt bs hs, pow-suc 256 (length bs))

pub le_bytes-le_value : (bs : List ℕ) → AllBytes bs → le_bytes (length bs) (le_value bs) ≡ bs
unfolding le_bytes le_value
le_bytes-le_value [] h = refl
le_bytes-le_value (b ∷ bs) (hb, hs) = ground (arith, le_bytes-le_value bs hs, low, high)
  where
    low : (b + 256 * le_value bs) % 256 ≡ b
    low = omega arith

    high : (b + 256 * le_value bs) / 256 ≡ le_value bs
    high = omega arith
