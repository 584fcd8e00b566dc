-- ===== src/Protocol/Layout/RoundTrip.antt =====
-- Packing a layout and unpacking it again, in both orders.
use native.Mathlib.Nat.{pow-suc}
use ece4880_project.Prelude.{
  ℕ, zero, suc, ◌+◌, ◌-◌, ◌/◌, ◌^◌, ◌<◌, ◌≡◌, refl, ap, List, [], ◌∷◌, ◌++◌, arith, length, take,
  drop, replicate, length-append, length-take, length-replicate, ok, >>=-eq-ok,
}
use ece4880_project.Prelude.Int.{pos, negsuc}
use ece4880_project.Protocol.Bytes.{
  AllBytes, le_bytes, le_value, length-le_bytes, le_value-le_bytes, le_value-lt, le_bytes-le_value,
}
use ece4880_project.Protocol.Layout.{
  FormatCode, unsigned, signed, raw, code_size, Field, Value, int, blob, struct_size, encode,
  decode, struct_pack, struct_unpack,
}

-- `struct` pads and cuts a byte string to the width of its field: these have the width already.
abbrev pub IsExact : FormatCode → Value → Type 0
IsExact (raw n) (blob bs) = length bs ≡ n
IsExact _ _ = Unit {0}

abbrev pub AllExact : List Field → List Value → Type 0
AllExact (f ∷ fs) (v ∷ vs) = IsExact f.code v × AllExact fs vs
AllExact _ _ = Unit {0}

-- lists
pub take-append {ℓ} : {A : Type ℓ} (xs ys : List A) → take (length xs) (xs ++ ys) ≡ xs
take-append [] ys = refl
take-append (x ∷ xs) ys = ap (λ t. x ∷ t) (take-append xs ys)

pub drop-append {ℓ} : {A : Type ℓ} (xs ys : List A) → drop (length xs) (xs ++ ys) ≡ ys
drop-append [] ys = refl
drop-append (x ∷ xs) ys = drop-append xs ys

pub AllBytes-take : (n : ℕ) (bs : List ℕ) → AllBytes bs → AllBytes (take n bs)
AllBytes-take zero bs h = tt
AllBytes-take (suc n) [] h = tt
AllBytes-take (suc n) (b ∷ bs) (hb, hs) = (hb, AllBytes-take n bs hs)

pub AllBytes-drop : (n : ℕ) (bs : List ℕ) → AllBytes bs → AllBytes (drop n bs)
AllBytes-drop zero bs h = h
AllBytes-drop (suc n) [] h = tt
AllBytes-drop (suc n) (b ∷ bs) (hb, hs) = AllBytes-drop n bs hs

pub length-encode :
    (c : FormatCode) (v : Value) (bs : List ℕ) → encode c v ≡ ok bs → length bs ≡ code_size c
unfolding encode
length-encode (unsigned n) (int (pos v)) bs h = ground (arith, length-le_bytes n v)
length-encode (signed n) (int (pos v)) bs h = ground (arith, length-le_bytes n v)
length-encode (signed n) (int (negsuc v)) bs h = ground (arith, length-le_bytes n (256 ^ n - v - 1))
length-encode (raw n) (blob xs) bs h = ground (
  arith,
  length-take n (xs ++ replicate n 0),
  length-append xs (replicate n 0),
  length-replicate {A = ℕ} n 0,
)
length-encode _ v bs h = cc

pub decode-encode :
    (c : FormatCode) (v : Value) (bs : List ℕ) → IsExact c v → encode c v ≡ ok bs → decode c bs ≡ v
unfolding encode decode
decode-encode (unsigned n) (int (pos v)) bs e h = ground (arith, le_value-le_bytes n v)
decode-encode (signed n) (int (pos v)) bs e h = ground (arith, le_value-le_bytes n v)
decode-encode (signed n) (int (negsuc v)) bs e h =
    ground (arith, le_value-le_bytes n (256 ^ n - v - 1))
decode-encode (raw n) (blob xs) bs e h =
    ground (arith, ap (λ t. take t (xs ++ replicate n 0)) e, take-append xs (replicate n 0))
decode-encode _ v bs e h = cc

power_even : (n : ℕ) → 256 ^ suc n / 2 + 256 ^ suc n / 2 ≡ 256 ^ suc n
power_even n = omega (arith, pow-suc 256 n)

pub encode-decode :
    (c : FormatCode) (bs : List ℕ)
    → 0 < code_size c
    → AllBytes bs
    → length bs ≡ code_size c
    → encode c (decode c bs) ≡ ok bs
unfolding encode decode
encode-decode (unsigned n) bs hc hb hl =
    let e : le_bytes n (le_value bs) ≡ bs = rw hl at (le_bytes-le_value bs hb) in
    let b : le_value bs < 256 ^ n = rw hl at (le_value-lt bs hb) in ground (arith, e, b)
encode-decode (signed zero) bs hc hb hl = absurd (omega arith)
encode-decode (signed (suc n)) bs hc hb hl =
    let e : le_bytes (suc n) (le_value bs) ≡ bs = rw hl at (le_bytes-le_value bs hb) in
    let b : le_value bs < 256 ^ suc n = rw hl at (le_value-lt bs hb) in
    ground (arith, e, b, power_even n, again (256 ^ suc n) (le_value bs))
  where
    again : (m v : ℕ) → v < m → m - (m - v - 1) - 1 ≡ v
    again m v h = omega arith
encode-decode (raw n) bs hc hb hl =
    ground (arith, ap (λ t. take t (bs ++ replicate n 0)) hl, take-append bs (replicate n 0))

pub length-struct_pack :
    (fs : List Field) (vs : List Value) (bs : List ℕ)
    → struct_pack fs vs ≡ ok bs
    → length bs ≡ struct_size fs
unfolding struct_pack
length-struct_pack [] [] bs h = ground arith
length-struct_pack (f ∷ fs) (v ∷ vs) bs h =
    let (head, hh, h₁) = >>=-eq-ok (encode f.code v) _ h in
    let (rest, hr, h₂) = >>=-eq-ok (struct_pack fs vs) _ h₁ in
    ground (
      arith,
      length-append head rest,
      length-encode f.code v head hh,
      length-struct_pack fs vs rest hr,
    )
length-struct_pack [] (v ∷ vs) bs h = cc
length-struct_pack (f ∷ fs) [] bs h = cc

pub struct_unpack-struct_pack :
    (fs : List Field) (vs : List Value) (bs : List ℕ)
    → AllExact fs vs
    → struct_pack fs vs ≡ ok bs
    → struct_unpack fs bs ≡ vs
unfolding struct_pack struct_unpack
struct_unpack-struct_pack [] [] bs e h = refl
struct_unpack-struct_pack (f ∷ fs) (v ∷ vs) bs (ev, evs) h =
    let (head, hh, h₁) = >>=-eq-ok (encode f.code v) _ h in
    let (rest, hr, h₂) = >>=-eq-ok (struct_pack fs vs) _ h₁ in
    let split : bs ≡ head ++ rest = ground arith in
    rw (
      split,
      ← length-encode f.code v head hh,
      take-append head rest,
      drop-append head rest,
      decode-encode f.code v head ev hh,
      struct_unpack-struct_pack fs vs rest evs hr,
    )
struct_unpack-struct_pack [] (v ∷ vs) bs e h = cc
struct_unpack-struct_pack (f ∷ fs) [] bs e h = cc
