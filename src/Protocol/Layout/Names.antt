-- ===== src/Protocol/Layout/Names.antt =====
-- Values are found by name: packing what was unpacked, and unpacking what was packed.
use text.Mathlib.TextPositions.{eq_refl}
use ece4880_project.Prelude.{
  ℕ, ◌<◌, String, ◌≡◌, refl, false, some, List, [], ◌∷◌, arith, length, take, drop,
  take-append-drop, length-take, length-drop, ok, str_eq,
}
use ece4880_project.Protocol.Bytes.{AllBytes}
use ece4880_project.Protocol.Layout.{
  code_size, Field, Value, Values, struct_size, ordered_values, struct_pack, pack_layout,
  struct_unpack, unpack_layout, named, lookup,
}
use ece4880_project.Protocol.Layout.RoundTrip.{
  AllExact, AllBytes-take, AllBytes-drop, encode-decode, length-struct_pack,
  struct_unpack-struct_pack,
}

abbrev pub IsFresh : String → List Field → Type 0
IsFresh k [] = Unit {0}
IsFresh k (f ∷ fs) = (str_eq k f.name ≡ false) × IsFresh k fs

-- What `layout_details` of protocol/shared_config.py checks: no name twice, and sizes of at least 1.
abbrev pub IsLayout : List Field → Type 0
IsLayout [] = Unit {0}
IsLayout (f ∷ fs) = IsFresh f.name fs × (0 < code_size f.code) × IsLayout fs

ordered_values-cons :
    (k : String) (v : Value) (fs : List Field) (vs : Values)
    → IsFresh k fs
    → ordered_values fs ((k, v) ∷ vs) ≡ ordered_values fs vs
unfolding ordered_values
ordered_values-cons k v [] vs h = refl
ordered_values-cons k v (f ∷ fs) vs (hf, hs) = rw (hf, ordered_values-cons k v fs vs hs)

pub ordered_values-named :
    (fs : List Field) (vs : List Value)
    → IsLayout fs
    → length vs ≡ length fs
    → ordered_values fs (named fs vs) ≡ ok vs
unfolding ordered_values
ordered_values-named [] [] h e = refl
ordered_values-named [] (v ∷ vs) h e = absurd (omega arith)
ordered_values-named (f ∷ fs) [] h e = absurd (omega arith)
ordered_values-named (f ∷ fs) (v ∷ vs) (fresh, sized, h) e = rw (
  eq_refl f.name,
  ordered_values-cons f.name v fs (named fs vs) fresh,
  ordered_values-named fs vs h (omega arith),
)

length-struct_unpack : (fs : List Field) (bs : List ℕ) → length (struct_unpack fs bs) ≡ length fs
unfolding struct_unpack
length-struct_unpack [] bs = refl
length-struct_unpack (f ∷ fs) bs =
    omega (arith, length-struct_unpack fs (drop (code_size f.code) bs))

struct_pack-struct_unpack :
    (fs : List Field) (bs : List ℕ)
    → IsLayout fs
    → AllBytes bs
    → length bs ≡ struct_size fs
    → struct_pack fs (struct_unpack fs bs) ≡ ok bs
unfolding struct_pack struct_unpack
struct_pack-struct_unpack [] [] h hb e = refl
struct_pack-struct_unpack [] (b ∷ bs) h hb e = absurd (omega arith)
struct_pack-struct_unpack (f ∷ fs) bs (fresh, sized, h) hb e =
    let n = code_size f.code in
    rw (
      encode-decode f.code (take n bs) sized (AllBytes-take n bs hb)
          (omega (arith, length-take n bs)),
      struct_pack-struct_unpack fs (drop n bs) h (AllBytes-drop n bs hb)
          (omega (arith, length-drop n bs)),
      take-append-drop n bs,
    )

pub unpack_layout_ordered :
    (fs : List Field) (values : Values) (ordered : List Value) (packet : List ℕ)
    → ordered_values fs values ≡ ok ordered
    → AllExact fs ordered
    → pack_layout fs values ≡ ok packet
    → unpack_layout fs packet ≡ ok (named fs ordered)
unfolding pack_layout unpack_layout
unpack_layout_ordered fs values ordered packet found exact packed =
    let packed' : struct_pack fs ordered ≡ ok packet = ground (arith, found, packed) in
    rw (struct_unpack-struct_pack fs ordered packet exact packed')
      (ground (arith, length-struct_pack fs ordered packet packed'))

-- Each field's value is the one that the dictionary holds under the field's name.
abbrev pub AllFound : List Field → Values → List Value → Type 0
AllFound [] values [] = Unit {0}
AllFound (f ∷ fs) values (v ∷ vs) = (lookup f.name values ≡ some v) × AllFound fs values vs
AllFound _ values _ = ⊥

AllFound-ordered :
    (fs : List Field) (values : Values) (ordered : List Value)
    → AllFound fs values ordered
    → ordered_values fs values ≡ ok ordered
unfolding ordered_values
AllFound-ordered [] values [] h = refl
AllFound-ordered [] values (v ∷ vs) h = absurd h
AllFound-ordered (f ∷ fs) values [] h = absurd h
AllFound-ordered (f ∷ fs) values (v ∷ vs) (e, h) = rw (e, AllFound-ordered fs values vs h) refl

-- Unpacking the packet that a layout packed gives back, under each field's name, the value that the
-- dictionary held under that name: where it holds one for each field, and byte strings have the width
-- of their field.
pub unpack_layout-pack_layout :
    (fs : List Field) (values : Values) (ordered : List Value) (packet : List ℕ)
    → AllFound fs values ordered
    → AllExact fs ordered
    → pack_layout fs values ≡ ok packet
    → unpack_layout fs packet ≡ ok (named fs ordered)
unpack_layout-pack_layout fs values ordered packet found exact packed =
    unpack_layout_ordered fs values ordered packet (AllFound-ordered fs values ordered found) exact
      packed

-- Packing what a layout unpacked gives back the packet, for every packet of bytes and every layout
-- whose names differ and whose fields have a size.
pub pack_layout-unpack_layout :
    (fs : List Field) (values : Values) (packet : List ℕ)
    → IsLayout fs
    → AllBytes packet
    → unpack_layout fs packet ≡ ok values
    → pack_layout fs values ≡ ok packet
unfolding unpack_layout
pack_layout-unpack_layout fs values packet h hb unpacked =
    let size : length packet ≡ struct_size fs = ground (arith, unpacked) in
    let e : named fs (struct_unpack fs packet) ≡ values = ground (arith, unpacked) in
    rw (← e) (
      unfold pack_layout in
      rw (ordered_values-named fs (struct_unpack fs packet) h (length-struct_unpack fs packet))
        (struct_pack-struct_unpack fs packet h hb size))

pub length-unpack_layout :
    (fs : List Field) (packet : List ℕ) (values : Values)
    → unpack_layout fs packet ≡ ok values
    → length packet ≡ struct_size fs
unfolding unpack_layout
length-unpack_layout fs packet values h = ground arith
