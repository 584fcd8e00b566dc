-- ===== src/Protocol/Layout.antt =====
-- Packet layouts of backend/pc_client/protocol.py: `_STRUCT_CODES`, `_layout_struct`,
-- `_pack_layout` and `_unpack_layout`, over Python's `struct` in little-endian standard sizes.
pub mod RoundTrip
pub mod Names
use ece4880_project.Prelude.{
  ℕ, zero, suc, ◌+◌, ◌-◌, ◌*◌, ◌/◌, ◌^◌, String, ◌≡◌, refl, Bool, Option, none, some, List, [], ◌∷◌,
  ◌++◌, ltb, ◌==◌, if◌then◌else◌, str_eq, length, take, drop, replicate, Result, ok, err, ◌>>=◌,
  ◌>>◌, require, or_raise,
}
use ece4880_project.Prelude.Int.{ℤ, pos, negsuc}
use ece4880_project.Protocol.Error.{
  Error, value_error, protocol_error, struct_error, missing_field, wrong_size,
}
use ece4880_project.Protocol.Bytes.{le_bytes, le_value}

-- The legal values of a layout field's "type".
pub data FieldType : Type 0 where
  u8 i8 u16 i16 u32 i32 bytes6 bytes16 bytes32 : FieldType

-- A format code of `struct`, with its size in bytes: "B H I", "b h i" and "6s 16s 32s".
pub data FormatCode : Type 0 where
  unsigned signed raw : ℕ → FormatCode

abbrev pub struct_code : FieldType → FormatCode
struct_code u8 = unsigned 1
struct_code i8 = signed 1
struct_code u16 = unsigned 2
struct_code i16 = signed 2
struct_code u32 = unsigned 4
struct_code i32 = signed 4
struct_code bytes6 = raw 6
struct_code bytes16 = raw 16
struct_code bytes32 = raw 32

abbrev pub code_size : FormatCode → ℕ
code_size (unsigned n) = n
code_size (signed n) = n
code_size (raw n) = n

pub record Field : Type 0 where
  pub name : String
  pub code : FormatCode

abbrev pub field : String → FieldType → Field
field name type = record { name = name; code = struct_code type }

-- A Python value that `struct` packs or unpacks.
pub data Value : Type 0 where
  int : ℤ → Value
  blob : List ℕ → Value

abbrev pub Values : Type 0
Values = List (String × Value)

-- `Struct.size`
abbrev pub struct_size : List Field → ℕ
struct_size [] = 0
struct_size (f ∷ fs) = code_size f.code + struct_size fs

unfoldable pub encode : FormatCode → Value → Result Error (List ℕ)
encode (unsigned n) (int (pos v)) = if ltb v (256 ^ n) then ok (le_bytes n v) else err struct_error
encode (signed n) (int (pos v)) =
    if ltb v (256 ^ n / 2) then ok (le_bytes n v) else err struct_error
encode (signed n) (int (negsuc v)) =
    if ltb v (256 ^ n / 2) then ok (le_bytes n (256 ^ n - v - 1)) else err struct_error
encode (raw n) (blob bs) = ok (take n (bs ++ replicate n 0))
encode _ _ = err struct_error

unfoldable pub decode : FormatCode → List ℕ → Value
decode (unsigned n) bs = int (pos (le_value bs))
decode (signed n) bs =
    let v = le_value bs in
    if ltb v (256 ^ n / 2) then int (pos v) else int (negsuc (256 ^ n - v - 1))
decode (raw n) bs = blob bs

-- `values[name]`; a dictionary display keeps the last value of a name, and a layout has each once.
unfoldable pub lookup : String → Values → Option Value
lookup k [] = none
lookup k ((j, v) ∷ vs) = if str_eq j k then some v else lookup k vs

-- The generator of `_pack_layout`: a `KeyError` becomes a `ValueError`.
unfoldable pub ordered_values : List Field → Values → Result Error (List Value)
unfolding lookup
ordered_values [] vs = ok []
ordered_values (f ∷ fs) vs = do
  v ← or_raise (lookup f.name vs) (value_error missing_field)
  rest ← ordered_values fs vs
  ok (v ∷ rest)

-- `Struct.pack`
unfoldable pub struct_pack : List Field → List Value → Result Error (List ℕ)
unfolding encode
struct_pack [] [] = ok []
struct_pack (f ∷ fs) (v ∷ vs) = do
  bytes ← encode f.code v
  rest ← struct_pack fs vs
  ok (bytes ++ rest)
struct_pack _ _ = err struct_error

unfoldable pub pack_layout : List Field → Values → Result Error (List ℕ)
unfolding ordered_values struct_pack
pack_layout fields values = do ordered ← ordered_values fields values; struct_pack fields ordered

-- `Struct.unpack`, on data of the right size.
unfoldable pub struct_unpack : List Field → List ℕ → List Value
unfolding decode
struct_unpack [] packet = []
struct_unpack (f ∷ fs) packet =
    let size = code_size f.code in
    decode f.code (take size packet) ∷ struct_unpack fs (drop size packet)

-- The dictionary over `zip(fields, values)`.
abbrev pub named : List Field → List Value → Values
named (f ∷ fs) (v ∷ vs) = (f.name, v) ∷ named fs vs
named _ _ = []

unfoldable pub unpack_layout : List Field → List ℕ → Result Error Values
unfolding struct_unpack
unpack_layout fields packet = do
  require (length packet == struct_size fields) (protocol_error wrong_size none)
  ok (named fields (struct_unpack fields packet))
