-- ===== src/Format/SerialType.antt =====
-- crates/rustsqlite-core/src/format/serial_type.rs: the serial types of a record's values.
pub mod Integers
pub mod Laws
use rustqlite.Base.{
  ℕ, zero, suc, ◌+◌, ◌-◌, ◌*◌, ◌/◌, ◌%◌, ◌^◌, Bool, true, false, ◌&&◌, not, List, [], ◌∷◌, map,
  length, bit_and, bit_or, ◌==◌, if◌then◌else◌,
}
use rustqlite.Base.Bytes.{slice, be_bytes, of_be}
use rustqlite.Base.Int.{ℤ, pos, negsuc, leb_ℤ}
use rustqlite.Base.Words.{as_u64, as_i64}
use rustqlite.Error.{Result, ok, err, Message, corrupt}
use rustqlite.Format.TextEncoding.{TextEncoding, utf8, utf16_le, utf16_be}
use rustqlite.Types.Value.{Value, Unicode}

pub data SerialType : Type 0 where
  null i8 i16 i24 i32 i48 i64 f64 const0 const1 : SerialType
  reserved blob text : ℕ → SerialType

unfoldable pub from_code : ℕ → SerialType
from_code c =
    if c == 0
    then null
    else if c == 1
    then i8
    else if c == 2
    then i16
    else if c == 3
    then i24
    else if c == 4
    then i32
    else if c == 5
    then i48
    else if c == 6
    then i64
    else if c == 7
    then f64
    else if c == 8
    then const0
    else if c == 9
    then const1
    else if c == 10
    then reserved c
    else if c == 11
    then reserved c
    else if c % 2 == 0
    then blob ((c - 12) / 2)
    else text ((c - 13) / 2)

unfoldable pub code : SerialType → ℕ
code null = 0
code i8 = 1
code i16 = 2
code i24 = 3
code i32 = 4
code i48 = 5
code i64 = 6
code f64 = 7
code const0 = 8
code const1 = 9
code (reserved n) = n
code (blob len) = (12 + len * 2) % 2 ^ 64
code (text len) = (13 + len * 2) % 2 ^ 64

unfoldable pub byte_len : SerialType → ℕ
byte_len null = 0
byte_len i8 = 1
byte_len i16 = 2
byte_len i24 = 3
byte_len i32 = 4
byte_len i48 = 6
byte_len i64 = 8
byte_len f64 = 8
byte_len const0 = 0
byte_len const1 = 0
byte_len (reserved n) = 0
byte_len (blob len) = len
byte_len (text len) = len

-- `v = (v << 8) | b as i64` for each byte, on the bit pattern of `v`.
pub shift_in : ℕ → List ℕ → ℕ
shift_in v [] = v
shift_in v (b ∷ bytes) = shift_in (bit_or (v * 2 ^ 8 % 2 ^ 64) b) bytes

-- `bytes.first().is_some_and(|b| b & 0x80 != 0)`.
pub is_negative : List ℕ → Bool
is_negative [] = false
is_negative (b ∷ bytes) = not (bit_and b 0x80 == 0)

-- It starts with all ones, -1, where the sign bit is set.
pub decode_be_int : List ℕ → ℤ
unfolding shift_in is_negative
decode_be_int bytes = as_i64 (shift_in (if is_negative bytes then 2 ^ 64 - 1 else 0) bytes)

abbrev pub within : ℤ → ℕ → Bool
within i m = leb_ℤ (negsuc (m - 1)) i && leb_ℤ i (pos (m - 1))

pub encode_wide_int : ℤ → SerialType × List ℕ
unfolding as_u64
encode_wide_int i =
    if within i 0x80
    then (i8, (as_u64 i % 2 ^ 8) ∷ [])
    else if within i 0x8000
    then (i16, be_bytes 2 (as_u64 i % 2 ^ 16))
    else if within i 0x80_0000
    then (i24, slice 1 4 (be_bytes 4 (as_u64 i % 2 ^ 32)))
    else if within i 0x8000_0000
    then (i32, be_bytes 4 (as_u64 i % 2 ^ 32))
    else if within i 0x8000_0000_0000
    then (i48, slice 2 8 (be_bytes 8 (as_u64 i)))
    else (i64, be_bytes 8 (as_u64 i))

pub encode_int : ℤ → SerialType × List ℕ
unfolding encode_wide_int
encode_int (pos zero) = (const0, [])
encode_int (pos (suc zero)) = (const1, [])
encode_int i = encode_wide_int i

unfoldable pub encode : Value → SerialType × List ℕ
unfolding encode_int
encode Value.null = (null, [])
encode (Value.int i) = encode_int i
encode (Value.real r) = (f64, be_bytes 8 r)
encode (Value.text s) = (text (length s), s)
encode (Value.blob b) = (blob (length b), b)

-- `bytes.chunks_exact(2)` as `u16`s; a last odd byte is dropped.
pub utf16_units : TextEncoding → List ℕ → List ℕ
utf16_units e [] = []
utf16_units e (a ∷ []) = []
utf16_units utf16_be (a ∷ b ∷ rest) = (a * 256 + b) ∷ utf16_units utf16_be rest
utf16_units e (a ∷ b ∷ rest) = (a + 256 * b) ∷ utf16_units e rest

module _ (u : Unicode) where
  pub decode_text : List ℕ → TextEncoding → List ℕ
  unfolding utf16_units
  decode_text bytes utf8 = u.from_utf8_lossy bytes
  decode_text bytes utf16_le = u.from_utf16_lossy (utf16_units utf16_le bytes)
  decode_text bytes utf16_be = u.from_utf16_lossy (utf16_units utf16_be bytes)

  -- `bytes` has `byte_len` elements.
  unfoldable pub decode : SerialType → List ℕ → TextEncoding → Result Value
  unfolding decode_be_int decode_text
  decode null bytes e = ok Value.null
  decode const0 bytes e = ok (Value.int (pos 0))
  decode const1 bytes e = ok (Value.int (pos 1))
  decode i8 bytes e = ok (Value.int (decode_be_int bytes))
  decode i16 bytes e = ok (Value.int (decode_be_int bytes))
  decode i24 bytes e = ok (Value.int (decode_be_int bytes))
  decode i32 bytes e = ok (Value.int (decode_be_int bytes))
  decode i48 bytes e = ok (Value.int (decode_be_int bytes))
  decode i64 bytes e = ok (Value.int (decode_be_int bytes))
  decode f64 bytes e = ok (Value.real (of_be bytes))
  decode (blob len) bytes e = ok (Value.blob bytes)
  decode (text len) bytes e = ok (Value.text (decode_text bytes e))
  decode (reserved n) bytes e = err (corrupt (Message.with_number "reserved serial type " n))
