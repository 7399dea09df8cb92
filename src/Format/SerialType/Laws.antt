-- ===== src/Format/SerialType/Laws.antt =====
-- The codes of serial types, and values through `encode` and `decode`.
use rustqlite.Base.{ℕ, zero, suc, ◌^◌, ◌≤◌, ◌<◌, ◌≡◌, refl, ap, ◌∙◌, List, length, arith}
use rustqlite.Base.Bytes.{be_bytes, of_be, length-be_bytes}
use rustqlite.Base.Int.{ℤ, pos, negsuc}
use rustqlite.Base.Words.{IsI64}
use rustqlite.Error.{ok}
use rustqlite.Format.TextEncoding.{utf8}
use rustqlite.Format.SerialType.{
  SerialType, i8, i16, i24, i32, i48, i64, reserved, blob, text, from_code, code, byte_len, encode,
  encode_int, encode_wide_int, decode, decode_text, decode_be_int,
}
use rustqlite.Format.SerialType.Integers.{IsInt, encode_wide_int_lem}
use rustqlite.Types.Value.{Value, Unicode, IsValue}

-- `code` undoes `from_code` on every `u64`.
pub code-from_code : (c : ℕ) → c < 2 ^ 64 → code (from_code c) ≡ c
unfolding code from_code
code-from_code c h = ground arith

-- The serial types that a code stands for: a reserved one is 10 or 11, and a length fits.
abbrev pub IsCanonical : SerialType → Type 0
IsCanonical (reserved n) = (10 ≤ n) × (n ≤ 11)
IsCanonical (blob len) = len < 2 ^ 62
IsCanonical (text len) = len < 2 ^ 62
IsCanonical _ = Unit

-- `from_code` undoes `code` on those.
pub from_code-code : (t : SerialType) → IsCanonical t → (from_code (code t) ≡ t) × (code t < 2 ^ 64)
unfolding code from_code
from_code-code (reserved n) h = ground arith
from_code-code (blob len) h = ground arith
from_code-code (text len) h = ground arith
from_code-code t h = ground arith

-- Eight bytes of an `f64` read back.
of_be-be_bytes : (r : ℕ) → r < 2 ^ 64 → of_be (be_bytes 8 r) ≡ r
of_be-be_bytes r h = omega arith

module _ (u : Unicode) where
  decode-IsInt :
      (t : SerialType) (bytes : List ℕ)
      → IsInt t
      → IsCanonical t × (decode u t bytes utf8 ≡ ok (Value.int (decode_be_int bytes)))
  unfolding decode
  decode-IsInt i8 bytes h = (tt, refl)
  decode-IsInt i16 bytes h = (tt, refl)
  decode-IsInt i24 bytes h = (tt, refl)
  decode-IsInt i32 bytes h = (tt, refl)
  decode-IsInt i48 bytes h = (tt, refl)
  decode-IsInt i64 bytes h = (tt, refl)
  decode-IsInt _ bytes h = absurd h

  -- What a pair of a serial type and bytes owes the value that it stands for.
  abbrev pub Encodes : Value → SerialType × List ℕ → Type 0
  Encodes v r = IsCanonical r.0 × (length r.1 ≡ byte_len r.0) × (decode u r.0 r.1 utf8 ≡ ok v)

  encode_wide_int-Encodes : (i : ℤ) → IsI64 i → Encodes (Value.int i) (encode_wide_int i)
  encode_wide_int-Encodes i h =
      let (int, len, back) = encode_wide_int_lem i h in
      let (canonical, decoded) = decode-IsInt _ (encode_wide_int i).1 int in
      (canonical, len, decoded ∙ ap (λ j. ok (Value.int j)) back)

  encode_int-Encodes : (i : ℤ) → IsI64 i → Encodes (Value.int i) (encode_int i)
  unfolding encode_int
  encode_int-Encodes (pos zero) h = unfold byte_len decode in (tt, refl, refl)
  encode_int-Encodes (pos (suc zero)) h = unfold byte_len decode in (tt, refl, refl)
  encode_int-Encodes (pos (suc (suc n))) h = encode_wide_int-Encodes (pos (suc (suc n))) h
  encode_int-Encodes (negsuc n) h = encode_wide_int-Encodes (negsuc n) h

  -- For every value of the engine, `encode` gives a serial type that has a code and as many bytes
  -- as that type says, and `decode` reads the value back from them, text in UTF-8.
  pub encode-Encodes : (v : Value) → IsValue u v → Encodes v (encode v)
  unfolding encode byte_len decode decode_text
  encode-Encodes Value.null h = (tt, refl, refl)
  encode-Encodes (Value.int i) h = encode_int-Encodes i h
  encode-Encodes (Value.real r) h =
      (tt, length-be_bytes 8 r, ap (λ t. ok (Value.real t)) (of_be-be_bytes r h))
  encode-Encodes (Value.text s) h =
      (h.1, refl, ap (λ t. ok (Value.text t)) (u.from_utf8_valid s h.0))
  encode-Encodes (Value.blob b) h = (h, refl, refl)
