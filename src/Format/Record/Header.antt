-- ===== src/Format/Record/Header.antt =====
-- The length of a record's header, which counts the varint that holds it.
use rustqlite.Base.{
  ℕ, zero, suc, ◌+◌, ◌^◌, ◌≤◌, ◌<◌, ◌≡◌, refl, ap, ◌∙◌, sym, List, [], ◌∷◌, ◌++◌, length,
  length-append, arith,
}
use rustqlite.Base.Bytes.{All}
use rustqlite.Format.SerialType.{code, encode}
use rustqlite.Format.SerialType.Laws.{from_code-code, encode-Encodes}
use rustqlite.Format.Varint.{varint_len}
use rustqlite.Format.Varint.Length.{varint_len_mono}
use rustqlite.Format.Varint.RoundTrip.{
  encoding, write_varint_lem, length-encoding, varint_len_bounds,
}
use rustqlite.Format.Record.{serial_bytes, header_width, write_serials, write_bodies, encode_record}
use rustqlite.Types.Value.{Value, Unicode, IsValue}
use mathlib.Core.List.{append-nil, append_assoc}

header_width_loop :
    (fuel n hv : ℕ)
    → 9 ≤ fuel + hv
    → n + hv + fuel < 2 ^ 64
    → hv ≤ varint_len (n + hv)
    → varint_len (n + header_width fuel n hv) ≡ header_width fuel n hv
unfolding header_width
header_width_loop zero n hv f m h = omega (arith, varint_len_bounds (n + hv))
header_width_loop (suc fuel) n hv f m h = ground (
  arith,
  varint_len_mono (n + hv) (n + (hv + 1)) (omega arith) (omega arith),
  header_width_loop fuel n (hv + 1),
)

-- The widening stops at a width that the header's length, this width included, takes exactly.
pub header_width_lem :
    (n : ℕ) → n + 10 < 2 ^ 64 → varint_len (n + header_width 9 n 1) ≡ header_width 9 n 1
header_width_lem n h =
    header_width_loop 9 n 1 (omega arith) (omega arith) (varint_len_bounds (n + 1) (omega arith)).0

header_width-le : (fuel n hv : ℕ) → header_width fuel n hv ≤ fuel + hv
unfolding header_width
header_width-le zero n hv = omega arith
header_width-le (suc fuel) n hv = ground (arith, header_width-le fuel n (hv + 1))

-- The serial types and the bodies of the values, one after the other.
unfoldable pub serials : List Value → List ℕ
serials [] = []
serials (v ∷ values) = encoding (code (encode v).0) ++ serials values

unfoldable pub bodies : List Value → List ℕ
bodies [] = []
bodies (v ∷ values) = (encode v).1 ++ bodies values

module _ (u : Unicode) where
  code_fits : (v : Value) → IsValue u v → code (encode v).0 < 2 ^ 64
  code_fits v h = (from_code-code (encode v).0 (encode-Encodes u v h).0).1

  pub write_serials_lem :
      (values : List Value) (out : List ℕ)
      → All (IsValue u) values
      → write_serials values out ≡ out ++ serials values
  unfolding write_serials serials
  write_serials_lem [] out h = sym (append-nil out)
  write_serials_lem (v ∷ values) out (hv, hs) =
      ap (λ t. write_serials values t) (ap (λ t. t.0) (write_varint_lem _ out (code_fits v hv)))
      ∙ write_serials_lem values _ hs
      ∙ append_assoc out (encoding (code (encode v).0)) (serials values)

  pub length-serials :
      (values : List Value) → All (IsValue u) values → length (serials values) ≡ serial_bytes values
  unfolding serials serial_bytes
  length-serials [] h = refl
  length-serials (v ∷ values) (hv, hs) =
      length-append (encoding (code (encode v).0)) (serials values)
      ∙ (omega (arith, length-encoding _ (code_fits v hv), length-serials values hs))

pub write_bodies_lem :
    (values : List Value) (out : List ℕ) → write_bodies values out ≡ out ++ bodies values
unfolding write_bodies bodies
write_bodies_lem [] out = sym (append-nil out)
write_bodies_lem (v ∷ values) out =
    write_bodies_lem values (out ++ (encode v).1) ∙ append_assoc out (encode v).1 (bodies values)

-- The length of the header of a record.
unfoldable pub header_len : List Value → ℕ
header_len values = serial_bytes values + header_width 9 (serial_bytes values) 1

-- A record is the length of its header, the serial types and the bodies.
pub encode_record_lem :
    (u : Unicode) (values : List Value)
    → All (IsValue u) values
    → header_len values < 2 ^ 64
    → encode_record values ≡ encoding (header_len values) ++ (serials values ++ bodies values)
unfolding encode_record header_len
encode_record_lem u values h fits =
    ap (λ t. write_bodies values (write_serials values t))
      (ap (λ t. t.0) (write_varint_lem _ [] fits))
    ∙ ap (λ t. write_bodies values t) (write_serials_lem u values (encoding _) h)
    ∙ write_bodies_lem values _
    ∙ append_assoc (encoding _) (serials values) (bodies values)

pub header_len_bounds :
    (values : List Value)
    → serial_bytes values < 2 ^ 62
    → (header_len values < 2 ^ 63)
      × (header_len values ≡ varint_len (header_len values) + serial_bytes values)
unfolding header_len
header_len_bounds values h =
    let n : ℕ = serial_bytes values in
    let exact = header_width_lem n (omega arith) in
    let bound = header_width-le 9 n 1 in (omega arith, rw exact (omega arith))
