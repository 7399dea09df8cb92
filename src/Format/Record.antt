-- ===== src/Format/Record.antt =====
-- crates/rustsqlite-core/src/format/record.rs: the record codec. Lengths and positions are `usize`
-- of 64 bits; the sums of lengths of vectors in memory do not wrap.
pub mod Header
pub mod Steps
pub mod RoundTrip
use rustqlite.Base.{
  ℕ, zero, suc, ◌+◌, ◌^◌, true, false, List, [], ◌∷◌, ◌++◌, Option, none, some, length, drop, leb,
  ltb, ◌||◌, not, if◌then◌else◌,
}
use rustqlite.Base.Bytes.{slice}
use rustqlite.Error.{Result, ok, err, ◌>>=◌, ◌>>◌, guard, ok_or, Error, Message, corrupt}
use rustqlite.Format.SerialType.{SerialType, from_code, code, byte_len, encode, decode}
use rustqlite.Format.TextEncoding.{TextEncoding}
use rustqlite.Format.Varint.{read_varint, varint_len, write_varint}
use rustqlite.Types.Value.{Value, Unicode}

module _ (u : Unicode) where
  -- One round of the loop over the header: the new `header_pos` and `body_pos`, and the value.
  unfoldable pub decode_field : List ℕ → TextEncoding → ℕ → ℕ → Result (ℕ × ℕ × Value)
  decode_field payload encoding header_pos body_pos = do
    (c, k) ←
        ok_or (read_varint (drop header_pos payload))
          (corrupt (Message.plain "record serial-type varint"))
    let st = from_code c
    let end = body_pos + byte_len st
    guard (ltb end (2 ^ 64)) (corrupt (Message.plain "record body overflow"))
    guard (leb end (length payload))
        (corrupt (Message.plain "record body shorter than serial types imply"))
    v ← decode u st (slice body_pos end payload) encoding
    ok (header_pos + k, end, v)

  -- `while header_pos < header_len`; `none` means that the fuel ran out.
  unfoldable pub decode_loop :
      ℕ → List ℕ → TextEncoding → ℕ → ℕ → ℕ → List Value → Option (Result (List Value))
  decode_loop zero payload encoding header_len header_pos body_pos values = none
  decode_loop (suc fuel) payload encoding header_len header_pos body_pos values =
      elim (ltb header_pos header_len) [
        | false ↦ some (ok values)
        | true ↦ elim (decode_field payload encoding header_pos body_pos) [
          | err e ↦ some (err e)
          | ok (header_pos', body_pos', v) ↦
              decode_loop fuel payload encoding header_len header_pos' body_pos'
                (values ++ (v ∷ []))
        ]
      ]

  -- Each round takes a byte of the header at least: `header_len` rounds and the last test.
  unfoldable pub decode_record : List ℕ → TextEncoding → Option (Result (List Value))
  decode_record payload encoding = elim (read_varint payload) [
    | none ↦ some (err (corrupt (Message.plain "record header length varint")))
    | some (header_len, n) ↦
        if ltb (length payload) header_len || ltb header_len n
        then some (err (corrupt (Message.plain "record header length out of range")))
        else decode_loop (suc header_len) payload encoding header_len n header_len []
  ]

-- The first loop: `serial_bytes`, `serials` and `bodies`.
unfoldable pub serial_bytes : List Value → ℕ
serial_bytes [] = 0
serial_bytes (v ∷ values) = varint_len (code (encode v).0) + serial_bytes values

-- `while varint_len((serial_bytes + hv) as u64) > hv { hv += 1; }`
unfoldable pub header_width : ℕ → ℕ → ℕ → ℕ
header_width zero serial_bytes hv = hv
header_width (suc fuel) serial_bytes hv =
    let wider = header_width fuel serial_bytes (hv + 1) in
    if ltb hv (varint_len (serial_bytes + hv)) then wider else hv

-- `for st in &serials { write_varint(st.code(), &mut out); }`
unfoldable pub write_serials : List Value → List ℕ → List ℕ
write_serials [] out = out
write_serials (v ∷ values) out = write_serials values (write_varint (code (encode v).0) out).0

-- `for body in &bodies { out.extend_from_slice(body); }`
unfoldable pub write_bodies : List Value → List ℕ → List ℕ
write_bodies [] out = out
write_bodies (v ∷ values) out = write_bodies values (out ++ (encode v).1)

-- A varint has nine bytes at most, so eight widenings are enough.
unfoldable pub encode_record : List Value → List ℕ
encode_record values =
    let hv = header_width 9 (serial_bytes values) 1 in
    let header_len = serial_bytes values + hv in
    write_bodies values (write_serials values (write_varint header_len []).0)
