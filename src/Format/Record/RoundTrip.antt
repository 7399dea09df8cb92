-- ===== src/Format/Record/RoundTrip.antt =====
-- `decode_record` on what `encode_record` writes.
use rustqlite.Base.{
  ℕ, zero, suc, ◌+◌, ◌-◌, ◌^◌, ◌<◌, ◌≡◌, refl, ap, ◌∙◌, sym, List, [], ◌∷◌, ◌++◌, length,
  length-append, drop, arith, ltb, leb, true, false, some,
}
use rustqlite.Base.Bytes.{All, slice, take-length_append, drop-length_append}
use rustqlite.Error.{ok}
use rustqlite.Format.SerialType.{code, encode}
use rustqlite.Format.SerialType.Laws.{from_code-code, encode-Encodes}
use rustqlite.Format.TextEncoding.{TextEncoding, utf8}
use rustqlite.Format.Varint.{read_varint, varint_len}
use rustqlite.Format.Varint.RoundTrip.{
  encoding, read_varint-encoding, length-encoding, varint_len_bounds,
}
use rustqlite.Format.Record.{decode_field, decode_loop, decode_record, encode_record, serial_bytes}
use rustqlite.Format.Record.Steps.{loop_stops, loop_steps}
use rustqlite.Format.Record.Header.{
  serials, bodies, header_len, header_len_bounds, length-serials, encode_record_lem,
}
use rustqlite.Types.Value.{Value, Unicode, IsValue}
use mathlib.Core.List.{append-nil, append_assoc}

slice_middle {ℓ} :
    {A : Type ℓ} (xs ys zs : List A) (n : ℕ)
    → n ≡ length ys
    → slice (length xs) (length xs + n) (xs ++ (ys ++ zs)) ≡ ys
slice_middle xs ys zs n e =
    let width : length xs + n - length xs ≡ length ys = omega arith in
    rw (width, drop-length_append xs (ys ++ zs)) (take-length_append ys zs)

module _ (u : Unicode) where
  -- One round on a payload that has the value's serial type at `header_pos` and its bytes at
  -- `body_pos`.
  decode_field_lem :
      (v : Value) (payload front rest front' rest' : List ℕ)
      → IsValue u v
      → payload ≡ front ++ (encoding (code (encode v).0) ++ rest)
      → payload ≡ front' ++ ((encode v).1 ++ rest')
      → length payload < 2 ^ 64
      → decode_field u payload utf8 (length front) (length front')
        ≡ ok (
          length front + length (encoding (code (encode v).0)),
          length front' + length (encode v).1,
          v,
        )
  unfolding decode_field
  decode_field_lem v payload front rest front' rest' h e e' fits =
      let c : ℕ = code (encode v).0 in
      let body = (encode v).1 in
      let (canonical, len, decoded) = encode-Encodes u v h in
      let (back, small) = from_code-code (encode v).0 canonical in
      let read : read_varint (drop (length front) payload) ≡ some (c, length (encoding c)) =
        rw (e, drop-length_append front (encoding c ++ rest), length-encoding c small)
          (read_varint-encoding c rest small) in
      let total : length payload ≡ length front' + (length body + length rest') =
        rw (e', length-append front' (body ++ rest'), length-append body rest') refl in
      let below : ltb (length front' + length body) (2 ^ 64) ≡ true = ground arith in
      let inside : leb (length front' + length body) (length payload) ≡ true = ground arith in
      let taken : slice (length front') (length front' + length body) payload ≡ body =
        rw e' (slice_middle front' body rest' (length body) refl) in
      rw (read, back, ← len, below, inside, taken, decoded) refl

  -- The loop reads the values whose serial types and bodies are still ahead.
  decode_loop_lem :
      (values acc : List Value) (payload front front' rest : List ℕ) (fuel end : ℕ)
      → All (IsValue u) values
      → payload ≡ front ++ (serials values ++ rest)
      → payload ≡ front' ++ bodies values
      → length payload < 2 ^ 64
      → end ≡ length front + length (serials values)
      → length (serials values) < fuel
      → decode_loop u fuel payload utf8 end (length front) (length front') acc
        ≡ some (ok (acc ++ values))
  decode_loop_lem values acc payload front front' rest zero end h e e' fits at_end f =
      absurd (omega arith)
  decode_loop_lem [] acc payload front front' rest (suc fuel) end h e e' fits at_end f =
      let stop : ltb (length front) end ≡ false = unfold serials in ground arith in
      rw (append-nil acc) (loop_stops u payload utf8 fuel end _ _ acc stop)
  decode_loop_lem (v ∷ values) acc payload front front' rest (suc fuel) end (hv, hs) e e' fits
        at_end f =
      let c : ℕ = code (encode v).0 in
      let body = (encode v).1 in
      let small = (from_code-code (encode v).0 (encode-Encodes u v hv).0).1 in
      let width = length-encoding c small in
      let bounds = varint_len_bounds c small in
      let sum : length (serials (v ∷ values)) ≡ length (encoding c) + length (serials values) =
        unfold serials in length-append (encoding c) (serials values) in
      let next : payload ≡ front ++ (encoding c ++ (serials values ++ rest)) =
        e
        ∙ ap (λ t. front ++ t)
            (unfold serials in append_assoc (encoding c) (serials values) rest) in
      let next' : payload ≡ front' ++ (body ++ bodies values) = e' ∙ (unfold bodies in refl) in
      let go : ltb (length front) end ≡ true = ground arith in
      let field =
        decode_field_lem v payload front (serials values ++ rest) front' (bodies values) hv next
          next' fits in
      let tail =
        decode_loop_lem values (acc ++ (v ∷ [])) payload (front ++ encoding c) (front' ++ body) rest
          fuel end hs (next ∙ sym (append_assoc front (encoding c) (serials values ++ rest)))
          (next' ∙ sym (append_assoc front' body (bodies values))) fits
          (omega (arith, length-append front (encoding c))) (omega arith) in
      loop_steps u payload utf8 fuel end _ _ acc go field
      ∙ rw (← length-append front (encoding c), ← length-append front' body)
          (tail ∙ ap (λ t. some (ok t)) (append_assoc acc (v ∷ []) values))

  -- `decode_record` on a payload whose header fits.
  record_loops :
      (payload : List ℕ) (encoding : TextEncoding) (end n : ℕ)
      → read_varint payload ≡ some (end, n)
      → ltb (length payload) end ≡ false
      → ltb end n ≡ false
      → decode_record u payload encoding ≡ decode_loop u (suc end) payload encoding end n end []
  unfolding decode_record
  record_loops payload encoding end n read long wide = rw (read, long, wide, decode_record) refl

  -- `decode_record` returns exactly the values that `encode_record` was given, text in UTF-8, if
  -- each is a value of the engine and their serial types and bodies take less than 2 ^ 62 bytes.
  pub decode_record-encode_record :
      (values : List Value)
      → All (IsValue u) values
      → serial_bytes values + length (bodies values) < 2 ^ 62
      → decode_record u (encode_record values) utf8 ≡ some (ok values)
  decode_record-encode_record values h small =
      let end : ℕ = header_len values in
      let head = encoding end in
      let (fits, exact) = header_len_bounds values (omega arith) in
      let width = length-encoding end (omega arith) in
      let types = length-serials u values h in
      let whole = encode_record_lem u values h (omega arith) in
      let payload = head ++ (serials values ++ bodies values) in
      let total : length payload
          ≡ length head + (length (serials values) + length (bodies values)) =
        length-append head (serials values ++ bodies values)
        ∙ ap (λ (t : ℕ). length head + t) (length-append (serials values) (bodies values)) in
      let position : length (head ++ serials values) ≡ end =
        length-append head (serials values) ∙ (omega arith) in
      let long : ltb (length payload) end ≡ false = ground arith in
      let wide : ltb end (varint_len end) ≡ false = ground arith in
      let read : read_varint payload ≡ some (end, varint_len end) =
        read_varint-encoding end (serials values ++ bodies values) (omega arith) in
      let loop =
        decode_loop_lem values [] payload head (head ++ serials values) (bodies values) (suc end)
          end h refl (sym (append_assoc head (serials values) (bodies values))) (omega arith)
          (omega arith) (omega arith) in
      rw whole (
        record_loops payload utf8 end (varint_len end) read long wide
        ∙ (rw (← width) (rw position at loop)))
