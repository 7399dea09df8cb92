-- ===== src/Format/SerialType/Integers.antt =====
-- Two's complement integers of one to eight bytes: reading undoes writing.
use rustqlite.Base.{
  ℕ, ◌+◌, ◌-◌, ◌*◌, ◌%◌, ◌^◌, ◌<◌, ◌≡◌, refl, ap, ◌∙◌, Bool, true, false, not, List, [], ◌∷◌,
  length, bit_or, if◌then◌else◌, arith, ltb,
}
use rustqlite.Base.Bits.{top_bit, bit_or_join}
use rustqlite.Base.Bytes.{slice, be_bytes, of_be_from, All, IsByte, be_bytes-IsByte}
use rustqlite.Base.Int.{ℤ, pos, negsuc, ◌≤ℤ◌}
use rustqlite.Base.Words.{as_u64, as_i64, IsI64}
use rustqlite.Format.SerialType.{
  SerialType, i8, i16, i24, i32, i48, i64, shift_in, is_negative, decode_be_int, encode_wide_int,
  within, byte_len,
}

-- A byte shifted into a pattern, in arithmetic.
shift_byte : (v b : ℕ) → b < 256 → bit_or (v * 256 % 2 ^ 64) b ≡ (v * 256 + b) % 2 ^ 64
shift_byte v b h =
    let e : v * 256 % 2 ^ 64 ≡ v % 2 ^ 56 * 2 ^ 8 = omega arith in
    omega (arith, ap (λ (t : ℕ). bit_or t b) e, bit_or_join 8 (v % 2 ^ 56) b h)

shift_in_lem :
    (v acc : ℕ) (bytes : List ℕ)
    → All IsByte bytes
    → v ≡ acc % 2 ^ 64
    → shift_in v bytes ≡ of_be_from acc bytes % 2 ^ 64
unfolding shift_in
shift_in_lem v acc [] h e = e
shift_in_lem v acc (b ∷ bytes) (hb, hs) e =
    rw (shift_byte v b hb)
      (shift_in_lem ((v * 256 + b) % 2 ^ 64) (acc * 256 + b) bytes hs (omega arith))

is_negative_lem : (b : ℕ) (bytes : List ℕ) → b < 256 → is_negative (b ∷ bytes) ≡ not (ltb b 128)
unfolding is_negative
is_negative_lem b bytes h = ground (arith, top_bit b)

-- Reading in arithmetic: the big-endian number, less 256 ^ n where the sign bit is set.
pub decode_be_int_lem :
    (b : ℕ) (bytes : List ℕ)
    → All IsByte (b ∷ bytes)
    → decode_be_int (b ∷ bytes)
      ≡ as_i64 (of_be_from (if ltb b 128 then 0 else 2 ^ 64 - 1) (b ∷ bytes) % 2 ^ 64)
unfolding decode_be_int
decode_be_int_lem b bytes h =
    let sign : ℕ = if ltb b 128 then 0 else 2 ^ 64 - 1 in
    ground (arith, is_negative_lem b bytes h.0, shift_in_lem sign sign (b ∷ bytes) h)

one_byte : (i : ℤ) → negsuc 0x7f ≤ℤ i → i ≤ℤ pos 0x7f → decode_be_int ((as_u64 i % 2 ^ 8) ∷ []) ≡ i
one_byte i lo hi =
    decode_be_int_lem (as_u64 i % 2 ^ 8) [] (omega arith) ∙ (unfold as_u64 as_i64 in ground arith)

two_bytes :
    (i : ℤ)
    → negsuc 0x7fff ≤ℤ i
    → i ≤ℤ pos 0x7fff
    → decode_be_int (be_bytes 2 (as_u64 i % 2 ^ 16)) ≡ i
two_bytes i lo hi =
    decode_be_int_lem _ _ (be_bytes-IsByte 2 _) ∙ (unfold as_u64 as_i64 in ground arith)

eight_bytes : (i : ℤ) → IsI64 i → decode_be_int (be_bytes 8 (as_u64 i)) ≡ i
eight_bytes i h =
    decode_be_int_lem _ _ (be_bytes-IsByte 8 _) ∙ (unfold as_u64 as_i64 in ground arith)

three_bytes :
    (i : ℤ)
    → negsuc 0x7f_ffff ≤ℤ i
    → i ≤ℤ pos 0x7f_ffff
    → decode_be_int (slice 1 4 (be_bytes 4 (as_u64 i % 2 ^ 32))) ≡ i
three_bytes i lo hi = decode_be_int_lem _ _ (omega arith) ∙ (unfold as_u64 as_i64 in ground arith)

four_bytes :
    (i : ℤ)
    → negsuc 0x7fff_ffff ≤ℤ i
    → i ≤ℤ pos 0x7fff_ffff
    → decode_be_int (be_bytes 4 (as_u64 i % 2 ^ 32)) ≡ i
four_bytes i lo hi =
    decode_be_int_lem _ _ (be_bytes-IsByte 4 _) ∙ (unfold as_u64 as_i64 in ground arith)

six_bytes :
    (i : ℤ)
    → negsuc 0x7fff_ffff_ffff ≤ℤ i
    → i ≤ℤ pos 0x7fff_ffff_ffff
    → decode_be_int (slice 2 8 (be_bytes 8 (as_u64 i))) ≡ i
six_bytes i lo hi = decode_be_int_lem _ _ (omega arith) ∙ (unfold as_u64 as_i64 in ground arith)

-- A serial type of whole bytes that `decode` hands to `decode_be_int`.
abbrev pub IsInt : SerialType → Type 0
IsInt i8 = Unit
IsInt i16 = Unit
IsInt i24 = Unit
IsInt i32 = Unit
IsInt i48 = Unit
IsInt i64 = Unit
IsInt _ = ⊥

-- The bytes are as many as the type says, and read back as the integer.
abbrev pub Holds : ℤ → SerialType × List ℕ → Type 0
Holds i r = IsInt r.0 × (length r.1 ≡ byte_len r.0) × (decode_be_int r.1 ≡ i)

if-Holds :
    (i : ℤ) (b : Bool) (x y : SerialType × List ℕ)
    → (b ≡ true → Holds i x)
    → Holds i y
    → Holds i (if b then x else y)
if-Holds i true x y h k = h refl
if-Holds i false x y h k = k

within_bounds : (i : ℤ) (m : ℕ) → within i m ≡ true → (negsuc (m - 1) ≤ℤ i) × (i ≤ℤ pos (m - 1))
within_bounds i m h = ground arith

narrow :
    (i : ℤ) (m : ℕ) (x y : SerialType × List ℕ)
    → (negsuc (m - 1) ≤ℤ i → i ≤ℤ pos (m - 1) → Holds i x)
    → Holds i y
    → Holds i (if within i m then x else y)
narrow i m x y h k =
    if-Holds i (within i m) x y (λ e. h (within_bounds i m e).0 (within_bounds i m e).1) k

-- The chosen width holds the integer.
pub encode_wide_int_lem : (i : ℤ) → IsI64 i → Holds i (encode_wide_int i)
unfolding encode_wide_int byte_len
encode_wide_int_lem i h =
    narrow i 0x80 _ _ (λ lo hi. (tt, refl, one_byte i lo hi))
      (narrow i 0x8000 _ _ (λ lo hi. (tt, refl, two_bytes i lo hi))
        (narrow i 0x80_0000 _ _ (λ lo hi. (tt, refl, three_bytes i lo hi))
          (narrow i 0x8000_0000 _ _ (λ lo hi. (tt, refl, four_bytes i lo hi))
            (narrow i 0x8000_0000_0000 _ _ (λ lo hi. (tt, refl, six_bytes i lo hi))
              (tt, refl, eight_bytes i h)))))
