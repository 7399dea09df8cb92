-- ===== src/Format/Varint/RoundTrip.antt =====
-- `read_varint` and `varint_len` on what `write_varint` writes.
use rustqlite.Base.{
  ℕ, zero, suc, ◌+◌, ◌-◌, ◌*◌, ◌/◌, ◌%◌, ◌^◌, ◌≤◌, ◌<◌, ◌≡◌, refl, ap, ◌∙◌, List, [], ◌∷◌, ◌++◌,
  length, some, arith, bit_and, bit_or, ◌==◌, Bool-cases, inl, inr, true, false, if◌then◌else◌, ltb,
  ltb→lt,
}
use rustqlite.Base.Bits.{low7, top_bit, bit_or_join, high_byte, bit_and-low_byte}
use rustqlite.Format.Varint.{
  read_loop, read_varint, len_loop, varint_len, group, tmp_loop, clear_first, reversed_onto,
  write_varint,
}
use rustqlite.Format.Varint.Groups.{groups, group_lem, fill_slots_lem, reversed_tmp}

-- One round of the loop on a byte with the continuation bit, and on a byte without it.
read_inner :
    (m i r g : ℕ) (tail : List ℕ)
    → r < 2 ^ 57
    → g < 128
    → read_loop (suc m) i r ((g + 128) ∷ tail) ≡ read_loop m (i + 1) (r * 128 + g) tail
unfolding read_loop
read_inner m i r g tail hr hg = ground (
  arith,
  low7 (g + 128),
  top_bit (g + 128),
  bit_or_join 7 r g,
  ap (λ (t : ℕ). bit_or (r * 128 % 2 ^ 64) t) (low7 (g + 128) (omega arith)),
)

read_last :
    (m i r b : ℕ) (tail : List ℕ)
    → r < 2 ^ 57
    → b < 128
    → read_loop (suc m) i r (b ∷ tail) ≡ some (r * 128 + b, i + 1)
unfolding read_loop
read_last m i r b tail hr hb = ground (
  arith,
  top_bit b,
  bit_or_join 7 r b,
  ap (λ (t : ℕ). bit_or (r * 128 % 2 ^ 64) t) (low7 b (omega arith)),
)

read_ninth :
    (i r b : ℕ) (tail : List ℕ)
    → r < 2 ^ 56
    → b < 256
    → read_loop 0 i r (b ∷ tail) ≡ some (r * 256 + b, 9)
unfolding read_loop
read_ninth i r b tail hr hb = ground (arith, bit_or_join 8 r b)

-- After `n` groups of `v` the loop holds `v`.
read_groups :
    (n m k v : ℕ) (tail : List ℕ)
    → k ≡ n + m
    → v < 128 ^ n
    → v < 2 ^ 56
    → read_loop k 0 0 (groups n v tail) ≡ read_loop m n v tail
unfolding groups
read_groups zero m k v tail e h b =
    let v_zero : v ≡ 0 = omega arith in let k_m : k ≡ m = omega arith in rw (v_zero, k_m) refl
read_groups (suc n) m k v tail e h b =
    let p : ℕ = 128 ^ n in
    let joined : v / 128 * 128 + v % 128 ≡ v = omega arith in
    let next : n + 1 ≡ suc n = omega arith in
    read_groups n (suc m) k (v / 128) _ (omega arith) (omega arith) (omega arith)
    ∙ read_inner m n (v / 128) (v % 128) tail (omega arith) (omega arith)
    ∙ rw (joined, next) refl

groups-append : (n v : ℕ) (tail rest : List ℕ) → groups n v tail ++ rest ≡ groups n v (tail ++ rest)
unfolding groups
groups-append zero v tail rest = refl
groups-append (suc n) v tail rest = groups-append n (v / 128) _ rest

pub length-groups : (n v : ℕ) (tail : List ℕ) → length (groups n v tail) ≡ n + length tail
unfolding groups
length-groups zero v tail = omega arith
length-groups (suc n) v tail = omega (arith, length-groups n (v / 128) ((v % 128 + 128) ∷ tail))

-- The short form has as many groups as the number needs, and at most `k`.
pub tmp_fits : (f v : ℕ) → v < 128 ^ f → v < 128 ^ length (tmp_loop f v)
unfolding tmp_loop
tmp_fits zero v h = h
tmp_fits (suc f) v h = ground (arith, tmp_fits f (v / 128))

pub length-tmp : (f k v : ℕ) → v < 128 ^ suc k → length (tmp_loop f v) ≤ suc k
unfolding tmp_loop
length-tmp zero k v h = omega arith
length-tmp (suc f) zero v h = ground arith
length-tmp (suc f) (suc k) v h = ground (arith, length-tmp f k (v / 128))

len_loop_lem :
    (k f w len : ℕ)
    → f ≤ k
    → w < 128 ^ f
    → len_loop (suc k) w len ≡ len + (if w == 0 then 0 else length (tmp_loop f w))
unfolding len_loop tmp_loop
len_loop_lem k zero w len hk hw = ground arith
len_loop_lem zero (suc f) w len hk hw = absurd (omega arith)
len_loop_lem (suc k) (suc f) w len hk hw = ground (arith, len_loop_lem k f (w / 128) (len + 1))

-- What the format asks for: below 2 ^ 56 the groups that the number needs, and else nine bytes,
-- the last with eight bits.
unfoldable pub encoding : ℕ → List ℕ
encoding v =
    if ltb v (2 ^ 56)
    then groups (varint_len v - 1) (v / 128) ((v % 128) ∷ [])
    else groups 8 (v / 256) ((v % 256) ∷ [])

mask_low : (v : ℕ) → v < 2 ^ 56 → (bit_and v 0xff00_0000_0000_0000 == 0) ≡ true
mask_low v h = ground (arith, high_byte v)

mask_high : (v : ℕ) → v < 2 ^ 64 → 2 ^ 56 ≤ v → (bit_and v 0xff00_0000_0000_0000 == 0) ≡ false
mask_high v h l = ground (arith, high_byte v)

pub varint_len_short : (v : ℕ) → v < 2 ^ 56 → varint_len v ≡ length (tmp_loop 9 v)
unfolding varint_len tmp_loop
varint_len_short v h =
    rw (mask_low v h) (len_loop_lem 9 8 (v / 128) 1 (omega arith) (omega arith) ∙ (ground arith))

pub varint_len_long : (v : ℕ) → v < 2 ^ 64 → 2 ^ 56 ≤ v → varint_len v ≡ 9
unfolding varint_len
varint_len_long v h l = rw (mask_high v h l) refl

cleared : (v : ℕ) → bit_and (group v) 0x7f ≡ v % 128
cleared v = rw (group_lem v) (low7 (v % 128 + 128) (omega arith) ∙ (omega arith))

reversed_cleared :
    (f v : ℕ)
    → reversed_onto (clear_first (tmp_loop (suc f) v)) []
      ≡ groups (length (tmp_loop (suc f) v) - 1) (v / 128) ((v % 128) ∷ [])
unfolding reversed_onto clear_first tmp_loop groups
reversed_cleared f v = elim (Bool-cases (v / 128 == 0)) [
  | inl done ↦ rw (done, cleared v) refl
  | inr more ↦ rw (more, cleared v, ← last) (reversed_tmp f (v / 128) _)
]
  where
    last : length (tmp_loop f (v / 128)) ≡ suc (length (tmp_loop f (v / 128))) - 1
    last = omega arith

-- `write_varint` appends the encoding and returns its length.
pub write_varint_lem :
    (v : ℕ) (out : List ℕ) → v < 2 ^ 64 → write_varint v out ≡ (out ++ encoding v, varint_len v)
unfolding write_varint encoding
write_varint_lem v out h = elim (Bool-cases (ltb v (2 ^ 56))) [
  | inl short ↦
      let lt = ltb→lt v (2 ^ 56) short in
      rw (mask_low v lt, short, varint_len_short v lt)
        (ap (λ t. (out ++ t, length (tmp_loop 9 v))) (reversed_cleared 8 v))
  | inr long ↦
      let le : 2 ^ 56 ≤ v = ground arith in
      let low : bit_and v 255 % 256 ≡ v % 256 = omega (arith, bit_and-low_byte v) in
      rw (mask_high v h le, long, varint_len_long v h le, low)
        (ap (λ t. (out ++ t, 9)) (fill_slots_lem 8 (v / 256) _))
]

-- A number takes one to nine bytes; eight are enough exactly below 2 ^ 56, and `k` exactly below
-- 128 ^ k.
pub varint_len_bounds : (v : ℕ) → v < 2 ^ 64 → (1 ≤ varint_len v) × (varint_len v ≤ 9)
varint_len_bounds v h = elim (Bool-cases (ltb v (2 ^ 56))) [
  | inl short ↦
      let lt = ltb→lt v (2 ^ 56) short in
      let pos : 1 ≤ length (tmp_loop 9 v) = unfold tmp_loop in omega arith in
      rw (varint_len_short v lt) (pos, (omega (arith, length-tmp 9 7 v)))
  | inr long ↦ omega (arith, varint_len_long v h (ground arith))
]

pub length-encoding : (v : ℕ) → v < 2 ^ 64 → length (encoding v) ≡ varint_len v
unfolding encoding
length-encoding v h = elim (Bool-cases (ltb v (2 ^ 56))) [
  | inl short ↦ rw short (
      omega
        (arith, length-groups (varint_len v - 1) (v / 128) ((v % 128) ∷ []), varint_len_bounds v h))
  | inr long ↦ rw long (
      omega (arith, length-groups 8 (v / 256) ((v % 256) ∷ []), varint_len_long v h (ground arith)))
]

read_short :
    (n v : ℕ) (rest : List ℕ)
    → n < 8
    → v < 128 ^ suc n
    → v < 2 ^ 56
    → read_varint (groups n (v / 128) ((v % 128) ∷ []) ++ rest) ≡ some (v, suc n)
unfolding read_varint
read_short n v rest hn hv h =
    let m : ℕ = 7 - n in
    let joined : v / 128 * 128 + v % 128 ≡ v = omega arith in
    let next : n + 1 ≡ suc n = omega arith in
    rw (groups-append n (v / 128) ((v % 128) ∷ []) rest) (
      read_groups n (suc (7 - n)) 8 (v / 128) _ (omega arith) (omega arith) (omega arith)
      ∙ read_last (7 - n) n (v / 128) (v % 128) rest (omega arith) (omega arith)
      ∙ rw (joined, next) refl)

-- `read_varint` reads the number back with its length, whatever follows it.
pub read_varint-encoding :
    (v : ℕ) (rest : List ℕ) → v < 2 ^ 64 → read_varint (encoding v ++ rest) ≡ some (v, varint_len v)
unfolding encoding
read_varint-encoding v rest h = elim (Bool-cases (ltb v (2 ^ 56))) [
  | inl short ↦
      let lt = ltb→lt v (2 ^ 56) short in
      let len : suc (varint_len v - 1) ≡ varint_len v = omega (arith, varint_len_bounds v h) in
      let fits : v < 128 ^ suc (varint_len v - 1) =
        rw (len, varint_len_short v lt) (tmp_fits 9 v (omega arith)) in
      rw short (
        read_short (varint_len v - 1) v rest
          (omega (arith, varint_len_short v lt, length-tmp 9 7 v)) fits lt
        ∙ ap (λ (t : ℕ). some (v, t)) len)
  | inr long ↦
      let joined : v / 256 * 256 + v % 256 ≡ v = omega arith in
      rw (long, groups-append 8 (v / 256) ((v % 256) ∷ []) rest, varint_len_long v h (ground arith))
        (unfold read_varint in
          read_groups 8 0 8 (v / 256) _ refl (omega arith) (omega arith)
          ∙ read_ninth 8 (v / 256) (v % 256) rest (omega arith) (omega arith)
          ∙ (rw joined refl))
]

-- For every `u64`, `write_varint` appends bytes to `out` and returns how many; this is
-- `varint_len`, between 1 and 9; and `read_varint` on those bytes, whatever follows them, returns
-- the number and that count.
pub read_varint-write_varint :
    (v : ℕ) (out rest : List ℕ)
    → v < 2 ^ 64
    → (bytes : List ℕ) × (write_varint v out ≡ (out ++ bytes, length bytes))
      × (length bytes ≡ varint_len v)
      × (1 ≤ length bytes)
      × (length bytes ≤ 9)
      × (read_varint (bytes ++ rest) ≡ some (v, length bytes))
read_varint-write_varint v out rest h =
    let len = length-encoding v h in
    let bounds = varint_len_bounds v h in
    (
      encoding v,
      rw len (write_varint_lem v out h),
      len,
      rw len bounds.0,
      rw len bounds.1,
      rw len (read_varint-encoding v rest h),
    )
