-- ===== src/Format/Header/Sound.antt =====
-- What a header that `parse` accepts satisfies, whatever the bytes were.
use rustqlite.Base.{ℕ, zero, suc, ◌-◌, ◌^◌, ◌≤◌, ◌<◌, ◌≡◌, List, [], ◌∷◌, get_or, take, drop, arith}
use rustqlite.Base.Bytes.{All, IsByte, slice, be_u32}
use rustqlite.Base.Words.{as_i32, IsI32}
use rustqlite.Error.{ok}
use rustqlite.Format.Header.{DbHeader, usable_size, fields, parse}
use rustqlite.Format.Header.RoundTrip.{IsHeader, Passes}

parse-eq-ok :
    (bytes : List ℕ) (h : DbHeader) → parse bytes ≡ ok h → Passes bytes × (fields bytes ≡ h)
unfolding parse
parse-eq-ok bytes h e = ground arith

get_or-IsByte : (i : ℕ) (xs : List ℕ) → All IsByte xs → get_or xs i 0 < 256
get_or-IsByte i [] h = omega arith
get_or-IsByte zero (x ∷ xs) h = h.0
get_or-IsByte (suc i) (x ∷ xs) h = get_or-IsByte i xs h.1

All-take : (n : ℕ) (xs : List ℕ) → All IsByte xs → All IsByte (take n xs)
All-take zero xs h = tt
All-take (suc n) [] h = tt
All-take (suc n) (x ∷ xs) h = (h.0, All-take n xs h.1)

All-drop : (n : ℕ) (xs : List ℕ) → All IsByte xs → All IsByte (drop n xs)
All-drop zero xs h = h
All-drop (suc n) [] h = tt
All-drop (suc n) (x ∷ xs) h = All-drop n xs h.1

be_u32-lt : (xs : List ℕ) → All IsByte xs → be_u32 xs < 2 ^ 32
be_u32-lt xs h =
    omega (
      arith,
      get_or-IsByte 0 xs h,
      get_or-IsByte 1 xs h,
      get_or-IsByte 2 xs h,
      get_or-IsByte 3 xs h,
    )

as_i32-IsI32 : (v : ℕ) → v < 2 ^ 32 → IsI32 (as_i32 v)
unfolding as_i32
as_i32-IsI32 v h = ground arith

module _ (bytes : List ℕ) (b : All IsByte bytes) where
  field-lt : (from to : ℕ) → be_u32 (slice from to bytes) < 2 ^ 32
  field-lt from to = be_u32-lt _ (All-take (to - from) (drop from bytes) (All-drop from bytes b))

  fields-IsHeader : Passes bytes → IsHeader (fields bytes)
  unfolding fields
  fields-IsHeader p = record {
    page = p.page;
    reserved = get_or-IsByte 20 bytes b;
    usable = ground arith;
    written = get_or-IsByte 18 bytes b;
    readable = ground arith;
    change = field-lt 24 28;
    size = field-lt 28 32;
    trunk = field-lt 32 36;
    free = field-lt 36 40;
    cookie = field-lt 40 44;
    format = field-lt 44 48;
    cache = as_i32-IsI32 _ (field-lt 48 52);
    root = field-lt 52 56;
    user = as_i32-IsI32 _ (field-lt 60 64);
    vacuum = field-lt 64 68;
    application = field-lt 68 72;
    valid_for = field-lt 92 96;
    version = field-lt 96 100;
  }

-- Whatever the bytes, a header that `parse` returns has every field in the range of its type, a
-- page size that is a power of two from 512 to 65536, a read version of at most 2, and a usable
-- page size of at least 480.
pub parse-IsHeader :
    (bytes : List ℕ) (h : DbHeader)
    → All IsByte bytes
    → parse bytes ≡ ok h
    → IsHeader h × (480 ≤ usable_size h)
unfolding usable_size
parse-IsHeader bytes h b e =
    let (passes, same) = parse-eq-ok bytes h e in
    let valid : IsHeader h = rw same at (fields-IsHeader bytes b passes) in (valid, (omega arith))
