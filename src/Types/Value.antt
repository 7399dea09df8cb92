-- ===== src/Types/Value.antt =====
-- crates/rustsqlite-core/src/types/value.rs: the five storage classes.
-- An `i64` is a `ℤ`, an `f64` its 64 bits as a number, a `String` the list of its UTF-8 bytes.
use rustqlite.Base.{ℕ, Bool, true, false, List, ◌≡◌, ◌<◌, ◌^◌, length}
use rustqlite.Base.Int.{ℤ}
use rustqlite.Base.Words.{IsI64}

pub data Value : Type 0 where
  null : Value
  int : ℤ → Value
  real : ℕ → Value
  text : List ℕ → Value
  blob : List ℕ → Value

-- What `String` needs of Unicode, from Rust's standard library: the test of UTF-8, and the
-- conversions that replace what is malformed. Valid UTF-8 is converted to itself.
pub record Unicode : Type 0 where
  pub is_utf8 : List ℕ → Bool
  pub from_utf8_lossy : List ℕ → List ℕ
  pub from_utf16_lossy : List ℕ → List ℕ
  pub from_utf8_valid : (s : List ℕ) → is_utf8 s ≡ true → from_utf8_lossy s ≡ s

-- The codes of `sqlite3_column_type`.
unfoldable pub storage_class : Value → ℕ
storage_class null = 5
storage_class (int i) = 1
storage_class (real r) = 2
storage_class (text s) = 3
storage_class (blob b) = 4

unfoldable pub is_null : Value → Bool
is_null null = true
is_null (int i) = false
is_null (real r) = false
is_null (text s) = false
is_null (blob b) = false

-- What holds of every value that the engine can build: machine ranges, valid text, and lengths of
-- vectors, which are at most `isize::MAX`.
abbrev pub IsValue : Unicode → Value → Type 0
IsValue u null = Unit
IsValue u (int i) = IsI64 i
IsValue u (real r) = r < 2 ^ 64
IsValue u (text s) = (u.is_utf8 s ≡ true) × (length s < 2 ^ 62)
IsValue u (blob b) = length b < 2 ^ 62
