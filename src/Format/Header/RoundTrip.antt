-- ===== src/Format/Header/RoundTrip.antt =====
-- `parse` and `serialize` undo one another.
use rustqlite.Base.{
  ℕ, ◌+◌, ◌%◌, ◌^◌, ◌≤◌, ◌<◌, ◌≡◌, refl, ap, ◌∙◌, true, List, ◌++◌, length, get_or, arith, ◌==◌,
  if◌then◌else◌, leb,
}
use rustqlite.Base.Int.{ℤ, pos, negsuc}
use rustqlite.Base.Bytes.{slice, bytes_eq, be_bytes, be_u16, be_u32, be_u32-be_bytes}
use rustqlite.Base.Words.{as_i32, i32_as_u32, as_i32-as_u32, IsI32}
use rustqlite.Error.{ok}
use rustqlite.Format.TextEncoding.{
  TextEncoding, utf8, utf16_le, utf16_be, from_code, code, from_code-code,
}
use rustqlite.Format.Header.{
  DbHeader, magic, stored_page_size, is_valid_page_size, fields, parse, serialize,
}

-- The ranges of the fields, and what `parse` checks.
pub record IsHeader (h : DbHeader) : Type 0 where
  pub page : is_valid_page_size h.page_size ≡ true
  pub reserved : h.reserved_space < 256
  pub usable : 480 + h.reserved_space ≤ h.page_size
  pub written : h.write_version < 256
  pub readable : h.read_version ≤ 2
  pub change : h.file_change_counter < 2 ^ 32
  pub size : h.db_size_pages < 2 ^ 32
  pub trunk : h.first_freelist_trunk < 2 ^ 32
  pub free : h.freelist_count < 2 ^ 32
  pub cookie : h.schema_cookie < 2 ^ 32
  pub format : h.schema_format < 2 ^ 32
  pub cache : IsI32 h.default_cache_size
  pub root : h.largest_root_page < 2 ^ 32
  pub user : IsI32 h.user_version
  pub vacuum : h.incremental_vacuum < 2 ^ 32
  pub application : h.application_id < 2 ^ 32
  pub valid_for : h.version_valid_for < 2 ^ 32
  pub version : h.sqlite_version_number < 2 ^ 32

code-lt : (e : TextEncoding) → code e < 2 ^ 32
unfolding code
code-lt utf8 = omega arith
code-lt utf16_le = omega arith
code-lt utf16_be = omega arith

i32_as_u32-lt : (i : ℤ) → i32_as_u32 i < 2 ^ 32
unfolding i32_as_u32
i32_as_u32-lt (pos n) = omega arith
i32_as_u32-lt (negsuc n) = omega arith

-- A signed field through its four bytes.
signed_field : (i : ℤ) → IsI32 i → as_i32 (be_u32 (be_bytes 4 (i32_as_u32 i))) ≡ i
signed_field i h = ap as_i32 (be_u32-be_bytes (i32_as_u32 i) (i32_as_u32-lt i)) ∙ as_i32-as_u32 i h

encoding_field : (e : TextEncoding) → from_code (be_u32 (be_bytes 4 (code e))) ≡ e
encoding_field e = ap from_code (be_u32-be_bytes (code e) (code-lt e)) ∙ from_code-code e

abbrev pub raw_page_size : ℕ → ℕ
raw_page_size n = if n == 65_536 then 1 else n % 2 ^ 16

page_bounds : (n : ℕ) → is_valid_page_size n ≡ true → (512 ≤ n) × (n ≤ 65_536)
unfolding is_valid_page_size
page_bounds n h = ground arith

-- 65536 is stored as 1.
page_field :
    (n : ℕ)
    → is_valid_page_size n ≡ true
    → stored_page_size (be_u16 (be_bytes 2 (raw_page_size n))) ≡ n
page_field n h = ground (arith, page_bounds n h)

-- What `parse` checks, and that it succeeds exactly where all of it holds.
pub record Passes (bytes : List ℕ) : Type 0 where
  pub long : leb 100 (length bytes) ≡ true
  pub begins : bytes_eq (slice 0 16 bytes) magic ≡ true
  pub page : is_valid_page_size (stored_page_size (be_u16 (slice 16 18 bytes))) ≡ true
  pub usable : leb (480 + get_or bytes 20 0) (stored_page_size (be_u16 (slice 16 18 bytes))) ≡ true
  pub readable : leb (get_or bytes 19 0) 2 ≡ true

parse-Passes : (bytes : List ℕ) → Passes bytes → parse bytes ≡ ok (fields bytes)
unfolding parse
parse-Passes bytes p = rw (p.long, p.begins, p.page, p.usable, p.readable) refl

module _ (h : DbHeader) (v : IsHeader h) where
  fields-serialize : (rest : List ℕ) → fields (serialize h ++ rest) ≡ h
  unfolding fields serialize
  fields-serialize rest = λ i. record {
    page_size = page_field h.page_size v.page i;
    write_version = h.write_version;
    read_version = h.read_version;
    reserved_space = h.reserved_space;
    file_change_counter = be_u32-be_bytes h.file_change_counter v.change i;
    db_size_pages = be_u32-be_bytes h.db_size_pages v.size i;
    first_freelist_trunk = be_u32-be_bytes h.first_freelist_trunk v.trunk i;
    freelist_count = be_u32-be_bytes h.freelist_count v.free i;
    schema_cookie = be_u32-be_bytes h.schema_cookie v.cookie i;
    schema_format = be_u32-be_bytes h.schema_format v.format i;
    default_cache_size = signed_field h.default_cache_size v.cache i;
    largest_root_page = be_u32-be_bytes h.largest_root_page v.root i;
    text_encoding = encoding_field h.text_encoding i;
    user_version = signed_field h.user_version v.user i;
    incremental_vacuum = be_u32-be_bytes h.incremental_vacuum v.vacuum i;
    application_id = be_u32-be_bytes h.application_id v.application i;
    version_valid_for = be_u32-be_bytes h.version_valid_for v.valid_for i;
    sqlite_version_number = be_u32-be_bytes h.sqlite_version_number v.version i;
  }

  -- `serialize` gives 100 bytes, and `parse` reads every header whose fields are in range back
  -- from them, whatever follows.
  pub parse-serialize :
      (rest : List ℕ) → (length (serialize h) ≡ 100) × (parse (serialize h ++ rest) ≡ ok h)
  parse-serialize rest = (
    (unfold serialize in refl),
    parse-Passes (serialize h ++ rest) passes ∙ ap ok (fields-serialize rest),
  )
    where
      passes : Passes (serialize h ++ rest)
      passes =
          unfold serialize in
          record {
            long = ground arith;
            begins = refl;
            page = rw (page_field h.page_size v.page) v.page;
            usable = rw (page_field h.page_size v.page) (ground arith);
            readable = ground arith;
          }
