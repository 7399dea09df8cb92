-- ===== src/Format/Header.antt =====
-- `DbHeader` of crates/rustsqlite-core/src/format/header.rs: the 100 bytes at the front of a file.
pub mod RoundTrip
pub mod Sound
use rustqlite.Base.{
  ℕ, zero, suc, ◌+◌, ◌-◌, ◌%◌, ◌^◌, List, [], ◌∷◌, ◌++◌, length, take, drop, get_or, replicate,
  Bool, not, ◌&&◌, leb, ltb, ◌==◌, bit_and, if◌then◌else◌,
}
use rustqlite.Base.Bytes.{slice, copy_at, bytes_eq, be_bytes, be_u16, be_u32}
use rustqlite.Base.Int.{ℤ}
use rustqlite.Base.Words.{as_i32, i32_as_u32}
use rustqlite.Error.{Result, ok, err, ◌>>=◌, ◌>>◌, guard, Message, corrupt, not_a_db}
use rustqlite.Format.TextEncoding.{TextEncoding, from_code, code}

-- `b"SQLite format 3\0"`.
abbrev pub magic : List ℕ
magic =
    0x53 ∷ 0x51 ∷ 0x4c ∷ 0x69 ∷ 0x74 ∷ 0x65 ∷ 0x20 ∷ 0x66 ∷ 0x6f ∷ 0x72 ∷ 0x6d ∷ 0x61 ∷ 0x74 ∷ 0x20
    ∷ 0x33 ∷ 0 ∷ []

pub record DbHeader : Type 0 where
  pub page_size : ℕ
  pub write_version : ℕ
  pub read_version : ℕ
  pub reserved_space : ℕ
  pub file_change_counter : ℕ
  pub db_size_pages : ℕ
  pub first_freelist_trunk : ℕ
  pub freelist_count : ℕ
  pub schema_cookie : ℕ
  pub schema_format : ℕ
  pub default_cache_size : ℤ
  pub largest_root_page : ℕ
  pub text_encoding : TextEncoding
  pub user_version : ℤ
  pub incremental_vacuum : ℕ
  pub application_id : ℕ
  pub version_valid_for : ℕ
  pub sqlite_version_number : ℕ

-- `page_size - reserved_space`; `parse` keeps the difference at 480 at least.
unfoldable pub usable_size : DbHeader → ℕ
usable_size h = h.page_size - h.reserved_space

-- `is_power_of_two`: exactly one bit is set.
pub is_power_of_two : ℕ → Bool
is_power_of_two n = not (n == 0) && bit_and n (n - 1) == 0

unfoldable pub is_valid_page_size : ℕ → Bool
unfolding is_power_of_two
is_valid_page_size n = leb 512 n && leb n 65_536 && is_power_of_two n

abbrev pub stored_page_size : ℕ → ℕ
stored_page_size raw = if raw == 1 then 65_536 else raw

-- The fields, once the checks have passed.
unfoldable pub fields : List ℕ → DbHeader
fields bytes = record {
  page_size = stored_page_size (be_u16 (slice 16 18 bytes));
  write_version = get_or bytes 18 0;
  read_version = get_or bytes 19 0;
  reserved_space = get_or bytes 20 0;
  file_change_counter = be_u32 (slice 24 28 bytes);
  db_size_pages = be_u32 (slice 28 32 bytes);
  first_freelist_trunk = be_u32 (slice 32 36 bytes);
  freelist_count = be_u32 (slice 36 40 bytes);
  schema_cookie = be_u32 (slice 40 44 bytes);
  schema_format = be_u32 (slice 44 48 bytes);
  default_cache_size = as_i32 (be_u32 (slice 48 52 bytes));
  largest_root_page = be_u32 (slice 52 56 bytes);
  text_encoding = from_code (be_u32 (slice 56 60 bytes));
  user_version = as_i32 (be_u32 (slice 60 64 bytes));
  incremental_vacuum = be_u32 (slice 64 68 bytes);
  application_id = be_u32 (slice 68 72 bytes);
  version_valid_for = be_u32 (slice 92 96 bytes);
  sqlite_version_number = be_u32 (slice 96 100 bytes);
}

unfoldable pub parse : List ℕ → Result DbHeader
parse bytes = do
  guard (leb 100 (length bytes))
      (not_a_db (Message.plain "file is shorter than the 100-byte header"))
  guard (bytes_eq (slice 0 16 bytes) magic)
      (not_a_db (Message.plain "file is not a database (bad header magic)"))
  let page_size = stored_page_size (be_u16 (slice 16 18 bytes))
  guard (is_valid_page_size page_size)
      (corrupt (Message.with_number "invalid page size " page_size))
  let reserved_space = get_or bytes 20 0
  guard (leb (480 + reserved_space) page_size)
      (not_a_db (Message.plain "usable page size is below the 480-byte minimum"))
  let read_version = get_or bytes 19 0
  guard (leb read_version 2)
      (not_a_db (Message.with_number "unsupported file format read version " read_version))
  ok (fields bytes)

-- The writes into the zeroed array of 100 bytes.
unfoldable pub serialize : DbHeader → List ℕ
serialize h =
    let b = copy_at 0 magic (replicate 100 0) in
    let raw_page_size = if h.page_size == 65_536 then 1 else h.page_size % 2 ^ 16 in
    let b = copy_at 16 (be_bytes 2 raw_page_size) b in
    let b = copy_at 18 (h.write_version ∷ []) b in
    let b = copy_at 19 (h.read_version ∷ []) b in
    let b = copy_at 20 (h.reserved_space ∷ []) b in
    let b = copy_at 21 (64 ∷ []) b in
    let b = copy_at 22 (32 ∷ []) b in
    let b = copy_at 23 (32 ∷ []) b in
    let b = copy_at 24 (be_bytes 4 h.file_change_counter) b in
    let b = copy_at 28 (be_bytes 4 h.db_size_pages) b in
    let b = copy_at 32 (be_bytes 4 h.first_freelist_trunk) b in
    let b = copy_at 36 (be_bytes 4 h.freelist_count) b in
    let b = copy_at 40 (be_bytes 4 h.schema_cookie) b in
    let b = copy_at 44 (be_bytes 4 h.schema_format) b in
    let b = copy_at 48 (be_bytes 4 (i32_as_u32 h.default_cache_size)) b in
    let b = copy_at 52 (be_bytes 4 h.largest_root_page) b in
    let b = copy_at 56 (be_bytes 4 (code h.text_encoding)) b in
    let b = copy_at 60 (be_bytes 4 (i32_as_u32 h.user_version)) b in
    let b = copy_at 64 (be_bytes 4 h.incremental_vacuum) b in
    let b = copy_at 68 (be_bytes 4 h.application_id) b in
    let b = copy_at 92 (be_bytes 4 h.version_valid_for) b in
    copy_at 96 (be_bytes 4 h.sqlite_version_number) b
