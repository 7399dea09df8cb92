-- ===== src/Tests/Codecs.antt =====
-- The codecs of crates/rustsqlite-core/src/format.
use rustqlite.Base.{
  ℕ, ◌+◌, ◌≤◌, ◌<◌, ◌^◌, ◌≡◌, ◌≢◌, refl, true, List, [], ◌∷◌, ◌++◌, length, some, none, arith,
  replicate, get_or, ap,
}
use rustqlite.Base.Bytes.{All, IsByte}
use rustqlite.Base.Int.{pos, negsuc}
use rustqlite.Error.{ok}
use rustqlite.Format.Varint.{read_varint, write_varint, varint_len}
use rustqlite.Format.Varint.RoundTrip.{read_varint-write_varint}
use rustqlite.Format.Varint.Reading.{read_varint_takes}
use rustqlite.Format.SerialType.{code, encode}
use rustqlite.Format.SerialType.Laws.{encode-Encodes, Encodes}
use rustqlite.Format.TextEncoding
use rustqlite.Base.Words.{i32_as_u32}
use rustqlite.Format.TextEncoding.{TextEncoding, utf8}
use rustqlite.Format.Record.{
  decode_record, encode_record, serial_bytes, header_width, write_serials, write_bodies,
}
use rustqlite.Format.Record.Header.{bodies}
use rustqlite.Format.Record.Steps.{decode_record-ne-none}
use rustqlite.Format.Record.RoundTrip.{decode_record-encode_record}
use rustqlite.Format.Header.{DbHeader, is_valid_page_size, parse, serialize, usable_size}
use rustqlite.Format.Header.RoundTrip.{IsHeader, parse-serialize}
use rustqlite.Format.Header.Sound.{parse-IsHeader}
use rustqlite.Format.Wal.{WalHeader, WalFrameHeader, wal_checksum, checksum_loop, read_u32, wr_add}
use rustqlite.Format.Wal.Detection.{wal_checksum_detects}
use rustqlite.Types.Value.{Value, IsValue}
use rustqlite.Tests.Ascii.{ascii}

-- The encoding of 300 in the source's tests.
varint_300 : write_varint 300 [] ≡ (0x82 ∷ 0x2c ∷ [], 2)
unfolding write_varint
varint_300 = refl

abbrev two_bytes : List ℕ
two_bytes = 0x82 ∷ 0x2c ∷ []

read_300 : read_varint (0x82 ∷ 0x2c ∷ []) ≡ some (300, 2)
unfolding read_varint
read_300 = refl

read_truncated : read_varint (0x80 ∷ []) ≡ none
unfolding read_varint
read_truncated = refl

varint_max : write_varint 0xffff_ffff_ffff_ffff [] ≡ (replicate 9 0xff, 9)
unfolding write_varint
varint_max = refl

read_varint-write_varint_example :
    (bytes : List ℕ) × (write_varint 300 (7 ∷ []) ≡ (7 ∷ bytes, length bytes))
    × (length bytes ≡ varint_len 300)
    × (1 ≤ length bytes)
    × (length bytes ≤ 9)
    × (read_varint (bytes ++ (1 ∷ [])) ≡ some (300, length bytes))
read_varint-write_varint_example = read_varint-write_varint 300 (7 ∷ []) (1 ∷ []) (omega arith)

read_varint_takes_example : (1 ≤ 2) × (2 ≤ 9) × (2 ≤ length two_bytes)
read_varint_takes_example = read_varint_takes two_bytes 300 2 read_300

encode-Encodes_example : Encodes ascii (Value.int (negsuc 128)) (encode (Value.int (negsuc 128)))
encode-Encodes_example = encode-Encodes ascii (Value.int (negsuc 128)) (omega arith)

abbrev row : List Value
row =
    Value.null ∷ Value.int (negsuc 0) ∷ Value.text (b'h' ∷ b'i' ∷ []) ∷ Value.blob (0xde ∷ []) ∷ []

row_values : All (IsValue ascii) row
unfolding ascii
row_values = (tt, (omega arith, ((refl, omega arith), (omega arith, tt))))

row_small : serial_bytes row + length (bodies row) < 2 ^ 62
unfolding serial_bytes bodies encode code varint_len
row_small = omega arith

-- The header: its length, NULL, a one-byte integer, a text of 2 and a blob of 1; then the bodies.
row_encoded : encode_record row ≡ 5 ∷ 0 ∷ 1 ∷ 17 ∷ 14 ∷ 0xff ∷ b'h' ∷ b'i' ∷ 0xde ∷ []
unfolding encode_record header_width serial_bytes write_serials write_bodies write_varint varint_len
    encode code
row_encoded = refl

decode_record-encode_record_example : decode_record ascii (encode_record row) utf8 ≡ some (ok row)
decode_record-encode_record_example = decode_record-encode_record ascii row row_values row_small

decode_record-ne-none_example : decode_record ascii (5 ∷ 0x80 ∷ []) utf8 ≢ none
decode_record-ne-none_example = decode_record-ne-none ascii (5 ∷ 0x80 ∷ []) utf8

-- A header as the engine writes it for a fresh file.
abbrev fresh : DbHeader
fresh = record {
  page_size = 4096;
  write_version = 1;
  read_version = 1;
  reserved_space = 0;
  file_change_counter = 0;
  db_size_pages = 1;
  first_freelist_trunk = 0;
  freelist_count = 0;
  schema_cookie = 0;
  schema_format = 4;
  default_cache_size = negsuc 1999;
  largest_root_page = 0;
  text_encoding = utf8;
  user_version = pos 0;
  incremental_vacuum = 0;
  application_id = 0;
  version_valid_for = 0;
  sqlite_version_number = 3053001;
}

fresh-IsHeader : IsHeader fresh
unfolding is_valid_page_size
fresh-IsHeader = record {
  page = refl;
  reserved = omega arith;
  usable = omega arith;
  written = omega arith;
  readable = omega arith;
  change = omega arith;
  size = omega arith;
  trunk = omega arith;
  free = omega arith;
  cookie = omega arith;
  format = omega arith;
  cache = omega arith;
  root = omega arith;
  user = omega arith;
  vacuum = omega arith;
  application = omega arith;
  valid_for = omega arith;
  version = omega arith;
}

parse-serialize_example :
    (length (serialize fresh) ≡ 100) × (parse (serialize fresh ++ (7 ∷ [])) ≡ ok fresh)
parse-serialize_example = parse-serialize fresh fresh-IsHeader (7 ∷ [])

fresh_bytes : All IsByte (serialize fresh ++ (7 ∷ []))
unfolding serialize i32_as_u32 TextEncoding.code
fresh_bytes = omega arith

parse-IsHeader_example : IsHeader fresh × (480 ≤ usable_size fresh)
parse-IsHeader_example =
    parse-IsHeader (serialize fresh ++ (7 ∷ [])) fresh fresh_bytes parse-serialize_example.1

abbrev log_header : WalHeader
log_header = record {
  magic = 0x377f0683;
  format_version = 3007000;
  page_size = 4096;
  checkpoint_seq = 1;
  salt1 = 17;
  salt2 = 0xffff_ffff;
  checksum1 = 3;
  checksum2 = 4;
}

abbrev frame : WalFrameHeader
frame = record {
  page_number = 3;
  commit_size = 0;
  salt1 = 17;
  salt2 = 0xffff_ffff;
  checksum1 = 5;
  checksum2 = 6;
}

abbrev eight : List ℕ
eight = 1 ∷ 2 ∷ 3 ∷ 4 ∷ 5 ∷ 6 ∷ 7 ∷ 8 ∷ []

checksum_of_eight : wal_checksum eight true 0 0 ≡ some (0x01020304, 0x06080a0c)
unfolding wal_checksum checksum_loop read_u32 wr_add
checksum_of_eight = refl

abbrev corrupted : List ℕ
corrupted = 1 ∷ 2 ∷ 3 ∷ 5 ∷ 5 ∷ 6 ∷ 7 ∷ 8 ∷ []

corrupted_differs : eight ≢ corrupted
corrupted_differs e = omega (arith, ap (λ (xs : List ℕ). get_or xs 3 0) e)

wal_checksum_detects_example :
    wal_checksum (eight ++ (eight ++ eight)) true 0 0
    ≢ wal_checksum (eight ++ (corrupted ++ eight)) true 0 0
wal_checksum_detects_example =
    wal_checksum_detects eight eight eight corrupted true 0 0 (omega arith) (omega arith) refl refl
      refl refl (omega arith) (omega arith) corrupted_differs
