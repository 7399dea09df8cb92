-- ===== src/Format/Wal.antt =====
-- crates/rustsqlite-core/src/format/wal.rs: the header and the frame headers of a write-ahead log,
-- and its running checksum.
pub mod Checksum
pub mod Detection
pub mod RoundTrip
use rustqlite.Base.{
  ℕ, zero, suc, ◌+◌, ◌%◌, ◌/◌, ◌*◌, ◌^◌, List, [], ◌∷◌, length, Bool, true, false, Option, none,
  some, leb, ◌==◌, if◌then◌else◌,
}
use rustqlite.Base.Bytes.{slice, copy_at, be_bytes, of_le, be_u32}
use rustqlite.Error.{Result, ok, ◌>>=◌, ◌>>◌, guard, Message, msg}

abbrev pub wal_magic_be : ℕ
wal_magic_be = 0x377f0683

abbrev pub wal_magic_le : ℕ
wal_magic_le = 0x377f0682

abbrev pub wal_format_version : ℕ
wal_format_version = 3007000

abbrev pub wal_header_size : ℕ
wal_header_size = 32

abbrev pub wal_frame_header_size : ℕ
wal_frame_header_size = 24

pub record WalHeader : Type 0 where
  pub magic : ℕ
  pub format_version : ℕ
  pub page_size : ℕ
  pub checkpoint_seq : ℕ
  pub salt1 : ℕ
  pub salt2 : ℕ
  pub checksum1 : ℕ
  pub checksum2 : ℕ

unfoldable pub decode_header : List ℕ → Result WalHeader
decode_header buf = do
  guard (leb wal_header_size (length buf)) (msg (Message.plain "WAL header is too short"))
  ok (record {
    magic = be_u32 (slice 0 4 buf);
    format_version = be_u32 (slice 4 8 buf);
    page_size = be_u32 (slice 8 12 buf);
    checkpoint_seq = be_u32 (slice 12 16 buf);
    salt1 = be_u32 (slice 16 20 buf);
    salt2 = be_u32 (slice 20 24 buf);
    checksum1 = be_u32 (slice 24 28 buf);
    checksum2 = be_u32 (slice 28 32 buf);
  })

-- The writes into `out`, which has at least 32 bytes (the code asserts it).
unfoldable pub encode_header : WalHeader → List ℕ → List ℕ
encode_header h out =
    let out = copy_at 0 (be_bytes 4 h.magic) out in
    let out = copy_at 4 (be_bytes 4 h.format_version) out in
    let out = copy_at 8 (be_bytes 4 h.page_size) out in
    let out = copy_at 12 (be_bytes 4 h.checkpoint_seq) out in
    let out = copy_at 16 (be_bytes 4 h.salt1) out in
    let out = copy_at 20 (be_bytes 4 h.salt2) out in
    let out = copy_at 24 (be_bytes 4 h.checksum1) out in copy_at 28 (be_bytes 4 h.checksum2) out

unfoldable pub checksum_big_endian : WalHeader → Bool
checksum_big_endian h = h.magic == wal_magic_be

pub record WalFrameHeader : Type 0 where
  pub page_number : ℕ
  pub commit_size : ℕ
  pub salt1 : ℕ
  pub salt2 : ℕ
  pub checksum1 : ℕ
  pub checksum2 : ℕ

unfoldable pub decode_frame : List ℕ → Result WalFrameHeader
decode_frame buf = do
  guard (leb wal_frame_header_size (length buf))
      (msg (Message.plain "WAL frame header is too short"))
  ok (record {
    page_number = be_u32 (slice 0 4 buf);
    commit_size = be_u32 (slice 4 8 buf);
    salt1 = be_u32 (slice 8 12 buf);
    salt2 = be_u32 (slice 12 16 buf);
    checksum1 = be_u32 (slice 16 20 buf);
    checksum2 = be_u32 (slice 20 24 buf);
  })

-- The writes into `out`, which has at least 24 bytes.
unfoldable pub encode_frame : WalFrameHeader → List ℕ → List ℕ
encode_frame h out =
    let out = copy_at 0 (be_bytes 4 h.page_number) out in
    let out = copy_at 4 (be_bytes 4 h.commit_size) out in
    let out = copy_at 8 (be_bytes 4 h.salt1) out in
    let out = copy_at 12 (be_bytes 4 h.salt2) out in
    let out = copy_at 16 (be_bytes 4 h.checksum1) out in copy_at 20 (be_bytes 4 h.checksum2) out

unfoldable pub read_u32 : List ℕ → Bool → ℕ
read_u32 b true = be_u32 b
read_u32 b false = of_le b

unfoldable pub wr_add : ℕ → ℕ → ℕ
wr_add a b = (a + b) % 2 ^ 32

-- The rounds of the loop on what stands behind `buf[i * 4]`: two words each.
unfoldable pub checksum_loop : List ℕ → Bool → ℕ → ℕ → ℕ × ℕ
checksum_loop (a ∷ b ∷ c ∷ d ∷ e ∷ f ∷ g ∷ h ∷ rest) big_endian s0 s1 =
    let x0 = read_u32 (a ∷ b ∷ c ∷ d ∷ []) big_endian in
    let x1 = read_u32 (e ∷ f ∷ g ∷ h ∷ []) big_endian in
    let s0' = wr_add (wr_add s0 x0) s1 in
    let s1' = wr_add (wr_add s1 x1) s0' in checksum_loop rest big_endian s0' s1'
checksum_loop _ big_endian s0 s1 = (s0, s1)

-- `none`: the assertion on the length fails.
unfoldable pub wal_checksum : List ℕ → Bool → ℕ → ℕ → Option (ℕ × ℕ)
wal_checksum buf big_endian s0_in s1_in =
    if length buf % 8 == 0 then some (checksum_loop buf big_endian s0_in s1_in) else none
