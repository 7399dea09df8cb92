-- ===== src/Format/WalIndex.antt =====
-- crates/rustsqlite-core/src/format/wal_index.rs: the header of the wal-index and its checkpoint record, in the byte order of
-- the host, and the places of pages and frames.
pub mod RoundTrip
use rustqlite.Base.{
  ℕ, zero, suc, ◌+◌, ◌-◌, ◌*◌, ◌/◌, ◌%◌, ◌^◌, List, [], ◌∷◌, length, get_or, Bool, true, false, leb,
}
use rustqlite.Base.Bytes.{slice, copy_at, be_bytes, of_be, of_le}
use rustqlite.Error.{Result, ok, ◌>>=◌, ◌>>◌, guard, Message, msg}
use rustqlite.Format.Wal.{wal_header_size, wal_frame_header_size}

-- A pair of `u32`s is two fields.
pub record WalIndexHdr : Type 0 where
  pub i_version : ℕ
  pub unused : ℕ
  pub i_change : ℕ
  pub is_init : ℕ
  pub big_end_cksum : ℕ
  pub sz_page : ℕ
  pub mx_frame : ℕ
  pub n_page : ℕ
  pub frame_cksum_0 : ℕ
  pub frame_cksum_1 : ℕ
  pub salt_0 : ℕ
  pub salt_1 : ℕ
  pub cksum_0 : ℕ
  pub cksum_1 : ℕ

abbrev pub le_bytes : ℕ → ℕ → List ℕ
le_bytes zero v = []
le_bytes (suc n) v = (v % 256) ∷ le_bytes n (v / 256)

-- `to_ne_bytes` and `from_ne_bytes`; the flag says whether the host is big-endian.
abbrev pub ne_bytes : Bool → ℕ → ℕ → List ℕ
ne_bytes true n v = be_bytes n v
ne_bytes false n v = le_bytes n v

abbrev pub of_ne : Bool → List ℕ → ℕ
of_ne true b = of_be b
of_ne false b = of_le b

-- The writes into `out`, which has at least 48 bytes (the code asserts it).
unfoldable pub encode_hdr : Bool → WalIndexHdr → List ℕ → List ℕ
encode_hdr host h out =
    let out = copy_at 0 (ne_bytes host 4 h.i_version) out in
    let out = copy_at 4 (ne_bytes host 4 h.unused) out in
    let out = copy_at 8 (ne_bytes host 4 h.i_change) out in
    let out = copy_at 12 (h.is_init ∷ []) out in
    let out = copy_at 13 (h.big_end_cksum ∷ []) out in
    let out = copy_at 14 (ne_bytes host 2 h.sz_page) out in
    let out = copy_at 16 (ne_bytes host 4 h.mx_frame) out in
    let out = copy_at 20 (ne_bytes host 4 h.n_page) out in
    let out = copy_at 24 (ne_bytes host 4 h.frame_cksum_0) out in
    let out = copy_at 28 (ne_bytes host 4 h.frame_cksum_1) out in
    let out = copy_at 32 (ne_bytes host 4 h.salt_0) out in
    let out = copy_at 36 (ne_bytes host 4 h.salt_1) out in
    let out = copy_at 40 (ne_bytes host 4 h.cksum_0) out in
    copy_at 44 (ne_bytes host 4 h.cksum_1) out

unfoldable pub decode_hdr : Bool → List ℕ → Result WalIndexHdr
decode_hdr host buf = do
  guard (leb 48 (length buf)) (msg (Message.plain "wal-index header too short"))
  ok (record {
    i_version = of_ne host (slice 0 4 buf);
    unused = of_ne host (slice 4 8 buf);
    i_change = of_ne host (slice 8 12 buf);
    is_init = get_or buf 12 0;
    big_end_cksum = get_or buf 13 0;
    sz_page = of_ne host (slice 14 16 buf);
    mx_frame = of_ne host (slice 16 20 buf);
    n_page = of_ne host (slice 20 24 buf);
    frame_cksum_0 = of_ne host (slice 24 28 buf);
    frame_cksum_1 = of_ne host (slice 28 32 buf);
    salt_0 = of_ne host (slice 32 36 buf);
    salt_1 = of_ne host (slice 36 40 buf);
    cksum_0 = of_ne host (slice 40 44 buf);
    cksum_1 = of_ne host (slice 44 48 buf);
  })

-- The marks of the five readers and the eight lock bytes, arrays in the source, are fields.
pub record WalCkptInfo : Type 0 where
  pub n_backfill : ℕ
  pub read_mark_0 : ℕ
  pub read_mark_1 : ℕ
  pub read_mark_2 : ℕ
  pub read_mark_3 : ℕ
  pub read_mark_4 : ℕ
  pub lock_0 : ℕ
  pub lock_1 : ℕ
  pub lock_2 : ℕ
  pub lock_3 : ℕ
  pub lock_4 : ℕ
  pub lock_5 : ℕ
  pub lock_6 : ℕ
  pub lock_7 : ℕ
  pub n_backfill_attempted : ℕ
  pub not_used_0 : ℕ

abbrev pub readmark_not_used : ℕ
readmark_not_used = 2 ^ 32 - 1

-- `WalCkptInfo::default`.
abbrev pub default_info : WalCkptInfo
default_info = record {
  n_backfill = 0;
  read_mark_0 = readmark_not_used;
  read_mark_1 = readmark_not_used;
  read_mark_2 = readmark_not_used;
  read_mark_3 = readmark_not_used;
  read_mark_4 = readmark_not_used;
  lock_0 = 0;
  lock_1 = 0;
  lock_2 = 0;
  lock_3 = 0;
  lock_4 = 0;
  lock_5 = 0;
  lock_6 = 0;
  lock_7 = 0;
  n_backfill_attempted = 0;
  not_used_0 = 0;
}

-- The writes into `out`, which has at least 40 bytes (the code asserts it); the loop over the marks
-- is written out.
unfoldable pub encode_info : Bool → WalCkptInfo → List ℕ → List ℕ
encode_info host h out =
    let out = copy_at 0 (ne_bytes host 4 h.n_backfill) out in
    let out = copy_at 4 (ne_bytes host 4 h.read_mark_0) out in
    let out = copy_at 8 (ne_bytes host 4 h.read_mark_1) out in
    let out = copy_at 12 (ne_bytes host 4 h.read_mark_2) out in
    let out = copy_at 16 (ne_bytes host 4 h.read_mark_3) out in
    let out = copy_at 20 (ne_bytes host 4 h.read_mark_4) out in
    let out =
      copy_at 24
        (h.lock_0 ∷ h.lock_1 ∷ h.lock_2 ∷ h.lock_3 ∷ h.lock_4 ∷ h.lock_5 ∷ h.lock_6 ∷ h.lock_7 ∷ [])
        out in
    let out = copy_at 32 (ne_bytes host 4 h.n_backfill_attempted) out in
    copy_at 36 (ne_bytes host 4 h.not_used_0) out

unfoldable pub decode_info : Bool → List ℕ → Result WalCkptInfo
decode_info host buf = do
  guard (leb 40 (length buf)) (msg (Message.plain "wal-index ckpt-info too short"))
  ok (record {
    n_backfill = of_ne host (slice 0 4 buf);
    read_mark_0 = of_ne host (slice 4 8 buf);
    read_mark_1 = of_ne host (slice 8 12 buf);
    read_mark_2 = of_ne host (slice 12 16 buf);
    read_mark_3 = of_ne host (slice 16 20 buf);
    read_mark_4 = of_ne host (slice 20 24 buf);
    lock_0 = get_or buf 24 0;
    lock_1 = get_or buf 25 0;
    lock_2 = get_or buf 26 0;
    lock_3 = get_or buf 27 0;
    lock_4 = get_or buf 28 0;
    lock_5 = get_or buf 29 0;
    lock_6 = get_or buf 30 0;
    lock_7 = get_or buf 31 0;
    n_backfill_attempted = of_ne host (slice 32 36 buf);
    not_used_0 = of_ne host (slice 36 40 buf);
  })

abbrev pub hashtable_nslot : ℕ
hashtable_nslot = 2 * 4096

unfoldable pub wal_hash_key : ℕ → ℕ
wal_hash_key page = page * 383 % 2 ^ 32 % hashtable_nslot

-- For a frame number of at least 1; the `i64` cannot overflow.
unfoldable pub wal_frame_offset : ℕ → ℕ → ℕ
wal_frame_offset i_frame page_size =
    wal_header_size + (i_frame - 1) * (page_size + wal_frame_header_size)
