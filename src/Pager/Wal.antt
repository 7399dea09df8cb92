-- ===== src/Pager/Wal.antt =====
-- crates/rustsqlite-core/src/pager/wal.rs: a write-ahead log on the bytes of its file. `file` is what
-- the file holds that the handle is open on; the calls of `sync` are left out. The salts that
-- `next_wal_salt` draws are arguments.
pub mod Write
pub mod Scan
pub mod Gather
pub mod Log
pub mod Commit
pub mod Durable
pub mod Fresh
pub mod Reading
pub mod Checkpoint
pub mod Session
use rustqlite.Base.{
  ℕ, zero, suc, ◌+◌, ◌-◌, ◌*◌, ◌/◌, ◌%◌, ◌^◌, List, [], ◌∷◌, ◌++◌, length, map, take, drop,
  replicate, Bool, true, false, not, ◌||◌, Option, none, some, ltb, ◌==◌, if◌then◌else◌,
}
use rustqlite.Base.Bytes.{slice, be_bytes}
use rustqlite.Error.{Result, ok, err, ◌>>=◌}
use rustqlite.Vfs.MemFile.{read_at, write_at, truncate, file_size}
use rustqlite.Format.Wal.{
  WalHeader, WalFrameHeader, decode_header, encode_header, decode_frame, checksum_big_endian,
  wal_checksum, wal_header_size, wal_frame_header_size, wal_magic_be, wal_format_version,
}
use rustqlite.Pager.WalIndex.{IndexBlock, append_frames}

pub record Wal : Type 0 where
  pub file : Option (List ℕ)
  pub header : WalHeader
  pub page_size : ℕ
  pub blocks : List IndexBlock
  pub mx_frame : ℕ
  pub n_page : ℕ
  pub frame_cksum : Option (ℕ × ℕ)

unfoldable pub placeholder : Option (List ℕ) → ℕ → Wal
placeholder file page_size = record {
  file = file;
  header = record {
    magic = 0;
    format_version = 0;
    page_size = page_size;
    checkpoint_seq = 0;
    salt1 = 0;
    salt2 = 0;
    checksum1 = 0;
    checksum2 = 0;
  };
  page_size = page_size;
  blocks = [];
  mx_frame = 0;
  n_page = 0;
  frame_cksum = none;
}

-- The byte offset of frame `i_frame`, of at least 1.
unfoldable pub frame_offset : ℕ → ℕ → ℕ
frame_offset page_size i_frame =
    wal_header_size + (i_frame - 1) * (page_size + wal_frame_header_size)

unfoldable pub frame_data_offset : Wal → ℕ → ℕ
unfolding frame_offset
frame_data_offset w i_frame = frame_offset w.page_size i_frame + wal_frame_header_size

-- The sums of `wal_checksum`. Its assertion on the length holds of the 24 bytes of a header, of the
-- first 8 of a frame, and of a page, whose size is a multiple of 8; (0, 0) stands for its panic.
unfoldable pub sums : List ℕ → Bool → ℕ × ℕ → ℕ × ℕ
sums buf big (s0, s1) = elim (wal_checksum buf big s0 s1) [ none ↦ (0, 0) | some s ↦ s ]

-- Over the first 8 bytes of a frame and its page.
unfoldable pub frame_sums : List ℕ → Bool → ℕ × ℕ → ℕ × ℕ
unfolding sums
frame_sums frame big running =
    sums (drop wal_frame_header_size frame) big (sums (slice 0 8 frame) big running)

abbrev pub same_sums : ℕ × ℕ → ℕ → ℕ → Bool
same_sums (s0, s1) c0 c1 = if s0 == c0 then s1 == c1 else false

-- What the loop of `recover` has collected.
pub record Recovered : Type 0 where
  pub frame_pgnos : List ℕ
  pub last_commit_frame : ℕ
  pub last_commit_npage : ℕ
  pub last_commit_cksum : ℕ × ℕ

unfoldable pub collect_frame : ℕ → WalFrameHeader → ℕ × ℕ → Recovered → Recovered
collect_frame i_frame fh running r =
    let pgnos = r.frame_pgnos ++ fh.page_number ∷ [] in
    if fh.commit_size == 0 then record r { frame_pgnos = pgnos } else record {
      frame_pgnos = pgnos;
      last_commit_frame = i_frame;
      last_commit_npage = fh.commit_size;
      last_commit_cksum = running;
    }

-- The tests on a frame after which the loop stops.
unfoldable pub frame_is_stale : WalHeader → WalFrameHeader → ℕ × ℕ → Bool
frame_is_stale header fh running =
    not (fh.salt1 == header.salt1)
    || not (fh.salt2 == header.salt2)
    || fh.page_number == 0
    || not (same_sums running fh.checksum1 fh.checksum2)

-- The rounds of the loop from frame `i_frame`.
unfoldable pub recover_loop : ℕ → WalHeader → ℕ → List ℕ → ℕ → ℕ × ℕ → Recovered → Result Recovered
unfolding frame_sums collect_frame frame_is_stale frame_offset
recover_loop zero header page_size file i_frame running r = ok r
recover_loop (suc rounds) header page_size file i_frame running r =
    let frame_size = page_size + wal_frame_header_size in
    let (n, frame_buf) = read_at file (frame_offset page_size i_frame) (replicate frame_size 0) in
    if ltb n frame_size then ok r else do
      fh ← decode_frame (take wal_frame_header_size frame_buf)
      let running' = frame_sums frame_buf (checksum_big_endian header) running
      let r' = collect_frame i_frame fh running' r
      let rest = recover_loop rounds header page_size file (i_frame + 1) running' r'
      if frame_is_stale header fh running' then ok r else rest

abbrev pub nothing_recovered : Recovered
nothing_recovered = record {
  frame_pgnos = [];
  last_commit_frame = 0;
  last_commit_npage = 0;
  last_commit_cksum = (0, 0);
}

abbrev pub header_sums : WalHeader → ℕ × ℕ
header_sums header = (header.checksum1, header.checksum2)

-- Behind the loop: the frames up to the last commit are indexed.
unfoldable pub finish_recovery : Wal → Recovered → Wal
finish_recovery w r = record w {
  blocks = append_frames 0 (take r.last_commit_frame r.frame_pgnos) w.blocks;
  mx_frame = r.last_commit_frame;
  n_page = r.last_commit_npage;
  frame_cksum =
      some (if r.last_commit_frame == 0 then header_sums w.header else r.last_commit_cksum);
}

unfoldable pub recover : List ℕ → ℕ → Wal → Result Wal
recover file size w =
    let n_frames = (size - wal_header_size) / (w.page_size + wal_frame_header_size) in
    if n_frames == 0 then ok w else do
      r ← recover_loop n_frames w.header w.page_size file 1 (header_sums w.header) nothing_recovered
      ok (finish_recovery w r)

-- With a header that was read whole.
unfoldable pub open_with : List ℕ → ℕ → List ℕ → WalHeader → Result Wal
unfolding sums
open_with file page_size hdr_buf header =
    let (c0, c1) = sums (slice 0 24 hdr_buf) (checksum_big_endian header) (0, 0) in
    let w : Wal = record {
      file = some file;
      header = header;
      page_size = page_size;
      blocks = [];
      mx_frame = 0;
      n_page = 0;
      frame_cksum = some (header_sums header);
    } in
    if not (header.page_size == page_size)
    then ok (placeholder (some file) page_size)
    else if not (same_sums (c0, c1) header.checksum1 header.checksum2)
    then ok (placeholder (some file) page_size)
    else recover file (file_size file) w

-- The content of the file, or `none` if there is no file.
unfoldable pub open_wal : Option (List ℕ) → ℕ → Result Wal
open_wal none page_size = ok (placeholder none page_size)
open_wal (some file) page_size =
    let (n, hdr_buf) = read_at file 0 (replicate wal_header_size 0) in
    if ltb (file_size file) wal_header_size
    then ok (placeholder (some file) page_size)
    else if ltb n wal_header_size
    then ok (placeholder (some file) page_size)
    else do header ← decode_header hdr_buf; open_with file page_size hdr_buf header
