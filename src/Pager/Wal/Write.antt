-- ===== src/Pager/Wal/Write.antt =====
-- crates/rustsqlite-core/src/pager/wal.rs: reading a frame, appending the frames of a transaction and
-- the checkpoint.
use rustqlite.Base.{
  ℕ, ◌+◌, List, [], ◌∷◌, ◌++◌, length, map, replicate, Bool, true, false, not, Option, none, some,
  ◌==◌, if◌then◌else◌,
}
use rustqlite.Base.Bytes.{slice, be_bytes, copy_at}
use rustqlite.Error.{Result, ok, err, Message, corrupt}
use rustqlite.Error.Action.{Action, pure, fail, fetch, modify, ◌>>=◌, ◌>>◌}
use rustqlite.Vfs.MemFile.{read_at, write_at}
use rustqlite.Format.Wal.{
  WalHeader, encode_header, checksum_big_endian, wal_header_size, wal_magic_be, wal_format_version,
}
use rustqlite.Pager.WalIndex.{append_frames}
use rustqlite.Pager.Wal.{Wal, sums, frame_offset, frame_data_offset, header_sums}

-- The result, and the buffer: of a page number and a frame.
unfoldable pub read_frame : Wal → ℕ → List ℕ → Result (List ℕ)
read_frame w i_frame out = elim w.file [
  | none ↦
      if i_frame == 0
      then err (corrupt (Message.plain "wal::read_frame: frame 0 is invalid"))
      else err (corrupt (Message.plain "wal::read_frame: no WAL file"))
  | some file ↦
      let (n, buf) = read_at file (frame_data_offset w i_frame) out in
      if i_frame == 0
      then err (corrupt (Message.plain "wal::read_frame: frame 0 is invalid"))
      else if not (length out == w.page_size)
      then err (
          corrupt (
            Message.with_numbers "wal::read_frame: buffer is {} bytes, expected {}"
              (length out ∷ w.page_size ∷ [])))
      else if not (n == w.page_size)
      then err (
          corrupt (
            Message.with_numbers
              "wal::read_frame: short read for frame {i_frame}: got {n} of {} bytes"
              (i_frame ∷ n ∷ w.page_size ∷ [])))
      else ok buf
]

-- The first `encode` of a header, its sums, and the bytes with them.
unfoldable pub signed_header : WalHeader → WalHeader × List ℕ
unfolding sums
signed_header header =
    let hdr_buf = encode_header header (replicate wal_header_size 0) in
    let (c0, c1) = sums (slice 0 24 hdr_buf) (checksum_big_endian header) (0, 0) in
    let hdr_buf' = copy_at 28 (be_bytes 4 c1) (copy_at 24 (be_bytes 4 c0) hdr_buf) in
    (record header { checksum1 = c0; checksum2 = c1 }, hdr_buf')

-- A page and its number; the buffer `frame_buf` is written whole.
abbrev pub Page : Type 0
Page = ℕ × List ℕ

abbrev pub frame_start : ℕ → ℕ → List ℕ
frame_start pgno commit_size = be_bytes 4 pgno ++ be_bytes 4 commit_size

unfoldable pub running_after : Bool → ℕ × ℕ → ℕ → ℕ → List ℕ → ℕ × ℕ
unfolding sums
running_after big running pgno commit_size bytes =
    sums bytes big (sums (frame_start pgno commit_size) big running)

unfoldable pub build_frame : WalHeader → ℕ × ℕ → ℕ → ℕ → List ℕ → List ℕ
build_frame header running pgno commit_size bytes =
    let (s0, s1) = running_after (checksum_big_endian header) running pgno commit_size bytes in
    frame_start pgno commit_size
    ++ (be_bytes 4 header.salt1
        ++ (be_bytes 4 header.salt2 ++ (be_bytes 4 s0 ++ (be_bytes 4 s1 ++ bytes))))

-- `file.write_at` on the open file.
abbrev pub write_file : ℕ → List ℕ → Wal → Wal
write_file off bytes w = elim w.file [
  | none ↦ w
  | some file ↦ record w { file = some (write_at file off bytes) }
]

abbrev pub is_last : List Page → Bool
is_last [] = true
is_last (p ∷ ps) = false

-- The rounds of the loop that writes frames behind `i_frame`.
unfoldable pub write_loop : ℕ → List Page → ℕ → ℕ × ℕ → Action Wal (ℕ × (ℕ × ℕ))
unfolding build_frame frame_offset running_after
write_loop n_truncate [] i_frame running = pure (i_frame, running)
write_loop n_truncate ((pgno, bytes) ∷ frames) i_frame running = do
  w ← fetch
  let commit_size = if is_last frames then n_truncate else 0
  let frame = build_frame w.header running pgno commit_size bytes
  let running' = running_after (checksum_big_endian w.header) running pgno commit_size bytes
  let rest = write_loop n_truncate frames (i_frame + 1) running'
  if not (length bytes == w.page_size)
      then fail (
          corrupt (
            Message.with_numbers "wal::write_frames: page {pgno} is {} bytes, expected {}"
              (pgno ∷ length bytes ∷ w.page_size ∷ [])))
      else (modify (write_file (frame_offset w.page_size (i_frame + 1)) frame) >> rest)

abbrev pub or_empty : Option (List ℕ) → List ℕ
or_empty none = []
or_empty (some file) = file

-- A file that is not open is created, empty.
abbrev pub ensure_open : Wal → Wal
ensure_open w = record w { file = some (or_empty w.file) }

-- The header of a fresh log.
unfoldable pub write_header : ℕ → ℕ → Wal → Wal
unfolding signed_header
write_header salt1 salt2 w =
    let signed = signed_header (record {
      magic = wal_magic_be;
      format_version = wal_format_version;
      page_size = w.page_size;
      checkpoint_seq = 0;
      salt1 = salt1;
      salt2 = salt2;
      checksum1 = 0;
      checksum2 = 0;
    }) in
    write_file 0 signed.1 (record w { header = signed.0 })

abbrev pub seed : Wal → ℕ × ℕ
seed w = elim w.frame_cksum [ none ↦ header_sums w.header | some s ↦ s ]

unfoldable pub index_frames : List Page → ℕ → ℕ → ℕ × ℕ → Wal → Wal
index_frames frames n_truncate i_frame running w = record w {
  blocks = append_frames w.mx_frame (map (λ (f : Page). f.0) frames) w.blocks;
  mx_frame = i_frame;
  n_page = n_truncate;
  frame_cksum = some running;
}

unfoldable pub start_log : ℕ → ℕ → Action Wal (ℕ × ℕ)
unfolding write_header
start_log salt1 salt2 = do
  modify ensure_open
  w ← fetch
  if w.mx_frame == 0
      then (modify (write_header salt1 salt2) >> (fetch >>= λ w'. pure (header_sums w'.header)))
      else pure (seed w)

unfoldable pub write_frames : ℕ → ℕ → List Page → ℕ → Action Wal (Unit {0})
unfolding start_log write_loop index_frames
write_frames salt1 salt2 [] n_truncate = pure tt
write_frames salt1 salt2 (f ∷ frames) n_truncate = do
  running ← start_log salt1 salt2
  w ← fetch
  (i_frame, running') ← write_loop n_truncate (f ∷ frames) w.mx_frame running
  modify (index_frames (f ∷ frames) n_truncate i_frame running')
