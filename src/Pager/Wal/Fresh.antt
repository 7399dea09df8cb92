-- ===== src/Pager/Wal/Fresh.antt =====
-- The first transaction of a log whose file does not exist yet: its header.
use rustqlite.Base.{
  ℕ, ◌+◌, ◌%◌, ◌^◌, ◌<◌, ◌≡◌, refl, ap, sym, ◌∙◌, List, [], ◌∷◌, length, replicate, true, arith,
  some, none,
}
use rustqlite.Base.Bytes.{slice, be_u32-be_bytes}
use rustqlite.Error.{ok}
use rustqlite.Vfs.MemFile.Bytes.{append_nil}
use rustqlite.Format.Wal.{WalHeader, decode_header, encode_header, checksum_big_endian}
use rustqlite.Pager.Wal.{Wal, placeholder, frame_offset, header_sums, sums, same_sums}
use rustqlite.Pager.Wal.Write.{
  Page, write_frames, index_frames, start_log, write_header, signed_header,
}
use rustqlite.Pager.WalIndex.{append_frames}
use rustqlite.Pager.Journaling.Images.{write_at_end}
use rustqlite.Pager.Wal.Scan.{sums-IsU32, log_bytes, log_sums, gather}
use rustqlite.Pager.Wal.Gather.{entries_of}
use rustqlite.Pager.Wal.Log.{IsSigned, IsLog}
use rustqlite.Pager.Wal.Commit.{IsTxn, logged, logged-IsLog, write_loop_lem}

abbrev pub new_header : ℕ → ℕ → ℕ → WalHeader
new_header page_size salt1 salt2 = record {
  magic = 0x377f0683;
  format_version = 3007000;
  page_size = page_size;
  checkpoint_seq = 0;
  salt1 = salt1;
  salt2 = salt2;
  checksum1 = 0;
  checksum2 = 0;
}

-- A page size and two salts that a log can have.
pub record IsFormat (page_size salt1 salt2 : ℕ) : Type 0 where
  pub whole : page_size % 8 ≡ 0
  pub small : page_size < 2 ^ 32
  pub first : salt1 < 2 ^ 32
  pub second : salt2 < 2 ^ 32

same_sums_refl : (s : ℕ × ℕ) → same_sums s s.0 s.1 ≡ true
same_sums_refl s = ground arith

signed_header-IsSigned :
    (header : WalHeader)
    → header.magic < 2 ^ 32
    → header.format_version < 2 ^ 32
    → header.checkpoint_seq < 2 ^ 32
    → IsFormat header.page_size header.salt1 header.salt2
    → IsSigned (signed_header header).1 (signed_header header).0 header.page_size
unfolding signed_header encode_header decode_header checksum_big_endian
signed_header-IsSigned header m v c f =
    let u =
      sums-IsU32 (slice 0 24 (encode_header header (replicate 32 0))) (checksum_big_endian header)
        (0, 0) refl (omega arith) in
    record {
      long = refl;
      decodes = λ i. ok (record {
        magic = be_u32-be_bytes header.magic m i;
        format_version = be_u32-be_bytes header.format_version v i;
        page_size = be_u32-be_bytes header.page_size f.small i;
        checkpoint_seq = be_u32-be_bytes header.checkpoint_seq c i;
        salt1 = be_u32-be_bytes header.salt1 f.first i;
        salt2 = be_u32-be_bytes header.salt2 f.second i;
        checksum1 = be_u32-be_bytes _ u.0 i;
        checksum2 = be_u32-be_bytes _ u.1 i;
      });
      sealed = same_sums_refl (
          sums (slice 0 24 (encode_header header (replicate 32 0))) (checksum_big_endian header)
            (0, 0));
      page = refl;
      whole = f.whole;
      first = f.first;
      second = f.second;
      seeds = u;
    }

-- The log behind its header.
abbrev pub started : ℕ → ℕ → ℕ → Wal
started page_size salt1 salt2 =
    let signed = signed_header (new_header page_size salt1 salt2) in
    record {
      file = some signed.1;
      header = signed.0;
      page_size = page_size;
      blocks = [];
      mx_frame = 0;
      n_page = 0;
      frame_cksum = some (header_sums signed.0);
    }

pub started-IsLog :
    (page_size salt1 salt2 : ℕ)
    → IsFormat page_size salt1 salt2
    → IsLog (signed_header (new_header page_size salt1 salt2)).1 [] (started page_size salt1 salt2)
unfolding placeholder
started-IsLog page_size salt1 salt2 f = record {
  signed =
      signed_header-IsSigned (new_header page_size salt1 salt2) (omega arith) (omega arith)
        (omega arith) f;
  frames = tt;
  file = unfold log_bytes in ap some (sym (append_nil _));
  count = refl;
  index = unfold append_frames in refl;
  sums_carried = unfold log_sums in refl;
  pages = unfold gather in refl;
  last = unfold gather in refl;
  size = unfold gather in refl;
  sealed = λ nz. absurd (nz refl);
}

start_fresh :
    (page_size salt1 salt2 : ℕ)
    → start_log salt1 salt2 (placeholder none page_size) ≡ (
      record (started page_size salt1 salt2) { frame_cksum = none },
      ok (header_sums (started page_size salt1 salt2).header),
    )
unfolding start_log write_header placeholder
start_fresh page_size salt1 salt2 =
    rw (write_at_end [] (signed_header (new_header page_size salt1 salt2)).1) refl

-- The first transaction writes the header of the log and its frames.
pub write_frames_fresh :
    (page_size salt1 salt2 n_truncate : ℕ) (frames : List Page)
    → IsFormat page_size salt1 salt2
    → IsTxn page_size n_truncate frames
    → write_frames salt1 salt2 frames n_truncate (placeholder none page_size) ≡ (
      logged
          (signed_header (new_header page_size salt1 salt2)).1
          []
          n_truncate
          frames
          (started page_size salt1 salt2),
      ok tt,
    )
unfolding write_frames index_frames
write_frames_fresh page_size salt1 salt2 n_truncate [] f t = absurd (t.nonempty refl)
write_frames_fresh page_size salt1 salt2 n_truncate (p ∷ frames) f t =
    let w = started page_size salt1 salt2 in
    let hdr = (signed_header (new_header page_size salt1 salt2)).1 in
    let at : length hdr ≡ frame_offset page_size (0 + 1) =
      (started-IsLog page_size salt1 salt2 f).signed.long ∙ (unfold frame_offset in omega arith) in
    let loop =
      write_loop_lem n_truncate (p ∷ frames) hdr 0 (header_sums w.header)
        (record w { frame_cksum = none }) refl at t.pages in
    rw (start_fresh page_size salt1 salt2, loop) (unfold log_sums in refl)

pub fresh-IsLog :
    (page_size salt1 salt2 n_truncate : ℕ) (frames : List Page)
    → IsFormat page_size salt1 salt2
    → IsTxn page_size n_truncate frames
    → IsLog
        (signed_header (new_header page_size salt1 salt2)).1
        (entries_of n_truncate frames)
        (write_frames salt1 salt2 frames n_truncate (placeholder none page_size)).0
fresh-IsLog page_size salt1 salt2 n_truncate frames f t =
    rw (write_frames_fresh page_size salt1 salt2 n_truncate frames f t) (
      logged-IsLog _ [] (started page_size salt1 salt2) (started-IsLog page_size salt1 salt2 f)
        n_truncate frames t)
