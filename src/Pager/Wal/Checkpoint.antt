-- ===== src/Pager/Wal/Checkpoint.antt =====
-- crates/rustsqlite-core/src/pager/wal.rs: the checkpoint, which copies the frames of the log into the
-- database file. A frame has a page number of at least 1.
pub mod Copying
use rustqlite.Base.{
  ℕ, zero, suc, ◌+◌, ◌-◌, ◌*◌, ◌%◌, ◌^◌, List, [], ◌∷◌, map, take, drop, replicate, Bool, true,
  false, not, ◌||◌, Option, none, some, ltb, ◌==◌, if◌then◌else◌,
}
use rustqlite.Base.Bytes.{bytes_eq}
use rustqlite.Error.{Result, ok, err, Message, corrupt}
use rustqlite.Error.Action.{Action, pure, fail, fetch, modify, ◌>>=◌, ◌>>◌}
use rustqlite.Types.Collation.{ascii_lower}
use rustqlite.Vfs.MemFile.{read_at, write_at, truncate}
use rustqlite.Format.Wal.{WalHeader, WalFrameHeader, decode_frame, wal_frame_header_size}
use rustqlite.Pager.Wal.{Wal, frame_offset, header_sums}
use rustqlite.Pager.Wal.Write.{signed_header, write_file}

pub data CheckpointMode : Type 0 where
  passive : CheckpointMode
  full : CheckpointMode
  restart : CheckpointMode
  truncating : CheckpointMode

-- `name.to_ascii_lowercase()` against the names, as the bytes of UTF-8 texts.
abbrev pub passive_name : List ℕ
passive_name = b'p' ∷ b'a' ∷ b's' ∷ b's' ∷ b'i' ∷ b'v' ∷ b'e' ∷ []

abbrev pub full_name : List ℕ
full_name = b'f' ∷ b'u' ∷ b'l' ∷ b'l' ∷ []

abbrev pub restart_name : List ℕ
restart_name = b'r' ∷ b'e' ∷ b's' ∷ b't' ∷ b'a' ∷ b'r' ∷ b't' ∷ []

abbrev pub truncate_name : List ℕ
truncate_name = b't' ∷ b'r' ∷ b'u' ∷ b'n' ∷ b'c' ∷ b'a' ∷ b't' ∷ b'e' ∷ []

unfoldable pub from_name : List ℕ → Option CheckpointMode
from_name name =
    let lower = map ascii_lower name in
    if bytes_eq lower passive_name
    then some passive
    else if bytes_eq lower full_name
    then some full
    else if bytes_eq lower restart_name
    then some restart
    else if bytes_eq lower truncate_name
    then some truncating
    else none

unfoldable pub copy_page : ℕ → ℕ → List ℕ → List ℕ → List ℕ
copy_page page_size pgno bytes db = write_at db ((pgno - 1) * page_size) bytes

-- The rounds of the loop from frame `i_frame`, on the bytes of the database file: the number of
-- frames that were copied.
unfoldable pub copy_loop : ℕ → WalHeader → ℕ → List ℕ → ℕ → ℕ → Action (List ℕ) ℕ
unfolding frame_offset copy_page
copy_loop zero header page_size file i_frame n_ckpt = pure n_ckpt
copy_loop (suc rounds) header page_size file i_frame n_ckpt =
    let frame_size = page_size + wal_frame_header_size in
    let (n, buf) = read_at file (frame_offset page_size i_frame) (replicate frame_size 0) in
    let rest = copy_loop rounds header page_size file (i_frame + 1) (n_ckpt + 1) in
    if ltb n frame_size
    then fail
        (corrupt (Message.with_number "wal::checkpoint: short read for frame {i_frame}" i_frame))
    else elim (decode_frame (take wal_frame_header_size buf)) [
      | err e ↦ fail e
      | ok fh ↦
          if not (fh.salt1 == header.salt1) || not (fh.salt2 == header.salt2)
          then pure n_ckpt
          else (modify (copy_page page_size fh.page_number (drop wal_frame_header_size buf))
              >> rest)
    ]

-- The header of the next log, and an empty index.
unfoldable pub reset_log : ℕ → ℕ → Bool → Wal → Wal
unfolding signed_header
reset_log salt1 salt2 cut w =
    let signed = signed_header (record w.header {
      salt1 = salt1;
      salt2 = salt2;
      checkpoint_seq = (w.header.checkpoint_seq + 1) % 2 ^ 32;
    }) in
    let w' = write_file 0 signed.1 w in
    record w' {
      file = if cut then some [] else w'.file;
      header = signed.0;
      blocks = [];
      mx_frame = 0;
      n_page = 0;
      frame_cksum = some (header_sums signed.0);
    }

unfoldable pub after_checkpoint : ℕ → ℕ → CheckpointMode → Wal → Wal
unfolding reset_log
after_checkpoint salt1 salt2 passive w = w
after_checkpoint salt1 salt2 full w = w
after_checkpoint salt1 salt2 restart w = reset_log salt1 salt2 false w
after_checkpoint salt1 salt2 truncating w = reset_log salt1 salt2 true w

-- The log and the database file.
pub record Files : Type 0 where
  pub wal : Wal
  pub database : List ℕ

-- Behind the loop: its result, and the database file as it left it.
unfoldable pub finish_checkpoint :
    ℕ → ℕ → CheckpointMode → Files → List ℕ × Result ℕ → Files × Result (ℕ × ℕ)
unfolding after_checkpoint
finish_checkpoint salt1 salt2 mode f (db, err e) = (record f { database = db }, err e)
finish_checkpoint salt1 salt2 mode f (db, ok n_ckpt) = (
  record {
    wal = after_checkpoint salt1 salt2 mode f.wal;
    database = truncate db (f.wal.n_page * f.wal.page_size);
  },
  ok (f.wal.mx_frame, n_ckpt),
)

unfoldable pub checkpoint : ℕ → ℕ → CheckpointMode → Action Files (ℕ × ℕ)
unfolding copy_loop finish_checkpoint
checkpoint salt1 salt2 mode f = elim f.wal.file [
  | none ↦
      if f.wal.mx_frame == 0
      then (f, ok (0, 0))
      else (f, err (corrupt (Message.plain "wal::checkpoint: no WAL file open")))
  | some file ↦
      if f.wal.mx_frame == 0
      then (f, ok (0, 0))
      else finish_checkpoint salt1 salt2 mode f
          (copy_loop f.wal.mx_frame f.wal.header f.wal.page_size file 1 0 f.database)
]
