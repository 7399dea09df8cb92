-- ===== src/Pager/Recovery.antt =====
-- crates/rustsqlite-core/src/pager/mod.rs: the recovery from a hot journal, on the files of a
-- database and its journal. Its calls of the file system succeed here; Failing has it with calls that
-- fail.
pub mod Replay
pub mod Restore
pub mod Outcome
pub mod Failing
use rustqlite.Base.{
  ℕ, zero, suc, ◌+◌, ◌-◌, ◌*◌, List, take, drop, length, replicate, min, Bool, true, false, not,
  ◌||◌, Option, none, some, ltb, leb, ◌==◌, if◌then◌else◌,
}
use rustqlite.Base.Bytes.{slice, be_u32}
use rustqlite.Error.{Result, ok, err}
use rustqlite.Vfs.Lock.{LockLevel, shared, exclusive, LockState}
use rustqlite.Vfs.Lock.Handles.{lock, unlock, check_reserved_lock}
use rustqlite.Vfs.MemFile.{read_at, write_at, truncate}
use rustqlite.Pager.Journal.{JournalHeader, parse_header, record_len, pager_cksum, journal_hdr_sz}

-- The files of a path, and what the handle on the database holds.
pub record Disk : Type 0 where
  pub database : List ℕ
  pub journal : Option (List ℕ)
  pub lock_state : Option LockState
  pub level : LockLevel

-- The rounds of the loop over the records, on the journal file from `off` on.
unfoldable pub replay : ℕ → JournalHeader → List ℕ → ℕ → List ℕ → List ℕ
replay zero header jfile off db = db
replay (suc rounds) header jfile off db =
    let rec_len = record_len header.page_size in
    let r = read_at jfile off (replicate rec_len 0) in
    let pgno = be_u32 (slice 0 4 r.1) in
    let bytes = slice 4 (4 + header.page_size) r.1 in
    let stored = be_u32 (slice (4 + header.page_size) (8 + header.page_size) r.1) in
    let db' =
      if leb pgno header.db_orig_size
      then write_at db ((pgno - 1) * header.page_size) bytes
      else db in
    let more = replay rounds header jfile (off + rec_len) db' in
    if ltb r.0 rec_len
    then db
    else if pgno == 0 || not (pager_cksum header.cksum_init bytes == stored)
    then db
    else more

-- The write-back, once the lock is held.
unfoldable pub play_back : JournalHeader → List ℕ → Disk → Disk
play_back header jfile d =
    let db =
      truncate (replay header.nrec header jfile journal_hdr_sz d.database)
        (header.db_orig_size * header.page_size) in
    let u = unlock d.lock_state d.level shared in
    record { database = db; journal = none; lock_state = u.0; level = u.1 }

-- The outcome of the lock: an error returns at once.
unfoldable pub locked_playback :
    JournalHeader → List ℕ → Disk → Result (Unit {0}) → Disk × Result (Unit {0})
locked_playback header jfile d (ok u) = (play_back header jfile d, ok tt)
locked_playback header jfile d (err e) = (d, err e)

unfoldable pub recover_with : List ℕ → Disk → Option JournalHeader → Disk × Result (Unit {0})
recover_with jfile d none = (record d { journal = none }, ok tt)
recover_with jfile d (some header) =
    let l = lock d.lock_state d.level exclusive in
    if header.page_size == 0
    then (record d { journal = none }, ok tt)
    else locked_playback header jfile (record d { lock_state = l.0; level = l.1 }) l.2

-- The header is parsed from what could be read of the first sector.
unfoldable pub recover_from : Disk → Option (List ℕ) → Disk × Result (Unit {0})
recover_from d none = (d, ok tt)
recover_from d (some jfile) =
    let r = read_at jfile 0 (replicate journal_hdr_sz 0) in
    if check_reserved_lock d.lock_state
    then (d, ok tt)
    else recover_with jfile d (parse_header (take (min r.0 journal_hdr_sz) r.1))

unfoldable pub recover_hot_journal : Disk → Disk × Result (Unit {0})
recover_hot_journal d = recover_from d d.journal
