-- ===== src/Pager/Crash.antt =====
-- crates/rustsqlite-core/src/pager/mod.rs: the files that a crash during `commit` leaves. `commit`
-- syncs the journal before and after it patches the count, and the database file before it deletes
-- the journal; nothing orders the writes in between.
pub mod Atomic
pub mod Commit
pub mod Calls
pub mod Retry
use rustqlite.Base.{ℕ, List, Bool, true, false, some, none}
use rustqlite.Base.Bytes.{be_bytes}
use rustqlite.Vfs.Lock.{unlocked, LockState}
use rustqlite.Pager.State.{WriteTxn, Pager}
use rustqlite.Pager.Pages.{write_journal}
use rustqlite.Pager.Recovery.{Disk}
use rustqlite.Pager.Recovery.Restore.{IsDamaged}
use rustqlite.Pager.Txn.{commit_files}

-- The process is gone, and its locks with it.
unfoldable pub restarted : Disk → Disk
restarted d = record d {
  lock_state = some (record { n_shared = 0; writer = none });
  level = unlocked;
}

-- The files after a crash of the commit of `p`, and whether the commit had come to its end. While the
-- pages are written, the file holds anything in the pages that change and has any length from the end
-- of the others on: pages may be written in any order, in part, or not at all.
pub data CrashDisk (t : WriteTxn) (p : Pager) : Bool → Disk → Type 0 where
  unpatched : CrashDisk t p false (restarted p.disk)
  writing :
      (db : List ℕ)
      → IsDamaged p.page_size p.disk.database p.state.dirty db
      → CrashDisk t p false
          (restarted (record (write_journal 8 (be_bytes 4 t.nrec) p.disk) { database = db }))
  deleted : CrashDisk t p true (restarted (commit_files p).disk)
