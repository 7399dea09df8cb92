-- ===== src/Pager/Txn.antt =====
-- crates/rustqlite-core/src/pager/mod.rs: write transactions with a rollback journal.
use rustqlite.Base.{
  ℕ, ◌+◌, ◌-◌, ◌*◌, ◌%◌, ◌^◌, List, [], ◌∷◌, Bool, true, false, not, ◌&&◌, Option, none, some, ltb,
  ◌==◌, if◌then◌else◌,
}
use rustqlite.Base.Bytes.{copy_at, be_bytes}
use rustqlite.Base.Map.{Map, insert_all, retain_upto}
use rustqlite.Error.Action.{pure, fetch, modify, ◌>>=◌, ◌>>◌}
use rustqlite.Format.Header.{DbHeader, serialize}
use rustqlite.Vfs.Lock.{LockLevel, shared, reserved, exclusive}
use rustqlite.Vfs.Lock.Handles.{lock, unlock}
use rustqlite.Vfs.MemFile.{write_at, truncate}
use rustqlite.Pager.Journal.{build_header, journal_hdr_sz}
use rustqlite.Pager.Recovery.{Disk}
use rustqlite.Pager.State.{PagerState, WriteTxn, Pager, Method, with_state}
use rustqlite.Pager.Pages.{read_page_for_write, write_page, with_header_mut, write_journal}
use rustqlite.Pager.Freelist.{auto_vacuum}

abbrev pub sqlite_version_number : ℕ
sqlite_version_number = 3_053_001

-- `incr_vacuum`.
unfoldable pub incr_vacuum : Pager → Bool
incr_vacuum p = not (p.state.header.incremental_vacuum == 0)

abbrev pub is_open : Option WriteTxn → Bool
is_open none = false
is_open (some t) = true

unfoldable pub in_write_txn : Pager → Bool
in_write_txn p = is_open p.txn

-- `self.file.lock(level).await`.
abbrev pub lock_file : LockLevel → Method (Unit {0})
lock_file level p =
    let l = lock p.disk.lock_state p.disk.level level in
    (record p { disk = record p.disk { lock_state = l.0; level = l.1 } }, l.2)

-- `begin_read`.
unfoldable pub begin_read : Method (Unit {0})
begin_read = lock_file shared

abbrev pub journal_or_empty : Option (List ℕ) → List ℕ
journal_or_empty none = []
journal_or_empty (some file) = file

-- The journal is opened, emptied, and given its header.
unfoldable pub open_journal : ℕ → Pager → Pager
open_journal cksum_init p =
    let header = build_header 0 cksum_init p.state.page_count p.page_size in
    let file = write_at (truncate (journal_or_empty p.disk.journal) 0) 0 header in
    record p {
      disk = record p.disk { journal = some file };
      txn = some (record {
        cksum_init = cksum_init;
        db_orig_size = p.state.page_count;
        nrec = 0;
        journal_off = journal_hdr_sz;
        journaled = [];
      });
    }

-- `cksum_init` is what `next_cksum_init` returns.
unfoldable pub begin_write : ℕ → Bool → Method (Unit {0})
begin_write cksum_init ex_flag p =
    let begin : Method (Unit {0}) =
      lock_file shared
      >> lock_file (if ex_flag then exclusive else reserved)
      >> modify (open_journal cksum_init) in
    if in_write_txn p then pure tt p else begin p

unfoldable pub end_txn : Pager → Pager
end_txn p =
    let u = unlock p.disk.lock_state p.disk.level shared in
    record p {
      disk = record p.disk { journal = none; lock_state = u.0; level = u.1 };
      txn = none;
      savepoints = [];
    }

-- The header of a commit.
abbrev pub stamp : ℕ → DbHeader → DbHeader
stamp page_count h = record h {
  file_change_counter = (h.file_change_counter + 1) % 2 ^ 32;
  version_valid_for = (h.file_change_counter + 1) % 2 ^ 32;
  sqlite_version_number = sqlite_version_number;
  db_size_pages = page_count;
}

unfoldable pub stamp_header : Method (Unit {0})
stamp_header = do
  modify (λ p. with_header_mut (stamp p.state.page_count) p)
  p ← fetch
  page1 ← read_page_for_write 1
  write_page 1 (copy_at 0 (serialize p.state.header) page1)

-- The record count is patched into the header of the journal.
unfoldable pub patch_nrec : Option WriteTxn → Disk → Disk
patch_nrec none d = d
patch_nrec (some t) d = write_journal 8 (be_bytes 4 t.nrec) d

unfoldable pub write_pages : ℕ → Map (List ℕ) → List ℕ → List ℕ
write_pages page_size [] db = db
write_pages page_size ((pgno, bytes) ∷ pages) db =
    write_pages page_size pages (write_at db ((pgno - 1) * page_size) bytes)

-- The entries of `dirty` in the order of the map, which is any order for a `HashMap`.
unfoldable pub write_database : ℕ → Map (List ℕ) → ℕ → Disk → Disk
write_database page_size pages page_count d = record d {
  database = truncate (write_pages page_size pages d.database) (page_count * page_size);
}

unfoldable pub promote : Pager → Pager
promote = with_state (λ st. record st { dirty = []; cache = insert_all st.dirty st.cache })

-- From the patched count to the end of the transaction.
unfoldable pub commit_files : Pager → Pager
commit_files p =
    let d = write_database p.page_size p.state.dirty p.state.page_count (patch_nrec p.txn p.disk) in
    end_txn (promote (record p { disk = d }))

-- `auto_vacuum_commit` is that of btree/autovac.rs.
module _ (auto_vacuum_commit : Method (Unit {0})) where
  unfoldable pub vacuum_first : Method (Unit {0})
  vacuum_first p =
      if auto_vacuum p && not (incr_vacuum p) && ltb 0 p.state.header.freelist_count
      then auto_vacuum_commit p
      else pure tt p

  unfoldable pub commit_changes : Method (Unit {0})
  commit_changes = do vacuum_first; stamp_header; modify commit_files

  unfoldable pub commit : Method (Unit {0})
  commit p =
      if not (in_write_txn p)
      then pure tt p
      else elim p.state.dirty [ [] ↦ pure tt (end_txn p) | _ ∷ _ ↦ commit_changes p ]

-- The state of before, as far as `rollback` goes back to it.
abbrev pub discard : ℕ → PagerState → PagerState
discard orig st = record st { dirty = []; cache = retain_upto orig st.cache; page_count = orig }

abbrev pub roll_back_txn : Option WriteTxn → Pager → Pager
roll_back_txn none p = p
roll_back_txn (some t) p = end_txn (with_state (discard t.db_orig_size) p)

unfoldable pub rollback : Method (Unit {0})
rollback p = pure tt (roll_back_txn p.txn p)

unfoldable pub flush_dirty : Method (Unit {0})
flush_dirty p = pure tt (elim p.state.dirty [
  | [] ↦ p
  | _ ∷ _ ↦ promote (record p {
    disk = record p.disk { database = write_pages p.page_size p.state.dirty p.disk.database };
  })
])
