-- ===== src/Tests/Modes.antt =====
-- Switching a database of one page from the rollback journal to the log.
use rustqlite.Base.{◌≡◌, refl, false, none}
use rustqlite.Error.{Result, ok}
use rustqlite.Error.Action.{pure}
use rustqlite.Format.Header.{serialize}
use rustqlite.Vfs.Lock.{lock_exclusive, as_u8, apply_lock, is_some, blocks_readers}
use rustqlite.Vfs.Lock.Handles.{lock, lock_named}
use rustqlite.Vfs.MemFile.{read_at}
use rustqlite.Pager.Journal.{record_len}
use rustqlite.Pager.State.{overlay}
use rustqlite.Pager.Pages.{
  get_page, fetch_page, read_page_for_write, journal_page, append_record, write_page,
  with_header_mut,
}
use rustqlite.Pager.Freelist.{auto_vacuum}
use rustqlite.Pager.Txn.{
  begin_write, in_write_txn, open_journal, stamp_header, commit_files, commit, commit_changes,
  vacuum_first,
}
use rustqlite.Pager.JournalMode.{JournalMode, wal_mode, is_rollback}
use rustqlite.Pager.Wal.{open_wal}
use rustqlite.Pager.WalMode.{WalPager, journal_mode}
use rustqlite.Pager.WalMode.Switch.{
  set_journal_mode, change_mode, switch, enter_wal, stamp_version, persist_header_bytes,
  write_header_page, set_versions, take_log,
}
use rustqlite.Pager.WalMode.Switch.Outcome.{target, set_journal_mode_lem}
use rustqlite.Tests.Pager.{opened_pager}

abbrev before : WalPager
before = record { pager = opened_pager; wal = none }

abbrev switched : WalPager × Result JournalMode
switched = set_journal_mode (pure tt) 9 false 3 4 none wal_mode before

switched_ok : switched.1 ≡ ok wal_mode
unfolding set_journal_mode change_mode switch enter_wal stamp_version persist_header_bytes
    write_header_page set_versions take_log journal_mode is_rollback begin_write in_write_txn
    open_journal stamp_header commit_files commit commit_changes vacuum_first auto_vacuum lock
    lock_named apply_lock is_some blocks_readers as_u8 with_header_mut read_page_for_write get_page
    fetch_page overlay journal_page append_record write_page read_at record_len serialize open_wal
    lock_exclusive
switched_ok = refl

set_journal_mode_lem_example :
    (wal_mode ≡ target false wal_mode (journal_mode before)) × (journal_mode switched.0 ≡ wal_mode)
set_journal_mode_lem_example =
    set_journal_mode_lem (pure tt) 9 3 4 none false wal_mode before switched.0 wal_mode
      (λ i. (switched.0, switched_ok i))
