-- ===== src/Pager/WalMode/Switch.antt =====
-- crates/rustsqlite-core/src/pager/mod.rs: `set_journal_mode`, between the rollback journal and the log.
pub mod Outcome
use Prim.Native.String.{String}
use rustqlite.Base.{ℕ, List, Bool, true, false, Option, none, some, if◌then◌else◌, ◌&&◌}
use rustqlite.Base.Bytes.{copy_at}
use rustqlite.Error.{Result, ok, err, Message, msg}
use rustqlite.Error.Action.{Action, pure, fail, modify, ◌>>=◌, ◌>>◌}
use rustqlite.Format.Header.{DbHeader, serialize}
use rustqlite.Pager.State.{Pager, Method}
use rustqlite.Pager.Pages.{read_page_for_write, write_page, with_header_mut}
use rustqlite.Pager.Txn.{begin_write, commit, end_txn, in_write_txn}
use rustqlite.Pager.JournalMode.{JournalMode, delete, wal_mode, query, is_rollback}
use rustqlite.Pager.Wal.{Wal, open_wal}
use rustqlite.Pager.Wal.Checkpoint.{truncating}
use rustqlite.Pager.WalMode.{WalPager, journal_mode, checkpoint, on_pager}

unfoldable pub set_versions : ℕ → DbHeader → DbHeader
set_versions version h = record h { write_version = version; read_version = version }

-- `page1[0..100].copy_from_slice(&bytes)`, and the write of the page.
unfoldable pub write_header_page : List ℕ → Method (Unit {0})
write_header_page page1 p = write_page 1 (copy_at 0 (serialize p.state.header) page1) p

-- The result of opening the log.
unfoldable pub take_log : Result Wal → Action WalPager JournalMode
take_log (err e) p = (p, err e)
take_log (ok w) p = (record p { wal = some w }, ok wal_mode)

abbrev pub is_query : JournalMode → Bool
is_query query = true
is_query _ = false

abbrev pub is_wal : JournalMode → Bool
is_wal wal_mode = true
is_wal _ = false

-- `==` on modes, of which the second is the mode of a pager.
abbrev pub same_mode : JournalMode → JournalMode → Bool
same_mode delete delete = true
same_mode wal_mode wal_mode = true
same_mode _ _ = false

abbrev pub refusal : JournalMode → String
refusal to_eff =
    if is_wal to_eff
    then "cannot change into wal mode from within a transaction"
    else "cannot change out of wal mode from within a transaction"

-- `auto_vacuum_commit` is a parameter, and `cksum_init` the random seed of the journal.
module _ (auto_vacuum_commit : Method (Unit {0})) (cksum_init : ℕ) where
  unfoldable pub persist_header_bytes : Method (Unit {0})
  persist_header_bytes =
      begin_write cksum_init true
      >> (read_page_for_write 1 >>= write_header_page)
      >> commit auto_vacuum_commit
      >> modify end_txn

  -- Both changes of mode write the header while the pager has no log.
  unfoldable pub stamp_version : ℕ → Action WalPager (Unit {0})
  unfolding persist_header_bytes
  stamp_version version p =
      on_pager p (persist_header_bytes (with_header_mut (set_versions version) p.pager))

  -- From the log to the journal: the log is copied into the database file and dropped.
  unfoldable pub leave_wal : ℕ → ℕ → Action WalPager JournalMode
  unfolding stamp_version
  leave_wal salt1 salt2 =
      checkpoint salt1 salt2 truncating
      >>= (λ counts. modify (λ p. record p { wal = none }) >> stamp_version 1 >> pure delete)

  -- From the journal to the log, whose file may be there already.
  unfoldable pub enter_wal : Option (List ℕ) → Action WalPager JournalMode
  unfolding stamp_version take_log
  enter_wal log = stamp_version 2 >> (λ p. take_log (open_wal log p.pager.page_size) p)

  unfoldable pub switch : ℕ → ℕ → Option (List ℕ) → JournalMode → Action WalPager JournalMode
  unfolding leave_wal enter_wal
  switch salt1 salt2 log wal_mode = leave_wal salt1 salt2
  switch salt1 salt2 log _ = enter_wal log

  -- `set_journal_mode` in the mode `current`.
  unfoldable pub change_mode :
      Bool → ℕ → ℕ → Option (List ℕ) → JournalMode → JournalMode → Action WalPager JournalMode
  unfolding switch
  change_mode is_in_memory salt1 salt2 log current to p =
      let to_eff = if is_rollback to then delete else to in
      if is_query to
      then pure current p
      else if same_mode to_eff current
      then pure to_eff p
      else if is_wal to_eff && is_in_memory
      then pure current p
      else if in_write_txn p.pager
      then fail (msg (Message.plain (refusal to_eff))) p
      else switch salt1 salt2 log current p

  -- `log` is the file of the log, and the salts are those of the log that the checkpoint starts.
  unfoldable pub set_journal_mode :
      Bool → ℕ → ℕ → Option (List ℕ) → JournalMode → Action WalPager JournalMode
  unfolding change_mode
  set_journal_mode is_in_memory salt1 salt2 log to p =
      change_mode is_in_memory salt1 salt2 log (journal_mode p) to p
