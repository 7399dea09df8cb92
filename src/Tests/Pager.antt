-- ===== src/Tests/Pager.antt =====
-- Transactions of the pager, and crashes.
use rustqlite.Base.{
  ℕ, ◌≡◌, refl, List, [], ◌∷◌, ◌++◌, length, replicate, false, none, some, ltb, if◌then◌else◌, ◌==◌,
  ◌||◌, ◌&&◌, not, get_elem?, take, arith,
}
use rustqlite.Base.Int.{pos}
use rustqlite.Error.{ok}
use rustqlite.Format.Header.{DbHeader}
use rustqlite.Format.TextEncoding.{utf8}
use rustqlite.Vfs.Lock.{unlocked, as_u8, apply_lock, is_some, blocks_readers}
use rustqlite.Vfs.Lock.Handles.{lock, lock_named}
use rustqlite.Vfs.MemFile.{read_at}
use rustqlite.Pager.State.{Pager, WriteTxn, overlay}
use rustqlite.Pager.Pages.{
  get_page, fetch_page, journal_page, append_record, write_page, with_header_mut,
}
use rustqlite.Pager.Txn.{begin_write, in_write_txn, open_journal, rollback}
use rustqlite.Pager.Transaction.{IsClean}
use rustqlite.Pager.Transaction.Steps.{writes, done, then_step}
use rustqlite.Pager.Transaction.Rollback.{rollback_lem}
use rustqlite.Pager.Journaling.{modify_page}
use rustqlite.Types.Collation.{ascii_lower}
use rustqlite.Pager.Savepoint.{
  eq_ignore_ascii_case, open_savepoint, savepoint_index, rollback_to_savepoint,
}
use rustqlite.Pager.Freelist.{auto_vacuum, link_trunk, free_page, extend}
use rustqlite.Btree.Cell.{TableLeafCell, parse_table_leaf_cell}
use rustqlite.Btree.Overflow.{build_table_leaf_cell, assemble_payload}
use rustqlite.Pager.Store.{pager_store}
use rustqlite.Pager.Store.Cells.{pager-round_trip}
use rustqlite.Pager.Freelist.Extend.{IsFresh, extend_ends}
use rustqlite.Pager.Transaction.{IsUnsaved}
use rustqlite.Pager.Transaction.Reads.{get_page-write_page}
use rustqlite.Pager.Transaction.Savepoints.{
  savepoint_of, rollback_to_savepoint_lem, savepoint_index-open_savepoint,
}
use rustqlite.Pager.Transaction.Header.{listed, rollback-free_page}

-- A database of one page of 128 bytes.
abbrev pub small_header : DbHeader
small_header = record {
  page_size = 128;
  write_version = 1;
  read_version = 1;
  reserved_space = 0;
  file_change_counter = 3;
  db_size_pages = 1;
  first_freelist_trunk = 0;
  freelist_count = 0;
  schema_cookie = 0;
  schema_format = 4;
  default_cache_size = pos 0;
  largest_root_page = 0;
  text_encoding = utf8;
  user_version = pos 0;
  incremental_vacuum = 0;
  application_id = 0;
  version_valid_for = 3;
  sqlite_version_number = 3_053_001;
}

abbrev page_of_sevens : List ℕ
page_of_sevens = replicate 128 7

abbrev pub opened_pager : Pager
opened_pager = record {
  disk = record {
    database = page_of_sevens;
    journal = none;
    lock_state = some (record { n_shared = 0; writer = none });
    level = unlocked;
  };
  page_size = 128;
  usable_size = 128;
  state = record { header = small_header; page_count = 1; cache = []; dirty = [] };
  txn = none;
  savepoints = [];
}

opened-IsClean : IsClean opened_pager.disk.database opened_pager.page_size opened_pager.state.cache
opened-IsClean pgno bytes found = ground (arith, found)

abbrev begun_pager : Pager
begun_pager = (begin_write 9 false opened_pager).0

begun : (begin_write 9 false opened_pager).1 ≡ ok tt
unfolding begin_write in_write_txn lock lock_named apply_lock is_some blocks_readers as_u8
begun = refl

abbrev written_pager : Pager
written_pager = (write_page 1 (replicate 128 8) begun_pager).0

-- A page that was overwritten in the transaction reads as before after the rollback.
rollback_lem_example :
    ((rollback written_pager).0.disk.database ≡ page_of_sevens)
    × ((rollback written_pager).0.disk.journal ≡ none)
    × ((rollback written_pager).0.txn ≡ none)
    × ((rollback written_pager).0.state.page_count ≡ 1)
    × ((pgno : ℕ) → (get_page pgno (rollback written_pager).0).1 ≡ (get_page pgno opened_pager).1)
rollback_lem_example =
    rollback_lem 9 false opened_pager written_pager refl refl opened-IsClean begun
      (then_step begun_pager written_pager done (writes 1 (replicate 128 8)))

abbrev changed_pager : Pager
changed_pager = (modify_page 1 (λ page. replicate 128 8) begun_pager).0

abbrev txn_of_one : WriteTxn
txn_of_one = record {
  cksum_init = 9;
  db_orig_size = 1;
  nrec = 1;
  journal_off = 648;
  journaled = 1 ∷ [];
}

-- A crash in the middle of the write of page 1.
abbrev half_written : List ℕ
half_written = replicate 64 8 ++ replicate 64 7

abbrev sp_name : List ℕ
sp_name = b's' ∷ []

abbrev sp_name_upper : List ℕ
sp_name_upper = b'S' ∷ []

abbrev saved_pager : Pager
saved_pager = (write_page 1 (replicate 128 9) (open_savepoint sp_name written_pager)).0

written-IsUnsaved : IsUnsaved page_of_sevens 128 1 written_pager
unfolding begin_write in_write_txn lock lock_named apply_lock is_some blocks_readers as_u8
    open_journal write_page
written-IsUnsaved = record {
  same_file = refl;
  same_size = refl;
  clean = opened-IsClean;
  sized = refl;
}

saved_index : savepoint_index saved_pager sp_name_upper ≡ some 0
unfolding savepoint_index eq_ignore_ascii_case open_savepoint begin_write in_write_txn lock
    lock_named apply_lock is_some blocks_readers as_u8 open_journal write_page ascii_lower
saved_index = refl

saved_entry : get_elem? saved_pager.savepoints 0 ≡ some (savepoint_of sp_name written_pager)
unfolding open_savepoint begin_write in_write_txn lock lock_named apply_lock is_some blocks_readers
    as_u8 open_journal write_page
saved_entry = refl

-- The page goes back to what the transaction had written before the savepoint.
rollback_to_savepoint_lem_example :
    ((rollback_to_savepoint sp_name_upper saved_pager).1 ≡ ok tt)
    × ((rollback_to_savepoint sp_name_upper saved_pager).0.savepoints
        ≡ take 1 saved_pager.savepoints)
    × ((rollback_to_savepoint sp_name_upper saved_pager).0.state.page_count
        ≡ written_pager.state.page_count)
    × ((pgno : ℕ)
        → (get_page pgno (rollback_to_savepoint sp_name_upper saved_pager).0).1
          ≡ (get_page pgno written_pager).1)
rollback_to_savepoint_lem_example =
    rollback_to_savepoint_lem page_of_sevens 128 1 written_pager saved_pager sp_name sp_name_upper 0
      written-IsUnsaved
      (then_step (open_savepoint sp_name written_pager) saved_pager done
        (writes 1 (replicate 128 9)))
      saved_index saved_entry

savepoint_index-open_savepoint_example :
    savepoint_index (open_savepoint sp_name_upper saved_pager) sp_name_upper ≡ some 0
savepoint_index-open_savepoint_example =
    savepoint_index-open_savepoint saved_pager sp_name_upper sp_name_upper 0 saved_index

get_page-write_page_example : (get_page 1 (write_page 1 (replicate 128 5) opened_pager).0).1 ≡ (
    if 1 == 1 && not (1 == 0 || ltb 1 1) then ok (replicate 128 5) else (get_page 1 opened_pager).1)
get_page-write_page_example =
    get_page-write_page opened_pager 1 (replicate 128 5) opened-IsClean refl 1

freed : (free_page 1 begun_pager).1 ≡ ok tt
unfolding free_page link_trunk auto_vacuum begin_write in_write_txn lock lock_named apply_lock
    is_some blocks_readers as_u8 open_journal get_page fetch_page overlay journal_page append_record
    write_page read_at with_header_mut
freed = refl

no_vacuum : begun_pager.state.header.largest_root_page ≡ 0
unfolding begin_write in_write_txn lock lock_named apply_lock is_some blocks_readers as_u8
    open_journal
no_vacuum = refl

rollback-free_page_example :
    (rollback (free_page 1 begun_pager).0).0.state.header ≡ listed 1 begun_pager.state.header
rollback-free_page_example = rollback-free_page 1 begun_pager no_vacuum freed

abbrev large_pager : Pager
large_pager = record opened_pager { usable_size = 512 }

extend_ends_example : IsFresh large_pager (extend 3 large_pager)
extend_ends_example = extend_ends large_pager (omega arith) (omega arith)

-- A payload of 600 bytes, which spills, in pages of 512 bytes.
abbrev roomy_pager : Pager
roomy_pager = record opened_pager { page_size = 512; usable_size = 512 }

abbrev spilled_bytes : List ℕ
spilled_bytes = replicate 600 6

length-spilled_bytes : length spilled_bytes ≡ 600
length-spilled_bytes = refl

pager-round_trip_example :
    (cell : TableLeafCell) × (parse_table_leaf_cell
        ([]
          ++ ((build_table_leaf_cell pager_store 512 512 roomy_pager (pos 8) spilled_bytes).0
              ++ []))
        0
        512
      ≡ ok cell)
    × (cell.payload_size ≡ length spilled_bytes)
    × (cell.rowid ≡ pos 8)
    × (assemble_payload pager_store 512 512
          (build_table_leaf_cell pager_store 512 512 roomy_pager (pos 8) spilled_bytes).1
          cell
        ≡ ok spilled_bytes)
pager-round_trip_example =
    pager-round_trip roomy_pager (pos 8) spilled_bytes [] [] (omega arith) (omega arith)
      (omega (arith, length-spilled_bytes)) (omega arith)
