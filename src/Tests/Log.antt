-- ===== src/Tests/Log.antt =====
-- The write-ahead log and its index on concrete inputs, and their theorems at concrete inputs.
use rustqlite.Base.{ℕ, ◌≡◌, refl, List, [], ◌∷◌, ◌++◌, take, replicate, some, none, arith}
use rustqlite.Error.{ok}
use rustqlite.Pager.WalIndex.{
  append_frames, find_frame, append_frame, add_blocks, following_block, new_block, append_at,
  append, probe, next_slot, chain, improves, search_blocks, search_block, settle, wal_frame_page,
}
use rustqlite.Format.WalIndex.{wal_hash_key}
use rustqlite.Pager.WalIndex.Latest.{latest}
use rustqlite.Pager.WalIndex.Finding.{find_frame-append_frames}
use rustqlite.Pager.Wal.{Wal, open_wal, placeholder, header_sums}
use rustqlite.Pager.Wal.Write.{Page, write_frames, signed_header, build_frame}
use rustqlite.Pager.Wal.Scan.{Entry, log_bytes}
use rustqlite.Pager.Wal.Gather.{entries_of}
use rustqlite.Pager.Wal.Log.{IsLog}
use rustqlite.Pager.Wal.Commit.{IsTxn, logged, logged-IsLog}
use rustqlite.Pager.Wal.Fresh.{IsFormat, new_header, started, started-IsLog}
use rustqlite.Pager.Wal.Durable.{open_wal_after_crash, appended}
use rustqlite.Vfs.Lock.{unlocked}
use rustqlite.Vfs.MemFile.{file_size}
use rustqlite.Vfs.MemFile.Bytes.{byte_at}
use rustqlite.Pager.State.{overlay}
use rustqlite.Pager.Wal.Reading.{content}
use rustqlite.Pager.Wal.Checkpoint.{Files, checkpoint, restart}
use rustqlite.Pager.Wal.Checkpoint.Copying.{checkpoint_lem}
use rustqlite.Pager.WalMode.{WalPager, get_page, page_count}
use rustqlite.Pager.WalMode.Reads.{get_page_lem}
use rustqlite.Tests.Pager.{small_header}
use rustqlite.Pager.Wal.Session.{AreTxns, write_txns, open_wal-write_txns}

abbrev three_pages : List ℕ
three_pages = 3 ∷ 5 ∷ 3 ∷ []

find_twice : find_frame 3 3 (append_frames 0 three_pages []) ≡ 3
unfolding find_frame append_frames append_frame add_blocks following_block new_block append_at
    append probe next_slot chain improves search_blocks search_block settle wal_frame_page
    wal_hash_key
find_twice = refl

find_frame-append_frames_example :
    find_frame 3 5 (append_frames 0 three_pages []) ≡ latest 5 three_pages
find_frame-append_frames_example = find_frame-append_frames three_pages 5

-- Pages of eight bytes.
abbrev ones : List ℕ
ones = replicate 8 1

abbrev twos : List ℕ
twos = replicate 8 2

abbrev first_pages : List Page
first_pages = (1, ones) ∷ []

abbrev next_pages : List Page
next_pages = (1, twos) ∷ (2, ones) ∷ []

hdr-IsFormat : IsFormat 8 7 9
hdr-IsFormat = record {
  whole = refl;
  small = omega arith;
  first = omega arith;
  second = omega arith;
}

first-IsTxn : IsTxn 8 1 first_pages
first-IsTxn = record {
  nonempty = omega arith;
  pages = ((omega arith, omega arith, refl), tt);
  sized = omega arith;
  small = omega arith;
}

next-IsTxn : IsTxn 8 2 next_pages
next-IsTxn = record {
  nonempty = omega arith;
  pages = ((omega arith, omega arith, refl), ((omega arith, omega arith, refl), tt));
  sized = omega arith;
  small = omega arith;
}

abbrev hdr : List ℕ
hdr = (signed_header (new_header 8 7 9)).1

-- The log with one transaction.
abbrev log : Wal
log = logged hdr [] 1 first_pages (started 8 7 9)

abbrev entries : List Entry
entries = entries_of 1 first_pages

log-IsLog : IsLog hdr entries log
log-IsLog =
    logged-IsLog hdr [] (started 8 7 9) (started-IsLog 8 7 9 hdr-IsFormat) 1 first_pages first-IsTxn

abbrev old : List ℕ
old = hdr ++ log_bytes log.header (header_sums log.header) entries

open_wal_after_crash_example :
    ((write_frames 7 9 next_pages 2 log).0.file ≡ some (old ++ appended log entries 2 next_pages))
    × (open_wal (some (old ++ take 40 (appended log entries 2 next_pages))) 8
        ≡ ok (record log { file = some (old ++ take 40 (appended log entries 2 next_pages)) }))
unfolding log_bytes entries_of build_frame
open_wal_after_crash_example =
    open_wal_after_crash hdr entries log 7 9 2 next_pages 40 old log-IsLog (omega arith) next-IsTxn
      log-IsLog.file (omega arith)

txns-AreTxns : AreTxns 8 ((1, first_pages) ∷ (2, next_pages) ∷ [])
txns-AreTxns = (first-IsTxn, (next-IsTxn, tt))

open_wal-write_txns_example :
    open_wal (write_txns 7 9 ((1, first_pages) ∷ (2, next_pages) ∷ []) (placeholder none 8)).file 8
    ≡ ok (write_txns 7 9 ((1, first_pages) ∷ (2, next_pages) ∷ []) (placeholder none 8))
open_wal-write_txns_example =
    open_wal-write_txns 8 7 9 1 first_pages ((2, next_pages) ∷ []) hdr-IsFormat txns-AreTxns

-- A pager whose database file is empty, and whose log has the first page.
abbrev log_pager : WalPager
log_pager = record {
  pager = record {
    disk = record {
      database = [];
      journal = none;
      lock_state = some (record { n_shared = 0; writer = none });
      level = unlocked;
    };
    page_size = 8;
    usable_size = 8;
    state = record { header = small_header; page_count = 0; cache = []; dirty = [] };
    txn = none;
    savepoints = [];
  };
  wal = some log;
}

get_page_lem_example : (get_page 1 log_pager).1 ≡ ok ones
unfolding content entries_of overlay page_count
get_page_lem_example =
    get_page_lem hdr entries log_pager log 1 refl log-IsLog refl (omega arith) refl (omega arith)
      (omega arith)

abbrev files : Files
files = record { wal = log; database = [] }

checkpoint_lem_example :
    ((checkpoint 3 4 restart files).1 ≡ ok (1, 1))
    × (file_size (checkpoint 3 4 restart files).0.database ≡ 8)
    × (byte_at (checkpoint 3 4 restart files).0.database 5 ≡ 1)
unfolding content entries_of
checkpoint_lem_example =
    checkpoint_lem hdr entries files restart 3 4 1 5 log-IsLog (omega arith) (omega arith)
      (omega arith) (omega arith)
