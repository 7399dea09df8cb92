-- ===== src/Pager/WalMode.antt =====
-- crates/rustsqlite-core/src/pager/mod.rs: the pager in WAL mode. A pager of the rollback journal is
-- one with no log.
pub mod Reads
pub mod Switch
use rustqlite.Base.{
  ℕ, zero, suc, ◌+◌, ◌-◌, ◌*◌, ◌/◌, ◌%◌, ◌^◌, List, [], ◌∷◌, length, map, replicate, Bool, true,
  false, ◌||◌, Option, none, some, ltb, leb, ◌==◌, if◌then◌else◌,
}
use rustqlite.Base.Map.{Map, insert, insert_all}
use rustqlite.Error.{Result, ok, err, Message, corrupt, not_a_db}
use rustqlite.Error.Action.{Action, pure, fail, continue}
use rustqlite.Format.Header.{DbHeader, parse, usable_size}
use rustqlite.Vfs.MemFile.{read_at, file_size}
use rustqlite.Pager.Recovery.{Disk, recover_hot_journal}
use rustqlite.Pager.State.{Pager, PagerState, overlay, with_state}
use rustqlite.Pager.Pages.{fetch_page}
use rustqlite.Pager.Txn.{end_txn}
use rustqlite.Pager.JournalMode.{JournalMode, delete, wal_mode}
use rustqlite.Pager.WalIndex.{find_frame}
use rustqlite.Pager.Wal.{Wal, open_wal, frame_data_offset}
use rustqlite.Pager.Wal.Write.{write_frames, or_empty}
use rustqlite.Pager.Wal.Checkpoint
use rustqlite.Pager.Wal.Checkpoint.{CheckpointMode, Files}

pub record WalPager : Type 0 where
  pub pager : Pager
  pub wal : Option Wal

unfoldable pub journal_mode : WalPager → JournalMode
journal_mode p = elim p.wal [ none ↦ delete | some w ↦ wal_mode ]

abbrev pub larger : ℕ → ℕ → ℕ
larger a b = if ltb a b then b else a

unfoldable pub page_count : WalPager → ℕ
page_count p = elim p.wal [
  | none ↦ p.pager.state.page_count
  | some w ↦
      if w.mx_frame == 0 then p.pager.state.page_count else larger w.n_page p.pager.state.page_count
]

-- `self` with what an operation of the pager without a log does.
abbrev pub on_pager {ℓ} : {A : Type ℓ} → WalPager → Pager × Result A → WalPager × Result A
on_pager p (pager, r) = (record p { pager = pager }, r)

-- The bytes of a frame, kept in the cache; what `read_at` counts is not looked at.
unfoldable pub read_wal : ℕ → Wal → ℕ → WalPager → WalPager × Result (List ℕ)
read_wal pgno w i_frame p =
    let r =
      read_at (or_empty w.file) (frame_data_offset w i_frame) (replicate p.pager.page_size 0) in
    (
      record p {
        pager = with_state (λ st. record st { cache = insert pgno r.1 st.cache }) p.pager;
      },
      ok r.1,
    )

unfoldable pub read_frame_or_file : ℕ → Action WalPager (List ℕ)
unfolding read_wal
read_frame_or_file pgno p = elim p.wal [
  | none ↦ on_pager p (fetch_page pgno p.pager)
  | some w ↦
      let i_frame = find_frame w.mx_frame pgno w.blocks in
      if i_frame == 0 then on_pager p (fetch_page pgno p.pager) else read_wal pgno w i_frame p
]

unfoldable pub get_page : ℕ → Action WalPager (List ℕ)
unfolding page_count read_frame_or_file
get_page pgno p =
    if pgno == 0 || ltb (page_count p) pgno
    then (
      p,
      err (
          corrupt
            (Message.with_numbers "page out of range, page count" (pgno ∷ page_count p ∷ []))),
    )
    else elim (overlay p.pager.state pgno) [
      | some page ↦ (p, ok page)
      | none ↦ read_frame_or_file pgno p
    ]

-- `sort_by_key` on the entries of a map, whose keys differ.
unfoldable pub insert_sorted : ℕ → List ℕ → Map (List ℕ) → Map (List ℕ)
insert_sorted pgno page [] = (pgno, page) ∷ []
insert_sorted pgno page ((q, other) ∷ pages) =
    let rest = insert_sorted pgno page pages in
    if leb pgno q then (pgno, page) ∷ (q, other) ∷ pages else (q, other) ∷ rest

unfoldable pub sort_by_key : Map (List ℕ) → Map (List ℕ)
unfolding insert_sorted
sort_by_key [] = []
sort_by_key ((pgno, page) ∷ pages) = insert_sorted pgno page (sort_by_key pages)

-- Behind the write of the frames: the pages are promoted, and the transaction ends.
unfoldable pub finish_commit :
    Map (List ℕ) → WalPager → Wal × Result (Unit {0}) → WalPager × Result (Unit {0})
finish_commit pending p (w, err e) =
    (record { pager = with_state (λ st. record st { dirty = [] }) p.pager; wal = some w }, err e)
finish_commit pending p (w, ok u) = (
  record {
    pager =
        end_txn (
          with_state (λ st. record st { dirty = []; cache = insert_all pending st.cache }) p.pager);
    wal = some w;
  },
  ok tt,
)

-- The part of `commit` in WAL mode, once the header is stamped; `page_count` was taken before.
unfoldable pub commit_frames : ℕ → ℕ → ℕ → Wal → Action WalPager (Unit {0})
unfolding sort_by_key finish_commit
commit_frames salt1 salt2 count w p =
    let pending = sort_by_key p.pager.state.dirty in
    finish_commit pending p (write_frames salt1 salt2 pending count w)

abbrev pub with_files : WalPager → Files × Result (ℕ × ℕ) → WalPager × Result (ℕ × ℕ)
with_files p (f, r) = (
  record {
    pager = record p.pager { disk = record p.pager.disk { database = f.database } };
    wal = some f.wal;
  },
  r,
)

unfoldable pub checkpoint : ℕ → ℕ → CheckpointMode → Action WalPager (ℕ × ℕ)
checkpoint salt1 salt2 mode p = elim p.wal [
  | none ↦ (p, ok (0, 0))
  | some w ↦
      if w.mx_frame == 0
      then (p, ok (0, 0))
      else with_files p (
          Checkpoint.checkpoint salt1 salt2 mode
            (record { wal = w; database = p.pager.disk.database }))
]

-- The pager of an open database: the header is that of the database file.
unfoldable pub opened : Disk → DbHeader → Option Wal → WalPager
opened d header wal = record {
  pager = record {
    disk = d;
    page_size = header.page_size;
    usable_size = usable_size header;
    state = record {
      header = header;
      page_count = file_size d.database / header.page_size;
      cache = [];
      dirty = [];
    };
    txn = none;
    savepoints = [];
  };
  wal = wal;
}

unfoldable pub open_log : Disk → DbHeader → Result Wal → Disk × Result WalPager
unfolding opened
open_log d header (err e) = (d, err e)
open_log d header (ok w) = (d, ok (opened d header (some w)))

unfoldable pub open_with_header : Option (List ℕ) → Disk → Result DbHeader → Disk × Result WalPager
unfolding open_log opened
open_with_header log d (err e) = (d, err e)
open_with_header log d (ok header) =
    if header.write_version == 2 || header.read_version == 2
    then open_log d header (open_wal log header.page_size)
    else (d, ok (opened d header none))

unfoldable pub open_recovered : Option (List ℕ) → Disk × Result (Unit {0}) → Disk × Result WalPager
unfolding open_with_header
open_recovered log (d, err e) = (d, err e)
open_recovered log (d, ok u) =
    let r = read_at d.database 0 (replicate 100 0) in
    if ltb r.0 100
    then (d, err (not_a_db (Message.plain "file is shorter than the 100-byte header")))
    else open_with_header log d (parse r.1)

-- `open`, on the files of a path, of which the log is one.
unfoldable pub open_pager : Disk → Option (List ℕ) → Disk × Result WalPager
unfolding open_recovered
open_pager d log = open_recovered log (recover_hot_journal d)
