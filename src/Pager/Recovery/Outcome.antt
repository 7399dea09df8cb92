-- ===== src/Pager/Recovery/Outcome.antt =====
-- What `recover_hot_journal` does, on each of its branches.
use rustqlite.Base.{
  ℕ, ◌*◌, ◌^◌, ◌<◌, ◌≡◌, ◌≢◌, refl, ap, sym, ◌∙◌, List, [], ◌++◌, length, take, replicate, min,
  none, some, false, ◌==◌, arith, take_all,
}
use rustqlite.Base.Bytes.{All}
use rustqlite.Error.{ok}
use rustqlite.Vfs.Lock.{exclusive}
use rustqlite.Vfs.Lock.Handles.{lock, check_reserved_lock}
use rustqlite.Vfs.MemFile.{truncate}
use rustqlite.Pager.Journal.{JournalHeader, build_header, journal_hdr_sz}
use rustqlite.Pager.Journal.Laws.{parse_header-build_header}
use rustqlite.Pager.Recovery.{
  Disk, play_back, locked_playback, recover_with, recover_from, recover_hot_journal, replay,
}
use rustqlite.Pager.Recovery.Replay.{Image, records, IsImage, read_at_middle, replay-records}
use rustqlite.Pager.Recovery.Restore.{IsPreImage, IsDamaged, truncate-write_back}

-- A journal file as a transaction leaves it, with what follows the counted records.
abbrev pub journal_file : ℕ → ℕ → ℕ → ℕ → List Image → List ℕ → List ℕ
journal_file nrec seed orig page_size images junk =
    build_header nrec seed orig page_size ++ (records seed images ++ junk)

abbrev pub header_of : ℕ → ℕ → ℕ → ℕ → JournalHeader
header_of nrec seed orig page_size = record {
  nrec = nrec;
  cksum_init = seed;
  db_orig_size = orig;
  sector = 512;
  page_size = page_size;
}

-- The numbers that the header of a journal stores in four bytes each.
pub record IsJournal (nrec seed orig page_size : ℕ) : Type 0 where
  pub count : nrec < 2 ^ 32
  pub seeded : seed < 2 ^ 32
  pub sized : orig < 2 ^ 32
  pub paged : page_size < 2 ^ 32
  pub real : page_size ≢ 0

-- The header of the journal is read and parsed.
recover-journal_file :
    (nrec seed orig page_size : ℕ) (images : List Image) (junk : List ℕ) (d : Disk)
    → IsJournal nrec seed orig page_size
    → check_reserved_lock d.lock_state ≡ false
    → recover_from d (some (journal_file nrec seed orig page_size images junk))
      ≡ recover_with
          (journal_file nrec seed orig page_size images junk)
          d
          (some (header_of nrec seed orig page_size))
unfolding recover_from
recover-journal_file nrec seed orig page_size images junk d ok_numbers no_writer =
    let head = build_header nrec seed orig page_size in
    let parsed =
      parse_header-build_header nrec seed orig page_size ok_numbers.count ok_numbers.seeded
        ok_numbers.sized ok_numbers.paged in
    let read =
      read_at_middle [] head (records seed images ++ junk) (replicate journal_hdr_sz 0)
        (sym parsed.0) (omega (arith, parsed.0)) in
    let whole : take (min (length head) journal_hdr_sz) head ≡ head =
      take_all (min (length head) journal_hdr_sz) head (omega (arith, parsed.0)) in
    rw (no_writer, read, whole, parsed.1) refl

-- The write-back of a journal of page images over a file that differs from the database of before
-- only where there are images.
play_back-database :
    (seed orig page_size : ℕ) (file : List ℕ) (images : List Image) (junk : List ℕ) (d : Disk)
    → IsJournal (length images) seed orig page_size
    → length file ≡ orig * page_size
    → All (IsImage orig page_size) images
    → All (IsPreImage page_size file) images
    → IsDamaged page_size file images d.database
    → (play_back
        (header_of (length images) seed orig page_size)
        (journal_file (length images) seed orig page_size images junk)
        d).database
      ≡ file
unfolding play_back
play_back-database seed orig page_size file images junk d ok_numbers len all pre damaged =
    let head = build_header (length images) seed orig page_size in
    let at : length head ≡ journal_hdr_sz =
      (parse_header-build_header (length images) seed orig page_size ok_numbers.count
        ok_numbers.seeded ok_numbers.sized ok_numbers.paged).0 in
    ap
      (λ off.
        truncate
          (replay (length images) (header_of (length images) seed orig page_size)
            (journal_file (length images) seed orig page_size images junk) off d.database)
          (orig * page_size))
      (sym at)
    ∙ ap (λ db. truncate db (orig * page_size))
        (replay-records (header_of (length images) seed orig page_size) head images junk d.database
          all ok_numbers.seeded ok_numbers.sized)
    ∙ truncate-write_back page_size file orig images d.database len all pre damaged

recover_granted :
    (header : JournalHeader) (jfile : List ℕ) (d : Disk)
    → header.page_size ≢ 0
    → (lock d.lock_state d.level exclusive).2 ≡ ok tt
    → recover_with jfile d (some header) ≡ (
      play_back header jfile (record d {
        lock_state = (lock d.lock_state d.level exclusive).0;
        level = (lock d.lock_state d.level exclusive).1;
      }),
      ok tt,
    )
unfolding recover_with locked_playback
recover_granted header jfile d nz granted =
    let real : (header.page_size == 0) ≡ false = ground (arith, nz) in rw (real, granted) refl

deletes :
    (header : JournalHeader) (jfile : List ℕ) (d : Disk) → (play_back header jfile d).journal ≡ none
unfolding play_back
deletes header jfile d = refl

-- Recovery from a hot journal of page images restores the database of before, whatever the pages
-- with images hold, and deletes the journal, when no other handle has the writer's lock and the
-- exclusive lock is granted.
pub recover_hot_journal_lem :
    (seed orig page_size : ℕ) (file : List ℕ) (images : List Image) (junk : List ℕ) (d : Disk)
    → IsJournal (length images) seed orig page_size
    → length file ≡ orig * page_size
    → All (IsImage orig page_size) images
    → All (IsPreImage page_size file) images
    → IsDamaged page_size file images d.database
    → d.journal ≡ some (journal_file (length images) seed orig page_size images junk)
    → check_reserved_lock d.lock_state ≡ false
    → (lock d.lock_state d.level exclusive).2 ≡ ok tt
    → ((recover_hot_journal d).0.database ≡ file)
      × ((recover_hot_journal d).0.journal ≡ none)
      × ((recover_hot_journal d).1 ≡ ok tt)
unfolding recover_hot_journal
recover_hot_journal_lem seed orig page_size file images junk d ok_numbers len all pre damaged j
      no_writer granted =
    let l = lock d.lock_state d.level exclusive in
    let opened =
      ap (recover_from d) j
      ∙ recover-journal_file (length images) seed orig page_size images junk d ok_numbers
          no_writer in
    let rest =
      recover_granted (header_of (length images) seed orig page_size)
        (journal_file (length images) seed orig page_size images junk) d ok_numbers.real granted in
    let held : Disk = record d { lock_state = l.0; level = l.1 } in
    rw (opened, rest)
      (
        play_back-database seed orig page_size file images junk held ok_numbers len all pre damaged,
        deletes (header_of (length images) seed orig page_size)
            (journal_file (length images) seed orig page_size images junk) held,
        refl,
      )
