-- ===== src/Pager/Crash/Atomic.antt =====
-- A commit is atomic: a crash before the journal is deleted is undone by recovery.
use rustqlite.Base.{
  ℕ, ◌+◌, ◌-◌, ◌*◌, ◌≤◌, ◌<◌, ◌≡◌, inl, inr, refl, ap, sym, ◌∙◌, List, [], ◌∷◌, ◌++◌, length, false,
  ltb, leb, none, some, arith, Bool-cases, length-append,
}
use rustqlite.Base.Bytes.{All, be_bytes}
use rustqlite.Base.Map.{Map}
use rustqlite.Error.{ok}
use rustqlite.Vfs.Lock.{as_u8, blocks_readers, is_some, lock_exclusive, apply_lock}
use rustqlite.Vfs.Lock.Handles.{lock, lock_named, check_reserved_lock}
use rustqlite.Vfs.MemFile.{write_at}
use rustqlite.Vfs.MemFile.Bytes.{byte_at}
use rustqlite.Pager.Journal.{build_header}
use rustqlite.Pager.State.{Pager}
use rustqlite.Vfs.MemFile.Bytes.{append_nil}
use rustqlite.Pager.Pages.{write_journal}
use rustqlite.Pager.Recovery.{Disk, recover_hot_journal}
use rustqlite.Pager.Recovery.Replay.{Image, records, IsImage}
use rustqlite.Pager.Recovery.Restore.{IsPreImage, IsDamaged, IsCovered}
use rustqlite.Pager.Recovery.Outcome.{journal_file, IsJournal, recover_hot_journal_lem}
use rustqlite.Pager.Journaling.{page_numbers, IsSafe, IsJournaled}
use rustqlite.Pager.Journaling.Images.{page-IsCovered}
use rustqlite.Pager.Crash.{restarted}

page_of_position :
    (orig page_size pgno i : ℕ) → (pgno - 1) * page_size ≤ i → i < orig * page_size → pgno ≤ orig
page_of_position orig page_size pgno i at within = elim (Bool-cases (leb pgno orig)) [
  | inl le ↦ ground (arith, le)
  | inr behind ↦
      let e : orig + (pgno - 1 - orig) ≡ pgno - 1 = ground (arith, behind) in
      absurd (omega (arith, ap (λ (t : ℕ). t * page_size) e))
]

-- The patched journal.
patched_journal :
    (nrec seed orig page_size : ℕ) (recs : List ℕ)
    → write_at (build_header 0 seed orig page_size ++ recs) 8 (be_bytes 4 nrec)
      ≡ build_header nrec seed orig page_size ++ recs
unfolding write_at build_header
patched_journal nrec seed orig page_size recs =
    let fits : ltb (length (build_header 0 seed orig page_size ++ recs)) (8 + 4) ≡ false =
      ground (arith, length-append (build_header 0 seed orig page_size) recs) in
    rw fits refl

-- Recovery of a process that was started again.
pub recover-restarted :
    (seed orig page_size : ℕ) (file : List ℕ) (images : List Image) (junk : List ℕ) (d : Disk)
    → IsJournal (length images) seed orig page_size
    → length file ≡ orig * page_size
    → All (IsImage orig page_size) images
    → All (IsPreImage page_size file) images
    → IsDamaged page_size file images d.database
    → d.journal ≡ some (journal_file (length images) seed orig page_size images junk)
    → ((recover_hot_journal (restarted d)).0.database ≡ file)
      × ((recover_hot_journal (restarted d)).0.journal ≡ none)
      × ((recover_hot_journal (restarted d)).1 ≡ ok tt)
unfolding restarted lock lock_named check_reserved_lock apply_lock lock_exclusive is_some
    blocks_readers as_u8
recover-restarted seed orig page_size file images junk d numbers len all pre damaged j =
    recover_hot_journal_lem seed orig page_size file images junk (restarted d) numbers len all pre
      damaged j refl refl

-- The journal with its count patched.
patched :
    (file : List ℕ) (seed orig page_size : ℕ) (p : Pager)
    → (j : IsJournaled file seed orig page_size p)
    → (write_journal 8 (be_bytes 4 j.txn.nrec) p.disk).journal
      ≡ some (journal_file (length j.images) seed orig page_size j.images [])
patched file seed orig page_size p j =
    ap (λ o. (write_journal 8 (be_bytes 4 j.txn.nrec) (record p.disk { journal = o })).journal)
      j.journal
    ∙ ap some (patched_journal j.txn.nrec seed orig page_size (records seed j.images))
    ∙ (λ i. some (
        build_header (j.writing.counted i) seed orig page_size
        ++ sym (append_nil (records seed j.images)) i))

-- Bytes of the old file lie in a pending page only if the page has an image.
pending-IsCovered :
    (page_size orig i : ℕ) (images : List Image) (pages : Map (List ℕ))
    → i < orig * page_size
    → All (IsSafe orig page_size (page_numbers images)) pages
    → IsCovered page_size i pages
    → IsCovered page_size i images
pending-IsCovered page_size orig i images [] within safe covered = absurd covered
pending-IsCovered page_size orig i images ((pgno, bytes) ∷ pages) within safe (inl here) =
    page-IsCovered page_size i pgno images
      (safe.0.1 (page_of_position orig page_size pgno i here.0 within)) here
pending-IsCovered page_size orig i images ((pgno, bytes) ∷ pages) within safe (inr later) =
    pending-IsCovered page_size orig i images pages within safe.1 later

-- Before the count is patched, the journal counts no images, and the database file is as it was.
pub unpatched_recovers :
    (file : List ℕ) (seed orig page_size : ℕ) (p : Pager)
    → (j : IsJournaled file seed orig page_size p) → IsJournal j.txn.nrec seed orig page_size
    → length file ≡ orig * page_size
    → (recover_hot_journal (restarted p.disk)).0.database ≡ file
unfolding records
unpatched_recovers file seed orig page_size p j numbers len =
    (recover-restarted seed orig page_size file [] (records seed j.images) p.disk
      (record {
        count = omega arith;
        seeded = numbers.seeded;
        sized = numbers.sized;
        paged = numbers.paged;
        real = numbers.real;
      })
      len tt tt (λ i within. inl (ap (λ f. byte_at f i) j.unsaved.same_file)) j.journal).0

-- While the pages are written, only pages with images change.
pub writing_recovers :
    (file : List ℕ) (seed orig page_size : ℕ) (p : Pager)
    → (j : IsJournaled file seed orig page_size p) → IsJournal j.txn.nrec seed orig page_size
    → length file ≡ orig * page_size
    → (db : List ℕ) → IsDamaged page_size file p.state.dirty db
    → (recover_hot_journal (
        restarted
          (record (write_journal 8 (be_bytes 4 j.txn.nrec) p.disk) { database = db }))).0.database
      ≡ file
writing_recovers file seed orig page_size p j numbers len db damaged =
    let counted : IsJournal (length j.images) seed orig page_size = record {
      count = omega (arith, numbers.count, j.writing.counted);
      seeded = numbers.seeded;
      sized = numbers.sized;
      paged = numbers.paged;
      real = numbers.real;
    } in
    (recover-restarted seed orig page_size file j.images []
      (record (write_journal 8 (be_bytes 4 j.txn.nrec) p.disk) { database = db }) counted len
      j.sound j.pre_images
      (λ i within. elim (damaged i within) [
        | inl same ↦ inl same
        | inr pending ↦ inr (
            pending-IsCovered page_size orig i j.images p.state.dirty (omega (arith, within, len))
              j.safe pending)
      ])
      (patched file seed orig page_size p j)).0
