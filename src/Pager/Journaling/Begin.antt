-- ===== src/Pager/Journaling/Begin.antt =====
-- The journal that `begin_write` opens.
use rustqlite.Base.{ℕ, ◌≡◌, refl, ap, sym, ◌∙◌, List, [], ◌∷◌, length, Bool, none, some, arith}
use rustqlite.Base.Bytes.{All}
use rustqlite.Error.{ok}
use rustqlite.Error.Action.{Keeps}
use rustqlite.Vfs.Lock.{LockLevel}
use rustqlite.Vfs.MemFile.{write_at, truncate, file_size}
use rustqlite.Vfs.MemFile.Bytes.{append_nil}
use rustqlite.Vfs.MemFile.Writing.{truncate_lem}
use rustqlite.Pager.State.{Pager}
use rustqlite.Pager.Journal.{build_header}
use rustqlite.Pager.Txn.{open_journal, lock_file, begin_write, journal_or_empty}
use rustqlite.Pager.Recovery.Replay.{records}
use rustqlite.Pager.Transaction.{IsClean}
use rustqlite.Pager.Transaction.Rollback.{begin_write-gives}
use rustqlite.Pager.Journaling.{IsJournaled}
use rustqlite.Pager.Journaling.Images.{write_at_end}

no_bytes : (xs : List ℕ) → length xs ≡ 0 → xs ≡ []
no_bytes [] e = refl
no_bytes (x ∷ xs) e = absurd (omega (arith, e))

truncate_empty : (file : List ℕ) → truncate file 0 ≡ []
unfolding file_size
truncate_empty file = no_bytes (truncate file 0) (truncate_lem file 0).0

write_fresh : (old head : List ℕ) → write_at (truncate old 0) 0 head ≡ head
write_fresh old head = ap (λ f. write_at f 0 head) (truncate_empty old) ∙ write_at_end [] head

-- Nothing is pending, and the clean pages are copies of the file's.
pub record IsQuiet (p : Pager) : Type 0 where
  pub idle : p.txn ≡ none
  pub none_dirty : p.state.dirty ≡ []
  pub no_savepoints : p.savepoints ≡ []
  pub clean : IsClean p.disk.database p.page_size p.state.cache

-- The locks leave a quiet pager as it is.
record IsQuietOn (file : List ℕ) (page_size count : ℕ) (p : Pager) : Type 0 where
  same_file : p.disk.database ≡ file
  same_size : p.page_size ≡ page_size
  same_count : p.state.page_count ≡ count
  none_dirty : p.state.dirty ≡ []
  no_savepoints : p.savepoints ≡ []
  clean : IsClean file page_size p.state.cache

lock_file-quiet :
    (file : List ℕ) (page_size count : ℕ) (level : LockLevel)
    → Keeps (IsQuietOn file page_size count) (lock_file level)
lock_file-quiet file n c level p h = record {
  same_file = h.same_file;
  same_size = h.same_size;
  same_count = h.same_count;
  none_dirty = h.none_dirty;
  no_savepoints = h.no_savepoints;
  clean = h.clean;
}

All-nil {ℓ κ} : {A : Type ℓ} (P : A → Type κ) (xs : List A) → xs ≡ [] → All P xs
All-nil P [] e = tt
All-nil P (x ∷ xs) e = absurd (ground (arith, e))

open_journal-IsJournaled :
    (file : List ℕ) (page_size count cksum_init : ℕ) (p : Pager)
    → IsQuietOn file page_size count p
    → IsJournaled file cksum_init count page_size (open_journal cksum_init p)
unfolding open_journal records
open_journal-IsJournaled file n c seed p h = record {
  unsaved = record {
    same_file = h.same_file;
    same_size = h.same_size;
    clean = h.clean;
    sized = h.same_count;
  };
  images = [];
  txn = _;
  running = refl;
  writing = record {
    seeded = refl;
    orig_size = h.same_count;
    counted = refl;
    at_end = refl;
    listed = λ k. refl;
  };
  journal = ap some (
      write_fresh (journal_or_empty p.disk.journal)
        (build_header 0 seed p.state.page_count p.page_size)
      ∙ (λ i. build_header 0 seed (h.same_count i) (h.same_size i))
      ∙ sym (append_nil (build_header 0 seed c n)));
  sound = tt;
  pre_images = tt;
  grown = omega (arith, h.same_count);
  safe = All-nil _ p.state.dirty h.none_dirty;
  safe_savepoints = All-nil _ p.savepoints h.no_savepoints;
}

-- A transaction that was begun has the journal without records.
pub begin_write-IsJournaled :
    (cksum_init : ℕ) (ex_flag : Bool) (p : Pager)
    → IsQuiet p
    → (begin_write cksum_init ex_flag p).1 ≡ ok tt
    → IsJournaled p.disk.database cksum_init p.state.page_count p.page_size
        (begin_write cksum_init ex_flag p).0
begin_write-IsJournaled seed ex_flag p quiet begun =
    let file = p.disk.database in
    let n : ℕ = p.page_size in
    let c : ℕ = p.state.page_count in
    begin_write-gives (IsQuietOn file n c) (IsJournaled file seed c n) seed ex_flag p quiet.idle
      (lock_file-quiet file n c) (open_journal-IsJournaled file n c seed)
      (record {
        same_file = refl;
        same_size = refl;
        same_count = refl;
        none_dirty = quiet.none_dirty;
        no_savepoints = quiet.no_savepoints;
        clean = quiet.clean;
      })
      begun
