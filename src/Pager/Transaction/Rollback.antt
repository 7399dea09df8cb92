-- ===== src/Pager/Transaction/Rollback.antt =====
-- A rollback brings back the pages and the page count of before the transaction.
use rustqlite.Base.{
  ℕ, ◌≡◌, refl, ap, sym, ◌∙◌, List, [], Bool, false, Option, none, some, if◌then◌else◌, arith,
}
use rustqlite.Error.{ok}
use rustqlite.Error.Action.{Keeps, OnOk, OnOk-continue, OnOk-ok, Keeps-then, modify, ◌>>◌}
use rustqlite.Vfs.Lock.{LockLevel, shared, exclusive, reserved}
use rustqlite.Pager.State.{WriteTxn, Pager}
use rustqlite.Pager.Pages.{get_page}
use rustqlite.Pager.Txn.{
  lock_file, open_journal, begin_write, end_txn, roll_back_txn, rollback, in_write_txn, is_open,
}
use rustqlite.Pager.Transaction.{IsClean, IsSized, IsUnsaved, IsClean-retain}
use rustqlite.Pager.Transaction.Reads.{page_view, get_page_view, IsClean-eq}
use rustqlite.Pager.Transaction.Preserved.{
  get_page-Keeps, read_page_for_write-Keeps, write_page-Keeps, allocate_page-Returns,
  free_page-Keeps, ptrmap_put-Keeps, with_header_mut-IsUnsaved, truncate_image-IsUnsaved,
  open_savepoint-IsUnsaved, drop_savepoint_named-IsUnsaved, release_savepoint-Keeps,
  rollback_to_savepoint-Keeps, Returns,
}
use rustqlite.Pager.Transaction.Steps.{
  Step, gets, reads_for_write, writes, allocates, frees, maps, changes_header, truncates,
  opens_savepoint, drops_savepoint, releases, rolls_back_to, Steps, done, then_step,
}

Returns-some :
    (file : List ℕ) (page_size count : ℕ) (o : Option (ℕ × Pager)) (r : ℕ × Pager)
    → o ≡ some r
    → Returns file page_size count o
    → IsUnsaved file page_size count r.1
Returns-some file page_size count none r e h = ground arith
Returns-some file page_size count (some q) r e h = rw (some_eq e) h
  where
    some_eq : some q ≡ some r → r ≡ q
    some_eq e = ground (arith, e)

Step-IsUnsaved :
    (file : List ℕ) (page_size count : ℕ) {p q : Pager}
    → Step p q
    → IsUnsaved file page_size count p
    → IsUnsaved file page_size count q
Step-IsUnsaved file n c {p = p} (gets pgno) h = get_page-Keeps file n c pgno p h
Step-IsUnsaved file n c {p = p} (reads_for_write pgno) h =
    read_page_for_write-Keeps file n c pgno p h
Step-IsUnsaved file n c {p = p} (writes pgno bytes) h = write_page-Keeps file n c pgno bytes p h
Step-IsUnsaved file n c {p = p} (allocates r e) h =
    Returns-some file n c _ r e (allocate_page-Returns file n c p h)
Step-IsUnsaved file n c {p = p} (frees pgno) h = free_page-Keeps file n c pgno p h
Step-IsUnsaved file n c {p = p} (maps pgno ty parent) h =
    ptrmap_put-Keeps file n c pgno ty parent p h
Step-IsUnsaved file n c {p = p} (changes_header f) h = with_header_mut-IsUnsaved file n c f p h
Step-IsUnsaved file n c {p = p} (truncates n_fin) h = truncate_image-IsUnsaved file n c n_fin p h
Step-IsUnsaved file n c {p = p} (opens_savepoint name) h =
    open_savepoint-IsUnsaved file n c name p h
Step-IsUnsaved file n c {p = p} (drops_savepoint name) h =
    drop_savepoint_named-IsUnsaved file n c name p h
Step-IsUnsaved file n c {p = p} (releases name) h = release_savepoint-Keeps file n c name p h
Step-IsUnsaved file n c {p = p} (rolls_back_to name) h =
    rollback_to_savepoint-Keeps file n c name p h

pub Steps-IsUnsaved :
    (file : List ℕ) (page_size count : ℕ) {p q : Pager}
    → Steps p q
    → IsUnsaved file page_size count p
    → IsUnsaved file page_size count q
Steps-IsUnsaved file n c done h = h
Steps-IsUnsaved file n c (then_step q r steps step) h =
    Step-IsUnsaved file n c step (Steps-IsUnsaved file n c steps h)

-- The locks change neither the pages nor the file.
record IsIdle (file : List ℕ) (page_size count : ℕ) (p : Pager) : Type 0 where
  same_file : p.disk.database ≡ file
  same_size : p.page_size ≡ page_size
  same_count : p.state.page_count ≡ count
  clean : IsClean file page_size p.state.cache

lock_file-IsIdle :
    (file : List ℕ) (page_size count : ℕ) (level : LockLevel) (p : Pager)
    → IsIdle file page_size count p
    → IsIdle file page_size count (lock_file level p).0
lock_file-IsIdle file n c level p h = record {
  same_file = h.same_file;
  same_size = h.same_size;
  same_count = h.same_count;
  clean = h.clean;
}

open_journal-IsUnsaved :
    (file : List ℕ) (page_size count cksum_init : ℕ) (p : Pager)
    → IsIdle file page_size count p
    → IsUnsaved file page_size count (open_journal cksum_init p)
unfolding open_journal
open_journal-IsUnsaved file n c cksum_init p h = record {
  same_file = h.same_file;
  same_size = h.same_size;
  clean = h.clean;
  sized = h.same_count;
}

closed : (p : Pager) → p.txn ≡ none → in_write_txn p ≡ false
unfolding in_write_txn
closed p idle = ap is_open idle

begin_write-OnOk :
    (P Q : Pager → Type 0) (cksum_init : ℕ) (ex_flag : Bool) (p : Pager)
    → p.txn ≡ none
    → ((level : LockLevel) → Keeps P (lock_file level))
    → ((s : Pager) → P s → Q (open_journal cksum_init s))
    → P p
    → OnOk Q (begin_write cksum_init ex_flag p)
unfolding begin_write
begin_write-OnOk P Q cksum_init ex_flag p idle locks opens h =
    let target : LockLevel = if ex_flag then exclusive else reserved in
    rw (closed p idle) (
      OnOk-continue P Q ((lock_file shared >> lock_file target) p)
        (λ u. modify (open_journal cksum_init))
        (Keeps-then P (lock_file shared) (lock_file target) (locks shared) (locks target) p h)
        (λ u s k. opens s k))

-- What the locks keep, and the opening of the journal turns into `Q`, once the transaction is begun.
pub begin_write-gives :
    (P Q : Pager → Type 0) (cksum_init : ℕ) (ex_flag : Bool) (p : Pager)
    → p.txn ≡ none
    → ((level : LockLevel) → Keeps P (lock_file level))
    → ((s : Pager) → P s → Q (open_journal cksum_init s))
    → P p
    → (begin_write cksum_init ex_flag p).1 ≡ ok tt
    → Q (begin_write cksum_init ex_flag p).0
begin_write-gives P Q cksum_init ex_flag p idle locks opens h begun =
    OnOk-ok Q (begin_write cksum_init ex_flag p) tt begun
      (begin_write-OnOk P Q cksum_init ex_flag p idle locks opens h)

begin_write-IsUnsaved :
    (cksum_init : ℕ) (ex_flag : Bool) (p : Pager)
    → p.txn ≡ none
    → IsClean p.disk.database p.page_size p.state.cache
    → (begin_write cksum_init ex_flag p).1 ≡ ok tt
    → IsUnsaved p.disk.database p.page_size p.state.page_count (begin_write cksum_init ex_flag p).0
begin_write-IsUnsaved cksum_init ex_flag p idle clean begun =
    let Idle = IsIdle p.disk.database p.page_size p.state.page_count in
    begin_write-gives Idle (IsUnsaved p.disk.database p.page_size p.state.page_count) cksum_init
      ex_flag p idle (lock_file-IsIdle p.disk.database p.page_size p.state.page_count)
      (open_journal-IsUnsaved p.disk.database p.page_size p.state.page_count cksum_init)
      (record { same_file = refl; same_size = refl; same_count = refl; clean = clean }) begun

-- The state that a rollback leaves.
record IsRestored (file : List ℕ) (page_size count : ℕ) (p : Pager) : Type 0 where
  same_file : p.disk.database ≡ file
  no_journal : p.disk.journal ≡ none
  ended : p.txn ≡ none
  same_size : p.page_size ≡ page_size
  same_count : p.state.page_count ≡ count
  none_dirty : p.state.dirty ≡ []
  clean : IsClean file page_size p.state.cache

roll_back_txn-IsRestored :
    (file : List ℕ) (page_size count : ℕ) (txn : Option WriteTxn) (p : Pager)
    → p.disk.database ≡ file
    → p.page_size ≡ page_size
    → IsClean file page_size p.state.cache
    → IsSized count txn
    → IsRestored file page_size count (roll_back_txn txn p)
unfolding end_txn
roll_back_txn-IsRestored file n c none p f s clean sized = absurd sized
roll_back_txn-IsRestored file n c (some t) p f s clean sized = record {
  same_file = f;
  no_journal = refl;
  ended = refl;
  same_size = s;
  same_count = sized;
  none_dirty = refl;
  clean = IsClean-retain file n t.db_orig_size p.state.cache clean;
}

rollback-IsRestored :
    (file : List ℕ) (page_size count : ℕ) (p : Pager)
    → IsUnsaved file page_size count p
    → IsRestored file page_size count (rollback p).0
unfolding rollback
rollback-IsRestored file n c p h =
    roll_back_txn-IsRestored file n c p.txn p h.same_file h.same_size h.clean h.sized

restored_page :
    (file : List ℕ) (page_size count : ℕ) (p : Pager) (pgno : ℕ)
    → IsRestored file page_size count p
    → (get_page pgno p).1 ≡ page_view file page_size count [] pgno
restored_page file n c p pgno h =
    get_page_view p pgno
      (IsClean-eq p.disk.database file p.page_size n p.state.cache h.same_file h.same_size h.clean)
    ∙ (λ i. page_view (h.same_file i) (h.same_size i) (h.same_count i) (h.none_dirty i) pgno)

-- After a transaction with any operations, a rollback leaves the database file as it was before,
-- deletes the journal, and every page reads as before, as does the page count.
pub rollback_lem :
    (cksum_init : ℕ) (ex_flag : Bool) (p q : Pager)
    → p.txn ≡ none
    → p.state.dirty ≡ []
    → IsClean p.disk.database p.page_size p.state.cache
    → (begin_write cksum_init ex_flag p).1 ≡ ok tt
    → Steps (begin_write cksum_init ex_flag p).0 q
    → ((rollback q).0.disk.database ≡ p.disk.database)
      × ((rollback q).0.disk.journal ≡ none)
      × ((rollback q).0.txn ≡ none)
      × ((rollback q).0.state.page_count ≡ p.state.page_count)
      × ((pgno : ℕ) → (get_page pgno (rollback q).0).1 ≡ (get_page pgno p).1)
rollback_lem cksum_init ex_flag p q idle none_dirty clean begun steps =
    let u =
      Steps-IsUnsaved p.disk.database p.page_size p.state.page_count steps
        (begin_write-IsUnsaved cksum_init ex_flag p idle clean begun) in
    let b = rollback-IsRestored p.disk.database p.page_size p.state.page_count q u in
    (
      b.same_file,
      b.no_journal,
      b.ended,
      b.same_count,
      λ pgno.
          restored_page p.disk.database p.page_size p.state.page_count (rollback q).0 pgno b
          ∙ sym (
              get_page_view p pgno clean
              ∙ ap (λ d. page_view p.disk.database p.page_size p.state.page_count d pgno)
                  none_dirty),
    )
