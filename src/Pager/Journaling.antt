-- ===== src/Pager/Journaling.antt =====
-- crates/rustqlite-core/src/pager/mod.rs: the journal holds a pre-image of every page of the
-- database that a transaction changes.
pub mod Images
pub mod Reads
pub mod Append
pub mod Changes
pub mod Steps
pub mod Begin
use rustqlite.Base.{
  ℕ, ◌+◌, ◌*◌, ◌≤◌, ◌<◌, ◌^◌, ◌≡◌, ◌≢◌, List, [], ◌∷◌, ◌++◌, map, length, true, Option, some,
}
use rustqlite.Base.Bytes.{All}
use rustqlite.Base.Map.{Map, lookup, contains}
use rustqlite.Error.Action.{pure, ◌>>=◌}
use rustqlite.Pager.State.{PagerSavepoint, WriteTxn, Pager, Method}
use rustqlite.Pager.Pages.{read_page_for_write, write_page}
use rustqlite.Pager.Journal.{build_header, record_len, journal_hdr_sz}
use rustqlite.Pager.Recovery.Replay.{Image, records, IsImage}
use rustqlite.Pager.Recovery.Restore.{IsPreImage}
use rustqlite.Pager.Transaction.{IsUnsaved}

abbrev pub page_numbers : List Image → List ℕ
page_numbers [] = []
page_numbers ((pgno, bytes) ∷ images) = pgno ∷ page_numbers images

-- A pending change of a page of the database has an image, and is a page long.
abbrev pub IsSafe : ℕ → ℕ → List ℕ → ℕ × List ℕ → Type 0
IsSafe orig page_size imaged (pgno, bytes) =
    (length bytes ≡ page_size) × (pgno ≤ orig → contains pgno imaged ≡ true)

abbrev pub IsSafeSavepoint : ℕ → ℕ → List ℕ → PagerSavepoint → Type 0
IsSafeSavepoint orig page_size imaged sp =
    (orig ≤ sp.n_orig) × All (IsSafe orig page_size imaged) sp.dirty_snapshot

-- The transaction that has written the images.
pub record IsTxnOf (seed orig page_size : ℕ) (images : List Image) (t : WriteTxn) : Type 0 where
  pub seeded : t.cksum_init ≡ seed
  pub orig_size : t.db_orig_size ≡ orig
  pub counted : t.nrec ≡ length images
  pub at_end : t.journal_off ≡ journal_hdr_sz + length (records seed images)
  pub listed : (pgno : ℕ) → contains pgno t.journaled ≡ contains pgno (page_numbers images)

-- The journal of an open transaction, `file` being the database of `orig` pages.
pub record IsJournaled (file : List ℕ) (seed orig page_size : ℕ) (p : Pager) : Type 0 where
  pub unsaved : IsUnsaved file page_size orig p
  pub images : List Image
  pub txn : WriteTxn
  pub running : p.txn ≡ some txn
  pub writing : IsTxnOf seed orig page_size images txn
  pub journal : p.disk.journal ≡ some (build_header 0 seed orig page_size ++ records seed images)
  pub sound : All (IsImage orig page_size) images
  pub pre_images : All (IsPreImage page_size file) images
  pub grown : orig ≤ p.state.page_count
  pub safe : All (IsSafe orig page_size (page_numbers images)) p.state.dirty
  pub safe_savepoints : All (IsSafeSavepoint orig page_size (page_numbers images)) p.savepoints

-- The way a caller changes a page: `read_page_for_write`, then `write_page`.
unfoldable pub modify_page : ℕ → (List ℕ → List ℕ) → Method (Unit {0})
modify_page pgno change = read_page_for_write pgno >>= λ page. write_page pgno (change page)
