-- ===== src/Pager/Transaction/Steps.antt =====
-- crates/rustqlite-core/src/pager/mod.rs: what a statement can do to the pager while a write
-- transaction is open.
use rustqlite.Base.{ℕ, ◌≡◌, List, some}
use rustqlite.Format.Header.{DbHeader}
use rustqlite.Pager.State.{Pager}
use rustqlite.Pager.Pages.{
  get_page, read_page_for_write, write_page, with_header_mut, truncate_image,
}
use rustqlite.Pager.Freelist.{allocate_page, free_page}
use rustqlite.Pager.Savepoint.{
  open_savepoint, drop_savepoint_named, release_savepoint, rollback_to_savepoint,
}
use rustqlite.Btree.Ptrmap.{PtrMapType, ptrmap_put}

-- A method may have returned an error: what it changed before stays changed.
pub data Step (p : Pager) : Pager → Type 0 where
  gets : (pgno : ℕ) → Step p (get_page pgno p).0
  reads_for_write : (pgno : ℕ) → Step p (read_page_for_write pgno p).0
  writes : (pgno : ℕ) (bytes : List ℕ) → Step p (write_page pgno bytes p).0
  allocates : (r : ℕ × Pager) → allocate_page p ≡ some r → Step p r.1
  frees : (pgno : ℕ) → Step p (free_page pgno p).0
  maps : (pgno : ℕ) (ty : PtrMapType) (parent : ℕ) → Step p (ptrmap_put pgno ty parent p).0
  changes_header : (f : DbHeader → DbHeader) → Step p (with_header_mut f p)
  truncates : (n_fin : ℕ) → Step p (truncate_image n_fin p)
  opens_savepoint : (name : List ℕ) → Step p (open_savepoint name p)
  drops_savepoint : (name : List ℕ) → Step p (drop_savepoint_named name p).0
  releases : (name : List ℕ) → Step p (release_savepoint name p).0
  rolls_back_to : (name : List ℕ) → Step p (rollback_to_savepoint name p).0

pub data Steps (p : Pager) : Pager → Type 0 where
  done : Steps p p
  then_step : (q r : Pager) → Steps p q → Step q r → Steps p r
