-- ===== src/Pager/State.antt =====
-- crates/rustqlite-core/src/pager/mod.rs: the pager in rollback-journal mode (`wal` is `None`), with
-- the files of its path. The journal that a transaction has open is the one on the disk.
use rustqlite.Base.{ℕ, List, Option, none, some}
use rustqlite.Base.Map.{Map, lookup}
use rustqlite.Error.Action.{Action}
use rustqlite.Format.Header.{DbHeader}
use rustqlite.Pager.Recovery.{Disk}

pub record PagerSavepoint : Type 0 where
  pub name : List ℕ
  pub n_orig : ℕ
  pub dirty_snapshot : Map (List ℕ)

pub record PagerState : Type 0 where
  pub header : DbHeader
  pub page_count : ℕ
  pub cache : Map (List ℕ)
  pub dirty : Map (List ℕ)

pub record WriteTxn : Type 0 where
  pub cksum_init : ℕ
  pub db_orig_size : ℕ
  pub nrec : ℕ
  pub journal_off : ℕ
  pub journaled : List ℕ

pub record Pager : Type 0 where
  pub disk : Disk
  pub page_size : ℕ
  pub usable_size : ℕ
  pub state : PagerState
  pub txn : Option WriteTxn
  pub savepoints : List PagerSavepoint

abbrev pub Method {ℓ} : Type ℓ → Type ℓ
Method A = Action Pager A

-- `st.dirty.get(&pgno).or_else(|| st.cache.get(&pgno))`.
abbrev pub or_else {ℓ} : {A : Type ℓ} → Option A → Option A → Option A
or_else (some x) o = some x
or_else none o = o

unfoldable pub overlay : PagerState → ℕ → Option (List ℕ)
overlay st pgno = or_else (lookup pgno st.dirty) (lookup pgno st.cache)

-- Storing into the locked state, and into the files.
abbrev pub with_state : (PagerState → PagerState) → Pager → Pager
with_state f p = record p { state = f p.state }

abbrev pub with_disk : (Disk → Disk) → Pager → Pager
with_disk f p = record p { disk = f p.disk }
