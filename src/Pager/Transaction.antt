-- ===== src/Pager/Transaction.antt =====
-- crates/rustqlite-core/src/pager/mod.rs: what the operations of a write transaction leave alone: the
-- database file, the clean pages, and the size that a rollback goes back to.
pub mod Preserved
pub mod Steps
pub mod Reads
pub mod Rollback
pub mod Savepoints
pub mod Header
use rustqlite.Base.{
  ℕ, zero, suc, ◌+◌, ◌-◌, ◌*◌, ◌≤◌, ◌<◌, ◌≡◌, ◌≢◌, ◌⊎◌, inl, inr, refl, ap, sym, ◌∙◌, List, [], ◌∷◌,
  replicate, length, Bool, true, false, not, ◌||◌, ◌&&◌, Option, none, some, ltb, leb, ◌==◌,
  if◌then◌else◌, arith, Bool-cases, Option-cases,
}
use rustqlite.Base.Map.{
  Map, lookup, insert, retain_upto, contains, lookup-insert, lookup-retain_upto,
}
use rustqlite.Error.{Result, ok, err}
use rustqlite.Error.Action.{Keeps, Keeps-bind, Keeps-then, pure, fetch, modify, ◌>>=◌, ◌>>◌}
use rustqlite.Format.Header.{DbHeader}
use rustqlite.Vfs.MemFile.{read_at}
use rustqlite.Pager.State.{PagerState, WriteTxn, Pager, Method, overlay, or_else, with_state}
use rustqlite.Pager.Pages.{
  fetch_page, cached_or, get_page, append_record, journal_in, journal_page, read_page_for_write,
  write_page, with_header_mut, truncate_image,
}

-- What reading page `pgno` of a file gives.
abbrev pub read_of : List ℕ → ℕ → ℕ → ℕ × List ℕ
read_of file page_size pgno = read_at file ((pgno - 1) * page_size) (replicate page_size 0)

-- The clean pages are whole pages of the file.
abbrev pub IsClean : List ℕ → ℕ → Map (List ℕ) → Type 0
IsClean file page_size cache =
    (pgno : ℕ) (bytes : List ℕ)
    → lookup pgno cache ≡ some bytes
    → (read_of file page_size pgno).1 ≡ bytes
      × (ltb (read_of file page_size pgno).0 page_size ≡ false)

abbrev pub IsSized : ℕ → Option WriteTxn → Type 0
IsSized count none = ⊥
IsSized count (some t) = t.db_orig_size ≡ count

pub record IsUnsaved (file : List ℕ) (page_size count : ℕ) (p : Pager) : Type 0 where
  pub same_file : p.disk.database ≡ file
  pub same_size : p.page_size ≡ page_size
  pub clean : IsClean file page_size p.state.cache
  pub sized : IsSized count p.txn

pub IsClean-insert :
    (file : List ℕ) (page_size pgno : ℕ) (cache : Map (List ℕ))
    → IsClean file page_size cache
    → ltb (read_of file page_size pgno).0 page_size ≡ false
    → IsClean file page_size (insert pgno (read_of file page_size pgno).1 cache)
IsClean-insert file page_size pgno cache clean whole j bytes found =
    let got = sym (lookup-insert pgno (read_of file page_size pgno).1 cache j) ∙ found in
    elim (Bool-cases (j == pgno)) [
      | inl here ↦
          let e : j ≡ pgno = ground (arith, here) in rw e (ground (arith, got, here), whole)
      | inr other ↦ clean j bytes (ground (arith, got, other))
    ]

pub IsClean-retain :
    (file : List ℕ) (page_size n : ℕ) (cache : Map (List ℕ))
    → IsClean file page_size cache
    → IsClean file page_size (retain_upto n cache)
IsClean-retain file page_size n cache clean j bytes found =
    let got = sym (lookup-retain_upto n cache j) ∙ found in
    elim (Bool-cases (leb j n)) [
      | inl kept ↦ clean j bytes (ground (arith, got, kept))
      | inr gone ↦ ground (arith, got, gone)
    ]
