-- ===== src/Pager/Transaction/Preserved.antt =====
-- Every operation of a write transaction keeps the database file and the clean pages.
use rustqlite.Base.{
  ℕ, zero, suc, ◌+◌, ◌≡◌, inl, inr, refl, ap₂, sym, ◌∙◌, List, length, Bool, true, false, not, ◌||◌,
  ◌&&◌, Option, none, some, ltb, ◌==◌, Bool-cases,
}
use rustqlite.Base.Map.{insert, contains}
use rustqlite.Error.{Result, ok, err}
use rustqlite.Error.Action.{Keeps, Keeps-bind, Keeps-then, pure, modify, ◌>>◌}
use rustqlite.Format.Header.{DbHeader}
use rustqlite.Pager.State.{WriteTxn, Pager, overlay, with_state}
use rustqlite.Pager.Pages.{
  fetch_page, cached_or, get_page, append_record, journal_in, journal_page, read_page_for_write,
  write_page, with_header_mut, truncate_image,
}
use rustqlite.Pager.Freelist.{
  auto_vacuum, set_dirty, zero_page, pop_trunk, take_page, pop_page, allocate_from_freelist, extend,
  allocate_page, record_free, link_trunk, free_page, shorter_trunk, or_zeros,
}
use rustqlite.Pager.Savepoint.{
  open_savepoint, drop_savepoint_named, drop_from, release_savepoint, release_at, restore_from,
  roll_back_to, savepoint_index, rollback_to_savepoint,
}
use rustqlite.Pager.State.{PagerSavepoint}
use rustqlite.Btree.Ptrmap.{
  is_pending_byte_page, is_ptrmap_page, PtrMapType, ptrmap_put, put_when, write_entry, needs_write,
  ptrmap_pageno, ptrmap_offset,
}
use rustqlite.Pager.Transaction.{read_of, IsSized, IsUnsaved, IsClean-insert, IsClean-retain}

module _ (file : List ℕ) (page_size count : ℕ) where
  abbrev Unsaved : Pager → Type 0
  Unsaved = IsUnsaved file page_size count

  pub same_read :
      (p : Pager) (pgno : ℕ)
      → Unsaved p
      → read_of p.disk.database p.page_size pgno ≡ read_of file page_size pgno
  same_read p pgno h = ap₂ (λ f n. read_of f n pgno) h.same_file h.same_size

  pub same_test :
      (p : Pager) (pgno : ℕ)
      → Unsaved p
      → ltb (read_of p.disk.database p.page_size pgno).0 p.page_size
        ≡ ltb (read_of file page_size pgno).0 page_size
  same_test p pgno h = ap₂ (λ f n. ltb (read_of f n pgno).0 n) h.same_file h.same_size

  -- The page that was read is kept.
  pub keep_page-IsUnsaved :
      (pgno : ℕ) (p : Pager)
      → Unsaved p
      → ltb (read_of p.disk.database p.page_size pgno).0 p.page_size ≡ false
      → Unsaved (
          with_state
            (λ st. record st {
              cache = insert pgno (read_of p.disk.database p.page_size pgno).1 st.cache;
            })
            p)
  keep_page-IsUnsaved pgno p h whole = record {
    same_file = h.same_file;
    same_size = h.same_size;
    clean = rw (same_read p pgno h) (
        IsClean-insert file page_size pgno p.state.cache h.clean
          (sym (same_test p pgno h) ∙ whole));
    sized = h.sized;
  }

  fetch_page-Keeps : (pgno : ℕ) → Keeps Unsaved (fetch_page pgno)
  unfolding fetch_page
  fetch_page-Keeps pgno p h =
      elim (Bool-cases (ltb (read_of p.disk.database p.page_size pgno).0 p.page_size)) [
        | inl short ↦ rw short h
        | inr whole ↦ rw whole (keep_page-IsUnsaved pgno p h whole)
      ]

  cached_or-Keeps : (o : Option (List ℕ)) (pgno : ℕ) → Keeps Unsaved (cached_or o pgno)
  cached_or-Keeps none pgno p h = fetch_page-Keeps pgno p h
  cached_or-Keeps (some page) pgno p h = h

  pub get_page-Keeps : (pgno : ℕ) → Keeps Unsaved (get_page pgno)
  unfolding get_page
  get_page-Keeps pgno p h = elim (Bool-cases (pgno == 0 || ltb p.state.page_count pgno)) [
    | inl out ↦ rw out h
    | inr within ↦ rw within (cached_or-Keeps (overlay p.state pgno) pgno p h)
  ]

  IsSized-eq : (o o' : Option WriteTxn) → o ≡ o' → IsSized count o → IsSized count o'
  IsSized-eq o o' e h = rw⁻¹ e h

  -- The record of a pre-image goes to the journal.
  journal_in-IsUnsaved :
      (txn : Option WriteTxn) (pgno : ℕ) (preimage : List ℕ) (p : Pager)
      → p.txn ≡ txn
      → Unsaved p
      → Unsaved (journal_in txn pgno preimage p)
  unfolding append_record
  journal_in-IsUnsaved none pgno preimage p e h = h
  journal_in-IsUnsaved (some t) pgno preimage p e h =
      elim (Bool-cases (ltb t.db_orig_size pgno || contains pgno t.journaled)) [
        | inl skipped ↦ rw skipped h
        | inr added ↦ rw added (record {
          same_file = h.same_file;
          same_size = h.same_size;
          clean = h.clean;
          sized = IsSized-eq p.txn (some t) e h.sized;
        })
      ]

  pub journal_page-Keeps :
      (pgno : ℕ) (preimage : List ℕ) → Keeps Unsaved (journal_page pgno preimage)
  unfolding journal_page
  journal_page-Keeps pgno preimage p h = journal_in-IsUnsaved p.txn pgno preimage p refl h

  pub read_page_for_write-Keeps : (pgno : ℕ) → Keeps Unsaved (read_page_for_write pgno)
  unfolding read_page_for_write
  read_page_for_write-Keeps pgno =
      Keeps-bind Unsaved (get_page pgno) _ (get_page-Keeps pgno) (λ page.
        Keeps-then Unsaved (journal_page pgno page) (pure page) (journal_page-Keeps pgno page)
          (λ s h. h))

  -- What leaves the clean pages as they are.
  set_dirty-IsUnsaved :
      (pgno : ℕ) (bytes : List ℕ) (p : Pager) → Unsaved p → Unsaved (set_dirty pgno bytes p)
  set_dirty-IsUnsaved pgno bytes p h = record {
    same_file = h.same_file;
    same_size = h.same_size;
    clean = h.clean;
    sized = h.sized;
  }

  pub write_page-Keeps : (pgno : ℕ) (bytes : List ℕ) → Keeps Unsaved (write_page pgno bytes)
  unfolding write_page
  write_page-Keeps pgno bytes p h = elim (Bool-cases (length bytes == p.page_size)) [
    | inl fits ↦ rw fits (set_dirty-IsUnsaved pgno bytes p h)
    | inr not_fits ↦ rw not_fits h
  ]

  pub with_header_mut-IsUnsaved :
      (f : DbHeader → DbHeader) (p : Pager) → Unsaved p → Unsaved (with_header_mut f p)
  unfolding with_header_mut
  with_header_mut-IsUnsaved f p h = record {
    same_file = h.same_file;
    same_size = h.same_size;
    clean = h.clean;
    sized = h.sized;
  }

  pub truncate_image-IsUnsaved : (n : ℕ) (p : Pager) → Unsaved p → Unsaved (truncate_image n p)
  unfolding truncate_image
  truncate_image-IsUnsaved n p h = record {
    same_file = h.same_file;
    same_size = h.same_size;
    clean = IsClean-retain file page_size n p.state.cache h.clean;
    sized = h.sized;
  }

  pub put_when-Keeps :
      (r : Result Bool) (pm off : ℕ) (ty : PtrMapType) (parent : ℕ)
      → Keeps Unsaved (put_when r pm off ty parent)
  unfolding write_entry
  put_when-Keeps (err e) pm off ty parent p h = h
  put_when-Keeps (ok false) pm off ty parent p h = h
  put_when-Keeps (ok true) pm off ty parent p h =
      Keeps-bind Unsaved (read_page_for_write pm) _ (read_page_for_write-Keeps pm)
        (λ page. write_page-Keeps pm _) p h

  pub ptrmap_put-Keeps :
      (pgno : ℕ) (ty : PtrMapType) (parent : ℕ) → Keeps Unsaved (ptrmap_put pgno ty parent)
  unfolding ptrmap_put
  ptrmap_put-Keeps pgno ty parent p h =
      let pm = ptrmap_pageno p.usable_size pgno in
      let off = ptrmap_offset pm pgno in
      let r = get_page pm p in
      elim (Bool-cases (pm == 0)) [
        | inl without ↦ rw without h
        | inr has ↦ rw has (
            put_when-Keeps (needs_write r.1 p.usable_size off ty parent) pm off ty parent r.0
              (get_page-Keeps pm p h))
      ]

  record_free-Keeps : (pgno : ℕ) → Keeps Unsaved (record_free pgno)
  record_free-Keeps pgno p h = elim (Bool-cases (auto_vacuum p)) [
    | inl on ↦ rw on (ptrmap_put-Keeps pgno PtrMapType.free_page 0 p h)
    | inr off ↦ rw off h
  ]

  link_trunk-Keeps : (pgno : ℕ) (preimage : List ℕ) → Keeps Unsaved (link_trunk pgno preimage)
  unfolding link_trunk
  link_trunk-Keeps pgno preimage p h =
      Keeps-then Unsaved (write_page pgno _ >> modify (with_header_mut _)) (record_free pgno)
        (Keeps-then Unsaved (write_page pgno _) (modify (with_header_mut _))
          (write_page-Keeps pgno _) (with_header_mut-IsUnsaved _))
        (record_free-Keeps pgno) p h

  pub free_page-Keeps : (pgno : ℕ) → Keeps Unsaved (free_page pgno)
  unfolding free_page
  free_page-Keeps pgno = Keeps-bind Unsaved (get_page pgno) _ (get_page-Keeps pgno) (λ preimage.
      Keeps-then Unsaved (journal_page pgno preimage) (link_trunk pgno preimage)
        (journal_page-Keeps pgno preimage) (link_trunk-Keeps pgno preimage))

  take_page-IsUnsaved :
      (first_trunk pgno head : ℕ) (p : Pager)
      → Unsaved p
      → Unsaved (take_page first_trunk pgno head p).1
  take_page-IsUnsaved first_trunk pgno head p h = elim (Bool-cases (pgno == first_trunk)) [
    | inl trunk ↦ rw trunk (set_dirty-IsUnsaved pgno _ _ (with_header_mut-IsUnsaved _ p h))
    | inr leaf ↦ rw leaf (set_dirty-IsUnsaved pgno _ _ (with_header_mut-IsUnsaved _ p h))
  ]

  -- Of the pager that is returned, if there is no panic.
  abbrev pub Returns : Option (ℕ × Pager) → Type 0
  Returns none = Unit
  Returns (some r) = Unsaved r.1

  pop_page-Returns :
      (first_trunk : ℕ) (trunk : List ℕ) (found : Option (ℕ × ℕ × Bool)) (p : Pager)
      → Unsaved p
      → Returns (pop_page first_trunk trunk found p)
  pop_page-Returns first_trunk trunk none p h = tt
  pop_page-Returns first_trunk trunk (some (pgno, head, true)) p h =
      take_page-IsUnsaved first_trunk pgno head _
        (write_page-Keeps first_trunk (shorter_trunk trunk) p h)
  pop_page-Returns first_trunk trunk (some (pgno, head, false)) p h =
      take_page-IsUnsaved first_trunk pgno head p h

  extend-IsUnsaved : (fuel : ℕ) (p : Pager) → Unsaved p → Unsaved (extend fuel p).1
  unfolding extend
  extend-IsUnsaved zero p h = h
  extend-IsUnsaved (suc fuel) p h =
      let grown : Pager =
        zero_page (p.state.page_count + 1)
          (with_state (λ st. record st { page_count = p.state.page_count + 1 }) p) in
      let kept : Unsaved grown = record {
        same_file = h.same_file;
        same_size = h.same_size;
        clean = h.clean;
        sized = h.sized;
      } in
      elim (Bool-cases (
        is_pending_byte_page p.usable_size (p.state.page_count + 1)
        || (not (p.state.header.largest_root_page == 0)
            && is_ptrmap_page p.usable_size (p.state.page_count + 1)))) [
              | inl skipped ↦ rw skipped (extend-IsUnsaved fuel grown kept)
              | inr taken ↦ rw taken kept
            ]

  pub allocate_page-Returns : (p : Pager) → Unsaved p → Returns (allocate_page p)
  unfolding allocate_page allocate_from_freelist
  allocate_page-Returns p h =
      let head : ℕ = p.state.header.first_freelist_trunk in
      let r = get_page head p in
      let trunk = or_zeros p.page_size r.1 in
      elim (Bool-cases (ltb 0 p.state.header.freelist_count && not (head == 0))) [
        | inl listed ↦
            rw listed
              (pop_page-Returns head trunk (pop_trunk head trunk) r.0 (get_page-Keeps head p h))
        | inr fresh ↦ rw fresh (extend-IsUnsaved 3 p h)
      ]

  restore_from-IsUnsaved :
      (sp : Option PagerSavepoint) (p : Pager) → Unsaved p → Unsaved (restore_from sp p)
  restore_from-IsUnsaved none p h = h
  restore_from-IsUnsaved (some sp) p h = record {
    same_file = h.same_file;
    same_size = h.same_size;
    clean = IsClean-retain file page_size sp.n_orig p.state.cache h.clean;
    sized = h.sized;
  }

  savepoints-IsUnsaved :
      (l : List PagerSavepoint) (p : Pager) → Unsaved p → Unsaved (record p { savepoints = l })
  savepoints-IsUnsaved l p h = record {
    same_file = h.same_file;
    same_size = h.same_size;
    clean = h.clean;
    sized = h.sized;
  }

  roll_back_to-Keeps : (name : List ℕ) (idx : Option ℕ) → Keeps Unsaved (roll_back_to name idx)
  roll_back_to-Keeps name none p h = h
  roll_back_to-Keeps name (some idx) p h = restore_from-IsUnsaved _ _ (savepoints-IsUnsaved _ p h)

  pub rollback_to_savepoint-Keeps : (name : List ℕ) → Keeps Unsaved (rollback_to_savepoint name)
  unfolding rollback_to_savepoint
  rollback_to_savepoint-Keeps name p h = roll_back_to-Keeps name (savepoint_index p name) p h

  release_at-Keeps : (name : List ℕ) (idx : Option ℕ) → Keeps Unsaved (release_at name idx)
  release_at-Keeps name none p h = h
  release_at-Keeps name (some idx) p h = savepoints-IsUnsaved _ p h

  pub release_savepoint-Keeps : (name : List ℕ) → Keeps Unsaved (release_savepoint name)
  unfolding release_savepoint
  release_savepoint-Keeps name p h = release_at-Keeps name (savepoint_index p name) p h

  pub open_savepoint-IsUnsaved :
      (name : List ℕ) (p : Pager) → Unsaved p → Unsaved (open_savepoint name p)
  unfolding open_savepoint
  open_savepoint-IsUnsaved name p h = savepoints-IsUnsaved _ p h

  drop_from-IsUnsaved : (idx : Option ℕ) (p : Pager) → Unsaved p → Unsaved (drop_from idx p).0
  drop_from-IsUnsaved none p h = h
  drop_from-IsUnsaved (some idx) p h = savepoints-IsUnsaved _ p h

  pub drop_savepoint_named-IsUnsaved :
      (name : List ℕ) (p : Pager) → Unsaved p → Unsaved (drop_savepoint_named name p).0
  unfolding drop_savepoint_named
  drop_savepoint_named-IsUnsaved name p h = drop_from-IsUnsaved _ p h
