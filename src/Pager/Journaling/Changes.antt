-- ===== src/Pager/Journaling/Changes.antt =====
-- What changes a page through `read_page_for_write` keeps the journal in step.
use rustqlite.Base.{
  ℕ, zero, suc, ◌+◌, ◌≤◌, ◌≡◌, ◌≢◌, inl, inr, ◌∙◌, List, length, replicate, Bool, true, false, not,
  ◌||◌, ◌&&◌, ◌==◌, arith, Bool-cases, length-replicate,
}
use rustqlite.Base.Map.{All-insert}
use rustqlite.Error.{Result, ok, err}
use rustqlite.Error.Action.{
  Keeps, Ensures, Ensures-bind, Ensures-keeps, Ensures-const, Action, continue-keeps, modify, ◌>>=◌,
  ◌>>◌,
}
use rustqlite.Format.Header.{DbHeader}
use rustqlite.Pager.State.{Pager, with_state}
use rustqlite.Pager.Pages.{get_page, journal_page, read_page_for_write, write_page, with_header_mut}
use rustqlite.Pager.Freelist.{auto_vacuum, set_dirty, extend, record_free, link_trunk, free_page}
use rustqlite.Btree.Ptrmap.{
  PtrMapType, is_pending_byte_page, is_ptrmap_page, ptrmap_pageno, ptrmap_offset, needs_write,
  write_entry, put_when, ptrmap_put,
}
use rustqlite.Pager.Journaling.{page_numbers, IsSafe, IsJournaled, modify_page}
use rustqlite.Pager.Journaling.Reads.{IsRead, get_page-reads}
use rustqlite.Pager.Journaling.Append.{IsImaged, journal_page-IsImaged}

abbrev zero_byte : ℕ
zero_byte = 0

module _ (file : List ℕ) (seed orig page_size : ℕ) (nz : page_size ≢ 0) where
  abbrev J : Pager → Type 0
  J = IsJournaled file seed orig page_size

  abbrev Imaged : ℕ → Pager → Type 0
  Imaged = IsImaged file seed orig page_size nz

  abbrev Read : ℕ → Pager → List ℕ → Type 0
  Read = IsRead file seed orig page_size nz

  set_dirty-IsJournaled :
      (pgno : ℕ) (bytes : List ℕ) (p : Pager)
      → (j : J p) → IsSafe orig page_size (page_numbers j.images) (pgno, bytes)
      → J (set_dirty pgno bytes p)
  set_dirty-IsJournaled pgno bytes p j safe = record {
    unsaved = record {
      same_file = j.unsaved.same_file;
      same_size = j.unsaved.same_size;
      clean = j.unsaved.clean;
      sized = j.unsaved.sized;
    };
    images = j.images;
    txn = j.txn;
    running = j.running;
    writing = j.writing;
    journal = j.journal;
    sound = j.sound;
    pre_images = j.pre_images;
    grown = j.grown;
    safe =
        All-insert (IsSafe orig page_size (page_numbers j.images)) pgno bytes p.state.dirty safe
          j.safe;
    safe_savepoints = j.safe_savepoints;
  }

  pub write_page-IsJournaled :
      (pgno : ℕ) (bytes : List ℕ) (p : Pager) → Imaged pgno p → J (write_page pgno bytes p).0
  unfolding write_page
  write_page-IsJournaled pgno bytes p h = elim (Bool-cases (length bytes == p.page_size)) [
    | inl fits ↦
        let len : length bytes ≡ page_size = ground (arith, fits, h.0.unsaved.same_size) in
        rw fits (set_dirty-IsJournaled pgno bytes p h.0 (len, h.1))
    | inr not_fits ↦ rw not_fits h.0
  ]

  pub read_page_for_write-images :
      (pgno : ℕ) (p : Pager)
      → J p
      → Ensures J (λ q page. Imaged pgno q) (read_page_for_write pgno p)
  unfolding read_page_for_write journal_page
  read_page_for_write-images pgno p j =
      Ensures-bind J (Read pgno) (λ q page. Imaged pgno q) (get_page pgno p) _
        (get_page-reads file seed orig page_size nz pgno p j)
        (λ page q r. journal_page-IsImaged file seed orig page_size nz pgno page q r)

  -- An action that goes on from a page that is imaged.
  then_journaled {ℓ} :
      {A : Type ℓ} (pgno : ℕ) (p : Pager) (next : List ℕ → Action Pager A)
      → J p
      → ((page : List ℕ) (q : Pager) → Imaged pgno q → J (next page q).0)
      → J ((read_page_for_write pgno >>= next) p).0
  then_journaled pgno p next j k =
      Ensures-keeps J (λ q u. J q) ((read_page_for_write pgno >>= next) p)
        (Ensures-bind J (λ q page. Imaged pgno q) (λ q u. J q) (read_page_for_write pgno p) next
          (read_page_for_write-images pgno p j)
          (λ page q h. Ensures-const J (next page q) (k page q h)))
        (λ u q h. h)

  pub modify_page-Keeps : (pgno : ℕ) (change : List ℕ → List ℕ) → Keeps J (modify_page pgno change)
  unfolding modify_page
  modify_page-Keeps pgno change p j =
      then_journaled pgno p (λ page. write_page pgno (change page)) j
        (λ page. write_page-IsJournaled pgno (change page))

  put_when-IsJournaled :
      (r : Result Bool) (pm off : ℕ) (ty : PtrMapType) (parent : ℕ)
      → Keeps J (put_when r pm off ty parent)
  unfolding write_entry
  put_when-IsJournaled (err e) pm off ty parent p j = j
  put_when-IsJournaled (ok false) pm off ty parent p j = j
  put_when-IsJournaled (ok true) pm off ty parent p j =
      then_journaled pm p _ j (λ page. write_page-IsJournaled pm _)

  pub get_page-IsJournaled : (pgno : ℕ) → Keeps J (get_page pgno)
  get_page-IsJournaled pgno p j =
      Ensures-keeps J (Read pgno) (get_page pgno p)
        (get_page-reads file seed orig page_size nz pgno p j) (λ page q r. r.0)

  pub ptrmap_put-IsJournaled :
      (pgno : ℕ) (ty : PtrMapType) (parent : ℕ) → Keeps J (ptrmap_put pgno ty parent)
  unfolding ptrmap_put
  ptrmap_put-IsJournaled pgno ty parent p j =
      let pm = ptrmap_pageno p.usable_size pgno in
      let off = ptrmap_offset pm pgno in
      let r = get_page pm p in
      elim (Bool-cases (pm == 0)) [
        | inl without ↦ rw without j
        | inr has ↦ rw has (
            put_when-IsJournaled (needs_write r.1 p.usable_size off ty parent) pm off ty parent r.0
              (get_page-IsJournaled pm p j))
      ]

  record_free-IsJournaled : (pgno : ℕ) → Keeps J (record_free pgno)
  record_free-IsJournaled pgno p j = elim (Bool-cases (auto_vacuum p)) [
    | inl on ↦ rw on (ptrmap_put-IsJournaled pgno PtrMapType.free_page 0 p j)
    | inr off ↦ rw off j
  ]

  -- A change of the header, the page count and the stack of savepoints.
  pub reheaded : (f : DbHeader → DbHeader) (p : Pager) → J p → J (with_header_mut f p)
  unfolding with_header_mut
  reheaded f p j = record {
    unsaved = record {
      same_file = j.unsaved.same_file;
      same_size = j.unsaved.same_size;
      clean = j.unsaved.clean;
      sized = j.unsaved.sized;
    };
    images = j.images;
    txn = j.txn;
    running = j.running;
    writing = j.writing;
    journal = j.journal;
    sound = j.sound;
    pre_images = j.pre_images;
    grown = j.grown;
    safe = j.safe;
    safe_savepoints = j.safe_savepoints;
  }

  pub counted :
      (n : ℕ) (p : Pager) → orig ≤ n → J p → J (with_state (λ st. record st { page_count = n }) p)
  counted n p le j = record {
    unsaved = record {
      same_file = j.unsaved.same_file;
      same_size = j.unsaved.same_size;
      clean = j.unsaved.clean;
      sized = j.unsaved.sized;
    };
    images = j.images;
    txn = j.txn;
    running = j.running;
    writing = j.writing;
    journal = j.journal;
    sound = j.sound;
    pre_images = j.pre_images;
    grown = le;
    safe = j.safe;
    safe_savepoints = j.safe_savepoints;
  }

  link_trunk-IsJournaled :
      (pgno : ℕ) (preimage : List ℕ) (p : Pager) → Imaged pgno p → J (link_trunk pgno preimage p).0
  unfolding link_trunk
  link_trunk-IsJournaled pgno preimage p h =
      continue-keeps J ((write_page pgno _ >> modify (with_header_mut _)) p) (λ u. record_free pgno)
        (continue-keeps J (write_page pgno _ p) (λ u. modify (with_header_mut _))
          (write_page-IsJournaled pgno _ p h) (λ u. reheaded _))
        (λ u. record_free-IsJournaled pgno)

  pub free_page-IsJournaled : (pgno : ℕ) → Keeps J (free_page pgno)
  unfolding free_page journal_page
  free_page-IsJournaled pgno p j =
      Ensures-keeps J (λ q u. J q) (free_page pgno p)
        (Ensures-bind J (Read pgno) (λ q u. J q) (get_page pgno p) _
          (get_page-reads file seed orig page_size nz pgno p j)
          (λ page q r. Ensures-const J _ (
            link_trunk-IsJournaled pgno page _
              (journal_page-IsImaged file seed orig page_size nz pgno page q r))))
        (λ u q h. h)

  pub extend-IsJournaled : (fuel : ℕ) (p : Pager) → J p → J (extend fuel p).1
  unfolding extend
  extend-IsJournaled zero p j = j
  extend-IsJournaled (suc fuel) p j =
      let n : ℕ = p.state.page_count + 1 in
      let le : orig ≤ n = omega (arith, j.grown) in
      let len : length (replicate p.page_size zero_byte) ≡ page_size =
        length-replicate p.page_size zero_byte ∙ j.unsaved.same_size in
      let new =
        set_dirty-IsJournaled n (replicate p.page_size 0)
          (with_state (λ st. record st { page_count = n }) p) (counted n p le j)
          (len, λ within. absurd (omega (arith, j.grown))) in
      elim (Bool-cases (
        is_pending_byte_page p.usable_size n
        || (not (p.state.header.largest_root_page == 0) && is_ptrmap_page p.usable_size n))) [
          | inl skipped ↦ rw skipped (extend-IsJournaled fuel _ new)
          | inr taken ↦ rw taken new
        ]
