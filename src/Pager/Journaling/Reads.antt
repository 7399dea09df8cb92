-- ===== src/Pager/Journaling/Reads.antt =====
-- A page that is not in the journal reads as its pre-image.
use rustqlite.Base.{
  ℕ, ◌≤◌, ◌≡◌, ◌≢◌, inl, inr, refl, ap, sym, ◌∙◌, List, length, false, ◌||◌, Option, none, some,
  ltb, ◌==◌, arith, Bool-cases,
}
use rustqlite.Base.Map.{Map, lookup, contains, insert, All-lookup}
use rustqlite.Error.Action.{Ensures}
use rustqlite.Vfs.MemFile.Bytes.{byte_at}
use rustqlite.Pager.State.{Pager, overlay, or_else, with_state}
use rustqlite.Pager.Pages.{fetch_page, cached_or, get_page}
use rustqlite.Pager.Recovery.Restore.{IsPreImage}
use rustqlite.Pager.Transaction.{read_of, IsUnsaved}
use rustqlite.Pager.Transaction.Preserved.{keep_page-IsUnsaved, same_read, same_test}
use rustqlite.Pager.Journaling.{page_numbers, IsSafe, IsJournaled}
use rustqlite.Pager.Journaling.Images.{read_of-IsPreImage}

module _ (file : List ℕ) (seed orig page_size : ℕ) (nz : page_size ≢ 0) where
  abbrev pub Journaled : Pager → Type 0
  Journaled = IsJournaled file seed orig page_size

  abbrev pub IsRead : ℕ → Pager → List ℕ → Type 0
  IsRead pgno p page =
      (j : Journaled p) × (pgno ≢ 0)
      × (length page ≡ page_size)
      × (contains pgno (page_numbers j.images) ≡ false
          → pgno ≤ orig
          → IsPreImage page_size file (pgno, page))

  -- A change of the cache.
  recached :
      (c : Map (List ℕ)) (p : Pager)
      → Journaled p
      → IsUnsaved file page_size orig (with_state (λ st. record st { cache = c }) p)
      → Journaled (with_state (λ st. record st { cache = c }) p)
  recached c p j u = record {
    unsaved = u;
    images = j.images;
    txn = j.txn;
    running = j.running;
    writing = j.writing;
    journal = j.journal;
    sound = j.sound;
    pre_images = j.pre_images;
    grown = j.grown;
    safe = j.safe;
    safe_savepoints = j.safe_savepoints;
  }

  fetch_page-reads :
      (pgno : ℕ) (p : Pager)
      → pgno ≢ 0
      → Journaled p
      → Ensures Journaled (IsRead pgno) (fetch_page pgno p)
  unfolding fetch_page
  fetch_page-reads pgno p real j =
      elim (Bool-cases (ltb (read_of p.disk.database p.page_size pgno).0 p.page_size)) [
        | inl short ↦ rw short j
        | inr whole ↦
            let u = keep_page-IsUnsaved file page_size orig pgno p j.unsaved whole in
            let r =
              read_of-IsPreImage file page_size pgno
                (sym (same_test file page_size orig p pgno j.unsaved) ∙ whole) nz in
            let same = ap (λ r. r.1) (same_read file page_size orig p pgno j.unsaved) in
            rw whole (
              recached (insert pgno (read_of p.disk.database p.page_size pgno).1 p.state.cache) p j
                  u,
              real,
              ap length same ∙ r.0,
              λ missing within i below. ap (λ b. byte_at b i) same ∙ r.1 i below,
            )
      ]

  cached_or-reads :
      (pgno : ℕ) (p : Pager) (dirty cached : Option (List ℕ))
      → lookup pgno p.state.dirty ≡ dirty
      → lookup pgno p.state.cache ≡ cached
      → pgno ≢ 0
      → Journaled p
      → Ensures Journaled (IsRead pgno) (cached_or (or_else dirty cached) pgno p)
  cached_or-reads pgno p (some page) cached d c real j =
      let safe =
        All-lookup (IsSafe orig page_size (page_numbers j.images)) pgno page p.state.dirty d
          j.safe in
      (j, real, safe.0, λ missing within. absurd (ground (arith, safe.1 within, missing)))
  cached_or-reads pgno p none (some page) d c real j =
      let clean = j.unsaved.clean pgno page c in
      let r = read_of-IsPreImage file page_size pgno clean.1 nz in
      (
        j,
        real,
        ap length (sym clean.0) ∙ r.0,
        λ missing within i below. ap (λ b. byte_at b i) (sym clean.0) ∙ r.1 i below,
      )
  cached_or-reads pgno p none none d c real j = fetch_page-reads pgno p real j

  pub get_page-reads :
      (pgno : ℕ) (p : Pager) → Journaled p → Ensures Journaled (IsRead pgno) (get_page pgno p)
  unfolding get_page overlay
  get_page-reads pgno p j = elim (Bool-cases (pgno == 0 || ltb p.state.page_count pgno)) [
    | inl out ↦ rw out j
    | inr within ↦
        let real : pgno ≢ 0 = ground (arith, within) in
        rw within (
          cached_or-reads pgno p (lookup pgno p.state.dirty) (lookup pgno p.state.cache) refl refl
            real j)
  ]
