-- ===== src/Pager/Transaction/Header.antt =====
-- The header that is kept in memory through a rollback.
use rustqlite.Base.{
  ℕ, ◌+◌, ◌%◌, ◌^◌, ◌≡◌, inl, inr, refl, ap, ◌∙◌, List, length, false, ◌||◌, Option, none, some,
  ltb, ◌==◌, Bool-cases, arith,
}
use rustqlite.Base.Map.{contains}
use rustqlite.Error.{Result, ok, err}
use rustqlite.Error.Action.{Keeps, Ensures, Ensures-bind, Ensures-ok}
use rustqlite.Format.Header.{DbHeader}
use rustqlite.Pager.State.{WriteTxn, Pager, overlay}
use rustqlite.Pager.Pages.{
  fetch_page, cached_or, get_page, append_record, journal_in, journal_page, write_page,
  with_header_mut,
}
use rustqlite.Pager.Freelist.{auto_vacuum, record_free, link_trunk, free_page}
use rustqlite.Pager.Txn.{end_txn, roll_back_txn, rollback}
use rustqlite.Pager.Transaction.{read_of}

roll_back_txn-header :
    (o : Option WriteTxn) (p : Pager) → (roll_back_txn o p).state.header ≡ p.state.header
unfolding end_txn
roll_back_txn-header none p = refl
roll_back_txn-header (some t) p = refl

rollback-header : (p : Pager) → (rollback p).0.state.header ≡ p.state.header
unfolding rollback
rollback-header p = roll_back_txn-header p.txn p

-- The header with page `pgno` at the front of the freelist.
abbrev pub listed : ℕ → DbHeader → DbHeader
listed pgno h = record h {
  first_freelist_trunk = pgno;
  freelist_count = (h.freelist_count + 1) % 2 ^ 32;
}

abbrev Any : Pager → Type 0
Any p = Unit

Ensures-Any {ℓ} :
    {A : Type ℓ} (P : Pager → Type 0) (r : Pager × Result A) → P r.0 → Ensures Any (λ q x. P q) r
Ensures-Any P (q, ok x) e = e
Ensures-Any P (q, err error) e = tt

module _ (h : DbHeader) where
  abbrev HasHeader : Pager → Type 0
  HasHeader p = p.state.header ≡ h

  cached_or-header : (o : Option (List ℕ)) (pgno : ℕ) → Keeps HasHeader (cached_or o pgno)
  unfolding fetch_page
  cached_or-header (some page) pgno p e = e
  cached_or-header none pgno p e =
      elim (Bool-cases (ltb (read_of p.disk.database p.page_size pgno).0 p.page_size)) [
        | inl short ↦ rw short e
        | inr whole ↦ rw whole e
      ]

  get_page-header : (pgno : ℕ) → Keeps HasHeader (get_page pgno)
  unfolding get_page
  get_page-header pgno p e = elim (Bool-cases (pgno == 0 || ltb p.state.page_count pgno)) [
    | inl out ↦ rw out e
    | inr within ↦ rw within (cached_or-header (overlay p.state pgno) pgno p e)
  ]

  journal_in-header :
      (o : Option WriteTxn) (pgno : ℕ) (preimage : List ℕ) (p : Pager)
      → HasHeader p
      → HasHeader (journal_in o pgno preimage p)
  unfolding append_record
  journal_in-header none pgno preimage p e = e
  journal_in-header (some t) pgno preimage p e =
      elim (Bool-cases (ltb t.db_orig_size pgno || contains pgno t.journaled)) [
        | inl skipped ↦ rw skipped e
        | inr added ↦ rw added e
      ]

  write_page-header :
      (pgno : ℕ) (bytes : List ℕ) (p : Pager)
      → HasHeader p
      → Ensures Any (λ q u. HasHeader q) (write_page pgno bytes p)
  unfolding write_page
  write_page-header pgno bytes p e = elim (Bool-cases (length bytes == p.page_size)) [
    | inl fits ↦ rw fits e
    | inr not_fits ↦ rw not_fits tt
  ]

  off :
      (pgno : ℕ) (p : Pager)
      → h.largest_root_page ≡ 0
      → p.state.header ≡ listed pgno h
      → auto_vacuum p ≡ false
  unfolding auto_vacuum
  off pgno p no_vacuum e = ground (arith, ap (λ x. x.largest_root_page) e, no_vacuum)

  link_trunk-header :
      (pgno : ℕ) (preimage : List ℕ) (p : Pager)
      → h.largest_root_page ≡ 0
      → HasHeader p
      → Ensures Any (λ q u. q.state.header ≡ listed pgno h) (link_trunk pgno preimage p)
  unfolding link_trunk with_header_mut
  link_trunk-header pgno preimage p no_vacuum e =
      Ensures-bind Any (λ q u. q.state.header ≡ listed pgno h)
        (λ q u. q.state.header ≡ listed pgno h) _ (λ u. record_free pgno)
        (Ensures-bind Any (λ q u. HasHeader q) (λ q u. q.state.header ≡ listed pgno h) _ _
          (write_page-header pgno _ p e) (λ u q k. ap (listed pgno) k))
        (λ u q k. rw (off pgno q no_vacuum k) k)

  free_page-header :
      (pgno : ℕ) (p : Pager)
      → h.largest_root_page ≡ 0
      → HasHeader p
      → Ensures Any (λ q u. q.state.header ≡ listed pgno h) (free_page pgno p)
  unfolding free_page journal_page
  free_page-header pgno p no_vacuum e =
      Ensures-bind Any (λ q page. HasHeader q) (λ q u. q.state.header ≡ listed pgno h)
        (get_page pgno p) _
        (Ensures-Any (λ q. HasHeader q) (get_page pgno p) (get_page-header pgno p e))
        (λ page q k.
          link_trunk-header pgno page _ no_vacuum (journal_in-header q.txn pgno page q k))

-- A rollback keeps the header in memory as the transaction left it: after `free_page` and a
-- rollback, without auto-vacuum, the page is still at the front of the freelist, from which
-- `allocate_page` takes it.
pub rollback-free_page :
    (pgno : ℕ) (p : Pager)
    → p.state.header.largest_root_page ≡ 0
    → (free_page pgno p).1 ≡ ok tt
    → (rollback (free_page pgno p).0).0.state.header ≡ listed pgno p.state.header
rollback-free_page pgno p no_vacuum freed =
    rollback-header (free_page pgno p).0
    ∙ Ensures-ok Any (λ q u. q.state.header ≡ listed pgno p.state.header) (free_page pgno p) tt
        freed (free_page-header p.state.header pgno p no_vacuum refl)
