-- ===== src/Pager/WalMode/Switch/Outcome.antt =====
-- The mode that a pager is in after `set_journal_mode`.
use rustqlite.Base.{
  ℕ, List, Bool, true, false, Option, none, some, ◌≡◌, refl, ◌⊎◌, inl, inr, if◌then◌else◌,
}
use rustqlite.Error.{Result, ok, err}
use rustqlite.Error.Action.{Action, continue, modify, pure, ◌>>◌}
use rustqlite.Pager.State.{Pager, Method}
use rustqlite.Pager.Pages.{with_header_mut}
use rustqlite.Pager.Txn.{in_write_txn}
use rustqlite.Pager.JournalMode.{
  JournalMode, delete, persist, off, truncate, memory, wal_mode, query, is_rollback,
}
use rustqlite.Pager.Wal.{Wal, open_wal}
use rustqlite.Pager.Wal.Checkpoint.{truncating}
use rustqlite.Pager.WalMode.{WalPager, journal_mode, on_pager, checkpoint}
use rustqlite.Pager.WalMode.Switch.{
  set_versions, persist_header_bytes, stamp_version, leave_wal, take_log, enter_wal, switch,
  change_mode, set_journal_mode,
}

-- The mode that a request comes to: every mode of the rollback journal is `delete`.
unfoldable pub target : Bool → JournalMode → JournalMode → JournalMode
target is_in_memory query current = current
target is_in_memory wal_mode current = if is_in_memory then current else wal_mode
target is_in_memory _ current = delete

abbrev Settles : JournalMode → WalPager × Result JournalMode → Type 0
Settles t (p, ok m) = (m ≡ t) × (journal_mode p ≡ m)
Settles t (p, err e) = Unit

Settles-if :
    (t : JournalMode) (c : Bool) (a b : WalPager × Result JournalMode)
    → Settles t a
    → Settles t b
    → Settles t (if c then a else b)
Settles-if t true a b ha hb = ha
Settles-if t false a b ha hb = hb

Settles-continue :
    {A : Type 0} (t : JournalMode) (r : WalPager × Result A)
    (next : A → Action WalPager JournalMode)
    → ((x : A) (s : WalPager) → Settles t (next x s))
    → Settles t (continue r next)
Settles-continue t (s, ok x) next h = h x s
Settles-continue t (s, err e) next h = tt

Settles-on_pager :
    {A : Type 0} (t : JournalMode) (p : WalPager) (r : Pager × Result A)
    (next : A → Action WalPager JournalMode)
    → ((x : A) (pager : Pager) → Settles t (next x (record p { pager = pager })))
    → Settles t (continue (on_pager p r) next)
Settles-on_pager t p (pager, ok x) next h = h x pager
Settles-on_pager t p (pager, err e) next h = tt

Settles-take_log : (p : WalPager) (r : Result Wal) → Settles wal_mode (take_log r p)
unfolding take_log journal_mode
Settles-take_log p (err e) = tt
Settles-take_log p (ok w) = (refl, refl)

modes_at :
    (q : Pager) (w : Option Wal)
    → (journal_mode (record { pager = q; wal = w }) ≡ delete)
      ⊎ (journal_mode (record { pager = q; wal = w }) ≡ wal_mode)
unfolding journal_mode
modes_at q none = inl refl
modes_at q (some w) = inr refl

module _ (auto_vacuum_commit : Method (Unit {0})) (cksum_init salt1 salt2 : ℕ)
    (log : Option (List ℕ)) where
  Settles-leave_wal :
      (p : WalPager) → Settles delete (leave_wal auto_vacuum_commit cksum_init salt1 salt2 p)
  unfolding leave_wal stamp_version journal_mode
  Settles-leave_wal p =
      Settles-continue delete (checkpoint salt1 salt2 truncating p)
        (λ counts.
          modify (λ s. record s { wal = none })
          >> stamp_version auto_vacuum_commit cksum_init 1
          >> pure delete)
        (λ counts s.
          Settles-on_pager {A = Unit {0}} delete (record s { wal = none })
            (persist_header_bytes auto_vacuum_commit cksum_init
              (with_header_mut (set_versions 1) s.pager))
            (λ u. pure delete) (λ u pager. (refl, refl)))

  Settles-enter_wal :
      (p : WalPager) → Settles wal_mode (enter_wal auto_vacuum_commit cksum_init log p)
  unfolding enter_wal stamp_version
  Settles-enter_wal p =
      Settles-on_pager {A = Unit {0}} wal_mode p
        (persist_header_bytes auto_vacuum_commit cksum_init
          (with_header_mut (set_versions 2) p.pager))
        (λ u s. take_log (open_wal log s.pager.page_size) s)
        (λ u pager. Settles-take_log (record p { pager = pager }) (open_wal log pager.page_size))

  from_journal :
      (is_in_memory : Bool) (to : JournalMode) (p : WalPager)
      → journal_mode p ≡ delete
      → Settles
          (target is_in_memory to delete)
          (change_mode auto_vacuum_commit cksum_init is_in_memory salt1 salt2 log delete to p)
  unfolding change_mode target is_rollback switch
  from_journal mem delete p e = (refl, e)
  from_journal mem persist p e = (refl, e)
  from_journal mem off p e = (refl, e)
  from_journal mem truncate p e = (refl, e)
  from_journal mem memory p e = (refl, e)
  from_journal true wal_mode p e = (refl, e)
  from_journal false wal_mode p e =
      Settles-if wal_mode (in_write_txn p.pager) _ _ tt (Settles-enter_wal p)
  from_journal mem query p e = (refl, e)

  from_log :
      (is_in_memory : Bool) (to : JournalMode) (p : WalPager)
      → journal_mode p ≡ wal_mode
      → Settles
          (target is_in_memory to wal_mode)
          (change_mode auto_vacuum_commit cksum_init is_in_memory salt1 salt2 log wal_mode to p)
  unfolding change_mode target is_rollback switch
  from_log mem delete p e = Settles-if delete (in_write_txn p.pager) _ _ tt (Settles-leave_wal p)
  from_log mem persist p e = Settles-if delete (in_write_txn p.pager) _ _ tt (Settles-leave_wal p)
  from_log mem off p e = Settles-if delete (in_write_txn p.pager) _ _ tt (Settles-leave_wal p)
  from_log mem truncate p e = Settles-if delete (in_write_txn p.pager) _ _ tt (Settles-leave_wal p)
  from_log mem memory p e = Settles-if delete (in_write_txn p.pager) _ _ tt (Settles-leave_wal p)
  from_log true wal_mode p e = (refl, e)
  from_log false wal_mode p e = (refl, e)
  from_log mem query p e = (refl, e)

  Settles-set_journal_mode :
      (is_in_memory : Bool) (to : JournalMode) (p : WalPager)
      → Settles
          (target is_in_memory to (journal_mode p))
          (set_journal_mode auto_vacuum_commit cksum_init is_in_memory salt1 salt2 log to p)
  unfolding set_journal_mode
  Settles-set_journal_mode mem to p = elim (modes_at p.pager p.wal) [
    | inl e ↦ rw e (from_journal mem to p e)
    | inr e ↦ rw e (from_log mem to p e)
  ]

  -- When `set_journal_mode` returns a mode, that is `delete` for every mode of the rollback journal
  -- that is asked for (`delete`, `persist`, `off`, `truncate`, `memory`); the current mode for `query`,
  -- and for a log of a database in memory; and `wal` for a log otherwise. It is the mode that the pager
  -- is in afterwards.
  pub set_journal_mode_lem :
      (is_in_memory : Bool) (to : JournalMode) (p : WalPager) (p' : WalPager) (m : JournalMode)
      → set_journal_mode auto_vacuum_commit cksum_init is_in_memory salt1 salt2 log to p
        ≡ (p', ok m)
      → (m ≡ target is_in_memory to (journal_mode p)) × (journal_mode p' ≡ m)
  set_journal_mode_lem mem to p p' m e = rw e at (Settles-set_journal_mode mem to p)
