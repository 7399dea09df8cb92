-- ===== src/Pager/Wal/Session.antt =====
-- A log from its first transaction on.
use rustqlite.Base.{ℕ, ◌≡◌, ◌≢◌, refl, ap, sym, ◌∙◌, List, [], ◌∷◌, ◌++◌, arith, append_assoc, none}
use rustqlite.Base.Bytes.{All}
use rustqlite.Error.{ok}
use rustqlite.Vfs.MemFile.Bytes.{append_nil}
use rustqlite.Pager.Wal.{Wal, placeholder, open_wal}
use rustqlite.Pager.Wal.Write.{Page, write_frames, signed_header}
use rustqlite.Pager.Wal.Scan.{Entry}
use rustqlite.Pager.Wal.Gather.{entries_of}
use rustqlite.Pager.Wal.Log.{IsLog, reopen-IsLog}
use rustqlite.Pager.Wal.Commit.{IsTxn, logged, logged-IsLog}
use rustqlite.Pager.Wal.Durable.{write_frames_lem}
use rustqlite.Pager.Wal.Fresh.{IsFormat, new_header, started, started-IsLog, write_frames_fresh}

-- A transaction: the size of the database behind it, and its pages.
abbrev pub Txn : Type 0
Txn = ℕ × List Page

unfoldable pub write_txns : ℕ → ℕ → List Txn → Wal → Wal
write_txns salt1 salt2 [] w = w
write_txns salt1 salt2 ((n_truncate, frames) ∷ txns) w =
    write_txns salt1 salt2 txns (write_frames salt1 salt2 frames n_truncate w).0

unfoldable pub all_entries : List Txn → List Entry
all_entries [] = []
all_entries ((n_truncate, frames) ∷ txns) = entries_of n_truncate frames ++ all_entries txns

abbrev pub AreTxns : ℕ → List Txn → Type 0
AreTxns page_size = All (λ (t : Txn). IsTxn page_size t.0 t.1)

write_txns-IsLog :
    (hdr : List ℕ) (salt1 salt2 : ℕ) (txns : List Txn) (entries : List Entry) (w : Wal)
    → IsLog hdr entries w
    → w.mx_frame ≢ 0
    → AreTxns w.page_size txns
    → IsLog hdr (entries ++ all_entries txns) (write_txns salt1 salt2 txns w)
      × ((write_txns salt1 salt2 txns w).page_size ≡ w.page_size)
unfolding write_txns all_entries
write_txns-IsLog hdr salt1 salt2 [] entries w g nz all = (rw append_nil g, refl)
write_txns-IsLog hdr salt1 salt2 ((n_truncate, frames) ∷ txns) entries w g nz all =
    let step = write_frames_lem hdr entries w g salt1 salt2 n_truncate frames nz all.0 in
    let next = logged-IsLog hdr entries w g n_truncate frames all.0 in
    let later =
      write_txns-IsLog hdr salt1 salt2 txns (entries ++ entries_of n_truncate frames)
        (logged hdr entries n_truncate frames w) next (omega arith) all.1 in
    let regroup = append_assoc entries (entries_of n_truncate frames) (all_entries txns) in
    (rw step (rw regroup at later.0), rw (write_txns, step) later.1)

-- After any transactions, the log in memory agrees with its file.
pub write_txns_fresh :
    (page_size salt1 salt2 : ℕ) (n_truncate : ℕ) (frames : List Page) (txns : List Txn)
    → IsFormat page_size salt1 salt2
    → AreTxns page_size ((n_truncate, frames) ∷ txns)
    → IsLog
        (signed_header (new_header page_size salt1 salt2)).1
        (all_entries ((n_truncate, frames) ∷ txns))
        (write_txns salt1 salt2 ((n_truncate, frames) ∷ txns) (placeholder none page_size))
      × ((write_txns salt1 salt2
            ((n_truncate, frames) ∷ txns)
            (placeholder none page_size)).page_size
          ≡ page_size)
unfolding write_txns all_entries
write_txns_fresh page_size salt1 salt2 n_truncate frames txns f all =
    let first = write_frames_fresh page_size salt1 salt2 n_truncate frames f all.0 in
    let hdr = (signed_header (new_header page_size salt1 salt2)).1 in
    let w = started page_size salt1 salt2 in
    let g = logged-IsLog hdr [] w (started-IsLog page_size salt1 salt2 f) n_truncate frames all.0 in
    let later =
      write_txns-IsLog hdr salt1 salt2 txns (entries_of n_truncate frames)
        (logged hdr [] n_truncate frames w) g (λ e. all.0.nonempty (omega (arith, e))) all.1 in
    (rw first later.0, rw (write_txns, first) later.1)

-- A log that was started and to which any transactions were appended is the same when its file is
-- opened again: its index, its size and its running sums.
pub open_wal-write_txns :
    (page_size salt1 salt2 : ℕ) (n_truncate : ℕ) (frames : List Page) (txns : List Txn)
    → IsFormat page_size salt1 salt2
    → AreTxns page_size ((n_truncate, frames) ∷ txns)
    → open_wal
        (write_txns salt1 salt2 ((n_truncate, frames) ∷ txns) (placeholder none page_size)).file
        page_size
      ≡ ok (write_txns salt1 salt2 ((n_truncate, frames) ∷ txns) (placeholder none page_size))
open_wal-write_txns page_size salt1 salt2 n_truncate frames txns f all =
    let g = write_txns_fresh page_size salt1 salt2 n_truncate frames txns f all in
    let w = write_txns salt1 salt2 ((n_truncate, frames) ∷ txns) (placeholder none page_size) in
    ap (λ n. open_wal w.file n) (sym g.1) ∙ reopen-IsLog _ _ w g.0
