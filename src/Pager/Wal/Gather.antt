-- ===== src/Pager/Wal/Gather.antt =====
-- What recovery collects, transaction by transaction.
use rustqlite.Base.{
  ℕ, suc, ◌+◌, ◌≡◌, ◌≢◌, refl, ap, sym, ◌∙◌, List, [], ◌∷◌, ◌++◌, length, map, true, false, ◌==◌,
  if◌then◌else◌, arith, append_assoc,
}
use rustqlite.Base.Bytes.{All}
use rustqlite.Format.Wal.{WalHeader}
use rustqlite.Vfs.MemFile.Bytes.{append_nil}
use rustqlite.Pager.Wal.{Recovered, collect_frame}
use rustqlite.Pager.Wal.Write.{Page, is_last, build_frame}
use rustqlite.Pager.Wal.Scan.{Entry, page_number, log_bytes, log_sums, gather}

-- Gathering frame by frame.
module _ (header : WalHeader) where
  pub log_bytes-append :
      (xs ys : List Entry) (running : ℕ × ℕ)
      → log_bytes header running (xs ++ ys)
        ≡ log_bytes header running xs ++ log_bytes header (log_sums header running xs) ys
  unfolding log_bytes log_sums
  log_bytes-append [] ys running = refl
  log_bytes-append ((pgno, commit, bytes) ∷ xs) ys running =
      ap (λ t. build_frame header running pgno commit bytes ++ t) (log_bytes-append xs ys _)
      ∙ sym (append_assoc (build_frame header running pgno commit bytes) _ _)

  pub log_sums-append :
      (xs ys : List Entry) (running : ℕ × ℕ)
      → log_sums header running (xs ++ ys) ≡ log_sums header (log_sums header running xs) ys
  unfolding log_sums
  log_sums-append [] ys running = refl
  log_sums-append (x ∷ xs) ys running = log_sums-append xs ys _

  pub gather-append :
      (xs ys : List Entry) (i : ℕ) (running : ℕ × ℕ) (r : Recovered)
      → gather header i running (xs ++ ys) r
        ≡ gather header
            (i + length xs)
            (log_sums header running xs)
            ys
            (gather header i running xs r)
  unfolding gather log_sums
  gather-append [] ys i running r = let a : i + 0 ≡ i = omega arith in rw a refl
  gather-append ((pgno, commit, bytes) ∷ xs) ys i running r =
      let a : i + suc (length xs) ≡ i + 1 + length xs = omega arith in
      rw a (gather-append xs ys (i + 1) _ _)

-- Frames of a transaction that was not committed.
abbrev pub IsOpen : List Entry → Type 0
IsOpen = All (λ (e : Entry). e.1 ≡ 0)

-- The frames of a transaction: the last one carries the size of the database.
unfoldable pub entries_of : ℕ → List Page → List Entry
entries_of n_truncate [] = []
entries_of n_truncate ((pgno, bytes) ∷ frames) =
    (pgno, (if is_last frames then n_truncate else 0), bytes) ∷ entries_of n_truncate frames

pub length-entries_of :
    (n_truncate : ℕ) (frames : List Page) → length (entries_of n_truncate frames) ≡ length frames
unfolding entries_of
length-entries_of n_truncate [] = refl
length-entries_of n_truncate ((pgno, bytes) ∷ frames) = ap suc (length-entries_of n_truncate frames)

pub pages-entries_of :
    (n_truncate : ℕ) (frames : List Page)
    → map page_number (entries_of n_truncate frames) ≡ map (λ (f : Page). f.0) frames
unfolding entries_of
pages-entries_of n_truncate [] = refl
pages-entries_of n_truncate ((pgno, bytes) ∷ frames) =
    ap (λ t. pgno ∷ t) (pages-entries_of n_truncate frames)

module _ (header : WalHeader) where
  pub gather_open :
      (entries : List Entry) (i : ℕ) (running : ℕ × ℕ) (r : Recovered)
      → IsOpen entries
      → gather header i running entries r
        ≡ record r { frame_pgnos = r.frame_pgnos ++ map page_number entries }
  unfolding gather collect_frame
  gather_open [] i running r h = rw append_nil refl
  gather_open ((pgno, commit, bytes) ∷ entries) i running r h =
      let z : (commit == 0) ≡ true = ground (arith, h.0) in
      rw z (
        gather_open entries (i + 1) _ (record r { frame_pgnos = r.frame_pgnos ++ pgno ∷ [] }) h.1
        ∙ (rw append_assoc refl))

  pub gather_txn :
      (n_truncate pgno : ℕ) (bytes : List ℕ) (frames : List Page) (i : ℕ) (running : ℕ × ℕ)
      (r : Recovered)
      → n_truncate ≢ 0
      → gather header i running (entries_of n_truncate ((pgno, bytes) ∷ frames)) r ≡ record {
        frame_pgnos = r.frame_pgnos ++ pgno ∷ map (λ (f : Page). f.0) frames;
        last_commit_frame = i + length frames;
        last_commit_npage = n_truncate;
        last_commit_cksum =
            log_sums header running (entries_of n_truncate ((pgno, bytes) ∷ frames));
      }
  unfolding gather entries_of collect_frame log_sums
  gather_txn n_truncate pgno bytes [] i running r nz =
      let z : (n_truncate == 0) ≡ false = ground (arith, nz) in
      let e : i + 0 ≡ i = omega arith in rw (z, e) refl
  gather_txn n_truncate pgno bytes ((q, more) ∷ frames) i running r nz =
      let e : i + suc (length frames) ≡ i + 1 + length frames = omega arith in
      rw e (
        gather_txn n_truncate q more frames (i + 1) _
          (record r { frame_pgnos = r.frame_pgnos ++ pgno ∷ [] }) nz
        ∙ (rw append_assoc refl))
