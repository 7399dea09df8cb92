-- ===== src/Pager/Wal/Commit.antt =====
-- The frames of a transaction, appended to a log that agrees with its file.
use rustqlite.Base.{
  ℕ, suc, ◌+◌, ◌^◌, ◌<◌, ◌≡◌, ◌≢◌, refl, ap, sym, ◌∙◌, List, [], ◌∷◌, ◌++◌, length, map, true, ◌==◌,
  if◌then◌else◌, arith, length-append, append_assoc, length-map, some, Bool-cases, inl, inr,
}
use mathlib.Core.List.{map-append}
use rustqlite.Base.Bytes.{All, All-append}
use rustqlite.Error.{ok}
use rustqlite.Vfs.MemFile.{write_at}
use rustqlite.Vfs.MemFile.Bytes.{append_nil}
use rustqlite.Pager.Journaling.Images.{write_at_end}
use rustqlite.Pager.WalIndex.{IndexBlock, append_frames}
use rustqlite.Pager.Wal.{Wal, Recovered, frame_offset, header_sums, nothing_recovered}
use rustqlite.Pager.Wal.Write.{Page, write_loop, build_frame, is_last}
use rustqlite.Pager.Wal.Scan.{
  Entry, IsEntry, page_number, log_bytes, log_sums, length-build_frame, next_offset,
}
use rustqlite.Pager.Wal.Gather.{
  entries_of, length-entries_of, pages-entries_of, log_sums-append, gather-append, gather_txn,
}
use rustqlite.Pager.Wal.Log.{IsLog, end_sums, gathered}

-- A page that can be logged.
abbrev pub IsPage : ℕ → Page → Type 0
IsPage page_size (pgno, bytes) = (pgno ≢ 0) × (pgno < 2 ^ 32) × (length bytes ≡ page_size)

pub entries-IsEntry :
    (page_size n_truncate : ℕ) (frames : List Page)
    → n_truncate < 2 ^ 32
    → All (IsPage page_size) frames
    → All (IsEntry page_size) (entries_of n_truncate frames)
unfolding entries_of
entries-IsEntry page_size n_truncate [] h all = tt
entries-IsEntry page_size n_truncate ((pgno, bytes) ∷ frames) h all = (
  (
    all.0.0,
    all.0.1,
    elim (Bool-cases (is_last frames)) [ inl e ↦ rw e h | inr e ↦ rw e (omega arith) ],
    all.0.2,
  ),
  entries-IsEntry page_size n_truncate frames h all.1,
)

-- The loop appends the frames to the file, and leaves the rest of the state.
pub write_loop_lem :
    (n_truncate : ℕ) (frames : List Page) (file : List ℕ) (i_frame : ℕ) (running : ℕ × ℕ) (w : Wal)
    → w.file ≡ some file
    → length file ≡ frame_offset w.page_size (i_frame + 1)
    → All (IsPage w.page_size) frames
    → write_loop n_truncate frames i_frame running w ≡ (
      record w { file = some (file ++ log_bytes w.header running (entries_of n_truncate frames)) },
      ok (i_frame + length frames, log_sums w.header running (entries_of n_truncate frames)),
    )
unfolding write_loop entries_of log_bytes log_sums
write_loop_lem n_truncate [] file i_frame running w opened at all =
    let e : i_frame + 0 ≡ i_frame = omega arith in
    let f : w.file ≡ some (file ++ []) = opened ∙ ap some (sym (append_nil file)) in
    λ i. (record w { file = f i }, ok (sym e i, running))
write_loop_lem n_truncate ((pgno, bytes) ∷ frames) file i_frame running w opened at all =
    let commit = if is_last frames then n_truncate else 0 in
    let frame = build_frame w.header running pgno commit bytes in
    let good : (length bytes == w.page_size) ≡ true = ground (arith, all.0.2) in
    let put : write_at file (frame_offset w.page_size (i_frame + 1)) frame ≡ file ++ frame =
      ap (λ k. write_at file k frame) (sym at) ∙ write_at_end file frame in
    let w' : Wal = record w { file = some (file ++ frame) } in
    let at' : length (file ++ frame) ≡ frame_offset w.page_size (i_frame + 1 + 1) = omega (
      arith,
      length-append file frame,
      at,
      next_offset w.page_size (i_frame + 1) (omega arith),
      length-build_frame w.header running pgno commit bytes,
      all.0.2,
    ) in
    let count : i_frame + suc (length frames) ≡ i_frame + 1 + length frames = omega arith in
    rw (good, opened, put, count)
      (write_loop_lem n_truncate frames (file ++ frame) (i_frame + 1) _ w' refl at' all.1
        ∙ (rw (append_assoc file frame) refl))

append_frames-append :
    (xs ys : List ℕ) (i : ℕ) (blocks : List IndexBlock)
    → append_frames i (xs ++ ys) blocks
      ≡ append_frames (i + length xs) ys (append_frames i xs blocks)
unfolding append_frames
append_frames-append [] ys i blocks = let e : i + 0 ≡ i = omega arith in rw e refl
append_frames-append (x ∷ xs) ys i blocks =
    let e : i + suc (length xs) ≡ i + 1 + length xs = omega arith in
    rw e (append_frames-append xs ys (i + 1) _)

-- A transaction that can be logged: some pages, and the size of the database behind it.
pub record IsTxn (page_size n_truncate : ℕ) (frames : List Page) : Type 0 where
  pub nonempty : length frames ≢ 0
  pub pages : All (IsPage page_size) frames
  pub sized : n_truncate ≢ 0
  pub small : n_truncate < 2 ^ 32

-- The log behind a transaction.
abbrev pub logged : List ℕ → List Entry → ℕ → List Page → Wal → Wal
logged hdr entries n_truncate frames w = record w {
  file =
      some (
        hdr ++ log_bytes w.header (header_sums w.header) (entries ++ entries_of n_truncate frames));
  blocks = append_frames w.mx_frame (map (λ (f : Page). f.0) frames) w.blocks;
  mx_frame = w.mx_frame + length frames;
  n_page = n_truncate;
  frame_cksum = some (log_sums w.header (end_sums w entries) (entries_of n_truncate frames));
}

module _ (hdr : List ℕ) (entries : List Entry) (w : Wal) (g : IsLog hdr entries w) where
  pages_after :
      (n_truncate : ℕ) (frames : List Page)
      → map page_number (entries ++ entries_of n_truncate frames)
        ≡ map page_number entries ++ map (λ (f : Page). f.0) frames
  pages_after n_truncate frames =
      map-append page_number entries (entries_of n_truncate frames)
      ∙ ap (λ t. map page_number entries ++ t) (pages-entries_of n_truncate frames)

  index_after :
      (n_truncate : ℕ) (frames : List Page)
      → append_frames w.mx_frame (map (λ (f : Page). f.0) frames) w.blocks
        ≡ append_frames 0 (map page_number (entries ++ entries_of n_truncate frames)) []
  index_after n_truncate frames =
      let start : 0 + length (map page_number entries) ≡ w.mx_frame =
        omega (arith, length-map entries page_number, g.count) in
      let split =
        append_frames-append (map page_number entries) (map (λ (f : Page). f.0) frames) 0 [] in
      rw (pages_after n_truncate frames, split, start, g.index) refl

  gathered_after :
      (n_truncate pgno : ℕ) (bytes : List ℕ) (frames : List Page)
      → n_truncate ≢ 0
      → gathered w (entries ++ entries_of n_truncate ((pgno, bytes) ∷ frames)) ≡ record {
        frame_pgnos = map page_number entries ++ pgno ∷ map (λ (f : Page). f.0) frames;
        last_commit_frame = 1 + length entries + length frames;
        last_commit_npage = n_truncate;
        last_commit_cksum =
            log_sums w.header (end_sums w entries) (entries_of n_truncate ((pgno, bytes) ∷ frames));
      }
  gathered_after n_truncate pgno bytes frames nz =
      gather-append w.header entries (entries_of n_truncate ((pgno, bytes) ∷ frames)) 1
        (header_sums w.header) nothing_recovered
      ∙ gather_txn w.header n_truncate pgno bytes frames (1 + length entries) (end_sums w entries)
          (gathered w entries) nz
      ∙ (rw g.pages refl)

  pub logged-IsLog :
      (n_truncate : ℕ) (frames : List Page)
      → IsTxn w.page_size n_truncate frames
      → IsLog hdr (entries ++ entries_of n_truncate frames) (logged hdr entries n_truncate frames w)
  logged-IsLog n_truncate [] t = absurd (t.nonempty refl)
  logged-IsLog n_truncate ((pgno, bytes) ∷ frames) t =
      let new = entries_of n_truncate ((pgno, bytes) ∷ frames) in
      let len : length (entries ++ new) ≡ length entries + suc (length frames) =
        omega (
          arith,
          length-append entries new,
          length-entries_of n_truncate ((pgno, bytes) ∷ frames),
        ) in
      let got = gathered_after n_truncate pgno bytes frames t.sized in
      record {
        signed = g.signed;
        frames =
            All-append (IsEntry w.page_size) entries new g.frames
              (entries-IsEntry w.page_size n_truncate ((pgno, bytes) ∷ frames) t.small t.pages);
        file = refl;
        count = omega (arith, g.count, len);
        index = index_after n_truncate ((pgno, bytes) ∷ frames);
        sums_carried = ap some (sym (log_sums-append w.header entries new (header_sums w.header)));
        pages =
            ap (λ (r : Recovered). r.frame_pgnos) got
            ∙ sym (pages_after n_truncate ((pgno, bytes) ∷ frames));
        last = ap (λ (r : Recovered). r.last_commit_frame) got ∙ (omega (arith, len));
        size = ap (λ (r : Recovered). r.last_commit_npage) got;
        sealed = λ nz.
            ap (λ (r : Recovered). r.last_commit_cksum) got
            ∙ sym (log_sums-append w.header entries new (header_sums w.header));
      }
