-- ===== src/Pager/Wal/Durable.antt =====
-- A transaction that was written is in the log that is opened next, and one that was not is not.
use rustqlite.Base.{
  ℕ, zero, suc, ◌+◌, ◌-◌, ◌≤◌, ◌<◌, ◌≡◌, ◌≢◌, refl, ap, sym, ◌∙◌, List, [], ◌∷◌, ◌++◌, length, take,
  false, ltb, ◌==◌, arith, length-take, length-append, append_assoc, some, Bool-cases, inl, inr,
}
use rustqlite.Base.Bytes.{All}
use rustqlite.Error.{ok}
use rustqlite.Pager.Wal.{Wal, frame_offset, header_sums, open_wal}
use rustqlite.Pager.Wal.Write.{
  Page, write_frames, index_frames, start_log, ensure_open, or_empty, build_frame,
}
use rustqlite.Pager.Wal.Scan.{
  Entry, IsEntry, log_bytes, length-log_bytes, length-build_frame, sums_after,
}
use rustqlite.Pager.Wal.Gather.{IsOpen, entries_of, log_bytes-append}
use rustqlite.Pager.Wal.Log.{IsLog, end_sums, open-IsLog}
use rustqlite.Pager.Wal.Commit.{IsPage, IsTxn, logged, write_loop_lem}

start_lem :
    (salt1 salt2 : ℕ) (file : List ℕ) (w : Wal) (sums : ℕ × ℕ)
    → w.file ≡ some file
    → w.mx_frame ≢ 0
    → w.frame_cksum ≡ some sums
    → start_log salt1 salt2 w ≡ (w, ok sums)
unfolding start_log
start_lem salt1 salt2 file w sums opened nz carried =
    let same : ensure_open w ≡ w =
      rw (ap or_empty opened) (λ i. record w { file = sym opened i }) in
    let there : (w.mx_frame == 0) ≡ false = ground (arith, nz) in rw (same, there, carried) refl

module _ (hdr : List ℕ) (entries : List Entry) (w : Wal) (g : IsLog hdr entries w) where
  old_file : List ℕ
  old_file = hdr ++ log_bytes w.header (header_sums w.header) entries

  length-old_file : length old_file ≡ frame_offset w.page_size (w.mx_frame + 1)
  unfolding old_file frame_offset
  length-old_file =
      let len =
        length-log_bytes w.header w.page_size g.signed.whole g.signed.first g.signed.second entries
          (header_sums w.header) g.frames in
      let e : w.mx_frame + 1 - 1 ≡ length entries = omega (arith, g.count) in
      rw e (
        omega (
          arith,
          length-append hdr (log_bytes w.header (header_sums w.header) entries),
          g.signed.long,
          len,
        ))

  new_file :
      (n_truncate : ℕ) (frames : List Page)
      → old_file ++ log_bytes w.header (end_sums w entries) (entries_of n_truncate frames)
        ≡ hdr ++ log_bytes w.header (header_sums w.header) (entries ++ entries_of n_truncate frames)
  unfolding old_file
  new_file n_truncate frames =
      append_assoc hdr _ _
      ∙ ap (λ t. hdr ++ t)
          (sym (
            log_bytes-append w.header entries (entries_of n_truncate frames)
              (header_sums w.header)))

  pub write_frames_lem :
      (salt1 salt2 n_truncate : ℕ) (frames : List Page)
      → w.mx_frame ≢ 0
      → IsTxn w.page_size n_truncate frames
      → write_frames salt1 salt2 frames n_truncate w
        ≡ (logged hdr entries n_truncate frames w, ok tt)
  unfolding write_frames index_frames
  write_frames_lem salt1 salt2 n_truncate [] nz t = absurd (t.nonempty refl)
  write_frames_lem salt1 salt2 n_truncate (f ∷ frames) nz t =
      let file_is : w.file ≡ some old_file = unfold old_file in g.file in
      let start = start_lem salt1 salt2 old_file w (end_sums w entries) file_is nz g.sums_carried in
      let loop =
        write_loop_lem n_truncate (f ∷ frames) old_file w.mx_frame (end_sums w entries) w file_is
          length-old_file t.pages in
      rw (start, loop, new_file n_truncate (f ∷ frames)) refl

-- The part of a transaction that was written before a crash.
record IsPart (w : Wal) (running : ℕ × ℕ) (part : List ℕ) : Type 0 where
  pub more : List Entry
  pub torn : List ℕ
  pub bytes : part ≡ log_bytes w.header running more ++ torn
  pub uncommitted : IsOpen more
  pub entries : All (IsEntry w.page_size) more
  pub short : length torn < w.page_size + 24

take_past :
    (xs ys : List ℕ) (j : ℕ) → length xs ≤ j → take j (xs ++ ys) ≡ xs ++ take (j - length xs) ys
take_past [] ys j h = let e : j - 0 ≡ j = omega arith in rw e refl
take_past (x ∷ xs) ys zero h = absurd (omega arith)
take_past (x ∷ xs) ys (suc j) h =
    let e : suc j - suc (length xs) ≡ j - length xs = omega arith in
    rw e (ap (λ t. x ∷ t) (take_past xs ys j (omega arith)))

-- Not even the first frame is whole.
torn_frame :
    (w : Wal) (running : ℕ × ℕ) (bytes : List ℕ) (j : ℕ)
    → j < w.page_size + 24
    → IsPart w running (take j bytes)
torn_frame w running bytes j h = record {
  more = [];
  torn = take j bytes;
  bytes = unfold log_bytes in refl;
  uncommitted = tt;
  entries = tt;
  short = omega (arith, length-take j bytes);
}

prefix-IsPart :
    (w : Wal) (running : ℕ × ℕ) (n_truncate : ℕ) (frames : List Page) (j : ℕ)
    → All (IsPage w.page_size) frames
    → j < length (log_bytes w.header running (entries_of n_truncate frames))
    → IsPart w running (take j (log_bytes w.header running (entries_of n_truncate frames)))
unfolding entries_of log_bytes
prefix-IsPart w running n_truncate [] j all h = absurd (omega arith)
prefix-IsPart w running n_truncate ((pgno, bytes) ∷ []) j all h =
    let frame = build_frame w.header running pgno n_truncate bytes in
    torn_frame w running (frame ++ []) j (
      omega (
        arith,
        length-append frame [],
        length-build_frame w.header running pgno n_truncate bytes,
        all.0.2,
      ))
prefix-IsPart w running n_truncate ((pgno, bytes) ∷ f ∷ frames) j all h =
    let frame = build_frame w.header running pgno 0 bytes in
    let running' = sums_after w.header running (pgno, 0, bytes) in
    let rest = log_bytes w.header running' (entries_of n_truncate (f ∷ frames)) in
    let len : length frame ≡ w.page_size + 24 =
      omega (arith, length-build_frame w.header running pgno 0 bytes, all.0.2) in
    elim (Bool-cases (ltb j (w.page_size + 24))) [
      | inl within ↦ torn_frame w running (frame ++ rest) j (ground (arith, within))
      | inr past ↦
          let r =
            prefix-IsPart w running' n_truncate (f ∷ frames) (j - length frame) all.1
              (ground (arith, past, len, length-append frame rest, h)) in
          record {
            more = (pgno, 0, bytes) ∷ r.more;
            torn = r.torn;
            bytes =
                take_past frame rest j (ground (arith, past, len))
                ∙ ap (λ t. frame ++ t) r.bytes
                ∙ sym (append_assoc frame (log_bytes w.header running' r.more) r.torn);
            uncommitted = (refl, r.uncommitted);
            entries = ((all.0.0, all.0.1, omega arith, all.0.2), r.entries);
            short = r.short;
          }
    ]

-- The bytes that write_frames appends to the file of the log.
abbrev pub appended : Wal → List Entry → ℕ → List Page → List ℕ
appended w entries n_truncate frames =
    log_bytes w.header (end_sums w entries) (entries_of n_truncate frames)

-- A crash while a transaction is appended to a log leaves the log as it was: write_frames puts its
-- bytes behind those of the file, and whatever number of them is in the file, short of all, opening
-- it gives the state before the transaction, apart from the bytes behind the log.
pub open_wal_after_crash :
    (hdr : List ℕ) (entries : List Entry) (w : Wal) (salt1 salt2 n_truncate : ℕ)
    (frames : List Page) (j : ℕ) (old : List ℕ)
    → IsLog hdr entries w
    → w.mx_frame ≢ 0
    → IsTxn w.page_size n_truncate frames
    → w.file ≡ some old
    → j < length (appended w entries n_truncate frames)
    → ((write_frames salt1 salt2 frames n_truncate w).0.file
        ≡ some (old ++ appended w entries n_truncate frames))
      × (open_wal (some (old ++ take j (appended w entries n_truncate frames))) w.page_size
          ≡ ok (record w { file = some (old ++ take j (appended w entries n_truncate frames)) }))
open_wal_after_crash hdr entries w salt1 salt2 n_truncate frames j old g nz t opened h =
    let part = prefix-IsPart w (end_sums w entries) n_truncate frames j t.pages h in
    let sums = header_sums w.header in
    let e : old ≡ hdr ++ log_bytes w.header sums entries = ground (arith, opened, g.file) in
    let whole : old ++ take j (appended w entries n_truncate frames)
        ≡ hdr ++ (log_bytes w.header sums (entries ++ part.more) ++ part.torn) =
      rw (e, part.bytes, log_bytes-append w.header entries part.more sums)
        (append_assoc hdr (log_bytes w.header sums entries) _
          ∙ ap (λ t. hdr ++ t)
              (sym (append_assoc (log_bytes w.header sums entries) _ part.torn))) in
    (
      rw (write_frames_lem hdr entries w g salt1 salt2 n_truncate frames nz t) (
          ap some (
            sym (new_file hdr entries w g n_truncate frames)
            ∙ (unfold old_file in ap (λ f. f ++ appended w entries n_truncate frames) (sym e)))),
      rw whole
          (open-IsLog hdr entries part.more part.torn w g part.uncommitted part.entries part.short),
    )
