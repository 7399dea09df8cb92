-- ===== src/Pager/Wal/Reading.antt =====
-- What a reader of the log finds: the last version of each page.
use rustqlite.Base.{
  ℕ, zero, suc, ◌+◌, ◌-◌, ◌*◌, ◌≤◌, ◌<◌, ◌≡◌, refl, ap, sym, ◌∙◌, List, [], ◌∷◌, ◌++◌, length, map,
  take, true, false, ◌==◌, if◌then◌else◌, arith, length-append, append_assoc, some, Option, none,
  Bool-cases, inl, inr,
}
use rustqlite.Base.Bytes.{All}
use rustqlite.Error.{ok}
use rustqlite.Vfs.MemFile.{read_at}
use rustqlite.Pager.Recovery.Replay.{read_at_middle}
use rustqlite.Pager.State.{or_else}
use rustqlite.Pager.WalIndex.Latest.{latest}
use rustqlite.Pager.Wal.{Wal, frame_offset, frame_data_offset, header_sums}
use rustqlite.Pager.Wal.Write.{read_frame, build_frame}
use rustqlite.Pager.Wal.Scan.{
  Entry, IsEntry, page_number, log_bytes, length-build_frame, sums_after,
}
use rustqlite.Pager.Wal.Log.{IsLog}

-- The last bytes that were logged for a page.
unfoldable pub content : ℕ → List Entry → Option (List ℕ)
content pgno [] = none
content pgno ((p, commit, bytes) ∷ entries) =
    or_else (content pgno entries) (if p == pgno then some bytes else none)

-- The bytes of a frame, counted from 1.
unfoldable pub bytes_at : List Entry → ℕ → List ℕ
bytes_at [] i = []
bytes_at ((p, commit, bytes) ∷ entries) zero = []
bytes_at ((p, commit, bytes) ∷ entries) (suc zero) = bytes
bytes_at ((p, commit, bytes) ∷ entries) (suc (suc i)) = bytes_at entries (suc i)

-- What the last frame of a page says of its content.
abbrev pub of_frame : List Entry → ℕ → Option (List ℕ)
of_frame entries zero = none
of_frame entries (suc i) = some (bytes_at entries (suc i))

pub content-latest :
    (pgno : ℕ) (entries : List Entry)
    → content pgno entries ≡ of_frame entries (latest pgno (map page_number entries))
unfolding content latest bytes_at
content-latest pgno [] = refl
content-latest pgno ((p, commit, bytes) ∷ entries) =
    step (latest pgno (map page_number entries)) (content-latest pgno entries)
  where
    step :
        (r : ℕ)
        → content pgno entries ≡ of_frame entries r
        → or_else (content pgno entries) (if p == pgno then some bytes else none)
          ≡ of_frame
              ((p, commit, bytes) ∷ entries)
              (if r == 0 then (if p == pgno then 1 else 0) else suc r)
    step zero e = rw e (elim (Bool-cases (p == pgno)) [ inl h ↦ rw h refl | inr h ↦ rw h refl ])
    step (suc r) e = let nz : (suc r == 0) ≡ false = ground arith in rw (e, nz) refl

-- The page of a frame stands in the file at its offset.
frame_split :
    (w : Wal) (entries : List Entry) (i : ℕ) (running : ℕ × ℕ)
    → All (IsEntry w.page_size) entries
    → i < length entries
    → (before after : List ℕ) × (log_bytes w.header running entries
        ≡ before ++ (bytes_at entries (suc i) ++ after))
      × (length before ≡ i * (w.page_size + 24) + 24)
      × (length (bytes_at entries (suc i)) ≡ w.page_size)
unfolding log_bytes bytes_at
frame_split w [] i running all h = absurd (omega arith)
frame_split w ((p, commit, bytes) ∷ entries) zero running all h = (
  take 24 (build_frame w.header running p commit bytes),
  log_bytes w.header (sums_after w.header running (p, commit, bytes)) entries,
  unfold build_frame in refl,
  unfold build_frame in omega arith,
  all.0.3,
)
frame_split w ((p, commit, bytes) ∷ entries) (suc i) running all h =
    let frame = build_frame w.header running p commit bytes in
    let r =
      frame_split w entries i (sums_after w.header running (p, commit, bytes)) all.1
        (omega arith) in
    let k : ℕ = w.page_size + 24 in
    let more : suc i * k + 24 ≡ k + (i * k + 24) = grind arith in
    (
      frame ++ r.0,
      r.1,
      ap (λ t. frame ++ t) r.2 ∙ sym (append_assoc frame r.0 _),
      omega (
        arith,
        length-append frame r.0,
        length-build_frame w.header running p commit bytes,
        all.0.3,
        r.3,
        more,
      ),
      r.4,
    )

-- Reading at the offset of a frame gives its page.
pub read_log :
    (hdr : List ℕ) (entries : List Entry) (w : Wal) (i : ℕ) (out : List ℕ)
    → IsLog hdr entries w
    → 1 ≤ w.page_size
    → i < length entries
    → length out ≡ w.page_size
    → (file : List ℕ) × (w.file ≡ some file)
      × (read_at file (frame_data_offset w (suc i)) out ≡ (w.page_size, bytes_at entries (suc i)))
unfolding frame_data_offset frame_offset
read_log hdr entries w i out g one h fits =
    let r = frame_split w entries i (header_sums w.header) g.frames h in
    let at : 32 + (suc i - 1) * (w.page_size + 24) + 24 ≡ length (hdr ++ r.0) =
      let e : suc i - 1 ≡ i = omega arith in
      rw e (omega (arith, length-append hdr r.0, g.signed.long, r.3)) in
    (
      (hdr ++ r.0) ++ (bytes_at entries (suc i) ++ r.1),
      g.file ∙ ap some (ap (λ t. hdr ++ t) r.2 ∙ sym (append_assoc hdr r.0 _)),
      rw at (
          read_at_middle (hdr ++ r.0) (bytes_at entries (suc i)) r.1 out (omega (arith, fits, r.4))
            (omega (arith, r.4))
          ∙ (rw r.4 refl)),
    )

-- Reading a frame of the log gives its page.
pub read_frame_lem :
    (hdr : List ℕ) (entries : List Entry) (w : Wal) (i : ℕ) (out : List ℕ)
    → IsLog hdr entries w
    → 1 ≤ w.page_size
    → i < length entries
    → length out ≡ w.page_size
    → read_frame w (suc i) out ≡ ok (bytes_at entries (suc i))
unfolding read_frame frame_data_offset
read_frame_lem hdr entries w i out g one h fits =
    let r = read_log hdr entries w i out g one h fits in
    let nz : (suc i == 0) ≡ false = ground arith in
    let whole : (length out == w.page_size) ≡ true = ground (arith, fits) in
    let all : (w.page_size == w.page_size) ≡ true = ground arith in
    rw (r.1, r.2, nz, whole, all) refl
