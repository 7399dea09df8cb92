-- ===== src/Pager/WalMode/Reads.antt =====
-- What a page reads as in WAL mode: its last version in the log, or the database file.
use rustqlite.Base.{
  ℕ, suc, ◌≤◌, ◌≡◌, ◌≢◌, refl, ap, sym, ◌∙◌, List, length, map, replicate, false, ltb, ◌==◌, Option,
  none, some, if◌then◌else◌, arith, length-replicate, length-map, zero,
}
use rustqlite.Error.{Result, ok}
use rustqlite.Pager.State.{Pager, overlay}
use rustqlite.Pager.Pages.{fetch_page}
use rustqlite.Pager.WalIndex.{find_frame}
use rustqlite.Pager.WalIndex.Latest.{latest, latest-le}
use rustqlite.Pager.WalIndex.Finding.{find_frame-append_frames}
use rustqlite.Pager.Wal.{Wal, frame_data_offset}
use rustqlite.Pager.Wal.Write.{or_empty}
use rustqlite.Vfs.MemFile.{read_at}
use rustqlite.Pager.Wal.Scan.{Entry, page_number}
use rustqlite.Pager.Wal.Log.{IsLog}
use rustqlite.Pager.Wal.Reading.{content, of_frame, content-latest, read_log}
use rustqlite.Pager.WalMode.{WalPager, page_count, get_page, read_frame_or_file, read_wal, on_pager}

abbrev zero_byte : ℕ
zero_byte = 0

-- The result of a read that the log decides, if it holds the page.
abbrev pub logged_or : Option (List ℕ) → Result (List ℕ) → Result (List ℕ)
logged_or (some bytes) file = ok bytes
logged_or none file = file

find_frame_lem :
    (hdr : List ℕ) (entries : List Entry) (w : Wal) (pgno : ℕ)
    → IsLog hdr entries w
    → find_frame w.mx_frame pgno w.blocks ≡ latest pgno (map page_number entries)
find_frame_lem hdr entries w pgno g =
    let n : w.mx_frame ≡ length (map page_number entries) =
      omega (arith, g.count, length-map entries page_number) in
    rw (n, g.index) (find_frame-append_frames (map page_number entries) pgno)

-- Both ways of a read, by the frame that was found.
read_at_frame :
    (hdr : List ℕ) (entries : List Entry) (pager : Pager) (w : Wal) (pgno r : ℕ)
    → IsLog hdr entries w
    → w.page_size ≡ pager.page_size
    → 1 ≤ w.page_size
    → r ≤ length entries
    → (if r == 0
        then on_pager (record { pager = pager; wal = some w }) (fetch_page pgno pager)
        else read_wal pgno w r (record { pager = pager; wal = some w })).1
      ≡ logged_or (of_frame entries r) (fetch_page pgno pager).1
unfolding read_wal
read_at_frame hdr entries pager w pgno zero g size one le = refl
read_at_frame hdr entries pager w pgno (suc i) g size one le =
    let out = replicate pager.page_size zero_byte in
    let r =
      read_log hdr entries w i out g one (omega arith)
        (length-replicate pager.page_size zero_byte ∙ sym size) in
    let nz : (suc i == 0) ≡ false = ground arith in
    rw nz (
      ap (λ (f : Option (List ℕ)). ok (read_at (or_empty f) (frame_data_offset w (suc i)) out).1)
        r.1
      ∙ ap (λ (t : ℕ × List ℕ). ok t.1) r.2)

-- Reading a page that is in neither the overlay nor the cache gives the last version that the log
-- holds of it, and what the database file gives if it holds none.
pub get_page_lem :
    (hdr : List ℕ) (entries : List Entry) (p : WalPager) (w : Wal) (pgno : ℕ)
    → p.wal ≡ some w
    → IsLog hdr entries w
    → w.page_size ≡ p.pager.page_size
    → 1 ≤ w.page_size
    → overlay p.pager.state pgno ≡ none
    → pgno ≢ 0
    → pgno ≤ page_count p
    → (get_page pgno p).1 ≡ logged_or (content pgno entries) (fetch_page pgno p.pager).1
unfolding get_page read_frame_or_file
get_page_lem hdr entries p w pgno is_wal g size one fresh nz within =
    let a : (pgno == 0) ≡ false = ground (arith, nz) in
    let b : ltb (page_count p) pgno ≡ false = ground (arith, within) in
    rw (a, b, fresh, is_wal, find_frame_lem hdr entries w pgno g, content-latest pgno entries)
      (read_at_frame hdr entries p.pager w pgno (latest pgno (map page_number entries)) g size one
        (omega (arith, latest-le pgno (map page_number entries), length-map entries page_number)))
