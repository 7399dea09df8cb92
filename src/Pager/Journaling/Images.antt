-- ===== src/Pager/Journaling/Images.antt =====
-- Adding an image to a journal.
use rustqlite.Base.{
  ℕ, ◌+◌, ◌-◌, ◌*◌, ◌≤◌, ◌≡◌, ◌≢◌, inl, inr, refl, ap, sym, ◌∙◌, List, [], ◌∷◌, ◌++◌, length,
  replicate, drop, true, false, ◌||◌, ltb, leb, min, ◌==◌, arith, Bool-cases, length-append,
  append_assoc, length-replicate, length-take, length-drop,
}
use rustqlite.Base.Bytes.{copy_at, slice}
use rustqlite.Base.Map.{contains}
use rustqlite.Vfs.MemFile.{read_at, write_at, file_size}
use rustqlite.Vfs.MemFile.Writing.{write_at_lem}
use rustqlite.Vfs.MemFile.Bytes.{
  append_nil, byte_at, byte_at-take, byte_at-drop, byte_at-append_left, byte_at_split, drop_all,
}
use rustqlite.Pager.Journal.{build_record}
use rustqlite.Pager.Recovery.Replay.{Image, records}
use rustqlite.Pager.Recovery.Restore.{byte_at_ext, InPage, IsCovered, IsPreImage}
use rustqlite.Pager.Transaction.{read_of}
use rustqlite.Pager.Journaling.{page_numbers}

pub records-append :
    (seed : ℕ) (images : List Image) (pgno : ℕ) (bytes : List ℕ)
    → records seed (images ++ (pgno, bytes) ∷ [])
      ≡ records seed images ++ build_record pgno bytes seed
unfolding records
records-append seed [] pgno bytes = append_nil (build_record pgno bytes seed)
records-append seed ((n, b) ∷ images) pgno bytes =
    ap (λ t. build_record n b seed ++ t) (records-append seed images pgno bytes)
    ∙ sym
        (append_assoc (build_record n b seed) (records seed images) (build_record pgno bytes seed))

pub contains-append :
    (k : ℕ) (images : List Image) (pgno : ℕ) (bytes : List ℕ)
    → contains k (page_numbers (images ++ (pgno, bytes) ∷ []))
      ≡ (k == pgno || contains k (page_numbers images))
contains-append k [] pgno bytes = refl
contains-append k ((n, b) ∷ images) pgno bytes = ground (arith, contains-append k images pgno bytes)

-- Writing at the end of a file.
pub write_at_end : (file bytes : List ℕ) → write_at file (length file) bytes ≡ file ++ bytes
unfolding file_size
write_at_end file bytes =
    byte_at_ext (write_at file (length file) bytes) (file ++ bytes)
      (ground (arith, (write_at_lem file (length file) bytes).0, length-append file bytes))
      (λ i within. ground (
        arith,
        (write_at_lem file (length file) bytes).1 i,
        length-append file bytes,
        byte_at-append_left file bytes i,
        byte_at_split file bytes i,
      ))

-- The page of a position that has an image.
pub page-IsCovered :
    (page_size i k : ℕ) (images : List Image)
    → contains k (page_numbers images) ≡ true
    → InPage page_size k i
    → IsCovered page_size i images
page-IsCovered page_size i k [] has here = ground (arith, has)
page-IsCovered page_size i k ((n, b) ∷ images) has here = elim (Bool-cases (k == n)) [
  | inl same ↦ let e : k ≡ n = ground (arith, same) in inl (rw⁻¹ e here)
  | inr other ↦ inr (page-IsCovered page_size i k images (ground (arith, has, other)) here)
]

read_at_behind :
    (file : List ℕ) (off : ℕ) (buf : List ℕ)
    → leb (length file) off ≡ true
    → read_at file off buf ≡ (0, buf)
unfolding read_at
read_at_behind file off buf behind = rw behind refl

read_at_inside :
    (file : List ℕ) (off : ℕ) (buf : List ℕ)
    → leb (length file) off ≡ false
    → read_at file off buf ≡ (
      min (length buf) (length file - off),
      copy_at 0 (slice off (off + min (length buf) (length file - off)) file) buf,
    )
unfolding read_at
read_at_inside file off buf inside = rw inside refl

abbrev zero_byte : ℕ
zero_byte = 0

-- A read that is not short gives the bytes at the offset.
pub read_at_whole :
    (file : List ℕ) (off n : ℕ)
    → ltb (read_at file off (replicate n 0)).0 n ≡ false
    → n ≢ 0
    → ((read_at file off (replicate n 0)).1 ≡ slice off (off + n) file) × (off + n ≤ length file)
read_at_whole file off n whole nz = elim (Bool-cases (leb (length file) off)) [
  | inl behind ↦
      let e = ap (λ r. r.0) (read_at_behind file off (replicate n 0) behind) in
      absurd (ground (arith, e, whole, nz))
  | inr inside ↦
      let e = read_at_inside file off (replicate n 0) inside in
      let len = length-replicate n zero_byte in
      let count = ap (λ r. r.0) e in
      let fits : off + n ≤ length file = ground (arith, count, len, inside, whole) in
      let all : min (length (replicate n zero_byte)) (length file - off) ≡ n = omega (arith, len) in
      let got : length (slice off (off + n) file) ≡ n =
        omega (arith, length-take (off + n - off) (drop off file), length-drop off file) in
      let none_left : drop (0 + length (slice off (off + n) file)) (replicate n zero_byte) ≡ [] =
        drop_all (0 + length (slice off (off + n) file)) (replicate n zero_byte)
          (omega (arith, len, got)) in
      (
        ap (λ r. r.1) e
            ∙ ap (λ m. copy_at 0 (slice off (off + m) file) (replicate n 0)) all
            ∙ ap (λ t. slice off (off + n) file ++ t) none_left
            ∙ append_nil (slice off (off + n) file),
        fits,
      )
]

-- A page that was read whole has the bytes of the file.
pub read_of-IsPreImage :
    (file : List ℕ) (page_size pgno : ℕ)
    → ltb (read_of file page_size pgno).0 page_size ≡ false
    → page_size ≢ 0
    → (length (read_of file page_size pgno).1 ≡ page_size)
      × IsPreImage page_size file (pgno, (read_of file page_size pgno).1)
read_of-IsPreImage file page_size pgno whole nz =
    let off : ℕ = (pgno - 1) * page_size in
    let r = read_at_whole file off page_size whole nz in
    (
      ap length r.0
          ∙ omega (
            arith,
            length-take (off + page_size - off) (drop off file),
            length-drop off file,
            r.1,
          ),
      λ i within.
          ap (λ bytes. byte_at bytes i) r.0
          ∙ byte_at-take (off + page_size - off) (drop off file) i (omega arith)
          ∙ byte_at-drop off file i,
    )
