-- ===== src/Pager/Recovery/Restore.antt =====
-- The file that playing back a journal leaves: the database of before the transaction.
use rustqlite.Base.{
  ℕ, suc, ◌+◌, ◌-◌, ◌*◌, ◌≤◌, ◌<◌, ◌≡◌, ◌⊎◌, inl, inr, refl, ap, sym, ◌∙◌, List, [], ◌∷◌, length,
  true, leb, ltb, ◌&&◌, arith, Bool-cases,
}
use rustqlite.Base.Bytes.{All}
use rustqlite.Vfs.MemFile.{write_at, truncate, file_size}
use rustqlite.Vfs.MemFile.Bytes.{byte_at}
use rustqlite.Vfs.MemFile.Writing.{write_at_lem, truncate_lem}
use rustqlite.Pager.Recovery.Replay.{Image, write_back, IsImage}

-- A byte position inside page `pgno`.
abbrev pub InPage : ℕ → ℕ → ℕ → Type 0
InPage page_size pgno i = ((pgno - 1) * page_size ≤ i) × (i < (pgno - 1) * page_size + page_size)

-- A byte position in a page of which the journal has an image.
abbrev pub IsCovered : ℕ → ℕ → List Image → Type 0
IsCovered page_size i [] = ⊥
IsCovered page_size i ((pgno, bytes) ∷ images) =
    InPage page_size pgno i ⊎ IsCovered page_size i images

-- An image with the bytes of a page of `file`.
abbrev pub IsPreImage : ℕ → List ℕ → Image → Type 0
IsPreImage page_size file (pgno, bytes) =
    (i : ℕ) → i < page_size → byte_at bytes i ≡ byte_at file ((pgno - 1) * page_size + i)

-- `db` has the bytes of `file`, but for the pages that the journal has images of.
abbrev pub IsDamaged : ℕ → List ℕ → List Image → List ℕ → Type 0
IsDamaged page_size file images db =
    (i : ℕ) → i < length file → (byte_at db i ≡ byte_at file i) ⊎ IsCovered page_size i images

-- Two files with the same length and bytes are the same.
pub byte_at_ext :
    (xs ys : List ℕ)
    → length xs ≡ length ys
    → ((i : ℕ) → i < length ys → byte_at xs i ≡ byte_at ys i)
    → xs ≡ ys
byte_at_ext [] [] e same = refl
byte_at_ext [] (y ∷ ys) e same = absurd (omega arith)
byte_at_ext (x ∷ xs) [] e same = absurd (omega arith)
byte_at_ext (x ∷ xs) (y ∷ ys) e same =
    rw (same 0 (omega arith), byte_at_ext xs ys (omega arith) (λ i h. same (suc i) (omega arith)))
      refl

-- Writing back one image repairs its page and damages no other.
repair_page :
    (page_size : ℕ) (file : List ℕ) (pgno : ℕ) (bytes : List ℕ) (images : List Image) (db : List ℕ)
    → length bytes ≡ page_size
    → IsPreImage page_size file (pgno, bytes)
    → IsDamaged page_size file ((pgno, bytes) ∷ images) db
    → IsDamaged page_size file images (write_at db ((pgno - 1) * page_size) bytes)
repair_page page_size file pgno bytes images db len pre damaged i within =
    let start : ℕ = (pgno - 1) * page_size in
    let written = (write_at_lem db start bytes).1 i in
    elim (Bool-cases (leb start i && ltb i (start + length bytes))) [
      | inl inside ↦
          let at : start + (i - start) ≡ i = ground (arith, inside) in
          let offset : i - start < page_size = ground (arith, inside, len) in
          inl (written ∙ (rw inside refl ∙ (pre (i - start) offset ∙ ap (byte_at file) at)))
      | inr outside ↦
          let kept : byte_at (write_at db start bytes) i ≡ byte_at db i =
            written ∙ rw outside refl in
          elim (damaged i within) [
            | inl same ↦ inl (kept ∙ same)
            | inr (inl here) ↦ absurd (ground (arith, outside, here, len))
            | inr (inr other) ↦ inr other
          ]
    ]

-- Writing back all images leaves no damage.
repair :
    (page_size : ℕ) (file : List ℕ) (orig : ℕ) (images : List Image) (db : List ℕ)
    → All (IsImage orig page_size) images
    → All (IsPreImage page_size file) images
    → IsDamaged page_size file images db
    → (i : ℕ) → i < length file
    → byte_at (write_back page_size images db) i ≡ byte_at file i
unfolding write_back
repair page_size file orig [] db all pre damaged i within = elim (damaged i within) [
  | inl same ↦ same
  | inr none ↦ absurd none
]
repair page_size file orig ((pgno, bytes) ∷ images) db all pre damaged i within =
    repair page_size file orig images (write_at db ((pgno - 1) * page_size) bytes) all.1 pre.1
      (repair_page page_size file pgno bytes images db all.0.2 pre.0 damaged) i within

-- The file that recovery leaves.
pub truncate-write_back :
    (page_size : ℕ) (file : List ℕ) (orig : ℕ) (images : List Image) (db : List ℕ)
    → length file ≡ orig * page_size
    → All (IsImage orig page_size) images
    → All (IsPreImage page_size file) images
    → IsDamaged page_size file images db
    → truncate (write_back page_size images db) (orig * page_size) ≡ file
unfolding file_size
truncate-write_back page_size file orig images db len all pre damaged =
    let cut = truncate_lem (write_back page_size images db) (orig * page_size) in
    byte_at_ext (truncate (write_back page_size images db) (orig * page_size)) file
      (cut.0 ∙ sym len)
      (λ i within.
        let below : ltb i (orig * page_size) ≡ true = ground (arith, within, len) in
        cut.1 i ∙ (rw below (repair page_size file orig images db all pre damaged i within)))
