-- ===== src/Vfs/MemFile/Writing.antt =====
-- What `write_at` and `truncate` leave in a file, and `read_at` reads.
use rustqlite.Base.{
  ℕ, ◌+◌, ◌-◌, ◌≤◌, ◌≡◌, refl, ap, sym, ◌∙◌, min, List, [], ◌∷◌, ◌++◌, length, take, drop,
  replicate, leb, ltb, if◌then◌else◌, ◌&&◌, length-append, length-take, length-drop,
  length-replicate, arith, Bool-cases, inl, inr,
}
use rustqlite.Base.Bytes.{slice, copy_at, take-length_append, drop-length_append}
use rustqlite.Vfs.MemFile.{read_at, resize, write_at, truncate, file_size}
use rustqlite.Vfs.MemFile.Bytes.{
  byte_at, byte_at-append_left, byte_at_split, byte_at-drop, byte_at-take, byte_at-replicate,
  byte_at_behind, drop_all, append_nil,
}

abbrev zero_byte : ℕ
zero_byte = 0

length-resize : (n : ℕ) (bytes : List ℕ) → length (resize n bytes) ≡ n
unfolding resize
length-resize n bytes = omega (
  arith,
  length-append (take n bytes) (replicate (n - length bytes) 0),
  length-take n bytes,
  length-replicate (n - length bytes) zero_byte,
)

byte_at-resize :
    (n : ℕ) (bytes : List ℕ) (i : ℕ)
    → byte_at (resize n bytes) i ≡ (if ltb i n then byte_at bytes i else 0)
unfolding resize
byte_at-resize n bytes i = ground (
  arith,
  length-take n bytes,
  byte_at-append_left (take n bytes) (replicate (n - length bytes) 0) i,
  byte_at_split (take n bytes) (replicate (n - length bytes) 0) i,
  byte_at-take n bytes i,
  byte_at-replicate (n - length bytes) (i - length (take n bytes)),
  byte_at_behind bytes i,
)

byte_at-copy_at :
    (off : ℕ) (src bytes : List ℕ) (i : ℕ)
    → off ≤ length bytes
    → byte_at (copy_at off src bytes) i
      ≡ (if leb off i && ltb i (off + length src) then byte_at src (i - off) else byte_at bytes i)
byte_at-copy_at off src bytes i h = ground (
  arith,
  length-take off bytes,
  byte_at-append_left (take off bytes) (src ++ drop (off + length src) bytes) i,
  byte_at_split (take off bytes) (src ++ drop (off + length src) bytes) i,
  byte_at-take off bytes i,
  byte_at-append_left src (drop (off + length src) bytes) (i - off),
  byte_at_split src (drop (off + length src) bytes) (i - off),
  byte_at-drop (off + length src) bytes (i - off - length src),
  behind,
)
  where
    behind :
        off + length src ≤ i
        → byte_at bytes (off + length src + (i - off - length src)) ≡ byte_at bytes i
    behind le = ap (λ k. byte_at bytes k) (omega arith)

length-copy_at :
    (off : ℕ) (src bytes : List ℕ)
    → off + length src ≤ length bytes
    → length (copy_at off src bytes) ≡ length bytes
length-copy_at off src bytes h = omega (
  arith,
  length-append (take off bytes) (src ++ drop (off + length src) bytes),
  length-append src (drop (off + length src) bytes),
  length-take off bytes,
  length-drop (off + length src) bytes,
)

-- `write_at` makes the file long enough, puts the source at the offset, and changes no other byte;
-- a gap that it leaves behind the old end reads as 0.
pub write_at_lem :
    (bytes : List ℕ) (offset : ℕ) (src : List ℕ)
    → (file_size (write_at bytes offset src)
        ≡ (if ltb (length bytes) (offset + length src) then offset + length src else length bytes))
      × ((i : ℕ)
          → byte_at (write_at bytes offset src) i ≡ (
              if leb offset i && ltb i (offset + length src)
              then byte_at src (i - offset)
              else byte_at bytes i))
unfolding file_size write_at
write_at_lem bytes offset src = elim (Bool-cases (ltb (length bytes) (offset + length src))) [
  | inl grows ↦ rw grows (
    length-copy_at offset src _ (omega (arith, length-resize (offset + length src) bytes))
        ∙ length-resize (offset + length src) bytes,
    λ i.
        byte_at-copy_at offset src (resize (offset + length src) bytes) i
          (omega (arith, length-resize (offset + length src) bytes))
        ∙ (ground (arith, byte_at-resize (offset + length src) bytes i, byte_at_behind bytes i)),
  )
  | inr fits ↦ rw fits (
    length-copy_at offset src bytes (ground arith),
    λ i. byte_at-copy_at offset src bytes i (ground arith),
  )
]

slice-copy_at :
    (off : ℕ) (src bytes : List ℕ)
    → off ≤ length bytes
    → slice off (off + length src) (copy_at off src bytes) ≡ src
slice-copy_at off src bytes h =
    let short : length (take off bytes) ≡ off = omega (arith, length-take off bytes) in
    let len : off + length src - off ≡ length src = omega arith in
    rw len (
      ap (λ k. take (length src) (drop k (copy_at off src bytes))) (sym short)
      ∙ ap (take (length src)) (drop-length_append (take off bytes) _)
      ∙ take-length_append src _)

empty : (xs : List ℕ) → length xs ≤ 0 → xs ≡ []
empty [] h = refl
empty (x ∷ xs) h = absurd (omega arith)

-- Reading back the bytes that `copy_at` placed.
read_at-copy_at :
    (offset : ℕ) (src bytes buf : List ℕ)
    → offset + length src ≤ length bytes
    → length buf ≡ length src
    → read_at (copy_at offset src bytes) offset buf ≡ (length src, src)
unfolding read_at
read_at-copy_at offset src bytes buf h e =
    elim (Bool-cases (leb (length (copy_at offset src bytes)) offset)) [
      | inl out ↦
          let none_left : length src ≤ 0 = ground (arith, length-copy_at offset src bytes h) in
          rw (out, empty src none_left, empty buf (omega arith)) refl
      | inr within ↦
          let all : min (length buf) (length (copy_at offset src bytes) - offset) ≡ length src =
            omega (arith, length-copy_at offset src bytes h) in
          let whole : drop (0 + length src) buf ≡ [] =
            drop_all (0 + length src) buf (omega arith) in
          rw (within, all, slice-copy_at offset src bytes (omega arith), whole)
            (ap (λ t. (length src, t)) (append_nil src))
    ]

-- What was written is read back from the same offset.
pub read_at-write_at :
    (bytes : List ℕ) (offset : ℕ) (src buf : List ℕ)
    → length buf ≡ length src
    → read_at (write_at bytes offset src) offset buf ≡ (length src, src)
unfolding write_at
read_at-write_at bytes offset src buf h =
    elim (Bool-cases (ltb (length bytes) (offset + length src))) [
      | inl grows ↦ rw grows (
          read_at-copy_at offset src _ buf
            (omega (arith, length-resize (offset + length src) bytes)) h)
      | inr fits ↦ rw fits (read_at-copy_at offset src bytes buf (ground arith) h)
    ]

-- `truncate` cuts the file or extends it by zeros to the size.
pub truncate_lem :
    (bytes : List ℕ) (size : ℕ)
    → (file_size (truncate bytes size) ≡ size)
      × ((i : ℕ) → byte_at (truncate bytes size) i ≡ (if ltb i size then byte_at bytes i else 0))
unfolding file_size truncate
truncate_lem bytes size = (length-resize size bytes, byte_at-resize size bytes)
