-- ===== src/Vfs/MemFile.antt =====
-- crates/rustsqlite-core/src/vfs/memvfs.rs: the bytes of a file in memory. Offsets and sizes are
-- those of a 64-bit machine, and small enough for the buffer to exist.
pub mod Bytes
pub mod Writing
use rustqlite.Base.{
  ℕ, zero, suc, ◌+◌, ◌-◌, ◌≤◌, ◌<◌, ◌≡◌, refl, ap, sym, ◌∙◌, min, List, [], ◌∷◌, ◌++◌, length, take,
  drop, replicate, leb, ltb, if◌then◌else◌, length-append, length-take, length-drop,
  length-replicate, arith, Bool-cases, inl, inr, get_elem?, some, none, Option,
}
use rustqlite.Base.Bytes.{slice, copy_at, take-length_append, drop-length_append, drop-add}

-- The count, and `buf` after it.
unfoldable pub read_at : List ℕ → ℕ → List ℕ → ℕ × List ℕ
read_at bytes offset buf =
    if leb (length bytes) offset
    then (0, buf)
    else (let n = min (length buf) (length bytes - offset) in
        (n, copy_at 0 (slice offset (offset + n) bytes) buf))

-- `Vec::resize(n, 0)`.
unfoldable pub resize : ℕ → List ℕ → List ℕ
resize n bytes = take n bytes ++ replicate (n - length bytes) 0

unfoldable pub write_at : List ℕ → ℕ → List ℕ → List ℕ
write_at bytes offset src =
    let end = offset + length src in
    let bytes' = if ltb (length bytes) end then resize end bytes else bytes in
    copy_at offset src bytes'

unfoldable pub truncate : List ℕ → ℕ → List ℕ
truncate bytes size = resize size bytes

unfoldable pub file_size : List ℕ → ℕ
file_size bytes = length bytes
