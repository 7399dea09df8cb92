-- ===== src/Btree/Overflow.antt =====
-- crates/rustsqlite-core/src/btree/cell.rs: building cells whose payload spills to a chain of
-- overflow pages, and assembling the payload again. The pager is the parameter `s`. The entries of
-- the pointer map are left out: `ptrmap_put_sync` does nothing.
pub mod Chain
pub mod Stored
pub mod RoundTrip
pub mod IndexRoundTrip
use rustqlite.Base.{
  ℕ, zero, suc, ◌+◌, ◌-◌, min, List, [], ◌∷◌, ◌++◌, length, take, drop, replicate, Bool, true,
  false, Option, none, some, leb, ltb, ◌==◌, if◌then◌else◌,
}
use rustqlite.Base.Int.{ℤ}
use rustqlite.Base.Words.{as_u64}
use rustqlite.Base.Bytes.{be_bytes, be_u32, copy_at, slice}
use rustqlite.Error.{Result, ok, err, ◌>>=◌, ◌>>◌, guard, Message, corrupt}
use rustqlite.Format.Varint.{write_varint}
use rustqlite.Btree.PageStore.{PageStore}
use rustqlite.Btree.Cell.{
  local_payload_len, index_max_local, table_leaf_max_local, TableLeafCell, IndexLeafCell,
  IndexInteriorCell,
}

-- An overflow page: the number of the next one, and a chunk.
unfoldable pub overflow_buf : ℕ → ℕ → List ℕ → List ℕ
overflow_buf page_size next chunk =
    copy_at 4 chunk (copy_at 0 (be_bytes 4 next) (replicate page_size 0))

-- `next.filter(|&p| p != 0)`.
unfoldable pub chained : Option ℕ → Option ℕ
chained none = none
chained (some n) = if n == 0 then none else some n

module _ {P : Type 0} (s : PageStore P) (page_size usable : ℕ) where
  -- The loop that walks the chain: page `curr` is filled with the next chunk of `tail`. Every round
  -- but the last takes `usable - 4` bytes.
  unfoldable pub spill : ℕ → P → ℕ → List ℕ → P
  spill zero p curr tail = p
  spill (suc fuel) p curr tail =
      let n = min (length tail) (usable - 4) in
      let is_last = n == length tail in
      let a = if is_last then (0, p) else s.allocate_page p in
      let p' = s.write_page a.1 curr (overflow_buf page_size a.0 (take n tail)) in
      let more = spill fuel p' a.0 (drop n tail) in if is_last then p' else more

  -- The cell so far gets the local bytes and, on overflow, the number of the first page.
  unfoldable pub append_payload : P → List ℕ → List ℕ → ℕ × Bool → List ℕ × P
  append_payload p cell payload (local_len, false) = (cell ++ take local_len payload, p)
  append_payload p cell payload (local_len, true) =
      let tail = drop local_len payload in
      let a = s.allocate_page p in
      ((cell ++ take local_len payload) ++ be_bytes 4 a.0, spill (length tail) a.1 a.0 tail)

  unfoldable pub build_table_leaf_cell_with_host : P → ℤ → List ℕ → Option ℕ → List ℕ × P
  build_table_leaf_cell_with_host p rowid payload host_pgno =
      let cell = (write_varint (length payload) []).0 in
      let cell = (write_varint (as_u64 rowid) cell).0 in
      append_payload p cell payload (local_payload_len (length payload) usable (usable - 35))

  unfoldable pub build_table_leaf_cell : P → ℤ → List ℕ → List ℕ × P
  build_table_leaf_cell p rowid payload = build_table_leaf_cell_with_host p rowid payload none

  unfoldable pub build_index_leaf_cell_with_host : P → List ℕ → Option ℕ → List ℕ × P
  build_index_leaf_cell_with_host p key_record host_pgno =
      let cell = (write_varint (length key_record) []).0 in
      append_payload p cell key_record
        (local_payload_len (length key_record) usable (index_max_local usable))

  unfoldable pub build_index_leaf_cell : P → List ℕ → List ℕ × P
  build_index_leaf_cell p key_record = build_index_leaf_cell_with_host p key_record none

  unfoldable pub build_index_interior_cell : P → ℕ → List ℕ → List ℕ × P
  build_index_interior_cell p left_child key_record =
      let cell = (write_varint (length key_record) (be_bytes 4 left_child)).0 in
      append_payload p cell key_record
        (local_payload_len (length key_record) usable (index_max_local usable))

  -- The rounds of the loop that follows the chain; each reads at least one byte.
  unfoldable pub collect : ℕ → P → ℕ → List ℕ → Option ℕ → Result (List ℕ)
  collect zero p total payload next = ok payload
  collect (suc fuel) p total payload next =
      if ltb (length payload) total
      then elim (chained next) [
        | none ↦ ok payload
        | some pgno ↦ s.get_page p pgno >>= λ page.
            let want = min (total - length payload) (usable - 4) in
            guard (leb (4 + want) (length page))
              (corrupt (Message.plain "overflow page shorter than expected"))
            >> collect fuel p total (payload ++ slice 4 (4 + want) page)
                (some (be_u32 (slice 0 4 page)))
      ]
      else ok payload

  unfoldable pub assemble : P → ℕ → List ℕ → Option ℕ → Result (List ℕ)
  assemble p total local_payload overflow_page = do
    payload ← collect total p total local_payload overflow_page
    guard (leb total (length payload))
        (corrupt (Message.plain "payload shorter than declared size"))
    ok (take total payload)

  -- `assemble_payload` of btree/cursor.rs.
  unfoldable pub assemble_payload : P → TableLeafCell → Result (List ℕ)
  assemble_payload p cell = assemble p cell.payload_size cell.local_payload cell.overflow_page

  unfoldable pub assemble_index_payload : P → IndexLeafCell → Result (List ℕ)
  assemble_index_payload p cell = assemble p cell.payload_size cell.local_payload cell.overflow_page

  unfoldable pub assemble_index_interior_payload : P → IndexInteriorCell → Result (List ℕ)
  assemble_index_interior_payload p cell =
      assemble p cell.payload_size cell.local_payload cell.overflow_page
