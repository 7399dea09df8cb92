-- ===== src/Pager/Store/Cells.antt =====
-- Cells with overflow chains in the pages of the pager.
use rustqlite.Base.{ℕ, suc, ◌+◌, ◌*◌, ◌^◌, ◌≤◌, ◌<◌, ◌≡◌, refl, List, ◌++◌, length, arith}
use rustqlite.Base.Int.{ℤ}
use rustqlite.Base.Words.{IsI64}
use rustqlite.Error.{ok}
use rustqlite.Btree.Cell.{TableLeafCell, parse_table_leaf_cell}
use rustqlite.Btree.Overflow.{build_table_leaf_cell, assemble_payload}
use rustqlite.Btree.Overflow.RoundTrip.{table_leaf-round_trip}
use rustqlite.Pager.State.{Pager}
use rustqlite.Pager.Store.{pager_store, pager_laws}

-- A payload that is stored through the pager, its overflow pages allocated behind the last page, is
-- read back through the pager, while there are page numbers for three times as many pages as the
-- payload has bytes.
pub pager-round_trip :
    (p : Pager) (rowid : ℤ) (payload pre post : List ℕ)
    → 480 ≤ p.usable_size
    → p.usable_size ≤ p.page_size
    → p.state.page_count + 3 * suc (length payload) < 2 ^ 32
    → IsI64 rowid
    → (cell : TableLeafCell) × (parse_table_leaf_cell
          (pre
            ++ ((build_table_leaf_cell pager_store p.page_size p.usable_size p rowid payload).0
                ++ post))
          (length pre)
          p.usable_size
        ≡ ok cell)
      × (cell.payload_size ≡ length payload)
      × (cell.rowid ≡ rowid)
      × (assemble_payload pager_store p.page_size p.usable_size
            (build_table_leaf_cell pager_store p.page_size p.usable_size p rowid payload).1
            cell
          ≡ ok payload)
unfolding pager_laws
pager-round_trip p rowid payload pre post wide fits room range =
    table_leaf-round_trip pager_store p.page_size (pager_laws p.page_size) p.usable_size p rowid
      payload pre post wide fits (omega arith) (refl, wide, room) range
