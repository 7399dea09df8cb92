-- ===== src/Tests/Cells.antt =====
-- Cells of b-tree pages, over a store of pages that numbers them in turn.
use rustqlite.Base.{
  ℕ, ◌+◌, ◌≤◌, ◌^◌, ◌≡◌, refl, List, [], ◌∷◌, ◌++◌, length, replicate, ◌==◌, if◌then◌else◌, arith,
}
use rustqlite.Base.Int.{negsuc}
use rustqlite.Error.{Result, ok, err, corrupt, Message}
use rustqlite.Btree.PageStore.{PageStore, IsStore}
use rustqlite.Btree.Cell.{
  TableLeafCell, IndexLeafCell, parse_table_leaf_cell, parse_index_leaf_cell,
}
use rustqlite.Btree.Overflow.{
  build_table_leaf_cell, build_index_leaf_cell, assemble_payload, assemble_index_payload,
}
use rustqlite.Btree.Overflow.RoundTrip.{table_leaf-round_trip}
use rustqlite.Btree.Overflow.IndexRoundTrip.{index_leaf-round_trip}

-- The number of the next page, and the pages.
abbrev Pages : Type 0
Pages = ℕ × (ℕ → Result (List ℕ))

abbrev counting : PageStore Pages
counting = record {
  allocate_page = λ p. (p.0, (p.0 + 1, λ n. p.1 n));
  write_page = λ p n b. (p.0, λ m. if m == n then ok b else p.1 m);
  get_page = λ p n. p.1 n;
}

abbrev counting_laws : IsStore counting 512
counting_laws = record {
  IsFree = λ p n. p.0 ≤ n;
  Room = λ p n. (1 ≤ p.0) × (p.0 + n ≤ 2 ^ 32);
  room_less = λ p m n r l. omega arith;
  room_allocate = λ p n r. omega arith;
  room_write = λ p n m b r. r;
  number = λ p n r. omega arith;
  small = λ p n r. omega arith;
  was_free = λ p n r. omega arith;
  taken = λ p n r. omega arith;
  allocate_keeps = λ p n f. omega arith;
  write_keeps = λ p n m b f. f;
  get_written = λ p n k b r f z l. ground arith;
  get_other = λ p n m b d. ground arith;
  get_allocated = λ p m f z. refl;
}

abbrev empty : Pages
empty = (3, λ n. err (corrupt (Message.plain "no page")))

-- A payload that takes two overflow pages of 512 bytes.
abbrev large : List ℕ
large = replicate 1200 65

length-large : length large ≡ 1200
length-large = refl

table_leaf-round_trip_example :
    (cell : TableLeafCell) × (parse_table_leaf_cell
        ((9 ∷ []) ++ ((build_table_leaf_cell counting 512 512 empty (negsuc 4) large).0 ++ []))
        1
        512
      ≡ ok cell)
    × (cell.payload_size ≡ length large)
    × (cell.rowid ≡ negsuc 4)
    × (assemble_payload counting 512 512
          (build_table_leaf_cell counting 512 512 empty (negsuc 4) large).1
          cell
        ≡ ok large)
table_leaf-round_trip_example =
    table_leaf-round_trip counting 512 counting_laws 512 empty (negsuc 4) large (9 ∷ []) []
      (omega arith) (omega arith) (omega (arith, length-large)) (omega (arith, length-large))
      (omega arith)

index_leaf-round_trip_example :
    (cell : IndexLeafCell) × (parse_index_leaf_cell
        ((9 ∷ []) ++ ((build_index_leaf_cell counting 512 512 empty large).0 ++ []))
        1
        512
      ≡ ok cell)
    × (cell.payload_size ≡ length large)
    × (assemble_index_payload counting 512 512
          (build_index_leaf_cell counting 512 512 empty large).1
          cell
        ≡ ok large)
index_leaf-round_trip_example =
    index_leaf-round_trip counting 512 counting_laws 512 empty large (9 ∷ []) [] (omega arith)
      (omega arith) (omega (arith, length-large)) (omega (arith, length-large))
