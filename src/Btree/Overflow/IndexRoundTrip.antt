-- ===== src/Btree/Overflow/IndexRoundTrip.antt =====
-- Index cells that are built are parsed and assembled again.
use rustqlite.Base.{
  ℕ, suc, ◌+◌, ◌≤◌, ◌<◌, ◌^◌, ◌≡◌, refl, ap, sym, List, [], ◌++◌, length, drop, Option, arith,
  length-append, append_assoc,
}
use rustqlite.Base.Bytes.{be_bytes, be_u32-be_bytes, drop-length_append}
use rustqlite.Error.{ok, ok_or, Message, corrupt}
use rustqlite.Format.Varint.{read_varint}
use rustqlite.Format.Varint.RoundTrip.{
  encoding, write_varint_lem, read_varint-encoding, length-encoding,
}
use rustqlite.Btree.PageStore.{PageStore, IsStore}
use rustqlite.Btree.Cell.{
  IndexLeafCell, IndexInteriorCell, varint_at, cell_slice, local_payload_len, min_local,
  index_max_local, parse_index_leaf_cell, parse_index_interior_cell, local_part,
}
use rustqlite.Btree.Overflow.{
  build_index_leaf_cell, build_index_leaf_cell_with_host, build_index_interior_cell,
  assemble_index_payload, assemble_index_interior_payload,
}
use rustqlite.Btree.Overflow.Stored.{Stored, stored, local_payload_len-Splits, cell_slice_lem}
use rustqlite.Btree.Overflow.RoundTrip.{varint_at_lem, parts}

parse_index_leaf_cell_lem :
    (page : List ℕ) (offset usable size n1 : ℕ) (local : List ℕ) (overflow : Option ℕ)
    → varint_at page offset
        (Message.plain "cell offset")
        (Message.plain "index leaf payload-size varint")
      ≡ ok (size, n1)
    → local_part page (offset + n1) (local_payload_len size usable (index_max_local usable))
      ≡ ok (local, overflow)
    → parse_index_leaf_cell page offset usable
      ≡ ok (record { payload_size = size; local_payload = local; overflow_page = overflow })
unfolding parse_index_leaf_cell
parse_index_leaf_cell_lem page offset usable size n1 local overflow e1 e2 = rw (e1, e2) refl

parse_index_interior_cell_lem :
    (page : List ℕ) (offset usable left_child size n1 : ℕ) (local : List ℕ) (overflow : Option ℕ)
    → left_child < 2 ^ 32
    → cell_slice page offset 4 ≡ ok (be_bytes 4 left_child)
    → ok_or
        (read_varint (drop (offset + 4) page))
        (corrupt (Message.plain "index interior payload-size varint"))
      ≡ ok (size, n1)
    → local_part page (offset + 4 + n1) (local_payload_len size usable (index_max_local usable))
      ≡ ok (local, overflow)
    → parse_index_interior_cell page offset usable
      ≡ ok (record {
        left_child = left_child;
        payload_size = size;
        local_payload = local;
        overflow_page = overflow;
      })
unfolding parse_index_interior_cell
parse_index_interior_cell_lem page offset usable left_child size n1 local overflow h e1 e2 e3 =
    rw (e1, e2, e3)
      (ap
        (λ k. ok (record {
          left_child = k;
          payload_size = size;
          local_payload = local;
          overflow_page = overflow;
        }))
        (be_u32-be_bytes left_child h))

module _ {P : Type 0} (s : PageStore P) (page_size : ℕ) (laws : IsStore s page_size)
    (usable : ℕ) where
  abbrev IndexStored : P → List ℕ → Type 0
  IndexStored p payload =
      Stored s page_size laws usable p payload
        (local_payload_len (length payload) usable (index_max_local usable))

  index_stored :
      (p : P) (payload : List ℕ)
      → 480 ≤ usable
      → usable ≤ page_size
      → laws.Room p (suc (length payload))
      → IndexStored p payload
  index_stored p payload u b room =
      stored s page_size laws usable p payload
        (local_payload_len (length payload) usable (index_max_local usable)) (omega arith) b room
        (local_payload_len-Splits (length payload) usable (index_max_local usable)
          (unfold min_local index_max_local in omega arith))

  build_index_leaf_cell_lem :
      (p : P) (payload : List ℕ)
      → length payload < 2 ^ 64
      → (st : IndexStored p payload)
      → build_index_leaf_cell s page_size usable p payload
        ≡ (encoding (length payload) ++ st.body, st.store)
  unfolding build_index_leaf_cell build_index_leaf_cell_with_host
  build_index_leaf_cell_lem p payload h st =
      rw (write_varint_lem (length payload) [] h) (st.builds _)

  build_index_interior_cell_lem :
      (p : P) (left_child : ℕ) (payload : List ℕ)
      → length payload < 2 ^ 64
      → (st : IndexStored p payload)
      → build_index_interior_cell s page_size usable p left_child payload
        ≡ ((be_bytes 4 left_child ++ encoding (length payload)) ++ st.body, st.store)
  unfolding build_index_interior_cell
  build_index_interior_cell_lem p left_child payload h st =
      rw (write_varint_lem (length payload) (be_bytes 4 left_child) h) (st.builds _)

  -- An index-leaf cell that is built for a key record is parsed with the record's size, and the
  -- record is assembled again from the cell and its overflow pages.
  pub index_leaf-round_trip :
      (p : P) (payload pre post : List ℕ)
      → 480 ≤ usable
      → usable ≤ page_size
      → length payload < 2 ^ 64
      → laws.Room p (suc (length payload))
      → (cell : IndexLeafCell) × (parse_index_leaf_cell
            (pre ++ ((build_index_leaf_cell s page_size usable p payload).0 ++ post))
            (length pre)
            usable
          ≡ ok cell)
        × (cell.payload_size ≡ length payload)
        × (assemble_index_payload s page_size usable
              (build_index_leaf_cell s page_size usable p payload).1
              cell
            ≡ ok payload)
  unfolding assemble_index_payload
  index_leaf-round_trip p payload pre post u b h room =
      let st : IndexStored p payload = index_stored p payload u b room in
      let e1 = encoding (length payload) in
      let page : pre ++ ((e1 ++ st.body) ++ post) ≡ pre ++ (e1 ++ (st.body ++ post)) =
        ap (λ t. pre ++ t) (append_assoc e1 st.body post) in
      let behind = sym (append_assoc pre e1 (st.body ++ post)) in
      let l1 = length-append pre e1 in
      rw (build_index_leaf_cell_lem p payload h st, page)
        (
          _,
          parse_index_leaf_cell_lem _ (length pre) usable (length payload) (length e1) st.local
              st.overflow (varint_at_lem pre (length payload) (st.body ++ post) _ _ h)
              (rw (behind, ← l1) (st.parses (pre ++ e1) post)),
          refl,
          st.assembles,
        )

  -- An index-interior cell is parsed with its left child and the size of its key record, and the
  -- record is assembled again from the cell and its overflow pages.
  pub index_interior-round_trip :
      (p : P) (left_child : ℕ) (payload pre post : List ℕ)
      → 480 ≤ usable
      → usable ≤ page_size
      → length payload < 2 ^ 64
      → laws.Room p (suc (length payload))
      → left_child < 2 ^ 32
      → (cell : IndexInteriorCell) × (parse_index_interior_cell
            (pre ++ ((build_index_interior_cell s page_size usable p left_child payload).0 ++ post))
            (length pre)
            usable
          ≡ ok cell)
        × (cell.left_child ≡ left_child)
        × (cell.payload_size ≡ length payload)
        × (assemble_index_interior_payload s page_size usable
              (build_index_interior_cell s page_size usable p left_child payload).1
              cell
            ≡ ok payload)
  unfolding assemble_index_interior_payload
  index_interior-round_trip p left_child payload pre post u b h room hc =
      let st : IndexStored p payload = index_stored p payload u b room in
      let c = be_bytes 4 left_child in
      let e1 = encoding (length payload) in
      let page = parts pre c e1 st.body post in
      let l1 = length-append pre c in
      let l2 = length-append (pre ++ c) e1 in
      let size : ok_or
            (read_varint (drop (length pre + 4) ((pre ++ c) ++ (e1 ++ (st.body ++ post)))))
            (corrupt (Message.plain "index interior payload-size varint"))
          ≡ ok (length payload, length e1) =
        rw
          (
            ← l1,
            drop-length_append (pre ++ c) (e1 ++ (st.body ++ post)),
            read_varint-encoding (length payload) (st.body ++ post) h,
            length-encoding (length payload) h,
          )
          refl in
      rw (build_index_interior_cell_lem p left_child payload h st) (
        _,
        parse_index_interior_cell_lem _ (length pre) usable left_child (length payload) (length e1)
            st.local st.overflow hc (rw page.0 (cell_slice_lem pre c (e1 ++ (st.body ++ post))))
            (rw page.1 size) (rw (page.2, ← l1, ← l2) (st.parses ((pre ++ c) ++ e1) post)),
        refl,
        refl,
        st.assembles,
      )
