-- ===== src/Btree/Overflow/RoundTrip.antt =====
-- Cells that are built are parsed and assembled again.
use rustqlite.Base.{
  ℕ, suc, ◌+◌, ◌≤◌, ◌<◌, ◌^◌, ◌≡◌, refl, ap, sym, ◌∙◌, List, [], ◌++◌, length, Option, leb, arith,
  true, length-append, append_assoc,
}
use rustqlite.Base.Int.{ℤ}
use rustqlite.Base.Words.{as_u64, IsI64, as_u64-lt, as_i64-as_u64}
use rustqlite.Base.Bytes.{be_bytes, be_u32-be_bytes, drop-length_append}
use rustqlite.Error.{ok, Message}
use rustqlite.Format.Varint.{read_varint_i64, varint_len}
use rustqlite.Format.Varint.RoundTrip.{
  encoding, write_varint_lem, read_varint-encoding, length-encoding,
}
use rustqlite.Btree.PageStore.{PageStore, IsStore}
use rustqlite.Btree.Cell.{
  TableLeafCell, varint_at, rowid_at, local_payload_len, min_local, table_leaf_max_local,
  parse_table_leaf_cell, parse_table_interior_cell, build_table_interior_cell, local_part,
}
use rustqlite.Btree.Overflow.{
  build_table_leaf_cell, build_table_leaf_cell_with_host, assemble_payload,
}
use rustqlite.Btree.Overflow.Stored.{Stored, stored, local_payload_len-Splits, cell_slice_lem}

pub varint_at_lem :
    (pre : List ℕ) (v : ℕ) (rest : List ℕ) (m1 m2 : Message)
    → v < 2 ^ 64
    → varint_at (pre ++ (encoding v ++ rest)) (length pre) m1 m2 ≡ ok (v, length (encoding v))
unfolding varint_at
varint_at_lem pre v rest m1 m2 h =
    let within : leb (length pre) (length (pre ++ (encoding v ++ rest))) ≡ true =
      ground (arith, length-append pre (encoding v ++ rest)) in
    rw
      (
        within,
        drop-length_append pre (encoding v ++ rest),
        read_varint-encoding v rest h,
        length-encoding v h,
      )
      refl

rowid_at_lem :
    (pre : List ℕ) (i : ℤ) (rest : List ℕ) (m : Message)
    → IsI64 i
    → rowid_at (pre ++ (encoding (as_u64 i) ++ rest)) (length pre) m
      ≡ ok (i, length (encoding (as_u64 i)))
unfolding rowid_at read_varint_i64
rowid_at_lem pre i rest m h =
    rw
      (
        drop-length_append pre (encoding (as_u64 i) ++ rest),
        read_varint-encoding (as_u64 i) rest (as_u64-lt i),
        length-encoding (as_u64 i) (as_u64-lt i),
      )
      (ap (λ k. ok (k, varint_len (as_u64 i))) (as_i64-as_u64 i h))

build_table_interior_cell_lem :
    (left_child : ℕ) (rowid : ℤ)
    → build_table_interior_cell left_child rowid ≡ be_bytes 4 left_child ++ encoding (as_u64 rowid)
unfolding build_table_interior_cell
build_table_interior_cell_lem left_child rowid =
    ap (λ r. r.0) (write_varint_lem (as_u64 rowid) (be_bytes 4 left_child) (as_u64-lt rowid))

-- A table interior cell in a page is parsed as it was built.
pub parse-build_table_interior_cell :
    (pre post : List ℕ) (left_child : ℕ) (rowid : ℤ)
    → left_child < 2 ^ 32
    → IsI64 rowid
    → parse_table_interior_cell
        (pre ++ (build_table_interior_cell left_child rowid ++ post))
        (length pre)
      ≡ ok (record { left_child = left_child; rowid = rowid })
unfolding parse_table_interior_cell
parse-build_table_interior_cell pre post left_child rowid hc hr =
    let e = encoding (as_u64 rowid) in
    let page : pre ++ (be_bytes 4 left_child ++ (e ++ post))
        ≡ (pre ++ be_bytes 4 left_child) ++ (e ++ post) =
      sym (append_assoc pre (be_bytes 4 left_child) (e ++ post)) in
    let row : rowid_at (pre ++ (be_bytes 4 left_child ++ (e ++ post))) (length pre + 4)
          (Message.plain "table interior rowid varint")
        ≡ ok (rowid, length e) =
      rw (page, ← length-append pre (be_bytes 4 left_child))
        (rowid_at_lem (pre ++ be_bytes 4 left_child) rowid post _ hr) in
    rw
      (
        build_table_interior_cell_lem left_child rowid,
        append_assoc (be_bytes 4 left_child) e post,
        cell_slice_lem pre (be_bytes 4 left_child) (e ++ post),
        row,
      )
      (ap (λ k. ok (record { left_child = k; rowid = rowid })) (be_u32-be_bytes left_child hc))

-- The page around the parts of a cell, with the first, the second and the third in front.
pub parts :
    (pre a b body post : List ℕ)
    → (pre ++ (((a ++ b) ++ body) ++ post) ≡ pre ++ (a ++ (b ++ (body ++ post))))
      × (pre ++ (((a ++ b) ++ body) ++ post) ≡ (pre ++ a) ++ (b ++ (body ++ post)))
      × (pre ++ (((a ++ b) ++ body) ++ post) ≡ ((pre ++ a) ++ b) ++ (body ++ post))
parts pre a b body post =
    let first : pre ++ (((a ++ b) ++ body) ++ post) ≡ pre ++ (a ++ (b ++ (body ++ post))) =
      ap (λ t. pre ++ t) (append_assoc (a ++ b) body post ∙ append_assoc a b (body ++ post)) in
    let second = first ∙ sym (append_assoc pre a (b ++ (body ++ post))) in
    (first, second, second ∙ sym (append_assoc (pre ++ a) b (body ++ post)))

parse_table_leaf_cell_lem :
    (page : List ℕ) (offset usable size n1 n2 : ℕ) (rowid : ℤ) (local : List ℕ)
    (overflow : Option ℕ)
    → varint_at page offset
        (Message.plain "cell offset")
        (Message.plain "table leaf payload-size varint")
      ≡ ok (size, n1)
    → rowid_at page (offset + n1) (Message.plain "table leaf rowid varint") ≡ ok (rowid, n2)
    → local_part page
        (offset + n1 + n2)
        (local_payload_len size usable (table_leaf_max_local usable))
      ≡ ok (local, overflow)
    → parse_table_leaf_cell page offset usable
      ≡ ok (record {
        payload_size = size;
        rowid = rowid;
        local_payload = local;
        overflow_page = overflow;
      })
unfolding parse_table_leaf_cell
parse_table_leaf_cell_lem page offset usable size n1 n2 rowid local overflow e1 e2 e3 =
    rw (e1, e2, e3) refl

module _ {P : Type 0} (s : PageStore P) (page_size : ℕ) (laws : IsStore s page_size)
    (usable : ℕ) where
  build_table_leaf_cell_lem :
      (p : P) (rowid : ℤ) (payload : List ℕ)
      → length payload < 2 ^ 64
      → (st : Stored s page_size laws usable p payload
          (local_payload_len (length payload) usable (table_leaf_max_local usable)))
      → build_table_leaf_cell s page_size usable p rowid payload
        ≡ ((encoding (length payload) ++ encoding (as_u64 rowid)) ++ st.body, st.store)
  unfolding build_table_leaf_cell build_table_leaf_cell_with_host table_leaf_max_local
  build_table_leaf_cell_lem p rowid payload h st =
      rw
        (
          write_varint_lem (length payload) [] h,
          write_varint_lem (as_u64 rowid) (encoding (length payload)) (as_u64-lt rowid),
        )
        (st.builds _)

  -- A table-leaf cell that is built for a payload, wherever it stands in a page, is parsed with
  -- the payload's size and the rowid, and its payload is assembled again from the cell and from the
  -- overflow pages that building it wrote.
  pub table_leaf-round_trip :
      (p : P) (rowid : ℤ) (payload pre post : List ℕ)
      → 480 ≤ usable
      → usable ≤ page_size
      → length payload < 2 ^ 64
      → laws.Room p (suc (length payload))
      → IsI64 rowid
      → (cell : TableLeafCell) × (parse_table_leaf_cell
            (pre ++ ((build_table_leaf_cell s page_size usable p rowid payload).0 ++ post))
            (length pre)
            usable
          ≡ ok cell)
        × (cell.payload_size ≡ length payload)
        × (cell.rowid ≡ rowid)
        × (assemble_payload s page_size usable
              (build_table_leaf_cell s page_size usable p rowid payload).1
              cell
            ≡ ok payload)
  unfolding assemble_payload
  table_leaf-round_trip p rowid payload pre post u b h room hr =
      let st =
        stored s page_size laws usable p payload
          (local_payload_len (length payload) usable (table_leaf_max_local usable)) (omega arith) b
          room
          (local_payload_len-Splits (length payload) usable (table_leaf_max_local usable)
            (unfold min_local table_leaf_max_local in omega arith)) in
      let e1 = encoding (length payload) in
      let e2 = encoding (as_u64 rowid) in
      let page = parts pre e1 e2 st.body post in
      let l1 = length-append pre e1 in
      let l2 = length-append (pre ++ e1) e2 in
      rw (build_table_leaf_cell_lem p rowid payload h st) (
        _,
        parse_table_leaf_cell_lem _ (length pre) usable (length payload) (length e1) (length e2)
            rowid st.local st.overflow
            (rw page.0 (varint_at_lem pre (length payload) (e2 ++ (st.body ++ post)) _ _ h))
            (rw (page.1, ← l1) (rowid_at_lem (pre ++ e1) rowid (st.body ++ post) _ hr))
            (rw (page.2, ← l1, ← l2) (st.parses ((pre ++ e1) ++ e2) post)),
        refl,
        refl,
        st.assembles,
      )
