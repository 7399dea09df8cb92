-- ===== src/Btree/Cell.antt =====
-- crates/rustsqlite-core/src/btree/cell.rs: the four kinds of cells. `usable` is the usable size of
-- a page, at least 480. Sizes are those of a 64-bit machine.
use rustqlite.Base.{
  ℕ, ◌+◌, ◌-◌, ◌*◌, ◌/◌, ◌%◌, List, length, take, drop, Bool, true, false, Option, none, some, leb,
  if◌then◌else◌,
}
use rustqlite.Base.Int.{ℤ}
use rustqlite.Base.Words.{as_u64}
use rustqlite.Base.Bytes.{be_bytes, be_u32}
use rustqlite.Error.{Result, ok, ◌>>=◌, ◌>>◌, guard, ok_or, Message, corrupt}
use rustqlite.Format.Varint.{read_varint, read_varint_i64, write_varint}

pub record TableLeafCell : Type 0 where
  pub payload_size : ℕ
  pub rowid : ℤ
  pub local_payload : List ℕ
  pub overflow_page : Option ℕ

pub record TableInteriorCell : Type 0 where
  pub left_child : ℕ
  pub rowid : ℤ

pub record IndexLeafCell : Type 0 where
  pub payload_size : ℕ
  pub local_payload : List ℕ
  pub overflow_page : Option ℕ

pub record IndexInteriorCell : Type 0 where
  pub left_child : ℕ
  pub payload_size : ℕ
  pub local_payload : List ℕ
  pub overflow_page : Option ℕ

unfoldable pub min_local : ℕ → ℕ
min_local usable = (usable - 12) * 32 / 255 - 23

unfoldable pub local_payload_len : ℕ → ℕ → ℕ → ℕ × Bool
unfolding min_local
local_payload_len payload usable max_local =
    if leb payload max_local
    then (payload, false)
    else (let surplus = min_local usable + (payload - min_local usable) % (usable - 4) in
        (if leb surplus max_local then surplus else min_local usable, true))

unfoldable pub table_leaf_max_local : ℕ → ℕ
table_leaf_max_local usable = usable - 35

unfoldable pub index_max_local : ℕ → ℕ
index_max_local usable = (usable - 12) * 64 / 255 - 23

-- `page.get(start..start + len)`.
unfoldable pub cell_slice : List ℕ → ℕ → ℕ → Result (List ℕ)
cell_slice page start len = do
  guard (leb (start + len) (length page)) (corrupt (Message.plain "cell extends past end of page"))
  ok (take len (drop start page))

-- The varint behind an offset; `page.get(offset..)` fails behind the end.
unfoldable pub varint_at : List ℕ → ℕ → Message → Message → Result (ℕ × ℕ)
varint_at page offset no_offset no_varint = do
  guard (leb offset (length page)) (corrupt no_offset)
  ok_or (read_varint (drop offset page)) (corrupt no_varint)

unfoldable pub rowid_at : List ℕ → ℕ → Message → Result (ℤ × ℕ)
rowid_at page offset no_varint = ok_or (read_varint_i64 (drop offset page)) (corrupt no_varint)

-- The local bytes from `content` on and, behind them, the first page of the overflow chain.
unfoldable pub local_part : List ℕ → ℕ → ℕ × Bool → Result (List ℕ × Option ℕ)
unfolding cell_slice
local_part page content (local_len, true) = do
  local ← cell_slice page content local_len
  pointer ← cell_slice page (content + local_len) 4
  ok (local, some (be_u32 pointer))
local_part page content (local_len, false) = do
  local ← cell_slice page content local_len
  ok (local, none)

unfoldable pub parse_table_leaf_cell : List ℕ → ℕ → ℕ → Result TableLeafCell
parse_table_leaf_cell page offset usable = do
  size ←
      varint_at page offset (Message.plain "cell offset")
        (Message.plain "table leaf payload-size varint")
  row ← rowid_at page (offset + size.1) (Message.plain "table leaf rowid varint")
  rest ←
      local_part page (offset + size.1 + row.1)
        (local_payload_len size.0 usable (table_leaf_max_local usable))
  ok (record {
    payload_size = size.0;
    rowid = row.0;
    local_payload = rest.0;
    overflow_page = rest.1;
  })

unfoldable pub table_leaf_cell_rowid : List ℕ → ℕ → Result ℤ
table_leaf_cell_rowid page offset = do
  size ←
      varint_at page offset (Message.plain "cell offset")
        (Message.plain "table leaf payload-size varint")
  row ← rowid_at page (offset + size.1) (Message.plain "table leaf rowid varint")
  ok row.0

unfoldable pub build_table_interior_cell : ℕ → ℤ → List ℕ
build_table_interior_cell left_child rowid = (write_varint (as_u64 rowid) (be_bytes 4 left_child)).0

unfoldable pub parse_table_interior_cell : List ℕ → ℕ → Result TableInteriorCell
parse_table_interior_cell page offset = do
  child ← cell_slice page offset 4
  row ← rowid_at page (offset + 4) (Message.plain "table interior rowid varint")
  ok (record { left_child = be_u32 child; rowid = row.0 })

unfoldable pub parse_index_leaf_cell : List ℕ → ℕ → ℕ → Result IndexLeafCell
parse_index_leaf_cell page offset usable = do
  size ←
      varint_at page offset (Message.plain "cell offset")
        (Message.plain "index leaf payload-size varint")
  rest ←
      local_part page (offset + size.1) (local_payload_len size.0 usable (index_max_local usable))
  ok (record { payload_size = size.0; local_payload = rest.0; overflow_page = rest.1 })

unfoldable pub parse_index_interior_cell : List ℕ → ℕ → ℕ → Result IndexInteriorCell
parse_index_interior_cell page offset usable = do
  child ← cell_slice page offset 4
  size ←
      ok_or (read_varint (drop (offset + 4) page))
        (corrupt (Message.plain "index interior payload-size varint"))
  rest ←
      local_part page (offset + 4 + size.1)
        (local_payload_len size.0 usable (index_max_local usable))
  ok (record {
    left_child = be_u32 child;
    payload_size = size.0;
    local_payload = rest.0;
    overflow_page = rest.1;
  })
