-- ===== src/Btree/Ptrmap.antt =====
-- crates/rustqlite-core/src/btree/ptrmap.rs: pointer-map pages.
use rustqlite.Base.{
  ℕ, ◌+◌, ◌-◌, ◌*◌, ◌/◌, ◌%◌, ◌^◌, List, [], ◌∷◌, replicate, get_or, Bool, true, false, not, ◌||◌,
  ◌&&◌, ltb, leb, ◌==◌, if◌then◌else◌,
}
use rustqlite.Base.Bytes.{slice, copy_at, be_bytes, be_u32}
use rustqlite.Error.{Result, ok, err, Message, corrupt}
use rustqlite.Error.Action.{pure, fail, ◌>>=◌}
use rustqlite.Pager.State.{Method}
use rustqlite.Pager.Pages.{get_page, read_page_for_write, write_page}

abbrev pub ptrmap_entry_size : ℕ
ptrmap_entry_size = 5

pub data PtrMapType : Type 0 where
  root_page free_page overflow1 overflow2 btree : PtrMapType

unfoldable pub ptrmap_code : PtrMapType → ℕ
ptrmap_code root_page = 1
ptrmap_code free_page = 2
ptrmap_code overflow1 = 3
ptrmap_code overflow2 = 4
ptrmap_code btree = 5

unfoldable pub ptrmap_from_code : ℕ → Result PtrMapType
ptrmap_from_code c =
    if c == 1
    then ok root_page
    else if c == 2
    then ok free_page
    else if c == 3
    then ok overflow1
    else if c == 4
    then ok overflow2
    else if c == 5
    then ok btree
    else err (corrupt (Message.with_number "invalid ptrmap type " c))

-- The argument is not used.
unfoldable pub pending_byte_page : ℕ → ℕ
pending_byte_page page_size = 0x4000_0000 / 4096 + 1

unfoldable pub is_pending_byte_page : ℕ → ℕ → Bool
is_pending_byte_page usable_size pgno = pgno == pending_byte_page 0

unfoldable pub pages_per_map_page : ℕ → ℕ
pages_per_map_page usable_size = usable_size / ptrmap_entry_size + 1

unfoldable pub ptrmap_pageno : ℕ → ℕ → ℕ
ptrmap_pageno usable_size pgno =
    let npp = pages_per_map_page usable_size in
    let i = (pgno - 2) / npp in
    let ret = i * npp + 2 in
    if ltb pgno 2 then 0 else if ret == pending_byte_page 0 then ret + 1 else ret

unfoldable pub is_ptrmap_page : ℕ → ℕ → Bool
is_ptrmap_page usable_size pgno = leb 2 pgno && ptrmap_pageno usable_size pgno == pgno

unfoldable pub is_reserved_page : ℕ → ℕ → Bool
is_reserved_page usable_size pgno =
    is_ptrmap_page usable_size pgno || is_pending_byte_page usable_size pgno

-- In `u32`, where the differences wrap.
unfoldable pub ptrmap_offset : ℕ → ℕ → ℕ
ptrmap_offset ptrmap_pgno pgno =
    ptrmap_entry_size * ((pgno + 2 ^ 33 - ptrmap_pgno - 1) % 2 ^ 32) % 2 ^ 32

abbrev pub entry_parent : List ℕ → ℕ → ℕ
entry_parent page off = be_u32 (slice (off + 1) (off + 5) page)

unfoldable pub ptrmap_get : ℕ → Method (PtrMapType × ℕ)
ptrmap_get pgno p =
    let pm = ptrmap_pageno p.usable_size pgno in
    let off = ptrmap_offset pm pgno in
    let found : Method (PtrMapType × ℕ) = get_page pm >>= λ page.
    if ltb p.usable_size (off + ptrmap_entry_size)
    then fail (corrupt (Message.with_number "ptrmap_get: offset out of range " off))
    else entry (ptrmap_from_code (get_or page off 0)) (entry_parent page off) in
    if pm == 0
    then fail (corrupt (Message.with_number "ptrmap_get: page has no ptrmap " pgno)) p
    else found p
  where
    entry : Result PtrMapType → ℕ → Method (PtrMapType × ℕ)
    entry (ok ty) parent = pure (ty, parent)
    entry (err e) parent = fail e

-- Whether the entry has to be written, from what `get_page` returned; an entry out of range is an
-- error.
unfoldable pub needs_write : Result (List ℕ) → ℕ → ℕ → PtrMapType → ℕ → Result Bool
needs_write (err e) usable off ty parent = ok true
needs_write (ok page) usable off ty parent =
    if ltb usable (off + ptrmap_entry_size)
    then err (corrupt (Message.with_number "ptrmap_put: offset out of range " off))
    else ok (not (get_or page off 0 == ptrmap_code ty) || not (entry_parent page off == parent))

unfoldable pub write_entry : ℕ → ℕ → PtrMapType → ℕ → Method (Unit {0})
write_entry pm off ty parent = do
  page ← read_page_for_write pm
  write_page pm (copy_at (off + 1) (be_bytes 4 parent) (copy_at off (ptrmap_code ty ∷ []) page))

abbrev pub put_when : Result Bool → ℕ → ℕ → PtrMapType → ℕ → Method (Unit {0})
put_when (err e) pm off ty parent = fail e
put_when (ok false) pm off ty parent = pure tt
put_when (ok true) pm off ty parent = write_entry pm off ty parent

unfoldable pub ptrmap_put : ℕ → PtrMapType → ℕ → Method (Unit {0})
ptrmap_put pgno ty parent p =
    let pm = ptrmap_pageno p.usable_size pgno in
    let off = ptrmap_offset pm pgno in
    let r = get_page pm p in
    if pm == 0
    then fail (corrupt (Message.with_number "ptrmap_put: page has no ptrmap " pgno)) p
    else put_when (needs_write r.1 p.usable_size off ty parent) pm off ty parent r.0

unfoldable pub init_ptrmap_page : ℕ → Method (Unit {0})
init_ptrmap_page pgno p =
    let zeroed : Method (Unit {0}) = read_page_for_write pgno >>= λ page.
    write_page pgno (copy_at 0 (replicate p.usable_size 0) page) in
    zeroed p
