-- ===== src/Pager/Freelist.antt =====
-- crates/rustqlite-core/src/pager/mod.rs: allocating pages, from the freelist or behind the last
-- page, and freeing them.
pub mod Extend
use rustqlite.Base.{
  ℕ, zero, suc, ◌+◌, ◌-◌, ◌*◌, ◌%◌, ◌^◌, List, [], ◌∷◌, ◌++◌, length, replicate, Bool, true, false,
  not, ◌||◌, ◌&&◌, Option, none, some, ltb, leb, ◌==◌, if◌then◌else◌,
}
use rustqlite.Base.Bytes.{slice, copy_at, be_bytes, be_u32}
use rustqlite.Base.Map.{insert}
use rustqlite.Error.{Result, ok, err}
use rustqlite.Error.Action.{pure, fail, fetch, modify, ◌>>=◌, ◌>>◌}
use rustqlite.Format.Header.{DbHeader}
use rustqlite.Btree.Ptrmap.{
  is_pending_byte_page, is_ptrmap_page, ptrmap_put, PtrMapType, ptrmap_code,
}
use rustqlite.Pager.State.{PagerState, Pager, Method, with_state}
use rustqlite.Pager.Pages.{get_page, journal_page, write_page, with_header_mut}

-- `auto_vacuum`.
unfoldable pub auto_vacuum : Pager → Bool
auto_vacuum p = not (p.state.header.largest_root_page == 0)

abbrev pub set_dirty : ℕ → List ℕ → Pager → Pager
set_dirty pgno bytes = with_state (λ st. record st { dirty = insert pgno bytes st.dirty })

abbrev pub zero_page : ℕ → Pager → Pager
zero_page pgno p = set_dirty pgno (replicate p.page_size 0) p

-- `unwrap_or_else` a page of zeros.
abbrev pub or_zeros : ℕ → Result (List ℕ) → List ℕ
or_zeros page_size (ok page) = page
or_zeros page_size (err e) = replicate page_size 0

-- What the trunk page says: the page to use, the head that is left, and whether the trunk page is
-- rewritten. `none` where its leaf count reaches behind the page, which is a panic.
abbrev pub pop_trunk : ℕ → List ℕ → Option (ℕ × ℕ × Bool)
pop_trunk first_trunk trunk =
    let k = be_u32 (slice 4 8 trunk) in
    let leaf_offset = 4 + k * 4 in
    if k == 0
    then some (first_trunk, be_u32 (slice 0 4 trunk), false)
    else if ltb (length trunk) (leaf_offset + 4)
    then none
    else some (be_u32 (slice leaf_offset (leaf_offset + 4) trunk), first_trunk, true)

abbrev pub shorter_trunk : List ℕ → List ℕ
shorter_trunk trunk = copy_at 4 (be_bytes 4 (be_u32 (slice 4 8 trunk) - 1)) trunk

-- The header is updated, and a page of zeros installed.
abbrev pub take_page : ℕ → ℕ → ℕ → Pager → ℕ × Pager
take_page first_trunk pgno new_first_trunk p =
    let new_count = p.state.header.freelist_count - 1 in
    let used =
      with_header_mut
        (λ h. record h { first_freelist_trunk = new_first_trunk; freelist_count = new_count }) p in
    let popped = with_header_mut (λ h. record h { freelist_count = new_count }) p in
    (pgno, zero_page pgno (if pgno == first_trunk then used else popped))

abbrev pub pop_page : ℕ → List ℕ → Option (ℕ × ℕ × Bool) → Pager → Option (ℕ × Pager)
pop_page first_trunk trunk none p = none
pop_page first_trunk trunk (some (pgno, head, rewrites)) p =
    let p' = if rewrites then (write_page first_trunk (shorter_trunk trunk) p).0 else p in
    some (take_page first_trunk pgno head p')

-- `allocate_from_freelist_async`.
unfoldable pub allocate_from_freelist : ℕ → Pager → Option (ℕ × Pager)
allocate_from_freelist first_trunk p =
    let r = get_page first_trunk p in
    let trunk = or_zeros p.page_size r.1 in
    pop_page first_trunk trunk (pop_trunk first_trunk trunk) r.0

-- The loop that extends the file, 0 when the fuel is out. The count is a `u32`, whose overflow is left
-- out: `Extend` is about databases with room for three more pages.
unfoldable pub extend : ℕ → Pager → ℕ × Pager
extend zero p = (0, p)
extend (suc fuel) p =
    let pgno = p.state.page_count + 1 in
    let p' = zero_page pgno (with_state (λ st. record st { page_count = pgno }) p) in
    let more = extend fuel p' in
    if is_pending_byte_page p.usable_size pgno
      || (not (p.state.header.largest_root_page == 0) && is_ptrmap_page p.usable_size pgno)
    then more
    else (pgno, p')

-- Two pages in a row at most are skipped.
unfoldable pub allocate_page : Pager → Option (ℕ × Pager)
allocate_page p =
    if ltb 0 p.state.header.freelist_count && not (p.state.header.first_freelist_trunk == 0)
    then allocate_from_freelist p.state.header.first_freelist_trunk p
    else some (extend 3 p)

abbrev pub record_free : ℕ → Method (Unit {0})
record_free pgno p = if auto_vacuum p then ptrmap_put pgno PtrMapType.free_page 0 p else pure tt p

-- The page becomes the first trunk, without leaves, in the overlay and the header.
unfoldable pub link_trunk : ℕ → List ℕ → Method (Unit {0})
link_trunk pgno preimage p =
    let prev_first = p.state.header.first_freelist_trunk in
    let linked : Method (Unit {0}) =
      write_page pgno (be_bytes 4 prev_first ++ replicate (length preimage - 4) 0)
      >> modify (
          with_header_mut (λ h. record h {
            first_freelist_trunk = pgno;
            freelist_count = (h.freelist_count + 1) % 2 ^ 32;
          }))
      >> record_free pgno in
    linked p

unfoldable pub free_page : ℕ → Method (Unit {0})
free_page pgno = do preimage ← get_page pgno; journal_page pgno preimage; link_trunk pgno preimage
