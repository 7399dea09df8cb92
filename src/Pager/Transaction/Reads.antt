-- ===== src/Pager/Transaction/Reads.antt =====
-- What a page reads as: the changes that are pending, over the file.
use rustqlite.Base.{
  ℕ, ◌≡◌, inl, inr, refl, ap, sym, ◌∙◌, List, [], ◌∷◌, length, true, not, ◌||◌, ◌&&◌, Option, none,
  some, ltb, ◌==◌, if◌then◌else◌, arith, Bool-cases,
}
use rustqlite.Base.Map.{Map, lookup, insert, lookup-insert}
use rustqlite.Error.{Result, ok, err, corrupt, Message}
use rustqlite.Pager.State.{Pager, overlay, or_else, with_state}
use rustqlite.Pager.Pages.{fetch_page, cached_or, get_page, write_page}
use rustqlite.Pager.Transaction.{read_of, IsClean}

-- A page of the file, or the error of a short read.
unfoldable pub file_page : List ℕ → ℕ → ℕ → Result (List ℕ)
file_page file page_size pgno =
    let r = read_of file page_size pgno in
    if ltb r.0 page_size
    then err (
        corrupt (Message.with_numbers "short read for page, got, of" (pgno ∷ r.0 ∷ page_size ∷ [])))
    else ok r.1

abbrev pub dirty_or : Option (List ℕ) → Result (List ℕ) → Result (List ℕ)
dirty_or (some page) r = ok page
dirty_or none r = r

-- The pages of a database of `count` pages, with the changes `dirty`, as they are read.
unfoldable pub page_view : List ℕ → ℕ → ℕ → Map (List ℕ) → ℕ → Result (List ℕ)
page_view file page_size count dirty pgno =
    if pgno == 0 || ltb count pgno
    then err (corrupt (Message.with_numbers "page out of range, page count" (pgno ∷ count ∷ [])))
    else dirty_or (lookup pgno dirty) (file_page file page_size pgno)

cached_or_view :
    (p : Pager) (pgno : ℕ) (dirty cached : Option (List ℕ))
    → lookup pgno p.state.cache ≡ cached
    → IsClean p.disk.database p.page_size p.state.cache
    → (cached_or (or_else dirty cached) pgno p).1
      ≡ dirty_or dirty (file_page p.disk.database p.page_size pgno)
unfolding file_page fetch_page
cached_or_view p pgno (some page) cached found clean = refl
cached_or_view p pgno none (some page) found clean =
    let c = clean pgno page found in rw (c.1) (ap ok (sym c.0))
cached_or_view p pgno none none missing clean =
    elim (Bool-cases (ltb (read_of p.disk.database p.page_size pgno).0 p.page_size)) [
      | inl short ↦ rw short refl
      | inr whole ↦ rw whole refl
    ]

-- While the cache has copies of pages of the file, `get_page` returns the changed page, or else the
-- page of the file.
pub get_page_view :
    (p : Pager) (pgno : ℕ)
    → IsClean p.disk.database p.page_size p.state.cache
    → (get_page pgno p).1
      ≡ page_view p.disk.database p.page_size p.state.page_count p.state.dirty pgno
unfolding get_page page_view overlay
get_page_view p pgno clean = elim (Bool-cases (pgno == 0 || ltb p.state.page_count pgno)) [
  | inl out ↦ rw out refl
  | inr within ↦
      rw within
        (cached_or_view p pgno (lookup pgno p.state.dirty) (lookup pgno p.state.cache) refl clean)
]

pub IsClean-eq :
    (file file' : List ℕ) (page_size page_size' : ℕ) (cache : Map (List ℕ))
    → file ≡ file'
    → page_size ≡ page_size'
    → IsClean file' page_size' cache
    → IsClean file page_size cache
IsClean-eq file file' n n' cache e f clean = rw (e, f) clean

page_view-insert :
    (file : List ℕ) (page_size count pgno : ℕ) (bytes : List ℕ) (dirty : Map (List ℕ)) (n : ℕ)
    → page_view file page_size count (insert pgno bytes dirty) n ≡ (
        if n == pgno && not (n == 0 || ltb count n)
        then ok bytes
        else page_view file page_size count dirty n)
unfolding page_view
page_view-insert file page_size count pgno bytes dirty n =
    elim (Bool-cases (n == 0 || ltb count n)) [
      | inl out ↦ elim (Bool-cases (n == pgno)) [
        | inl here ↦ rw (out, here) refl
        | inr other ↦ rw (out, other) refl
      ]
      | inr within ↦ elim (Bool-cases (n == pgno)) [
        | inl here ↦ rw (within, lookup-insert pgno bytes dirty n, here) refl
        | inr other ↦ rw (within, lookup-insert pgno bytes dirty n, other) refl
      ]
    ]

-- A page that was written reads as it was written, within the page count, and every other page reads
-- as before; a page of another length is refused and changes nothing.
pub get_page-write_page :
    (p : Pager) (pgno : ℕ) (bytes : List ℕ)
    → IsClean p.disk.database p.page_size p.state.cache
    → length bytes ≡ p.page_size
    → (n : ℕ)
    → (get_page n (write_page pgno bytes p).0).1 ≡ (
        if n == pgno && not (n == 0 || ltb p.state.page_count n)
        then ok bytes
        else (get_page n p).1)
unfolding write_page
get_page-write_page p pgno bytes clean len n =
    let fits : (length bytes == p.page_size) ≡ true = ground (arith, len) in
    let new : Pager = with_state (λ st. record st { dirty = insert pgno bytes st.dirty }) p in
    rw fits (
      get_page_view new n clean
      ∙ page_view-insert p.disk.database p.page_size p.state.page_count pgno bytes p.state.dirty n
      ∙ ap (λ r. if n == pgno && not (n == 0 || ltb p.state.page_count n) then ok bytes else r)
          (sym (get_page_view p n clean)))
