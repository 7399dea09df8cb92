-- ===== src/Pager/Pages.antt =====
-- crates/rustqlite-core/src/pager/mod.rs: reading pages through the overlay and the cache, the
-- pre-images in the journal, and writing pages into the overlay.
use rustqlite.Base.{
  ℕ, ◌+◌, ◌-◌, ◌*◌, List, [], ◌∷◌, length, replicate, not, ◌||◌, Option, none, some, ltb, ◌==◌,
  if◌then◌else◌,
}
use rustqlite.Base.Map.{insert, contains, retain_upto}
use rustqlite.Error.{Message, corrupt}
use rustqlite.Error.Action.{pure, fail, ◌>>=◌, ◌>>◌}
use rustqlite.Format.Header.{DbHeader}
use rustqlite.Vfs.MemFile.{read_at, write_at}
use rustqlite.Pager.Journal.{record_len, build_record}
use rustqlite.Pager.Recovery.{Disk}
use rustqlite.Pager.State.{WriteTxn, Pager, Method, overlay, with_state}

-- `?` on what `read_at` counts: a page is read whole, and kept.
unfoldable pub fetch_page : ℕ → Method (List ℕ)
fetch_page pgno p =
    let r = read_at p.disk.database ((pgno - 1) * p.page_size) (replicate p.page_size 0) in
    if ltb r.0 p.page_size
    then fail
        (corrupt
          (Message.with_numbers "short read for page, got, of" (pgno ∷ r.0 ∷ p.page_size ∷ [])))
        p
    else pure r.1 (with_state (λ st. record st { cache = insert pgno r.1 st.cache }) p)

abbrev pub cached_or : Option (List ℕ) → ℕ → Method (List ℕ)
cached_or (some page) pgno p = pure page p
cached_or none pgno p = fetch_page pgno p

unfoldable pub get_page : ℕ → Method (List ℕ)
get_page pgno p =
    if pgno == 0 || ltb p.state.page_count pgno
    then fail
        (corrupt
          (Message.with_numbers "page out of range, page count" (pgno ∷ p.state.page_count ∷ [])))
        p
    else cached_or (overlay p.state pgno) pgno p

-- `jfile.write_at` on the journal that is open.
abbrev pub write_journal : ℕ → List ℕ → Disk → Disk
write_journal off bytes d = record d { journal = written d.journal }
  where
    written : Option (List ℕ) → Option (List ℕ)
    written none = none
    written (some file) = some (write_at file off bytes)

-- The record's slot, then the record.
unfoldable pub append_record : WriteTxn → ℕ → List ℕ → Pager → Pager
append_record t pgno preimage p =
    let t' = record t {
      journaled = pgno ∷ t.journaled;
      nrec = t.nrec + 1;
      journal_off = t.journal_off + record_len p.page_size;
    } in
    record p {
      txn = some t';
      disk = write_journal t.journal_off (build_record pgno preimage t.cksum_init) p.disk;
    }

abbrev pub journal_in : Option WriteTxn → ℕ → List ℕ → Pager → Pager
journal_in none pgno preimage p = p
journal_in (some t) pgno preimage p =
    if ltb t.db_orig_size pgno || contains pgno t.journaled
    then p
    else append_record t pgno preimage p

unfoldable pub journal_page : ℕ → List ℕ → Method (Unit {0})
journal_page pgno preimage p = pure tt (journal_in p.txn pgno preimage p)

unfoldable pub read_page_for_write : ℕ → Method (List ℕ)
read_page_for_write pgno = do page ← get_page pgno; journal_page pgno page; pure page

unfoldable pub write_page : ℕ → List ℕ → Method (Unit {0})
write_page pgno bytes p =
    if not (length bytes == p.page_size)
    then fail
        (corrupt (
          Message.with_numbers "write_page: page, bytes, expected"
            (pgno ∷ length bytes ∷ p.page_size ∷ [])))
        p
    else pure tt (with_state (λ st. record st { dirty = insert pgno bytes st.dirty }) p)

unfoldable pub with_header_mut : (DbHeader → DbHeader) → Pager → Pager
with_header_mut f = with_state (λ st. record st { header = f st.header })

unfoldable pub truncate_image : ℕ → Pager → Pager
truncate_image n_fin = with_state (λ st. record st {
  cache = retain_upto n_fin st.cache;
  dirty = retain_upto n_fin st.dirty;
  page_count = n_fin;
})
