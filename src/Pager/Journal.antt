-- ===== src/Pager/Journal.antt =====
-- crates/rustsqlite-core/src/pager/journal.rs: the header and the page records of a rollback journal.
pub mod Laws
use rustqlite.Base.{
  ℕ, zero, suc, ◌+◌, ◌-◌, ◌%◌, ◌^◌, List, [], ◌∷◌, ◌++◌, length, replicate, get_or, Bool, Option,
  none, some, ltb, ◌||◌, not, if◌then◌else◌,
}
use rustqlite.Base.Bytes.{slice, copy_at, be_bytes, be_u32, bytes_eq}

abbrev pub journal_magic : List ℕ
journal_magic = 0xd9 ∷ 0xd5 ∷ 0x05 ∷ 0xf9 ∷ 0x20 ∷ 0xa1 ∷ 0x63 ∷ 0xd7 ∷ []

abbrev pub sector_size : ℕ
sector_size = 512

abbrev pub journal_hdr_sz : ℕ
journal_hdr_sz = sector_size

abbrev pub header_fields_len : ℕ
header_fields_len = 28

-- The loop over every 200th byte, downwards while the index is positive. The index is at most the
-- fuel.
unfoldable pub cksum_loop : ℕ → ℕ → ℕ → List ℕ → ℕ
cksum_loop zero cksum i page = cksum
cksum_loop (suc fuel) cksum i page =
    let rest = cksum_loop fuel ((cksum + get_or page i 0) % 2 ^ 32) (i - 200) page in
    if ltb 0 i then rest else cksum

unfoldable pub pager_cksum : ℕ → List ℕ → ℕ
pager_cksum cksum_init page = cksum_loop (length page) cksum_init (length page - 200) page

unfoldable pub build_header : ℕ → ℕ → ℕ → ℕ → List ℕ
build_header nrec cksum_init db_orig_size page_size =
    let h = replicate journal_hdr_sz 0 in
    let h = copy_at 0 journal_magic h in
    let h = copy_at 8 (be_bytes 4 nrec) h in
    let h = copy_at 12 (be_bytes 4 cksum_init) h in
    let h = copy_at 16 (be_bytes 4 db_orig_size) h in
    let h = copy_at 20 (be_bytes 4 sector_size) h in copy_at 24 (be_bytes 4 page_size) h

unfoldable pub build_record : ℕ → List ℕ → ℕ → List ℕ
build_record pgno page cksum_init =
    (be_bytes 4 pgno ++ page) ++ be_bytes 4 (pager_cksum cksum_init page)

unfoldable pub record_len : ℕ → ℕ
record_len page_size = 4 + page_size + 4

pub record JournalHeader : Type 0 where
  pub nrec : ℕ
  pub cksum_init : ℕ
  pub db_orig_size : ℕ
  pub sector : ℕ
  pub page_size : ℕ

unfoldable pub parse_header : List ℕ → Option JournalHeader
parse_header bytes =
    if ltb (length bytes) header_fields_len || not (bytes_eq (slice 0 8 bytes) journal_magic)
    then none
    else some (record {
      nrec = be_u32 (slice 8 12 bytes);
      cksum_init = be_u32 (slice 12 16 bytes);
      db_orig_size = be_u32 (slice 16 20 bytes);
      sector = be_u32 (slice 20 24 bytes);
      page_size = be_u32 (slice 24 28 bytes);
    })
