-- ===== src/Pager/Journal/Laws.antt =====
-- What is read back of a journal, and how its checksum depends on the seed.
use rustqlite.Base.{
  ℕ, zero, suc, ◌+◌, ◌-◌, ◌%◌, ◌^◌, ◌<◌, ◌≡◌, refl, ap, sym, ◌∙◌, List, ◌++◌, length, get_or, some,
  ltb, arith, Bool-cases, inl, inr, length-append,
}
use rustqlite.Base.Bytes.{slice, be_bytes, be_u32, be_u32-be_bytes, take-length_append}
use rustqlite.Pager.Journal.{
  cksum_loop, pager_cksum, build_header, build_record, record_len, parse_header,
}

-- The header is one sector, and is parsed with the numbers it was built from.
pub parse_header-build_header :
    (nrec cksum_init db_orig_size page_size : ℕ)
    → nrec < 2 ^ 32
    → cksum_init < 2 ^ 32
    → db_orig_size < 2 ^ 32
    → page_size < 2 ^ 32
    → (length (build_header nrec cksum_init db_orig_size page_size) ≡ 512)
      × (parse_header (build_header nrec cksum_init db_orig_size page_size)
          ≡ some (record {
            nrec = nrec;
            cksum_init = cksum_init;
            db_orig_size = db_orig_size;
            sector = 512;
            page_size = page_size;
          }))
unfolding parse_header build_header
parse_header-build_header nrec cksum_init db_orig_size page_size hn hc hd hp = (
  refl,
  λ i. some (record {
    nrec = be_u32-be_bytes nrec hn i;
    cksum_init = be_u32-be_bytes cksum_init hc i;
    db_orig_size = be_u32-be_bytes db_orig_size hd i;
    sector = 512;
    page_size = be_u32-be_bytes page_size hp i;
  }),
)

cksum_loop_seed :
    (fuel seed more i : ℕ) (page : List ℕ)
    → cksum_loop fuel ((seed + more) % 2 ^ 32) i page
      ≡ (cksum_loop fuel more i page + seed) % 2 ^ 32
unfolding cksum_loop
cksum_loop_seed zero seed more i page = omega arith
cksum_loop_seed (suc fuel) seed more i page = elim (Bool-cases (ltb 0 i)) [
  | inl go ↦
      let b = get_or page i 0 in
      let e : ((seed + more) % 2 ^ 32 + b) % 2 ^ 32 ≡ (seed + (more + b) % 2 ^ 32) % 2 ^ 32 =
        omega arith in
      rw (go, e) (cksum_loop_seed fuel seed ((more + b) % 2 ^ 32) (i - 200) page)
  | inr stop ↦ rw stop (omega arith)
]

-- The seed is added to the sum over the page, modulo 2 ^ 32.
pub pager_cksum_seed :
    (seed : ℕ) (page : List ℕ)
    → seed < 2 ^ 32
    → pager_cksum seed page ≡ (pager_cksum 0 page + seed) % 2 ^ 32
unfolding pager_cksum
pager_cksum_seed seed page h =
    let e : (seed + 0) % 2 ^ 32 ≡ seed = omega arith in
    ap (λ k. cksum_loop (length page) k (length page - 200) page) (sym e)
    ∙ cksum_loop_seed (length page) seed 0 (length page - 200) page

-- A record has the length that `record_len` says, starts with the page number, and goes on with the
-- page.
pub build_record_lem :
    (pgno cksum_init : ℕ) (page : List ℕ)
    → pgno < 2 ^ 32
    → (length (build_record pgno page cksum_init) ≡ record_len (length page))
      × (be_u32 (slice 0 4 (build_record pgno page cksum_init)) ≡ pgno)
      × (slice 4 (4 + length page) (build_record pgno page cksum_init) ≡ page)
unfolding build_record record_len
build_record_lem pgno cksum_init page h =
    let e : 4 + length page - 4 ≡ length page = omega arith in
    (
      omega (
        arith,
        length-append (be_bytes 4 pgno ++ page) (be_bytes 4 (pager_cksum cksum_init page)),
        length-append (be_bytes 4 pgno) page,
      ),
      be_u32-be_bytes pgno h,
      rw e (take-length_append page _),
    )
