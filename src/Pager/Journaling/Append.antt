-- ===== src/Pager/Journaling/Append.antt =====
-- `journal_page` appends the pre-image of a page that has none in the journal.
use rustqlite.Base.{
  ℕ, ◌+◌, ◌≤◌, ◌≡◌, ◌≢◌, inl, inr, refl, ap, sym, ◌∙◌, List, [], ◌∷◌, ◌++◌, length, true, false,
  some, ltb, arith, Bool-cases, length-append, append_assoc,
}
use rustqlite.Base.Bytes.{All, All-append, be_bytes}
use rustqlite.Base.Map.{Map, contains}
use rustqlite.Vfs.MemFile.{write_at}
use rustqlite.Pager.State.{WriteTxn, Pager}
use rustqlite.Pager.Pages.{write_journal, append_record, journal_in, journal_page}
use rustqlite.Pager.Journal.{build_header, build_record, record_len, journal_hdr_sz, pager_cksum}
use rustqlite.Pager.Recovery.Replay.{Image, records, IsImage}
use rustqlite.Pager.Recovery.Restore.{IsPreImage}
use rustqlite.Pager.Journaling.{page_numbers, IsSafe, IsSafeSavepoint, IsTxnOf}
use rustqlite.Pager.Journaling.Images.{records-append, contains-append, write_at_end}
use rustqlite.Pager.Journaling.Reads.{Journaled, IsRead}

length-build_header :
    (nrec seed orig page_size : ℕ) → length (build_header nrec seed orig page_size) ≡ 512
unfolding build_header
length-build_header nrec seed orig page_size = refl

length-build_record :
    (pgno seed : ℕ) (page : List ℕ)
    → length (build_record pgno page seed) ≡ record_len (length page)
unfolding build_record record_len
length-build_record pgno seed page = omega (
  arith,
  length-append (be_bytes 4 pgno ++ page) (be_bytes 4 (pager_cksum seed page)),
  length-append (be_bytes 4 pgno) page,
)

pub All-weaken {ℓ κ μ} :
    {A : Type ℓ} (P : A → Type κ) (Q : A → Type μ)
    → ((x : A) → P x → Q x)
    → (xs : List A) → All P xs
    → All Q xs
All-weaken P Q f [] h = tt
All-weaken P Q f (x ∷ xs) h = (f x h.0, All-weaken P Q f xs h.1)

-- The journal file that has grown by a record.
grown_journal :
    (seed orig page_size off pgno : ℕ) (images : List Image) (page : List ℕ)
    → off ≡ journal_hdr_sz + length (records seed images)
    → write_at
        (build_header 0 seed orig page_size ++ records seed images)
        off
        (build_record pgno page seed)
      ≡ build_header 0 seed orig page_size ++ records seed (images ++ (pgno, page) ∷ [])
grown_journal seed orig page_size off pgno images page at_end =
    let head = build_header 0 seed orig page_size in
    let here : off ≡ length (head ++ records seed images) = omega (
      arith,
      at_end,
      length-append head (records seed images),
      length-build_header 0 seed orig page_size,
    ) in
    ap (λ o. write_at (head ++ records seed images) o (build_record pgno page seed)) here
    ∙ write_at_end (head ++ records seed images) (build_record pgno page seed)
    ∙ append_assoc head (records seed images) (build_record pgno page seed)
    ∙ ap (λ t. head ++ t) (sym (records-append seed images pgno page))

module _ (file : List ℕ) (seed orig page_size : ℕ) (nz : page_size ≢ 0) where
  abbrev pub IsImaged : ℕ → Pager → Type 0
  IsImaged pgno p =
      (j : Journaled file seed orig page_size nz p) × (pgno ≤ orig
        → contains pgno (page_numbers j.images) ≡ true)

  appended_txn :
      (images : List Image) (t : WriteTxn) (n pgno : ℕ) (page : List ℕ)
      → IsTxnOf seed orig page_size images t
      → length page ≡ n
      → IsTxnOf seed orig page_size (images ++ (pgno, page) ∷ []) (record t {
        journaled = pgno ∷ t.journaled;
        nrec = t.nrec + 1;
        journal_off = t.journal_off + record_len n;
      })
  appended_txn images t n pgno page w len = record {
    seeded = w.seeded;
    orig_size = w.orig_size;
    counted = omega (arith, w.counted, length-append images ((pgno, page) ∷ []));
    at_end = omega (
      arith,
      w.at_end,
      ap length (records-append seed images pgno page),
      length-append (records seed images) (build_record pgno page seed),
      length-build_record pgno seed page,
      ap record_len len,
    );
    listed = λ k. ground (arith, w.listed k, contains-append k images pgno page);
  }

  still_imaged :
      (k : ℕ) (images : List Image) (pgno : ℕ) (page : List ℕ)
      → contains k (page_numbers images) ≡ true
      → contains k (page_numbers (images ++ (pgno, page) ∷ [])) ≡ true
  still_imaged k images pgno page h = ground (arith, contains-append k images pgno page, h)

  safer :
      (images : List Image) (pgno : ℕ) (page : List ℕ) (dirty : Map (List ℕ))
      → All (IsSafe orig page_size (page_numbers images)) dirty
      → All (IsSafe orig page_size (page_numbers (images ++ (pgno, page) ∷ []))) dirty
  safer images pgno page =
      All-weaken (IsSafe orig page_size (page_numbers images))
        (IsSafe orig page_size (page_numbers (images ++ (pgno, page) ∷ [])))
        (λ entry h. (h.0, λ le. still_imaged entry.0 images pgno page (h.1 le)))

  append_record-IsImaged :
      (pgno : ℕ) (page : List ℕ) (p : Pager)
      → (r : IsRead file seed orig page_size nz pgno p page) → pgno ≤ orig
      → contains pgno (page_numbers r.0.images) ≡ false
      → IsImaged pgno (append_record r.0.txn pgno page p)
  unfolding append_record
  append_record-IsImaged pgno page p r within missing =
      let j = r.0 in
      let images' : List Image = j.images ++ (pgno, page) ∷ [] in
      (
        record {
          unsaved = record {
            same_file = j.unsaved.same_file;
            same_size = j.unsaved.same_size;
            clean = j.unsaved.clean;
            sized = j.writing.orig_size;
          };
          images = images';
          txn = record j.txn {
            journaled = pgno ∷ j.txn.journaled;
            nrec = j.txn.nrec + 1;
            journal_off = j.txn.journal_off + record_len p.page_size;
          };
          running = refl;
          writing =
              appended_txn j.images j.txn p.page_size pgno page j.writing
                (r.2 ∙ sym j.unsaved.same_size);
          journal =
              ap
                (λ o.
                  (write_journal j.txn.journal_off (build_record pgno page j.txn.cksum_init)
                    (record p.disk { journal = o })).journal)
                j.journal
              ∙ ap
                  (λ k. some (
                    write_at (build_header 0 seed orig page_size ++ records seed j.images)
                      j.txn.journal_off (build_record pgno page k)))
                  j.writing.seeded
              ∙ ap some (
                  grown_journal seed orig page_size j.txn.journal_off pgno j.images page
                    j.writing.at_end);
          sound = All-append (IsImage orig page_size) j.images _ j.sound ((r.1, within, r.2), tt);
          pre_images =
              All-append (IsPreImage page_size file) j.images _ j.pre_images
                (r.3 missing within, tt);
          grown = j.grown;
          safe = safer j.images pgno page p.state.dirty j.safe;
          safe_savepoints =
              All-weaken (IsSafeSavepoint orig page_size (page_numbers j.images))
                (IsSafeSavepoint orig page_size (page_numbers images'))
                (λ sp h. (h.0, safer j.images pgno page sp.dirty_snapshot h.1)) p.savepoints
                j.safe_savepoints;
        },
        λ le. ground (arith, contains-append pgno j.images pgno page),
      )

  journal_in-IsImaged :
      (pgno : ℕ) (page : List ℕ) (p : Pager)
      → (r : IsRead file seed orig page_size nz pgno p page)
      → IsImaged pgno (journal_in (some r.0.txn) pgno page p)
  journal_in-IsImaged pgno page p r =
      let t = r.0.txn in
      let size = r.0.writing.orig_size in
      let list = r.0.writing.listed pgno in
      elim (Bool-cases (ltb t.db_orig_size pgno)) [
        | inl behind ↦ rw behind (r.0, λ le. absurd (ground (arith, behind, le, size)))
        | inr inside ↦ elim (Bool-cases (contains pgno t.journaled)) [
          | inl has ↦ rw (inside, has) (r.0, λ le. sym list ∙ has)
          | inr missing ↦
              rw (inside, missing)
                (append_record-IsImaged pgno page p r (ground (arith, inside, size))
                  (sym list ∙ missing))
        ]
      ]

  -- Afterwards the page has an image in the journal, if it is one of the database.
  pub journal_page-IsImaged :
      (pgno : ℕ) (page : List ℕ) (p : Pager)
      → IsRead file seed orig page_size nz pgno p page
      → IsImaged pgno (journal_page pgno page p).0
  unfolding journal_page
  journal_page-IsImaged pgno page p r =
      let e : journal_in p.txn pgno page p ≡ journal_in (some r.0.txn) pgno page p =
        ap (λ o. journal_in o pgno page p) r.0.running in
      rw e (journal_in-IsImaged pgno page p r)
