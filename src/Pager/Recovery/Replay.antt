-- ===== src/Pager/Recovery/Replay.antt =====
-- Replaying a journal that was written whole.
use rustqlite.Base.{
  ℕ, zero, suc, ◌+◌, ◌-◌, ◌*◌, ◌^◌, ◌≤◌, ◌<◌, ◌≡◌, ◌≢◌, refl, ap, ap₂, sym, ◌∙◌, List, [], ◌∷◌,
  ◌++◌, length, drop, replicate, true, false, ltb, leb, ◌==◌, arith, min, length-append,
  append_assoc, length-replicate, get_or, ◌%◌,
}
use rustqlite.Base.Bytes.{
  slice, be_bytes, be_u32, be_u32-be_bytes, All, take-length_append, drop-length_append,
}
use rustqlite.Vfs.MemFile.{read_at, write_at}
use rustqlite.Vfs.MemFile.Bytes.{append_nil, drop_all}
use rustqlite.Pager.Journal.{build_record, record_len, JournalHeader, pager_cksum, cksum_loop}
use rustqlite.Pager.Recovery.{replay}

-- A page of the journal: its number and its bytes.
abbrev pub Image : Type 0
Image = ℕ × List ℕ

unfoldable pub records : ℕ → List Image → List ℕ
records seed [] = []
records seed ((pgno, bytes) ∷ images) = build_record pgno bytes seed ++ records seed images

-- The pages written back in order.
unfoldable pub write_back : ℕ → List Image → List ℕ → List ℕ
write_back page_size [] db = db
write_back page_size ((pgno, bytes) ∷ images) db =
    write_back page_size images (write_at db ((pgno - 1) * page_size) bytes)

-- What a record of the journal is, for a database of `orig` pages.
abbrev pub IsImage : ℕ → ℕ → Image → Type 0
IsImage orig page_size (pgno, bytes) = (pgno ≢ 0) × (pgno ≤ orig) × (length bytes ≡ page_size)

-- Reading a stretch of a file into a buffer of its length.
pub read_at_middle :
    (pre mid post buf : List ℕ)
    → length buf ≡ length mid
    → 1 ≤ length mid
    → read_at (pre ++ (mid ++ post)) (length pre) buf ≡ (length mid, mid)
unfolding read_at
read_at_middle pre mid post buf h one =
    let within : leb (length (pre ++ (mid ++ post))) (length pre) ≡ false =
      ground (arith, length-append pre (mid ++ post), length-append mid post) in
    let all : min (length buf) (length (pre ++ (mid ++ post)) - length pre) ≡ length mid =
      omega (arith, length-append pre (mid ++ post), length-append mid post) in
    let len : length pre + length mid - length pre ≡ length mid = omega arith in
    let rest : drop (0 + length mid) buf ≡ [] = drop_all (0 + length mid) buf (omega arith) in
    rw (within, all, len, drop-length_append pre (mid ++ post), take-length_append mid post, rest)
      (ap (λ t. (length mid, t)) (append_nil mid))

cksum_loop_lt :
    (fuel cksum i : ℕ) (page : List ℕ) → cksum < 2 ^ 32 → cksum_loop fuel cksum i page < 2 ^ 32
unfolding cksum_loop
cksum_loop_lt zero cksum i page h = h
cksum_loop_lt (suc fuel) cksum i page h =
    ground (arith, cksum_loop_lt fuel ((cksum + get_or page i 0) % 2 ^ 32) (i - 200) page)

pager_cksum_lt : (seed : ℕ) (page : List ℕ) → seed < 2 ^ 32 → pager_cksum seed page < 2 ^ 32
unfolding pager_cksum
pager_cksum_lt seed page h = cksum_loop_lt (length page) seed (length page - 200) page h

pub record_parts :
    (pgno seed ps : ℕ) (bytes : List ℕ)
    → pgno < 2 ^ 32
    → seed < 2 ^ 32
    → length bytes ≡ ps
    → (be_u32 (slice 0 4 (build_record pgno bytes seed)) ≡ pgno)
      × (slice 4 (4 + ps) (build_record pgno bytes seed) ≡ bytes)
      × (be_u32 (slice (4 + ps) (8 + ps) (build_record pgno bytes seed)) ≡ pager_cksum seed bytes)
      × (length (build_record pgno bytes seed) ≡ record_len ps)
unfolding build_record record_len
record_parts pgno seed ps bytes hp hs hl =
    let ck = be_bytes 4 (pager_cksum seed bytes) in
    let front = be_bytes 4 pgno ++ bytes in
    let e : 4 + ps - 4 ≡ length bytes = omega arith in
    let f : 8 + ps - (4 + ps) ≡ 4 = omega arith in
    let g : 4 + ps ≡ length front = omega (arith, length-append (be_bytes 4 pgno) bytes) in
    let sum : slice (4 + ps) (8 + ps) (front ++ ck) ≡ ck =
      rw f (rw g (rw (drop-length_append front ck) refl)) in
    (
      be_u32-be_bytes pgno hp,
      rw e (take-length_append bytes ck),
      ap be_u32 sum ∙ be_u32-be_bytes (pager_cksum seed bytes) (pager_cksum_lt seed bytes hs),
      omega (arith, length-append front ck, length-append (be_bytes 4 pgno) bytes),
    )

-- One round at a record that is there.
replay_step :
    (rounds : ℕ) (header : JournalHeader) (jfile : List ℕ) (off : ℕ) (db : List ℕ) (pgno : ℕ)
    (bytes mid : List ℕ)
    → read_at jfile off (replicate (record_len header.page_size) 0)
      ≡ (record_len header.page_size, mid)
    → be_u32 (slice 0 4 mid) ≡ pgno
    → slice 4 (4 + header.page_size) mid ≡ bytes
    → be_u32 (slice (4 + header.page_size) (8 + header.page_size) mid)
      ≡ pager_cksum header.cksum_init bytes
    → pgno ≢ 0
    → pgno ≤ header.db_orig_size
    → replay (suc rounds) header jfile off db
      ≡ replay rounds header jfile
          (off + record_len header.page_size)
          (write_at db ((pgno - 1) * header.page_size) bytes)
unfolding replay
replay_step rounds header jfile off db pgno bytes mid hr hp hb hs nz le =
    let whole : ltb (record_len header.page_size) (record_len header.page_size) ≡ false =
      ground arith in
    let real : (pgno == 0) ≡ false = ground arith in
    let good : (pager_cksum header.cksum_init bytes == pager_cksum header.cksum_init bytes) ≡ true =
      ground arith in
    let inside : leb pgno header.db_orig_size ≡ true = ground arith in
    rw (hr, hp, hb, hs, whole, real, good, inside) refl

abbrev zero_byte : ℕ
zero_byte = 0

pub record_long : (ps : ℕ) (mid : List ℕ) → length mid ≡ record_len ps → 1 ≤ length mid
unfolding record_len
record_long ps mid h = omega arith

replay_zero :
    (header : JournalHeader) (jfile : List ℕ) (off : ℕ) (db : List ℕ)
    → replay 0 header jfile off db ≡ db
unfolding replay
replay_zero header jfile off db = refl

-- A journal whose records were all written is played back whole.
pub replay-records :
    (header : JournalHeader) (pre : List ℕ) (images : List Image) (junk db : List ℕ)
    → All (IsImage header.db_orig_size header.page_size) images
    → header.cksum_init < 2 ^ 32
    → header.db_orig_size < 2 ^ 32
    → replay
        (length images)
        header
        (pre ++ (records header.cksum_init images ++ junk))
        (length pre)
        db
      ≡ write_back header.page_size images db
unfolding records write_back
replay-records header pre [] junk db all hs ho = replay_zero header _ _ db
replay-records header pre ((pgno, bytes) ∷ images) junk db all hs ho =
    let mid = build_record pgno bytes header.cksum_init in
    let tail = records header.cksum_init images ++ junk in
    let parts =
      record_parts pgno header.cksum_init header.page_size bytes (omega arith) hs all.0.2 in
    let jfile = pre ++ ((mid ++ records header.cksum_init images) ++ junk) in
    let nested : jfile ≡ pre ++ (mid ++ tail) =
      ap (λ t. pre ++ t) (append_assoc mid (records header.cksum_init images) junk) in
    let moved : (pre ++ mid) ++ tail ≡ pre ++ (mid ++ tail) = append_assoc pre mid tail in
    let rest =
      replay-records header (pre ++ mid) images junk
        (write_at db ((pgno - 1) * header.page_size) bytes) all.1 hs ho in
    let read =
      read_at_middle pre mid tail (replicate (record_len header.page_size) 0)
        (omega (arith, parts.3, length-replicate (record_len header.page_size) zero_byte))
        (record_long header.page_size mid parts.3) in
    replay_step (length images) header jfile (length pre) db pgno bytes mid
      (ap (λ j. read_at j (length pre) (replicate (record_len header.page_size) 0)) nested
        ∙ read
        ∙ ap (λ n. (n, mid)) parts.3)
      parts.0 parts.1 parts.2 all.0.0 all.0.1
    ∙ ap₂
        (λ j off.
          replay (length images) header j off (write_at db ((pgno - 1) * header.page_size) bytes))
        (nested ∙ sym moved) (ap (λ n. length pre + n) (sym parts.3) ∙ sym (length-append pre mid))
    ∙ rest
