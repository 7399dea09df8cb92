-- ===== src/Pager/Wal/Checkpoint/Copying.antt =====
-- The database file behind a checkpoint has the last version of every page.
use rustqlite.Base.{
  ℕ, suc, ◌+◌, ◌-◌, ◌*◌, ◌%◌, ◌^◌, ◌≤◌, ◌<◌, ◌≡◌, ◌≢◌, refl, ap, sym, ◌∙◌, List, [], ◌∷◌, ◌++◌,
  length, replicate, true, false, ◌&&◌, ltb, leb, ◌==◌, if◌then◌else◌, arith, length-append,
  append_assoc, length-replicate, some, Option, none, Bool-cases, inl, inr, ◌⊎◌,
}
use rustqlite.Base.Bytes.{All}
use rustqlite.Error.{ok}
use rustqlite.Vfs.MemFile.{write_at, file_size}
use rustqlite.Vfs.MemFile.Bytes.{byte_at}
use rustqlite.Vfs.MemFile.Writing.{write_at_lem, truncate_lem}
use rustqlite.Format.Wal.{WalHeader}
use rustqlite.Format.Wal.Checksum.{IsU32}
use rustqlite.Pager.Recovery.Replay.{read_at_middle}
use rustqlite.Pager.State.{or_else}
use rustqlite.Pager.Wal.{frame_offset, header_sums}
use rustqlite.Pager.Wal.Write.{build_frame}
use rustqlite.Pager.Wal.Scan.{
  Entry, IsEntry, log_bytes, length-build_frame, sums_after, sums_after-IsU32, next_offset,
  decode_built,
}
use rustqlite.Pager.Wal.Log.{IsLog}
use rustqlite.Pager.Wal.Reading.{content}
use rustqlite.Pager.Wal.Checkpoint.{
  CheckpointMode, Files, copy_page, copy_loop, checkpoint, finish_checkpoint,
}

abbrev zero_byte : ℕ
zero_byte = 0

-- The pages of the log, written into the database in order.
unfoldable pub copied : ℕ → List Entry → List ℕ → List ℕ
copied page_size [] db = db
copied page_size ((pgno, commit, bytes) ∷ entries) db =
    copied page_size entries (write_at db ((pgno - 1) * page_size) bytes)

order_cases : (a b : ℕ) → (a < b) ⊎ ((a ≡ b) ⊎ (b < a))
order_cases a b = elim (Bool-cases (ltb a b)) [
  | inl e ↦ inl (ground (arith, e))
  | inr e ↦ elim (Bool-cases (ltb b a)) [
    | inl f ↦ inr (inr (ground (arith, f)))
    | inr f ↦ inr (inl (ground (arith, e, f)))
  ]
]

page_ends : (n a b : ℕ) → b < a → b ≢ 0 → (b - 1) * n + n ≤ (a - 1) * n
page_ends n a b l nz = let e : a - 1 ≡ b - 1 + 1 + (a - 1 - b) = omega arith in rw e (grind arith)

-- Two pages do not overlap.
same_page :
    (page_size p q k : ℕ)
    → p ≢ 0
    → q ≢ 0
    → k < page_size
    → (p - 1) * page_size ≤ (q - 1) * page_size + k
    → (q - 1) * page_size + k < (p - 1) * page_size + page_size
    → p ≡ q
same_page page_size p q k np nq h lo hi = elim (order_cases p q) [
  | inl less ↦ absurd (omega (arith, page_ends page_size q p less np, hi))
  | inr (inl e) ↦ e
  | inr (inr more) ↦ absurd (omega (arith, page_ends page_size p q more nq, h, lo))
]

-- A byte of page `q` behind a write of page `p`.
written_byte :
    (page_size p q k : ℕ) (bytes db : List ℕ)
    → p ≢ 0
    → q ≢ 0
    → k < page_size
    → length bytes ≡ page_size
    → byte_at (write_at db ((p - 1) * page_size) bytes) ((q - 1) * page_size + k)
      ≡ (if p == q then byte_at bytes k else byte_at db ((q - 1) * page_size + k))
written_byte page_size p q k bytes db np nq h len =
    let start : ℕ = (p - 1) * page_size in
    let i : ℕ = (q - 1) * page_size + k in
    let written = (write_at_lem db start bytes).1 i in
    elim (Bool-cases (p == q)) [
      | inl e ↦
          let same : p ≡ q = ground (arith, e) in
          let inside : (leb start i && ltb i (start + length bytes)) ≡ true =
            rw same (ground (arith, len, h)) in
          let off : i - start ≡ k = rw same (omega arith) in
          rw e (written ∙ (rw (inside, off) refl))
      | inr e ↦
          let other : p ≢ q = ground (arith, e) in
          let outside : (leb start i && ltb i (start + length bytes)) ≡ false =
            ground (arith, len, same_page page_size p q k np nq h) in
          rw e (written ∙ rw outside refl)
    ]

-- A byte of a page: that of its last version in the log, or else the old one.
abbrev pub byte_or : Option (List ℕ) → ℕ → ℕ → ℕ
byte_or none k old = old
byte_or (some bytes) k old = byte_at bytes k

pub byte_at-copied :
    (page_size pgno k : ℕ) (entries : List Entry) (db : List ℕ)
    → All (IsEntry page_size) entries
    → pgno ≢ 0
    → k < page_size
    → byte_at (copied page_size entries db) ((pgno - 1) * page_size + k)
      ≡ byte_or (content pgno entries) k (byte_at db ((pgno - 1) * page_size + k))
unfolding copied content
byte_at-copied page_size pgno k [] db all nz h = refl
byte_at-copied page_size pgno k ((p, commit, bytes) ∷ entries) db all nz h =
    byte_at-copied page_size pgno k entries (write_at db ((p - 1) * page_size) bytes) all.1 nz h
    ∙ step (content pgno entries)
  where
    step :
        (o : Option (List ℕ))
        → byte_or o k
            (byte_at (write_at db ((p - 1) * page_size) bytes) ((pgno - 1) * page_size + k))
          ≡ byte_or
              (or_else o (if p == pgno then some bytes else none))
              k
              (byte_at db ((pgno - 1) * page_size + k))
    step (some b) = refl
    step none =
        written_byte page_size p pgno k bytes db all.0.0 nz h all.0.3
        ∙ elim (Bool-cases (p == pgno)) [ inl e ↦ rw e refl | inr e ↦ rw e refl ]

-- One round at a frame that was written whole.
copy_step :
    (header : WalHeader) (page_size : ℕ)
    → page_size % 8 ≡ 0
    → header.salt1 < 2 ^ 32
    → header.salt2 < 2 ^ 32
    → (rounds : ℕ) (pre post : List ℕ) (i n_ckpt : ℕ) (running : ℕ × ℕ) (e : Entry) (db : List ℕ)
    → IsEntry page_size e
    → IsU32 running
    → length pre ≡ frame_offset page_size i
    → copy_loop
        (suc rounds)
        header
        page_size
        (pre ++ (build_frame header running e.0 e.1 e.2 ++ post))
        i
        n_ckpt
        db
      ≡ copy_loop rounds header page_size
          (pre ++ (build_frame header running e.0 e.1 e.2 ++ post))
          (i + 1)
          (n_ckpt + 1)
          (write_at db ((e.0 - 1) * page_size) e.2)
unfolding copy_loop
copy_step header page_size whole first second rounds pre post i n_ckpt running e db h u at =
    let frame = build_frame header running e.0 e.1 e.2 in
    let len : length frame ≡ page_size + 24 =
      omega (arith, length-build_frame header running e.0 e.1 e.2, h.3) in
    let read =
      read_at_middle pre frame post (replicate (page_size + 24) 0)
        (length-replicate (page_size + 24) zero_byte ∙ sym len) (omega (arith, len)) in
    let full : ltb (page_size + 24) (page_size + 24) ≡ false = ground arith in
    let a : (header.salt1 == header.salt1) ≡ true = ground arith in
    let b : (header.salt2 == header.salt2) ≡ true = ground arith in
    rw
      (
        ← at,
        read,
        len,
        full,
        decode_built header page_size whole first second running e h u,
        a,
        b,
        ← at,
        read,
      )
      (unfold build_frame copy_page in refl)

-- The loop copies every frame of the log.
copy_lem :
    (header : WalHeader) (page_size : ℕ)
    → page_size % 8 ≡ 0
    → header.salt1 < 2 ^ 32
    → header.salt2 < 2 ^ 32
    → (entries : List Entry) (pre : List ℕ) (i n_ckpt : ℕ) (running : ℕ × ℕ) (db : List ℕ)
    → All (IsEntry page_size) entries
    → IsU32 running
    → 1 ≤ i
    → length pre ≡ frame_offset page_size i
    → copy_loop
        (length entries)
        header
        page_size
        (pre ++ log_bytes header running entries)
        i
        n_ckpt
        db
      ≡ (copied page_size entries db, ok (n_ckpt + length entries))
unfolding copied log_bytes
copy_lem header page_size whole first second [] pre i n_ckpt running db all u one at =
    let e : n_ckpt + 0 ≡ n_ckpt = omega arith in rw e (unfold copy_loop in refl)
copy_lem header page_size whole first second ((pgno, commit, bytes) ∷ entries) pre i n_ckpt running
      db all u one at =
    let e : Entry = (pgno, commit, bytes) in
    let frame = build_frame header running pgno commit bytes in
    let running' = sums_after header running e in
    let rest = log_bytes header running' entries in
    let at' : length (pre ++ frame) ≡ frame_offset page_size (i + 1) = omega (
      arith,
      length-append pre frame,
      length-build_frame header running pgno commit bytes,
      all.0.3,
      at,
      next_offset page_size i one,
    ) in
    let later =
      copy_lem header page_size whole first second entries (pre ++ frame) (i + 1) (n_ckpt + 1)
        running' (write_at db ((pgno - 1) * page_size) bytes) all.1
        (sums_after-IsU32 header page_size whole first second running e all.0 u) (omega arith)
        at' in
    let n : n_ckpt + suc (length entries) ≡ n_ckpt + 1 + length entries = omega arith in
    copy_step header page_size whole first second (length entries) pre rest i n_ckpt running e db
      all.0 u at
    ∙ (rw n (rw (append_assoc pre frame rest) at later))

-- A checkpoint of a log that agrees with its file copies all frames: every page up to the size of the
-- last commit has the last version that the log holds of it, or else its old bytes, and the file has
-- exactly these pages.
pub checkpoint_lem :
    (hdr : List ℕ) (entries : List Entry) (f : Files) (mode : CheckpointMode)
    (salt1 salt2 pgno k : ℕ)
    → IsLog hdr entries f.wal
    → f.wal.mx_frame ≢ 0
    → pgno ≢ 0
    → pgno ≤ f.wal.n_page
    → k < f.wal.page_size
    → ((checkpoint salt1 salt2 mode f).1 ≡ ok (f.wal.mx_frame, f.wal.mx_frame))
      × (file_size (checkpoint salt1 salt2 mode f).0.database ≡ f.wal.n_page * f.wal.page_size)
      × (byte_at (checkpoint salt1 salt2 mode f).0.database ((pgno - 1) * f.wal.page_size + k)
          ≡ byte_or
              (content pgno entries)
              k
              (byte_at f.database ((pgno - 1) * f.wal.page_size + k)))
unfolding checkpoint finish_checkpoint
checkpoint_lem hdr entries f mode salt1 salt2 pgno k g nz np within h =
    let w = f.wal in
    let there : (w.mx_frame == 0) ≡ false = ground (arith, nz) in
    let at : length hdr ≡ frame_offset w.page_size 1 =
      unfold frame_offset in omega (arith, g.signed.long) in
    let run =
      copy_lem w.header w.page_size g.signed.whole g.signed.first g.signed.second entries hdr 1 0
        (header_sums w.header) f.database g.frames g.signed.seeds (omega arith) at in
    let none_before : 0 + length entries ≡ length entries = omega arith in
    let db = copied w.page_size entries f.database in
    let cut = truncate_lem db (w.n_page * w.page_size) in
    let inside : ltb ((pgno - 1) * w.page_size + k) (w.n_page * w.page_size) ≡ true =
      let up : w.n_page + 1 - 1 ≡ w.n_page = omega arith in
      let end = page_ends w.page_size (w.n_page + 1) pgno (omega arith) np in
      let last : (pgno - 1) * w.page_size + w.page_size ≤ w.n_page * w.page_size =
        rw (ap (λ t. t * w.page_size) up) at end in
      ground (arith, last, h) in
    rw (g.file, there, g.count)
      (rw run (
        ap (λ t. ok (length entries, t)) none_before,
        cut.0,
        cut.1 ((pgno - 1) * w.page_size + k)
            ∙ (rw inside (byte_at-copied w.page_size pgno k entries f.database g.frames np h)),
      ))
