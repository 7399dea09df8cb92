-- ===== src/Pager/Wal/Scan.antt =====
-- Recovery over the frames that were written whole.
use rustqlite.Base.{
  ℕ, suc, ◌+◌, ◌-◌, ◌*◌, ◌%◌, ◌^◌, ◌≤◌, ◌<◌, ◌≡◌, ◌≢◌, refl, ap, ap₂, sym, ◌∙◌, List, [], ◌∷◌, ◌++◌,
  length, take, replicate, Bool, true, false, ltb, ◌==◌, arith, length-append, append_assoc,
  length-replicate,
}
use rustqlite.Base.Bytes.{be_u32-be_bytes, All}
use rustqlite.Error.{ok}
use rustqlite.Format.Wal.{
  WalHeader, WalFrameHeader, decode_frame, checksum_big_endian, wal_checksum, checksum_loop,
}
use rustqlite.Format.Wal.Checksum.{IsU32, loop-IsU32, whole-Pairs}
use rustqlite.Pager.Recovery.Replay.{read_at_middle}
use rustqlite.Pager.Wal.{
  sums, frame_sums, frame_offset, Recovered, collect_frame, frame_is_stale, recover_loop,
}
use rustqlite.Pager.Wal.Write.{build_frame, running_after, frame_start}

abbrev zero_byte : ℕ
zero_byte = 0

-- A frame of the log: its page, its commit size and its bytes.
abbrev pub Entry : Type 0
Entry = ℕ × ℕ × List ℕ

abbrev pub page_number : Entry → ℕ
page_number (pgno, commit, bytes) = pgno

abbrev pub IsEntry : ℕ → Entry → Type 0
IsEntry page_size (pgno, commit, bytes) =
    (pgno ≢ 0) × (pgno < 2 ^ 32) × (commit < 2 ^ 32) × (length bytes ≡ page_size)

abbrev pub frame_header : WalHeader → ℕ × ℕ → ℕ → ℕ → WalFrameHeader
frame_header header running pgno commit = record {
  page_number = pgno;
  commit_size = commit;
  salt1 = header.salt1;
  salt2 = header.salt2;
  checksum1 = running.0;
  checksum2 = running.1;
}

module _ (header : WalHeader) where
  abbrev pub sums_after : ℕ × ℕ → Entry → ℕ × ℕ
  sums_after running (pgno, commit, bytes) =
      running_after (checksum_big_endian header) running pgno commit bytes

  -- The bytes of the frames, and the sums behind them.
  unfoldable pub log_bytes : ℕ × ℕ → List Entry → List ℕ
  log_bytes running [] = []
  log_bytes running ((pgno, commit, bytes) ∷ entries) =
      build_frame header running pgno commit bytes
      ++ log_bytes (sums_after running (pgno, commit, bytes)) entries

  unfoldable pub log_sums : ℕ × ℕ → List Entry → ℕ × ℕ
  log_sums running [] = running
  log_sums running (e ∷ entries) = log_sums (sums_after running e) entries

  -- What recovery collects of them, from frame `i` on.
  unfoldable pub gather : ℕ → ℕ × ℕ → List Entry → Recovered → Recovered
  gather i running [] r = r
  gather i running ((pgno, commit, bytes) ∷ entries) r =
      let running' = sums_after running (pgno, commit, bytes) in
      gather (i + 1) running' entries
        (collect_frame i (frame_header header running' pgno commit) running' r)

sums-loop :
    (buf : List ℕ) (big : Bool) (s : ℕ × ℕ)
    → length buf % 8 ≡ 0
    → sums buf big s ≡ checksum_loop buf big s.0 s.1
unfolding sums wal_checksum
sums-loop buf big (s0, s1) h =
    let w : (length buf % 8 == 0) ≡ true = ground (arith, h) in rw (w, sums) refl

pub sums-IsU32 :
    (buf : List ℕ) (big : Bool) (s : ℕ × ℕ) → length buf % 8 ≡ 0 → IsU32 s → IsU32 (sums buf big s)
sums-IsU32 buf big s whole h =
    rw (sums-loop buf big s whole) (loop-IsU32 (whole-Pairs buf whole) big s h)

pub length-build_frame :
    (header : WalHeader) (running : ℕ × ℕ) (pgno commit : ℕ) (bytes : List ℕ)
    → length (build_frame header running pgno commit bytes) ≡ length bytes + 24
unfolding build_frame
length-build_frame header running pgno commit bytes = omega arith

pub next_offset :
    (page_size i : ℕ)
    → 1 ≤ i
    → frame_offset page_size (i + 1) ≡ frame_offset page_size i + (page_size + 24)
unfolding frame_offset
next_offset page_size i h = let e : i + 1 - 1 ≡ suc (i - 1) = omega arith in rw e (grind arith)

module _ (header : WalHeader) (page_size : ℕ) (whole : page_size % 8 ≡ 0)
    (first : header.salt1 < 2 ^ 32) (second : header.salt2 < 2 ^ 32) where
  pub sums_after-IsU32 :
      (running : ℕ × ℕ) (e : Entry)
      → IsEntry page_size e
      → IsU32 running
      → IsU32 (sums_after header running e)
  unfolding running_after
  sums_after-IsU32 running (pgno, commit, bytes) h u =
      sums-IsU32 bytes _ _ (omega (arith, h.3, whole))
        (sums-IsU32 (frame_start pgno commit) _ running refl u)

  pub decode_built :
      (running : ℕ × ℕ) (e : Entry)
      → IsEntry page_size e
      → IsU32 running
      → decode_frame (take 24 (build_frame header running e.0 e.1 e.2))
        ≡ ok (frame_header header (sums_after header running e) e.0 e.1)
  unfolding decode_frame build_frame
  decode_built running (pgno, commit, bytes) h u =
      let u' = sums_after-IsU32 running (pgno, commit, bytes) h u in
      λ i. ok (record {
        page_number = be_u32-be_bytes pgno h.1 i;
        commit_size = be_u32-be_bytes commit h.2 i;
        salt1 = be_u32-be_bytes header.salt1 first i;
        salt2 = be_u32-be_bytes header.salt2 second i;
        checksum1 = be_u32-be_bytes _ u'.0 i;
        checksum2 = be_u32-be_bytes _ u'.1 i;
      })

  sums_of_frame :
      (running : ℕ × ℕ) (e : Entry)
      → frame_sums (build_frame header running e.0 e.1 e.2) (checksum_big_endian header) running
        ≡ sums_after header running e
  unfolding frame_sums build_frame running_after
  sums_of_frame running (pgno, commit, bytes) = refl

  current :
      (running : ℕ × ℕ) (e : Entry)
      → IsEntry page_size e
      → frame_is_stale header
          (frame_header header (sums_after header running e) e.0 e.1)
          (sums_after header running e)
        ≡ false
  unfolding frame_is_stale
  current running (pgno, commit, bytes) h =
      let s = sums_after header running (pgno, commit, bytes) in
      let a : (header.salt1 == header.salt1) ≡ true = ground arith in
      let b : (header.salt2 == header.salt2) ≡ true = ground arith in
      let c : (pgno == 0) ≡ false = ground (arith, h.0) in
      let d : (s.0 == s.0) ≡ true = ground arith in
      let e : (s.1 == s.1) ≡ true = ground arith in rw (a, b, c, d, e) refl

  -- One round at a frame that was written whole.
  scan_step :
      (rounds : ℕ) (pre post : List ℕ) (i : ℕ) (running : ℕ × ℕ) (e : Entry) (r : Recovered)
      → IsEntry page_size e
      → IsU32 running
      → length pre ≡ frame_offset page_size i
      → recover_loop
          (suc rounds)
          header
          page_size
          (pre ++ (build_frame header running e.0 e.1 e.2 ++ post))
          i
          running
          r
        ≡ recover_loop rounds header page_size
            (pre ++ (build_frame header running e.0 e.1 e.2 ++ post))
            (i + 1)
            (sums_after header running e)
            (collect_frame i
              (frame_header header (sums_after header running e) e.0 e.1)
              (sums_after header running e)
              r)
  unfolding recover_loop
  scan_step rounds pre post i running e r h u at =
      let frame = build_frame header running e.0 e.1 e.2 in
      let len : length frame ≡ page_size + 24 =
        omega (arith, length-build_frame header running e.0 e.1 e.2, h.3) in
      let read =
        read_at_middle pre frame post (replicate (page_size + 24) 0)
          (length-replicate (page_size + 24) zero_byte ∙ sym len) (omega (arith, len)) in
      let full : ltb (page_size + 24) (page_size + 24) ≡ false = ground arith in
      rw
        (
          ← at,
          read,
          len,
          full,
          decode_built running e h u,
          sums_of_frame running e,
          current running e h,
        )
        refl

  -- Frames that were written whole are gathered, and the loop goes on behind them.
  pub scan :
      (entries : List Entry) (rounds : ℕ) (pre post : List ℕ) (i : ℕ) (running : ℕ × ℕ)
      (r : Recovered)
      → All (IsEntry page_size) entries
      → IsU32 running
      → 1 ≤ i
      → length pre ≡ frame_offset page_size i
      → recover_loop
          (length entries + rounds)
          header
          page_size
          (pre ++ (log_bytes header running entries ++ post))
          i
          running
          r
        ≡ recover_loop rounds header page_size
            (pre ++ (log_bytes header running entries ++ post))
            (i + length entries)
            (log_sums header running entries)
            (gather header i running entries r)
  unfolding log_bytes log_sums gather
  scan [] rounds pre post i running r all u one at =
      let a : 0 + rounds ≡ rounds = omega arith in let b : i + 0 ≡ i = omega arith in rw (a, b) refl
  scan ((pgno, commit, bytes) ∷ entries) rounds pre post i running r all u one at =
      let e : Entry = (pgno, commit, bytes) in
      let frame = build_frame header running pgno commit bytes in
      let running' = sums_after header running e in
      let more = log_bytes header running' entries ++ post in
      let nested : (frame ++ log_bytes header running' entries) ++ post ≡ frame ++ more =
        append_assoc frame (log_bytes header running' entries) post in
      let moved : (pre ++ frame) ++ more ≡ pre ++ (frame ++ more) = append_assoc pre frame more in
      let r' = collect_frame i (frame_header header running' pgno commit) running' r in
      let at' : length (pre ++ frame) ≡ frame_offset page_size (i + 1) = omega (
        arith,
        length-append pre frame,
        length-build_frame header running pgno commit bytes,
        all.0.3,
        at,
        next_offset page_size i one,
      ) in
      let later =
        scan entries rounds (pre ++ frame) post (i + 1) running' r' all.1
          (sums_after-IsU32 running e all.0 u) (omega arith) at' in
      let a : suc (length entries) + rounds ≡ suc (length entries + rounds) = omega arith in
      let b : i + suc (length entries) ≡ i + 1 + length entries = omega arith in
      rw (nested, a, b)
        (scan_step (length entries + rounds) pre more i running e r all.0 u at
          ∙ (rw moved at later))

  pub length-log_bytes :
      (entries : List Entry) (running : ℕ × ℕ)
      → All (IsEntry page_size) entries
      → length (log_bytes header running entries) ≡ length entries * (page_size + 24)
  unfolding log_bytes
  length-log_bytes [] running all = omega arith
  length-log_bytes ((pgno, commit, bytes) ∷ entries) running all =
      let e : Entry = (pgno, commit, bytes) in
      let k : ℕ = page_size + 24 in
      let rest = length-log_bytes entries (sums_after header running e) all.1 in
      length-append (build_frame header running pgno commit bytes) _
      ∙ ap₂ ◌+◌ (length-build_frame header running pgno commit bytes ∙ ap (λ t. t + 24) all.0.3)
          rest
      ∙ (grind arith)
