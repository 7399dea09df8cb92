-- ===== src/Pager/Wal/Log.antt =====
-- A log in memory that agrees with its file, and opening the file again.
use rustqlite.Base.{
  ℕ, suc, ◌+◌, ◌-◌, ◌*◌, ◌/◌, ◌%◌, ◌^◌, ◌<◌, ◌≡◌, ◌≢◌, refl, ap, sym, ◌∙◌, List, [], ◌∷◌, ◌++◌,
  length, map, take, replicate, true, false, ltb, ◌==◌, if◌then◌else◌, arith, length-append,
  length-replicate, length-map, some, Bool-cases, inl, inr,
}
use rustqlite.Base.Bytes.{slice, All, All-append, take-length_append}
use rustqlite.Error.{ok}
use rustqlite.Vfs.MemFile.{file_size}
use rustqlite.Vfs.MemFile.Bytes.{append_nil}
use rustqlite.Format.Wal.{WalHeader, decode_header, checksum_big_endian}
use rustqlite.Pager.Recovery.Replay.{read_at_middle}
use rustqlite.Pager.WalIndex.{append_frames}
use rustqlite.Pager.Wal.{
  Wal, Recovered, sums, frame_offset, header_sums, nothing_recovered, recover_loop, finish_recovery,
  recover, open_with, open_wal, same_sums,
}
use rustqlite.Pager.Wal.Scan.{
  Entry, IsEntry, page_number, log_bytes, log_sums, gather, scan, length-log_bytes,
}
use rustqlite.Pager.Wal.Gather.{IsOpen, gather-append, gather_open}
use rustqlite.Format.Wal.Checksum.{IsU32}

-- The header of a log and its 32 bytes.
pub record IsSigned (hdr : List ℕ) (header : WalHeader) (page_size : ℕ) : Type 0 where
  pub long : length hdr ≡ 32
  pub decodes : decode_header hdr ≡ ok header
  pub sealed :
      same_sums
        (sums (slice 0 24 hdr) (checksum_big_endian header) (0, 0))
        header.checksum1
        header.checksum2
      ≡ true
  pub page : header.page_size ≡ page_size
  pub whole : page_size % 8 ≡ 0
  pub first : header.salt1 < 2 ^ 32
  pub second : header.salt2 < 2 ^ 32
  pub seeds : IsU32 (header_sums header)

-- The sums behind the header and the frames.
abbrev pub end_sums : Wal → List Entry → ℕ × ℕ
end_sums w entries = log_sums w.header (header_sums w.header) entries

abbrev pub gathered : Wal → List Entry → Recovered
gathered w entries = gather w.header 1 (header_sums w.header) entries nothing_recovered

-- A log whose frames are all committed, as it is in the file and in memory.
pub record IsLog (hdr : List ℕ) (entries : List Entry) (w : Wal) : Type 0 where
  pub signed : IsSigned hdr w.header w.page_size
  pub frames : All (IsEntry w.page_size) entries
  pub file : w.file ≡ some (hdr ++ log_bytes w.header (header_sums w.header) entries)
  pub count : w.mx_frame ≡ length entries
  pub index : w.blocks ≡ append_frames 0 (map page_number entries) []
  pub sums_carried : w.frame_cksum ≡ some (end_sums w entries)
  pub pages : (gathered w entries).frame_pgnos ≡ map page_number entries
  pub last : (gathered w entries).last_commit_frame ≡ length entries
  pub size : (gathered w entries).last_commit_npage ≡ w.n_page
  pub sealed : length entries ≢ 0 → (gathered w entries).last_commit_cksum ≡ end_sums w entries

abbrev zero_byte : ℕ
zero_byte = 0

rounds_of : (m k t : ℕ) → t < k → (m * k + t) / k ≡ m
rounds_of m k t h = grind arith

-- The log as it is when the loop of `recover` starts.
abbrev fresh : List ℕ → Wal → Wal
fresh file w = record w {
  file = some file;
  blocks = [];
  mx_frame = 0;
  n_page = 0;
  frame_cksum = some (header_sums w.header);
}

module _ (hdr : List ℕ) (w : Wal) (s : IsSigned hdr w.header w.page_size) where
  abbrev bytes_of : List Entry → List ℕ
  bytes_of entries = log_bytes w.header (header_sums w.header) entries

  whole_frames :
      (entries : List Entry) (torn : List ℕ)
      → All (IsEntry w.page_size) entries
      → length torn < w.page_size + 24
      → (length (hdr ++ (bytes_of entries ++ torn)) - 32) / (w.page_size + 24) ≡ length entries
  whole_frames entries torn all short =
      let k : ℕ = w.page_size + 24 in
      let len =
        length-log_bytes w.header w.page_size s.whole s.first s.second entries
          (header_sums w.header) all in
      let e : length (hdr ++ (bytes_of entries ++ torn)) - 32 ≡ length entries * k + length torn =
        omega (
          arith,
          length-append hdr (bytes_of entries ++ torn),
          length-append (bytes_of entries) torn,
          s.long,
          len,
        ) in
      rw e (rounds_of (length entries) k (length torn) short)

  scan_all :
      (entries : List Entry) (torn : List ℕ)
      → All (IsEntry w.page_size) entries
      → recover_loop
          (length entries)
          w.header
          w.page_size
          (hdr ++ (bytes_of entries ++ torn))
          1
          (header_sums w.header)
          nothing_recovered
        ≡ ok (gathered w entries)
  scan_all entries torn all =
      let at : length hdr ≡ frame_offset w.page_size 1 =
        unfold frame_offset in omega (arith, s.long) in
      let run =
        scan w.header w.page_size s.whole s.first s.second entries 0 hdr torn 1
          (header_sums w.header) nothing_recovered all s.seeds (omega arith) at in
      let e : length entries + 0 ≡ length entries = omega arith in
      rw e at run ∙ (unfold recover_loop in refl)

  recover_lem :
      (entries : List Entry) (torn : List ℕ)
      → All (IsEntry w.page_size) entries
      → length torn < w.page_size + 24
      → recover
          (hdr ++ (bytes_of entries ++ torn))
          (length (hdr ++ (bytes_of entries ++ torn)))
          (fresh (hdr ++ (bytes_of entries ++ torn)) w)
        ≡ ok (finish_recovery (fresh (hdr ++ (bytes_of entries ++ torn)) w) (gathered w entries))
  unfolding recover
  recover_lem [] torn all short =
      rw (whole_frames [] torn all short) (unfold finish_recovery gather append_frames in refl)
  recover_lem (e ∷ entries) torn all short =
      let more : (suc (length entries) == 0) ≡ false = ground arith in
      rw (whole_frames (e ∷ entries) torn all short, more)
        (rw (scan_all (e ∷ entries) torn all) refl)

  open_lem :
      (entries : List Entry) (torn : List ℕ)
      → All (IsEntry w.page_size) entries
      → length torn < w.page_size + 24
      → open_wal (some (hdr ++ (bytes_of entries ++ torn))) w.page_size
        ≡ ok (finish_recovery (fresh (hdr ++ (bytes_of entries ++ torn)) w) (gathered w entries))
  unfolding open_wal open_with file_size
  open_lem entries torn all short =
      let rest = bytes_of entries ++ torn in
      let read =
        read_at_middle [] hdr rest (replicate 32 0) (length-replicate 32 zero_byte ∙ sym s.long)
          (omega (arith, s.long)) in
      let long : ltb (length (hdr ++ rest)) 32 ≡ false =
        ground (arith, length-append hdr rest, s.long) in
      let same : (w.header.page_size == w.page_size) ≡ true = ground (arith, s.page) in
      rw (read, s.long, long, s.decodes, same, s.sealed) (recover_lem entries torn all short)

-- Recovery of a log that agrees with its file, and of whatever open frames stand behind it.
module _ (hdr : List ℕ) (entries more : List Entry) (w : Wal) (g : IsLog hdr entries w)
    (all_open : IsOpen more) where
  gathered_more : gathered w (entries ++ more) ≡ record (gathered w entries) {
    frame_pgnos = (gathered w entries).frame_pgnos ++ map page_number more;
  }
  gathered_more =
      gather-append w.header entries more 1 (header_sums w.header) nothing_recovered
      ∙ gather_open w.header more _ _ (gathered w entries) all_open

  visible :
      take (length entries) (map page_number entries ++ map page_number more)
      ≡ map page_number entries
  visible =
      let e = length-map entries page_number in
      rw (← e) (take-length_append (map page_number entries) (map page_number more))

  carried :
      some (
        if length entries == 0
        then header_sums w.header
        else (gathered w entries).last_commit_cksum)
      ≡ w.frame_cksum
  carried = elim (Bool-cases (length entries == 0)) [
    | inl none_yet ↦
        rw none_yet (sym (g.sums_carried ∙ ap some (no_sums entries (ground (arith, none_yet)))))
    | inr there ↦ rw there (ap some (g.sealed (ground (arith, there))) ∙ sym g.sums_carried)
  ]
    where
      no_sums : (es : List Entry) → length es ≡ 0 → end_sums w es ≡ header_sums w.header
      no_sums [] e = unfold log_sums in refl
      no_sums (x ∷ es) e = absurd (omega arith)

  finish_lem :
      (file : List ℕ)
      → finish_recovery (fresh file w) (gathered w (entries ++ more))
        ≡ record w { file = some file }
  unfolding finish_recovery
  finish_lem file =
      rw (gathered_more, g.last, g.size, g.pages, visible)
        (λ i. record w {
          file = some file;
          blocks = sym g.index i;
          mx_frame = sym g.count i;
          frame_cksum = carried i;
        })

-- Opening the file again gives the log that is in memory, also when frames of a transaction that was
-- not committed, or a part of a frame, stand behind the log.
pub open-IsLog :
    (hdr : List ℕ) (entries more : List Entry) (torn : List ℕ) (w : Wal)
    → IsLog hdr entries w
    → IsOpen more
    → All (IsEntry w.page_size) more
    → length torn < w.page_size + 24
    → open_wal
        (some (hdr ++ (log_bytes w.header (header_sums w.header) (entries ++ more) ++ torn)))
        w.page_size
      ≡ ok (record w {
        file = some (hdr ++ (log_bytes w.header (header_sums w.header) (entries ++ more) ++ torn));
      })
open-IsLog hdr entries more torn w g all_open all short =
    open_lem hdr w g.signed (entries ++ more) torn
      (All-append (IsEntry w.page_size) entries more g.frames all) short
    ∙ ap ok (finish_lem hdr entries more w g all_open _)

pub reopen-IsLog :
    (hdr : List ℕ) (entries : List Entry) (w : Wal)
    → IsLog hdr entries w
    → open_wal w.file w.page_size ≡ ok w
reopen-IsLog hdr entries w g =
    let bytes = hdr ++ (log_bytes w.header (header_sums w.header) (entries ++ []) ++ []) in
    let plain : bytes ≡ hdr ++ log_bytes w.header (header_sums w.header) entries =
      ap (λ t. hdr ++ t) (append_nil (log_bytes w.header (header_sums w.header) (entries ++ [])))
      ∙ ap (λ es. hdr ++ log_bytes w.header (header_sums w.header) es) (append_nil entries) in
    let file : w.file ≡ some bytes = g.file ∙ ap some (sym plain) in
    let opened = open-IsLog hdr entries [] [] w g tt tt (omega arith) in
    ap (λ f. open_wal f w.page_size) file ∙ opened ∙ (λ i. ok (record w { file = sym file i }))
