-- ===== src/Pager/Crash/Calls.antt =====
-- The calls of the file system in a recovery, one by one.
use rustqlite.Base.{
  ℕ, zero, suc, ◌+◌, ◌-◌, ◌*◌, ◌≤◌, ◌≡◌, ◌≢◌, inl, inr, refl, ◌∙◌, List, [], ◌∷◌, length, replicate,
  true, false, ltb, leb, ◌&&◌, ◌==◌, arith, Bool-cases,
}
use rustqlite.Base.Bytes.{All, slice, be_u32}
use rustqlite.Base.Map.{contains}
use rustqlite.Error.{Result, err, Message, io_err}
use rustqlite.Error.Action.{Action, continue}
use rustqlite.Vfs.MemFile.{read_at, write_at}
use rustqlite.Vfs.MemFile.Bytes.{byte_at}
use rustqlite.Vfs.MemFile.Writing.{write_at_lem}
use rustqlite.Pager.Journal.{JournalHeader, record_len, pager_cksum}
use rustqlite.Pager.Recovery.{Disk}
use rustqlite.Pager.Recovery.Replay.{Image}
use rustqlite.Pager.Recovery.Restore.{IsDamaged}
use rustqlite.Pager.Recovery.Failing.{Failing, call, whole_call, write_call, replay_failing}
use rustqlite.Pager.Journaling.{page_numbers}
use rustqlite.Pager.Journaling.Images.{page-IsCovered}

abbrev pub zero_byte : ℕ
zero_byte = 0

-- Both outcomes of a call.
pub after_call :
    (Q : Failing × Result (Unit {0}) → Type 0) (change : Disk → Disk) (torn : ℕ → Disk → Disk)
    (s : Failing) (next : Unit {0} → Action Failing (Unit {0}))
    → Q (record s { disk = torn s.placed s.disk }, err (io_err (Message.plain "disk I/O error")))
    → ((n : ℕ) → Q (next tt (record s { disk = change s.disk; calls = n })))
    → Q (continue (call change torn s) next)
after_call Q change torn s next failed done = at s.disk s.calls s.placed failed done
  where
    at :
        (d : Disk) (c j : ℕ)
        → Q (
          record { disk = torn j d; calls = c; placed = j },
          err (io_err (Message.plain "disk I/O error")),
        )
        → ((n : ℕ) → Q (next tt (record { disk = change d; calls = n; placed = j })))
        → Q (continue (call change torn (record { disk = d; calls = c; placed = j })) next)
    at d zero j failed done = failed
    at d (suc c) j failed done = done c

-- A write into a page with an image, of part of a page, does no other damage.
pub put-IsDamaged :
    (page_size : ℕ) (file : List ℕ) (images : List Image) (pgno : ℕ) (bytes db : List ℕ)
    → contains pgno (page_numbers images) ≡ true
    → length bytes ≤ page_size
    → IsDamaged page_size file images db
    → IsDamaged page_size file images (write_at db ((pgno - 1) * page_size) bytes)
put-IsDamaged page_size file images pgno bytes db has short damaged i within =
    let start : ℕ = (pgno - 1) * page_size in
    let written = (write_at_lem db start bytes).1 i in
    elim (Bool-cases (leb start i && ltb i (start + length bytes))) [
      | inl inside ↦ inr (
          page-IsCovered page_size i pgno images has
            (ground (arith, inside), ground (arith, inside, short)))
      | inr outside ↦
          let kept : byte_at (write_at db start bytes) i ≡ byte_at db i =
            written ∙ rw outside refl in
          elim (damaged i within) [ inl same ↦ inl (kept ∙ same) | inr other ↦ inr other ]
    ]

-- One round at a record that is there.
pub replay_failing_step :
    (rounds : ℕ) (header : JournalHeader) (jfile : List ℕ) (off : ℕ) (pgno : ℕ) (bytes mid : List ℕ)
    (s : Failing)
    → read_at jfile off (replicate (record_len header.page_size) 0)
      ≡ (record_len header.page_size, mid)
    → be_u32 (slice 0 4 mid) ≡ pgno
    → slice 4 (4 + header.page_size) mid ≡ bytes
    → be_u32 (slice (4 + header.page_size) (8 + header.page_size) mid)
      ≡ pager_cksum header.cksum_init bytes
    → pgno ≢ 0
    → pgno ≤ header.db_orig_size
    → replay_failing (suc rounds) header jfile off s
      ≡ continue (whole_call (λ d. d) s) (λ u t.
        continue
          (write_call ((pgno - 1) * header.page_size) bytes t)
          (λ v. replay_failing rounds header jfile (off + record_len header.page_size)))
unfolding replay_failing
replay_failing_step rounds header jfile off pgno bytes mid s hr hp hb hs nz le =
    let whole : ltb (record_len header.page_size) (record_len header.page_size) ≡ false =
      ground arith in
    let real : (pgno == 0) ≡ false = ground arith in
    let good : (pager_cksum header.cksum_init bytes == pager_cksum header.cksum_init bytes) ≡ true =
      ground arith in
    let inside : leb pgno header.db_orig_size ≡ true = ground arith in
    rw (hr, hp, hb, hs, whole, real, good, inside) refl

unfoldable pub AreImaged : List ℕ → List Image → Type 0
AreImaged numbers todo = All (λ im. contains im.0 numbers ≡ true) todo

pub more_imaged :
    (k : ℕ) (numbers : List ℕ) (todo : List Image)
    → AreImaged numbers todo
    → AreImaged (k ∷ numbers) todo
unfolding AreImaged
more_imaged k numbers [] has = tt
more_imaged k numbers (im ∷ todo) has = (ground (arith, has.0), more_imaged k numbers todo has.1)

pub all_imaged : (images : List Image) → AreImaged (page_numbers images) images
unfolding AreImaged
all_imaged [] = tt
all_imaged (im ∷ images) =
    (ground arith, more_imaged im.0 (page_numbers images) images (all_imaged images))
