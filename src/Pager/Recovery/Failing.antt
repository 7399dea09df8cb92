-- ===== src/Pager/Recovery/Failing.antt =====
-- crates/rustsqlite-core/src/pager/mod.rs: `recover_hot_journal` where calls of the file system fail.
use rustqlite.Base.{
  ℕ, zero, suc, ◌+◌, ◌-◌, ◌*◌, List, take, min, replicate, not, ◌||◌, ◌==◌, Option, none, some, leb,
  ltb, if◌then◌else◌,
}
use rustqlite.Base.Bytes.{slice, be_u32}
use rustqlite.Error.{Result, ok, err, Message, io_err}
use rustqlite.Error.Action.{Action, pure, fail, ◌>>◌}
use rustqlite.Vfs.Lock.{shared, exclusive}
use rustqlite.Vfs.Lock.Handles.{lock, unlock, check_reserved_lock}
use rustqlite.Vfs.MemFile.{read_at, write_at, truncate}
use rustqlite.Pager.Journal.{JournalHeader, parse_header, pager_cksum, record_len, journal_hdr_sz}
use rustqlite.Pager.Recovery.{Disk}

-- The files, the number of calls that succeed before one fails, and how many bytes the write that fails
-- still places.
pub record Failing : Type 0 where
  pub disk : Disk
  pub calls : ℕ
  pub placed : ℕ

-- A call of the file system: what it does, and what it does when it fails.
abbrev pub call : (Disk → Disk) → (ℕ → Disk → Disk) → Action Failing (Unit {0})
call change torn s = elim s.calls [
  | zero ↦ (record s { disk = torn s.placed s.disk }, err (io_err (Message.plain "disk I/O error")))
  | suc n ↦ (record s { disk = change s.disk; calls = n }, ok tt)
]

-- One that fails without any effect.
abbrev pub whole_call : (Disk → Disk) → Action Failing (Unit {0})
whole_call change = call change (λ j d. d)

abbrev pub put : ℕ → List ℕ → Disk → Disk
put off bytes d = record d { database = write_at d.database off bytes }

abbrev pub write_call : ℕ → List ℕ → Action Failing (Unit {0})
write_call off bytes = call (put off bytes) (λ j. put off (take j bytes))

unfoldable pub replay_failing : ℕ → JournalHeader → List ℕ → ℕ → Action Failing (Unit {0})
replay_failing zero header jfile off = pure tt
replay_failing (suc rounds) header jfile off =
    let rec_len = record_len header.page_size in
    let r = read_at jfile off (replicate rec_len 0) in
    let pgno = be_u32 (slice 0 4 r.1) in
    let bytes = slice 4 (4 + header.page_size) r.1 in
    let stored = be_u32 (slice (4 + header.page_size) (8 + header.page_size) r.1) in
    let more = replay_failing rounds header jfile (off + rec_len) in
    let rest : Action Failing (Unit {0}) =
      if ltb r.0 rec_len
      then pure tt
      else if pgno == 0 || not (pager_cksum header.cksum_init bytes == stored)
      then pure tt
      else if leb pgno header.db_orig_size
      then write_call ((pgno - 1) * header.page_size) bytes >> more
      else more in
    whole_call (λ d. d) >> rest

abbrev pub cut_to : ℕ → Disk → Disk
cut_to size d = record d { database = truncate d.database size }

abbrev pub delete_journal : Disk → Disk
delete_journal d = record d { journal = none }

abbrev pub back_to_shared : Disk → Disk
back_to_shared d =
    let u = unlock d.lock_state d.level shared in record d { lock_state = u.0; level = u.1 }

-- The write-back, once the lock is held: truncation, sync, deletion and unlocking follow the loop.
unfoldable pub finish_failing : JournalHeader → Action Failing (Unit {0})
finish_failing header =
    whole_call (cut_to (header.db_orig_size * header.page_size))
    >> (whole_call (λ d. d) >> (whole_call delete_journal >> whole_call back_to_shared))

unfoldable pub locked_failing :
    JournalHeader → List ℕ → Result (Unit {0}) → Action Failing (Unit {0})
unfolding replay_failing finish_failing
locked_failing header jfile (err e) = fail e
locked_failing header jfile (ok u) =
    replay_failing header.nrec header jfile journal_hdr_sz >> finish_failing header

-- `let _ = vfs.delete(..)`: an error is dropped.
abbrev pub delete_quietly : Action Failing (Unit {0})
delete_quietly s = ((whole_call delete_journal s).0, ok tt)

-- The escalation to EXCLUSIVE.
unfoldable pub lock_failing : JournalHeader → List ℕ → Action Failing (Unit {0})
unfolding locked_failing
lock_failing header jfile s =
    let l = lock s.disk.lock_state s.disk.level exclusive in
    let held : Failing = record s { disk = record s.disk { lock_state = l.0; level = l.1 } } in
    locked_failing header jfile l.2 held

unfoldable pub with_header_failing : List ℕ → Option JournalHeader → Action Failing (Unit {0})
unfolding lock_failing
with_header_failing jfile none = delete_quietly
with_header_failing jfile (some header) =
    if header.page_size == 0 then delete_quietly else lock_failing header jfile

-- The journal is opened and its header read, unless a writer is at work.
unfoldable pub open_failing : List ℕ → Action Failing (Unit {0})
unfolding with_header_failing
open_failing jfile s =
    let r = read_at jfile 0 (replicate journal_hdr_sz 0) in
    let opened : Action Failing (Unit {0}) =
      whole_call (λ d. d)
      >> (whole_call (λ d. d)
          >> with_header_failing jfile (parse_header (take (min r.0 journal_hdr_sz) r.1))) in
    if check_reserved_lock s.disk.lock_state then pure tt s else opened s

unfoldable pub journal_failing : Option (List ℕ) → Action Failing (Unit {0})
unfolding open_failing
journal_failing none = pure tt
journal_failing (some jfile) = whole_call (λ d. d) >> open_failing jfile

-- `recover_hot_journal`: the journal is looked for first.
unfoldable pub recover_failing : Action Failing (Unit {0})
unfolding journal_failing
recover_failing s =
    let found : Action Failing (Unit {0}) = whole_call (λ d. d) >> journal_failing s.disk.journal in
    found s
