-- ===== src/Pager/Crash/Retry.antt =====
-- A recovery that fails at a call of the file system is made good by the next one.
use rustqlite.Base.{
  ℕ, zero, suc, ◌+◌, ◌-◌, ◌*◌, ◌^◌, ◌<◌, ◌≡◌, ◌⊎◌, inl, inr, refl, ap, sym, ◌∙◌, List, [], ◌∷◌,
  ◌++◌, length, take, replicate, min, false, ◌==◌, Option, some, none, arith, length-append,
  append_assoc, length-replicate, length-take, take_all,
}
use rustqlite.Base.Bytes.{All}
use rustqlite.Error.{Error, Result, ok, err}
use rustqlite.Error.Action.{continue}
use rustqlite.Vfs.Lock.Handles.{check_reserved_lock, lock}
use rustqlite.Vfs.Lock.{exclusive}
use rustqlite.Vfs.MemFile.{read_at, write_at, truncate}
use rustqlite.Vfs.MemFile.Bytes.{byte_at}
use rustqlite.Pager.Journal.{
  JournalHeader, build_record, build_header, parse_header, journal_hdr_sz, record_len,
}
use rustqlite.Pager.Journal.Laws.{parse_header-build_header}
use rustqlite.Pager.Recovery.{Disk, recover_hot_journal}
use rustqlite.Pager.Recovery.Replay.{
  Image, records, write_back, IsImage, record_parts, record_long, read_at_middle,
}
use rustqlite.Pager.Recovery.Restore.{IsPreImage, IsDamaged, truncate-write_back}
use rustqlite.Pager.Recovery.Outcome.{journal_file, header_of, IsJournal}
use rustqlite.Pager.Recovery.Failing.{
  Failing, whole_call, put, replay_failing, cut_to, delete_journal, back_to_shared, finish_failing,
  locked_failing, lock_failing, with_header_failing, open_failing, journal_failing, recover_failing,
}
use rustqlite.Pager.Journaling.{page_numbers}
use rustqlite.Pager.Crash.{restarted}
use rustqlite.Pager.Crash.Atomic.{recover-restarted}
use rustqlite.Pager.Crash.Commit.{recover-none}
use rustqlite.Pager.Crash.Calls.{
  zero_byte, after_call, put-IsDamaged, replay_failing_step, AreImaged, all_imaged,
}

module _ (seed orig page_size : ℕ) (file : List ℕ) (images : List Image) (junk : List ℕ) where
  abbrev jf : List ℕ
  jf = journal_file (length images) seed orig page_size images junk

  abbrev hdr : JournalHeader
  hdr = header_of (length images) seed orig page_size

  -- The journal is there, and only pages with images differ from the database of before.
  abbrev IsHot : Disk → Type 0
  IsHot d = IsDamaged page_size file images d.database × (d.journal ≡ some jf)

  -- The recovery can be done again, or has been done.
  abbrev IsRestorable : Disk → Type 0
  IsRestorable d = IsHot d ⊎ ((d.database ≡ file) × (d.journal ≡ none))

  abbrev Replayed : List ℕ → Failing × Result (Unit {0}) → Type 0
  Replayed db (s, err e) = IsHot s.disk
  Replayed db (s, ok u) = IsHot s.disk × (s.disk.database ≡ db)

  replay-Replayed :
      (todo : List Image) (pre jfile : List ℕ) (off : ℕ) (s : Failing)
      → seed < 2 ^ 32
      → orig < 2 ^ 32
      → jfile ≡ pre ++ (records seed todo ++ junk)
      → off ≡ length pre
      → All (IsImage orig page_size) todo
      → AreImaged (page_numbers images) todo
      → IsHot s.disk
      → Replayed
          (write_back page_size todo s.disk.database)
          (replay_failing (length todo) hdr jfile off s)
  unfolding records write_back AreImaged
  replay-Replayed [] pre jfile off s hs ho e o all has hot = unfold replay_failing in (hot, refl)
  replay-Replayed ((pgno, bytes) ∷ todo) pre jfile off s hs ho e o all has hot =
      let mid = build_record pgno bytes seed in
      let tail = records seed todo ++ junk in
      let parts = record_parts pgno seed page_size bytes (omega arith) hs all.0.2 in
      let nested : jfile ≡ pre ++ (mid ++ tail) =
        e ∙ ap (λ t. pre ++ t) (append_assoc mid (records seed todo) junk) in
      let moved : jfile ≡ (pre ++ mid) ++ tail = nested ∙ sym (append_assoc pre mid tail) in
      let read =
        read_at_middle pre mid tail (replicate (record_len page_size) zero_byte)
          (omega (arith, parts.3, length-replicate (record_len page_size) zero_byte))
          (record_long page_size mid parts.3) in
      let step =
        replay_failing_step (length todo) hdr jfile off pgno bytes mid s
          ((λ i. read_at (nested i) (o i) (replicate (record_len page_size) zero_byte))
            ∙ read
            ∙ ap (λ n. (n, mid)) parts.3)
          parts.0 parts.1 parts.2 all.0.0 all.0.1 in
      let T = write_back page_size todo (write_at s.disk.database ((pgno - 1) * page_size) bytes) in
      let start : ℕ = (pgno - 1) * page_size in
      rw step (
        after_call (Replayed T) (λ d. d) (λ j d. d) s _ hot
          (λ n.
            after_call (Replayed T) (put start bytes) (λ j. put start (take j bytes))
              (record s { calls = n }) _
              (
                put-IsDamaged page_size file images pgno (take s.placed bytes) s.disk.database has.0
                    (omega (arith, length-take s.placed bytes, all.0.2)) hot.0,
                hot.1,
              )
              (λ m.
                replay-Replayed todo (pre ++ mid) jfile (off + record_len page_size)
                  (record s { disk = put start bytes s.disk; calls = m }) hs ho moved
                  (omega (arith, o, parts.3, length-append pre mid)) all.1 has.1
                  (
                    put-IsDamaged page_size file images pgno bytes s.disk.database has.0
                        (omega (arith, all.0.2)) hot.0,
                    hot.1,
                  ))))

  abbrev IsRestored : Disk → Type 0
  IsRestored d = (d.database ≡ file) × (d.journal ≡ none)

  -- After an error the recovery can be done again, or has been done; otherwise it has been done.
  abbrev Ends : Failing × Result (Unit {0}) → Type 0
  Ends (s, err e) = IsRestorable s.disk
  Ends (s, ok u) = IsRestored s.disk

  finish-Ends :
      (s : Failing)
      → IsHot s.disk
      → truncate s.disk.database (orig * page_size) ≡ file
      → Ends (finish_failing hdr s)
  unfolding finish_failing
  finish-Ends s hot whole =
      let cut = cut_to (orig * page_size) in
      let same : IsDamaged page_size file images (truncate s.disk.database (orig * page_size)) =
        λ i within. inl (ap (λ f. byte_at f i) whole) in
      after_call Ends cut (λ j d. d) s _ (inl hot)
        (λ n.
          after_call Ends (λ d. d) (λ j d. d) (record s { disk = cut s.disk; calls = n }) _
            (inl (same, hot.1))
            (λ m.
              after_call Ends delete_journal (λ j d. d) (record s { disk = cut s.disk; calls = m })
                _ (inl (same, hot.1))
                (λ k. unlocked (delete_journal (cut s.disk)) k s.placed (whole, refl))))
    where
      unlocked :
          (d : Disk) (c j : ℕ)
          → (d.database ≡ file) × (d.journal ≡ none)
          → Ends (whole_call back_to_shared (record { disk = d; calls = c; placed = j }))
      unlocked d zero j done = inr done
      unlocked d (suc c) j done = done

  after_replay :
      (db : List ℕ) (r : Failing × Result (Unit {0}))
      → Replayed db r
      → truncate db (orig * page_size) ≡ file
      → Ends (continue r (λ u. finish_failing hdr))
  after_replay db (s, err e) hot whole = inl hot
  after_replay db (s, ok u) (hot, e) whole =
      finish-Ends s hot (ap (λ t. truncate t (orig * page_size)) e ∙ whole)

  module _ (numbers : IsJournal (length images) seed orig page_size)
      (len : length file ≡ orig * page_size) (all : All (IsImage orig page_size) images)
      (pre : All (IsPreImage page_size file) images) where
    head_parsed :
        (length (build_header (length images) seed orig page_size) ≡ journal_hdr_sz)
        × (parse_header (build_header (length images) seed orig page_size) ≡ some hdr)
    head_parsed =
        parse_header-build_header (length images) seed orig page_size numbers.count numbers.seeded
          numbers.sized numbers.paged

    header_read :
        parse_header (
          take
            (min (read_at jf 0 (replicate journal_hdr_sz 0)).0 journal_hdr_sz)
            (read_at jf 0 (replicate journal_hdr_sz 0)).1)
        ≡ some hdr
    header_read =
        let head = build_header (length images) seed orig page_size in
        let read =
          read_at_middle [] head (records seed images ++ junk) (replicate journal_hdr_sz 0)
            (sym head_parsed.0) (omega (arith, head_parsed.0)) in
        let whole : take (min (length head) journal_hdr_sz) head ≡ head =
          take_all (min (length head) journal_hdr_sz) head (omega (arith, head_parsed.0)) in
        rw (read, whole) head_parsed.1

    locked-Ends :
        (r : Result (Unit {0})) (s : Failing) → IsHot s.disk → Ends (locked_failing hdr jf r s)
    unfolding locked_failing
    locked-Ends (err e) s hot = inl hot
    locked-Ends (ok u) s hot =
        after_replay (write_back page_size images s.disk.database) _
          (replay-Replayed images (build_header (length images) seed orig page_size) jf
            journal_hdr_sz s numbers.seeded numbers.sized refl (sym head_parsed.0) all
            (all_imaged images) hot)
          (truncate-write_back page_size file orig images s.disk.database len all pre hot.0)

    header-Ends :
        (o : Option JournalHeader) (s : Failing)
        → o ≡ some hdr
        → IsHot s.disk
        → Ends (with_header_failing jf o s)
    unfolding with_header_failing lock_failing
    header-Ends o s e hot =
        let l = lock s.disk.lock_state s.disk.level exclusive in
        let real : (page_size == 0) ≡ false = ground (arith, numbers.real) in
        rw (e, real)
          (locked-Ends l.2 (record s { disk = record s.disk { lock_state = l.0; level = l.1 } })
            hot)

    open-Ends :
        (s : Failing)
        → check_reserved_lock s.disk.lock_state ≡ false
        → IsHot s.disk
        → Ends (open_failing jf s)
    unfolding open_failing
    open-Ends s free hot = rw free (
        after_call Ends (λ d. d) (λ j d. d) s _ (inl hot)
          (λ n.
            after_call Ends (λ d. d) (λ j d. d) (record s { calls = n }) _ (inl hot)
              (λ m. header-Ends _ (record s { calls = m }) header_read hot)))

    journal-Ends :
        (o : Option (List ℕ)) (s : Failing)
        → o ≡ some jf
        → check_reserved_lock s.disk.lock_state ≡ false
        → IsHot s.disk
        → Ends (journal_failing o s)
    unfolding journal_failing
    journal-Ends o s e free hot = rw e (
        after_call Ends (λ d. d) (λ j d. d) s _ (inl hot)
          (λ m. open-Ends (record s { calls = m }) free hot))

    recover-Ends :
        (s : Failing)
        → check_reserved_lock s.disk.lock_state ≡ false
        → IsHot s.disk
        → Ends (recover_failing s)
    unfolding recover_failing
    recover-Ends s free hot =
        after_call Ends (λ d. d) (λ j d. d) s _ (inl hot)
          (λ n. journal-Ends s.disk.journal (record s { calls = n }) hot.1 free hot)

    restored : (d : Disk) → IsRestorable d → (recover_hot_journal (restarted d)).0.database ≡ file
    unfolding restarted
    restored d (inl hot) =
        (recover-restarted seed orig page_size file images junk d numbers len all pre hot.0 hot.1).0
    restored d (inr done) = recover-none (restarted d) done.1 ∙ done.0

    outcome :
        (r : Failing × Result (Unit {0}))
        → Ends r
        → ((r.1 ≡ ok tt) × (r.0.disk.database ≡ file) × (r.0.disk.journal ≡ none))
          ⊎ ((e : Error) × (r.1 ≡ err e)
              × ((recover_hot_journal (restarted r.0.disk)).0.database ≡ file))
    outcome (s, ok u) done = inl (refl, done.0, done.1)
    outcome (s, err e) ends = inr (e, refl, restored s.disk ends)

-- Recovery from a hot journal of page images, when no other handle has the writer's lock, either
-- returns without error, and leaves the database of before the transaction and no journal; or it
-- returns an error, from a call of the file system that fails, a write also after part of its bytes, or
-- from the lock, and then the recovery at the next start leaves the database of before.
pub recover_failing_lem :
    (seed orig page_size : ℕ) (file : List ℕ) (images : List Image) (junk : List ℕ) (s : Failing)
    → IsJournal (length images) seed orig page_size
    → length file ≡ orig * page_size
    → All (IsImage orig page_size) images
    → All (IsPreImage page_size file) images
    → IsDamaged page_size file images s.disk.database
    → s.disk.journal ≡ some (journal_file (length images) seed orig page_size images junk)
    → check_reserved_lock s.disk.lock_state ≡ false
    → (((recover_failing s).1 ≡ ok tt)
        × ((recover_failing s).0.disk.database ≡ file)
        × ((recover_failing s).0.disk.journal ≡ none))
      ⊎ ((e : Error) × ((recover_failing s).1 ≡ err e)
          × ((recover_hot_journal (restarted (recover_failing s).0.disk)).0.database ≡ file))
recover_failing_lem seed orig page_size file images junk s numbers len all pre damaged there free =
    outcome seed orig page_size file images junk numbers len all pre (recover_failing s) (
      recover-Ends seed orig page_size file images junk numbers len all pre s free (damaged, there))
