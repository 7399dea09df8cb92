-- ===== src/Tests/Recovery.antt =====
-- Recovery from a hot journal on small files.
use rustqlite.Base.{ℕ, ◌⊎◌, zero, suc, ◌≡◌, refl, inl, inr, false, List, [], ◌∷◌, none, some, arith}
use rustqlite.Error.{Error, ok, err}
use rustqlite.Pager.Recovery.Failing.{
  Failing, recover_failing, journal_failing, open_failing, with_header_failing, lock_failing,
  locked_failing, replay_failing, finish_failing,
}
use rustqlite.Pager.Crash.{restarted}
use rustqlite.Pager.Crash.Retry.{recover_failing_lem}
use rustqlite.Vfs.MemFile.{read_at, write_at}
use rustqlite.Pager.Journal.{
  parse_header, build_header, build_record, pager_cksum, cksum_loop, record_len,
}
use rustqlite.Vfs.Lock.{
  unlocked, exclusive, as_u8, apply_lock, lock_exclusive, is_some, blocks_readers,
}
use rustqlite.Vfs.Lock.Handles.{lock, lock_named, check_reserved_lock}
use rustqlite.Pager.Recovery.{Disk, recover_hot_journal}
use rustqlite.Pager.Recovery.Replay.{Image, records}
use rustqlite.Pager.Recovery.Restore.{IsPreImage, IsDamaged}
use rustqlite.Pager.Recovery.Outcome.{journal_file, IsJournal, recover_hot_journal_lem}

abbrev two_pages : List ℕ
two_pages = 1 ∷ 2 ∷ 3 ∷ 4 ∷ []

abbrev second_image : List Image
second_image = (2, 3 ∷ 4 ∷ []) ∷ []

-- The crash left a torn second page, and pages behind it.
abbrev crashed : Disk
crashed = record {
  database = 1 ∷ 2 ∷ 9 ∷ 4 ∷ 8 ∷ 8 ∷ [];
  journal = some (journal_file 1 5 2 2 second_image (7 ∷ []));
  lock_state = some (record { n_shared = 0; writer = none });
  level = unlocked;
}

two_page_numbers : IsJournal 1 5 2 2
two_page_numbers = record {
  count = omega arith;
  seeded = omega arith;
  sized = omega arith;
  paged = omega arith;
  real = λ e. omega (arith, e);
}

second-IsPreImage : IsPreImage 2 two_pages (2, 3 ∷ 4 ∷ [])
second-IsPreImage zero h = refl
second-IsPreImage (suc zero) h = refl
second-IsPreImage (suc (suc i)) h = absurd (omega arith)

torn : IsDamaged 2 two_pages second_image crashed.database
torn zero h = inl refl
torn (suc zero) h = inl refl
torn (suc (suc zero)) h = inr (inl (omega arith, omega arith))
torn (suc (suc (suc zero))) h = inl refl
torn (suc (suc (suc (suc i)))) h = absurd (omega arith)

not_reserved : check_reserved_lock crashed.lock_state ≡ false
unfolding check_reserved_lock is_some
not_reserved = refl

granted : (lock crashed.lock_state crashed.level exclusive).2 ≡ ok tt
unfolding lock lock_named apply_lock lock_exclusive is_some blocks_readers as_u8
granted = refl

recover_hot_journal_lem_example :
    ((recover_hot_journal crashed).0.database ≡ two_pages)
    × ((recover_hot_journal crashed).0.journal ≡ none)
    × ((recover_hot_journal crashed).1 ≡ ok tt)
recover_hot_journal_lem_example =
    recover_hot_journal_lem 5 2 2 two_pages second_image (7 ∷ []) crashed two_page_numbers refl
      ((λ e. omega (arith, e), omega arith, refl), tt) (second-IsPreImage, tt) torn refl
      not_reserved granted

-- The write of the second page fails after one byte.
abbrev one_byte : Failing
one_byte = record { disk = crashed; calls = 6; placed = 1 }

one_byte_fails : (recover_failing one_byte).0.disk.database ≡ 1 ∷ 2 ∷ 3 ∷ 4 ∷ 8 ∷ 8 ∷ []
unfolding recover_failing journal_failing open_failing with_header_failing lock_failing
    locked_failing replay_failing finish_failing check_reserved_lock lock lock_named apply_lock
    lock_exclusive is_some blocks_readers as_u8 read_at write_at parse_header build_header records
    build_record pager_cksum cksum_loop record_len
one_byte_fails = refl

recover_failing_lem_example :
    (((recover_failing one_byte).1 ≡ ok tt)
      × ((recover_failing one_byte).0.disk.database ≡ two_pages)
      × ((recover_failing one_byte).0.disk.journal ≡ none))
    ⊎ ((e : Error) × ((recover_failing one_byte).1 ≡ err e)
        × ((recover_hot_journal (restarted (recover_failing one_byte).0.disk)).0.database
            ≡ two_pages))
recover_failing_lem_example =
    recover_failing_lem 5 2 2 two_pages second_image (7 ∷ []) one_byte two_page_numbers refl
      ((λ e. omega (arith, e), omega arith, refl), tt) (second-IsPreImage, tt) torn refl
      not_reserved
