-- ===== src/Tests/Files.antt =====
-- The locks and the bytes of files in memory.
use rustqlite.Base.{
  ℕ, ◌≤◌, ◌<◌, ◌≡◌, refl, List, [], ◌∷◌, some, none, get_elem?, if◌then◌else◌, ltb, leb, ◌&&◌, ◌+◌,
  ◌-◌, arith,
}
use rustqlite.Error.{ok}
use rustqlite.Vfs.Lock.{
  LockState, unlocked, shared, reserved, exclusive, as_u8, locked, apply_lock, is_some,
  blocks_readers,
}
use rustqlite.Vfs.Lock.Handles.{
  Handles, lock_named, lock_at, Reachable, start, then_step, locks, read, reserve,
}
use rustqlite.Vfs.Lock.Exclusion.{
  IsConsistent, opened, opened-IsConsistent, Reachable-IsConsistent, lock_excludes,
}
use rustqlite.Vfs.Lock.Upgrade.{reserved_is_stuck, retry_is_granted, attempts}
use rustqlite.Vfs.MemFile.{read_at, write_at, truncate, file_size}
use rustqlite.Vfs.MemFile.Bytes.{byte_at}
use rustqlite.Vfs.MemFile.Writing.{write_at_lem}

-- Two handles on a path: both get SHARED, and the first RESERVED.
abbrev two_readers : Handles
two_readers = lock_at (lock_at (opened 2) 0 unlocked shared) 1 unlocked shared

abbrev one_reserved : Handles
one_reserved = lock_at two_readers 0 shared reserved

two_reached : Reachable (opened 2) two_readers
unfolding opened lock_at lock_named apply_lock blocks_readers as_u8
two_reached =
    then_step _ _ (then_step _ _ start (locks 0 unlocked shared refl read))
      (locks 1 unlocked shared refl read)

first_shares : get_elem? two_readers.levels 0 ≡ some shared
unfolding opened lock_at lock_named apply_lock blocks_readers as_u8
first_shares = refl

reserved_reached : Reachable (opened 2) one_reserved
reserved_reached = then_step _ _ two_reached (locks 0 shared reserved first_shares reserve)

first_reserves : get_elem? one_reserved.levels 0 ≡ some reserved
unfolding opened lock_at lock_named apply_lock blocks_readers is_some as_u8
first_reserves = refl

second_shares : get_elem? one_reserved.levels 1 ≡ some shared
unfolding opened lock_at lock_named apply_lock blocks_readers is_some as_u8
second_shares = refl

one_reserved-IsConsistent : IsConsistent one_reserved
one_reserved-IsConsistent =
    Reachable-IsConsistent (opened 2) one_reserved reserved_reached
      (opened-IsConsistent 2 (omega arith))

above : 1 < as_u8 reserved
unfolding as_u8
above = omega arith

lock_excludes_example : (as_u8 shared ≤ 1) × (reserved ≡ exclusive → shared ≡ unlocked)
lock_excludes_example =
    lock_excludes 2 one_reserved 0 1 reserved shared (omega arith) reserved_reached (omega arith)
      first_reserves second_shares above

reserved_is_stuck_example :
    lock_named one_reserved.state reserved exclusive ≡ (one_reserved.state, reserved, locked)
reserved_is_stuck_example =
    reserved_is_stuck one_reserved 0 one_reserved-IsConsistent first_reserves

abbrev two_shared : LockState
two_shared = record { n_shared = 2; writer = none }

abbrev one_shared : LockState
one_shared = record { n_shared = 1; writer = none }

abbrev taken_state : LockState
taken_state = record { n_shared = 0; writer = some exclusive }

retry_is_granted_example :
    (lock_named two_shared shared exclusive ≡ (one_shared, shared, locked))
    × (lock_named (attempts 1 two_shared) shared exclusive ≡ (taken_state, exclusive, ok tt))
retry_is_granted_example = retry_is_granted 0

abbrev content : List ℕ
content = 1 ∷ 2 ∷ 3 ∷ []

written : write_at content 5 (7 ∷ 8 ∷ []) ≡ 1 ∷ 2 ∷ 3 ∷ 0 ∷ 0 ∷ 7 ∷ 8 ∷ []
unfolding write_at rustqlite.Vfs.MemFile.resize
written = refl

write_at_lem_example :
    (file_size (write_at content 2 (7 ∷ 8 ∷ [])) ≡ (if ltb 3 (2 + 2) then 2 + 2 else 3))
    × ((i : ℕ)
        → byte_at (write_at content 2 (7 ∷ 8 ∷ [])) i
          ≡ (if leb 2 i && ltb i (2 + 2) then byte_at (7 ∷ 8 ∷ []) (i - 2) else byte_at content i))
write_at_lem_example = write_at_lem content 2 (7 ∷ 8 ∷ [])
