-- ===== src/Vfs/Lock.antt =====
-- crates/rustsqlite-core/src/vfs/mod.rs: lock levels and the lock state that all handles on a path
-- share.
pub mod Handles
pub mod Count
pub mod Exclusion
pub mod Upgrade
use rustqlite.Base.{
  ℕ, ◌+◌, ◌-◌, ◌%◌, ◌^◌, ◌≡◌, refl, Bool, true, false, Option, none, some, leb, ltb, ◌==◌, ◌||◌,
  ◌&&◌, if◌then◌else◌,
}
use rustqlite.Error.{Result, ok, err, Message, busy}

-- `LockLevel`, from the weakest to the strongest.
pub data LockLevel : Type 0 where
  unlocked shared reserved pending exclusive : LockLevel

-- `level as u8`.
unfoldable pub as_u8 : LockLevel → ℕ
as_u8 unlocked = 0
as_u8 shared = 1
as_u8 reserved = 2
as_u8 pending = 3
as_u8 exclusive = 4

unfoldable pub from_u8 : ℕ → LockLevel
from_u8 v =
    if v == 1
    then shared
    else if v == 2
    then reserved
    else if v == 3
    then pending
    else if v == 4
    then exclusive
    else unlocked

pub from_u8-as_u8 : (l : LockLevel) → from_u8 (as_u8 l) ≡ l
unfolding from_u8 as_u8
from_u8-as_u8 unlocked = refl
from_u8-as_u8 shared = refl
from_u8-as_u8 reserved = refl
from_u8-as_u8 pending = refl
from_u8-as_u8 exclusive = refl

-- `LockState`: the number of SHARED locks, a `u32`, and the strongest other lock.
pub record LockState : Type 0 where
  pub n_shared : ℕ
  pub writer : Option LockLevel

abbrev pub locked : Result (Unit {0})
locked = err (busy (Message.plain "database is locked"))

-- Whether a PENDING or EXCLUSIVE lock is held.
unfoldable pub blocks_readers : Option LockLevel → Bool
blocks_readers (some pending) = true
blocks_readers (some exclusive) = true
blocks_readers _ = false

unfoldable pub is_some : Option LockLevel → Bool
is_some none = false
is_some (some w) = true

-- The arm for EXCLUSIVE. `n` is the count after the handle's own SHARED lock is taken off.
unfoldable pub lock_exclusive : ℕ → Option LockLevel → LockState × Result (Unit {0})
lock_exclusive n w =
    if ltb 0 n || is_some w
    then (record { n_shared = n; writer = w }, locked)
    else (record { n_shared = n; writer = some exclusive }, ok tt)

-- `apply_lock`: the state is changed in place, so an error leaves a state as well.
unfoldable pub apply_lock : LockState → LockLevel → LockLevel → LockState × Result (Unit {0})
apply_lock s unlocked unlocked = (s, ok tt)
apply_lock s unlocked shared =
    if blocks_readers s.writer
    then (s, locked)
    else (record { n_shared = (s.n_shared + 1) % 2 ^ 32; writer = s.writer }, ok tt)
apply_lock s unlocked reserved = (s, ok tt)
apply_lock s unlocked pending = (s, ok tt)
apply_lock s unlocked exclusive = lock_exclusive s.n_shared s.writer
apply_lock s shared unlocked = (s, ok tt)
apply_lock s shared shared = (s, ok tt)
apply_lock s shared reserved =
    if is_some s.writer
    then (s, locked)
    else (record { n_shared = s.n_shared - 1; writer = some reserved }, ok tt)
apply_lock s shared pending = (s, ok tt)
apply_lock s shared exclusive = lock_exclusive (s.n_shared - 1) s.writer
apply_lock s reserved pending = (s, ok tt)
apply_lock s reserved exclusive = lock_exclusive s.n_shared s.writer
apply_lock s pending exclusive = lock_exclusive s.n_shared s.writer
apply_lock s _ _ = (s, ok tt)

-- `apply_unlock`: from a level above SHARED the writer is cleared, and SHARED is counted again.
unfoldable pub apply_unlock : LockState → LockLevel → LockLevel → LockState
apply_unlock s current target =
    if ltb 1 (as_u8 current)
    then record {
      n_shared = if as_u8 target == 1 then (s.n_shared + 1) % 2 ^ 32 else s.n_shared;
      writer = none;
    }
    else (if as_u8 current == 1 && as_u8 target == 0
        then record { n_shared = s.n_shared - 1; writer = s.writer }
        else s)
