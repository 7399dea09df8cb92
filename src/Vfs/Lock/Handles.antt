-- ===== src/Vfs/Lock/Handles.antt =====
-- The locks of the handles on one path: `lock`, `unlock` and `check_reserved_lock` of `MemFile` in
-- crates/rustsqlite-core/src/vfs/memvfs.rs, and the steps of a system of handles.
use rustqlite.Base.{
  ℕ, ◌≡◌, Bool, false, Option, none, some, List, set, get_elem?, leb, if◌then◌else◌,
}
use rustqlite.Error.{Result, ok, err}
use rustqlite.Vfs.Lock.{
  LockLevel, unlocked, shared, reserved, exclusive, as_u8, LockState, apply_lock, apply_unlock,
  is_some,
}

-- The stores after `apply_lock`: `?` returns before the level is stored.
abbrev pub after_lock :
    LockLevel
    → LockLevel
    → LockState × Result (Unit {0})
    → LockState × LockLevel × Result (Unit {0})
after_lock current level (st, ok u) = (st, level, ok u)
after_lock current level (st, err e) = (st, current, err e)

-- `lock` and `unlock` of a handle at `current`, on a named file.
unfoldable pub lock_named :
    LockState → LockLevel → LockLevel → LockState × LockLevel × Result (Unit {0})
lock_named st current level =
    if leb (as_u8 level) (as_u8 current)
    then (st, current, ok tt)
    else after_lock current level (apply_lock st current level)

unfoldable pub unlock_named : LockState → LockLevel → LockLevel → LockState × LockLevel
unlock_named st current level =
    if leb (as_u8 current) (as_u8 level)
    then (st, current)
    else (apply_unlock st current level, level)

-- A private file has no lock state.
unfoldable pub lock :
    Option LockState → LockLevel → LockLevel → Option LockState × LockLevel × Result (Unit {0})
unfolding lock_named
lock none current level =
    (none, (if leb (as_u8 level) (as_u8 current) then current else level), ok tt)
lock (some st) current level = let r = lock_named st current level in (some r.0, r.1, r.2)

unfoldable pub unlock : Option LockState → LockLevel → LockLevel → Option LockState × LockLevel
unfolding unlock_named
unlock none current level = (none, if leb (as_u8 current) (as_u8 level) then current else level)
unlock (some st) current level = let r = unlock_named st current level in (some r.0, r.1)

unfoldable pub check_reserved_lock : Option LockState → Bool
check_reserved_lock none = false
check_reserved_lock (some st) = is_some st.writer

-- The requests whose effect the lock state records whether they are granted or not: not to PENDING,
-- not from UNLOCKED to RESERVED, and not from SHARED to EXCLUSIVE at once.
pub data Request : LockLevel → LockLevel → Type 0 where
  read : Request unlocked shared
  reserve : Request shared reserved
  write : Request unlocked exclusive
  upgrade : Request reserved exclusive
  again : (l : LockLevel) → Request l l

-- The levels that `unlock` is called with.
pub data Release : LockLevel → Type 0 where
  to_shared : Release shared
  to_unlocked : Release unlocked

-- All handles on one path: their levels, and the state they share.
pub record Handles : Type 0 where
  pub levels : List LockLevel
  pub state : LockState

-- Handle `i`, at level `l`, calls `lock` or `unlock`.
unfoldable pub lock_at : Handles → ℕ → LockLevel → LockLevel → Handles
lock_at h i l t =
    let r = lock_named h.state l t in record { levels = set h.levels i r.1; state = r.0 }

unfoldable pub unlock_at : Handles → ℕ → LockLevel → LockLevel → Handles
unlock_at h i l t =
    let r = unlock_named h.state l t in record { levels = set h.levels i r.1; state = r.0 }

pub data Step (h : Handles) : Handles → Type 0 where
  locks :
      (i : ℕ) (l t : LockLevel)
      → get_elem? h.levels i ≡ some l
      → Request l t
      → Step h (lock_at h i l t)
  -- From SHARED to EXCLUSIVE at once, when that is granted.
  jumps :
      (i : ℕ)
      → get_elem? h.levels i ≡ some shared
      → (lock_named h.state shared exclusive).2 ≡ ok tt
      → Step h (lock_at h i shared exclusive)
  unlocks :
      (i : ℕ) (l t : LockLevel)
      → get_elem? h.levels i ≡ some l
      → Release t
      → Step h (unlock_at h i l t)

pub data Reachable (h : Handles) : Handles → Type 0 where
  start : Reachable h h
  then_step : (m k : Handles) → Reachable h m → Step m k → Reachable h k
