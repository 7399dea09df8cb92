-- ===== src/Vfs/Lock/Upgrade.antt =====
-- The way up to EXCLUSIVE.
use rustqlite.Base.{ℕ, zero, suc, ◌≤◌, ◌≡◌, refl, ap, ◌∙◌, Option, some, none, get_elem?, arith}
use rustqlite.Error.{ok}
use rustqlite.Vfs.Lock.{
  LockLevel, LockState, locked, unlocked, shared, reserved, pending, exclusive, as_u8, apply_lock,
  lock_exclusive, is_some,
}
use rustqlite.Vfs.Lock.Count.{count-one}
use rustqlite.Vfs.Lock.Handles.{Handles, lock_named}
use rustqlite.Vfs.Lock.Exclusion.{IsConsistent, Held}

stuck :
    (n : ℕ) (w : Option LockLevel) (r s e : ℕ)
    → Held w r s e
    → 1 ≤ s
    → lock_named (record { n_shared = n; writer = w }) reserved exclusive
      ≡ (record { n_shared = n; writer = w }, reserved, locked)
unfolding lock_named apply_lock lock_exclusive is_some as_u8
stuck n none r s e h k = absurd (omega arith)
stuck n (some unlocked) r s e h k = absurd h
stuck n (some shared) r s e h k = absurd h
stuck n (some reserved) r s e h k = ground arith
stuck n (some pending) r s e h k = absurd h
stuck n (some exclusive) r s e h k = absurd (omega arith)

-- Where the lock state of a path agrees with the levels of its handles, as `Reachable-IsConsistent`
-- has it, a handle at RESERVED that asks for EXCLUSIVE is told that the database is locked, and nothing
-- changes, even when it is the only handle: the writer that stands in its way is itself.
pub reserved_is_stuck :
    (h : Handles) (i : ℕ)
    → IsConsistent h
    → get_elem? h.levels i ≡ some reserved
    → lock_named h.state reserved exclusive ≡ (h.state, reserved, locked)
reserved_is_stuck h i c g =
    stuck h.state.n_shared h.state.writer _ _ _ c.fits.2
      (unfold as_u8 in omega (arith, count-one reserved reserved h.levels i g))

abbrev readers : ℕ → LockState
readers n = record { n_shared = n; writer = none }

-- The state after a number of attempts of a handle at SHARED to get EXCLUSIVE.
unfoldable pub attempts : ℕ → LockState → LockState
attempts zero st = st
attempts (suc k) st = attempts k (lock_named st shared exclusive).0

attempt :
    (n : ℕ)
    → lock_named (readers (suc (suc n))) shared exclusive ≡ (readers (suc n), shared, locked)
unfolding lock_named apply_lock lock_exclusive is_some as_u8
attempt n = ground arith

granted :
    lock_named (readers 1) shared exclusive
    ≡ (record { n_shared = 0; writer = some exclusive }, exclusive, ok tt)
unfolding lock_named apply_lock lock_exclusive is_some as_u8
granted = refl

attempts_lem : (n : ℕ) → attempts n (readers (suc n)) ≡ readers 1
unfolding attempts
attempts_lem zero = refl
attempts_lem (suc n) = ap (λ r. attempts n r.0) (attempt n) ∙ attempts_lem n

-- With `n + 2` readers and no writer, a reader that asks for EXCLUSIVE is told that the database is
-- locked, but its own SHARED lock is no longer counted: after `n + 1` attempts the next one is
-- granted, while the other readers still hold their SHARED locks.
pub retry_is_granted :
    (n : ℕ)
    → (lock_named (readers (suc (suc n))) shared exclusive ≡ (readers (suc n), shared, locked))
      × (lock_named (attempts (suc n) (readers (suc (suc n)))) shared exclusive
          ≡ (record { n_shared = 0; writer = some exclusive }, exclusive, ok tt))
retry_is_granted n =
    (attempt n, ap (λ st. lock_named st shared exclusive) (attempts_lem (suc n)) ∙ granted)
