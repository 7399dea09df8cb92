-- ===== src/Vfs/Lock/Exclusion.antt =====
-- Which locks the handles on one path can hold together.
use rustqlite.Vfs.Lock.Count.{
  one, count, count-set, count_bound, count-unlocked, count-one, count_two,
}
use rustqlite.Base.{
  ℕ, ◌+◌, ◌^◌, ◌≤◌, ◌<◌, ◌≡◌, ◌≢◌, refl, sym, length, get_elem?, length-set, length-replicate,
  replicate, Option, none, some, arith,
}
use rustqlite.Error.{ok}
use rustqlite.Vfs.Lock.{
  LockLevel, unlocked, shared, reserved, pending, exclusive, as_u8, LockState, apply_lock,
  apply_unlock, lock_exclusive, is_some, blocks_readers,
}
use rustqlite.Vfs.Lock.Handles.{
  Handles, Request, read, reserve, write, upgrade, again, Release, to_shared, to_unlocked,
  lock_named, unlock_named, lock_at, unlock_at, Step, locks, jumps, unlocks, Reachable, start,
  then_step,
}

-- The writer that the state names is the one handle above SHARED, and an EXCLUSIVE one is alone.
abbrev pub Held : Option LockLevel → ℕ → ℕ → ℕ → Type 0
Held none r s e = (s ≡ 0) × (e ≡ 0)
Held (some reserved) r s e = (s ≡ 1) × (e ≡ 0)
Held (some exclusive) r s e = (r ≡ 0) × (s ≡ 0) × (e ≡ 1)
Held (some _) r s e = ⊥

abbrev pub Fits : LockState → ℕ → ℕ → ℕ → ℕ → Type 0
Fits st r s p e = (st.n_shared ≡ r) × (p ≡ 0) × Held st.writer r s e

pub record IsConsistent (h : Handles) : Type 0 where
  pub few : length h.levels + 1 < 2 ^ 32
  pub fits :
      Fits h.state
        (count shared h.levels)
        (count reserved h.levels)
        (count pending h.levels)
        (count exclusive h.levels)

abbrev state_of : ℕ → Option LockLevel → LockState
state_of n w = record { n_shared = n; writer = w }

lock-Fits :
    (n : ℕ) (w : Option LockLevel) {l t : LockLevel} (r s p e r' s' p' e' : ℕ)
    → Request l t
    → r + 1 < 2 ^ 32
    → Fits (state_of n w) r s p e
    → r' + one l shared ≡ r + one (lock_named (state_of n w) l t).1 shared
    → s' + one l reserved ≡ s + one (lock_named (state_of n w) l t).1 reserved
    → p' + one l pending ≡ p + one (lock_named (state_of n w) l t).1 pending
    → e' + one l exclusive ≡ e + one (lock_named (state_of n w) l t).1 exclusive
    → Fits (lock_named (state_of n w) l t).0 r' s' p' e'
unfolding lock_named apply_lock lock_exclusive is_some blocks_readers as_u8
lock-Fits n (some unlocked) r s p e r' s' p' e' q b f hr hs hp he = absurd f.2
lock-Fits n (some shared) r s p e r' s' p' e' q b f hr hs hp he = absurd f.2
lock-Fits n (some pending) r s p e r' s' p' e' q b f hr hs hp he = absurd f.2
lock-Fits n w r s p e r' s' p' e' read b f hr hs hp he = ground arith
lock-Fits n w r s p e r' s' p' e' reserve b f hr hs hp he = ground arith
lock-Fits n w r s p e r' s' p' e' write b f hr hs hp he = ground arith
lock-Fits n w r s p e r' s' p' e' upgrade b f hr hs hp he = ground arith
lock-Fits n w r s p e r' s' p' e' (again x) b f hr hs hp he = ground arith

-- A jump that is granted.
jump-Fits :
    (n : ℕ) (w : Option LockLevel) (r s p e r' s' p' e' : ℕ)
    → (lock_named (state_of n w) shared exclusive).2 ≡ ok tt
    → 1 ≤ r
    → Fits (state_of n w) r s p e
    → r' + one shared shared ≡ r + one (lock_named (state_of n w) shared exclusive).1 shared
    → s' + one shared reserved ≡ s + one (lock_named (state_of n w) shared exclusive).1 reserved
    → p' + one shared pending ≡ p + one (lock_named (state_of n w) shared exclusive).1 pending
    → e' + one shared exclusive ≡ e + one (lock_named (state_of n w) shared exclusive).1 exclusive
    → Fits (lock_named (state_of n w) shared exclusive).0 r' s' p' e'
unfolding lock_named apply_lock lock_exclusive is_some blocks_readers as_u8
jump-Fits n none r s p e r' s' p' e' q b f hr hs hp he = ground (arith, q)
jump-Fits n (some x) r s p e r' s' p' e' q b f hr hs hp he = ground (arith, q)

unlock-Fits :
    (n : ℕ) (w : Option LockLevel) (l : LockLevel) {t : LockLevel} (r s p e r' s' p' e' : ℕ)
    → Release t
    → r + 1 < 2 ^ 32
    → Fits (state_of n w) r s p e
    → r' + one l shared ≡ r + one (unlock_named (state_of n w) l t).1 shared
    → s' + one l reserved ≡ s + one (unlock_named (state_of n w) l t).1 reserved
    → p' + one l pending ≡ p + one (unlock_named (state_of n w) l t).1 pending
    → e' + one l exclusive ≡ e + one (unlock_named (state_of n w) l t).1 exclusive
    → Fits (unlock_named (state_of n w) l t).0 r' s' p' e'
unfolding unlock_named apply_unlock as_u8
unlock-Fits n (some unlocked) l r s p e r' s' p' e' q b f hr hs hp he = absurd f.2
unlock-Fits n (some shared) l r s p e r' s' p' e' q b f hr hs hp he = absurd f.2
unlock-Fits n (some pending) l r s p e r' s' p' e' q b f hr hs hp he = absurd f.2
unlock-Fits n w l r s p e r' s' p' e' to_shared b f hr hs hp he = ground arith
unlock-Fits n w l r s p e r' s' p' e' to_unlocked b f hr hs hp he = ground arith

-- Every step of `lock` and `unlock` keeps the lock state in agreement with the levels of the
-- handles.
pub Step-IsConsistent : (h k : Handles) → Step h k → IsConsistent h → IsConsistent k
unfolding lock_at unlock_at
Step-IsConsistent h k (locks i l t g q) c =
    let y = (lock_named h.state l t).1 in
    record {
      few = rw (length-set h.levels i y) c.few;
      fits =
          lock-Fits h.state.n_shared h.state.writer _ _ _ _ _ _ _ _ q
            (omega (arith, count_bound shared h.levels, c.few)) c.fits
            (count-set shared l y h.levels i g) (count-set reserved l y h.levels i g)
            (count-set pending l y h.levels i g) (count-set exclusive l y h.levels i g);
    }
Step-IsConsistent h k (jumps i g q) c =
    let y = (lock_named h.state shared exclusive).1 in
    let held : 1 ≤ count shared h.levels =
      unfold as_u8 in omega (arith, count-one shared shared h.levels i g) in
    record {
      few = rw (length-set h.levels i y) c.few;
      fits =
          jump-Fits h.state.n_shared h.state.writer _ _ _ _ _ _ _ _ q held c.fits
            (count-set shared shared y h.levels i g) (count-set reserved shared y h.levels i g)
            (count-set pending shared y h.levels i g) (count-set exclusive shared y h.levels i g);
    }
Step-IsConsistent h k (unlocks i l t g q) c =
    let y = (unlock_named h.state l t).1 in
    record {
      few = rw (length-set h.levels i y) c.few;
      fits =
          unlock-Fits h.state.n_shared h.state.writer l _ _ _ _ _ _ _ _ q
            (omega (arith, count_bound shared h.levels, c.few)) c.fits
            (count-set shared l y h.levels i g) (count-set reserved l y h.levels i g)
            (count-set pending l y h.levels i g) (count-set exclusive l y h.levels i g);
    }

pub Reachable-IsConsistent : (h k : Handles) → Reachable h k → IsConsistent h → IsConsistent k
Reachable-IsConsistent h k start c = c
Reachable-IsConsistent h k (then_step m _ r s) c =
    Step-IsConsistent m k s (Reachable-IsConsistent h m r c)

-- `n` handles that have just opened the path.
unfoldable pub opened : ℕ → Handles
opened n = record { levels = replicate n unlocked; state = record { n_shared = 0; writer = none } }

pub opened-IsConsistent : (n : ℕ) → n + 1 < 2 ^ 32 → IsConsistent (opened n)
unfolding opened as_u8
opened-IsConsistent n h = record {
  few = rw (length-replicate n unlocked) h;
  fits = (
    sym (count-unlocked shared n (omega arith)),
    count-unlocked pending n (omega arith),
    (count-unlocked reserved n (omega arith), count-unlocked exclusive n (omega arith)),
  );
}

-- The levels that an agreeing state lets two handles have.
one_exclusion :
    (w : Option LockLevel) (x y : LockLevel) (r s p e : ℕ)
    → (p ≡ 0) × Held w r s e
    → 1 < as_u8 x
    → one x shared + one y shared ≤ r
    → one x reserved + one y reserved ≤ s
    → one x pending + one y pending ≤ p
    → one x exclusive + one y exclusive ≤ e
    → (as_u8 y ≤ 1) × (as_u8 x ≡ 4 → as_u8 y ≡ 0)
unfolding as_u8
one_exclusion (some unlocked) x y r s p e f g hr hs hp he = absurd f.1
one_exclusion (some shared) x y r s p e f g hr hs hp he = absurd f.1
one_exclusion (some pending) x y r s p e f g hr hs hp he = absurd f.1
one_exclusion w unlocked y r s p e f g hr hs hp he = absurd (omega arith)
one_exclusion w shared y r s p e f g hr hs hp he = absurd (omega arith)
one_exclusion w pending y r s p e f g hr hs hp he = absurd (omega arith)
one_exclusion w reserved y r s p e f g hr hs hp he = ground arith
one_exclusion w exclusive y r s p e f g hr hs hp he = ground arith

at_unlocked : (y : LockLevel) → as_u8 y ≡ 0 → y ≡ unlocked
unfolding as_u8
at_unlocked y e = ground arith

-- Of `n` handles opened on one path, which ask for no lock to PENDING or from UNLOCKED to RESERVED, and
-- of whose requests from SHARED to EXCLUSIVE at once none is refused: when one is above SHARED, every
-- other one is at most at SHARED, and when it is at EXCLUSIVE, at UNLOCKED.
pub lock_excludes :
    (n : ℕ) (h : Handles) (i j : ℕ) (x y : LockLevel)
    → n + 1 < 2 ^ 32
    → Reachable (opened n) h
    → i ≢ j
    → get_elem? h.levels i ≡ some x
    → get_elem? h.levels j ≡ some y
    → 1 < as_u8 x
    → (as_u8 y ≤ 1) × (x ≡ exclusive → y ≡ unlocked)
lock_excludes n h i j x y b r d gi gj a =
    let c = Reachable-IsConsistent (opened n) h r (opened-IsConsistent n b) in
    let below =
      one_exclusion h.state.writer x y _ _ _ _ (c.fits.1, c.fits.2) a
        (count_two shared x y h.levels i j d gi gj) (count_two reserved x y h.levels i j d gi gj)
        (count_two pending x y h.levels i j d gi gj)
        (count_two exclusive x y h.levels i j d gi gj) in
    (below.0, λ e. at_unlocked y (below.1 (rw e (unfold as_u8 in refl))))
