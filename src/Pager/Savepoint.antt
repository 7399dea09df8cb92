-- ===== src/Pager/Savepoint.antt =====
-- crates/rustqlite-core/src/pager/mod.rs: the stack of savepoints. Names are ASCII bytes.
use rustqlite.Base.{
  ℕ, suc, ◌-◌, List, [], ◌∷◌, ◌++◌, map, length, take, Bool, true, Option, none, some, get_elem?,
  if◌then◌else◌,
}
use rustqlite.Base.Bytes.{bytes_eq}
use rustqlite.Base.Map.{retain_upto}
use rustqlite.Error.{Error, Message, msg}
use rustqlite.Error.Action.{pure, fail}
use rustqlite.Types.Collation.{ascii_lower}
use rustqlite.Pager.State.{PagerSavepoint, PagerState, Pager, Method, with_state}

unfoldable pub eq_ignore_ascii_case : List ℕ → List ℕ → Bool
eq_ignore_ascii_case a b = bytes_eq (map ascii_lower a) (map ascii_lower b)

-- `iter().position`.
abbrev pub position {ℓ} : {A : Type ℓ} → (A → Bool) → List A → Option ℕ
position test [] = none
position test (x ∷ xs) = let rest = position test xs in if test x then some 0 else next rest
  where
    next : Option ℕ → Option ℕ
    next none = none
    next (some i) = some (suc i)

unfoldable pub open_savepoint : List ℕ → Pager → Pager
open_savepoint name p = record p {
  savepoints =
      p.savepoints
      ++ (record { name = name; n_orig = p.state.page_count; dirty_snapshot = p.state.dirty }) ∷ [];
}

unfoldable pub savepoint_index : Pager → List ℕ → Option ℕ
savepoint_index p name = position (λ s. eq_ignore_ascii_case s.name name) p.savepoints

abbrev pub drop_from : Option ℕ → Pager → Pager × ℕ
drop_from none p = (p, 0)
drop_from (some idx) p =
    (record p { savepoints = take idx p.savepoints }, length p.savepoints - idx)

-- Here the names are compared as they are.
unfoldable pub drop_savepoint_named : List ℕ → Pager → Pager × ℕ
drop_savepoint_named name p = drop_from (position (λ s. bytes_eq s.name name) p.savepoints) p

abbrev pub no_such_savepoint : List ℕ → Error
no_such_savepoint name = msg (Message.with_name "no such savepoint: " name)

abbrev pub release_at : List ℕ → Option ℕ → Method Bool
release_at name none p = fail (no_such_savepoint name) p
release_at name (some idx) p = pure true (record p { savepoints = take idx p.savepoints })

unfoldable pub release_savepoint : List ℕ → Method Bool
release_savepoint name p = release_at name (savepoint_index p name) p

-- The overlay and the page count of the savepoint.
abbrev pub restore : PagerSavepoint → PagerState → PagerState
restore sp st = record st {
  dirty = sp.dirty_snapshot;
  cache = retain_upto sp.n_orig st.cache;
  page_count = sp.n_orig;
}

abbrev pub restore_from : Option PagerSavepoint → Pager → Pager
restore_from none p = p
restore_from (some sp) p = with_state (restore sp) p

-- The index was found, so that `savepoints[idx]` is there.
abbrev pub roll_back_to : List ℕ → Option ℕ → Method (Unit {0})
roll_back_to name none p = fail (no_such_savepoint name) p
roll_back_to name (some idx) p = pure tt (
    restore_from (get_elem? p.savepoints idx)
      (record p { savepoints = take (suc idx) p.savepoints }))

unfoldable pub rollback_to_savepoint : List ℕ → Method (Unit {0})
rollback_to_savepoint name p = roll_back_to name (savepoint_index p name) p

unfoldable pub clear_savepoints : Pager → Pager
clear_savepoints p = record p { savepoints = [] }

unfoldable pub savepoint_depth : Pager → ℕ
savepoint_depth p = length p.savepoints
