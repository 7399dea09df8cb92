-- ===== src/Pager/JournalMode.antt =====
-- crates/rustsqlite-core/src/pager/mod.rs: the journal modes and their names.
pub mod Names
pub mod Sound
use rustqlite.Base.{
  ℕ, List, [], ◌∷◌, map, length, take, Bool, true, false, ◌&&◌, ◌||◌, ◌==◌, leb, Option, none, some,
  if◌then◌else◌,
}
use rustqlite.Base.Bytes.{bytes_eq}
use rustqlite.Types.Collation.{ascii_lower}

pub data JournalMode : Type 0 where
  delete persist off truncate memory wal_mode query : JournalMode

unfoldable pub name : JournalMode → List ℕ
name delete = b'd' ∷ b'e' ∷ b'l' ∷ b'e' ∷ b't' ∷ b'e' ∷ []
name persist = b'p' ∷ b'e' ∷ b'r' ∷ b's' ∷ b'i' ∷ b's' ∷ b't' ∷ []
name off = b'o' ∷ b'f' ∷ b'f' ∷ []
name truncate = b't' ∷ b'r' ∷ b'u' ∷ b'n' ∷ b'c' ∷ b'a' ∷ b't' ∷ b'e' ∷ []
name memory = b'm' ∷ b'e' ∷ b'm' ∷ b'o' ∷ b'r' ∷ b'y' ∷ []
name wal_mode = b'w' ∷ b'a' ∷ b'l' ∷ []
name query = b'q' ∷ b'u' ∷ b'e' ∷ b'r' ∷ b'y' ∷ []

unfoldable pub eq_ignore_ascii_case : List ℕ → List ℕ → Bool
eq_ignore_ascii_case a b = bytes_eq (map ascii_lower a) (map ascii_lower b)

-- The tests on one mode of the loop.
unfoldable pub is_named : List ℕ → JournalMode → Bool
unfolding name eq_ignore_ascii_case
is_named s m =
    eq_ignore_ascii_case s (name m)
    || leb 1 (length s)
      && leb (length s) (length (name m))
      && eq_ignore_ascii_case (take (length s) (name m)) s

unfoldable pub first_named : List JournalMode → List ℕ → Option JournalMode
unfolding is_named
first_named [] s = none
first_named (m ∷ modes) s = let rest = first_named modes s in if is_named s m then some m else rest

abbrev pub modes : List JournalMode
modes = delete ∷ persist ∷ off ∷ truncate ∷ memory ∷ wal_mode ∷ []

unfoldable pub from_name : List ℕ → Option JournalMode
unfolding first_named
from_name s = first_named modes s

unfoldable pub is_rollback : JournalMode → Bool
is_rollback wal_mode = false
is_rollback query = false
is_rollback _ = true
